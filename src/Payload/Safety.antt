-- ===== src/Payload/Safety.antt =====
-- Rules for the outcomes of the parsers: no fault, no lack of fuel, and a fact on what is returned.
use openiked_portable.Base.{
  ℕ, ◌+◌, ◌≤◌, ◌≡◌, Bool, List, true, false, ltb, leb, length, arith, refl, length-take,
  length-drop, drop,
}
use openiked_portable.Payload.{Message, Outcome, Return, ok, failed, ◌>>=◌, ◌>>◌, reject_if, memcpy}

-- What is returned satisfies `P`, the message of an error satisfies `Q`, and there is no fault.
pub data Ends {A : Type 0} (P : A → Type 0) (Q : Message → Type 0) : Outcome A → Type 0 where
  returns : {a : A} → P a → Ends P Q (ok a)
  rejects : {r : Return} {m : Message} → Q m → Ends P Q (failed r m)

pub bind_rule :
    {A B : Type 0} {P : A → Type 0} {R : B → Type 0} {Q : Message → Type 0} {o : Outcome A}
    {f : A → Outcome B}
    → Ends P Q o
    → ((a : A) → P a → Ends R Q (f a))
    → Ends R Q (o >>= f)
bind_rule (returns p) k = k _ p
bind_rule (rejects q) k = rejects q

pub reject_rule :
    {B : Type 0} {R : B → Type 0} {Q : Message → Type 0} (b : Bool) (m : Message) {o : Outcome B}
    → Q m
    → (b ≡ false → Ends R Q o)
    → Ends R Q (reject_if b m >> o)
reject_rule true m q k = rejects q
reject_rule false m q k = k refl

pub weaken :
    {A : Type 0} {P R : A → Type 0} {Q : Message → Type 0} {o : Outcome A}
    → Ends P Q o
    → ((a : A) → P a → R a)
    → Ends R Q o
weaken (returns p) k = returns (k _ p)
weaken (rejects q) k = rejects q

-- A copy of bytes that are in the buffer has as many.
pub memcpy_rule :
    {Q : Message → Type 0} (offset n : ℕ) (m : Message)
    → offset + n ≤ length m.msg_data
    → Ends (λ bs. length bs ≡ n) Q (memcpy offset n m)
unfolding memcpy
memcpy_rule offset n m h =
    let inside : leb (offset + n) (length m.msg_data) ≡ true = ground arith in
    rw inside (
      returns
        (length-take n (drop offset m.msg_data) (omega (arith, length-drop offset m.msg_data))))

-- A header that is copied after the test of the length.
pub header :
    {B : Type 0} {R : B → Type 0} {Q : Message → Type 0} (size offset left : ℕ) (m : Message)
    {f : List ℕ → Outcome B}
    → Q m
    → offset + left ≤ length m.msg_data
    → (size ≤ left → (bs : List ℕ) → Ends R Q (f bs))
    → Ends R Q ((reject_if (ltb left size) m >> memcpy offset size m) >>= f)
header size offset left m q h k =
    bind_rule
      (reject_rule (ltb left size) m q (λ e.
        let enough : size ≤ left = ground arith in
        weaken (memcpy_rule offset size m (omega arith)) (λ bs l. enough)))
      (λ bs enough. k enough bs)

-- ===== src/Parse/Rounds.antt =====
-- That the loop over the payloads, and the parsers that it calls, stay in the message buffer.
use openiked_portable.Payload.Safety.{Ends, returns, rejects, bind_rule, reject_rule, memcpy_rule}
use openiked_portable.Payload.Quick.{KeepsBuffer, validate_pld-Ends, payload_skf}
use openiked_portable.Payload.Filled.{Adds}
use openiked_portable.Payload.Printed.{ikev2_pld_cp-Ends}
use openiked_portable.Base.{
  ap, ◌+◌, ◌≤◌, List, ◌≡◌, false, ℕ, Bool, length, if_rule, ◌-◌, ◌/◌, zero, subst, ◌&&◌, refl,
  arith, not, suc, ◌||◌, ◌<◌, ltb, ◌!=◌, leb, ◌==◌, sym,
}
use openiked_portable.Msg.Wire.{payload_sk}
use openiked_portable.Parse.{
  accepted, Parsed, unended, Parsing, proceed, parsed_by, refused, crashed, payloads_loop,
}
use openiked_portable.Payload.{failed, ok, fault, Outcome, Message, no_fuel, be16, byte, ◌>>◌}
use openiked_portable.Payload.Configuration.{ikev2_pld_cp, print_hex}
use openiked_portable.Payload.Deletion.{
  ikev2_pld_delete, announce, ikev2_validate_delete, store_spis,
}

-- The parse returns, with a fact on what it leaves.
pub data Parses (P : Parsing → Type 0) : Parsed → Type 0 where
  accepts : {p : Parsing} → P p → Parses P (accepted p)
  refuses : {p : Parsing} → P p → Parses P (refused p)

-- The buffer is the one that it was.
abbrev pub IsSafe : List ℕ → Parsed → Type 0
IsSafe bs o = Parses (λ p. p.msg.msg_data ≡ bs) o

abbrev pub Keeps : Message → Outcome Message → Type 0
Keeps m o = Ends (KeepsBuffer m) (KeepsBuffer m) o

-- A parser that does at most as much to the message.
pub less :
    {P Q : Message → Type 0} (m : Message) {o : Outcome Message}
    → Ends P Q o
    → ((k : Message) → P k → KeepsBuffer m k)
    → ((k : Message) → Q k → KeepsBuffer m k)
    → Keeps m o
less m (returns p) f g = returns (f _ p)
less m (rejects q) f g = rejects (g _ q)

pub same_buffer : (m k : Message) → k ≡ m → KeepsBuffer m k
same_buffer m k e = ap (λ l. l.msg_data) e

pub parsed_by-IsSafe :
    {A : Type 0} (f : A → Parsing) (p : Parsing) (o : Outcome A)
    → Ends (λ a. (f a).msg.msg_data ≡ p.msg.msg_data) (KeepsBuffer p.msg) o
    → IsSafe p.msg.msg_data (parsed_by f p o)
unfolding parsed_by
parsed_by-IsSafe f p (ok a) (returns e) = accepts e
parsed_by-IsSafe f p (failed r m) (rejects e) = refuses e
parsed_by-IsSafe f p fault e = elim e [ ]
parsed_by-IsSafe f p no_fuel e = elim e [ ]

-- A switch that is safe on a payload in the buffer.
abbrev pub SafeSwitch : (ℕ → ℕ → ℕ → ℕ → Parsing → Parsed) → Type 0
SafeSwitch s =
    (payload next offset left : ℕ) (p : Parsing)
    → offset + left ≤ length p.msg.msg_data
    → IsSafe p.msg.msg_data (s payload next offset left p)

proceed-Parses :
    (P : Parsing → Type 0) (last : Bool) (k : Parsing → Parsed) (o : Parsed)
    → Parses P o
    → ((q : Parsing) → P q → Parses P (k q))
    → Parses P (proceed last k o)
unfolding proceed
proceed-Parses P last k (accepted q) (accepts e) h =
    if_rule (Parses P) last _ _ (λ y. accepts e) (λ n. h q e)
proceed-Parses P last k (refused q) (refuses e) h =
    if_rule (Parses P) q.msg.frompeer _ _ (λ y. refuses e)
      (λ n. if_rule (Parses P) last _ _ (λ y. accepts e) (λ z. h q e))
proceed-Parses P last k crashed e h = elim e [ ]
proceed-Parses P last k unended e h = elim e [ ]

pub delete-Keeps :
    (offset left : ℕ) (m : Message)
    → offset + left ≤ length m.msg_data
    → Keeps m (ikev2_pld_delete offset left m)
unfolding ikev2_pld_delete ikev2_validate_delete store_spis
delete-Keeps offset left m h =
    bind_rule {P = λ bs. 4 ≤ left}
      (reject_rule (ltb left 4) m refl (λ a.
        let enough : 4 ≤ left = ground arith in
        bind_rule (memcpy_rule offset 4 m (omega arith))
          (λ del l. reject_rule (byte del 0 == 0) m refl (λ z. returns enough))))
      (λ del enough.
        if_rule (Keeps m) ((m.frompeer && m.response) || m.del_protoid != 0) _ _ (λ y. returns refl)
          (λ n.
            let k : Message = announce del m in
            if_rule (Keeps m) (left - 4 == 0 || k.del_spisize == 0 || k.del_cnt == 0) _ _
              (λ y. returns refl)
              (λ z. reject_rule ((left - 4) / k.del_spisize != k.del_cnt) k refl (λ a.
                bind_rule (memcpy_rule (offset + 4) (left - 4) k (omega arith))
                  (λ buf l. returns refl)))))

pub cp-Keeps :
    (verbose : Bool) (offset left : ℕ) (m : Message)
    → verbose ≡ false
    → offset + left ≤ length m.msg_data
    → Keeps m (ikev2_pld_cp verbose offset left m)
cp-Keeps verbose offset left m e h =
    rw e (less m (ikev2_pld_cp-Ends offset left m h) (λ k s. s.buffer) (λ k s. s.buffer))

pub print_hex-Keeps :
    (verbose : Bool) (offset n : ℕ) (m : Message)
    → offset + n ≤ length m.msg_data
    → Keeps m (print_hex verbose offset n m >> ok m)
unfolding print_hex
print_hex-Keeps verbose offset n m h =
    bind_rule
      (if_rule (Ends (λ u. Unit {0}) (KeepsBuffer m)) (not verbose || n == 0) _ _ (λ y. returns tt)
        (λ z. bind_rule (memcpy_rule offset n m h) (λ bytes l. returns tt)))
      (λ u e. returns refl)

pub field-Keeps : (m : Message) (o : Outcome Message) → Adds m o → Keeps m o
field-Keeps m o a = less m a (λ k g. g.buffer) (same_buffer m)

validated :
    (P : Parsing → Type 0) (total : ℕ) (p : Parsing) (o : Outcome (List ℕ)) (f : List ℕ → Parsed)
    → P p
    → Ends (λ pld. (4 ≤ be16 pld 2) × (be16 pld 2 ≤ total)) (KeepsBuffer p.msg) o
    → ((pld : List ℕ) → 4 ≤ be16 pld 2 → be16 pld 2 ≤ total → Parses P (f pld))
    → Parses P
        (elim o [ ok pld ↦ f pld | failed r m ↦ refused p | fault ↦ crashed | no_fuel ↦ unended ])
validated P total p (ok pld) f e (returns s) k = k pld s.0 s.1
validated P total p (failed r m) f e (rejects s) k = refuses e
validated P total p fault f e s k = elim s [ ]
validated P total p no_fuel f e s k = elim s [ ]

-- The loop, with an invariant of the switch.
module _ (s : ℕ → ℕ → ℕ → ℕ → Parsing → Parsed) (bs : List ℕ) (P : Parsing → Type 0)
    (same : (p : Parsing) → P p → p.msg.msg_data ≡ bs)
    (keeps : (payload next offset left : ℕ) (p : Parsing)
      → P p
      → offset + left ≤ length bs
      → Parses P (s payload next offset left p)) where
  pub payloads_loop-Parses :
      (n payload len offset total : ℕ) (p : Parsing)
      → P p
      → (offset < len → offset + total ≡ len)
      → len ≤ length bs
      → total < n
      → Parses P (payloads_loop s n payload len offset total p)
  unfolding payloads_loop
  payloads_loop-Parses zero payload len offset total p b e h k = absurd (omega arith)
  payloads_loop-Parses (suc n) payload len offset total p b e h k =
      if_rule (Parses P) (payload == 0 || leb len offset) _ _ (λ y. accepts b)
        (λ z.
          let inside : offset < len = ground arith in
          let here : offset + total ≤ length bs = omega (arith, e inside) in
          let held : offset + total ≤ length p.msg.msg_data =
            subst (λ d. offset + total ≤ length d) (sym (same p b)) here in
          validated P total p _ _ b
            (validate_pld-Ends (record { offset = offset; left = total; msg = p.msg }) held)
            (λ pld four fits.
              proceed-Parses P (payload == payload_sk || payload == payload_skf) _ _
                (keeps payload (byte pld 0) (offset + 4) (be16 pld 2 - 4) p b
                  (omega (arith, here, four, fits)))
                (λ q c.
                  payloads_loop-Parses n (byte pld 0) len (offset + 4 + (be16 pld 2 - 4))
                    (total - 4 - (be16 pld 2 - 4)) q c (λ i. omega (arith, e inside, four, fits)) h
                    (omega (arith, four, fits)))))

pub payloads_loop-IsSafe :
    (s : ℕ → ℕ → ℕ → ℕ → Parsing → Parsed) (bs : List ℕ)
    → SafeSwitch s
    → (n payload len offset total : ℕ) (p : Parsing) → p.msg.msg_data ≡ bs
    → (offset < len → offset + total ≡ len)
    → len ≤ length bs
    → total < n
    → IsSafe bs (payloads_loop s n payload len offset total p)
payloads_loop-IsSafe s bs safe =
    payloads_loop-Parses s bs (λ p. p.msg.msg_data ≡ bs) (λ p e. e)
      (λ payload next offset left p e h.
        subst (λ d. IsSafe d (s payload next offset left p)) e
          (safe payload next offset left p (subst (λ d. offset + left ≤ length d) (sym e) h)))

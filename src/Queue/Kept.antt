-- ===== src/Queue/Kept.antt =====
-- What a queue holds: the messages of an exchange stand in one entry, in the order in which they
-- were sent.
use openiked_portable.Base.{
  inr, suc, Bool, false, arith, ◌&&◌, [], ◌∷◌, true, ℕ, ◌++◌, inl, refl, List, ◌≡◌, All, Bool-cases,
  ◌==◌, if◌then◌else◌, if_rule,
}
use openiked_portable.Queue.{
  found, next, Queued, ikev2_msg_lookup, Retransmit, Lookup, crash, missing,
}

-- A message of this exchange.
abbrev pub has_key : ℕ → ℕ → Queued → Bool
has_key msgid exchange m = m.msg_msgid == msgid && m.msg_exchange == exchange

-- The messages that the queue has for an exchange: a map from exchanges to lists of messages.
abbrev pub chosen : Bool → List Queued → List Queued
chosen true ms = ms
chosen false ms = []

abbrev pub leads : ℕ → ℕ → List Queued → Bool
leads msgid exchange [] = false
leads msgid exchange (m ∷ ms) = has_key msgid exchange m

abbrev pub waiting : ℕ → ℕ → List Retransmit → List Queued
waiting msgid exchange [] = []
waiting msgid exchange (mr ∷ queue) =
    chosen (leads msgid exchange mr.frags) mr.frags ++ waiting msgid exchange queue

-- An entry with messages, all of one exchange.
pub record IsEntry (msgid exchange : ℕ) (mr : Retransmit) : Type 0 where
  pub some_frag : leads msgid exchange mr.frags ≡ true
  pub alike : All (λ m. has_key msgid exchange m ≡ true) mr.frags

-- Entries of different exchanges.
pub data IsQueue : List Retransmit → Type 0 where
  no_entries : IsQueue []
  entry :
      {mr : Retransmit} {queue : List Retransmit} (msgid exchange : ℕ)
      → IsEntry msgid exchange mr
      → waiting msgid exchange queue ≡ []
      → IsQueue queue
      → IsQueue (mr ∷ queue)

same_key :
    (a b c d : ℕ) (m : Queued) → has_key a b m ≡ true → has_key c d m ≡ true → (a ≡ c) × (b ≡ d)
same_key a b c d m x y = (ground arith, ground arith)

-- What the entry with these messages has for an exchange.
leads-other :
    (a b c d : ℕ) (ms : List Queued)
    → leads a b ms ≡ true
    → (a ≡ c → b ≡ d → ⊥)
    → leads c d ms ≡ false
leads-other a b c d [] x n = refl
leads-other a b c d (m ∷ ms) x n = elim (Bool-cases (has_key c d m)) [
  | inl y ↦ (let s = same_key a b c d m x y in absurd (n s.0 s.1))
  | inr e ↦ e
]

pub leads-append :
    (a b : ℕ) (ms rest : List Queued)
    → leads a b ms ≡ true
    → (c d : ℕ) → leads c d (ms ++ rest) ≡ leads c d ms
leads-append a b [] rest h c d = absurd (cc h)
leads-append a b (m ∷ ms) rest h c d = refl

-- What the lookup finds: the entry of the exchange.
pub data Found (msgid exchange : ℕ) : List Retransmit → Lookup → Type 0 where
  absent :
      {queue : List Retransmit}
      → waiting msgid exchange queue ≡ []
      → Found msgid exchange queue missing
  here :
      {mr : Retransmit} {queue : List Retransmit}
      → leads msgid exchange mr.frags ≡ true
      → Found msgid exchange (mr ∷ queue) (found 0)
  there :
      {mr : Retransmit} {queue : List Retransmit} {i : ℕ}
      → leads msgid exchange mr.frags ≡ false
      → Found msgid exchange queue (found i)
      → Found msgid exchange (mr ∷ queue) (found (suc i))

lookup_next :
    (a b : ℕ) (mr : Retransmit) (queue : List Retransmit) (l : Lookup)
    → leads a b mr.frags ≡ false
    → Found a b queue l
    → Found a b (mr ∷ queue) (next l)
lookup_next a b mr queue missing e (absent w) = absent (rw e w)
lookup_next a b mr queue (found i) e (here h) = there e (here h)
lookup_next a b mr queue (found i) e (there h k) = there e (there h k)
lookup_next a b mr queue crash e f = elim f [ ]

-- The step of the lookup at an entry.
Found-step :
    (a b k x : ℕ) (fs : List Queued) (mr : Retransmit) (queue : List Retransmit) (l : Lookup)
    → mr.frags ≡ fs
    → leads k x fs ≡ true
    → Found a b queue l
    → Found a b
        (mr ∷ queue)
        (elim fs [ [] ↦ crash | m ∷ ms ↦ if has_key a b m then found 0 else next l ])
Found-step a b k x [] mr queue l e h f = absurd (cc h)
Found-step a b k x (m ∷ ms) mr queue l e h f =
    if_rule (Found a b (mr ∷ queue)) (has_key a b m) _ _ (λ y. here (rw e y))
      (λ n. lookup_next a b mr queue l (rw e n) f)

pub ikev2_msg_lookup-Found :
    (queue : List Retransmit) (a b : ℕ)
    → IsQueue queue
    → Found a b queue (ikev2_msg_lookup queue a b)
unfolding ikev2_msg_lookup
ikev2_msg_lookup-Found [] a b no_entries = absent refl
ikev2_msg_lookup-Found (mr ∷ queue) a b (entry k x e w rest) =
    Found-step a b k x mr.frags mr queue (ikev2_msg_lookup queue a b) refl e.some_frag
      (ikev2_msg_lookup-Found queue a b rest)

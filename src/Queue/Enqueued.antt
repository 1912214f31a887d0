-- ===== src/Queue/Enqueued.antt =====
-- What ikev2_msg_enqueue of iked/ikev2_msg.c makes of the messages that a queue holds.
use openiked_portable.Base.{
  ℕ, inr, suc, [], ◌++◌, arith, inl, ◌≡◌, List, zero, ◌∷◌, false, true, Bool-cases, some,
  append-nil, append_assoc, refl, ◌∙◌, sym, ap, Option, none, All,
}
use openiked_portable.Queue.Kept.{
  IsQueue, waiting, Found, has_key, entry, leads, there, chosen, here, absent, no_entries,
  ikev2_msg_lookup-Found, leads-append,
}
use openiked_portable.Queue.{
  found, append_at, Queued, Retransmit, missing, ikev2_msg_lookup, crash, ikev2_msg_enqueue, Lookup,
}

-- The message, if it is of this exchange.
abbrev pub added : ℕ → ℕ → Queued → List Queued
added msgid exchange msg = chosen (has_key msgid exchange msg) (msg ∷ [])

same_lead :
    (a b c d : ℕ) (ms : List Queued) → leads a b ms ≡ true → leads c d ms ≡ true → (a ≡ c) × (b ≡ d)
same_lead a b c d [] x y = absurd (cc x)
same_lead a b c d (m ∷ ms) x y = (ground arith, ground arith)

-- A message of an exchange is of no other one.
other_key :
    (a b c d : ℕ) (ms : List Queued) (msg : Queued)
    → leads c d ms ≡ true
    → leads a b ms ≡ false
    → has_key a b msg ≡ true
    → has_key c d msg ≡ false
other_key a b c d [] msg x y z = absurd (cc x)
other_key a b c d (m ∷ ms) msg x y z = ground arith

also_key :
    (a b c d : ℕ) (ms : List Queued) (msg : Queued)
    → leads c d ms ≡ true
    → leads a b ms ≡ true
    → has_key a b msg ≡ true
    → has_key c d msg ≡ true
also_key a b c d [] msg x y z = absurd (cc x)
also_key a b c d (m ∷ ms) msg x y z = ground arith

-- Of an exchange that an entry is not of.
still_other :
    (a b c d : ℕ) (ms : List Queued) (msg : Queued)
    → leads c d ms ≡ false
    → leads a b ms ≡ true
    → has_key a b msg ≡ true
    → has_key c d msg ≡ false
still_other a b c d [] msg x y z = absurd (cc y)
still_other a b c d (m ∷ ms) msg x y z = ground arith

waiting-append_at :
    (a b c d i : ℕ) (queue : List Retransmit) (msg : Queued)
    → IsQueue queue
    → Found a b queue (found i)
    → has_key a b msg ≡ true
    → waiting c d (append_at queue i msg) ≡ waiting c d queue ++ added c d msg
unfolding append_at
waiting-append_at a b c d zero (mr ∷ queue) msg (entry k x e w rest) (here h) key =
    let lead = leads-append a b mr.frags (msg ∷ []) h c d in
    elim (Bool-cases (leads c d mr.frags)) [
      | inl y ↦
          let same = same_lead c d k x mr.frags y e.some_frag in
          let nothing : waiting c d queue ≡ [] = rw (same.0, same.1) w in
          let also = also_key a b c d mr.frags msg y h key in
          rw (lead, y, nothing, also, append-nil (mr.frags ++ (msg ∷ [])), append-nil mr.frags) refl
      | inr n ↦
          let apart = still_other a b c d mr.frags msg n h key in
          rw (lead, n, apart) (sym (append-nil (waiting c d queue)))
    ]
waiting-append_at a b c d (suc i) (mr ∷ queue) msg (entry k x e w rest) (there h f) key =
    rw (waiting-append_at a b c d i queue msg rest f key) (
      sym (append_assoc (chosen (leads c d mr.frags) mr.frags) (waiting c d queue) (added c d msg)))
waiting-append_at a b c d i [] msg q f key = elim f [ ]

waiting-append :
    (c d : ℕ) (queue more : List Retransmit)
    → waiting c d (queue ++ more) ≡ waiting c d queue ++ waiting c d more
waiting-append c d [] more = refl
waiting-append c d (mr ∷ queue) more = rw (waiting-append c d queue more) (
    sym
      (append_assoc (chosen (leads c d mr.frags) mr.frags) (waiting c d queue) (waiting c d more)))

All-append :
    (P : Queued → Type 0) (ms : List Queued) (m : Queued) → All P ms → P m → All P (ms ++ (m ∷ []))
All-append P [] m h p = (p, tt)
All-append P (n ∷ ms) m h p = (h.0, All-append P ms m h.1 p)

-- The exchange of the message that is put in.
own_key : (msg : Queued) → has_key msg.msg_msgid msg.msg_exchange msg ≡ true
own_key msg = ground arith

abbrev new_entry : Queued → ℕ → Retransmit
new_entry msg timeout = record { frags = msg ∷ []; tries = 0; timer = timeout }

-- An exchange of which the queue has nothing is none of an entry in it.
nothing_waits :
    (a b : ℕ) (mr : Retransmit) (queue : List Retransmit)
    → waiting a b (mr ∷ queue) ≡ []
    → (leads a b mr.frags ≡ false) × (waiting a b queue ≡ [])
nothing_waits a b mr queue w = go mr.frags w
  where
    go :
        (fs : List Queued)
        → chosen (leads a b fs) fs ++ waiting a b queue ≡ []
        → (leads a b fs ≡ false) × (waiting a b queue ≡ [])
    go [] e = (refl, e)
    go (m ∷ ms) e = elim (Bool-cases (has_key a b m)) [
      | inl y ↦ absurd (cc (rw y at e))
      | inr n ↦ (n, rw n at e)
    ]

append_at-IsQueue :
    (a b i : ℕ) (queue : List Retransmit) (msg : Queued)
    → IsQueue queue
    → Found a b queue (found i)
    → has_key a b msg ≡ true
    → IsQueue (append_at queue i msg)
unfolding append_at
append_at-IsQueue a b zero (mr ∷ queue) msg (entry k x e w rest) (here h) key =
    entry k x
      (record {
        some_frag = leads-append k x mr.frags (msg ∷ []) e.some_frag k x ∙ e.some_frag;
        alike =
            All-append (λ m. has_key k x m ≡ true) mr.frags msg e.alike
              (also_key a b k x mr.frags msg e.some_frag h key);
      })
      w rest
append_at-IsQueue a b (suc i) (mr ∷ queue) msg (entry k x e w rest) (there h f) key =
    let apart = other_key a b k x mr.frags msg e.some_frag h key in
    entry k x e (rw (waiting-append_at a b k x i queue msg rest f key, w, apart) refl)
      (append_at-IsQueue a b i queue msg rest f key)
append_at-IsQueue a b i [] msg q f key = elim f [ ]

new_entry-IsQueue :
    (queue : List Retransmit) (msg : Queued) (timeout : ℕ)
    → IsQueue queue
    → waiting msg.msg_msgid msg.msg_exchange queue ≡ []
    → IsQueue (queue ++ (new_entry msg timeout ∷ []))
new_entry-IsQueue [] msg timeout no_entries w =
    entry msg.msg_msgid msg.msg_exchange
      (record { some_frag = own_key msg; alike = (own_key msg, tt) }) refl no_entries
new_entry-IsQueue (mr ∷ queue) msg timeout (entry k x e w rest) none_yet =
    let (n, w') = nothing_waits msg.msg_msgid msg.msg_exchange mr queue none_yet in
    let apart =
      other_key msg.msg_msgid msg.msg_exchange k x mr.frags msg e.some_frag n (own_key msg) in
    entry k x e (rw (waiting-append k x queue (new_entry msg timeout ∷ []), w, apart) refl)
      (new_entry-IsQueue queue msg timeout rest w')

-- The queue after a message has been put in.
pub record Enqueued (queue : List Retransmit) (msg : Queued) (out : Option (List Retransmit))
    : Type 0 where
  pub queue' : List Retransmit
  pub is : out ≡ some queue'
  pub well : IsQueue queue'
  pub holds :
      (msgid exchange : ℕ)
      → waiting msgid exchange queue' ≡ waiting msgid exchange queue ++ added msgid exchange msg

put_in :
    (queue : List Retransmit) (msg : Queued) (timeout : ℕ) (l : Lookup)
    → IsQueue queue
    → Found msg.msg_msgid msg.msg_exchange queue l
    → Enqueued queue msg (elim l [
      | found i ↦ some (append_at queue i msg)
      | missing ↦ some (queue ++ (new_entry msg timeout ∷ []))
      | crash ↦ none
    ])
put_in queue msg timeout missing q (absent w) = record {
  queue' = queue ++ (new_entry msg timeout ∷ []);
  is = refl;
  well = new_entry-IsQueue queue msg timeout q w;
  holds = λ c d.
      waiting-append c d queue (new_entry msg timeout ∷ [])
      ∙ ap (waiting c d queue ++◌) (append-nil (added c d msg));
}
put_in queue msg timeout (found i) q f = record {
  queue' = append_at queue i msg;
  is = refl;
  well = append_at-IsQueue msg.msg_msgid msg.msg_exchange i queue msg q f (own_key msg);
  holds = λ c d. waiting-append_at msg.msg_msgid msg.msg_exchange c d i queue msg q f (own_key msg);
}
put_in queue msg timeout crash q f = elim f [ ]

-- In a queue whose entries have messages, each entry those of one exchange and no two entries of
-- the same: a message that is put in comes behind the others of its exchange, those of all other
-- exchanges stay as they are, and the queue is such a queue again.
pub ikev2_msg_enqueue-Enqueued :
    (queue : List Retransmit) (msg : Queued) (timeout : ℕ)
    → IsQueue queue
    → Enqueued queue msg (ikev2_msg_enqueue queue msg timeout)
unfolding ikev2_msg_enqueue
ikev2_msg_enqueue-Enqueued queue msg timeout q =
    put_in queue msg timeout (ikev2_msg_lookup queue msg.msg_msgid msg.msg_exchange) q
      (ikev2_msg_lookup-Found queue msg.msg_msgid msg.msg_exchange q)

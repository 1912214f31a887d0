-- ===== src/Recv/Once.antt =====
-- That no request is handled twice by ikev2_recv of iked/ikev2.c.
use openiked_portable.Base.{
  ◌∷◌, ◌&&◌, false, ◌≡◌, Bool, ℕ, true, List, [], if_rule, ◌==◌, if◌then◌else◌, some, refl, Option,
  arith, not, none, ◌∙◌, ◌>>=◌, sym, subst,
}
use openiked_portable.Queue.{
  unanswered, not_found, answered, ignored, send_failed, Queued, ikev2_msg_prevail, Retransmit,
}
use openiked_portable.Recv.{
  RecvSa, Incoming, busy, faulted, repeated, Gate, admitted, restarted, ikev2_recv, rejected, admit,
  close, finish, After, conclude,
}
use openiked_portable.Sa.{closed}
use openiked_portable.Recv.Passes.{admit-Passes, Passes, SameWindow, Beyond, stopped, asks, answers}
use openiked_portable.Payload.Offered.{after}

abbrev pub Handler : Type 0
Handler = Bool → Incoming → RecvSa → RecvSa × Bool

abbrev pub Ascends : Bool → ℕ → List ℕ → Type 0
Ascends set n [] = Unit {0}
Ascends set n (id ∷ ids) = Beyond set n id × Ascends true id ids

-- Where the window of what is left is.
abbrev pub Onto : Bool → ℕ → Option RecvSa → Type 0
Onto set n none = Unit {0}
Onto set n (some sa) = (sa.sa_msgid_set ≡ set) × (sa.sa_msgid ≡ n)

-- A message either is no request that is handled as a valid one, and the window stays, or it is
-- beyond the window, which moves there.
pub data Moves (m : Incoming) (sa : RecvSa) : Option After → Type 0 where
  crashed : Moves m sa none
  stays :
      {a : After}
      → (not m.response && a.valid) ≡ false
      → Onto sa.sa_msgid_set sa.sa_msgid a.sa
      → Moves m sa (some a)
  goes_on :
      {a : After}
      → (not m.response && a.valid) ≡ true
      → Beyond sa.sa_msgid_set sa.sa_msgid m.msgid
      → Onto true m.msgid a.sa
      → Moves m sa (some a)

close-Onto :
    (set : Bool) (n : ℕ) (sa : RecvSa)
    → sa.sa_msgid_set ≡ set
    → sa.sa_msgid ≡ n
    → Onto set n (close sa)
close-Onto set n sa s e =
    if_rule (Onto set n) (sa.sa_state == closed) none (some sa) (λ y. tt) (λ o. (s, e))

no_request : (response : Bool) → (not response && false) ≡ false
no_request true = refl
no_request false = refl

module _ (handle : Handler) (handle_new : Bool → Incoming → Option RecvSa)
    (sends : Queued → Bool) where
  -- The message ids of the requests that are handled as valid ones, as messages come in, until the
  -- SA is freed.
  abbrev pub noted : Incoming → Bool → List ℕ → List ℕ
  noted m valid ids = if not m.response && valid then m.msgid ∷ ids else ids

  unfoldable pub handled : List Incoming → RecvSa → List ℕ
  handled [] sa = []
  handled (m ∷ ms) sa = elim (ikev2_recv handle handle_new sends m sa) [
    | none ↦ []
    | some after ↦ elim after.sa [
      | none ↦ noted m after.valid []
      | some sa' ↦ noted m after.valid (handled ms sa')
    ]
  ]

  finish-Moves :
      (m : Incoming) (sa : RecvSa) (out : RecvSa × Bool)
      → out.0.sa_msgid_set ≡ sa.sa_msgid_set
      → out.0.sa_msgid ≡ sa.sa_msgid
      → (m.response ≡ false
          → Beyond sa.sa_msgid_set sa.sa_msgid m.msgid × (out.0.sa_msgid_current ≡ m.msgid))
      → Moves m sa (finish handle handle_new sends m out)
  unfolding finish
  finish-Moves m sa (o, v) s e asked =
      if_rule (Moves m sa) (not m.response && v) _ _
        (λ y. moved (ikev2_msg_prevail o.sa_responses m.msgid) y)
        (λ n. stays n (close-Onto sa.sa_msgid_set sa.sa_msgid o s e))
    where
      moved :
          (r : Option (List Retransmit))
          → (not m.response && v) ≡ true
          → Moves m sa (
              r >>= λ responses. some (record {
                sa = close (record o {
                  sa_msgid = o.sa_msgid_current;
                  sa_msgid_set = true;
                  sa_responses = responses;
                });
                made = none;
                valid = true;
              }))
      moved none y = crashed
      moved (some responses) y =
          let request : m.response ≡ false = ground (arith, y) in
          goes_on (rw request refl) (asked request).0 (
            close-Onto true m.msgid
              (record o {
                sa_msgid = o.sa_msgid_current;
                sa_msgid_set = true;
                sa_responses = responses;
              })
              refl (asked request).1)

  -- A handler leaves the window alone.
  abbrev pub KeepsWindow : Type 0
  KeepsWindow = (i : Bool) (m : Incoming) (sa : RecvSa) → SameWindow sa (handle i m sa).0

  conclude-Moves :
      KeepsWindow
      → (m : Incoming) (sa : RecvSa) (g : Gate) → Passes m sa g
      → Moves m sa (conclude handle handle_new sends m sa g)
  unfolding conclude
  conclude-Moves keeps m sa (admitted i sa') (answers r w) =
      let k = keeps i m sa' in
      finish-Moves m sa (handle i m sa') (k.set ∙ w.set) (k.msgid ∙ w.msgid)
        (λ n. absurd (cc (r, n)))
  conclude-Moves keeps m sa (admitted i sa') (asks r b) =
      let k = keeps i m sa' in
      finish-Moves m sa (handle i m sa') k.set k.msgid (λ n. (b, k.current))
  conclude-Moves keeps m sa (admitted i sa') (stopped n) = absurd (cc n)
  conclude-Moves keeps m sa rejected p = stays (no_request m.response) (refl, refl)
  conclude-Moves keeps m sa busy p = stays (no_request m.response) (refl, refl)
  conclude-Moves keeps m sa (repeated (answered sent queue)) p =
      stays (no_request m.response) (refl, refl)
  conclude-Moves keeps m sa (repeated (send_failed sent)) p = stays (no_request m.response) tt
  conclude-Moves keeps m sa (repeated not_found) p = stays (no_request m.response) (refl, refl)
  conclude-Moves keeps m sa (repeated ignored) p = stays (no_request m.response) (refl, refl)
  conclude-Moves keeps m sa (repeated unanswered) p = stays (no_request m.response) (refl, refl)
  conclude-Moves keeps m sa restarted p = stays (no_request m.response) tt
  conclude-Moves keeps m sa faulted p = crashed

  ikev2_recv-Moves :
      KeepsWindow
      → (m : Incoming) (sa : RecvSa) → Moves m sa (ikev2_recv handle handle_new sends m sa)
  unfolding ikev2_recv
  ikev2_recv-Moves keeps m sa =
      conclude-Moves keeps m sa (admit sends m sa) (admit-Passes sends m sa)

  stays_on :
      (m : Incoming) (ms : List Incoming) (set : Bool) (n : ℕ) (v : Bool) (o : Option RecvSa)
      → (not m.response && v) ≡ false
      → Onto set n o
      → ((sa' : RecvSa) → Ascends sa'.sa_msgid_set sa'.sa_msgid (handled ms sa'))
      → Ascends set n (elim o [ none ↦ noted m v [] | some sa' ↦ noted m v (handled ms sa') ])
  stays_on m ms set n v none e w later = rw e tt
  stays_on m ms set n v (some sa') e w later = rw (e, sym w.0, sym w.1) (later sa')

  moves_on :
      (m : Incoming) (ms : List Incoming) (set : Bool) (n : ℕ) (v : Bool) (o : Option RecvSa)
      → (not m.response && v) ≡ true
      → Beyond set n m.msgid
      → Onto true m.msgid o
      → ((sa' : RecvSa) → Ascends sa'.sa_msgid_set sa'.sa_msgid (handled ms sa'))
      → Ascends set n (elim o [ none ↦ noted m v [] | some sa' ↦ noted m v (handled ms sa') ])
  moves_on m ms set n v none e b w later = rw e (b, tt)
  moves_on m ms set n v (some sa') e b w later =
      let ids : Ascends true m.msgid (handled ms sa') =
        subst (λ k. Ascends true k (handled ms sa')) w.1
          (subst (λ k. Ascends k sa'.sa_msgid (handled ms sa')) w.0 (later sa')) in
      rw e (b, ids)

  -- Whatever messages come in for an SA, in any order: the ids of the requests that are handled as
  -- valid ones ascend, from the id of the last such request before on, so none is handled twice. The
  -- handlers leave the fields sa_msgid, sa_msgid_set and sa_msgid_current alone.
  pub handled-Ascends :
      KeepsWindow
      → (ms : List Incoming) (sa : RecvSa) → Ascends sa.sa_msgid_set sa.sa_msgid (handled ms sa)
  unfolding handled
  handled-Ascends keeps [] sa = tt
  handled-Ascends keeps (m ∷ ms) sa =
      go (ikev2_recv handle handle_new sends m sa) (ikev2_recv-Moves keeps m sa)
        (λ sa'. handled-Ascends keeps ms sa')
    where
      go :
          (out : Option After)
          → Moves m sa out
          → ((sa' : RecvSa) → Ascends sa'.sa_msgid_set sa'.sa_msgid (handled ms sa'))
          → Ascends sa.sa_msgid_set sa.sa_msgid (elim out [
            | none ↦ []
            | some after ↦ elim after.sa [
              | none ↦ noted m after.valid []
              | some sa' ↦ noted m after.valid (handled ms sa')
            ]
          ])
      go none p later = tt
      go (some after) (stays e w) later =
          stays_on m ms sa.sa_msgid_set sa.sa_msgid after.valid after.sa e w later
      go (some after) (goes_on e b w) later =
          moves_on m ms sa.sa_msgid_set sa.sa_msgid after.valid after.sa e b w later

-- ===== src/Queue/Timeouts.antt =====
-- How long a request is sent again: the timeouts of one entry of the queue of requests, one after
-- the other, with no answer.
use native.Mathlib.Nat.{pow-succ', pow-le-pow_right}
use openiked_portable.Base.{
  true, ◌++◌, ◌-◌, ◌≡◌, ◌≤◌, [], ◌^◌, zero, ℕ, List, false, ◌*◌, ◌+◌, suc, Bool, refl, inl, inr,
  arith, ltb, Bool-cases, ◌∷◌, ap, All,
}
use openiked_portable.Queue.{
  ikev2_msg_retransmit_timeout, retransmit_timeout, resent, retransmit_tries, sa_freed, Queued,
  Retransmit, send_all, no_frags, faults,
}

-- The timeouts of an entry, at most so many: the seconds that go by, the datagrams that are sent,
-- and whether the SA is freed in the end. What can be sent may differ from one to the next.
pub record Unanswered : Type 0 where
  pub seconds : ℕ
  pub sent : List (List ℕ)
  pub freed : Bool

unfoldable pub timeouts : (ℕ → Queued → Bool) → ℕ → Retransmit → Unanswered
timeouts sends zero mr = record { seconds = 0; sent = []; freed = false }
timeouts sends (suc n) mr = elim (ikev2_msg_retransmit_timeout (sends mr.tries) mr) [
  | faults ↦ record { seconds = mr.timer; sent = []; freed = false }
  | resent sent mr' ↦
      let later : Unanswered = timeouts sends n mr' in
      record later { seconds = mr.timer + later.seconds; sent = sent ++ later.sent }
  | sa_freed sent ↦ record { seconds = mr.timer; sent = sent; freed = true }
]

-- An entry with a message, as it is when its timer has been set the last time.
pub record IsTimed (mr : Retransmit) : Type 0 where
  pub some_frag : no_frags mr.frags ≡ false
  pub few : mr.tries ≤ retransmit_tries
  pub set : mr.timer ≡ retransmit_timeout * 2 ^ mr.tries

-- The datagrams of an entry, and those of so many rounds.
abbrev pub datagrams : List Queued → List (List ℕ)
datagrams [] = []
datagrams (m ∷ ms) = m.msg_data ∷ datagrams ms

abbrev pub rounds : ℕ → List Queued → List (List ℕ)
rounds zero ms = []
rounds (suc n) ms = datagrams ms ++ rounds n ms

-- The SA is freed, in time; and if all that is to be sent can be, all of it goes out at each of the
-- timeouts that are left but the last, and the SA is freed at the end of this time and no sooner.
pub record IsFreed (sends : ℕ → Queued → Bool) (n : ℕ) (mr : Retransmit) (u : Unanswered)
    : Type 0 where
  pub freed : u.freed ≡ true
  pub in_time : u.seconds ≤ 128 - 2 * 2 ^ mr.tries
  pub resends :
      ((k : ℕ) → All (λ m. sends k m ≡ true) mr.frags)
      → (u.sent ≡ rounds n mr.frags) × (u.seconds ≡ 128 - 2 * 2 ^ mr.tries)

send_all-datagrams :
    (sends : Queued → Bool) (ms : List Queued)
    → All (λ m. sends m ≡ true) ms
    → send_all sends ms ≡ (datagrams ms, true)
unfolding send_all
send_all-datagrams sends [] h = refl
send_all-datagrams sends (m ∷ ms) h = rw (h.0, send_all-datagrams sends ms h.1) refl

doubled : (n : ℕ) → 2 ^ (n + 1) ≡ 2 * 2 ^ n
doubled n = let e : n + 1 ≡ suc n = omega arith in rw e (pow-succ' 2 n)

few_doublings : (n : ℕ) → n ≤ 5 → 2 ^ n ≤ 32
few_doublings n h = pow-le-pow_right {n = 2} (omega arith) {i = n} {j = 5} h

-- A request with a message and no answer, at any of its timeouts, with `n` tries left: within its
-- time, which is 126 seconds for a request that has just been sent, the SA is freed. If all
-- datagrams can be sent, then all of the request goes out `n` times before, and the SA is freed at
-- the end of that time.
pub timeouts-IsFreed :
    (sends : ℕ → Queued → Bool) (n : ℕ) (mr : Retransmit)
    → IsTimed mr
    → n + mr.tries ≡ retransmit_tries
    → IsFreed sends n mr (timeouts sends (suc n) mr)
unfolding timeouts ikev2_msg_retransmit_timeout
timeouts-IsFreed sends zero mr t e =
    let last : ltb mr.tries retransmit_tries ≡ false = ground (arith, e) in
    let tries : mr.tries ≡ 5 = omega (arith, e) in
    let full : 2 ^ mr.tries ≡ 32 = rw tries refl in
    rw (timeouts, t.some_frag, last)
      (record {
        freed = refl;
        in_time = omega (arith, t.set, full);
        resends = λ h. (refl, omega (arith, t.set, full));
      })
timeouts-IsFreed sends (suc n) mr t e =
    let more : ltb mr.tries retransmit_tries ≡ true = ground (arith, e) in
    let few = few_doublings mr.tries t.few in
    let fewer = few_doublings (mr.tries + 1) (omega (arith, e)) in
    let twice = doubled mr.tries in
    let mr' : Retransmit = record mr {
      tries = mr.tries + 1;
      timer = retransmit_timeout * (2 * 2 ^ mr.tries);
    } in
    let timed : IsTimed mr' = record {
      some_frag = t.some_frag;
      few = omega (arith, e);
      set = omega (arith, twice);
    } in
    let later = timeouts-IsFreed sends n mr' timed (omega (arith, e)) in
    rw (timeouts, t.some_frag, more)
      (elim (Bool-cases (send_all (sends mr.tries) mr.frags).1) [
        | inl all ↦ rw all (record {
          freed = later.freed;
          in_time = omega (arith, t.set, later.in_time, twice, fewer);
          resends = λ h.
              let out : (send_all (sends mr.tries) mr.frags).0 ≡ datagrams mr.frags =
                ap (λ p. p.0) (send_all-datagrams (sends mr.tries) mr.frags (h mr.tries)) in
              let rest = later.resends h in
              (rw (out, rest.0) refl, omega (arith, t.set, rest.1, twice, fewer));
        })
        | inr lost ↦ rw lost (record {
          freed = refl;
          in_time = omega (arith, t.set, few);
          resends = λ h.
              let out : (send_all (sends mr.tries) mr.frags).1 ≡ true =
                ap (λ p. p.1) (send_all-datagrams (sends mr.tries) mr.frags (h mr.tries)) in
              absurd (cc (out, lost));
        })
      ])

-- ===== src/Queue.antt =====
-- The queues of messages that wait for an answer or for a request that comes again: struct
-- iked_msg_retransmit of iked/iked.h, and ikev2_msg_enqueue, ikev2_msg_lookup, ikev2_msg_prevail,
-- ikev2_msg_dispose, ikev2_msg_flushqueue, ikev2_msg_retransmit_response,
-- ikev2_msg_response_timeout and ikev2_msg_retransmit_timeout of iked/ikev2_msg.c. A tail queue is a
-- list, an entry of it is found by its place. Whether sendtofrom sends a datagram is a parameter.
pub mod Timeouts
pub mod Kept
pub mod Enqueued
pub mod Prevailed
use openiked_portable.Base.{
  ◌>>=◌, not, ℕ, zero, suc, ◌+◌, ◌-◌, ◌*◌, ◌^◌, ◌&&◌, Bool, true, false, Option, none, some, List,
  [], ◌∷◌, ◌++◌, ltb, ◌==◌, ◌!=◌, if◌then◌else◌, map, not, ◌>>=◌,
}
use openiked_portable.Payload.{Outcome, Message, ok}
use openiked_portable.Payload.Quick.{payload_skf}

-- The fields of struct iked_message that are read of a message in a queue.
pub record Queued : Type 0 where
  pub msg_msgid : ℕ
  pub msg_exchange : ℕ
  pub msg_response : Bool
  pub msg_data : List ℕ

-- mrt_frags, mrt_tries, and the seconds that mrt_timer has been set to.
pub record Retransmit : Type 0 where
  pub frags : List Queued
  pub tries : ℕ
  pub timer : ℕ

abbrev pub response_timeout : ℕ
response_timeout = 120

abbrev pub retransmit_timeout : ℕ
retransmit_timeout = 2

abbrev pub retransmit_tries : ℕ
retransmit_tries = 5

-- What ikev2_msg_lookup returns: a place, NULL, or no return, since it reads the first message of
-- an entry that has none.
pub data Lookup : Type 0 where
  found : ℕ → Lookup
  missing : Lookup
  crash : Lookup

abbrev pub next : Lookup → Lookup
next (found i) = found (suc i)
next missing = missing
next crash = crash

unfoldable pub ikev2_msg_lookup : List Retransmit → ℕ → ℕ → Lookup
ikev2_msg_lookup [] msgid exchange = missing
ikev2_msg_lookup (mr ∷ queue) msgid exchange =
    let rest = ikev2_msg_lookup queue msgid exchange in
    elim mr.frags [
      | [] ↦ crash
      | m ∷ ms ↦ if m.msg_msgid == msgid && m.msg_exchange == exchange then found 0 else next rest
    ]

-- A message is appended to the entry at this place.
unfoldable pub append_at : List Retransmit → ℕ → Queued → List Retransmit
append_at [] i msg = []
append_at (mr ∷ queue) zero msg = record mr { frags = mr.frags ++ (msg ∷ []) } ∷ queue
append_at (mr ∷ queue) (suc i) msg = mr ∷ append_at queue i msg

-- `none` is a crash.
unfoldable pub ikev2_msg_enqueue : List Retransmit → Queued → ℕ → Option (List Retransmit)
unfolding ikev2_msg_lookup append_at
ikev2_msg_enqueue queue msg timeout = elim (ikev2_msg_lookup queue msg.msg_msgid msg.msg_exchange) [
  | found i ↦ some (append_at queue i msg)
  | missing ↦ some (queue ++ (record { frags = msg ∷ []; tries = 0; timer = timeout } ∷ []))
  | crash ↦ none
]

unfoldable pub ikev2_msg_dispose : List Retransmit → ℕ → List Retransmit
ikev2_msg_dispose [] i = []
ikev2_msg_dispose (mr ∷ queue) zero = queue
ikev2_msg_dispose (mr ∷ queue) (suc i) = mr ∷ ikev2_msg_dispose queue i

-- The entries with a smaller message id are disposed of.
unfoldable pub ikev2_msg_prevail : List Retransmit → ℕ → Option (List Retransmit)
ikev2_msg_prevail [] msgid = some []
ikev2_msg_prevail (mr ∷ queue) msgid =
    let rest = ikev2_msg_prevail queue msgid in
    elim mr.frags [
      | [] ↦ none
      | m ∷ ms ↦ if ltb m.msg_msgid msgid then rest else (rest >>= λ q. some (mr ∷ q))
    ]

-- The first entry is disposed of as long as there is one, which leaves the others.
unfoldable pub ikev2_msg_flushqueue : List Retransmit → List Retransmit
ikev2_msg_flushqueue [] = []
ikev2_msg_flushqueue (mr ∷ queue) = ikev2_msg_flushqueue queue

-- The datagrams that go out until one cannot be sent, and whether all could.
unfoldable pub send_all : (Queued → Bool) → List Queued → List (List ℕ) × Bool
send_all sends [] = ([], true)
send_all sends (m ∷ ms) =
    let (sent, all) = send_all sends ms in if sends m then (m.msg_data ∷ sent, all) else ([], false)

unfoldable pub set_timer : List Retransmit → ℕ → ℕ → List Retransmit
set_timer [] i timeout = []
set_timer (mr ∷ queue) zero timeout = record mr { timer = timeout } ∷ queue
set_timer (mr ∷ queue) (suc i) timeout = mr ∷ set_timer queue i timeout

abbrev pub frags_at : List Retransmit → ℕ → List Queued
frags_at [] i = []
frags_at (mr ∷ queue) zero = mr.frags
frags_at (mr ∷ queue) (suc i) = frags_at queue i

-- The results -2, 0 and -1 of ikev2_msg_retransmit_response, with the datagrams that are sent.
pub data Answer : Type 0 where
  not_found : Answer
  ignored : Answer
  answered : List (List ℕ) → List Retransmit → Answer
  send_failed : List (List ℕ) → Answer
  unanswered : Answer

-- Of a fragmented request only the first fragment is answered. `quick` is what
-- ikev2_pld_parse_quick makes of it.
abbrev pub is_first : Outcome Message → Bool
is_first (ok m) = m.frag_num == 1
is_first _ = false

unfoldable pub resend_response : (Queued → Bool) → List Retransmit → ℕ → Answer
unfolding send_all set_timer
resend_response sends queue i =
    let (sent, all) = send_all sends (frags_at queue i) in
    if all then answered sent (set_timer queue i response_timeout) else send_failed sent

unfoldable pub ikev2_msg_retransmit_response :
    (Queued → Bool) → List Retransmit → ℕ → ℕ → ℕ → Outcome Message → Answer
unfolding ikev2_msg_lookup resend_response
ikev2_msg_retransmit_response sends queue msgid exchange nextpayload quick =
    elim (ikev2_msg_lookup queue msgid exchange) [
      | missing ↦ not_found
      | crash ↦ unanswered
      | found i ↦
          if nextpayload == payload_skf && not (is_first quick)
          then ignored
          else resend_response sends queue i
    ]

abbrev pub no_frags : List Queued → Bool
no_frags [] = true
no_frags (m ∷ ms) = false

-- `none` is a crash: the SA is read of the first message.
unfoldable pub ikev2_msg_response_timeout : List Retransmit → ℕ → Option (List Retransmit)
unfolding ikev2_msg_dispose
ikev2_msg_response_timeout queue i =
    if no_frags (frags_at queue i) then none else some (ikev2_msg_dispose queue i)

-- What a timeout of a request leads to: a crash without a message, or it goes out again, or the SA
-- is freed.
pub data Fired : Type 0 where
  faults : Fired
  resent : List (List ℕ) → Retransmit → Fired
  sa_freed : List (List ℕ) → Fired

unfoldable pub ikev2_msg_retransmit_timeout : (Queued → Bool) → Retransmit → Fired
unfolding send_all
ikev2_msg_retransmit_timeout sends mr =
    let (sent, all) = send_all sends mr.frags in
    if no_frags mr.frags
    then faults
    else if ltb mr.tries retransmit_tries
    then (if all
        then resent sent
            (record mr { tries = mr.tries + 1; timer = retransmit_timeout * (2 * 2 ^ mr.tries) })
        else sa_freed sent)
    else sa_freed []

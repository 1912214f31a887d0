-- ===== src/Tests/Queue.antt =====
-- The queues of messages.
use openiked_portable.Queue.{
  Queued, Retransmit, ikev2_msg_enqueue, ikev2_msg_prevail, response_timeout,
}
use openiked_portable.Queue.Timeouts.{timeouts, timeouts-IsFreed, IsFreed}
use openiked_portable.Queue.Kept.{IsQueue, entry, no_entries}
use openiked_portable.Queue.Enqueued.{Enqueued, ikev2_msg_enqueue-Enqueued}
use openiked_portable.Queue.Prevailed.{Prevailed, ikev2_msg_prevail-Prevailed}
use openiked_portable.Base.{ℕ, refl, ◌∷◌, List, Bool, [], arith, true}
use openiked_portable.Payload.{byte}

abbrev fragment : ℕ → ℕ → Queued
fragment msgid byte = record {
  msg_msgid = msgid;
  msg_exchange = 35;
  msg_response = true;
  msg_data = byte ∷ [];
}

abbrev waits : ℕ → Retransmit
waits msgid = record { frags = fragment msgid 1 ∷ fragment msgid 2 ∷ []; tries = 0; timer = 2 }

abbrev all_sent : ℕ → Queued → Bool
all_sent n m = true

abbrev two_exchanges : List Retransmit
two_exchanges = waits 3 ∷ waits 4 ∷ []

waits-IsQueue : IsQueue two_exchanges
waits-IsQueue =
    entry 3 35 (record { some_frag = refl; alike = (refl, (refl, tt)) }) refl
      (entry 4 35 (record { some_frag = refl; alike = (refl, (refl, tt)) }) refl no_entries)

timeouts-IsFreed_example : IsFreed all_sent 5 (waits 3) (timeouts all_sent 6 (waits 3))
timeouts-IsFreed_example =
    timeouts-IsFreed all_sent 5 (waits 3)
      (record { some_frag = refl; few = omega arith; set = refl }) refl

ikev2_msg_enqueue-Enqueued_example :
    Enqueued two_exchanges
      (fragment 3 7)
      (ikev2_msg_enqueue two_exchanges (fragment 3 7) response_timeout)
ikev2_msg_enqueue-Enqueued_example =
    ikev2_msg_enqueue-Enqueued two_exchanges (fragment 3 7) response_timeout waits-IsQueue

ikev2_msg_prevail-Prevailed_example : Prevailed two_exchanges 4 (ikev2_msg_prevail two_exchanges 4)
ikev2_msg_prevail-Prevailed_example = ikev2_msg_prevail-Prevailed two_exchanges 4 waits-IsQueue

-- ===== src/Tests/Recv.antt =====
-- Messages for an IKE SA.
use openiked_portable.Recv.{RecvSa, Incoming}
use openiked_portable.Recv.Once.{Handler, Ascends, handled, handled-Ascends}
use openiked_portable.Queue.{Queued}
use openiked_portable.Payload.{fault}
use openiked_portable.Base.{true, false, Bool, List, refl, ℕ, none, Option, ◌≡◌, ◌∷◌, []}

-- Each message is valid.
abbrev accept : Handler
accept i m sa = (sa, true)

abbrev no_sa : Bool → Incoming → Option RecvSa
no_sa i m = none

abbrev all_sent : Queued → Bool
all_sent q = true

abbrev new_sa : RecvSa
new_sa = record {
  sa_reqid = 0;
  sa_msgid = 0;
  sa_msgid_set = false;
  sa_msgid_current = 0;
  sa_state = 1;
  sa_stateflags = 0;
  sa_requests = [];
  sa_responses = [];
  sa_frag_count = 0;
  sa_1stmsg = none;
}

-- A request of IKE_AUTH.
abbrev request : ℕ → Incoming
request id = record {
  msg_data = [];
  from_initiator = true;
  response = false;
  msgid = id;
  exchange = 35;
  nextpayload = 46;
  quick = fault;
}

abbrev requests : List Incoming
requests = request 0 ∷ request 0 ∷ request 2 ∷ request 1 ∷ request 2 ∷ []

handled_twice : handled accept no_sa all_sent requests new_sa ≡ 0 ∷ 2 ∷ []
unfolding handled openiked_portable.Recv.ikev2_recv
handled_twice = refl

handled-Ascends_example : Ascends false 0 (handled accept no_sa all_sent requests new_sa)
handled-Ascends_example =
    handled-Ascends accept no_sa all_sent
      (λ i m sa. record { msgid = refl; set = refl; current = refl }) requests new_sa

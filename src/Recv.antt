-- ===== src/Recv.antt =====
-- A message for an IKE SA: ikev2_recv of iked/ikev2.c. The SA is the record of the fields that it
-- reads and writes; the lookup of the SA and of the policy are given by their results, and
-- ikev2_init_recv and ikev2_resp_recv are a parameter: what they make of the SA, and whether they
-- set msg_valid.
pub mod Passes
pub mod Once
use openiked_portable.Base.{
  ℕ, ◌+◌, ◌%◌, ◌^◌, ◌&&◌, ◌||◌, not, Bool, true, false, Option, none, some, List, [], ◌∷◌, ltb,
  ◌==◌, ◌!=◌, if◌then◌else◌, bit_and, bytes_eq, ◌>>=◌,
}
use openiked_portable.Queue.{
  found, ignored, ikev2_msg_prevail, Answer, crash, Queued, send_failed, unanswered, missing,
  answered, ikev2_msg_lookup, Lookup, not_found, ikev2_msg_dispose, Retransmit,
  ikev2_msg_retransmit_response,
}
use openiked_portable.Msg.Wire.{payload_sk}
use openiked_portable.Payload.{Message, Outcome}
use openiked_portable.Payload.Quick.{payload_skf}
use openiked_portable.Sa.{closed}
use openiked_portable.Sa.Reach.{flag}

-- IKEV2_EXCHANGE_*
abbrev pub exchange_ike_sa_init : ℕ
exchange_ike_sa_init = 34

abbrev pub exchange_create_child_sa : ℕ
exchange_create_child_sa = 36

abbrev pub exchange_informational : ℕ
exchange_informational = 37

pub record RecvSa : Type 0 where
  pub sa_reqid : ℕ
  pub sa_msgid : ℕ
  pub sa_msgid_set : Bool
  pub sa_msgid_current : ℕ
  pub sa_state : ℕ
  pub sa_stateflags : ℕ
  pub sa_requests : List Retransmit
  pub sa_responses : List Retransmit
  pub sa_frag_count : ℕ
  pub sa_1stmsg : Option (List ℕ)

-- A message behind its header, with what ikev2_pld_parse_quick makes of it.
pub record Incoming : Type 0 where
  pub msg_data : List ℕ
  pub from_initiator : Bool
  pub response : Bool
  pub msgid : ℕ
  pub exchange : ℕ
  pub nextpayload : ℕ
  pub quick : Outcome Message

-- The flag of the exchange.
abbrev pub req_childsa : ℕ
req_childsa = 128

abbrev pub req_inf : ℕ
req_inf = 256

abbrev pub flag_of : ℕ → ℕ
flag_of exchange =
    if exchange == exchange_informational
    then req_inf
    else if exchange == exchange_create_child_sa
    then req_childsa
    else 0

-- How far ikev2_recv gets before `done`.
pub data Gate : Type 0 where
  rejected : Gate
  busy : Gate
  repeated : Answer → Gate
  restarted : Gate
  faulted : Gate
  admitted : Bool → RecvSa → Gate

abbrev pub is_missing : Lookup → Bool
is_missing missing = true
is_missing _ = false

abbrev pub without : List Retransmit → Lookup → List Retransmit
without queue (found i) = ikev2_msg_dispose queue i
without queue _ = queue

-- A response: it has to be that of the last request.
unfoldable pub admit_response : Bool → Incoming → RecvSa → Gate
unfolding ikev2_msg_lookup ikev2_msg_dispose
admit_response initiator m sa =
    let mr = ikev2_msg_lookup sa.sa_requests m.msgid m.exchange in
    let nothing = is_missing mr in
    let flag = flag_of m.exchange in
    let left : RecvSa =
      if m.nextpayload != payload_skf
      then record sa { sa_requests = without sa.sa_requests mr }
      else sa in
    if (m.msgid + 1) % 2 ^ 32 != sa.sa_reqid then rejected else (elim mr [
      | crash ↦ faulted
      | _ ↦
          if m.exchange != exchange_informational && nothing && sa.sa_frag_count == 0
          then rejected
          else if flag != 0
          then (if bit_and sa.sa_stateflags flag == 0 then rejected else admitted true left)
          else admitted initiator left
    ])

-- Another first message than the one that the SA was made for.
abbrev pub differs : List ℕ → Option (List ℕ) → Bool
differs bytes none = false
differs bytes (some first) = not (bytes_eq bytes first)

-- A request.
unfoldable pub admit_request : (Queued → Bool) → Bool → Incoming → RecvSa → Gate
unfolding ikev2_msg_retransmit_response bytes_eq
admit_request sends initiator m sa =
    if sa.sa_state == closed
      && m.exchange == exchange_ike_sa_init
      && m.msgid == 0
      && differs m.msg_data sa.sa_1stmsg
    then restarted
    else if ltb m.msgid sa.sa_msgid
    then rejected
    else (elim (ikev2_msg_retransmit_response sends sa.sa_responses m.msgid m.exchange m.nextpayload
        m.quick) [
          | not_found ↦
              if sa.sa_msgid_set && m.msgid == sa.sa_msgid
              then busy
              else admitted (if flag_of m.exchange != 0 then false else initiator)
                  (record sa { sa_msgid_current = m.msgid })
          | unanswered ↦ faulted
          | ignored ↦ repeated ignored
          | answered sent queue ↦ repeated (answered sent queue)
          | send_failed sent ↦ repeated (send_failed sent)
        ])

-- The first payload of all but the first exchange is an encrypted one.
unfoldable pub admit : (Queued → Bool) → Incoming → RecvSa → Gate
unfolding admit_response admit_request
admit sends m sa =
    let initiator = not m.from_initiator in
    if m.exchange != exchange_ike_sa_init
      && m.nextpayload != payload_sk
      && m.nextpayload != payload_skf
    then rejected
    else if m.response
    then admit_response initiator m sa
    else admit_request sends initiator m sa

-- What becomes of the SA, of a SA that takes its place, and whether the message has been handled as
-- a valid one.
pub record After : Type 0 where
  pub sa : Option RecvSa
  pub made : Option RecvSa
  pub valid : Bool

-- A closed SA is freed.
abbrev pub close : RecvSa → Option RecvSa
close sa = if sa.sa_state == closed then none else some sa

-- What ikev2_init_recv (for true) or ikev2_resp_recv makes of the SA and of msg_valid, and of a
-- message with no SA.
module _ (handle : Bool → Incoming → RecvSa → RecvSa × Bool)
    (handle_new : Bool → Incoming → Option RecvSa) (sends : Queued → Bool) where
  -- The end of ikev2_recv: a valid request moves the window on.
  unfoldable pub finish : Incoming → RecvSa × Bool → Option After
  unfolding ikev2_msg_prevail
  finish m (sa, valid) =
      if not m.response && valid
      then (do
        responses ← ikev2_msg_prevail sa.sa_responses m.msgid
        some (record {
          sa = close (record sa {
            sa_msgid = sa.sa_msgid_current;
            sa_msgid_set = true;
            sa_responses = responses;
          });
          made = none;
          valid = true;
        }))
      else some (record { sa = close sa; made = none; valid = valid })

  -- What follows, by how far it has come; `none` is a crash.
  unfoldable pub conclude : Incoming → RecvSa → Gate → Option After
  unfolding finish
  conclude m sa rejected = some (record { sa = some sa; made = none; valid = false })
  conclude m sa busy = some (record { sa = some sa; made = none; valid = false })
  conclude m sa (repeated (answered sent queue)) =
      some (record { sa = some (record sa { sa_responses = queue }); made = none; valid = false })
  conclude m sa (repeated (send_failed sent)) =
      some (record { sa = none; made = none; valid = false })
  conclude m sa (repeated other) = some (record { sa = some sa; made = none; valid = false })
  conclude m sa restarted =
      some (record { sa = none; made = handle_new (not m.from_initiator) m; valid = false })
  conclude m sa faulted = none
  conclude m sa (admitted initiator sa') = finish m (handle initiator m sa')

  unfoldable pub ikev2_recv : Incoming → RecvSa → Option After
  unfolding admit conclude
  ikev2_recv m sa = conclude m sa (admit sends m sa)

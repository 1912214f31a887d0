-- ===== src/Recv/Passes.antt =====
-- What the first half of ikev2_recv of iked/ikev2.c, up to `done`, lets pass.
use openiked_portable.Base.{
  ◌<◌, ◌&&◌, false, ◌≡◌, ◌≤◌, Bool, ℕ, true, if_rule, ◌==◌, ltb, if◌then◌else◌, ◌!=◌, ◌^◌, ◌%◌,
  refl, bit_and, arith, ◌+◌, not,
}
use openiked_portable.Queue.{
  ikev2_msg_retransmit_response, unanswered, not_found, answered, ignored, send_failed, Queued,
  Answer, found, missing, ikev2_msg_lookup, Lookup, crash,
}
use openiked_portable.Recv.{
  RecvSa, admit_request, flag_of, Incoming, busy, faulted, repeated, Gate, admitted, restarted,
  differs, exchange_ike_sa_init, exchange_informational, without, admit_response, rejected, admit,
  is_missing,
}
use openiked_portable.Payload.Quick.{payload_skf}
use openiked_portable.Msg.Wire.{payload_sk}
use openiked_portable.Sa.{closed}

-- The window of message ids, which only ikev2_recv moves.
pub record SameWindow (sa sa' : RecvSa) : Type 0 where
  pub msgid : sa'.sa_msgid ≡ sa.sa_msgid
  pub set : sa'.sa_msgid_set ≡ sa.sa_msgid_set
  pub current : sa'.sa_msgid_current ≡ sa.sa_msgid_current

-- Beyond the last request that has been handled, if there is one.
abbrev pub Beyond : Bool → ℕ → ℕ → Type 0
Beyond true n id = n < id
Beyond false n id = n ≤ id

abbrev pub is_admitted : Gate → Bool
is_admitted (admitted i sa) = true
is_admitted _ = false

-- What is admitted of a request: it is beyond the window.
pub data Passes (m : Incoming) (sa : RecvSa) : Gate → Type 0 where
  stopped : {g : Gate} → is_admitted g ≡ false → Passes m sa g
  answers :
      {i : Bool} {sa' : RecvSa}
      → m.response ≡ true
      → SameWindow sa sa'
      → Passes m sa (admitted i sa')
  asks :
      {i : Bool}
      → m.response ≡ false
      → Beyond sa.sa_msgid_set sa.sa_msgid m.msgid
      → Passes m sa (admitted i (record sa { sa_msgid_current = m.msgid }))

rejected-Passes : (m : Incoming) (sa : RecvSa) → Passes m sa rejected
rejected-Passes m sa = stopped refl

beyond : (set : Bool) (n id : ℕ) → ltb id n ≡ false → (set && id == n) ≡ false → Beyond set n id
beyond true n id late other = ground arith
beyond false n id late other = ground arith

admit_request-Passes :
    (sends : Queued → Bool) (initiator : Bool) (m : Incoming) (sa : RecvSa)
    → m.response ≡ false
    → Passes m sa (admit_request sends initiator m sa)
unfolding admit_request
admit_request-Passes sends initiator m sa r =
    if_rule (Passes m sa)
      (sa.sa_state == closed
        && m.exchange == exchange_ike_sa_init
        && m.msgid == 0
        && differs m.msg_data sa.sa_1stmsg)
      restarted _ (λ y. stopped refl)
      (λ n.
        if_rule (Passes m sa) (ltb m.msgid sa.sa_msgid) rejected _ (λ y. stopped refl)
          (λ late. go late (
            ikev2_msg_retransmit_response sends sa.sa_responses m.msgid m.exchange m.nextpayload
              m.quick)))
  where
    go :
        ltb m.msgid sa.sa_msgid ≡ false
        → (a : Answer)
        → Passes m sa (elim a [
          | not_found ↦
              if sa.sa_msgid_set && m.msgid == sa.sa_msgid
              then busy
              else admitted
                  (if flag_of m.exchange != 0 then false else initiator)
                  (record sa { sa_msgid_current = m.msgid })
          | unanswered ↦ faulted
          | ignored ↦ repeated ignored
          | answered sent queue ↦ repeated (answered sent queue)
          | send_failed sent ↦ repeated (send_failed sent)
        ])
    go late not_found =
        if_rule (Passes m sa) (sa.sa_msgid_set && m.msgid == sa.sa_msgid) busy _ (λ y. stopped refl)
          (λ n. asks r (beyond sa.sa_msgid_set sa.sa_msgid m.msgid late n))
    go late unanswered = stopped refl
    go late ignored = stopped refl
    go late (answered sent queue) = stopped refl
    go late (send_failed sent) = stopped refl

admit_response-Passes :
    (initiator : Bool) (m : Incoming) (sa : RecvSa)
    → m.response ≡ true
    → Passes m sa (admit_response initiator m sa)
unfolding admit_response
admit_response-Passes initiator m sa r =
    if_rule (Passes m sa) ((m.msgid + 1) % 2 ^ 32 != sa.sa_reqid) rejected _
      (λ y. rejected-Passes m sa)
      (λ n.
        go (ikev2_msg_lookup sa.sa_requests m.msgid m.exchange)
          (is_missing (ikev2_msg_lookup sa.sa_requests m.msgid m.exchange)) _ kept)
  where
    kept : SameWindow sa (
        if m.nextpayload != payload_skf
        then record sa {
          sa_requests = without sa.sa_requests (ikev2_msg_lookup sa.sa_requests m.msgid m.exchange);
        }
        else sa)
    kept =
        if_rule (SameWindow sa) (m.nextpayload != payload_skf) _ _
          (λ y. record { msgid = refl; set = refl; current = refl })
          (λ n. record { msgid = refl; set = refl; current = refl })

    passed :
        (nothing : Bool) (left : RecvSa)
        → SameWindow sa left
        → Passes m sa (
            if m.exchange != exchange_informational && nothing && sa.sa_frag_count == 0
            then rejected
            else if flag_of m.exchange != 0
            then (if bit_and sa.sa_stateflags (flag_of m.exchange) == 0
                then rejected
                else admitted true left)
            else admitted initiator left)
    passed nothing left k =
        if_rule (Passes m sa)
          (m.exchange != exchange_informational && nothing && sa.sa_frag_count == 0) rejected _
          (λ y. rejected-Passes m sa)
          (λ n.
            if_rule (Passes m sa) (flag_of m.exchange != 0)
              (if bit_and sa.sa_stateflags (flag_of m.exchange) == 0
                then rejected
                else admitted true left)
              (admitted initiator left)
              (λ f.
                if_rule (Passes m sa) (bit_and sa.sa_stateflags (flag_of m.exchange) == 0) rejected
                  (admitted true left) (λ y. rejected-Passes m sa) (λ o. answers r k))
              (λ f. answers r k))

    go :
        (l : Lookup) (nothing : Bool) (left : RecvSa)
        → SameWindow sa left
        → Passes m sa (elim l [
          | crash ↦ faulted
          | _ ↦
              if m.exchange != exchange_informational && nothing && sa.sa_frag_count == 0
              then rejected
              else if flag_of m.exchange != 0
              then (if bit_and sa.sa_stateflags (flag_of m.exchange) == 0
                  then rejected
                  else admitted true left)
              else admitted initiator left
        ])
    go (found j) nothing left k = passed nothing left k
    go missing nothing left k = passed nothing left k
    go crash nothing left k = stopped refl

pub admit-Passes :
    (sends : Queued → Bool) (m : Incoming) (sa : RecvSa) → Passes m sa (admit sends m sa)
unfolding admit
admit-Passes sends m sa =
    if_rule (Passes m sa)
      (m.exchange != exchange_ike_sa_init
        && m.nextpayload != payload_sk
        && m.nextpayload != payload_skf)
      rejected _ (λ y. rejected-Passes m sa)
      (λ n.
        if_rule (Passes m sa) m.response (admit_response (not m.from_initiator) m sa)
          (admit_request sends (not m.from_initiator) m sa)
          (λ r. admit_response-Passes (not m.from_initiator) m sa r)
          (λ r. admit_request-Passes sends (not m.from_initiator) m sa r))

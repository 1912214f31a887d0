-- ===== src/Parse/Within.antt =====
-- That the parse of a whole message, ikev2_pld_parse of iked/ikev2_pld.c, stays in its buffers.
use openiked_portable.Parse.Rounds.{IsSafe, accepts, refuses, SafeSwitch, payloads_loop-IsSafe}
use openiked_portable.Payload.Quick.{KeepsBuffer, payload_skf, ike_header_size}
use openiked_portable.Base.{
  ℕ, List, false, not, arith, ◌≤◌, ◌+◌, Option, suc, Bool, ◌≡◌, refl, length, if_rule, ◌==◌, ltb,
  ◌&&◌, some, ◌-◌, none,
}
use openiked_portable.Notify.{Context}
use openiked_portable.Parse.{
  refused, unended, Parsing, crashed, parse_text, ikev2_pld_parse, ikev2_pld_e, ikev2_pld_payloads,
  after_fragment, has_fragments, switch, parse_ef,
}
use openiked_portable.Payload.{Message, Outcome, no_fuel, failed, ok, memcpy, fault}
use openiked_portable.Payload.Safety.{returns, bind_rule, memcpy_rule, Ends, header}
use openiked_portable.Fragment.{
  fatal, dropped, ikev2_validate_ef, Verdict, ikev2_pld_ef, parse, Receiver, stored,
}
use openiked_portable.Msg.Wire.{payload_sk}
use openiked_portable.Parse.Inner.{parse_text-IsSafe, inner_switch-IsSafe}

ef-Ends :
    (decrypt : List ℕ → Option (List ℕ)) (next offset left : ℕ) (m : Message) (r : Receiver)
    → offset + left ≤ length m.msg_data
    → Ends (λ b. Unit {0}) (KeepsBuffer m) (ikev2_pld_ef decrypt next offset left m r)
unfolding ikev2_pld_ef ikev2_validate_ef
ef-Ends decrypt next offset left m r h = header 4 offset left m refl h (λ enough frag.
    bind_rule (memcpy_rule (offset + 4) (left - 4) m (omega arith)) (λ body e. returns tt))

module _ (oneline : List ℕ → Option ℕ) (eap_parse : List ℕ → Bool → Bool) (ctx : Context)
    (decrypt : Bool → List ℕ → Option (List ℕ)) where
  ikev2_pld_e-IsSafe :
      (next offset left : ℕ) (p : Parsing)
      → offset + left ≤ length p.msg.msg_data
      → IsSafe p.msg.msg_data (ikev2_pld_e oneline eap_parse ctx decrypt false next offset left p)
  unfolding ikev2_pld_e
  ikev2_pld_e-IsSafe next offset left p h =
      if_rule (IsSafe p.msg.msg_data)
        (has_fragments oneline eap_parse ctx decrypt false p.receiver.frags) _ _ (λ y. refuses refl)
        (λ n.
          copied (memcpy offset left p.msg)
            (memcpy_rule {Q = KeepsBuffer p.msg} offset left p.msg h))
    where
      opens :
          (d : Option (List ℕ))
          → IsSafe p.msg.msg_data (elim d [
            | none ↦ refused p
            | some text ↦ parse_text oneline eap_parse ctx decrypt false next text p
          ])
      opens none = refuses refl
      opens (some text) = parse_text-IsSafe oneline eap_parse ctx decrypt next text p

      copied :
          (o : Outcome (List ℕ))
          → Ends (λ b. length b ≡ left) (KeepsBuffer p.msg) o
          → IsSafe p.msg.msg_data (elim o [
            | ok body ↦ elim (decrypt p.msg.frompeer body) [
              | none ↦ refused p
              | some text ↦ parse_text oneline eap_parse ctx decrypt false next text p
            ]
            | failed e n ↦ refused p
            | fault ↦ crashed
            | no_fuel ↦ unended
          ])
      copied (ok body) e = opens (decrypt p.msg.frompeer body)
      copied (failed r n) e = refuses refl
      copied fault e = elim e [ ]
      copied no_fuel e = elim e [ ]

  parse_ef-IsSafe :
      (next offset left : ℕ) (p : Parsing)
      → offset + left ≤ length p.msg.msg_data
      → IsSafe p.msg.msg_data (parse_ef oneline eap_parse ctx decrypt false next offset left p)
  unfolding parse_ef after_fragment
  parse_ef-IsSafe next offset left p h =
      received (ikev2_pld_ef (decrypt p.msg.frompeer) next offset left p.msg p.receiver)
        (ef-Ends (decrypt p.msg.frompeer) next offset left p.msg p.receiver h)
    where
      judged :
          (q : Parsing) (v : Verdict)
          → IsSafe q.msg.msg_data (after_fragment oneline eap_parse ctx decrypt false q v)
      judged q stored = accepts refl
      judged q (parse n text) = parse_text-IsSafe oneline eap_parse ctx decrypt n text q
      judged q dropped = refuses refl
      judged q fatal = refuses refl

      received :
          (o : Outcome (Receiver × Verdict))
          → Ends (λ b. Unit {0}) (KeepsBuffer p.msg) o
          → IsSafe p.msg.msg_data (elim o [
            | ok (r, v) ↦
                after_fragment oneline eap_parse ctx decrypt false (record p { receiver = r }) v
            | failed e n ↦ refused p
            | fault ↦ crashed
            | no_fuel ↦ unended
          ])
      received (ok (r, v)) e = judged (record p { receiver = r }) v
      received (failed r n) e = refuses refl
      received fault e = elim e [ ]
      received no_fuel e = elim e [ ]

  switch-IsSafe : SafeSwitch (switch oneline eap_parse ctx decrypt false)
  unfolding switch
  switch-IsSafe payload next offset left p h =
      if_rule (IsSafe p.msg.msg_data) (payload == payload_sk && not p.msg.encrypted) _ _
        (λ y. ikev2_pld_e-IsSafe next offset left p h)
        (λ n.
          if_rule (IsSafe p.msg.msg_data) (payload == payload_skf && not p.msg.encrypted) _ _
            (λ y. parse_ef-IsSafe next offset left p h)
            (λ z. inner_switch-IsSafe oneline eap_parse ctx decrypt payload next offset left p h))

  -- On any message, whatever its bytes and the lengths in it are, and whatever is decrypted, the
  -- parse of a daemon that is not verbose ends, reads nothing outside the message and the decrypted
  -- texts in it, and leaves the buffer of the message as it is.
  pub ikev2_pld_parse-IsSafe :
      (nextpayload len offset : ℕ) (p : Parsing)
      → IsSafe p.msg.msg_data
          (ikev2_pld_parse oneline eap_parse ctx decrypt false nextpayload len offset p)
  unfolding ikev2_pld_parse ikev2_pld_payloads
  ikev2_pld_parse-IsSafe nextpayload len offset p =
      if_rule (IsSafe p.msg.msg_data) (ltb (length p.msg.msg_data) len) _ _ (λ y. refuses refl)
        (λ n.
          let fits : len ≤ length p.msg.msg_data = ground arith in
          payloads_loop-IsSafe (switch oneline eap_parse ctx decrypt false) p.msg.msg_data
            switch-IsSafe (suc len) nextpayload len (offset + ike_header_size)
            (len - (offset + ike_header_size)) p refl (λ i. omega arith) fits (omega arith))

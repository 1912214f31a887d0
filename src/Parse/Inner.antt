-- ===== src/Parse/Inner.antt =====
-- That the parse of a decrypted text, and of a payload that is not itself encrypted, stays in the
-- buffer.
use openiked_portable.Parse.Rounds.{
  IsSafe, accepts, refuses, SafeSwitch, Keeps, cp-Keeps, delete-Keeps, less, print_hex-Keeps,
  parsed_by-IsSafe, field-Keeps, payloads_loop-IsSafe, same_buffer,
}
use openiked_portable.Payload.Quick.{KeepsBuffer}
use openiked_portable.Payload.Accepted.{ikev2_pld_sa-Ends}
use openiked_portable.Payload.Filled.{
  parse_field-Adds, id_payload, certreq_payload, cert_payload, nonce_payload, ke_payload,
  auth_payload,
}
use openiked_portable.Payload.Selectors.{ikev2_pld_tss-Checks}
use openiked_portable.Base.{
  ℕ, List, ◌||◌, false, not, arith, ◌≤◌, ◌+◌, Option, suc, Bool, ◌≡◌, refl, length, ◌!=◌, if_rule,
  ◌==◌, ltb,
}
use openiked_portable.Notify.{Context, Notices}
use openiked_portable.Notify.Total.{ikev2_pld_notify-Fine, seek-Ends}
use openiked_portable.Parse.{
  refused, Parsed, unended, for_parent, accepted, Parsing, inner_switch, message_payload, crashed,
  ikev2_pld_eap, parse_text, opened, encrypted_payload,
}
use openiked_portable.Payload.{Message, be16, Outcome}
use openiked_portable.Payload.Safety.{returns, bind_rule, memcpy_rule, Ends, reject_rule, rejects}

for_parent-IsSafe :
    (text : List ℕ) (p : Parsing) (o : Parsed)
    → IsSafe text o
    → IsSafe p.msg.msg_data (for_parent p o)
unfolding for_parent
for_parent-IsSafe text p (accepted q) (accepts e) = accepts refl
for_parent-IsSafe text p (refused q) (refuses e) = refuses refl
for_parent-IsSafe text p crashed e = elim e [ ]
for_parent-IsSafe text p unended e = elim e [ ]

module _ (oneline : List ℕ → Option ℕ) (eap_parse : List ℕ → Bool → Bool) (ctx : Context)
    (decrypt : Bool → List ℕ → Option (List ℕ)) where
  eap-Keeps :
      (offset left : ℕ) (m : Message)
      → offset + left ≤ length m.msg_data
      → Keeps m (ikev2_pld_eap oneline eap_parse ctx decrypt false offset left m)
  unfolding ikev2_pld_eap
  eap-Keeps offset left m h = reject_rule (ltb left 4) m refl (λ a.
      let enough : 4 ≤ left = ground arith in
      bind_rule (memcpy_rule offset 4 m (omega arith)) (λ hdr l.
        reject_rule (left != be16 hdr 2) m refl (λ b.
          if_rule (Keeps m) (ltb left 5) _ _ (λ y. returns refl)
            (λ n.
              less m
                (seek-Ends {P = λ k. k ≡ m} m offset left
                  (λ eap. reject_rule (not (eap_parse eap m.response)) m refl (λ c. returns refl)))
                (same_buffer m) (same_buffer m)))))

  encrypted_payload-Keeps :
      (payload offset left : ℕ) (m : Message)
      → offset + left ≤ length m.msg_data
      → Keeps m (encrypted_payload oneline eap_parse ctx decrypt false payload offset left m)
  unfolding encrypted_payload
  encrypted_payload-Keeps payload offset left m h =
      if_rule (Keeps m) (payload == 35 || payload == 36) _ _
        (λ y. field-Keeps m _ (parse_field-Adds oneline (id_payload payload) offset left m h))
        (λ a.
          if_rule (Keeps m) (payload == 37) _ _
            (λ y. field-Keeps m _ (parse_field-Adds oneline cert_payload offset left m h))
            (λ b.
              if_rule (Keeps m) (payload == 39) _ _
                (λ y. field-Keeps m _ (parse_field-Adds oneline auth_payload offset left m h))
                (λ c.
                  if_rule (Keeps m) (payload == 42) _ _ (λ y. delete-Keeps offset left m h)
                    (λ d.
                      if_rule (Keeps m) (payload == 44 || payload == 45) _ _
                        (λ y.
                          less m (ikev2_pld_tss-Checks offset left m h) (same_buffer m)
                            (same_buffer m))
                        (λ e.
                          if_rule (Keeps m) (payload == 47) _ _
                            (λ y. cp-Keeps false offset left m refl h)
                            (λ f.
                              if_rule (Keeps m) (payload == 48) _ _ (λ y. eap-Keeps offset left m h)
                                (λ g. print_hex-Keeps false offset left m h)))))))

  message_payload-Keeps :
      (payload offset left : ℕ) (m : Message)
      → offset + left ≤ length m.msg_data
      → Keeps m (message_payload oneline eap_parse ctx decrypt false payload offset left m)
  unfolding message_payload
  message_payload-Keeps payload offset left m h =
      if_rule (Keeps m) (payload == 33) _ _
        (λ y. less m (ikev2_pld_sa-Ends offset left m h) (λ k s. s.buffer) (λ k s. s.buffer))
        (λ a.
          if_rule (Keeps m) (payload == 34) _ _
            (λ y. field-Keeps m _ (parse_field-Adds oneline ke_payload offset left m h))
            (λ b.
              if_rule (Keeps m) (payload == 38) _ _
                (λ y. field-Keeps m _ (parse_field-Adds oneline certreq_payload offset left m h))
                (λ c.
                  if_rule (Keeps m) (payload == 40) _ _
                    (λ y. field-Keeps m _ (parse_field-Adds oneline nonce_payload offset left m h))
                    (λ d.
                      if_rule (Keeps m) m.encrypted _ _
                        (λ y. encrypted_payload-Keeps payload offset left m h)
                        (λ e. print_hex-Keeps false offset left m h)))))

  pub inner_switch-IsSafe : SafeSwitch (inner_switch oneline eap_parse ctx decrypt false)
  unfolding inner_switch
  inner_switch-IsSafe payload next offset left p h =
      if_rule (IsSafe p.msg.msg_data) (payload == 41) _ _
        (λ y.
          parsed_by-IsSafe _ p _
            (noticed (ikev2_pld_notify-Fine ctx offset left p.msg p.notices h)))
        (λ n. parsed_by-IsSafe _ p _ (message_payload-Keeps payload offset left p.msg h))
    where
      noticed :
          {o : Outcome Notices}
          → Ends (λ k. Unit {0}) (λ k. k ≡ p.msg) o
          → Ends (λ k. p.msg.msg_data ≡ p.msg.msg_data) (KeepsBuffer p.msg) o
      noticed (returns u) = returns refl
      noticed (rejects e) = rejects (same_buffer p.msg _ e)

  pub parse_text-IsSafe :
      (next : ℕ) (text : List ℕ) (p : Parsing)
      → IsSafe p.msg.msg_data (parse_text oneline eap_parse ctx decrypt false next text p)
  unfolding parse_text
  parse_text-IsSafe next text p = for_parent-IsSafe text p _ (
      payloads_loop-IsSafe (inner_switch oneline eap_parse ctx decrypt false) text
        inner_switch-IsSafe (suc (length text)) next (length text) 0 (length text) (opened text p)
        refl (λ i. omega arith) (omega arith) (omega arith))

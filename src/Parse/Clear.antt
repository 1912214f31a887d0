-- ===== src/Parse/Clear.antt =====
-- What a message that nothing can be decrypted of does, in ikev2_pld_parse of iked/ikev2_pld.c.
use openiked_portable.Payload.Safety.{Ends, returns, memcpy_rule}
use openiked_portable.Notify.Plain.{ikev2_pld_notify-Leaves}
use openiked_portable.Parse.Rounds.{Parses, refuses, payloads_loop-Parses}
use openiked_portable.Base.{
  arith, some, Option, ◌≡◌, ◌&&◌, List, false, not, ◌≤◌, ◌-◌, ◌+◌, Bool, ℕ, length, if_rule, ◌==◌,
  none, sym, suc, subst, ltb,
}
use openiked_portable.Notify.{Context}
use openiked_portable.Parse.{
  Parsing, message_payload, refused, has_fragments, parse_ef, inner_switch, ikev2_pld_e, unended,
  ikev2_pld_payloads, ikev2_pld_parse, crashed, switch, parse_text, after_fragment,
}
use openiked_portable.Payload.{Outcome, Message, ok, fault, failed, memcpy, no_fuel}
use openiked_portable.Fragment.{ikev2_pld_ef, dropped, Receiver, Verdict}
use openiked_portable.Payload.Quick.{ike_header_size, payload_skf}
use openiked_portable.Msg.Wire.{payload_sk}
use openiked_portable.Parse.Guarded.{
  sa-Guarding, Guarding, ke-Guarding, printed-Guarding, certreq-Guarding, nonce-Guarding,
}
use openiked_portable.Parse.Shielded.{
  parsed_message, ef-Drops, with_receiver, in_clear, parsed_notices, Shielded-refl, Shielded,
}

module _ (oneline : List ℕ → Option ℕ) (eap_parse : List ℕ → Bool → Bool) (ctx : Context)
    (decrypt : Bool → List ℕ → Option (List ℕ)) (verbose : Bool) where
  message_payload-Guarding :
      (payload offset left : ℕ) (m : Message)
      → m.encrypted ≡ false
      → offset + left ≤ length m.msg_data
      → Guarding m (message_payload oneline eap_parse ctx decrypt verbose payload offset left m)
  unfolding message_payload
  message_payload-Guarding payload offset left m c h =
      if_rule (Guarding m) (payload == 33) _ _ (λ y. sa-Guarding offset left m h)
        (λ a.
          if_rule (Guarding m) (payload == 34) _ _ (λ y. ke-Guarding offset left m h)
            (λ b.
              if_rule (Guarding m) (payload == 38) _ _ (λ y. certreq-Guarding offset left m h)
                (λ d.
                  if_rule (Guarding m) (payload == 40) _ _ (λ y. nonce-Guarding offset left m h)
                    (λ e.
                      if_rule (Guarding m) m.encrypted _ _ (λ y. absurd (cc (c, y)))
                        (λ f. printed-Guarding offset left m h verbose)))))

  inner_switch-Shielded :
      (payload next offset left : ℕ) (p q : Parsing)
      → Shielded ctx p q
      → q.msg.encrypted ≡ false
      → offset + left ≤ length q.msg.msg_data
      → Parses
          (Shielded ctx p)
          (inner_switch oneline eap_parse ctx decrypt verbose payload next offset left q)
  unfolding inner_switch
  inner_switch-Shielded payload next offset left p q s c h =
      if_rule (Parses (Shielded ctx p)) (payload == 41) _ _
        (λ y.
          parsed_notices ctx p q _ s (ikev2_pld_notify-Leaves ctx q.notices q.msg c offset left h))
        (λ n. parsed_message ctx p q _ s (message_payload-Guarding payload offset left q.msg c h))

  module _ (no_key : (b : Bool) (bs : List ℕ) → decrypt b bs ≡ none) where
    ikev2_pld_e-Shielded :
        (next offset left : ℕ) (p q : Parsing)
        → Shielded ctx p q
        → offset + left ≤ length q.msg.msg_data
        → Parses
            (Shielded ctx p)
            (ikev2_pld_e oneline eap_parse ctx decrypt verbose next offset left q)
    unfolding ikev2_pld_e
    ikev2_pld_e-Shielded next offset left p q s h =
        if_rule (Parses (Shielded ctx p))
          (has_fragments oneline eap_parse ctx decrypt verbose q.receiver.frags) _ _
          (λ y. refuses (with_receiver _ s))
          (λ n.
            copied (memcpy offset left q.msg)
              (memcpy_rule {Q = λ k. k ≡ q.msg} offset left q.msg h))
      where
        copied :
            (o : Outcome (List ℕ))
            → Ends (λ b. length b ≡ left) (λ k. k ≡ q.msg) o
            → Parses (Shielded ctx p) (elim o [
              | ok body ↦ elim (decrypt q.msg.frompeer body) [
                | none ↦ refused q
                | some text ↦ parse_text oneline eap_parse ctx decrypt verbose next text q
              ]
              | failed e n ↦ refused q
              | fault ↦ crashed
              | no_fuel ↦ unended
            ])
        copied (ok body) e = rw (no_key q.msg.frompeer body) (refuses s)
        copied (failed r n) e = refuses s
        copied fault e = elim e [ ]
        copied no_fuel e = elim e [ ]

    parse_ef-Shielded :
        (next offset left : ℕ) (p q : Parsing)
        → Shielded ctx p q
        → offset + left ≤ length q.msg.msg_data
        → Parses
            (Shielded ctx p)
            (parse_ef oneline eap_parse ctx decrypt verbose next offset left q)
    unfolding parse_ef after_fragment
    parse_ef-Shielded next offset left p q s h =
        received (ikev2_pld_ef (decrypt q.msg.frompeer) next offset left q.msg q.receiver) (
          ef-Drops (decrypt q.msg.frompeer) next offset left q.msg q.receiver
            (no_key q.msg.frompeer) h)
      where
        received :
            (o : Outcome (Receiver × Verdict))
            → Ends (λ b. b.1 ≡ dropped) (λ k. k ≡ q.msg) o
            → Parses (Shielded ctx p) (elim o [
              | ok (r, v) ↦
                  after_fragment oneline eap_parse ctx decrypt verbose (record q { receiver = r }) v
              | failed e n ↦ refused q
              | fault ↦ crashed
              | no_fuel ↦ unended
            ])
        received (ok (r, v)) (returns e) = rw e (refuses (with_receiver r s))
        received (failed r n) e = refuses s
        received fault e = elim e [ ]
        received no_fuel e = elim e [ ]

    -- On any message that comes in the clear and of which nothing can be decrypted, the parse ends
    -- and reads nothing outside it, also if the daemon is verbose. Whatever is in the message, none
    -- of the identities, certificates, authentication data, deletions and configuration attributes
    -- is set, and no SA to rekey, IPComp, cookie for MOBIKE or update of the
    -- addresses; and of the flags of notifications none that needs encryption is set or cleared.
    pub ikev2_pld_parse-Shielded :
        (nextpayload len offset : ℕ) (p : Parsing)
        → p.msg.encrypted ≡ false
        → Parses
            (Shielded ctx p)
            (ikev2_pld_parse oneline eap_parse ctx decrypt verbose nextpayload len offset p)
    unfolding ikev2_pld_parse ikev2_pld_payloads switch
    ikev2_pld_parse-Shielded nextpayload len offset p c =
        if_rule (Parses (Shielded ctx p)) (ltb (length p.msg.msg_data) len) _ _
          (λ y. refuses (Shielded-refl ctx p))
          (λ n.
            let fits : len ≤ length p.msg.msg_data = ground arith in
            payloads_loop-Parses (switch oneline eap_parse ctx decrypt verbose) p.msg.msg_data
              (Shielded ctx p) (λ q s. s.message.buffer) switched (suc len) nextpayload len
              (offset + ike_header_size) (len - (offset + ike_header_size)) p (Shielded-refl ctx p)
              (λ i. omega arith) fits (omega arith))
      where
        switched :
            (payload next at left : ℕ) (q : Parsing)
            → Shielded ctx p q
            → at + left ≤ length p.msg.msg_data
            → Parses
                (Shielded ctx p)
                (switch oneline eap_parse ctx decrypt verbose payload next at left q)
        switched payload next at left q s h =
            let held : at + left ≤ length q.msg.msg_data =
              subst (λ d. at + left ≤ length d) (sym s.message.buffer) h in
            if_rule (Parses (Shielded ctx p)) (payload == payload_sk && not q.msg.encrypted) _ _
              (λ y. ikev2_pld_e-Shielded next at left p q s held)
              (λ n.
                if_rule (Parses (Shielded ctx p)) (payload == payload_skf && not q.msg.encrypted) _
                  _ (λ y. parse_ef-Shielded next at left p q s held)
                  (λ z. inner_switch-Shielded payload next at left p q s (in_clear s c) held))

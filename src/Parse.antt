-- ===== src/Parse.antt =====
-- A whole message: ikev2_pld_parse, ikev2_pld_payloads, ikev2_pld_e and ikev2_pld_eap of
-- iked/ikev2_pld.c, over the parsers of the payloads. The steps that belong to other parts are
-- parameters: X509_NAME_oneline of OpenSSL, what eap_parse of iked/eap.c returns for a message, and
-- what ikev2_msg_decrypt returns for a body, by whether it is from the peer (Msg models it). The SA
-- is there, ibuf_new of a part of a message succeeds, since no message is longer than
-- IKED_MSGBUF_MAX, and what is sent in answer to an error is left out.
pub mod Rounds
pub mod Inner
pub mod Within
pub mod Guarded
pub mod Shielded
pub mod Clear
use openiked_portable.Payload.Association.{ikev2_pld_sa}
use openiked_portable.Payload.Fields.{
  ikev2_pld_ke, ikev2_pld_id, ikev2_pld_cert, ikev2_pld_certreq, ikev2_pld_auth, ikev2_pld_nonce,
}
use openiked_portable.Payload.Deletion.{ikev2_pld_delete}
use openiked_portable.Payload.Selectors.{ikev2_pld_tss}
use openiked_portable.Payload.Configuration.{ikev2_pld_cp, print_hex}
use openiked_portable.Payload.Quick.{ikev2_validate_pld, payload_skf, ike_header_size}
use openiked_portable.Notify.{Context, Notices, ikev2_pld_notify, ibuf_seek}
use openiked_portable.Fragment.{
  Receiver, Fragments, Verdict, config_free_fragments, ikev2_pld_ef, stored, parse,
}
use openiked_portable.Base.{
  ◌-◌, zero, ℕ, ◌&&◌, true, Option, ◌||◌, ◌+◌, some, List, none, Bool, suc, not, length, ◌==◌,
  if◌then◌else◌, ◌!=◌, leb, ltb, is_some,
}
use openiked_portable.Msg.Wire.{payload_sk}
use openiked_portable.Payload.{
  fault, reject_if, no_fuel, memcpy, Outcome, ok, failed, Message, byte, be16, ◌>>=◌, ◌>>◌,
}

-- The message with the fields that the parsers fill, and the fragments of its SA.
pub record Parsing : Type 0 where
  pub msg : Message
  pub notices : Notices
  pub receiver : Receiver

-- The return values 0 and -1, a read outside the buffer, or no return.
pub data Parsed : Type 0 where
  accepted : Parsing → Parsed
  refused : Parsing → Parsed
  crashed : Parsed
  unended : Parsed

-- What the parser of a payload leaves.
unfoldable pub parsed_by : {A : Type 0} → (A → Parsing) → Parsing → Outcome A → Parsed
parsed_by f p (ok a) = accepted (f a)
parsed_by f p (failed r m) = refused (record p { msg = m })
parsed_by f p fault = crashed
parsed_by f p no_fuel = unended

-- The rest of the loop behind a payload, which only an error in a message of the peer ends; behind
-- an encrypted one there is no other.
unfoldable pub proceed : Bool → (Parsing → Parsed) → Parsed → Parsed
proceed last k (accepted p) = if last then accepted p else k p
proceed last k (refused p) = if p.msg.frompeer then refused p else if last then accepted p else k p
proceed last k crashed = crashed
proceed last k unended = unended

-- The loop with fuel, over the switch of a payload: its type, that of the next, where it stands.
unfoldable pub payloads_loop :
    (ℕ → ℕ → ℕ → ℕ → Parsing → Parsed) → ℕ → ℕ → ℕ → ℕ → ℕ → Parsing → Parsed
unfolding proceed ikev2_validate_pld byte be16
payloads_loop switch zero payload len offset total p = unended
payloads_loop switch (suc n) payload len offset total p =
    if payload == 0 || leb len offset
    then accepted p
    else (elim (ikev2_validate_pld offset total p.msg) [
      | ok pld ↦
          proceed (payload == payload_sk || payload == payload_skf)
            (payloads_loop switch n (byte pld 0) len (offset + 4 + (be16 pld 2 - 4))
              (total - 4 - (be16 pld 2 - 4)))
            (switch payload (byte pld 0) (offset + 4) (be16 pld 2 - 4) p)
      | failed r m ↦ refused p
      | fault ↦ crashed
      | no_fuel ↦ unended
    ])

-- The message that ikev2_pld_e and ikev2_frags_reassemble make for a decrypted text, and what it
-- leaves for its parent.
abbrev pub opened : List ℕ → Parsing → Parsing
opened text p =
    let m : Message = p.msg in record p { msg = record m { msg_data = text; encrypted = true } }

abbrev pub restored : Parsing → Parsing → Parsing
restored p q =
    let m : Message = p.msg in
    let e : Message = q.msg in
    record q {
      msg = record e {
        msg_data = m.msg_data;
        encrypted = m.encrypted;
        prop = m.prop;
        attrlength = m.attrlength;
      };
    }

unfoldable pub for_parent : Parsing → Parsed → Parsed
for_parent p (accepted q) = accepted (restored p q)
for_parent p (refused q) = refused (restored p q)
for_parent p crashed = crashed
for_parent p unended = unended

module _ (oneline : List ℕ → Option ℕ) (eap_parse : List ℕ → Bool → Bool) (ctx : Context)
    (decrypt : Bool → List ℕ → Option (List ℕ)) (verbose : Bool) where
  unfoldable pub ikev2_pld_eap : ℕ → ℕ → Message → Outcome Message
  unfolding memcpy be16 ibuf_seek
  ikev2_pld_eap offset left m = do
    reject_if (ltb left 4) m
    hdr ← memcpy offset 4 m
    reject_if (left != be16 hdr 2) m
    if ltb left 5
        then ok m
        else (do eap ← ibuf_seek offset left m; reject_if (not (eap_parse eap m.response)) m; ok m)

  -- The payloads that are parsed in an encrypted message only.
  unfoldable pub encrypted_payload : ℕ → ℕ → ℕ → Message → Outcome Message
  unfolding ikev2_pld_id ikev2_pld_cert ikev2_pld_auth ikev2_pld_delete ikev2_pld_tss ikev2_pld_cp
      ikev2_pld_eap print_hex
  encrypted_payload payload offset left m =
      if payload == 35 || payload == 36
      then ikev2_pld_id oneline payload offset left m
      else if payload == 37
      then ikev2_pld_cert offset left m
      else if payload == 39
      then ikev2_pld_auth offset left m
      else if payload == 42
      then ikev2_pld_delete offset left m
      else if payload == 44 || payload == 45
      then ikev2_pld_tss offset left m
      else if payload == 47
      then ikev2_pld_cp verbose offset left m
      else if payload == 48
      then ikev2_pld_eap offset left m
      else (print_hex verbose offset left m >> ok m)

  unfoldable pub message_payload : ℕ → ℕ → ℕ → Message → Outcome Message
  unfolding ikev2_pld_sa ikev2_pld_ke ikev2_pld_certreq ikev2_pld_nonce encrypted_payload print_hex
  message_payload payload offset left m =
      if payload == 33
      then ikev2_pld_sa offset left m
      else if payload == 34
      then ikev2_pld_ke offset left m
      else if payload == 38
      then ikev2_pld_certreq offset left m
      else if payload == 40
      then ikev2_pld_nonce offset left m
      else if m.encrypted
      then encrypted_payload payload offset left m
      else (print_hex verbose offset left m >> ok m)

  -- The switch in a message that has been decrypted.
  unfoldable pub inner_switch : ℕ → ℕ → ℕ → ℕ → Parsing → Parsed
  unfolding parsed_by message_payload ikev2_pld_notify
  inner_switch payload next offset left p =
      if payload == 41
      then parsed_by (λ n. record p { notices = n }) p
          (ikev2_pld_notify ctx offset left p.msg p.notices)
      else parsed_by (λ m. record p { msg = m }) p (message_payload payload offset left p.msg)

  unfoldable pub parse_text : ℕ → List ℕ → Parsing → Parsed
  unfolding payloads_loop inner_switch for_parent
  parse_text next text p = for_parent p (
      payloads_loop inner_switch (suc (length text)) next (length text) 0 (length text)
        (opened text p))

  abbrev pub has_fragments : Fragments → Bool
  has_fragments f = is_some f.frag_arr

  unfoldable pub ikev2_pld_e : ℕ → ℕ → ℕ → Parsing → Parsed
  unfolding parse_text config_free_fragments memcpy
  ikev2_pld_e next offset left p =
      let r : Receiver = p.receiver in
      let m : Message = p.msg in
      if has_fragments r.frags
      then refused (record p { receiver = record r { frags = config_free_fragments r.frags } })
      else (elim (memcpy offset left m) [
        | ok body ↦ elim (decrypt m.frompeer body) [
          | none ↦ refused p
          | some text ↦ parse_text next text p
        ]
        | failed e n ↦ refused p
        | fault ↦ crashed
        | no_fuel ↦ unended
      ])

  unfoldable pub after_fragment : Parsing → Verdict → Parsed
  unfolding parse_text
  after_fragment p stored = accepted p
  after_fragment p (parse next text) = parse_text next text p
  after_fragment p other = refused p

  -- ikev2_pld_ef, with what follows a fragment.
  unfoldable pub parse_ef : ℕ → ℕ → ℕ → Parsing → Parsed
  unfolding ikev2_pld_ef after_fragment
  parse_ef next offset left p =
      let m : Message = p.msg in
      elim (ikev2_pld_ef (decrypt m.frompeer) next offset left m p.receiver) [
        | ok (r, v) ↦ after_fragment (record p { receiver = r }) v
        | failed e n ↦ refused p
        | fault ↦ crashed
        | no_fuel ↦ unended
      ]

  unfoldable pub switch : ℕ → ℕ → ℕ → ℕ → Parsing → Parsed
  unfolding ikev2_pld_e parse_ef inner_switch
  switch payload next offset left p =
      let m : Message = p.msg in
      if payload == payload_sk && not m.encrypted
      then ikev2_pld_e next offset left p
      else if payload == payload_skf && not m.encrypted
      then parse_ef next offset left p
      else inner_switch payload next offset left p

  unfoldable pub ikev2_pld_payloads : ℕ → ℕ → ℕ → Parsing → Parsed
  unfolding payloads_loop switch
  ikev2_pld_payloads offset len payload p =
      payloads_loop switch (suc len) payload len offset (len - offset) p

  -- Of the header ike_nextpayload and ike_length are read.
  unfoldable pub ikev2_pld_parse : ℕ → ℕ → ℕ → Parsing → Parsed
  unfolding ikev2_pld_payloads
  ikev2_pld_parse nextpayload len offset p =
      let m : Message = p.msg in
      if ltb (length m.msg_data) len
      then refused p
      else ikev2_pld_payloads (offset + ike_header_size) len nextpayload p

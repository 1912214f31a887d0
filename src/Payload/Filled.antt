-- ===== src/Payload/Filled.antt =====
-- The parsers of the field payloads, on any payload that lies in the message buffer.
use openiked_portable.Base.{
  ℕ, ◌+◌, ◌-◌, ◌%◌, ◌≤◌, ◌≡◌, refl, ◌&&◌, ◌||◌, not, Option, List, ltb, ◌==◌, ◌!=◌, is_some, length,
  arith, if_rule, ==_iff,
}
use openiked_portable.Payload.{
  Message, IkedId, Outcome, ok, ◌>>=◌, ◌>>◌, reject_if, memcpy, byte, be16,
}
use openiked_portable.Payload.Safety.{
  Ends, returns, rejects, bind_rule, reject_rule, memcpy_rule, header,
}
use openiked_portable.Payload.Kept.{
  Grows, Grows-refl, store_once-Ends, ke-Grows, nonce-Grows, auth-Grows, peerid-Grows,
  localid-Grows, cert-Grows, scert-Grows, certreqs-Grows,
}
use openiked_portable.Payload.Fields.{
  ikev2_validate_ke, ikev2_pld_ke, ikev2_validate_id, IdField, peer_field, local_field, no_field,
  id_field, store_id, ikev2_pld_id, ikev2_validate_cert, store_cert, ikev2_pld_cert,
  ikev2_validate_certreq, request, ikev2_pld_certreq, ikev2_validate_auth, ikev2_pld_auth,
  ikev2_pld_nonce, cert_bundle,
}
use openiked_portable.Payload.Identity.{ikev2_print_id}

-- The parser of a payload ends with a message that has grown, or leaves it as it was.
abbrev pub Adds : Message → Outcome Message → Type 0
Adds m o = Ends (Grows m) (λ n. n ≡ m) o

store_id-Adds : (f : IdField) (id : IkedId) (m : Message) → Adds m (store_id f id m)
unfolding store_id
store_id-Adds peer_field id m =
    reject_rule (m.peerid.id_type != 0) m refl (λ e. returns (peerid-Grows m id e))
store_id-Adds local_field id m =
    reject_rule (m.localid.id_type != 0) m refl (λ e. returns (localid-Grows m id e))
store_id-Adds no_field id m = returns (Grows-refl m)

store_cert-Grows : (id : IkedId) (m : Message) → Grows m (store_cert id m)
unfolding store_cert
store_cert-Grows id m =
    if_rule (Grows m) (m.cert.id_type == 0) _ _
      (λ y. cert-Grows m id ((==_iff m.cert.id_type 0).0 y)) (λ n. scert-Grows m id)

request-Adds : (type : ℕ) (buf : List ℕ) (len : ℕ) (m : Message) → Adds m (request type buf len m)
unfolding request
request-Adds type buf len m =
    if_rule (Adds m) (not m.frompeer || (type == 4 && len == 0)) _ _ (λ y. returns (Grows-refl m))
      (λ n.
        if_rule (Adds m) (type == 4 && len % 20 != 0) _ _ (λ y. rejects refl)
          (λ k. returns (certreqs-Grows m type buf)))

-- A header whose first byte is tested too.
typed_header :
    {B : Type 0} {R : B → Type 0} (size offset left : ℕ) (m : Message) {f : List ℕ → Outcome B}
    → offset + left ≤ length m.msg_data
    → (size ≤ left → (bs : List ℕ) → Ends R (λ n. n ≡ m) (f bs))
    → Ends R
        (λ n. n ≡ m)
        ((do
          reject_if (ltb left size) m
          bs ← memcpy offset size m
          reject_if (byte bs 0 == 0) m
          ok bs)
          >>= f)
typed_header size offset left m h k =
    bind_rule
      (reject_rule (ltb left size) m refl (λ e.
        let enough : size ≤ left = ground arith in
        bind_rule (memcpy_rule offset size m (omega arith))
          (λ bs l. reject_rule (byte bs 0 == 0) m refl (λ z. returns enough))))
      (λ bs enough. k enough bs)

module _ (offset left : ℕ) (m : Message) (h : offset + left ≤ length m.msg_data) where
  -- The body of a payload behind its header.
  body :
      {P : Message → Type 0} (size : ℕ) {f : List ℕ → Outcome Message}
      → size ≤ left
      → ((bs : List ℕ) → Ends P (λ n. n ≡ m) (f bs))
      → Ends P (λ n. n ≡ m) (memcpy (offset + size) (left - size) m >>= f)
  body size enough k =
      bind_rule (memcpy_rule (offset + size) (left - size) m (omega arith)) (λ bs l. k bs)

  ke-Adds : Adds m (ikev2_pld_ke offset left m)
  unfolding ikev2_pld_ke ikev2_validate_ke
  ke-Adds = header 4 offset left m refl h (λ enough kex. reject_rule (left - 4 == 0) m refl (λ e.
      body 4 enough
        (λ buf. store_once-Ends (is_some m.ke) m _ (λ t. ke-Grows m buf (be16 kex 0) t))))

  auth-Adds : Adds m (ikev2_pld_auth offset left m)
  unfolding ikev2_pld_auth ikev2_validate_auth
  auth-Adds = typed_header 4 offset left m h (λ enough auth.
      body 4 enough (λ buf. store_once-Ends (m.auth.id_type != 0) m _ (λ t. auth-Grows m _ t)))

  cert-Adds : Adds m (ikev2_pld_cert offset left m)
  unfolding ikev2_pld_cert ikev2_validate_cert
  cert-Adds = typed_header 1 offset left m h (λ enough cert. body 1 enough (λ buf.
      let id : IkedId = record { id_type = byte cert 0; id_offset = 0; id_buf = buf } in
      returns (
        if_rule (Grows m) (m.frompeer && byte cert 0 != cert_bundle) _ _
          (λ y. store_cert-Grows id m) (λ n. Grows-refl m))))

  id-Adds :
      (oneline : List ℕ → Option ℕ) (payload : ℕ)
      → Adds m (ikev2_pld_id oneline payload offset left m)
  unfolding ikev2_pld_id ikev2_validate_id
  id-Adds oneline payload = typed_header 4 offset left m h (λ enough id.
      bind_rule (memcpy_rule offset left m h) (λ buf l.
        let idb : IkedId = record { id_type = byte id 0; id_offset = 4; id_buf = buf } in
        reject_rule (ikev2_print_id oneline idb) m refl (λ e.
          if_rule (Adds m) m.frompeer _ _ (λ y. store_id-Adds (id_field m.initiator payload) idb m)
            (λ n. returns (Grows-refl m)))))

  certreq-Adds : Adds m (ikev2_pld_certreq offset left m)
  unfolding ikev2_pld_certreq ikev2_validate_certreq
  certreq-Adds =
      header 1 offset left m refl h
        (λ enough cert. body 1 enough (λ buf. request-Adds (byte cert 0) buf (left - 1) m))

  nonce-Adds : Adds m (ikev2_pld_nonce offset left m)
  unfolding ikev2_pld_nonce
  nonce-Adds = reject_rule (left == 0) m refl (λ e.
      bind_rule (memcpy_rule offset left m h)
        (λ buf l. store_once-Ends (is_some m.nonce) m _ (λ t. nonce-Grows m buf t)))

-- The payloads that fill a field, by their parsers.
pub data FieldPayload : Type 0 where
  ke_payload : FieldPayload
  id_payload : ℕ → FieldPayload
  cert_payload : FieldPayload
  certreq_payload : FieldPayload
  auth_payload : FieldPayload
  nonce_payload : FieldPayload

abbrev pub parse_field : (List ℕ → Option ℕ) → FieldPayload → ℕ → ℕ → Message → Outcome Message
parse_field oneline ke_payload = ikev2_pld_ke
parse_field oneline (id_payload payload) = ikev2_pld_id oneline payload
parse_field oneline cert_payload = ikev2_pld_cert
parse_field oneline certreq_payload = ikev2_pld_certreq
parse_field oneline auth_payload = ikev2_pld_auth
parse_field oneline nonce_payload = ikev2_pld_nonce

-- On any KE, ID, CERT, CERTREQ, AUTH or NONCE payload that lies in the message buffer, whatever its
-- bytes are, the parser reads nothing outside the buffer. If it returns 0, it has replaced nothing
-- that an earlier payload had set, and only added to the list of certificate requests; if it
-- returns an error, the message is as it was.
pub parse_field-Adds :
    (oneline : List ℕ → Option ℕ) (p : FieldPayload) (offset left : ℕ) (m : Message)
    → offset + left ≤ length m.msg_data
    → Adds m (parse_field oneline p offset left m)
parse_field-Adds oneline ke_payload offset left m h = ke-Adds offset left m h
parse_field-Adds oneline (id_payload p) offset left m h = id-Adds offset left m h oneline p
parse_field-Adds oneline cert_payload offset left m h = cert-Adds offset left m h
parse_field-Adds oneline certreq_payload offset left m h = certreq-Adds offset left m h
parse_field-Adds oneline auth_payload offset left m h = auth-Adds offset left m h
parse_field-Adds oneline nonce_payload offset left m h = nonce-Adds offset left m h

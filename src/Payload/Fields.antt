-- ===== src/Payload/Fields.antt =====
-- The payloads that fill a field of the message: KE, IDi and IDr, CERT, CERTREQ, AUTH and NONCE,
-- with their validators, of iked/ikev2_pld.c.
use openiked_portable.Base.{
  ℕ, ◌+◌, ◌-◌, ◌%◌, ◌&&◌, ◌||◌, not, Bool, Option, some, List, [], ◌∷◌, ◌++◌, ltb, ◌==◌, ◌!=◌,
  if◌then◌else◌, is_some,
}
use openiked_portable.Payload.{
  Message, IkedId, Outcome, ok, failed, invalid, ◌>>=◌, ◌>>◌, reject_if, memcpy, byte, be16,
}
use openiked_portable.Payload.Identity.{ikev2_print_id}

-- What a peer sends is stored, unless its field is taken.
abbrev pub store_once : Bool → Message → Message → Outcome Message
store_once taken m stored =
    if m.frompeer then (if taken then failed invalid m else ok stored) else ok m

unfoldable pub ikev2_validate_ke : ℕ → ℕ → Message → Outcome (List ℕ)
unfolding memcpy
ikev2_validate_ke offset left m = do reject_if (ltb left 4) m; memcpy offset 4 m

unfoldable pub ikev2_pld_ke : ℕ → ℕ → Message → Outcome Message
unfolding ikev2_validate_ke memcpy be16
ikev2_pld_ke offset left m = do
  kex ← ikev2_validate_ke offset left m
  reject_if (left - 4 == 0) m
  buf ← memcpy (offset + 4) (left - 4) m
  store_once (is_some m.ke) m (record m { ke = some buf; dhgroup = be16 kex 0 })

unfoldable pub ikev2_validate_id : ℕ → ℕ → Message → Outcome (List ℕ)
unfolding memcpy byte
ikev2_validate_id offset left m = do
  reject_if (ltb left 4) m
  id ← memcpy offset 4 m
  reject_if (byte id 0 == 0) m
  ok id

-- IKEV2_PAYLOAD_IDi and IKEV2_PAYLOAD_IDr.
abbrev pub payload_idi : ℕ
payload_idi = 35

abbrev pub payload_idr : ℕ
payload_idr = 36

-- The field that an ID payload of a peer is for.
pub data IdField : Type 0 where
  peer_field : IdField
  local_field : IdField
  no_field : IdField

abbrev pub id_field : Bool → ℕ → IdField
id_field initiator payload =
    if (initiator && payload == payload_idr) || (not initiator && payload == payload_idi)
    then peer_field
    else if not initiator && payload == payload_idr
    then local_field
    else no_field

unfoldable pub store_id : IdField → IkedId → Message → Outcome Message
store_id peer_field id m = do reject_if (m.peerid.id_type != 0) m; ok (record m { peerid = id })
store_id local_field id m = do reject_if (m.localid.id_type != 0) m; ok (record m { localid = id })
store_id no_field id m = ok m

module _ (oneline : List ℕ → Option ℕ) where
  unfoldable pub ikev2_pld_id : ℕ → ℕ → ℕ → Message → Outcome Message
  unfolding ikev2_validate_id ikev2_print_id store_id memcpy byte
  ikev2_pld_id payload offset left m = do
    id ← ikev2_validate_id offset left m
    buf ← memcpy offset left m
    let idb : IkedId = record { id_type = byte id 0; id_offset = 4; id_buf = buf }
    reject_if (ikev2_print_id oneline idb) m
    if m.frompeer then store_id (id_field m.initiator payload) idb m else ok m

unfoldable pub ikev2_validate_cert : ℕ → ℕ → Message → Outcome (List ℕ)
unfolding memcpy byte
ikev2_validate_cert offset left m = do
  reject_if (ltb left 1) m
  cert ← memcpy offset 1 m
  reject_if (byte cert 0 == 0) m
  ok cert

abbrev pub cert_bundle : ℕ
cert_bundle = 254

-- The first free slot of msg_scert takes the certificate; with none free it is ignored.
unfoldable pub fill_slot : IkedId → List IkedId → List IkedId
fill_slot id [] = []
fill_slot id (slot ∷ slots) = if slot.id_type == 0 then id ∷ slots else slot ∷ fill_slot id slots

unfoldable pub store_cert : IkedId → Message → Message
unfolding fill_slot
store_cert id m =
    if m.cert.id_type == 0
    then record m { cert = id }
    else record m { scert = fill_slot id m.scert }

unfoldable pub ikev2_pld_cert : ℕ → ℕ → Message → Outcome Message
unfolding ikev2_validate_cert store_cert memcpy byte
ikev2_pld_cert offset left m = do
  cert ← ikev2_validate_cert offset left m
  buf ← memcpy (offset + 1) (left - 1) m
  ok (
      if m.frompeer && byte cert 0 != cert_bundle
      then store_cert (record { id_type = byte cert 0; id_offset = 0; id_buf = buf }) m
      else m)

unfoldable pub ikev2_validate_certreq : ℕ → ℕ → Message → Outcome (List ℕ)
unfolding memcpy
ikev2_validate_certreq offset left m = do reject_if (ltb left 1) m; memcpy offset 1 m

abbrev pub cert_x509_cert : ℕ
cert_x509_cert = 4

abbrev pub sha_digest_length : ℕ
sha_digest_length = 20

-- The request is stored in the order of arrival.
unfoldable pub store_certreq : ℕ → List ℕ → Message → Message
store_certreq type buf m = record m {
  certreqs = m.certreqs ++ (record { cr_type = type; cr_data = buf } ∷ []);
}

-- The hashes of an X.509 request have 20 bytes each, and an empty request is ignored.
unfoldable pub request : ℕ → List ℕ → ℕ → Message → Outcome Message
unfolding store_certreq
request type buf len m =
    if not m.frompeer || (type == cert_x509_cert && len == 0)
    then ok m
    else if type == cert_x509_cert && len % sha_digest_length != 0
    then failed invalid m
    else ok (store_certreq type buf m)

unfoldable pub ikev2_pld_certreq : ℕ → ℕ → Message → Outcome Message
unfolding ikev2_validate_certreq request memcpy byte
ikev2_pld_certreq offset left m = do
  cert ← ikev2_validate_certreq offset left m
  buf ← memcpy (offset + 1) (left - 1) m
  request (byte cert 0) buf (left - 1) m

unfoldable pub ikev2_validate_auth : ℕ → ℕ → Message → Outcome (List ℕ)
unfolding memcpy byte
ikev2_validate_auth offset left m = do
  reject_if (ltb left 4) m
  auth ← memcpy offset 4 m
  reject_if (byte auth 0 == 0) m
  ok auth

unfoldable pub ikev2_pld_auth : ℕ → ℕ → Message → Outcome Message
unfolding ikev2_validate_auth memcpy byte
ikev2_pld_auth offset left m = do
  auth ← ikev2_validate_auth offset left m
  buf ← memcpy (offset + 4) (left - 4) m
  store_once (m.auth.id_type != 0) m
      (record m { auth = record { id_type = byte auth 0; id_offset = 0; id_buf = buf } })

unfoldable pub ikev2_pld_nonce : ℕ → ℕ → Message → Outcome Message
unfolding memcpy
ikev2_pld_nonce offset left m = do
  reject_if (left == 0) m
  buf ← memcpy offset left m
  store_once (is_some m.nonce) m (record m { nonce = some buf })

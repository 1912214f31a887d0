-- ===== src/Tests/Payload.antt =====
-- Payloads of a message.
use openiked_portable.Base.{ℕ, ◌≡◌, refl, true, false, none, some, List, [], ◌∷◌, arith}
use openiked_portable.Proposal.{Proposal}
use openiked_portable.Payload.{
  Message, Outcome, no_id, ok, failed, fault, no_fuel, memcpy, byte, be16, be_from,
}
use openiked_portable.Payload.Safety.{Ends}
use openiked_portable.Payload.Configuration.{ikev2_pld_cp}
use openiked_portable.Payload.Selectors.{
  Checks, ikev2_pld_tss, ikev2_validate_tss, ts_loop, ts_round, ikev2_validate_ts, ikev2_pld_ts,
  addr_range, ikev2_pld_tss-Checks,
}
use openiked_portable.Payload.Deletion.{ikev2_pld_delete, IsReadable, ikev2_pld_delete-IsReadable}
use openiked_portable.Payload.Quick.{
  KeepsBuffer, ikev2_pld_parse_quick, quick_loop, quick_round, quick_fragment, ikev2_validate_pld,
  ikev2_pld_parse_quick-Ends,
}
use openiked_portable.Payload.Printed.{Settles, ikev2_pld_cp-Ends, ikev2_pld_cp_overreads}
use openiked_portable.Payload.Association.{
  ikev2_pld_sa, sa_loop, sa_round, ikev2_validate_sa, read_spi, add_proposal, settle,
}
use openiked_portable.Payload.Transforms.{
  ikev2_pld_xform, xform_loop, xform_round, ikev2_validate_xform, ikev2_pld_attr, attr_loop,
  attr_round, ikev2_validate_attr, type_value, type_length_value, add_transform, add_to, put,
}
use openiked_portable.Proposal.Config.{config_add_proposal, config_add_transform, next_score}
use openiked_portable.Payload.Offered.{Kept}
use openiked_portable.Payload.Accepted.{ikev2_pld_sa-Ends}
use openiked_portable.Payload.Filled.{parse_field, parse_field-Adds, Adds, nonce_payload}

abbrev pub message : List ℕ → Message
message bytes = record {
  msg_data = bytes;
  frompeer = true;
  encrypted = false;
  initiator = false;
  proposals = [];
  prop = none;
  attrlength = 0;
  ke = none;
  dhgroup = 0;
  nonce = none;
  auth = no_id;
  peerid = no_id;
  localid = no_id;
  cert = no_id;
  scert = no_id ∷ no_id ∷ no_id ∷ [];
  certreqs = [];
  cp = 0;
  cp_addr = none;
  cp_addr6 = none;
  cp_dns = none;
  frag_num = 0;
  response = false;
  del_protoid = 0;
  del_cnt = 0;
  del_spisize = 0;
  del_buf = none;
}

-- An ESP proposal with a SPI and AES-256, and one with no SPI and the extended sequence numbers.
abbrev two_proposals : List ℕ
two_proposals =
    2 ∷ 0 ∷ 0 ∷ 24 ∷ 1 ∷ 3 ∷ 4 ∷ 1 ∷ 0 ∷ 0 ∷ 1 ∷ 2 ∷ 0 ∷ 0 ∷ 0 ∷ 12 ∷ 1 ∷ 0 ∷ 0 ∷ 12 ∷ 128 ∷ 14 ∷ 1
    ∷ 0 ∷ 0 ∷ 0 ∷ 0 ∷ 16 ∷ 2 ∷ 3 ∷ 0 ∷ 1 ∷ 0 ∷ 0 ∷ 0 ∷ 8 ∷ 5 ∷ 0 ∷ 0 ∷ 1 ∷ []

abbrev spis_of : List Proposal → List ℕ
spis_of [] = []
spis_of (p ∷ ps) = p.peerspi.spi ∷ spis_of ps

abbrev spis : Outcome Message → List ℕ
spis (ok m) = spis_of m.proposals
spis (failed r m) = []
spis fault = []
spis no_fuel = []

-- The second proposal has no SPI, and it is given that of the first.
stale_spi : spis (ikev2_pld_sa 0 40 (message two_proposals)) ≡ 258 ∷ 258 ∷ []
unfolding ikev2_pld_sa sa_loop sa_round ikev2_validate_sa read_spi add_proposal settle
    ikev2_pld_xform xform_loop xform_round ikev2_validate_xform ikev2_pld_attr attr_loop attr_round
    ikev2_validate_attr type_value type_length_value add_transform add_to put config_add_proposal
    config_add_transform next_score memcpy byte be16 be_from
stale_spi = refl

ikev2_pld_sa-Ends_example :
    Ends
      (Kept (message two_proposals))
      (Kept (message two_proposals))
      (ikev2_pld_sa 0 40 (message two_proposals))
ikev2_pld_sa-Ends_example = ikev2_pld_sa-Ends 0 40 (message two_proposals) (omega arith)

abbrev with_nonce : Message
with_nonce = record (message (7 ∷ 8 ∷ 9 ∷ [])) { nonce = some (1 ∷ []) }

parse_field-Adds_example :
    Adds with_nonce (parse_field (λ bytes. none) nonce_payload 1 2 with_nonce)
parse_field-Adds_example =
    parse_field-Adds (λ bytes. none) nonce_payload 1 2 with_nonce (omega arith)

-- A request for an IPv4 address, with the address 10.0.0.1.
abbrev address_request : Message
address_request = message (1 ∷ 0 ∷ 0 ∷ 0 ∷ 0 ∷ 1 ∷ 0 ∷ 4 ∷ 10 ∷ 0 ∷ 0 ∷ 1 ∷ [])

ikev2_pld_cp-Ends_example :
    Ends
      (Settles address_request)
      (Settles address_request)
      (ikev2_pld_cp false 0 12 address_request)
ikev2_pld_cp-Ends_example = ikev2_pld_cp-Ends 0 12 address_request (omega arith)

ikev2_pld_cp_overreads_example : ikev2_pld_cp true 0 12 address_request ≡ fault
unfolding be16 byte
ikev2_pld_cp_overreads_example = ikev2_pld_cp_overreads 0 4 address_request refl (omega arith) refl

-- One selector, for 10.0.0.0 to 10.0.0.255.
abbrev selectors : Message
selectors =
    message
      (1 ∷ 0 ∷ 0 ∷ 0 ∷ 7 ∷ 0 ∷ 0 ∷ 16 ∷ 0 ∷ 0 ∷ 255 ∷ 255 ∷ 10 ∷ 0 ∷ 0 ∷ 0 ∷ 10 ∷ 0 ∷ 0 ∷ 255 ∷ [])

selectors_pass : ikev2_pld_tss 0 20 selectors ≡ ok selectors
unfolding ikev2_pld_tss ikev2_validate_tss ts_loop ts_round ikev2_validate_ts ikev2_pld_ts
    addr_range memcpy byte be16
selectors_pass = refl

ikev2_pld_tss-Checks_example : Checks selectors (ikev2_pld_tss 0 20 selectors)
ikev2_pld_tss-Checks_example = ikev2_pld_tss-Checks 0 20 selectors (omega arith)

-- Behind the bytes of an IKE header, an encrypted fragment with the number 3.
abbrev fragment_message : Message
fragment_message = message (
    0 ∷ 0 ∷ 0 ∷ 0 ∷ 0 ∷ 0 ∷ 0 ∷ 0 ∷ 0 ∷ 0 ∷ 0 ∷ 0 ∷ 0 ∷ 0 ∷ 0 ∷ 0 ∷ 53 ∷ 32 ∷ 35 ∷ 8 ∷ 0 ∷ 0 ∷ 0 ∷ 1
    ∷ 0 ∷ 0 ∷ 0 ∷ 37 ∷ 0 ∷ 0 ∷ 0 ∷ 9 ∷ 0 ∷ 3 ∷ 0 ∷ 5 ∷ 99 ∷ [])

fragment_found :
    ikev2_pld_parse_quick 53 37 0 fragment_message ≡ ok (record fragment_message { frag_num = 3 })
unfolding ikev2_pld_parse_quick quick_loop quick_round quick_fragment ikev2_validate_pld memcpy byte
    be16
fragment_found = refl

ikev2_pld_parse_quick-Ends_example :
    Ends
      (KeepsBuffer fragment_message)
      (KeepsBuffer fragment_message)
      (ikev2_pld_parse_quick 53 37 0 fragment_message)
ikev2_pld_parse_quick-Ends_example = ikev2_pld_parse_quick-Ends 53 37 0 fragment_message

-- Two SPIs of four bytes, and three bytes more.
abbrev two_spis : Message
two_spis = message (3 ∷ 4 ∷ 0 ∷ 2 ∷ 1 ∷ 1 ∷ 1 ∷ 1 ∷ 2 ∷ 2 ∷ 2 ∷ 2 ∷ 9 ∷ 9 ∷ 9 ∷ [])

ikev2_pld_delete-IsReadable_example : Ends IsReadable IsReadable (ikev2_pld_delete 0 15 two_spis)
ikev2_pld_delete-IsReadable_example =
    ikev2_pld_delete-IsReadable 0 15 two_spis (omega arith)
      (record { fits = λ b e. absurd (cc e); fresh = λ e. refl })

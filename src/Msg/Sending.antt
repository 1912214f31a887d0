-- ===== src/Msg/Sending.antt =====
-- Encrypted messages and fragments on their way out: ikev2_check_frag_oversize,
-- ikev2_msg_send_encrypt and ikev2_send_encrypted_fragments of iked/ikev2_msg.c. The copies that
-- wait for a retransmission, the parse of the sent message for the log, and what a failure leaves in the cipher, are left out.
use openiked_portable.Addr.{af_inet}
use openiked_portable.Base.{
  none, Bool, [], ◌&&◌, ◌-◌, Option, suc, true, false, ℕ, ◌∷◌, ◌++◌, some, List, zero, ◌/◌, ◌+◌,
  length, take, drop, ◌==◌, leb, if◌then◌else◌, ◌>>=◌,
}
use openiked_portable.Crypto.{IkedHash, hash_length, Openssl, IkedCipher}
use openiked_portable.Msg.{
  ibuf_new, ikev2_msg_id, ikev2_msg_integr, ikev2_msg_encrypt, IkeSa, ibuf_add,
}
use openiked_portable.Msg.Wire.{
  ikev2_msg_send, ikev2_add_header, flag_response, payload_sk, be_bytes, ikev2_msg_encrypt_prepare,
  ikev2_add_payload,
}
use openiked_portable.Payload.Quick.{payload_skf}

-- IKEV2_MAXLEN_IPV4_FRAG and IKEV2_MAXLEN_IPV6_FRAG
abbrev pub maxlen_ipv4_frag : ℕ
maxlen_ipv4_frag = 576 - (20 + 8 + 28)

abbrev pub maxlen_ipv6_frag : ℕ
maxlen_ipv6_frag = 1280 - (40 + 8 + 28)

abbrev pub maxlen : IkeSa → ℕ
maxlen sa = if sa.local_af == af_inet then maxlen_ipv4_frag else maxlen_ipv6_frag

-- `none` for an SA with no algorithms.
unfoldable pub ikev2_check_frag_oversize : IkeSa → ℕ → Option Bool
unfolding hash_length
ikev2_check_frag_oversize sa len = do
  c ← sa.encr
  h ← sa.integr
  some (leb (maxlen sa) (len + c.encr_ivlength + c.encr_length + hash_length h) && sa.frag)

-- A negative result is taken for a length that is too large.
abbrev pub or_true : Option Bool → Bool
or_true none = true
or_true (some b) = b

-- What a request or a response is sent with.
pub record Exchange : Type 0 where
  pub exchange : ℕ
  pub response : Bool

unfoldable pub message_id : Exchange → IkeSa → ℕ × IkeSa
unfolding ikev2_msg_id
message_id x sa = if x.response then (sa.msgid_current, sa) else ikev2_msg_id sa

abbrev pub flags_of : Exchange → ℕ
flags_of x = if x.response then flag_response else 0

-- The datagrams that are sent, and whether all are.
pub record Sent : Type 0 where
  pub sa : IkeSa
  pub datagrams : List (List ℕ)
  pub complete : Bool

-- The room for the text in a fragment.
abbrev pub max_len_of : IkeSa → IkedCipher → IkedHash → ℕ
max_len_of sa c h = maxlen sa - c.encr_ivlength - c.encr_length - hash_length h

module _ (ssl : Openssl) (random : ℕ → ℕ → List ℕ) where
  -- From the headers in `buf` to the datagram: the text is encrypted and the checksum set.
  unfoldable pub seal_message : IkeSa → List ℕ → List ℕ → ℕ → Bool → Option (IkeSa × List ℕ)
  seal_message sa buf text firstpayload fragmentation = do
    heads ← ikev2_msg_encrypt_prepare sa 28 buf (length text) firstpayload fragmentation
    (sa', e) ← ikev2_msg_encrypt ssl random sa text heads
    whole ← ibuf_add heads e
    msg ← ikev2_msg_integr ssl sa' whole
    datagram ← ikev2_msg_send sa.natt msg
    some (sa', datagram)

  -- A round of the loop over the fragments.
  unfoldable pub send_fragment : Exchange → ℕ → ℕ → ℕ → ℕ → List ℕ → IkeSa → Option (IkeSa × List ℕ)
  send_fragment x msgid frag_num frag_total firstpayload chunk sa = do
    hdr ← ikev2_add_header [] sa msgid payload_skf x.exchange (flags_of x)
    pld ← ikev2_add_payload hdr
    buf ← ibuf_add pld (be_bytes 2 frag_num ++ be_bytes 2 frag_total)
    e ← ibuf_new chunk
    seal_message sa buf e firstpayload true

  module _ (x : Exchange) (msgid max_len frag_total : ℕ) where
    -- `more` fragments are still to come; `rest` is what is left of the text.
    unfoldable pub send_loop : ℕ → ℕ → ℕ → List ℕ → IkeSa → Sent
    send_loop zero frag_num firstpayload rest sa = record {
      sa = sa;
      datagrams = [];
      complete = true;
    }
    send_loop (suc more) frag_num firstpayload rest sa =
        elim (send_fragment x msgid frag_num frag_total firstpayload (take max_len rest) sa) [
          | none ↦ record { sa = sa; datagrams = []; complete = false }
          | some (sa', datagram) ↦
              let later : Sent = send_loop more (frag_num + 1) 0 (drop max_len rest) sa' in
              record later { datagrams = datagram ∷ later.datagrams }
        ]

  unfoldable pub ikev2_send_encrypted_fragments : Exchange → ℕ → List ℕ → IkeSa → Sent
  ikev2_send_encrypted_fragments x firstpayload text sa =
      let failed : Sent = record { sa = sa; datagrams = []; complete = false } in
      elim sa.encr [
        | none ↦ failed
        | some c ↦ elim sa.integr [
          | none ↦ failed
          | some h ↦
              let max_len = max_len_of sa c h in
              let frag_total = length text / max_len + 1 in
              let (msgid, sa') = message_id x sa in
              send_loop x msgid max_len frag_total frag_total 1 firstpayload text sa'
        ]
      ]

  -- A message that is too long goes in fragments, where the peer supports it.
  unfoldable pub ikev2_msg_send_encrypt : Exchange → ℕ → List ℕ → IkeSa → Sent
  ikev2_msg_send_encrypt x firstpayload text sa =
      let failed : Sent = record { sa = sa; datagrams = []; complete = false } in
      let fragments = ikev2_send_encrypted_fragments x firstpayload text sa in
      let (msgid, sa') = message_id x sa in
      let whole = (do
        hdr ← ikev2_add_header [] sa' msgid payload_sk x.exchange (flags_of x)
        buf ← ikev2_add_payload hdr
        seal_message sa' buf text firstpayload false) in
      if or_true (ikev2_check_frag_oversize sa (length text)) then fragments else (elim whole [
        | none ↦ failed
        | some (sa'', datagram) ↦ record { sa = sa''; datagrams = datagram ∷ []; complete = true }
      ])

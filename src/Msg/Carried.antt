-- ===== src/Msg/Carried.antt =====
-- That the peer reads from a datagram the fragment that send_fragment has put into it.
use openiked_portable.Base.{
  ◌+◌, ◌++◌, ◌∷◌, true, ◌-◌, arith, false, List, ◌%◌, ◌^◌, some, ℕ, ◌≡◌, refl, ◌≤◌, bit_or, ltb,
  if◌then◌else◌, ◌<◌, length, ◌*◌, ◌∙◌, ◌/◌, take_past, leb, Option, ap,
}
use openiked_portable.Crypto.{le_bytes, IkedHash, IkedCipher, Openssl}
use openiked_portable.Msg.{pldlen_of, IkeSa, ikev2_msg_decrypt}
use openiked_portable.Msg.Sending.{flags_of, Exchange}
use openiked_portable.Msg.Wire.{
  ikev2_next_payload, flag_initiator, ikev2_set_header, ikev2_msg_encrypt_prepare, put, be_bytes,
  ikev2_version, header_of,
}
use openiked_portable.Payload.Quick.{payload_skf, ikev2_validate_pld}
use openiked_portable.Fragment.{ikev2_pld_ef, ikev2_validate_ef, receive_fragment, Receiver}
use openiked_portable.Msg.Receiving.{parse_fragment, ike_length}
use openiked_portable.Payload.{Message, byte, be16, be_from, ok, memcpy}

-- The headers of a fragment with so many bytes behind them.
abbrev pub fragment_heads : IkeSa → Exchange → ℕ → ℕ → ℕ → ℕ → ℕ → List ℕ
fragment_heads sa x msgid num total firstpayload pldlen =
    let len = 4 + (pldlen + 4) in
    let flags = if sa.sh_initiator then bit_or (flags_of x) flag_initiator else flags_of x in
    be_bytes 8 sa.sh_ispi
    ++ (be_bytes 8 sa.sh_rspi
        ++ (payload_skf
            ∷ ikev2_version
            ∷ x.exchange
            ∷ flags
            ∷ (be_bytes 4 msgid
                ++ (be_bytes 4 (28 + (36 + pldlen - 28))
                    ++ (firstpayload
                        ∷ 0
                        ∷ (be_bytes 2 len ++ (be_bytes 2 num ++ be_bytes 2 total)))))))

module _ (sa : IkeSa) (x : Exchange) (msgid num total firstpayload : ℕ) where
  -- The headers before their lengths are known.
  abbrev pub blank_heads : List ℕ
  blank_heads =
      header_of sa msgid payload_skf x.exchange (flags_of x)
      ++ ((0 ∷ 0 ∷ le_bytes 2 4) ++ (be_bytes 2 num ++ be_bytes 2 total))

  pub prepare-fragment_heads :
      (c : IkedCipher) (h : IkedHash) (len : ℕ)
      → sa.encr ≡ some c
      → sa.integr ≡ some h
      → pldlen_of c h len + 8 ≤ 65535
      → ikev2_msg_encrypt_prepare sa 28 blank_heads len firstpayload true
        ≡ some (fragment_heads sa x msgid num total firstpayload (pldlen_of c h len))
  unfolding ikev2_msg_encrypt_prepare ikev2_next_payload ikev2_set_header put header_of
  prepare-fragment_heads c h len e i size =
      let n = pldlen_of c h len in
      let a : ltb 65535 (4 + (n + 4)) ≡ false = ground (arith, size) in
      let b : ltb (2 ^ 32 - 1) ((28 + (36 + n - 28)) % 2 ^ 32) ≡ false = ground (arith, size) in
      rw (e, i, a, b) refl

-- The value of a field is read back.
pub be32_back : (v : ℕ) → v < 2 ^ 32 → be_from 0 (be_bytes 4 v) ≡ v
unfolding be_from
be32_back v h = omega arith

be16_back : (v : ℕ) → v < 65536 → v / 256 ^ 1 % 256 * 256 + v / 256 ^ 0 % 256 ≡ v
be16_back v h = omega arith

module _ (sa : IkeSa) (x : Exchange) (msgid num total firstpayload : ℕ) (body : List ℕ)
    (limit : length body + 8 ≤ 65535) (m : Message) where
  -- The message, and its two headers behind the IKE header.
  abbrev carried : Message
  carried = record m {
    msg_data = fragment_heads sa x msgid num total firstpayload (length body) ++ body;
  }

  abbrev pld_bytes : List ℕ
  pld_bytes = firstpayload ∷ 0 ∷ be_bytes 2 (4 + (length body + 4))

  abbrev frag_bytes : List ℕ
  frag_bytes = be_bytes 2 num ++ be_bytes 2 total

  length-carried : length carried.msg_data ≡ 36 + length body
  length-carried = omega arith

  ike_length-carried : ike_length carried.msg_data ≡ 36 + length body
  ike_length-carried = be32_back (28 + (36 + length body - 28)) (omega (arith, limit)) ∙ omega arith

  validate_pld-carried : ikev2_validate_pld 28 (36 + length body - 28) carried ≡ ok pld_bytes
  unfolding ikev2_validate_pld be16 byte memcpy
  validate_pld-carried =
      let n = length body in
      let size : be16 pld_bytes 2 ≡ 8 + n =
        be16_back (4 + (n + 4)) (omega (arith, limit)) ∙ omega arith in
      let a : ltb (36 + n - 28) 4 ≡ false = ground arith in
      let b : leb 32 (36 + n) ≡ true = ground arith in
      let c : ltb (36 + n - 28) (8 + n) ≡ false = ground arith in
      let d : ltb (8 + n) 4 ≡ false = ground arith in rw (a, length-carried, b, size, c, d) refl

  memcpy_frag : memcpy 32 4 carried ≡ ok frag_bytes
  unfolding memcpy
  memcpy_frag =
      let a : leb 36 (36 + length body) ≡ true = ground arith in rw (length-carried, a) refl

  memcpy_body : memcpy 36 (length body) carried ≡ ok body
  unfolding memcpy
  memcpy_body =
      let a : leb (36 + length body) (36 + length body) ≡ true = ground arith in
      rw (length-carried, a, take_past (length body) body (omega arith)) refl

  ikev2_pld_ef-carried :
      (decrypt : List ℕ → Option (List ℕ)) (text : List ℕ) (r : Receiver)
      → num < 65536
      → total < 65536
      → decrypt body ≡ some text
      → ikev2_pld_ef decrypt firstpayload 32 (4 + length body) carried r
        ≡ ok (receive_fragment firstpayload num total (some text) r)
  unfolding ikev2_pld_ef ikev2_validate_ef receive_fragment
  ikev2_pld_ef-carried decrypt text r a b d =
      let n : 4 + length body - 4 ≡ length body = omega arith in
      let t : ltb (4 + length body) 4 ≡ false = ground arith in
      let num' : be16 frag_bytes 0 ≡ num = unfold be16 byte in be16_back num a in
      let total' : be16 frag_bytes 2 ≡ total = unfold be16 byte in be16_back total b in
      let both : (be16 frag_bytes 0, be16 frag_bytes 2) ≡ (num, total) = cc (num', total') in
      rw (t, memcpy_frag, n, memcpy_body, d)
        (ap (λ (p : ℕ × ℕ). ok (receive_fragment firstpayload p.0 p.1 (some text) r)) both)

  -- The peer reads the fragment that the headers and the body say.
  pub parse_fragment-carried :
      (ssl : Openssl) (random : ℕ → ℕ → List ℕ) (peer : IkeSa) (text : List ℕ) (r : Receiver)
      → num < 65536
      → total < 65536
      → ikev2_msg_decrypt ssl random peer carried.msg_data body ≡ some text
      → parse_fragment ssl random peer carried r
        ≡ ok (receive_fragment firstpayload num total (some text) r)
  unfolding parse_fragment byte
  parse_fragment-carried ssl random peer text r a b d =
      let n = length body in
      let t1 : ltb (36 + n) (36 + n) ≡ false = ground arith in
      let t2 : leb (36 + n) 28 ≡ false = ground arith in
      let size : be16 pld_bytes 2 - 4 ≡ 4 + n =
        unfold be16 byte in omega (arith, be16_back (4 + (n + 4)) (omega (arith, limit))) in
      rw (ike_length-carried, length-carried, t1, t2, validate_pld-carried, size)
        (ikev2_pld_ef-carried (ikev2_msg_decrypt ssl random peer carried.msg_data) text r a b d)

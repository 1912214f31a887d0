-- ===== src/Msg/Whole.antt =====
-- An encrypted message that is sent in one piece by ikev2_msg_send_encrypt of iked/ikev2_msg.c.
use openiked_portable.Base.{
  subst, Option, [], ◌≡◌, ◌%◌, refl, ℕ, some, false, bit_or, ◌-◌, true, none, ◌^◌, ◌≤◌, ◌++◌, arith,
  ◌∷◌, List, ◌+◌, get_elem?, drop, length, if◌then◌else◌, ltb, sym, ◌∙◌, ap,
}
use openiked_portable.Crypto.{Openssl, IkedCipher, le_bytes, IkedHash, msgbuf_max}
use openiked_portable.Crypto.Laws.{Documented}
use openiked_portable.Msg.{ibuf_add, pldlen_of, ikev2_msg_decrypt, IkeSa}
use openiked_portable.Msg.Opened.{IsPeer}
use openiked_portable.Msg.Receiving.{ike_length}
use openiked_portable.Msg.Sealed.{IsKeyed}
use openiked_portable.Msg.Sending.{
  seal_message, Sent, ikev2_check_frag_oversize, Exchange, message_id, ikev2_msg_send_encrypt,
  flags_of,
}
use openiked_portable.Msg.Wire.{
  ikev2_add_payload, payload_sk, header_of, ikev2_set_header, ikev2_add_header, put,
  ikev2_msg_encrypt_prepare, ikev2_next_payload, ikev2_version, ikev2_msg_cb, flag_initiator,
  be_bytes,
}
use openiked_portable.Payload.{or_zero}
use openiked_portable.Msg.Carried.{be32_back}
use openiked_portable.Msg.Delivered.{ikev2_msg_cb-send}
use openiked_portable.Msg.Through.{message_id-SameBut, renumbered-IsPeer, renumbered-IsKeyed}
use openiked_portable.Msg.Transit.{seal_message-InTransit, InTransit}

abbrev message_heads : IkeSa → Exchange → ℕ → ℕ → ℕ → List ℕ
message_heads sa x msgid firstpayload pldlen =
    let flags = if sa.sh_initiator then bit_or (flags_of x) flag_initiator else flags_of x in
    be_bytes 8 sa.sh_ispi
    ++ (be_bytes 8 sa.sh_rspi
        ++ (payload_sk
            ∷ ikev2_version
            ∷ x.exchange
            ∷ flags
            ∷ (be_bytes 4 msgid
                ++ (be_bytes 4 (28 + (32 + pldlen - 28))
                    ++ (firstpayload ∷ 0 ∷ be_bytes 2 (4 + (pldlen + 0)))))))

abbrev bare_heads : IkeSa → Exchange → ℕ → List ℕ
bare_heads sa x msgid =
    header_of sa msgid payload_sk x.exchange (flags_of x) ++ (0 ∷ 0 ∷ le_bytes 2 4)

prepare-message_heads :
    (sa : IkeSa) (x : Exchange) (msgid firstpayload len : ℕ) (c : IkedCipher) (h : IkedHash)
    → sa.encr ≡ some c
    → sa.integr ≡ some h
    → pldlen_of c h len + 8 ≤ 65535
    → ikev2_msg_encrypt_prepare sa 28 (bare_heads sa x msgid) len firstpayload false
      ≡ some (message_heads sa x msgid firstpayload (pldlen_of c h len))
unfolding ikev2_msg_encrypt_prepare ikev2_next_payload ikev2_set_header put header_of
prepare-message_heads sa x msgid firstpayload len c h e i size =
    let n = pldlen_of c h len in
    let a : ltb 65535 (4 + (n + 0)) ≡ false = ground (arith, size) in
    let b : ltb (2 ^ 32 - 1) ((28 + (32 + n - 28)) % 2 ^ 32) ≡ false = ground (arith, size) in
    rw (e, i, a, b) refl

-- A datagram that the peer opens: the headers say how long it is and which payload comes first.
pub record IsOpened (ssl : Openssl) (random : ℕ → ℕ → List ℕ) (sa peer : IkeSa) (first : ℕ)
    (text : List ℕ) (out : Sent) : Type 0 where
  pub datagram : List ℕ
  pub msg : List ℕ
  pub sent : out.datagrams ≡ datagram ∷ []
  pub complete : out.complete ≡ true
  pub received : ikev2_msg_cb sa.natt datagram ≡ some msg
  pub length_field : ike_length msg ≡ length msg
  pub type_field : or_zero (get_elem? msg 28) ≡ first
  pub opens : ikev2_msg_decrypt ssl random peer msg (drop 32 msg) ≡ some text

module _ (ssl : Openssl) (known : Documented ssl) (random : ℕ → ℕ → List ℕ)
    (fresh : (k n : ℕ) → length (random k n) ≡ n) (c : IkedCipher) (h : IkedHash) (sa peer : IkeSa)
    (keyed : IsKeyed ssl c h sa) (other : IsPeer c h sa peer) (x : Exchange) (first : ℕ)
    (text : List ℕ) where
  abbrev whole : Option (IkeSa × List ℕ)
  whole =
      seal_message ssl random (message_id x sa).1
        (bare_heads (message_id x sa).1 x (message_id x sa).0) text first false

  sent_whole :
      (o : Option (IkeSa × List ℕ))
      → o ≡ whole
      → ikev2_check_frag_oversize sa (length text) ≡ some false
      → ikev2_msg_send_encrypt ssl random x first text sa ≡ (elim o [
        | none ↦ record { sa = sa; datagrams = []; complete = false }
        | some (sa', d) ↦ record { sa = sa'; datagrams = d ∷ []; complete = true }
      ])
  unfolding ikev2_msg_send_encrypt ikev2_add_header ikev2_add_payload ibuf_add header_of
  sent_whole o e small = rw (small, e) refl

  -- A text that is not too long, in an SA whose peer has the same algorithms and keys, with
  -- libcrypto as it is documented: one datagram is sent, its header has its length and the type of
  -- the first payload, and decrypted by the peer it is the text.
  pub ikev2_msg_send_encrypt-IsOpened :
      ikev2_check_frag_oversize sa (length text) ≡ some false
      → 40 + pldlen_of c h (length text) ≤ msgbuf_max
      → IsOpened ssl random sa peer first text (ikev2_msg_send_encrypt ssl random x first text sa)
  ikev2_msg_send_encrypt-IsOpened small fits =
      let same = message_id-SameBut x sa in
      let sa' = (message_id x sa).1 in
      let k = renumbered-IsKeyed ssl known random fresh c h sa peer keyed other sa' same in
      let p = renumbered-IsPeer ssl known random fresh c h sa peer keyed other sa' same in
      let prepared =
        prepare-message_heads sa' x (message_id x sa).0 first (length text) c h k.has_encr
          k.has_integr (omega (arith, fits)) in
      let t =
        seal_message-InTransit ssl known random fresh c h sa' peer
          (bare_heads sa' x (message_id x sa).0)
          (message_heads sa' x (message_id x sa).0 first (pldlen_of c h (length text))) text first
          false k p prepared (omega (arith, fits)) in
      let marker : sa'.natt ≡ sa.natt = ap (λ (q : IkeSa). q.natt) same.is in
      opened sa' t marker small (omega (arith, fits))
    where
      opened :
          (sa' : IkeSa)
          (t : InTransit ssl known random fresh c h sa' peer
            (message_heads sa' x (message_id x sa).0 first (pldlen_of c h (length text)))
            text
            whole)
          → sa'.natt ≡ sa.natt
          → ikev2_check_frag_oversize sa (length text) ≡ some false
          → 40 + pldlen_of c h (length text) ≤ msgbuf_max
          → IsOpened ssl random sa peer first text
              (ikev2_msg_send_encrypt ssl random x first text sa)
      opened sa' t marker small fits =
          let heads = message_heads sa' x (message_id x sa).0 first (pldlen_of c h (length text)) in
          let n = pldlen_of c h (length text) in
          let msg = heads ++ t.body in
          let size : length msg ≡ 32 + length t.body = omega arith in
          let (d, sends, arrives, limit) =
            ikev2_msg_cb-send sa'.natt msg (omega arith) (omega (arith, fits, t.long)) in
          let made : some (record sa' { encr = some t.sent; drawn = sa'.drawn + 2 }, d) ≡ whole =
            sym (t.is ∙ rw sends refl) in
          let run = sent_whole _ made small in
          record {
            datagram = d;
            msg = msg;
            sent = ap (λ (out : Sent). out.datagrams) run;
            complete = ap (λ (out : Sent). out.complete) run;
            received = subst (λ b. ikev2_msg_cb b d ≡ some msg) marker arrives;
            length_field =
                be32_back (28 + (32 + n - 28)) (omega (arith, fits)) ∙ omega (arith, t.long);
            type_field = refl;
            opens = t.opens;
          }

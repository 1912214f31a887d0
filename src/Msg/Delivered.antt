-- ===== src/Msg/Delivered.antt =====
-- That a fragment that is sent arrives: from send_fragment of one side to ikev2_pld_ef of the other.
use openiked_portable.Base.{
  Option, ◌≤◌, ◌++◌, false, arith, ◌∙◌, true, ◌+◌, refl, some, List, ℕ, suc, ◌<◌, ◌≡◌, Bool, zeros,
  bytes_eq, length, ltb, leb, subst, sym,
}
use openiked_portable.Crypto.{msgbuf_max, IkedCipher, IkedHash, Openssl}
use openiked_portable.Crypto.Laws.{Documented}
use openiked_portable.Fragment.{Receiver, receive_fragment}
use openiked_portable.Msg.{pldlen_of, IkeSa, ibuf_add, ikev2_msg_decrypt}
use openiked_portable.Msg.Carried.{
  fragment_heads, prepare-fragment_heads, blank_heads, parse_fragment-carried,
}
use openiked_portable.Msg.Opened.{IsPeer}
use openiked_portable.Msg.Receiving.{parse_fragment}
use openiked_portable.Msg.Sealed.{IsKeyed, ibuf_new_fits, ibuf_add_fits}
use openiked_portable.Msg.Sending.{send_fragment, Exchange, seal_message}
use openiked_portable.Msg.Transit.{IsUsed, InTransit, seal_message-InTransit}
use openiked_portable.Msg.Wire.{
  ikev2_msg_send, ikev2_msg_cb, header_of, ikev2_add_payload, ikev2_add_header,
}
use openiked_portable.Payload.{ok, Message}

-- A message with the marker of NAT traversal or without is received as it was sent.
pub ikev2_msg_cb-send :
    (natt : Bool) (msg : List ℕ)
    → 28 < length msg
    → length msg + 4 ≤ msgbuf_max
    → (d : List ℕ) × (ikev2_msg_send natt msg ≡ some d)
      × (ikev2_msg_cb natt d ≡ some msg)
      × (length d ≤ length msg + 4)
unfolding ikev2_msg_send ikev2_msg_cb bytes_eq
ikev2_msg_cb-send true msg a b =
    let t1 : ltb (length msg) 28 ≡ false = ground arith in
    let t2 : ltb (suc (suc (suc (suc (length msg))))) 4 ≡ false = ground arith in
    let t3 : leb (length msg) 28 ≡ false = ground arith in
    (
      zeros 4 ++ msg,
      rw (t1, ibuf_add_fits (zeros 4) msg (omega (arith, b))) refl,
      rw (t2, t3) (ibuf_new_fits msg (omega (arith, b))),
      omega arith,
    )
ikev2_msg_cb-send false msg a b =
    let t1 : ltb (length msg) 28 ≡ false = ground arith in
    let t2 : ltb (length msg) 4 ≡ false = ground arith in
    let t3 : leb (length msg) 28 ≡ false = ground arith in
    (msg, rw t1 refl, rw (t2, t3) (ibuf_new_fits msg (omega (arith, b))), omega arith)

send_fragment-seal :
    (ssl : Openssl) (random : ℕ → ℕ → List ℕ) (x : Exchange) (msgid : ℕ) (sa : IkeSa)
    (next num total : ℕ) (chunk : List ℕ)
    → length chunk ≤ msgbuf_max
    → send_fragment ssl random x msgid num total next chunk sa
      ≡ seal_message ssl random sa (blank_heads sa x msgid num total next) chunk next true
unfolding send_fragment ikev2_add_header ikev2_add_payload ibuf_add header_of
send_fragment-seal ssl random x msgid sa next num total chunk fit =
    rw (ibuf_new_fits chunk fit) refl

module _ (ssl : Openssl) (known : Documented ssl) (random : ℕ → ℕ → List ℕ)
    (fresh : (k n : ℕ) → length (random k n) ≡ n) (h : IkedHash) (peer : IkeSa) (x : Exchange)
    (msgid total : ℕ) where
  -- A datagram that the peer takes for this fragment.
  pub record Delivers (natt : Bool) (next num : ℕ) (chunk d : List ℕ) : Type 0 where
    pub msg : List ℕ
    pub arrives : ikev2_msg_cb natt d ≡ some msg
    pub reads :
        (m : Message) (r : Receiver)
        → parse_fragment ssl random peer (record m { msg_data = msg }) r
          ≡ ok (receive_fragment next num total (some chunk) r)

  pub record Dispatched (c : IkedCipher) (sa : IkeSa) (next num : ℕ) (chunk : List ℕ)
      (out : Option (IkeSa × List ℕ)) : Type 0 where
    pub sent : IkedCipher
    pub used : IsUsed c sent
    pub datagram : List ℕ
    pub is : out ≡ some (record sa { encr = some sent; drawn = sa.drawn + 2 }, datagram)
    pub delivers : Delivers sa.natt next num chunk datagram
    pub size : length datagram ≤ 40 + pldlen_of c h (length chunk)

  module _ (c : IkedCipher) (sa : IkeSa) (next num : ℕ) (chunk : List ℕ) (k : IsKeyed ssl c h sa)
      (p : IsPeer c h sa peer) (small : num < 65536) (total_small : total < 65536)
      (fits : 40 + pldlen_of c h (length chunk) ≤ msgbuf_max)
      (fit : length chunk ≤ msgbuf_max) where
    abbrev heads : List ℕ
    heads = fragment_heads sa x msgid num total next (pldlen_of c h (length chunk))

    dispatched :
        InTransit ssl known random fresh c h sa peer heads chunk
          (send_fragment ssl random x msgid num total next chunk sa)
        → Dispatched c sa next num chunk (send_fragment ssl random x msgid num total next chunk sa)
    dispatched t =
        let size : length (heads ++ t.body) ≡ 36 + length t.body = omega arith in
        let (d, sends, arrives, limit) =
          ikev2_msg_cb-send sa.natt (heads ++ t.body) (omega arith) (omega (arith, fits, t.long)) in
        record {
          sent = t.sent;
          used = t.used;
          datagram = d;
          is = t.is ∙ rw sends refl;
          delivers = record {
            msg = heads ++ t.body;
            arrives = arrives;
            reads = λ m r.
                subst
                  (λ n.
                    parse_fragment ssl random peer
                      (record m { msg_data = fragment_heads sa x msgid num total next n ++ t.body })
                      r
                    ≡ ok (receive_fragment next num total (some chunk) r))
                  t.long
                  (parse_fragment-carried sa x msgid num total next t.body
                    (omega (arith, fits, t.long)) m ssl random peer chunk r small total_small
                    (subst
                      (λ n.
                        ikev2_msg_decrypt ssl random peer
                          (fragment_heads sa x msgid num total next n ++ t.body) t.body
                        ≡ some chunk)
                      (sym t.long) t.opens));
          };
          size = omega (arith, limit, size, t.long);
        }

    pub send_fragment-Dispatched :
        Dispatched c sa next num chunk (send_fragment ssl random x msgid num total next chunk sa)
    send_fragment-Dispatched =
        let bare = blank_heads sa x msgid num total next in
        let prepared =
          prepare-fragment_heads sa x msgid num total next c h (length chunk) k.has_encr
            k.has_integr (omega (arith, fits)) in
        let sealed =
          seal_message-InTransit ssl known random fresh c h sa peer bare heads chunk next true k p
            prepared (omega (arith, fits)) in
        dispatched (
          subst (InTransit ssl known random fresh c h sa peer heads chunk)
            (sym (send_fragment-seal ssl random x msgid sa next num total chunk fit)) sealed)

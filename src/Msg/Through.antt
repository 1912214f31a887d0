-- ===== src/Msg/Through.antt =====
-- From ikev2_send_encrypted_fragments of iked/ikev2_msg.c to the parse of the message at the peer.
use native.Mathlib.Nat.{div-lt_iff_lt-mul, lt-mul-div-succ, mul_comm}
use openiked_portable.Addr.{af_inet}
use openiked_portable.Base.{
  ap, ◌≤◌, ℕ, ◌^◌, ◌/◌, refl, ◌+◌, ◌%◌, ◌*◌, ◌<◌, sym, arith, List, subst, ◌≡◌, length, ◌==◌,
  if_rule, true, some, option_rule, All, Among,
}
use openiked_portable.Crypto.{IkedCipher, hash_length, msgbuf_max, Openssl, IkedHash}
use openiked_portable.Crypto.Laws.{Documented}
use openiked_portable.Fragment.{frag_total_max, Receiver, no_fragments, parse}
use openiked_portable.Msg.{IkeSa, ikev2_msg_id}
use openiked_portable.Msg.Fragmented.{
  Complete, chunks, send_loop-Complete, joined-chunks, length-chunks, Series,
}
use openiked_portable.Msg.Opened.{IsPeer}
use openiked_portable.Msg.Sealed.{IsKeyed}
use openiked_portable.Msg.Sending.{
  message_id, max_len_of, ikev2_send_encrypted_fragments, Exchange, maxlen, Sent, send_loop,
}
use openiked_portable.Fragment.Slots.{joined}
use openiked_portable.Msg.Arrives.{series-parses, Series-length, pick, Series-size}
use openiked_portable.Msg.Receiving.{receive_datagrams}
use openiked_portable.Payload.{Message}

-- There are no more fragments than a peer takes, and they hold the text.
fragments_few :
    (len max_len : ℕ) → 424 ≤ max_len → len ≤ msgbuf_max → len / max_len + 1 ≤ frag_total_max
fragments_few len max_len a b =
    let fewer = div-lt_iff_lt-mul {k = max_len} {x = len} {y = 110} (omega (arith, a)) in
    omega (arith, fewer.1 (omega (arith, a, b)))

fragments_hold : (len max_len : ℕ) → 0 < max_len → len ≤ (len / max_len + 1) * max_len
fragments_hold len max_len a =
    omega (arith, lt-mul-div-succ len a, mul_comm max_len (len / max_len + 1))

sent_by :
    (ssl : Openssl) (random : ℕ → ℕ → List ℕ) (x : Exchange) (first : ℕ) (text : List ℕ)
    (sa : IkeSa) (c : IkedCipher) (h : IkedHash)
    → sa.encr ≡ some c
    → sa.integr ≡ some h
    → ikev2_send_encrypted_fragments ssl random x first text sa ≡ (
        let total = length text / max_len_of sa c h + 1 in
        send_loop ssl random x
          (message_id x sa).0
          (max_len_of sa c h)
          total
          total
          1
          first
          text
          (message_id x sa).1)
unfolding ikev2_send_encrypted_fragments
sent_by ssl random x first text sa c h e i =
    let total = length text / max_len_of sa c h + 1 in
    let P = λ (out : Sent).
      out
      ≡ send_loop ssl random x (message_id x sa).0 (max_len_of sa c h) total total 1 first text
          (message_id x sa).1 in
    option_rule P sa.encr _ _ (λ n. absurd (cc (n, e)))
      (λ c' e'.
        option_rule P sa.integr _ _ (λ n. absurd (cc (n, i)))
          (λ h' i'.
            let same : (c, h) ≡ (c', h') = cc (e, e', i, i') in
            subst
              (λ (p : IkedCipher × IkedHash). P (
                let t = length text / max_len_of sa p.0 p.1 + 1 in
                send_loop ssl random x (message_id x sa).0 (max_len_of sa p.0 p.1) t t 1 first text
                  (message_id x sa).1))
              same refl))

-- With another message id the SA is the same in all else.
pub record SameBut (sa sa' : IkeSa) : Type 0 where
  pub id : ℕ
  pub is : sa' ≡ record sa { reqid = id }

pub message_id-SameBut : (x : Exchange) (sa : IkeSa) → SameBut sa (message_id x sa).1
unfolding message_id ikev2_msg_id
message_id-SameBut x sa =
    if_rule (λ (p : ℕ × IkeSa). SameBut sa p.1) x.response _ _
      (λ y. record { id = sa.reqid; is = refl })
      (λ n. record { id = (sa.reqid + 1) % 2 ^ 32; is = refl })

module _ (ssl : Openssl) (known : Documented ssl) (random : ℕ → ℕ → List ℕ)
    (fresh : (k n : ℕ) → length (random k n) ≡ n) (c : IkedCipher) (h : IkedHash) (sa peer : IkeSa)
    (keyed : IsKeyed ssl c h sa) (other : IsPeer c h sa peer) where
  pub renumbered-IsKeyed : (sa' : IkeSa) → SameBut sa sa' → IsKeyed ssl c h sa'
  renumbered-IsKeyed sa' s = subst (IsKeyed ssl c h) (sym s.is) (record {
    has_encr = keyed.has_encr;
    has_integr = keyed.has_integr;
    cipher = keyed.cipher;
    hash = keyed.hash;
    kind = keyed.kind;
    paired = keyed.paired;
    ikey = keyed.ikey;
    rkey = keyed.rkey;
  })

  pub renumbered-IsPeer : (sa' : IkeSa) → SameBut sa sa' → IsPeer c h sa' peer
  renumbered-IsPeer sa' s =
      subst (λ (q : IkeSa). IsPeer c h q peer) (sym s.is)
        (record {
          used = other.used;
          has_encr = other.has_encr;
          alike = other.alike;
          has_integr = other.has_integr;
          turned = other.turned;
          iencr = other.iencr;
          rencr = other.rencr;
          iauth = other.iauth;
          rauth = other.rauth;
        })

  -- The limits of the sizes: of the block, of the IV and of the checksum.
  max_len-limits :
      (424 ≤ max_len_of sa c h)
      × (max_len_of sa c h + c.encr_ivlength + c.encr_length + hash_length h ≤ maxlen sa)
      × (maxlen sa ≤ 1204)
  max_len-limits =
      let block : c.encr_length ≤ 32 = rw keyed.cipher.block (known.block_limit c.encr_priv) in
      let least : (520 ≤ maxlen sa) × (maxlen sa ≤ 1204) =
        if_rule (λ (n : ℕ). (520 ≤ n) × (n ≤ 1204)) (sa.local_af == af_inet) _ _
          (λ y. (omega arith, omega arith)) (λ n. (omega arith, omega arith)) in
      (
        omega (arith, block, least.0, keyed.cipher.iv_limit, keyed.hash.limit keyed.kind),
        omega (arith, block, least.0, keyed.cipher.iv_limit, keyed.hash.limit keyed.kind),
        least.1,
      )

  module _ (x : Exchange) (first : ℕ) (text : List ℕ) (fits : length text ≤ msgbuf_max) where
    abbrev total : ℕ
    total = length text / max_len_of sa c h + 1

    abbrev parts : List (List ℕ)
    parts = chunks total (max_len_of sa c h) text

    sent-Complete :
        Complete ssl known random fresh h peer x
          (message_id x sa).0
          total
          sa.natt
          (40 + maxlen sa)
          first
          1
          parts
          (ikev2_send_encrypted_fragments ssl random x first text sa)
    sent-Complete =
        let (a, b, l) = max_len-limits in
        let few = fragments_few (length text) (max_len_of sa c h) a fits in
        let same = message_id-SameBut x sa in
        let sa' = (message_id x sa).1 in
        let marker : sa'.natt ≡ sa.natt = ap (λ (q : IkeSa). q.natt) same.is in
        let all =
          send_loop-Complete ssl known random fresh h peer x (message_id x sa).0 total
            (max_len_of sa c h) (maxlen sa) total 1 first text c sa' (renumbered-IsKeyed sa' same)
            (renumbered-IsPeer sa' same) (omega (arith, few)) (omega (arith, few)) b
            (omega (arith, l)) in
        subst
          (Complete ssl known random fresh h peer x (message_id x sa).0 total sa.natt
            (40 + maxlen sa) first 1 parts)
          (sym (sent_by ssl random x first text sa c h keyed.has_encr keyed.has_integr))
          (rw marker at all)

    parts_hold : joined parts ≡ text
    parts_hold =
        let (a, b, l) = max_len-limits in
        joined-chunks total (max_len_of sa c h) text
          (fragments_hold (length text) (max_len_of sa c h) (omega (arith, a)))

    abbrev sent : Sent
    sent = ikev2_send_encrypted_fragments ssl random x first text sa

    parts_number : length parts ≡ total
    parts_number = length-chunks total (max_len_of sa c h) text

    -- A text that fits into a message buffer, sent in fragments to a peer that has the same
    -- algorithms and keys, with libcrypto as it is documented: all the fragments are sent, and
    -- when they arrive in any order, perhaps repeated, each at least once, where no message is in
    -- the making, then one of them makes the peer parse the text, as of its first payload.
    pub ikev2_send_encrypted_fragments-parses :
        (order : List ℕ) (m : Message) (r : Receiver)
        → All (λ i. i < length sent.datagrams) order
        → ((i : ℕ) → i < length sent.datagrams → Among i order)
        → r.frags ≡ no_fragments
        → (sent.complete ≡ true)
          × Among
              (parse first text)
              (receive_datagrams ssl random peer sa.natt m (pick sent.datagrams order) r)
    ikev2_send_encrypted_fragments-parses order m r inside cover idle =
        let s = sent-Complete.series in
        let number =
          Series-length ssl known random fresh h peer x (message_id x sa).0 total sa.natt
            (40 + maxlen sa) first 1 parts sent.datagrams s in
        let few = fragments_few (length text) (max_len_of sa c h) max_len-limits.0 fits in
        let s' =
          subst
            (λ n.
              Series ssl known random fresh h peer x (message_id x sa).0 n sa.natt (40 + maxlen sa)
                first 1 parts sent.datagrams)
            (sym parts_number) s in
        let parsed =
          series-parses ssl known random fresh h peer x (message_id x sa).0 sa.natt (40 + maxlen sa)
            first parts sent.datagrams s' order m r (omega (arith, parts_number))
            (omega (arith, parts_number, few))
            (subst (λ (b : List ℕ). length b ≤ msgbuf_max) (sym parts_hold) fits)
            (subst (λ n. All (λ i. i < n) order) number inside)
            (subst (λ n. (i : ℕ) → i < n → Among i order) number cover) idle in
        (
          sent-Complete.complete,
          subst
              (λ (b : List ℕ).
                Among (parse first b)
                  (receive_datagrams ssl random peer sa.natt m (pick sent.datagrams order) r))
              parts_hold parsed,
        )

    -- Each datagram of these fragments has at most 40 bytes more than IKEV2_MAXLEN_IPV4_FRAG or
    -- IKEV2_MAXLEN_IPV6_FRAG: those of the IKE header, of the two headers of the payload, and of
    -- the marker of NAT traversal.
    pub ikev2_send_encrypted_fragments-size : All (λ d. length d ≤ 40 + maxlen sa) sent.datagrams
    ikev2_send_encrypted_fragments-size =
        Series-size ssl known random fresh h peer x (message_id x sa).0 total sa.natt
          (40 + maxlen sa) first 1 parts sent.datagrams sent-Complete.series

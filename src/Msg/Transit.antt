-- ===== src/Msg/Transit.antt =====
-- A message on its way: what seal_message puts into a datagram, and that the peer opens it.
use openiked_portable.Base.{
  ◌+◌, List, ◌++◌, Option, refl, Bool, subst, some, ◌≡◌, arith, ◌≤◌, sym, ℕ, ◌>>=◌, length,
  append_assoc, ap, length-append, zeros, length-zeros,
}
use openiked_portable.Crypto.{
  Openssl, IkedCipher, IkedHash, hash_length, msgbuf_max, cipher_outlength,
}
use openiked_portable.Crypto.Laws.{Documented}
use openiked_portable.Msg.{
  ikev2_msg_decrypt, pldlen_of, IkeSa, key_encr, ibuf_add, encrlen_of, ikev2_msg_integr,
  ikev2_msg_encrypt, key_auth,
}
use openiked_portable.Msg.Opened.{IsPeer, ikev2_msg_integr-IsChecksum, decrypt-IsSealed, IsChecksum}
use openiked_portable.Msg.Sealed.{
  refit, context, IsKeyed, refit-IsCipher, padded, ikev2_msg_encrypt-Encrypted, ibuf_add_fits,
  IsSealed,
}
use openiked_portable.Msg.Sending.{seal_message}
use openiked_portable.Msg.Wire.{ikev2_msg_encrypt_prepare, ikev2_msg_send}
use openiked_portable.Msg.Sizes.{roundup_again}

-- The cipher after a use of it.
pub record IsUsed (c sent : IkedCipher) : Type 0 where
  pub same : sent ≡ refit c sent.encr_key sent.encr_iv sent.encr_civ sent.encr_ctx

-- An SA and its peer go on as they are, but for the cipher.
pub IsUsed-IsKeyed :
    {ssl : Openssl} {c : IkedCipher} {h : IkedHash} {sa : IkeSa} (sent : IkedCipher) (n : ℕ)
    → IsUsed c sent
    → IsKeyed ssl c h sa
    → IsKeyed ssl sent h (record sa { encr = some sent; drawn = n })
IsUsed-IsKeyed {ssl} {c} {h} {sa} sent n u k =
    subst (λ d. IsKeyed ssl d h (record sa { encr = some d; drawn = n })) (sym u.same)
      (record {
        has_encr = refl;
        has_integr = k.has_integr;
        cipher = refit-IsCipher _ _ _ _ k.cipher;
        hash = k.hash;
        kind = k.kind;
        paired = k.paired;
        ikey = k.ikey;
        rkey = k.rkey;
      })

pub IsUsed-IsPeer :
    {c : IkedCipher} {h : IkedHash} {sa peer : IkeSa} (sent : IkedCipher) (n : ℕ)
    → IsUsed c sent
    → IsPeer c h sa peer
    → IsPeer sent h (record sa { encr = some sent; drawn = n }) peer
IsUsed-IsPeer {c} {h} {sa} {peer} sent n u p =
    subst (λ d. IsPeer d h (record sa { encr = some d; drawn = n }) peer) (sym u.same)
      (record {
        used = p.used;
        has_encr = p.has_encr;
        alike = p.alike;
        has_integr = p.has_integr;
        turned = p.turned;
        iencr = p.iencr;
        rencr = p.rencr;
        iauth = p.iauth;
        rauth = p.rauth;
      })

seal_steps :
    (ssl : Openssl) (random : ℕ → ℕ → List ℕ) (sa sa' : IkeSa) (buf heads e whole msg text : List ℕ)
    (firstpayload : ℕ) (fragmentation : Bool)
    → ikev2_msg_encrypt_prepare sa 28 buf (length text) firstpayload fragmentation ≡ some heads
    → ikev2_msg_encrypt ssl random sa text heads ≡ some (sa', e)
    → ibuf_add heads e ≡ some whole
    → ikev2_msg_integr ssl sa' whole ≡ some msg
    → seal_message ssl random sa buf text firstpayload fragmentation
      ≡ (ikev2_msg_send sa.natt msg >>= λ d. some (sa', d))
unfolding seal_message
seal_steps ssl random sa sa' buf heads e whole msg text firstpayload fragmentation a b c d =
    rw (a, b, c, d) refl

module _ (ssl : Openssl) (known : Documented ssl) (random : ℕ → ℕ → List ℕ)
    (fresh : (k n : ℕ) → length (random k n) ≡ n) (c : IkedCipher) (h : IkedHash) where
  -- A message with its headers, its body, and how the peer reads it.
  pub record InTransit (sa peer : IkeSa) (heads text : List ℕ) (out : Option (IkeSa × List ℕ))
      : Type 0 where
    pub sent : IkedCipher
    pub used : IsUsed c sent
    pub body : List ℕ
    pub is : out ≡ (
        ikev2_msg_send sa.natt (heads ++ body) >>= λ d.
        some (record sa { encr = some sent; drawn = sa.drawn + 2 }, d))
    pub long : length body ≡ pldlen_of c h (length text)
    pub opens : ikev2_msg_decrypt ssl random peer (heads ++ body) body ≡ some text

  module _ (sa peer : IkeSa) (buf heads text : List ℕ) (firstpayload : ℕ) (fragmentation : Bool)
      (k : IsKeyed ssl c h sa) (p : IsPeer c h sa peer)
      (e : ikev2_msg_encrypt_prepare sa 28 buf (length text) firstpayload fragmentation
        ≡ some heads)
      (size : length heads + pldlen_of c h (length text) ≤ msgbuf_max) where
    module _ (sent : IkedCipher) (body : List ℕ)
        (made : ikev2_msg_encrypt ssl random sa text heads
          ≡ some (record sa { encr = some sent; drawn = sa.drawn + 2 }, body))
        (s : IsSealed ssl c h (key_encr sa) heads text (some sent) body) where
      abbrev covered : List ℕ
      covered = heads ++ (s.iv ++ s.runs.out)

      abbrev after : IkeSa
      after = record sa { encr = some sent; drawn = sa.drawn + 2 }

      abbrev with_sum : List ℕ → List ℕ
      with_sum sum = (s.iv ++ s.runs.out) ++ sum

      summed :
          (sum : List ℕ)
          → ikev2_msg_integr ssl after (covered ++ zeros (hash_length h)) ≡ some (covered ++ sum)
          → IsChecksum ssl c h
              (key_auth sa)
              covered
              (context ssl c h (key_encr sa) s.iv heads (padded text s.padding))
              sum
          → InTransit sa peer heads text
              (seal_message ssl random sa buf text firstpayload fragmentation)
      unfolding pldlen_of cipher_outlength
      summed sum checked is =
          let l = hash_length h in
          let out_long : length s.runs.out ≡ encrlen_of c (length text) =
            cc (s.runs.as_long, s.whole) in
          let again =
            roundup_again (length text + 1) c.encr_length
              (rw k.cipher.block (known.block_some c.encr_priv)) in
          let joined = length-append s.iv s.runs.out in
          let total = length-append (s.iv ++ s.runs.out) sum in
          let long : length (with_sum sum) ≡ pldlen_of c h (length text) =
            omega (arith, again, out_long, joined, s.long, is.long, total) in
          let room : length body ≡ length (with_sum sum) = rw s.is (
            omega (
              arith,
              is.long,
              total,
              length-append (s.iv ++ s.runs.out) (zeros l),
              length-zeros l,
            )) in
          let apart : heads ++ body ≡ covered ++ zeros l =
            rw s.is (sym (append_assoc heads (s.iv ++ s.runs.out) (zeros l))) in
          let added : ibuf_add heads body ≡ some (covered ++ zeros l) =
            rw apart at (ibuf_add_fits heads body (omega (arith, size, long, room))) in
          let msg : ikev2_msg_integr ssl after (covered ++ zeros l) ≡ some (heads ++ with_sum sum) =
            rw (append_assoc heads (s.iv ++ s.runs.out) sum) at checked in
          record {
            sent = sent;
            used = record { same = cc s.left };
            body = with_sum sum;
            is =
                seal_steps ssl random sa after buf heads body (covered ++ zeros l)
                  (heads ++ with_sum sum) text firstpayload fragmentation e made added msg;
            long = long;
            opens =
                decrypt-IsSealed ssl c h known random sa peer heads text (some sent) body s sum k p
                  is;
          }

      sealed :
          InTransit sa peer heads text
            (seal_message ssl random sa buf text firstpayload fragmentation)
      sealed =
          let left : sent
              ≡ refit c (key_encr sa) (some s.iv) s.counter
                  (some (context ssl c h (key_encr sa) s.iv heads (padded text s.padding))) =
            cc s.left in
          let (sum, checked, is) =
            ikev2_msg_integr-IsChecksum ssl c h known after covered
              (context ssl c h (key_encr sa) s.iv heads (padded text s.padding)) sent k.hash refl
              k.has_integr (ap (λ (d : IkedCipher). d.encr_priv) left)
              (ap (λ (d : IkedCipher). d.encr_ctx) left) in
          summed sum checked is

    pub seal_message-InTransit :
        InTransit sa peer heads text
          (seal_message ssl random sa buf text firstpayload fragmentation)
    unfolding pldlen_of
    seal_message-InTransit =
        let made =
          ikev2_msg_encrypt-Encrypted ssl c h known random fresh sa text heads k
            (omega (arith, size)) in
        sealed made.sent made.body made.is made.sealed

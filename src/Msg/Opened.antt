-- ===== src/Msg/Opened.antt =====
-- That ikev2_msg_decrypt of a peer opens what ikev2_msg_encrypt and ikev2_msg_integr have made.
use openiked_portable.Base.{
  ℕ, arith, refl, false, not, List, ◌≡◌, true, some, take, length, ◌!=◌, ltb, if◌then◌else◌, ◌-◌,
  ◌≤◌, ◌++◌, inl, inr, ◌+◌, sym, length-take, bytes_eq_refl, zeros, length-zeros, length-append,
  take_past, take-append, Bool-cases, Option, append_assoc, drop, drop-append, [], ◌%◌, ◌∙◌,
  if-false, if-true, if_rule,
}
use openiked_portable.Crypto.{
  IkedHash, Sealed, IkedCipher, hash_length, hash_final, Openssl, cipher_gettag, hash_keylength,
  cipher_setkey, cipher_nonce, cipher_decrypt,
}
use openiked_portable.Crypto.Laws.{Documented, is_gcm}
use openiked_portable.Crypto.Tables.{HasDigest, keyed, IsHash, tagged}
use openiked_portable.Msg.{
  checksum, IkeSa, ikev2_msg_integr, key_auth, verify, key_encr, ikev2_msg_decrypt, encrlen_of,
  peer_auth, peer_encr,
}
use openiked_portable.Msg.Sealed.{
  refit, IsKeyed, IsSealed, context, padded, RunsWith, start_of, aad_of,
}
use openiked_portable.Crypto.Vectors.{cipher_setiv-given}
use openiked_portable.Msg.Sizes.{strip_padded, roundup_whole}

-- The other side of an IKE SA, with the same algorithms and keys.
pub record IsPeer (c : IkedCipher) (h : IkedHash) (sa peer : IkeSa) : Type 0 where
  pub used : IkedCipher
  pub has_encr : peer.encr ≡ some used
  pub alike : used ≡ refit c used.encr_key used.encr_iv used.encr_civ used.encr_ctx
  pub has_integr : peer.integr ≡ some h
  pub turned : sa.sh_initiator ≡ not peer.sh_initiator
  pub iencr : peer.key_iencr ≡ sa.key_iencr
  pub rencr : peer.key_rencr ≡ sa.key_rencr
  pub iauth : peer.key_iauth ≡ sa.key_iauth
  pub rauth : peer.key_rauth ≡ sa.key_rauth

module _ (ssl : Openssl) (c : IkedCipher) (h : IkedHash) where
  -- The checksum of a message over the bytes before it.
  pub record IsChecksum (key covered : List ℕ) (ctx : Sealed) (sum : List ℕ) : Type 0 where
    pub long : length sum ≡ hash_length h
    pub mac :
        h.hash_isaead ≡ false
        → (full : List ℕ) × (hash_final ssl h key covered ≡ some (full, hash_length h))
          × (sum ≡ take (hash_length h) full)
    pub tag :
        h.hash_isaead ≡ true
        → sum ≡ take (hash_length h) (ssl.tag c.encr_priv ctx.key ctx.nonce ctx.aad ctx.text)

  module _ (known : Documented ssl) where
    hash_final-long :
        (key covered : List ℕ)
        → HasDigest h
        → h.hash_isaead ≡ false
        → (full : List ℕ) × (hash_final ssl h key covered ≡ some (full, hash_length h))
          × (length full ≡ h.hash_length)
    unfolding hash_final hash_length
    hash_final-long key covered (keyed md p a l t) n =
        let full = ssl.hmac md key covered in
        let long : length full ≡ h.hash_length = cc (known.hmac_length md key covered, l) in
        let size : (if h.hash_trunc != 0
              then (if ltb h.hash_trunc (length full) then h.hash_trunc else length full)
              else length full)
            ≡ (if h.hash_trunc != 0 then h.hash_trunc else h.hash_length) =
          ground (arith, long, t) in
        (full, rw (p, size) refl, long)
    hash_final-long key covered (tagged y z a b) n = absurd (cc (y, n))

    tag_fits :
        HasDigest h → h.hash_isaead ≡ true → (h.hash_length ≤ 16) × (hash_length h ≡ h.hash_length)
    unfolding hash_length
    tag_fits (keyed md p n l t) y = absurd (cc (y, n))
    tag_fits (tagged y' z a b) y = (b, ground arith)

    checksum-IsChecksum :
        (key covered : List ℕ) (ctx : Sealed) (sent : IkedCipher)
        → IsHash h
        → sent.encr_priv ≡ c.encr_priv
        → sent.encr_ctx ≡ some ctx
        → (tmp : List ℕ) × (checksum ssl sent h key covered ≡ some tmp)
          × IsChecksum key covered ctx (take (hash_length h) tmp)
    unfolding checksum cipher_gettag hash_keylength
    checksum-IsChecksum key covered ctx sent k p x = elim (Bool-cases h.hash_isaead) [
      | inl y ↦
          let full = ssl.tag c.encr_priv ctx.key ctx.nonce ctx.aad ctx.text in
          let size = known.tag_length c.encr_priv ctx.key ctx.nonce ctx.aad ctx.text in
          let (l, s) = tag_fits k.digest y in
          let enough : ltb (length full) h.hash_length ≡ false = ground (arith, size) in
          let all : take (hash_length h) (take h.hash_length full) ≡ take (hash_length h) full =
            rw s (
              take_past h.hash_length (take h.hash_length full)
                (omega (arith, length-take h.hash_length full (omega (arith, l, size))))) in
          (
            take h.hash_length full,
            rw (y, x, p, enough) refl,
            record {
              long = omega (
                arith,
                length-take (hash_length h) (take h.hash_length full)
                    (omega (arith, s, length-take h.hash_length full (omega (arith, l, size)))),
              );
              mac = λ n. absurd (cc (y, n));
              tag = λ y'. all;
            },
          )
      | inr n ↦
          let (full, made, long) = hash_final-long key covered k.digest n in
          let same : (hash_length h != hash_length h) ≡ false = ground arith in
          (
            full,
            rw (n, made, same) refl,
            record {
              long = length-take (hash_length h) full (omega (arith, k.within, long));
              mac = λ n'. (full, made, refl);
              tag = λ y. absurd (cc (y, n));
            },
          )
    ]

    -- A message with room for the checksum at its end gets it there.
    pub ikev2_msg_integr-IsChecksum :
        (sa : IkeSa) (covered : List ℕ) (ctx : Sealed) (sent : IkedCipher)
        → IsHash h
        → sa.encr ≡ some sent
        → sa.integr ≡ some h
        → sent.encr_priv ≡ c.encr_priv
        → sent.encr_ctx ≡ some ctx
        → (sum : List ℕ) × (ikev2_msg_integr ssl sa (covered ++ zeros (hash_length h))
            ≡ some (covered ++ sum))
          × IsChecksum (key_auth sa) covered ctx sum
    unfolding ikev2_msg_integr
    ikev2_msg_integr-IsChecksum sa covered ctx sent k e i p x =
        let l = hash_length h in
        let src = covered ++ zeros l in
        let size : length src ≡ length covered + l =
          omega (arith, length-append covered (zeros l), length-zeros l) in
        let whole : take (length src - l) src ≡ covered =
          take-append covered (zeros l) (length src - l) (omega (arith, size)) in
        let fits : ltb (length src) l ≡ false = ground (arith, size) in
        let (tmp, made, is) = checksum-IsChecksum (key_auth sa) covered ctx sent k p x in
        (take l tmp, rw (e, i, whole, made, fits) refl, is)

    -- The HMAC of a message that ends with it is accepted.
    verify-IsChecksum :
        (key covered : List ℕ) (ctx : Sealed) (sum : List ℕ)
        → IsChecksum key covered ctx sum
        → verify ssl h key (covered ++ sum) sum ≡ some tt
    unfolding verify
    verify-IsChecksum key covered ctx sum k = elim (Bool-cases h.hash_isaead) [
      | inl y ↦ rw y refl
      | inr n ↦
          let (full, made, is) = k.mac n in
          let size : length (covered ++ sum) ≡ length covered + hash_length h =
            omega (arith, length-append covered sum, k.long) in
          let whole : take (length (covered ++ sum) - hash_length h) (covered ++ sum) ≡ covered =
            take-append covered sum _ (omega (arith, size)) in
          rw (n, whole, made, sym is, bytes_eq_refl sum) refl
    ]

    -- The payload of a message, as it is sent.
    abbrev pub sealed_body :
        {key aad text : List ℕ} {sent : Option IkedCipher} {body : List ℕ}
        → IsSealed ssl c h key aad text sent body
        → List ℕ
    sealed_body s = s.iv ++ s.runs.out

    abbrev whole_tag : List ℕ → List ℕ → List ℕ → List ℕ → List ℕ
    whole_tag key iv head text =
        ssl.tag c.encr_priv key (start_of (cipher_setkey c key) iv) (aad_of h head) text

    -- The tag and the additional data of an AEAD cipher are those of the encryption; other ciphers
    -- have none.
    opens :
        (key key' head text sum : List ℕ) (iv : List ℕ) (covered : List ℕ)
        (runs : RunsWith ssl c h key iv head text) (all : List ℕ)
        → IsHash h
        → h.hash_isaead ≡ is_gcm c.encr_priv
        → all ≡ head
        → IsChecksum key' covered (context ssl c h key iv head text) sum
        → ssl.decrypt c.encr_priv key
            (start_of (cipher_setkey c key) iv)
            (if h.hash_isaead then all else [])
            (if h.hash_isaead then sum else [])
            runs.out
          ≡ some text
    opens key key' head text sum iv covered runs all k pair same is =
        elim (Bool-cases h.hash_isaead) [
          | inl y ↦
              let (l, e) = tag_fits k.digest y in
              let tag : (if h.hash_isaead then sum else [])
                  ≡ take (hash_length h) (whole_tag key iv head text) =
                if-true sum [] y ∙ is.tag y in
              rw (same, tag)
                (runs.decrypts (hash_length h)
                  (inl (cc (pair, y), k.checksum, omega (arith, l, e))))
          | inr n ↦
              let tag : (if h.hash_isaead then sum else []) ≡ take 0 (whole_tag key iv head text) =
                if-false sum [] n in
              rw (same, tag) (runs.decrypts 0 (inr (cc (pair, n), refl)))
        ]

    -- Decryption at the peer of the body of a payload behind the head of its message, which is the
    -- additional data of it.
    pub decrypt-IsSealed :
        (random : ℕ → ℕ → List ℕ) (sa peer : IkeSa) (head text : List ℕ) (sent : Option IkedCipher)
        (body : List ℕ) (s : IsSealed ssl c h (key_encr sa) head text sent body) (sum : List ℕ)
        → IsKeyed ssl c h sa
        → IsPeer c h sa peer
        → IsChecksum
            (key_auth sa)
            (head ++ (s.iv ++ s.runs.out))
            (context ssl c h (key_encr sa) s.iv head (padded text s.padding))
            sum
        → ikev2_msg_decrypt ssl random peer
            (head ++ ((s.iv ++ s.runs.out) ++ sum))
            ((s.iv ++ s.runs.out) ++ sum)
          ≡ some text
    unfolding ikev2_msg_decrypt cipher_setkey cipher_decrypt cipher_nonce
    decrypt-IsSealed random sa peer head text sent body s sum k peer_of sum_of =
        let iv = s.iv in
        let out = s.runs.out in
        let src = (iv ++ out) ++ sum in
        let l = hash_length h in
        let n = encrlen_of c (length text) in
        let out_long : length out ≡ n = cc (s.runs.as_long, s.whole) in
        let size : length src ≡ c.encr_ivlength + n + l = omega (
          arith,
          length-append (iv ++ out) sum,
          length-append iv out,
          s.long,
          out_long,
          sum_of.long,
        ) in
        let fits : ltb (length src) (l + c.encr_ivlength) ≡ false = ground (arith, size) in
        let behind : drop (length src - l) src ≡ sum =
          drop-append (iv ++ out) sum (length src - l)
            (omega (arith, size, length-append iv out, s.long, out_long)) in
        let apart : head ++ src ≡ (head ++ (iv ++ out)) ++ sum =
          sym (append_assoc head (iv ++ out) sum) in
        let auth : peer_auth peer ≡ key_auth sa =
          rw (peer_of.turned, peer_of.iauth, peer_of.rauth) refl in
        let encr : peer_encr peer ≡ key_encr sa =
          rw (peer_of.turned, peer_of.iencr, peer_of.rencr) refl in
        let key = key_encr sa in
        let u = peer_of.used in
        let used : peer.encr ≡ some (refit c u.encr_key u.encr_iv u.encr_civ u.encr_ctx) =
          cc (peer_of.has_encr, peer_of.alike) in
        let verified : verify ssl h (key_auth sa) (head ++ src) sum ≡ some tt =
          rw apart (verify-IsChecksum (key_auth sa) (head ++ (iv ++ out)) _ sum sum_of) in
        let rest : length src - l - c.encr_ivlength ≡ n = omega (arith, size) in
        let aligned : (n % c.encr_length != 0) ≡ false =
          ground (arith, roundup_whole (length text + 1) c.encr_length) in
        let apart' : (iv ++ out) ++ sum ≡ iv ++ (out ++ sum) = append_assoc iv out sum in
        let vector : take c.encr_ivlength src ≡ iv =
          rw apart' (take-append iv (out ++ sum) c.encr_ivlength (sym s.long)) in
        let set =
          cipher_setiv-given (random peer.drawn) iv (refit c key u.encr_iv u.encr_civ u.encr_ctx)
            s.long in
        let middle : drop c.encr_ivlength src ≡ out ++ sum =
          rw apart' (drop-append iv (out ++ sum) c.encr_ivlength (sym s.long)) in
        let text' : take n (out ++ sum) ≡ out = take-append out sum n (sym out_long) in
        let before : take (length (head ++ src) - length src) (head ++ src) ≡ head =
          take-append head src _ (omega (arith, length-append head src)) in
        let keyed : c.encr_fixedkey ≤ length key =
          if_rule (λ (bs : List ℕ). c.encr_fixedkey ≤ length bs) sa.sh_initiator _ _ (λ y. k.ikey)
            (λ y. k.rkey) in
        let salt : ltb (length key) c.encr_saltlength ≡ false =
          ground (arith, keyed, k.cipher.key) in
        let opened =
          opens key (key_auth sa) head (padded text s.padding) sum iv (head ++ (iv ++ out)) s.runs
            (take (length (head ++ src) - length src) (head ++ src)) k.hash k.paired before
            sum_of in
        rw
          (
            used, peer_of.has_integr, fits, behind, auth, verified, rest, aligned, vector, encr,
            set, middle, text', salt, opened,
          )
          (strip_padded text s.padding)

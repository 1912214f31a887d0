-- ===== src/Msg/Authentic.antt =====
-- What ikev2_msg_decrypt of iked/ikev2_msg.c has checked of a message that it returns.
use openiked_portable.Base.{
  List, ◌≤◌, refl, true, ◌+◌, false, ◌≡◌, arith, some, ℕ, [], ◌∷◌, ◌-◌, yields, Yields, fails,
  length-take, bytes_eq, take, length, ltb, if_rule, not, Yields-known, inl, inr, ◌%◌, sym,
  Yields-all, Yields-fail_if, Yields-test, Yields-weaken, Yields-bind, drop, ◌!=◌, Bool-cases,
}
use openiked_portable.Crypto.{IkedHash, hash_length, hash_final, Openssl, IkedCipher}
use openiked_portable.Msg.{verify, ibuf_setsize, peer_auth, ikev2_msg_decrypt, IkeSa}

bytes_eq_sound : (xs ys : List ℕ) → bytes_eq xs ys ≡ true → xs ≡ ys
unfolding bytes_eq
bytes_eq_sound [] [] e = refl
bytes_eq_sound [] (y ∷ ys) e = absurd (cc e)
bytes_eq_sound (x ∷ xs) [] e = absurd (cc e)
bytes_eq_sound (x ∷ xs) (y ∷ ys) e =
    let same : x ≡ y = ground (arith, e) in
    let rest : bytes_eq xs ys ≡ true = ground (arith, e) in cc (same, bytes_eq_sound xs ys rest)

ibuf_setsize-length :
    (len less : ℕ) (buf : List ℕ)
    → Yields (λ (b : List ℕ). (length b + less ≡ len) × (less ≤ len)) (ibuf_setsize len less buf)
unfolding ibuf_setsize
ibuf_setsize-length len less buf =
    let P = Yields (λ (b : List ℕ). (length b + less ≡ len) × (less ≤ len)) in
    if_rule P (ltb len less) _ _ (λ y. fails)
      (λ n.
        if_rule P (ltb (length buf) (len - less)) _ _ (λ y. fails)
          (λ n'. yields (ground (arith, length-take (len - less) buf (ground arith)))))

module _ (ssl : Openssl) where
  -- The last bytes are the HMAC of what comes before them.
  pub record IsAuthentic (h : IkedHash) (key msg integrdata : List ℕ) : Type 0 where
    pub mac : List ℕ
    pub tmplen : ℕ
    pub computed : hash_final ssl h key (take (length msg - hash_length h) msg) ≡ some (mac, tmplen)
    pub same : integrdata ≡ take (hash_length h) mac

  verify-IsAuthentic :
      (h : IkedHash) (key msg integrdata : List ℕ)
      → h.hash_isaead ≡ false
      → Yields (λ u. IsAuthentic h key msg integrdata) (verify ssl h key msg integrdata)
  unfolding verify
  verify-IsAuthentic h key msg integrdata n =
      if_rule (Yields (λ u. IsAuthentic h key msg integrdata)) (not h.hash_isaead) _ _
        (λ y.
          Yields-known (hash_final ssl h key (take (length msg - hash_length h) msg))
            (λ (mac, tmplen) e.
              Yields-test (not (bytes_eq (take (hash_length h) mac) integrdata)) (λ same. record {
                mac = mac;
                tmplen = tmplen;
                computed = e;
                same = sym (bytes_eq_sound _ integrdata (ground arith));
              })))
        (λ y. absurd (cc (y, n)))

  -- What has been checked before a text is returned.
  pub record IsAccepted (sa : IkeSa) (c : IkedCipher) (h : IkedHash) (msg src : List ℕ)
      : Type 0 where
    pub room : hash_length h + c.encr_ivlength ≤ length src
    pub aligned : (length src - hash_length h - c.encr_ivlength) % c.encr_length ≡ 0
    pub authentic :
        h.hash_isaead ≡ false
        → IsAuthentic h (peer_auth sa) msg (drop (length src - hash_length h) src)

  verify-either :
      (h : IkedHash) (key msg integrdata : List ℕ)
      → Yields
          (λ u. h.hash_isaead ≡ false → IsAuthentic h key msg integrdata)
          (verify ssl h key msg integrdata)
  verify-either h key msg integrdata = elim (Bool-cases h.hash_isaead) [
    | inl y ↦ Yields-all _ (λ u n. absurd (cc (y, n)))
    | inr n ↦ Yields-weaken (verify-IsAuthentic h key msg integrdata n) (λ u k n'. k)
  ]

  -- On any message, in an SA with these algorithms: a text is returned only if the body holds an
  -- IV, whole blocks and a checksum, and where the cipher is no AEAD cipher, the checksum is the
  -- HMAC, under the key of the peer, of the whole message before it.
  pub ikev2_msg_decrypt-IsAccepted :
      (random : ℕ → ℕ → List ℕ) (sa : IkeSa) (msg src : List ℕ) (c : IkedCipher) (h : IkedHash)
      → sa.encr ≡ some c
      → sa.integr ≡ some h
      → Yields (λ text. IsAccepted sa c h msg src) (ikev2_msg_decrypt ssl random sa msg src)
  unfolding ikev2_msg_decrypt
  ikev2_msg_decrypt-IsAccepted random sa msg src c h e i =
      rw (e, i)
        (Yields-fail_if (ltb (length src) (hash_length h + c.encr_ivlength)) (λ a.
          Yields-bind (verify-either h (peer_auth sa) msg (drop (length src - hash_length h) src))
            (λ u k.
              Yields-fail_if ((length src - hash_length h - c.encr_ivlength) % c.encr_length != 0)
                (λ b. Yields-all _ (λ text. record {
                  room = ground arith;
                  aligned = ground arith;
                  authentic = k;
                })))))

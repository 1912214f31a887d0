-- ===== src/Crypto/Tables.antt =====
-- What the tables of hash_new and cipher_new of iked/crypto.c give.
use openiked_portable.Base.{
  ℕ, ◌+◌, ◌≡◌, ◌≢◌, ◌≤◌, ◌⊎◌, inl, inr, refl, true, false, some, ◌||◌, ◌==◌, arith, if_rule, Yields,
  fails, yields, Yields-bind,
}
use openiked_portable.Proposal.{encr, prf, integr}
use openiked_portable.Crypto.{
  Digest, md5, sha1, sha256, sha384, sha512, digest, aead, Algorithm, Openssl, IkedHash, IkedCipher,
  hash_new, hash_length, cipher_new, cbc_of, gcm_of, cbc, gcm, des_ede3_cbc, encr_3des,
  encr_aes_cbc, encr_aes_gcm_12, encr_aes_gcm_16, auth_aes_gcm_12, auth_aes_gcm_16,
}
use openiked_portable.Crypto.Laws.{is_gcm, digest_length, Documented}

-- A hash has a digest that is as long as it says, or is a part of an AEAD cipher.
pub data HasDigest (h : IkedHash) : Type 0 where
  keyed :
      (md : Digest)
      → h.hash_priv ≡ some md
      → h.hash_isaead ≡ false
      → digest_length md ≡ h.hash_length
      → h.hash_trunc ≤ h.hash_length
      → HasDigest h
  tagged :
      h.hash_isaead ≡ true
      → h.hash_trunc ≡ 0
      → 12 ≤ h.hash_length
      → h.hash_length ≤ 16
      → HasDigest h

pub record IsHash (h : IkedHash) : Type 0 where
  pub digest : HasDigest h
  pub longest : h.hash_length ≤ 64
  pub checksum : 12 ≤ hash_length h
  pub within : hash_length h ≤ h.hash_length
  -- What is used for integrity is at most 256 bits long.
  pub limit : h.hash_type ≡ integr → hash_length h ≤ 32

digest_length-limits : (md : Digest) → (16 ≤ digest_length md) × (digest_length md ≤ 64)
digest_length-limits md5 = (omega arith, omega arith)
digest_length-limits sha1 = (omega arith, omega arith)
digest_length-limits sha256 = (omega arith, omega arith)
digest_length-limits sha384 = (omega arith, omega arith)
digest_length-limits sha512 = (omega arith, omega arith)

prf_IsHash :
    (type id : ℕ) (md : Digest)
    → type ≢ integr
    → Yields IsHash (digest type id md (digest_length md) 0)
unfolding hash_length
prf_IsHash type id md n =
    let bounds = digest_length-limits md in
    yields (record {
      digest = keyed md refl refl refl (omega arith);
      longest = bounds.1;
      checksum = omega (arith, bounds.0);
      within = omega arith;
      limit = λ i. absurd (n i);
    })

integr_IsHash :
    (type id : ℕ) (md : Digest) (trunc : ℕ)
    → 12 ≤ trunc
    → trunc ≤ 32
    → trunc ≤ digest_length md
    → Yields IsHash (digest type id md (digest_length md) trunc)
unfolding hash_length
integr_IsHash type id md trunc a b c = yields (record {
  digest = keyed md refl refl refl c;
  longest = (digest_length-limits md).1;
  checksum = ground arith;
  within = ground arith;
  limit = λ i. ground arith;
})

aead_IsHash : (type id length : ℕ) → 12 ≤ length → length ≤ 16 → Yields IsHash (aead type id length)
unfolding hash_length
aead_IsHash type id length a b = yields (record {
  digest = tagged refl refl a b;
  longest = omega arith;
  checksum = omega arith;
  within = omega arith;
  limit = λ i. omega arith;
})

pub hash_new-IsHash : (type id : ℕ) → Yields IsHash (hash_new type id)
unfolding hash_new
hash_new-IsHash type id =
    let test = if_rule (Yields IsHash) in
    test (type == prf) _ _
      (λ p.
        let leaf = λ (md : Digest). prf_IsHash type id md (λ e. ground arith) in
        test (id == 1) _ _ (λ e. leaf md5)
          (λ e.
            test (id == 2) _ _ (λ e. leaf sha1)
              (λ e.
                test (id == 5) _ _ (λ e. leaf sha256)
                  (λ e.
                    test (id == 6) _ _ (λ e. leaf sha384)
                      (λ e. test (id == 7) _ _ (λ e. leaf sha512) (λ e. fails))))))
      (λ p.
        let leaf = integr_IsHash type id in
        test (type == integr) _ _
          (λ i.
            test (id == 1) _ _ (λ e. leaf md5 12 (omega arith) (omega arith) (omega arith))
              (λ e.
                test (id == 2) _ _ (λ e. leaf sha1 12 (omega arith) (omega arith) (omega arith))
                  (λ e.
                    test (id == 12) _ _
                      (λ e. leaf sha256 16 (omega arith) (omega arith) (omega arith))
                      (λ e.
                        test (id == 13) _ _
                          (λ e. leaf sha384 24 (omega arith) (omega arith) (omega arith))
                          (λ e.
                            test (id == 14) _ _
                              (λ e. leaf sha512 32 (omega arith) (omega arith) (omega arith))
                              (λ e.
                                test (id == auth_aes_gcm_12) _ _
                                  (λ e. aead_IsHash type id 12 (omega arith) (omega arith))
                                  (λ e.
                                    test (id == auth_aes_gcm_16) _ _
                                      (λ e. aead_IsHash type id 16 (omega arith) (omega arith))
                                      (λ e. fails))))))))
          (λ i. fails))

-- What cipher_new makes: its sizes are those of libcrypto's cipher, where an AEAD cipher takes four
-- bytes of the IV from its key, and has a counter for the rest.
pub record IsCipher (ssl : Openssl) (c : IkedCipher) : Type 0 where
  pub block : c.encr_length ≡ ssl.block_size c.encr_priv
  pub key : c.encr_fixedkey ≡ ssl.key_length c.encr_priv + c.encr_saltlength
  pub iv : ssl.iv_length c.encr_priv ≤ c.encr_saltlength + c.encr_ivlength
  pub iv_limit : c.encr_ivlength ≤ 32
  pub counted :
      ((c.encr_id == encr_aes_gcm_16 || c.encr_id == encr_aes_gcm_12) ≡ true) → c.encr_ivlength ≡ 8
  pub modes :
      ((c.encr_authid ≢ 0) × (is_gcm c.encr_priv ≡ true))
      ⊎ ((c.encr_authid ≡ 0) × (is_gcm c.encr_priv ≡ false))
  pub with_tag :
      c.encr_authid ≢ 0 → (c.encr_authid ≡ auth_aes_gcm_12) ⊎ (c.encr_authid ≡ auth_aes_gcm_16)

module _ (ssl : Openssl) (known : Documented ssl) where
  cbc_IsCipher :
      (id : ℕ) (a : Algorithm)
      → is_gcm a ≡ false
      → (id == encr_aes_gcm_16 || id == encr_aes_gcm_12) ≡ false
      → IsCipher ssl (cbc ssl id a)
  cbc_IsCipher id a m n = record {
    block = refl;
    key = omega arith;
    iv = ground arith;
    iv_limit = ground (arith, known.iv_limit a, known.block_limit a);
    counted = λ y. absurd (cc (y, n));
    modes = inr (refl, m);
    with_tag = λ y. absurd (y refl);
  }

  gcm_IsCipher : (id : ℕ) (a : Algorithm) → is_gcm a ≡ true → IsCipher ssl (gcm ssl id a)
  gcm_IsCipher id a m = record {
    block = refl;
    key = omega arith;
    iv = omega (arith, known.iv_gcm a m);
    iv_limit = omega arith;
    counted = λ y. refl;
    modes = inl (ground arith, m);
    with_tag = λ y. ground arith;
  }

  cbc_of-modes : (l : ℕ) → Yields (λ a. is_gcm a ≡ false) (cbc_of l)
  cbc_of-modes l =
      let test = if_rule (Yields (λ a. is_gcm a ≡ false)) in
      test (l == 128) _ _ (λ e. yields refl)
        (λ e.
          test (l == 192) _ _ (λ e. yields refl)
            (λ e. test (l == 256) _ _ (λ e. yields refl) (λ e. fails)))

  gcm_of-modes : (l : ℕ) → Yields (λ a. is_gcm a ≡ true) (gcm_of l)
  gcm_of-modes l =
      let test = if_rule (Yields (λ a. is_gcm a ≡ true)) in
      test (l == 128) _ _ (λ e. yields refl)
        (λ e. test (l == 256) _ _ (λ e. yields refl) (λ e. fails))

  pub cipher_new-IsCipher :
      (type id id_length : ℕ) → Yields (IsCipher ssl) (cipher_new ssl type id id_length)
  unfolding cipher_new
  cipher_new-IsCipher type id l =
      let test = if_rule (Yields (IsCipher ssl)) in
      test (type == encr) _ _
        (λ t.
          test (id == encr_3des) _ _
            (λ e. yields (cbc_IsCipher id des_ede3_cbc refl (ground arith)))
            (λ n.
              test (id == encr_aes_cbc) _ _
                (λ e.
                  Yields-bind (cbc_of-modes l) (λ a m. yields (cbc_IsCipher id a m (ground arith))))
                (λ n'.
                  test (id == encr_aes_gcm_16 || id == encr_aes_gcm_12) _ _
                    (λ e. Yields-bind (gcm_of-modes l) (λ a m. yields (gcm_IsCipher id a m)))
                    (λ e. fails))))
        (λ t. fails)

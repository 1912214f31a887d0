-- ===== src/Crypto/Vectors.antt =====
-- The initialization vectors of cipher_setiv of iked/crypto.c.
use openiked_portable.Base.{
  ℕ, List, length, refl, some, ◌≡◌, ltb, none, if_rule, false, arith, take_past, ◌||◌, ◌/◌, zero,
  ◌+◌, ◌^◌, suc, ◌%◌, ◌==◌, ◌!=◌,
}
use openiked_portable.Crypto.{
  Openssl, IkedCipher, cipher_setiv, le_bytes, encr_aes_gcm_16, encr_aes_gcm_12,
}
use openiked_portable.Crypto.Tables.{IsCipher}

-- The cipher with an IV and another counter.
abbrev pub with_iv : IkedCipher → List ℕ → ℕ → IkedCipher
with_iv c iv n = record c { encr_iv = some iv; encr_civ = n }

pub length-le_bytes : (n v : ℕ) → length (le_bytes n v) ≡ n
length-le_bytes zero v = refl
length-le_bytes (suc n) v = omega (arith, length-le_bytes n (v / 256))

-- A new IV is as long as the cipher wants it.
pub record NewIv (c : IkedCipher) (made : IkedCipher) : Type 0 where
  pub iv : List ℕ
  pub counter : ℕ
  pub is : made ≡ with_iv c iv counter
  pub long : length iv ≡ c.encr_ivlength

pub cipher_setiv-NewIv :
    (ssl : Openssl) (random : ℕ → List ℕ) (c : IkedCipher)
    → ((n : ℕ) → length (random n) ≡ n)
    → IsCipher ssl c
    → NewIv c (cipher_setiv random none c)
unfolding cipher_setiv
cipher_setiv-NewIv ssl random c fresh k =
    if_rule (NewIv c) (c.encr_id == encr_aes_gcm_16 || c.encr_id == encr_aes_gcm_12) _ _
      (λ y.
        if_rule (NewIv c) (c.encr_ivlength != 8) _ _ (λ n. absurd (ground (arith, k.counted y)))
          (λ n. record {
            iv = le_bytes 8 c.encr_civ;
            counter = (c.encr_civ + 1) % 2 ^ 64;
            is = refl;
            long = ground arith;
          }))
      (λ y. record {
        iv = random c.encr_ivlength;
        counter = c.encr_civ;
        is = refl;
        long = fresh c.encr_ivlength;
      })

-- A received one is cut to that length.
pub cipher_setiv-given :
    (random : ℕ → List ℕ) (iv : List ℕ) (c : IkedCipher)
    → length iv ≡ c.encr_ivlength
    → cipher_setiv random (some iv) c ≡ with_iv c iv c.encr_civ
unfolding cipher_setiv
cipher_setiv-given random iv c l =
    let enough : ltb (length iv) c.encr_ivlength ≡ false = ground arith in
    rw (enough, take_past c.encr_ivlength iv (omega arith)) refl

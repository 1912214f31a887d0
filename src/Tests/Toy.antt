-- ===== src/Tests/Toy.antt =====
-- A stand-in for libcrypto that meets what is documented of it, for concrete runs: encryption adds
-- one to each byte, HMACs and tags are the first bytes of what they are of.
use openiked_portable.Base.{
  suc, ◌≤◌, ap, map, none, ◌∷◌, Option, ◌+◌, ◌<◌, inr, true, arith, ◌++◌, refl, [], some, List, inl,
  ◌≡◌, ℕ, ◌-◌, length-zeros, length-append, length-take, length, bytes_eq_refl, zeros, take,
  bytes_eq, if◌then◌else◌,
}
use openiked_portable.Crypto.{
  aes_256_gcm, aes_256_cbc, des_ede3_cbc, aes_192_cbc, Openssl, Algorithm, aes_128_gcm, aes_128_cbc,
}
use openiked_portable.Crypto.Laws.{Documented, TagLength, digest_length, is_gcm}

abbrev first_bytes : ℕ → List ℕ → List ℕ
first_bytes n bs = take n (bs ++ zeros n)

abbrev pub toy_tag : Algorithm → List ℕ → List ℕ → List ℕ → List ℕ → List ℕ
toy_tag a key nonce aad text = first_bytes 16 (nonce ++ (aad ++ text))

abbrev toy_block : Algorithm → ℕ
toy_block des_ede3_cbc = 8
toy_block aes_128_gcm = 1
toy_block aes_256_gcm = 1
toy_block _ = 16

abbrev toy_key : Algorithm → ℕ
toy_key des_ede3_cbc = 24
toy_key aes_192_cbc = 24
toy_key aes_256_cbc = 32
toy_key aes_256_gcm = 32
toy_key _ = 16

abbrev toy_iv : Algorithm → ℕ
toy_iv des_ede3_cbc = 8
toy_iv aes_128_gcm = 12
toy_iv aes_256_gcm = 12
toy_iv _ = 16

abbrev toy_decrypt : Algorithm → List ℕ → List ℕ → List ℕ → List ℕ → List ℕ → Option (List ℕ)
toy_decrypt a key nonce aad tag out =
    let text = map (λ b. b - 1) out in
    if bytes_eq tag (take (length tag) (toy_tag a key nonce aad text)) then some text else none

abbrev pub toy : Openssl
toy = record {
  block_size = toy_block;
  key_length = toy_key;
  iv_length = toy_iv;
  hmac = λ md key text. first_bytes (digest_length md) (key ++ text);
  encrypt = λ a key nonce aad text. some (map (λ b. b + 1) text);
  tag = toy_tag;
  decrypt = toy_decrypt;
}

length-first_bytes : (n : ℕ) (bs : List ℕ) → length (first_bytes n bs) ≡ n
length-first_bytes n bs =
    length-take n (bs ++ zeros n) (omega (arith, length-append bs (zeros n), length-zeros n))

length-map-suc : (bs : List ℕ) → length (map (λ b. b + 1) bs) ≡ length bs
length-map-suc [] = refl
length-map-suc (b ∷ bs) = ap suc (length-map-suc bs)

map-back : (bs : List ℕ) → map (λ b. b - 1) (map (λ b. b + 1) bs) ≡ bs
map-back [] = refl
map-back (b ∷ bs) = let back : b + 1 - 1 ≡ b = omega arith in rw (back, map-back bs) refl

length-tag :
    (a : Algorithm) (l : ℕ) (bs : List ℕ) → TagLength a l → length (take l (first_bytes 16 bs)) ≡ l
length-tag a l bs (inl g) = length-take l _ (omega (arith, g.2, length-first_bytes 16 bs))
length-tag a l bs (inr g) = length-take l _ (omega (arith, g.1, length-first_bytes 16 bs))

toy-opens :
    (a : Algorithm) (key nonce aad text : List ℕ) (l : ℕ)
    → TagLength a l
    → toy_decrypt a key nonce aad (take l (toy_tag a key nonce aad text)) (map (λ b. b + 1) text)
      ≡ some text
unfolding bytes_eq
toy-opens a key nonce aad text l t =
    rw
      (
        map-back text,
        length-tag a l (nonce ++ (aad ++ text)) t,
        bytes_eq_refl (take l (toy_tag a key nonce aad text)),
      )
      refl

pub toy-Documented : Documented toy
toy-Documented = record {
  block_some = block_some;
  block_limit = block_limit;
  iv_limit = iv_limit;
  iv_gcm = iv_gcm;
  hmac_length = λ md key text. length-first_bytes (digest_length md) (key ++ text);
  tag_length = λ a key nonce aad text. length-first_bytes 16 (nonce ++ (aad ++ text));
  runs = λ a key nonce aad text x y z. record {
    out = map (λ b. b + 1) text;
    encrypts = refl;
    as_long = length-map-suc text;
    decrypts = toy-opens a key nonce aad text;
  };
}
  where
    block_some : (a : Algorithm) → 0 < toy_block a
    block_some des_ede3_cbc = omega arith
    block_some aes_128_cbc = omega arith
    block_some aes_192_cbc = omega arith
    block_some aes_256_cbc = omega arith
    block_some aes_128_gcm = omega arith
    block_some aes_256_gcm = omega arith

    block_limit : (a : Algorithm) → toy_block a ≤ 32
    block_limit des_ede3_cbc = omega arith
    block_limit aes_128_cbc = omega arith
    block_limit aes_192_cbc = omega arith
    block_limit aes_256_cbc = omega arith
    block_limit aes_128_gcm = omega arith
    block_limit aes_256_gcm = omega arith

    iv_limit : (a : Algorithm) → toy_iv a ≤ 16
    iv_limit des_ede3_cbc = omega arith
    iv_limit aes_128_cbc = omega arith
    iv_limit aes_192_cbc = omega arith
    iv_limit aes_256_cbc = omega arith
    iv_limit aes_128_gcm = omega arith
    iv_limit aes_256_gcm = omega arith

    iv_gcm : (a : Algorithm) → is_gcm a ≡ true → toy_iv a ≤ 12
    iv_gcm des_ede3_cbc e = omega arith
    iv_gcm aes_128_cbc e = absurd (cc e)
    iv_gcm aes_192_cbc e = absurd (cc e)
    iv_gcm aes_256_cbc e = absurd (cc e)
    iv_gcm aes_128_gcm e = omega arith
    iv_gcm aes_256_gcm e = omega arith

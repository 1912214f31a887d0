-- ===== src/Crypto/Laws.antt =====
-- What the daemon relies on of libcrypto: the sizes of its primitives, and that decryption undoes
-- encryption.
use openiked_portable.Base.{ℕ, ◌%◌, ◌≡◌, ◌≤◌, ◌<◌, ◌⊎◌, Bool, true, false, some, List, length, take}
use openiked_portable.Crypto.{
  Digest, md5, sha1, sha256, sha384, sha512, Algorithm, aes_128_gcm, aes_256_gcm, Openssl,
}

abbrev pub is_gcm : Algorithm → Bool
is_gcm aes_128_gcm = true
is_gcm aes_256_gcm = true
is_gcm _ = false

-- MD5_DIGEST_LENGTH and the other lengths of digests.
abbrev pub digest_length : Digest → ℕ
digest_length md5 = 16
digest_length sha1 = 20
digest_length sha256 = 32
digest_length sha384 = 48
digest_length sha512 = 64

-- The lengths of tags that are used with a cipher.
abbrev pub TagLength : Algorithm → ℕ → Type 0
TagLength a l = ((is_gcm a ≡ true) × (12 ≤ l) × (l ≤ 16)) ⊎ ((is_gcm a ≡ false) × (l ≡ 0))

-- A run of encryption on a text, and what decryption makes of its output.
pub record Runs (ssl : Openssl) (a : Algorithm) (key nonce aad text : List ℕ) : Type 0 where
  pub out : List ℕ
  pub encrypts : ssl.encrypt a key nonce aad text ≡ some out
  pub as_long : length out ≡ length text
  pub decrypts :
      (l : ℕ)
      → TagLength a l
      → ssl.decrypt a key nonce aad (take l (ssl.tag a key nonce aad text)) out ≡ some text

pub record Documented (ssl : Openssl) : Type 0 where
  pub block_some : (a : Algorithm) → 0 < ssl.block_size a
  -- EVP_MAX_BLOCK_LENGTH, EVP_MAX_IV_LENGTH, and the default length for GCM.
  pub block_limit : (a : Algorithm) → ssl.block_size a ≤ 32
  pub iv_limit : (a : Algorithm) → ssl.iv_length a ≤ 16
  pub iv_gcm : (a : Algorithm) → is_gcm a ≡ true → ssl.iv_length a ≤ 12
  pub hmac_length :
      (md : Digest) (key text : List ℕ) → length (ssl.hmac md key text) ≡ digest_length md
  pub tag_length :
      (a : Algorithm) (key nonce aad text : List ℕ) → length (ssl.tag a key nonce aad text) ≡ 16
  -- A key and an IV that are long enough, and whole blocks. Additional data is for GCM.
  pub runs :
      (a : Algorithm) (key nonce aad text : List ℕ)
      → ssl.key_length a ≤ length key
      → ssl.iv_length a ≤ length nonce
      → length text % ssl.block_size a ≡ 0
      → Runs ssl a key nonce aad text

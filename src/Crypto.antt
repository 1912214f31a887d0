-- ===== src/Crypto.antt =====
-- The hashes and ciphers of an IKE SA: struct iked_hash and struct iked_cipher of iked/iked.h, and
-- hash_new, hash_final, hash_length, hash_keylength and the cipher_ functions of iked/crypto.c.
-- libcrypto is a parameter (Openssl). The context of a cipher keeps what it has encrypted, from
-- which EVP_CTRL_GCM_GET_TAG gives the tag. Allocations succeed.
pub mod Laws
pub mod Tables
pub mod Vectors
use openiked_portable.Base.{
  ℕ, zero, suc, ◌+◌, ◌-◌, ◌*◌, ◌/◌, ◌%◌, ◌^◌, ◌||◌, Bool, true, false, not, Option, none, some,
  List, [], ◌∷◌, ◌++◌, ltb, ◌==◌, ◌!=◌, if◌then◌else◌, length, take, drop, zeros, ◌>>=◌, ◌>>◌,
  fail_if,
}
use openiked_portable.Proposal.{encr, prf, integr}

-- EVP_md5() and the other digests.
pub data Digest : Type 0 where
  md5 : Digest
  sha1 : Digest
  sha256 : Digest
  sha384 : Digest
  sha512 : Digest

-- EVP_des_ede3_cbc() and the other ciphers.
pub data Algorithm : Type 0 where
  des_ede3_cbc : Algorithm
  aes_128_cbc : Algorithm
  aes_192_cbc : Algorithm
  aes_256_cbc : Algorithm
  aes_128_gcm : Algorithm
  aes_256_gcm : Algorithm

-- What is called of libcrypto: the sizes of a cipher, HMAC of a key and data, and a cipher run to
-- its end with padding off, over a key, an initialization vector, additional data and a text (and,
-- to decrypt, a tag). `tag` is the whole tag of what has been encrypted.
pub record Openssl : Type 0 where
  pub block_size : Algorithm → ℕ
  pub key_length : Algorithm → ℕ
  pub iv_length : Algorithm → ℕ
  pub hmac : Digest → List ℕ → List ℕ → List ℕ
  pub encrypt : Algorithm → List ℕ → List ℕ → List ℕ → List ℕ → Option (List ℕ)
  pub tag : Algorithm → List ℕ → List ℕ → List ℕ → List ℕ → List ℕ
  pub decrypt : Algorithm → List ℕ → List ℕ → List ℕ → List ℕ → List ℕ → Option (List ℕ)

pub record IkedHash : Type 0 where
  pub hash_type : ℕ
  pub hash_id : ℕ
  pub hash_priv : Option Digest
  pub hash_fixedkey : ℕ
  pub hash_length : ℕ
  pub hash_trunc : ℕ
  pub hash_isaead : Bool

-- What an encryption has been run on.
pub record Sealed : Type 0 where
  pub key : List ℕ
  pub nonce : List ℕ
  pub aad : List ℕ
  pub text : List ℕ

pub record IkedCipher : Type 0 where
  pub encr_id : ℕ
  pub encr_priv : Algorithm
  pub encr_ctx : Option Sealed
  pub encr_fixedkey : ℕ
  pub encr_key : List ℕ
  pub encr_iv : Option (List ℕ)
  pub encr_civ : ℕ
  pub encr_ivlength : ℕ
  pub encr_length : ℕ
  pub encr_saltlength : ℕ
  pub encr_authid : ℕ

-- IKEV2_XFORMAUTH_AES_GCM_12, IKEV2_XFORMAUTH_AES_GCM_16 and the ciphers of the same names.
abbrev pub auth_aes_gcm_12 : ℕ
auth_aes_gcm_12 = 2019

abbrev pub auth_aes_gcm_16 : ℕ
auth_aes_gcm_16 = 2020

abbrev pub encr_aes_gcm_12 : ℕ
encr_aes_gcm_12 = 19

abbrev pub encr_aes_gcm_16 : ℕ
encr_aes_gcm_16 = 20

abbrev pub encr_3des : ℕ
encr_3des = 3

abbrev pub encr_aes_cbc : ℕ
encr_aes_cbc = 12

-- IKED_MSGBUF_MAX and roundup of iked/types.h and iked/iked.h.
abbrev pub msgbuf_max : ℕ
msgbuf_max = 8192

abbrev pub roundup : ℕ → ℕ → ℕ
roundup x y = (x + (y - 1)) / y * y

abbrev pub digest : ℕ → ℕ → Digest → ℕ → ℕ → Option IkedHash
digest type id md length trunc = some (record {
  hash_type = type;
  hash_id = id;
  hash_priv = some md;
  hash_fixedkey = 0;
  hash_length = length;
  hash_trunc = trunc;
  hash_isaead = false;
})

abbrev pub aead : ℕ → ℕ → ℕ → Option IkedHash
aead type id length = some (record {
  hash_type = type;
  hash_id = id;
  hash_priv = none;
  hash_fixedkey = 0;
  hash_length = length;
  hash_trunc = 0;
  hash_isaead = true;
})

unfoldable pub hash_new : ℕ → ℕ → Option IkedHash
hash_new type id =
    if type == prf
    then (if id == 1
        then digest type id md5 16 0
        else if id == 2
        then digest type id sha1 20 0
        else if id == 5
        then digest type id sha256 32 0
        else if id == 6
        then digest type id sha384 48 0
        else if id == 7
        then digest type id sha512 64 0
        else none)
    else if type == integr
    then (if id == 1
        then digest type id md5 16 12
        else if id == 2
        then digest type id sha1 20 12
        else if id == 12
        then digest type id sha256 32 16
        else if id == 13
        then digest type id sha384 48 24
        else if id == 14
        then digest type id sha512 64 32
        else if id == auth_aes_gcm_12
        then aead type id 12
        else if id == auth_aes_gcm_16
        then aead type id 16
        else none)
    else none

unfoldable pub hash_length : IkedHash → ℕ
hash_length h = if h.hash_trunc != 0 then h.hash_trunc else h.hash_length

unfoldable pub hash_keylength : IkedHash → ℕ
hash_keylength h = h.hash_length

-- hash_setkey, hash_init, hash_update and hash_final: the bytes of the HMAC, and the length that
-- is given for them.
unfoldable pub hash_final : Openssl → IkedHash → List ℕ → List ℕ → Option (List ℕ × ℕ)
hash_final ssl h key text = do
  md ← h.hash_priv
  let full = ssl.hmac md key text
  some (
    full,
    if h.hash_trunc != 0
        then (if ltb h.hash_trunc (length full) then h.hash_trunc else length full)
        else length full,
  )

-- The switch on the length of the key.
abbrev pub cbc_of : ℕ → Option Algorithm
cbc_of id_length =
    if id_length == 128
    then some aes_128_cbc
    else if id_length == 192
    then some aes_192_cbc
    else if id_length == 256
    then some aes_256_cbc
    else none

abbrev pub gcm_of : ℕ → Option Algorithm
gcm_of id_length =
    if id_length == 128
    then some aes_128_gcm
    else if id_length == 256
    then some aes_256_gcm
    else none

module _ (ssl : Openssl) where
  -- The fields that calloc and the end of cipher_new set, with a length of the IV that is not 0.
  abbrev pub cbc : ℕ → Algorithm → IkedCipher
  cbc id a = record {
    encr_id = id;
    encr_priv = a;
    encr_ctx = none;
    encr_fixedkey = ssl.key_length a;
    encr_key = [];
    encr_iv = none;
    encr_civ = 0;
    encr_ivlength = if ssl.iv_length a != 0 then ssl.iv_length a else ssl.block_size a;
    encr_length = ssl.block_size a;
    encr_saltlength = 0;
    encr_authid = 0;
  }

  abbrev pub gcm : ℕ → Algorithm → IkedCipher
  gcm id a = record {
    encr_id = id;
    encr_priv = a;
    encr_ctx = none;
    encr_fixedkey = ssl.key_length a + 4;
    encr_key = [];
    encr_iv = none;
    encr_civ = 0;
    encr_ivlength = 8;
    encr_length = ssl.block_size a;
    encr_saltlength = 4;
    encr_authid = if id == encr_aes_gcm_16 then auth_aes_gcm_16 else auth_aes_gcm_12;
  }

  unfoldable pub cipher_new : ℕ → ℕ → ℕ → Option IkedCipher
  cipher_new type id id_length =
      if type == encr
      then (if id == encr_3des
          then some (cbc id des_ede3_cbc)
          else if id == encr_aes_cbc
          then (cbc_of id_length >>= λ a. some (cbc id a))
          else if id == encr_aes_gcm_16 || id == encr_aes_gcm_12
          then (gcm_of id_length >>= λ a. some (gcm id a))
          else none)
      else none

unfoldable pub cipher_outlength : IkedCipher → ℕ → ℕ
cipher_outlength c inlen = roundup inlen c.encr_length

unfoldable pub cipher_setkey : IkedCipher → List ℕ → IkedCipher
cipher_setkey c key = record c { encr_key = key }

-- The bytes of encr_civ, on a little-endian host.
abbrev pub le_bytes : ℕ → ℕ → List ℕ
le_bytes zero v = []
le_bytes (suc n) v = v % 256 ∷ le_bytes n (v / 256)

-- A given IV, or a new one: the counter of a GCM cipher, or random bytes.
unfoldable pub cipher_setiv : (ℕ → List ℕ) → Option (List ℕ) → IkedCipher → IkedCipher
cipher_setiv random (some iv) c =
    if ltb (length iv) c.encr_ivlength
    then record c { encr_iv = none }
    else record c { encr_iv = some (take c.encr_ivlength iv) }
cipher_setiv random none c =
    if c.encr_id == encr_aes_gcm_16 || c.encr_id == encr_aes_gcm_12
    then (if c.encr_ivlength != 8 then record c { encr_iv = none } else record c {
      encr_iv = some (le_bytes 8 c.encr_civ);
      encr_civ = (c.encr_civ + 1) % 2 ^ 64;
    })
    else record c { encr_iv = some (random c.encr_ivlength) }

-- cipher_init: what the cipher starts from. ibuf_seek finds no salt in a key that is too short, and
-- ibuf_new then makes one of zeros.
unfoldable pub cipher_nonce : IkedCipher → Option (List ℕ)
cipher_nonce c = do
  iv ← c.encr_iv
  let salt =
      if ltb (length c.encr_key) c.encr_saltlength
      then zeros c.encr_saltlength
      else drop (length c.encr_key - c.encr_saltlength) c.encr_key
  some (if c.encr_saltlength != 0 then salt ++ iv else iv)

-- cipher_init_encrypt, cipher_aad, cipher_update and cipher_final: the output, and the cipher with
-- its context.
unfoldable pub cipher_encrypt :
    Openssl → List ℕ → List ℕ → IkedCipher → Option (IkedCipher × List ℕ)
unfolding cipher_nonce
cipher_encrypt ssl aad text c = do
  nonce ← cipher_nonce c
  out ← ssl.encrypt c.encr_priv c.encr_key nonce aad text
  let ctx : Sealed = record { key = c.encr_key; nonce = nonce; aad = aad; text = text }
  some (record c { encr_ctx = some ctx }, out)

unfoldable pub cipher_gettag : Openssl → ℕ → IkedCipher → Option (List ℕ)
cipher_gettag ssl len c = do
  ctx ← c.encr_ctx
  let full = ssl.tag c.encr_priv ctx.key ctx.nonce ctx.aad ctx.text
  fail_if (ltb (length full) len)
  some (take len full)

-- cipher_init_decrypt, cipher_settag, cipher_aad, cipher_update and cipher_final.
unfoldable pub cipher_decrypt : Openssl → List ℕ → List ℕ → List ℕ → IkedCipher → Option (List ℕ)
unfolding cipher_nonce
cipher_decrypt ssl aad tag text c = do
  nonce ← cipher_nonce c
  ssl.decrypt c.encr_priv c.encr_key nonce aad tag text

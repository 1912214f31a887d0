-- ===== src/Msg.antt =====
-- Encrypted messages of an IKE SA: ikev2_msg_id, ikev2_msg_encrypt_prepare, ikev2_msg_encrypt,
-- ikev2_msg_integr and ikev2_msg_decrypt of iked/ikev2_msg.c, and the buffer calls of them in
-- iked/imsg_util.c. A buffer is the list of its bytes, of at most IKED_MSGBUF_MAX; `none` stands
-- for the error that a caller sees. A pointer into a buffer is an offset. Random bytes are a
-- parameter, a list for each draw. That decryption leaves its key and IV in the cipher is left out,
-- since each run sets them anew; so is logging.
pub mod Sizes
pub mod Sealed
pub mod Opened
pub mod Wire
pub mod Sending
pub mod Transit
pub mod Receiving
pub mod Carried
pub mod Delivered
pub mod Fragmented
pub mod Arrives
pub mod Through
pub mod Authentic
pub mod Whole
use openiked_portable.Base.{
  ℕ, zero, suc, ◌+◌, ◌-◌, ◌/◌, ◌%◌, ◌^◌, Bool, true, false, Option, none, some, List, [], ◌∷◌, ◌++◌,
  ltb, ◌!=◌, if◌then◌else◌, length, take, drop, zeros, get_elem?, ◌>>=◌, ◌>>◌, fail_if, bytes_eq,
  not,
}
use openiked_portable.Crypto.{
  Openssl, IkedHash, IkedCipher, msgbuf_max, roundup, hash_length, hash_keylength, hash_final,
  cipher_outlength, cipher_setkey, cipher_setiv, cipher_encrypt, cipher_gettag, cipher_decrypt,
}

-- The fields of struct iked_sa that encryption and the header of a message need, and how many
-- draws of random bytes there have been.
pub record IkeSa : Type 0 where
  pub sh_initiator : Bool
  pub sh_ispi : ℕ
  pub sh_rspi : ℕ
  pub encr : Option IkedCipher
  pub integr : Option IkedHash
  pub key_iencr : List ℕ
  pub key_rencr : List ℕ
  pub key_iauth : List ℕ
  pub key_rauth : List ℕ
  pub local_af : ℕ
  pub frag : Bool
  pub natt : Bool
  pub reqid : ℕ
  pub msgid_current : ℕ
  pub drawn : ℕ

-- ibuf_add and ibuf_reserve on a buffer that may grow to IKED_MSGBUF_MAX.
unfoldable pub ibuf_add : List ℕ → List ℕ → Option (List ℕ)
ibuf_add buf bytes = do fail_if (ltb msgbuf_max (length buf + length bytes)); some (buf ++ bytes)

-- ibuf_new: a buffer with these bytes.
unfoldable pub ibuf_new : List ℕ → Option (List ℕ)
ibuf_new bytes = do fail_if (ltb msgbuf_max (length bytes)); some bytes

-- ibuf_setsize with a length that is `len - less` in size_t, on a buffer with room for `size`.
unfoldable pub ibuf_setsize : ℕ → ℕ → List ℕ → Option (List ℕ)
ibuf_setsize len less buf =
    if ltb len less
    then none
    else if ltb (length buf) (len - less)
    then none
    else some (take (len - less) buf)

unfoldable pub ikev2_msg_id : IkeSa → ℕ × IkeSa
ikev2_msg_id sa = (sa.reqid, record sa { reqid = (sa.reqid + 1) % 2 ^ 32 })

-- The key of what the SA sends.
abbrev pub key_encr : IkeSa → List ℕ
key_encr sa = if sa.sh_initiator then sa.key_iencr else sa.key_rencr

abbrev pub key_auth : IkeSa → List ℕ
key_auth sa = if sa.sh_initiator then sa.key_iauth else sa.key_rauth

-- And of what it receives.
abbrev pub peer_encr : IkeSa → List ℕ
peer_encr sa = if not sa.sh_initiator then sa.key_iencr else sa.key_rencr

abbrev pub peer_auth : IkeSa → List ℕ
peer_auth sa = if not sa.sh_initiator then sa.key_iauth else sa.key_rauth

-- The sizes that ikev2_msg_encrypt_prepare and ikev2_msg_encrypt compute.
abbrev pub encrlen_of : IkedCipher → ℕ → ℕ
encrlen_of c len = roundup (len + 1) c.encr_length

unfoldable pub pldlen_of : IkedCipher → IkedHash → ℕ → ℕ
unfolding cipher_outlength hash_length
pldlen_of c h len = c.encr_ivlength + cipher_outlength c (encrlen_of c len) + hash_length h

-- The padding, and its length in a byte.
unfoldable pub pad_text : (ℕ → List ℕ) → IkedCipher → List ℕ → Option (List ℕ)
unfolding ibuf_add
pad_text random c src = do
  let pad = (encrlen_of c (length src) - (length src + 1)) % 256
  padding ← ibuf_add src (random pad)
  ibuf_add padding (pad ∷ [])

-- The IV, what the cipher makes of the text, and room for the checksum.
unfoldable pub seal :
    Openssl → IkedHash → List ℕ → List ℕ → IkedCipher → Option (IkedCipher × List ℕ)
unfolding ibuf_add ibuf_new hash_length cipher_outlength cipher_encrypt
seal ssl h aad text keyed = do
  iv ← keyed.encr_iv
  dst ← ibuf_new iv
  room ← ibuf_new (zeros (cipher_outlength keyed (length text)))
  (sealed, out) ← cipher_encrypt ssl (if h.hash_isaead then aad else []) text keyed
  body ← ibuf_add dst out
  whole ← ibuf_add body (zeros (hash_length h))
  some (sealed, whole)

-- The padding is stripped: its length is in the last byte.
unfoldable pub strip : List ℕ → Option (List ℕ)
unfolding ibuf_setsize
strip out =
    let pad : ℕ = elim (get_elem? out (length out - 1)) [ none ↦ 0 | some b ↦ b ] in
    ibuf_setsize (length out) (pad + 1) out

module _ (ssl : Openssl) where
  -- The checksum of a message: the HMAC of all but its own place, or the tag of the cipher.
  unfoldable pub checksum : IkedCipher → IkedHash → List ℕ → List ℕ → Option (List ℕ)
  unfolding hash_length hash_keylength hash_final cipher_gettag
  checksum c h key covered =
      if not h.hash_isaead
      then (do
        (mac, tmplen) ← hash_final ssl h key covered
        fail_if (tmplen != hash_length h)
        some mac)
      else cipher_gettag ssl (hash_keylength h) c

  -- The checksum goes to the end of the message. It has been given room there, so that the length
  -- that is covered does not wrap.
  unfoldable pub ikev2_msg_integr : IkeSa → List ℕ → Option (List ℕ)
  unfolding hash_length checksum
  ikev2_msg_integr sa src = do
    c ← sa.encr
    h ← sa.integr
    let integrlen = hash_length h
    let covered = take (length src - integrlen) src
    tmp ← checksum c h (key_auth sa) covered
    fail_if (ltb (length src) integrlen)
    some (covered ++ take integrlen tmp)

  -- The test of the HMAC of a message against its last bytes.
  unfoldable pub verify : IkedHash → List ℕ → List ℕ → List ℕ → Option (Unit {0})
  unfolding hash_length hash_final bytes_eq
  verify h key msg integrdata =
      if not h.hash_isaead
      then (do
        (mac, tmplen) ← hash_final ssl h key (take (length msg - hash_length h) msg)
        fail_if (not (bytes_eq (take (hash_length h) mac) integrdata)))
      else some tt

module _ (ssl : Openssl) (random : ℕ → ℕ → List ℕ) where
  -- From the text to the body of the payload.
  unfoldable pub ikev2_msg_encrypt : IkeSa → List ℕ → List ℕ → Option (IkeSa × List ℕ)
  unfolding pad_text seal cipher_setkey cipher_setiv
  ikev2_msg_encrypt sa src aad = do
    c ← sa.encr
    h ← sa.integr
    padded ← pad_text (random sa.drawn) c src
    let keyed = cipher_setiv (random (sa.drawn + 1)) none (cipher_setkey c (key_encr sa))
    (sealed, whole) ← seal ssl h aad (take (encrlen_of c (length src)) padded) keyed
    some (record sa { encr = some sealed; drawn = sa.drawn + 2 }, whole)

  -- `msg` is the whole message, `src` the body of its payload.
  unfoldable pub ikev2_msg_decrypt : IkeSa → List ℕ → List ℕ → Option (List ℕ)
  unfolding hash_length verify cipher_setkey cipher_setiv cipher_decrypt strip
  ikev2_msg_decrypt sa msg src = do
    c ← sa.encr
    h ← sa.integr
    let ivlen = c.encr_ivlength
    let integrlen = hash_length h
    fail_if (ltb (length src) (integrlen + ivlen))
    let encrlen = length src - integrlen - ivlen
    let integrdata = drop (length src - integrlen) src
    _ ← verify ssl h (peer_auth sa) msg integrdata
    fail_if (encrlen % c.encr_length != 0)
    let keyed =
        cipher_setiv (random sa.drawn) (some (take ivlen src)) (cipher_setkey c (peer_encr sa))
    let aad = if h.hash_isaead then take (length msg - length src) msg else []
    let tag = if h.hash_isaead then integrdata else []
    out ← cipher_decrypt ssl aad tag (take encrlen (drop ivlen src)) keyed
    strip out

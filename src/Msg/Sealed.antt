-- ===== src/Msg/Sealed.antt =====
-- What ikev2_msg_encrypt makes of a text, and that ikev2_msg_decrypt of the peer gives it back.
use native.Mathlib.Nat.{mod-eq_of_lt}
use openiked_portable.Base.{
  ℕ, List, length, refl, some, ◌≡◌, ◌≤◌, ltb, false, arith, ◌++◌, ◌∷◌, ◌-◌, ◌+◌, length-append,
  length-drop, drop, ◌!=◌, if◌then◌else◌, if_rule, [], ◌<◌, ◌%◌, Option, zeros, subst, sym,
  length-zeros, take, take_past,
}
use openiked_portable.Crypto.{
  Openssl, IkedCipher, IkedHash, cipher_setkey, cipher_nonce, msgbuf_max, cipher_encrypt,
  hash_length, cipher_outlength, Sealed, roundup,
}
use openiked_portable.Crypto.Laws.{Documented, is_gcm, Runs}
use openiked_portable.Crypto.Tables.{IsCipher, IsHash}
use openiked_portable.Msg.{
  IkeSa, ibuf_new, ibuf_add, encrlen_of, pldlen_of, key_encr, ikev2_msg_encrypt, pad_text, seal,
}
use openiked_portable.Crypto.Vectors.{with_iv, cipher_setiv-NewIv}
use openiked_portable.Proposal.{integr}
use openiked_portable.Msg.Sizes.{roundup-le, roundup-lt, roundup_again, roundup_whole}

-- An SA with the cipher and the hash that have been negotiated, and keys that are long enough.
pub record IsKeyed (ssl : Openssl) (c : IkedCipher) (h : IkedHash) (sa : IkeSa) : Type 0 where
  pub has_encr : sa.encr ≡ some c
  pub has_integr : sa.integr ≡ some h
  pub cipher : IsCipher ssl c
  pub hash : IsHash h
  pub kind : h.hash_type ≡ integr
  -- An AEAD cipher makes the checksum itself.
  pub paired : h.hash_isaead ≡ is_gcm c.encr_priv
  pub ikey : c.encr_fixedkey ≤ length sa.key_iencr
  pub rkey : c.encr_fixedkey ≤ length sa.key_rencr

pub ibuf_add_fits :
    (buf bytes : List ℕ)
    → length buf + length bytes ≤ msgbuf_max
    → ibuf_add buf bytes ≡ some (buf ++ bytes)
unfolding ibuf_add
ibuf_add_fits buf bytes h =
    let fits : ltb msgbuf_max (length buf + length bytes) ≡ false = ground arith in rw fits refl

pub ibuf_new_fits : (bytes : List ℕ) → length bytes ≤ msgbuf_max → ibuf_new bytes ≡ some bytes
unfolding ibuf_new
ibuf_new_fits bytes h =
    let fits : ltb msgbuf_max (length bytes) ≡ false = ground arith in rw fits refl

-- What a cipher starts from: its salt and its IV.
abbrev pub start_of : IkedCipher → List ℕ → List ℕ
start_of c iv =
    if c.encr_saltlength != 0
    then drop (length c.encr_key - c.encr_saltlength) c.encr_key ++ iv
    else iv

pub cipher_nonce-start_of :
    (c : IkedCipher) (iv : List ℕ) (n : ℕ)
    → c.encr_saltlength ≤ length c.encr_key
    → cipher_nonce (with_iv c iv n) ≡ some (start_of c iv)
unfolding cipher_nonce
cipher_nonce-start_of c iv n h =
    let fits : ltb (length c.encr_key) c.encr_saltlength ≡ false = ground arith in rw fits refl

pub length-start_of :
    (c : IkedCipher) (iv : List ℕ)
    → c.encr_saltlength ≤ length c.encr_key
    → length (start_of c iv) ≡ c.encr_saltlength + length iv
length-start_of c iv h =
    if_rule (λ (bs : List ℕ). length bs ≡ c.encr_saltlength + length iv) (c.encr_saltlength != 0) _
      _
      (λ y. omega (
        arith,
        length-append (drop (length c.encr_key - c.encr_saltlength) c.encr_key) iv,
        length-drop (length c.encr_key - c.encr_saltlength) c.encr_key,
      ))
      (λ n. ground arith)

-- A cipher with what changes as it is used.
abbrev pub refit : IkedCipher → List ℕ → Option (List ℕ) → ℕ → Option Sealed → IkedCipher
refit c key iv n ctx = record c { encr_key = key; encr_iv = iv; encr_civ = n; encr_ctx = ctx }

pub refit-IsCipher :
    {ssl : Openssl} {c : IkedCipher} (key : List ℕ) (iv : Option (List ℕ)) (n : ℕ)
    (ctx : Option Sealed)
    → IsCipher ssl c
    → IsCipher ssl (refit c key iv n ctx)
refit-IsCipher key iv n ctx k = record {
  block = k.block;
  key = k.key;
  iv = k.iv;
  iv_limit = k.iv_limit;
  counted = k.counted;
  modes = k.modes;
  with_tag = k.with_tag;
}

abbrev pub padded : List ℕ → List ℕ → List ℕ
padded text padding = (text ++ padding) ++ (length padding ∷ [])

abbrev pub aad_of : IkedHash → List ℕ → List ℕ
aad_of h aad = if h.hash_isaead then aad else []

pub pad_text-padded :
    (random : ℕ → List ℕ) (c : IkedCipher) (text : List ℕ)
    → ((n : ℕ) → length (random n) ≡ n)
    → 0 < c.encr_length
    → c.encr_length ≤ 256
    → encrlen_of c (length text) ≤ msgbuf_max
    → (padding : List ℕ) × (pad_text random c text ≡ some (padded text padding))
      × (length (padded text padding) ≡ encrlen_of c (length text))
unfolding pad_text
pad_text-padded random c text fresh some_block block size =
    let e = encrlen_of c (length text) in
    let n = e - (length text + 1) in
    let least = roundup-le (length text + 1) c.encr_length some_block in
    let most = roundup-lt (length text + 1) c.encr_length some_block in
    let small : n % 256 ≡ n = mod-eq_of_lt (omega (arith, block, most)) in
    let padding = random n in
    let count : length padding ≡ n = fresh n in
    let joined = length-append text padding in
    let long : length (padded text padding) ≡ e =
      omega (arith, length-append (text ++ padding) (length padding ∷ []), joined, count, least) in
    let first = ibuf_add_fits text padding (omega (arith, size, count, least)) in
    let second =
      ibuf_add_fits (text ++ padding) (length padding ∷ [])
        (omega (arith, size, count, least, joined)) in
    (
      padding,
      rw
          (
            small,
            first,
            subst (λ b. ibuf_add (text ++ padding) (b ∷ []) ≡ some (padded text padding)) count
                second,
          )
          refl,
      long,
    )

module _ (ssl : Openssl) (c : IkedCipher) (h : IkedHash) where
  -- The context of the cipher.
  abbrev pub context : List ℕ → List ℕ → List ℕ → List ℕ → Sealed
  context key iv aad text = record {
    key = key;
    nonce = start_of (cipher_setkey c key) iv;
    aad = aad_of h aad;
    text = text;
  }

  abbrev pub RunsWith : List ℕ → List ℕ → List ℕ → List ℕ → Type 0
  RunsWith key iv aad text =
      Runs ssl c.encr_priv key (start_of (cipher_setkey c key) iv) (aad_of h aad) text

  pub seal-runs :
      (key iv aad text : List ℕ) (n : ℕ) (runs : RunsWith key iv aad text)
      → c.encr_saltlength ≤ length key
      → roundup (length text) c.encr_length ≡ length text
      → length iv + length text + hash_length h ≤ msgbuf_max
      → seal ssl h aad text (with_iv (cipher_setkey c key) iv n)
        ≡ some (
          refit c key (some iv) n (some (context key iv aad text)),
          (iv ++ runs.out) ++ zeros (hash_length h),
        )
  unfolding seal cipher_outlength cipher_encrypt cipher_setkey
  seal-runs key iv aad text n runs salt again size =
      let started : ltb (length key) c.encr_saltlength ≡ false = ground arith in
      let first = ibuf_new_fits iv (omega (arith, size)) in
      let room =
        ibuf_new_fits (zeros (length text)) (omega (arith, size, length-zeros (length text))) in
      let second = ibuf_add_fits iv runs.out (omega (arith, size, runs.as_long)) in
      let third = ibuf_add_fits (iv ++ runs.out) (zeros (hash_length h)) (
        omega
          (arith, size, runs.as_long, length-zeros (hash_length h), length-append iv runs.out)) in
      rw (first, again, room, started, runs.encrypts, second, third) refl

  -- The body of a payload as it is encrypted, with no checksum yet, and the cipher behind it.
  pub record IsSealed (key aad text : List ℕ) (sent : Option IkedCipher) (body : List ℕ)
      : Type 0 where
    pub iv : List ℕ
    pub padding : List ℕ
    pub counter : ℕ
    pub long : length iv ≡ c.encr_ivlength
    pub whole : length (padded text padding) ≡ encrlen_of c (length text)
    pub runs : RunsWith key iv aad (padded text padding)
    pub is : body ≡ (iv ++ runs.out) ++ zeros (hash_length h)
    pub left :
        sent
        ≡ some (refit c key (some iv) counter (some (context key iv aad (padded text padding))))

  module _ (known : Documented ssl) (random : ℕ → ℕ → List ℕ)
      (fresh : (k n : ℕ) → length (random k n) ≡ n) where
    -- What is left of the SA, and the body.
    pub record Encrypted (sa : IkeSa) (aad text : List ℕ) (out : Option (IkeSa × List ℕ))
        : Type 0 where
      pub sent : IkedCipher
      pub body : List ℕ
      pub is : out ≡ some (record sa { encr = some sent; drawn = sa.drawn + 2 }, body)
      pub sealed : IsSealed (key_encr sa) aad text (some sent) body

    pub ikev2_msg_encrypt-Encrypted :
        (sa : IkeSa) (text aad : List ℕ)
        → IsKeyed ssl c h sa
        → pldlen_of c h (length text) ≤ msgbuf_max
        → Encrypted sa aad text (ikev2_msg_encrypt ssl random sa text aad)
    unfolding ikev2_msg_encrypt pldlen_of cipher_outlength cipher_setkey
    ikev2_msg_encrypt-Encrypted sa text aad k size =
        let block : 0 < c.encr_length = rw k.cipher.block (known.block_some c.encr_priv) in
        let block' : c.encr_length ≤ 32 = rw k.cipher.block (known.block_limit c.encr_priv) in
        let again = roundup_again (length text + 1) c.encr_length block in
        let (padding, pads, long) =
          pad_text-padded (random sa.drawn) c text (fresh sa.drawn) block (omega (arith, block'))
            (omega (arith, size, again)) in
        let text' = padded text padding in
        let key = key_encr sa in
        let made =
          cipher_setiv-NewIv ssl (random (sa.drawn + 1)) (cipher_setkey c key)
            (fresh (sa.drawn + 1)) (refit-IsCipher _ _ _ _ k.cipher) in
        let all : take (encrlen_of c (length text)) text' ≡ text' =
          take_past _ text' (omega (arith, long)) in
        let keyed : c.encr_fixedkey ≤ length key =
          if_rule (λ (bs : List ℕ). c.encr_fixedkey ≤ length bs) sa.sh_initiator _ _ (λ y. k.ikey)
            (λ y. k.rkey) in
        let salt : c.encr_saltlength ≤ length key = omega (arith, keyed, k.cipher.key) in
        let runs : RunsWith key made.iv aad text' =
          known.runs c.encr_priv key _ _ text' (omega (arith, keyed, k.cipher.key))
            (omega
              (arith, k.cipher.iv, length-start_of (cipher_setkey c key) made.iv salt, made.long))
            (rw (long, sym k.cipher.block) (roundup_whole (length text + 1) c.encr_length)) in
        let done =
          seal-runs key made.iv aad text' made.counter runs salt (rw long again)
            (omega (arith, size, again, long, made.long)) in
        record {
          sent = refit c key (some made.iv) made.counter (some (context key made.iv aad text'));
          body = (made.iv ++ runs.out) ++ zeros (hash_length h);
          is = rw (k.has_encr, k.has_integr, pads, made.is, all, done) refl;
          sealed = record {
            iv = made.iv;
            padding = padding;
            counter = made.counter;
            long = made.long;
            whole = long;
            runs = runs;
            is = refl;
            left = refl;
          };
        }

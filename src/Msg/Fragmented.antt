-- ===== src/Msg/Fragmented.antt =====
-- All the fragments of a message, from the loop of ikev2_send_encrypted_fragments of
-- iked/ikev2_msg.c on.
use native.Mathlib.Nat.{suc-mul}
use openiked_portable.Base.{
  ◌∷◌, ap, suc, ◌++◌, [], ◌*◌, Bool, List, ◌+◌, ℕ, refl, zero, ◌<◌, ◌≤◌, true, ◌≡◌, arith, take,
  drop, length, length-drop, some,
}
use openiked_portable.Crypto.{Openssl, hash_length, IkedCipher, IkedHash, cipher_outlength}
use openiked_portable.Crypto.Laws.{Documented}
use openiked_portable.Fragment.Slots.{joined}
use openiked_portable.Msg.{IkeSa, pldlen_of}
use openiked_portable.Msg.Delivered.{Delivers, send_fragment-Dispatched, Dispatched}
use openiked_portable.Msg.Opened.{IsPeer}
use openiked_portable.Msg.Sealed.{IsKeyed}
use openiked_portable.Msg.Sending.{send_loop, Sent, Exchange, send_fragment}
use openiked_portable.Msg.Sizes.{roundup-lt, roundup_again}
use openiked_portable.Msg.Transit.{IsUsed-IsKeyed, IsUsed-IsPeer}

-- The text in pieces.
abbrev pub chunks : ℕ → ℕ → List ℕ → List (List ℕ)
chunks zero max_len text = []
chunks (suc n) max_len text = take max_len text ∷ chunks n max_len (drop max_len text)

pub length-chunks : (n max_len : ℕ) (text : List ℕ) → length (chunks n max_len text) ≡ n
length-chunks zero max_len text = refl
length-chunks (suc n) max_len text = ap suc (length-chunks n max_len (drop max_len text))

pub take-drop : (n : ℕ) (xs : List ℕ) → take n xs ++ drop n xs ≡ xs
take-drop zero xs = refl
take-drop (suc n) [] = refl
take-drop (suc n) (x ∷ xs) = ap (x ∷◌) (take-drop n xs)

pub joined-chunks :
    (n max_len : ℕ) (text : List ℕ)
    → length text ≤ n * max_len
    → joined (chunks n max_len text) ≡ text
joined-chunks zero max_len [] h = refl
joined-chunks zero max_len (b ∷ text) h = absurd (omega arith)
joined-chunks (suc n) max_len text h =
    let rest : suc n * max_len ≡ n * max_len + max_len = suc-mul n max_len in
    let size = length-drop max_len text in
    rw (joined-chunks n max_len (drop max_len text) (omega (arith, size, h, rest)))
      (take-drop max_len text)

pub length-take-le : (n : ℕ) (xs : List ℕ) → length (take n xs) ≤ n
length-take-le zero xs = omega arith
length-take-le (suc n) [] = omega arith
length-take-le (suc n) (x ∷ xs) = omega (arith, length-take-le n xs)

module _ (ssl : Openssl) (known : Documented ssl) (random : ℕ → ℕ → List ℕ)
    (fresh : (k n : ℕ) → length (random k n) ≡ n) (h : IkedHash) (peer : IkeSa) (x : Exchange)
    (msgid total : ℕ) where
  abbrev Carries : Bool → ℕ → ℕ → List ℕ → List ℕ → Type 0
  Carries = Delivers ssl known random fresh h peer x msgid total

  -- The fragments of the pieces, numbered, the first with the type of the first payload.
  pub data Series (natt : Bool) (limit : ℕ) : ℕ → ℕ → List (List ℕ) → List (List ℕ) → Type 0 where
    finished : {next num : ℕ} → Series natt limit next num [] []
    followed :
        {next num : ℕ} {chunk d : List ℕ} {cs ds : List (List ℕ)}
        → Carries natt next num chunk d
        → length d ≤ limit
        → Series natt limit 0 (num + 1) cs ds
        → Series natt limit next num (chunk ∷ cs) (d ∷ ds)

  -- The size of the body of a fragment.
  pldlen-le :
      (c : IkedCipher) (len max_len limit : ℕ)
      → 0 < c.encr_length
      → len ≤ max_len
      → max_len + c.encr_ivlength + c.encr_length + hash_length h ≤ limit
      → pldlen_of c h len ≤ limit
  unfolding pldlen_of cipher_outlength
  pldlen-le c len max_len limit p a b =
      omega
        (arith, a, b, roundup_again (len + 1) c.encr_length p, roundup-lt (len + 1) c.encr_length p)

  pub record Complete (natt : Bool) (limit next num : ℕ) (cs : List (List ℕ)) (out : Sent)
      : Type 0 where
    pub complete : out.complete ≡ true
    pub series : Series natt limit next num cs out.datagrams

  send_loop_step :
      (max_len limit more num next : ℕ) (rest : List ℕ) (c : IkedCipher) (sa : IkeSa)
      (one : Dispatched ssl known random fresh h peer x msgid total c sa next num
        (take max_len rest)
        (send_fragment ssl random x msgid num total next (take max_len rest) sa))
      → length one.datagram ≤ limit
      → Complete sa.natt limit 0 (num + 1) (chunks more max_len (drop max_len rest)) (
          send_loop ssl random x msgid max_len total more
            (num + 1)
            0
            (drop max_len rest)
            (record sa { encr = some one.sent; drawn = sa.drawn + 2 }))
      → Complete sa.natt limit next num
          (chunks (suc more) max_len rest)
          (send_loop ssl random x msgid max_len total (suc more) num next rest sa)
  unfolding send_loop
  send_loop_step max_len limit more num next rest c sa one size later =
      rw (send_loop, one.is)
        (record { complete = later.complete; series = followed one.delivers size later.series })

  pub send_loop-Complete :
      (max_len limit more num next : ℕ) (rest : List ℕ) (c : IkedCipher) (sa : IkeSa)
      → IsKeyed ssl c h sa
      → IsPeer c h sa peer
      → num + more ≤ 65536
      → total < 65536
      → max_len + c.encr_ivlength + c.encr_length + hash_length h ≤ limit
      → limit ≤ 2048
      → Complete sa.natt
          (40 + limit)
          next
          num
          (chunks more max_len rest)
          (send_loop ssl random x msgid max_len total more num next rest sa)
  send_loop-Complete max_len limit zero num next rest c sa k p a t b s =
      unfold send_loop in record { complete = refl; series = finished }
  send_loop-Complete max_len limit (suc more) num next rest c sa k p a t b s =
      let some_block : 0 < c.encr_length = rw k.cipher.block (known.block_some c.encr_priv) in
      let part = length-take-le max_len rest in
      let size = pldlen-le c (length (take max_len rest)) max_len limit some_block part b in
      go
        (send_fragment-Dispatched ssl known random fresh h peer x msgid total c sa next num
          (take max_len rest) k p (omega (arith, a)) t (omega (arith, size, s))
          (omega (arith, part, b, s)))
        size
        (λ c' sa' k' p' b'.
          send_loop-Complete max_len limit more (num + 1) 0 (drop max_len rest) c' sa' k' p'
            (omega (arith, a)) t b' s)
    where
      go :
          (one : Dispatched ssl known random fresh h peer x msgid total c sa next num
            (take max_len rest)
            (send_fragment ssl random x msgid num total next (take max_len rest) sa))
          → pldlen_of c h (length (take max_len rest)) ≤ limit
          → ((c' : IkedCipher) (sa' : IkeSa)
              → IsKeyed ssl c' h sa'
              → IsPeer c' h sa' peer
              → max_len + c'.encr_ivlength + c'.encr_length + hash_length h ≤ limit
              → Complete sa'.natt
                  (40 + limit)
                  0
                  (num + 1)
                  (chunks more max_len (drop max_len rest))
                  (send_loop ssl random x msgid max_len total more
                    (num + 1)
                    0
                    (drop max_len rest)
                    sa'))
          → Complete sa.natt
              (40 + limit)
              next
              num
              (chunks (suc more) max_len rest)
              (send_loop ssl random x msgid max_len total (suc more) num next rest sa)
      go one size later =
          let sizes : max_len + one.sent.encr_ivlength + one.sent.encr_length + hash_length h
              ≤ limit =
            rw one.used.same b in
          send_loop_step max_len (40 + limit) more num next rest c sa one
            (omega (arith, one.size, size))
            (later one.sent (record sa { encr = some one.sent; drawn = sa.drawn + 2 })
              (IsUsed-IsKeyed one.sent (sa.drawn + 2) one.used k)
              (IsUsed-IsPeer one.sent (sa.drawn + 2) one.used p) sizes)

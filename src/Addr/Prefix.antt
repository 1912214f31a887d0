-- ===== src/Addr/Prefix.antt =====
-- What sockaddr_cmp of iked/util.c compares under a prefix length: the first bits of the addresses.
use openiked_portable.Addr.{
  mask6_byte, Sockaddr, prefixlen2mask, sockaddr_cmp, prefixlen2mask6, mask4, mask6, af_inet,
  af_inet6,
}
use openiked_portable.Base.{
  ◌/◌, ◌%◌, suc, arith, refl, ◌<◌, ◌+◌, bit_and, ℕ, zero, ◌*◌, true, ◌≡◌, ltb, ◌==◌, passes_all,
  ◌∙◌, sym, passes_all-at, inl, subst, inr, ==_iff, Bool-cases, some, false, ◌≤◌, is_zero,
}
use openiked_portable.Addr.Masked.{sockaddr_cmp-SameNet, SameNet, SameNet-sockaddr_cmp}
use openiked_portable.Addr.Bytes.{
  word, bits_at, mask6_byte-bits, leading, masks, same_masked, bits_at-lt, same_leading,
  bit_and-word,
}

-- Addresses as bytes in network order, and word `j` of one.
abbrev pub IsBytes : (ℕ → ℕ) → Type 0
IsBytes a = (i : ℕ) → a i < 256

abbrev pub word_at : (ℕ → ℕ) → ℕ → ℕ
word_at a j = word (a (4 * j)) (a (4 * j + 1)) (a (4 * j + 2)) (a (4 * j + 3))

-- In each byte from `i` on, of `n`, the bits that belong to the first `p` are the same.
abbrev pub SamePrefix : ℕ → ℕ → (ℕ → ℕ) → (ℕ → ℕ) → Type 0
SamePrefix p n a b = (i : ℕ) → i < n → leading (bits_at p i) (a i) ≡ leading (bits_at p i) (b i)

-- Word `j` of the mask of a prefix.
abbrev mask_at : ℕ → ℕ → ℕ
mask_at p j = word_at (mask6_byte p) j

mask6_byte-lt : (p i : ℕ) → mask6_byte p i < 256
mask6_byte-lt p i = rw (mask6_byte-bits p i) (omega arith)

masked_word :
    (p j : ℕ) (a : ℕ → ℕ)
    → IsBytes a
    → bit_and (word_at a j) (mask_at p j) ≡ word_at (λ i. bit_and (a i) (mask6_byte p i)) j
masked_word p j a h =
    bit_and-word (a (4 * j)) (a (4 * j + 1)) (a (4 * j + 2)) (a (4 * j + 3)) (mask6_byte p (4 * j))
      (mask6_byte p (4 * j + 1)) (mask6_byte p (4 * j + 2)) (mask6_byte p (4 * j + 3))
      (h (4 * j), h (4 * j + 1), h (4 * j + 2))
      (mask6_byte-lt p (4 * j), mask6_byte-lt p (4 * j + 1), mask6_byte-lt p (4 * j + 2))

word_same :
    (a b c d k l m n : ℕ)
    → (a < 256) × (b < 256) × (c < 256) × (d < 256)
    → (k < 256) × (l < 256) × (m < 256) × (n < 256)
    → word a b c d ≡ word k l m n
    → (a ≡ k) × (b ≡ l) × (c ≡ m) × (d ≡ n)
word_same a b c d k l m n (ha, hb, hc, hd) (hk, hl, hm, hn) e =
    (omega arith, omega arith, omega arith, omega arith)

masked-lt : (p i x : ℕ) → x < 256 → bit_and x (mask6_byte p i) < 256
masked-lt p i x h = rw (mask6_byte-bits p i) (masks (bits_at p i) x (bits_at-lt p i) h).small

-- Byte `i` under the mask, and its leading bits.
masked_leading :
    (p i x y : ℕ)
    → x < 256
    → y < 256
    → bit_and x (mask6_byte p i) ≡ bit_and y (mask6_byte p i)
    → leading (bits_at p i) x ≡ leading (bits_at p i) y
masked_leading p i x y hx hy e =
    same_leading (bits_at p i) x y (bits_at-lt p i) hx hy
      (subst (λ m. bit_and x m ≡ bit_and y m) (mask6_byte-bits p i) e)

leading_masked :
    (p i x y : ℕ)
    → x < 256
    → y < 256
    → leading (bits_at p i) x ≡ leading (bits_at p i) y
    → bit_and x (mask6_byte p i) ≡ bit_and y (mask6_byte p i)
leading_masked p i x y hx hy e =
    subst (λ m. bit_and x m ≡ bit_and y m) (sym (mask6_byte-bits p i))
      (same_masked (bits_at p i) x y (bits_at-lt p i) hx hy e)

module _ (p : ℕ) (a b : ℕ → ℕ) (ha : IsBytes a) (hb : IsBytes b) where
  abbrev Agree : ℕ → Type 0
  Agree i = leading (bits_at p i) (a i) ≡ leading (bits_at p i) (b i)

  agree : (i : ℕ) → bit_and (a i) (mask6_byte p i) ≡ bit_and (b i) (mask6_byte p i) → Agree i
  agree i e = masked_leading p i (a i) (b i) (ha i) (hb i) e

  pub at_word :
      (j : ℕ)
      → bit_and (word_at a j) (mask_at p j) ≡ bit_and (word_at b j) (mask_at p j)
      → (i : ℕ) → i / 4 ≡ j
      → Agree i
  at_word j e i h =
      let (e0, e1, e2, e3) =
        word_same _ _ _ _ _ _ _ _
          (
            masked-lt p (4 * j) (a (4 * j)) (ha (4 * j)),
            masked-lt p (4 * j + 1) (a (4 * j + 1)) (ha (4 * j + 1)),
            masked-lt p (4 * j + 2) (a (4 * j + 2)) (ha (4 * j + 2)),
            masked-lt p (4 * j + 3) (a (4 * j + 3)) (ha (4 * j + 3)),
          )
          (
            masked-lt p (4 * j) (b (4 * j)) (hb (4 * j)),
            masked-lt p (4 * j + 1) (b (4 * j + 1)) (hb (4 * j + 1)),
            masked-lt p (4 * j + 2) (b (4 * j + 2)) (hb (4 * j + 2)),
            masked-lt p (4 * j + 3) (b (4 * j + 3)) (hb (4 * j + 3)),
          )
          (sym (masked_word p j a ha) ∙ (e ∙ masked_word p j b hb)) in
      elim (Bool-cases (i == 4 * j)) [
        | inl y ↦ subst Agree (sym ((==_iff i (4 * j)).0 y)) (agree (4 * j) e0)
        | inr n ↦ elim (Bool-cases (i == 4 * j + 1)) [
          | inl y ↦ subst Agree (sym ((==_iff i (4 * j + 1)).0 y)) (agree (4 * j + 1) e1)
          | inr m ↦ elim (Bool-cases (i == 4 * j + 2)) [
            | inl y ↦ subst Agree (sym ((==_iff i (4 * j + 2)).0 y)) (agree (4 * j + 2) e2)
            | inr k ↦
                let last : 4 * j + 3 ≡ i = ground (arith, h, n, m, k) in
                subst Agree last (agree (4 * j + 3) e3)
          ]
        ]
      ]

  pub of_word :
      (j : ℕ)
      → ((i : ℕ) → i / 4 ≡ j → Agree i)
      → bit_and (word_at a j) (mask_at p j) ≡ bit_and (word_at b j) (mask_at p j)
  of_word j h =
      let same : (i : ℕ)
          → i / 4 ≡ j
          → bit_and (a i) (mask6_byte p i) ≡ bit_and (b i) (mask6_byte p i) =
        λ i k. leading_masked p i (a i) (b i) (ha i) (hb i) (h i k) in
      masked_word p j a ha
      ∙ (rw
          (
            same (4 * j) (omega arith),
            same (4 * j + 1) (omega arith),
            same (4 * j + 2) (omega arith),
            same (4 * j + 3) (omega arith),
          )
          (sym (masked_word p j b hb)))

-- The two families, with the number of bytes of an address.
pub data Family : Type 0 where
  inet : Family
  inet6 : Family

abbrev pub width : Family → ℕ
width inet = 4
width inet6 = 16

-- The socket address with these bytes, on a little-endian host.
abbrev pub address : Family → (ℕ → ℕ) → Sockaddr
address inet a = record { family = af_inet; word0 = word_at a 0; word1 = 0; word2 = 0; word3 = 0 }
address inet6 a = record {
  family = af_inet6;
  word0 = word_at a 0;
  word1 = word_at a 1;
  word2 = word_at a 2;
  word3 = word_at a 3;
}

mask4_table : passes_all (λ p. mask4 (some p) == mask_at p 0) 33 ≡ true
unfolding passes_all mask4 prefixlen2mask mask6_byte
mask4_table = refl

mask4-mask_at : (p : ℕ) → p ≤ 32 → mask4 (some p) ≡ mask_at p 0
mask4-mask_at p h =
    (==_iff (mask4 (some p)) (mask_at p 0)).0
      (passes_all-at (λ q. mask4 (some q) == mask_at q 0) 33 p (omega arith) mask4_table)

mask6-mask_at : (p j : ℕ) → p ≤ 128 → mask6 (some p) j ≡ mask_at p j
unfolding mask6 prefixlen2mask6
mask6-mask_at p j h =
    let short : p % 256 ≡ p = omega arith in
    let fits : ltb 128 p ≡ false = ground arith in rw (short, fits) refl

-- Two addresses of one family, as bytes in network order, and a prefix length that is not longer
-- than them: sockaddr_cmp returns 0 just when the first bits, as many as the prefix length says,
-- are the same in both.
pub sockaddr_cmp-SamePrefix :
    (f : Family) (p : ℕ) (a b : ℕ → ℕ)
    → IsBytes a
    → IsBytes b
    → p ≤ 8 * width f
    → (is_zero (sockaddr_cmp (address f a) (address f b) (some p)) ≡ true
        → SamePrefix p (width f) a b)
      × (SamePrefix p (width f) a b
          → is_zero (sockaddr_cmp (address f a) (address f b) (some p)) ≡ true)
sockaddr_cmp-SamePrefix inet p a b ha hb h = (
  λ z i l.
      let s =
        sockaddr_cmp-SameNet (address inet a) (address inet b) (some p) (omega arith) (omega arith)
          z in
      at_word p a b ha hb 0
        (subst (λ m. bit_and (word_at a 0) m ≡ bit_and (word_at b 0) m) (mask4-mask_at p h)
          (s.inet refl))
        i (omega arith),
  λ s.
      let e = of_word p a b ha hb 0 (λ i k. s i (omega arith)) in
      SameNet-sockaddr_cmp (address inet a) (address inet b) (some p) (record {
        family = refl;
        inet = λ k.
            subst (λ m. bit_and (word_at a 0) m ≡ bit_and (word_at b 0) m) (sym (mask4-mask_at p h))
              e;
        inet6_0 = λ k. absurd (omega arith);
        inet6_1 = λ k. absurd (omega arith);
        inet6_2 = λ k. absurd (omega arith);
        inet6_3 = λ k. absurd (omega arith);
      }),
)
sockaddr_cmp-SamePrefix inet6 p a b ha hb h = (
  λ z i l.
      let s =
        sockaddr_cmp-SameNet (address inet6 a) (address inet6 b) (some p) (omega arith)
          (omega arith) z in
      at_word p a b ha hb (i / 4) (quarter s (i / 4) (omega arith)) i refl,
  λ s.
      let e : (j : ℕ) → j < 4 → same_at j (mask_at p j) =
        λ j c. of_word p a b ha hb j (λ i k. s i (omega arith)) in
      SameNet-sockaddr_cmp (address inet6 a) (address inet6 b) (some p) (record {
        family = refl;
        inet = λ k. absurd (omega arith);
        inet6_0 = λ k. back 0 (e 0 (omega arith));
        inet6_1 = λ k. back 1 (e 1 (omega arith));
        inet6_2 = λ k. back 2 (e 2 (omega arith));
        inet6_3 = λ k. back 3 (e 3 (omega arith));
      }),
)
  where
    same_at : ℕ → ℕ → Type 0
    same_at j m = bit_and (word_at a j) m ≡ bit_and (word_at b j) m

    quarter :
        SameNet (address inet6 a) (address inet6 b) (some p)
        → (j : ℕ) → j < 4
        → same_at j (mask_at p j)
    quarter s zero l = subst (same_at 0) (mask6-mask_at p 0 h) (s.inet6_0 refl)
    quarter s (suc zero) l = subst (same_at 1) (mask6-mask_at p 1 h) (s.inet6_1 refl)
    quarter s (suc (suc zero)) l = subst (same_at 2) (mask6-mask_at p 2 h) (s.inet6_2 refl)
    quarter s (suc (suc (suc zero))) l = subst (same_at 3) (mask6-mask_at p 3 h) (s.inet6_3 refl)
    quarter s (suc (suc (suc (suc j)))) l = absurd (omega arith)

    back : (j : ℕ) → same_at j (mask_at p j) → same_at j (mask6 (some p) j)
    back j e = subst (same_at j) (sym (mask6-mask_at p j h)) e

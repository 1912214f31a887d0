-- ===== src/Addr/Bytes.antt =====
-- The masks of iked/util.c byte by byte.
use openiked_portable.Sa.Bits.{bit_and_step}
use openiked_portable.Addr.{mask6_byte}
use openiked_portable.Base.{
  ◌/◌, ◌%◌, suc, arith, refl, ◌^◌, ◌-◌, ◌<◌, ◌+◌, bit_and, ◌&&◌, ℕ, zero, ◌*◌, true, ◌≡◌, Bool, ltb,
  if◌then◌else◌, ◌==◌, passes_all, ap, ◌∙◌, sym, passes_all-at, if_rule,
}

-- `y` shifted to the left.
abbrev shl : ℕ → ℕ → ℕ
shl zero y = y
shl (suc k) y = 2 * shl k y

bit_and-shl :
    (k x y m n : ℕ)
    → x < shl k 1
    → m < shl k 1
    → bit_and (x + shl k y) (m + shl k n) ≡ bit_and x m + shl k (bit_and y n)
bit_and-shl zero x y m n hx hm =
    let none_x : x ≡ 0 = omega (arith, hx) in
    let none_m : m ≡ 0 = omega (arith, hm) in
    let left : x + y ≡ y = omega (arith, none_x) in
    let right : m + n ≡ n = omega (arith, none_m) in
    let low : bit_and x m ≡ 0 = rw (none_x, none_m) refl in rw (left, right) (omega (arith, low))
bit_and-shl (suc k) x y m n hx hm =
    let half_x : (x + 2 * shl k y) / 2 ≡ x / 2 + shl k y = omega arith in
    let half_m : (m + 2 * shl k n) / 2 ≡ m / 2 + shl k n = omega arith in
    let halves : bit_and ((x + 2 * shl k y) / 2) ((m + 2 * shl k n) / 2)
        ≡ bit_and (x / 2) (m / 2) + shl k (bit_and y n) =
      rw (half_x, half_m) (bit_and-shl k (x / 2) y (m / 2) n (omega arith) (omega arith)) in
    omega (arith, bit_and_step (x + 2 * shl k y) (m + 2 * shl k n), bit_and_step x m, halves)

-- A word of four bytes, in the order in which a little-endian host has them.
abbrev pub word : ℕ → ℕ → ℕ → ℕ → ℕ
word a b c d = a + b * 2 ^ 8 + c * 2 ^ 16 + d * 2 ^ 24

pub bit_and-word :
    (a b c d k l m n : ℕ)
    → (a < 256) × (b < 256) × (c < 256)
    → (k < 256) × (l < 256) × (m < 256)
    → bit_and (word a b c d) (word k l m n)
      ≡ word (bit_and a k) (bit_and b l) (bit_and c m) (bit_and d n)
bit_and-word a b c d k l m n (ha, hb, hc) (hk, hl, hm) =
    let x : word a b c d ≡ a + shl 8 (b + shl 8 (c + shl 8 d)) = omega arith in
    let y : word k l m n ≡ k + shl 8 (l + shl 8 (m + shl 8 n)) = omega arith in
    rw (x, y)
      (omega (
        arith,
        bit_and-shl 8 a (b + shl 8 (c + shl 8 d)) k (l + shl 8 (m + shl 8 n)) (omega arith)
            (omega arith),
        bit_and-shl 8 b (c + shl 8 d) l (m + shl 8 n) (omega arith) (omega arith),
        bit_and-shl 8 c d m n (omega arith) (omega arith),
      ))

-- The mask of the first `r` bits of a byte, and the bits of byte `i` that are of the first `p`.
abbrev pub mask8 : ℕ → ℕ
mask8 r = 0xff00 / 2 ^ r % 256

abbrev pub bits_at : ℕ → ℕ → ℕ
bits_at p i = if ltb (p - 8 * i) 8 then p - 8 * i else 8

-- The first `r` bits of a byte.
abbrev pub leading : ℕ → ℕ → ℕ
leading r x = x / 2 ^ (8 - r)

pub mask6_byte-bits : (p i : ℕ) → mask6_byte p i ≡ mask8 (bits_at p i)
unfolding mask6_byte
mask6_byte-bits p i =
    if_rule (λ (b : ℕ). b ≡ mask8 (bits_at p i)) (ltb i (p / 8)) _ _
      (λ y. let all : bits_at p i ≡ 8 = ground arith in rw all refl)
      (λ n.
        if_rule (λ (b : ℕ). b ≡ mask8 (bits_at p i)) (i == p / 8) _ _
          (λ y. let some_bits : bits_at p i ≡ p % 8 = ground arith in rw some_bits refl)
          (λ z. let no_bits : bits_at p i ≡ 0 = ground arith in rw no_bits refl))

abbrev byte_ok : ℕ → ℕ → Bool
byte_ok r x =
    bit_and x (mask8 r) == leading r x * 2 ^ (8 - r)
    && leading r (bit_and x (mask8 r)) == leading r x
    && ltb (bit_and x (mask8 r)) 256

byte_table : passes_all (λ r. passes_all (byte_ok r) 256) 9 ≡ true
unfolding passes_all
byte_table = refl

-- The leading bits of a byte against its masked value.
pub record Masks (r x : ℕ) : Type 0 where
  pub value : bit_and x (mask8 r) ≡ leading r x * 2 ^ (8 - r)
  pub back : leading r (bit_and x (mask8 r)) ≡ leading r x
  pub small : bit_and x (mask8 r) < 256

pub masks : (r x : ℕ) → r < 9 → x < 256 → Masks r x
masks r x hr hx =
    let row = passes_all-at (λ q. passes_all (byte_ok q) 256) 9 r hr byte_table in
    let cell : byte_ok r x ≡ true = passes_all-at (byte_ok r) 256 x hx row in
    record {
      value = ground (arith, cell);
      back = ground (arith, cell);
      small = ground (arith, cell);
    }

pub bits_at-lt : (p i : ℕ) → bits_at p i < 9
bits_at-lt p i = ground arith

-- Bytes that are the same under the mask begin with the same bits, and the other way round.
pub same_leading :
    (r x y : ℕ)
    → r < 9
    → x < 256
    → y < 256
    → bit_and x (mask8 r) ≡ bit_and y (mask8 r)
    → leading r x ≡ leading r y
same_leading r x y hr hx hy e =
    sym (masks r x hr hx).back ∙ (ap (leading r) e ∙ (masks r y hr hy).back)

pub same_masked :
    (r x y : ℕ)
    → r < 9
    → x < 256
    → y < 256
    → leading r x ≡ leading r y
    → bit_and x (mask8 r) ≡ bit_and y (mask8 r)
same_masked r x y hr hx hy e =
    (masks r x hr hx).value ∙ (ap (λ q. q * 2 ^ (8 - r)) e ∙ sym (masks r y hr hy).value)

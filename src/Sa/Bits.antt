-- ===== src/Sa/Bits.antt =====
-- Sets of flags in a word: `bit_and flags r ≡ r` says that all flags of `r` are set.
use Prim.Native.Nat.{min, max, digits, bit_and-bitwise, bit_or-bitwise}
use native.Mathlib.Numerals.{unary_clauses}
use openiked_portable.Base.{
  ℕ, zero, suc, ◌+◌, ◌-◌, ◌*◌, ◌/◌, ◌%◌, ◌≤◌, ◌≡◌, refl, bit_and, bit_or, arith, subst,
}

-- Rounds beyond the size of the first word change nothing.
more_rounds :
    (rest : ℕ → ℕ) (op : ℕ → ℕ → ℕ) (extra rounds w v : ℕ)
    → w ≤ rounds
    → digits rest op (extra + rounds) w v ≡ digits rest op rounds w v
more_rounds rest op extra (suc rounds) (suc w) v le =
    simp unary_clauses
      (omega (arith, more_rounds rest op extra rounds (suc w / 2) (v / 2) (omega arith)))
more_rounds rest op extra (suc rounds) zero v le = simp unary_clauses refl
more_rounds rest op extra zero (suc w) v le = absurd (omega arith)
more_rounds rest op zero zero zero v le = refl
more_rounds rest op (suc extra) zero zero v le = simp unary_clauses refl

-- The rounds of a word are enough for its half.
half_rounds :
    (rest : ℕ → ℕ) (op : ℕ → ℕ → ℕ) (w v : ℕ)
    → digits rest op w (suc w / 2) v ≡ digits rest op (suc w / 2) (suc w / 2) v
half_rounds rest op w v =
    let whole : w - suc w / 2 + suc w / 2 ≡ w = omega arith in
    subst (λ n. digits rest op n (suc w / 2) v ≡ digits rest op (suc w / 2) (suc w / 2) v) whole
      (more_rounds rest op (w - suc w / 2) (suc w / 2) (suc w / 2) v (omega arith))

bit_or_step : (w v : ℕ) → bit_or w v ≡ 2 * bit_or (w / 2) (v / 2) + max (w % 2) (v % 2)
bit_or_step (suc w) v =
    let halves = half_rounds (λ c. c) max w (v / 2) in
    omega (arith, bit_or-bitwise (suc w) v, bit_or-bitwise (suc w / 2) (v / 2), halves)
bit_or_step zero v = omega (arith, bit_or-bitwise 0 v, bit_or-bitwise 0 (v / 2))

pub bit_and_step : (w v : ℕ) → bit_and w v ≡ 2 * bit_and (w / 2) (v / 2) + min (w % 2) (v % 2)
bit_and_step (suc w) v =
    let halves = half_rounds (λ c. zero) min w (v / 2) in
    omega (arith, bit_and-bitwise (suc w) v, bit_and-bitwise (suc w / 2) (v / 2), halves)
bit_and_step zero v = omega (arith, bit_and-bitwise 0 v, bit_and-bitwise 0 (v / 2))

half-bit_or : (a b : ℕ) → bit_or a b / 2 ≡ bit_or (a / 2) (b / 2)
half-bit_or a b = omega (arith, bit_or_step a b)

low-bit_or : (a b : ℕ) → bit_or a b % 2 ≡ max (a % 2) (b % 2)
low-bit_or a b = omega (arith, bit_or_step a b)

-- Flags that are set stay set when others are.
subset_fuel :
    (n flags more r : ℕ)
    → flags ≤ n
    → more ≤ n
    → r ≤ n
    → bit_and flags r ≡ r
    → bit_and (bit_or flags more) r ≡ r
subset_fuel zero zero zero zero a b c h = refl
subset_fuel zero (suc f) more r a b c h = absurd (omega arith)
subset_fuel zero zero (suc m) r a b c h = absurd (omega arith)
subset_fuel zero zero zero (suc r) a b c h = absurd (omega arith)
subset_fuel (suc n) flags more r a b c h =
    let half : bit_and (flags / 2) (r / 2) ≡ r / 2 = omega (arith, bit_and_step flags r) in
    let rest : bit_and (bit_or flags more / 2) (r / 2) ≡ r / 2 = rw (half-bit_or flags more) (
      subset_fuel n (flags / 2) (more / 2) (r / 2) (omega arith) (omega arith) (omega arith)
        half) in
    omega
      (arith, bit_and_step flags r, bit_and_step (bit_or flags more) r, low-bit_or flags more, rest)

pub subset-bit_or : (flags more r : ℕ) → bit_and flags r ≡ r → bit_and (bit_or flags more) r ≡ r
subset-bit_or flags more r h =
    subset_fuel (flags + more + r) flags more r (omega arith) (omega arith) (omega arith) h

-- Flags of flags that are set are set.
subset_trans_fuel :
    (n flags r f : ℕ)
    → flags ≤ n
    → r ≤ n
    → f ≤ n
    → bit_and flags r ≡ r
    → bit_and r f ≡ f
    → bit_and flags f ≡ f
subset_trans_fuel zero zero zero zero a b c h k = refl
subset_trans_fuel zero (suc x) r f a b c h k = absurd (omega arith)
subset_trans_fuel zero zero (suc r) f a b c h k = absurd (omega arith)
subset_trans_fuel zero zero zero (suc f) a b c h k = absurd (omega arith)
subset_trans_fuel (suc n) flags r f a b c h k =
    let first : bit_and (flags / 2) (r / 2) ≡ r / 2 = omega (arith, bit_and_step flags r) in
    let second : bit_and (r / 2) (f / 2) ≡ f / 2 = omega (arith, bit_and_step r f) in
    let rest =
      subset_trans_fuel n (flags / 2) (r / 2) (f / 2) (omega arith) (omega arith) (omega arith)
        first second in
    omega (arith, bit_and_step flags r, bit_and_step r f, bit_and_step flags f, rest)

pub subset_trans : (flags r f : ℕ) → bit_and flags r ≡ r → bit_and r f ≡ f → bit_and flags f ≡ f
subset_trans flags r f h k =
    subset_trans_fuel (flags + r + f) flags r f (omega arith) (omega arith) (omega arith) h k

-- Flags outside a mask do not show under it.
masked_fuel :
    (n flags more mask : ℕ)
    → flags ≤ n
    → more ≤ n
    → mask ≤ n
    → bit_and more mask ≡ 0
    → bit_and (bit_or flags more) mask ≡ bit_and flags mask
masked_fuel zero zero zero zero a b c h = refl
masked_fuel zero (suc x) more mask a b c h = absurd (omega arith)
masked_fuel zero zero (suc x) mask a b c h = absurd (omega arith)
masked_fuel zero zero zero (suc x) a b c h = absurd (omega arith)
masked_fuel (suc n) flags more mask a b c h =
    let half : bit_and (more / 2) (mask / 2) ≡ 0 = omega (arith, bit_and_step more mask) in
    let rest : bit_and (bit_or flags more / 2) (mask / 2) ≡ bit_and (flags / 2) (mask / 2) =
      rw (half-bit_or flags more) (
        masked_fuel n (flags / 2) (more / 2) (mask / 2) (omega arith) (omega arith) (omega arith)
          half) in
    omega (
      arith,
      bit_and_step more mask,
      bit_and_step flags mask,
      bit_and_step (bit_or flags more) mask,
      low-bit_or flags more,
      rest,
    )

pub masked-bit_or :
    (flags more mask : ℕ)
    → bit_and more mask ≡ 0
    → bit_and (bit_or flags more) mask ≡ bit_and flags mask
masked-bit_or flags more mask h =
    masked_fuel (flags + more + mask) flags more mask (omega arith) (omega arith) (omega arith) h

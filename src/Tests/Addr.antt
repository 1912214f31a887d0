-- ===== src/Tests/Addr.antt =====
-- Masks and addresses.
use openiked_portable.Base.{ℕ, ◌≡◌, refl, some, arith, true, is_zero, false, suc, zero, ◌<◌}
use openiked_portable.Addr.{Sockaddr, prefixlen2mask, mask4, sockaddr_cmp, af_inet}
use openiked_portable.Addr.Masks.{mask2prefixlen, mask2prefixlen-prefixlen2mask}
use openiked_portable.Addr.Prefix.{address, IsBytes, SamePrefix, sockaddr_cmp-SamePrefix, inet}

mask_24 : prefixlen2mask 24 ≡ 0x00ff_ffff
unfolding prefixlen2mask
mask_24 = refl

mask2prefixlen-prefixlen2mask_example : mask2prefixlen (prefixlen2mask 200) ≡ 32
mask2prefixlen-prefixlen2mask_example = mask2prefixlen-prefixlen2mask 200 (omega arith)

abbrev v4 : ℕ → Sockaddr
v4 w = record { family = af_inet; word0 = w; word1 = 0; word2 = 0; word3 = 0 }

-- 10.0.0.1 and 10.0.0.77 are both in 10.0.0.0/24, but not in one /25 with 10.0.0.130.
same_24 : is_zero (sockaddr_cmp (v4 0x0100_000a) (v4 0x4d00_000a) (some 24)) ≡ true
unfolding sockaddr_cmp mask4 prefixlen2mask
same_24 = refl

other_25 : is_zero (sockaddr_cmp (v4 0x0100_000a) (v4 0x8200_000a) (some 25)) ≡ false
unfolding sockaddr_cmp mask4 prefixlen2mask
other_25 = refl

-- 10.0.0.1 and 10.0.0.77, byte by byte.
abbrev ten : ℕ → ℕ → ℕ
ten host zero = 10
ten host (suc zero) = 0
ten host (suc (suc zero)) = 0
ten host (suc (suc (suc i))) = host

ten-IsBytes : (host : ℕ) → host < 256 → IsBytes (ten host)
ten-IsBytes host h zero = omega arith
ten-IsBytes host h (suc zero) = omega arith
ten-IsBytes host h (suc (suc zero)) = omega arith
ten-IsBytes host h (suc (suc (suc i))) = h

sockaddr_cmp-SamePrefix_example :
    (is_zero (sockaddr_cmp (address inet (ten 1)) (address inet (ten 77)) (some 24)) ≡ true
      → SamePrefix 24 4 (ten 1) (ten 77))
    × (SamePrefix 24 4 (ten 1) (ten 77)
        → is_zero (sockaddr_cmp (address inet (ten 1)) (address inet (ten 77)) (some 24)) ≡ true)
sockaddr_cmp-SamePrefix_example =
    sockaddr_cmp-SamePrefix inet 24 (ten 1) (ten 77) (ten-IsBytes 1 (omega arith))
      (ten-IsBytes 77 (omega arith)) (omega arith)

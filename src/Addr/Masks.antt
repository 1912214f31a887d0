-- ===== src/Addr/Masks.antt =====
-- mask2prefixlen and mask2prefixlen6 of iked/util.c, and the masks that they read back. ffs is the
-- C library's: the number of the lowest bit that is set, from 1 on.
use openiked_portable.Base.{
  ℕ, zero, suc, ◌+◌, ◌-◌, ◌*◌, ◌/◌, ◌%◌, ◌<◌, ◌≡◌, refl, Bool, true, false, Option, none, some,
  List, [], ◌∷◌, ltb, ◌==◌, if◌then◌else◌, passes_all, passes_all-at, ==_iff, arith,
}
use openiked_portable.Addr.{htonl, prefixlen2mask, mask6_byte}

ffs_from : ℕ → ℕ → ℕ → ℕ
ffs_from zero bit x = 0
ffs_from (suc n) bit x = let rest = ffs_from n (bit + 1) (x / 2) in if x % 2 == 1 then bit else rest

-- ntohl is htonl on a little-endian host. The result is a uint8_t.
pub mask2prefixlen : ℕ → ℕ
unfolding ffs_from htonl
mask2prefixlen ina = if ina == 0 then 0 else (33 - ffs_from 32 1 (htonl ina)) % 256

-- What a byte of a mask adds to the length; `none` is fatalx.
pub data MaskByte : Type 0 where
  whole : MaskByte
  last : ℕ → MaskByte
  broken : MaskByte

mask_byte : ℕ → MaskByte
mask_byte b =
    if b == 0xff
    then whole
    else if b == 0xfe
    then last 7
    else if b == 0xfc
    then last 6
    else if b == 0xf8
    then last 5
    else if b == 0xf0
    then last 4
    else if b == 0xe0
    then last 3
    else if b == 0xc0
    then last 2
    else if b == 0x80
    then last 1
    else if b == 0x00
    then last 0
    else broken

-- The loop over the bytes of the address.
pub mask_loop : List ℕ → ℕ → Option ℕ
unfolding mask_byte
mask_loop [] l = some l
mask_loop (b ∷ bs) l = elim (mask_byte b) [
  | whole ↦ mask_loop bs (l + 8)
  | last k ↦ some (l + k)
  | broken ↦ none
]

pub mask2prefixlen6 : List ℕ → Option ℕ
unfolding mask_loop
mask2prefixlen6 bytes = elim (mask_loop bytes 0) [
  | none ↦ none
  | some l ↦ if ltb (16 * 8) l then none else some (l % 256)
]

-- The 16 bytes that prefixlen2mask6 stores.
abbrev bytes_from : ℕ → ℕ → ℕ → List ℕ
bytes_from zero i p = []
bytes_from (suc n) i p = mask6_byte p i ∷ bytes_from n (i + 1) p

pub mask6_bytes : ℕ → List ℕ
unfolding mask6_byte
mask6_bytes prefixlen = bytes_from 16 0 (if ltb 128 prefixlen then 128 else prefixlen)

abbrev cut : ℕ → ℕ → ℕ
cut limit p = if ltb limit p then limit else p

prefixlen2mask_table : passes_all (λ p. mask2prefixlen (prefixlen2mask p) == cut 32 p) 256 ≡ true
unfolding passes_all mask2prefixlen prefixlen2mask
prefixlen2mask_table = refl

-- An IPv4 mask made from any uint8_t reads back as that prefix length, cut to 32.
pub mask2prefixlen-prefixlen2mask :
    (p : ℕ) → p < 256 → mask2prefixlen (prefixlen2mask p) ≡ (if ltb 32 p then 32 else p)
mask2prefixlen-prefixlen2mask p h = (==_iff (mask2prefixlen (prefixlen2mask p)) (cut 32 p)).0 (
    passes_all-at (λ q. mask2prefixlen (prefixlen2mask q) == cut 32 q) 256 p h prefixlen2mask_table)

abbrev reads_as : Option ℕ → ℕ → Bool
reads_as none k = false
reads_as (some l) k = l == k

reads_as→eq : (o : Option ℕ) (k : ℕ) → reads_as o k ≡ true → o ≡ some k
reads_as→eq none k h = cc
reads_as→eq (some l) k h = ground arith

mask6_table : passes_all (λ p. reads_as (mask2prefixlen6 (mask6_bytes p)) (cut 128 p)) 256 ≡ true
unfolding passes_all mask2prefixlen6 mask6_bytes
mask6_table = refl

-- An IPv6 mask made from any uint8_t reads back as that prefix length, cut to 128, and never meets
-- the fatal error for a mask with holes.
pub mask2prefixlen6-mask6_bytes :
    (p : ℕ) → p < 256 → mask2prefixlen6 (mask6_bytes p) ≡ some (if ltb 128 p then 128 else p)
mask2prefixlen6-mask6_bytes p h = reads_as→eq (mask2prefixlen6 (mask6_bytes p)) (cut 128 p) (
    passes_all-at (λ q. reads_as (mask2prefixlen6 (mask6_bytes q)) (cut 128 q)) 256 p h mask6_table)

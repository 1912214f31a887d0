-- ===== src/Addr.antt =====
-- Addresses: struct iked_addr and IKED_ADDR_NEQ of iked/iked.h, the prefix masks and sockaddr_cmp
-- of iked/util.c, and addr_cmp of iked/policy.c. The masks are those of a little-endian host.
pub mod Masked
pub mod Bytes
pub mod Prefix
pub mod Masks
use openiked_portable.Base.{
  ℕ, zero, suc, ◌+◌, ◌-◌, ◌*◌, ◌/◌, ◌%◌, ◌^◌, bit_and, Bool, true, false, ◌||◌, Option, none, some,
  ltb, leb, ◌==◌, ◌!=◌, if◌then◌else◌, ℤ, pos, negsuc, sub_ℕ, is_zero,
}

-- A socket address as sockaddr_cmp reads it: the family and four 32-bit words of the host, of
-- which an IPv4 address fills the first.
pub record Sockaddr : Type 0 where
  pub family : ℕ
  pub word0 : ℕ
  pub word1 : ℕ
  pub word2 : ℕ
  pub word3 : ℕ

pub record Addr : Type 0 where
  pub addr : Sockaddr
  pub mask : ℕ
  pub port : ℕ

abbrev pub af_unspec : ℕ
af_unspec = 0

abbrev pub af_inet : ℕ
af_inet = 2

abbrev pub af_inet6 : ℕ
af_inet6 = 10

-- htonl on a little-endian host.
unfoldable pub htonl : ℕ → ℕ
htonl x = x % 256 * 2 ^ 24 + x / 2 ^ 8 % 256 * 2 ^ 16 + x / 2 ^ 16 % 256 * 2 ^ 8 + x / 2 ^ 24 % 256

-- The parameter is a uint8_t; `0xffffffff << n` is cut to 32 bits.
unfoldable pub prefixlen2mask : ℕ → ℕ
unfolding htonl
prefixlen2mask prefixlen =
    if prefixlen == 0
    then 0
    else (let prefixlen' = if ltb 32 prefixlen then 32 else prefixlen in
        htonl (0xffff_ffff * 2 ^ (32 - prefixlen') % 2 ^ 32))

-- Byte i of the IPv6 mask: whole bytes, the partial byte `0xff00 >> i` cut to a byte, zeros.
unfoldable pub mask6_byte : ℕ → ℕ → ℕ
mask6_byte prefixlen i =
    if ltb i (prefixlen / 8)
    then 0xff
    else if i == prefixlen / 8
    then 0xff00 / 2 ^ (prefixlen % 8) % 256
    else 0

-- Word j of the mask that prefixlen2mask6 stores.
unfoldable pub prefixlen2mask6 : ℕ → ℕ → ℕ
unfolding mask6_byte
prefixlen2mask6 prefixlen j =
    let p = if ltb 128 prefixlen then 128 else prefixlen in
    mask6_byte p (4 * j)
    + mask6_byte p (4 * j + 1) * 2 ^ 8
    + mask6_byte p (4 * j + 2) * 2 ^ 16
    + mask6_byte p (4 * j + 3) * 2 ^ 24

-- `none` is the prefix length -1, for which every mask word is all ones.
unfoldable pub mask4 : Option ℕ → ℕ
mask4 none = 0xffff_ffff
mask4 (some p) = prefixlen2mask (p % 256)

unfoldable pub mask6 : Option ℕ → ℕ → ℕ
mask6 none j = 0xffff_ffff
mask6 (some p) j = prefixlen2mask6 (p % 256) j

-- Compare one masked word, and go on where the two are equal.
abbrev pub then_word : ℕ → ℕ → ℕ → ℤ → ℤ
then_word m a b rest =
    if ltb (bit_and b m) (bit_and a m)
    then pos 1
    else if ltb (bit_and a m) (bit_and b m)
    then negsuc 0
    else rest

unfoldable pub sockaddr_cmp : Sockaddr → Sockaddr → Option ℕ → ℤ
sockaddr_cmp a b prefixlen =
    if a.family == af_unspec || b.family == af_unspec
    then pos 0
    else if ltb b.family a.family
    then pos 1
    else if ltb a.family b.family
    then negsuc 0
    else if a.family == af_inet
    then then_word (mask4 prefixlen) a.word0 b.word0 (pos 0)
    else if a.family == af_inet6
    then then_word (mask6 prefixlen 3) a.word3 b.word3 (
        then_word (mask6 prefixlen 2) a.word2 b.word2 (
          then_word (mask6 prefixlen 1) a.word1 b.word1
            (then_word (mask6 prefixlen 0) a.word0 b.word0 (pos 0))))
    else pos 0

-- IKED_ADDR_NEQ
unfoldable pub addr_neq : Addr → Addr → Bool
addr_neq a b =
    a.mask != b.mask || (if is_zero (sockaddr_cmp a.addr b.addr (some a.mask)) then false else true)

unfoldable pub addr_cmp : Addr → Addr → Bool → ℤ
addr_cmp a b useports =
    let diff = sockaddr_cmp a.addr b.addr (some 128) in
    let diff' = if is_zero diff then sub_ℕ a.mask b.mask else diff in
    if is_zero diff' then (if useports then sub_ℕ a.port b.port else diff') else diff'

-- ===== src/Payload/Configuration.antt =====
-- The configuration payload: ikev2_validate_cp and ikev2_pld_cp of iked/ikev2_pld.c, with what
-- print_hex of iked/util.c reads when the daemon is verbose.
use openiked_portable.Base.{
  ℕ, zero, suc, ◌+◌, ◌-◌, ◌||◌, not, Bool, some, List, ltb, ◌==◌, if◌then◌else◌, is_some,
}
use openiked_portable.Addr.{af_inet, af_inet6}
use openiked_portable.Payload.{
  Message, CfgAddr, Cursor, Outcome, ok, failed, no_fuel, invalid, ◌>>=◌, ◌>>◌, reject_if, memcpy,
  byte, be16,
}

-- IKEV2_CFG_INTERNAL_*
abbrev pub cfg_ip4_address : ℕ
cfg_ip4_address = 1

abbrev pub cfg_ip4_dns : ℕ
cfg_ip4_dns = 3

abbrev pub cfg_ip6_address : ℕ
cfg_ip6_address = 8

abbrev pub cfg_ip6_dns : ℕ
cfg_ip6_dns = 10

-- `verbose` is log_getverbose() >= 3. The bytes are read, and their print is left out.
unfoldable pub print_hex : Bool → ℕ → ℕ → Message → Outcome (Unit {0})
unfolding memcpy
print_hex verbose offset n m =
    if not verbose || n == 0 then ok tt else (do bytes ← memcpy offset n m; ok tt)

unfoldable pub ikev2_validate_cp : ℕ → ℕ → Message → Outcome (List ℕ)
unfolding memcpy
ikev2_validate_cp offset left m = do reject_if (ltb left 4) m; memcpy offset 4 m

-- The addresses that are kept: the field is taken, and the field is set.
unfoldable pub taken : ℕ → Message → Bool
taken type m =
    if type == cfg_ip4_address
    then is_some m.cp_addr
    else if type == cfg_ip6_address
    then is_some m.cp_addr6
    else is_some m.cp_dns

unfoldable pub set_addr : ℕ → CfgAddr → Message → Message
set_addr type a m =
    if type == cfg_ip4_address
    then record m { cp_addr = some a }
    else if type == cfg_ip6_address
    then record m { cp_addr6 = some a }
    else record m { cp_dns = some a }

-- An attribute of `len` bytes at `offset` with an address of `size` bytes.
unfoldable pub store_addr : ℕ → ℕ → ℕ → ℕ → ℕ → Message → Outcome Message
unfolding taken set_addr memcpy
store_addr family size type len offset m =
    if not m.frompeer || len == 0
    then ok m
    else if ltb len size
    then failed invalid m
    else if taken type m
    then ok m
    else (do
      bytes ← memcpy offset size m
      ok (set_addr type (record { addr_af = family; addr = bytes }) m))

unfoldable pub store_cfg : ℕ → ℕ → ℕ → Message → Outcome Message
unfolding store_addr
store_cfg type len offset m =
    if type == cfg_ip4_address || type == cfg_ip4_dns
    then store_addr af_inet 4 type len offset m
    else if type == cfg_ip6_address || type == cfg_ip6_dns
    then store_addr af_inet6 16 type len offset m
    else ok m

-- An attribute. print_hex is given the pointer behind the header and the size of the header.
unfoldable pub cfg_round : Bool → Cursor → Outcome Cursor
unfolding memcpy be16 print_hex store_cfg
cfg_round verbose c = do
  reject_if (ltb c.left 4) c.msg
  cfg ← memcpy c.offset 4 c.msg
  reject_if (ltb (c.left - 4) (be16 cfg 2)) c.msg
  print_hex verbose (c.offset + 4 + 4) (be16 cfg 2) c.msg
  m ← store_cfg (be16 cfg 0) (be16 cfg 2) (c.offset + 4) c.msg
  ok (record { offset = c.offset + 4 + be16 cfg 2; left = c.left - 4 - be16 cfg 2; msg = m })

-- The loop with fuel: a round takes four bytes or more.
unfoldable pub cfg_loop : Bool → ℕ → Cursor → Outcome Message
unfolding cfg_round
cfg_loop verbose zero c = no_fuel
cfg_loop verbose (suc n) c =
    if c.left == 0 then ok c.msg else (do c' ← cfg_round verbose c; cfg_loop verbose n c')

abbrev pub set_cp : ℕ → Message → Message
set_cp type m = if m.frompeer then record m { cp = type } else m

unfoldable pub ikev2_pld_cp : Bool → ℕ → ℕ → Message → Outcome Message
unfolding ikev2_validate_cp print_hex cfg_loop byte
ikev2_pld_cp verbose offset left m = do
  cp ← ikev2_validate_cp offset left m
  print_hex verbose (offset + 4) (left - 4) m
  m' ← cfg_loop verbose (suc (left - 4)) (record { offset = offset + 4; left = left - 4; msg = m })
  ok (set_cp (byte cp 0) m')

-- ===== src/Payload/Identity.antt =====
-- Which ids ikev2_print_id of iked/ikev2.c refuses, with get_string of iked/util.c and
-- ca_asn1_name of iked/ca.c. The text that is printed is left out, but for its length.
use openiked_portable.Base.{
  ℕ, suc, ◌+◌, ◌&&◌, Bool, true, false, Option, none, some, List, [], ◌∷◌, leb, ◌==◌, ◌!=◌,
  if◌then◌else◌, length, drop,
}
use openiked_portable.Payload.{IkedId}

-- IKEV2_ID_*
abbrev pub id_ipv4 : ℕ
id_ipv4 = 1

abbrev pub id_fqdn : ℕ
id_fqdn = 2

abbrev pub id_ufqdn : ℕ
id_ufqdn = 3

abbrev pub id_ipv6 : ℕ
id_ipv6 = 5

abbrev pub id_asn1_dn : ℕ
id_asn1_dn = 9

abbrev pub iked_id_size : ℕ
iked_id_size = 1024

-- The length of get_string: the printable characters that the bytes begin with.
unfoldable pub get_string : List ℕ → ℕ
get_string [] = 0
get_string (b ∷ bs) = let rest = get_string bs in if leb 0x20 b && leb b 0x7e then suc rest else 0

-- The text of `len` characters does not fit behind the name of the type and its slash.
abbrev pub overflows : ℕ → ℕ → Bool
overflows prefix len = leb iked_id_size (prefix + len)

module _ (oneline : List ℕ → Option ℕ) where
  -- `oneline` is OpenSSL's: the length of X509_NAME_oneline, or none where d2i_X509_NAME fails.
  unfoldable pub malformed_name : List ℕ → Bool
  malformed_name bytes = elim (oneline bytes) [ none ↦ true | some len ↦ overflows 8 len ]

  -- `true` is the result -1.
  unfoldable pub ikev2_print_id : IkedId → Bool
  unfolding get_string malformed_name
  ikev2_print_id id =
      let bytes = drop id.id_offset id.id_buf in
      if leb (length id.id_buf) id.id_offset
      then true
      else if id.id_type == id_ipv4
      then length bytes != 4
      else if id.id_type == id_fqdn
      then overflows 5 (get_string bytes)
      else if id.id_type == id_ufqdn
      then overflows 6 (get_string bytes)
      else if id.id_type == id_ipv6
      then length bytes != 16
      else if id.id_type == id_asn1_dn
      then malformed_name bytes
      else false

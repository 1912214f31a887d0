-- ===== src/Payload/Transforms.antt =====
-- The transforms of a proposal and their attributes: ikev2_validate_xform, ikev2_pld_xform,
-- ikev2_validate_attr and ikev2_pld_attr of iked/ikev2_pld.c.
use openiked_portable.Base.{
  ℕ, zero, suc, ◌+◌, ◌-◌, ◌%◌, Option, none, some, List, [], ◌∷◌, leb, ltb, ◌==◌, ◌!=◌,
  if◌then◌else◌, get_elem?,
}
use openiked_portable.Proposal.{Proposal}
use openiked_portable.Proposal.Config.{unknown_type, added, config_add_transform}
use openiked_portable.Payload.{
  Message, Cursor, Round, Outcome, ok, failed, fault, no_fuel, unknown, ◌>>=◌, ◌>>◌, reject_if,
  memcpy, byte, be16,
}

unfoldable pub ikev2_validate_attr : ℕ → ℕ → Message → Outcome (List ℕ)
unfolding memcpy
ikev2_validate_attr offset total m = do reject_if (ltb total 4) m; memcpy offset 4 m

abbrev pub attrtype_key_length : ℕ
attrtype_key_length = 14

-- A type-value attribute, whose type has the bit IKEV2_ATTRAF_TV; the key length is kept.
unfoldable pub type_value : List ℕ → Cursor → Cursor
unfolding be16
type_value attr c =
    let m = c.msg in
    record {
      offset = c.offset + 4;
      left = c.left - 4;
      msg =
          if be16 attr 0 % 0x8000 == attrtype_key_length
          then record m { attrlength = be16 attr 2 }
          else m;
    }

-- A type-length-value attribute, which is skipped.
unfoldable pub type_length_value : ℕ → Cursor → Outcome Cursor
type_length_value len c = do
  reject_if (ltb len 4) c.msg
  reject_if (ltb c.left len) c.msg
  ok (record c { offset = c.offset + len; left = c.left - len })

unfoldable pub attr_round : Cursor → Outcome Cursor
unfolding ikev2_validate_attr type_value type_length_value be16
attr_round c = do
  attr ← ikev2_validate_attr c.offset c.left c.msg
  if leb 0x8000 (be16 attr 0) then ok (type_value attr c) else type_length_value (be16 attr 2) c

-- The loop with fuel: a round takes four bytes or more.
unfoldable pub attr_loop : ℕ → Cursor → Outcome Message
unfolding attr_round
attr_loop zero c = no_fuel
attr_loop (suc n) c = do c' ← attr_round c; if ltb 0 c'.left then attr_loop n c' else ok c'.msg

unfoldable pub ikev2_pld_attr : ℕ → ℕ → Message → Outcome Message
unfolding attr_loop
ikev2_pld_attr offset total m =
    attr_loop (suc total) (record { offset = offset; left = total; msg = m })

unfoldable pub ikev2_validate_xform : ℕ → ℕ → Message → Outcome (List ℕ)
unfolding memcpy be16
ikev2_validate_xform offset total m = do
  reject_if (ltb total 8) m
  xfrm ← memcpy offset 8 m
  reject_if (ltb (be16 xfrm 2) 8) m
  reject_if (ltb total (be16 xfrm 2)) m
  ok xfrm

-- The proposal at a position is replaced; a position past the end is not written to.
unfoldable pub put : List Proposal → ℕ → Proposal → List Proposal
put [] i q = []
put (p ∷ ps) zero q = q ∷ ps
put (p ∷ ps) (suc i) q = p ∷ put ps i q

-- config_add_transform on msg_prop, which is dereferenced.
unfoldable pub add_to : Option Proposal → ℕ → List ℕ → Message → Outcome Message
unfolding byte be16 config_add_transform put
add_to none i xfrm m = fault
add_to (some p) i xfrm m =
    elim (config_add_transform p.xforms (byte xfrm 4) (be16 xfrm 6) m.attrlength m.attrlength) [
      | unknown_type ↦ failed unknown m
      | added xs ↦ ok (record m { proposals = put m.proposals i (record p { xforms = xs }) })
    ]

unfoldable pub add_transform : Option ℕ → List ℕ → Message → Outcome Message
unfolding add_to
add_transform none xfrm m = fault
add_transform (some i) xfrm m = add_to (get_elem? m.proposals i) i xfrm m

abbrev pub xform_more : ℕ
xform_more = 3

abbrev pub attributes : ℕ → Cursor → Outcome Message
attributes len c =
    let m = c.msg in
    let m0 : Message = record m { attrlength = 0 } in
    if ltb 8 len then ikev2_pld_attr (c.offset + 8) (len - 8) m0 else ok m0

abbrev pub add_from_peer : List ℕ → Message → Outcome Message
add_from_peer xfrm m = if m.frompeer then add_transform m.prop xfrm m else ok m

unfoldable pub xform_round : Cursor → Outcome Round
unfolding ikev2_validate_xform ikev2_pld_attr add_transform byte be16
xform_round c = do
  xfrm ← ikev2_validate_xform c.offset c.left c.msg
  m1 ← attributes (be16 xfrm 2) c
  m2 ← add_from_peer xfrm m1
  ok (record {
    more = byte xfrm 0 == xform_more;
    at = record { offset = c.offset + be16 xfrm 2; left = c.left - be16 xfrm 2; msg = m2 };
  })

-- The loop with fuel: a round takes eight bytes or more. Bytes left at its end are an error.
unfoldable pub xform_loop : ℕ → Cursor → Outcome Message
unfolding xform_round
xform_loop zero c = no_fuel
xform_loop (suc n) c = do
  r ← xform_round c
  if r.more then xform_loop n r.at else (reject_if (r.at.left != 0) r.at.msg >> ok r.at.msg)

unfoldable pub ikev2_pld_xform : ℕ → ℕ → Message → Outcome Message
unfolding xform_loop
ikev2_pld_xform offset total m =
    xform_loop (suc total) (record { offset = offset; left = total; msg = m })

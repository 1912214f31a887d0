-- ===== src/Proposal/Config.antt =====
-- The calls of iked/config.c that build and free proposals: config_add_proposal,
-- config_free_proposals and config_add_transform. A pointer into a list is a position in it.
-- The allocations succeed, and the type, id and lengths of a transform fit into its fields, as
-- those of all callers do.
use openiked_portable.Base.{
  ℕ, ◌+◌, Bool, false, ◌&&◌, ◌||◌, List, [], ◌∷◌, ◌++◌, ◌==◌, ◌!=◌, if◌then◌else◌,
}
use openiked_portable.Proposal.{Transform, Proposal, Spi, encr, prf, integr, dh, esn}

abbrev pub zero_spi : Spi
zero_spi = record { spi = 0; spi_size = 0; spi_protoid = 0 }

abbrev pub fresh_proposal : ℕ → ℕ → Proposal
fresh_proposal id proto = record {
  id = id;
  protoid = proto;
  localspi = zero_spi;
  peerspi = zero_spi;
  xforms = [];
}

-- The list, and the position of the proposal with this id and protocol in it; it is put at the
-- end if there is none.
unfoldable pub config_add_proposal : List Proposal → ℕ → ℕ → List Proposal × ℕ
config_add_proposal [] id proto = (fresh_proposal id proto ∷ [], 0)
config_add_proposal (p ∷ ps) id proto =
    let (ps', i) = config_add_proposal ps id proto in
    if p.protoid == proto && p.id == id then (p ∷ ps, 0) else (p ∷ ps', i + 1)

unfoldable pub config_free_proposals : List Proposal → ℕ → List Proposal
config_free_proposals [] proto = []
config_free_proposals (p ∷ ps) proto =
    let rest = config_free_proposals ps proto in
    if proto != 0 && p.protoid != proto then p ∷ rest else rest

-- -2 for a type with no map of names; the other result is 0.
pub data Added : Type 0 where
  unknown_type : Added
  added : List Transform → Added

abbrev pub known_type : ℕ → Bool
known_type t = t == encr || t == prf || t == integr || t == dh || t == esn

abbrev pub has_transform : ℕ → ℕ → ℕ → List Transform → Bool
has_transform type id len [] = false
has_transform type id len (x ∷ xs) =
    x.type == type && x.id == id && x.length == len || has_transform type id len xs

abbrev pub step_score : ℕ → ℕ
step_score type = if type == encr || type == integr then 3 else if type == dh then 2 else 1

-- The score of a new transform, from those of its type that stand before it.
unfoldable pub next_score : ℕ → List Transform → ℕ → ℕ
next_score type [] score = score
next_score type (x ∷ xs) score =
    next_score type xs (if x.type == type then score + step_score type else score)

unfoldable pub config_add_transform : List Transform → ℕ → ℕ → ℕ → ℕ → Added
unfolding next_score
config_add_transform xs type id len keylen =
    if known_type type
    then if has_transform type id len xs
      then added xs
      else added (
          xs
          ++ (record {
            type = type;
            id = id;
            length = len;
            keylength = keylen;
            score = next_score type xs 1;
          }
              ∷ []))
    else unknown_type

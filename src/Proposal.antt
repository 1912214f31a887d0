-- ===== src/Proposal.antt =====
-- Proposals: struct iked_transform and struct iked_proposal of iked/iked.h and iked/types.h,
-- proposals_match and proposals_negotiate of iked/policy.c, encxf_noauth of iked/parse.y, and
-- the calls of iked/config.c that build a proposal (Proposal/Config).
-- An array over the transform types is a function; the int group is `none` where it is negative.
-- calloc and reallocarray succeed.
pub mod Config
pub mod Agreed
pub mod Loop
pub mod Best
pub mod Complete
pub mod Scores
pub mod Negotiate
pub mod Required
pub mod Result
use openiked_portable.Base.{
  ℕ, zero, suc, ◌+◌, ◌%◌, ◌^◌, Bool, true, false, ◌&&◌, ◌||◌, not, Option, none, some, List, [],
  ◌∷◌, is_some, ltb, leb, ◌==◌, ◌!=◌, if◌then◌else◌,
}

pub record Transform : Type 0 where
  pub type : ℕ
  pub id : ℕ
  pub length : ℕ
  pub keylength : ℕ
  pub score : ℕ

pub record Spi : Type 0 where
  pub spi : ℕ
  pub spi_size : ℕ
  pub spi_protoid : ℕ

pub record Proposal : Type 0 where
  pub id : ℕ
  pub protoid : ℕ
  pub localspi : Spi
  pub peerspi : Spi
  pub xforms : List Transform

-- IKEV2_SAPROTO_* and IKEV2_XFORMTYPE_*
abbrev pub proto_ike : ℕ
proto_ike = 1

abbrev pub proto_ah : ℕ
proto_ah = 2

abbrev pub proto_esp : ℕ
proto_esp = 3

abbrev pub encr : ℕ
encr = 1

abbrev pub prf : ℕ
prf = 2

abbrev pub integr : ℕ
integr = 3

abbrev pub dh : ℕ
dh = 4

abbrev pub esn : ℕ
esn = 5

abbrev pub xformtype_max : ℕ
xformtype_max = 6

abbrev pub xformdh_none : ℕ
xformdh_none = 0

-- One row of struct ipsec_xf: its id and its noauth flag.
pub record IpsecXf : Type 0 where
  pub id : ℕ
  pub noauth : Bool

abbrev xf : ℕ → Bool → IpsecXf
xf i n = record { id = i; noauth = n }

-- The rows of ikeencxfs: 3DES twice, AES-CBC thrice, AES-GCM-16 twice, AES-GCM-12 twice.
abbrev ikeencxfs : List IpsecXf
ikeencxfs =
    xf 3 false
    ∷ xf 3 false
    ∷ xf 12 false
    ∷ xf 12 false
    ∷ xf 12 false
    ∷ xf 20 true
    ∷ xf 20 true
    ∷ xf 19 true
    ∷ xf 19 true
    ∷ []

find_noauth : ℕ → List IpsecXf → Bool
find_noauth id [] = false
find_noauth id (x ∷ xs) = if x.id == id then x.noauth else find_noauth id xs

unfoldable pub encxf_noauth : ℕ → Bool
unfolding find_noauth
encxf_noauth id = find_noauth id ikeencxfs

-- What proposals_match keeps while it goes through the transforms of the two proposals.
pub record Match : Type 0 where
  pub xforms : ℕ → Option Transform
  pub peerxfs : ℕ → Bool
  pub requiredh : Bool
  pub nodh : Bool
  pub dhforced : Bool

abbrev pub set_at : {A : Type 0} → (ℕ → A) → ℕ → A → ℕ → A
set_at f i v j = if j == i then v else f j

abbrev pub start : Match
start = record {
  xforms = λ i. none;
  peerxfs = λ i. false;
  requiredh = false;
  nodh = false;
  dhforced = false;
}

-- Take the local transform if none of its type is chosen yet, or one with a larger score.
unfoldable pub choose : Transform → Match → Match
choose t m =
    let m' : Match = record m { xforms = set_at m.xforms t.type (some t) } in
    elim (m.xforms t.type) [ none ↦ m' | some c ↦ if ltb t.score c.score then m' else m ]

-- The group that is asked for: it takes the place of what was chosen, and no DH transform after
-- it is looked at.
unfoldable pub choose_group : ℕ → Transform → Match → Match
unfolding choose
choose_group group t m =
    if m.dhforced
    then m
    else choose t (
        if t.id == group
        then record m { xforms = set_at m.xforms t.type none; dhforced = true }
        else m)

abbrev pub same_transform : Transform → Transform → Bool
same_transform a b = a.type == b.type && a.id == b.id && a.length == b.length

-- requiredh and nodh, set by the local DH transforms when a Child SA is rekeyed.
unfoldable pub note_dh : Bool → ℕ → Transform → Match → Match
note_dh rekey protoid tlocal m =
    let applies = rekey && protoid == proto_esp && tlocal.type == dh in
    record m {
      requiredh = m.requiredh || (applies && tlocal.id != xformdh_none);
      nodh = m.nodh || (applies && tlocal.id == xformdh_none);
    }

unfoldable pub compare_pair : Option ℕ → Transform → Transform → Match → Match
unfolding choose choose_group
compare_pair dhgroup tpeer tlocal m =
    if same_transform tpeer tlocal
    then elim dhgroup [
      | none ↦ choose tlocal m
      | some g ↦ if not m.nodh && tpeer.type == dh then choose_group g tlocal m else choose tlocal m
    ]
    else m

-- The inner loop, over the local transforms.
unfoldable pub local_loop : Bool → ℕ → Option ℕ → Transform → List Transform → Match → Match
local_loop rekey protoid dhgroup tpeer [] m = m
local_loop rekey protoid dhgroup tpeer (t ∷ ts) m =
    local_loop rekey protoid dhgroup tpeer ts
      (compare_pair dhgroup tpeer t (note_dh rekey protoid t m))

-- The outer loop, over the peer's transforms; `none` is the early return of score 0.
unfoldable pub peer_loop :
    Bool → ℕ → Option ℕ → Bool → List Transform → List Transform → Match → Option Match
peer_loop rekey protoid dhgroup noauth locals [] m = some m
peer_loop rekey protoid dhgroup noauth locals (t ∷ ts) m =
    let seen : Match = record m { peerxfs = set_at m.peerxfs t.type true } in
    let next =
      peer_loop rekey protoid dhgroup noauth locals ts
        (local_loop rekey protoid dhgroup t locals seen) in
    let skipped = peer_loop rekey protoid dhgroup noauth locals ts m in
    if leb xformtype_max t.type then skipped else if noauth && t.type == integr then none else next

-- The first loop: is one of the peer's ENCR transforms an AEAD?
unfoldable pub any_noauth : List Transform → Bool
any_noauth [] = false
any_noauth (t ∷ ts) = (t.type == encr && encxf_noauth t.id) || any_noauth ts

-- The branches of the last loop that end it with score 0.
unfoldable pub lacks : ℕ → Bool → Match → ℕ → Bool
lacks protoid noauth m i =
    if protoid == proto_ike
      && not (is_some (m.xforms i))
      && (i == encr || i == prf || (not noauth && i == integr) || i == dh)
    then true
    else if protoid == proto_ah && not (is_some (m.xforms i)) && (i == integr || i == esn)
    then true
    else if protoid == proto_esp
        && not (is_some (m.xforms i))
        && (i == encr || i == esn || (m.requiredh && not m.nodh && i == dh))
    then true
    else m.peerxfs i && not (is_some (m.xforms i))

abbrev pub score_of : Option Transform → ℕ
score_of none = 0
score_of (some t) = t.score

-- The last loop, with the number of types left; score is an unsigned int.
unfoldable pub tally : ℕ → Bool → Match → ℕ → ℕ → ℕ → ℕ
tally protoid noauth m zero i score = score
tally protoid noauth m (suc n) i score =
    let rest = tally protoid noauth m n (i + 1) ((score + score_of (m.xforms i)) % 2 ^ 32) in
    if lacks protoid noauth m i then 0 else rest

pub record Matched : Type 0 where
  pub score : ℕ
  pub xforms : ℕ → Option Transform

unfoldable pub proposals_match : Proposal → Proposal → Bool → Option ℕ → Matched
proposals_match local peer rekey dhgroup =
    let noauth = any_noauth peer.xforms in
    elim (peer_loop rekey peer.protoid dhgroup noauth local.xforms peer.xforms start) [
      | none ↦ record { score = 0; xforms = λ i. none }
      | some m ↦ record { score = tally peer.protoid noauth m xformtype_max 0 0; xforms = m.xforms }
    ]

-- What proposals_negotiate remembers: chosen_score (never 0 here), valid, vlocal and vpeer.
pub record Choice : Type 0 where
  pub score : ℕ
  pub valid : ℕ → Option Transform
  pub vlocal : Proposal
  pub vpeer : Proposal

unfoldable pub better : ℕ → Option Choice → Bool
better score none = true
better score (some c) = ltb score c.score

unfoldable pub try_peer : Bool → Option ℕ → Proposal → Proposal → Option Choice → Option Choice
unfolding better
try_peer rekey groupid plocal ppeer chosen =
    if ppeer.protoid != plocal.protoid
    then chosen
    else (let m = proposals_match plocal ppeer rekey groupid in
        if m.score != 0 && better m.score chosen
        then some (record { score = m.score; valid = m.xforms; vlocal = plocal; vpeer = ppeer })
        else chosen)

unfoldable pub peers_loop :
    Bool → Option ℕ → Proposal → List Proposal → Option Choice → Option Choice
peers_loop rekey groupid plocal [] chosen = chosen
peers_loop rekey groupid plocal (p ∷ ps) chosen =
    peers_loop rekey groupid plocal ps (try_peer rekey groupid plocal p chosen)

-- The local proposals in order; the first with a match ends the loop.
unfoldable pub locals_loop : Bool → Option ℕ → List Proposal → List Proposal → Option Choice
locals_loop rekey groupid [] peers = none
locals_loop rekey groupid (l ∷ ls) peers = elim (peers_loop rekey groupid l peers none) [
  | none ↦ locals_loop rekey groupid ls peers
  | some c ↦ some c
]

-- `none` is the return value -1. An empty peer list is answered so by the loops too, and the
-- test of it comes first as in the code.
unfoldable pub proposals_negotiate : List Proposal → List Proposal → Bool → Option ℕ → Option Choice
proposals_negotiate local [] rekey groupid = none
proposals_negotiate local (p ∷ ps) rekey groupid = locals_loop rekey groupid local (p ∷ ps)

-- ===== src/Tests/Proposal.antt =====
-- Proposals.
use openiked_portable.Base.{
  ℕ, ◌≡◌, ◌≢◌, refl, Bool, true, false, Option, none, some, List, [], ◌∷◌, arith, inl, inr, is_some,
  ◌==◌, if◌then◌else◌,
}
use openiked_portable.Proposal.{
  Transform, Proposal, Choice, proposals_match, proposals_negotiate, encr, prf, integr, dh, esn,
  proto_ike, proto_esp, encxf_noauth, compare_pair, note_dh, local_loop, peer_loop, any_noauth,
  lacks, tally,
}
use openiked_portable.Proposal.Agreed.{IsAgreed, proposals_match-Agreed}
use openiked_portable.Proposal.Required.{
  IsComplete, proposals_match-IsComplete, proposals_match_pfs, proposals_match_aead,
}
use openiked_portable.Proposal.Best.{
  AtMost, HasGroup, proposals_match-AtMost, proposals_match-HasGroup,
}
use openiked_portable.Proposal.Negotiate.{Outcome, proposals_negotiate-Outcome}
use openiked_portable.Proposal.Config.{config_add_transform, zero_spi, known_type, next_score}
use openiked_portable.Proposal.Result.{store_result, Stores, others, store_result-Stores}
use openiked_portable.Proposal.Scores.{IsRanked, IsRising, config_add_transform_ranks}

abbrev xform : ℕ → ℕ → ℕ → ℕ → Transform
xform t i l s = record { type = t; id = i; length = l; keylength = l; score = s }

abbrev proposal : ℕ → ℕ → List Transform → Proposal
proposal n p xs = record {
  id = n;
  protoid = p;
  localspi = zero_spi;
  peerspi = zero_spi;
  xforms = xs;
}

-- IKE: AES-CBC-256, HMAC-SHA2-256, SHA2-256-128, and the groups 31 and 19.
abbrev ike_local : Proposal
ike_local = proposal 1 proto_ike (
    xform encr 12 256 1
    ∷ xform prf 5 0 1
    ∷ xform integr 12 0 1
    ∷ xform dh 31 0 1
    ∷ xform dh 19 0 3
    ∷ [])

abbrev ike_peer : Proposal
ike_peer = proposal 1 proto_ike (
    xform dh 19 0 1
    ∷ xform dh 31 0 3
    ∷ xform encr 12 256 1
    ∷ xform integr 12 0 1
    ∷ xform prf 5 0 1
    ∷ [])

-- The whole of proposals_match, opened for the runs.
abbrev score_of_run : Proposal → Proposal → Bool → Option ℕ → ℕ
score_of_run l p rekey g = (proposals_match l p rekey g).score

ike_score : score_of_run ike_local ike_peer false none ≡ 4
unfolding proposals_match peer_loop local_loop compare_pair note_dh lacks tally any_noauth
    encxf_noauth
ike_score = refl

ike_matched : score_of_run ike_local ike_peer false none ≢ 0
ike_matched e = absurd (omega (arith, ike_score))

proposals_match-Agreed_example :
    IsAgreed ike_local.xforms ike_peer.xforms (proposals_match ike_local ike_peer false none).xforms
proposals_match-Agreed_example = proposals_match-Agreed ike_local ike_peer false none

proposals_match-IsComplete_example :
    IsComplete ike_peer (proposals_match ike_local ike_peer false none).xforms
proposals_match-IsComplete_example =
    proposals_match-IsComplete ike_local ike_peer false none ike_matched

-- Of the two groups that both sides propose, 31 is the local favourite.
proposals_match-AtMost_example : AtMost (proposals_match ike_local ike_peer false none).xforms dh 1
proposals_match-AtMost_example =
    proposals_match-AtMost ike_local ike_peer false (xform dh 31 0 1) (xform dh 31 0 3)
      (inr (inr (inr (inl refl)))) (inr (inl refl)) (omega arith) refl ike_matched

-- Group 19 is asked for, though the local side likes 31 better.
group_score : score_of_run ike_local ike_peer true (some 19) ≡ 6
unfolding proposals_match peer_loop local_loop compare_pair note_dh lacks tally any_noauth
    encxf_noauth
group_score = refl

group_matched : score_of_run ike_local ike_peer true (some 19) ≢ 0
group_matched e = absurd (omega (arith, group_score))

proposals_match-HasGroup_example :
    HasGroup (proposals_match ike_local ike_peer true (some 19)).xforms 19
proposals_match-HasGroup_example =
    proposals_match-HasGroup ike_local ike_peer true 19 (xform dh 19 0 3) (xform dh 19 0 1)
      (refl, (refl, (refl, (refl, (refl, tt))))) (inr (inr (inr (inr (inl refl))))) (inl refl) refl
      refl refl group_matched

-- ESP with AES-GCM-16 and group 31, rekeyed; the second peer leaves the group out.
abbrev esp_local : Proposal
esp_local = proposal 1 proto_esp (xform encr 20 256 1 ∷ xform dh 31 0 1 ∷ xform esn 1 0 1 ∷ [])

abbrev esp_no_group : Proposal
esp_no_group = proposal 2 proto_esp (xform encr 20 256 1 ∷ xform esn 1 0 1 ∷ [])

esp_score : score_of_run esp_local esp_local true none ≡ 3
unfolding proposals_match peer_loop local_loop compare_pair note_dh lacks tally any_noauth
    encxf_noauth
esp_score = refl

esp_matched : score_of_run esp_local esp_local true none ≢ 0
esp_matched e = absurd (omega (arith, esp_score))

-- Without the group there is no match when a Child SA is rekeyed, and one at the first exchange.
esp_rekey_needs_group : score_of_run esp_local esp_no_group true none ≡ 0
unfolding proposals_match peer_loop local_loop compare_pair note_dh lacks tally any_noauth
    encxf_noauth
esp_rekey_needs_group = refl

esp_first_exchange : score_of_run esp_local esp_no_group false none ≡ 2
unfolding proposals_match peer_loop local_loop compare_pair note_dh lacks tally any_noauth
    encxf_noauth
esp_first_exchange = refl

proposals_match_pfs_example :
    is_some ((proposals_match esp_local esp_local true none).xforms dh) ≡ true
proposals_match_pfs_example =
    proposals_match_pfs esp_local esp_local true none (xform dh 31 0 1) (xform encr 20 256 1) refl
      refl (inr (inl refl)) refl (refl, (refl, (refl, tt))) (inl refl) (omega arith) esp_matched

-- An AEAD with an INTEGR transform.
abbrev esp_mixed : Proposal
esp_mixed = proposal 3 proto_esp (xform encr 20 256 1 ∷ xform integr 12 0 1 ∷ xform esn 1 0 1 ∷ [])

mixed_noauth : any_noauth esp_mixed.xforms ≡ true
unfolding any_noauth encxf_noauth
mixed_noauth = refl

proposals_match_aead_example : score_of_run esp_local esp_mixed false none ≡ 0
proposals_match_aead_example =
    proposals_match_aead esp_local esp_mixed false none (xform integr 12 0 1) mixed_noauth
      (inr (inl refl)) refl

proposals_negotiate-Outcome_example :
    Outcome true none (esp_no_group ∷ esp_local ∷ []) (esp_local ∷ esp_no_group ∷ []) (
      proposals_negotiate (esp_local ∷ esp_no_group ∷ []) (esp_no_group ∷ esp_local ∷ []) true none)
proposals_negotiate-Outcome_example =
    proposals_negotiate-Outcome true none (esp_local ∷ esp_no_group ∷ [])
      (esp_no_group ∷ esp_local ∷ [])

-- A choice of two transforms, stored over an old ESP proposal and beside an IKE one.
abbrev picks : ℕ → Option Transform
picks i =
    if i == encr
    then some (xform encr 20 256 7)
    else if i == esn
    then some (xform esn 1 0 2)
    else none

abbrev choice : Choice
choice = record { score = 9; valid = picks; vlocal = esp_local; vpeer = esp_no_group }

picks_known : (j : ℕ) (t : Transform) → picks j ≡ some t → (t.type ≡ j) × (known_type j ≡ true)
picks_known j t e = ground arith

store_result-Stores_example :
    Stores (esp_local ∷ ike_local ∷ []) choice (store_result (esp_local ∷ ike_local ∷ []) choice)
store_result-Stores_example =
    store_result-Stores (esp_local ∷ ike_local ∷ []) choice (omega arith) picks_known

ike_stays : others (esp_local ∷ ike_local ∷ []) choice.vpeer.protoid ≡ ike_local ∷ []
ike_stays = refl

abbrev groups : List Transform
groups = xform dh 31 0 1 ∷ []

groups-IsRanked : IsRanked groups
unfolding next_score
groups-IsRanked = record { graded = (refl, tt); distinct = (tt, tt); known = (refl, tt) }

config_add_transform_ranks_example :
    IsRanked (xform dh 31 0 1 ∷ xform dh 19 0 3 ∷ [])
    × IsRising (xform dh 31 0 1 ∷ xform dh 19 0 3 ∷ [])
unfolding config_add_transform
config_add_transform_ranks_example =
    config_add_transform_ranks groups (xform dh 31 0 1 ∷ xform dh 19 0 3 ∷ []) dh 19 0 0
      groups-IsRanked refl

-- ===== src/Proposal/Complete.antt =====
-- Non-zero scores of proposals_match of iked/policy.c: the loop over the transform types.
use openiked_portable.Base.{
  ℕ, zero, suc, ◌+◌, ◌≤◌, ◌<◌, ◌≡◌, ◌≢◌, refl, Bool, true, false, ◌&&◌, Option, some, List, All,
  Among, inl, inr, arith, ◌==◌, ◌!=◌, ◌%◌, ◌^◌, All-at, ◌∙◌, Option-cases,
}
use openiked_portable.Proposal.{
  Transform, Proposal, Match, note_dh, compare_pair, peer_loop, proposals_match, set_at, dh,
  xformtype_max, xformdh_none, proto_esp, start, any_noauth, lacks, tally, score_of,
}
use openiked_portable.Proposal.Loop.{round, local_loop_rule, local_loop_sets}

tally-lacks :
    (protoid : ℕ) (noauth : Bool) (m : Match) (n i score j : ℕ)
    → tally protoid noauth m n i score ≢ 0
    → i ≤ j
    → j < i + n
    → lacks protoid noauth m j ≡ false
unfolding tally
tally-lacks protoid noauth m zero i score j h lo hi = absurd (omega arith)
tally-lacks protoid noauth m (suc n) i score j h lo hi =
    ground
      (arith, tally-lacks protoid noauth m n (i + 1) ((score + score_of (m.xforms i)) % 2 ^ 32) j)

-- Choosing a transform leaves the DH flags and the record of the peer's types alone.
compare_pair_fields :
    (dhgroup : Option ℕ) (p t : Transform) (m : Match)
    → ((compare_pair dhgroup p t m).requiredh ≡ m.requiredh)
      × ((compare_pair dhgroup p t m).nodh ≡ m.nodh)
      × ((compare_pair dhgroup p t m).peerxfs ≡ m.peerxfs)
unfolding compare_pair
compare_pair_fields dhgroup p t m = ground arith

abbrev pub asks_group : Transform → Bool
asks_group t = t.type == dh && t.id != xformdh_none

abbrev pub is_none_group : Transform → Bool
is_none_group t = t.type == dh && t.id == xformdh_none

module _ (rekey : Bool) (protoid : ℕ) (dhgroup : Option ℕ) where
  abbrev pass : Transform → Transform → Match → Match
  pass p t m = compare_pair dhgroup p t (note_dh rekey protoid t m)

  pass_peerxfs : (p t : Transform) (m : Match) → (pass p t m).peerxfs ≡ m.peerxfs
  unfolding note_dh
  pass_peerxfs p t m = (compare_pair_fields dhgroup p t (note_dh rekey protoid t m)).2

  pass_keeps_requiredh :
      (p t : Transform) (m : Match) → m.requiredh ≡ true → (pass p t m).requiredh ≡ true
  unfolding note_dh
  pass_keeps_requiredh p t m h =
      ground (arith, compare_pair_fields dhgroup p t (note_dh rekey protoid t m))

  pass_sets_requiredh :
      (p t : Transform) (m : Match)
      → rekey ≡ true
      → protoid ≡ proto_esp
      → asks_group t ≡ true
      → (pass p t m).requiredh ≡ true
  unfolding note_dh
  pass_sets_requiredh p t m r e a =
      ground (arith, compare_pair_fields dhgroup p t (note_dh rekey protoid t m))

  pass_nodh :
      (p t : Transform) (m : Match)
      → is_none_group t ≡ false
      → m.nodh ≡ false
      → (pass p t m).nodh ≡ false
  unfolding note_dh
  pass_nodh p t m n h = ground (arith, compare_pair_fields dhgroup p t (note_dh rekey protoid t m))

module _ (rekey : Bool) (protoid : ℕ) (dhgroup : Option ℕ) (noauth : Bool)
    (ls : List Transform) where
  abbrev pub turn : Transform → Match → Match
  turn = round rekey protoid dhgroup noauth ls

  pub turn_peerxfs : (p : Transform) (m : Match) → (turn p m).peerxfs ≡ set_at m.peerxfs p.type true
  turn_peerxfs p m =
      local_loop_rule rekey protoid dhgroup noauth ls
        (λ m'. m'.peerxfs ≡ set_at m.peerxfs p.type true) p ls _
        (λ t m' a h. pass_peerxfs rekey protoid dhgroup p t m' ∙ h) refl

  pub turn_keeps_peerxfs :
      (i : ℕ) (p : Transform) (m : Match) → m.peerxfs i ≡ true → (turn p m).peerxfs i ≡ true
  turn_keeps_peerxfs i p m h = rw (turn_peerxfs p m) (ground arith)

  pub turn_sets_peerxfs : (p : Transform) (m : Match) → (turn p m).peerxfs p.type ≡ true
  turn_sets_peerxfs p m = rw (turn_peerxfs p m) (ground arith)

  pub turn_keeps_requiredh :
      (p : Transform) (m : Match) → m.requiredh ≡ true → (turn p m).requiredh ≡ true
  turn_keeps_requiredh p m h =
      local_loop_rule rekey protoid dhgroup noauth ls (λ m'. m'.requiredh ≡ true) p ls _
        (λ t m' a k. pass_keeps_requiredh rekey protoid dhgroup p t m' k) h

  pub turn_sets_requiredh :
      (p t : Transform) (m : Match)
      → rekey ≡ true
      → protoid ≡ proto_esp
      → Among t ls
      → asks_group t ≡ true
      → (turn p m).requiredh ≡ true
  turn_sets_requiredh p t m r e a g =
      local_loop_sets rekey protoid dhgroup noauth ls (λ m'. Unit {0}) (λ m'. m'.requiredh ≡ true) p
        t ls _ (λ u m' b k. tt) (λ u m' b k. pass_keeps_requiredh rekey protoid dhgroup p u m' k)
        (λ m' k. pass_sets_requiredh rekey protoid dhgroup p t m' r e g) a tt

  pub turn_nodh :
      (p : Transform) (m : Match)
      → All (λ t. is_none_group t ≡ false) ls
      → m.nodh ≡ false
      → (turn p m).nodh ≡ false
  turn_nodh p m all h =
      local_loop_rule rekey protoid dhgroup noauth ls (λ m'. m'.nodh ≡ false) p ls _
        (λ t m' a k.
          pass_nodh rekey protoid dhgroup p t m' (All-at (λ u. is_none_group u ≡ false) ls t all a)
            k)
        h

-- The scored result of proposals_match comes from a run of the loops in which no type is lacking.
pub scored :
    (local peer : Proposal) (rekey : Bool) (dhgroup : Option ℕ)
    → (proposals_match local peer rekey dhgroup).score ≢ 0
    → (m : Match) × (peer_loop rekey peer.protoid dhgroup
          (any_noauth peer.xforms)
          local.xforms
          peer.xforms
          start
        ≡ some m)
      × ((proposals_match local peer rekey dhgroup).xforms ≡ m.xforms)
      × ((j : ℕ) → j < xformtype_max → lacks peer.protoid (any_noauth peer.xforms) m j ≡ false)
unfolding proposals_match
scored local peer rekey dhgroup h =
    elim (Option-cases (
      peer_loop rekey peer.protoid dhgroup (any_noauth peer.xforms) local.xforms peer.xforms
        start)) [
          | inl e ↦ absurd (h (rw (e, proposals_match)))
          | inr (m, e) ↦ (
            m,
            e,
            rw (e, proposals_match),
            λ j k.
                tally-lacks peer.protoid (any_noauth peer.xforms) m xformtype_max 0 0 j
                  (rw (e, proposals_match) at h) (omega arith) (omega arith),
          )
        ]

-- ===== src/Proposal/Required.antt =====
-- The transform types that a match of proposals_match of iked/policy.c has to have.
use openiked_portable.Base.{
  ℕ, ◌<◌, ◌≡◌, ◌≢◌, refl, Bool, true, false, Option, All, Among, arith, is_some, subst, option_rule,
  ◌⊎◌,
}
use openiked_portable.Proposal.{
  Transform, Proposal, Match, Matched, proposals_match, encr, prf, integr, dh, esn, xformtype_max,
  proto_ike, proto_ah, proto_esp, start, any_noauth, lacks,
}
use openiked_portable.Proposal.Loop.{Holds, peer_loop_rule, peer_loop_sets, peer_loop-no_integr}
use openiked_portable.Proposal.Complete.{
  scored, asks_group, is_none_group, turn_keeps_peerxfs, turn_sets_peerxfs, turn_keeps_requiredh,
  turn_sets_requiredh, turn_nodh,
}

-- Nothing is missing: a choice for each type that the peer proposed, and those that the protocol
-- needs. An AEAD stands in for the INTEGR transform of an IKE SA.
pub record IsComplete (peer : Proposal) (xs : ℕ → Option Transform) : Type 0 where
  pub offered :
      (p : Transform) → Among p peer.xforms → p.type < xformtype_max → is_some (xs p.type) ≡ true
  pub ike_encr : peer.protoid ≡ proto_ike → is_some (xs encr) ≡ true
  pub ike_prf : peer.protoid ≡ proto_ike → is_some (xs prf) ≡ true
  pub ike_dh : peer.protoid ≡ proto_ike → is_some (xs dh) ≡ true
  pub ike_integr :
      peer.protoid ≡ proto_ike → any_noauth peer.xforms ≡ false → is_some (xs integr) ≡ true
  pub ah_integr : peer.protoid ≡ proto_ah → is_some (xs integr) ≡ true
  pub ah_esn : peer.protoid ≡ proto_ah → is_some (xs esn) ≡ true
  pub esp_encr : peer.protoid ≡ proto_esp → is_some (xs encr) ≡ true
  pub esp_esn : peer.protoid ≡ proto_esp → is_some (xs esn) ≡ true

module _ (protoid : ℕ) (noauth : Bool) (m : Match) where
  lacks_offered :
      (i : ℕ) → lacks protoid noauth m i ≡ false → m.peerxfs i ≡ true → is_some (m.xforms i) ≡ true
  unfolding lacks
  lacks_offered i h p = ground arith

  lacks_ike :
      (i : ℕ)
      → lacks protoid noauth m i ≡ false
      → protoid ≡ proto_ike
      → (i ≡ encr) ⊎ (i ≡ prf) ⊎ (i ≡ dh)
      → is_some (m.xforms i) ≡ true
  unfolding lacks
  lacks_ike i h p c = ground arith

  lacks_ike_integr :
      lacks protoid noauth m integr ≡ false
      → protoid ≡ proto_ike
      → noauth ≡ false
      → is_some (m.xforms integr) ≡ true
  unfolding lacks
  lacks_ike_integr h p n = ground arith

  lacks_ah :
      (i : ℕ)
      → lacks protoid noauth m i ≡ false
      → protoid ≡ proto_ah
      → (i ≡ integr) ⊎ (i ≡ esn)
      → is_some (m.xforms i) ≡ true
  unfolding lacks
  lacks_ah i h p c = ground arith

  lacks_esp :
      (i : ℕ)
      → lacks protoid noauth m i ≡ false
      → protoid ≡ proto_esp
      → (i ≡ encr) ⊎ (i ≡ esn)
      → is_some (m.xforms i) ≡ true
  unfolding lacks
  lacks_esp i h p c = ground arith

  lacks_esp_dh :
      lacks protoid noauth m dh ≡ false
      → protoid ≡ proto_esp
      → m.requiredh ≡ true
      → m.nodh ≡ false
      → is_some (m.xforms dh) ≡ true
  unfolding lacks
  lacks_esp_dh h p r n = ground arith

IsComplete-scored :
    (peer : Proposal) (m : Match)
    → ((j : ℕ) → j < xformtype_max → lacks peer.protoid (any_noauth peer.xforms) m j ≡ false)
    → ((p : Transform) → Among p peer.xforms → p.type < xformtype_max → m.peerxfs p.type ≡ true)
    → IsComplete peer m.xforms
IsComplete-scored peer m none_lacking seen =
    let na = any_noauth peer.xforms in
    let q = peer.protoid in
    record {
      offered = λ p a t. lacks_offered q na m p.type (none_lacking p.type t) (seen p a t);
      ike_encr = λ e. lacks_ike q na m encr (none_lacking encr (omega arith)) e (omega arith);
      ike_prf = λ e. lacks_ike q na m prf (none_lacking prf (omega arith)) e (omega arith);
      ike_dh = λ e. lacks_ike q na m dh (none_lacking dh (omega arith)) e (omega arith);
      ike_integr = λ e n. lacks_ike_integr q na m (none_lacking integr (omega arith)) e n;
      ah_integr = λ e. lacks_ah q na m integr (none_lacking integr (omega arith)) e (omega arith);
      ah_esn = λ e. lacks_ah q na m esn (none_lacking esn (omega arith)) e (omega arith);
      esp_encr = λ e. lacks_esp q na m encr (none_lacking encr (omega arith)) e (omega arith);
      esp_esn = λ e. lacks_esp q na m esn (none_lacking esn (omega arith)) e (omega arith);
    }

module _ (local peer : Proposal) (rekey : Bool) (dhgroup : Option ℕ) where
  -- A match with a non-zero score leaves out no transform type that the peer proposed, and none
  -- that the protocol needs: ENCR, PRF, DH and (but for an AEAD) INTEGR for IKE, INTEGR and ESN
  -- for AH, ENCR and ESN for ESP.
  pub proposals_match-IsComplete :
      (proposals_match local peer rekey dhgroup).score ≢ 0
      → IsComplete peer (proposals_match local peer rekey dhgroup).xforms
  proposals_match-IsComplete h =
      let (m, ran, chosen, none_lacking) = scored local peer rekey dhgroup h in
      let na = any_noauth peer.xforms in
      rw chosen (
        IsComplete-scored peer m none_lacking λ p a t.
          subst (Holds (λ m'. m'.peerxfs p.type ≡ true)) ran (
            peer_loop_sets rekey peer.protoid dhgroup na local.xforms (λ m'. Unit {0})
              (λ m'. m'.peerxfs p.type ≡ true) peer.xforms start p (λ q m' k. tt)
              (turn_keeps_peerxfs rekey peer.protoid dhgroup na local.xforms p.type)
              (λ m' k. turn_sets_peerxfs rekey peer.protoid dhgroup na local.xforms p m') a t tt))

  -- Perfect forward secrecy: when an ESP SA is rekeyed, a local proposal with a DH group and
  -- without the group NONE matches a peer's proposal (with a transform of a known type) only
  -- with a DH transform.
  pub proposals_match_pfs :
      (t p : Transform)
      → rekey ≡ true
      → peer.protoid ≡ proto_esp
      → Among t local.xforms
      → asks_group t ≡ true
      → All (λ u. is_none_group u ≡ false) local.xforms
      → Among p peer.xforms
      → p.type < xformtype_max
      → (proposals_match local peer rekey dhgroup).score ≢ 0
      → is_some ((proposals_match local peer rekey dhgroup).xforms dh) ≡ true
  proposals_match_pfs t p r e a g all b u h =
      let (m, ran, chosen, none_lacking) = scored local peer rekey dhgroup h in
      let na = any_noauth peer.xforms in
      rw chosen (
        lacks_esp_dh peer.protoid na m (none_lacking dh (omega arith)) e
          (subst (Holds (λ m'. m'.requiredh ≡ true)) ran (
            peer_loop_sets rekey peer.protoid dhgroup na local.xforms (λ m'. Unit {0})
              (λ m'. m'.requiredh ≡ true) peer.xforms start p (λ q m' k. tt)
              (turn_keeps_requiredh rekey peer.protoid dhgroup na local.xforms)
              (λ m' k.
                turn_sets_requiredh rekey peer.protoid dhgroup na local.xforms p t m' r e a g)
              b u tt))
          (subst (Holds (λ m'. m'.nodh ≡ false)) ran (
            peer_loop_rule rekey peer.protoid dhgroup na local.xforms (λ m'. m'.nodh ≡ false)
              peer.xforms start
              (λ q m' c v k. turn_nodh rekey peer.protoid dhgroup na local.xforms q m' all k)
              refl)))

  -- A peer's proposal that joins an AEAD with an INTEGR transform never matches.
  pub proposals_match_aead :
      (p : Transform)
      → any_noauth peer.xforms ≡ true
      → Among p peer.xforms
      → p.type ≡ integr
      → (proposals_match local peer rekey dhgroup).score ≡ 0
  unfolding proposals_match
  proposals_match_aead p na a e =
      let noauth = any_noauth peer.xforms in
      option_rule (λ (r : Matched). r.score ≡ 0) _ _ _ (λ q. refl)
        λ m q. absurd (
          subst (Holds (λ m'. p.type ≢ integr)) q
            (peer_loop-no_integr rekey peer.protoid dhgroup noauth local.xforms peer.xforms start p
              na a)
            e)

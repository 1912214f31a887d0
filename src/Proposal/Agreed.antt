-- ===== src/Proposal/Agreed.antt =====
-- The choices of proposals_match of iked/policy.c against what the two sides propose.
use openiked_portable.Base.{
  ℕ, ◌≡◌, refl, Bool, true, ◌&&◌, not, Option, none, some, List, [], ◌∷◌, All, Among, inl, inr,
  arith, ◌==◌, ltb, leb, if_rule, option_rule, subst, All-Among, Bool-cases, ==_iff,
}
use openiked_portable.Proposal.{
  Transform, Proposal, Match, Matched, choose, choose_group, note_dh, compare_pair, local_loop,
  peer_loop, proposals_match, set_at, same_transform, integr, dh, xformtype_max, start, any_noauth,
}

-- A choice `t` of type `i`: a local transform with the type, id and length of a peer's transform.
pub record Agreed (locals peers : List Transform) (i : ℕ) (t : Transform) : Type 0 where
  pub type : t.type ≡ i
  pub here : Among t locals
  pub partner : Transform
  pub there : Among partner peers
  pub same_type : partner.type ≡ t.type
  pub same_id : partner.id ≡ t.id
  pub same_length : partner.length ≡ t.length

abbrev pub IsAgreed : List Transform → List Transform → (ℕ → Option Transform) → Type 0
IsAgreed ls ps xs = (i : ℕ) (t : Transform) → xs i ≡ some t → Agreed ls ps i t

module _ (ls ps : List Transform) where
  set_some-IsAgreed :
      (xs : ℕ → Option Transform) (t : Transform)
      → IsAgreed ls ps xs
      → Agreed ls ps t.type t
      → IsAgreed ls ps (set_at xs t.type (some t))
  set_some-IsAgreed xs t h a i u e = elim (Bool-cases (i == t.type)) [
    | inl hit ↦
        let p : i ≡ t.type = (==_iff i t.type).0 hit in
        let q : u ≡ t = cc (rw hit at e) in rw (p, q) a
    | inr miss ↦ h i u (rw miss at e)
  ]

  set_none-IsAgreed :
      (xs : ℕ → Option Transform) (k : ℕ) → IsAgreed ls ps xs → IsAgreed ls ps (set_at xs k none)
  set_none-IsAgreed xs k h i u e = elim (Bool-cases (i == k)) [
    | inl hit ↦ absurd (cc (rw hit at e))
    | inr miss ↦ h i u (rw miss at e)
  ]

  agreed :
      (p t : Transform)
      → Among p ps
      → Among t ls
      → same_transform p t ≡ true
      → Agreed ls ps t.type t
  agreed p t hp ht y = record {
    type = refl;
    here = ht;
    partner = p;
    there = hp;
    same_type = ground arith;
    same_id = ground arith;
    same_length = ground arith;
  }

  -- The property that the loops keep, of the whole state.
  abbrev Keeps : Match → Type 0
  Keeps m = IsAgreed ls ps m.xforms

  choose-IsAgreed :
      (t : Transform) (m : Match) → Keeps m → Agreed ls ps t.type t → Keeps (choose t m)
  unfolding choose
  choose-IsAgreed t m h a =
      let put : Keeps (record m { xforms = set_at m.xforms t.type (some t) }) =
        set_some-IsAgreed m.xforms t h a in
      option_rule Keeps (m.xforms t.type) _ _ (λ e. put)
        λ c e. if_rule Keeps (ltb t.score c.score) _ _ (λ y. put) (λ n. h)

  choose_group-IsAgreed :
      (g : ℕ) (t : Transform) (m : Match)
      → Keeps m
      → Agreed ls ps t.type t
      → Keeps (choose_group g t m)
  unfolding choose_group
  choose_group-IsAgreed g t m h a =
      if_rule Keeps m.dhforced _ _ (λ y. h)
        λ n.
          choose-IsAgreed t _
            (if_rule Keeps (t.id == g) _ _ (λ y. set_none-IsAgreed m.xforms t.type h) (λ k. h)) a

  compare_pair-IsAgreed :
      (dhgroup : Option ℕ) (p t : Transform) (m : Match)
      → Among p ps
      → Among t ls
      → Keeps m
      → Keeps (compare_pair dhgroup p t m)
  unfolding compare_pair
  compare_pair-IsAgreed dhgroup p t m hp ht h =
      if_rule Keeps (same_transform p t) _ _
        (λ y.
          let a : Agreed ls ps t.type t = agreed p t hp ht y in
          option_rule Keeps dhgroup _ _ (λ e. choose-IsAgreed t m h a)
            λ g e.
              if_rule Keeps (not m.nodh && p.type == dh) _ _ (λ d. choose_group-IsAgreed g t m h a)
                (λ d. choose-IsAgreed t m h a))
        (λ n. h)

  local_loop-IsAgreed :
      (rekey : Bool) (protoid : ℕ) (dhgroup : Option ℕ) (p : Transform) (ts : List Transform)
      (m : Match)
      → Among p ps
      → All (λ t. Among t ls) ts
      → Keeps m
      → Keeps (local_loop rekey protoid dhgroup p ts m)
  unfolding local_loop
  local_loop-IsAgreed rekey protoid dhgroup p [] m hp hts h = h
  local_loop-IsAgreed rekey protoid dhgroup p (t ∷ ts) m hp hts h =
      local_loop-IsAgreed rekey protoid dhgroup p ts _ hp hts.1 (
        compare_pair-IsAgreed dhgroup p t (note_dh rekey protoid t m) hp hts.0
          (unfold note_dh in h))

  nothing-IsAgreed : IsAgreed ls ps (λ i. none)
  nothing-IsAgreed i t e = cc

  abbrev OptionKeeps : Option Match → Type 0
  OptionKeeps none = Unit {0}
  OptionKeeps (some m) = Keeps m

  peer_loop-IsAgreed :
      (rekey : Bool) (protoid : ℕ) (dhgroup : Option ℕ) (noauth : Bool) (qs : List Transform)
      (m : Match)
      → All (λ t. Among t ls) ls
      → All (λ p. Among p ps) qs
      → Keeps m
      → OptionKeeps (peer_loop rekey protoid dhgroup noauth ls qs m)
  unfolding peer_loop
  peer_loop-IsAgreed rekey protoid dhgroup noauth [] m hl hq h = h
  peer_loop-IsAgreed rekey protoid dhgroup noauth (p ∷ qs) m hl hq h =
      if_rule OptionKeeps (leb xformtype_max p.type) _ _
        (λ y. peer_loop-IsAgreed rekey protoid dhgroup noauth qs m hl hq.1 h)
        λ n.
          if_rule OptionKeeps (noauth && p.type == integr) _ _ (λ y. tt)
            λ k.
              peer_loop-IsAgreed rekey protoid dhgroup noauth qs _ hl hq.1
                (local_loop-IsAgreed rekey protoid dhgroup p ls _ hq.0 hl h)

-- Whatever proposals_match chooses, under whatever flags, is a local transform of the type it is
-- chosen for, and the peer proposed a transform with the same type, id and length.
pub proposals_match-Agreed :
    (local peer : Proposal) (rekey : Bool) (dhgroup : Option ℕ)
    → IsAgreed local.xforms peer.xforms (proposals_match local peer rekey dhgroup).xforms
unfolding proposals_match
proposals_match-Agreed local peer rekey dhgroup =
    option_rule (λ (r : Matched). IsAgreed local.xforms peer.xforms r.xforms) _ _ _
      (λ e. nothing-IsAgreed local.xforms peer.xforms)
      (λ m e. subst (OptionKeeps local.xforms peer.xforms) e (
        peer_loop-IsAgreed local.xforms peer.xforms rekey peer.protoid dhgroup
          (any_noauth peer.xforms) peer.xforms start (All-Among local.xforms)
          (All-Among peer.xforms) (nothing-IsAgreed local.xforms peer.xforms)))

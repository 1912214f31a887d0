-- ===== src/Proposal/Best.antt =====
-- Which transform proposals_match of iked/policy.c chooses of several.
use openiked_portable.Base.{
  ℕ, ◌≤◌, ◌<◌, ◌≡◌, ◌≢◌, refl, Bool, true, false, ◌&&◌, not, Option, none, some, Among, All, arith,
  subst, ltb, ◌==◌, if_rule, option_rule, Option-cases, Bool-cases, All-at, ==_iff, inl, inr, ◌⊎◌,
}
use openiked_portable.Proposal.{
  Transform, Proposal, Match, choose, choose_group, note_dh, compare_pair, proposals_match, set_at,
  same_transform, dh, xformtype_max, start, any_noauth,
}
use openiked_portable.Proposal.Loop.{Holds, peer_loop_sets, local_loop_rule, local_loop_sets}
use openiked_portable.Proposal.Complete.{scored, is_none_group}

-- Type `i` has a choice of this score or less.
abbrev pub AtMost : (ℕ → Option Transform) → ℕ → ℕ → Type 0
AtMost xs i s = (c : Transform) × (xs i ≡ some c) × (c.score ≤ s)

choose_keeps :
    (t : Transform) (m : Match) (i s : ℕ) → AtMost m.xforms i s → AtMost (choose t m).xforms i s
unfolding choose
choose_keeps t m i s (c, e, h) = elim (Bool-cases (i == t.type)) [
  | inr n ↦ (c, ground arith, h)
  | inl y ↦ elim (Bool-cases (ltb t.score c.score)) [
    | inl l ↦ (t, ground arith, ground arith)
    | inr g ↦ (c, ground arith, h)
  ]
]

choose_sets : (t : Transform) (m : Match) → AtMost (choose t m).xforms t.type t.score
unfolding choose
choose_sets t m = elim (Option-cases (m.xforms t.type)) [
  | inl e ↦ (t, ground arith, omega arith)
  | inr (c, e) ↦ elim (Bool-cases (ltb t.score c.score)) [
    | inl l ↦ (t, ground arith, omega arith)
    | inr g ↦ (c, ground arith, ground arith)
  ]
]

module _ (rekey : Bool) (protoid : ℕ) where
  -- One pass of the inner loop with no group asked for.
  pass_keeps :
      (p t : Transform) (m : Match) (i s : ℕ)
      → AtMost m.xforms i s
      → AtMost (compare_pair none p t (note_dh rekey protoid t m)).xforms i s
  unfolding compare_pair note_dh
  pass_keeps p t m i s h =
      if_rule (λ (r : Match). AtMost r.xforms i s) (same_transform p t) _ _
        (λ y. choose_keeps t (note_dh rekey protoid t m) i s h) (λ n. h)

  pass_sets :
      (p t : Transform) (m : Match)
      → same_transform p t ≡ true
      → AtMost (compare_pair none p t (note_dh rekey protoid t m)).xforms t.type t.score
  unfolding compare_pair
  pass_sets p t m y = rw y (choose_sets t (note_dh rekey protoid t m))

-- With no group asked for, no transform that both sides propose has a smaller score than the one
-- that is chosen for its type.
pub proposals_match-AtMost :
    (local peer : Proposal) (rekey : Bool) (t p : Transform)
    → Among t local.xforms
    → Among p peer.xforms
    → p.type < xformtype_max
    → same_transform p t ≡ true
    → (proposals_match local peer rekey none).score ≢ 0
    → AtMost (proposals_match local peer rekey none).xforms t.type t.score
proposals_match-AtMost local peer rekey t p a b u y h =
    let (m, ran, chosen, none_lacking) = scored local peer rekey none h in
    let na = any_noauth peer.xforms in
    let P : Match → Type 0 = λ m'. AtMost m'.xforms t.type t.score in
    rw chosen (
      subst (Holds P) ran (
        peer_loop_sets rekey peer.protoid none na local.xforms (λ m'. Unit {0}) P peer.xforms start
          p (λ q m' k. tt)
          (λ q m' k.
            local_loop_rule rekey peer.protoid none na local.xforms P q local.xforms _
              (λ v m'' c d. pass_keeps rekey peer.protoid q v m'' t.type t.score d) k)
          (λ m' k.
            local_loop_sets rekey peer.protoid none na local.xforms (λ m''. Unit {0}) P p t
              local.xforms _ (λ v m'' c d. tt)
              (λ v m'' c d. pass_keeps rekey peer.protoid p v m'' t.type t.score d)
              (λ m'' d. pass_sets rekey peer.protoid p t m'' y) a tt)
          b u tt))

-- The group `g` has been asked for and found: it is the choice for DH, and stays so.
record IsForced (g : ℕ) (m : Match) : Type 0 where
  open_dh : m.nodh ≡ false
  forced : m.dhforced ≡ true
  choice : Transform
  chosen : m.xforms dh ≡ some choice
  group : choice.id ≡ g

module _ (g : ℕ) where
  choose-IsForced :
      (t : Transform) (m : Match) → (t.type == dh) ≡ false → IsForced g m → IsForced g (choose t m)
  unfolding choose
  choose-IsForced t m n f =
      let put : IsForced g (record m { xforms = set_at m.xforms t.type (some t) }) = record {
        open_dh = f.open_dh;
        forced = f.forced;
        choice = f.choice;
        chosen = ground (arith, f.chosen);
        group = f.group;
      } in
      option_rule (IsForced g) (m.xforms t.type) _ _ (λ e. put)
        λ c e. if_rule (IsForced g) (ltb t.score c.score) _ _ (λ y. put) (λ k. f)

  choose_group-IsForced :
      (t : Transform) (m : Match)
      → m.nodh ≡ false
      → m.dhforced ≡ false
      → t.type ≡ dh
      → t.id ≡ g
      → IsForced g (choose_group g t m)
  unfolding choose_group choose
  choose_group-IsForced t m o d e i = record {
    open_dh = ground arith;
    forced = ground arith;
    choice = t;
    chosen = ground arith;
    group = i;
  }

  -- Before the group is found.
  abbrev Ready : Match → Type 0
  Ready m = ((m.nodh ≡ false) × (m.dhforced ≡ false)) ⊎ IsForced g m

  choose-Ready : (t : Transform) (m : Match) → (t.type == dh) ≡ false → Ready m → Ready (choose t m)
  choose-Ready t m n (inl h) = inl (unfold choose in ground arith)
  choose-Ready t m n (inr f) = inr (choose-IsForced t m n f)

  choose_group-Ready :
      (t : Transform) (m : Match) → t.type ≡ dh → Ready m → Ready (choose_group g t m)
  choose_group-Ready t m e (inl h) = elim (Bool-cases (t.id == g)) [
    | inl y ↦ inr (choose_group-IsForced t m h.0 h.1 e ((==_iff t.id g).0 y))
    | inr n ↦ inl (unfold choose_group choose in ground arith)
  ]
  choose_group-Ready t m e (inr f) = inr (
      unfold choose_group in
      if_rule (IsForced g) m.dhforced _ _ (λ y. f) (λ n. absurd (cc (f.forced, n))))

  Ready-nodh : (m : Match) → Ready m → m.nodh ≡ false
  Ready-nodh m (inl h) = h.0
  Ready-nodh m (inr f) = f.open_dh

  module _ (rekey : Bool) (protoid : ℕ) where
    note_dh-Ready :
        (t : Transform) (m : Match)
        → is_none_group t ≡ false
        → Ready m
        → Ready (note_dh rekey protoid t m)
    note_dh-Ready t m n (inl h) = inl (unfold note_dh in ground arith)
    note_dh-Ready t m n (inr f) = inr (
        unfold note_dh in
        record {
          open_dh = ground (arith, f.open_dh);
          forced = f.forced;
          choice = f.choice;
          chosen = f.chosen;
          group = f.group;
        })

    pass-Ready :
        (p t : Transform) (m : Match)
        → is_none_group t ≡ false
        → Ready m
        → Ready (compare_pair (some g) p t (note_dh rekey protoid t m))
    unfolding compare_pair
    pass-Ready p t m n h =
        let m' : Match = note_dh rekey protoid t m in
        let h' : Ready m' = note_dh-Ready t m n h in
        if_rule Ready (same_transform p t) _ _
          (λ y.
            if_rule Ready (not m'.nodh && p.type == dh) _ _
              (λ d. choose_group-Ready t m' (ground arith) h')
              (λ d. choose-Ready t m' (ground (arith, Ready-nodh m' h')) h'))
          (λ k. h')

    Ready-IsForced : (m : Match) → Ready m → m.dhforced ≡ true → IsForced g m
    Ready-IsForced m (inl h) e = absurd (cc (h.1, e))
    Ready-IsForced m (inr f) e = f

    pass-IsForced :
        (p t : Transform) (m : Match)
        → is_none_group t ≡ false
        → IsForced g m
        → IsForced g (compare_pair (some g) p t (note_dh rekey protoid t m))
    pass-IsForced p t m n f =
        Ready-IsForced _ (pass-Ready p t m n (inr f))
          (unfold compare_pair note_dh in ground (arith, f.forced))

    pass_forces :
        (p t : Transform) (m : Match)
        → is_none_group t ≡ false
        → same_transform p t ≡ true
        → t.type ≡ dh
        → t.id ≡ g
        → Ready m
        → IsForced g (compare_pair (some g) p t (note_dh rekey protoid t m))
    pass_forces p t m n y e i h =
        Ready-IsForced _ (pass-Ready p t m n h)
          (let o : m.nodh ≡ false = Ready-nodh m h in unfold compare_pair note_dh in ground arith)

  -- Recording a type of the peer changes nothing here.
  abbrev seen : Transform → Match → Match
  seen p m = record m { peerxfs = set_at m.peerxfs p.type true }

  seen-IsForced : (p : Transform) (m : Match) → IsForced g m → IsForced g (seen p m)
  seen-IsForced p m f = record {
    open_dh = f.open_dh;
    forced = f.forced;
    choice = f.choice;
    chosen = f.chosen;
    group = f.group;
  }

  seen-Ready : (p : Transform) (m : Match) → Ready m → Ready (seen p m)
  seen-Ready p m (inl h) = inl h
  seen-Ready p m (inr f) = inr (seen-IsForced p m f)

-- The choice for DH has this group.
abbrev pub HasGroup : (ℕ → Option Transform) → ℕ → Type 0
HasGroup xs g = (c : Transform) × (xs dh ≡ some c) × (c.id ≡ g)

-- When a group is asked for, both sides propose a DH transform with it, and the local proposal
-- does not offer the group NONE, a match with a non-zero score has that group.
pub proposals_match-HasGroup :
    (local peer : Proposal) (rekey : Bool) (g : ℕ) (t p : Transform)
    → All (λ u. is_none_group u ≡ false) local.xforms
    → Among t local.xforms
    → Among p peer.xforms
    → same_transform p t ≡ true
    → t.type ≡ dh
    → t.id ≡ g
    → (proposals_match local peer rekey (some g)).score ≢ 0
    → HasGroup (proposals_match local peer rekey (some g)).xforms g
proposals_match-HasGroup local peer rekey g t p all a b y e i h =
    let (m, ran, chosen, none_lacking) = scored local peer rekey (some g) h in
    let na = any_noauth peer.xforms in
    let q = peer.protoid in
    let open_all : (u : Transform) → Among u local.xforms → is_none_group u ≡ false =
      λ u c. All-at (λ v. is_none_group v ≡ false) local.xforms u all c in
    let f : IsForced g m = subst (Holds (IsForced g)) ran (
      peer_loop_sets rekey q (some g) na local.xforms (Ready g) (IsForced g) peer.xforms start p
        (λ r m' k.
          local_loop_rule rekey q (some g) na local.xforms (Ready g) r local.xforms (seen g r m')
            (λ v m'' c d. pass-Ready g rekey q r v m'' (open_all v c) d) (seen-Ready g r m' k))
        (λ r m' k.
          local_loop_rule rekey q (some g) na local.xforms (IsForced g) r local.xforms (seen g r m')
            (λ v m'' c d. pass-IsForced g rekey q r v m'' (open_all v c) d)
            (seen-IsForced g r m' k))
        (λ m' k.
          local_loop_sets rekey q (some g) na local.xforms (Ready g) (IsForced g) p t local.xforms
            (seen g p m') (λ v m'' c d. pass-Ready g rekey q p v m'' (open_all v c) d)
            (λ v m'' c d. pass-IsForced g rekey q p v m'' (open_all v c) d)
            (λ m'' d. pass_forces g rekey q p t m'' (open_all t a) y e i d) a (seen-Ready g p m' k))
        b (ground arith) (inl (refl, refl))) in
    rw chosen (f.choice, f.chosen, f.group)

-- ===== src/Proposal/Loop.antt =====
-- Rules for the two loops of proposals_match: what each round keeps, and what one round sets.
use openiked_portable.Base.{
  ℕ, ◌<◌, ◌≡◌, ◌≢◌, refl, Bool, true, ◌&&◌, Option, none, some, List, [], ◌∷◌, Among, inl, inr,
  arith, leb, ◌==◌, if_rule, subst,
}
use openiked_portable.Proposal.{
  Transform, Match, note_dh, compare_pair, local_loop, peer_loop, set_at, integr, xformtype_max,
}

abbrev pub Holds : (Match → Type 0) → Option Match → Type 0
Holds P none = Unit {0}
Holds P (some m) = P m

module _ (rekey : Bool) (protoid : ℕ) (dhgroup : Option ℕ) (noauth : Bool)
    (ls : List Transform) where
  -- One round of the outer loop for a transform of a known type.
  abbrev pub round : Transform → Match → Match
  round p m =
      local_loop rekey protoid dhgroup p ls (record m { peerxfs = set_at m.peerxfs p.type true })

  module _ (P : Match → Type 0) where
    pub peer_loop_rule :
        (qs : List Transform) (m : Match)
        → ((p : Transform) (m' : Match)
            → Among p qs
            → p.type < xformtype_max
            → P m'
            → P (round p m'))
        → P m
        → Holds P (peer_loop rekey protoid dhgroup noauth ls qs m)
    unfolding peer_loop
    peer_loop_rule [] m keep h = h
    peer_loop_rule (p ∷ qs) m keep h =
        let keep' : (q : Transform) (m' : Match)
            → Among q qs
            → q.type < xformtype_max
            → P m'
            → P (round q m') =
          λ q m' a. keep q m' (inr a) in
        if_rule (Holds P) (leb xformtype_max p.type) _ _ (λ y. peer_loop_rule qs m keep' h)
          λ n.
            if_rule (Holds P) (noauth && p.type == integr) _ _ (λ y. tt)
              λ k. peer_loop_rule qs (round p m) keep' (keep p m (inl refl) (ground arith) h)

  -- What the round of one transform sets under an invariant, and every round keeps, holds at
  -- the end.
  module _ (Q P : Match → Type 0) where
    pub peer_loop_sets :
        (qs : List Transform) (m : Match) (p : Transform)
        → ((q : Transform) (m' : Match) → Q m' → Q (round q m'))
        → ((q : Transform) (m' : Match) → P m' → P (round q m'))
        → ((m' : Match) → Q m' → P (round p m'))
        → Among p qs
        → p.type < xformtype_max
        → Q m
        → Holds P (peer_loop rekey protoid dhgroup noauth ls qs m)
    unfolding peer_loop
    peer_loop_sets [] m p keep keep' sets a t h = absurd a
    peer_loop_sets (q ∷ qs) m p keep keep' sets (inl e) t h =
        if_rule (Holds P) (leb xformtype_max q.type) _ _ (λ y. absurd (ground arith))
          λ n.
            if_rule (Holds P) (noauth && q.type == integr) _ _ (λ y. tt)
              λ k.
                peer_loop_rule P qs (round q m) (λ r m' b u. keep' r m')
                  (subst (λ r. P (round r m)) e (sets m h))
    peer_loop_sets (q ∷ qs) m p keep keep' sets (inr a) t h =
        if_rule (Holds P) (leb xformtype_max q.type) _ _
          (λ y. peer_loop_sets qs m p keep keep' sets a t h)
          λ n.
            if_rule (Holds P) (noauth && q.type == integr) _ _ (λ y. tt)
              λ k. peer_loop_sets qs (round q m) p keep keep' sets a t (keep q m h)

  -- An AEAD never goes with an INTEGR transform of the same proposal.
  pub peer_loop-no_integr :
      (qs : List Transform) (m : Match) (p : Transform)
      → noauth ≡ true
      → Among p qs
      → Holds (λ m'. p.type ≢ integr) (peer_loop rekey protoid dhgroup noauth ls qs m)
  unfolding peer_loop
  peer_loop-no_integr [] m p na a = absurd a
  peer_loop-no_integr (q ∷ qs) m p na (inl e) =
      if_rule (Holds (λ m'. p.type ≢ integr)) (leb xformtype_max q.type) _ _
        (λ y. peer_loop_rule (λ m'. p.type ≢ integr) qs m (λ r m' b u h. h) (ground arith))
        λ n.
          if_rule (Holds (λ m'. p.type ≢ integr)) (noauth && q.type == integr) _ _ (λ y. tt)
            λ k.
              peer_loop_rule (λ m'. p.type ≢ integr) qs (round q m) (λ r m' b u h. h) (ground arith)
  peer_loop-no_integr (q ∷ qs) m p na (inr a) =
      if_rule (Holds (λ m'. p.type ≢ integr)) (leb xformtype_max q.type) _ _
        (λ y. peer_loop-no_integr qs m p na a)
        λ n.
          if_rule (Holds (λ m'. p.type ≢ integr)) (noauth && q.type == integr) _ _ (λ y. tt)
            λ k. peer_loop-no_integr qs (round q m) p na a

  -- The rules of the inner loop.
  pub local_loop_rule :
      (P : Match → Type 0) (p : Transform) (ts : List Transform) (m : Match)
      → ((t : Transform) (m' : Match)
          → Among t ts
          → P m'
          → P (compare_pair dhgroup p t (note_dh rekey protoid t m')))
      → P m
      → P (local_loop rekey protoid dhgroup p ts m)
  unfolding local_loop
  local_loop_rule P p [] m keep h = h
  local_loop_rule P p (t ∷ ts) m keep h =
      local_loop_rule P p ts _ (λ u m' a. keep u m' (inr a)) (keep t m (inl refl) h)

  pub local_loop_sets :
      (Q P : Match → Type 0) (p t : Transform) (ts : List Transform) (m : Match)
      → ((u : Transform) (m' : Match)
          → Among u ts
          → Q m'
          → Q (compare_pair dhgroup p u (note_dh rekey protoid u m')))
      → ((u : Transform) (m' : Match)
          → Among u ts
          → P m'
          → P (compare_pair dhgroup p u (note_dh rekey protoid u m')))
      → ((m' : Match) → Q m' → P (compare_pair dhgroup p t (note_dh rekey protoid t m')))
      → Among t ts
      → Q m
      → P (local_loop rekey protoid dhgroup p ts m)
  unfolding local_loop
  local_loop_sets Q P p t [] m keep keep' sets a h = absurd a
  local_loop_sets Q P p t (u ∷ ts) m keep keep' sets (inl e) h =
      local_loop_rule P p ts _ (λ v m' a. keep' v m' (inr a))
        (subst (λ v. P (compare_pair dhgroup p v (note_dh rekey protoid v m))) e (sets m h))
  local_loop_sets Q P p t (u ∷ ts) m keep keep' sets (inr a) h =
      local_loop_sets Q P p t ts _ (λ v m' b. keep v m' (inr b)) (λ v m' b. keep' v m' (inr b)) sets
        a (keep u m (inl refl) h)

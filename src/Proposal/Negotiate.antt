-- ===== src/Proposal/Negotiate.antt =====
-- The loops of proposals_negotiate of iked/policy.c against a description of their result.
use openiked_portable.Base.{
  ℕ, ◌≤◌, ◌≡◌, ◌≢◌, ◌⊎◌, inl, inr, refl, sym, Bool, ◌&&◌, Option, none, some, List, [], ◌∷◌, All,
  Among, arith, subst, ◌!=◌, if◌then◌else◌, if_rule, option_rule, All-Among,
}
use openiked_portable.Proposal.{
  Proposal, Choice, proposals_match, better, try_peer, peers_loop, locals_loop, proposals_negotiate,
}

module _ (rekey : Bool) (groupid : Option ℕ) where
  -- The score of a pair of proposals; a pair of different protocols does not match.
  abbrev pub pair_score : Proposal → Proposal → ℕ
  pair_score l p = if p.protoid != l.protoid then 0 else (proposals_match l p rekey groupid).score

  -- What a choice of a local proposal `l` among `ps` is.
  pub record IsBest (l : Proposal) (ps : List Proposal) (c : Choice) : Type 0 where
    pub vlocal : c.vlocal ≡ l
    pub vpeer : Among c.vpeer ps
    pub scored : c.score ≡ pair_score l c.vpeer
    pub matched : c.score ≢ 0
    pub valid : c.valid ≡ (proposals_match l c.vpeer rekey groupid).xforms

  abbrev Found : Proposal → List Proposal → Option Choice → Type 0
  Found l ps none = Unit {0}
  Found l ps (some c) = IsBest l ps c

  -- No proposal of the list has a better score than what is chosen.
  abbrev Beats : Option Choice → Proposal → Proposal → Type 0
  Beats none l p = pair_score l p ≡ 0
  Beats (some c) l p = (pair_score l p ≡ 0) ⊎ (c.score ≤ pair_score l p)

  try_peer-Found :
      (l p : Proposal) (ps : List Proposal) (c : Option Choice)
      → Among p ps
      → Found l ps c
      → Found l ps (try_peer rekey groupid l p c)
  unfolding try_peer
  try_peer-Found l p ps c a h =
      if_rule (Found l ps) (p.protoid != l.protoid) _ _ (λ y. h)
        λ n.
          if_rule (Found l ps)
            ((proposals_match l p rekey groupid).score != 0
              && better (proposals_match l p rekey groupid).score c)
            _ _
            (λ y. record {
              vlocal = refl;
              vpeer = a;
              scored = rw n;
              matched = ground arith;
              valid = refl;
            })
            (λ k. h)

  try_peer-Beats_self :
      (l p : Proposal) (c : Option Choice) → Beats (try_peer rekey groupid l p c) l p
  unfolding try_peer better
  try_peer-Beats_self l p none = ground arith
  try_peer-Beats_self l p (some c) = ground arith

  try_peer-Beats :
      (l p q : Proposal) (c : Option Choice)
      → Beats c l q
      → Beats (try_peer rekey groupid l p c) l q
  unfolding try_peer better
  try_peer-Beats l p q none h = ground arith
  try_peer-Beats l p q (some c) h = ground arith

  peers_loop-Found :
      (l : Proposal) (all ps : List Proposal) (c : Option Choice)
      → All (λ p. Among p all) ps
      → Found l all c
      → Found l all (peers_loop rekey groupid l ps c)
  unfolding peers_loop
  peers_loop-Found l all [] c a h = h
  peers_loop-Found l all (p ∷ ps) c a h =
      peers_loop-Found l all ps _ a.1 (try_peer-Found l p all c a.0 h)

  peers_loop-Beats :
      (l q : Proposal) (ps : List Proposal) (c : Option Choice)
      → (Beats c l q) ⊎ Among q ps
      → Beats (peers_loop rekey groupid l ps c) l q
  unfolding peers_loop
  peers_loop-Beats l q [] c (inl h) = h
  peers_loop-Beats l q [] c (inr a) = absurd a
  peers_loop-Beats l q (p ∷ ps) c (inl h) =
      peers_loop-Beats l q ps _ (inl (try_peer-Beats l p q c h))
  peers_loop-Beats l q (p ∷ ps) c (inr (inl e)) = peers_loop-Beats l q ps _ (
      inl
        (subst (λ r. Beats (try_peer rekey groupid l p c) l r) (sym e) (try_peer-Beats_self l p c)))
  peers_loop-Beats l q (p ∷ ps) c (inr (inr a)) = peers_loop-Beats l q ps _ (inr a)

  -- What a list of local proposals comes to: the first one that matches at all, with the best of
  -- the peer's proposals for it, or nothing, and then no pair matches.
  pub data Outcome (ps : List Proposal) : List Proposal → Option Choice → Type 0 where
    no_local : Outcome ps [] none
    first :
        {l : Proposal} {ls : List Proposal} {c : Choice}
        → IsBest l ps c
        → ((q : Proposal) → Among q ps → (pair_score l q ≡ 0) ⊎ (c.score ≤ pair_score l q))
        → Outcome ps (l ∷ ls) (some c)
    later :
        {l : Proposal} {ls : List Proposal} {o : Option Choice}
        → ((q : Proposal) → Among q ps → pair_score l q ≡ 0)
        → Outcome ps ls o
        → Outcome ps (l ∷ ls) o

  locals_loop-Outcome : (ps ls : List Proposal) → Outcome ps ls (locals_loop rekey groupid ls ps)
  unfolding locals_loop
  locals_loop-Outcome ps [] = no_local
  locals_loop-Outcome ps (l ∷ ls) =
      option_rule (Outcome ps (l ∷ ls)) (peers_loop rekey groupid l ps none) _ _
        (λ e.
          later (λ q a. subst (λ c. Beats c l q) e (peers_loop-Beats l q ps none (inr a)))
            (locals_loop-Outcome ps ls))
        (λ c e.
          first (subst (Found l ps) e (peers_loop-Found l ps ps none (All-Among ps) tt))
            (λ q a. subst (λ d. Beats d l q) e (peers_loop-Beats l q ps none (inr a))))

  no_peer-Outcome : (ls : List Proposal) → Outcome [] ls none
  no_peer-Outcome [] = no_local
  no_peer-Outcome (l ∷ ls) = later (λ q a. absurd a) (no_peer-Outcome ls)

  -- The result of proposals_negotiate: of the local proposals in their order the first one with
  -- a match of non-zero score (of the same protocol), joined with the transforms of that match,
  -- and with a peer's proposal of the least non-zero score for it; -1 if no pair matches.
  pub proposals_negotiate-Outcome :
      (ls ps : List Proposal) → Outcome ps ls (proposals_negotiate ls ps rekey groupid)
  unfolding proposals_negotiate
  proposals_negotiate-Outcome ls [] = no_peer-Outcome ls
  proposals_negotiate-Outcome ls (p ∷ ps) = locals_loop-Outcome (p ∷ ps) ls

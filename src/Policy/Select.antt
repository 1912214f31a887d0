-- ===== src/Policy/Select.antt =====
-- The policy that iked.conf(5) describes, with no skip steps: each policy is looked at in turn, the
-- last one that matches counts, and a `quick` one that matches ends the search.
use openiked_portable.Base.{
  ℕ, zero, suc, ◌+◌, ◌≤◌, ◌<◌, ◌≡◌, refl, Bool, true, false, ◌&&◌, not, Option, some, List, [], ◌∷◌,
  arith, length, get_elem?, drop, drop-get_elem?, get_elem?_total, if◌then◌else◌,
}
use openiked_portable.Policy.{
  Policy, Flow, flags, af, src_addr, dst_addr, misses, rejects, has, policy_quick,
}

module _ (rb_find : List Flow → Flow → Option Flow) where
  -- A policy matches if no step skips it and no other test rejects it.
  abbrev pub matches : Policy → Policy → Bool
  matches key p =
      not (misses flags key p)
      && not (misses af key p)
      && not (misses dst_addr key p)
      && not (misses src_addr key p)
      && not (rejects rb_find key p)

  -- The position of the selected policy, `best` so far, from position `p` on.
  unfoldable pub select : Policy → ℕ → Option ℕ → List Policy → Option ℕ
  select key p best [] = best
  select key p best (q ∷ qs) =
      let pass = select key (suc p) best qs in
      let take = select key (suc p) (some p) qs in
      if matches key q then (if has q.flags policy_quick then some p else take) else pass

  -- Policies that do not match can be stepped over.
  pub select_over :
      (key : Policy) (ps : List Policy) (d p t : ℕ) (best : Option ℕ)
      → t ≡ p + d
      → t ≤ length ps
      → ((j : ℕ) (q : Policy) → p ≤ j → j < t → get_elem? ps j ≡ some q → matches key q ≡ false)
      → select key p best (drop p ps) ≡ select key t best (drop t ps)
  unfolding select
  select_over key ps zero p t best e l h = let q : t ≡ p = omega arith in rw q
  select_over key ps (suc d) p t best e l h =
      let (q, g) = get_elem?_total p ps (omega arith) in
      rw (drop-get_elem? p ps q g) (
        rw (h p q (omega arith) (omega arith) g)
          (select_over key ps d (suc p) t best (omega arith) l (λ j r a b. h j r (omega arith) b)))

  pub select_end : (key : Policy) (p : ℕ) (best : Option ℕ) → select key p best [] ≡ best
  unfolding select
  select_end key p best = refl

  module _ (key : Policy) (ps : List Policy) (p : ℕ) (q : Policy) (best : Option ℕ) where
    pub select_pass :
        get_elem? ps p ≡ some q
        → matches key q ≡ false
        → select key p best (drop p ps) ≡ select key (suc p) best (drop (suc p) ps)
    unfolding select
    select_pass g m = rw (drop-get_elem? p ps q g) (rw m)

    pub select_quick :
        get_elem? ps p ≡ some q
        → matches key q ≡ true
        → has q.flags policy_quick ≡ true
        → select key p best (drop p ps) ≡ some p
    unfolding select
    select_quick g m k = rw (drop-get_elem? p ps q g) (rw m (rw k))

    pub select_take :
        get_elem? ps p ≡ some q
        → matches key q ≡ true
        → has q.flags policy_quick ≡ false
        → select key p best (drop p ps) ≡ select key (suc p) (some p) (drop (suc p) ps)
    unfolding select
    select_take g m k = rw (drop-get_elem? p ps q g) (rw m (rw k))

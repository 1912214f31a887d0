-- ===== src/Policy/Lookup.antt =====
-- The loop of policy_test of iked/policy.c against the plain search of Policy.Select.
use openiked_portable.Base.{
  ℕ, zero, suc, ◌+◌, ◌-◌, ◌≤◌, ◌<◌, ◌≡◌, inl, inr, ◌∙◌, sym, ap, true, false, Option, some, List,
  arith, length, get_elem?, get_elem?-none, drop, drop_past, get_elem?-lt, if_rule, Option-cases,
}
use openiked_portable.Policy.{
  Policy, Flow, Slot, Skips, flags, af, src_addr, dst_addr, misses, rejects, has, policy_quick,
  test_loop,
}
use openiked_portable.Policy.Select.{
  matches, select, select_over, select_end, select_pass, select_quick, select_take,
}

-- Steps that a search may take for a key: forward, and over policies that the same test skips.
pub record IsSound (key : Policy) (ps : List Policy) (skips : Skips) : Type 0 where
  pub forward :
      (i : Slot) (k : ℕ) (q : Policy)
      → get_elem? ps k ≡ some q
      → misses i key q ≡ true
      → k < skips i k
  pub inside :
      (i : Slot) (k : ℕ) (q : Policy)
      → get_elem? ps k ≡ some q
      → misses i key q ≡ true
      → skips i k ≤ length ps
  pub over :
      (i : Slot) (k j : ℕ) (q r : Policy)
      → get_elem? ps k ≡ some q
      → misses i key q ≡ true
      → k ≤ j
      → j < skips i k
      → get_elem? ps j ≡ some r
      → misses i key r ≡ true

module _ (rb_find : List Flow → Flow → Option Flow) where
  not_matches : (i : Slot) (key q : Policy) → misses i key q ≡ true → matches rb_find key q ≡ false
  not_matches flags key q h = ground arith
  not_matches af key q h = ground arith
  not_matches src_addr key q h = ground arith
  not_matches dst_addr key q h = ground arith

  module _ (key : Policy) (ps : List Policy) (skips : Skips) (sound : IsSound key ps skips) where
    step_over :
        (i : Slot) (p : ℕ) (q : Policy) (best : Option ℕ)
        → get_elem? ps p ≡ some q
        → misses i key q ≡ true
        → select rb_find key p best (drop p ps)
          ≡ select rb_find key (skips i p) best (drop (skips i p) ps)
    step_over i p q best g m =
        let f : p < skips i p = sound.forward i p q g m in
        select_over rb_find key ps (skips i p - p) p (skips i p) best (omega arith)
          (sound.inside i p q g m)
          (λ j r a b c. not_matches i key r (sound.over i p j q r g m a b c))

    pub test_loop-select :
        (n p : ℕ) (best : Option ℕ)
        → length ps < n + p
        → p ≤ length ps
        → test_loop rb_find n ps skips key p best ≡ some (select rb_find key p best (drop p ps))
    unfolding test_loop
    test_loop-select zero p best f l = absurd (omega arith)
    test_loop-select (suc n) p best f l = elim (Option-cases (get_elem? ps p)) [
      | inl e ↦
          rw (e, test_loop)
            (rw (drop_past p ps (get_elem?-none p ps e))
              (ap some (sym (select_end rb_find key p best))))
      | inr (q, e) ↦
          let Goal : Option (Option ℕ) → Type 0 =
            λ r. r ≡ some (select rb_find key p best (drop p ps)) in
          let by : (i : Slot)
              → misses i key q ≡ true
              → Goal (test_loop rb_find n ps skips key (skips i p) best) =
            λ i m.
              test_loop-select n (skips i p) best (omega (arith, sound.forward i p q e m))
                (sound.inside i p q e m)
              ∙ ap some (sym (step_over i p q best e m)) in
          rw (e, test_loop)
            (if_rule Goal (misses flags key q) _ _ (by flags) λ m0.
              if_rule Goal (misses af key q) _ _ (by af) λ m1.
                if_rule Goal (misses dst_addr key q) _ _ (by dst_addr) λ m2.
                  if_rule Goal (misses src_addr key q) _ _ (by src_addr) λ m3.
                    if_rule Goal (rejects rb_find key q) _ _
                      (λ r.
                        test_loop-select n (suc p) best (omega arith) (get_elem?-lt p ps q e)
                        ∙ ap some (sym (select_pass rb_find key ps p q best e (ground arith))))
                      λ r.
                        if_rule Goal (has q.flags policy_quick) _ _
                          (λ k.
                            ap some (sym (select_quick rb_find key ps p q best e (ground arith) k)))
                          λ k.
                            test_loop-select n (suc p) (some p) (omega arith)
                              (get_elem?-lt p ps q e)
                            ∙ ap some
                                (sym (select_take rb_find key ps p q best e (ground arith) k)))
    ]

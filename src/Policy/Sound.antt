-- ===== src/Policy/Sound.antt =====
-- What policy_test of iked/policy.c returns on any list of policies.
use openiked_portable.Base.{
  ℕ, zero, suc, ◌+◌, ◌<◌, ◌≡◌, true, Option, none, some, List, arith, length, get_elem?,
  get_elem?-lt, if_rule, Option-cases, inl, inr,
}
use openiked_portable.Policy.{
  Policy, Flow, Slot, Skips, flags, af, src_addr, dst_addr, misses, rejects, has, policy_quick,
  policy_calc_skip_steps, test_loop, policy_test,
}
use openiked_portable.Policy.Steps.{policy_calc_skip_steps-IsStepTable}
use openiked_portable.Policy.Select.{matches}

module _ (rb_find : List Flow → Flow → Option Flow) (key : Policy) (ps : List Policy) where
  -- A pointer to a policy of the list that matches the key, or NULL.
  abbrev pub PointsToMatch : Option ℕ → Type 0
  PointsToMatch none = Unit {0}
  PointsToMatch (some p) = (q : Policy) × (get_elem? ps p ≡ some q) × (matches rb_find key q ≡ true)

  abbrev pub Returns : Option (Option ℕ) → Type 0
  Returns none = ⊥
  Returns (some r) = PointsToMatch r

  test_loop-Returns :
      (skips : Skips)
      → ((i : Slot) (k : ℕ) → k < length ps → k < skips i k)
      → (n p : ℕ) (pol : Option ℕ) → length ps < n + p
      → 0 < n
      → PointsToMatch pol
      → Returns (test_loop rb_find n ps skips key p pol)
  unfolding test_loop
  test_loop-Returns skips fwd zero p pol f z h = absurd (omega arith)
  test_loop-Returns skips fwd (suc n) p pol f z h = elim (Option-cases (get_elem? ps p)) [
    | inl e ↦ rw (e, test_loop) h
    | inr (q, e) ↦
        let l : p < length ps = get_elem?-lt p ps q e in
        let on : (i : Slot) → Returns (test_loop rb_find n ps skips key (skips i p) pol) = λ i.
          test_loop-Returns skips fwd n (skips i p) pol (omega (arith, fwd i p l)) (omega arith)
            h in
        rw (e, test_loop)
          (if_rule Returns (misses flags key q) _ _ (λ m. on flags)
            λ m0.
              if_rule Returns (misses af key q) _ _ (λ m. on af)
                λ m1.
                  if_rule Returns (misses dst_addr key q) _ _ (λ m. on dst_addr)
                    λ m2.
                      if_rule Returns (misses src_addr key q) _ _ (λ m. on src_addr)
                        λ m3.
                          if_rule Returns (rejects rb_find key q) _ _
                            (λ r.
                              test_loop-Returns skips fwd n (suc p) pol (omega arith) (omega arith)
                                h)
                            λ r.
                              let here : PointsToMatch (some p) = (q, e, ground arith) in
                              if_rule Returns (has q.flags policy_quick) _ _ (λ k. here)
                                (λ k.
                                  test_loop-Returns skips fwd n (suc p) (some p) (omega arith)
                                    (omega arith) here))
  ]

  -- On every list of policies with the calculated skip steps policy_test ends, and it returns NULL
  -- or a pointer to a policy of the list that matches the key by all of its tests.
  pub policy_test-Returns :
      (old : Skips) → Returns (policy_test rb_find ps (policy_calc_skip_steps ps old) key)
  unfolding policy_test
  policy_test-Returns old =
      test_loop-Returns (policy_calc_skip_steps ps old)
        (λ i k. (policy_calc_skip_steps-IsStepTable i ps old).forward k) (suc (length ps)) 0 none
        (omega arith) (omega arith) tt

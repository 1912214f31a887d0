-- ===== src/Policy/Lost.antt =====
-- The skip steps around a policy with the option `skip`, and around one with an open family.
use openiked_portable.Base.{
  ℕ, zero, suc, ◌≤◌, ◌<◌, ◌≡◌, ◌≢◌, ◌⊎◌, inl, inr, refl, true, false, Option, none, some, List, [],
  ◌∷◌, All, arith, length, get_elem?_past,
}
use openiked_portable.Addr.{af_unspec}
use openiked_portable.Policy.{
  Policy, Flow, Slot, Skips, flags, af, misses, has, policy_skip, is_break, policy_calc_skip_steps,
  test_loop, policy_test,
}
use openiked_portable.Policy.Steps.{at_break, IsStepTable, policy_calc_skip_steps-IsStepTable}

-- The step is the same for all policies of the list after the first.
abbrev NoBreak : Slot → Policy → List Policy → Type 0
NoBreak i p [] = Unit {0}
NoBreak i p (q ∷ qs) = (is_break i q p ≡ false) × NoBreak i q qs

NoBreak-at :
    (i : Slot) (p : Policy) (qs : List Policy) (j : ℕ)
    → NoBreak i p qs
    → at_break i (p ∷ qs) j ≡ false
NoBreak-at i p qs zero h = refl
NoBreak-at i p [] (suc zero) h = refl
NoBreak-at i p [] (suc (suc j)) h = refl
NoBreak-at i p (q ∷ qs) (suc zero) h = h.0
NoBreak-at i p (q ∷ qs) (suc (suc j)) h = NoBreak-at i q qs (suc j) h.1

-- Then the first policy's step leads past the whole list.
first_step-length :
    (i : Slot) (p : Policy) (qs : List Policy) (old : Skips)
    → NoBreak i p qs
    → policy_calc_skip_steps (p ∷ qs) old i 0 ≡ length (p ∷ qs)
first_step-length i p qs old h =
    let t : IsStepTable i (p ∷ qs) (policy_calc_skip_steps (p ∷ qs) old i) =
      policy_calc_skip_steps-IsStepTable i (p ∷ qs) old in
    elim (t.ends 0 (omega arith)) [
      | inl b ↦ absurd (cc (b, NoBreak-at i p qs (policy_calc_skip_steps (p ∷ qs) old i 0) h))
      | inr e ↦ e
    ]

module _ (rb_find : List Flow → Flow → Option Flow) (key : Policy) where
  test_loop_past :
      (n p : ℕ) (ps : List Policy) (skips : Skips) (pol : Option ℕ)
      → 0 < n
      → length ps ≤ p
      → test_loop rb_find n ps skips key p pol ≡ some pol
  unfolding test_loop
  test_loop_past zero p ps skips pol z h = absurd (omega arith)
  test_loop_past (suc n) p ps skips pol z h = rw (get_elem?_past p ps h, test_loop) refl

flags-NoBreak :
    (p : Policy) (qs : List Policy)
    → All (λ q. has q.flags policy_skip ≡ false) qs
    → NoBreak flags p qs
unfolding is_break
flags-NoBreak p [] h = tt
flags-NoBreak p (q ∷ qs) h = (h.0, flags-NoBreak q qs h.1)

af-NoBreak :
    (family : ℕ) (p : Policy) (qs : List Policy)
    → (p.af ≡ af_unspec) ⊎ (p.af ≡ family)
    → All (λ q. q.af ≡ family) qs
    → NoBreak af p qs
unfolding is_break
af-NoBreak family p [] e h = tt
af-NoBreak family p (q ∷ qs) e h = (ground (arith, h.0), af-NoBreak family q qs (inr h.0) h.1)

-- A step of the first policy that leads past the list leaves nothing to find.
step_past :
    (rb_find : List Flow → Flow → Option Flow) (key p : Policy) (qs : List Policy) (old : Skips)
    (i : Slot)
    → NoBreak i p qs
    → test_loop rb_find
        (length (p ∷ qs))
        (p ∷ qs)
        (policy_calc_skip_steps (p ∷ qs) old)
        key
        (policy_calc_skip_steps (p ∷ qs) old i 0)
        none
      ≡ some none
step_past rb_find key p qs old i h =
    test_loop_past rb_find key (length (p ∷ qs)) _ (p ∷ qs) (policy_calc_skip_steps (p ∷ qs) old)
      none (omega arith) (omega (arith, first_step-length i p qs old h))

-- iked.conf(5) says that the option `skip` disables the evaluation of the policy that has it. But
-- if the first policy has the option and no other policy has it, policy_test finds no policy at
-- all, whatever the others and the key are.
pub policy_test_skip_loses :
    (rb_find : List Flow → Flow → Option Flow) (key p : Policy) (qs : List Policy) (old : Skips)
    → has p.flags policy_skip ≡ true
    → All (λ q. has q.flags policy_skip ≡ false) qs
    → policy_test rb_find (p ∷ qs) (policy_calc_skip_steps (p ∷ qs) old) key ≡ some none
unfolding policy_test test_loop misses
policy_test_skip_loses rb_find key p qs old h others =
    rw h (step_past rb_find key p qs old flags (flags-NoBreak p qs others))

-- A policy whose family is open hides the policies behind it from the keys of another family than
-- that of the policy before it: policy_test finds none of them, though they are of the key's
-- family, and whatever their other fields are.
pub policy_test_family_loses :
    (rb_find : List Flow → Flow → Option Flow) (key p q : Policy) (qs : List Policy) (old : Skips)
    → has p.flags policy_skip ≡ false
    → p.af ≢ af_unspec
    → key.af ≢ af_unspec
    → key.af ≢ p.af
    → q.af ≡ af_unspec
    → All (λ r. r.af ≡ key.af) qs
    → policy_test rb_find (p ∷ q ∷ qs) (policy_calc_skip_steps (p ∷ q ∷ qs) old) key ≡ some none
unfolding policy_test test_loop misses
policy_test_family_loses rb_find key p q qs old f a b c d e =
    let first : misses af key p ≡ true = ground arith in
    let open_run : NoBreak af p (q ∷ qs) =
      (unfold is_break in ground arith, af-NoBreak key.af q qs (inl d) e) in
    rw f (rw first (step_past rb_find key p (q ∷ qs) old af open_run))

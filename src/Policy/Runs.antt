-- ===== src/Policy/Runs.antt =====
-- Runs of policies in which one test of policy_test stands for all.
use openiked_portable.Base.{
  ℕ, zero, suc, ◌+◌, ◌-◌, ◌<◌, ◌≡◌, ◌⊎◌, inl, inr, ◌∙◌, sym, Bool, true, false, Option, none, some,
  List, [], ◌∷◌, arith, length, get_elem?, Bool-cases, ◌==◌, is_zero, get_elem?_total, get_elem?-lt,
  ==_iff, subst,
}
use openiked_portable.Addr.{Addr, af_unspec, sockaddr_cmp, addr_neq}
use openiked_portable.Addr.Masked.{sockaddr_cmp_trans, sockaddr_cmp_unspec_right}
use openiked_portable.Policy.{
  Policy, Flow, Slot, Skips, policy_test, flags, af, src_addr, dst_addr, misses, has, policy_skip,
  is_break, policy_calc_skip_steps,
}
use openiked_portable.Policy.Steps.{break_of, IsStepTable, policy_calc_skip_steps-IsStepTable}
use openiked_portable.Policy.Lookup.{IsSound, test_loop-select}
use openiked_portable.Policy.Select.{select}

abbrev pub is_unspec : Addr → Bool
is_unspec a = a.addr.family == af_unspec

-- Two policies in a row between which no step joins what its test tells apart: a policy with the
-- option `skip` is followed by another one; the family is set in both or in neither; and so it is
-- with the addresses, unless their networks differ.
pub record IsClean (prev cur : Policy) : Type 0 where
  pub skips : has prev.flags policy_skip ≡ true → has cur.flags policy_skip ≡ true
  pub families : (cur.af == af_unspec) ≡ (prev.af == af_unspec)
  pub peers : (addr_neq cur.peer prev.peer ≡ true) ⊎ (is_unspec cur.peer ≡ is_unspec prev.peer)
  pub locals : (addr_neq cur.local prev.local ≡ true) ⊎ (is_unspec cur.local ≡ is_unspec prev.local)

abbrev CleanNext : Policy → List Policy → Type 0
CleanNext p [] = Unit {0}
CleanNext p (q ∷ qs) = IsClean p q

abbrev pub HasCleanRuns : List Policy → Type 0
HasCleanRuns [] = Unit {0}
HasCleanRuns (p ∷ ps) = CleanNext p ps × HasCleanRuns ps

IsClean-at :
    (ps : List Policy) (j : ℕ) (prev cur : Policy)
    → HasCleanRuns ps
    → get_elem? ps j ≡ some prev
    → get_elem? ps (suc j) ≡ some cur
    → IsClean prev cur
IsClean-at [] j prev cur h a b = absurd (cc a)
IsClean-at (p ∷ []) j prev cur h a b = absurd (cc b)
IsClean-at (p ∷ q ∷ ps) zero prev cur h a b =
    let e : p ≡ prev = cc a in
    let f : q ≡ cur = cc b in subst (λ x. IsClean x cur) e (subst (IsClean p) f h.0)
IsClean-at (p ∷ q ∷ ps) (suc j) prev cur h a b = IsClean-at (q ∷ ps) j prev cur h.1 a b

carry_addr :
    (k c p : Addr)
    → addr_neq c p ≡ false
    → is_unspec c ≡ is_unspec p
    → is_zero (sockaddr_cmp k.addr p.addr (some p.mask)) ≡ false
    → is_zero (sockaddr_cmp k.addr c.addr (some c.mask)) ≡ false
unfolding addr_neq
carry_addr k c p n u m = elim (Bool-cases (is_zero (sockaddr_cmp k.addr c.addr (some c.mask)))) [
  | inr f ↦ f
  | inl y ↦ elim (Bool-cases (is_unspec c)) [
    | inl s ↦ absurd (
        cc (
          m,
          sockaddr_cmp_unspec_right k.addr p.addr (some p.mask)
              ((==_iff p.addr.family 0).0 (sym u ∙ s)),
        ))
    | inr s ↦
        let same : c.mask ≡ p.mask = ground arith in
        absurd (
          cc (
            m,
            subst (λ x. is_zero (sockaddr_cmp k.addr p.addr (some x)) ≡ true) same
                (sockaddr_cmp_trans k.addr c.addr p.addr (some c.mask) (ground arith) y
                  (ground arith)),
          ))
  ]
]

-- Within a run, a policy after one that the test skips is skipped by it too.
carry :
    (i : Slot) (key prev cur : Policy)
    → IsClean prev cur
    → is_break i cur prev ≡ false
    → misses i key prev ≡ true
    → misses i key cur ≡ true
unfolding is_break misses
carry flags key prev cur c b m = c.skips m
carry af key prev cur c b m = ground (arith, c.families)
carry dst_addr key prev cur c b m = elim c.peers [
  | inl d ↦ absurd (cc (d, b))
  | inr u ↦ ground (arith, carry_addr key.peer cur.peer prev.peer b u)
]
carry src_addr key prev cur c b m = elim c.locals [
  | inl d ↦ absurd (cc (d, b))
  | inr u ↦ ground (arith, carry_addr key.local cur.local prev.local b u)
]

module _ (key : Policy) (ps : List Policy) (clean : HasCleanRuns ps) (i : Slot) (skip : ℕ → ℕ)
    (table : IsStepTable i ps skip) where
  -- By induction on the distance from the policy `k` that is skipped.
  along :
      (d k j : ℕ) (q r : Policy)
      → j ≡ k + d
      → get_elem? ps k ≡ some q
      → misses i key q ≡ true
      → j < skip k
      → get_elem? ps j ≡ some r
      → misses i key r ≡ true
  along zero k j q r e a m l b =
      let s : j ≡ k = omega arith in
      let t : q ≡ r = cc (rw s at b, a) in subst (λ x. misses i key x ≡ true) t m
  along (suc d) k zero q r e a m l b = absurd (omega arith)
  along (suc d) k (suc j) q r e a m l b =
      let (p, g) = get_elem?_total j ps (omega (arith, get_elem?-lt (suc j) ps r b)) in
      carry i key p r (IsClean-at ps j p r clean g b)
        (rw (g, b, break_of) at (table.same_run k (suc j) (get_elem?-lt k ps q a) (omega arith) l))
        (along d k j q p (omega arith) a m (omega arith) g)

calculated-IsSound :
    (key : Policy) (ps : List Policy) (old : Skips)
    → HasCleanRuns ps
    → IsSound key ps (policy_calc_skip_steps ps old)
calculated-IsSound key ps old clean =
    let table : (i : Slot) → IsStepTable i ps (policy_calc_skip_steps ps old i) =
      λ i. policy_calc_skip_steps-IsStepTable i ps old in
    record {
      forward = λ i k q g m. (table i).forward k (get_elem?-lt k ps q g);
      inside = λ i k q g m. (table i).inside k (get_elem?-lt k ps q g);
      over = λ i k j q r g m a l b.
          along key ps clean i (policy_calc_skip_steps ps old i) (table i) (j - k) k j q r
            (omega arith) g m l b;
    }

-- With the skip steps of policy_calc_skip_steps, whatever the fields held before, policy_test ends
-- and finds the policy that the search without skip steps finds, for every key, if no run of
-- policies joins what its test tells apart.
pub policy_test-select :
    (rb_find : List Flow → Flow → Option Flow) (key : Policy) (ps : List Policy) (old : Skips)
    → HasCleanRuns ps
    → policy_test rb_find ps (policy_calc_skip_steps ps old) key
      ≡ some (select rb_find key 0 none ps)
unfolding policy_test
policy_test-select rb_find key ps old clean =
    test_loop-select rb_find key ps (policy_calc_skip_steps ps old)
      (calculated-IsSound key ps old clean) (suc (length ps)) 0 none (omega arith) (omega arith)

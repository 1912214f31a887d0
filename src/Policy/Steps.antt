-- ===== src/Policy/Steps.antt =====
-- What policy_calc_skip_steps of iked/policy.c stores.
use openiked_portable.Base.{
  ℕ, zero, suc, ◌+◌, ◌-◌, ◌≤◌, ◌<◌, ◌≡◌, ◌⊎◌, inl, inr, refl, Bool, true, false, ◌&&◌, Option, none,
  some, List, [], ◌∷◌, arith, length, get_elem?, drop, drop-cons, drop-nil, ltb, leb, if◌then◌else◌,
  if_rule, Bool-cases, ◌==◌, ==_iff, get_elem?-lt, ◌∙◌,
}
use openiked_portable.Policy.{
  Policy, Slot, Head, Heads, Skips, store, fill, set_skip_steps, is_break, calc_loop,
  policy_calc_skip_steps,
}

-- A break of the step between a position and the one before it.
abbrev pub break_of : Slot → Option Policy → Option Policy → Bool
break_of i none cur = false
break_of i (some prev) none = false
break_of i (some prev) (some cur) = is_break i cur prev

abbrev pub at_break : Slot → List Policy → ℕ → Bool
at_break i ps zero = false
at_break i ps (suc j) = break_of i (get_elem? ps j) (get_elem? ps (suc j))

-- A position where a run ends: a break, or the end of the list.
abbrev pub EndsRun : Slot → List Policy → ℕ → Type 0
EndsRun i ps c = (at_break i ps c ≡ true) ⊎ (c ≡ length ps)

-- The positions from `head` up to `c` are one run, and each policy before `head` points past
-- itself, to the end of its run.
pub record IsDone (i : Slot) (ps : List Policy) (c : ℕ) (h : Head) : Type 0 where
  pub head_le : h.head ≤ c
  pub run : (j : ℕ) → h.head < j → j < c → at_break i ps j ≡ false
  pub forward : (k : ℕ) → k < h.head → k < h.skip k
  pub inside : (k : ℕ) → k < h.head → h.skip k ≤ h.head
  pub same_run : (k j : ℕ) → k < h.head → k < j → j < h.skip k → at_break i ps j ≡ false
  pub ends : (k : ℕ) → k < h.head → EndsRun i ps (h.skip k)

fill_lem :
    (n head cur : ℕ) (skip : ℕ → ℕ) (k : ℕ)
    → fill n head cur skip k ≡ (if leb head k && ltb k (head + n) then cur else skip k)
unfolding fill
fill_lem zero head cur skip k = ground arith
fill_lem (suc n) head cur skip k = ground (arith, fill_lem n (head + 1) cur (store skip head cur) k)

set_skip_steps-IsDone :
    (i : Slot) (ps : List Policy) (c : ℕ) (h : Head)
    → IsDone i ps c h
    → (h.head < c → EndsRun i ps c)
    → IsDone i ps c (set_skip_steps c h) × ((set_skip_steps c h).head ≡ c)
unfolding set_skip_steps
set_skip_steps-IsDone i ps c h d end = (
  record {
    head_le = ground (arith, d.head_le);
    run = λ j a b. absurd (ground (arith, d.head_le));
    forward =
        λ k a. ground (arith, d.head_le, fill_lem (c - h.head) h.head c h.skip k, d.forward k);
    inside = λ k a. ground (arith, d.head_le, fill_lem (c - h.head) h.head c h.skip k, d.inside k);
    same_run = λ k j a b e.
        ground (arith, d.head_le, fill_lem (c - h.head) h.head c h.skip k, d.same_run k j, d.run j);
    ends = λ k a. elim (Bool-cases (leb h.head k)) [
      | inl y ↦
          let q : fill (c - h.head) h.head c h.skip k ≡ c =
            ground (arith, d.head_le, fill_lem (c - h.head) h.head c h.skip k) in
          rw q (end (ground (arith, d.head_le)))
      | inr n ↦
          let q : fill (c - h.head) h.head c h.skip k ≡ h.skip k =
            ground (arith, d.head_le, fill_lem (c - h.head) h.head c h.skip k) in
          rw q (d.ends k (ground arith))
    ];
  },
  ground (arith, d.head_le),
)

-- `prev` is the policy before the position; at the front it is the first policy itself.
abbrev IsPrev : List Policy → ℕ → Policy → Type 0
IsPrev ps zero prev = Unit {0}
IsPrev ps (suc c) prev = get_elem? ps c ≡ some prev

IsDone-extend :
    (i : Slot) (ps : List Policy) (c : ℕ) (h : Head)
    → IsDone i ps c h
    → (h.head < c → at_break i ps c ≡ false)
    → IsDone i ps (suc c) h
IsDone-extend i ps c h d n = record {
  head_le = omega (arith, d.head_le);
  run = λ j a b. elim (Bool-cases (j == c)) [
    | inl e ↦ let q : j ≡ c = (==_iff j c).0 e in rw q (n (rw q at a))
    | inr e ↦ d.run j a (ground arith)
  ];
  forward = d.forward;
  inside = d.inside;
  same_run = d.same_run;
  ends = d.ends;
}

at_break_cur :
    (i : Slot) (ps : List Policy) (c : ℕ) (prev cur : Policy)
    → 0 < c
    → IsPrev ps c prev
    → get_elem? ps c ≡ some cur
    → at_break i ps c ≡ is_break i cur prev
at_break_cur i ps zero prev cur h p e = absurd (omega arith)
at_break_cur i ps (suc c) prev cur h p e = rw (p, at_break) (rw (e, break_of))

step-IsDone :
    (i : Slot) (ps : List Policy) (c : ℕ) (prev cur : Policy) (h : Head)
    → IsPrev ps c prev
    → get_elem? ps c ≡ some cur
    → IsDone i ps c h
    → IsDone i ps (suc c) (if is_break i cur prev then set_skip_steps c h else h)
step-IsDone i ps c prev cur h p e d =
    if_rule (IsDone i ps (suc c)) (is_break i cur prev) _ _
      (λ y.
        let (d', q) =
          set_skip_steps-IsDone i ps c h d
            (λ k. inl (at_break_cur i ps c prev cur (omega (arith, k)) p e ∙ y)) in
        IsDone-extend i ps c (set_skip_steps c h) d' (λ k. absurd (omega arith)))
      (λ n. IsDone-extend i ps c h d (λ k. at_break_cur i ps c prev cur (omega (arith, k)) p e ∙ n))

calc_loop-IsDone :
    (i : Slot) (ps rest : List Policy) (prev : Policy) (c : ℕ) (heads : Heads)
    → IsPrev ps c prev
    → drop c ps ≡ rest
    → c ≤ length ps
    → IsDone i ps c (heads i)
    → IsDone i ps (length ps) (calc_loop prev rest c heads i)
unfolding calc_loop
calc_loop-IsDone i ps [] prev c heads p e l d =
    let q : length ps ≡ c = omega (arith, drop-nil c ps e) in rw q d
calc_loop-IsDone i ps (cur ∷ rest) prev c heads p e l d =
    let (g, r) = drop-cons c ps cur rest e in
    calc_loop-IsDone i ps rest cur (suc c) _ g r (get_elem?-lt c ps cur g)
      (step-IsDone i ps c prev cur (heads i) p g d)

-- The stored steps: each leads forward, over no break, to the next break or to the end.
pub record IsStepTable (i : Slot) (ps : List Policy) (skip : ℕ → ℕ) : Type 0 where
  pub forward : (k : ℕ) → k < length ps → k < skip k
  pub inside : (k : ℕ) → k < length ps → skip k ≤ length ps
  pub same_run : (k j : ℕ) → k < length ps → k < j → j < skip k → at_break i ps j ≡ false
  pub ends : (k : ℕ) → k < length ps → EndsRun i ps (skip k)

-- Whatever the fields held before, policy_calc_skip_steps leaves in each of them the first later
-- position at which a new run of the step begins, or the end of the list if there is none.
pub policy_calc_skip_steps-IsStepTable :
    (i : Slot) (ps : List Policy) (old : Skips) → IsStepTable i ps (policy_calc_skip_steps ps old i)
unfolding policy_calc_skip_steps
policy_calc_skip_steps-IsStepTable i [] old = record {
  forward = λ k h. absurd (omega arith);
  inside = λ k h. absurd (omega arith);
  same_run = λ k j h a b. absurd (omega arith);
  ends = λ k h. absurd (omega arith);
}
policy_calc_skip_steps-IsStepTable i (p ∷ ps) old =
    let n = length (p ∷ ps) in
    let h : Head = calc_loop p (p ∷ ps) 0 (λ j. record { head = 0; skip = old j }) i in
    let d : IsDone i (p ∷ ps) n h =
      calc_loop-IsDone i (p ∷ ps) (p ∷ ps) p 0 _ tt refl (omega arith) (record {
        head_le = omega arith;
        run = λ j a b. absurd (omega arith);
        forward = λ k a. absurd (omega arith);
        inside = λ k a. absurd (omega arith);
        same_run = λ k j a b c. absurd (omega arith);
        ends = λ k a. absurd (omega arith);
      }) in
    let (done, e) = set_skip_steps-IsDone i (p ∷ ps) n h d (λ k. inr refl) in
    record {
      forward = λ k a. done.forward k (omega arith);
      inside = λ k a. omega (arith, done.inside k (omega arith));
      same_run = λ k j a b c. done.same_run k j (omega arith) b c;
      ends = λ k a. done.ends k (omega arith);
    }

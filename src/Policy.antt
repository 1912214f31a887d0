-- ===== src/Policy.antt =====
-- Policies: struct iked_policy of iked/iked.h, policy_test, policy_test_flows and
-- policy_calc_skip_steps of iked/policy.c. The list sc_policies is a list, and a pointer to a
-- policy is its position; the position past the end is NULL. The field pol_skip is kept beside the
-- list, as a function from the step and the position. The flow trees are lists in the order of
-- RB_NEXT, and RB_FIND (macros of sys/tree.h) is the parameter `rb_find`.
pub mod Steps
pub mod Select
pub mod Lookup
pub mod Runs
pub mod Sound
pub mod Lost
use openiked_portable.Base.{
  ℕ, zero, suc, ◌+◌, ◌-◌, bit_and, Bool, true, false, ◌&&◌, ◌||◌, not, Option, none, some, List, [],
  ◌∷◌, length, get_elem?, is_some, is_zero, ℤ, bytes_eq, ◌==◌, ◌!=◌, if◌then◌else◌,
}
use openiked_portable.Addr.{Addr, af_unspec, sockaddr_cmp, addr_neq}
use openiked_portable.Proposal.{Proposal, Choice, proposals_negotiate}

pub record StaticId : Type 0 where
  pub type : ℕ
  pub id_data : List ℕ

pub record Flow : Type 0 where
  pub src : Addr
  pub dst : Addr
  pub prenat : Addr
  pub rdomain : ℤ
  pub ipproto : ℕ
  pub saproto : ℕ
  pub dir : ℕ

pub record Policy : Type 0 where
  pub flags : ℕ
  pub af : ℕ
  pub peer : Addr
  pub local : Addr
  pub peerid : StaticId
  pub localid : StaticId
  pub proposals : List Proposal
  pub flows : List Flow
  pub nflows : ℕ

-- IKED_POLICY_*
abbrev pub policy_quick : ℕ
policy_quick = 0x008

abbrev pub policy_skip : ℕ
policy_skip = 0x010

abbrev pub policy_transport : ℕ
policy_transport = 0x040

abbrev pub has : ℕ → ℕ → Bool
has flags flag = bit_and flags flag != 0

-- IKED_SKIP_FLAGS, IKED_SKIP_AF, IKED_SKIP_SRC_ADDR and IKED_SKIP_DST_ADDR
pub data Slot : Type 0 where
  flags af src_addr dst_addr : Slot

-- For one step: head[i], and the field pol_skip[i] of each policy.
pub record Head : Type 0 where
  pub head : ℕ
  pub skip : ℕ → ℕ

abbrev pub store : (ℕ → ℕ) → ℕ → ℕ → ℕ → ℕ
store f k v j = if j == k then v else f j

-- IKED_SET_SKIP_STEPS. Its head only moves on to `cur`, so the rounds left are `cur - head`.
unfoldable pub fill : ℕ → ℕ → ℕ → (ℕ → ℕ) → ℕ → ℕ
fill zero head cur skip = skip
fill (suc n) head cur skip = fill n (head + 1) cur (store skip head cur)

unfoldable pub set_skip_steps : ℕ → Head → Head
unfolding fill
set_skip_steps cur h = record {
  head = h.head + (cur - h.head);
  skip = fill (cur - h.head) h.head cur h.skip;
}

-- The tests of policy_calc_skip_steps for a new run, by step.
unfoldable pub is_break : Slot → Policy → Policy → Bool
is_break flags cur prev = has cur.flags policy_skip
is_break af cur prev = cur.af != af_unspec && prev.af != af_unspec && cur.af != prev.af
is_break dst_addr cur prev = addr_neq cur.peer prev.peer
is_break src_addr cur prev = addr_neq cur.local prev.local

abbrev pub Heads : Type 0
Heads = Slot → Head

-- The loop, from the policy `prev` on; `c` is the position of the next policy.
unfoldable pub calc_loop : Policy → List Policy → ℕ → Heads → Heads
calc_loop prev [] c heads = heads
calc_loop prev (cur ∷ rest) c heads =
    calc_loop cur rest (suc c)
      (λ i. if is_break i cur prev then set_skip_steps c (heads i) else heads i)

abbrev pub Skips : Type 0
Skips = Slot → ℕ → ℕ

-- The skips that the fields held before are given, since a reload computes them again.
unfoldable pub policy_calc_skip_steps : List Policy → Skips → Skips
policy_calc_skip_steps [] old i = (set_skip_steps 0 (record { head = 0; skip = old i })).skip
policy_calc_skip_steps (p ∷ ps) old i =
    (set_skip_steps (length (p ∷ ps))
      (calc_loop p (p ∷ ps) 0 (λ j. record { head = 0; skip = old j }) i)).skip

-- `true` where the two are set and differ.
abbrev id_differs : StaticId → StaticId → Bool
id_differs key p =
    key.type != 0 && p.type != 0 && (key.type != p.type || not (bytes_eq key.id_data p.id_data))

-- The first four tests of policy_test: the step to skip by.
unfoldable pub misses : Slot → Policy → Policy → Bool
misses flags key p = has p.flags policy_skip
misses af key p = key.af != 0 && p.af != 0 && key.af != p.af
misses dst_addr key p = not (is_zero (sockaddr_cmp key.peer.addr p.peer.addr (some p.peer.mask)))
misses src_addr key p = not (is_zero (sockaddr_cmp key.local.addr p.local.addr (some p.local.mask)))

-- TAILQ_FIRST of the list is not NULL.
abbrev nonempty : List Proposal → Bool
nonempty [] = false
nonempty (q ∷ qs) = true

module _ (rb_find : List Flow → Flow → Option Flow) where
  -- `true` is the result -1: a flow of the key that the policy has not.
  unfoldable pub policy_test_flows : List Flow → List Flow → Bool
  policy_test_flows [] pflows = false
  policy_test_flows (f ∷ fs) pflows =
      not (is_some (rb_find pflows f)) || policy_test_flows fs pflows

  -- The tests that go on to the next policy.
  unfoldable pub rejects : Policy → Policy → Bool
  unfolding policy_test_flows
  rejects key p =
      (key.nflows != 0 && policy_test_flows key.flows p.flows)
      || id_differs key.peerid p.peerid
      || id_differs key.localid p.localid
      || (has key.flags policy_transport && not (has p.flags policy_transport))
      || (nonempty key.proposals
          && not (is_some (proposals_negotiate p.proposals key.proposals false none)))

  -- The loop of policy_test with fuel; `none` means that the fuel ran out.
  unfoldable pub test_loop : ℕ → List Policy → Skips → Policy → ℕ → Option ℕ → Option (Option ℕ)
  test_loop zero ps skips key p pol = none
  test_loop (suc n) ps skips key p pol = elim (get_elem? ps p) [
    | none ↦ some pol
    | some q ↦
        let by_flags = test_loop n ps skips key (skips flags p) pol in
        let by_af = test_loop n ps skips key (skips af p) pol in
        let by_dst = test_loop n ps skips key (skips dst_addr p) pol in
        let by_src = test_loop n ps skips key (skips src_addr p) pol in
        let next = test_loop n ps skips key (suc p) pol in
        let matched = test_loop n ps skips key (suc p) (some p) in
        if misses flags key q
        then by_flags
        else if misses af key q
        then by_af
        else if misses dst_addr key q
        then by_dst
        else if misses src_addr key q
        then by_src
        else if rejects key q
        then next
        else if has q.flags policy_quick
        then some (some p)
        else matched
  ]

  -- The fuel is a round for each policy and one to end.
  unfoldable pub policy_test : List Policy → Skips → Policy → Option (Option ℕ)
  policy_test ps skips key = test_loop (suc (length ps)) ps skips key 0 none

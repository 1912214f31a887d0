-- ===== src/Tests/Policy.antt =====
-- Policies.
use openiked_portable.Base.{ℕ, ◌≡◌, refl, Option, none, some, List, [], ◌∷◌, arith, inr}
use openiked_portable.Addr.{
  Addr, Sockaddr, af_unspec, af_inet, af_inet6, addr_neq, sockaddr_cmp, mask4, prefixlen2mask,
}
use openiked_portable.Policy.{
  Policy, Flow, StaticId, Skips, dst_addr, policy_test, policy_calc_skip_steps, policy_skip,
  policy_quick, test_loop, misses, rejects, set_skip_steps, is_break, calc_loop,
}
use openiked_portable.Policy.Steps.{IsStepTable, policy_calc_skip_steps-IsStepTable}
use openiked_portable.Policy.Select.{select}
use openiked_portable.Policy.Runs.{HasCleanRuns, IsClean, policy_test-select}
use openiked_portable.Policy.Sound.{Returns, policy_test-Returns}
use openiked_portable.Policy.Lost.{policy_test_skip_loses, policy_test_family_loses}

-- RB_FIND in a tree without flows.
abbrev no_flow : List Flow → Flow → Option Flow
no_flow fs f = none

abbrev sock : ℕ → ℕ → Sockaddr
sock family w = record { family = family; word0 = w; word1 = 0; word2 = 0; word3 = 0 }

abbrev net : ℕ → ℕ → ℕ → Addr
net family w mask = record { addr = sock family w; mask = mask; port = 0 }

abbrev no_id : StaticId
no_id = record { type = 0; id_data = [] }

abbrev policy : ℕ → ℕ → Addr → Policy
policy flags family peer = record {
  flags = flags;
  af = family;
  peer = peer;
  local = net family 0 0;
  peerid = no_id;
  localid = no_id;
  proposals = [];
  flows = [];
  nflows = 0;
}

-- A query from 10.0.0.2, and policies for 10.1.0.0/16, 10.0.0.0/24 (twice, with `quick` first).
abbrev key : Policy
key = policy 0 af_inet (net af_inet 0x0200_000a 0)

abbrev gateways : List Policy
gateways =
    policy 0 af_inet (net af_inet 0x0000_010a 16)
    ∷ policy policy_quick af_inet (net af_inet 0x0000_000a 24)
    ∷ policy 0 af_inet (net af_inet 0x0000_000a 24)
    ∷ []

abbrev before : Skips
before i k = 0

gateways-HasCleanRuns : HasCleanRuns gateways
gateways-HasCleanRuns = (both_set, (both_set', (tt, tt)))
  where
    both_set :
        IsClean
          (policy 0 af_inet (net af_inet 0x0000_010a 16))
          (policy policy_quick af_inet (net af_inet 0x0000_000a 24))
    both_set = record { skips = λ e. cc; families = refl; peers = inr refl; locals = inr refl }

    both_set' :
        IsClean
          (policy policy_quick af_inet (net af_inet 0x0000_000a 24))
          (policy 0 af_inet (net af_inet 0x0000_000a 24))
    both_set' = record { skips = λ e. cc; families = refl; peers = inr refl; locals = inr refl }

policy_test-select_example :
    policy_test no_flow gateways (policy_calc_skip_steps gateways before) key
    ≡ some (select no_flow key 0 none gateways)
policy_test-select_example = policy_test-select no_flow key gateways before gateways-HasCleanRuns

-- The `quick` policy is the one.
finds_quick :
    policy_test no_flow gateways (policy_calc_skip_steps gateways before) key ≡ some (some 1)
unfolding policy_test test_loop misses rejects policy_calc_skip_steps set_skip_steps is_break
    calc_loop sockaddr_cmp mask4 prefixlen2mask addr_neq
finds_quick = refl

policy_test-Returns_example :
    Returns no_flow key gateways
      (policy_test no_flow gateways (policy_calc_skip_steps gateways before) key)
policy_test-Returns_example = policy_test-Returns no_flow key gateways before

policy_calc_skip_steps-IsStepTable_example :
    IsStepTable dst_addr gateways (policy_calc_skip_steps gateways before dst_addr)
policy_calc_skip_steps-IsStepTable_example =
    policy_calc_skip_steps-IsStepTable dst_addr gateways before

-- A policy with the option `skip` before the same three.
abbrev skipped : Policy
skipped = policy policy_skip af_inet (net af_inet 0 0)

policy_test_skip_loses_example :
    policy_test no_flow
      (skipped ∷ gateways)
      (policy_calc_skip_steps (skipped ∷ gateways) before)
      key
    ≡ some none
policy_test_skip_loses_example =
    policy_test_skip_loses no_flow key skipped gateways before refl (refl, (refl, (refl, tt)))

-- An IPv6 policy, one without a family, and the three for IPv4.
abbrev v6_policy : Policy
v6_policy = policy 0 af_inet6 (net af_inet6 0 64)

abbrev open_policy : Policy
open_policy = policy 0 af_unspec (net af_unspec 0 0)

policy_test_family_loses_example :
    policy_test no_flow
      (v6_policy ∷ open_policy ∷ gateways)
      (policy_calc_skip_steps (v6_policy ∷ open_policy ∷ gateways) before)
      key
    ≡ some none
policy_test_family_loses_example =
    policy_test_family_loses no_flow key v6_policy open_policy gateways before refl (omega arith)
      (omega arith) (omega arith) refl (refl, (refl, (refl, tt)))

-- ===== src/Sa.antt =====
-- The state of an IKE SA: sa_state, sa_stateflags and sa_stateok of iked/policy.c, the states of
-- iked/ikev2.h and the requirement bits of iked/iked.h, and the part of sa_new that sets what an
-- SA requires. The counters are those of struct iked_stats, uint64_t.
pub mod Bits
pub mod Counters
pub mod Reach
pub mod Requirements
use openiked_portable.Base.{
  ℕ, ◌+◌, ◌-◌, ◌%◌, ◌^◌, bit_and, bit_or, Bool, true, false, ◌&&◌, ◌||◌, not, ltb, ◌==◌, ◌!=◌,
  if◌then◌else◌,
}

-- IKEV2_STATE_*
abbrev pub init : ℕ
init = 0

abbrev pub sa_init : ℕ
sa_init = 2

abbrev pub valid : ℕ
valid = 7

abbrev pub eap_valid : ℕ
eap_valid = 8

abbrev pub established : ℕ
established = 9

abbrev pub closing : ℕ
closing = 10

abbrev pub closed : ℕ
closed = 11

-- IKED_REQ_*
abbrev pub req_cert : ℕ
req_cert = 0x0001

abbrev pub req_certvalid : ℕ
req_certvalid = 0x0002

abbrev pub req_auth : ℕ
req_auth = 0x0008

abbrev pub req_authvalid : ℕ
req_authvalid = 0x0010

abbrev pub req_sa : ℕ
req_sa = 0x0020

abbrev pub req_eapvalid : ℕ
req_eapvalid = 0x0040

pub record Sa : Type 0 where
  pub state : ℕ
  pub stateflags : ℕ
  pub stateinit : ℕ
  pub statevalid : ℕ

pub record Stats : Type 0 where
  pub established_total : ℕ
  pub established_current : ℕ
  pub established_failures : ℕ

abbrev pub u64 : ℕ
u64 = 2 ^ 64

abbrev pub checked : ℕ → Bool
checked state = state == sa_init || state == valid || state == eap_valid

abbrev pub require : Sa → ℕ → ℕ
require sa state = if state == sa_init then sa.stateinit else sa.statevalid

unfoldable pub sa_stateok : Sa → ℕ → Bool
sa_stateok sa state =
    if ltb sa.state state
    then false
    else not (checked state && bit_and sa.stateflags (require sa state) != require sa state)

unfoldable pub sa_stateflags : Sa → ℕ → Sa
sa_stateflags sa flags = record sa { stateflags = bit_or sa.stateflags flags }

-- The counters, when the state has changed from `ostate` to `state`.
unfoldable pub count_change : ℕ → ℕ → Stats → Stats
count_change ostate state s =
    if ostate == state
    then s
    else if state == established
    then record s {
      established_total = (s.established_total + 1) % u64;
      established_current = (s.established_current + 1) % u64;
    }
    else if state == closed || state == closing
    then if ostate == established
      then record s { established_current = (s.established_current + u64 - 1) % u64 }
      else if ostate == closed || ostate == closing
      then s
      else record s { established_failures = (s.established_failures + 1) % u64 }
    else s

unfoldable pub sa_state : Stats → Sa → ℕ → Sa × Stats
unfolding sa_stateok count_change
sa_state stats sa state =
    let moved : Sa = record sa { state = state } in
    let sa' = if sa.state != init && not (sa_stateok moved state) then sa else moved in
    (sa', count_change sa.state sa'.state stats)

-- pol_auth, as far as sa_new reads it.
pub record Auth : Type 0 where
  pub eap : Bool
  pub method : ℕ

abbrev pub shared_key_mic : ℕ
shared_key_mic = 2

-- flags & ~mask, for the nine bits of IKED_REQ_*.
abbrev pub clear : ℕ → ℕ → ℕ
clear flags mask = bit_and flags (0x1ff - mask)

-- What sa_new requires of an SA before the split between the two exchanges.
unfoldable pub required_of : Auth → ℕ
required_of auth =
    let base = bit_or (bit_or req_auth req_authvalid) req_sa in
    if auth.eap
    then bit_or base (bit_or req_cert req_eapvalid)
    else if auth.method != shared_key_mic
    then bit_or base (bit_or req_certvalid req_cert)
    else base

-- The fields sa_stateinit and sa_statevalid: an initiator asks for a part of it at SA_INIT.
unfoldable pub set_requirements : Bool → Auth → Sa → Sa
unfolding required_of
set_requirements initiator auth sa =
    let all = required_of auth in
    let diff = bit_or (bit_or req_certvalid req_authvalid) (bit_or req_sa req_eapvalid) in
    if initiator
    then record sa { stateinit = clear all diff; statevalid = bit_and all diff }
    else record sa { statevalid = all }

-- ===== src/Sa/Reach.antt =====
-- Sequences of calls of sa_state and sa_stateflags of iked/policy.c.
use openiked_portable.Base.{ℕ, ◌≡◌, ◌≢◌, bit_and, arith}
use openiked_portable.Sa.{Sa, Stats, init, valid, eap_valid, sa_stateflags, sa_state}
use openiked_portable.Sa.Bits.{subset-bit_or}

-- The operations on the state. From the state INIT a caller goes on to none of the states that
-- need an authenticated peer.
pub data Step : Sa → Sa → Type 0 where
  flag : (sa : Sa) (bits : ℕ) → Step sa (sa_stateflags sa bits)
  move :
      (stats : Stats) (sa : Sa) (state : ℕ)
      → (sa.state ≡ init → (state ≢ valid) × (state ≢ eap_valid))
      → Step sa (sa_state stats sa state).0

pub data Reach (s : Sa) : Sa → Type 0 where
  here : Reach s s
  next : {t u : Sa} → Reach s t → Step t u → Reach s u

-- In a valid state all the flags are set that the SA requires.
pub record IsAuthentic (sa : Sa) : Type 0 where
  pub at_valid : sa.state ≡ valid → bit_and sa.stateflags sa.statevalid ≡ sa.statevalid
  pub at_eap_valid : sa.state ≡ eap_valid → bit_and sa.stateflags sa.statevalid ≡ sa.statevalid

flag-IsAuthentic : (sa : Sa) (bits : ℕ) → IsAuthentic sa → IsAuthentic (sa_stateflags sa bits)
unfolding sa_stateflags
flag-IsAuthentic sa bits a = record {
  at_valid = λ e. subset-bit_or sa.stateflags bits sa.statevalid (a.at_valid e);
  at_eap_valid = λ e. subset-bit_or sa.stateflags bits sa.statevalid (a.at_eap_valid e);
}

move-IsAuthentic :
    (stats : Stats) (sa : Sa) (state : ℕ)
    → (sa.state ≡ init → (state ≢ valid) × (state ≢ eap_valid))
    → IsAuthentic sa
    → IsAuthentic (sa_state stats sa state).0
unfolding sa_state
move-IsAuthentic stats sa state h a = record {
  at_valid = λ e. ground (arith, a.at_valid, h);
  at_eap_valid = λ e. ground (arith, a.at_eap_valid, h);
}

Step-IsAuthentic : {s t : Sa} → Step s t → IsAuthentic s → IsAuthentic t
Step-IsAuthentic (flag sa bits) a = flag-IsAuthentic sa bits a
Step-IsAuthentic (move stats sa state h) a = move-IsAuthentic stats sa state h a

-- Whatever flags are set and whatever states are asked for, and in whatever order, from an SA in
-- the state INIT on: when the SA is in the state VALID or EAP_VALID, it has all the flags that
-- sa_new made it require, if no caller asks for one of the two states while it is in INIT.
pub Reach-IsAuthentic : {s t : Sa} → s.state ≡ init → Reach s t → IsAuthentic t
Reach-IsAuthentic e here = record {
  at_valid = λ v. absurd (omega arith);
  at_eap_valid = λ v. absurd (omega arith);
}
Reach-IsAuthentic e (next r st) = Step-IsAuthentic st (Reach-IsAuthentic e r)

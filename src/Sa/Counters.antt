-- ===== src/Sa/Counters.antt =====
-- The gauge of established SAs against the states of all SAs.
use openiked_portable.Base.{
  ℕ, zero, suc, ◌+◌, ◌<◌, ◌≡◌, ◌⊎◌, List, [], ◌∷◌, arith, ◌==◌, if◌then◌else◌, ◌-◌, ◌%◌, ◌≤◌,
  length,
}
use openiked_portable.Sa.{Sa, Stats, established, closing, closed, u64, sa_state, init}

-- 1 for an established SA.
abbrev pub counts : Sa → ℕ
counts sa = if sa.state == established then 1 else 0

-- All SAs of the daemon.
abbrev pub count_established : List Sa → ℕ
count_established [] = 0
count_established (sa ∷ sas) = counts sa + count_established sas

-- The SAs with the gauge.
pub record Daemon : Type 0 where
  pub sas : List Sa
  pub stats : Stats

-- A call of sa_state on the SA at a position of the list.
abbrev pub state_at : ℕ → ℕ → List Sa → Stats → List Sa × Stats
state_at i state [] stats = ([], stats)
state_at zero state (sa ∷ sas) stats =
    let (sa', stats') = sa_state stats sa state in (sa' ∷ sas, stats')
state_at (suc i) state (sa ∷ sas) stats =
    let (sas', stats') = state_at i state sas stats in (sa ∷ sas', stats')

unfoldable pub change : ℕ → ℕ → Daemon → Daemon
change i state d =
    let (sas', stats') = state_at i state d.sas d.stats in record { sas = sas'; stats = stats' }

-- An established SA is only closed.
abbrev pub OnlyClosed : ℕ → ℕ → List Sa → Type 0
OnlyClosed i state [] = Unit {0}
OnlyClosed zero state (sa ∷ sas) =
    sa.state ≡ established → (state ≡ established) ⊎ (state ≡ closing) ⊎ (state ≡ closed)
OnlyClosed (suc i) state (sa ∷ sas) = OnlyClosed i state sas

-- The gauge is right.
abbrev pub IsCounted : Daemon → Type 0
IsCounted d = d.stats.established_current ≡ count_established d.sas

one_change :
    (stats : Stats) (sa : Sa) (state rest : ℕ)
    → (sa.state ≡ established → (state ≡ established) ⊎ (state ≡ closing) ⊎ (state ≡ closed))
    → counts sa + rest + 1 < u64
    → stats.established_current ≡ counts sa + rest
    → (sa_state stats sa state).1.established_current ≡ counts (sa_state stats sa state).0 + rest
unfolding sa_state
one_change stats sa state rest only fits h = ground (arith, only)

state_at_counted :
    (i state before : ℕ) (sas : List Sa) (stats : Stats)
    → OnlyClosed i state sas
    → before + count_established sas + 1 < u64
    → stats.established_current ≡ before + count_established sas
    → (state_at i state sas stats).1.established_current
      ≡ before + count_established (state_at i state sas stats).0
state_at_counted i state before [] stats o f h = h
state_at_counted zero state before (sa ∷ sas) stats o f h = omega (
  arith,
  one_change stats sa state (before + count_established sas) o (omega arith) (omega arith),
)
state_at_counted (suc i) state before (sa ∷ sas) stats o f h =
    omega
      (arith, state_at_counted i state (before + counts sa) sas stats o (omega arith) (omega arith))

change-IsCounted :
    (i state : ℕ) (d : Daemon)
    → OnlyClosed i state d.sas
    → count_established d.sas + 1 < u64
    → IsCounted d
    → IsCounted (change i state d)
unfolding change
change-IsCounted i state d o f h =
    omega (arith, state_at_counted i state 0 d.sas d.stats o (omega arith) (omega arith))

-- config_free_sa of iked/config.c, as far as the gauge is concerned.
unfoldable pub config_free_sa : Sa → Stats → Stats
config_free_sa sa stats =
    if sa.state == established
    then record stats { established_current = (stats.established_current + u64 - 1) % u64 }
    else stats

unfoldable pub free_at : ℕ → List Sa → Stats → List Sa × Stats
unfolding config_free_sa
free_at i [] stats = ([], stats)
free_at zero (sa ∷ sas) stats = (sas, config_free_sa sa stats)
free_at (suc i) (sa ∷ sas) stats = let (sas', stats') = free_at i sas stats in (sa ∷ sas', stats')

-- What happens to the SAs: sa_new makes one in the state INIT, sa_state, and config_free_sa.
pub data Call : Type 0 where
  made : ℕ → ℕ → Call
  moved : ℕ → ℕ → Call
  freed : ℕ → Call

unfoldable pub call : Call → Daemon → Daemon
unfolding change free_at
call (made stateinit statevalid) d = record d {
  sas =
      record { state = init; stateflags = 0; stateinit = stateinit; statevalid = statevalid }
      ∷ d.sas;
}
call (moved i state) d = change i state d
call (freed i) d =
    let (sas', stats') = free_at i d.sas d.stats in record { sas = sas'; stats = stats' }

unfoldable pub run_calls : List Call → Daemon → Daemon
unfolding call
run_calls [] d = d
run_calls (c ∷ cs) d = run_calls cs (call c d)

-- No established SA is asked for another state than ESTABLISHED, CLOSING and CLOSED.
abbrev pub IsAllowed : Call → Daemon → Type 0
IsAllowed (made stateinit statevalid) d = Unit {0}
IsAllowed (moved i state) d = OnlyClosed i state d.sas
IsAllowed (freed i) d = Unit {0}

abbrev pub Allowed : List Call → Daemon → Type 0
Allowed [] d = Unit {0}
Allowed (c ∷ cs) d = IsAllowed c d × Allowed cs (call c d)

freed_counted :
    (i before : ℕ) (sas : List Sa) (stats : Stats)
    → before + count_established sas < u64
    → stats.established_current ≡ before + count_established sas
    → ((free_at i sas stats).1.established_current
        ≡ before + count_established (free_at i sas stats).0)
      × (count_established (free_at i sas stats).0 ≤ count_established sas)
unfolding free_at config_free_sa
freed_counted i before [] stats f h = (h, omega arith)
freed_counted zero before (sa ∷ sas) stats f h = (ground (arith, f, h), omega arith)
freed_counted (suc i) before (sa ∷ sas) stats f h =
    let (gauge, fewer) =
      freed_counted i (before + counts sa) sas stats (omega arith) (omega arith) in
    (omega (arith, gauge), omega (arith, fewer))

counts_one : (sa : Sa) → counts sa ≤ 1
counts_one sa = ground arith

state_at_more :
    (i state : ℕ) (sas : List Sa) (stats : Stats)
    → count_established (state_at i state sas stats).0 ≤ count_established sas + 1
state_at_more i state [] stats = omega arith
state_at_more zero state (sa ∷ sas) stats = omega (arith, counts_one (sa_state stats sa state).0)
state_at_more (suc i) state (sa ∷ sas) stats = omega (arith, state_at_more i state sas stats)

call-IsCounted :
    (c : Call) (d : Daemon)
    → IsAllowed c d
    → count_established d.sas + 1 < u64
    → IsCounted d
    → IsCounted (call c d) × (count_established (call c d).sas ≤ count_established d.sas + 1)
unfolding call change
call-IsCounted (made stateinit statevalid) d o f h = (omega (arith, h), omega arith)
call-IsCounted (moved i state) d o f h =
    (change-IsCounted i state d o f h, state_at_more i state d.sas d.stats)
call-IsCounted (freed i) d o f h =
    let (gauge, fewer) = freed_counted i 0 d.sas d.stats (omega arith) (omega (arith, h)) in
    (omega (arith, gauge), omega (arith, fewer))

-- Over any sequence of SAs that are made and freed and of calls of sa_state in which an established
-- SA is asked for no other states than ESTABLISHED, CLOSING and CLOSED: if
-- ikes_sa_established_current is the number of established SAs before, it is so afterwards, for
-- fewer than 2^64 established SAs and calls.
pub run_calls-IsCounted :
    (cs : List Call) (d : Daemon)
    → Allowed cs d
    → count_established d.sas + length cs < u64
    → IsCounted d
    → IsCounted (run_calls cs d)
unfolding run_calls
run_calls-IsCounted [] d a f h = h
run_calls-IsCounted (c ∷ cs) d a f h =
    let (gauge, more) = call-IsCounted c d a.0 (omega arith) h in
    run_calls-IsCounted cs (call c d) a.1 (omega (arith, more)) gauge

-- ===== src/Tests/Sa.antt =====
-- States of SAs.
use openiked_portable.Base.{◌≡◌, refl, [], ◌∷◌, arith, inl, inr, false, List}
use openiked_portable.Sa.{
  Sa, Stats, Auth, init, sa_init, valid, established, closing, sa_state, sa_stateflags,
  set_requirements,
}
use openiked_portable.Sa.Reach.{Reach, here, next, flag, move, IsAuthentic, Reach-IsAuthentic}
use openiked_portable.Sa.Counters.{
  Daemon, Call, made, moved, freed, run_calls, IsCounted, run_calls-IsCounted,
}
use openiked_portable.Sa.Requirements.{IsVerified, valid-IsVerified}

abbrev no_stats : Stats
no_stats = record { established_total = 0; established_current = 0; established_failures = 0 }

abbrev fresh : Sa
fresh = record { state = init; stateflags = 0; stateinit = 0; statevalid = 0x38 }

-- SA_INIT, then all flags, then VALID.
abbrev opened : Sa
opened = (sa_state no_stats fresh sa_init).0

abbrev proved : Sa
proved = sa_stateflags opened 0x38

abbrev done : Sa
done = (sa_state no_stats proved valid).0

done_valid : done.state ≡ valid
unfolding sa_state sa_stateflags
done_valid = refl

proved_state : proved.state ≡ sa_init
unfolding sa_state sa_stateflags
proved_state = refl

run : Reach fresh done
run =
    next (next (next here (move no_stats fresh sa_init (λ e. omega arith))) (flag opened 0x38))
      (move no_stats proved valid (λ e. absurd (omega (arith, proved_state))))

Reach-IsAuthentic_example : IsAuthentic done
Reach-IsAuthentic_example = Reach-IsAuthentic refl run

-- Without the flags the state stays.
refused : (sa_state no_stats opened valid).0.state ≡ sa_init
unfolding sa_state
refused = refl

abbrev daemon : Daemon
daemon = record {
  sas = fresh ∷ record fresh { state = established } ∷ [];
  stats = record no_stats { established_current = 1 };
}

abbrev history : List Call
history = made 0 0x38 ∷ moved 2 closing ∷ freed 2 ∷ []

daemon-IsCounted : IsCounted daemon
daemon-IsCounted = refl

run_calls-IsCounted_example : IsCounted (run_calls history daemon)
unfolding openiked_portable.Sa.Counters.call
run_calls-IsCounted_example =
    run_calls-IsCounted history daemon (tt, ((λ e. inr (inl refl)), (tt, tt))) (omega arith)
      daemon-IsCounted

-- A responder with signatures requires 0x3b.
abbrev signed : Auth
signed = record { eap = false; method = 1 }

abbrev answering : Sa
answering = set_requirements false signed fresh

abbrev answered : Sa
answered = (sa_state no_stats answering sa_init).0

abbrev shown : Sa
shown = sa_stateflags answered 0x3b

abbrev accepted : Sa
accepted = (sa_state no_stats shown valid).0

shown_state : shown.state ≡ sa_init
unfolding sa_state sa_stateflags set_requirements
shown_state = refl

accepted_valid : accepted.state ≡ valid
unfolding sa_state sa_stateflags set_requirements
accepted_valid = refl

to_valid : Reach answering accepted
to_valid =
    next
      (next (next here (move no_stats answering sa_init (λ e. omega arith))) (flag answered 0x3b))
      (move no_stats shown valid (λ e. absurd (omega (arith, shown_state))))

valid-IsVerified_example : IsVerified false signed accepted.stateflags
valid-IsVerified_example =
    valid-IsVerified false signed fresh accepted refl to_valid (inl accepted_valid)

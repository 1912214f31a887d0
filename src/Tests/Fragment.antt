-- ===== src/Tests/Fragment.antt =====
-- Fragments of a message.
use openiked_portable.Base.{ℕ, ◌≡◌, refl, some, List, [], ◌∷◌, arith}
use openiked_portable.Payload.Safety.{Ends}
use openiked_portable.Fragment.{Receiver, no_fragments, ikev2_pld_ef}
use openiked_portable.Fragment.Arrival.{Arrival}
use openiked_portable.Fragment.Balance.{IsBalanced, ikev2_pld_ef-IsBalanced}
use openiked_portable.Tests.Payload.{message}

abbrev idle : Receiver
idle = record {
  frags = no_fragments;
  stats = record { rcvd = 0; rcvd_drop = 0; reass_ok = 0; reass_drop = 0 };
}

abbrev parts : List (List ℕ)
parts = (1 ∷ 2 ∷ []) ∷ (3 ∷ []) ∷ []

abbrev second_part : Arrival
second_part = record { next = 0; num = 2; bytes = 3 ∷ [] }

abbrev first_part : Arrival
first_part = record { next = 35; num = 1; bytes = 1 ∷ 2 ∷ [] }

abbrev arrivals : List Arrival
arrivals = second_part ∷ second_part ∷ first_part ∷ []

ikev2_pld_ef-IsBalanced_example :
    Ends
      (λ o. IsBalanced o.0)
      (λ n. n ≡ message (0 ∷ 1 ∷ 0 ∷ 2 ∷ 9 ∷ []))
      (ikev2_pld_ef some 35 0 5 (message (0 ∷ 1 ∷ 0 ∷ 2 ∷ 9 ∷ [])) idle)
ikev2_pld_ef-IsBalanced_example =
    ikev2_pld_ef-IsBalanced some 35 0 5 (message (0 ∷ 1 ∷ 0 ∷ 2 ∷ 9 ∷ [])) idle (omega arith)
      (record { idle = λ e. refl; even = refl })

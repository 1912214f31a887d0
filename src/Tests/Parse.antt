-- ===== src/Tests/Parse.antt =====
-- A whole message.
use openiked_portable.Parse.{Parsing, ikev2_pld_parse, accepted, Parsed}
use openiked_portable.Parse.Rounds.{IsSafe, Parses}
use openiked_portable.Parse.Within.{ikev2_pld_parse-IsSafe}
use openiked_portable.Fragment.{Receiver, no_fragments}
use openiked_portable.Payload.{Message}
use openiked_portable.Tests.Payload.{message}
use openiked_portable.Tests.Notify.{context, no_notices}
use openiked_portable.Base.{
  List, false, ◌≡◌, [], ◌∷◌, some, Bool, true, ℕ, none, ◌++◌, Option, refl,
}
use openiked_portable.Parse.Clear.{ikev2_pld_parse-Shielded}
use openiked_portable.Parse.Shielded.{Shielded}

abbrev no_name : List ℕ → Option ℕ
no_name der = none

abbrev eap_success : List ℕ → Bool → Bool
eap_success eap response = true

-- A cipher that does nothing.
abbrev open_text : Bool → List ℕ → Option (List ℕ)
open_text frompeer body = some body

abbrev nothing_received : Receiver
nothing_received = record {
  frags = no_fragments;
  stats = record { rcvd = 0; rcvd_drop = 0; reass_ok = 0; reass_drop = 0 };
}

-- Behind a header of zeros, an encrypted payload with a nonce in it.
abbrev header_bytes : List ℕ
header_bytes =
    0 ∷ 0 ∷ 0 ∷ 0 ∷ 0 ∷ 0 ∷ 0 ∷ 0 ∷ 0 ∷ 0 ∷ 0 ∷ 0 ∷ 0 ∷ 0 ∷ 0 ∷ 0 ∷ 46 ∷ 32 ∷ 35 ∷ 8 ∷ 0 ∷ 0 ∷ 0 ∷ 1
    ∷ 0 ∷ 0 ∷ 0 ∷ 38 ∷ []

abbrev sealed_message : Message
sealed_message = message (header_bytes ++ (40 ∷ 0 ∷ 0 ∷ 10 ∷ 0 ∷ 0 ∷ 0 ∷ 6 ∷ 7 ∷ 8 ∷ []))

abbrev sealed_parsing : Parsing
sealed_parsing = record { msg = sealed_message; notices = no_notices; receiver = nothing_received }

abbrev nonce_of : Parsed → Option (List ℕ)
nonce_of (accepted p) = p.msg.nonce
nonce_of _ = none

nonce_is_found :
    nonce_of (ikev2_pld_parse no_name eap_success context open_text false 46 38 0 sealed_parsing)
    ≡ some (7 ∷ 8 ∷ [])
unfolding openiked_portable.Parse.ikev2_pld_parse
nonce_is_found = refl

ikev2_pld_parse-IsSafe_example :
    IsSafe sealed_message.msg_data
      (ikev2_pld_parse no_name eap_success context open_text false 46 38 0 sealed_parsing)
ikev2_pld_parse-IsSafe_example =
    ikev2_pld_parse-IsSafe no_name eap_success context open_text 46 38 0 sealed_parsing

abbrev no_text : Bool → List ℕ → Option (List ℕ)
no_text frompeer body = none

ikev2_pld_parse-Shielded_example :
    Parses
      (Shielded context sealed_parsing)
      (ikev2_pld_parse no_name eap_success context no_text true 46 38 0 sealed_parsing)
ikev2_pld_parse-Shielded_example =
    ikev2_pld_parse-Shielded no_name eap_success context no_text true (λ b bs. refl) 46 38 0
      sealed_parsing refl

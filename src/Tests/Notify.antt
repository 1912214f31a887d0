-- ===== src/Tests/Notify.antt =====
-- Notifications.
use openiked_portable.Base.{◌≡◌, refl, true, false, none, [], ◌∷◌, arith}
use openiked_portable.Payload.{Message}
use openiked_portable.Payload.Safety.{Ends}
use openiked_portable.Notify.{Notices, Context, ikev2_pld_notify}
use openiked_portable.Notify.Plain.{Untouched, ikev2_pld_notify-Leaves}
use openiked_portable.Tests.Payload.{message}

abbrev pub no_notices : Notices
no_notices = record {
  nat_detected = 0;
  natt_rcvd = false;
  flags = 0;
  group = [];
  rekey = record { spi = 0; spi_size = 0; spi_protoid = 0 };
  cpi = [];
  transform = [];
  update_sa_addresses = false;
  cookie = none;
  cookie2 = none;
}

abbrev pub context : Context
context = record {
  sa = record { state = 0; stateflags = 0; stateinit = 0; statevalid = 0 };
  sa_mobike = true;
  sa_sigsha2 = false;
  transport = false;
  digest = none;
}

-- REKEY_SA for an ESP SA, in the clear.
abbrev rekey_request : Message
rekey_request = message (3 ∷ 4 ∷ 64 ∷ 9 ∷ 1 ∷ 2 ∷ 3 ∷ 4 ∷ [])

ikev2_pld_notify-Leaves_example :
    Ends
      (Untouched context no_notices)
      (λ k. k ≡ rekey_request)
      (ikev2_pld_notify context 0 8 rekey_request no_notices)
ikev2_pld_notify-Leaves_example =
    ikev2_pld_notify-Leaves context no_notices rekey_request refl 0 8 (omega arith)

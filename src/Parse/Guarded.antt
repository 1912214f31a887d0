-- ===== src/Parse/Guarded.antt =====
-- The fields that only an encrypted message may set, in the parsers of the payloads that need no
-- encryption.
use openiked_portable.Payload.Safety.{
  Ends, returns, rejects, bind_rule, reject_rule, memcpy_rule, header,
}
use openiked_portable.Payload.Bounds.{guards}
use openiked_portable.Payload.Accepted.{ikev2_pld_sa-Ends}
use openiked_portable.Base.{
  ap, arith, some, ◌≡◌, ◌&&◌, not, ◌≤◌, ◌-◌, ◌+◌, Bool, ℕ, ◌%◌, ◌||◌, refl, length, if_rule, ◌==◌,
  is_some, ◌!=◌,
}
use openiked_portable.Payload.{Outcome, be16, byte, Message, ok, ◌>>◌}
use openiked_portable.Payload.Association.{ikev2_pld_sa}
use openiked_portable.Payload.Configuration.{print_hex}
use openiked_portable.Payload.Fields.{
  ikev2_pld_nonce, request, ikev2_pld_certreq, ikev2_pld_ke, sha_digest_length,
  ikev2_validate_certreq, ikev2_validate_ke, cert_x509_cert, store_certreq, store_once,
}
use openiked_portable.Payload.Offered.{Kept}

-- The buffer and the fields that only an encrypted message may set are as they were.
pub record Guards (m k : Message) : Type 0 where
  pub buffer : k.msg_data ≡ m.msg_data
  pub guard : guards k ≡ guards m

abbrev pub Guarding : Message → Outcome Message → Type 0
Guarding m o = Ends (Guards m) (Guards m) o

pub Guards-refl : (m k : Message) → k ≡ m → Guards m k
Guards-refl m k e = record { buffer = ap (λ l. l.msg_data) e; guard = ap guards e }

store_once-Guarding : (full : Bool) (m k : Message) → Guards m k → Guarding m (store_once full m k)
store_once-Guarding full m k g =
    if_rule (Guarding m) m.frompeer _ _
      (λ y. if_rule (Guarding m) full _ _ (λ t. rejects (Guards-refl m m refl)) (λ t. returns g))
      (λ n. returns (Guards-refl m m refl))

module _ (offset left : ℕ) (m : Message) (h : offset + left ≤ length m.msg_data) where
  same_m : Guards m m
  same_m = Guards-refl m m refl

  pub ke-Guarding : Guarding m (ikev2_pld_ke offset left m)
  unfolding ikev2_pld_ke ikev2_validate_ke
  ke-Guarding = header 4 offset left m same_m h (λ enough kex.
      reject_rule (left - 4 == 0) m same_m (λ e.
        bind_rule (memcpy_rule (offset + 4) (left - 4) m (omega arith)) (λ buf l.
          store_once-Guarding (is_some m.ke) m (record m { ke = some buf; dhgroup = be16 kex 0 })
            (record { buffer = refl; guard = refl }))))

  pub nonce-Guarding : Guarding m (ikev2_pld_nonce offset left m)
  unfolding ikev2_pld_nonce
  nonce-Guarding = reject_rule (left == 0) m same_m (λ e.
      bind_rule (memcpy_rule offset left m h) (λ buf l.
        store_once-Guarding (is_some m.nonce) m (record m { nonce = some buf })
          (record { buffer = refl; guard = refl })))

  pub certreq-Guarding : Guarding m (ikev2_pld_certreq offset left m)
  unfolding ikev2_pld_certreq ikev2_validate_certreq request store_certreq
  certreq-Guarding = header 1 offset left m same_m h (λ enough cert.
      bind_rule (memcpy_rule (offset + 1) (left - 1) m (omega arith)) (λ buf l.
        if_rule (Guarding m) (not m.frompeer || (byte cert 0 == cert_x509_cert && left - 1 == 0)) _
          _ (λ y. returns same_m)
          (λ n.
            if_rule (Guarding m)
              (byte cert 0 == cert_x509_cert && (left - 1) % sha_digest_length != 0) _ _
              (λ y. rejects same_m) (λ z. returns (record { buffer = refl; guard = refl })))))

  pub sa-Guarding : Guarding m (ikev2_pld_sa offset left m)
  sa-Guarding = go (ikev2_pld_sa-Ends offset left m h)
    where
      go : {o : Outcome Message} → Ends (Kept m) (Kept m) o → Guarding m o
      go (returns k) = returns (record { buffer = k.buffer; guard = k.guard })
      go (rejects k) = rejects (record { buffer = k.buffer; guard = k.guard })

  pub printed-Guarding : (verbose : Bool) → Guarding m (print_hex verbose offset left m >> ok m)
  unfolding print_hex
  printed-Guarding verbose =
      bind_rule
        (if_rule (Ends (λ u. Unit {0}) (Guards m)) (not verbose || left == 0) _ _ (λ y. returns tt)
          (λ z. bind_rule (memcpy_rule offset left m h) (λ bytes l. returns tt)))
        (λ u e. returns same_m)

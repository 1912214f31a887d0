-- ===== src/Notify/Total.antt =====
-- That ikev2_pld_notify ends on every notification, encrypted or not.
use openiked_portable.Payload.Safety.{Ends, returns, rejects, bind_rule, header}
use openiked_portable.Base.{
  refl, ◌≡◌, ℕ, none, some, List, Option, ◌-◌, ◌||◌, Bool, ◌≤◌, ◌+◌, length, leb, ◌!=◌, ◌==◌,
  if◌then◌else◌, if_rule,
}
use openiked_portable.Notify.{
  store_cookie, Notices, store_cookie2, Notice, protected_notify, Context, fragmentation,
  ikev2_validate_notify, compare_digest, is_protected, ibuf_seek, plain_notify,
  authentication_failed, nat_detection, ikev2_pld_notify, set_flag, rekey_sa, invalid_ke,
  update_addresses, notify, use_transport, signature_hashes,
}
use openiked_portable.Payload.{byte, Message, failed, ok, invalid, Outcome, be16, ◌>>=◌}

module _ (m : Message) where
  abbrev pub Fine : Outcome Notices → Type 0
  Fine o = Ends (λ k. Unit {0}) (λ k. k ≡ m) o

  module _ (ctx : Context) (n : Notices) (x : Notice) where
    compare_digest-Fine : (d : Option (List ℕ)) → Fine (compare_digest x d m n)
    unfolding compare_digest
    compare_digest-Fine none = rejects refl
    compare_digest-Fine (some md) = returns tt

    refuse_or : (b : Bool) (k : Notices) → Fine (if b then failed invalid m else ok k)
    refuse_or b k = if_rule Fine b _ _ (λ y. rejects refl) (λ z. returns tt)

    refuse_or_keep :
        (b c : Bool) (k : Notices) → Fine (if b then failed invalid m else if c then ok n else ok k)
    refuse_or_keep b c k =
        if_rule Fine b _ _ (λ y. rejects refl)
          (λ z. if_rule Fine c _ _ (λ y. returns tt) (λ w. returns tt))

    plain_notify-Fine : Fine (plain_notify ctx x m n)
    unfolding plain_notify nat_detection invalid_ke signature_hashes store_cookie fragmentation
    plain_notify-Fine =
        if_rule Fine (x.type == 16388 || x.type == 16389) _ _
          (λ y.
            if_rule Fine (length x.buf != 20) _ _ (λ a. rejects refl)
              (λ a. compare_digest-Fine ctx.digest))
          (λ a.
            if_rule Fine (x.type == 17) _ _ (λ y. refuse_or _ _)
              (λ b.
                if_rule Fine (x.type == 14) _ _ (λ y. returns tt)
                  (λ c.
                    if_rule Fine (x.type == 16390) _ _ (λ y. refuse_or_keep _ _ _)
                      (λ d.
                        if_rule Fine (x.type == 16430) _ _ (λ y. refuse_or_keep _ _ _)
                          (λ e.
                            if_rule Fine (x.type == 16431) _ _ (λ y. refuse_or_keep _ _ _)
                              (λ f. returns tt))))))

    protected_notify-Fine : Fine (protected_notify ctx x m n)
    unfolding protected_notify authentication_failed rekey_sa
    protected_notify-Fine =
        if_rule Fine (x.type == 24) _ _ (λ y. refuse_or _ _)
          (λ a.
            if_rule Fine (x.type == 35) _ _ (λ y. returns tt)
              (λ b.
                if_rule Fine (x.type == 16393) _ _ (λ y. refuse_or _ _)
                  (λ c.
                    if_rule Fine (x.type == 43) _ _ (λ y. returns tt)
                      (λ d.
                        if_rule Fine (x.type == 16387) _ _ (λ y. returns tt)
                          (λ e. if_rule Fine (x.type == 44) _ _ (λ y. returns tt) (λ f. late))))))
      where
        late : Fine (
            if x.type == 16396
            then ok (if length x.buf != 0 then n else set_flag 0x2 n)
            else if x.type == 16391
            then ok (use_transport ctx x m n)
            else if x.type == 16400
            then ok (update_addresses ctx x n)
            else ok (store_cookie2 ctx x n))
        late =
            if_rule Fine (x.type == 16396) _ _ (λ y. returns tt)
              (λ g.
                if_rule Fine (x.type == 16391) _ _ (λ y. returns tt)
                  (λ h. if_rule Fine (x.type == 16400) _ _ (λ y. returns tt) (λ i. returns tt)))

    notify-Fine : Fine (notify ctx x m n)
    unfolding notify
    notify-Fine =
        if_rule Fine (is_protected x.type) _ _
          (λ p. if_rule Fine m.encrypted _ _ (λ y. protected_notify-Fine) (λ k. rejects refl))
          (λ k. plain_notify-Fine)

pub seek-Ends :
    {A : Type 0} {P : A → Type 0} (m : Message) (offset len : ℕ) {f : List ℕ → Outcome A}
    → ((bs : List ℕ) → Ends P (λ k. k ≡ m) (f bs))
    → Ends P (λ k. k ≡ m) (ibuf_seek offset len m >>= f)
unfolding ibuf_seek
seek-Ends m offset len k =
    bind_rule
      (if_rule (Ends (λ bs. Unit {0}) (λ l. l ≡ m)) (leb (offset + len) (length m.msg_data)) _ _
        (λ y. returns tt) (λ e. rejects refl))
      (λ bs u. k bs)

pub ikev2_pld_notify-Fine :
    (ctx : Context) (offset left : ℕ) (m : Message) (n : Notices)
    → offset + left ≤ length m.msg_data
    → Fine m (ikev2_pld_notify ctx offset left m n)
unfolding ikev2_pld_notify ikev2_validate_notify
ikev2_pld_notify-Fine ctx offset left m n h = header 4 offset left m refl h (λ four hd.
    seek-Ends m (offset + 4) (left - 4) (λ buf.
      if_rule (Fine m) m.frompeer _ _
        (λ y.
          notify-Fine m ctx n
            (record { protoid = byte hd 0; spisize = byte hd 1; type = be16 hd 2; buf = buf }))
        (λ e. returns tt)))

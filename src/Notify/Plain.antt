-- ===== src/Notify/Plain.antt =====
-- Notifications that come in the clear.
use openiked_portable.Base.{
  ℕ, ◌+◌, ◌-◌, ◌%◌, ◌≤◌, ◌≡◌, ◌⊎◌, inl, inr, refl, ◌&&◌, ◌||◌, not, false, Option, none, some, List,
  ltb, leb, ◌==◌, ◌!=◌, length, bit_or, if_rule, arith,
}
use openiked_portable.Sa.{sa_stateok, valid}
use openiked_portable.Payload.{Message, Outcome, ◌>>=◌, byte, be16}
use openiked_portable.Payload.Safety.{Ends, returns, rejects, bind_rule, header}
use openiked_portable.Notify.{
  Notices, Context, Notice, set_flag, compare_digest, nat_detection, invalid_ke, any_sha2,
  signature_hashes, store_cookie, fragmentation, plain_notify, is_protected, notify,
  ikev2_validate_notify, ibuf_seek, ikev2_pld_notify,
}

-- The flags that a notification may set in the clear: FRAGMENTATION, SIGSHA2, NO_PROPOSAL_CHOSEN,
-- and INVALID_KE for an SA that is not valid yet.
pub data Clear (ctx : Context) : ℕ → Type 0 where
  fragments : Clear ctx 0x1
  sigsha2 : Clear ctx 0x4
  no_proposal : Clear ctx 0x400
  wrong_group : sa_stateok ctx.sa valid ≡ false → Clear ctx 0x40

-- Nothing that needs protection is changed.
pub record Untouched (ctx : Context) (n k : Notices) : Type 0 where
  pub rekey : k.rekey ≡ n.rekey
  pub cpi : k.cpi ≡ n.cpi
  pub transform : k.transform ≡ n.transform
  pub addresses : k.update_sa_addresses ≡ n.update_sa_addresses
  pub cookie2 : k.cookie2 ≡ n.cookie2
  pub flags : (k.flags ≡ n.flags) ⊎ ((f : ℕ) × Clear ctx f × (k.flags ≡ bit_or n.flags f))

module _ (ctx : Context) (n : Notices) where
  same-Untouched : Untouched ctx n n
  same-Untouched = record {
    rekey = refl;
    cpi = refl;
    transform = refl;
    addresses = refl;
    cookie2 = refl;
    flags = inl refl;
  }

  flag-Untouched : (f : ℕ) → Clear ctx f → Untouched ctx n (set_flag f n)
  flag-Untouched f c = record {
    rekey = refl;
    cpi = refl;
    transform = refl;
    addresses = refl;
    cookie2 = refl;
    flags = inr (f, c, refl);
  }

  module _ (m : Message) (clear : m.encrypted ≡ false) where
    abbrev Leaves : Outcome Notices → Type 0
    Leaves o = Ends (Untouched ctx n) (λ k. k ≡ m) o

    compare_digest-Leaves : (x : Notice) (d : Option (List ℕ)) → Leaves (compare_digest x d m n)
    unfolding compare_digest
    compare_digest-Leaves x none = rejects refl
    compare_digest-Leaves x (some md) = returns (record {
      rekey = refl;
      cpi = refl;
      transform = refl;
      addresses = refl;
      cookie2 = refl;
      flags = inl refl;
    })

    nat_detection-Leaves : (x : Notice) → Leaves (nat_detection ctx x m n)
    unfolding nat_detection
    nat_detection-Leaves x =
        if_rule Leaves (length x.buf != 20) _ _ (λ y. rejects refl)
          (λ k. compare_digest-Leaves x ctx.digest)

    invalid_ke-Leaves : (x : Notice) → Leaves (invalid_ke ctx x m n)
    unfolding invalid_ke
    invalid_ke-Leaves x =
        if_rule Leaves ((sa_stateok ctx.sa valid && not m.encrypted) || length x.buf != 2) _ _
          (λ y. rejects refl)
          (λ k.
            let early : sa_stateok ctx.sa valid ≡ false = ground (arith, clear, k) in
            returns (record {
              rekey = refl;
              cpi = refl;
              transform = refl;
              addresses = refl;
              cookie2 = refl;
              flags = inr (0x40, wrong_group early, refl);
            }))

    signature_hashes-Leaves : (x : Notice) → Leaves (signature_hashes ctx x m n)
    unfolding signature_hashes
    signature_hashes-Leaves x =
        if_rule Leaves m.encrypted _ _ (λ y. rejects refl)
          (λ e.
            if_rule Leaves (ctx.sa_sigsha2 || ltb (length x.buf) 2 || length x.buf % 2 != 0) _ _
              (λ y. returns same-Untouched)
              (λ k. returns (
                if_rule (Untouched ctx n) (any_sha2 x.buf) _ _ (λ y. flag-Untouched 0x4 sigsha2)
                  (λ z. same-Untouched))))

    store_cookie-Leaves : (x : Notice) → Leaves (store_cookie x m n)
    unfolding store_cookie
    store_cookie-Leaves x =
        if_rule Leaves m.encrypted _ _ (λ y. rejects refl)
          (λ e.
            if_rule Leaves (ltb (length x.buf) 1 || ltb 64 (length x.buf)) _ _
              (λ y. returns same-Untouched)
              (λ k. returns (record {
                rekey = refl;
                cpi = refl;
                transform = refl;
                addresses = refl;
                cookie2 = refl;
                flags = inl refl;
              })))

    fragmentation-Leaves : (x : Notice) → Leaves (fragmentation x m n)
    unfolding fragmentation
    fragmentation-Leaves x =
        if_rule Leaves m.encrypted _ _ (λ y. rejects refl)
          (λ e.
            if_rule Leaves (length x.buf != 0) _ _ (λ y. returns same-Untouched)
              (λ k. returns (flag-Untouched 0x1 fragments)))

    plain_notify-Leaves : (x : Notice) → Leaves (plain_notify ctx x m n)
    unfolding plain_notify
    plain_notify-Leaves x =
        if_rule Leaves (x.type == 16388 || x.type == 16389) _ _ (λ y. nat_detection-Leaves x)
          (λ a.
            if_rule Leaves (x.type == 17) _ _ (λ y. invalid_ke-Leaves x)
              (λ b.
                if_rule Leaves (x.type == 14) _ _ (λ y. returns (flag-Untouched 0x400 no_proposal))
                  (λ c.
                    if_rule Leaves (x.type == 16390) _ _ (λ y. store_cookie-Leaves x)
                      (λ d.
                        if_rule Leaves (x.type == 16430) _ _ (λ y. fragmentation-Leaves x)
                          (λ e.
                            if_rule Leaves (x.type == 16431) _ _ (λ y. signature_hashes-Leaves x)
                              (λ f. returns same-Untouched))))))

    notify-Leaves : (x : Notice) → Leaves (notify ctx x m n)
    unfolding notify
    notify-Leaves x =
        if_rule Leaves (is_protected x.type) _ _
          (λ p. if_rule Leaves m.encrypted _ _ (λ y. absurd (cc (clear, y))) (λ k. rejects refl))
          (λ k. plain_notify-Leaves x)

    seek-Leaves :
        (offset len : ℕ) {f : List ℕ → Outcome Notices}
        → ((bs : List ℕ) → Leaves (f bs))
        → Leaves (ibuf_seek offset len m >>= f)
    unfolding ibuf_seek
    seek-Leaves offset len k =
        bind_rule
          (if_rule (Ends (λ bs. Unit {0}) (λ l. l ≡ m)) (leb (offset + len) (length m.msg_data)) _ _
            (λ y. returns tt) (λ e. rejects refl))
          (λ bs u. k bs)

    -- A notification in a message that is not encrypted, which lies in the message buffer: it
    -- cannot name an SA to rekey, announce IPComp or a cookie for MOBIKE, or update the addresses
    -- of the SA, and it sets at most one flag: FRAGMENTATION, SIGSHA2, NO_PROPOSAL_CHOSEN, or, if
    -- the SA is not valid yet, INVALID_KE. An error leaves the message as it is.
    pub ikev2_pld_notify-Leaves :
        (offset left : ℕ)
        → offset + left ≤ length m.msg_data
        → Ends (Untouched ctx n) (λ k. k ≡ m) (ikev2_pld_notify ctx offset left m n)
    unfolding ikev2_pld_notify ikev2_validate_notify
    ikev2_pld_notify-Leaves offset left h = header 4 offset left m refl h (λ four hd.
        seek-Leaves (offset + 4) (left - 4) (λ buf.
          if_rule Leaves m.frompeer _ _
            (λ y.
              notify-Leaves
                (record { protoid = byte hd 0; spisize = byte hd 1; type = be16 hd 2; buf = buf }))
            (λ e. returns same-Untouched)))

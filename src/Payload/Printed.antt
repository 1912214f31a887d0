-- ===== src/Payload/Printed.antt =====
-- ikev2_pld_cp of iked/ikev2_pld.c and the bounds of its payload, verbose or not.
use openiked_portable.Base.{
  ℕ, zero, suc, ◌+◌, ◌-◌, ◌≤◌, ◌<◌, ◌≡◌, ◌≢◌, ◌∙◌, refl, true, false, not, ◌||◌, Option, none, some,
  ltb, leb, ◌==◌, if◌then◌else◌, length, take, drop, is_some, arith, if_rule,
}
use openiked_portable.Addr.{af_inet, af_inet6}
use openiked_portable.Payload.{Message, CfgAddr, Cursor, Outcome, ok, fault, memcpy, byte, be16}
use openiked_portable.Payload.Safety.{
  Ends, returns, rejects, bind_rule, reject_rule, memcpy_rule, header,
}
use openiked_portable.Payload.Configuration.{
  print_hex, ikev2_validate_cp, taken, set_addr, store_addr, store_cfg, cfg_round, cfg_loop, set_cp,
  ikev2_pld_cp, cfg_ip4_address, cfg_ip6_address, cfg_ip4_dns, cfg_ip6_dns,
}

-- Addresses that are set stay, and the buffer too.
pub record Settles (m n : Message) : Type 0 where
  pub buffer : n.msg_data ≡ m.msg_data
  pub addr : (a : CfgAddr) → m.cp_addr ≡ some a → n.cp_addr ≡ some a
  pub addr6 : (a : CfgAddr) → m.cp_addr6 ≡ some a → n.cp_addr6 ≡ some a
  pub dns : (a : CfgAddr) → m.cp_dns ≡ some a → n.cp_dns ≡ some a

Settles-refl : (m : Message) → Settles m m
Settles-refl m = record { buffer = refl; addr = λ a e. e; addr6 = λ a e. e; dns = λ a e. e }

Settles-trans : {l m n : Message} → Settles l m → Settles m n → Settles l n
Settles-trans s t = record {
  buffer = t.buffer ∙ s.buffer;
  addr = λ a e. t.addr a (s.addr a e);
  addr6 = λ a e. t.addr6 a (s.addr6 a e);
  dns = λ a e. t.dns a (s.dns a e);
}

after :
    {l m : Message} {o : Outcome Message}
    → Settles l m
    → Ends (Settles m) (Settles m) o
    → Ends (Settles l) (Settles l) o
after s (returns t) = returns (Settles-trans s t)
after s (rejects t) = rejects (Settles-trans s t)

free_is : {A : Type 0} (o : Option A) → is_some o ≡ false → (a : A) → o ≢ some a
free_is none e a h = cc h
free_is (some b) e a h = cc e

set_addr-Settles :
    (type : ℕ) (a : CfgAddr) (m : Message) → taken type m ≡ false → Settles m (set_addr type a m)
unfolding set_addr taken
set_addr-Settles type a m h =
    if_rule (Settles m) (type == cfg_ip4_address) _ _
      (λ y.
        let free : is_some m.cp_addr ≡ false = rw y at h in
        record {
          buffer = refl;
          addr = λ b e. absurd (free_is m.cp_addr free b e);
          addr6 = λ b e. e;
          dns = λ b e. e;
        })
      (λ n.
        let h' : (if type == cfg_ip6_address then is_some m.cp_addr6 else is_some m.cp_dns)
            ≡ false =
          rw n at h in
        if_rule (Settles m) (type == cfg_ip6_address) _ _
          (λ y.
            let free : is_some m.cp_addr6 ≡ false = rw y at h' in
            record {
              buffer = refl;
              addr = λ b e. e;
              addr6 = λ b e. absurd (free_is m.cp_addr6 free b e);
              dns = λ b e. e;
            })
          (λ k.
            let free : is_some m.cp_dns ≡ false = rw k at h' in
            record {
              buffer = refl;
              addr = λ b e. e;
              addr6 = λ b e. e;
              dns = λ b e. absurd (free_is m.cp_dns free b e);
            }))

store_addr-Ends :
    (family size type len offset : ℕ) (m : Message)
    → offset + len ≤ length m.msg_data
    → Ends (Settles m) (Settles m) (store_addr family size type len offset m)
unfolding store_addr
store_addr-Ends family size type len offset m h =
    if_rule (Ends (Settles m) (Settles m)) (not m.frompeer || len == 0) _ _
      (λ y. returns (Settles-refl m))
      (λ n.
        if_rule (Ends (Settles m) (Settles m)) (ltb len size) _ _ (λ y. rejects (Settles-refl m))
          (λ k.
            let enough : size ≤ len = ground arith in
            if_rule (Ends (Settles m) (Settles m)) (taken type m) _ _
              (λ y. returns (Settles-refl m))
              (λ free.
                bind_rule (memcpy_rule offset size m (omega arith))
                  (λ bytes e. returns (set_addr-Settles type _ m free)))))

store_cfg-Ends :
    (type len offset : ℕ) (m : Message)
    → offset + len ≤ length m.msg_data
    → Ends (Settles m) (Settles m) (store_cfg type len offset m)
unfolding store_cfg
store_cfg-Ends type len offset m h =
    if_rule (Ends (Settles m) (Settles m)) (type == cfg_ip4_address || type == cfg_ip4_dns) _ _
      (λ y. store_addr-Ends af_inet 4 type len offset m h)
      (λ n.
        if_rule (Ends (Settles m) (Settles m)) (type == cfg_ip6_address || type == cfg_ip6_dns) _ _
          (λ y. store_addr-Ends af_inet6 16 type len offset m h) (λ k. returns (Settles-refl m)))

-- A round of the loop over the attributes, when nothing is printed.
record Steps (c d : Cursor) : Type 0 where
  end : d.offset + d.left ≡ c.offset + c.left
  less : d.left + 4 ≤ c.left
  settles : Settles c.msg d.msg

cfg_round-Ends :
    (c : Cursor)
    → c.offset + c.left ≤ length c.msg.msg_data
    → Ends (Steps c) (Settles c.msg) (cfg_round false c)
unfolding cfg_round print_hex
cfg_round-Ends c h =
    let stay = Settles-refl c.msg in
    reject_rule (ltb c.left 4) c.msg stay (λ a.
      let four : 4 ≤ c.left = ground arith in
      bind_rule (memcpy_rule c.offset 4 c.msg (omega arith)) (λ cfg e.
        reject_rule (ltb (c.left - 4) (be16 cfg 2)) c.msg stay (λ b.
          let fits : be16 cfg 2 ≤ c.left - 4 = ground arith in
          bind_rule (store_cfg-Ends (be16 cfg 0) (be16 cfg 2) (c.offset + 4) c.msg (omega arith))
            (λ m s. returns (record { end = omega arith; less = omega arith; settles = s })))))

cfg_loop-Ends :
    (n : ℕ) (c : Cursor)
    → c.offset + c.left ≤ length c.msg.msg_data
    → c.left < n
    → Ends (Settles c.msg) (Settles c.msg) (cfg_loop false n c)
unfolding cfg_loop
cfg_loop-Ends zero c h k = absurd (omega arith)
cfg_loop-Ends (suc n) c h k =
    if_rule (Ends (Settles c.msg) (Settles c.msg)) (c.left == 0) _ _
      (λ y. returns (Settles-refl c.msg))
      (λ z. bind_rule (cfg_round-Ends c h) (λ d s.
        after s.settles
          (cfg_loop-Ends n d (rw s.settles.buffer (omega (arith, s.end))) (omega (arith, s.less)))))

set_cp-Settles : (type : ℕ) (m : Message) → Settles m (set_cp type m)
set_cp-Settles type m =
    if_rule (Settles m) m.frompeer _ _
      (λ y. record { buffer = refl; addr = λ a e. e; addr6 = λ a e. e; dns = λ a e. e })
      (λ n. Settles-refl m)

-- On any CP payload that lies in the message buffer, whatever its bytes are, and a daemon that
-- does not print what it reads: ikev2_pld_cp reads nothing outside the buffer and ends, and an
-- address that an earlier attribute or payload has set stays.
pub ikev2_pld_cp-Ends :
    (offset left : ℕ) (m : Message)
    → offset + left ≤ length m.msg_data
    → Ends (Settles m) (Settles m) (ikev2_pld_cp false offset left m)
unfolding ikev2_pld_cp ikev2_validate_cp print_hex
ikev2_pld_cp-Ends offset left m h = header 4 offset left m (Settles-refl m) h (λ four cp.
    bind_rule
      (cfg_loop-Ends (suc (left - 4)) (record { offset = offset + 4; left = left - 4; msg = m })
        (omega arith) (omega arith))
      (λ n s. returns (Settles-trans s (set_cp-Settles (byte cp 0) n))))

copied :
    (offset n : ℕ) (m : Message)
    → offset + n ≤ length m.msg_data
    → memcpy offset n m ≡ ok (take n (drop offset m.msg_data))
unfolding memcpy
copied offset n m h =
    let inside : leb (offset + n) (length m.msg_data) ≡ true = ground arith in rw inside refl

outside : (offset n : ℕ) (m : Message) → length m.msg_data < offset + n → memcpy offset n m ≡ fault
unfolding memcpy
outside offset n m h =
    let out : leb (offset + n) (length m.msg_data) ≡ false = ground arith in rw out refl

overread_round :
    (offset len : ℕ) (m : Message)
    → offset + 4 + len ≡ length m.msg_data
    → 0 < len
    → be16 (take 4 (drop offset m.msg_data)) 2 ≡ len
    → cfg_round true (record { offset = offset; left = 4 + len; msg = m }) ≡ fault
unfolding cfg_round print_hex
overread_round offset len m h k e =
    let long : ltb (4 + len) 4 ≡ false = ground arith in
    let fits : ltb (4 + len - 4) len ≡ false = ground arith in
    let some_bytes : (len == 0) ≡ false = ground arith in
    rw
      (
        long,
        copied offset 4 m (omega arith),
        e,
        fits,
        some_bytes,
        outside (offset + 4 + 4) len m (omega arith),
      )
      refl

-- When the daemon prints what it reads, any CP payload at the end of the message buffer with one
-- attribute of at least one byte makes ikev2_pld_cp read outside the buffer.
pub ikev2_pld_cp_overreads :
    (offset len : ℕ) (m : Message)
    → offset + 8 + len ≡ length m.msg_data
    → 0 < len
    → be16 (take 4 (drop (offset + 4) m.msg_data)) 2 ≡ len
    → ikev2_pld_cp true offset (8 + len) m ≡ fault
unfolding ikev2_pld_cp ikev2_validate_cp print_hex cfg_loop
ikev2_pld_cp_overreads offset len m h k e =
    let long : ltb (8 + len) 4 ≡ false = ground arith in
    let behind : 8 + len - 4 ≡ 4 + len = omega arith in
    let left : (4 + len == 0) ≡ false = ground arith in
    rw
      (
        long,
        copied offset 4 m (omega arith),
        behind,
        left,
        copied (offset + 4) (4 + len) m (omega arith),
        overread_round (offset + 4) len m (omega arith) k e,
      )
      refl

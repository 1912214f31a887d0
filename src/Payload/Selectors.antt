-- ===== src/Payload/Selectors.antt =====
-- The traffic selectors: ikev2_validate_tss, ikev2_pld_tss, ikev2_validate_ts and ikev2_pld_ts of
-- iked/ikev2_pld.c, which check them and store nothing.
use openiked_portable.Base.{
  ℕ, zero, suc, ◌+◌, ◌-◌, ◌*◌, ◌≤◌, ◌≡◌, refl, List, ltb, ◌==◌, if◌then◌else◌, subst, length, arith,
  if_rule,
}
use openiked_portable.Payload.{
  Message, Cursor, Outcome, ok, ◌>>=◌, ◌>>◌, reject_if, memcpy, byte, be16,
}
use openiked_portable.Payload.Safety.{Ends, returns, bind_rule, reject_rule, memcpy_rule, header}

abbrev pub ts_ipv4_addr_range : ℕ
ts_ipv4_addr_range = 7

abbrev pub ts_ipv6_addr_range : ℕ
ts_ipv6_addr_range = 8

-- Two addresses of `size` bytes, and nothing else.
unfoldable pub addr_range : ℕ → ℕ → ℕ → Message → Outcome Message
unfolding memcpy
addr_range size offset left m = do
  reject_if (ltb left (2 * size)) m
  start ← memcpy offset size m
  end ← memcpy (offset + size) size m
  reject_if (ltb 0 (left - 2 * size)) m
  ok m

unfoldable pub ikev2_pld_ts : ℕ → ℕ → ℕ → Message → Outcome Message
unfolding addr_range
ikev2_pld_ts type offset left m =
    if type == ts_ipv4_addr_range
    then addr_range 4 offset left m
    else if type == ts_ipv6_addr_range
    then addr_range 16 offset left m
    else ok m

unfoldable pub ikev2_validate_ts : ℕ → ℕ → Message → Outcome (List ℕ)
unfolding memcpy be16
ikev2_validate_ts offset left m = do
  reject_if (ltb left 8) m
  ts ← memcpy offset 8 m
  reject_if (ltb (be16 ts 2) 8) m
  reject_if (ltb left (be16 ts 2)) m
  ok ts

unfoldable pub ts_round : Cursor → Outcome Cursor
unfolding ikev2_validate_ts ikev2_pld_ts byte be16
ts_round c = do
  ts ← ikev2_validate_ts c.offset c.left c.msg
  m ← ikev2_pld_ts (byte ts 0) (c.offset + 8) (be16 ts 2 - 8) c.msg
  ok (record {
    offset = c.offset + 8 + (be16 ts 2 - 8);
    left = c.left - 8 - (be16 ts 2 - 8);
    msg = m;
  })

-- The loop, with the number of selectors left.
unfoldable pub ts_loop : ℕ → Cursor → Outcome Message
unfolding ts_round
ts_loop zero c = ok c.msg
ts_loop (suc n) c = do c' ← ts_round c; ts_loop n c'

unfoldable pub ikev2_validate_tss : ℕ → ℕ → Message → Outcome (List ℕ)
unfolding memcpy
ikev2_validate_tss offset left m = do reject_if (ltb left 4) m; memcpy offset 4 m

unfoldable pub ikev2_pld_tss : ℕ → ℕ → Message → Outcome Message
unfolding ikev2_validate_tss ts_loop byte
ikev2_pld_tss offset left m = do
  tsp ← ikev2_validate_tss offset left m
  ts_loop (byte tsp 0) (record { offset = offset + 4; left = left - 4; msg = m })

-- A check of `m`, which is left as it is.
abbrev pub Checks : Message → Outcome Message → Type 0
Checks m o = Ends (λ n. n ≡ m) (λ n. n ≡ m) o

addr_range-Checks :
    (size offset left : ℕ) (m : Message)
    → offset + left ≤ length m.msg_data
    → Checks m (addr_range size offset left m)
unfolding addr_range
addr_range-Checks size offset left m h = reject_rule (ltb left (2 * size)) m refl (λ a.
    let enough : size + size ≤ left = ground arith in
    bind_rule (memcpy_rule offset size m (omega arith)) (λ start e.
      bind_rule (memcpy_rule (offset + size) size m (omega arith))
        (λ end e'. reject_rule (ltb 0 (left - 2 * size)) m refl (λ b. returns refl))))

pld_ts-Checks :
    (type offset left : ℕ) (m : Message)
    → offset + left ≤ length m.msg_data
    → Checks m (ikev2_pld_ts type offset left m)
unfolding ikev2_pld_ts
pld_ts-Checks type offset left m h =
    if_rule (Checks m) (type == ts_ipv4_addr_range) _ _ (λ y. addr_range-Checks 4 offset left m h)
      (λ n.
        if_rule (Checks m) (type == ts_ipv6_addr_range) _ _
          (λ y. addr_range-Checks 16 offset left m h) (λ k. returns refl))

-- A round keeps the end of the payload and the message.
record Goes (c d : Cursor) : Type 0 where
  end : d.offset + d.left ≡ c.offset + c.left
  same : d.msg ≡ c.msg

validate_ts-Ends :
    (c : Cursor)
    → c.offset + c.left ≤ length c.msg.msg_data
    → Ends
        (λ bs. (8 ≤ be16 bs 2) × (be16 bs 2 ≤ c.left))
        (λ n. n ≡ c.msg)
        (ikev2_validate_ts c.offset c.left c.msg)
unfolding ikev2_validate_ts
validate_ts-Ends c h = reject_rule (ltb c.left 8) c.msg refl (λ a.
    let enough : 8 ≤ c.left = ground arith in
    bind_rule (memcpy_rule c.offset 8 c.msg (omega arith)) (λ ts e.
      reject_rule (ltb (be16 ts 2) 8) c.msg refl (λ b.
        reject_rule (ltb c.left (be16 ts 2)) c.msg refl
          (λ d. returns (ground arith, ground arith)))))

ts_round-Ends :
    (c : Cursor)
    → c.offset + c.left ≤ length c.msg.msg_data
    → Ends (Goes c) (λ n. n ≡ c.msg) (ts_round c)
unfolding ts_round
ts_round-Ends c h = bind_rule (validate_ts-Ends c h) (λ ts s.
    bind_rule
      (pld_ts-Checks (byte ts 0) (c.offset + 8) (be16 ts 2 - 8) c.msg (omega (arith, s.0, s.1)))
      (λ m e. returns (record { end = omega (arith, s.0, s.1); same = e })))

ts_loop-Checks :
    (n : ℕ) (c : Cursor) → c.offset + c.left ≤ length c.msg.msg_data → Checks c.msg (ts_loop n c)
unfolding ts_loop
ts_loop-Checks zero c h = returns refl
ts_loop-Checks (suc n) c h = bind_rule (ts_round-Ends c h) (λ d g.
    subst (λ m. Checks m (ts_loop n d)) g.same
      (ts_loop-Checks n d (rw g.same (omega (arith, g.end)))))

-- On any TSi or TSr payload that lies in the message buffer, whatever its bytes are,
-- ikev2_pld_tss reads nothing outside the buffer, and it leaves the message as it is.
pub ikev2_pld_tss-Checks :
    (offset left : ℕ) (m : Message)
    → offset + left ≤ length m.msg_data
    → Checks m (ikev2_pld_tss offset left m)
unfolding ikev2_pld_tss ikev2_validate_tss
ikev2_pld_tss-Checks offset left m h = header 4 offset left m refl h (λ four tsp.
    ts_loop-Checks (byte tsp 0) (record { offset = offset + 4; left = left - 4; msg = m })
      (omega arith))

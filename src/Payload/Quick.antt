-- ===== src/Payload/Quick.antt =====
-- The generic header of a payload and the walk over a message that needs no SA:
-- ikev2_validate_pld and ikev2_pld_parse_quick of iked/ikev2_pld.c.
use openiked_portable.Base.{
  ℕ, zero, suc, ◌+◌, ◌-◌, ◌≤◌, ◌<◌, ◌≡◌, ◌∙◌, refl, ◌||◌, List, ltb, leb, ◌==◌, if◌then◌else◌,
  length, arith, if_rule,
}
use openiked_portable.Payload.{
  Message, Cursor, Outcome, ok, no_fuel, ◌>>=◌, ◌>>◌, reject_if, memcpy, byte, be16,
}
use openiked_portable.Payload.Safety.{Ends, returns, rejects, bind_rule, reject_rule, memcpy_rule}

unfoldable pub ikev2_validate_pld : ℕ → ℕ → Message → Outcome (List ℕ)
unfolding memcpy be16
ikev2_validate_pld offset left m = do
  reject_if (ltb left 4) m
  pld ← memcpy offset 4 m
  reject_if (ltb left (be16 pld 2)) m
  reject_if (ltb (be16 pld 2) 4) m
  ok pld

abbrev pub payload_skf : ℕ
payload_skf = 53

-- The number of an encrypted fragment is kept.
unfoldable pub quick_fragment : ℕ → ℕ → ℕ → Message → Outcome Message
unfolding memcpy be16
quick_fragment payload offset left m =
    if payload == payload_skf
    then (do
      reject_if (ltb left 4) m
      frag ← memcpy offset 4 m
      ok (record m { frag_num = be16 frag 0 }))
    else ok m

pub record Walk : Type 0 where
  pub payload : ℕ
  pub at : Cursor

unfoldable pub quick_round : Walk → Outcome Walk
unfolding ikev2_validate_pld quick_fragment byte be16
quick_round w = do
  let c : Cursor = w.at
  pld ← ikev2_validate_pld c.offset c.left c.msg
  m ← quick_fragment w.payload (c.offset + 4) (be16 pld 2 - 4) c.msg
  ok (record {
    payload = byte pld 0;
    at = record {
      offset = c.offset + 4 + (be16 pld 2 - 4);
      left = c.left - 4 - (be16 pld 2 - 4);
      msg = m;
    };
  })

-- The loop with fuel: a round takes four bytes or more.
unfoldable pub quick_loop : ℕ → ℕ → Walk → Outcome Message
unfolding quick_round
quick_loop zero len w = no_fuel
quick_loop (suc n) len w =
    if w.payload == 0 || leb len w.at.offset
    then ok w.at.msg
    else (do w' ← quick_round w; quick_loop n len w')

-- The size of struct ike_header.
abbrev pub ike_header_size : ℕ
ike_header_size = 28

-- Of the IKE header ike_nextpayload and ike_length are read. Where the length is short of the
-- header the size_t `total` wraps around, and the loop is not entered.
unfoldable pub ikev2_pld_parse_quick : ℕ → ℕ → ℕ → Message → Outcome Message
unfolding quick_loop
ikev2_pld_parse_quick nextpayload len offset m = do
  reject_if (ltb (length m.msg_data) len) m
  quick_loop (suc len) len (record {
    payload = nextpayload;
    at = record {
      offset = offset + ike_header_size;
      left = len - (offset + ike_header_size);
      msg = m;
    };
  })

-- What a walk keeps: the buffer, and the end of the message or a place behind it.
record Walks (c d : Cursor) : Type 0 where
  end : d.offset + d.left ≡ c.offset + c.left
  less : d.left + 4 ≤ c.left
  buffer : d.msg.msg_data ≡ c.msg.msg_data

abbrev pub KeepsBuffer : Message → Message → Type 0
KeepsBuffer m n = n.msg_data ≡ m.msg_data

pub validate_pld-Ends :
    (c : Cursor)
    → c.offset + c.left ≤ length c.msg.msg_data
    → Ends
        (λ bs. (4 ≤ be16 bs 2) × (be16 bs 2 ≤ c.left))
        (KeepsBuffer c.msg)
        (ikev2_validate_pld c.offset c.left c.msg)
unfolding ikev2_validate_pld
validate_pld-Ends c h = reject_rule (ltb c.left 4) c.msg refl (λ a.
    let enough : 4 ≤ c.left = ground arith in
    bind_rule (memcpy_rule c.offset 4 c.msg (omega arith)) (λ pld e.
      reject_rule (ltb c.left (be16 pld 2)) c.msg refl (λ b.
        reject_rule (ltb (be16 pld 2) 4) c.msg refl (λ d. returns (ground arith, ground arith)))))

quick_fragment-Ends :
    (payload offset left : ℕ) (m : Message)
    → offset + left ≤ length m.msg_data
    → Ends (KeepsBuffer m) (KeepsBuffer m) (quick_fragment payload offset left m)
unfolding quick_fragment
quick_fragment-Ends payload offset left m h =
    if_rule (Ends (KeepsBuffer m) (KeepsBuffer m)) (payload == payload_skf) _ _
      (λ y. reject_rule (ltb left 4) m refl (λ a.
        let enough : 4 ≤ left = ground arith in
        bind_rule (memcpy_rule offset 4 m (omega arith)) (λ frag e. returns refl)))
      (λ n. returns refl)

quick_round-Ends :
    (w : Walk)
    → w.at.offset + w.at.left ≤ length w.at.msg.msg_data
    → Ends (λ v. Walks w.at v.at) (KeepsBuffer w.at.msg) (quick_round w)
unfolding quick_round
quick_round-Ends w h = bind_rule (validate_pld-Ends w.at h) (λ pld s.
    bind_rule
      (quick_fragment-Ends w.payload (w.at.offset + 4) (be16 pld 2 - 4) w.at.msg
        (omega (arith, s.0, s.1)))
      (λ m e.
        returns
          (record { end = omega (arith, s.0, s.1); less = omega (arith, s.0, s.1); buffer = e })))

from :
    (l m : Message) {o : Outcome Message}
    → KeepsBuffer l m
    → Ends (KeepsBuffer m) (KeepsBuffer m) o
    → Ends (KeepsBuffer l) (KeepsBuffer l) o
from l m s (returns t) = returns (t ∙ s)
from l m s (rejects t) = rejects (t ∙ s)

quick_loop-Ends :
    (n len : ℕ) (w : Walk)
    → (w.at.offset < len → w.at.offset + w.at.left ≡ len)
    → len ≤ length w.at.msg.msg_data
    → w.at.left < n
    → Ends (KeepsBuffer w.at.msg) (KeepsBuffer w.at.msg) (quick_loop n len w)
unfolding quick_loop
quick_loop-Ends zero len w e h k = absurd (omega arith)
quick_loop-Ends (suc n) len w e h k =
    if_rule (Ends (KeepsBuffer w.at.msg) (KeepsBuffer w.at.msg))
      (w.payload == 0 || leb len w.at.offset) _ _ (λ y. returns refl)
      (λ z.
        let inside : w.at.offset < len = ground arith in
        bind_rule (quick_round-Ends w (omega (arith, e inside))) (λ v s.
          from w.at.msg v.at.msg s.buffer (
            quick_loop-Ends n len v (λ i. omega (arith, s.end, e inside))
              (rw s.buffer (omega arith)) (omega (arith, s.less)))))

-- On any message, whatever its bytes and the length in its header are, ikev2_pld_parse_quick reads
-- nothing outside the message buffer, ends and leaves the buffer as it is.
pub ikev2_pld_parse_quick-Ends :
    (nextpayload len offset : ℕ) (m : Message)
    → Ends (KeepsBuffer m) (KeepsBuffer m) (ikev2_pld_parse_quick nextpayload len offset m)
unfolding ikev2_pld_parse_quick
ikev2_pld_parse_quick-Ends nextpayload len offset m =
    reject_rule (ltb (length m.msg_data) len) m refl (λ a.
      let fits : len ≤ length m.msg_data = ground arith in
      quick_loop-Ends (suc len) len _ (λ i. omega arith) fits (omega arith))

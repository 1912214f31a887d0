-- ===== src/Payload/Bounds.antt =====
-- ikev2_pld_attr of iked/ikev2_pld.c and the bounds of the payload it is in.
use openiked_portable.Base.{
  ℕ, zero, suc, ◌+◌, ◌≤◌, ◌<◌, ◌≡◌, ◌∙◌, refl, List, All, ltb, leb, ◌==◌, ◌%◌, length, arith,
  if_rule, Bool-cases, inl, inr, Option, Bool,
}
use openiked_portable.Proposal.Scores.{IsRanked}
use openiked_portable.Payload.{Message, Cursor, Outcome, be16, CfgAddr, IkedId}
use openiked_portable.Payload.Safety.{
  Ends, returns, rejects, bind_rule, reject_rule, weaken, memcpy_rule,
}
use openiked_portable.Payload.Transforms.{
  ikev2_validate_attr, type_value, type_length_value, attr_round, attr_loop, ikev2_pld_attr,
}

-- The proposals of a message are ranked as config_add_transform ranks them.
abbrev pub AllRanked : Message → Type 0
AllRanked m = All (λ p. IsRanked p.xforms) m.proposals

-- The fields that only an encrypted message may set.
pub record Guarded : Type 0 where
  pub auth : IkedId
  pub peerid : IkedId
  pub localid : IkedId
  pub cert : IkedId
  pub scert : List IkedId
  pub del_protoid : ℕ
  pub del_buf : Option (List ℕ)
  pub cp : ℕ
  pub cp_addr : Option CfgAddr
  pub cp_addr6 : Option CfgAddr
  pub cp_dns : Option CfgAddr
  pub encrypted : Bool

abbrev pub guards : Message → Guarded
guards m = record {
  auth = m.auth;
  peerid = m.peerid;
  localid = m.localid;
  cert = m.cert;
  scert = m.scert;
  del_protoid = m.del_protoid;
  del_buf = m.del_buf;
  cp = m.cp;
  cp_addr = m.cp_addr;
  cp_addr6 = m.cp_addr6;
  cp_dns = m.cp_dns;
  encrypted = m.encrypted;
}

-- Between two messages of one parse, below the SA payload.
pub record Same (m m' : Message) : Type 0 where
  pub buffer : m'.msg_data ≡ m.msg_data
  pub peer : m'.frompeer ≡ m.frompeer
  pub prop : m'.prop ≡ m.prop
  pub count : length m'.proposals ≡ length m.proposals
  pub ranked : AllRanked m → AllRanked m'
  pub guard : guards m' ≡ guards m

pub Same-refl : (m : Message) → Same m m
Same-refl m = record {
  buffer = refl;
  peer = refl;
  prop = refl;
  count = refl;
  ranked = λ r. r;
  guard = refl;
}

pub Same-trans : {l m n : Message} → Same l m → Same m n → Same l n
Same-trans s t = record {
  buffer = t.buffer ∙ s.buffer;
  peer = t.peer ∙ s.peer;
  prop = t.prop ∙ s.prop;
  count = t.count ∙ s.count;
  ranked = λ r. t.ranked (s.ranked r);
  guard = t.guard ∙ s.guard;
}

pub record Fits (c : Cursor) : Type 0 where
  pub within : c.offset + c.left ≤ length c.msg.msg_data

-- A round of a loop moves on by `k` bytes or more, and keeps the end of the payload.
pub record Moves (k : ℕ) (c d : Cursor) : Type 0 where
  pub end : d.offset + d.left ≡ c.offset + c.left
  pub less : d.left + k ≤ c.left
  pub same : Same c.msg d.msg

pub Moves-Fits : {k : ℕ} {c d : Cursor} → Moves k c d → Fits c → Fits d
Moves-Fits m f = record { within = rw m.same.buffer (omega (arith, m.end, f.within)) }

-- What holds from the message that a round leaves holds from the one before.
pub along :
    {l m : Message} {o : Outcome Message}
    → Same l m
    → Ends (Same m) (Same m) o
    → Ends (Same l) (Same l) o
along s (returns t) = returns (Same-trans s t)
along s (rejects t) = rejects (Same-trans s t)

type_value-Moves : (attr : List ℕ) (c : Cursor) → 4 ≤ c.left → Moves 4 c (type_value attr c)
unfolding type_value
type_value-Moves attr c h = elim (Bool-cases (be16 attr 0 % 0x8000 == 14)) [
  | inl e ↦ record {
    end = omega arith;
    less = omega arith;
    same = rw e (record {
      buffer = refl;
      peer = refl;
      prop = refl;
      count = refl;
      ranked = λ r. r;
      guard = refl;
    });
  }
  | inr e ↦ record { end = omega arith; less = omega arith; same = rw e (Same-refl c.msg) }
]

type_length_value-Ends :
    (len : ℕ) (c : Cursor) → Ends (Moves 4 c) (Same c.msg) (type_length_value len c)
unfolding type_length_value
type_length_value-Ends len c = reject_rule (ltb len 4) c.msg (Same-refl c.msg) (λ a.
    reject_rule (ltb c.left len) c.msg (Same-refl c.msg)
      (λ b. returns (record { end = ground arith; less = ground arith; same = Same-refl c.msg })))

validate_attr-Ends :
    (c : Cursor)
    → Fits c
    → Ends (λ bs. 4 ≤ c.left) (Same c.msg) (ikev2_validate_attr c.offset c.left c.msg)
unfolding ikev2_validate_attr
validate_attr-Ends c f = reject_rule (ltb c.left 4) c.msg (Same-refl c.msg) (λ a.
    let enough : 4 ≤ c.left = ground arith in
    weaken (memcpy_rule c.offset 4 c.msg (omega (arith, f.within))) (λ bs e. enough))

attr_round-Ends : (c : Cursor) → Fits c → Ends (Moves 4 c) (Same c.msg) (attr_round c)
unfolding attr_round
attr_round-Ends c f = bind_rule (validate_attr-Ends c f) (λ attr h.
    if_rule (Ends (Moves 4 c) (Same c.msg)) (leb 0x8000 (be16 attr 0)) _ _
      (λ y. returns (type_value-Moves attr c h)) (λ n. type_length_value-Ends (be16 attr 2) c))

attr_loop-Ends :
    (n : ℕ) (c : Cursor) → Fits c → c.left < n → Ends (Same c.msg) (Same c.msg) (attr_loop n c)
unfolding attr_loop
attr_loop-Ends zero c f h = absurd (omega arith)
attr_loop-Ends (suc n) c f h = bind_rule (attr_round-Ends c f) (λ d m.
    if_rule (Ends (Same c.msg) (Same c.msg)) (ltb 0 d.left) _ _
      (λ y. along m.same (attr_loop-Ends n d (Moves-Fits m f) (omega (arith, m.less))))
      (λ z. returns m.same))

pub pld_attr-Ends :
    (offset total : ℕ) (m : Message)
    → offset + total ≤ length m.msg_data
    → Ends (Same m) (Same m) (ikev2_pld_attr offset total m)
unfolding ikev2_pld_attr
pld_attr-Ends offset total m h =
    attr_loop-Ends (suc total) (record { offset = offset; left = total; msg = m })
      (record { within = h }) (omega arith)

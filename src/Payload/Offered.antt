-- ===== src/Payload/Offered.antt =====
-- The steps of ikev2_pld_sa of iked/ikev2_pld.c: the bounds of the payload, and the proposals.
use openiked_portable.Base.{
  ℕ, zero, suc, ◌+◌, ◌≤◌, ◌<◌, ◌≡◌, ◌∙◌, refl, ◌&&◌, ◌||◌, Option, none, some, List, [], ◌∷◌, All,
  get_elem?, ltb, leb, ◌==◌, ◌!=◌, length, arith, if_rule,
}
use openiked_portable.Proposal.{Proposal}
use openiked_portable.Proposal.Config.{config_add_proposal, fresh_proposal}
use openiked_portable.Proposal.Scores.{IsRanked}
use openiked_portable.Payload.{Message, Cursor, Outcome, byte, be16}
use openiked_portable.Payload.Safety.{Ends, returns, rejects, bind_rule, reject_rule, memcpy_rule}
use openiked_portable.Payload.Bounds.{AllRanked, Same, Fits, guards}
use openiked_portable.Payload.Proposed.{put-All, length-put, All-get_elem?, HasProp}
use openiked_portable.Payload.Association.{
  ikev2_validate_sa, SpiRead, spi_bytes, read_spi, with_spis, put_spis, add_proposal, remove,
  from_peer,
}

-- Between two messages of the parse of an SA payload.
pub record Kept (m m' : Message) : Type 0 where
  pub buffer : m'.msg_data ≡ m.msg_data
  pub peer : m'.frompeer ≡ m.frompeer
  pub ranked : AllRanked m → AllRanked m'
  pub guard : guards m' ≡ guards m

pub Kept-refl : (m : Message) → Kept m m
Kept-refl m = record { buffer = refl; peer = refl; ranked = λ r. r; guard = refl }

pub Kept-trans : {l m n : Message} → Kept l m → Kept m n → Kept l n
Kept-trans s t = record {
  buffer = t.buffer ∙ s.buffer;
  peer = t.peer ∙ s.peer;
  ranked = λ r. t.ranked (s.ranked r);
  guard = t.guard ∙ s.guard;
}

pub Same-Kept : {m n : Message} → Same m n → Kept m n
Same-Kept s = record { buffer = s.buffer; peer = s.peer; ranked = s.ranked; guard = s.guard }

pub after :
    {l m : Message} {o : Outcome Message}
    → Kept l m
    → Ends (Kept m) (Kept m) o
    → Ends (Kept l) (Kept l) o
after s (returns t) = returns (Kept-trans s t)
after s (rejects t) = rejects (Kept-trans s t)

add_proposal-inside :
    (ps : List Proposal) (id proto : ℕ)
    → (config_add_proposal ps id proto).1 < length (config_add_proposal ps id proto).0
unfolding config_add_proposal
add_proposal-inside [] id proto = omega arith
add_proposal-inside (p ∷ ps) id proto = ground (arith, add_proposal-inside ps id proto)

add_proposal-All :
    (P : Proposal → Type 0) (ps : List Proposal) (id proto : ℕ)
    → All P ps
    → P (fresh_proposal id proto)
    → All P (config_add_proposal ps id proto).0
unfolding config_add_proposal
add_proposal-All P [] id proto h k = (k, tt)
add_proposal-All P (p ∷ ps) id proto h k =
    let rest : All P (config_add_proposal ps id proto).0 = add_proposal-All P ps id proto h.1 k in
    if_rule (λ (r : List Proposal × ℕ). All P r.0) (p.protoid == proto && p.id == id) (p ∷ ps, 0)
      (p ∷ (config_add_proposal ps id proto).0, (config_add_proposal ps id proto).1 + 1) (λ y. h)
      (λ n. (h.0, rest))

pub remove-All :
    (P : Proposal → Type 0) (ps : List Proposal) (i : ℕ) → All P ps → All P (remove ps i)
unfolding remove
remove-All P [] i h = h
remove-All P (p ∷ ps) zero h = h.1
remove-All P (p ∷ ps) (suc i) h = (h.0, remove-All P ps i h.1)

-- A proposal with no transforms is ranked.
none-IsRanked : IsRanked []
none-IsRanked = record { graded = tt; distinct = tt; known = tt }

put_spis-All :
    (o : Option Proposal) (i : ℕ) (sap : List ℕ) (spi : ℕ) (ps : List Proposal)
    → get_elem? ps i ≡ o
    → All (λ p. IsRanked p.xforms) ps
    → All (λ p. IsRanked p.xforms) (put_spis o i sap spi ps)
put_spis-All none i sap spi ps e h = h
put_spis-All (some p) i sap spi ps e h =
    put-All (λ q. IsRanked q.xforms) ps i (with_spis sap spi p) h
      (All-get_elem? (λ q. IsRanked q.xforms) ps i p h e)

length-put_spis :
    (o : Option Proposal) (i : ℕ) (sap : List ℕ) (spi : ℕ) (ps : List Proposal)
    → length (put_spis o i sap spi ps) ≡ length ps
length-put_spis none i sap spi ps = refl
length-put_spis (some p) i sap spi ps = length-put ps i (with_spis sap spi p)

add_proposal-Kept : (sap : List ℕ) (spi : ℕ) (m : Message) → Kept m (add_proposal sap spi m)
unfolding add_proposal
add_proposal-Kept sap spi m = record {
  buffer = refl;
  peer = refl;
  guard = refl;
  ranked = λ r. put_spis-All _ _ sap spi _ refl (
      add_proposal-All (λ p. IsRanked p.xforms) m.proposals (byte sap 4) (byte sap 5) r
        none-IsRanked);
}

pub from_peer-Kept : (sap : List ℕ) (spi : ℕ) (m : Message) → Kept m (from_peer sap spi m)
from_peer-Kept sap spi m =
    if_rule (Kept m) m.frompeer _ _ (λ y. add_proposal-Kept sap spi m) (λ n. Kept-refl m)

add_proposal-HasProp : (sap : List ℕ) (spi : ℕ) (m : Message) → HasProp (add_proposal sap spi m)
unfolding add_proposal
add_proposal-HasProp sap spi m peer =
    let r : List Proposal × ℕ = config_add_proposal m.proposals (byte sap 4) (byte sap 5) in
    (
      r.1,
      refl,
      omega (
        arith,
        length-put_spis (get_elem? r.0 r.1) r.1 sap spi r.0,
        add_proposal-inside m.proposals (byte sap 4) (byte sap 5),
      ),
    )

pub from_peer-HasProp : (sap : List ℕ) (spi : ℕ) (m : Message) → HasProp (from_peer sap spi m)
from_peer-HasProp sap spi m =
    if_rule HasProp m.frompeer _ _ (λ y. add_proposal-HasProp sap spi m)
      (λ n peer. absurd (cc (n, peer)))

-- What ikev2_validate_sa lets pass.
pub record Sized (sap : List ℕ) (left : ℕ) : Type 0 where
  pub least : 8 ≤ be16 sap 2
  pub most : be16 sap 2 ≤ left

pub validate_sa-Ends :
    (c : Cursor)
    → Fits c
    → Ends (λ sap. Sized sap c.left) (Kept c.msg) (ikev2_validate_sa c.offset c.left c.msg)
unfolding ikev2_validate_sa
validate_sa-Ends c f =
    let stay = Kept-refl c.msg in
    reject_rule (ltb c.left 8) c.msg stay (λ a.
      let enough : 8 ≤ c.left = ground arith in
      bind_rule (memcpy_rule c.offset 8 c.msg (omega (arith, f.within))) (λ sap e.
        reject_rule (ltb (be16 sap 2) 8) c.msg stay (λ b.
          reject_rule (ltb c.left (be16 sap 2)) c.msg stay (λ d.
            reject_rule (byte sap 0 == 0 && c.left != be16 sap 2) c.msg stay (λ g.
              reject_rule (byte sap 0 != 0 && leb c.left (be16 sap 2)) c.msg stay
                (λ h. returns (record { least = ground arith; most = ground arith })))))))

-- The transforms are in the payload, whose end stays.
pub record Inside (s : SpiRead) (c : Cursor) : Type 0 where
  pub total : s.total ≤ s.left
  pub end : s.offset + s.left ≡ c.offset + c.left
  pub less : s.left + 8 ≤ c.left

spi_bytes-Ends :
    (size offset : ℕ) (m : Message)
    → offset + size ≤ length m.msg_data
    → Ends (λ bs. length bs ≡ size) (Kept m) (spi_bytes size offset m)
spi_bytes-Ends size offset m h =
    if_rule (Ends (λ bs. length bs ≡ size) (Kept m)) (size == 4 || size == 8) _ _
      (λ y. memcpy_rule offset size m h) (λ n. rejects (Kept-refl m))

pub read_spi-Ends :
    (size : ℕ) (s : SpiRead) (c : Cursor)
    → Fits c
    → Inside s c
    → Ends (λ t. Inside t c) (Kept c.msg) (read_spi size s c.msg)
unfolding read_spi
read_spi-Ends size s c f h =
    let stay = Kept-refl c.msg in
    if_rule (Ends (λ t. Inside t c) (Kept c.msg)) (size == 0) _ _ (λ y. returns h)
      (λ n. reject_rule (ltb s.left size) c.msg stay (λ a.
        reject_rule (ltb s.total size) c.msg stay (λ b.
          let fits : size ≤ s.total = ground arith in
          bind_rule (spi_bytes-Ends size s.offset c.msg (omega (arith, f.within, h.end, h.total)))
            (λ bytes e. returns (record {
              total = omega (arith, h.total);
              end = omega (arith, h.end, h.total);
              less = omega (arith, h.less);
            })))))

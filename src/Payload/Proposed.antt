-- ===== src/Payload/Proposed.antt =====
-- ikev2_pld_xform of iked/ikev2_pld.c: the bounds of its payload, and the proposal it adds to.
use openiked_portable.Base.{
  ℕ, zero, suc, ◌+◌, ◌-◌, ◌≤◌, ◌<◌, ◌≡◌, ◌⊎◌, subst, ◌∙◌, refl, sym, true, some, List, [], ◌∷◌, All,
  get_elem?, ltb, ◌!=◌, length, arith, if_rule, inl, inr, get_elem?_total,
}
use openiked_portable.Proposal.{Proposal, Transform}
use openiked_portable.Proposal.Config.{Added, unknown_type, added, config_add_transform}
use openiked_portable.Proposal.Scores.{IsRanked, config_add_transform_ranks}
use openiked_portable.Payload.{Message, Cursor, byte, be16}
use openiked_portable.Payload.Safety.{Ends, returns, rejects, bind_rule, reject_rule, memcpy_rule}
use openiked_portable.Payload.Bounds.{
  Same, Same-refl, Fits, Moves, Moves-Fits, along, pld_attr-Ends,
}
use openiked_portable.Payload.Transforms.{
  ikev2_validate_xform, put, add_to, add_transform, attributes, add_from_peer, xform_round,
  xform_loop, ikev2_pld_xform,
}

pub length-put : (ps : List Proposal) (i : ℕ) (q : Proposal) → length (put ps i q) ≡ length ps
unfolding put
length-put [] i q = refl
length-put (p ∷ ps) zero q = refl
length-put (p ∷ ps) (suc i) q = omega (arith, length-put ps i q)

pub put-All :
    (P : Proposal → Type 0) (ps : List Proposal) (i : ℕ) (q : Proposal)
    → All P ps
    → P q
    → All P (put ps i q)
unfolding put
put-All P [] i q h k = h
put-All P (p ∷ ps) zero q h k = (k, h.1)
put-All P (p ∷ ps) (suc i) q h k = (h.0, put-All P ps i q h.1 k)

pub All-get_elem? :
    {A : Type 0} (P : A → Type 0) (xs : List A) (i : ℕ) (a : A)
    → All P xs
    → get_elem? xs i ≡ some a
    → P a
All-get_elem? P [] i a h e = absurd (cc e)
All-get_elem? P (x ∷ xs) zero a h e = let same : x ≡ a = cc e in subst P same h.0
All-get_elem? P (x ∷ xs) (suc i) a h e = All-get_elem? P xs i a h.1 e

-- The proposal that msg_prop points to is there when the peer's transforms are added to it.
abbrev pub HasProp : Message → Type 0
HasProp m = m.frompeer ≡ true → (i : ℕ) × (m.prop ≡ some i) × (i < length m.proposals)

pub HasProp-Same : {l m : Message} → Same l m → HasProp l → HasProp m
HasProp-Same s h peer =
    let (i, at, inside) = h (sym s.peer ∙ peer) in (i, s.prop ∙ at, omega (arith, s.count, inside))

Added-cases : (a : Added) → (a ≡ unknown_type) ⊎ ((xs : List Transform) × (a ≡ added xs))
Added-cases unknown_type = inl refl
Added-cases (added xs) = inr (xs, refl)

added-Ends :
    (p : Proposal) (i : ℕ) (xfrm : List ℕ) (m : Message)
    → get_elem? m.proposals i ≡ some p
    → Ends (Same m) (Same m) (add_to (some p) i xfrm m)
unfolding add_to
added-Ends p i xfrm m e =
    elim (Added-cases
      (config_add_transform p.xforms (byte xfrm 4) (be16 xfrm 6) m.attrlength m.attrlength)) [
        | inl u ↦ rw (u, add_to) (rejects (Same-refl m))
        | inr (xs, y) ↦
            rw (y, add_to)
              (returns (record {
                buffer = refl;
                peer = refl;
                guard = refl;
                prop = refl;
                count = length-put m.proposals i (record p { xforms = xs });
                ranked = λ r.
                    put-All (λ q. IsRanked q.xforms) m.proposals i (record p { xforms = xs }) r
                      (config_add_transform_ranks p.xforms xs (byte xfrm 4) (be16 xfrm 6)
                        m.attrlength m.attrlength
                        (All-get_elem? (λ q. IsRanked q.xforms) m.proposals i p r e) y).0;
              }))
      ]

add_transform-Ends :
    (i : ℕ) (xfrm : List ℕ) (m : Message)
    → i < length m.proposals
    → Ends (Same m) (Same m) (add_transform (some i) xfrm m)
unfolding add_transform
add_transform-Ends i xfrm m h =
    let (p, e) = get_elem?_total i m.proposals h in rw e (added-Ends p i xfrm m e)

add_from_peer-Ends :
    (xfrm : List ℕ) (m : Message) → HasProp m → Ends (Same m) (Same m) (add_from_peer xfrm m)
add_from_peer-Ends xfrm m h =
    if_rule (Ends (Same m) (Same m)) m.frompeer _ _
      (λ y.
        let (i, at, inside) = h y in
        subst (λ o. Ends (Same m) (Same m) (add_transform o xfrm m)) (sym at)
          (add_transform-Ends i xfrm m inside))
      (λ n. returns (Same-refl m))

-- What ikev2_validate_xform lets pass: a length of eight or more that the payload has.
pub record Measured (xfrm : List ℕ) (total : ℕ) : Type 0 where
  pub least : 8 ≤ be16 xfrm 2
  pub most : be16 xfrm 2 ≤ total

validate_xform-Ends :
    (c : Cursor)
    → Fits c
    → Ends (λ bs. Measured bs c.left) (Same c.msg) (ikev2_validate_xform c.offset c.left c.msg)
unfolding ikev2_validate_xform
validate_xform-Ends c f = reject_rule (ltb c.left 8) c.msg (Same-refl c.msg) (λ a.
    let enough : 8 ≤ c.left = ground arith in
    bind_rule (memcpy_rule c.offset 8 c.msg (omega (arith, f.within))) (λ bs e.
      reject_rule (ltb (be16 bs 2) 8) c.msg (Same-refl c.msg) (λ b.
        reject_rule (ltb c.left (be16 bs 2)) c.msg (Same-refl c.msg)
          (λ d. returns (record { least = ground arith; most = ground arith })))))

attributes-Ends :
    (len : ℕ) (c : Cursor)
    → Fits c
    → len ≤ c.left
    → Ends (Same c.msg) (Same c.msg) (attributes len c)
attributes-Ends len c f h =
    let m0 : Message = record c.msg { attrlength = 0 } in
    let same : Same c.msg m0 = record {
      buffer = refl;
      peer = refl;
      guard = refl;
      prop = refl;
      count = refl;
      ranked = λ r. r;
    } in
    if_rule (Ends (Same c.msg) (Same c.msg)) (ltb 8 len) _ _
      (λ y. along same (
        pld_attr-Ends (c.offset + 8) (len - 8) m0
          (let lt : 8 < len = ground arith in omega (arith, f.within))))
      (λ n. returns same)

xform_round-Ends :
    (c : Cursor) → Fits c → HasProp c.msg → Ends (λ r. Moves 8 c r.at) (Same c.msg) (xform_round c)
unfolding xform_round
xform_round-Ends c f h = bind_rule (validate_xform-Ends c f) (λ xfrm s.
    bind_rule (attributes-Ends (be16 xfrm 2) c f s.most) (λ m1 s1.
      bind_rule (along s1 (add_from_peer-Ends xfrm m1 (HasProp-Same s1 h))) (λ m2 s2.
        returns (record {
          end = omega (arith, s.most);
          less = omega (arith, s.most, s.least);
          same = s2;
        }))))

xform_loop-Ends :
    (n : ℕ) (c : Cursor)
    → Fits c
    → HasProp c.msg
    → c.left < n
    → Ends (Same c.msg) (Same c.msg) (xform_loop n c)
unfolding xform_loop
xform_loop-Ends zero c f p h = absurd (omega arith)
xform_loop-Ends (suc n) c f p h = bind_rule (xform_round-Ends c f p) (λ r m.
    if_rule (Ends (Same c.msg) (Same c.msg)) r.more _ _
      (λ y.
        along m.same
          (xform_loop-Ends n r.at (Moves-Fits m f) (HasProp-Same m.same p) (omega (arith, m.less))))
      (λ z. reject_rule (r.at.left != 0) r.at.msg m.same (λ e. returns m.same)))

pub pld_xform-Ends :
    (offset total : ℕ) (m : Message)
    → offset + total ≤ length m.msg_data
    → HasProp m
    → Ends (Same m) (Same m) (ikev2_pld_xform offset total m)
unfolding ikev2_pld_xform
pld_xform-Ends offset total m h p =
    xform_loop-Ends (suc total) (record { offset = offset; left = total; msg = m })
      (record { within = h }) p (omega arith)

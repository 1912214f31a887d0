-- ===== src/Proposal/Result.antt =====
-- The part of proposals_negotiate that stores the choice in `result`: the old proposals of the
-- protocol go, and a new one takes the chosen transforms.
use openiked_portable.Base.{
  ℕ, zero, suc, ◌+◌, ◌<◌, ◌≡◌, ◌≢◌, refl, sym, ap, ◌∙◌, true, false, Option, none, some, List, [],
  ◌∷◌, ◌++◌, All, arith, ◌!=◌, if◌then◌else◌, Option-cases, append_assoc, append-nil, length, inl,
  inr, ◌==◌,
}
use openiked_portable.Proposal.{Transform, Proposal, Choice, xformtype_max}
use openiked_portable.Proposal.Config.{
  config_add_proposal, config_free_proposals, config_add_transform, next_score, has_transform,
  known_type, unknown_type, added, fresh_proposal,
}

-- Types i, i + 1, … in order, with the number of them left.
unfoldable pub add_chosen : ℕ → ℕ → (ℕ → Option Transform) → List Transform → List Transform
add_chosen zero i valid xs = xs
add_chosen (suc n) i valid xs = elim (valid i) [
  | none ↦ add_chosen n (i + 1) valid xs
  | some t ↦ elim (config_add_transform xs t.type t.id t.length t.keylength) [
    | unknown_type ↦ xs
    | added ys ↦ add_chosen n (i + 1) valid ys
  ]
]

-- The SPIs of the new proposal: sizes and values of the two proposals, where a size is set.
unfoldable pub merge_spis : Proposal → Proposal → Proposal → Proposal
merge_spis vpeer vlocal prop =
    let p =
      if vpeer.localspi.spi_size != 0
      then record prop {
        localspi = record prop.localspi { spi_size = vpeer.localspi.spi_size };
        peerspi = vpeer.peerspi;
      }
      else prop in
    if vlocal.localspi.spi_size != 0
    then record p {
      localspi = record p.localspi {
        spi_size = vlocal.localspi.spi_size;
        spi = vlocal.localspi.spi;
      };
    }
    else p

abbrev modify_at : ℕ → (Proposal → Proposal) → List Proposal → List Proposal
modify_at i f [] = []
modify_at zero f (p ∷ ps) = f p ∷ ps
modify_at (suc i) f (p ∷ ps) = p ∷ modify_at i f ps

unfoldable pub store_result : List Proposal → Choice → List Proposal
unfolding add_chosen merge_spis
store_result result c =
    let (ps, k) =
      config_add_proposal (config_free_proposals result c.vpeer.protoid) c.vpeer.id
        c.vpeer.protoid in
    modify_at k
      (λ prop.
        let p : Proposal = merge_spis c.vpeer c.vlocal prop in
        record p { xforms = add_chosen xformtype_max 0 c.valid p.xforms })
      ps

-- What is wanted: each choice once, in the order of the types, with the score of a first choice.
abbrev pub first_choice : Transform → Transform
first_choice t = record t { score = 1 }

abbrev pub chosen_list : ℕ → ℕ → (ℕ → Option Transform) → List Transform
chosen_list zero i valid = []
chosen_list (suc n) i valid = elim (valid i) [
  | none ↦ chosen_list n (i + 1) valid
  | some t ↦ first_choice t ∷ chosen_list n (i + 1) valid
]

-- Transforms of smaller types do not count against one of type `i`.
fresh_transform :
    (xs : List Transform) (t : Transform)
    → All (λ x. x.type < t.type) xs
    → (has_transform t.type t.id t.length xs ≡ false) × (next_score t.type xs 1 ≡ 1)
unfolding next_score
fresh_transform [] t h = (refl, refl)
fresh_transform (x ∷ xs) t h = ground (arith, fresh_transform xs t h.1)

add_fresh :
    (xs : List Transform) (t : Transform)
    → All (λ x. x.type < t.type) xs
    → known_type t.type ≡ true
    → config_add_transform xs t.type t.id t.length t.keylength ≡ added (xs ++ (first_choice t ∷ []))
unfolding config_add_transform
add_fresh xs t h k = ground (arith, fresh_transform xs t h)

All-snoc :
    (i : ℕ) (xs : List Transform) (t : Transform)
    → All (λ x. x.type < i) xs
    → t.type ≡ i
    → All (λ x. x.type < i + 1) (xs ++ (first_choice t ∷ []))
All-snoc i [] t h e = (omega arith, tt)
All-snoc i (x ∷ xs) t h e = (omega arith, All-snoc i xs t h.1 e)

All-later : (i : ℕ) (xs : List Transform) → All (λ x. x.type < i) xs → All (λ x. x.type < i + 1) xs
All-later i [] h = tt
All-later i (x ∷ xs) h = (omega arith, All-later i xs h.1)

add_chosen-chosen_list :
    (n i : ℕ) (valid : ℕ → Option Transform) (xs : List Transform)
    → ((j : ℕ) (t : Transform) → valid j ≡ some t → (t.type ≡ j) × (known_type j ≡ true))
    → All (λ x. x.type < i) xs
    → add_chosen n i valid xs ≡ xs ++ chosen_list n i valid
unfolding add_chosen
add_chosen-chosen_list zero i valid xs h a = sym (append-nil xs)
add_chosen-chosen_list (suc n) i valid xs h a = elim (Option-cases (valid i)) [
  | inl e ↦
      rw (e, add_chosen)
        (rw (e, chosen_list) (add_chosen-chosen_list n (i + 1) valid xs h (All-later i xs a)))
  | inr (t, e) ↦
      let (ti, k) = h i t e in
      rw (e, add_chosen)
        (rw (e, chosen_list)
          (rw (add_fresh xs t (rw (← ti) at a) (rw (← ti) at k)) (
            add_chosen-chosen_list n (i + 1) valid (xs ++ (first_choice t ∷ [])) h
              (All-snoc i xs t a ti)
            ∙ append_assoc xs (first_choice t ∷ []) (chosen_list n (i + 1) valid))))
]

-- After its protocol has been freed, a proposal is always added at the end.
add_after_free :
    (ps : List Proposal) (id proto : ℕ)
    → proto ≢ 0
    → config_add_proposal (config_free_proposals ps proto) id proto ≡ (
      config_free_proposals ps proto ++ (fresh_proposal id proto ∷ []),
      length (config_free_proposals ps proto),
    )
unfolding config_add_proposal config_free_proposals
add_after_free [] id proto h = refl
add_after_free (p ∷ ps) id proto h = ground (arith, add_after_free ps id proto h)

modify_last :
    (ps : List Proposal) (q : Proposal) (f : Proposal → Proposal)
    → modify_at (length ps) f (ps ++ (q ∷ [])) ≡ ps ++ (f q ∷ [])
modify_last [] q f = refl
modify_last (p ∷ ps) q f = ap (λ r. p ∷ r) (modify_last ps q f)

-- The proposals of the other protocols, in their order.
abbrev pub others : List Proposal → ℕ → List Proposal
others [] proto = []
others (p ∷ ps) proto = if p.protoid == proto then others ps proto else p ∷ others ps proto

config_free_proposals-others :
    (ps : List Proposal) (proto : ℕ) → proto ≢ 0 → config_free_proposals ps proto ≡ others ps proto
unfolding config_free_proposals
config_free_proposals-others [] proto h = refl
config_free_proposals-others (p ∷ ps) proto h =
    ground (arith, config_free_proposals-others ps proto h)

-- The new proposal: of the peer's id and protocol; with the SPI of the local proposal, if it has
-- one, and else the size of the one that the peer's proposal names for this side; with the peer's
-- SPI, if the peer's proposal names a size; and with the choices in order.
pub record IsStored (c : Choice) (q : Proposal) : Type 0 where
  pub id : q.id ≡ c.vpeer.id
  pub protoid : q.protoid ≡ c.vpeer.protoid
  pub own :
      c.vlocal.localspi.spi_size ≢ 0
      → (q.localspi.spi ≡ c.vlocal.localspi.spi)
        × (q.localspi.spi_size ≡ c.vlocal.localspi.spi_size)
  pub none_own :
      c.vlocal.localspi.spi_size ≡ 0
      → (q.localspi.spi ≡ 0) × (q.localspi.spi_size ≡ c.vpeer.localspi.spi_size)
  pub peer : c.vpeer.localspi.spi_size ≢ 0 → q.peerspi ≡ c.vpeer.peerspi
  pub no_peer : c.vpeer.localspi.spi_size ≡ 0 → (q.peerspi.spi ≡ 0) × (q.peerspi.spi_size ≡ 0)
  pub xforms : q.xforms ≡ chosen_list xformtype_max 0 c.valid

-- The result: the others, and a new proposal behind them.
pub record Stores (result : List Proposal) (c : Choice) (out : List Proposal) : Type 0 where
  pub new : Proposal
  pub is : out ≡ others result c.vpeer.protoid ++ (new ∷ [])
  pub well : IsStored c new

merge_spis_xforms : (p l q : Proposal) → (merge_spis p l q).xforms ≡ q.xforms
unfolding merge_spis
merge_spis_xforms p l q = ground arith

abbrev merged : Choice → Proposal
merged c = merge_spis c.vpeer c.vlocal (fresh_proposal c.vpeer.id c.vpeer.protoid)

merged-IsStored :
    (c : Choice) → IsStored c (record (merged c) { xforms = chosen_list xformtype_max 0 c.valid })
unfolding merge_spis
merged-IsStored c = record {
  id = ground arith;
  protoid = ground arith;
  own = λ h. (ground (arith, h), ground (arith, h));
  none_own = λ h. (ground (arith, h), ground (arith, h));
  peer = λ h. ground (arith, h);
  no_peer = λ h. (ground (arith, h), ground (arith, h));
  xforms = refl;
}

-- When a choice of known types is stored, the proposals of other protocols stay as they are and
-- in order, those of its protocol go, and the last proposal of the result has the peer's id and
-- protocol, the SPIs of both sides where they have one, and exactly the chosen transforms, each
-- once, in the order of their types.
pub store_result-Stores :
    (result : List Proposal) (c : Choice)
    → c.vpeer.protoid ≢ 0
    → ((j : ℕ) (t : Transform) → c.valid j ≡ some t → (t.type ≡ j) × (known_type j ≡ true))
    → Stores result c (store_result result c)
unfolding store_result
store_result-Stores result c h v = record {
  new = record (merged c) { xforms = chosen_list xformtype_max 0 c.valid };
  is = rw (add_after_free result c.vpeer.id c.vpeer.protoid h) (
      modify_last (config_free_proposals result c.vpeer.protoid)
        (fresh_proposal c.vpeer.id c.vpeer.protoid) _
      ∙ ap
          (λ xs.
            config_free_proposals result c.vpeer.protoid
            ++ (record (merged c) { xforms = xs } ∷ []))
          (ap (add_chosen xformtype_max 0 c.valid) (merge_spis_xforms c.vpeer c.vlocal _)
            ∙ add_chosen-chosen_list xformtype_max 0 c.valid [] v tt)
      ∙ ap (λ ps. ps ++ (record (merged c) { xforms = chosen_list xformtype_max 0 c.valid } ∷ []))
          (config_free_proposals-others result c.vpeer.protoid h));
  well = merged-IsStored c;
}

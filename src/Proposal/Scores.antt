-- ===== src/Proposal/Scores.antt =====
-- The scores that config_add_transform gives: a proposal's transforms of one type are ranked in the
-- order in which they were added.
use openiked_portable.Base.{
  ℕ, ◌+◌, ◌<◌, ◌≡◌, refl, true, false, ◌&&◌, List, [], ◌∷◌, ◌++◌, All, arith, ◌==◌, if◌then◌else◌,
  if_rule, Bool-cases, append_assoc, append-nil, subst, inl, inr,
}
use openiked_portable.Proposal.{Transform}
use openiked_portable.Proposal.Config.{
  config_add_transform, next_score, has_transform, step_score, known_type, added,
}

-- Each score counts the transforms of the same type that stand before.
abbrev pub IsGraded : List Transform → List Transform → Type 0
IsGraded before [] = Unit {0}
IsGraded before (x ∷ xs) = (x.score ≡ next_score x.type before 1) × IsGraded (before ++ (x ∷ [])) xs

-- No transform stands twice.
abbrev pub IsDistinct : List Transform → Type 0
IsDistinct [] = Unit {0}
IsDistinct (x ∷ xs) =
    All (λ y. (y.type == x.type && y.id == x.id && y.length == x.length) ≡ false) xs × IsDistinct xs

pub record IsRanked (xs : List Transform) : Type 0 where
  pub graded : IsGraded [] xs
  pub distinct : IsDistinct xs
  pub known : All (λ x. known_type x.type ≡ true) xs

IsGraded-snoc :
    (before xs : List Transform) (t : Transform)
    → IsGraded before xs
    → t.score ≡ next_score t.type (before ++ xs) 1
    → IsGraded before (xs ++ (t ∷ []))
IsGraded-snoc before [] t h e = (rw append-nil at e, tt)
IsGraded-snoc before (x ∷ xs) t h e =
    (h.0, IsGraded-snoc (before ++ (x ∷ [])) xs t h.1 (rw append_assoc e))

All-snoc :
    (P : Transform → Type 0) (xs : List Transform) (t : Transform)
    → All P xs
    → P t
    → All P (xs ++ (t ∷ []))
All-snoc P [] t h p = (p, tt)
All-snoc P (x ∷ xs) t h p = (h.0, All-snoc P xs t h.1 p)

IsDistinct-snoc :
    (xs : List Transform) (t : Transform)
    → IsDistinct xs
    → has_transform t.type t.id t.length xs ≡ false
    → IsDistinct (xs ++ (t ∷ []))
IsDistinct-snoc [] t h n = (tt, tt)
IsDistinct-snoc (x ∷ xs) t h n =
    (All-snoc _ xs t h.0 (ground arith), IsDistinct-snoc xs t h.1 (ground arith))

config_add_transform-IsRanked :
    (xs ys : List Transform) (type id len keylen : ℕ)
    → IsRanked xs
    → config_add_transform xs type id len keylen ≡ added ys
    → IsRanked ys
unfolding config_add_transform
config_add_transform-IsRanked xs ys type id len keylen r e = elim (Bool-cases (known_type type)) [
  | inr n ↦ absurd (cc (rw n at e))
  | inl k ↦ elim (Bool-cases (has_transform type id len xs)) [
    | inl old ↦ let same : xs ≡ ys = cc (rw (k, old) at e) in subst IsRanked same r
    | inr new ↦
        let t : Transform = record {
          type = type;
          id = id;
          length = len;
          keylength = keylen;
          score = next_score type xs 1;
        } in
        let grown : xs ++ (t ∷ []) ≡ ys = cc (rw (k, new) at e) in
        subst IsRanked grown (record {
          graded = IsGraded-snoc [] xs t r.graded refl;
          distinct = IsDistinct-snoc xs t r.distinct new;
          known = All-snoc (λ x. known_type x.type ≡ true) xs t r.known k;
        })
  ]
]

next_score-snoc :
    (t : ℕ) (xs : List Transform) (y : Transform) (s : ℕ)
    → next_score t (xs ++ (y ∷ [])) s
      ≡ (if y.type == t then next_score t xs s + step_score t else next_score t xs s)
unfolding next_score
next_score-snoc t [] y s = refl
next_score-snoc t (x ∷ xs) y s = next_score-snoc t xs y _

step_pos : (t : ℕ) → 0 < step_score t
step_pos t = ground arith

-- A later transform of the type has a larger score, so the first one is preferred.
abbrev pub IsRising : List Transform → Type 0
IsRising [] = Unit {0}
IsRising (x ∷ xs) = All (λ y. y.type ≡ x.type → x.score < y.score) xs × IsRising xs

above :
    (t s : ℕ) (before xs : List Transform)
    → IsGraded before xs
    → s < next_score t before 1
    → All (λ y. y.type ≡ t → s < y.score) xs
above t s before [] g h = tt
above t s before (y ∷ ys) g h = (
  λ e. rw (g.0, e) h,
  above t s (before ++ (y ∷ [])) ys g.1 (
      rw (next_score-snoc t before y 1)
        (if_rule (λ r. s < r) (y.type == t) _ _ (λ q. omega arith) (λ q. h))),
)

graded-IsRising : (before xs : List Transform) → IsGraded before xs → IsRising xs
graded-IsRising before [] g = tt
graded-IsRising before (x ∷ xs) g = (
  above x.type x.score (before ++ (x ∷ [])) xs g.1
      (rw (next_score-snoc x.type before x 1) (ground (arith, step_pos x.type, g.0))),
  graded-IsRising (before ++ (x ∷ [])) xs g.1,
)

-- A transform that config_add_transform adds to a ranked proposal leaves it ranked: the types are
-- known, no transform stands twice, and each score counts the transforms of its type before it. So
-- every transform has a smaller score than each later one of its type.
pub config_add_transform_ranks :
    (xs ys : List Transform) (type id len keylen : ℕ)
    → IsRanked xs
    → config_add_transform xs type id len keylen ≡ added ys
    → IsRanked ys × IsRising ys
config_add_transform_ranks xs ys type id len keylen r e =
    let r' : IsRanked ys = config_add_transform-IsRanked xs ys type id len keylen r e in
    (r', graded-IsRising [] ys r'.graded)

-- ===== src/Fragment/Slots.antt =====
-- The array of fragments against the parts of the message that a peer has sent in fragments.
use openiked_portable.Base.{
  ℕ, zero, suc, ◌+◌, ◌-◌, ◌≤◌, ◌<◌, ◌≡◌, ◌≢◌, ap, refl, subst, true, false, none, some, List, [],
  ◌∷◌, ◌++◌, ltb, length, get_elem?, arith, length-append,
}
use openiked_portable.Fragment.{Slots, whole, behind, gather, blank, fill_at, has_fragment}

-- The slots hold parts of the message or nothing: how many they hold, and how many bytes.
pub data Matches : Slots → List (List ℕ) → ℕ → ℕ → Type 0 where
  nothing : Matches [] [] 0 0
  gap :
      {arr : Slots} {p : List ℕ} {ps : List (List ℕ)} {c s : ℕ}
      → Matches arr ps c s
      → Matches (none ∷ arr) (p ∷ ps) c s
  held :
      {arr : Slots} {p : List ℕ} {ps : List (List ℕ)} {c s : ℕ}
      → Matches arr ps c s
      → Matches (some p ∷ arr) (p ∷ ps) (suc c) (s + length p)

abbrev pub joined : List (List ℕ) → List ℕ
joined [] = []
joined (p ∷ ps) = p ++ joined ps

pub blank-Matches : (ps : List (List ℕ)) → Matches (blank (length ps)) ps 0 0
blank-Matches [] = nothing
blank-Matches (p ∷ ps) = gap (blank-Matches ps)

pub count-le-length :
    {arr : Slots} {ps : List (List ℕ)} {c s : ℕ} → Matches arr ps c s → c ≤ length ps
count-le-length nothing = omega arith
count-le-length (gap m) = omega (arith, count-le-length m)
count-le-length (held m) = omega (arith, count-le-length m)

pub fill_at-Matches :
    (i : ℕ) (p : List ℕ) (arr : Slots) (ps : List (List ℕ)) (c s : ℕ)
    → Matches arr ps c s
    → get_elem? ps i ≡ some p
    → has_fragment (get_elem? arr i) ≡ false
    → Matches (fill_at arr i p) ps (suc c) (s + length p)
unfolding fill_at
fill_at-Matches i p [] [] c s m e h = absurd (cc e)
fill_at-Matches zero p (none ∷ arr) (q ∷ ps) c s (gap m) e h =
    let same : p ≡ q = cc e in
    subst (λ b. Matches (some p ∷ arr) (b ∷ ps) (suc c) (s + length p)) same (held m)
fill_at-Matches (suc i) p (none ∷ arr) (q ∷ ps) c s (gap m) e h =
    gap (fill_at-Matches i p arr ps c s m e h)
fill_at-Matches zero p (some b ∷ arr) (q ∷ ps) c s m e h = absurd (cc h)
fill_at-Matches (suc i) p (some b ∷ arr) (q ∷ ps) (suc c) s (held {s = s'} m) e h =
    let order : s' + length p + length b ≡ s' + length b + length p = omega arith in
    subst (λ n. Matches (some b ∷ fill_at arr i p) (b ∷ ps) (suc (suc c)) n) order
      (held (fill_at-Matches i p arr ps c s' m e h))
fill_at-Matches i p [] (q ∷ ps) c s m e h = elim m [ ]
fill_at-Matches zero p (none ∷ arr) [] c s m e h = elim m [ ]
fill_at-Matches zero p (some b ∷ arr) [] c s m e h = elim m [ ]
fill_at-Matches (suc i) p (none ∷ arr) [] c s m e h = elim m [ ]
fill_at-Matches (suc i) p (some b ∷ arr) [] c s m e h = elim m [ ]
fill_at-Matches (suc i) p (some b ∷ arr) (q ∷ ps) zero s m e h = elim m [ ]

-- With no gap left, as many bytes are held as the message has.
pub full-size :
    {arr : Slots} {ps : List (List ℕ)} {c s : ℕ}
    → Matches arr ps c s
    → c ≡ length ps
    → s ≡ length (joined ps)
full-size nothing e = refl
full-size (gap m) e = absurd (omega (arith, count-le-length m))
full-size {ps = p ∷ ps} (held {s = s'} m) e =
    omega (arith, full-size m (omega arith), length-append p (joined ps))

-- With no gap left, the copies make the message whole.
pub gather-Matches :
    (size offset : ℕ) (arr : Slots) (ps : List (List ℕ)) (c s : ℕ)
    → Matches arr ps c s
    → c ≡ length ps
    → size ≡ offset + s
    → gather size offset arr ≡ whole (joined ps)
unfolding gather behind
gather-Matches size offset [] [] c s nothing e z =
    let rest : size - offset ≡ 0 = omega arith in rw rest refl
gather-Matches size offset (none ∷ arr) (p ∷ ps) c s (gap m) e z =
    absurd (omega (arith, count-le-length m))
gather-Matches size offset (some p ∷ arr) (q ∷ ps) (suc c) s (held {s = s'} m) e z =
    let rest : gather size (offset + length p) arr ≡ whole (joined ps) =
      gather-Matches size (offset + length p) arr ps c s' m (omega arith) (omega arith) in
    let fits : ltb size (offset + length p) ≡ false = ground arith in rw (fits, rest) refl
gather-Matches size offset [] (p ∷ ps) c s m e z = elim m [ ]
gather-Matches size offset (none ∷ arr) [] c s m e z = elim m [ ]
gather-Matches size offset (some p ∷ arr) [] c s m e z = elim m [ ]
gather-Matches size offset (some p ∷ arr) (q ∷ ps) zero s m e z = elim m [ ]

pub blank_has_none : (n i : ℕ) → has_fragment (get_elem? (blank n) i) ≡ false
blank_has_none zero i = refl
blank_has_none (suc n) zero = refl
blank_has_none (suc n) (suc i) = blank_has_none n i

-- Where a fragment is after another one has been stored.
pub fill_at_keeps :
    (arr : Slots) (i j : ℕ) (p : List ℕ)
    → has_fragment (get_elem? arr j) ≡ true
    → has_fragment (get_elem? (fill_at arr i p) j) ≡ true
unfolding fill_at
fill_at_keeps [] i j p h = h
fill_at_keeps (s ∷ arr) zero zero p h = refl
fill_at_keeps (s ∷ arr) zero (suc j) p h = h
fill_at_keeps (s ∷ arr) (suc i) zero p h = h
fill_at_keeps (s ∷ arr) (suc i) (suc j) p h = fill_at_keeps arr i j p h

pub fill_at_sets :
    (arr : Slots) (i : ℕ) (p : List ℕ)
    → i < length arr
    → has_fragment (get_elem? (fill_at arr i p) i) ≡ true
unfolding fill_at
fill_at_sets [] i p h = absurd (omega arith)
fill_at_sets (s ∷ arr) zero p h = refl
fill_at_sets (s ∷ arr) (suc i) p h = fill_at_sets arr i p (omega arith)

pub fill_at_behind :
    (arr : Slots) (i : ℕ) (p : List ℕ) → i ≢ 0 → get_elem? (fill_at arr i p) 0 ≡ get_elem? arr 0
unfolding fill_at
fill_at_behind [] i p h = refl
fill_at_behind (s ∷ arr) zero p h = absurd (h refl)
fill_at_behind (s ∷ arr) (suc i) p h = refl

pub Matches-length :
    {arr : Slots} {ps : List (List ℕ)} {c s : ℕ} → Matches arr ps c s → length arr ≡ length ps
Matches-length nothing = refl
Matches-length (gap m) = ap suc (Matches-length m)
Matches-length (held m) = ap suc (Matches-length m)

-- All fragments there means as many as parts.
pub Matches-full :
    (arr : Slots) (ps : List (List ℕ)) (c s : ℕ)
    → Matches arr ps c s
    → ((i : ℕ) → i < length ps → has_fragment (get_elem? arr i) ≡ true)
    → c ≡ length ps
Matches-full [] [] c s nothing h = refl
Matches-full (none ∷ arr) (p ∷ ps) c s (gap m) h = absurd (cc (h 0 (omega arith)))
Matches-full (some p ∷ arr) (q ∷ ps) (suc c) s (held {s = s'} m) h =
    ap suc (Matches-full arr ps c s' m (λ i k. h (suc i) (omega arith)))
Matches-full [] (q ∷ ps) c s m h = elim m [ ]
Matches-full (none ∷ arr) [] c s m h = elim m [ ]
Matches-full (some p ∷ arr) [] c s m h = elim m [ ]
Matches-full (some p ∷ arr) (q ∷ ps) zero s m h = elim m [ ]

-- When as many are held as there are parts, the first one is.
pub full-first :
    {arr : Slots} {ps : List (List ℕ)} {c s : ℕ}
    → Matches arr ps c s
    → c ≡ length ps
    → 0 < length ps
    → has_fragment (get_elem? arr 0) ≡ true
full-first nothing e h = absurd (omega arith)
full-first (gap m) e h = absurd (omega (arith, count-le-length m))
full-first (held m) e h = refl

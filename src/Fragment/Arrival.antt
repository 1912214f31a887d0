-- ===== src/Fragment/Arrival.antt =====
-- The fragments of one message, as they arrive one after the other, in any order and repeated.
use openiked_portable.Base.{
  ℕ, ◌-◌, ◌≤◌, ◌<◌, ◌≡◌, ◌≢◌, ◌⊎◌, inl, inr, ap, refl, sym, subst, true, some, List, [], ◌∷◌, All,
  Among, length, get_elem?, arith,
}
use openiked_portable.Fragment.{
  Fragments, Receiver, Verdict, parse, frag_total_max, has_fragment, receive_fragment,
}
use openiked_portable.Fragment.Slots.{joined, Matches-full}
use openiked_portable.Fragment.Reassembly.{
  IsOpen, empty, queued, Has, Received, again, kept, complete, receive_fragment-Received, oversize,
}
use openiked_portable.Crypto.{msgbuf_max}

-- A fragment that arrives, with what its body decrypts to.
pub record Arrival : Type 0 where
  pub next : ℕ
  pub num : ℕ
  pub bytes : List ℕ

-- The verdicts on fragments that arrive in this order.
unfoldable pub receive_all : ℕ → List Arrival → Receiver → List Verdict
receive_all total [] r = []
receive_all total (a ∷ bs) r =
    let (r', v) = receive_fragment a.next a.num total (some a.bytes) r in
    v ∷ receive_all total bs r'

module _ (parts : List (List ℕ)) (first : ℕ) where
  -- A fragment of this message.
  pub record IsPart (a : Arrival) : Type 0 where
    pub here : get_elem? parts (a.num - 1) ≡ some a.bytes
    pub numbered : a.num ≢ 0
    pub head : a.num ≡ 1 → a.next ≡ first

  -- Each part is there or is yet to come.
  abbrev pub Covers : List Arrival → Fragments → Type 0
  Covers bs f =
      (i : ℕ)
      → i < length parts
      → Has parts first f i ⊎ ((a : Arrival) × Among a bs × (a.num - 1 ≡ i))

  not_covered : (f : Fragments) → IsOpen parts first f → 0 < length parts → ¬ Covers [] f
  not_covered f (empty e) some_part cover = elim (cover 0 some_part) [
    | inl (arr, at, h) ↦ absurd (cc (at, ap (λ (g : Fragments). g.frag_arr) e))
    | inr (b, m, at) ↦ absurd m
  ]
  not_covered f (queued arr q) some_part cover =
      let all : (i : ℕ) → i < length parts → has_fragment (get_elem? arr i) ≡ true = λ i k.
        elim (cover i k) [
          | inl (arr', at, h) ↦
              let same : arr' ≡ arr = cc (at, q.at) in
              subst (λ b. has_fragment (get_elem? b i) ≡ true) same h
          | inr (b, m, at) ↦ absurd m
        ] in
      absurd (omega (arith, q.missing, Matches-full arr parts _ _ q.agrees all))

  Covers-step :
      (a : Arrival) (bs : List Arrival) (f g : Fragments)
      → Covers (a ∷ bs) f
      → Has parts first g (a.num - 1)
      → ((j : ℕ) → Has parts first f j → Has parts first g j)
      → Covers bs g
  Covers-step a bs f g cover now old i h = elim (cover i h) [
    | inl has ↦ inl (old i has)
    | inr (b, inl e, at) ↦
        inl (subst (Has parts first g) at (subst (λ c. Has parts first g (c.num - 1)) (sym e) now))
    | inr (b, inr m, at) ↦ inr (b, m, at)
  ]

  after_step :
      length (joined parts) ≤ msgbuf_max
      → (a : Arrival) (bs : List Arrival) (f : Fragments) (out : Receiver × Verdict)
      → Received parts first (a.num - 1) f out
      → Covers (a ∷ bs) f
      → ((r : Receiver)
          → IsOpen parts first r.frags
          → Covers bs r.frags
          → Among (parse first (joined parts)) (receive_all (length parts) bs r))
      → IsOpen parts first f
      → Among (parse first (joined parts)) (out.1 ∷ receive_all (length parts) bs out.0)
  after_step limit a bs f (s, v) (again e h) cover rest o = inr (
      rest s (subst (IsOpen parts first) (sym e) o) (
        Covers-step a bs f s.frags cover (subst (λ g. Has parts first g (a.num - 1)) (sym e) h)
          (λ j k. subst (λ g. Has parts first g j) (sym e) k)))
  after_step limit a bs f (s, v) (kept {arr = arr} q h old) cover rest o =
      inr (rest s (queued arr q) (Covers-step a bs f s.frags cover h old))
  after_step limit a bs f (s, v) (complete e fits) cover rest o = inl refl
  after_step limit a bs f (s, v) (oversize e big) cover rest o = absurd (omega (arith, limit, big))

  pub receive_all_parses :
      (bs : List Arrival) (r : Receiver)
      → 0 < length parts
      → length parts ≤ frag_total_max
      → length (joined parts) ≤ msgbuf_max
      → All IsPart bs
      → IsOpen parts first r.frags
      → Covers bs r.frags
      → Among (parse first (joined parts)) (receive_all (length parts) bs r)
  unfolding receive_all
  receive_all_parses [] r n l fits g o c = absurd (not_covered r.frags o n c)
  receive_all_parses (a ∷ bs) r n l fits g o c =
      after_step fits a bs r.frags _
        (receive_fragment-Received parts first a.next a.num a.bytes g.0.here g.0.numbered g.0.head r
          l o)
        c (λ s o' c'. receive_all_parses bs s n l fits g.1 o' c') o

-- ===== src/Msg/Arrives.antt =====
-- That a message that is sent in fragments is parsed by the peer, in whatever order they arrive.
use openiked_portable.Crypto.{msgbuf_max}
use openiked_portable.Base.{
  ◌<◌, [], ◌∷◌, List, some, Bool, ◌+◌, arith, none, zero, inl, inr, subst, suc, ℕ, map, ◌≡◌, ap,
  refl, get_elem?, length, Among, if◌then◌else◌, ◌==◌, ◌-◌, ◌≤◌, All, get_elem?_total, Option, sym,
  ◌∙◌,
}
use openiked_portable.Crypto.{IkedHash, Openssl}
use openiked_portable.Crypto.Laws.{Documented}
use openiked_portable.Fragment.Arrival.{Arrival, IsPart, receive_all_parses, receive_all}
use openiked_portable.Msg.{IkeSa}
use openiked_portable.Msg.Delivered.{Delivers}
use openiked_portable.Msg.Fragmented.{finished, followed, Series}
use openiked_portable.Msg.Sending.{Exchange}
use openiked_portable.Fragment.{no_fragments, frag_total_max, Receiver, parse, receive_fragment}
use openiked_portable.Fragment.Reassembly.{empty}
use openiked_portable.Fragment.Slots.{joined}
use openiked_portable.Msg.Receiving.{receive_datagrams}
use openiked_portable.Payload.{Message}

abbrev pub found : Option (List ℕ) → List (List ℕ) → List (List ℕ)
found none ds = ds
found (some d) ds = d ∷ ds

abbrev pub or_empty : Option (List ℕ) → List ℕ
or_empty none = []
or_empty (some bytes) = bytes

-- The datagrams in the order in which the network delivers them: their places in what was sent.
abbrev pub pick : List (List ℕ) → List ℕ → List (List ℕ)
pick sent [] = []
pick sent (i ∷ order) = found (get_elem? sent i) (pick sent order)

-- A fragment as it arrives.
abbrev arrival : List (List ℕ) → ℕ → ℕ → Arrival
arrival cs first i = record {
  next = if i == 0 then first else 0;
  num = i + 1;
  bytes = or_empty (get_elem? cs i);
}

Among-map : {A B : Type 0} (f : A → B) (xs : List A) (a : A) → Among a xs → Among (f a) (map f xs)
Among-map f [] a m = absurd m
Among-map f (x ∷ xs) a (inl e) = inl (ap f e)
Among-map f (x ∷ xs) a (inr m) = inr (Among-map f xs a m)

module _ (ssl : Openssl) (known : Documented ssl) (random : ℕ → ℕ → List ℕ)
    (fresh : (k n : ℕ) → length (random k n) ≡ n) (h : IkedHash) (peer : IkeSa) (x : Exchange)
    (msgid : ℕ) where
  -- A place in the series.
  Series-at :
      (total : ℕ) (natt : Bool) (limit next num : ℕ) (cs ds : List (List ℕ))
      → Series ssl known random fresh h peer x msgid total natt limit next num cs ds
      → (i : ℕ) → i < length cs
      → (chunk : List ℕ) × (d : List ℕ) × (get_elem? cs i ≡ some chunk)
        × (get_elem? ds i ≡ some d)
        × Delivers ssl known random fresh h peer x msgid total natt
            (if i == 0 then next else 0)
            (num + i)
            chunk
            d
  Series-at total natt limit next num [] ds s i l = absurd (omega arith)
  Series-at total natt limit next num (chunk ∷ cs) (d ∷ ds) (followed one size rest) zero l =
      let n : num ≡ num + 0 = omega arith in
      (
        chunk,
        d,
        refl,
        refl,
        subst (λ k. Delivers ssl known random fresh h peer x msgid total natt next k chunk d) n one,
      )
  Series-at total natt limit next num (chunk ∷ cs) (d ∷ ds) (followed one size rest) (suc i) l =
      let (c, e, a, b, here) = Series-at total natt limit 0 (num + 1) cs ds rest i (omega arith) in
      let n : num + 1 + i ≡ num + suc i = omega arith in
      let same : (if i == 0 then 0 else 0) ≡ (if suc i == 0 then next else 0) = ground arith in
      (
        c,
        e,
        a,
        b,
        subst (λ (k : ℕ × ℕ). Delivers ssl known random fresh h peer x msgid total natt k.0 k.1 c e)
            (cc (same, n)) here,
      )
  Series-at total natt limit next num (chunk ∷ cs) [] s i l = elim s [ ]

  pub Series-length :
      (total : ℕ) (natt : Bool) (limit next num : ℕ) (cs ds : List (List ℕ))
      → Series ssl known random fresh h peer x msgid total natt limit next num cs ds
      → length ds ≡ length cs
  Series-length total natt limit next num [] [] finished = refl
  Series-length total natt limit next num (chunk ∷ cs) (d ∷ ds) (followed one size rest) =
      ap suc (Series-length total natt limit 0 (num + 1) cs ds rest)
  Series-length total natt limit next num [] (d ∷ ds) s = elim s [ ]
  Series-length total natt limit next num (chunk ∷ cs) [] s = elim s [ ]

  pub Series-size :
      (total : ℕ) (natt : Bool) (limit next num : ℕ) (cs ds : List (List ℕ))
      → Series ssl known random fresh h peer x msgid total natt limit next num cs ds
      → All (λ d. length d ≤ limit) ds
  Series-size total natt limit next num [] [] finished = tt
  Series-size total natt limit next num (chunk ∷ cs) (d ∷ ds) (followed one size rest) =
      (size, Series-size total natt limit 0 (num + 1) cs ds rest)
  Series-size total natt limit next num [] (d ∷ ds) s = elim s [ ]
  Series-size total natt limit next num (chunk ∷ cs) [] s = elim s [ ]

  module _ (natt : Bool) (limit first : ℕ) (cs ds : List (List ℕ))
      (s : Series ssl known random fresh h peer x msgid (length cs) natt limit first 1 cs ds) where
    receive_one :
        (i : ℕ) (m : Message) (r : Receiver)
        → i < length cs
        → (d : List ℕ) × (get_elem? ds i ≡ some d)
          × ((rest : List (List ℕ)) (r' : Receiver)
              → let (q, v) =
                  receive_fragment
                    (arrival cs first i).next
                    (arrival cs first i).num
                    (length cs)
                    (some (arrival cs first i).bytes)
                    r in
                receive_datagrams ssl random peer natt m (d ∷ rest) r
                ≡ v ∷ receive_datagrams ssl random peer natt m rest q)
    unfolding receive_datagrams
    receive_one i m r l =
        let (chunk, d, a, b, one) = Series-at (length cs) natt limit first 1 cs ds s i l in
        let n : 1 + i ≡ i + 1 = omega arith in
        (d, b, λ rest r'. rw (a, ← n, receive_datagrams, one.arrives, one.reads m r) refl)

    receive_datagrams-pick :
        (order : List ℕ) (m : Message) (r : Receiver)
        → All (λ i. i < length cs) order
        → receive_datagrams ssl random peer natt m (pick ds order) r
          ≡ receive_all (length cs) (map (arrival cs first) order) r
    unfolding receive_all
    receive_datagrams-pick [] m r l = unfold receive_datagrams in refl
    receive_datagrams-pick (i ∷ order) m r l =
        let (d, b, step) = receive_one i m r l.0 in
        let (q, v) =
          receive_fragment (arrival cs first i).next (arrival cs first i).num (length cs)
            (some (arrival cs first i).bytes) r in
        rw (b, receive_all)
          (step (pick ds order) r ∙ ap (v ∷◌) (receive_datagrams-pick order m q l.1))

    arrival-IsPart : (i : ℕ) → i < length cs → IsPart cs first (arrival cs first i)
    arrival-IsPart i l =
        let (chunk, a) = get_elem?_total i cs l in
        let n : i + 1 - 1 ≡ i = omega arith in
        record {
          here = rw n (a ∙ ap (λ o. some (or_empty o)) (sym a));
          numbered = λ e. omega arith;
          head = λ e. ground arith;
        }

    arrivals-All :
        (order : List ℕ)
        → All (λ i. i < length cs) order
        → All (IsPart cs first) (map (arrival cs first) order)
    arrivals-All [] l = tt
    arrivals-All (i ∷ order) l = (arrival-IsPart i l.0, arrivals-All order l.1)

    -- Every fragment among those that arrive, at a receiver with no fragments.
    pub series-parses :
        (order : List ℕ) (m : Message) (r : Receiver)
        → 0 < length cs
        → length cs ≤ frag_total_max
        → length (joined cs) ≤ msgbuf_max
        → All (λ i. i < length cs) order
        → ((i : ℕ) → i < length cs → Among i order)
        → r.frags ≡ no_fragments
        → Among
            (parse first (joined cs))
            (receive_datagrams ssl random peer natt m (pick ds order) r)
    series-parses order m r some_part few fits inside cover idle =
        rw (receive_datagrams-pick order m r inside) (
          receive_all_parses cs first (map (arrival cs first) order) r some_part few fits
            (arrivals-All order inside) (empty idle)
            (λ i l.
              inr (
                arrival cs first i,
                Among-map (arrival cs first) order i (cover i l),
                omega arith,
              )))

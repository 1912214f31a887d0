-- ===== src/Fragment/Reassembly.antt =====
-- What a receiver makes of the fragments of one message, in whatever order they come.
use openiked_portable.Base.{
  ℕ, suc, ◌+◌, ◌-◌, ◌≤◌, ◌<◌, ◌≡◌, ◌≢◌, inl, inr, ap, refl, subst, true, false, none, some, List,
  ◌||◌, ltb, ◌==◌, ◌!=◌, length, get_elem?, arith, if_rule, option_rule, Bool-cases, get_elem?-lt,
}
use openiked_portable.Fragment.{
  Slots, Fragments, no_fragments, Receiver, Verdict, dropped, stored, parse, frag_total_max, whole,
  gather, blank, fill_at, has_fragment, drop_one, insert, reassembled, ikev2_frags_reassemble,
  store_fragment, take_fragment, count_received, receive_fragment,
}
use openiked_portable.Fragment.Slots.{
  Matches, joined, blank-Matches, fill_at-Matches, gather-Matches, blank_has_none, fill_at_keeps,
  fill_at_sets, fill_at_behind, full-first, full-size, Matches-length, full-size,
}
use openiked_portable.Crypto.{msgbuf_max}

module _ (parts : List (List ℕ)) (first : ℕ) where
  -- The fragments that are stored are parts of the message, and some are missing.
  pub record IsQueue (arr : Slots) (f : Fragments) : Type 0 where
    pub at : f.frag_arr ≡ some arr
    pub agrees : Matches arr parts f.frag_count f.frag_total_size
    pub total : f.frag_total ≡ length parts
    pub missing : f.frag_count < length parts
    pub leads : has_fragment (get_elem? arr 0) ≡ true → f.frag_nextpayload ≡ first

  -- No message is in the making, or this one.
  pub data IsOpen (f : Fragments) : Type 0 where
    empty : f ≡ no_fragments → IsOpen f
    queued : (arr : Slots) → IsQueue arr f → IsOpen f

  -- A slot that is filled.
  abbrev pub Has : Fragments → ℕ → Type 0
  Has f i = (arr : Slots) × (f.frag_arr ≡ some arr) × (has_fragment (get_elem? arr i) ≡ true)

  -- What comes of the part `i` of the message: it is there already and dropped, it is stored with
  -- all that was there, or it is the last one, and the message is parsed, or dropped with all its
  -- parts when it is longer than IKED_MSGBUF_MAX.
  pub data Received (i : ℕ) (f : Fragments) : Receiver × Verdict → Type 0 where
    again : {s : Receiver} → s.frags ≡ f → Has f i → Received i f (s, dropped)
    kept :
        {s : Receiver} {arr : Slots}
        → IsQueue arr s.frags
        → Has s.frags i
        → ((j : ℕ) → Has f j → Has s.frags j)
        → Received i f (s, stored)
    complete :
        {s : Receiver}
        → s.frags ≡ no_fragments
        → length (joined parts) ≤ msgbuf_max
        → Received i f (s, parse first (joined parts))
    oversize :
        {s : Receiver}
        → s.frags ≡ no_fragments
        → msgbuf_max < length (joined parts)
        → Received i f (s, dropped)

  module _ (next num : ℕ) (p : List ℕ) (here : get_elem? parts (num - 1) ≡ some p)
      (numbered : num ≢ 0) (head : num ≡ 1 → next ≡ first) where
    inserted_leads :
        (arr : Slots) (f : Fragments)
        → (has_fragment (get_elem? arr 0) ≡ true → f.frag_nextpayload ≡ first)
        → has_fragment (get_elem? (fill_at arr (num - 1) p) 0) ≡ true
        → (insert next num p arr f).frag_nextpayload ≡ first
    unfolding insert
    inserted_leads arr f l h = elim (Bool-cases (num == 1)) [
      | inl y ↦ rw y (head (ground arith))
      | inr n ↦
          let behind : num - 1 ≢ 0 = ground arith in
          rw n (l (rw (fill_at_behind arr (num - 1) p behind) at h))
    ]

    store-Received :
        (arr : Slots) (r : Receiver)
        → Matches arr parts r.frags.frag_count r.frags.frag_total_size
        → r.frags.frag_total ≡ length parts
        → r.frags.frag_count < length parts
        → (has_fragment (get_elem? arr 0) ≡ true → r.frags.frag_nextpayload ≡ first)
        → has_fragment (get_elem? arr (num - 1)) ≡ false
        → (prior : Fragments) → ((j : ℕ) → Has prior j → has_fragment (get_elem? arr j) ≡ true)
        → Received (num - 1) prior (store_fragment next num p arr r)
    unfolding store_fragment ikev2_frags_reassemble reassembled insert
    store-Received arr r m t k l free prior old =
        let f : Fragments = r.frags in
        let arr' = fill_at arr (num - 1) p in
        let inside : num - 1 < length arr =
          omega (arith, get_elem?-lt (num - 1) parts p here, Matches-length m) in
        let filled = fill_at_sets arr (num - 1) p inside in
        let one : suc f.frag_count ≡ f.frag_count + 1 = omega arith in
        let grown : Matches arr' parts (f.frag_count + 1) (f.frag_total_size + length p) =
          subst (λ c. Matches arr' parts c (f.frag_total_size + length p)) one
            (fill_at-Matches (num - 1) p arr parts _ _ m here free) in
        if_rule (Received (num - 1) prior) (f.frag_count + 1 == f.frag_total) _ _
          (λ y.
            let all : f.frag_count + 1 ≡ length parts = ground arith in
            let copied : gather (f.frag_total_size + length p) 0 arr' ≡ whole (joined parts) =
              gather-Matches _ 0 arr' parts _ _ grown all (omega arith) in
            let led : has_fragment (get_elem? arr' 0) ≡ true =
              full-first grown all (omega (arith, k)) in
            let size = full-size grown all in
            if_rule (Received (num - 1) prior) (ltb msgbuf_max (f.frag_total_size + length p)) _ _
              (λ big. oversize refl (ground (arith, size)))
              (λ fits.
                rw (copied, inserted_leads arr f l led) (complete refl (ground (arith, size)))))
          (λ n.
            kept
              (record {
                at = refl;
                agrees = grown;
                total = t;
                missing = ground (arith, t, k);
                leads = inserted_leads arr f l;
              })
              (arr', refl, filled) (λ j o. (arr', refl, fill_at_keeps arr (num - 1) j p (old j o))))

    take-Received :
        (r : Receiver)
        → IsOpen r.frags
        → Received (num - 1) r.frags (take_fragment next num (length parts) p r)
    unfolding take_fragment drop_one
    take-Received r (empty e) =
        let none_there : r.frags.frag_arr ≡ none = ap (λ (f : Fragments). f.frag_arr) e in
        let no_count : r.frags.frag_count ≡ 0 = ap (λ (f : Fragments). f.frag_count) e in
        let no_size : r.frags.frag_total_size ≡ 0 = ap (λ (f : Fragments). f.frag_total_size) e in
        option_rule (Received (num - 1) r.frags) r.frags.frag_arr _ _
          (λ n.
            store-Received (blank (length parts))
              (record r { frags = record r.frags { frag_total = length parts } })
              (rw (no_count, no_size) (blank-Matches parts)) refl
              (omega (arith, no_count, get_elem?-lt (num - 1) parts p here))
              (λ h. absurd (cc (h, blank_has_none (length parts) 0)))
              (blank_has_none (length parts) (num - 1)) r.frags
              (λ j (arr, at, h). absurd (cc (at, none_there))))
          (λ arr s. absurd (cc (s, none_there)))
    take-Received r (queued arr q) =
        option_rule (Received (num - 1) r.frags) r.frags.frag_arr _ _ (λ n. absurd (cc (n, q.at)))
          (λ arr' s.
            let same : arr ≡ arr' = cc (q.at, s) in
            if_rule (Received (num - 1) r.frags) (length parts != r.frags.frag_total) _ _
              (λ y. absurd (ground (arith, q.total)))
              (λ n.
                if_rule (Received (num - 1) r.frags) (has_fragment (get_elem? arr' (num - 1))) _ _
                  (λ h. again refl (arr', s, h))
                  (λ h.
                    let q' : IsQueue arr' r.frags = subst (λ a. IsQueue a r.frags) same q in
                    store-Received arr' r q'.agrees q'.total q'.missing q'.leads h r.frags
                      (λ j (b, at, k).
                        let eq : b ≡ arr' = cc (at, s) in
                        subst (λ a. has_fragment (get_elem? a j) ≡ true) eq k))))

    pub receive_fragment-Received :
        (r : Receiver)
        → length parts ≤ frag_total_max
        → IsOpen r.frags
        → Received (num - 1) r.frags (receive_fragment next num (length parts) (some p) r)
    unfolding receive_fragment count_received
    receive_fragment-Received r limit o =
        let inside = get_elem?-lt (num - 1) parts p here in
        if_rule (Received (num - 1) r.frags) (ltb frag_total_max (length parts)) _ _
          (λ y. absurd (ground arith))
          (λ a.
            if_rule (Received (num - 1) r.frags) (num == 0 || length parts == 0) _ _
              (λ y. absurd (ground (arith, inside)))
              (λ b.
                if_rule (Received (num - 1) r.frags) (ltb (length parts) num) _ _
                  (λ y. absurd (ground (arith, inside))) (λ c. take-Received (count_received r) o)))

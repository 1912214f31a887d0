-- ===== src/Fragment/Balance.antt =====
-- The counters ikes_frag_* of ikev2_pld_ef of iked/ikev2_pld.c.
use openiked_portable.Base.{
  ℕ, ◌+◌, ◌-◌, ◌≤◌, ◌≡◌, ◌||◌, ltb, ◌==◌, ◌!=◌, refl, Option, none, List, length, get_elem?, arith,
  if_rule, option_rule,
}
use openiked_portable.Fragment.{
  Slots, Fragments, Receiver, Verdict, wrap, frag_total_max, config_free_fragments, drop_one,
  drop_all, Gathered, whole, shallow, short, blank, has_fragment, reassembled,
  ikev2_frags_reassemble, insert, store_fragment, take_fragment, count_received, receive_fragment,
  ikev2_validate_ef, ikev2_pld_ef,
}
use openiked_portable.Payload.{Message, be16}
use openiked_portable.Payload.Safety.{Ends, returns, bind_rule, memcpy_rule, header}
use openiked_portable.Crypto.{msgbuf_max}

-- What has become of the fragments, with those that are stored.
abbrev pub accounted : Receiver → ℕ
accounted r = r.stats.rcvd_drop + r.stats.reass_ok + r.stats.reass_drop + r.frags.frag_count

pub record IsBalanced (r : Receiver) : Type 0 where
  pub idle : r.frags.frag_arr ≡ none → r.frags.frag_count ≡ 0
  pub even : wrap r.stats.rcvd ≡ wrap (accounted r)

-- A fragment has been counted, and is not accounted for yet.
record Owes (r : Receiver) : Type 0 where
  idle : r.frags.frag_arr ≡ none → r.frags.frag_count ≡ 0
  even : wrap r.stats.rcvd ≡ wrap (accounted r + 1)

count_received-Owes : (r : Receiver) → IsBalanced r → Owes (count_received r)
unfolding count_received
count_received-Owes r b = record { idle = b.idle; even = omega (arith, b.even) }

drop_one-IsBalanced : (r : Receiver) → Owes r → IsBalanced (drop_one r).0
unfolding drop_one
drop_one-IsBalanced r o = record { idle = o.idle; even = omega (arith, o.even) }

free_count :
    (f : Fragments)
    → (f.frag_arr ≡ none → f.frag_count ≡ 0)
    → (config_free_fragments f).frag_count ≡ 0
unfolding config_free_fragments
free_count f h =
    option_rule (λ (g : Fragments). g.frag_count ≡ 0) f.frag_arr _ _ (λ n. h n) (λ arr s. refl)

drop_all-IsBalanced : (r : Receiver) → Owes r → IsBalanced (drop_all r).0
unfolding drop_all
drop_all-IsBalanced r o = record {
  idle = λ n. free_count r.frags o.idle;
  even = omega (arith, o.even, free_count r.frags o.idle);
}

reassembled-IsBalanced :
    (g : Gathered) (r : Receiver)
    → IsBalanced r
    → r.frags.frag_count ≡ r.frags.frag_total
    → IsBalanced (reassembled g r).0
unfolding reassembled
reassembled-IsBalanced (whole bytes) r b e = record {
  idle = λ n. refl;
  even = omega (arith, b.even, e);
}
reassembled-IsBalanced shallow r b e = b
reassembled-IsBalanced short r b e = record { idle = λ n. refl; even = omega (arith, b.even, e) }

store_fragment-IsBalanced :
    (next num : ℕ) (bytes : List ℕ) (arr : Slots) (r : Receiver)
    → wrap r.stats.rcvd ≡ wrap (accounted r + 1)
    → IsBalanced (store_fragment next num bytes arr r).0
unfolding store_fragment ikev2_frags_reassemble insert
store_fragment-IsBalanced next num bytes arr r e =
    let r' : Receiver = record r { frags = insert next num bytes arr r.frags } in
    let even' : IsBalanced r' = record { idle = λ n. absurd (cc n); even = omega (arith, e) } in
    if_rule (λ (o : Receiver × Verdict). IsBalanced o.0)
      (r.frags.frag_count + 1 == r.frags.frag_total) _ _
      (λ y.
        if_rule (λ (o : Receiver × Verdict). IsBalanced o.0)
          (ltb msgbuf_max r'.frags.frag_total_size) _ _
          (λ big. reassembled-IsBalanced short r' even' (ground arith))
          (λ fits. reassembled-IsBalanced _ r' even' (ground arith)))
      (λ n. even')

take_fragment-IsBalanced :
    (next num total : ℕ) (bytes : List ℕ) (r : Receiver)
    → Owes r
    → IsBalanced (take_fragment next num total bytes r).0
unfolding take_fragment
take_fragment-IsBalanced next num total bytes r o =
    option_rule (λ (x : Receiver × Verdict). IsBalanced x.0) r.frags.frag_arr _ _
      (λ n.
        store_fragment-IsBalanced next num bytes (blank total)
          (record r { frags = record r.frags { frag_total = total } }) o.even)
      (λ arr s.
        if_rule (λ (x : Receiver × Verdict). IsBalanced x.0) (total != r.frags.frag_total) _ _
          (λ y. drop_all-IsBalanced r o)
          (λ n.
            if_rule (λ (x : Receiver × Verdict). IsBalanced x.0) (has_fragment (get_elem? arr _)) _
              _ (λ y. drop_one-IsBalanced r o)
              (λ k. store_fragment-IsBalanced next num bytes arr r o.even)))

receive_fragment-IsBalanced :
    (next num total : ℕ) (decrypted : Option (List ℕ)) (r : Receiver)
    → IsBalanced r
    → IsBalanced (receive_fragment next num total decrypted r).0
unfolding receive_fragment
receive_fragment-IsBalanced next num total decrypted r b =
    let o = count_received-Owes r b in
    let r' = count_received r in
    if_rule (λ (x : Receiver × Verdict). IsBalanced x.0) (ltb frag_total_max total) _ _
      (λ y. drop_all-IsBalanced r' o)
      (λ n.
        if_rule (λ (x : Receiver × Verdict). IsBalanced x.0) (num == 0 || total == 0) _ _
          (λ y. drop_one-IsBalanced r' o)
          (λ k.
            if_rule (λ (x : Receiver × Verdict). IsBalanced x.0) (ltb total num) _ _
              (λ y. drop_one-IsBalanced r' o)
              (λ m.
                option_rule (λ (x : Receiver × Verdict). IsBalanced x.0) decrypted _ _
                  (λ e. drop_one-IsBalanced r' o)
                  (λ bytes e. take_fragment-IsBalanced next num total bytes r' o))))

-- Whatever arrives as a fragment payload that lies in the message buffer, with any bytes and
-- whether it can be decrypted or not: ikev2_pld_ef reads nothing outside the buffer, and the
-- counter of received fragments stays, modulo 2^64, the sum of those that are dropped, those of
-- messages that were made whole or given up, and those that are stored.
pub ikev2_pld_ef-IsBalanced :
    (decrypt : List ℕ → Option (List ℕ)) (next offset left : ℕ) (m : Message) (r : Receiver)
    → offset + left ≤ length m.msg_data
    → IsBalanced r
    → Ends (λ o. IsBalanced o.0) (λ n. n ≡ m) (ikev2_pld_ef decrypt next offset left m r)
unfolding ikev2_pld_ef ikev2_validate_ef
ikev2_pld_ef-IsBalanced decrypt next offset left m r h b =
    header 4 offset left m refl h (λ enough frag.
      bind_rule (memcpy_rule (offset + 4) (left - 4) m (omega arith)) (λ body e.
        returns (receive_fragment-IsBalanced next (be16 frag 0) (be16 frag 2) (decrypt body) r b)))

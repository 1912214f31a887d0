-- ===== src/Fragment.antt =====
-- Fragmented messages (RFC 7383): struct iked_frag of iked/iked.h, ikev2_validate_ef,
-- ikev2_pld_ef and ikev2_frags_reassemble of iked/ikev2_pld.c, config_free_fragments of
-- iked/config.c. The result of ikev2_msg_decrypt is a parameter. What is reassembled is returned
-- for ikev2_pld_payloads; allocations succeed, so does ibuf_new of a part of a message, since no
-- message is longer than IKED_MSGBUF_MAX, and the retransmission queue is left out.
pub mod Slots
pub mod Reassembly
pub mod Arrival
pub mod Balance
use openiked_portable.Base.{
  ℕ, zero, suc, ◌+◌, ◌-◌, ◌%◌, ◌^◌, ◌||◌, Bool, true, false, Option, none, some, List, [], ◌∷◌,
  ◌++◌, ltb, ◌==◌, ◌!=◌, if◌then◌else◌, length, get_elem?, zeros,
}
use openiked_portable.Crypto.{msgbuf_max}
use openiked_portable.Payload.{
  Message, Outcome, ok, failed, invalid, ◌>>=◌, ◌>>◌, reject_if, memcpy, be16,
}

-- frag_arr: the plain text of each fragment that is stored.
abbrev pub Slots : Type 0
Slots = List (Option (List ℕ))

pub record Fragments : Type 0 where
  pub frag_arr : Option Slots
  pub frag_count : ℕ
  pub frag_total : ℕ
  pub frag_total_size : ℕ
  pub frag_nextpayload : ℕ

abbrev pub no_fragments : Fragments
no_fragments = record {
  frag_arr = none;
  frag_count = 0;
  frag_total = 0;
  frag_total_size = 0;
  frag_nextpayload = 0;
}

-- The counters ikes_frag_*, of 64 bits.
pub record FragStats : Type 0 where
  pub rcvd : ℕ
  pub rcvd_drop : ℕ
  pub reass_ok : ℕ
  pub reass_drop : ℕ

abbrev pub wrap : ℕ → ℕ
wrap n = n % 2 ^ 64

pub record Receiver : Type 0 where
  pub frags : Fragments
  pub stats : FragStats

-- What a fragment leads to: the results -1 and 0, the parse of a whole message with its first
-- payload type, or the end of the process by fatalx.
pub data Verdict : Type 0 where
  dropped : Verdict
  stored : Verdict
  parse : ℕ → List ℕ → Verdict
  fatal : Verdict

abbrev pub frag_total_max : ℕ
frag_total_max = 111

unfoldable pub config_free_fragments : Fragments → Fragments
config_free_fragments f = elim f.frag_arr [ none ↦ f | some arr ↦ no_fragments ]

-- The labels `done`, for a fragment that is not processed, and `dropall`.
unfoldable pub drop_one : Receiver → Receiver × Verdict
drop_one r =
    let stats : FragStats = r.stats in
    (record r { stats = record stats { rcvd_drop = wrap (stats.rcvd_drop + 1) } }, dropped)

unfoldable pub drop_all : Receiver → Receiver × Verdict
unfolding config_free_fragments
drop_all r =
    let stats : FragStats = r.stats in
    (
      record {
        frags = config_free_fragments r.frags;
        stats = record stats { rcvd_drop = wrap (stats.rcvd_drop + (r.frags.frag_count + 1)) };
      },
      dropped,
    )

-- The loop that copies the fragments into a buffer of `size` zeros, from `offset` on: the bytes
-- from there, a slot with no fragment, or a fragment that does not fit.
pub data Gathered : Type 0 where
  whole : List ℕ → Gathered
  shallow : Gathered
  short : Gathered

unfoldable pub behind : List ℕ → Gathered → Gathered
behind bytes (whole rest) = whole (bytes ++ rest)
behind bytes shallow = shallow
behind bytes short = short

unfoldable pub gather : ℕ → ℕ → Slots → Gathered
unfolding behind
gather size offset [] = whole (zeros (size - offset))
gather size offset (none ∷ arr) = shallow
gather size offset (some bytes ∷ arr) =
    let rest = gather size (offset + length bytes) arr in
    if ltb size (offset + length bytes) then short else behind bytes rest

-- The end of ikev2_frags_reassemble, which frees the fragments.
unfoldable pub reassembled : Gathered → Receiver → Receiver × Verdict
reassembled (whole bytes) r =
    let stats : FragStats = r.stats in
    (
      record {
        frags = no_fragments;
        stats = record stats { reass_ok = wrap (stats.reass_ok + r.frags.frag_total) };
      },
      parse r.frags.frag_nextpayload bytes,
    )
reassembled shallow r = (r, fatal)
reassembled short r =
    let stats : FragStats = r.stats in
    (
      record {
        frags = no_fragments;
        stats = record stats { reass_drop = wrap (stats.reass_drop + r.frags.frag_total) };
      },
      dropped,
    )

-- ibuf_new fails for more than IKED_MSGBUF_MAX bytes.
unfoldable pub ikev2_frags_reassemble : Slots → Receiver → Receiver × Verdict
unfolding gather reassembled
ikev2_frags_reassemble arr r =
    if ltb msgbuf_max r.frags.frag_total_size
    then reassembled short r
    else reassembled (gather r.frags.frag_total_size 0 arr) r

abbrev pub blank : ℕ → Slots
blank zero = []
blank (suc n) = none ∷ blank n

unfoldable pub fill_at : Slots → ℕ → List ℕ → Slots
fill_at [] i bytes = []
fill_at (s ∷ arr) zero bytes = some bytes ∷ arr
fill_at (s ∷ arr) (suc i) bytes = s ∷ fill_at arr i bytes

-- frag_arr[i] != NULL
abbrev pub has_fragment : Option (Option (List ℕ)) → Bool
has_fragment none = false
has_fragment (some none) = false
has_fragment (some (some bytes)) = true

-- The fragments with a new one; the first one says which payload comes first.
unfoldable pub insert : ℕ → ℕ → List ℕ → Slots → Fragments → Fragments
unfolding fill_at
insert next num bytes arr f = record {
  frag_arr = some (fill_at arr (num - 1) bytes);
  frag_count = f.frag_count + 1;
  frag_total = f.frag_total;
  frag_total_size = f.frag_total_size + length bytes;
  frag_nextpayload = if num == 1 then next else f.frag_nextpayload;
}

unfoldable pub store_fragment : ℕ → ℕ → List ℕ → Slots → Receiver → Receiver × Verdict
unfolding insert ikev2_frags_reassemble fill_at
store_fragment next num bytes arr r =
    let r' : Receiver = record r { frags = insert next num bytes arr r.frags } in
    let last = ikev2_frags_reassemble (fill_at arr (num - 1) bytes) r' in
    if r.frags.frag_count + 1 == r.frags.frag_total then last else (r', stored)

-- A decrypted fragment; the first of a message makes the array.
unfoldable pub take_fragment : ℕ → ℕ → ℕ → List ℕ → Receiver → Receiver × Verdict
unfolding drop_one drop_all store_fragment
take_fragment next num total bytes r =
    let f : Fragments = r.frags in
    elim f.frag_arr [
      | none ↦
          store_fragment next num bytes (blank total)
            (record r { frags = record f { frag_total = total } })
      | some arr ↦
          if total != f.frag_total
          then drop_all r
          else if has_fragment (get_elem? arr (num - 1))
          then drop_one r
          else store_fragment next num bytes arr r
    ]

unfoldable pub count_received : Receiver → Receiver
count_received r =
    let stats : FragStats = r.stats in
    record r { stats = record stats { rcvd = wrap (stats.rcvd + 1) } }

-- A fragment behind its header: `decrypted` is what ikev2_msg_decrypt returns for its body.
unfoldable pub receive_fragment : ℕ → ℕ → ℕ → Option (List ℕ) → Receiver → Receiver × Verdict
unfolding count_received drop_one drop_all take_fragment
receive_fragment next num total decrypted r =
    let r' = count_received r in
    if ltb frag_total_max total
    then drop_all r'
    else if num == 0 || total == 0
    then drop_one r'
    else if ltb total num
    then drop_one r'
    else (elim decrypted [
      | none ↦ drop_one r'
      | some bytes ↦ take_fragment next num total bytes r'
    ])

unfoldable pub ikev2_validate_ef : ℕ → ℕ → Message → Outcome (List ℕ)
unfolding memcpy
ikev2_validate_ef offset left m = do reject_if (ltb left 4) m; memcpy offset 4 m

module _ (decrypt : List ℕ → Option (List ℕ)) where
  unfoldable pub ikev2_pld_ef : ℕ → ℕ → ℕ → Message → Receiver → Outcome (Receiver × Verdict)
  unfolding ikev2_validate_ef receive_fragment memcpy be16
  ikev2_pld_ef next offset left m r = do
    frag ← ikev2_validate_ef offset left m
    body ← memcpy (offset + 4) (left - 4) m
    ok (receive_fragment next (be16 frag 0) (be16 frag 2) (decrypt body) r)

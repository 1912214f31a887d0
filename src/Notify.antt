-- ===== src/Notify.antt =====
-- The notify payload: ikev2_validate_notify and ikev2_pld_notify of iked/ikev2_pld.c. The fields of
-- the message that it fills are a record of their own, which an error leaves as it is. What
-- ikev2_nat_detection computes with SHA-1 is a parameter. Allocations succeed.
pub mod Plain
pub mod Total
use openiked_portable.Base.{
  ℕ, ◌+◌, ◌-◌, ◌*◌, ◌%◌, ◌≤◌, ◌≡◌, ◌⊎◌, inl, inr, refl, ◌&&◌, ◌||◌, not, Bool, true, false, Option,
  none, some, List, [], ◌∷◌, ltb, leb, ◌==◌, ◌!=◌, if◌then◌else◌, length, take, drop, bit_or,
  bytes_eq,
}
use openiked_portable.Proposal.{Spi}
use openiked_portable.Sa.{Sa, sa_stateok, valid}
use openiked_portable.Payload.{
  Message, Outcome, Return, ok, failed, invalid, ◌>>=◌, ◌>>◌, reject_if, memcpy, byte, be16,
  be_from,
}

pub record Notices : Type 0 where
  pub nat_detected : ℕ
  pub natt_rcvd : Bool
  pub flags : ℕ
  pub group : List ℕ
  pub rekey : Spi
  pub cpi : List ℕ
  pub transform : List ℕ
  pub update_sa_addresses : Bool
  pub cookie : Option (List ℕ)
  pub cookie2 : Option (List ℕ)

-- What is read of the SA and the policy; `digest` is what ikev2_nat_detection returns.
pub record Context : Type 0 where
  pub sa : Sa
  pub sa_mobike : Bool
  pub sa_sigsha2 : Bool
  pub transport : Bool
  pub digest : Option (List ℕ)

-- The content of a notification: n_protoid, n_spisize, n_type and the bytes behind the header.
pub record Notice : Type 0 where
  pub protoid : ℕ
  pub spisize : ℕ
  pub type : ℕ
  pub buf : List ℕ

abbrev pub set_flag : ℕ → Notices → Notices
set_flag f n = record n { flags = bit_or n.flags f }

-- A notification of type 16388 is NAT_DETECTION_SOURCE_IP, of type 16389 DESTINATION_IP.
unfoldable pub compare_digest : Notice → Option (List ℕ) → Message → Notices → Outcome Notices
compare_digest x none m n = failed invalid m
compare_digest x (some md) m n = ok (record n {
  nat_detected =
      if bytes_eq x.buf md
      then n.nat_detected
      else bit_or n.nat_detected (if x.type == 16388 then 1 else 2);
  natt_rcvd = true;
})

unfoldable pub nat_detection : Context → Notice → Message → Notices → Outcome Notices
unfolding compare_digest
nat_detection ctx x m n =
    if length x.buf != 20 then failed invalid m else compare_digest x ctx.digest m n

unfoldable pub invalid_ke : Context → Notice → Message → Notices → Outcome Notices
invalid_ke ctx x m n =
    if (sa_stateok ctx.sa valid && not m.encrypted) || length x.buf != 2
    then failed invalid m
    else ok (set_flag 0x40 (record n { group = x.buf }))

unfoldable pub any_sha2 : List ℕ → Bool
any_sha2 [] = false
any_sha2 (a ∷ []) = false
any_sha2 (a ∷ b ∷ rest) = a * 256 + b == 2 || any_sha2 rest

unfoldable pub signature_hashes : Context → Notice → Message → Notices → Outcome Notices
unfolding any_sha2
signature_hashes ctx x m n =
    if m.encrypted
    then failed invalid m
    else if ctx.sa_sigsha2 || ltb (length x.buf) 2 || length x.buf % 2 != 0
    then ok n
    else ok (if any_sha2 x.buf then set_flag 0x4 n else n)

unfoldable pub store_cookie : Notice → Message → Notices → Outcome Notices
store_cookie x m n =
    if m.encrypted
    then failed invalid m
    else if ltb (length x.buf) 1 || ltb 64 (length x.buf)
    then ok n
    else ok (record n { cookie = some x.buf })

unfoldable pub fragmentation : Notice → Message → Notices → Outcome Notices
fragmentation x m n =
    if m.encrypted
    then failed invalid m
    else if length x.buf != 0
    then ok n
    else ok (set_flag 0x1 n)

-- The types that need no encryption; any other one is ignored.
unfoldable pub plain_notify : Context → Notice → Message → Notices → Outcome Notices
unfolding nat_detection invalid_ke signature_hashes store_cookie fragmentation
plain_notify ctx x m n =
    if x.type == 16388 || x.type == 16389
    then nat_detection ctx x m n
    else if x.type == 17
    then invalid_ke ctx x m n
    else if x.type == 14
    then ok (set_flag 0x400 n)
    else if x.type == 16390
    then store_cookie x m n
    else if x.type == 16430
    then fragmentation x m n
    else if x.type == 16431
    then signature_hashes ctx x m n
    else ok n

unfoldable pub authentication_failed : Context → Message → Notices → Outcome Notices
authentication_failed ctx m n =
    if (not m.initiator && not (sa_stateok ctx.sa valid))
      || (m.initiator && sa_stateok ctx.sa valid)
    then failed invalid m
    else ok (set_flag 0x20 n)

unfoldable pub rekey_sa : Notice → Message → Notices → Outcome Notices
unfolding be_from
rekey_sa x m n =
    if length x.buf != x.spisize || n.rekey.spi != 0 || not (x.spisize == 4 || x.spisize == 8)
    then failed invalid m
    else ok (record n {
      rekey = record { spi = be_from 0 x.buf; spi_size = x.spisize; spi_protoid = x.protoid };
    })

unfoldable pub ipcomp : Notice → Notices → Notices
ipcomp x n =
    if ltb (length x.buf) 3
    then n
    else set_flag 0x80 (record n { cpi = take 2 x.buf; transform = take 1 (drop 2 x.buf) })

unfoldable pub use_transport : Context → Notice → Message → Notices → Notices
use_transport ctx x m n =
    if length x.buf != 0 || (m.response && not ctx.transport) then n else set_flag 0x100 n

-- The MOBIKE notifications of an SA that has it.
unfoldable pub update_addresses : Context → Notice → Notices → Notices
update_addresses ctx x n =
    if not ctx.sa_mobike || length x.buf != 0 then n else record n { update_sa_addresses = true }

unfoldable pub store_cookie2 : Context → Notice → Notices → Notices
store_cookie2 ctx x n =
    if not ctx.sa_mobike || ltb (length x.buf) 8 || ltb 64 (length x.buf)
    then n
    else record n { cookie2 = some x.buf }

abbrev pub is_protected : ℕ → Bool
is_protected t =
    t == 24
    || t == 35
    || t == 16393
    || t == 43
    || t == 16387
    || t == 44
    || t == 16396
    || t == 16391
    || t == 16400
    || t == 16401

-- The types that are refused unless they come encrypted.
unfoldable pub protected_notify : Context → Notice → Message → Notices → Outcome Notices
unfolding authentication_failed rekey_sa ipcomp use_transport update_addresses store_cookie2
protected_notify ctx x m n =
    if x.type == 24
    then authentication_failed ctx m n
    else if x.type == 35
    then ok (set_flag 0x10 n)
    else if x.type == 16393
    then rekey_sa x m n
    else if x.type == 43
    then ok (set_flag 0x200 n)
    else if x.type == 16387
    then ok (ipcomp x n)
    else if x.type == 44
    then ok (set_flag 0x8 n)
    else if x.type == 16396
    then ok (if length x.buf != 0 then n else set_flag 0x2 n)
    else if x.type == 16391
    then ok (use_transport ctx x m n)
    else if x.type == 16400
    then ok (update_addresses ctx x n)
    else ok (store_cookie2 ctx x n)

-- The switch over the type, for a message of the peer.
unfoldable pub notify : Context → Notice → Message → Notices → Outcome Notices
unfolding plain_notify protected_notify
notify ctx x m n =
    if is_protected x.type
    then if m.encrypted then protected_notify ctx x m n else failed invalid m
    else plain_notify ctx x m n

unfoldable pub ikev2_validate_notify : ℕ → ℕ → Message → Outcome (List ℕ)
unfolding memcpy
ikev2_validate_notify offset left m = do reject_if (ltb left 4) m; memcpy offset 4 m

-- ibuf_seek, with the bytes there.
unfoldable pub ibuf_seek : ℕ → ℕ → Message → Outcome (List ℕ)
ibuf_seek offset n m =
    if leb (offset + n) (length m.msg_data)
    then ok (take n (drop offset m.msg_data))
    else failed invalid m

unfoldable pub ikev2_pld_notify : Context → ℕ → ℕ → Message → Notices → Outcome Notices
unfolding ikev2_validate_notify ibuf_seek notify byte be16 memcpy
ikev2_pld_notify ctx offset left m n = do
  h ← ikev2_validate_notify offset left m
  buf ← ibuf_seek (offset + 4) (left - 4) m
  let x : Notice = record { protoid = byte h 0; spisize = byte h 1; type = be16 h 2; buf = buf }
  if m.frompeer then notify ctx x m n else ok n

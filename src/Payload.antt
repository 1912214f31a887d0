-- ===== src/Payload.antt =====
-- The payloads of an IKE message: iked/ikev2_pld.c, over struct iked_message of iked/iked.h.
-- A message is read by memcpy out of its buffer; a read outside the buffer is the outcome
-- `fault`. A Message joins the buffer of the message that is parsed with the fields of its
-- msg_parent that the parsers fill, and with what ikev2_msg_frompeer and msg_e say of it.
-- Logging is left out, but for what print_hex reads of a CP payload, and allocations succeed.
pub mod Transforms
pub mod Association
pub mod Identity
pub mod Fields
pub mod Safety
pub mod Bounds
pub mod Proposed
pub mod Offered
pub mod Accepted
pub mod Kept
pub mod Configuration
pub mod Printed
pub mod Selectors
pub mod Quick
pub mod Deletion
pub mod Filled
use openiked_portable.Base.{
  ℕ, zero, suc, ◌+◌, ◌*◌, ◌^◌, Bool, true, false, Option, none, some, List, [], ◌∷◌, leb, ltb,
  if◌then◌else◌, length, get_elem?, take, drop,
}
use openiked_portable.Proposal.{Proposal}

-- struct iked_id; id_buf is empty where the pointer is NULL.
pub record IkedId : Type 0 where
  pub id_type : ℕ
  pub id_offset : ℕ
  pub id_buf : List ℕ

abbrev pub no_id : IkedId
no_id = record { id_type = 0; id_offset = 0; id_buf = [] }

pub record Certreq : Type 0 where
  pub cr_type : ℕ
  pub cr_data : List ℕ

-- struct iked_addr, as a CP payload fills it.
pub record CfgAddr : Type 0 where
  pub addr_af : ℕ
  pub addr : List ℕ

pub record Message : Type 0 where
  pub msg_data : List ℕ
  pub frompeer : Bool
  pub encrypted : Bool
  pub initiator : Bool
  pub proposals : List Proposal
  pub prop : Option ℕ
  pub attrlength : ℕ
  pub ke : Option (List ℕ)
  pub dhgroup : ℕ
  pub nonce : Option (List ℕ)
  pub auth : IkedId
  pub peerid : IkedId
  pub localid : IkedId
  pub cert : IkedId
  pub scert : List IkedId
  pub certreqs : List Certreq
  pub cp : ℕ
  pub cp_addr : Option CfgAddr
  pub cp_addr6 : Option CfgAddr
  pub cp_dns : Option CfgAddr
  pub frag_num : ℕ
  pub response : Bool
  pub del_protoid : ℕ
  pub del_cnt : ℕ
  pub del_spisize : ℕ
  pub del_buf : Option (List ℕ)

-- The return values -1 and -2.
pub data Return : Type 0 where
  invalid : Return
  unknown : Return

-- A return value that is not 0 comes with the message as it is left.
pub data Outcome {ℓ} (A : Type ℓ) : Type ℓ where
  ok : A → Outcome A
  failed : Return → Message → Outcome A
  fault : Outcome A
  no_fuel : Outcome A

infixl 5 ◌>>=◌ ◌>>◌
abbrev pub ◌>>=◌ {ℓ κ} : {A : Type ℓ} {B : Type κ} → Outcome A → (A → Outcome B) → Outcome B
ok a >>= f = f a
failed r m >>= f = failed r m
fault >>= f = fault
no_fuel >>= f = no_fuel

abbrev pub ◌>>◌ {ℓ} : {B : Type ℓ} → Outcome (Unit {0}) → Outcome B → Outcome B
m >> k = m >>= λ _. k

-- `if (test) return (-1);`
abbrev pub reject_if : Bool → Message → Outcome (Unit {0})
reject_if true m = failed invalid m
reject_if false m = ok tt

-- memcpy of `n` bytes from msgbuf + offset.
unfoldable pub memcpy : ℕ → ℕ → Message → Outcome (List ℕ)
memcpy offset n m =
    if leb (offset + n) (length m.msg_data) then ok (take n (drop offset m.msg_data)) else fault

-- The fields of a copied header: a byte, and a betoh16 of two.
abbrev pub or_zero : Option ℕ → ℕ
or_zero none = 0
or_zero (some b) = b

unfoldable pub byte : List ℕ → ℕ → ℕ
byte bs i = or_zero (get_elem? bs i)

unfoldable pub be16 : List ℕ → ℕ → ℕ
unfolding byte
be16 bs i = byte bs i * 256 + byte bs (i + 1)

-- betoh32 and betoh64 of the first bytes.
unfoldable pub be_from : ℕ → List ℕ → ℕ
be_from acc [] = acc
be_from acc (b ∷ bs) = be_from (acc * 256 + b) bs

-- Where a loop over the parts of a payload stands: offset, left (or total), and the message.
pub record Cursor : Type 0 where
  pub offset : ℕ
  pub left : ℕ
  pub msg : Message

-- The result of a round of such a loop, with its condition for another round.
pub record Round : Type 0 where
  pub more : Bool
  pub at : Cursor

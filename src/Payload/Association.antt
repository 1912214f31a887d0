-- ===== src/Payload/Association.antt =====
-- The SA payload, a list of proposals: ikev2_validate_sa and ikev2_pld_sa of iked/ikev2_pld.c,
-- with config_free_proposal of iked/config.c.
use openiked_portable.Base.{
  ℕ, zero, suc, ◌+◌, ◌-◌, ◌&&◌, ◌||◌, Option, none, some, List, [], ◌∷◌, leb, ltb, ◌==◌, ◌!=◌,
  if◌then◌else◌, get_elem?,
}
use openiked_portable.Proposal.{Proposal, Spi}
use openiked_portable.Proposal.Config.{config_add_proposal}
use openiked_portable.Payload.{
  Message, Cursor, Round, Outcome, ok, failed, fault, no_fuel, invalid, unknown, ◌>>=◌, ◌>>◌,
  reject_if, memcpy, byte, be16, be_from,
}
use openiked_portable.Payload.Transforms.{ikev2_pld_xform, put}

unfoldable pub ikev2_validate_sa : ℕ → ℕ → Message → Outcome (List ℕ)
unfolding memcpy byte be16
ikev2_validate_sa offset left m = do
  reject_if (ltb left 8) m
  sap ← memcpy offset 8 m
  reject_if (ltb (be16 sap 2) 8) m
  reject_if (ltb left (be16 sap 2)) m
  reject_if (byte sap 0 == 0 && left != be16 sap 2) m
  reject_if (byte sap 0 != 0 && leb left (be16 sap 2)) m
  ok sap

-- What the part on the SPI sets; `total` is the size of the transforms.
pub record SpiRead : Type 0 where
  pub spi : ℕ
  pub offset : ℕ
  pub left : ℕ
  pub total : ℕ

abbrev pub spi_bytes : ℕ → ℕ → Message → Outcome (List ℕ)
spi_bytes size offset m = if size == 4 || size == 8 then memcpy offset size m else failed invalid m

-- With no SPI in the proposal, `spi` keeps the value of the round before.
unfoldable pub read_spi : ℕ → SpiRead → Message → Outcome SpiRead
unfolding memcpy be_from
read_spi size s m = if size == 0 then ok s else do
  reject_if (ltb s.left size) m
  reject_if (ltb s.total size) m
  bytes ← spi_bytes size s.offset m
  ok (record {
    spi = be_from 0 bytes;
    offset = s.offset + size;
    left = s.left - size;
    total = s.total - size;
  })

abbrev pub with_spis : List ℕ → ℕ → Proposal → Proposal
with_spis sap spi p =
    let local : Spi = p.localspi in
    record p {
      peerspi = record { spi = spi; spi_size = byte sap 6; spi_protoid = byte sap 5 };
      localspi = record local { spi_size = byte sap 6; spi_protoid = byte sap 5 };
    }

abbrev pub put_spis : Option Proposal → ℕ → List ℕ → ℕ → List Proposal → List Proposal
put_spis none i sap spi ps = ps
put_spis (some p) i sap spi ps = put ps i (with_spis sap spi p)

-- The proposal of the number and protocol, which config_add_proposal finds or makes, is msg_prop.
unfoldable pub add_proposal : List ℕ → ℕ → Message → Message
unfolding config_add_proposal byte put
add_proposal sap spi m =
    let (ps, i) = config_add_proposal m.proposals (byte sap 4) (byte sap 5) in
    record m { proposals = put_spis (get_elem? ps i) i sap spi ps; prop = some i }

unfoldable pub remove : List Proposal → ℕ → List Proposal
remove [] i = []
remove (p ∷ ps) zero = ps
remove (p ∷ ps) (suc i) = p ∷ remove ps i

unfoldable pub config_free_proposal : Option ℕ → Message → Message
unfolding remove
config_free_proposal none m = m
config_free_proposal (some i) m = record m { proposals = remove m.proposals i; prop = none }

-- A peer's proposal with a transform of unknown type is dropped; other errors end the payload.
unfoldable pub settle : Outcome Message → Outcome Message
unfolding config_free_proposal
settle (ok m) = ok m
settle (failed unknown m) =
    if m.frompeer then ok (config_free_proposal m.prop m) else failed invalid m
settle (failed invalid m) = failed invalid m
settle fault = fault
settle no_fuel = no_fuel

pub record Proposed : Type 0 where
  pub spi : ℕ
  pub round : Round

abbrev pub parse_transforms : List ℕ → SpiRead → Message → Outcome Message
parse_transforms sap s m =
    if byte sap 7 != 0 then settle (ikev2_pld_xform s.offset s.total m) else ok m

abbrev pub from_peer : List ℕ → ℕ → Message → Message
from_peer sap spi m = if m.frompeer then add_proposal sap spi m else m

unfoldable pub sa_round : ℕ → Cursor → Outcome Proposed
unfolding ikev2_validate_sa read_spi add_proposal settle ikev2_pld_xform byte be16
sa_round spi c = do
  sap ← ikev2_validate_sa c.offset c.left c.msg
  s ←
      read_spi (byte sap 6)
        (record { spi = spi; offset = c.offset + 8; left = c.left - 8; total = be16 sap 2 - 8 })
        c.msg
  reject_if (ltb s.left s.total) c.msg
  m ← parse_transforms sap s (from_peer sap s.spi c.msg)
  ok (record {
    spi = s.spi;
    round = record {
      more = byte sap 0 != 0;
      at = record { offset = s.offset + s.total; left = s.left - s.total; msg = m };
    };
  })

-- The loop with fuel: a round takes eight bytes or more.
unfoldable pub sa_loop : ℕ → ℕ → Cursor → Outcome Message
unfolding sa_round
sa_loop zero spi c = no_fuel
sa_loop (suc n) spi c = do
  r ← sa_round spi c
  if r.round.more then sa_loop n r.spi r.round.at else ok r.round.at.msg

unfoldable pub ikev2_pld_sa : ℕ → ℕ → Message → Outcome Message
unfolding sa_loop
ikev2_pld_sa offset left m = sa_loop (suc left) 0 (record { offset = offset; left = left; msg = m })

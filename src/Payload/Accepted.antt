-- ===== src/Payload/Accepted.antt =====
-- ikev2_pld_sa as a whole, on any SA payload that lies in the message buffer.
use openiked_portable.Base.{
  ℕ, zero, suc, ◌+◌, ◌≤◌, ◌<◌, ◌≡◌, refl, Option, none, some, List, ltb, ◌!=◌, length, arith,
  if_rule,
}
use openiked_portable.Proposal.Scores.{IsRanked}
use openiked_portable.Payload.{
  Message, Cursor, Outcome, ok, failed, fault, no_fuel, invalid, unknown, byte,
}
use openiked_portable.Payload.Safety.{Ends, returns, rejects, bind_rule, reject_rule}
use openiked_portable.Payload.Bounds.{Same, Fits}
use openiked_portable.Payload.Proposed.{HasProp, pld_xform-Ends}
use openiked_portable.Payload.Transforms.{ikev2_pld_xform}
use openiked_portable.Payload.Association.{
  SpiRead, config_free_proposal, settle, parse_transforms, from_peer, sa_round, sa_loop,
  ikev2_pld_sa,
}
use openiked_portable.Payload.Offered.{
  Kept, Kept-refl, Kept-trans, Same-Kept, after, remove-All, from_peer-Kept, from_peer-HasProp,
  validate_sa-Ends, read_spi-Ends,
}

free-Kept : (i : Option ℕ) (m : Message) → Kept m (config_free_proposal i m)
unfolding config_free_proposal
free-Kept none m = Kept-refl m
free-Kept (some i) m = record {
  buffer = refl;
  peer = refl;
  guard = refl;
  ranked = λ r. remove-All (λ p. IsRanked p.xforms) m.proposals i r;
}

settle-Ends :
    (m : Message) (o : Outcome Message)
    → Ends (Same m) (Same m) o
    → Ends (Kept m) (Kept m) (settle o)
unfolding settle
settle-Ends m (ok a) (returns s) = returns (Same-Kept s)
settle-Ends m (failed invalid n) (rejects s) = rejects (Same-Kept s)
settle-Ends m fault x = elim x [ ]
settle-Ends m no_fuel x = elim x [ ]
settle-Ends m (failed unknown n) (rejects s) =
    if_rule (Ends (Kept m) (Kept m)) n.frompeer _ _
      (λ y. returns (Kept-trans (Same-Kept s) (free-Kept n.prop n))) (λ e. rejects (Same-Kept s))

parse_transforms-Ends :
    (sap : List ℕ) (s : SpiRead) (m : Message)
    → s.offset + s.total ≤ length m.msg_data
    → HasProp m
    → Ends (Kept m) (Kept m) (parse_transforms sap s m)
parse_transforms-Ends sap s m h p =
    if_rule (Ends (Kept m) (Kept m)) (byte sap 7 != 0) _ _
      (λ y.
        settle-Ends m (ikev2_pld_xform s.offset s.total m) (pld_xform-Ends s.offset s.total m h p))
      (λ n. returns (Kept-refl m))

-- A round of the loop over the proposals moves on in the payload.
record Advances (c d : Cursor) : Type 0 where
  end : d.offset + d.left ≡ c.offset + c.left
  less : d.left + 8 ≤ c.left
  kept : Kept c.msg d.msg

Advances-Fits : {c d : Cursor} → Advances c d → Fits c → Fits d
Advances-Fits a f = record { within = rw a.kept.buffer (omega (arith, a.end, f.within)) }

sa_round-Ends :
    (spi : ℕ) (c : Cursor)
    → Fits c
    → Ends (λ p. Advances c p.round.at) (Kept c.msg) (sa_round spi c)
unfolding sa_round
sa_round-Ends spi c f = bind_rule (validate_sa-Ends c f) (λ sap z.
    bind_rule
      (read_spi-Ends (byte sap 6) _ c f (record {
        total = omega (arith, z.most);
        end = omega (arith, z.most, z.least);
        less = omega (arith, z.most, z.least);
      }))
      (λ s i. reject_rule (ltb s.left s.total) c.msg (Kept-refl c.msg) (λ e.
        let k = from_peer-Kept sap s.spi c.msg in
        bind_rule
          (after k (
            parse_transforms-Ends sap s (from_peer sap s.spi c.msg)
              (rw k.buffer (omega (arith, f.within, i.end, i.total)))
              (from_peer-HasProp sap s.spi c.msg)))
          (λ m k'. returns (record {
            end = omega (arith, i.end, i.total);
            less = omega (arith, i.less);
            kept = k';
          })))))

sa_loop-Ends :
    (n spi : ℕ) (c : Cursor)
    → Fits c
    → c.left < n
    → Ends (Kept c.msg) (Kept c.msg) (sa_loop n spi c)
unfolding sa_loop
sa_loop-Ends zero spi c f h = absurd (omega arith)
sa_loop-Ends (suc n) spi c f h = bind_rule (sa_round-Ends spi c f) (λ p a.
    if_rule (Ends (Kept c.msg) (Kept c.msg)) p.round.more _ _
      (λ y.
        after a.kept (sa_loop-Ends n p.spi p.round.at (Advances-Fits a f) (omega (arith, a.less))))
      (λ e. returns a.kept))

-- On any SA payload that lies in the message buffer, whatever its bytes are, ikev2_pld_sa reads
-- nothing outside the buffer, dereferences no missing proposal and ends; whether it accepts the
-- payload or not, the buffer stays, and proposals that are ranked stay ranked.
pub ikev2_pld_sa-Ends :
    (offset left : ℕ) (m : Message)
    → offset + left ≤ length m.msg_data
    → Ends (Kept m) (Kept m) (ikev2_pld_sa offset left m)
unfolding ikev2_pld_sa
ikev2_pld_sa-Ends offset left m h =
    sa_loop-Ends (suc left) 0 (record { offset = offset; left = left; msg = m })
      (record { within = h }) (omega arith)

-- ===== src/Msg/Receiving.antt =====
-- A datagram with an encrypted fragment on its way in: ikev2_msg_cb of iked/ikev2_msg.c, and of
-- iked/ikev2_pld.c the steps from ikev2_pld_parse to ikev2_pld_ef for a message whose first payload
-- it is; another message is refused here, since it is not for ikev2_pld_ef. The lookup of the SA and the tests of the message id are left out.
use openiked_portable.Base.{
  List, [], ℕ, ◌∷◌, Bool, ◌||◌, ◌-◌, none, some, take, drop, get_elem?, length, ◌!=◌, ltb, leb,
}
use openiked_portable.Crypto.{Openssl}
use openiked_portable.Fragment.{ikev2_pld_ef, Receiver, Verdict}
use openiked_portable.Msg.{IkeSa, ikev2_msg_decrypt}
use openiked_portable.Msg.Wire.{ikev2_msg_cb}
use openiked_portable.Payload.{
  no_fuel, be_from, failed, byte, fault, be16, ok, Message, reject_if, Outcome, or_zero, ◌>>=◌,
  ◌>>◌,
}
use openiked_portable.Payload.Quick.{ikev2_validate_pld, payload_skf}

-- The fields of the header that are read: ike_nextpayload and ike_length.
abbrev pub ike_nextpayload : List ℕ → ℕ
ike_nextpayload msg = or_zero (get_elem? msg 16)

abbrev pub ike_length : List ℕ → ℕ
ike_length msg = be_from 0 (take 4 (drop 24 msg))

module _ (ssl : Openssl) (random : ℕ → ℕ → List ℕ) (peer : IkeSa) where
  -- `m` is the message with its buffer and no field that is set.
  unfoldable pub parse_fragment : Message → Receiver → Outcome (Receiver × Verdict)
  parse_fragment m r = do
    let total = ike_length m.msg_data
    reject_if (ltb (length m.msg_data) total) m
    reject_if (ike_nextpayload m.msg_data != payload_skf || leb total 28) m
    pld ← ikev2_validate_pld 28 (total - 28) m
    ikev2_pld_ef (ikev2_msg_decrypt ssl random peer m.msg_data) (byte pld 0) 32 (be16 pld 2 - 4) m r

  -- The verdicts on datagrams that arrive in this order. One that is refused changes nothing.
  unfoldable pub receive_datagrams : Bool → Message → List (List ℕ) → Receiver → List Verdict
  receive_datagrams natt m [] r = []
  receive_datagrams natt m (d ∷ ds) r = elim (ikev2_msg_cb natt d) [
    | none ↦ receive_datagrams natt m ds r
    | some msg ↦ elim (parse_fragment (record m { msg_data = msg }) r) [
      | ok (r', v) ↦ v ∷ receive_datagrams natt m ds r'
      | failed e m' ↦ receive_datagrams natt m ds r
      | fault ↦ []
      | no_fuel ↦ []
    ]
  ]

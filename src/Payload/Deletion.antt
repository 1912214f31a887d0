-- ===== src/Payload/Deletion.antt =====
-- The delete payload: ikev2_validate_delete and ikev2_pld_delete of iked/ikev2_pld.c.
use native.Mathlib.Nat.{div-mul-le_self}
use openiked_portable.Base.{
  ℕ, ◌+◌, ◌-◌, ◌*◌, ◌/◌, ◌≤◌, ◌≡◌, ◌≢◌, ◌&&◌, ◌||◌, none, some, List, ltb, ◌==◌, ◌!=◌,
  if◌then◌else◌, length, arith, if_rule, subst,
}
use openiked_portable.Payload.{Message, Outcome, ok, ◌>>=◌, ◌>>◌, reject_if, memcpy, byte, be16}
use openiked_portable.Payload.Safety.{Ends, returns, bind_rule, reject_rule, memcpy_rule}

unfoldable pub ikev2_validate_delete : ℕ → ℕ → Message → Outcome (List ℕ)
unfolding memcpy byte
ikev2_validate_delete offset left m = do
  reject_if (ltb left 4) m
  del ← memcpy offset 4 m
  reject_if (byte del 0 == 0) m
  ok del

-- The SPIs, behind the header.
unfoldable pub store_spis : ℕ → ℕ → Message → Outcome Message
unfolding memcpy
store_spis offset len m = if len == 0 || m.del_spisize == 0 || m.del_cnt == 0 then ok m else (do
  reject_if (len / m.del_spisize != m.del_cnt) m
  buf ← memcpy offset len m
  ok (record m { del_buf = some buf }))

abbrev pub announce : List ℕ → Message → Message
announce del m = record m {
  del_protoid = byte del 0;
  del_cnt = be16 del 2;
  del_spisize = byte del 1;
}

unfoldable pub ikev2_pld_delete : ℕ → ℕ → Message → Outcome Message
unfolding ikev2_validate_delete store_spis byte be16
ikev2_pld_delete offset left m = do
  del ← ikev2_validate_delete offset left m
  if (m.frompeer && m.response) || m.del_protoid != 0
      then ok m
      else store_spis (offset + 4) (left - 4) (announce del m)

-- The SPIs that are announced can be read from the buffer that is kept for them.
pub record IsReadable (m : Message) : Type 0 where
  pub fits : (b : List ℕ) → m.del_buf ≡ some b → m.del_cnt * m.del_spisize ≤ length b
  pub fresh : m.del_protoid ≡ 0 → m.del_buf ≡ none

store_spis-IsReadable :
    (offset len : ℕ) (m : Message)
    → offset + len ≤ length m.msg_data
    → m.del_protoid ≢ 0
    → m.del_buf ≡ none
    → Ends IsReadable IsReadable (store_spis offset len m)
unfolding store_spis
store_spis-IsReadable offset len m h p e =
    let unset : IsReadable m = record { fits = λ b k. absurd (cc (e, k)); fresh = λ z. e } in
    if_rule (Ends IsReadable IsReadable) (len == 0 || m.del_spisize == 0 || m.del_cnt == 0) _ _
      (λ y. returns unset)
      (λ n. reject_rule (len / m.del_spisize != m.del_cnt) m unset (λ a.
        bind_rule (memcpy_rule offset len m h) (λ buf l.
          let count : len / m.del_spisize ≡ m.del_cnt = ground arith in
          let enough : m.del_cnt * m.del_spisize ≤ len =
            subst (λ c. c * m.del_spisize ≤ len) count (div-mul-le_self len m.del_spisize) in
          returns (record {
            fits = λ b k.
                let same : buf ≡ b = cc k in
                subst (λ c. m.del_cnt * m.del_spisize ≤ length c) same (omega (arith, enough, l));
            fresh = λ z. absurd (p z);
          }))))

-- On any DELETE payload that lies in the message buffer, whatever its bytes are, ikev2_pld_delete
-- reads nothing outside the buffer; whether it accepts the payload or not, the buffer that is kept
-- for SPIs has as many of the announced size as are announced, if this was so before.
pub ikev2_pld_delete-IsReadable :
    (offset left : ℕ) (m : Message)
    → offset + left ≤ length m.msg_data
    → IsReadable m
    → Ends IsReadable IsReadable (ikev2_pld_delete offset left m)
unfolding ikev2_pld_delete ikev2_validate_delete
ikev2_pld_delete-IsReadable offset left m h r =
    bind_rule {P = λ bs. (4 ≤ left) × (byte bs 0 ≢ 0)}
      (reject_rule (ltb left 4) m r (λ a.
        let enough : 4 ≤ left = ground arith in
        bind_rule (memcpy_rule offset 4 m (omega arith))
          (λ del l. reject_rule (byte del 0 == 0) m r (λ z. returns (enough, ground arith)))))
      (λ del (enough, named).
        if_rule (Ends IsReadable IsReadable) ((m.frompeer && m.response) || m.del_protoid != 0) _ _
          (λ y. returns r)
          (λ n.
            store_spis-IsReadable (offset + 4) (left - 4) (announce del m) (omega arith) named
              (r.fresh (ground arith))))

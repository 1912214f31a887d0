-- ===== src/Queue/Prevailed.antt =====
-- What ikev2_msg_prevail of iked/ikev2_msg.c leaves in a queue.
use openiked_portable.Base.{
  inr, Option, [], refl, ◌≡◌, sym, ℕ, ap, true, List, inl, ◌∷◌, arith, some, Bool, false, none, ◌∙◌,
  not, ◌++◌, ◌>>=◌, Bool-cases, ltb, if◌then◌else◌, if_rule,
}
use openiked_portable.Queue.Kept.{IsQueue, waiting, IsEntry, leads, chosen, entry, no_entries}
use openiked_portable.Queue.{Retransmit, ikev2_msg_prevail, Queued}

-- The queue after a request with this message id.
pub record Prevailed (queue : List Retransmit) (msgid : ℕ) (out : Option (List Retransmit))
    : Type 0 where
  pub queue' : List Retransmit
  pub is : out ≡ some queue'
  pub well : IsQueue queue'
  pub holds : (c d : ℕ) → waiting c d queue' ≡ chosen (not (ltb c msgid)) (waiting c d queue)

chosen-nil : (b : Bool) → chosen b [] ≡ []
chosen-nil true = refl
chosen-nil false = refl

lead_key : (c d : ℕ) (m : Queued) (ms : List Queued) → leads c d (m ∷ ms) ≡ true → c ≡ m.msg_msgid
lead_key c d m ms h = ground arith

prevail_step :
    (mr : Retransmit) (queue : List Retransmit) (msgid k x : ℕ) (fs : List Queued)
    (rest : Option (List Retransmit))
    → mr.frags ≡ fs
    → IsEntry k x mr
    → leads k x fs ≡ true
    → waiting k x queue ≡ []
    → Prevailed queue msgid rest
    → Prevailed (mr ∷ queue) msgid (elim fs [
      | [] ↦ none
      | m ∷ ms ↦ if ltb m.msg_msgid msgid then rest else (rest >>= λ q. some (mr ∷ q))
    ])
prevail_step mr queue msgid k x [] rest e i h w p = absurd (cc h)
prevail_step mr queue msgid k x (m ∷ ms) rest e i h w p =
    if_rule (Prevailed (mr ∷ queue) msgid) (ltb m.msg_msgid msgid) _ _
      (λ y. record { queue' = p.queue'; is = p.is; well = p.well; holds = λ c d. older y c d })
      (λ n. record {
        queue' = mr ∷ p.queue';
        is = rw p.is refl;
        well =
            entry k x i
              (p.holds k x ∙ (ap (chosen (not (ltb k msgid))) w ∙ chosen-nil (not (ltb k msgid))))
              p.well;
        holds = λ c d. younger n c d;
      })
  where
    older :
        ltb m.msg_msgid msgid ≡ true
        → (c d : ℕ) → waiting c d p.queue' ≡ chosen (not (ltb c msgid)) (waiting c d (mr ∷ queue))
    older y c d = elim (Bool-cases (leads c d (m ∷ ms))) [
      | inl l ↦
          let early : ltb c msgid ≡ true = rw (lead_key c d m ms l) y in p.holds c d ∙ rw early refl
      | inr l ↦
          p.holds c d
          ∙ ap (chosen (not (ltb c msgid)))
              (sym (ap (λ fs. chosen (leads c d fs) fs ++ waiting c d queue) e ∙ rw l refl))
    ]

    younger :
        ltb m.msg_msgid msgid ≡ false
        → (c d : ℕ)
        → waiting c d (mr ∷ p.queue') ≡ chosen (not (ltb c msgid)) (waiting c d (mr ∷ queue))
    younger n c d = elim (Bool-cases (ltb c msgid)) [
      | inl y ↦
          let apart : leads c d (m ∷ ms) ≡ false = elim (Bool-cases (leads c d (m ∷ ms))) [
            | inl l ↦ absurd (cc (y, n, ap (λ a. ltb a msgid) (lead_key c d m ms l)))
            | inr l ↦ l
          ] in
          ap (λ fs. chosen (leads c d fs) fs ++ waiting c d p.queue') e
          ∙ (rw apart refl ∙ (p.holds c d ∙ rw y refl))
      | inr late ↦
          let same : waiting c d p.queue' ≡ waiting c d queue = p.holds c d ∙ rw late refl in
          ap (λ w. chosen (leads c d mr.frags) mr.frags ++ w) same ∙ rw late refl
    ]

-- In such a queue, a request disposes of all entries with a smaller message id, and of no other.
pub ikev2_msg_prevail-Prevailed :
    (queue : List Retransmit) (msgid : ℕ)
    → IsQueue queue
    → Prevailed queue msgid (ikev2_msg_prevail queue msgid)
unfolding ikev2_msg_prevail
ikev2_msg_prevail-Prevailed [] msgid no_entries = record {
  queue' = [];
  is = refl;
  well = no_entries;
  holds = λ c d. sym (chosen-nil (not (ltb c msgid)));
}
ikev2_msg_prevail-Prevailed (mr ∷ queue) msgid (entry k x e w rest) =
    prevail_step mr queue msgid k x mr.frags (ikev2_msg_prevail queue msgid) refl e e.some_frag w
      (ikev2_msg_prevail-Prevailed queue msgid rest)

-- ===== src/Parse/Shielded.antt =====
-- What the steps of a parse leave that nothing can be decrypted in.
use openiked_portable.Payload.Safety.{Ends, returns, rejects, bind_rule, memcpy_rule, header}
use openiked_portable.Notify.Plain.{Untouched, wrong_group, fragments, Clear, no_proposal, sigsha2}
use openiked_portable.Parse.Rounds.{Parses, accepts, refuses}
use openiked_portable.Base.{
  ap, arith, Option, ◌≡◌, List, false, ◌≤◌, ◌-◌, ◌+◌, ℕ, ◌||◌, refl, length, if_rule, ◌==◌, none,
  ◌∙◌, ltb, inr, bit_and, inl, if◌then◌else◌,
}
use openiked_portable.Notify.{Context, Notices}
use openiked_portable.Parse.{Parsing, parsed_by}
use openiked_portable.Payload.{Outcome, be16, Message, ok, fault, failed, no_fuel}
use openiked_portable.Fragment.{
  frag_total_max, ikev2_validate_ef, ikev2_pld_ef, dropped, Receiver, receive_fragment, Verdict,
  drop_all, drop_one,
}
use openiked_portable.Parse.Guarded.{Guards, Guards-refl, Guarding}
use openiked_portable.Sa.{sa_stateok, valid}
use openiked_portable.Sa.Bits.{masked-bit_or}

-- The flags of notifications that need protection: MOBIKE, CHILD_SA_NOT_FOUND, NO_ADDITIONAL_SAS,
-- AUTHENTICATION_FAILED, IPCOMP_SUPPORTED, USE_TRANSPORT and TEMPORARY_FAILURE, and INVALID_KE too
-- for an SA that is valid.
abbrev pub protected_flags : Context → ℕ
protected_flags ctx = if sa_stateok ctx.sa valid then 0x3fa else 0x3ba

Clear-protected : (ctx : Context) (f : ℕ) → Clear ctx f → bit_and f (protected_flags ctx) ≡ 0
Clear-protected ctx f fragments =
    if_rule (λ (k : ℕ). bit_and 0x1 k ≡ 0) (sa_stateok ctx.sa valid) _ _ (λ y. refl) (λ n. refl)
Clear-protected ctx f sigsha2 =
    if_rule (λ (k : ℕ). bit_and 0x4 k ≡ 0) (sa_stateok ctx.sa valid) _ _ (λ y. refl) (λ n. refl)
Clear-protected ctx f no_proposal =
    if_rule (λ (k : ℕ). bit_and 0x400 k ≡ 0) (sa_stateok ctx.sa valid) _ _ (λ y. refl) (λ n. refl)
Clear-protected ctx f (wrong_group e) = rw e refl

Untouched-flags :
    (ctx : Context) (n k : Notices)
    → Untouched ctx n k
    → bit_and k.flags (protected_flags ctx) ≡ bit_and n.flags (protected_flags ctx)
Untouched-flags ctx n k u = elim u.flags [
  | inl e ↦ ap (λ f. bit_and f (protected_flags ctx)) e
  | inr (f, c, e) ↦
      ap (λ f. bit_and f (protected_flags ctx)) e
      ∙ masked-bit_or n.flags f (protected_flags ctx) (Clear-protected ctx f c)
]

-- What a message leaves of another state of its parse.
pub record Shielded (ctx : Context) (p q : Parsing) : Type 0 where
  pub message : Guards p.msg q.msg
  pub rekey : q.notices.rekey ≡ p.notices.rekey
  pub cpi : q.notices.cpi ≡ p.notices.cpi
  pub transform : q.notices.transform ≡ p.notices.transform
  pub addresses : q.notices.update_sa_addresses ≡ p.notices.update_sa_addresses
  pub cookie2 : q.notices.cookie2 ≡ p.notices.cookie2
  pub flags :
      bit_and q.notices.flags (protected_flags ctx) ≡ bit_and p.notices.flags (protected_flags ctx)

pub Shielded-refl : (ctx : Context) (p : Parsing) → Shielded ctx p p
Shielded-refl ctx p = record {
  message = Guards-refl p.msg p.msg refl;
  rekey = refl;
  cpi = refl;
  transform = refl;
  addresses = refl;
  cookie2 = refl;
  flags = refl;
}

-- Another message, other fragments, and notices of a message in the clear.
pub with_message :
    {ctx : Context} {p q : Parsing} (m : Message)
    → Shielded ctx p q
    → Guards q.msg m
    → Shielded ctx p (record q { msg = m })
with_message m s g = record {
  message = record { buffer = g.buffer ∙ s.message.buffer; guard = g.guard ∙ s.message.guard };
  rekey = s.rekey;
  cpi = s.cpi;
  transform = s.transform;
  addresses = s.addresses;
  cookie2 = s.cookie2;
  flags = s.flags;
}

pub with_receiver :
    {ctx : Context} {p q : Parsing} (r : Receiver)
    → Shielded ctx p q
    → Shielded ctx p (record q { receiver = r })
with_receiver r s = record {
  message = s.message;
  rekey = s.rekey;
  cpi = s.cpi;
  transform = s.transform;
  addresses = s.addresses;
  cookie2 = s.cookie2;
  flags = s.flags;
}

pub with_notices :
    {ctx : Context} {p q : Parsing} (n : Notices)
    → Shielded ctx p q
    → Untouched ctx q.notices n
    → Shielded ctx p (record q { notices = n })
with_notices {ctx = ctx} {q = q} n s u = record {
  message = s.message;
  rekey = u.rekey ∙ s.rekey;
  cpi = u.cpi ∙ s.cpi;
  transform = u.transform ∙ s.transform;
  addresses = u.addresses ∙ s.addresses;
  cookie2 = u.cookie2 ∙ s.cookie2;
  flags = Untouched-flags ctx q.notices n u ∙ s.flags;
}

pub in_clear :
    {ctx : Context} {p q : Parsing}
    → Shielded ctx p q
    → p.msg.encrypted ≡ false
    → q.msg.encrypted ≡ false
in_clear s c = ap (λ g. g.encrypted) s.message.guard ∙ c

pub parsed_message :
    (ctx : Context) (p q : Parsing) (o : Outcome Message)
    → Shielded ctx p q
    → Guarding q.msg o
    → Parses (Shielded ctx p) (parsed_by (λ m. record q { msg = m }) q o)
unfolding parsed_by
parsed_message ctx p q (ok m) s (returns g) = accepts (with_message m s g)
parsed_message ctx p q (failed r m) s (rejects g) = refuses (with_message m s g)
parsed_message ctx p q fault s g = elim g [ ]
parsed_message ctx p q no_fuel s g = elim g [ ]

pub parsed_notices :
    (ctx : Context) (p q : Parsing) (o : Outcome Notices)
    → Shielded ctx p q
    → Ends (Untouched ctx q.notices) (λ k. k ≡ q.msg) o
    → Parses (Shielded ctx p) (parsed_by (λ n. record q { notices = n }) q o)
unfolding parsed_by
parsed_notices ctx p q (ok n) s (returns u) = accepts (with_notices n s u)
parsed_notices ctx p q (failed r m) s (rejects e) =
    refuses (with_message m s (Guards-refl q.msg m e))
parsed_notices ctx p q fault s g = elim g [ ]
parsed_notices ctx p q no_fuel s g = elim g [ ]

abbrev IsDropped : Receiver × Verdict → Type 0
IsDropped o = o.1 ≡ dropped

-- A fragment that cannot be decrypted is dropped.
lost : (next num total : ℕ) (r : Receiver) → (receive_fragment next num total none r).1 ≡ dropped
unfolding receive_fragment drop_all drop_one
lost next num total r =
    if_rule IsDropped (ltb frag_total_max total) _ _ (λ y. refl)
      (λ a.
        if_rule IsDropped (num == 0 || total == 0) _ _ (λ y. refl)
          (λ b. if_rule IsDropped (ltb total num) _ _ (λ y. refl) (λ c. refl)))

pub ef-Drops :
    (decrypt : List ℕ → Option (List ℕ)) (next offset left : ℕ) (m : Message) (r : Receiver)
    → ((bs : List ℕ) → decrypt bs ≡ none)
    → offset + left ≤ length m.msg_data
    → Ends (λ o. o.1 ≡ dropped) (λ k. k ≡ m) (ikev2_pld_ef decrypt next offset left m r)
unfolding ikev2_pld_ef ikev2_validate_ef
ef-Drops decrypt next offset left m r lost_key h = header 4 offset left m refl h (λ enough frag.
    bind_rule (memcpy_rule (offset + 4) (left - 4) m (omega arith))
      (λ body e. returns (rw (lost_key body) (lost next (be16 frag 0) (be16 frag 2) r))))

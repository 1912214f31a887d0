-- ===== src/Sa/Requirements.antt =====
-- What an SA that becomes valid has shown, for each way to authenticate: sa_new, sa_state and
-- sa_stateflags of iked/policy.c together. ikev2_handle_certreq of iked/ikev2.c, which adds
-- IKED_REQ_CERT to what an SA requires, is left out.
use openiked_portable.Base.{
  ℕ, ◌≡◌, ◌≢◌, refl, bit_and, Bool, true, false, ◌!=◌, inl, inr, sym, ◌∙◌, ◌⊎◌, arith, subst,
}
use openiked_portable.Sa.{
  Sa, Auth, set_requirements, init, valid, eap_valid, req_cert, req_certvalid, req_auth,
  req_authvalid, req_sa, req_eapvalid, shared_key_mic, sa_state, sa_stateflags,
}
use openiked_portable.Sa.Bits.{subset_trans}
use openiked_portable.Sa.Reach.{next, here, flag, move, Step, Reach, Reach-IsAuthentic}

-- A flag is set.
abbrev pub Has : ℕ → ℕ → Type 0
Has flags f = bit_and flags f ≡ f

-- A set of flags with those that the authentication of the policy asks for: the AUTH payload has
-- been verified and a proposal chosen; unless the peer is to know a shared key or uses EAP, its
-- certificate has been validated; with EAP, the EAP exchange was successful. A responder has got
-- the payloads AUTH and CERT too.
pub record IsVerified (initiator : Bool) (auth : Auth) (flags : ℕ) : Type 0 where
  pub authentic : Has flags req_authvalid
  pub chosen : Has flags req_sa
  pub certified : auth.eap ≡ false → auth.method ≢ shared_key_mic → Has flags req_certvalid
  pub by_eap : auth.eap ≡ true → Has flags req_eapvalid
  pub got_auth : initiator ≡ false → Has flags req_auth
  pub got_cert :
      initiator ≡ false → (auth.eap ≡ true) ⊎ (auth.method ≢ shared_key_mic) → Has flags req_cert

required-IsVerified :
    (initiator eap mic : Bool) (method : ℕ) (sa : Sa)
    → (method != shared_key_mic) ≡ mic
    → IsVerified initiator
        (record { eap = eap; method = method })
        (set_requirements initiator (record { eap = eap; method = method }) sa).statevalid
unfolding set_requirements
required-IsVerified true true mic method sa e = record {
  authentic = refl;
  chosen = refl;
  certified = λ n. absurd (cc n);
  by_eap = λ y. refl;
  got_auth = λ n. absurd (cc n);
  got_cert = λ n. absurd (cc n);
}
required-IsVerified true false true method sa e = record {
  authentic = rw e refl;
  chosen = rw e refl;
  certified = λ y n. rw e refl;
  by_eap = λ n. absurd (cc n);
  got_auth = λ n. absurd (cc n);
  got_cert = λ n. absurd (cc n);
}
required-IsVerified true false false method sa e = record {
  authentic = rw e refl;
  chosen = rw e refl;
  certified = λ y n. absurd (ground (arith, n, e));
  by_eap = λ n. absurd (cc n);
  got_auth = λ n. absurd (cc n);
  got_cert = λ n. absurd (cc n);
}
required-IsVerified false true mic method sa e = record {
  authentic = refl;
  chosen = refl;
  certified = λ n. absurd (cc n);
  by_eap = λ y. refl;
  got_auth = λ y. refl;
  got_cert = λ y o. refl;
}
required-IsVerified false false true method sa e = record {
  authentic = rw e refl;
  chosen = rw e refl;
  certified = λ y n. rw e refl;
  by_eap = λ n. absurd (cc n);
  got_auth = λ y. rw e refl;
  got_cert = λ y o. rw e refl;
}
required-IsVerified false false false method sa e = record {
  authentic = rw e refl;
  chosen = rw e refl;
  certified = λ y n. absurd (ground (arith, n, e));
  by_eap = λ n. absurd (cc n);
  got_auth = λ y. rw e refl;
  got_cert = λ y o. elim o [ inl x ↦ absurd (cc x) | inr m ↦ absurd (ground (arith, m, e)) ];
}

all_set :
    (initiator : Bool) (auth : Auth) (flags r : ℕ)
    → Has flags r
    → IsVerified initiator auth r
    → IsVerified initiator auth flags
all_set initiator auth flags r h v = record {
  authentic = subset_trans flags r req_authvalid h v.authentic;
  chosen = subset_trans flags r req_sa h v.chosen;
  certified = λ e m. subset_trans flags r req_certvalid h (v.certified e m);
  by_eap = λ e. subset_trans flags r req_eapvalid h (v.by_eap e);
  got_auth = λ e. subset_trans flags r req_auth h (v.got_auth e);
  got_cert = λ e o. subset_trans flags r req_cert h (v.got_cert e o);
}

Step-statevalid : {s t : Sa} → Step s t → t.statevalid ≡ s.statevalid
unfolding sa_stateflags sa_state
Step-statevalid (flag sa bits) = refl
Step-statevalid (move stats sa state h) = ground arith

Reach-statevalid : {s t : Sa} → Reach s t → t.statevalid ≡ s.statevalid
Reach-statevalid here = refl
Reach-statevalid (next r st) = Step-statevalid st ∙ Reach-statevalid r

still_init :
    (initiator : Bool) (auth : Auth) (sa : Sa)
    → sa.state ≡ init
    → (set_requirements initiator auth sa).state ≡ init
unfolding set_requirements
still_init true auth sa e = e
still_init false auth sa e = e

-- An SA that sa_new has made, in the state INIT, after any calls of sa_stateflags and sa_state, if
-- none asks for VALID or EAP_VALID while the SA is in INIT: when it is in VALID or EAP_VALID, its
-- flags say that the AUTH payload has been verified and a proposal chosen; that the certificate of
-- the peer is valid, if the policy asks for neither a shared key nor EAP; and that EAP was
-- successful, if the policy asks for it. A responder has got AUTH,
-- and CERT unless the policy asks for a shared key without EAP.
pub valid-IsVerified :
    (initiator : Bool) (auth : Auth) (sa t : Sa)
    → sa.state ≡ init
    → Reach (set_requirements initiator auth sa) t
    → (t.state ≡ valid) ⊎ (t.state ≡ eap_valid)
    → IsVerified initiator auth t.stateflags
valid-IsVerified initiator auth sa t e r v =
    let a = Reach-IsAuthentic (still_init initiator auth sa e) r in
    let full : Has t.stateflags t.statevalid = elim v [
      | inl y ↦ a.at_valid y
      | inr y ↦ a.at_eap_valid y
    ] in
    all_set initiator auth t.stateflags t.statevalid full (
      subst (IsVerified initiator auth) (sym (Reach-statevalid r)) (
        required-IsVerified initiator auth.eap (auth.method != shared_key_mic) auth.method sa refl))

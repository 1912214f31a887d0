-- ===== src/Payload/Kept.antt =====
-- What the parsers of the field payloads leave of the fields of the message.
use openiked_portable.Base.{
  ℕ, zero, suc, ◌≡◌, ◌≢◌, ap, ==_iff, refl, sym, Bool, false, Option, none, some, List, [], ◌∷◌,
  ◌++◌, append-nil, ◌==◌, ◌!=◌, is_some, length, get_elem?, arith, if_rule,
}
use openiked_portable.Payload.{Message, IkedId, Certreq}
use openiked_portable.Payload.Safety.{Ends, returns, rejects}
use openiked_portable.Payload.Fields.{store_once, fill_slot, store_certreq}

-- An id that is set stays.
abbrev pub Holds : IkedId → IkedId → Type 0
Holds i j = i.id_type ≢ 0 → j ≡ i

-- What is set stays, position by position.
abbrev pub HoldsAll : List IkedId → List IkedId → Type 0
HoldsAll is js =
    (n : ℕ) (i : IkedId) → get_elem? is n ≡ some i → i.id_type ≢ 0 → get_elem? js n ≡ some i

-- The message has grown: nothing that a payload has set is replaced, and requests are added.
pub record Grows (m n : Message) : Type 0 where
  pub buffer : n.msg_data ≡ m.msg_data
  pub ke : (b : List ℕ) → m.ke ≡ some b → (n.ke ≡ some b) × (n.dhgroup ≡ m.dhgroup)
  pub nonce : (b : List ℕ) → m.nonce ≡ some b → n.nonce ≡ some b
  pub auth : Holds m.auth n.auth
  pub peerid : Holds m.peerid n.peerid
  pub localid : Holds m.localid n.localid
  pub cert : Holds m.cert n.cert
  pub scert : HoldsAll m.scert n.scert
  pub slots : length n.scert ≡ length m.scert
  pub certreqs : (rest : List Certreq) × (n.certreqs ≡ m.certreqs ++ rest)
  pub proposals : n.proposals ≡ m.proposals

-- Each parser of a field payload changes one field.
pub Grows-refl : (m : Message) → Grows m m
Grows-refl m = record {
  buffer = refl;
  ke = λ b e. (e, refl);
  nonce = λ b e. e;
  auth = λ h. refl;
  peerid = λ h. refl;
  localid = λ h. refl;
  cert = λ h. refl;
  scert = λ n i e h. e;
  slots = refl;
  certreqs = ([], sym (append-nil m.certreqs));
  proposals = refl;
}

Holds-unset : (i j : IkedId) → (i.id_type != 0) ≡ false → Holds i j
Holds-unset i j e h = absurd (ground arith)

unset : {A : Type 0} (o : Option A) → is_some o ≡ false → (a : A) → o ≢ some a
unset none e a h = cc h
unset (some b) e a h = cc e

fill_slot-HoldsAll : (id : IkedId) (slots : List IkedId) → HoldsAll slots (fill_slot id slots)
unfolding fill_slot
fill_slot-HoldsAll id [] n i e h = e
fill_slot-HoldsAll id (s ∷ ss) zero i e h =
    let same : s ≡ i = cc e in
    if_rule (λ l. get_elem? l 0 ≡ some i) (s.id_type == 0) _ _
      (λ z. absurd (h (rw⁻¹ same ((==_iff s.id_type 0).0 z)))) (λ f. e)
fill_slot-HoldsAll id (s ∷ ss) (suc n) i e h =
    if_rule (λ l. get_elem? l (suc n) ≡ some i) (s.id_type == 0) _ _ (λ z. e)
      (λ f. fill_slot-HoldsAll id ss n i e h)

length-fill_slot : (id : IkedId) (slots : List IkedId) → length (fill_slot id slots) ≡ length slots
unfolding fill_slot
length-fill_slot id [] = refl
length-fill_slot id (s ∷ ss) =
    if_rule (λ (l : List IkedId). length l ≡ length (s ∷ ss)) (s.id_type == 0) _ _ (λ z. refl)
      (λ f. ap suc (length-fill_slot id ss))

pub store_once-Ends :
    (taken : Bool) (m stored : Message)
    → (taken ≡ false → Grows m stored)
    → Ends (Grows m) (λ n. n ≡ m) (store_once taken m stored)
store_once-Ends taken m stored k =
    if_rule (Ends (Grows m) (λ n. n ≡ m)) m.frompeer _ _
      (λ y.
        if_rule (Ends (Grows m) (λ n. n ≡ m)) taken _ _ (λ t. rejects refl) (λ f. returns (k f)))
      (λ n. returns (Grows-refl m))

module _ (m : Message) where
  pub ke-Grows :
      (buf : List ℕ) (g : ℕ)
      → is_some m.ke ≡ false
      → Grows m (record m { ke = some buf; dhgroup = g })
  ke-Grows buf g e = record {
    buffer = refl;
    ke = λ b h. absurd (unset m.ke e b h);
    nonce = λ b e. e;
    auth = λ h. refl;
    peerid = λ h. refl;
    localid = λ h. refl;
    cert = λ h. refl;
    scert = λ n i e h. e;
    slots = refl;
    certreqs = ([], sym (append-nil m.certreqs));
    proposals = refl;
  }

  pub nonce-Grows :
      (buf : List ℕ) → is_some m.nonce ≡ false → Grows m (record m { nonce = some buf })
  nonce-Grows buf e = record {
    buffer = refl;
    ke = λ b e. (e, refl);
    nonce = λ b h. absurd (unset m.nonce e b h);
    auth = λ h. refl;
    peerid = λ h. refl;
    localid = λ h. refl;
    cert = λ h. refl;
    scert = λ n i e h. e;
    slots = refl;
    certreqs = ([], sym (append-nil m.certreqs));
    proposals = refl;
  }

  pub auth-Grows : (id : IkedId) → (m.auth.id_type != 0) ≡ false → Grows m (record m { auth = id })
  auth-Grows id e = record {
    buffer = refl;
    ke = λ b e. (e, refl);
    nonce = λ b e. e;
    auth = Holds-unset m.auth id e;
    peerid = λ h. refl;
    localid = λ h. refl;
    cert = λ h. refl;
    scert = λ n i e h. e;
    slots = refl;
    certreqs = ([], sym (append-nil m.certreqs));
    proposals = refl;
  }

  pub peerid-Grows :
      (id : IkedId) → (m.peerid.id_type != 0) ≡ false → Grows m (record m { peerid = id })
  peerid-Grows id e = record {
    buffer = refl;
    ke = λ b e. (e, refl);
    nonce = λ b e. e;
    auth = λ h. refl;
    peerid = Holds-unset m.peerid id e;
    localid = λ h. refl;
    cert = λ h. refl;
    scert = λ n i e h. e;
    slots = refl;
    certreqs = ([], sym (append-nil m.certreqs));
    proposals = refl;
  }

  pub localid-Grows :
      (id : IkedId) → (m.localid.id_type != 0) ≡ false → Grows m (record m { localid = id })
  localid-Grows id e = record {
    buffer = refl;
    ke = λ b e. (e, refl);
    nonce = λ b e. e;
    auth = λ h. refl;
    peerid = λ h. refl;
    localid = Holds-unset m.localid id e;
    cert = λ h. refl;
    scert = λ n i e h. e;
    slots = refl;
    certreqs = ([], sym (append-nil m.certreqs));
    proposals = refl;
  }

  pub cert-Grows : (id : IkedId) → m.cert.id_type ≡ 0 → Grows m (record m { cert = id })
  cert-Grows id e = record {
    buffer = refl;
    ke = λ b e. (e, refl);
    nonce = λ b e. e;
    auth = λ h. refl;
    peerid = λ h. refl;
    localid = λ h. refl;
    cert = λ h. absurd (h e);
    scert = λ n i e h. e;
    slots = refl;
    certreqs = ([], sym (append-nil m.certreqs));
    proposals = refl;
  }

  pub scert-Grows : (id : IkedId) → Grows m (record m { scert = fill_slot id m.scert })
  scert-Grows id = record {
    buffer = refl;
    ke = λ b e. (e, refl);
    nonce = λ b e. e;
    auth = λ h. refl;
    peerid = λ h. refl;
    localid = λ h. refl;
    cert = λ h. refl;
    scert = fill_slot-HoldsAll id m.scert;
    slots = length-fill_slot id m.scert;
    certreqs = ([], sym (append-nil m.certreqs));
    proposals = refl;
  }

  pub certreqs-Grows : (type : ℕ) (buf : List ℕ) → Grows m (store_certreq type buf m)
  unfolding store_certreq
  certreqs-Grows type buf = record {
    buffer = refl;
    ke = λ b e. (e, refl);
    nonce = λ b e. e;
    auth = λ h. refl;
    peerid = λ h. refl;
    localid = λ h. refl;
    cert = λ h. refl;
    scert = λ n i e h. e;
    slots = refl;
    certreqs = (_, refl);
    proposals = refl;
  }

-- ===== src/Tests/Msg.antt =====
-- Encrypted messages and fragments between two sides with AES-CBC and HMAC-SHA2-256-128.
use openiked_portable.Tests.Toy.{toy, toy-Documented}
use openiked_portable.Tests.Payload.{message}
use openiked_portable.Base.{
  [], ◌≡◌, false, ◌∷◌, zero, ℕ, suc, ap, some, inr, refl, true, List, inl, arith, none, ◌<◌,
  Yields-at, Among, All, length, ◌==◌, Bool-cases, ◌++◌, ◌≤◌, Yields, bytes_eq, take, zeros,
}
use openiked_portable.Crypto.{
  aes_256_cbc, sha256, IkedCipher, hash_length, cbc, IkedHash, cipher_new, hash_new, encr_aes_cbc,
  cipher_nonce, cipher_outlength, cipher_setkey, hash_final, cipher_setiv, cipher_decrypt,
}
use openiked_portable.Crypto.Tables.{cipher_new-IsCipher, hash_new-IsHash}
use openiked_portable.Fragment.{Receiver, no_fragments, parse}
use openiked_portable.Msg.{IkeSa, ikev2_msg_decrypt, strip, verify, pldlen_of, ibuf_setsize}
use openiked_portable.Msg.Opened.{IsPeer}
use openiked_portable.Msg.Sealed.{IsKeyed}
use openiked_portable.Msg.Sending.{
  Exchange, ikev2_send_encrypted_fragments, Sent, ikev2_check_frag_oversize, ikev2_msg_send_encrypt,
}
use openiked_portable.Proposal.{integr}
use openiked_portable.Msg.Arrives.{pick}
use openiked_portable.Msg.Authentic.{IsAccepted, ikev2_msg_decrypt-IsAccepted}
use openiked_portable.Msg.Receiving.{receive_datagrams}
use openiked_portable.Msg.Through.{
  ikev2_send_encrypted_fragments-parses, ikev2_send_encrypted_fragments-size,
}
use openiked_portable.Msg.Whole.{IsOpened, ikev2_msg_send_encrypt-IsOpened}

abbrev filled : ℕ → ℕ → List ℕ
filled b zero = []
filled b (suc n) = b ∷ filled b n

length-filled : (b n : ℕ) → length (filled b n) ≡ n
length-filled b zero = refl
length-filled b (suc n) = ap suc (length-filled b n)

abbrev cipher : IkedCipher
cipher = cbc toy encr_aes_cbc aes_256_cbc

abbrev hash : IkedHash
hash = record {
  hash_type = integr;
  hash_id = 12;
  hash_priv = some sha256;
  hash_fixedkey = 0;
  hash_length = 32;
  hash_trunc = 16;
  hash_isaead = false;
}

cipher_new_cbc : cipher_new toy 1 12 256 ≡ some cipher
unfolding cipher_new
cipher_new_cbc = refl

hash_new_sha256 : hash_new 3 12 ≡ some hash
unfolding hash_new
hash_new_sha256 = refl

cipher_new_odd_length : cipher_new toy 1 12 100 ≡ none
unfolding cipher_new
cipher_new_odd_length = refl

abbrev initiator_sa : IkeSa
initiator_sa = record {
  sh_initiator = true;
  sh_ispi = 1;
  sh_rspi = 2;
  encr = some cipher;
  integr = some hash;
  key_iencr = filled 3 32;
  key_rencr = filled 4 32;
  key_iauth = filled 5 32;
  key_rauth = filled 6 32;
  local_af = 2;
  frag = true;
  natt = false;
  reqid = 7;
  msgid_current = 0;
  drawn = 0;
}

abbrev responder_sa : IkeSa
responder_sa = record initiator_sa { sh_initiator = false; reqid = 0 }

keyed : IsKeyed toy cipher hash initiator_sa
keyed = record {
  has_encr = refl;
  has_integr = refl;
  cipher = Yields-at cipher (cipher_new-IsCipher toy toy-Documented 1 12 256) cipher_new_cbc;
  hash = Yields-at hash (hash_new-IsHash 3 12) hash_new_sha256;
  kind = refl;
  paired = refl;
  ikey = omega arith;
  rkey = omega arith;
}

other : IsPeer cipher hash initiator_sa responder_sa
other = record {
  used = cipher;
  has_encr = refl;
  alike = refl;
  has_integr = refl;
  turned = refl;
  iencr = refl;
  rencr = refl;
  iauth = refl;
  rauth = refl;
}

abbrev request : Exchange
request = record { exchange = 37; response = false }

-- The fragments arrive from the last to the first.
abbrev down_from : ℕ → List ℕ
down_from zero = []
down_from (suc n) = n ∷ down_from n

All-lt : (xs : List ℕ) (n : ℕ) → All (λ i. i < n) xs → All (λ i. i < suc n) xs
All-lt [] n h = tt
All-lt (x ∷ xs) n h = (omega (arith, h.0), All-lt xs n h.1)

down_from-inside : (n : ℕ) → All (λ i. i < n) (down_from n)
down_from-inside zero = tt
down_from-inside (suc n) = (omega arith, All-lt (down_from n) n (down_from-inside n))

down_from-covers : (n i : ℕ) → i < n → Among i (down_from n)
down_from-covers zero i h = absurd (omega arith)
down_from-covers (suc n) i h = elim (Bool-cases (i == n)) [
  | inl y ↦ inl (ground arith)
  | inr e ↦ inr (down_from-covers n i (ground arith))
]

abbrev long_text : List ℕ
long_text = filled 9 1000

abbrev fragments : Sent
fragments = ikev2_send_encrypted_fragments toy filled request 35 long_text initiator_sa

abbrev idle : Receiver
idle = record {
  frags = no_fragments;
  stats = record { rcvd = 0; rcvd_drop = 0; reass_ok = 0; reass_drop = 0 };
}

ikev2_send_encrypted_fragments-parses_example :
    (fragments.complete ≡ true)
    × Among (parse 35 long_text) (
        receive_datagrams toy filled responder_sa false
          (message [])
          (pick fragments.datagrams (down_from (length fragments.datagrams)))
          idle)
ikev2_send_encrypted_fragments-parses_example =
    ikev2_send_encrypted_fragments-parses toy toy-Documented filled (λ k n. length-filled k n)
      cipher hash initiator_sa responder_sa keyed other request 35 long_text
      (omega (arith, length-filled 9 1000)) (down_from (length fragments.datagrams)) (message [])
      idle (down_from-inside (length fragments.datagrams))
      (down_from-covers (length fragments.datagrams)) refl

ikev2_send_encrypted_fragments-size_example : All (λ d. length d ≤ 560) fragments.datagrams
ikev2_send_encrypted_fragments-size_example =
    ikev2_send_encrypted_fragments-size toy toy-Documented filled (λ k n. length-filled k n) cipher
      hash initiator_sa responder_sa keyed other request 35 long_text
      (omega (arith, length-filled 9 1000))

abbrev small_text : List ℕ
small_text = 0 ∷ 0 ∷ 0 ∷ 8 ∷ 1 ∷ 2 ∷ 3 ∷ 4 ∷ []

ikev2_msg_send_encrypt-IsOpened_example :
    IsOpened toy filled initiator_sa responder_sa 40 small_text
      (ikev2_msg_send_encrypt toy filled request 40 small_text initiator_sa)
unfolding ikev2_check_frag_oversize hash_length pldlen_of cipher_outlength
ikev2_msg_send_encrypt-IsOpened_example =
    ikev2_msg_send_encrypt-IsOpened toy toy-Documented filled (λ k n. length-filled k n) cipher hash
      initiator_sa responder_sa keyed other request 40 small_text refl (omega arith)

-- The message of the text, as the responder has it.
abbrev small_body : List ℕ
small_body =
    filled 1 16 ++ ((1 ∷ 1 ∷ 1 ∷ 9 ∷ 2 ∷ 3 ∷ 4 ∷ 5 ∷ filled 1 7 ++ (8 ∷ [])) ++ filled 5 16)

decrypt_small :
    ikev2_msg_decrypt toy filled responder_sa (zeros 32 ++ small_body) small_body ≡ some small_text
unfolding ikev2_msg_decrypt strip ibuf_setsize hash_length hash_final verify bytes_eq cipher_setkey
    cipher_setiv cipher_decrypt cipher_nonce
decrypt_small = refl

decrypt_forged :
    ikev2_msg_decrypt toy filled responder_sa
      (zeros 32 ++ small_body)
      (take 47 small_body ++ (0 ∷ []))
    ≡ none
unfolding ikev2_msg_decrypt strip ibuf_setsize hash_length hash_final verify bytes_eq cipher_setkey
    cipher_setiv cipher_decrypt cipher_nonce
decrypt_forged = refl

ikev2_msg_decrypt-IsAccepted_example :
    Yields
      (λ text. IsAccepted toy responder_sa cipher hash (zeros 32 ++ small_body) small_body)
      (ikev2_msg_decrypt toy filled responder_sa (zeros 32 ++ small_body) small_body)
ikev2_msg_decrypt-IsAccepted_example =
    ikev2_msg_decrypt-IsAccepted toy filled responder_sa (zeros 32 ++ small_body) small_body cipher
      hash refl refl

-- ===== src/Addr/Masked.antt =====
-- What a zero of sockaddr_cmp means.
use openiked_portable.Base.{
  ℕ, ◌≡◌, ◌≢◌, bit_and, true, Option, arith, is_zero, ◌∙◌, sym, Bool-cases, inl, inr, ◌==◌, ==_iff,
}
use openiked_portable.Addr.{Sockaddr, af_unspec, af_inet, af_inet6, mask4, mask6, sockaddr_cmp}

-- The same network under a prefix: the family, and the words of it that the mask lets through.
pub record SameNet (a b : Sockaddr) (prefixlen : Option ℕ) : Type 0 where
  pub family : a.family ≡ b.family
  pub inet :
      a.family ≡ af_inet → bit_and a.word0 (mask4 prefixlen) ≡ bit_and b.word0 (mask4 prefixlen)
  pub inet6_0 :
      a.family ≡ af_inet6
      → bit_and a.word0 (mask6 prefixlen 0) ≡ bit_and b.word0 (mask6 prefixlen 0)
  pub inet6_1 :
      a.family ≡ af_inet6
      → bit_and a.word1 (mask6 prefixlen 1) ≡ bit_and b.word1 (mask6 prefixlen 1)
  pub inet6_2 :
      a.family ≡ af_inet6
      → bit_and a.word2 (mask6 prefixlen 2) ≡ bit_and b.word2 (mask6 prefixlen 2)
  pub inet6_3 :
      a.family ≡ af_inet6
      → bit_and a.word3 (mask6 prefixlen 3) ≡ bit_and b.word3 (mask6 prefixlen 3)

pub sockaddr_cmp-SameNet :
    (a b : Sockaddr) (p : Option ℕ)
    → a.family ≢ af_unspec
    → b.family ≢ af_unspec
    → is_zero (sockaddr_cmp a b p) ≡ true
    → SameNet a b p
unfolding sockaddr_cmp
sockaddr_cmp-SameNet a b p ha hb h = ground arith

pub SameNet-sockaddr_cmp :
    (a b : Sockaddr) (p : Option ℕ) → SameNet a b p → is_zero (sockaddr_cmp a b p) ≡ true
unfolding sockaddr_cmp
SameNet-sockaddr_cmp a b p h = ground arith

pub sockaddr_cmp_unspec :
    (a b : Sockaddr) (p : Option ℕ) → a.family ≡ af_unspec → is_zero (sockaddr_cmp a b p) ≡ true
unfolding sockaddr_cmp
sockaddr_cmp_unspec a b p h = ground arith

pub sockaddr_cmp_unspec_right :
    (a b : Sockaddr) (p : Option ℕ) → b.family ≡ af_unspec → is_zero (sockaddr_cmp a b p) ≡ true
unfolding sockaddr_cmp
sockaddr_cmp_unspec_right a b p h = ground arith

pub SameNet-trans :
    (a b c : Sockaddr) (p : Option ℕ) → SameNet a b p → SameNet b c p → SameNet a c p
SameNet-trans a b c p h k = record {
  family = h.family ∙ k.family;
  inet = λ e. h.inet e ∙ k.inet (sym h.family ∙ e);
  inet6_0 = λ e. h.inet6_0 e ∙ k.inet6_0 (sym h.family ∙ e);
  inet6_1 = λ e. h.inet6_1 e ∙ k.inet6_1 (sym h.family ∙ e);
  inet6_2 = λ e. h.inet6_2 e ∙ k.inet6_2 (sym h.family ∙ e);
  inet6_3 = λ e. h.inet6_3 e ∙ k.inet6_3 (sym h.family ∙ e);
}

-- Among addresses that are set, a zero of sockaddr_cmp under one prefix is transitive.
pub sockaddr_cmp_trans :
    (a b c : Sockaddr) (p : Option ℕ)
    → b.family ≢ af_unspec
    → is_zero (sockaddr_cmp a b p) ≡ true
    → is_zero (sockaddr_cmp b c p) ≡ true
    → is_zero (sockaddr_cmp a c p) ≡ true
sockaddr_cmp_trans a b c p hb h k = elim (Bool-cases (a.family == af_unspec)) [
  | inl y ↦ sockaddr_cmp_unspec a c p ((==_iff a.family 0).0 y)
  | inr n ↦ elim (Bool-cases (c.family == af_unspec)) [
    | inl y ↦ sockaddr_cmp_unspec_right a c p ((==_iff c.family 0).0 y)
    | inr m ↦ SameNet-sockaddr_cmp a c p (
        SameNet-trans a b c p (sockaddr_cmp-SameNet a b p (ground arith) hb h)
          (sockaddr_cmp-SameNet b c p hb (ground arith) k))
  ]
]

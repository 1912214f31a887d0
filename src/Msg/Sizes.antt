-- ===== src/Msg/Sizes.antt =====
-- The sizes of the padding and of an encrypted payload, of ikev2_msg_encrypt_prepare and
-- ikev2_msg_encrypt of iked/ikev2_msg.c.
use native.Mathlib.Nat.{mod-lt, mod-add-div', mul-mod_left, add-mul-div_right, div-eq_of_lt}
use openiked_portable.Base.{
  ℕ, ◌+◌, ◌-◌, ◌/◌, ◌*◌, ◌%◌, ◌≡◌, ◌≤◌, ◌<◌, refl, some, List, [], ◌∷◌, ◌++◌, length, length-append,
  get_elem?, arith, get_elem?-append, ltb, false, append_assoc, take-append,
}
use openiked_portable.Crypto.{roundup}
use openiked_portable.Msg.{ibuf_setsize, strip}

-- roundup(x, y) is the least multiple of y from x on.
pub roundup-le : (x y : ℕ) → 0 < y → x ≤ roundup x y
roundup-le x y p = omega (arith, mod-lt (x + (y - 1)) p, mod-add-div' (x + (y - 1)) y)

pub roundup-lt : (x y : ℕ) → 0 < y → roundup x y < x + y
roundup-lt x y p = omega (arith, mod-add-div' (x + (y - 1)) y)

pub roundup_whole : (x y : ℕ) → roundup x y % y ≡ 0
roundup_whole x y = mul-mod_left ((x + (y - 1)) / y) y

pub roundup_again : (x y : ℕ) → 0 < y → roundup (roundup x y) y ≡ roundup x y
roundup_again x y p =
    let q = (x + (y - 1)) / y in
    let order : q * y + (y - 1) ≡ y - 1 + q * y = omega arith in
    let quotient : (y - 1 + q * y) / y ≡ (y - 1) / y + q = add-mul-div_right (y - 1) q p in
    let none_left : (y - 1) / y ≡ 0 = div-eq_of_lt (omega arith) in
    let nothing : 0 + q ≡ q = omega arith in rw (order, quotient, none_left, nothing) refl

-- The last byte of the padded text says how much of it is padding.
pub strip_padded :
    (text padding : List ℕ) → strip ((text ++ padding) ++ (length padding ∷ [])) ≡ some text
unfolding strip ibuf_setsize
strip_padded text padding =
    let n = length padding in
    let size : length ((text ++ padding) ++ (n ∷ [])) ≡ length text + n + 1 =
      omega (arith, length-append (text ++ padding) (n ∷ []), length-append text padding) in
    let spot : length text + n + 1 - 1 ≡ length (text ++ padding) + 0 =
      omega (arith, length-append text padding) in
    let last : get_elem? ((text ++ padding) ++ (n ∷ [])) (length (text ++ padding) + 0) ≡ some n =
      get_elem?-append (text ++ padding) (n ∷ []) 0 in
    let fits : ltb (length text + n + 1) (n + 1) ≡ false = ground arith in
    let room : ltb (length text + n + 1) (length text + n + 1 - (n + 1)) ≡ false = ground arith in
    let kept : length text + n + 1 - (n + 1) ≡ length text = omega arith in
    rw
      (
        size,
        spot,
        last,
        fits,
        room,
        kept,
        append_assoc text padding (n ∷ []),
        take-append text (padding ++ (n ∷ [])) (length text) refl,
      )
      refl

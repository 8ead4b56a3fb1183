-- ===== src/Gtin/Checksum.antt =====
-- What the check digit of backend/src/erp/listing/gtin.py detects.
use mathlib.Core.List.{map-append}
use erp_all.Prelude.{
  ℕ, ◌+◌, ◌<◌, ◌≡◌, sym, ap, ◌∙◌, ◌≢◌, ◌⊎◌, inl, inr, true, false, [], ◌∷◌, ◌++◌, arith, length,
  map, Bool-cases, leb→le,
}
use erp_all.Gtin.{Text, is_digit, digit, checksum_ok, effective_first_digit}
use erp_all.Gtin.Sums.{good, good-eq, good-order, good-padded}

digit-lt : (c : ℕ) → is_digit c ≡ true → digit c < 10
digit-lt c h =
    let l = leb→le b'0' c (ground arith) in let u = leb→le c b'9' (ground arith) in omega arith

digit-injective : (c d : ℕ) → is_digit c ≡ true → is_digit d ≡ true → digit c ≡ digit d → c ≡ d
digit-injective c d h k e =
    let l = leb→le b'0' c (ground arith) in let m = leb→le b'0' d (ground arith) in omega arith

checksum_ok-middle : (p s : Text) → checksum_ok (p ++ s) ≡ good (map digit p ++ map digit s)
unfolding checksum_ok
checksum_ok-middle p s = ap good (map-append digit p s)

-- One wrong digit is always found: of two texts that differ in one digit, the check digit included, at
-- most one passes.
pub checksum_ok_one_digit :
    (p s : Text) (c d : ℕ)
    → is_digit c ≡ true
    → is_digit d ≡ true
    → c ≢ d
    → checksum_ok (p ++ c ∷ s) ≡ true
    → checksum_ok (p ++ d ∷ s) ≡ false
checksum_ok_one_digit p s c d h k ne fits = elim (Bool-cases (checksum_ok (p ++ d ∷ s))) [
  | inr e ↦ e
  | inl e ↦ absurd (
      ne (
        digit-injective c d h k (
          good-eq (map digit p) (map digit s) (digit c) (digit d) (digit-lt c h) (digit-lt d k)
            (sym (checksum_ok-middle p (c ∷ s)) ∙ fits) (sym (checksum_ok-middle p (d ∷ s)) ∙ e))))
]

-- Two neighbours in the wrong order are found unless they differ by five: where both orders pass, the
-- check digit included, the digits are equal or five apart.
pub checksum_ok_order :
    (p s : Text) (c d : ℕ)
    → is_digit c ≡ true
    → is_digit d ≡ true
    → checksum_ok (p ++ c ∷ d ∷ s) ≡ true
    → checksum_ok (p ++ d ∷ c ∷ s) ≡ true
    → (c ≡ d) ⊎ ((c ≡ d + 5) ⊎ (d ≡ c + 5))
checksum_ok_order p s c d h k fits fits' =
    let l = leb→le b'0' c (ground arith) in
    let m = leb→le b'0' d (ground arith) in
    let found =
      good-order (map digit p) (map digit s) (digit c) (digit d) (digit-lt c h) (digit-lt d k)
        (sym (checksum_ok-middle p (c ∷ d ∷ s)) ∙ fits)
        (sym (checksum_ok-middle p (d ∷ c ∷ s)) ∙ fits') in
    ground arith

-- A twelve-digit number and the thirteen-digit text that is that number after a `0` pass or fail the
-- check together and have the same effective first digit.
pub zero_padding :
    (g : Text)
    → length g ≡ 12
    → (checksum_ok (b'0' ∷ g) ≡ checksum_ok g)
      × (effective_first_digit (b'0' ∷ g) ≡ effective_first_digit g)
unfolding checksum_ok effective_first_digit
zero_padding [] l = absurd (cc)
zero_padding (c ∷ []) l = absurd (omega arith)
zero_padding (c ∷ d ∷ g) l = (good-padded (digit c) (map digit (d ∷ g)), ground arith)

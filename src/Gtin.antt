-- ===== src/Gtin.antt =====
-- backend/src/erp/listing/gtin.py: the pool of article numbers. This file has the number itself, its
-- format, check digit and first digit; Gtin/Pool has the table and its operations.
pub mod Sums
pub mod Checksum
pub mod Pool
pub mod Occupation
pub mod Moves
pub mod Imports
pub mod Exclusive
mod Tests
use erp_all.Prelude.{
  ℕ, zero, suc, ◌+◌, ◌-◌, ◌*◌, ◌%◌, Bool, true, false, Option, none, some, List, [], ◌∷◌, ◌&&◌,
  ◌||◌, ◌==◌, leb, if◌then◌else◌, length, map,
}

-- A text as its code points.
abbrev pub Text : Type 0
Text = List ℕ

abbrev pub upc_a_len : ℕ
upc_a_len = 12

abbrev pub is_digit : ℕ → Bool
is_digit c = leb b'0' c && leb c b'9'

abbrev all_digits : Text → Bool
all_digits [] = true
all_digits (c ∷ cs) = is_digit c && all_digits cs

-- `_GTIN_RE`, on a text without surrounding space.
unfoldable pub is_gtin : Text → Bool
is_gtin g = all_digits g && ((length g == 12) || (length g == 13))

-- `int(c)`
abbrev pub digit : ℕ → ℕ
digit c = c - b'0'

-- The factor of the digit at place `i` of `n`.
unfoldable pub weight : ℕ → ℕ → ℕ
weight n i = if (n - 1 - i) % 2 == 0 then 3 else 1

-- The sum over `enumerate(digits)`, from place `i` on.
unfoldable pub weighted : ℕ → ℕ → List ℕ → ℕ
unfolding weight
weighted n i [] = 0
weighted n i (d ∷ ds) = d * weight n i + weighted n (suc i) ds

-- `digits.pop()`; `none` is the IndexError, which no text that matches the pattern meets.
unfoldable pub pop : List ℕ → Option (List ℕ × ℕ)
pop [] = none
pop (d ∷ []) = some ([], d)
pop (d ∷ e ∷ ds) = elim (pop (e ∷ ds)) [ none ↦ none | some (rest, last) ↦ some (d ∷ rest, last) ]

-- `(10 - total % 10) % 10 == check`
abbrev pub checks : ℕ → ℕ → Bool
checks total check = (10 - total % 10) % 10 == check

unfoldable pub checksum_popped : Option (List ℕ × ℕ) → Bool
unfolding weighted
checksum_popped none = false
checksum_popped (some (ds, check)) = checks (weighted (length ds) 0 ds) check

-- `_checksum_ok`
unfoldable pub checksum_ok : Text → Bool
unfolding checksum_popped pop
checksum_ok g = checksum_popped (pop (map digit g))

-- `_effective_first_digit`; `none` is the IndexError on an empty text.
unfoldable pub effective_first_digit : Text → Option ℕ
effective_first_digit [] = none
effective_first_digit (c ∷ []) = some c
effective_first_digit (c ∷ d ∷ g) =
    if (length (c ∷ d ∷ g) == upc_a_len + 1) && (c == b'0') then some d else some c

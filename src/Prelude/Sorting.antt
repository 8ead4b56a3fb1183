-- ===== src/Prelude/Sorting.antt =====
-- ORDER BY and LIMIT: an insertion sort by a Boolean order, and the first rows of a list.
use Prim.Native.Nat.{ℕ, zero, suc, ◌≤◌}
use mathlib.Core.Bool.{Bool}
use mathlib.Core.List.{List, [], ◌∷◌}
use native.Mathlib.Omega.{arith}
use erp_all.Prelude.Checks.{if◌then◌else◌, if-elim}
use erp_all.Prelude.Lists.{All, length}

module _ {A : Type 0} where
  abbrev pub first_rows : ℕ → List A → List A
  first_rows zero xs = []
  first_rows (suc n) [] = []
  first_rows (suc n) (x ∷ xs) = x ∷ first_rows n xs

  unfoldable pub insert_by : (A → A → Bool) → A → List A → List A
  insert_by before x [] = x ∷ []
  insert_by before x (y ∷ ys) =
      let later = insert_by before x ys in if before x y then x ∷ y ∷ ys else y ∷ later

  unfoldable pub sort_by : (A → A → Bool) → List A → List A
  unfolding insert_by
  sort_by before [] = []
  sort_by before (x ∷ xs) = insert_by before x (sort_by before xs)

  insert_by-All {κ} :
      (P : A → Type κ) (before : A → A → Bool) (x : A) (ys : List A)
      → P x
      → All P ys
      → All P (insert_by before x ys)
  unfolding insert_by
  insert_by-All P before x [] p q = (p, tt)
  insert_by-All P before x (y ∷ ys) p q =
      if-elim (All P) (before x y) (x ∷ y ∷ ys) (y ∷ insert_by before x ys) (λ _. (p, q))
        λ _. (q.0, insert_by-All P before x ys p q.1)

  pub sort_by-All {κ} :
      (P : A → Type κ) (before : A → A → Bool) (xs : List A) → All P xs → All P (sort_by before xs)
  unfolding sort_by
  sort_by-All P before [] p = tt
  sort_by-All P before (x ∷ xs) p =
      insert_by-All P before x (sort_by before xs) p.0 (sort_by-All P before xs p.1)

  pub first_rows-All {κ} :
      (P : A → Type κ) (n : ℕ) (xs : List A) → All P xs → All P (first_rows n xs)
  first_rows-All P zero xs p = tt
  first_rows-All P (suc n) [] p = tt
  first_rows-All P (suc n) (x ∷ xs) p = (p.0, first_rows-All P n xs p.1)

  pub length-first_rows : (n : ℕ) (xs : List A) → length (first_rows n xs) ≤ n
  length-first_rows zero xs = omega arith
  length-first_rows (suc n) [] = omega arith
  length-first_rows (suc n) (x ∷ xs) = omega (arith, length-first_rows n xs)

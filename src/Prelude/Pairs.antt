-- ===== src/Prelude/Pairs.antt =====
-- Relations between all pairs of rows of a table, across an update and an insert.
use mathlib.Core.Path.{refl}
use mathlib.Core.Logic.{inl, inr}
use mathlib.Core.Bool.{Bool}
use mathlib.Core.List.{List, [], ◌∷◌, ◌++◌}
use erp_all.Prelude.Checks.{if◌then◌else◌}
use erp_all.Prelude.Lists.{All, All-append, In, update_where}

module _ {A : Type 0} where
  -- As `All-imp`, for a step that may use that the element occurs.
  pub All-imp_In {κ μ} :
      (P : A → Type κ) (Q : A → Type μ) (xs : List A)
      → ((x : A) → In x xs → P x → Q x)
      → All P xs
      → All Q xs
  All-imp_In P Q [] f p = tt
  All-imp_In P Q (x ∷ xs) f p = (f x (inl refl) p.0, All-imp_In P Q xs (λ y i. f y (inr i)) p.1)

  -- The row that an update puts in a row's place.
  abbrev pub changed : (A → Bool) → (A → A) → A → A
  changed test change x = if test x then change x else x

  pub All-changed {κ} :
      (P : A → Type κ) (test : A → Bool) (change : A → A) (xs : List A)
      → All (λ x. P (changed test change x)) xs
      → All P (update_where test change xs)
  All-changed P test change [] p = tt
  All-changed P test change (x ∷ xs) p = (p.0, All-changed P test change xs p.1)

  All-forall {κ} : (P : A → Type κ) (xs : List A) → ((x : A) → P x) → All P xs
  All-forall P [] f = tt
  All-forall P (x ∷ xs) f = (f x, All-forall P xs f)

  -- A relation between all pairs of rows, across an update.
  pub pairs-update {κ} :
      (P : A → A → Type κ) (test : A → Bool) (change : A → A) (xs : List A)
      → ((x y : A) → In x xs → In y xs → P x y → P (changed test change x) (changed test change y))
      → All (λ x. All (P x) xs) xs
      → let new = update_where test change xs in All (λ x. All (P x) new) new
  pairs-update P test change xs f p = All-changed _ test change xs (
      All-imp_In _ _ xs
        (λ x i row. All-changed _ test change xs (All-imp_In _ _ xs (λ y j. f x y i j) row)) p)

  pub pairs-append {κ} :
      (P : A → A → Type κ) (xs : List A) (a : A)
      → ((x : A) → In x xs → P x a)
      → ((y : A) → P a y)
      → All (λ x. All (P x) xs) xs
      → let new = xs ++ a ∷ [] in All (λ x. All (P x) new) new
  pairs-append P xs a before after p =
      All-append _ xs (a ∷ [])
        (All-imp_In _ _ xs (λ x i row. All-append _ xs (a ∷ []) row (before x i, tt)) p)
        (All-forall _ (xs ++ a ∷ []) after, tt)

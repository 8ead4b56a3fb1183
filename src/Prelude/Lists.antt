-- ===== src/Prelude/Lists.antt =====
-- Lists measured by native numbers, predicates over them by recursion, and the operations that
-- stand for a table's SELECT and UPDATE: the first row that passes a test, and a change of the rows
-- that pass a test.
use Prim.Native.Nat.{ℕ, suc, ◌+◌}
use mathlib.Core.Path.{◌≡◌, refl, sym, ◌∙◌, subst}
use mathlib.Core.Logic.{◌⊎◌, inl, inr}
use mathlib.Core.Bool.{Bool, true, false, ◌||◌}
use mathlib.Core.Option.{Option, none, some, some-injective}
use mathlib.Core.List.{List, [], ◌∷◌, ◌++◌}
use native.Mathlib.Omega.{arith}
use erp_all.Prelude.Checks.{if◌then◌else◌, if-elim, Bool-cases}

module _ {ℓ} {A : Type ℓ} where
  abbrev pub length : List A → ℕ
  length [] = 0
  length (x ∷ xs) = suc (length xs)

  pub length-append : (xs ys : List A) → length (xs ++ ys) ≡ length xs + length ys
  length-append [] ys = omega arith
  length-append (x ∷ xs) ys = omega (arith, length-append xs ys)

  -- Every element has the property.
  abbrev pub All {κ} : (A → Type κ) → List A → Type κ
  All P [] = Unit
  All P (x ∷ xs) = P x × All P xs

  pub All-append {κ} : (P : A → Type κ) (xs ys : List A) → All P xs → All P ys → All P (xs ++ ys)
  All-append P [] ys p q = q
  All-append P (x ∷ xs) ys p q = (p.0, All-append P xs ys p.1 q)

  pub All-imp {κ μ} :
      (P : A → Type κ) (Q : A → Type μ) (xs : List A) → ((x : A) → P x → Q x) → All P xs → All Q xs
  All-imp P Q [] f p = tt
  All-imp P Q (x ∷ xs) f p = (f x p.0, All-imp P Q xs f p.1)

module _ {A : Type 0} where
  -- The element occurs in the list, with its place kept.
  abbrev pub In : A → List A → Type 0
  In a [] = ⊥
  In a (x ∷ xs) = (a ≡ x) ⊎ In a xs

  pub All-In {κ} : (P : A → Type κ) (a : A) (xs : List A) → All P xs → In a xs → P a
  All-In P a [] p i = absurd i
  All-In P a (x ∷ xs) p (inl e) = subst P (sym e) p.0
  All-In P a (x ∷ xs) p (inr i) = All-In P a xs p.1 i

  -- SELECT … LIMIT 1 over a list of rows.
  abbrev pub find_first : (A → Bool) → List A → Option A
  find_first test [] = none
  find_first test (x ∷ xs) = if test x then some x else find_first test xs

  -- EXISTS (SELECT …).
  abbrev pub any_row : (A → Bool) → List A → Bool
  any_row test [] = false
  any_row test (x ∷ xs) = test x || any_row test xs

  -- SELECT … WHERE.
  abbrev pub select_where : (A → Bool) → List A → List A
  select_where test [] = []
  select_where test (x ∷ xs) = let rest = select_where test xs in if test x then x ∷ rest else rest

  -- UPDATE … WHERE.
  abbrev pub update_where : (A → Bool) → (A → A) → List A → List A
  update_where test change [] = []
  update_where test change (x ∷ xs) = (if test x then change x else x) ∷ update_where test change xs

  -- DELETE … WHERE.
  abbrev pub delete_where : (A → Bool) → List A → List A
  delete_where test [] = []
  delete_where test (x ∷ xs) = let rest = delete_where test xs in if test x then rest else x ∷ rest

  pub find_first-eq_some :
      (test : A → Bool) (xs : List A) {a : A}
      → find_first test xs ≡ some a
      → (test a ≡ true) × In a xs
  find_first-eq_some test [] h = cc
  find_first-eq_some test (x ∷ xs) h = elim (Bool-cases (test x)) [
    | inl e ↦
        let same : x ≡ _ = some-injective _ _ (rw e at h) in
        (subst (λ y. test y ≡ true) same e, inl (sym same))
    | inr e ↦ let (ok, i) = find_first-eq_some test xs (rw e at h) in (ok, inr i)
  ]

  pub All-update_where {κ} :
      (P : A → Type κ) (test : A → Bool) (change : A → A) (xs : List A)
      → ((x : A) → test x ≡ true → P x → P (change x))
      → All P xs
      → All P (update_where test change xs)
  All-update_where P test change [] f p = tt
  All-update_where P test change (x ∷ xs) f p =
      (kept (test x) refl, All-update_where P test change xs f p.1)
    where
      kept : (b : Bool) → test x ≡ b → P (if b then change x else x)
      kept true e = f x e p.0
      kept false e = p.0

  -- What an update does to the first row that a test selects, where the change keeps the selection: the
  -- row is still the first one, as it was or changed.
  pub find_first-update_where {κ} :
      (R : A → A → Type κ) (sel test : A → Bool) (change : A → A) (xs : List A) (a : A)
      → ((x : A) → test x ≡ false → R x x)
      → ((x : A) → test x ≡ true → (sel (change x) ≡ sel x) × R x (change x))
      → find_first sel xs ≡ some a
      → (b : A) × (find_first sel (update_where test change xs) ≡ some b) × R a b
  find_first-update_where R sel test change [] a same moves h = absurd (cc)
  find_first-update_where R sel test change (x ∷ xs) a same moves h = elim (Bool-cases (sel x)) [
    | inl e ↦
        let here : x ≡ a = some-injective _ _ (rw e at h) in
        (
          if test x then change x else x,
          rw (selects e),
          subst (λ y. R y (if test x then change x else x)) here
              (if-elim (R x) (test x) (change x) x (λ t. (moves x t).1) (same x)),
        )
    | inr e ↦
        let (b, found, r) = find_first-update_where R sel test change xs a same moves (rw e at h) in
        (b, rw (selects e) found, r)
  ]
    where
      selects : {v : Bool} → sel x ≡ v → sel (if test x then change x else x) ≡ v
      selects {v} e =
          if-elim (λ y. sel y ≡ v) (test x) (change x) x (λ t. (moves x t).0 ∙ e) (λ _. e)

  pub find_first-append :
      (sel : A → Bool) (xs ys : List A) (a : A)
      → find_first sel xs ≡ some a
      → find_first sel (xs ++ ys) ≡ some a
  find_first-append sel [] ys a h = absurd (cc)
  find_first-append sel (x ∷ xs) ys a h = ground (arith, find_first-append sel xs ys a)

  pub find_first-append_none :
      (sel : A → Bool) (xs : List A) (y : A)
      → find_first sel xs ≡ none
      → sel y ≡ true
      → find_first sel (xs ++ y ∷ []) ≡ some y
  find_first-append_none sel [] y h e = rw e
  find_first-append_none sel (x ∷ xs) y h e = ground (arith, find_first-append_none sel xs y)

  pub update_where-none :
      (test : A → Bool) (change : A → A) (xs : List A)
      → any_row test xs ≡ false
      → update_where test change xs ≡ xs
  update_where-none test change [] h = refl
  update_where-none test change (x ∷ xs) h = ground (arith, update_where-none test change xs)

  pub find_first-none :
      (test : A → Bool) (xs : List A) → any_row test xs ≡ false → find_first test xs ≡ none
  find_first-none test [] h = refl
  find_first-none test (x ∷ xs) h = ground (arith, find_first-none test xs)

  pub any_row-eq_false :
      (test : A → Bool) (xs : List A) → find_first test xs ≡ none → any_row test xs ≡ false
  any_row-eq_false test [] h = refl
  any_row-eq_false test (x ∷ xs) h = ground (arith, any_row-eq_false test xs)

  pub any_row-eq_true :
      (test : A → Bool) (xs : List A) → any_row test xs ≡ true → (a : A) × In a xs × (test a ≡ true)
  any_row-eq_true test [] h = absurd (cc)
  any_row-eq_true test (x ∷ xs) h = elim (Bool-cases (test x)) [
    | inl e ↦ (x, inl refl, e)
    | inr e ↦ let (a, i, t) = any_row-eq_true test xs (rw e at h) in (a, inr i, t)
  ]

  pub In-append_left : (a : A) (xs ys : List A) → In a xs → In a (xs ++ ys)
  In-append_left a [] ys i = absurd i
  In-append_left a (x ∷ xs) ys (inl e) = inl e
  In-append_left a (x ∷ xs) ys (inr i) = inr (In-append_left a xs ys i)

  pub In-append_last : (a : A) (xs : List A) → In a (xs ++ a ∷ [])
  In-append_last a [] = inl refl
  In-append_last a (x ∷ xs) = inr (In-append_last a xs)

  pub any_row-In :
      (test : A → Bool) (xs : List A) (a : A) → any_row test xs ≡ false → In a xs → test a ≡ false
  any_row-In test [] a h i = absurd i
  any_row-In test (x ∷ xs) a h (inl e) = rw e (ground arith)
  any_row-In test (x ∷ xs) a h (inr i) = any_row-In test xs a (ground arith) i

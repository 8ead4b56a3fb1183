-- ===== src/Prelude/Rows.antt =====
-- Lists as tables: what a delete or an update leaves of a selection of rows.
use mathlib.Core.Path.{◌≡◌, refl, sym, ap, ◌∙◌, subst}
use mathlib.Core.Logic.{inl, inr}
use mathlib.Core.Bool.{Bool, true, false, ◌&&◌, ◌||◌}
use mathlib.Core.Option.{none, some, some-injective}
use mathlib.Core.List.{List, [], ◌∷◌, ◌++◌}
use native.Mathlib.Omega.{arith}
use erp_all.Prelude.Checks.{if◌then◌else◌, if-elim, Bool-cases}
use erp_all.Prelude.Lists.{All, In, find_first, any_row, select_where, update_where, delete_where}

module _ {A : Type 0} where
  -- A row that an update or a delete spares stays the first one that a test selects.
  pub find_first-delete_where :
      (sel test : A → Bool) (xs : List A) (a : A)
      → find_first sel xs ≡ some a
      → test a ≡ false
      → find_first sel (delete_where test xs) ≡ some a
  find_first-delete_where sel test [] a h t = absurd (cc)
  find_first-delete_where sel test (x ∷ xs) a h t = elim (Bool-cases (sel x)) [
    | inl e ↦
        let same : x ≡ a = some-injective _ _ (rw e at h) in
        let spared : test x ≡ false = subst (λ y. test y ≡ false) (sym same) t in
        rw spared (rw e (ap some same))
    | inr e ↦
        let rest = find_first-delete_where sel test xs a (rw e at h) t in
        elim (Bool-cases (test x)) [ inl d ↦ rw d rest | inr d ↦ rw d (rw e rest) ]
  ]

  pub delete_where-none :
      (sel test : A → Bool) (xs : List A)
      → find_first sel xs ≡ none
      → find_first sel (delete_where test xs) ≡ none
  delete_where-none sel test [] h = refl
  delete_where-none sel test (x ∷ xs) h = ground (arith, delete_where-none sel test xs)

  pub find_first-append_eq_none :
      (sel : A → Bool) (xs ys : List A)
      → find_first sel xs ≡ none
      → find_first sel (xs ++ ys) ≡ find_first sel ys
  find_first-append_eq_none sel [] ys h = refl
  find_first-append_eq_none sel (x ∷ xs) ys h = ground (arith, find_first-append_eq_none sel xs ys)

  pub delete_where-append :
      (test : A → Bool) (xs ys : List A)
      → delete_where test (xs ++ ys) ≡ delete_where test xs ++ delete_where test ys
  delete_where-append test [] ys = refl
  delete_where-append test (x ∷ xs) ys = ground (arith, delete_where-append test xs ys)

  -- An update of rows that a test does not select.
  pub find_first-update_ne :
      (sel test : A → Bool) (change : A → A) (xs : List A)
      → ((x : A) → test x ≡ true → (sel x ≡ false) × (sel (change x) ≡ false))
      → find_first sel (update_where test change xs) ≡ find_first sel xs
  find_first-update_ne sel test change [] f = refl
  find_first-update_ne sel test change (x ∷ xs) f = elim (Bool-cases (test x)) [
    | inr e ↦
        rw e (ap (λ o. if sel x then some x else o) (find_first-update_ne sel test change xs f))
    | inl e ↦
        let (before, after) = f x e in
        rw (e, before, after) (find_first-update_ne sel test change xs f)
  ]

  pub any_row-delete_where :
      (test : A → Bool) (xs : List A) → any_row test (delete_where test xs) ≡ false
  any_row-delete_where test [] = refl
  any_row-delete_where test (x ∷ xs) = ground (arith, any_row-delete_where test xs)

  -- A delete leaves the rows of any other selection as they were.
  pub select_where-delete_where :
      (sel test : A → Bool) (xs : List A)
      → ((x : A) → sel x ≡ true → test x ≡ false)
      → select_where sel (delete_where test xs) ≡ select_where sel xs
  select_where-delete_where sel test [] f = refl
  select_where-delete_where sel test (x ∷ xs) f =
      let rest = select_where-delete_where sel test xs f in
      elim (Bool-cases (test x)) [
        | inl e ↦ elim (Bool-cases (sel x)) [
          | inl s ↦ let no : true ≡ false = sym e ∙ f x s in absurd (cc)
          | inr s ↦ rw (e, s) rest
        ]
        | inr e ↦ rw e (ap (λ ys. if sel x then x ∷ ys else ys) rest)
      ]

  pub any_row-All :
      (test : A → Bool) (xs : List A) → any_row test xs ≡ false → All (λ x. test x ≡ false) xs
  any_row-All test [] h = tt
  any_row-All test (x ∷ xs) h = (ground arith, any_row-All test xs (ground arith))

  pub All-any_row :
      (test : A → Bool) (xs : List A) → All (λ x. test x ≡ false) xs → any_row test xs ≡ false
  All-any_row test [] h = refl
  All-any_row test (x ∷ xs) h = rw (h.0, All-any_row test xs h.1) refl

  pub any_row-append_last :
      (test : A → Bool) (xs : List A) (a : A) → test a ≡ true → any_row test (xs ++ a ∷ []) ≡ true
  any_row-append_last test [] a h = rw h refl
  any_row-append_last test (x ∷ xs) a h = ground (arith, any_row-append_last test xs a)

-- What a selection holds.
module _ {A : Type 0} (test : A → Bool) where
  pub select_where-In :
      (xs : List A) (a : A) → In a (select_where test xs) → In a xs × (test a ≡ true)
  select_where-In [] a i = absurd i
  select_where-In (x ∷ xs) a i = elim (Bool-cases (test x)) [
    | inl e ↦ elim (rw e at i) [
      | inl s ↦ (inl s, subst (λ y. test y ≡ true) (sym s) e)
      | inr j ↦ let (k, t) = select_where-In xs a j in (inr k, t)
    ]
    | inr e ↦ let (k, t) = select_where-In xs a (rw e at i) in (inr k, t)
  ]

  pub In-select_where :
      (xs : List A) (a : A) → In a xs → test a ≡ true → In a (select_where test xs)
  In-select_where [] a i t = absurd i
  In-select_where (x ∷ xs) a (inl e) t =
      let here : test x ≡ true = subst (λ y. test y ≡ true) e t in rw here (inl e)
  In-select_where (x ∷ xs) a (inr i) t =
      if-elim (In a) (test x) (x ∷ select_where test xs) (select_where test xs)
        (λ _. inr (In-select_where xs a i t)) λ _. In-select_where xs a i t

  pub select_where-all : (xs : List A) → All (λ x. test x ≡ true) xs → select_where test xs ≡ xs
  select_where-all [] a = refl
  select_where-all (x ∷ xs) a = rw a.0 (ap (λ ys. x ∷ ys) (select_where-all xs a.1))

-- Whether a table has a row of some kind, after an update, in a longer table and in a selection.
module _ {A : Type 0} where
  pub any_row-update_ne :
      (sel test : A → Bool) (change : A → A) (xs : List A)
      → ((x : A) → In x xs → test x ≡ true → (sel x ≡ false) × (sel (change x) ≡ false))
      → any_row sel (update_where test change xs) ≡ any_row sel xs
  any_row-update_ne sel test change [] f = refl
  any_row-update_ne sel test change (x ∷ xs) f =
      let rest = any_row-update_ne sel test change xs (λ y i. f y (inr i)) in
      elim (Bool-cases (test x)) [
        | inr e ↦ rw e (ap (λ b. sel x || b) rest)
        | inl e ↦ let (before, after) = f x (inl refl) e in rw (e, before, after) rest
      ]

  pub any_row-update_into :
      (sel test : A → Bool) (change : A → A) (xs : List A)
      → ((x : A) → test x ≡ true → sel (change x) ≡ true)
      → any_row test xs ≡ true
      → any_row sel (update_where test change xs) ≡ true
  any_row-update_into sel test change [] f h = absurd (cc)
  any_row-update_into sel test change (x ∷ xs) f h = elim (Bool-cases (test x)) [
    | inl e ↦ let here = f x e in rw (e, here) refl
    | inr e ↦
        let rest = any_row-update_into sel test change xs f (rw e at h) in
        rw (e, rest) (ground arith)
  ]

  pub any_row-update_drop :
      (test : A → Bool) (change : A → A) (xs : List A)
      → ((x : A) → test (change x) ≡ false)
      → any_row test (update_where test change xs) ≡ false
  any_row-update_drop test change [] f = refl
  any_row-update_drop test change (x ∷ xs) f =
      let rest = any_row-update_drop test change xs f in
      elim (Bool-cases (test x)) [
        | inl e ↦ let here = f x in rw (e, here) rest
        | inr e ↦ rw (e, rest) (ground arith)
      ]

  pub any_row-append :
      (test : A → Bool) (xs ys : List A)
      → any_row test (xs ++ ys) ≡ (any_row test xs || any_row test ys)
  any_row-append test [] ys = refl
  any_row-append test (x ∷ xs) ys = ground (arith, any_row-append test xs ys)

  pub any_row-select_where :
      (p q : A → Bool) (xs : List A) → any_row p (select_where q xs) ≡ any_row (λ x. q x && p x) xs
  any_row-select_where p q [] = refl
  any_row-select_where p q (x ∷ xs) = ground (arith, any_row-select_where p q xs)

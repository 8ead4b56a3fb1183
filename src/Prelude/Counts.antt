-- ===== src/Prelude/Counts.antt =====
-- SELECT count(*) … WHERE: how an update of rows changes the number of rows that pass a test.
use Prim.Native.Nat.{ℕ, suc, ◌+◌, ◌≤◌}
use mathlib.Core.Path.{◌≡◌, refl, subst, ap}
use mathlib.Core.Logic.{◌≢◌, inl, inr}
use mathlib.Core.Bool.{Bool, true, false, ◌&&◌, ◌||◌}
use mathlib.Core.Option.{some, some-injective}
use mathlib.Core.List.{List, [], ◌∷◌, ◌++◌}
use native.Mathlib.Omega.{arith}
use erp_all.Prelude.Checks.{if◌then◌else◌, Bool-cases, ◌==◌, ==→eq}
use erp_all.Prelude.Lists.{All, length, select_where, update_where}
use erp_all.Prelude.Keys.{Distinct, find_key}

module _ {A : Type 0} where
  abbrev pub count_where : (A → Bool) → List A → ℕ
  count_where test xs = length (select_where test xs)

  pub count_where-append :
      (p : A → Bool) (xs ys : List A)
      → count_where p (xs ++ ys) ≡ count_where p xs + count_where p ys
  count_where-append p [] ys = omega arith
  count_where-append p (x ∷ xs) ys = ground (arith, count_where-append p xs ys)

  pub count_where-none :
      (p : A → Bool) (xs : List A) → All (λ x. p x ≡ false) xs → count_where p xs ≡ 0
  count_where-none p [] f = refl
  count_where-none p (x ∷ xs) f = rw f.0 (count_where-none p xs f.1)

  pub count_where-every :
      (p : A → Bool) (xs : List A) → All (λ x. p x ≡ true) xs → count_where p xs ≡ length xs
  count_where-every p [] f = refl
  count_where-every p (x ∷ xs) f = rw f.0 (ap suc (count_where-every p xs f.1))

  -- An update that does not change what the test says.
  pub count_where-update_where_same :
      (p test : A → Bool) (change : A → A) (xs : List A)
      → All (λ x. test x ≡ true → p (change x) ≡ p x) xs
      → count_where p (update_where test change xs) ≡ count_where p xs
  count_where-update_where_same p test change [] f = refl
  count_where-update_where_same p test change (x ∷ xs) f =
      let rest = count_where-update_where_same p test change xs f.1 in
      elim (Bool-cases (test x)) [
        | inl e ↦ let same = f.0 e in ground (arith, rest, e, same)
        | inr e ↦ ground (arith, rest, e)
      ]

  -- An update of rows that the test does not select, into ones that it selects if they pass another.
  pub count_where-update_where_add :
      (p q test : A → Bool) (change : A → A) (xs : List A)
      → All (λ x. test x ≡ true → (p x ≡ false) × (p (change x) ≡ q x)) xs
      → count_where p (update_where test change xs)
        ≡ count_where p xs + count_where (λ x. q x && test x) xs
  count_where-update_where_add p q test change [] f = refl
  count_where-update_where_add p q test change (x ∷ xs) f =
      let rest = count_where-update_where_add p q test change xs f.1 in
      elim (Bool-cases (test x)) [
        | inl e ↦ let (before, after) = f.0 e in ground (arith, rest, e, before, after)
        | inr e ↦ ground (arith, rest, e)
      ]

  pub count_where-disjoint :
      (p q r : A → Bool) (xs : List A)
      → ((x : A) → p x ≡ true → (q x ≡ false) × (r x ≡ true))
      → ((x : A) → q x ≡ true → r x ≡ true)
      → count_where p xs + count_where q xs ≤ count_where r xs
  count_where-disjoint p q r [] f g = omega arith
  count_where-disjoint p q r (x ∷ xs) f g =
      let rest = count_where-disjoint p q r xs f g in
      elim (Bool-cases (p x)) [
        | inl e ↦ let (no_q, has_r) = f x e in rw (e, no_q, has_r) (omega arith)
        | inr e ↦ elim (Bool-cases (q x)) [
          | inl d ↦ rw (e, d, g x d) (omega arith)
          | inr d ↦ elim (Bool-cases (r x)) [
            | inl c ↦ rw (e, d, c) (omega arith)
            | inr c ↦ rw (e, d, c) rest
          ]
        ]
      ]

module _ {A : Type 0} (key : A → ℕ) where
  count_where-absent :
      (p : A → Bool) (k : ℕ) (xs : List A)
      → All (λ y. k ≢ key y) xs
      → count_where (λ x. p x && (key x == k)) xs ≡ 0
  count_where-absent p k [] n = refl
  count_where-absent p k (x ∷ xs) n = ground (arith, count_where-absent p k xs n.1, n.0)

  -- The one row with a key counts once.
  pub count_where-key :
      (p : A → Bool) (k : ℕ) (xs : List A) (r : A)
      → Distinct key xs
      → find_key key k xs ≡ some r
      → count_where (λ x. p x && (key x == k)) xs ≡ (if p r then 1 else 0)
  count_where-key p k [] r d h = absurd (cc)
  count_where-key p k (x ∷ xs) r d h = elim (Bool-cases (key x == k)) [
    | inl e ↦
        let same : x ≡ r = some-injective _ _ (rw e at h) in
        let absent : All (λ y. k ≢ key y) xs =
          subst (λ j. All (λ y. j ≢ key y) xs) (==→eq _ _ e) d.0 in
        subst (λ z. count_where (λ y. p y && (key y == k)) (x ∷ xs) ≡ (if p z then 1 else 0)) same
          (elim (Bool-cases (p x)) [
            | inl t ↦ rw (t, e) (ap suc (count_where-absent p k xs absent))
            | inr t ↦ rw t (count_where-absent p k xs absent)
          ])
    | inr e ↦ elim (Bool-cases (p x)) [
      | inl t ↦ rw (t, e) (count_where-key p k xs r d.1 (rw e at h))
      | inr t ↦ rw t (count_where-key p k xs r d.1 (rw e at h))
    ]
  ]

module _ {A : Type 0} (p q r : A → Bool) where
  -- Two tests that are apart and count as much as a wider one leave nothing of it.
  pub count_where-exhaust :
      (xs : List A)
      → ((x : A) → p x ≡ true → (q x ≡ false) × (r x ≡ true))
      → ((x : A) → q x ≡ true → r x ≡ true)
      → count_where p xs + count_where q xs ≡ count_where r xs
      → All (λ x. r x ≡ true → (p x || q x) ≡ true) xs
  count_where-exhaust [] f g e = tt
  count_where-exhaust (x ∷ xs) f g e =
      let le = count_where-disjoint p q r xs f g in
      elim (Bool-cases (p x)) [
        | inl a ↦
            let (no_q, has_r) = f x a in
            (
              λ _. rw a refl,
              count_where-exhaust xs f g (let h = rw (a, no_q, has_r) at e in omega arith),
            )
        | inr a ↦ elim (Bool-cases (q x)) [
          | inl b ↦
              let has_r = g x b in
              (
                λ _. rw (a, b) refl,
                count_where-exhaust xs f g (let h = rw (a, b, has_r) at e in omega arith),
              )
          | inr b ↦ elim (Bool-cases (r x)) [
            | inl c ↦ absurd (let h = rw (a, b, c) at e in omega arith)
            | inr c ↦ (λ d. absurd (cc), count_where-exhaust xs f g (rw (a, b, c) at e))
          ]
        ]
      ]

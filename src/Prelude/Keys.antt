-- ===== src/Prelude/Keys.antt =====
-- Tables whose rows carry a number that is a key: look-up, update and delete by the key.
use Prim.Native.Nat.{ℕ, ◌<◌}
use mathlib.Core.Path.{◌≡◌, refl, sym, ap, ◌∙◌, subst}
use mathlib.Core.Logic.{◌≢◌, inl, inr}
use mathlib.Core.Bool.{Bool, true, false, ◌&&◌}
use mathlib.Core.Option.{Option, some, some-injective}
use mathlib.Core.List.{List, [], ◌∷◌, ◌++◌}
use native.Mathlib.Omega.{arith}
use erp_all.Prelude.Checks.{if◌then◌else◌, Bool-cases, if-elim, ◌==◌, ==→eq}
use erp_all.Prelude.Lists.{
  All, All-append, In, All-In, find_first, any_row, find_first-eq_some, update_where,
}

module _ {A K : Type 0} (key : A → K) where
  -- No two rows have one key.
  abbrev pub Distinct : List A → Type 0
  Distinct [] = Unit
  Distinct (x ∷ xs) = All (λ y. key x ≢ key y) xs × Distinct xs

  -- Two elements with one key are the same.
  pub Distinct-unique :
      (xs : List A) (a b : A) → Distinct xs → In a xs → In b xs → key a ≡ key b → a ≡ b
  Distinct-unique [] a b d i j e = absurd i
  Distinct-unique (x ∷ xs) a b d (inl p) (inl q) e = p ∙ sym q
  Distinct-unique (x ∷ xs) a b d (inl p) (inr j) e =
      absurd (All-In (λ y. key x ≢ key y) b xs d.0 j (ap key (sym p) ∙ e))
  Distinct-unique (x ∷ xs) a b d (inr i) (inl q) e =
      absurd (All-In (λ y. key x ≢ key y) a xs d.0 i (ap key (sym q) ∙ sym e))
  Distinct-unique (x ∷ xs) a b d (inr i) (inr j) e = Distinct-unique xs a b d.1 i j e

  pub Distinct-append_new :
      (xs : List A) (x : A) → Distinct xs → All (λ y. key y ≢ key x) xs → Distinct (xs ++ x ∷ [])
  Distinct-append_new [] x d f = (tt, tt)
  Distinct-append_new (y ∷ ys) x d f =
      (All-append (λ z. key y ≢ key z) ys (x ∷ []) d.0 (f.0, tt), Distinct-append_new ys x d.1 f.1)

  module _ (change : A → A) (keeps : (x : A) → key (change x) ≡ key x) where
    All-ne-update_where :
        (k : K) (test : A → Bool) (xs : List A)
        → All (λ y. k ≢ key y) xs
        → All (λ y. k ≢ key y) (update_where test change xs)
    All-ne-update_where k test [] n = tt
    All-ne-update_where k test (x ∷ xs) n = (
      if-elim (λ y. k ≢ key y) (test x) (change x) x (λ _ e. n.0 (e ∙ keeps x)) (λ _. n.0),
      All-ne-update_where k test xs n.1,
    )

    pub Distinct-update_where :
        (test : A → Bool) (xs : List A) → Distinct xs → Distinct (update_where test change xs)
    Distinct-update_where test [] d = tt
    Distinct-update_where test (x ∷ xs) d = (
      subst (λ j. All (λ y. j ≢ key y) (update_where test change xs)) (sym (key_if (test x)))
          (All-ne-update_where (key x) test xs d.0),
      Distinct-update_where test xs d.1,
    )
      where
        key_if : (b : Bool) → key (if b then change x else x) ≡ key x
        key_if true = keeps x
        key_if false = refl

module _ {A : Type 0} (key : A → ℕ) where
  abbrev pub find_key : ℕ → List A → Option A
  find_key k = find_first (λ x. key x == k)

  abbrev pub update_key : ℕ → (A → A) → List A → List A
  update_key k = update_where (λ x. key x == k)

  pub find_key-eq_some : (k : ℕ) (xs : List A) (a : A) → find_key k xs ≡ some a → key a ≡ k
  find_key-eq_some k [] a h = cc
  find_key-eq_some k (x ∷ xs) a h = ground (arith, find_key-eq_some k xs a)

  pub find_key-In : (k : ℕ) (xs : List A) (a : A) → find_key k xs ≡ some a → In a xs
  find_key-In k xs a h = (find_first-eq_some (λ x. key x == k) xs h).1

  pub find_key_unique :
      (xs : List A) (a : A) → Distinct key xs → In a xs → find_key (key a) xs ≡ some a
  find_key_unique [] a d i = absurd i
  find_key_unique (x ∷ xs) a d (inl e) = ground arith
  find_key_unique (x ∷ xs) a d (inr i) =
      ground (arith, All-In (λ y. key x ≢ key y) a xs d.0 i, find_key_unique xs a d.1 i)

  All-absent {κ} :
      (P : A → Type κ) (k : ℕ) (change : A → A) (xs : List A)
      → All (λ y. k ≢ key y) xs
      → All P xs
      → All P (update_key k change xs)
  All-absent P k change [] n p = tt
  All-absent P k change (x ∷ xs) n p = (
    if-elim P (key x == k) (change x) x (λ e. absurd (n.0 (sym (==→eq _ _ e)))) (λ _. p.0),
    All-absent P k change xs n.1 p.1,
  )

  -- An update by key changes the one row that the look-up finds.
  pub All-update_key {κ} :
      (P : A → Type κ) (k : ℕ) (change : A → A) (xs : List A) {r : A}
      → Distinct key xs
      → find_key k xs ≡ some r
      → P (change r)
      → All P xs
      → All P (update_key k change xs)
  All-update_key P k change [] d f c p = tt
  All-update_key P k change (x ∷ xs) d f c p = elim (Bool-cases (key x == k)) [
    | inl e ↦
        let same : x ≡ _ = some-injective _ _ (rw e at f) in
        let absent : All (λ y. k ≢ key y) xs =
          subst (λ j. All (λ y. j ≢ key y) xs) (==→eq _ _ e) d.0 in
        (rw e (subst (λ y. P (change y)) (sym same) c), All-absent P k change xs absent p.1)
    | inr e ↦ (rw e p.0, All-update_key P k change xs d.1 (rw e at f) c p.1)
  ]

  module _ (change : A → A) (keeps : (x : A) → key (change x) ≡ key x) where
    pub find_key-update_key_self :
        (k : ℕ) (xs : List A) (r : A)
        → find_key k xs ≡ some r
        → find_key k (update_key k change xs) ≡ some (change r)
    find_key-update_key_self k [] r h = cc
    find_key-update_key_self k (x ∷ xs) r h =
        ground (arith, keeps x, find_key-update_key_self k xs r)

    pub find_key-update_key_ne :
        (k j : ℕ) (xs : List A) → k ≢ j → find_key j (update_key k change xs) ≡ find_key j xs
    find_key-update_key_ne k j [] h = refl
    find_key-update_key_ne k j (x ∷ xs) h = ground (arith, keeps x, find_key-update_key_ne k j xs h)

  pub Distinct-append_fresh :
      (xs : List A) (x : A)
      → Distinct key xs
      → All (λ y. key y < key x) xs
      → Distinct key (xs ++ x ∷ [])
  Distinct-append_fresh [] x d f = (tt, tt)
  Distinct-append_fresh (y ∷ ys) x d f = (
    All-append (λ z. key y ≢ key z) ys (x ∷ []) d.0 (omega arith, tt),
    Distinct-append_fresh ys x d.1 f.1,
  )

  pub find_key-append_fresh :
      (k : ℕ) (xs : List A) (x : A)
      → All (λ y. key y < key x) xs
      → key x ≡ k
      → find_key k (xs ++ x ∷ []) ≡ some x
  find_key-append_fresh k [] x f e = ground arith
  find_key-append_fresh k (y ∷ ys) x f e = ground (arith, find_key-append_fresh k ys x f.1 e)

  any_row-absent :
      (test : A → Bool) (k : ℕ) (xs : List A)
      → All (λ y. k ≢ key y) xs
      → any_row (λ x. (key x == k) && test x) xs ≡ false
  any_row-absent test k [] n = refl
  any_row-absent test k (x ∷ xs) n = ground (arith, any_row-absent test k xs n.1, n.0)

  -- If the one row with the key fails a test, no row with the key passes it.
  pub any_row-key :
      (test : A → Bool) (k : ℕ) (xs : List A) (a : A)
      → Distinct key xs
      → find_key k xs ≡ some a
      → test a ≡ false
      → any_row (λ x. (key x == k) && test x) xs ≡ false
  any_row-key test k [] a d f t = refl
  any_row-key test k (x ∷ xs) a d f t = elim (Bool-cases (key x == k)) [
    | inl e ↦
        let same : x ≡ a = some-injective _ _ (rw e at f) in
        let none_left : All (λ y. k ≢ key y) xs =
          subst (λ j. All (λ y. j ≢ key y) xs) (==→eq _ _ e) d.0 in
        rw (e, same, t) (any_row-absent test k xs none_left)
    | inr e ↦ rw e (any_row-key test k xs a d.1 (rw e at f) t)
  ]

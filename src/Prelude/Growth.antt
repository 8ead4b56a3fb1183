-- ===== src/Prelude/Growth.antt =====
-- Tables that change row by row and grow at the end: every old row is still at its place, as a row that
-- it is related to.
use Prim.Native.Nat.{ℕ}
use mathlib.Core.Path.{◌≡◌, refl, sym, ◌∙◌, subst, ap}
use mathlib.Core.Logic.{◌≢◌, inl, inr}
use mathlib.Core.Bool.{Bool, true, false}
use mathlib.Core.Option.{some, some-injective}
use mathlib.Core.List.{List, [], ◌∷◌, ◌++◌}
use erp_all.Prelude.Checks.{Bool-cases, if-elim, ◌==◌, ==→eq}
use erp_all.Prelude.Lists.{All, All-append, In, update_where}
use erp_all.Prelude.Keys.{Distinct, find_key, find_key-In, find_key-eq_some, Distinct-unique}

module _ {A : Type 0} where
  abbrev pub Grows : (A → A → Type 0) → List A → List A → Type 0
  Grows R [] ys = Unit
  Grows R (x ∷ xs) [] = ⊥
  Grows R (x ∷ xs) (y ∷ ys) = R x y × Grows R xs ys

  pub Grows-refl : (R : A → A → Type 0) → ((x : A) → R x x) → (xs : List A) → Grows R xs xs
  Grows-refl R same [] = tt
  Grows-refl R same (x ∷ xs) = (same x, Grows-refl R same xs)

  pub Grows-trans :
      (R : A → A → Type 0)
      → ((x y z : A) → R x y → R y z → R x z)
      → (xs ys zs : List A) → Grows R xs ys
      → Grows R ys zs
      → Grows R xs zs
  Grows-trans R trans [] ys zs g h = tt
  Grows-trans R trans (x ∷ xs) [] zs g h = absurd g
  Grows-trans R trans (x ∷ xs) (y ∷ ys) [] g h = absurd h
  Grows-trans R trans (x ∷ xs) (y ∷ ys) (z ∷ zs) g h =
      (trans x y z g.0 h.0, Grows-trans R trans xs ys zs g.1 h.1)

  pub Grows-append :
      (R : A → A → Type 0) → ((x : A) → R x x) → (xs ys : List A) → Grows R xs (xs ++ ys)
  Grows-append R same [] ys = tt
  Grows-append R same (x ∷ xs) ys = (same x, Grows-append R same xs ys)

  pub Grows-update_where :
      (R : A → A → Type 0)
      → ((x : A) → R x x)
      → (test : A → Bool) (change : A → A) (xs : List A)
      → All (λ x. test x ≡ true → R x (change x)) xs
      → Grows R xs (update_where test change xs)
  Grows-update_where R same test change [] moves = tt
  Grows-update_where R same test change (x ∷ xs) moves = (
    if-elim (R x) (test x) (change x) x moves.0 (λ _. same x),
    Grows-update_where R same test change xs moves.1,
  )

  -- A property that the relation hands on, of every row that was there.
  pub All-always {κ} : (P : A → Type κ) → ((x : A) → P x) → (xs : List A) → All P xs
  All-always P f [] = tt
  All-always P f (x ∷ xs) = (f x, All-always P f xs)

  pub All-from_In {κ} : (P : A → Type κ) (xs : List A) → ((x : A) → In x xs → P x) → All P xs
  All-from_In P [] f = tt
  All-from_In P (x ∷ xs) f = (f x (inl refl), All-from_In P xs (λ y i. f y (inr i)))

module _ {A : Type 0} (key : A → ℕ) where
  pub Grows-find_key :
      (R : A → A → Type 0)
      → ((x y : A) → R x y → key y ≡ key x)
      → (k : ℕ) (xs ys : List A) (a : A) → Grows R xs ys
      → find_key key k xs ≡ some a
      → (b : A) × (find_key key k ys ≡ some b) × R a b
  Grows-find_key R keeps k [] ys a g h = absurd (cc)
  Grows-find_key R keeps k (x ∷ xs) [] a g h = absurd g
  Grows-find_key R keeps k (x ∷ xs) (y ∷ ys) a g h = elim (Bool-cases (key x == k)) [
    | inl e ↦
        let same : x ≡ a = some-injective _ _ (rw e at h) in
        (y, rw (ap (λ n. n == k) (keeps x y g.0), e) refl, subst (λ z. R z y) same g.0)
    | inr e ↦
        let (b, found, r) = Grows-find_key R keeps k xs ys a g.1 (rw e at h) in
        (b, rw (ap (λ n. n == k) (keeps x y g.0), e) found, r)
  ]

  -- What holds of the one row with a key.
  pub All-keyed {κ} :
      (P : A → Type κ) (k : ℕ) (xs : List A) (r : A)
      → Distinct key xs
      → find_key key k xs ≡ some r
      → P r
      → All (λ x. (key x == k) ≡ true → P x) xs
  All-keyed P k xs r d h p =
      All-from_In (λ x. (key x == k) ≡ true → P x) xs
        λ x i e.
          subst P
            (Distinct-unique key xs r x d (find_key-In key k xs r h) i
              (find_key-eq_some key k xs r h ∙ sym (==→eq _ _ e)))
            p

module _ {A : Type 0} where
  -- An update that may take rows from one property to another.
  pub All-update_where_imp {κ μ} :
      (P : A → Type κ) (Q : A → Type μ) (test : A → Bool) (change : A → A) (xs : List A)
      → ((x : A) → In x xs → test x ≡ true → P x → Q (change x))
      → ((x : A) → In x xs → test x ≡ false → P x → Q x)
      → All P xs
      → All Q (update_where test change xs)
  All-update_where_imp P Q test change [] f g p = tt
  All-update_where_imp P Q test change (x ∷ xs) f g p = (
    if-elim Q (test x) (change x) x (λ e. f x (inl refl) e p.0) (λ e. g x (inl refl) e p.0),
    All-update_where_imp P Q test change xs (λ y i. f y (inr i)) (λ y i. g y (inr i)) p.1,
  )

module _ {A K : Type 0} (key : A → K) where
  pub Distinct-append :
      (xs ys : List A)
      → Distinct key xs
      → Distinct key ys
      → All (λ x. All (λ y. key x ≢ key y) ys) xs
      → Distinct key (xs ++ ys)
  Distinct-append [] ys d e f = e
  Distinct-append (x ∷ xs) ys d e f =
      (All-append (λ y. key x ≢ key y) xs ys d.0 f.0, Distinct-append xs ys d.1 e f.1)

-- ===== src/Gtin/Sums.antt =====
-- The weighted sum and the check digit of backend/src/erp/listing/gtin.py, on lists of digits.
use native.Mathlib.Nat.{add-zero}
use mathlib.Core.List.{append_assoc}
use erp_all.Prelude.{
  ℕ, suc, ◌+◌, ◌-◌, ◌*◌, ◌%◌, ◌<◌, ◌≡◌, refl, sym, ap, ◌∙◌, ◌⊎◌, inl, inr, Bool, true, some, List,
  [], ◌∷◌, ◌++◌, arith, length, length-append, subst, ==→eq,
}
use erp_all.Gtin.{weight, weighted, pop, checks, checksum_popped}

weighted-append :
    (n i : ℕ) (xs ys : List ℕ)
    → weighted n i (xs ++ ys) ≡ weighted n i xs + weighted n (i + length xs) ys
unfolding weighted
weighted-append n i [] ys = rw add-zero (omega arith)
weighted-append n i (x ∷ xs) ys =
    let rest : weighted n (suc i) (xs ++ ys)
        ≡ weighted n (suc i) xs + weighted n (i + suc (length xs)) ys =
      subst (λ k. weighted n (suc i) (xs ++ ys) ≡ weighted n (suc i) xs + weighted n k ys)
        (omega arith) (weighted-append n (suc i) xs ys) in
    omega arith

weight-cases : (n i : ℕ) → (weight n i ≡ 1) ⊎ (weight n i ≡ 3)
unfolding weight
weight-cases n i = ground arith

-- The two factors of neighbours, in this or the other order.
weight-suc :
    (n i : ℕ)
    → suc i < n
    → ((weight n i ≡ 1) × (weight n (suc i) ≡ 3)) ⊎ ((weight n i ≡ 3) × (weight n (suc i) ≡ 1))
unfolding weight
weight-suc n i h = ground arith

-- The last place counts three times.
weight-last : (n : ℕ) → weight (suc n) n ≡ 3
unfolding weight
weight-last n = ground arith

pop-append : (xs : List ℕ) (y : ℕ) → pop (xs ++ y ∷ []) ≡ some (xs, y)
unfolding pop
pop-append [] y = refl
pop-append (x ∷ []) y = refl
pop-append (x ∷ z ∷ xs) y = rw (pop-append (z ∷ xs) y) refl

last-cases {ℓ} :
    {A : Type ℓ} (xs : List A) → (xs ≡ []) ⊎ ((ys : List A) × (y : A) × (xs ≡ ys ++ y ∷ []))
last-cases [] = inl refl
last-cases (x ∷ xs) = elim (last-cases xs) [
  | inl e ↦ inr ([], x, rw e refl)
  | inr (ys, y, e) ↦ inr (x ∷ ys, y, rw e refl)
]

-- Two sums that a check digit fits leave the same rest.
checks-same : (t u c : ℕ) → checks t c ≡ true → checks u c ≡ true → t % 10 ≡ u % 10
checks-same t u c h k =
    let e = ==→eq ((10 - t % 10) % 10) c h in let f = ==→eq ((10 - u % 10) % 10) c k in omega arith

-- The factors of two texts that differ at one place are the same, and the sums differ by that digit.
weighted-middle :
    (n : ℕ) (p s : List ℕ) (a : ℕ)
    → weighted n 0 (p ++ a ∷ s)
      ≡ weighted n 0 p + (a * weight n (length p) + weighted n (suc (length p)) s)
unfolding weighted
weighted-middle n p s a =
    subst (λ k. weighted n 0 (p ++ a ∷ s) ≡ weighted n 0 p + weighted n k (a ∷ s)) (omega arith)
      (weighted-append n 0 p (a ∷ s))

length-middle : (p s : List ℕ) (a b : ℕ) → length (p ++ a ∷ s) ≡ length (p ++ b ∷ s)
length-middle p s a b = rw (length-append p (a ∷ s), length-append p (b ∷ s)) refl

abbrev pub good : List ℕ → Bool
good ds = checksum_popped (pop ds)

good-append : (xs : List ℕ) (y : ℕ) → good (xs ++ y ∷ []) ≡ checks (weighted (length xs) 0 xs) y
unfolding checksum_popped
good-append xs y = rw (pop-append xs y) refl

good-at :
    (p s : List ℕ) (a y : ℕ)
    → good (p ++ a ∷ (s ++ y ∷ [])) ≡ true
    → checks (weighted (length (p ++ a ∷ s)) 0 (p ++ a ∷ s)) y ≡ true
good-at p s a y h =
    sym (good-append (p ++ a ∷ s) y)
    ∙ subst (λ t. good t ≡ true) (sym (append_assoc p (a ∷ s) (y ∷ []))) h

-- Factor one or three: a digit is told by its part of the sum, modulo ten.
digit-told :
    (w a b x y : ℕ)
    → (w ≡ 1) ⊎ (w ≡ 3)
    → a < 10
    → b < 10
    → (x + (a * w + y)) % 10 ≡ (x + (b * w + y)) % 10
    → a ≡ b
digit-told w a b x y (inl e) l m h =
    let k = subst (λ v. (x + (a * v + y)) % 10 ≡ (x + (b * v + y)) % 10) e h in omega arith
digit-told w a b x y (inr e) l m h =
    let k = subst (λ v. (x + (a * v + y)) % 10 ≡ (x + (b * v + y)) % 10) e h in omega arith

pub good-eq :
    (p s : List ℕ) (a b : ℕ)
    → a < 10
    → b < 10
    → good (p ++ a ∷ s) ≡ true
    → good (p ++ b ∷ s) ≡ true
    → a ≡ b
good-eq p s a b l m h k = elim (last-cases s) [
  | inl e ↦
      let fits = subst (λ t. good (p ++ a ∷ t) ≡ true) e h in
      let fits' = subst (λ t. good (p ++ b ∷ t) ≡ true) e k in
      let c = ==→eq _ _ (rw (good-append p a) at fits) in
      let d = ==→eq _ _ (rw (good-append p b) at fits') in sym c ∙ d
  | inr (ys, y, e) ↦
      let n = length (p ++ a ∷ ys) in
      let c : checks (weighted n 0 (p ++ a ∷ ys)) y ≡ true =
        good-at p ys a y (subst (λ t. good (p ++ a ∷ t) ≡ true) e h) in
      let d : checks (weighted n 0 (p ++ b ∷ ys)) y ≡ true =
        subst (λ v. checks (weighted v 0 (p ++ b ∷ ys)) y ≡ true) (length-middle p ys b a)
          (good-at p ys b y (subst (λ t. good (p ++ b ∷ t) ≡ true) e k)) in
      let same = checks-same _ _ y c d in
      digit-told (weight n (length p)) a b _ _ (weight-cases n (length p)) l m
        (rw (weighted-middle n p ys a, weighted-middle n p ys b) at same)
]

-- Factors one and three: two digits whose order does not change the sum modulo ten.
order-untold :
    (w v a b x y : ℕ)
    → ((w ≡ 1) × (v ≡ 3)) ⊎ ((w ≡ 3) × (v ≡ 1))
    → a < 10
    → b < 10
    → (x + (a * w + (b * v + y))) % 10 ≡ (x + (b * w + (a * v + y))) % 10
    → (a ≡ b) ⊎ ((a ≡ b + 5) ⊎ (b ≡ a + 5))
order-untold w v a b x y (inl (e, f)) l m h =
    let k : (x + (a * 1 + (b * 3 + y))) % 10 ≡ (x + (b * 1 + (a * 3 + y))) % 10 = rw (e, f) at h in
    ground arith
order-untold w v a b x y (inr (e, f)) l m h =
    let k : (x + (a * 3 + (b * 1 + y))) % 10 ≡ (x + (b * 3 + (a * 1 + y))) % 10 = rw (e, f) at h in
    ground arith

-- The last digit and the check digit, in either order.
last-untold :
    (x a b : ℕ)
    → a < 10
    → b < 10
    → checks (x + (a * 3 + 0)) b ≡ true
    → checks (x + (b * 3 + 0)) a ≡ true
    → (a ≡ b) ⊎ ((a ≡ b + 5) ⊎ (b ≡ a + 5))
last-untold x a b l m h k =
    let e = ==→eq ((10 - (x + (a * 3 + 0)) % 10) % 10) b h in
    let f = ==→eq ((10 - (x + (b * 3 + 0)) % 10) % 10) a k in ground arith

weighted-shift : (n i : ℕ) (ds : List ℕ) → weighted (suc n) (suc i) ds ≡ weighted n i ds
unfolding weighted weight
weighted-shift n i [] = refl
weighted-shift n i (d ∷ ds) =
    let rest = weighted-shift n (suc i) ds in
    let same : suc n - 1 - suc i ≡ n - 1 - i = omega arith in rw (same, rest) refl

weighted-padding : (n : ℕ) (ds : List ℕ) → weighted (suc n) 0 (0 ∷ ds) ≡ weighted n 0 ds
unfolding weighted
weighted-padding n ds = ground (arith, weighted-shift n 0 ds)

good-padding : (ds : List ℕ) (y : ℕ) → good (0 ∷ (ds ++ y ∷ [])) ≡ good (ds ++ y ∷ [])
good-padding ds y =
    good-append (0 ∷ ds) y
    ∙ ap (λ t. checks t y) (weighted-padding (length ds) ds)
    ∙ sym (good-append ds y)

pub good-padded : (d : ℕ) (ds : List ℕ) → good (0 ∷ d ∷ ds) ≡ good (d ∷ ds)
good-padded d ds = elim (last-cases (d ∷ ds)) [
  | inl e ↦ absurd (cc)
  | inr (ys, y, e) ↦ subst (λ t. good (0 ∷ t) ≡ good t) (sym e) (good-padding ys y)
]

length-order : (p s : List ℕ) (a b : ℕ) → length (p ++ a ∷ b ∷ s) ≡ length (p ++ b ∷ a ∷ s)
length-order p s a b = rw (length-append p (a ∷ b ∷ s), length-append p (b ∷ a ∷ s)) refl

length-place : (p s : List ℕ) (a b : ℕ) → suc (length p) < length (p ++ a ∷ b ∷ s)
length-place p s a b = rw (length-append p (a ∷ b ∷ s)) (omega arith)

last-total :
    (p : List ℕ) (a : ℕ)
    → weighted (length (p ++ a ∷ [])) 0 (p ++ a ∷ []) ≡ weighted (suc (length p)) 0 p + (a * 3 + 0)
unfolding weighted
last-total p a =
    let at_end : length (p ++ a ∷ []) ≡ suc (length p) =
      rw (length-append p (a ∷ [])) (omega arith) in
    rw (at_end, weighted-middle (suc (length p)) p [] a, weight-last (length p)) refl

pub good-order :
    (p s : List ℕ) (a b : ℕ)
    → a < 10
    → b < 10
    → good (p ++ a ∷ b ∷ s) ≡ true
    → good (p ++ b ∷ a ∷ s) ≡ true
    → (a ≡ b) ⊎ ((a ≡ b + 5) ⊎ (b ≡ a + 5))
unfolding weighted
good-order p s a b l m h k = elim (last-cases s) [
  | inl e ↦
      let c = good-at p [] a b (subst (λ t. good (p ++ a ∷ b ∷ t) ≡ true) e h) in
      let d = good-at p [] b a (subst (λ t. good (p ++ b ∷ a ∷ t) ≡ true) e k) in
      last-untold _ a b l m (rw (last-total p a) at c) (rw (last-total p b) at d)
  | inr (ys, y, e) ↦
      let n = length (p ++ a ∷ b ∷ ys) in
      let c : checks (weighted n 0 (p ++ a ∷ b ∷ ys)) y ≡ true =
        good-at p (b ∷ ys) a y (subst (λ t. good (p ++ a ∷ b ∷ t) ≡ true) e h) in
      let d : checks (weighted n 0 (p ++ b ∷ a ∷ ys)) y ≡ true =
        subst (λ v. checks (weighted v 0 (p ++ b ∷ a ∷ ys)) y ≡ true) (length-order p ys b a)
          (good-at p (a ∷ ys) b y (subst (λ t. good (p ++ b ∷ a ∷ t) ≡ true) e k)) in
      let same = checks-same _ _ y c d in
      order-untold (weight n (length p)) (weight n (suc (length p))) a b _ _
        (weight-suc n (length p) (length-place p ys a b)) l m
        (rw (weighted-middle n p (b ∷ ys) a, weighted-middle n p (a ∷ ys) b) at same)
]

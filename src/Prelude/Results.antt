-- ===== src/Prelude/Results.antt =====
-- A value or the error that was raised, and predicates of the value.
use mathlib.Core.Path.{◌≡◌, subst}

pub data Result (E A : Type 0) : Type 0 where
  ok : A → Result E A
  err : E → Result E A

module _ {E A : Type 0} where
  pub ok-injective : (a b : A) → ◌≡◌ {A = Result E A} (ok a) (ok b) → a ≡ b
  ok-injective a b e = cc

  -- The property holds of the value, if there is one.
  abbrev pub Holds {κ} : (A → Type κ) → Result E A → Type κ
  Holds P (ok a) = P a
  Holds P (err e) = Unit

  pub Holds-eq_ok {κ} : (P : A → Type κ) (r : Result E A) (a : A) → Holds P r → r ≡ ok a → P a
  Holds-eq_ok P (ok b) a h e = subst P (ok-injective b a e) h
  Holds-eq_ok P (err b) a h e = absurd (cc)

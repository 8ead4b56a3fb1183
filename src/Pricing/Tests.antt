-- ===== src/Pricing/Tests.antt =====
-- Concrete prices by backend/src/erp/pricing/engine.py, in cents and with multipliers in hundredths.
use erp_all.Prelude.{ℕ, ◌*◌, ◌/◌, ◌≡◌, refl, none, some, [], ◌∷◌, ltb, leb}
use erp_all.Pricing.{Floats, Band, malformed, three, Params, compute_price}

abbrev cents : Floats ℕ
cents = record {
  le = leb;
  lt = ltb;
  rounded_product = λ total mul. total * mul / 100;
  rounded = λ price. price;
}

abbrev first_band : Band ℕ
first_band = record { low = 0; high = 3000; multiplier = 275 }

abbrev second_band : Band ℕ
second_band = record { low = 3000; high = 9000; multiplier = 220 }

abbrev params : Params ℕ
params = record {
  bands = λ ftype. some (
      three (some 0) (some 3000) (some 275)
      ∷ malformed
      ∷ three (some 3000) (some 9000) (some 220)
      ∷ three (some 9000) none (some 200)
      ∷ []);
  min_price = some 699;
}

prices : (compute_price cents 3000 "FBA" params).price ≡ some 6600
unfolding compute_price
prices = refl

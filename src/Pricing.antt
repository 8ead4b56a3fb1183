-- ===== src/Pricing.antt =====
-- backend/src/erp/pricing/engine.py: the price of a product from its cost by a table of bands
-- (`compute_price`, `compute_price_clamped`) and the guard on a price set by hand. Amounts are an abstract type
-- with the operations that the code uses; the values of the strategy are those that `parse_money` and
-- `parse_multiplier` give.
pub mod Bands
mod Tests
use erp_all.Prelude.{
  ℕ, String, Bool, true, false, not, Option, none, some, List, [], ◌∷◌, ◌&&◌, if◌then◌else◌,
  find_first,
}

-- Floats: the two comparisons, and `round(total * multiplier, 2)`, `round(price, 2)`.
pub record Floats (Num : Type 0) : Type 0 where
  pub le : Num → Num → Bool
  pub lt : Num → Num → Bool
  pub rounded_product : Num → Num → Num
  pub rounded : Num → Num

pub record Band (Num : Type 0) : Type 0 where
  pub low : Num
  pub high : Num
  pub multiplier : Num

-- An entry of the table: not three values, or the three parsed.
pub data RawEntry (Num : Type 0) : Type 0 where
  malformed : RawEntry Num
  three : Option Num → Option Num → Option Num → RawEntry Num

pub record Params (Num : Type 0) : Type 0 where
  pub bands : String → Option (List (RawEntry Num))
  pub min_price : Option Num

pub data Reason : Type 0 where
  out_of_band below_min_price no_bands : Reason

pub data Clamp : Type 0 where
  low_clamp high_clamp : Clamp

-- Of the detail, what tells the branches apart: the inputs and the texts for people are left out.
pub record Detail (Num : Type 0) : Type 0 where
  pub band : Option (Band Num)
  pub min_price : Option Num
  pub is_out_of_band : Option Bool
  pub clamp : Option Clamp
  pub is_below_min_price : Option Bool

pub record PriceResult (Num : Type 0) : Type 0 where
  pub ok : Bool
  pub price : Option Num
  pub reason : Option Reason
  pub detail : Detail Num

module _ {Num : Type 0} (fl : Floats Num) where
  abbrev pub parsed : RawEntry Num → Option (Band Num)
  parsed (three (some l) (some h) (some m)) = some (record { low = l; high = h; multiplier = m })
  parsed _ = none

  abbrev pub keep_parsed : List (RawEntry Num) → List (Band Num)
  keep_parsed [] = []
  keep_parsed (e ∷ es) = elim (parsed e) [ none ↦ keep_parsed es | some b ↦ b ∷ keep_parsed es ]

  abbrev pub entries_or_none : Option (List (RawEntry Num)) → List (Band Num)
  entries_or_none none = []
  entries_or_none (some es) = keep_parsed es

  -- `_normalized_bands`
  abbrev pub normalized_bands : Params Num → String → List (Band Num)
  normalized_bands params ftype = entries_or_none (params.bands ftype)

  -- `low <= total < high`
  abbrev pub has_total : Num → Band Num → Bool
  has_total total b = fl.le b.low total && fl.lt total b.high

  abbrev pub price_in : Num → Band Num → Num
  price_in total b = fl.rounded_product total b.multiplier

  abbrev pub no_detail : Detail Num
  no_detail = record {
    band = none;
    min_price = none;
    is_out_of_band = none;
    clamp = none;
    is_below_min_price = none;
  }

  abbrev pub refused : Reason → Detail Num → PriceResult Num
  refused reason detail = record { ok = false; price = none; reason = some reason; detail = detail }

  abbrev pub offered : Num → Detail Num → PriceResult Num
  offered price detail = record { ok = true; price = some price; reason = none; detail = detail }

  -- The guard on the least price, where the strategy sets one.
  abbrev pub guarded : Num → Detail Num → Option Num → PriceResult Num
  guarded price detail none = offered price detail
  guarded price detail (some m) =
      if fl.lt price m
      then refused below_min_price (record detail { min_price = some m })
      else offered price (record detail { min_price = some m })

  abbrev pub price_found : Num → Option Num → Option (Band Num) → PriceResult Num
  price_found total min_price none = refused out_of_band no_detail
  price_found total min_price (some b) =
      guarded (price_in total b) (record no_detail { band = some b }) min_price

  abbrev pub price_by : Num → Option Num → List (Band Num) → PriceResult Num
  price_by total min_price [] = refused no_bands no_detail
  price_by total min_price (b ∷ bs) =
      price_found total min_price (find_first (has_total total) (b ∷ bs))

  -- `ftype` is the fulfilment after strip and upper.
  unfoldable pub compute_price : Num → String → Params Num → PriceResult Num
  compute_price total ftype params = price_by total params.min_price (normalized_bands params ftype)

  -- `sorted(bands, key=lambda b: b[0])`, which is stable.
  abbrev pub insert_band : Band Num → List (Band Num) → List (Band Num)
  insert_band b [] = b ∷ []
  insert_band b (c ∷ cs) =
      let rest = insert_band b cs in if fl.le b.low c.low then b ∷ c ∷ cs else c ∷ rest

  abbrev pub sorted_bands : List (Band Num) → List (Band Num)
  sorted_bands [] = []
  sorted_bands (b ∷ bs) = insert_band b (sorted_bands bs)

  abbrev pub last_band : Band Num → List (Band Num) → Band Num
  last_band b [] = b
  last_band b (c ∷ cs) = last_band c cs

  -- `_flag_below_min`
  abbrev pub flag_below_min : Num → Option Num → Detail Num → Detail Num
  flag_below_min price none detail = detail
  flag_below_min price (some m) detail = record detail {
    min_price = some m;
    is_below_min_price = some (fl.lt price m);
  }

  abbrev pub clamped_to : Num → Option Num → Band Num → Clamp → PriceResult Num
  clamped_to total min_price b clamp = offered (price_in total b) (
      flag_below_min (price_in total b) min_price
        (record no_detail { band = some b; is_out_of_band = some true; clamp = some clamp }))

  -- Below the first of the sorted bands, or else beyond; the list is not empty.
  abbrev pub clamp_sorted : Num → Option Num → List (Band Num) → PriceResult Num
  clamp_sorted total min_price [] = refused no_bands no_detail
  clamp_sorted total min_price (b ∷ bs) =
      if fl.lt total b.low
      then clamped_to total min_price b low_clamp
      else clamped_to total min_price (last_band b bs) high_clamp

  abbrev pub clamped_found :
      Num → Option Num → List (Band Num) → Option (Band Num) → PriceResult Num
  clamped_found total min_price bands none = clamp_sorted total min_price (sorted_bands bands)
  clamped_found total min_price bands (some b) = offered (price_in total b) (
      flag_below_min (price_in total b) min_price
        (record no_detail { band = some b; is_out_of_band = some false }))

  abbrev pub clamped_by : Num → Option Num → List (Band Num) → PriceResult Num
  clamped_by total min_price [] = refused no_bands no_detail
  clamped_by total min_price (b ∷ bs) =
      clamped_found total min_price (b ∷ bs) (find_first (has_total total) (b ∷ bs))

  unfoldable pub compute_price_clamped : Num → String → Params Num → PriceResult Num
  compute_price_clamped total ftype params =
      clamped_by total params.min_price (normalized_bands params ftype)

  unfoldable pub guard_manual_price : Num → Params Num → PriceResult Num
  guard_manual_price price params = guarded (fl.rounded price) no_detail params.min_price

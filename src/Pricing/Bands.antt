-- ===== src/Pricing/Bands.antt =====
-- When backend/src/erp/pricing/engine.py offers a price, and how its two functions differ.
use erp_all.Prelude.{
  ◌≡◌, ◌↔◌, refl, sym, ap, ◌∙◌, subst, String, false, Option, none, some, List, [], ◌∷◌,
  some-injective, Bool-cases, inl, inr, find_first,
}
use erp_all.Pricing.{
  Floats, Band, Params, Detail, normalized_bands, has_total, price_in, guarded, price_found,
  price_by, compute_price, insert_band, sorted_bands, last_band, clamp_sorted, clamped_found,
  clamped_by, compute_price_clamped,
}

module _ {Num : Type 0} (fl : Floats Num) where
  -- The least price, where there is one, is met.
  abbrev pub Meets : Num → Option Num → Type 0
  Meets price none = Unit
  Meets price (some m) = fl.lt price m ≡ false

  guarded-price :
      (price : Num) (detail : Detail Num) (min_price : Option Num) (p : Num)
      → (guarded fl price detail min_price).price ≡ some p
      → (p ≡ price) × Meets price min_price
  guarded-price price detail none p h = (sym (some-injective _ _ h), tt)
  guarded-price price detail (some m) p h = elim (Bool-cases (fl.lt price m)) [
    | inl e ↦ absurd (cc (rw e at h))
    | inr e ↦ (sym (some-injective _ _ (rw e at h)), e)
  ]

  guarded-Meets :
      (price : Num) (detail : Detail Num) (min_price : Option Num)
      → Meets price min_price
      → (guarded fl price detail min_price).price ≡ some price
  guarded-Meets price detail none m = refl
  guarded-Meets price detail (some x) m = rw m refl

  -- The first band that has the total.
  abbrev pub Chosen : Num → List (Band Num) → Band Num → Type 0
  Chosen total bands b = find_first (has_total fl total) bands ≡ some b

  price_found_iff :
      (total : Num) (min_price : Option Num) (o : Option (Band Num)) (p : Num)
      → ((price_found fl total min_price o).price ≡ some p) ↔ (
          (b : Band Num) × (o ≡ some b)
          × (p ≡ price_in fl total b)
          × Meets (price_in fl total b) min_price)
  price_found_iff total min_price none p = (λ h. absurd (cc), λ (b, e, q, m). absurd (cc))
  price_found_iff total min_price (some b) p = (
    λ h. let (q, m) = guarded-price (price_in fl total b) _ min_price p h in (b, refl, q, m),
    λ (c, e, q, m).
        let same : b ≡ c = some-injective _ _ e in
        guarded-Meets (price_in fl total b) _ min_price
          (subst (λ x. Meets (price_in fl total x) min_price) (sym same) m)
        ∙ ap some (ap (price_in fl total) same ∙ sym q),
  )

  price_by_iff :
      (total : Num) (min_price : Option Num) (bands : List (Band Num)) (p : Num)
      → ((price_by fl total min_price bands).price ≡ some p) ↔ (
          (b : Band Num) × Chosen total bands b
          × (p ≡ price_in fl total b)
          × Meets (price_in fl total b) min_price)
  price_by_iff total min_price [] p = (λ h. absurd (cc), λ (b, e, q, m). absurd (cc))
  price_by_iff total min_price (b ∷ bs) p =
      price_found_iff total min_price (find_first (has_total fl total) (b ∷ bs)) p

  pub compute_price_iff :
      (total : Num) (ftype : String) (params : Params Num) (p : Num)
      → ((compute_price fl total ftype params).price ≡ some p) ↔ (
          (b : Band Num) × Chosen total (normalized_bands fl params ftype) b
          × (p ≡ price_in fl total b)
          × Meets (price_in fl total b) params.min_price)
  unfolding compute_price
  compute_price_iff total ftype params p =
      price_by_iff total params.min_price (normalized_bands fl params ftype) p

  clamped_by-Chosen :
      (total : Num) (min_price : Option Num) (bands : List (Band Num)) (b : Band Num)
      → Chosen total bands b
      → ((clamped_by fl total min_price bands).price ≡ some (price_in fl total b))
        × ((clamped_by fl total min_price bands).detail.is_out_of_band ≡ some false)
  clamped_by-Chosen total min_price [] b h = absurd (cc)
  clamped_by-Chosen total none (c ∷ cs) b h = rw h (refl, refl)
  clamped_by-Chosen total (some m) (c ∷ cs) b h = rw h (refl, refl)

  -- The display's price is the listing's wherever that exists, and says that it is inside the bands.
  pub compute_price_clamped_agrees :
      (total : Num) (ftype : String) (params : Params Num) (p : Num)
      → (compute_price fl total ftype params).price ≡ some p
      → ((compute_price_clamped fl total ftype params).price ≡ some p)
        × ((compute_price_clamped fl total ftype params).detail.is_out_of_band ≡ some false)
  unfolding compute_price_clamped
  compute_price_clamped_agrees total ftype params p h =
      let (b, chosen, same, _) = (compute_price_iff total ftype params p).0 h in
      let (price, inside) =
        clamped_by-Chosen total params.min_price (normalized_bands fl params ftype) b chosen in
      (price ∙ ap some (sym same), inside)

  -- The lists that sorting gives are not empty.
  abbrev Full : List (Band Num) → Type 0
  Full bs = (b : Band Num) × (cs : List (Band Num)) × (bs ≡ b ∷ cs)

  insert_band-Full : (b : Band Num) (bs : List (Band Num)) → Full (insert_band fl b bs)
  insert_band-Full b [] = (b, [], refl)
  insert_band-Full b (c ∷ cs) = elim (Bool-cases (fl.le b.low c.low)) [
    | inl e ↦ rw e (b, c ∷ cs, refl)
    | inr e ↦ rw e (c, insert_band fl b cs, refl)
  ]

  clamp_sorted-price :
      (total : Num) (min_price : Option Num) (bs : List (Band Num))
      → Full bs
      → (p : Num) × ((clamp_sorted fl total min_price bs).price ≡ some p)
  clamp_sorted-price total min_price [] (b, cs, e) = absurd (cc)
  clamp_sorted-price total min_price (b ∷ bs) f = elim (Bool-cases (fl.lt total b.low)) [
    | inl e ↦ rw e (price_in fl total b, refl)
    | inr e ↦ rw e (price_in fl total (last_band fl b bs), refl)
  ]

  clamped_found-price :
      (total : Num) (min_price : Option Num) (b : Band Num) (bs : List (Band Num))
      (o : Option (Band Num))
      → (p : Num) × ((clamped_found fl total min_price (b ∷ bs) o).price ≡ some p)
  clamped_found-price total min_price b bs none =
      clamp_sorted-price total min_price (sorted_bands fl (b ∷ bs))
        (insert_band-Full b (sorted_bands fl bs))
  clamped_found-price total min_price b bs (some c) = (price_in fl total c, refl)

  -- The display always has a price where the fulfilment has any band, however far the total is outside.
  pub compute_price_clamped_total :
      (total : Num) (ftype : String) (params : Params Num) (b : Band Num) (bs : List (Band Num))
      → normalized_bands fl params ftype ≡ b ∷ bs
      → (p : Num) × ((compute_price_clamped fl total ftype params).price ≡ some p)
  unfolding compute_price_clamped
  compute_price_clamped_total total ftype params b bs h =
      rw (h, compute_price_clamped)
        (clamped_found-price total params.min_price b bs (find_first (has_total fl total) (b ∷ bs)))

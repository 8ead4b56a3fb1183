-- ===== src/ScrapeQueue/Products.antt =====
-- backend/src/erp/scrape/service.py: `product_upsert`, behind the check of the tombstones. The hook that
-- groups variants works on other tables in a savepoint of its own and is left out.
use erp_all.Prelude.{
  ℕ, suc, String, Bool, true, false, Option, none, some, List, [], ◌∷◌, ◌++◌, ◌&&◌, ◌==◌, str_eq,
  if◌then◌else◌, update_where, find_first, Result, ok, err,
}
use erp_all.Prelude.Text.{text_eq}
use erp_all.Gtin.{Text}
use erp_all.Gtin.Pool.{strip}
use erp_all.Outbox.Payload.{Json, null, bool, num, str, arr, obj, nil, end}
use erp_all.ScrapeQueue.{Db, Product, Error, payload_invalid, is_deleted}

abbrev pub Payload : Type 0
Payload = List (String × Json)

abbrev not_null : Json → Option Json
not_null null = none
not_null v = some v

-- `payload.get(k)`; `null` and an absent key are both `None`.
unfoldable pub get : String → Payload → Option Json
get k [] = none
get k ((name, v) ∷ rest) = let later = get k rest in if str_eq name k then not_null v else later

-- `payload.get(k) or default`, for a default that is empty; `is_zero` says which numbers are 0.
unfoldable pub is_true : (String → Bool) → Json → Bool
is_true is_zero null = false
is_true is_zero (bool b) = b
is_true is_zero (num n) = if is_zero n then false else true
is_true is_zero (str s) = if str_eq s "" then false else true
is_true is_zero (arr nil) = false
is_true is_zero (arr _) = true
is_true is_zero (obj end) = false
is_true is_zero (obj _) = true

unfoldable pub get_or : (String → Bool) → Option Json → Json → Json
unfolding is_true
get_or is_zero none default = default
get_or is_zero (some v) default = if is_true is_zero v then v else default

pub data Upsert : Type 0 where
  skipped : Text → Upsert
  stored : ℕ → Upsert

abbrev pub same_product : ℕ → String → Text → Product → Bool
same_product team source ref p =
    (p.team_id == team) && str_eq p.source_channel source && text_eq p.source_ref ref

module _ (is_zero : String → Bool) (text_of : Json → Text) where
  -- `str(payload.get("title") or "").strip()`
  unfoldable pub title_of : Payload → Text
  unfolding get get_or strip
  title_of payload = strip (text_of (get_or is_zero (get "title" payload) (str "")))

  unfoldable pub new_product : ℕ → ℕ → String → Text → Payload → Product
  unfolding get get_or title_of
  new_product id team source ref payload = record {
    id = id;
    team_id = team;
    source_channel = source;
    source_ref = ref;
    title = title_of payload;
    brand = get "brand" payload;
    category_path = get "category_path" payload;
    amazon_leaf_id = get "amazon_leaf_id" payload;
    images = get_or is_zero (get "images" payload) (arr nil);
    attrs = get_or is_zero (get "attrs" payload) (obj end);
    price_snapshot = get "price_snapshot" payload;
  }

  -- `ON CONFLICT … DO UPDATE`: the title, the price and the attributes of the new row.
  unfoldable pub refreshed : Payload → Product → Product
  unfolding get get_or title_of
  refreshed payload p = record p {
    title = title_of payload;
    price_snapshot = get "price_snapshot" payload;
    attrs = get_or is_zero (get "attrs" payload) (obj end);
  }

  unfoldable pub store_product : Db → ℕ → String → Text → Payload → Option Product → Db × Upsert
  unfolding new_product refreshed
  store_product db team source ref payload none = (
    record db {
      products = db.products ++ (new_product db.next_product team source ref payload ∷ []);
      next_product = suc db.next_product;
    },
    stored db.next_product,
  )
  store_product db team source ref payload (some p) = (
    record db {
      products = update_where (same_product team source ref) (refreshed payload) db.products;
    },
    stored p.id,
  )

  unfoldable pub upsert_titled :
      Db → ℕ → String → Text → Payload → Text → Result Error (Db × Upsert)
  unfolding store_product is_deleted
  upsert_titled db team source ref payload [] = err payload_invalid
  upsert_titled db team source ref payload (c ∷ cs) =
      if is_deleted db team source ref
      then ok (db, skipped ref)
      else ok (
          store_product db team source ref payload
            (find_first (same_product team source ref) db.products))

  unfoldable pub product_upsert : Db → ℕ → String → Text → Payload → Result Error (Db × Upsert)
  unfolding upsert_titled title_of
  product_upsert db team source ref payload =
      upsert_titled db team source ref payload (title_of payload)

-- ===== src/ProductDelete/Tests.antt =====
-- Concrete deletes by backend/src/erp/catalog/delete.py.
use erp_all.Prelude.{◌≡◌, ◌≢◌, refl, true, false, none, some, [], ◌∷◌, ok, err, find_key, any_row}
use erp_all.Prelude.Text.{codes, text_eq_iff}
use erp_all.Gtin.Pool as Pool
use erp_all.Gtin.Pool.{Row, row_id}
use erp_all.ProductDelete.{
  ListingStatus, Product, Db, product_delete_listing_active, product_key, listings_of, has_some,
  is_tombstone_of, cleaned, receipt, delete_found, delete_product,
}
use erp_all.ProductDelete.Guards.{CanDelete, delete_product_total}
use erp_all.ProductDelete.Effect.{IsGone, delete_product-IsGone}

abbrev number : Row
number = record {
  id = 1;
  team_id = 7;
  gtin = codes "036000291452";
  gtin_kind = "upc_a";
  status = Pool.held;
  source = "purchased";
  held_listing_id = some 40;
  used_listing_id = none;
}

abbrev bound : Row
bound = record number {
  id = 2;
  gtin = codes "050000000005";
  status = Pool.used;
  held_listing_id = some 41;
  used_listing_id = some 41;
}

abbrev pool : Pool.Db
pool = record {
  rows = number ∷ bound ∷ [];
  next_id = 3;
  team_prefixes = λ _. none;
  system_prefixes = none;
  team_kinds = λ _. none;
  system_kinds = none;
}

other_number : number.gtin ≢ bound.gtin
other_number e = let no : false ≡ true = (text_eq_iff number.gtin bound.gtin).1 e in absurd (cc)

abbrev cup : Product
cup = record {
  id = 3;
  team_id = 7;
  source_channel = "amazon";
  source_ref = "B0";
  master_sku = "S3";
}

abbrev start : Db
start = record {
  products = cup ∷ [];
  listings =
      record { id = 40; product_id = 3; status = ListingStatus.failed }
      ∷ record { id = 41; product_id = 3; status = ListingStatus.delisted }
      ∷ [];
  tasks = [];
  specs = [];
  members = 3 ∷ [];
  tombstones = [];
  log = [];
  pool = pool;
}

start-CanDelete : CanDelete start cup
start-CanDelete = record { deletable = (refl, (refl, tt)); idle = tt }

start_deleted : delete_product start 9 3 "junk" ≡ ok (cleaned start cup "junk" 9, receipt start cup)
start_deleted = delete_product_total start 9 3 "junk" cup refl start-CanDelete

delete_product-IsGone_example :
    IsGone start 3 (cleaned start cup "junk" 9)
    × ((p : Product) × (find_key product_key 3 start.products ≡ some p)
        × (has_some (listings_of start 3) ≡ true
            → any_row (is_tombstone_of p) (cleaned start cup "junk" 9).tombstones ≡ true))
delete_product-IsGone_example =
    delete_product-IsGone start 9 3 "junk" (cleaned start cup "junk" 9, receipt start cup)
      start_deleted

-- A live listing stands in the way.
refused :
    delete_product
      (record start {
        listings = record { id = 40; product_id = 3; status = ListingStatus.live } ∷ [];
      })
      9
      3
      "junk"
    ≡ err product_delete_listing_active
unfolding delete_product delete_found
refused = refl

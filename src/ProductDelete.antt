-- ===== src/ProductDelete.antt =====
-- backend/src/erp/catalog/delete.py: `delete_product`, the hard delete of a product with its guards, over the
-- tables it cleans and the pool of article numbers.
pub mod Guards
pub mod Effect
mod Tests
use erp_all.Prelude.{
  ℕ, ◌+◌, String, Bool, true, false, not, Option, none, some, List, [], ◌∷◌, ◌++◌, ◌&&◌, ◌==◌,
  str_eq, if◌then◌else◌, length, map, find_key, any_row, select_where, update_where, delete_where,
  Result, ok, err,
}
use erp_all.Gtin.Pool as Pool
use erp_all.Gtin.Occupation.{holds_for, release}

-- `ck_listing_status`; `unknown` stands for a status that the schema may add.
pub data ListingStatus : Type 0 where
  draft queued submitted processing published live degraded : ListingStatus
  delist_pending delisted failed retired unknown : ListingStatus

pub record Listing : Type 0 where
  pub id : ℕ
  pub product_id : ℕ
  pub status : ListingStatus

pub data TaskStatus : Type 0 where
  scheduled running skipped done : TaskStatus

pub record Task : Type 0 where
  pub id : ℕ
  pub listing_id : ℕ
  pub status : TaskStatus

pub record Product : Type 0 where
  pub id : ℕ
  pub team_id : ℕ
  pub source_channel : String
  pub source_ref : String
  pub master_sku : String

pub record Tombstone : Type 0 where
  pub team_id : ℕ
  pub source_channel : String
  pub source_ref : String
  pub product_id : ℕ
  pub master_sku : String
  pub reason : String
  pub deleted_by : ℕ

-- The entry of the audit log.
pub record Entry : Type 0 where
  pub product : Product
  pub listings : List Listing
  pub reason : String
  pub tombstoned : Bool

pub record Db : Type 0 where
  pub products : List Product
  pub listings : List Listing
  pub tasks : List Task
  pub specs : List ℕ
  pub members : List ℕ
  pub tombstones : List Tombstone
  pub log : List Entry
  pub pool : Pool.Db

pub data Error : Type 0 where
  product_not_found product_delete_listing_active : Error
  product_delete_listing_unclassified product_delete_task_running : Error

pub record Receipt : Type 0 where
  pub product_id : ℕ
  pub tombstoned : Bool
  pub listings_deleted : ℕ
  pub gtins_released : ℕ
  pub maintenance_tasks_skipped : ℕ

-- `_CHANNEL_ALIVE`
abbrev pub is_alive : ListingStatus → Bool
is_alive queued = true
is_alive submitted = true
is_alive processing = true
is_alive published = true
is_alive live = true
is_alive degraded = true
is_alive delist_pending = true
is_alive _ = false

-- `_DELETABLE`
abbrev pub is_deletable : ListingStatus → Bool
is_deletable draft = true
is_deletable delisted = true
is_deletable failed = true
is_deletable retired = true
is_deletable _ = false

abbrev pub product_key : Product → ℕ
product_key p = p.id

abbrev pub is_listing_of : ℕ → Listing → Bool
is_listing_of product l = l.product_id == product

abbrev pub listings_of : Db → ℕ → List Listing
listings_of db product = select_where (is_listing_of product) db.listings

abbrev pub listing_ids : List Listing → List ℕ
listing_ids ls = map (λ (l : Listing). l.id) ls

-- `listing_id = ANY(:ids)`
abbrev pub is_task_of : List ℕ → Task → Bool
is_task_of ids t = any_row (λ i. i == t.listing_id) ids

abbrev pub is_running : TaskStatus → Bool
is_running running = true
is_running _ = false

abbrev pub is_scheduled : TaskStatus → Bool
is_scheduled scheduled = true
is_scheduled _ = false

-- `_held_count`
abbrev pub held_count : ℕ → List Pool.Row → ℕ
held_count listing rows = length (select_where (holds_for listing) rows)

-- The loop over the listings.
unfoldable pub release_all : List ℕ → Pool.Db → ℕ → Pool.Db × ℕ
release_all [] pool n = (pool, n)
release_all (l ∷ ls) pool n = release_all ls (release pool l) (n + held_count l pool.rows)

abbrev pub skip_test : List ℕ → Task → Bool
skip_test ids t = is_task_of ids t && is_scheduled t.status

abbrev pub skipped_task : Task → Task
skipped_task t = record t { status = skipped }

abbrev pub has_some : List Listing → Bool
has_some [] = false
has_some (l ∷ ls) = true

-- ON CONFLICT (team_id, source_channel, source_ref)
abbrev pub is_tombstone_of : Product → Tombstone → Bool
is_tombstone_of p t =
    (t.team_id == p.team_id)
    && (str_eq t.source_channel p.source_channel && str_eq t.source_ref p.source_ref)

abbrev pub new_tombstone : Product → String → ℕ → Tombstone
new_tombstone p reason user = record {
  team_id = p.team_id;
  source_channel = p.source_channel;
  source_ref = p.source_ref;
  product_id = p.id;
  master_sku = p.master_sku;
  reason = reason;
  deleted_by = user;
}

unfoldable pub put_tombstone : Bool → Product → String → ℕ → List Tombstone → List Tombstone
put_tombstone false p reason user stones = stones
put_tombstone true p reason user stones =
    if any_row (is_tombstone_of p) stones
    then stones
    else stones ++ (new_tombstone p reason user ∷ [])

-- All after the guards. With no listing the loop and the updates by their ids change nothing, as in the
-- code, which skips them.
unfoldable pub cleaned : Db → Product → String → ℕ → Db
unfolding release_all put_tombstone
cleaned db p reason user =
    let ls = listings_of db p.id in
    let ids = listing_ids ls in
    record db {
      products = delete_where (λ (q : Product). q.id == p.id) db.products;
      listings = delete_where (is_listing_of p.id) db.listings;
      tasks = update_where (skip_test ids) skipped_task db.tasks;
      specs = if has_some ls then delete_where (λ i. i == p.id) db.specs else db.specs;
      members = delete_where (λ i. i == p.id) db.members;
      tombstones = put_tombstone (has_some ls) p reason user db.tombstones;
      log =
          db.log
          ++ (record { product = p; listings = ls; reason = reason; tombstoned = has_some ls }
              ∷ []);
      pool = (release_all ids db.pool 0).0;
    }

unfoldable pub receipt : Db → Product → Receipt
unfolding release_all
receipt db p =
    let ls = listings_of db p.id in
    let ids = listing_ids ls in
    record {
      product_id = p.id;
      tombstoned = has_some ls;
      listings_deleted = length ls;
      gtins_released = (release_all ids db.pool 0).1;
      maintenance_tasks_skipped = length (select_where (skip_test ids) db.tasks);
    }

-- The guards, in their order.
unfoldable pub delete_found : Db → ℕ → String → Option Product → Result Error (Db × Receipt)
delete_found db user reason none = err product_not_found
delete_found db user reason (some p) =
    let ls = listings_of db p.id in
    if any_row (λ (l : Listing). is_alive l.status) ls
    then err product_delete_listing_active
    else if any_row (λ (l : Listing). not (is_deletable l.status)) ls
    then err product_delete_listing_unclassified
    else if any_row (λ (t : Task). is_task_of (listing_ids ls) t && is_running t.status) db.tasks
    then err product_delete_task_running
    else ok (cleaned db p reason user, receipt db p)

-- A raised error rolls the request's transaction back.
unfoldable pub delete_product : Db → ℕ → ℕ → String → Result Error (Db × Receipt)
delete_product db user product reason =
    delete_found db user reason (find_key product_key product db.products)

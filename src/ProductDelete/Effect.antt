-- ===== src/ProductDelete/Effect.antt =====
-- What a delete of a product by backend/src/erp/catalog/delete.py leaves.
use erp_all.Prelude.{
  ℕ, ◌≡◌, refl, subst, String, Bool, true, false, not, some, List, [], ◌∷◌, arith, ◌==◌, ==-refl,
  str_eq-refl, Bool-cases, inl, inr, All, any_row, any_row-delete_where, any_row-append_last,
  find_key-eq_some, select_where, select_where-delete_where, update_where, find_key, ok,
}
use erp_all.Gtin.Pool as Pool
use erp_all.Gtin.Pool.{Row, row_id}
use erp_all.Gtin.Occupation.{holds_for, release, free_row, Op, give_back, run, step}
use erp_all.Gtin.Moves.{IsPool}
use erp_all.Gtin.Exclusive.{used_for_ever}
use erp_all.ProductDelete.{
  Product, Tombstone, Db, Receipt, product_key, is_listing_of, listings_of, listing_ids,
  release_all, has_some, is_tombstone_of, new_tombstone, put_tombstone, cleaned, delete_product,
}
use erp_all.ProductDelete.Guards.{delete_product-eq_ok}

-- No number is held for the listing.
abbrev pub NoneHeld : List Row → ℕ → Type 0
NoneHeld rows l = any_row (holds_for l) rows ≡ false

free_row-holds_for : (k : ℕ) (r : Row) → holds_for k (free_row r) ≡ false
unfolding free_row
free_row-holds_for k r = refl

update-NoneHeld_own :
    (l : ℕ) (rows : List Row) → NoneHeld (update_where (holds_for l) free_row rows) l
update-NoneHeld_own l [] = refl
update-NoneHeld_own l (r ∷ rows) = elim (Bool-cases (holds_for l r)) [
  | inl e ↦ rw (e, free_row-holds_for l r) (update-NoneHeld_own l rows)
  | inr e ↦ rw e (rw e (update-NoneHeld_own l rows))
]

update-NoneHeld :
    (l k : ℕ) (rows : List Row)
    → NoneHeld rows k
    → NoneHeld (update_where (holds_for l) free_row rows) k
update-NoneHeld l k [] n = refl
update-NoneHeld l k (r ∷ rows) n =
    let rest = update-NoneHeld l k rows (ground arith) in
    let here : holds_for k r ≡ false = ground arith in
    elim (Bool-cases (holds_for l r)) [
      | inl e ↦ rw (e, free_row-holds_for k r) rest
      | inr e ↦ rw e (rw here rest)
    ]

release_all-NoneHeld :
    (ids : List ℕ) (pool : Pool.Db) (n k : ℕ)
    → NoneHeld pool.rows k
    → NoneHeld (release_all ids pool n).0.rows k
unfolding release_all release
release_all-NoneHeld [] pool n k h = h
release_all-NoneHeld (l ∷ ids) pool n k h =
    release_all-NoneHeld ids (release pool l) _ k (update-NoneHeld l k pool.rows h)

release_all-All :
    (ids : List ℕ) (pool : Pool.Db) (n : ℕ) → All (NoneHeld (release_all ids pool n).0.rows) ids
unfolding release_all release
release_all-All [] pool n = tt
release_all-All (l ∷ ids) pool n = (
  release_all-NoneHeld ids (release pool l) _ l (update-NoneHeld_own l pool.rows),
  release_all-All ids (release pool l) _,
)

-- The loop over the listings is a run of the pool's own operation.
releases : List ℕ → List Op
releases [] = []
releases (l ∷ ids) = give_back l ∷ releases ids

release_all-run :
    (ids : List ℕ) (pool : Pool.Db) (n : ℕ) → (release_all ids pool n).0 ≡ run (releases ids) pool
unfolding release_all run step releases
release_all-run [] pool n = refl
release_all-run (l ∷ ids) pool n = release_all-run ids (release pool l) _

put_tombstone-any_row :
    (p : Product) (reason : String) (user : ℕ) (stones : List Tombstone)
    → any_row (is_tombstone_of p) (put_tombstone true p reason user stones) ≡ true
unfolding put_tombstone
put_tombstone-any_row p reason user stones =
    elim (Bool-cases (any_row (is_tombstone_of p) stones)) [
      | inl e ↦ rw e e
      | inr e ↦
          let own : is_tombstone_of p (new_tombstone p reason user) ≡ true =
            rw (==-refl p.team_id, str_eq-refl p.source_channel, str_eq-refl p.source_ref) refl in
          rw e (any_row-append_last (is_tombstone_of p) stones (new_tombstone p reason user) own)
    ]

-- The product, its listings and its memberships are gone, other products and listings are as they were,
-- no number is held for a listing that is gone, and the tombstones fit.
pub record IsGone (db : Db) (product : ℕ) (after : Db) : Type 0 where
  pub no_product : any_row (λ p. product_key p == product) after.products ≡ false
  pub no_listing : any_row (is_listing_of product) after.listings ≡ false
  pub no_member : any_row (λ i. i == product) after.members ≡ false
  pub other_products :
      select_where (λ p. not (product_key p == product)) after.products
      ≡ select_where (λ p. not (product_key p == product)) db.products
  pub other_listings :
      select_where (λ l. not (is_listing_of product l)) after.listings
      ≡ select_where (λ l. not (is_listing_of product l)) db.listings
  pub none_held : All (NoneHeld after.pool.rows) (listing_ids (listings_of db product))
  pub no_new_tombstone :
      has_some (listings_of db product) ≡ false → after.tombstones ≡ db.tombstones

not-eq_true : (b : Bool) → not b ≡ true → b ≡ false
not-eq_true false h = refl
not-eq_true true h = absurd (cc)

cleaned-IsGone :
    (db : Db) (p : Product) (reason : String) (user : ℕ) → IsGone db p.id (cleaned db p reason user)
unfolding cleaned put_tombstone
cleaned-IsGone db p reason user = record {
  no_product = any_row-delete_where (λ q. product_key q == p.id) db.products;
  no_listing = any_row-delete_where (is_listing_of p.id) db.listings;
  no_member = any_row-delete_where (λ i. i == p.id) db.members;
  other_products =
      select_where-delete_where (λ q. not (product_key q == p.id)) (λ q. product_key q == p.id)
        db.products (λ q. not-eq_true (product_key q == p.id));
  other_listings =
      select_where-delete_where (λ l. not (is_listing_of p.id l)) (is_listing_of p.id) db.listings
        (λ l. not-eq_true (is_listing_of p.id l));
  none_held = release_all-All (listing_ids (listings_of db p.id)) db.pool 0;
  no_new_tombstone = λ e. rw e refl;
}

cleaned-tombstone :
    (db : Db) (p : Product) (reason : String) (user : ℕ)
    → has_some (listings_of db p.id) ≡ true
    → any_row (is_tombstone_of p) (cleaned db p reason user).tombstones ≡ true
unfolding cleaned
cleaned-tombstone db p reason user e = rw e (put_tombstone-any_row p reason user db.tombstones)

-- A delete that succeeds removes the product, its listings and its memberships and no other product or
-- listing, leaves no number held for one of those listings, and leaves the tombstones alone if the
-- product had no listing; if it had one, a tombstone of the product's source is there.
pub delete_product-IsGone :
    (db : Db) (user product : ℕ) (reason : String) (out : Db × Receipt)
    → delete_product db user product reason ≡ ok out
    → IsGone db product out.0
      × ((p : Product) × (find_key product_key product db.products ≡ some p)
          × (has_some (listings_of db product) ≡ true
              → any_row (is_tombstone_of p) out.0.tombstones ≡ true))
delete_product-IsGone db user product reason out h =
    let (p, f, guards, same) = delete_product-eq_ok db user product reason out h in
    let own = find_key-eq_some product_key product db.products p f in
    let gone =
      subst (λ i. IsGone db i (cleaned db p reason user)) own (cleaned-IsGone db p reason user) in
    let stone =
      subst
        (λ i.
          has_some (listings_of db i) ≡ true
          → any_row (is_tombstone_of p) (cleaned db p reason user).tombstones ≡ true)
        own (cleaned-tombstone db p reason user) in
    rw same (gone, (p, f, stone))

-- A delete gives back held numbers only: a used number stays bound to its listing, though that is gone.
pub delete_product-used :
    (db : Db) (user product : ℕ) (reason : String) (out : Db × Receipt) (id : ℕ) (r : Row)
    → IsPool db.pool
    → delete_product db user product reason ≡ ok out
    → find_key row_id id db.pool.rows ≡ some r
    → r.status ≡ Pool.used
    → find_key row_id id out.0.pool.rows ≡ some r
unfolding cleaned
delete_product-used db user product reason out id r v h f e =
    let (p, _, guards, same) = delete_product-eq_ok db user product reason out h in
    let ids = listing_ids (listings_of db p.id) in
    rw (same, release_all-run ids db.pool 0) (used_for_ever (releases ids) db.pool id r v f e)

-- ===== src/ProductDelete/Guards.antt =====
-- When `delete_product` of backend/src/erp/catalog/delete.py deletes.
use erp_all.Prelude.{
  ℕ, ◌≡◌, refl, sym, String, Bool, true, false, not, some, arith, ◌&&◌, Bool-cases, Option-cases,
  inl, inr, All, All-imp, any_row, any_row-All, All-any_row, find_key, ok, ok-injective,
}
use erp_all.ProductDelete.{
  Listing, ListingStatus, Task, Product, Db, Receipt, is_alive, is_deletable, product_key,
  listings_of, listing_ids, is_task_of, is_running, cleaned, receipt, delete_found, delete_product,
}

-- What the guards ask.
pub record CanDelete (db : Db) (p : Product) : Type 0 where
  pub deletable : All (λ (l : Listing). is_deletable l.status ≡ true) (listings_of db p.id)
  pub idle :
      All
        (λ (t : Task).
          (is_task_of (listing_ids (listings_of db p.id)) t && is_running t.status) ≡ false)
        db.tasks

not-eq_false : (b : Bool) → not b ≡ false → b ≡ true
not-eq_false true h = refl
not-eq_false false h = absurd (cc)

delete_found-eq_ok :
    (db : Db) (user : ℕ) (reason : String) (p : Product) (out : Db × Receipt)
    → delete_found db user reason (some p) ≡ ok out
    → CanDelete db p × (out ≡ (cleaned db p reason user, receipt db p))
unfolding delete_found
delete_found-eq_ok db user reason p out h =
    let ls = listings_of db p.id in
    let alive = any_row (λ (l : Listing). is_alive l.status) ls in
    let unclassified = any_row (λ (l : Listing). not (is_deletable l.status)) ls in
    let busy =
      any_row (λ (t : Task). is_task_of (listing_ids ls) t && is_running t.status) db.tasks in
    elim (Bool-cases alive) [
      | inl a ↦ absurd (cc (rw a at h))
      | inr a ↦ elim (Bool-cases unclassified) [
        | inl u ↦ absurd (cc (rw (a, u) at h))
        | inr u ↦ elim (Bool-cases busy) [
          | inl b ↦ absurd (cc (rw (a, u, b) at h))
          | inr b ↦ (
            record {
              deletable =
                  All-imp (λ (l : Listing). not (is_deletable l.status) ≡ false) _ ls
                    (λ l. not-eq_false (is_deletable l.status))
                    (any_row-All (λ (l : Listing). not (is_deletable l.status)) ls u);
              idle =
                  any_row-All (λ (t : Task). is_task_of (listing_ids ls) t && is_running t.status)
                    db.tasks b;
            },
            sym (ok-injective _ _ (rw (a, u, b) at h)),
          )
        ]
      ]
    ]

-- A delete that succeeds found the product, had only listings that are not on the channel nor under way,
-- and no maintenance task of theirs was running; and it did all of the cleaning.
pub delete_product-eq_ok :
    (db : Db) (user product : ℕ) (reason : String) (out : Db × Receipt)
    → delete_product db user product reason ≡ ok out
    → (p : Product) × (find_key product_key product db.products ≡ some p)
      × CanDelete db p
      × (out ≡ (cleaned db p reason user, receipt db p))
unfolding delete_product delete_found
delete_product-eq_ok db user product reason out h =
    elim (Option-cases (find_key product_key product db.products)) [
      | inl n ↦ absurd (cc (rw (n, delete_product, delete_found) at h))
      | inr (p, f) ↦
          let (guards, same) =
            delete_found-eq_ok db user reason p out (rw (f, delete_product) at h) in
          (p, f, guards, same)
    ]

deletable-not_alive : (s : ListingStatus) → is_deletable s ≡ true → is_alive s ≡ false
deletable-not_alive s h = ground arith

-- The other way round: where the guards hold, the delete goes through.
pub delete_product_total :
    (db : Db) (user product : ℕ) (reason : String) (p : Product)
    → find_key product_key product db.products ≡ some p
    → CanDelete db p
    → delete_product db user product reason ≡ ok (cleaned db p reason user, receipt db p)
unfolding delete_product delete_found
delete_product_total db user product reason p f g =
    let ls = listings_of db p.id in
    let a =
      All-any_row (λ (l : Listing). is_alive l.status) ls
        (All-imp (λ (l : Listing). is_deletable l.status ≡ true) _ ls
          (λ l. deletable-not_alive l.status) g.deletable) in
    let u =
      All-any_row (λ (l : Listing). not (is_deletable l.status)) ls
        (All-imp (λ (l : Listing). is_deletable l.status ≡ true) _ ls (λ l e. rw e refl)
          g.deletable) in
    let b =
      All-any_row (λ (t : Task). is_task_of (listing_ids ls) t && is_running t.status) db.tasks
        g.idle in
    rw (f, delete_product, delete_found) (rw (a, u, b) refl)

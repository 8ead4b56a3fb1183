-- ===== src/Gtin/Moves.antt =====
-- Every operation on the pool of backend/src/erp/listing/gtin.py keeps the table well formed and takes
-- each row along the state machine of the number.
use erp_all.Prelude.{
  ℕ, ◌<◌, ◌≡◌, refl, sym, subst, String, Bool, true, false, Option, none, some, List, [], ◌∷◌, ◌++◌,
  arith, ◌==◌, All, All-In, In, All-update_where, Distinct, Distinct-update_where, find_key_unique,
  find_first, find_first-eq_some, update_where, update_key, any_row, any_row-eq_false, Result, ok,
  err, Option-cases, inl, inr, ◌&&◌, All-update_key,
}
use erp_all.Gtin.{Text, is_gtin, checksum_ok}
use erp_all.Gtin.Pool.{Status, free, held, used, conflict, invalid, Row, Db, row_id, kind_of}
use erp_all.Gtin.Occupation.{
  held_row, can_hold, hold_from, hold_one, kinds_for, holds_for, id_is, is_free, has_held,
  gtin_pool_empty, used_row, mark_used, free_row, release, kept, Error,
}

-- The number passes the tests of the import, its kind is told by its length, and the two listing columns
-- fit the status: a held number is held for a listing, a used one is bound to the listing that held it,
-- and a free one to none.
abbrev Bound : Status → Option ℕ → Option ℕ → Type 0
Bound free h u = (h ≡ none) × (u ≡ none)
Bound held h u = ((l : ℕ) × (h ≡ some l)) × (u ≡ none)
Bound used h u = (l : ℕ) × (h ≡ some l) × (u ≡ some l)
Bound conflict h u = Unit
Bound invalid h u = Unit

pub record IsNumber (r : Row) : Type 0 where
  pub format : is_gtin r.gtin ≡ true
  pub checksum : checksum_ok r.gtin ≡ true
  pub kind : r.gtin_kind ≡ kind_of r.gtin
  pub bound : Bound r.status r.held_listing_id r.used_listing_id

abbrev pub row_gtin : Row → Text
row_gtin r = r.gtin

-- No two rows have one id or one number, the next id is new, and every row is well formed.
pub record IsPool (db : Db) : Type 0 where
  pub ids : Distinct row_id db.rows
  pub gtins : Distinct row_gtin db.rows
  pub below : All (λ (r : Row). r.id < db.next_id) db.rows
  pub numbers : All IsNumber db.rows

-- An update that leaves id and number alone and keeps the rows it changes well formed.
update-IsPool :
    (db : Db) (test : Row → Bool) (change : Row → Row)
    → ((r : Row) → (change r).id ≡ r.id)
    → ((r : Row) → (change r).gtin ≡ r.gtin)
    → All IsNumber (update_where test change db.rows)
    → IsPool db
    → IsPool (record db { rows = update_where test change db.rows })
update-IsPool db test change same_id same_gtin numbers v = record {
  ids = Distinct-update_where row_id change same_id test db.rows v.ids;
  gtins = Distinct-update_where row_gtin change same_gtin test db.rows v.gtins;
  below =
      All-update_where (λ (r : Row). r.id < db.next_id) test change db.rows
        (λ r _ l. subst (λ i. i < db.next_id) (sym (same_id r)) l) v.below;
  numbers = numbers;
}

Bound-used :
    (s : Status) (h u : Option ℕ) (listing : ℕ)
    → (id_is listing h && has_held s) ≡ true
    → Bound s h u
    → Bound used h h
Bound-used held h u listing t b = let ((l, e), f) = b in (l, e, e)
Bound-used free h u listing t b = absurd (ground arith)
Bound-used used h u listing t b = absurd (ground arith)
Bound-used conflict h u listing t b = absurd (ground arith)
Bound-used invalid h u listing t b = absurd (ground arith)

Bound-free :
    (s : Status) (h u : Option ℕ) (listing : ℕ)
    → (id_is listing h && has_held s) ≡ true
    → Bound s h u
    → Bound free none u
Bound-free held h u listing t b = (refl, b.1)
Bound-free free h u listing t b = (refl, b.1)
Bound-free used h u listing t b = absurd (ground arith)
Bound-free conflict h u listing t b = absurd (ground arith)
Bound-free invalid h u listing t b = absurd (ground arith)

Bound-held :
    (s : Status) (h u : Option ℕ) (listing : ℕ)
    → is_free s ≡ true
    → Bound s h u
    → Bound held (some listing) u
Bound-held free h u listing t b = ((listing, refl), b.1)
Bound-held held h u listing t b = absurd (cc)
Bound-held used h u listing t b = absurd (cc)
Bound-held conflict h u listing t b = absurd (cc)
Bound-held invalid h u listing t b = absurd (cc)

pub mark_used-IsPool : (db : Db) (listing : ℕ) → IsPool db → IsPool (mark_used db listing)
unfolding mark_used used_row
mark_used-IsPool db listing v =
    update-IsPool db (holds_for listing) used_row (λ r. refl) (λ r. refl)
      (All-update_where IsNumber (holds_for listing) used_row db.rows
        (λ r h n. record {
          format = n.format;
          checksum = n.checksum;
          kind = n.kind;
          bound = Bound-used r.status _ _ listing h n.bound;
        })
        v.numbers)
      v

pub release-IsPool : (db : Db) (listing : ℕ) → IsPool db → IsPool (release db listing)
unfolding release free_row
release-IsPool db listing v =
    update-IsPool db (holds_for listing) free_row (λ r. refl) (λ r. refl)
      (All-update_where IsNumber (holds_for listing) free_row db.rows
        (λ r h n. record {
          format = n.format;
          checksum = n.checksum;
          kind = n.kind;
          bound = Bound-free r.status _ _ listing h n.bound;
        })
        v.numbers)
      v

-- What `hold_one` does: it takes a free row that the database offered, of the first kind that has one, and
-- holds it for the listing; or no kind has one, and it raises the error.
pub data Picks (offered : Row → Bool) (db : Db) (team listing : ℕ) (ks : List String)
    : Result Error (Db × Text) → Type 0 where
  picks :
      (r : Row) (k : String) (before after : List String)
      → ks ≡ before ++ k ∷ after
      → All (λ j. any_row (can_hold offered team j) db.rows ≡ false) before
      → In r db.rows
      → can_hold offered team k r ≡ true
      → Picks offered db team listing ks
          (ok (record db { rows = update_key row_id r.id (held_row listing) db.rows }, r.gtin))
  empty :
      All (λ j. any_row (can_hold offered team j) db.rows ≡ false) ks
      → Picks offered db team listing ks (err gtin_pool_empty)

module _ (offered : Row → Bool) (db : Db) (team listing : ℕ) where
  later-Picks :
      (k : String) (ks : List String) (out : Result Error (Db × Text))
      → any_row (can_hold offered team k) db.rows ≡ false
      → Picks offered db team listing ks out
      → Picks offered db team listing (k ∷ ks) out
  later-Picks k ks out e (picks r j before after same clear i c) =
      picks r j (k ∷ before) after (rw same refl) (e, clear) i c
  later-Picks k ks out e (empty clear) = empty (e, clear)

  hold_from-Picks :
      (ks : List String) → Picks offered db team listing ks (hold_from offered db team listing ks)
  unfolding hold_from
  hold_from-Picks [] = empty tt
  hold_from-Picks (k ∷ ks) = elim (Option-cases (find_first (can_hold offered team k) db.rows)) [
    | inl e ↦
        rw (e, hold_from)
          (later-Picks k ks _ (any_row-eq_false (can_hold offered team k) db.rows e)
            (hold_from-Picks ks))
    | inr (r, e) ↦
        let (passes, i) = find_first-eq_some (can_hold offered team k) db.rows e in
        rw (e, hold_from) (picks r k [] ks refl tt i passes)
  ]

  -- `hold_one` either takes a free number of the team that the database offered, of the first kind in the
  -- order of preference (or of the given kind) that has one, holds it for the listing and returns it; or
  -- no kind has one, and it raises `GTIN_POOL_EMPTY`.
  pub hold_one-Picks :
      (kind : Option String)
      → Picks offered db team listing
          (kinds_for db team kind)
          (hold_one offered db team listing kind)
  unfolding hold_one
  hold_one-Picks kind = hold_from-Picks (kinds_for db team kind)

held-IsPool :
    (db : Db) (r : Row) (listing : ℕ)
    → In r db.rows
    → is_free r.status ≡ true
    → IsPool db
    → IsPool (record db { rows = update_key row_id r.id (held_row listing) db.rows })
unfolding held_row
held-IsPool db r listing i f v =
    let n = All-In IsNumber r db.rows v.numbers i in
    update-IsPool db (λ x. row_id x == r.id) (held_row listing) (λ r. refl) (λ r. refl)
      (All-update_key row_id IsNumber r.id (held_row listing) db.rows v.ids
        (find_key_unique row_id db.rows r v.ids i)
        (record {
          format = n.format;
          checksum = n.checksum;
          kind = n.kind;
          bound = Bound-held r.status _ _ listing f n.bound;
        })
        v.numbers)
      v

Picks-IsPool :
    (offered : Row → Bool) (db : Db) (team listing : ℕ) (ks : List String)
    (out : Result Error (Db × Text))
    → Picks offered db team listing ks out
    → IsPool db
    → IsPool (kept db out)
Picks-IsPool offered db team listing ks out (picks r k before after same clear i c) v =
    held-IsPool db r listing i (ground arith) v
Picks-IsPool offered db team listing ks out (empty clear) v = v

pub hold_one-IsPool :
    (offered : Row → Bool) (db : Db) (team listing : ℕ) (kind : Option String)
    → IsPool db
    → IsPool (kept db (hold_one offered db team listing kind))
hold_one-IsPool offered db team listing kind v =
    Picks-IsPool offered db team listing _ _ (hold_one-Picks offered db team listing kind) v

-- ===== src/Gtin/Exclusive.antt =====
-- What the pool of backend/src/erp/listing/gtin.py promises over any run of its operations: a number is
-- held by one listing at a time, and a used number stays with its listing for ever.
use erp_all.Prelude.{
  ℕ, ◌≡◌, ◌≢◌, refl, sym, ap, ◌∙◌, subst, String, Bool, true, false, Option, some, List, [], ◌∷◌,
  arith, ◌==◌, All, In, find_key, find_key_unique, find_key-In, find_key-update_key_self,
  find_key-update_key_ne, find_first-update_where, update_key, update_where, Distinct-unique,
  Result, Holds, Holds-eq_ok, ok, err, Bool-cases, inl, inr, ==→eq, ==-refl, some-injective,
}
use erp_all.Gtin.{Text}
use erp_all.Gtin.Pool.{used, Row, Db, row_id}
use erp_all.Gtin.Occupation.{
  held_row, hold_one, is_free, id_is, holds_for, used_row, mark_used, free_row, release, Op, Error,
  add, hold, publish, give_back, kept, step, run,
}
use erp_all.Gtin.Moves.{
  IsPool, row_gtin, Picks, picks, empty, hold_one-Picks, hold_one-IsPool, mark_used-IsPool,
  release-IsPool,
}
use erp_all.Gtin.Imports.{import_batch-accounts, import_batch-found}

step-IsPool : (op : Op) (db : Db) → IsPool db → IsPool (step op db)
unfolding step
step-IsPool (add team gtins source) db v = (import_batch-accounts db team gtins source v).0
step-IsPool (hold offered team listing kind) db v = hold_one-IsPool offered db team listing kind v
step-IsPool (publish listing) db v = mark_used-IsPool db listing v
step-IsPool (give_back listing) db v = release-IsPool db listing v

-- Any operations in any order keep the pool well formed: no two rows have one number, every number passes
-- the format and the check digit, its kind is told by its length, a held number is held for a listing, a
-- used one is bound to the listing that held it, and a free one to none.
pub run-IsPool : (ops : List Op) (db : Db) → IsPool db → IsPool (run ops db)
unfolding run
run-IsPool [] db v = v
run-IsPool (op ∷ ops) db v = run-IsPool ops (step op db) (step-IsPool op db v)

-- A property of a row that every operation keeps, where `Allowed` says which operations occur.
record IsKept (Allowed : Op → Type 0) (Q : Row → Type 0) : Type 0 where
  pub taken : (r : Row) → Q r → is_free r.status ≡ false
  pub published : (listing : ℕ) (r : Row) → holds_for listing r ≡ true → Q r → Q (used_row r)
  pub given_back :
      (listing : ℕ) (r : Row)
      → Allowed (give_back listing)
      → holds_for listing r ≡ true
      → Q r
      → Q (free_row r)

module _ (Allowed : Op → Type 0) (Q : Row → Type 0) (stays : IsKept Allowed Q) where
  abbrev Finds : ℕ → Db → Type 0
  Finds id db = (r : Row) × (find_key row_id id db.rows ≡ some r) × Q r

  update-Finds :
      (id : ℕ) (db : Db) (test : Row → Bool) (change : Row → Row)
      → ((r : Row) → (change r).id ≡ r.id)
      → ((r : Row) → test r ≡ true → Q r → Q (change r))
      → Finds id db
      → Finds id (record db { rows = update_where test change db.rows })
  update-Finds id db test change same moves (r, f, q) =
      let (r', f', m) =
        find_first-update_where (λ x y. Q x → Q y) (λ x. row_id x == id) test change db.rows r
          (λ x _ p. p) (λ x t. (ap (λ i. i == id) (same x), moves x t)) f in
      (r', f', m q)

  held-Finds :
      (id : ℕ) (db : Db) (r : Row) (listing : ℕ)
      → IsPool db
      → In r db.rows
      → is_free r.status ≡ true
      → Finds id db
      → Finds id (record db { rows = update_key row_id r.id (held_row listing) db.rows })
  held-Finds id db r listing v i not_held (s, f, q) = elim (Bool-cases (r.id == id)) [
    | inl e ↦
        let place = find_key_unique row_id db.rows r v.ids i in
        let same : r ≡ s =
          some-injective _ _
            (sym (subst (λ k. find_key row_id k db.rows ≡ some r) (==→eq r.id id e) place) ∙ f) in
        let taken = stays.taken s q in
        let no : true ≡ false = sym not_held ∙ ap (λ (x : Row). is_free x.status) same ∙ taken in
        absurd (cc)
    | inr e ↦
        let other : r.id ≢ id = λ same.
          let no : true ≡ false = sym (subst (λ k. (r.id == k) ≡ true) same (==-refl r.id)) ∙ e in
          absurd (cc) in
        (
          s,
          find_key-update_key_ne row_id (held_row listing) (λ x. unfold held_row in refl) r.id id
                db.rows other
              ∙ f,
          q,
        )
  ]

  Picks-Finds :
      (id : ℕ) (offered : Row → Bool) (db : Db) (team listing : ℕ) (ks : List String)
      (out : Result Error (Db × Text))
      → IsPool db
      → Picks offered db team listing ks out
      → Finds id db
      → Finds id (kept db out)
  Picks-Finds id offered db team listing ks out v (picks r k before after same clear i c) found =
      held-Finds id db r listing v i (ground arith) found
  Picks-Finds id offered db team listing ks out v (empty clear) found = found

  step-Finds :
      (id : ℕ) (op : Op) (db : Db) → IsPool db → Allowed op → Finds id db → Finds id (step op db)
  unfolding step mark_used release
  step-Finds id (add team gtins source) db v a (r, f, q) =
      (r, import_batch-found db team gtins source id r f, q)
  step-Finds id (hold offered team listing kind) db v a found =
      Picks-Finds id offered db team listing _ _ v (hold_one-Picks offered db team listing kind)
        found
  step-Finds id (publish listing) db v a found =
      update-Finds id db (holds_for listing) used_row (λ r. unfold used_row in refl)
        (λ r t q. stays.published listing r t q) found
  step-Finds id (give_back listing) db v a found =
      update-Finds id db (holds_for listing) free_row (λ r. unfold free_row in refl)
        (λ r t q. stays.given_back listing r a t q) found

  run-Finds :
      (id : ℕ) (ops : List Op) (db : Db)
      → IsPool db
      → All Allowed ops
      → Finds id db
      → Finds id (run ops db)
  unfolding run
  run-Finds id [] db v a found = found
  run-Finds id (op ∷ ops) db v a found =
      run-Finds id ops (step op db) (step-IsPool op db v) a.1 (step-Finds id op db v a.0 found)

abbrev AnyOp : Op → Type 0
AnyOp op = Unit

every_op : (ops : List Op) → All AnyOp ops
every_op [] = tt
every_op (op ∷ ops) = (tt, every_op ops)

used-IsKept : (u : Row) → u.status ≡ used → IsKept AnyOp (λ r. r ≡ u)
used-IsKept u e = record {
  taken = λ r same. rw (ap (λ (x : Row). x.status) same ∙ e) refl;
  published = λ listing r t same.
      let bound : r.status ≡ used = ap (λ (x : Row). x.status) same ∙ e in absurd (ground arith);
  given_back = λ listing r a t same.
      let bound : r.status ≡ used = ap (λ (x : Row). x.status) same ∙ e in absurd (ground arith);
}

-- A used number is bound for ever: no operation, in any order, changes its row again, so it never gets
-- back to the pool and never to another listing.
pub used_for_ever :
    (ops : List Op) (db : Db) (id : ℕ) (r : Row)
    → IsPool db
    → find_key row_id id db.rows ≡ some r
    → r.status ≡ used
    → find_key row_id id (run ops db).rows ≡ some r
used_for_ever ops db id r v f e =
    let (r', f', same) =
      run-Finds AnyOp (λ x. x ≡ r) (used-IsKept r e) id ops db v (every_op ops) (r, f, refl) in
    f' ∙ ap some same

-- The operation does not give back the numbers of the listing.
abbrev pub Spares : ℕ → Op → Type 0
Spares listing (give_back l) = l ≢ listing
Spares listing _ = Unit

-- A row that holds the number for the listing, or has bound it to it.
abbrev Keeps : ℕ → Text → Row → Type 0
Keeps listing g r = (r.gtin ≡ g) × (r.held_listing_id ≡ some listing) × (is_free r.status ≡ false)

Keeps-IsKept : (listing : ℕ) (g : Text) → IsKept (Spares listing) (Keeps listing g)
unfolding used_row free_row
Keeps-IsKept listing g = record {
  taken = λ r q. q.2;
  published = λ l r t q. (q.0, q.1, refl);
  given_back = λ l r a t q.
      absurd (a (sym (==→eq listing l (subst (λ h. id_is l h ≡ true) q.1 (ground arith)))));
}

held-Keeps :
    (offered : Row → Bool) (db : Db) (team listing : ℕ) (ks : List String)
    (out : Result Error (Db × Text))
    → IsPool db
    → Picks offered db team listing ks out
    → Holds
        (λ o. (id : ℕ) × ((r : Row) × (find_key row_id id o.0.rows ≡ some r) × Keeps listing o.1 r))
        out
held-Keeps offered db team listing ks out v (picks r k before after same clear i c) = (
  r.id,
  (
    held_row listing r,
    find_key-update_key_self row_id (held_row listing) (λ x. unfold held_row in refl) r.id db.rows r
        (find_key_unique row_id db.rows r v.ids i),
    unfold held_row in (refl, refl, refl),
  ),
)
held-Keeps offered db team listing ks out v (empty clear) = tt

held-WasFree :
    (offered : Row → Bool) (db : Db) (team listing : ℕ) (ks : List String)
    (out : Result Error (Db × Text))
    → Picks offered db team listing ks out
    → Holds (λ o. (r : Row) × In r db.rows × (is_free r.status ≡ true) × (r.gtin ≡ o.1)) out
held-WasFree offered db team listing ks out (picks r k before after same clear i c) =
    (r, i, ground arith, refl)
held-WasFree offered db team listing ks out (empty clear) = tt

kept-Holds :
    (db : Db) (out : Result Error (Db × Text)) → IsPool (kept db out) → Holds (λ o. IsPool o.0) out
kept-Holds db (ok o) v = v
kept-Holds db (err e) v = tt

-- A number that `hold_one` gave out is not given out a second time, to any listing, by whatever operations
-- in between, unless the listing that got it gives it back.
pub held_once :
    (offered later : Row → Bool) (db : Db) (team listing : ℕ) (kind : Option String) (db' : Db)
    (g : Text) (ops : List Op) (team' listing' : ℕ) (kind' : Option String) (after : Db) (g' : Text)
    → IsPool db
    → hold_one offered db team listing kind ≡ ok (db', g)
    → All (Spares listing) ops
    → hold_one later (run ops db') team' listing' kind' ≡ ok (after, g')
    → g' ≢ g
held_once offered later db team listing kind db' g ops team' listing' kind' after g' v e s again
      same =
    let (id, found) =
      Holds-eq_ok _ _ (db', g)
        (held-Keeps offered db team listing _ _ v (hold_one-Picks offered db team listing kind))
        e in
    let valid : IsPool db' =
      Holds-eq_ok (λ o. IsPool o.0) _ (db', g)
        (kept-Holds db _ (hold_one-IsPool offered db team listing kind v)) e in
    let (r, f, q) =
      run-Finds (Spares listing) (Keeps listing g) (Keeps-IsKept listing g) id ops db' valid s
        found in
    let (x, i, not_held, number) =
      Holds-eq_ok _ _ (after, g')
        (held-WasFree later (run ops db') team' listing' _ _
          (hold_one-Picks later (run ops db') team' listing' kind'))
        again in
    let one : x ≡ r =
      Distinct-unique row_gtin (run ops db').rows x r (run-IsPool ops db' valid).gtins i
        (find_key-In row_id id (run ops db').rows r f) (number ∙ same ∙ sym q.0) in
    let no : true ≡ false = sym not_held ∙ ap (λ (y : Row). is_free y.status) one ∙ q.2 in
    absurd (cc)

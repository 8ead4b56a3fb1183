-- ===== src/Gtin/Imports.antt =====
-- The import of numbers of backend/src/erp/listing/gtin.py keeps the pool well formed and accounts for
-- every text it was given.
use erp_all.Prelude.{
  ℕ, suc, ◌+◌, ◌<◌, ◌≡◌, ◌≢◌, refl, sym, ap, subst, String, true, false, none, some, List, [], ◌∷◌,
  ◌++◌, arith, ◌==◌, All, All-imp, All-append, In, Distinct-append_new, Distinct-append_fresh,
  any_row, any_row-eq_true, find_key, find_first-append, In-append_left, In-append_last, All-In,
  length, length-append, map, Option-cases, Bool-cases, ◌⊎◌, inl, inr,
}
use erp_all.Prelude.Text.{text_eq, text_eq_iff}
use erp_all.Gtin.{Text, is_gtin, checksum_ok}
use erp_all.Gtin.Pool.{
  Row, Db, row_id, reject_code, new_row, Code, Import, reject, insert_gtin, gtin_duplicate,
  import_one, import_loop, import_batch, safe_prefixes, strip, fresh_keys,
}
use erp_all.Gtin.Moves.{IsPool, IsNumber, row_gtin}

-- A text without a reason to reject it is a number with a right check digit.
reject_code-eq_none :
    (safe : List Text) (raw : Text)
    → reject_code safe raw ≡ none
    → (is_gtin raw ≡ true) × (checksum_ok raw ≡ true)
unfolding reject_code
reject_code-eq_none safe raw h = ground arith

new_gtin :
    (raw : Text) (rows : List Row)
    → any_row (λ (r : Row). text_eq raw r.gtin) rows ≡ false
    → All (λ r. row_gtin r ≢ raw) rows
new_gtin raw [] h = tt
new_gtin raw (r ∷ rows) h = (
  λ e. let same = (text_eq_iff raw r.gtin).1 (sym e) in absurd (ground arith),
  new_gtin raw rows (ground arith),
)

below-new :
    (n : ℕ) (rows : List Row)
    → All (λ (r : Row). r.id < n) rows
    → All (λ (r : Row). r.id < suc n) rows
below-new n rows b = All-imp (λ (r : Row). r.id < n) _ rows (λ r l. omega arith) b

module _ (team : ℕ) (source : String) (safe : List Text) where
  inserted-IsPool :
      (db : Db) (raw : Text)
      → reject_code safe raw ≡ none
      → any_row (λ (r : Row). text_eq raw r.gtin) db.rows ≡ false
      → IsPool db
      → IsPool (record db {
        rows = db.rows ++ (new_row db team source raw ∷ []);
        next_id = suc db.next_id;
      })
  unfolding new_row
  inserted-IsPool db raw h e v =
      let row = new_row db team source raw in
      let (format, checksum) = reject_code-eq_none safe raw h in
      record {
        ids = Distinct-append_fresh row_id db.rows row v.ids v.below;
        gtins = Distinct-append_new row_gtin db.rows row v.gtins (new_gtin raw db.rows e);
        below =
            All-append (λ (r : Row). r.id < suc db.next_id) db.rows (row ∷ [])
              (below-new db.next_id db.rows v.below) (omega arith, tt);
        numbers = All-append IsNumber db.rows (row ∷ []) v.numbers (
          record { format = format; checksum = checksum; kind = refl; bound = (refl, refl) },
          tt,
        );
      }

  -- The text was rejected with the code that the tests give it; or it passes them, and a row of the table
  -- has that number.
  abbrev pub Accounted : Text → Import → Type 0
  Accounted raw s =
      ((code : Code) × In (raw, code) s.rejected × (reject_code safe raw ≡ some code))
      ⊎ ((reject_code safe raw ≡ none) × ((r : Row) × In r s.db.rows × (r.gtin ≡ raw)))

  -- What a step of the import keeps, and how it counts.
  record Advances (n : ℕ) (s s' : Import) : Type 0 where
    pub valid : IsPool s.db → IsPool s'.db
    pub counted : s'.imported + length s'.rejected ≡ s.imported + length s.rejected + n
    pub grown : length s'.db.rows + s.imported ≡ length s.db.rows + s'.imported
    pub keeps : (other : Text) → Accounted other s → Accounted other s'
    pub found :
        (id : ℕ) (r : Row)
        → find_key row_id id s.db.rows ≡ some r
        → find_key row_id id s'.db.rows ≡ some r

  reject-Advances : (raw : Text) (code : Code) (s : Import) → Advances 1 s (reject raw code s)
  reject-Advances raw code s = record {
    valid = λ v. v;
    counted = omega (arith, length-append s.rejected ((raw, code) ∷ []));
    grown = refl;
    keeps = λ other t. elim t [
      | inl (c, i, e) ↦ inl (c, In-append_left (other, c) s.rejected ((raw, code) ∷ []) i, e)
      | inr found ↦ inr found
    ];
    found = λ id r f. f;
  }

  insert_gtin-Advances :
      (raw : Text) (s : Import)
      → reject_code safe raw ≡ none
      → Advances 1 s (insert_gtin team source raw s) × Accounted raw (insert_gtin team source raw s)
  unfolding insert_gtin new_row
  insert_gtin-Advances raw s h =
      elim (Bool-cases (any_row (λ (r : Row). text_eq raw r.gtin) s.db.rows)) [
        | inl e ↦
            let (r, i, t) = any_row-eq_true (λ (r : Row). text_eq raw r.gtin) s.db.rows e in
            rw e (
              reject-Advances raw gtin_duplicate s,
              inr (h, (r, i, sym ((text_eq_iff raw r.gtin).0 t))),
            )
        | inr e ↦
            let row = new_row s.db team source raw in
            rw e (
              record {
                valid = λ v. inserted-IsPool s.db raw h e v;
                counted = omega arith;
                grown = omega (arith, length-append s.db.rows (row ∷ []));
                keeps = λ other t. elim t [
                  | inl left ↦ inl left
                  | inr (n, (r, i, g)) ↦ inr (n, (r, In-append_left r s.db.rows (row ∷ []) i, g))
                ];
                found = λ id r f. find_first-append (λ x. row_id x == id) s.db.rows (row ∷ []) r f;
              },
              inr (h, (row, In-append_last row s.db.rows, refl)),
            )
      ]

  import_one-Advances :
      (raw : Text) (s : Import)
      → Advances 1 s (import_one team source safe raw s)
        × Accounted raw (import_one team source safe raw s)
  unfolding import_one
  import_one-Advances raw s = elim (Option-cases (reject_code safe raw)) [
    | inl e ↦
        let same : insert_gtin team source raw s ≡ import_one team source safe raw s =
          rw (e, import_one) refl in
        subst (λ out. Advances 1 s out × Accounted raw out) same (insert_gtin-Advances raw s e)
    | inr (code, e) ↦
        let same : reject raw code s ≡ import_one team source safe raw s =
          rw (e, import_one) refl in
        subst (λ out. Advances 1 s out × Accounted raw out) same
          (reject-Advances raw code s, inl (code, In-append_last (raw, code) s.rejected, e))
  ]

  import_loop-Advances :
      (raws : List Text) (s : Import)
      → let s' = import_loop team source safe raws s in
        Advances (length raws) s s' × All (λ raw. Accounted raw s') raws
  unfolding import_loop
  import_loop-Advances [] s = (
    record {
      valid = λ v. v;
      counted = omega arith;
      grown = refl;
      keeps = λ other t. t;
      found = λ id r f. f;
    },
    tt,
  )
  import_loop-Advances (raw ∷ raws) s =
      let (one, told) = import_one-Advances raw s in
      let next = import_one team source safe raw s in
      let (rest, all) = import_loop-Advances raws next in
      (
        record {
          valid = λ v. rest.valid (one.valid v);
          counted = let a = one.counted in let b = rest.counted in omega arith;
          grown = let a = one.grown in let b = rest.grown in omega arith;
          keeps = λ other t. rest.keeps other (one.keeps other t);
          found = λ id r f. rest.found id r (one.found id r f);
        },
        (rest.keeps raw told, all),
      )

fresh_keys-In :
    (x : Text) (seen xs : List Text)
    → any_row (text_eq x) seen ≡ false
    → In x xs
    → In x (fresh_keys seen xs)
unfolding fresh_keys
fresh_keys-In x seen [] n i = absurd i
fresh_keys-In x seen (y ∷ xs) n (inl e) =
    subst (λ z. In x (fresh_keys seen (z ∷ xs))) e (rw n (inl refl))
fresh_keys-In x seen (y ∷ xs) n (inr i) = elim (Bool-cases (any_row (text_eq y) seen)) [
  | inl e ↦ rw e (fresh_keys-In x seen xs n i)
  | inr e ↦ rw e (elim (Bool-cases (text_eq x y)) [
    | inl same ↦ inl ((text_eq_iff x y).0 same)
    | inr other ↦ inr (fresh_keys-In x (y ∷ seen) xs (rw (other, n) refl) i)
  ])
]

All-map_In :
    (P : Text → Type 0) (gs : List Text) (xs : List Text)
    → All P xs
    → ((g : Text) → In g gs → In (strip g) xs)
    → All (λ g. P (strip g)) gs
All-map_In P [] xs p f = tt
All-map_In P (g ∷ gs) xs p f =
    (All-In P (strip g) xs p (f g (inl refl)), All-map_In P gs xs p (λ h i. f h (inr i)))

In-map : (g : Text) (gs : List Text) → In g gs → In (strip g) (map strip gs)
In-map g [] i = absurd i
In-map g (h ∷ gs) (inl e) = inl (ap strip e)
In-map g (h ∷ gs) (inr i) = inr (In-map g gs i)

pub import_batch-found :
    (db : Db) (team : ℕ) (gtins : List Text) (source : String) (id : ℕ) (r : Row)
    → find_key row_id id db.rows ≡ some r
    → find_key row_id id (import_batch db team gtins source).db.rows ≡ some r
unfolding import_batch
import_batch-found db team gtins source id r f =
    let (ran, told) =
      import_loop-Advances team source (safe_prefixes db team) (fresh_keys [] (map strip gtins))
        (record { db = db; imported = 0; rejected = [] }) in
    ran.found id r f

-- An import keeps the pool well formed, and no text gets lost: every given text, without the space
-- around it, is rejected with the code that the tests give it, or passes them and is a number of the pool
-- afterwards; each distinct text counts once as imported or rejected; and the pool grows by the numbers
-- counted as imported.
pub import_batch-accounts :
    (db : Db) (team : ℕ) (gtins : List Text) (source : String)
    → IsPool db
    → let s = import_batch db team gtins source in
      IsPool s.db
      × All (λ g. Accounted team source (safe_prefixes db team) (strip g) s) gtins
      × (s.imported + length s.rejected ≡ length (fresh_keys [] (map strip gtins)))
      × (length s.db.rows ≡ length db.rows + s.imported)
unfolding import_batch
import_batch-accounts db team gtins source v =
    let keys = fresh_keys [] (map strip gtins) in
    let (ran, told) =
      import_loop-Advances team source (safe_prefixes db team) keys
        (record { db = db; imported = 0; rejected = [] }) in
    let counted = ran.counted in
    let grown = ran.grown in
    (
      ran.valid v,
      All-map_In _ gtins keys told
          (λ g i. fresh_keys-In (strip g) [] (map strip gtins) refl (In-map g gtins i)),
      omega arith,
      omega arith,
    )

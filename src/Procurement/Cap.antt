-- ===== src/Procurement/Cap.antt =====
-- The daily limit of backend/src/erp/order/dispatch.py, over the rows that a pull gives an account.
use erp_all.Prelude.{
  ℕ, ◌+◌, ◌-◌, ◌≤◌, ◌<◌, ◌≡◌, ◌≢◌, refl, inl, inr, String, Bool, true, false, Option, none, some,
  List, [], ◌∷◌, arith, ◌==◌, ==-refl, ◌&&◌, ◌||◌, if-elim, All-imp, All-always, any_row,
  count_where, count_where-update_where_add, count_where-none, Distinct, Bool-cases, ok, Holds,
  Holds-eq_ok, leb, length, max, min, str_eq,
}
use erp_all.Prelude.Sorting.{length-first_rows}
use erp_all.Procurement.{Po, Db, po_key, is_none, breaks_unique}
use erp_all.Procurement.Dispatch.{
  Claim, Given, Config, is_used, since, not_cancelled, used_today, candidates, is_named, takes,
  given_to, claim_rows, claim_one_by_one, claim_batch, give_more, give_capped, give_room,
  give_country, country_of, claim_tasks_for_account, wanted, resumed, has_account,
}
use erp_all.Procurement.Book.{IsBooked}
use erp_all.Procurement.History.{
  Free, Free-tail, claim_rows-Moves, claim_rows-Free, candidates-Free,
}

module _ {A : Type 0} where
  count_where_imp :
      (p q : A → Bool) (xs : List A)
      → ((x : A) → p x ≡ true → q x ≡ true)
      → count_where p xs ≤ count_where q xs
  count_where_imp p q [] f = omega arith
  count_where_imp p q (x ∷ xs) f =
      let rest = count_where_imp p q xs f in
      elim (Bool-cases (p x)) [
        | inl e ↦ rw (e, f x e) (omega (arith, rest))
        | inr e ↦ elim (Bool-cases (q x)) [
          | inl d ↦ rw (e, d) (omega (arith, rest))
          | inr d ↦ rw (e, d) rest
        ]
      ]

  count_where_or :
      (p q : A → Bool) (xs : List A)
      → count_where (λ x. p x || q x) xs ≤ count_where p xs + count_where q xs
  count_where_or p q [] = omega arith
  count_where_or p q (x ∷ xs) =
      let rest = count_where_or p q xs in
      elim (Bool-cases (p x)) [
        | inl e ↦ elim (Bool-cases (q x)) [
          | inl d ↦ rw (e, d) (omega (arith, rest))
          | inr d ↦ rw (e, d) (omega (arith, rest))
        ]
        | inr e ↦ elim (Bool-cases (q x)) [
          | inl d ↦ rw (e, d) (omega (arith, rest))
          | inr d ↦ rw (e, d) (omega (arith, rest))
        ]
      ]

count_id : (k : ℕ) (xs : List Po) → Distinct po_key xs → count_where (λ (x : Po). x.id == k) xs ≤ 1
count_id k [] d = omega arith
count_id k (x ∷ xs) d =
    let rest = count_id k xs d.1 in
    elim (Bool-cases (x.id == k)) [
      | inl e ↦
          let others : count_where (λ (y : Po). y.id == k) xs ≡ 0 =
            count_where-none (λ (y : Po). y.id == k) xs
              (All-imp (λ (y : Po). x.id ≢ y.id) _ xs (λ y n. ground arith) d.0) in
          rw e (omega (arith, others))
      | inr e ↦ rw e rest
    ]

-- As many rows are named as there are names.
count_named : (ps xs : List Po) → Distinct po_key xs → count_where (is_named ps) xs ≤ length ps
count_named [] xs d =
    let zero_there : count_where (is_named []) xs ≡ 0 =
      count_where-none (is_named []) xs (All-always _ (λ x. refl) xs) in
    omega (arith, zero_there)
count_named (p ∷ ps) xs d =
    let both = count_where_or (λ (x : Po). x.id == p.id) (is_named ps) xs in
    omega (arith, both, count_id p.id xs d, count_named ps xs d)

-- The rows that one statement adds to the day's.
claim_rows_used :
    (now account day : ℕ) (ps : List Po) (db : Db)
    → IsBooked db
    → used_today account day (claim_rows now account ps db) ≤ used_today account day db + length ps
unfolding claim_rows
claim_rows_used now account day ps db v =
    let added =
      count_where-update_where_add (is_used account day) (λ p. since day (some now)) (takes ps)
        (given_to now account) db.pos
        (All-always _ (λ p e. (none_works p (ground arith), rw (==-refl account) refl)) db.pos) in
    let some_named =
      count_where_imp (λ (x : Po). since day (some now) && takes ps x) (is_named ps) db.pos
        (λ x e. ground arith) in
    omega (arith, added, some_named, count_named ps db.pos v.once)
  where
    none_works : (p : Po) → is_none p.buyer_account_id ≡ true → is_used account day p ≡ false
    none_works p e = no_account p.buyer_account_id e
      where
        no_account :
            (o : Option ℕ)
            → is_none o ≡ true
            → (elim o [ none ↦ false | some a ↦ a == account ]
                && not_cancelled p.status
                && since day p.assigned_at)
              ≡ false
        no_account none h = refl
        no_account (some a) h = absurd (cc)

claim_one_by_one_used :
    (now account day : ℕ) (ps : List Po) (db : Db)
    → IsBooked db
    → Free ps db.pos
    → used_today account day (claim_one_by_one now account ps db).0
      ≤ used_today account day db + length ps
unfolding claim_one_by_one
claim_one_by_one_used now account day [] db v free = omega arith
claim_one_by_one_used now account day (p ∷ ps) db v free =
    let (rest, head) = Free-tail p ps db.pos free in
    let db' = claim_rows now account (p ∷ []) db in
    let m = claim_rows-Moves now account (p ∷ []) db v head in
    elim (Bool-cases (breaks_unique db'.pos)) [
      | inl e ↦ rw e (omega (arith, claim_one_by_one_used now account day ps db v rest))
      | inr e ↦
          let later =
            claim_one_by_one_used now account day ps db' m.valid
              (claim_rows-Free now account ps (p ∷ []) db rest) in
          let first = claim_rows_used now account day (p ∷ []) db v in
          rw e (omega (arith, later, first))
    ]

claim_batch_used :
    (now account day : ℕ) (ps : List Po) (db : Db)
    → IsBooked db
    → Free ps db.pos
    → used_today account day (claim_batch now account ps db).0
      ≤ used_today account day db + length ps
unfolding claim_batch
claim_batch_used now account day ps db v free =
    elim (Bool-cases (breaks_unique (claim_rows now account ps db).pos)) [
      | inl e ↦ rw e (claim_one_by_one_used now account day ps db v free)
      | inr e ↦ rw e (claim_rows_used now account day ps db v)
    ]

give_more_used :
    (now : ℕ) (locked : List ℕ) (day : ℕ) (c : Claim) (country : String) (old : List Po) (room : ℕ)
    (db : Db)
    → IsBooked db
    → used_today c.buyer_account_id day (give_more now locked c country old room db).0
      ≤ used_today c.buyer_account_id day db + room
unfolding give_more candidates
give_more_used now locked day c country old room db v =
    let ps = candidates locked c.team_id country room db in
    let used =
      claim_batch_used now c.buyer_account_id day ps db v
        (candidates-Free locked c.team_id country room db v) in
    let few : length ps ≤ room = length-first_rows room _ in omega (arith, used, few)

give_capped_used :
    (now : ℕ) (locked : List ℕ) (day : ℕ) (c : Claim) (country : String) (old : List Po)
    (room top : ℕ) (db : Db)
    → IsBooked db
    → used_today c.buyer_account_id day
        (give_capped now locked day c country old room (some top) db).0
      ≤ max (used_today c.buyer_account_id day db) top
unfolding give_capped
give_capped_used now locked day c country old room top db v =
    let used = used_today c.buyer_account_id day db in
    elim (Bool-cases (leb top used)) [
      | inl e ↦ rw e (omega arith)
      | inr e ↦
          let more = give_more_used now locked day c country old (min room (top - used)) db v in
          let less : used < top = ground arith in rw e (omega (arith, more, less))
    ]

-- A pull never takes an account over its daily limit: afterwards the execution orders that count for the
-- day, those assigned since its start and not cancelled, are at most the limit, or as many as before
-- where they already were more.
pub cap_kept :
    (now : ℕ) (locked : List ℕ) (day : ℕ) (cfg : Config) (c : Claim) (top : ℕ) (db db' : Db)
    (given : Given)
    → IsBooked db
    → c.daily_cap ≡ some top
    → claim_tasks_for_account now locked day cfg c db ≡ ok (db', given)
    → used_today c.buyer_account_id day db' ≤ max (used_today c.buyer_account_id day db) top
unfolding claim_tasks_for_account give_country give_room
cap_kept now locked day cfg c top db db' given v capped h =
    Holds-eq_ok Within _ (db', given)
      (if-elim (Holds Within) (str_eq c.account_status "active") _ _
        (λ _. by_country (country_of c.site)) λ _. same)
      h
  where
    Within : Db × Given → Type 0
    Within r =
        used_today c.buyer_account_id day r.0 ≤ max (used_today c.buyer_account_id day db) top

    same : used_today c.buyer_account_id day db ≤ max (used_today c.buyer_account_id day db) top
    same = omega arith

    by_country : (o : Option String) → Holds Within (give_country now locked day cfg c o db)
    by_country none = same
    by_country (some country) =
        let want = wanted cfg c.limit in
        let old = resumed c.team_id c.buyer_account_id want db.pos in
        if-elim (Holds Within) (leb want (length old)) _ _ (λ _. same)
          λ _.
            if-elim (Holds Within) (any_row (has_account c.team_id c.buyer_account_id) db.accounts)
              _ _
              (λ _.
                rw capped
                  (give_capped_used now locked day c country old (want - length old) top db v))
              λ _. tt

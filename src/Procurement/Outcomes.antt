-- ===== src/Procurement/Outcomes.antt =====
-- What a run of the operations of backend/src/erp/order/procurement.py and dispatch.py means for a
-- channel order and for its execution order.
use erp_all.Prelude.{
  ℕ, ◌-◌, ◌≡◌, inl, inr, String, true, false, Option, none, some, List, [], ◌∷◌, arith, if-elim,
  All-In, find_key, find_key-In, Grows-find_key, Bool-cases, Result, ok, err, leb, length, str_eq,
  any_row,
}
use erp_all.Procurement.{Status, Po, Db, Error, po_key}
use erp_all.Procurement.Manual.{assign_po_to_buyer_account, dispatch_loaded, claim_po, claim_loaded}
use erp_all.Procurement.Release.{
  is_bought, backfill_po, backfill_loaded, exception_po, except_loaded, release_po, release_loaded,
  plugin_manual_backfill, copy_loaded,
}
use erp_all.Procurement.Dispatch.{
  Claim, Given, Config, is_candidate, candidates, give_more, give_capped, give_room, give_country,
  country_of, claim_tasks_for_account, wanted, resumed, used_today, has_account, is_unassigned,
}
use erp_all.Procurement.Runs.{
  Op, create, assign, dispatch, take, backfill, except, release, copy, pull, kept, kept_db, step,
  run,
}
use erp_all.Procurement.Book.{is_before, IsSafe, Lasts, IsBooked, Moves, Moves-refl, Moves-trans}
use erp_all.Procurement.Keeps.{
  Good, loaded, dispatch_loaded-Moves, claim_loaded-Moves, backfill_loaded-Moves,
  except_loaded-Moves, release_loaded-Moves, copy_loaded-Moves,
}
use erp_all.Procurement.History.{
  Ends, assign_po-Moves, create_po-Moves, claim_batch-Moves, candidates-Free,
}

give_more-Moves :
    (now : ℕ) (locked : List ℕ) (c : Claim) (country : String) (old : List Po) (room : ℕ) (db : Db)
    → IsBooked db
    → Moves db (give_more now locked c country old room db).0
unfolding give_more
give_more-Moves now locked c country old room db v =
    claim_batch-Moves now c.buyer_account_id (candidates locked c.team_id country room db) db v
      (candidates-Free locked c.team_id country room db v)

give_capped-Moves :
    (now : ℕ) (locked : List ℕ) (day : ℕ) (c : Claim) (country : String) (old : List Po) (room : ℕ)
    (top : Option ℕ) (db : Db)
    → IsBooked db
    → Moves db (give_capped now locked day c country old room top db).0
unfolding give_capped
give_capped-Moves now locked day c country old room none db v =
    give_more-Moves now locked c country old room db v
give_capped-Moves now locked day c country old room (some limit) db v =
    if-elim (λ (r : Db × Given). Moves db r.0) (leb limit (used_today c.buyer_account_id day db)) _
      _ (λ _. Moves-refl db v) λ _. give_more-Moves now locked c country old _ db v

claim_tasks-Moves :
    (now : ℕ) (locked : List ℕ) (day : ℕ) (cfg : Config) (c : Claim) (db : Db)
    → IsBooked db
    → Ends db (claim_tasks_for_account now locked day cfg c db)
unfolding claim_tasks_for_account give_country give_room
claim_tasks-Moves now locked day cfg c db v =
    if-elim (Ends {A = Given} db) (str_eq c.account_status "active") _ _
      (λ _. by_country (country_of c.site)) λ _. Moves-refl db v
  where
    by_country : (o : Option String) → Ends db (give_country now locked day cfg c o db)
    by_country none = Moves-refl db v
    by_country (some country) =
        let want = wanted cfg c.limit in
        let old = resumed c.team_id c.buyer_account_id want db.pos in
        if-elim (Ends {A = Given} db) (leb want (length old)) _ _ (λ _. Moves-refl db v)
          λ _.
            if-elim (Ends {A = Given} db)
              (any_row (has_account c.team_id c.buyer_account_id) db.accounts) _ _
              (λ _.
                give_capped-Moves now locked day c country old (want - length old) c.daily_cap db v)
              λ _. tt

kept-Moves :
    {A : Type 0} (db : Db) (r : Result Error (Db × A))
    → IsBooked db
    → Ends db r
    → Moves db (kept db r)
kept-Moves db (ok (db', a)) v m = m
kept-Moves db (err e) v m = Moves-refl db v

kept_db-Moves : (db : Db) (r : Result Error Db) → IsBooked db → Good db r → Moves db (kept_db db r)
kept_db-Moves db (ok db') v m = m
kept_db-Moves db (err e) v m = Moves-refl db v

step-Moves : (op : Op) (db : Db) → IsBooked db → Moves db (step op db)
unfolding step assign_po_to_buyer_account claim_po backfill_po exception_po release_po
    plugin_manual_backfill
step-Moves (create now actor team order purchaser) db v =
    kept-Moves db _ v (create_po-Moves now actor db team order purchaser v)
step-Moves (assign now actor team id purchaser) db v =
    kept_db-Moves db _ v (assign_po-Moves now actor db team id purchaser v)
step-Moves (dispatch now actor team id account) db v = kept_db-Moves db _ v (
    loaded db v id team (dispatch_loaded now actor db team account)
      λ p f. dispatch_loaded-Moves db v p f now actor team account)
step-Moves (take team id) db v =
    kept_db-Moves db _ v (loaded db v id team (claim_loaded db) λ p f. claim_loaded-Moves db v p f)
step-Moves (backfill now team id fields) db v = kept_db-Moves db _ v (
    loaded db v id team (backfill_loaded now db fields)
      λ p f. backfill_loaded-Moves db v p f now fields)
step-Moves (except team id reason kind) db v = kept_db-Moves db _ v (
    loaded db v id team (except_loaded db reason kind)
      λ p f. except_loaded-Moves db v p f reason kind)
step-Moves (release team id) db v =
    kept_db-Moves db _ v
      (loaded db v id team (release_loaded db) λ p f. release_loaded-Moves db v p f)
step-Moves (copy now team id ref fields) db v = kept_db-Moves db _ v (
    loaded db v id team (copy_loaded now db ref fields)
      λ p f. copy_loaded-Moves db v p f now ref fields)
step-Moves (pull now locked day cfg c) db v =
    kept-Moves db _ v (claim_tasks-Moves now locked day cfg c db v)

run-Moves : (ops : List Op) (db : Db) → IsBooked db → Moves db (run ops db)
unfolding run
run-Moves [] db v = Moves-refl db v
run-Moves (op ∷ ops) db v =
    Moves-trans db (step op db) _ (step-Moves op db v) (run-Moves ops (step op db))

-- In every run, an execution order keeps its channel order; a rate that is locked stays as it is; one
-- that is bought stays bought; and one that is backfilled or cancelled is left alone altogether.
pub run_lasting :
    (ops : List Op) (db : Db) (k : ℕ) (p : Po)
    → IsBooked db
    → find_key po_key k db.pos ≡ some p
    → (q : Po) × (find_key po_key k (run ops db).pos ≡ some q) × Lasts p q
run_lasting ops db k p v h =
    Grows-find_key po_key Lasts (λ x y l. l.id) k db.pos (run ops db).pos p
      (run-Moves ops db v).lasts h

never_candidate :
    (locked : List ℕ) (team : ℕ) (country : String) (db : Db) (p : Po)
    → is_before p.status ≡ false
    → is_candidate locked team country db p ≡ false
unfolding is_candidate
never_candidate locked team country db p h =
    elim (Bool-cases (is_candidate locked team country db p)) [
      | inr e ↦ e
      | inl e ↦ let waits = unassigned_before p.status (ground arith) in absurd (cc)
    ]
  where
    unassigned_before : (s : Status) → is_unassigned s ≡ true → is_before s ≡ true
    unassigned_before s u = ground arith

-- In every run, an execution order that has a reference or a time of purchase is never offered again: it
-- is not unassigned, assigned or claimed, and the dispatch to buyer accounts does not select it.
pub run_bought :
    (ops : List Op) (db : Db) (k : ℕ) (p : Po) (locked : List ℕ) (team : ℕ) (country : String)
    → IsBooked db
    → find_key po_key k db.pos ≡ some p
    → is_bought p ≡ true
    → (q : Po) × (find_key po_key k (run ops db).pos ≡ some q)
      × (is_before q.status ≡ false)
      × (is_candidate locked team country (run ops db) q ≡ false)
run_bought ops db k p locked team country v h b =
    let (q, found, last) = run_lasting ops db k p v h in
    let safe : IsSafe q =
      All-In IsSafe q (run ops db).pos (run-Moves ops db v).valid.safe
        (find_key-In po_key k (run ops db).pos q found) in
    let over = safe.bought_once (last.bought b) in
    (q, found, over, never_candidate locked team country (run ops db) q over)

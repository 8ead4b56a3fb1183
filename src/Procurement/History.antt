-- ===== src/Procurement/History.antt =====
-- Any run of the operations of backend/src/erp/order/procurement.py and dispatch.py: one execution order
-- in flight for each channel order, and what an execution order keeps.
use erp_all.Prelude.{
  ℕ, suc, ◌<◌, ◌≡◌, refl, sym, subst, ◌∙◌, inl, inr, String, true, false, not, Option, none, some,
  List, [], ◌∷◌, arith, ◌==◌, ==→eq, if-elim, All, All-imp, All-In, All-append, All-from_In,
  All-always, All-update_where, In, any_row, any_row-All, any_row-eq_true, count_where,
  count_where-append, count_where-none, Distinct-unique, Distinct-append_fresh, Grows-append,
  Bool-cases, Result, ok, err, Holds, select_where, select_where-In,
}
use erp_all.Prelude.Sorting.{sort_by-All, first_rows-All}
use erp_all.Procurement.{
  Status, Po, Order, Db, Error, po_key, is_none, is_in_flight, in_flight, is_blocked, can_create,
  breaks_unique,
}
use erp_all.Procurement.Manual.{
  assign_po, assign_loaded, new_po, insert_po, assign_new, create_for, create_among, create_po,
}
use erp_all.Procurement.Dispatch.{
  is_candidate, candidates, is_named, takes, given_to, claim_rows, claim_one_by_one, claim_batch,
  is_unassigned,
}
use erp_all.Procurement.Book.{
  is_before, IsSafe, Lasts, Lasts-refl, IsBooked, Moves, Moves-refl, Moves-trans, update_pos-Moves,
}
use erp_all.Procurement.Keeps.{Good, loaded, assign_loaded-Moves}

pub assign_po-Moves :
    (now : ℕ) (actor : Option ℕ) (db : Db) (team id purchaser : ℕ)
    → IsBooked db
    → Good db (assign_po now actor db team id purchaser)
unfolding assign_po
assign_po-Moves now actor db team id purchaser v =
    loaded db v id team (assign_loaded now actor db team purchaser)
      λ p f. assign_loaded-Moves db v p f now actor team purchaser

-- The new row is the only one of its channel order in flight.
insert_po-Moves :
    (now : ℕ) (db : Db) (team : ℕ) (o : Order)
    → IsBooked db
    → o.team_id ≡ team
    → any_row (in_flight team o.id) db.pos ≡ false
    → Moves db (insert_po now db o)
unfolding insert_po new_po
insert_po-Moves now db team o v same alone =
    let new = new_po now db.next_po o in
    record {
      valid = record {
        once = Distinct-append_fresh po_key db.pos new v.once v.below;
        below =
            All-append (λ (p : Po). p.id < suc db.next_po) db.pos (new ∷ [])
              (All-imp (λ (p : Po). p.id < db.next_po) _ db.pos (λ p l. omega arith) v.below)
              (omega arith, tt);
        single = λ t k.
            let split = count_where-append (in_flight t k) db.pos (new ∷ []) in
            let old = v.single t k in
            elim (Bool-cases (in_flight t k new)) [
              | inl e ↦
                  let team_same : o.team_id ≡ t = ==→eq _ _ (ground arith) in
                  let order_same : o.id ≡ k = ==→eq _ _ (ground arith) in
                  let zero_there : count_where (in_flight t k) db.pos ≡ 0 =
                    subst (λ x. count_where (in_flight x k) db.pos ≡ 0) (sym same ∙ team_same)
                      (subst (λ x. count_where (in_flight team x) db.pos ≡ 0) order_same
                        (count_where-none (in_flight team o.id) db.pos
                          (any_row-All (in_flight team o.id) db.pos alone))) in
                  let one : count_where (in_flight t k) (new ∷ []) ≡ 1 = rw e refl in
                  omega (arith, split, zero_there, one)
              | inr e ↦
                  let zero_more : count_where (in_flight t k) (new ∷ []) ≡ 0 = rw e refl in
                  omega (arith, split, old, zero_more)
            ];
        safe =
            All-append IsSafe db.pos (new ∷ []) v.safe
              (record { one_path = λ e. refl; bought_once = λ e. absurd (cc) }, tt);
      };
      lasts = Grows-append Lasts Lasts-refl db.pos (new ∷ []);
    }

abbrev pub Ends : {A : Type 0} → Db → Result Error (Db × A) → Type 0
Ends db = Holds (λ p. Moves db p.0)

create_for-Moves :
    (now : ℕ) (actor : Option ℕ) (db : Db) (team : ℕ) (purchaser : Option ℕ) (o : Order)
    → IsBooked db
    → Ends db (create_for now actor db team purchaser o)
unfolding create_for
create_for-Moves now actor db team purchaser o v =
    if-elim (Ends {A = ℕ} db) (not (o.team_id == team)) _ _ (λ _. tt)
      λ t.
        if-elim (Ends {A = ℕ} db) (not (can_create o.internal_status)) _ _ (λ _. tt)
          λ _.
            if-elim (Ends {A = ℕ} db) (any_row (in_flight team o.id) db.pos) _ _ (λ _. tt)
              λ alone.
                if-elim (Ends {A = ℕ} db) (is_blocked db team o.id) _ _ (λ _. tt)
                  λ _.
                    let new = insert_po now db o in
                    let m = insert_po-Moves now db team o v (==→eq _ _ (ground arith)) alone in
                    given new (assign_new now actor new team db.next_po purchaser) m
                      (by_purchaser new purchaser m.valid)
  where
    by_purchaser :
        (new : Db) (who : Option ℕ)
        → IsBooked new
        → Good new (assign_new now actor new team db.next_po who)
    by_purchaser new none w = Moves-refl new w
    by_purchaser new (some x) w = assign_po-Moves now actor new team db.next_po x w

    given :
        (new : Db) (r : Result Error Db)
        → Moves db new
        → Good new r
        → Ends {A = ℕ} db (elim r [ err e ↦ err e | ok db' ↦ ok (db', db.next_po) ])
    given new (ok db') m g = Moves-trans db new db' m λ _. g
    given new (err e) m g = tt

pub create_po-Moves :
    (now : ℕ) (actor : Option ℕ) (db : Db) (team order : ℕ) (purchaser : Option ℕ)
    → IsBooked db
    → Ends db (create_po now actor db team order purchaser)
unfolding create_po
create_po-Moves now actor db team order purchaser v =
    among (select_where (λ (o : Order). o.id == order) db.orders)
  where
    among : (os : List Order) → Ends db (create_among now actor db team purchaser os)
    among [] = tt
    among (o ∷ []) = create_for-Moves now actor db team purchaser o v
    among (_ ∷ _ ∷ _) = tt

-- No row that a claim names has a purchaser.
abbrev pub Free : List Po → List Po → Type 0
Free ps = All λ (p : Po). is_named ps p ≡ true → p.purchaser_id ≡ none

unassigned_waits :
    (s : Status) → is_unassigned s ≡ true → (is_before s ≡ true) × (is_in_flight s ≡ true)
unassigned_waits s h = ground arith

pub claim_rows-Moves :
    (now account : ℕ) (ps : List Po) (db : Db)
    → IsBooked db
    → Free ps db.pos
    → Moves db (claim_rows now account ps db)
unfolding claim_rows
claim_rows-Moves now account ps db v free =
    update_pos-Moves (takes ps) (given_to now account) db _ v (λ p. refl)
      (All-always _
        (λ p e. record {
          id = refl;
          team_id = refl;
          order_id = refl;
          rate = λ r h. h;
          bought = λ h. h;
          over = λ h. let flies = (unassigned_waits p.status (ground arith)).1 in absurd (cc);
        })
        db.pos)
      (All-always _ (λ p e. (unassigned_waits p.status (ground arith)).1) db.pos)
      (All-imp (λ (p : Po). is_named ps p ≡ true → p.purchaser_id ≡ none) _ db.pos
        (λ p f e s. record {
          one_path = λ _. f (ground arith);
          bought_once = λ b.
              let waits = (unassigned_waits p.status (ground arith)).0 in
              let over = s.bought_once b in absurd (cc);
        })
        free)

pub claim_rows-Free :
    (now account : ℕ) (qs ps : List Po) (db : Db)
    → Free qs db.pos
    → Free qs (claim_rows now account ps db).pos
unfolding claim_rows
claim_rows-Free now account qs ps db free =
    All-update_where (λ (p : Po). is_named qs p ≡ true → p.purchaser_id ≡ none) (takes ps)
      (given_to now account) db.pos (λ p e f. f) free

pub Free-tail : (p : Po) (ps xs : List Po) → Free (p ∷ ps) xs → Free ps xs × Free (p ∷ []) xs
Free-tail p ps xs free = (
  All-imp (λ (x : Po). is_named (p ∷ ps) x ≡ true → x.purchaser_id ≡ none) _ xs
      (λ x f e. f (ground arith)) free,
  All-imp (λ (x : Po). is_named (p ∷ ps) x ≡ true → x.purchaser_id ≡ none) _ xs
      (λ x f e. f (ground arith)) free,
)

claim_one_by_one-Moves :
    (now account : ℕ) (ps : List Po) (db : Db)
    → IsBooked db
    → Free ps db.pos
    → Moves db (claim_one_by_one now account ps db).0
unfolding claim_one_by_one
claim_one_by_one-Moves now account [] db v free = Moves-refl db v
claim_one_by_one-Moves now account (p ∷ ps) db v free =
    let (rest, head) = Free-tail p ps db.pos free in
    let db' = claim_rows now account (p ∷ []) db in
    let m = claim_rows-Moves now account (p ∷ []) db v head in
    elim (Bool-cases (breaks_unique db'.pos)) [
      | inl e ↦ rw e (claim_one_by_one-Moves now account ps db v rest)
      | inr e ↦ rw e (
          Moves-trans db db' _ m λ w.
            claim_one_by_one-Moves now account ps db' w
              (claim_rows-Free now account ps (p ∷ []) db rest))
    ]

pub claim_batch-Moves :
    (now account : ℕ) (ps : List Po) (db : Db)
    → IsBooked db
    → Free ps db.pos
    → Moves db (claim_batch now account ps db).0
unfolding claim_batch
claim_batch-Moves now account ps db v free =
    let db' = claim_rows now account ps db in
    elim (Bool-cases (breaks_unique db'.pos)) [
      | inl e ↦ rw e (claim_one_by_one-Moves now account ps db v free)
      | inr e ↦ rw e (claim_rows-Moves now account ps db v free)
    ]

-- The candidates are rows of the table that have no purchaser, and their keys are theirs alone.
pub candidates-Free :
    (locked : List ℕ) (team : ℕ) (country : String) (n : ℕ) (db : Db)
    → IsBooked db
    → Free (candidates locked team country n db) db.pos
unfolding candidates is_candidate
candidates-Free locked team country n db v = All-from_In _ db.pos λ p i named.
    let (q, j, same) =
      any_row-eq_true (λ (q : Po). p.id == q.id) (candidates locked team country n db) named in
    let (k, unbought) =
      All-In (λ (x : Po). In x db.pos × (is_none x.purchaser_id ≡ true)) q _ chosen j in
    let one : q ≡ p = Distinct-unique po_key db.pos q p v.once k i (sym (==→eq _ _ same)) in
    none_of p.purchaser_id (subst (λ (x : Po). is_none x.purchaser_id ≡ true) one unbought)
  where
    none_of : (o : Option ℕ) → is_none o ≡ true → o ≡ none
    none_of none h = refl
    none_of (some x) h = absurd (cc)

    chosen :
        All
          (λ (x : Po). In x db.pos × (is_none x.purchaser_id ≡ true))
          (candidates locked team country n db)
    chosen = first_rows-All _ n _ (
        sort_by-All _ _ (select_where (is_candidate locked team country db) db.pos) (
          All-from_In _ (select_where (is_candidate locked team country db) db.pos) λ x i.
            let (k, t) = select_where-In (is_candidate locked team country db) db.pos x i in
            (k, ground arith)))

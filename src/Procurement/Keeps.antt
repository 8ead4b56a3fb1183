-- ===== src/Procurement/Keeps.antt =====
-- Each operation of backend/src/erp/order/procurement.py keeps the execution orders right.
use erp_all.Prelude.{
  ℕ, ◌≡◌, refl, sym, ap, subst, ◌∙◌, inl, inr, String, Bool, true, false, not, Option, none, some,
  List, [], ◌∷◌, arith, ◌==◌, ◌||◌, if-elim, find_key, find_key-eq_some, Bool-cases, Result, ok,
  err, Holds, str_eq,
}
use erp_all.Procurement.{
  Status, Po, Order, Purchaser, Account, Db, Error, po_key, is_none, is_some, is_in_flight, write,
  owned, load_po, can_assign, is_blocked, allot, breaks_unique,
}
use erp_all.Procurement.Manual.{
  manned, assign_with, assign_loaded, dispatched_to, dispatch_with, dispatch_loaded, claimed_po,
  is_assigned, claim_loaded,
}
use erp_all.Procurement.Release.{
  is_bought, set_column, set_columns, backfill_fields, backfilled_po, can_backfill, backfill_loaded,
  excepted_po, except_loaded, is_exception, released_po, release_loaded, manual_fields, copied_po,
  can_copy, copy_loaded, or_now, buy, hand_back,
}
use erp_all.Procurement.Book.{is_before, IsSafe, Lasts, IsBooked, Moves, write-Moves}

assignable : (s : Status) → can_assign s ≡ true → (is_before s ≡ true) × (is_in_flight s ≡ true)
assignable s h = ground arith

backfillable : (s : Status) → can_backfill s ≡ true → is_in_flight s ≡ true
backfillable s h = ground arith

copiable : (s : Status) → can_copy s ≡ true → is_in_flight s ≡ true
copiable s h = ground arith

exception_flies : (s : Status) → is_exception s ≡ true → is_in_flight s ≡ true
exception_flies s h = ground arith

assigned_waits :
    (s : Status) → is_assigned s ≡ true → (is_before s ≡ true) × (is_in_flight s ≡ true)
assigned_waits s h = ground arith

or_right : (a b : Bool) → b ≡ true → (a || b) ≡ true
or_right true b h = refl
or_right false b h = h

abbrev pub Good : Db → Result Error Db → Type 0
Good db = Holds (Moves db)

module _ (db : Db) (v : IsBooked db) where
  -- The row that was loaded is the one of the table.
  pub loaded :
      (id team : ℕ) (f : Po → Result Error Db)
      → ((p : Po) → find_key po_key p.id db.pos ≡ some p → Good db (f p))
      → Good db (elim (load_po db id team) [ err e ↦ err e | ok p ↦ f p ])
  unfolding load_po owned
  loaded id team f g = by_row (find_key po_key id db.pos) λ p e.
      subst (λ k. find_key po_key k db.pos ≡ some p) (sym (find_key-eq_some po_key id db.pos p e)) e
    where
      by_row :
          (o : Option Po)
          → ((p : Po) → o ≡ some p → find_key po_key p.id db.pos ≡ some p)
          → Good db (elim (owned team o) [ err e ↦ err e | ok p ↦ f p ])
      by_row none h = tt
      by_row (some p) h =
          if-elim (λ r. Good db (elim r [ err e ↦ err e | ok q ↦ f q ])) (p.team_id == team) (ok p)
            (err Error.procurement_not_found) (λ _. g p (h p refl)) λ _. tt

  module _ (p : Po) (found : find_key po_key p.id db.pos ≡ some p) where
    -- A change that leaves the order, the rate and the purchase as they are.
    plain-Lasts :
        (q : Po)
        → (q.id ≡ p.id) × (q.team_id ≡ p.team_id) × (q.order_id ≡ p.order_id)
        → (q.exchange_rate_locked ≡ p.exchange_rate_locked)
        → is_bought q ≡ is_bought p
        → is_in_flight p.status ≡ true
        → Lasts p q
    plain-Lasts q (a, b, c) r e f = record {
      id = a;
      team_id = b;
      order_id = c;
      rate = λ x h. r ∙ h;
      bought = λ h. e ∙ h;
      over = λ h. absurd (cc);
    }

    -- A row that waits is not bought.
    waits_unbought : IsSafe p → is_before p.status ≡ true → is_bought p ≡ false
    waits_unbought s w = elim (Bool-cases (is_bought p)) [
      | inl e ↦ let over = s.bought_once e in absurd (cc)
      | inr e ↦ e
    ]

    manned-Moves :
        (now : ℕ) (w : Purchaser) (actor : Option ℕ) (orders : List Order)
        → can_assign p.status ≡ true
        → is_some p.buyer_account_id ≡ false
        → Moves db (write db p (manned now w actor) orders)
    manned-Moves now w actor orders can free =
        let (waits, flies) = assignable p.status can in
        write-Moves db p (manned now w actor) orders v found (λ x. refl)
          (plain-Lasts (manned now w actor p) (refl, refl, refl) refl refl flies) flies
          λ s. record {
            one_path = λ e. absurd (cc);
            bought_once = λ e. let no = waits_unbought s waits in absurd (cc);
          }

    assign_with-Moves :
        (now : ℕ) (actor : Option ℕ) (team : ℕ) (o : Option Purchaser)
        → can_assign p.status ≡ true
        → is_some p.buyer_account_id ≡ false
        → Good db (assign_with now actor db team p o)
    unfolding assign_with
    assign_with-Moves now actor team none can free = tt
    assign_with-Moves now actor team (some w) can free =
        if-elim (Good db) (not (w.team_id == team)) _ _ (λ _. tt)
          λ _.
            if-elim (Good db) (not w.is_active) _ _ (λ _. tt)
              λ _.
                if-elim (Good db) (is_blocked db team p.order_id) _ _ (λ _. tt)
                  λ _. manned-Moves now w actor (allot p.order_id p.order_date db.orders) can free

    pub assign_loaded-Moves :
        (now : ℕ) (actor : Option ℕ) (team purchaser : ℕ)
        → Good db (assign_loaded now actor db team purchaser p)
    unfolding assign_loaded
    assign_loaded-Moves now actor team purchaser =
        if-elim (Good db) (not (can_assign p.status)) _ _ (λ _. tt)
          λ c.
            if-elim (Good db) (is_some p.buyer_account_id) _ _ (λ _. tt)
              λ b. assign_with-Moves now actor team _ (ground arith) b

    dispatch_with-Moves :
        (now : ℕ) (actor : Option ℕ) (team : ℕ) (o : Option Account)
        → can_assign p.status ≡ true
        → Good db (dispatch_with now actor db team p o)
    unfolding dispatch_with
    dispatch_with-Moves now actor team none can = tt
    dispatch_with-Moves now actor team (some a) can =
        let (waits, flies) = assignable p.status can in
        let db' =
          write db p (dispatched_to now a.id actor) (allot p.order_id p.order_date db.orders) in
        if-elim (Good db) (not (a.team_id == team)) _ _ (λ _. tt)
          λ _.
            if-elim (Good db) (not (str_eq a.status "active")) _ _ (λ _. tt)
              λ _.
                if-elim (Good db) (is_blocked db team p.order_id) _ _ (λ _. tt)
                  λ _.
                    if-elim (Good db) (breaks_unique db'.pos) _ _ (λ _. tt)
                      λ _.
                        write-Moves db p (dispatched_to now a.id actor) _ v found (λ x. refl)
                          (plain-Lasts (dispatched_to now a.id actor p) (refl, refl, refl) refl refl
                            flies)
                          flies
                          λ s. record {
                            one_path = λ e. refl;
                            bought_once = λ e. let no = waits_unbought s waits in absurd (cc);
                          }

    pub dispatch_loaded-Moves :
        (now : ℕ) (actor : Option ℕ) (team account : ℕ)
        → Good db (dispatch_loaded now actor db team account p)
    unfolding dispatch_loaded
    dispatch_loaded-Moves now actor team account =
        if-elim (Good db) (not (can_assign p.status)) _ _ (λ _. tt)
          λ c.
            if-elim (Good db) (is_some p.purchaser_id) _ _ (λ _. tt)
              λ b. dispatch_with-Moves now actor team _ (ground arith)

    pub claim_loaded-Moves : Good db (claim_loaded db p)
    unfolding claim_loaded
    claim_loaded-Moves =
        if-elim (Good db) (not (is_assigned p.status)) _ _ (λ _. tt)
          λ c.
            if-elim (Good db) (is_some p.buyer_account_id) _ _ (λ _. tt)
              λ b.
                let (waits, flies) = assigned_waits p.status (ground arith) in
                write-Moves db p (claimed_po db.purchasers) db.orders v found (λ x. refl)
                  (record {
                    id = refl;
                    team_id = refl;
                    order_id = refl;
                    rate = λ r e. rw e refl;
                    bought = λ e. e;
                    over = λ e. absurd (cc);
                  })
                  flies
                  λ s. record {
                    one_path = s.one_path;
                    bought_once = λ e. let no = waits_unbought s waits in absurd (cc);
                  }

    pub except_loaded-Moves :
        (reason : String) (kind : Option String) → Good db (except_loaded db reason kind p)
    unfolding except_loaded
    except_loaded-Moves reason kind =
        if-elim (Good db) (not (is_in_flight p.status)) _ _ (λ _. tt)
          λ c.
            write-Moves db p (excepted_po reason kind) db.orders v found (λ x. refl)
              (plain-Lasts (excepted_po reason kind p) (refl, refl, refl) refl refl (ground arith))
              (ground arith) λ s. record { one_path = s.one_path; bought_once = λ e. refl }

    pub release_loaded-Moves : Good db (release_loaded db p)
    unfolding release_loaded
    release_loaded-Moves =
        if-elim (Good db) (is_none p.buyer_account_id) _ _ (λ _. tt)
          λ _.
            if-elim (Good db) (not (is_exception p.status)) _ _ (λ _. tt)
              λ c.
                if-elim (Good db) (is_bought p) _ _ (λ _. tt)
                  λ b.
                    let flies = exception_flies p.status (ground arith) in
                    write-Moves db p released_po (hand_back p.order_id p.order_date db.orders) v
                      found (λ x. refl)
                      (plain-Lasts (released_po p) (refl, refl, refl) refl refl flies) flies
                      λ s. record { one_path = λ e. absurd (cc); bought_once = λ e. absurd (cc) }

    -- The columns that a backfill sets.
    record SameRow (q r : Po) : Type 0 where
      pub id : r.id ≡ q.id
      pub team_id : r.team_id ≡ q.team_id
      pub order_id : r.order_id ≡ q.order_id
      pub purchaser_id : r.purchaser_id ≡ q.purchaser_id
      pub buyer_account_id : r.buyer_account_id ≡ q.buyer_account_id

    set_column-SameRow : (f : String) (o : Option String) (q : Po) → SameRow q (set_column f o q)
    unfolding set_column
    set_column-SameRow f none q = record {
      id = refl;
      team_id = refl;
      order_id = refl;
      purchaser_id = refl;
      buyer_account_id = refl;
    }
    set_column-SameRow f (some x) q =
        if-elim (SameRow q) (str_eq f "purchase_order_ref") _ _
          (λ _. record {
            id = refl;
            team_id = refl;
            order_id = refl;
            purchaser_id = refl;
            buyer_account_id = refl;
          })
          λ _. record {
            id = refl;
            team_id = refl;
            order_id = refl;
            purchaser_id = refl;
            buyer_account_id = refl;
          }

    set_columns-SameRow :
        (fs : List String) (fields : List (String × String)) (q : Po)
        → SameRow q (set_columns fs fields q)
    unfolding set_columns
    set_columns-SameRow [] fields q = record {
      id = refl;
      team_id = refl;
      order_id = refl;
      purchaser_id = refl;
      buyer_account_id = refl;
    }
    set_columns-SameRow (f ∷ fs) fields q =
        let a = set_column-SameRow f _ q in
        let b = set_columns-SameRow fs fields (set_column f _ q) in
        record {
          id = b.id ∙ a.id;
          team_id = b.team_id ∙ a.team_id;
          order_id = b.order_id ∙ a.order_id;
          purchaser_id = b.purchaser_id ∙ a.purchaser_id;
          buyer_account_id = b.buyer_account_id ∙ a.buyer_account_id;
        }

    stamped : (now : ℕ) (o : Option ℕ) → is_some (or_now now o) ≡ true
    stamped now none = refl
    stamped now (some t) = refl

    pub backfill_loaded-Moves :
        (now : ℕ) (fields : List (String × String)) → Good db (backfill_loaded now db fields p)
    unfolding backfill_loaded backfilled_po
    backfill_loaded-Moves now fields =
        if-elim (Good db) (not (can_backfill p.status)) _ _ (λ _. tt)
          λ c.
            if-elim (Good db) (is_some p.buyer_account_id) _ _ (λ _. tt)
              λ b.
                let flies = backfillable p.status (ground arith) in
                let same = set_columns-SameRow backfill_fields fields p in
                write-Moves db p (backfilled_po now db fields)
                  (buy p.order_id p.order_date db.orders) v found
                  (λ x. (set_columns-SameRow backfill_fields fields x).id)
                  (record {
                    id = same.id;
                    team_id = same.team_id;
                    order_id = same.order_id;
                    rate = λ r e. rw e refl;
                    bought = λ e. or_right _ _ (stamped now p.purchased_at);
                    over = λ e. absurd (cc);
                  })
                  flies
                  λ s. record {
                    one_path =
                        λ e. let none_there = ap is_some same.buyer_account_id in absurd (cc);
                    bought_once = λ e. refl;
                  }

    pub copy_loaded-Moves :
        (now : ℕ) (ref : String) (fields : List (String × String))
        → Good db (copy_loaded now db ref fields p)
    unfolding copy_loaded copied_po
    copy_loaded-Moves now ref fields =
        if-elim (Good db) (is_none p.buyer_account_id) _ _ (λ _. tt)
          λ _.
            if-elim (Good db) (not (can_copy p.status)) _ _ (λ _. tt)
              λ c.
                if-elim (Good db) (is_some p.purchase_order_ref) _ _ (λ _. tt)
                  λ b.
                    let flies = copiable p.status (ground arith) in
                    let same = set_columns-SameRow manual_fields fields p in
                    write-Moves db p (copied_po now ref fields)
                      (buy p.order_id p.order_date db.orders) v found
                      (λ x. (set_columns-SameRow manual_fields fields x).id)
                      (record {
                        id = same.id;
                        team_id = same.team_id;
                        order_id = same.order_id;
                        rate = λ r e. rw e refl;
                        bought = λ e. refl;
                        over = λ e. absurd (cc);
                      })
                      flies
                      λ s. record {
                        one_path = λ e.
                            same.purchaser_id
                            ∙ s.one_path (sym (ap is_some same.buyer_account_id) ∙ e);
                        bought_once = λ e. refl;
                      }

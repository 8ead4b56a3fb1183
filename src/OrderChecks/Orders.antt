-- ===== src/OrderChecks/Orders.antt =====
-- backend/src/erp/order/checks.py: `run_order_checks`, and runs of it over time.
use erp_all.Prelude.{
  ℕ, Bool, true, false, Option, none, some, List, [], ◌∷◌, ◌++◌, ◌&&◌, ◌==◌, if◌then◌else◌,
  find_first, update_where, select_where,
}
use erp_all.OrderChecks.{
  Text, Kind, phishing, purchaser, price_limit, consistency, Result, Detail, Check, InternalStatus,
  pulled, checked, Order, Line, Db, Python, check_phishing,
}
use erp_all.OrderChecks.Run.{
  is_flagged, is_check, upsert_check, max_rate, check_price, check_purchaser, check_titles, cached,
}

abbrev pub Results : Type 0
Results = List (Kind × Result)

abbrev pub flagged_kinds : Results → List Kind
flagged_kinds [] = []
flagged_kinds ((k, r) ∷ rest) =
    let others = flagged_kinds rest in if is_flagged r then k ∷ others else others

abbrev pub has_any : List Kind → Bool
has_any [] = false
has_any (k ∷ ks) = true

abbrev pub checked_status : InternalStatus → InternalStatus
checked_status pulled = checked
checked_status s = s

abbrev pub is_order : ℕ → ℕ → Order → Bool
is_order order date o = (o.id == order) && (o.order_date == date)

-- The four checks of a run.
pub record Verdicts : Type 0 where
  pub phishing_verdict : Result × Detail
  pub purchaser_verdict : Result × Detail
  pub price_verdict : Result × Detail
  pub title_verdict : Result × Detail

-- The four upserts, in order.
unfoldable pub upsert_all : ℕ → ℕ → ℕ → Verdicts → List Check → List Check × Results
unfolding upsert_check
upsert_all team order date v checks =
    let (c1, r1) =
      upsert_check team order date phishing v.phishing_verdict.0 v.phishing_verdict.1 checks in
    let (c2, r2) =
      upsert_check team order date purchaser v.purchaser_verdict.0 v.purchaser_verdict.1 c1 in
    let (c3, r3) =
      upsert_check team order date price_limit v.price_verdict.0 v.price_verdict.1 c2 in
    let (c4, r4) =
      upsert_check team order date consistency v.title_verdict.0 v.title_verdict.1 c3 in
    (c4, (phishing, r1) ∷ (purchaser, r2) ∷ (price_limit, r3) ∷ (consistency, r4) ∷ [])

abbrev pub noticed : ℕ → List Kind → List (ℕ × List Kind) → List (ℕ × List Kind)
noticed order [] notices = notices
noticed order (k ∷ ks) notices = notices ++ ((order, k ∷ ks) ∷ [])

module _ {Num : Type 0} (py : Python Num) where
  abbrev pub titles_of : Db Num → ℕ → ℕ → Option (List (Text × Text)) → List (Text × Text)
  titles_of db order date none = cached py (find_first (is_check order date consistency) db.checks)
  titles_of db order date (some names) = names

  abbrev pub is_line : ℕ → ℕ → Line Num → Bool
  is_line order date ln = (ln.order_id == order) && (ln.order_date == date)

  unfoldable pub verdicts : Db Num → ℕ → Order → Option (List (Text × Text)) → Verdicts
  unfolding check_phishing check_price check_titles
  verdicts db team o names =
      let lns = select_where (is_line o.id o.order_date) db.lines in
      let rate = max_rate py team db.purchasers in
      record {
        phishing_verdict = check_phishing py db team o.ship_to;
        purchaser_verdict = check_purchaser py rate;
        price_verdict = check_price py db team lns rate;
        title_verdict = check_titles py db team (titles_of db o.id o.order_date names) lns;
      }

  abbrev pub closed : Results → Order → Order
  closed results o = record o {
    internal_status = checked_status o.internal_status;
    has_flag = has_any (flagged_kinds results);
  }

  -- The closing update and the notice.
  abbrev pub close_run : Db Num → Order → List Check × Results → Db Num × Results
  close_run db o out = (
    record db {
      checks = out.0;
      orders = update_where (is_order o.id o.order_date) (closed out.1) db.orders;
      notices = noticed o.id (flagged_kinds out.1) db.notices;
    },
    out.1,
  )

  unfoldable pub check_found :
      Db Num → ℕ → Option (List (Text × Text)) → Option Order → Option (Db Num × Results)
  check_found db team names none = none
  check_found db team names (some o) =
      some (close_run db o (upsert_all team o.id o.order_date (verdicts db team o names) db.checks))

  -- `none` is the exception of `.one()`, where there is no such order.
  unfoldable pub run_order_checks :
      Db Num → ℕ → ℕ → ℕ → Option (List (Text × Text)) → Option (Db Num × Results)
  run_order_checks db team order date names =
      check_found db team names (find_first (is_order order date) db.orders)

  -- What the pull and the rerun do over time, with whatever the rest of the program changes in the other
  -- tables in between.
  pub data Op : Type 0 where
    recheck : ℕ → ℕ → ℕ → Option (List (Text × Text)) → Op
    elsewhere : (Db Num → Db Num) → Op

  abbrev pub after_run : Db Num → Option (Db Num × Results) → Db Num
  after_run db none = db
  after_run db (some out) = out.0

  unfoldable pub step : Op → Db Num → Db Num
  unfolding run_order_checks
  step (recheck team order date names) db = after_run db (run_order_checks db team order date names)
  step (elsewhere change) db = record (change db) { checks = db.checks }

  unfoldable pub run : List Op → Db Num → Db Num
  unfolding step
  run [] db = db
  run (op ∷ ops) db = run ops (step op db)

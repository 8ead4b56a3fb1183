-- ===== src/OrderChecks/Flags.antt =====
-- What a run of the checks of backend/src/erp/order/checks.py leaves behind.
use erp_all.Prelude.{ℕ, ◌≡◌, Option, none, some, List, [], ◌∷◌, All, find_first}
use erp_all.OrderChecks.{
  Text, Kind, phishing, purchaser, price_limit, consistency, Result, Check, Order, Db, Python,
}
use erp_all.OrderChecks.Orders.{
  Results, flagged_kinds, has_any, is_order, Verdicts, upsert_all, verdicts, check_found,
  run_order_checks, Op, recheck, elsewhere, after_run, step, run,
}
use erp_all.OrderChecks.Upsert.{Stores, IsSticky, upsert_check-IsSticky}

upsert_all-IsSticky :
    (order date : ℕ) (c : Check) (team o d : ℕ) (v : Verdicts) (checks : List Check)
    → IsSticky order date checks c
    → IsSticky order date (upsert_all team o d v checks).0 c
unfolding upsert_all
upsert_all-IsSticky order date c team o d v checks s =
    upsert_check-IsSticky order date c team o d consistency _ _ _ (
      upsert_check-IsSticky order date c team o d price_limit _ _ _ (
        upsert_check-IsSticky order date c team o d purchaser _ _ _
          (upsert_check-IsSticky order date c team o d phishing _ _ checks s)))

module _ {Num : Type 0} (py : Python Num) where
  check_found-IsSticky :
      (order date : ℕ) (c : Check) (db : Db Num) (team : ℕ) (names : Option (List (Text × Text)))
      (o : Option Order)
      → IsSticky order date db.checks c
      → IsSticky order date (after_run py db (check_found py db team names o)).checks c
  unfolding check_found
  check_found-IsSticky order date c db team names none s = s
  check_found-IsSticky order date c db team names (some o) s =
      upsert_all-IsSticky order date c team o.id o.order_date (verdicts py db team o names)
        db.checks s

  -- A phishing flag that nobody has resolved stays: runs of the checks on this and other orders, whatever
  -- they find, and any change of the other tables leave its row as it is.
  pub run-IsSticky :
      (ops : List (Op py)) (order date : ℕ) (c : Check) (db : Db Num)
      → IsSticky order date db.checks c
      → IsSticky order date (run py ops db).checks c
  unfolding run step run_order_checks
  run-IsSticky [] order date c db s = s
  run-IsSticky (recheck team o d names ∷ ops) order date c db s =
      run-IsSticky ops order date c _
        (check_found-IsSticky order date c db team names (find_first (is_order o d) db.orders) s)
  run-IsSticky (elsewhere change ∷ ops) order date c db s =
      run-IsSticky ops order date c (record (change db) { checks = db.checks }) s

  -- The rows, the results and the order's flag agree.
  abbrev pub Agrees : ℕ → ℕ → Db Num × Results → Type 0
  Agrees order date out =
      All (λ (kr : Kind × Result). Stores order date kr.0 kr.1 out.0.checks) out.1
      × ((o : Order) × (find_first (is_order order date) out.0.orders ≡ some o)
          × (o.has_flag ≡ has_any (flagged_kinds out.1)))

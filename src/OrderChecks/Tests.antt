-- ===== src/OrderChecks/Tests.antt =====
-- Concrete runs of backend/src/erp/order/checks.py, with natural numbers for the amounts.
use erp_all.Prelude.{ℕ, ◌*◌, ◌/◌, ◌≡◌, refl, true, false, none, some, List, [], ◌∷◌, ltb}
use erp_all.Prelude.Text.{codes}
use erp_all.OrderChecks.{
  Kind, phishing, purchaser, price_limit, consistency, pass, flagged, Detail, nothing, hits, titles,
  Check, Listed, ShipTo, pulled, Order, Line, Db, Python, street_of,
}
use erp_all.OrderChecks.Run.{kind_eq}
use erp_all.OrderChecks.Orders.{Results, close_run, Op, recheck, elsewhere, run}
use erp_all.OrderChecks.Upsert.{IsSticky}
use erp_all.OrderChecks.Flags.{run-IsSticky}

abbrev numbers : Python ℕ
numbers = record {
  times = λ a b. a * b;
  divided = λ a b. a / b;
  exceeds = λ a b. ltb b a;
  default_margin = 1;
  default_rate = 7;
  default_ratio = 9;
  upper = λ s. s;
  lower = λ s. s;
  ratio = λ s t. 10;
}

abbrev ship : ShipTo
ship = record {
  address1 = codes "12 OAK STREET";
  address2 = codes ", APT 3";
  postal_code = codes "94107-1234";
}

abbrev listed : Listed
listed = record { id = 5; active = true; team_id = none; text = codes "12OAKSTREET" }

abbrev order : Order
order = record {
  id = 1;
  order_date = 20260;
  ship_to = ship;
  internal_status = pulled;
  has_flag = false;
}

abbrev line : Line ℕ
line = record {
  order_id = 1;
  order_date = 20260;
  channel_line_no = codes "1";
  product_id = some 3;
  unit_price = 20;
}

abbrev start : Db ℕ
start = record {
  orders = order ∷ [];
  lines = line ∷ [];
  products = record { id = 3; title = codes "cup"; list_price = some 15 } ∷ [];
  purchasers = record { team_id = 7; active = true; exchange_rate = 7 } ∷ [];
  addresses = listed ∷ [];
  zips = [];
  checks = [];
  team_setting = λ t. none;
  system_setting = none;
  notices = [];
}

normalizes : street_of numbers ship ≡ codes "12OAKSTREETAPT3"
unfolding street_of
normalizes = refl

abbrev flag : Check
flag = record {
  team_id = 7;
  order_id = 1;
  order_date = 20260;
  kind = phishing;
  result = flagged;
  detail = hits (some 5) none;
  resolved_by = none;
  resolved_at = none;
}

abbrev flagged_db : Db ℕ
flagged_db = record start { addresses = []; checks = flag ∷ [] }

flagged_db-IsSticky : IsSticky 1 20260 flagged_db.checks flag
unfolding kind_eq
flagged_db-IsSticky = record { found = refl; raised = refl; unresolved = refl }

abbrev reruns : List (Op numbers)
reruns =
    recheck 7 1 20260 none
    ∷ elsewhere (λ db. record db { purchasers = [] })
    ∷ recheck 7 1 20260 none
    ∷ []

run-IsSticky_example : IsSticky 1 20260 (run numbers reruns flagged_db).checks flag
run-IsSticky_example = run-IsSticky numbers reruns 1 20260 flag flagged_db flagged_db-IsSticky

abbrev results : Results
results = (phishing, flagged) ∷ (purchaser, pass) ∷ (price_limit, pass) ∷ (consistency, pass) ∷ []

abbrev row : Kind → Detail → Check
row k d = record flag { kind = k; result = pass; detail = d }

abbrev rechecked_rows : List Check
rechecked_rows =
    flag ∷ row purchaser nothing ∷ row price_limit nothing ∷ row consistency (titles [] []) ∷ []

-- The address is off the list by now, and the flag stays.
abbrev outcome : Db ℕ × Results
outcome = close_run numbers flagged_db order (rechecked_rows, results)

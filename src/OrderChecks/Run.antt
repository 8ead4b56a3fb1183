-- ===== src/OrderChecks/Run.antt =====
-- backend/src/erp/order/checks.py: the checks on purchasers, prices and titles, `_upsert_check`, and
-- what `run_order_checks` takes from the last run.
use erp_all.Prelude.{
  ℕ, Bool, true, false, not, Option, none, some, List, [], ◌∷◌, ◌++◌, ◌&&◌, ◌==◌, if◌then◌else◌,
  find_first, any_row, update_where, select_where,
}
use erp_all.Prelude.Text.{text_eq}
use erp_all.OrderChecks.{
  Text, Kind, phishing, purchaser, price_limit, consistency, Result, pass, flagged, Detail, nothing,
  no_active_purchaser, hits, prices, titles, Check, Line, Product, Purchaser, Setting, Db, Python,
  title_norm, is_empty,
}

unfoldable pub kind_eq : Kind → Kind → Bool
kind_eq phishing phishing = true
kind_eq purchaser purchaser = true
kind_eq price_limit price_limit = true
kind_eq consistency consistency = true
kind_eq _ _ = false

abbrev pub is_flagged : Result → Bool
is_flagged flagged = true
is_flagged pass = false

abbrev pub is_unset : Option ℕ → Bool
is_unset none = true
is_unset (some t) = false

-- The constraint of ON CONFLICT, which is also the WHERE of the SELECT.
abbrev pub is_check : ℕ → ℕ → Kind → Check → Bool
is_check order date kind c =
    (c.order_id == order) && ((c.order_date == date) && kind_eq c.kind kind)

-- Phishing flagged and not resolved.
abbrev pub is_stuck : Kind → Option Check → Bool
is_stuck phishing (some c) = is_flagged c.result && is_unset c.resolved_at
is_stuck _ _ = false

abbrev pub rechecked : Result → Detail → Check → Check
rechecked result detail c = record c {
  result = result;
  detail = detail;
  resolved_by = if is_flagged result then none else c.resolved_by;
  resolved_at = if is_flagged result then none else c.resolved_at;
}

abbrev pub new_check : ℕ → ℕ → ℕ → Kind → Result → Detail → Check
new_check team order date kind result detail = record {
  team_id = team;
  order_id = order;
  order_date = date;
  kind = kind;
  result = result;
  detail = detail;
  resolved_by = none;
  resolved_at = none;
}

-- INSERT … ON CONFLICT DO UPDATE
unfoldable pub put_check : ℕ → ℕ → ℕ → Kind → Result → Detail → List Check → List Check
put_check team order date kind result detail checks =
    if any_row (is_check order date kind) checks
    then update_where (is_check order date kind) (rechecked result detail) checks
    else checks ++ (new_check team order date kind result detail ∷ [])

unfoldable pub upsert_check : ℕ → ℕ → ℕ → Kind → Result → Detail → List Check → List Check × Result
unfolding kind_eq put_check
upsert_check team order date kind result detail checks =
    if is_stuck kind (find_first (is_check order date kind) checks)
    then (checks, flagged)
    else (put_check team order date kind result detail checks, result)

module _ {Num : Type 0} (py : Python Num) where
  -- `_config`: the team's value of a key, else the system's, else the default.
  abbrev pub first_some : Option Num → Option Num → Num → Num
  first_some (some n) system d = n
  first_some none (some n) d = n
  first_some none none d = d

  abbrev pub setting_key : (Setting Num → Option Num) → Option (Setting Num) → Option Num
  setting_key key none = none
  setting_key key (some s) = key s

  abbrev pub config : (Setting Num → Option Num) → Num → Db Num → ℕ → Num
  config key d db team =
      first_some (setting_key key (db.team_setting team)) (setting_key key db.system_setting) d

  -- `max(exchange_rate)` over the active purchasers of the team.
  abbrev pub larger : Num → Option Num → Option Num
  larger n none = some n
  larger n (some m) = if py.exceeds n m then some n else some m

  abbrev pub max_rate : ℕ → List (Purchaser Num) → Option Num
  max_rate team [] = none
  max_rate team (p ∷ ps) =
      let rest = max_rate team ps in
      if p.active && (p.team_id == team) then larger p.exchange_rate rest else rest

  abbrev pub product_of : Db Num → Option ℕ → Option (Product Num)
  product_of db none = none
  product_of db (some id) = find_first (λ (p : Product Num). p.id == id) db.products

  abbrev pub price_of : Option (Product Num) → Option Num
  price_of none = none
  price_of (some p) = p.list_price

  -- The limit of a line's source price.
  abbrev pub limit_of : Db Num → ℕ → Num → Line Num → Num
  limit_of db team rate ln =
      py.divided
        (py.times (py.times ln.unit_price (config (λ s. s.margin_factor) py.default_margin db team))
          (config (λ s. s.usd_rmb_rate) py.default_rate db team))
        rate

  abbrev pub is_over : Num → Option Num → Bool
  is_over limit none = false
  is_over limit (some src) = py.exceeds src limit

  abbrev pub is_missing : Option Num → Bool
  is_missing none = true
  is_missing (some src) = false

  -- The two lists of line numbers: over the limit, and without a source price.
  abbrev pub over_lines : Db Num → ℕ → Num → List (Line Num) → List Text
  over_lines db team rate [] = []
  over_lines db team rate (ln ∷ lns) =
      let rest = over_lines db team rate lns in
      if is_over (limit_of db team rate ln) (price_of (product_of db ln.product_id))
      then ln.channel_line_no ∷ rest
      else rest

  abbrev pub missing_lines : Db Num → List (Line Num) → List Text
  missing_lines db [] = []
  missing_lines db (ln ∷ lns) =
      let rest = missing_lines db lns in
      if is_missing (price_of (product_of db ln.product_id))
      then ln.channel_line_no ∷ rest
      else rest

  abbrev pub price_result : List Text → List Text → Result × Detail
  price_result [] [] = (pass, nothing)
  price_result over missing = (flagged, prices over missing)

  unfoldable pub check_price : Db Num → ℕ → List (Line Num) → Option Num → Result × Detail
  check_price db team lns none = (pass, nothing)
  check_price db team lns (some rate) =
      price_result (over_lines db team rate lns) (missing_lines db lns)

  abbrev pub check_purchaser : Option Num → Result × Detail
  check_purchaser none = (flagged, no_active_purchaser)
  check_purchaser (some rate) = (pass, nothing)

  abbrev pub title_for : Text → List (Text × Text) → Text
  title_for line_no [] = []
  title_for line_no ((k, t) ∷ rest) = if text_eq k line_no then t else title_for line_no rest

  abbrev pub local_title : Option (Product Num) → Text
  local_title none = []
  local_title (some p) = p.title

  -- A line whose two titles are known and too far apart.
  abbrev pub mismatches : Db Num → ℕ → List (Text × Text) → Line Num → Bool
  mismatches db team names ln =
      let name = title_for ln.channel_line_no names in
      let local = local_title (product_of db ln.product_id) in
      not (is_empty name)
      && (not (is_empty local)
          && py.exceeds (config (λ s. s.consistency_ratio) py.default_ratio db team)
              (py.ratio (title_norm py.lower name) (title_norm py.lower local)))

  abbrev pub line_numbers : List (Line Num) → List Text
  line_numbers [] = []
  line_numbers (ln ∷ lns) = ln.channel_line_no ∷ line_numbers lns

  abbrev pub titles_result : List Text → List (Text × Text) → Result × Detail
  titles_result [] names = (pass, titles [] names)
  titles_result (line_no ∷ nos) names = (flagged, titles (line_no ∷ nos) names)

  unfoldable pub check_titles : Db Num → ℕ → List (Text × Text) → List (Line Num) → Result × Detail
  check_titles db team names lns =
      titles_result (line_numbers (select_where (mismatches db team names) lns)) names

  -- `channel_titles`, or those of the last run.
  abbrev pub cached : Option Check → List (Text × Text)
  cached none = []
  cached (some c) = elim c.detail [
    | titles bad names ↦ names
    | nothing ↦ []
    | no_active_purchaser ↦ []
    | hits a z ↦ []
    | prices o m ↦ []
  ]

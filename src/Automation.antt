-- ===== src/Automation.antt =====
-- backend/src/erp/core/automation.py: the three-level automation kernel. `view_policy` reads a row of
-- `automation_policy`, and `resolve_mode` looks the row up and returns the level that is in force with
-- the warning that it logs.
pub mod Levels
mod Tests
use erp_all.Prelude.{
  ℕ, String, Bool, true, false, Option, none, some, List, [], ◌∷◌, ◌&&◌, not, str_eq, ◌==◌,
  if◌then◌else◌, find_first,
}

pub data Mode : Type 0 where
  manual semi auto : Mode

pub data Evaluation : Type 0 where
  realtime snapshot : Evaluation

pub data AutomationFlow : Type 0 where
  scrape_to_audit audit_to_listing listing_dispatch pricing_watch order_block : AutomationFlow
  compliance_block refund cancel purchase_execute maintenance_run : AutomationFlow

-- `Mode.value`
unfoldable pub mode_value : Mode → String
mode_value manual = "manual"
mode_value semi = "semi"
mode_value auto = "auto"

-- `AutomationFlow.value`
unfoldable pub flow_value : AutomationFlow → String
flow_value scrape_to_audit = "scrape_to_audit"
flow_value audit_to_listing = "audit_to_listing"
flow_value listing_dispatch = "listing_dispatch"
flow_value pricing_watch = "pricing_watch"
flow_value order_block = "order_block"
flow_value compliance_block = "compliance_block"
flow_value refund = "refund"
flow_value cancel = "cancel"
flow_value purchase_execute = "purchase_execute"
flow_value maintenance_run = "maintenance_run"

unfoldable pub two : List Mode
two = manual ∷ auto ∷ []

unfoldable pub three : List Mode
three = manual ∷ semi ∷ auto ∷ []

pub record FlowSpec : Type 0 where
  pub legal_modes : List Mode
  pub evaluation : Evaluation

-- The table `FLOWS`.
unfoldable pub flows : AutomationFlow → FlowSpec
unfolding two three
flows scrape_to_audit = record { legal_modes = three; evaluation = realtime }
flows audit_to_listing = record { legal_modes = three; evaluation = realtime }
flows listing_dispatch = record { legal_modes = three; evaluation = realtime }
flows pricing_watch = record { legal_modes = three; evaluation = realtime }
flows order_block = record { legal_modes = two; evaluation = realtime }
flows compliance_block = record { legal_modes = two; evaluation = realtime }
flows refund = record { legal_modes = three; evaluation = snapshot }
flows cancel = record { legal_modes = three; evaluation = snapshot }
flows purchase_execute = record { legal_modes = three; evaluation = snapshot }
flows maintenance_run = record { legal_modes = three; evaluation = realtime }

pub data PolicyState : Type 0 where
  unset disabled configured : PolicyState

pub data Warn : Type 0 where
  disabled unknown_mode illegal_for_flow : Warn

pub record PolicyView : Type 0 where
  pub state : PolicyState
  pub stored_mode : Option String
  pub mode : Option Mode
  pub effective_mode : Mode
  pub illegal_for_flow : Bool
  pub warn : Option Warn

-- `Mode(text)`; `none` is the ValueError.
unfoldable pub parse_mode : String → Option Mode
parse_mode text =
    if str_eq text "manual"
    then some manual
    else if str_eq text "semi"
    then some semi
    else if str_eq text "auto"
    then some auto
    else none

mode_eq : Mode → Mode → Bool
mode_eq manual manual = true
mode_eq semi semi = true
mode_eq auto auto = true
mode_eq _ _ = false

-- `mode in legal_modes`
unfoldable pub is_member : Mode → List Mode → Bool
unfolding mode_eq
is_member m [] = false
is_member m (n ∷ ns) = if mode_eq m n then true else is_member m ns

-- `parsed is None or parsed not in legal`
unfoldable pub is_illegal : List Mode → Option Mode → Bool
unfolding is_member
is_illegal legal none = true
is_illegal legal (some m) = not (is_member m legal)

-- `not row_enabled`, over a nullable column.
unfoldable pub is_off : Option Bool → Bool
is_off none = true
is_off (some enabled) = not enabled

view_enabled : String → Option Mode → Bool → PolicyView
view_enabled stored none illegal = record {
  state = PolicyState.configured;
  stored_mode = some stored;
  mode = none;
  effective_mode = manual;
  illegal_for_flow = true;
  warn = some Warn.unknown_mode;
}
view_enabled stored (some m) illegal = record {
  state = PolicyState.configured;
  stored_mode = some stored;
  mode = some m;
  effective_mode = m;
  illegal_for_flow = illegal;
  warn = if illegal then some Warn.illegal_for_flow else none;
}

view_row : List Mode → String → Option Bool → PolicyView
unfolding view_enabled is_off
view_row legal stored enabled =
    let parsed = parse_mode stored in
    let illegal = is_illegal legal parsed in
    if is_off enabled
    then record {
      state = PolicyState.disabled;
      stored_mode = some stored;
      mode = parsed;
      effective_mode = manual;
      illegal_for_flow = illegal;
      warn = some Warn.disabled;
    }
    else view_enabled stored parsed illegal

unfoldable pub view_policy : AutomationFlow → Option String → Option Bool → PolicyView
unfolding view_row flows
view_policy flow none enabled = record {
  state = PolicyState.unset;
  stored_mode = none;
  mode = none;
  effective_mode = manual;
  illegal_for_flow = false;
  warn = none;
}
view_policy flow (some stored) enabled = view_row (flows flow).legal_modes stored enabled

-- A row of `automation_policy`.
pub record PolicyRow : Type 0 where
  pub team_id : ℕ
  pub flow_code : String
  pub mode : String
  pub enabled : Bool

-- `WHERE team_id = :t AND flow_code = :f`
unfoldable pub row_is_for : ℕ → AutomationFlow → PolicyRow → Bool
unfolding flow_value
row_is_for team flow row = (row.team_id == team) && str_eq row.flow_code (flow_value flow)

view_found : AutomationFlow → Option PolicyRow → PolicyView
unfolding view_policy
view_found flow none = view_policy flow none none
view_found flow (some row) = view_policy flow (some row.mode) (some row.enabled)

-- The level in force, and the warning that is logged.
unfoldable pub resolve_mode : List PolicyRow → ℕ → AutomationFlow → Mode × Option Warn
unfolding view_found row_is_for
resolve_mode table team flow =
    let view = view_found flow (find_first (row_is_for team flow) table) in
    (view.effective_mode, view.warn)

-- ===== src/Automation/Levels.antt =====
-- What `view_policy` and `resolve_mode` of backend/src/erp/core/automation.py promise.
use erp_all.Prelude.{
  ℕ, String, ◌≡◌, refl, sym, ap, ◌≢◌, ◌↔◌, inl, inr, Bool, true, false, not, Option, none, some,
  List, [], ◌∷◌, arith, str_eq_iff, ◌==◌, Option-cases, find_first, delete_where,
  find_first-eq_some, In, if◌then◌else◌,
}
use mathlib.Core.Bool.{true≢false}
use mathlib.Core.Option.{some-injective}
use erp_all.Automation.{
  Mode, manual, semi, auto, AutomationFlow, Warn, mode_value, flow_value, flows, is_member,
  parse_mode, is_illegal, view_policy, view_row, PolicyRow, row_is_for, resolve_mode,
}

-- `Mode(text)` succeeds exactly on the three values.
pub parse_mode_iff : (text : String) (m : Mode) → (parse_mode text ≡ some m) ↔ (text ≡ mode_value m)
unfolding parse_mode mode_value
parse_mode_iff text manual = (ground (arith, str_eq_iff text "manual"), λ e. simp e)
parse_mode_iff text semi = (ground (arith, str_eq_iff text "semi"), λ e. simp e)
parse_mode_iff text auto = (ground (arith, str_eq_iff text "auto"), λ e. simp e)

view_row-effective_mode_iff :
    (legal : List Mode) (stored : String) (enabled : Option Bool) (m : Mode)
    → m ≢ manual
    → ((view_row legal stored enabled).effective_mode ≡ m)
      ↔ ((parse_mode stored ≡ some m) × (enabled ≡ some true))
unfolding view_row
view_row-effective_mode_iff legal stored enabled m h = ground arith

-- A level above `manual` is in force exactly when the team has a row for the flow, the row is enabled,
-- and it stores that very level: no row, a disabled row and an unreadable value all fall back to `manual`.
pub effective_mode_iff :
    (flow : AutomationFlow) (stored : Option String) (enabled : Option Bool) (m : Mode)
    → m ≢ manual
    → ((view_policy flow stored enabled).effective_mode ≡ m)
      ↔ ((stored ≡ some (mode_value m)) × (enabled ≡ some true))
unfolding view_policy
effective_mode_iff flow none enabled m h = ground arith
effective_mode_iff flow (some stored) enabled m h =
    let row = view_row-effective_mode_iff (flows flow).legal_modes stored enabled m h in
    let read = parse_mode_iff stored m in
    (
      λ e. let (p, q) = row.0 e in (ap some (read.0 p), q),
      λ e. row.1 (read.1 (some-injective _ _ e.0), e.1),
    )

view_row-illegal_for_flow :
    (legal : List Mode) (stored : String) (enabled : Option Bool)
    → (view_row legal stored enabled).illegal_for_flow ≡ is_illegal legal (parse_mode stored)
unfolding view_row is_illegal
view_row-illegal_for_flow legal stored enabled = ground arith

is_illegal-parse_mode :
    (legal : List Mode) (stored : String)
    → (is_illegal legal (parse_mode stored) ≡ false)
      ↔ ((m : Mode) × (stored ≡ mode_value m) × (is_member m legal ≡ true))
unfolding is_illegal
is_illegal-parse_mode legal stored = (
  λ e. elim (Option-cases (parse_mode stored)) [
    | inl unread ↦ absurd (true≢false (rw unread at e))
    | inr (m, read) ↦ (m, (parse_mode_iff stored m).0 read, ground arith)
  ],
  λ (m, p, q). rw ((parse_mode_iff stored m).1 p, is_illegal, q) refl,
)

-- A level that the flow does not allow is reported but stays in force: an enabled row with a readable
-- level takes effect at that level on every flow, and a warning is logged exactly when it is illegal.
pub illegal_level_in_force :
    (flow : AutomationFlow) (m : Mode)
    → let view = view_policy flow (some (mode_value m)) (some true) in
      (view.effective_mode ≡ m)
      × (view.warn
          ≡ (if is_member m (flows flow).legal_modes then none else some Warn.illegal_for_flow))
unfolding view_policy view_row is_illegal
illegal_level_in_force flow m =
    rw ((parse_mode_iff (mode_value m) m).1 refl, view_row) (ground arith)

row_is_for_parts :
    (team : ℕ) (flow : AutomationFlow) (row : PolicyRow)
    → row_is_for team flow row ≡ true
    → (row.team_id ≡ team) × (row.flow_code ≡ flow_value flow)
unfolding row_is_for
row_is_for_parts team flow row h = ground (arith, str_eq_iff row.flow_code (flow_value flow))

-- A level above `manual` comes from a row of that team and that flow that is enabled and stores it.
pub resolve_mode_source :
    (table : List PolicyRow) (team : ℕ) (flow : AutomationFlow) (m : Mode)
    → m ≢ manual
    → (resolve_mode table team flow).0 ≡ m
    → (row : PolicyRow) × In row table
      × (row.team_id ≡ team)
      × (row.flow_code ≡ flow_value flow)
      × (row.mode ≡ mode_value m)
      × (row.enabled ≡ true)
unfolding resolve_mode
resolve_mode_source table team flow m h e =
    elim (Option-cases (find_first (row_is_for team flow) table)) [
      | inl absent ↦ absurd (h (sym (rw absent at e)))
      | inr (row, found) ↦
          let (test, place) = find_first-eq_some (row_is_for team flow) table found in
          let (own, code) = row_is_for_parts team flow row test in
          let in_force =
            (effective_mode_iff flow (some row.mode) (some row.enabled) m h).0 (rw found at e) in
          (row, place, own, code, some-injective _ _ in_force.0, some-injective _ _ in_force.1)
    ]

find_first-own_rows :
    (team : ℕ) (flow : AutomationFlow) (table : List PolicyRow)
    → find_first (row_is_for team flow) (delete_where (λ row. not (row.team_id == team)) table)
      ≡ find_first (row_is_for team flow) table
unfolding row_is_for
find_first-own_rows team flow [] = refl
find_first-own_rows team flow (row ∷ table) = ground (arith, find_first-own_rows team flow table)

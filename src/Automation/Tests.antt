-- ===== src/Automation/Tests.antt =====
-- The automation kernel at concrete rows: the theorems of Automation/Levels applied, and runs.
use erp_all.Prelude.{◌≡◌, refl, ◌≢◌, true, false, none, some, List, [], ◌∷◌}
use erp_all.Automation.{manual, semi, refund, Warn, is_illegal, parse_mode, PolicyRow, resolve_mode}

abbrev table : List PolicyRow
table =
    record { team_id = 1; flow_code = "refund"; mode = "auto"; enabled = false }
    ∷ record { team_id = 2; flow_code = "refund"; mode = "semi"; enabled = true }
    ∷ []

semi≢manual : semi ≢ manual
semi≢manual e = cc

semi_in_force : (resolve_mode table 2 refund).0 ≡ semi
unfolding resolve_mode parse_mode is_illegal
semi_in_force = refl

runs :
    (resolve_mode table 1 refund ≡ (manual, some Warn.disabled))
    × (resolve_mode table 2 refund ≡ (semi, none))
    × (resolve_mode table 3 refund ≡ (manual, none))
unfolding resolve_mode parse_mode is_illegal
runs = (refl, refl, refl)

-- ===== src/Compliance/Tests.antt =====
-- backend/src/erp/compliance/assertion.py: runs at concrete inputs.
use erp_all.Prelude.{◌≡◌, refl, inl, true, false, none, some, List, [], ◌∷◌, In}
use erp_all.Compliance.{
  brand, imported, tro_sync, block, allow, pending, active, Subject, Assertion, Row, Db,
}
use erp_all.Compliance.Ledger.{Args}
use erp_all.Compliance.Runs.{Op, note, revoke, revoke_all, rebuild, run}
use erp_all.Compliance.Agree.{Agrees, run-Agrees}
use erp_all.Compliance.History.{Keeps, run_recorded}

abbrev imports : Args
imports = record {
  team_id = some 7;
  domain = "brand";
  subject_norm = "acme";
  subject_display = some "Acme";
  source = "import";
  source_ref = none;
  reason = some "listed";
  verdict = block;
  status = "active";
}

abbrev case : Args
case = record imports { source = "tro_sync"; source_ref = some "24-1"; reason = none }

abbrev permit : Args
permit = record imports { source = "manual"; verdict = allow }

abbrev blank : Db
blank = record { ledger = []; rows = []; next_id = 1 }

abbrev history : List Op
history =
    note imports
    ∷ note case
    ∷ note permit
    ∷ revoke 3 (some 7)
    ∷ revoke_all (some 7) "brand" "tro_sync" "24-1"
    ∷ rebuild "brand" none
    ∷ []

abbrev acme : Subject
acme = record { team_id = some 7; domain = brand; norm = "acme" }

abbrev acme_row : Row
acme_row = record {
  subject = acme;
  display = some "Acme";
  reason = some "listed";
  source = imported;
  listed = true;
}

-- The allowance takes the brand off, its end puts it back on, and it stays on without the case.
ends_listed :
    (run history blank).rows ≡ record acme_row { source = tro_sync; listed = false } ∷ acme_row ∷ []
unfolding run
ends_listed = refl

run-Agrees_example : Agrees (run history blank)
run-Agrees_example = run-Agrees history blank λ y. refl

abbrev banned : Assertion
banned = record {
  id = 1;
  subject = acme;
  display = none;
  verdict = block;
  source = imported;
  source_ref = none;
  reason = none;
  status = active;
}

abbrev candidate : Assertion
candidate = record banned { id = 2; source = tro_sync; status = pending }

-- The blacklist lacks the brand of the ledger and has another one.
abbrev drifted : Db
drifted = record {
  ledger = banned ∷ candidate ∷ [];
  rows = record acme_row { subject = record acme { norm = "umbrella" } } ∷ [];
  next_id = 3;
}

run_recorded_example : (b : Assertion) × In b (run history drifted).ledger × Keeps banned b
run_recorded_example = run_recorded history drifted banned (inl refl)

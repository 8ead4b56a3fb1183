-- ===== src/Compliance/Repair.antt =====
-- backend/src/erp/compliance/assertion.py: `rebuild_canonical` repairs the blacklists from the ledger.
use erp_all.Prelude.{ℕ, ◌≡◌, true, Option}
use erp_all.Compliance.{Domain, Subject, Db}
use erp_all.Compliance.Project.{is_blocked, on_list}
use erp_all.Compliance.Rebuild.{in_scope}

-- The subjects in scope are on their lists as the ledger says.
abbrev pub Settled : Domain → Option ℕ → Db → Type 0
Settled d team db = (y : Subject) → in_scope d team y ≡ true → on_list y db ≡ is_blocked y db.ledger

-- ===== src/Procurement/Runs.antt =====
-- backend/src/erp/order/procurement.py and dispatch.py: the operations in any order; one that raises
-- leaves the tables as they were, as its transaction is rolled back.
use erp_all.Prelude.{ℕ, String, Option, List, [], ◌∷◌, Result, ok, err}
use erp_all.Procurement.{Db, Error}
use erp_all.Procurement.Manual.{create_po, assign_po, assign_po_to_buyer_account, claim_po}
use erp_all.Procurement.Release.{backfill_po, exception_po, release_po, plugin_manual_backfill}
use erp_all.Procurement.Dispatch.{Config, Claim, claim_tasks_for_account}

pub data Op : Type 0 where
  create : ℕ → Option ℕ → ℕ → ℕ → Option ℕ → Op
  assign : ℕ → Option ℕ → ℕ → ℕ → ℕ → Op
  dispatch : ℕ → Option ℕ → ℕ → ℕ → ℕ → Op
  take : ℕ → ℕ → Op
  backfill : ℕ → ℕ → ℕ → List (String × String) → Op
  except : ℕ → ℕ → String → Option String → Op
  release : ℕ → ℕ → Op
  copy : ℕ → ℕ → ℕ → String → List (String × String) → Op
  pull : ℕ → List ℕ → ℕ → Config → Claim → Op

abbrev pub kept : {A : Type 0} → Db → Result Error (Db × A) → Db
kept db (ok (db', _)) = db'
kept db (err _) = db

abbrev pub kept_db : Db → Result Error Db → Db
kept_db db (ok db') = db'
kept_db db (err _) = db

unfoldable pub step : Op → Db → Db
unfolding create_po assign_po assign_po_to_buyer_account claim_po backfill_po exception_po
    release_po plugin_manual_backfill claim_tasks_for_account
step (create now actor team order purchaser) db =
    kept db (create_po now actor db team order purchaser)
step (assign now actor team id purchaser) db = kept_db db (assign_po now actor db team id purchaser)
step (dispatch now actor team id account) db =
    kept_db db (assign_po_to_buyer_account now actor db team id account)
step (take team id) db = kept_db db (claim_po db team id)
step (backfill now team id fields) db = kept_db db (backfill_po now db team id fields)
step (except team id reason kind) db = kept_db db (exception_po db team id reason kind)
step (release team id) db = kept_db db (release_po db team id)
step (copy now team id ref fields) db =
    kept_db db (plugin_manual_backfill now db team id ref fields)
step (pull now locked day cfg c) db = kept db (claim_tasks_for_account now locked day cfg c db)

unfoldable pub run : List Op → Db → Db
unfolding step
run [] db = db
run (op ∷ ops) db = run ops (step op db)

-- ===== src/Compliance/Runs.antt =====
-- backend/src/erp/compliance/assertion.py: the operations in any order; one that raises leaves the tables
-- as they were, as its transaction is rolled back.
use erp_all.Prelude.{ℕ, String, Bool, Option, List, [], ◌∷◌, Result, ok, err}
use erp_all.Compliance.{Db}
use erp_all.Compliance.Ledger.{
  Args, Error, record_assertion, revoke_assertion, decide_assertion, revoke_by_source_ref,
}
use erp_all.Compliance.Rebuild.{rebuild_canonical}

pub data Op : Type 0 where
  note : Args → Op
  revoke : ℕ → Option ℕ → Op
  decide : ℕ → Option ℕ → Bool → Op
  revoke_all : Option ℕ → String → String → String → Op
  rebuild : String → Option ℕ → Op

abbrev pub kept : {A : Type 0} → Db → Result Error (Db × A) → Db
kept db (ok (db', _)) = db'
kept db (err _) = db

unfoldable pub step : Op → Db → Db
unfolding record_assertion revoke_assertion decide_assertion revoke_by_source_ref rebuild_canonical
step (note a) db = kept db (record_assertion a db)
step (revoke id team) db = kept db (revoke_assertion id team db)
step (decide id team approve) db = kept db (decide_assertion id team approve db)
step (revoke_all team domain source ref) db =
    kept db (revoke_by_source_ref team domain source ref db)
step (rebuild domain team) db = kept db (rebuild_canonical domain team db)

unfoldable pub run : List Op → Db → Db
unfolding step
run [] db = db
run (op ∷ ops) db = run ops (step op db)

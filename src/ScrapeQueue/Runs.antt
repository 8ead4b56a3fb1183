-- ===== src/ScrapeQueue/Runs.antt =====
-- backend/src/erp/scrape/service.py: the operations in any order; one that raises leaves the tables as
-- they were, as its transaction is rolled back.
use erp_all.Prelude.{ℕ, String, Bool, Option, List, [], ◌∷◌, Result, ok, err}
use erp_all.Gtin.{Text}
use erp_all.Outbox.Payload.{Json}
use erp_all.ScrapeQueue.{Db, Node, Error, JobArgs, create_job, cancel_job}
use erp_all.ScrapeQueue.Tasks.{Settings, register_node, sync_node, reclaim}
use erp_all.ScrapeQueue.Leases.{Submission, pull_tasks, release_tasks, submit_result}

pub data Op : Type 0 where
  create : JobArgs → Op
  cancel : ℕ → Op
  register : String → Option String → ℕ → String → String → Op
  sync : Settings → ℕ → Node → Op
  pull : Settings → ℕ → List ℕ → Node → ℕ → Op
  give_back : ℕ → List (ℕ × ℕ) → Op
  submit : ℕ → Submission → Op
  sweep : Settings → ℕ → Option ℕ → Option ℕ → Op

abbrev pub kept : {A : Type 0} → Db → Result Error (Db × A) → Db
kept db (ok (db', _)) = db'
kept db (err _) = db

abbrev pub kept_db : Db → Result Error Db → Db
kept_db db (ok db') = db'
kept_db db (err _) = db

-- What stands for code outside this file: the digest of tokens, which JSON numbers are 0, and `str`.
pub record Outside : Type 0 where
  pub digest : String → String
  pub is_zero : String → Bool
  pub text_of : Json → Text

unfoldable pub step : Outside → Op → Db → Db
unfolding create_job cancel_job register_node sync_node pull_tasks release_tasks submit_result
    reclaim
step o (create a) db = kept db (create_job db a)
step o (cancel j) db = kept_db db (cancel_job db j)
step o (register token expected now key given) db =
    kept db (register_node o.digest token expected db now key given)
step o (sync cfg now node) db = (sync_node cfg now node db).0
step o (pull cfg now locked node count) db = (pull_tasks cfg now locked node count db).0
step o (give_back worker items) db = (release_tasks worker items db).0
step o (submit worker s) db = kept db (submit_result o.is_zero o.text_of worker s db)
step o (sweep cfg now hb tm) db = (reclaim cfg now hb tm db).0

unfoldable pub run : Outside → List Op → Db → Db
unfolding step
run o [] db = db
run o (op ∷ ops) db = run o ops (step o op db)

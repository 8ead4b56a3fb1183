-- ===== src/ScrapeQueue/History.antt =====
-- Any run of the operations of backend/src/erp/scrape/service.py: the counters of the jobs, the leases
-- of the tasks, and the products that were deleted.
use erp_all.Prelude.{
  ℕ, refl, Option, none, some, List, [], ◌∷◌, String, if-elim, any_row, Result, ok, err, Holds,
  str_eq,
}
use erp_all.ScrapeQueue.{Db, Node, create_job, cancel_job, Error}
use erp_all.ScrapeQueue.Tasks.{register_node, register_with}
use erp_all.ScrapeQueue.Leases.{submit_result}
use erp_all.ScrapeQueue.Runs.{
  Op, create, cancel, register, sync, pull, give_back, submit, sweep, kept, kept_db, Outside, step,
  run,
}
use erp_all.ScrapeQueue.Tables.{IsQueue, Moves, Moves-refl, Moves-trans}
use erp_all.ScrapeQueue.Reclaims.{reclaim-Moves, sync_node-Moves, release_tasks-Moves}
use erp_all.ScrapeQueue.Pulls.{pull_tasks-Moves}
use erp_all.ScrapeQueue.Submits.{Ends, others-Moves, submit_result-Moves}
use erp_all.ScrapeQueue.Creates.{create_job-Moves, cancel_job-Moves}

kept-Moves :
    {A : Type 0} (db : Db) (r : Result Error (Db × A))
    → IsQueue db
    → Ends db r
    → Moves db (kept db r)
kept-Moves db (ok (db', a)) v m = m
kept-Moves db (err e) v m = Moves-refl db v

kept_db-Moves :
    (db : Db) (r : Result Error Db) → IsQueue db → Holds (Moves db) r → Moves db (kept_db db r)
kept_db-Moves db (ok db') v m = m
kept_db-Moves db (err e) v m = Moves-refl db v

register_node-Moves :
    (digest : String → String) (token : String) (o : Option String) (db : Db) (now : ℕ)
    (key given : String)
    → IsQueue db
    → Ends db (register_node digest token o db now key given)
unfolding register_node register_with
register_node-Moves digest token none db now key given v = tt
register_node-Moves digest token (some expected) db now key given v =
    if-elim (Ends {A = ℕ × String} db) (str_eq expected "") _ _ (λ _. tt)
      λ _.
        if-elim (Ends {A = ℕ × String} db) (str_eq given expected) _ _
          (λ _.
            if-elim (Ends {A = ℕ × String} db)
              (any_row (λ (n : Node). str_eq n.node_key key) db.nodes) _ _ (λ _. tt)
              λ _. others-Moves db db _ (Moves-refl db v) refl refl refl refl refl λ t c r d h. h)
          λ _. tt

pub step-Moves : (o : Outside) (op : Op) (db : Db) → IsQueue db → Moves db (step o op db)
unfolding step
step-Moves o (create a) db v = kept-Moves db (create_job db a) v (create_job-Moves db a v)
step-Moves o (cancel j) db v = kept_db-Moves db (cancel_job db j) v (cancel_job-Moves db j v)
step-Moves o (register token expected now key given) db v =
    kept-Moves db (register_node o.digest token expected db now key given) v
      (register_node-Moves o.digest token expected db now key given v)
step-Moves o (sync cfg now node) db v = sync_node-Moves cfg now node db v
step-Moves o (pull cfg now locked node count) db v = pull_tasks-Moves cfg now locked node count db v
step-Moves o (give_back worker items) db v = release_tasks-Moves worker items db v
step-Moves o (submit worker s) db v =
    kept-Moves db (submit_result o.is_zero o.text_of worker s db) v
      (submit_result-Moves o.is_zero o.text_of worker s db v)
step-Moves o (sweep cfg now hb tm) db v = reclaim-Moves cfg now hb tm db v

pub run-Moves : (o : Outside) (ops : List Op) (db : Db) → IsQueue db → Moves db (run o ops db)
unfolding run
run-Moves o [] db v = Moves-refl db v
run-Moves o (op ∷ ops) db v =
    Moves-trans db (step o op db) _ (step-Moves o op db v) (run-Moves o ops (step o op db))

-- ===== src/ScrapeQueue/Outcomes.antt =====
-- What a run of the operations of backend/src/erp/scrape/service.py means for a task, a job and a product.
use erp_all.Prelude.{
  ℕ, ◌+◌, ◌≡◌, true, false, some, List, [], ◌∷◌, arith, String, ◌||◌, All, All-In, In, any_row,
  find_key, Grows-find_key, count_where, count_where-exhaust,
}
use erp_all.Gtin.{Text}
use erp_all.ScrapeQueue.{Db, Task, Job, task_key, of_job, is_finished, is_dead, outcome, is_deleted}
use erp_all.ScrapeQueue.Products.{same_product}
use erp_all.ScrapeQueue.Runs.{Op, Outside, run}
use erp_all.ScrapeQueue.Lifecycle.{Evolves}
use erp_all.ScrapeQueue.Accounts.{
  Accounts, is_closed, is_cancelled, done_in, dead_in, finished_not_dead,
}
use erp_all.ScrapeQueue.Tables.{IsQueue}
use erp_all.ScrapeQueue.History.{run-Moves}

-- In every run, whatever the operations and their order, a task that the table has stays in it with its
-- job, target and limit, and moves only along the life cycle: from waiting to a lease with the next
-- number, from a lease back to waiting or to an end, from waiting to a cancelled end. An end is final.
pub run_life :
    (o : Outside) (ops : List Op) (db : Db) (k : ℕ) (t : Task)
    → IsQueue db
    → find_key task_key k db.tasks ≡ some t
    → (t' : Task) × (find_key task_key k (run o ops db).tasks ≡ some t') × Evolves t t'
run_life o ops db k t v h =
    Grows-find_key task_key Evolves (λ x y e. e.id) k db.tasks (run o ops db).tasks t
      (run-Moves o ops db v).grows h

-- In every run the keys stay unique and each job's counters stay equal to the numbers of its rows at an
-- end; only a cancelled job may have dead rows that it does not count.
pub run_counted : (o : Outside) (ops : List Op) (db : Db) → IsQueue db → IsQueue (run o ops db)
run_counted o ops db v = (run-Moves o ops db v).valid

-- After every run, a job whose status is done, partial or failed has no row that waits or is held; its
-- counters are the numbers of its rows done and dead, and sum to the total; and its status is failed if
-- none is done, else partial if some are dead, else done.
pub run_closed :
    (o : Outside) (ops : List Op) (db : Db) (j : Job)
    → IsQueue db
    → In j (run o ops db).jobs
    → is_closed j.status ≡ true
    → let ts = (run o ops db).tasks in
      (j.status ≡ outcome j)
      × (j.done_tasks + j.failed_tasks ≡ j.total_tasks)
      × (j.done_tasks ≡ count_where (done_in j.id) ts)
      × (j.failed_tasks ≡ count_where (dead_in j.id) ts)
      × All (λ t. of_job j.id t ≡ true → (is_finished t.status || is_dead t.status) ≡ true) ts
run_closed o ops db j v i c =
    let ts = (run o ops db).tasks in
    let p : Accounts ts j =
      All-In (Accounts ts) j (run o ops db).jobs (run-Moves o ops db v).valid.counted i in
    let deads = p.deads (closed_counts j.status c) in
    let whole =
      count_where-exhaust (done_in j.id) (dead_in j.id) (of_job j.id) ts
        (λ t e. ground (arith, finished_not_dead t.status)) (λ t e. ground arith)
        (omega (arith, p.total, p.dones, deads, p.closed c)) in
    (p.verdict c, p.closed c, p.dones, deads, All-rows ts whole)
  where
    closed_counts : (s : _) → is_closed s ≡ true → is_cancelled s ≡ false
    closed_counts s h = ground arith

    All-rows :
        (xs : List Task)
        → All (λ t. of_job j.id t ≡ true → (done_in j.id t || dead_in j.id t) ≡ true) xs
        → All (λ t. of_job j.id t ≡ true → (is_finished t.status || is_dead t.status) ≡ true) xs
    All-rows [] a = tt
    All-rows (x ∷ xs) a = (λ e. let h = a.0 e in ground arith, All-rows xs a.1)

-- In every run, a product that has a tombstone and is not in the table stays out of it, whatever the
-- workers send in.
pub run_deleted :
    (o : Outside) (ops : List Op) (db : Db) (team : ℕ) (source : String) (ref : Text)
    → IsQueue db
    → is_deleted db team source ref ≡ true
    → any_row (same_product team source ref) db.products ≡ false
    → any_row (same_product team source ref) (run o ops db).products ≡ false
run_deleted o ops db team source ref v d h = (run-Moves o ops db v).stays_out team source ref d h

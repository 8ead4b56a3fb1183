-- ===== src/ScrapeQueue/Reclaims.antt =====
-- `reclaim`, `sync_node` and `release_tasks` of backend/src/erp/scrape/service.py keep the tables right.
use erp_all.Prelude.{
  ℕ, ◌+◌, ◌<◌, ◌≡◌, refl, Bool, true, Option, none, List, [], ◌∷◌, arith, ◌==◌, ltb, ◌&&◌, All,
  All-update_where_imp, All-always, update_where, Distinct,
}
use erp_all.ScrapeQueue.{Db, Node, Task, Job, job_key, of_job, is_leased, is_deleted}
use erp_all.ScrapeQueue.Tasks.{
  Settings, is_stale, gives_back, gives_up, returned_task, lost_task, return_stale, fail_jobs,
  dead_jobs, bury_lost, reclaim_with, thresholds, reclaim, sync_node, beat, drop_silent, count_of,
}
use erp_all.ScrapeQueue.Leases.{release_tasks, holds_lease, returned}
use erp_all.ScrapeQueue.Lifecycle.{returned_task-Evolves, lost_task-Evolves}
use erp_all.ScrapeQueue.Accounts.{
  Accounts, Accounts-same, Accounts-failed, Opens, count_total, count_done_same, count_dead_add,
}
use erp_all.ScrapeQueue.Tables.{
  IsQueue, Moves, Moves-refl, Moves-trans, update_tasks-Moves, open_tasks-Moves, leased_open,
  jobs_once_update, jobs_below_update, finish_jobs-Moves,
}

gives_back-leased :
    (now tm : ℕ) (nodes : List Node) (t : Task)
    → gives_back now tm nodes t ≡ true
    → is_leased t.status ≡ true
unfolding is_stale
gives_back-leased now tm nodes t h = ground arith

gives_up-leased :
    (now tm : ℕ) (nodes : List Node) (t : Task)
    → gives_up now tm nodes t ≡ true
    → is_leased t.status ≡ true
unfolding is_stale
gives_up-leased now tm nodes t h = ground arith

return_stale-Moves : (now tm : ℕ) (db : Db) → IsQueue db → Moves db (return_stale now tm db)
unfolding return_stale
return_stale-Moves now tm db v =
    let test = gives_back now tm db.nodes in
    open_tasks-Moves test returned_task (λ t. (refl, refl)) db v
      (All-always _ (λ t e. returned_task-Evolves t (gives_back-leased now tm db.nodes t e))
        db.tasks)
      (All-always _ (λ t e. leased_open t.status (gives_back-leased now tm db.nodes t e)) db.tasks)
      (λ t. refl) (λ t. refl)

-- Every job with its share of the lost rows.
fail_jobs-Accounts :
    (test : Task → Bool) (ts : List Task) (jobs : List Job)
    → ((t : Task) → test t ≡ true → is_leased t.status ≡ true)
    → All (Accounts ts) jobs
    → All (Accounts (update_where test lost_task ts)) (fail_jobs test ts jobs)
unfolding fail_jobs
fail_jobs-Accounts test ts jobs leased counted =
    let opens : Opens test lost_task (λ t. refl) ts =
      All-always _ (λ t e. leased_open t.status (leased t e)) ts in
    let ts' = update_where test lost_task ts in
    let dead_now =
      λ (j : Job). count_dead_add test lost_task (λ t. refl) j.id ts opens (λ t. refl) in
    let total = λ (j : Job). count_total test lost_task (λ t. refl) j.id ts in
    let done_now =
      λ (j : Job). count_done_same test lost_task (λ t. refl) j.id ts opens (λ t. refl) in
    All-update_where_imp (Accounts ts) (Accounts ts')
      (λ (j : Job). ltb 0 (count_of (λ t. of_job j.id t && test t) ts))
      (λ (j : Job). record j {
        failed_tasks = j.failed_tasks + count_of (λ t. of_job j.id t && test t) ts;
      })
      jobs
      (λ j i e p.
        Accounts-failed ts ts' j (count_of (λ t. of_job j.id t && test t) ts) (total j) (done_now j)
          (dead_now j) p)
      (λ j i e p.
        let none_lost : count_of (λ t. of_job j.id t && test t) ts ≡ 0 = ground arith in
        Accounts-same ts ts' j (total j) (done_now j) (omega (arith, dead_now j, none_lost)) p)
      counted

abbrev failing : (Task → Bool) → List Task → Job → Job
failing test ts j = record j {
  failed_tasks = j.failed_tasks + count_of (λ t. of_job j.id t && test t) ts;
}

fail_jobs_once :
    (test : Task → Bool) (ts : List Task) (jobs : List Job)
    → Distinct job_key jobs
    → Distinct job_key (fail_jobs test ts jobs)
unfolding fail_jobs
fail_jobs_once test ts jobs d = jobs_once_update _ (failing test ts) (λ j. refl) jobs d

fail_jobs_below :
    (n : ℕ) (test : Task → Bool) (ts : List Task) (jobs : List Job)
    → All (λ (j : Job). j.id < n) jobs
    → All (λ (j : Job). j.id < n) (fail_jobs test ts jobs)
unfolding fail_jobs
fail_jobs_below n test ts jobs b = jobs_below_update _ (failing test ts) (λ j. refl) n jobs b

bury_lost-Moves : (now tm : ℕ) (db : Db) → IsQueue db → Moves db (bury_lost now tm db)
unfolding bury_lost
bury_lost-Moves now tm db v =
    let lost = gives_up now tm db.nodes in
    let leased = gives_up-leased now tm db.nodes in
    let jobs = fail_jobs lost db.tasks db.jobs in
    let buried = record db { tasks = update_where lost lost_task db.tasks; jobs = jobs } in
    Moves-trans db buried _
      (update_tasks-Moves lost lost_task (λ t. (refl, refl)) db jobs v
        (All-always _ (λ t e. lost_task-Evolves t (leased t e)) db.tasks)
        (fail_jobs_once lost db.tasks db.jobs v.jobs_once)
        (fail_jobs_below db.next_job lost db.tasks db.jobs v.jobs_below)
        (fail_jobs-Accounts lost db.tasks db.jobs leased v.counted))
      (finish_jobs-Moves (dead_jobs lost db.tasks db.jobs) buried)

pub nodes-Moves :
    (nodes : List Node) (db db' : Db)
    → IsQueue db
    → (IsQueue (record db { nodes = nodes }) → Moves (record db { nodes = nodes }) db')
    → Moves db db'
unfolding is_deleted
nodes-Moves nodes db db' v f =
    let p = f v in
    record { valid = p.valid; grows = p.grows; tombstones = p.tombstones; stays_out = p.stays_out }

reclaim_with-Moves :
    (now : ℕ) (limits : ℕ × ℕ) (db : Db) → IsQueue db → Moves db (reclaim_with now limits db).0
unfolding reclaim_with
reclaim_with-Moves now (hb, tm) db v =
    let silent = record db { nodes = drop_silent now hb db.nodes } in
    nodes-Moves (drop_silent now hb db.nodes) db _ v λ w.
      Moves-trans silent (return_stale now tm silent) _ (return_stale-Moves now tm silent w)
        (bury_lost-Moves now tm (return_stale now tm silent))

pub reclaim-Moves :
    (cfg : Settings) (now : ℕ) (hb tm : Option ℕ) (db : Db)
    → IsQueue db
    → Moves db (reclaim cfg now hb tm db).0
unfolding reclaim
reclaim-Moves cfg now hb tm db v = reclaim_with-Moves now (thresholds cfg hb tm) db v

pub sync_node-Moves :
    (cfg : Settings) (now : ℕ) (node : Node) (db : Db)
    → IsQueue db
    → Moves db (sync_node cfg now node db).0
unfolding sync_node
sync_node-Moves cfg now node db v =
    nodes-Moves (beat now node.id db.nodes) db _ v
      (reclaim-Moves cfg now none none (record db { nodes = beat now node.id db.nodes }))

pub holds_lease-leased :
    (worker attempt : ℕ) (t : Task)
    → holds_lease worker attempt t ≡ true
    → is_leased t.status ≡ true
holds_lease-leased worker attempt t h = ground arith

pub release_tasks-Moves :
    (worker : ℕ) (items : List (ℕ × ℕ)) (db : Db)
    → IsQueue db
    → Moves db (release_tasks worker items db).0
unfolding release_tasks
release_tasks-Moves worker [] db v = Moves-refl db v
release_tasks-Moves worker ((id, attempt) ∷ items) db v =
    Moves-trans db db' _
      (open_tasks-Moves test returned (λ t. (refl, refl)) db v
        (All-always _ (λ t e. returned_task-Evolves t (leased t e)) db.tasks)
        (All-always _ (λ t e. leased_open t.status (leased t e)) db.tasks) (λ t. refl) (λ t. refl))
      (release_tasks-Moves worker items db')
  where
    test : Task → Bool
    test t = (t.id == id) && holds_lease worker attempt t

    db' : Db
    db' = record db { tasks = update_where test returned db.tasks }

    leased : (t : Task) → test t ≡ true → is_leased t.status ≡ true
    leased t e = holds_lease-leased worker attempt t (ground arith)

-- ===== src/ScrapeQueue/Tables.antt =====
-- The invariant of the tables of backend/src/erp/scrape/service.py, and what one UPDATE of the rows of
-- `scrape_task` or `scrape_job` does to it.
use erp_all.Prelude.{
  ℕ, ◌<◌, ◌≡◌, refl, sym, subst, ◌∙◌, Bool, true, false, List, [], ◌∷◌, arith, String, any_row,
  ◌==◌, ◌&&◌, All, All-imp, All-update_where, update_where, Distinct, Distinct-update_where, Grows,
  Grows-refl, Grows-trans, Grows-update_where,
}
use erp_all.ScrapeQueue.{
  Db, Task, TaskStatus, Job, task_key, job_key, is_leased, is_finished, is_dead, is_waiting,
  is_complete, is_deleted, closed_job, finish_job, waiting, dispatched, in_progress, finished, dead,
}
use erp_all.Gtin.{Text}
use erp_all.ScrapeQueue.Tasks.{finish_jobs}
use erp_all.ScrapeQueue.Products.{same_product}
use erp_all.ScrapeQueue.Lifecycle.{Evolves, Evolves-refl, Evolves-trans}
use erp_all.ScrapeQueue.Accounts.{
  Accounts, Accounts-same, Accounts-closed, Opens, count_total, count_done_same, count_dead_same,
}

-- The keys are unique and below their sequence, a task's job has been made, and the counters agree.
pub record IsTables (jobs : List Job) (tasks : List Task) (next_job next_task : ℕ) : Type 0 where
  pub tasks_once : Distinct task_key tasks
  pub tasks_below : All (λ (t : Task). t.id < next_task) tasks
  pub tasks_owned : All (λ (t : Task). t.job_id < next_job) tasks
  pub jobs_once : Distinct job_key jobs
  pub jobs_below : All (λ (j : Job). j.id < next_job) jobs
  pub counted : All (Accounts tasks) jobs

abbrev pub IsQueue : Db → Type 0
IsQueue db = IsTables db.jobs db.tasks db.next_job db.next_task

-- A product that is deleted and absent is still absent.
abbrev pub StaysOut : Db → Db → Type 0
StaysOut db db' =
    (team : ℕ) (source : String) (ref : Text)
    → is_deleted db team source ref ≡ true
    → any_row (same_product team source ref) db.products ≡ false
    → any_row (same_product team source ref) db'.products ≡ false

-- What every statement keeps: the invariant, each task on a path of its life cycle, the tombstones
-- and what they hold back.
pub record Moves (db db' : Db) : Type 0 where
  pub valid : IsQueue db'
  pub grows : Grows Evolves db.tasks db'.tasks
  pub tombstones : db'.tombstones ≡ db.tombstones
  pub stays_out : StaysOut db db'

pub is_deleted-kept :
    (a b : Db) (team : ℕ) (source : String) (ref : Text)
    → b.tombstones ≡ a.tombstones
    → is_deleted a team source ref ≡ true
    → is_deleted b team source ref ≡ true
unfolding is_deleted
is_deleted-kept a b team source ref e h = rw e h

pub Moves-refl : (db : Db) → IsQueue db → Moves db db
Moves-refl db v = record {
  valid = v;
  grows = Grows-refl Evolves Evolves-refl db.tasks;
  tombstones = refl;
  stays_out = λ team source ref d h. h;
}

pub Moves-trans : (a b c : Db) → Moves a b → (IsQueue b → Moves b c) → Moves a c
Moves-trans a b c p f =
    let q = f p.valid in
    record {
      valid = q.valid;
      grows = Grows-trans Evolves Evolves-trans a.tasks b.tasks c.tasks p.grows q.grows;
      tombstones = q.tombstones ∙ p.tombstones;
      stays_out = λ team source ref d h.
          q.stays_out team source ref (is_deleted-kept a b team source ref p.tombstones d)
            (p.stays_out team source ref d h);
    }

-- An UPDATE of jobs.
module _ (test : Job → Bool) (change : Job → Job) (keeps : (j : Job) → (change j).id ≡ j.id) where
  pub jobs_once_update :
      (jobs : List Job) → Distinct job_key jobs → Distinct job_key (update_where test change jobs)
  jobs_once_update jobs d = Distinct-update_where job_key change keeps test jobs d

  pub jobs_below_update :
      (n : ℕ) (jobs : List Job)
      → All (λ (j : Job). j.id < n) jobs
      → All (λ (j : Job). j.id < n) (update_where test change jobs)
  jobs_below_update n jobs b =
      All-update_where (λ (j : Job). j.id < n) test change jobs
        (λ j e p. subst (λ k. k < n) (sym (keeps j)) p) b

  -- One that keeps the counters right leaves the rest of the tables alone.
  pub update_jobs-Moves :
      (db : Db)
      → IsQueue db
      → ((j : Job) → test j ≡ true → Accounts db.tasks j → Accounts db.tasks (change j))
      → Moves db (record db { jobs = update_where test change db.jobs })
  update_jobs-Moves db v f = record {
    valid = record {
      tasks_once = v.tasks_once;
      tasks_below = v.tasks_below;
      tasks_owned = v.tasks_owned;
      jobs_once = jobs_once_update db.jobs v.jobs_once;
      jobs_below = jobs_below_update db.next_job db.jobs v.jobs_below;
      counted = All-update_where (Accounts db.tasks) test change db.jobs f v.counted;
    };
    grows = Grows-refl Evolves Evolves-refl db.tasks;
    tombstones = refl;
    stays_out = λ team source ref d h. h;
  }

-- An UPDATE of tasks, with the jobs that go with it.
module _ (test : Task → Bool) (change : Task → Task)
    (keeps : (t : Task) → ((change t).id ≡ t.id) × ((change t).job_id ≡ t.job_id)) where
  pub update_tasks-Moves :
      (db : Db) (jobs : List Job)
      → IsQueue db
      → All (λ t. test t ≡ true → Evolves t (change t)) db.tasks
      → Distinct job_key jobs
      → All (λ (j : Job). j.id < db.next_job) jobs
      → All (Accounts (update_where test change db.tasks)) jobs
      → Moves db (record db { tasks = update_where test change db.tasks; jobs = jobs })
  update_tasks-Moves db jobs v moves once below counted = record {
    valid = record {
      tasks_once =
          Distinct-update_where task_key change (λ t. (keeps t).0) test db.tasks v.tasks_once;
      tasks_below =
          All-update_where (λ (t : Task). t.id < db.next_task) test change db.tasks
            (λ t e p. subst (λ k. k < db.next_task) (sym (keeps t).0) p) v.tasks_below;
      tasks_owned =
          All-update_where (λ (t : Task). t.job_id < db.next_job) test change db.tasks
            (λ t e p. subst (λ k. k < db.next_job) (sym (keeps t).1) p) v.tasks_owned;
      jobs_once = once;
      jobs_below = below;
      counted = counted;
    };
    grows = Grows-update_where Evolves Evolves-refl test change db.tasks moves;
    tombstones = refl;
    stays_out = λ team source ref d h. h;
  }

  -- Rows that are open before and after, so that no counter is concerned.
  pub open_tasks-Moves :
      (db : Db)
      → IsQueue db
      → All (λ t. test t ≡ true → Evolves t (change t)) db.tasks
      → Opens test change (λ t. (keeps t).1) db.tasks
      → ((t : Task) → is_finished (change t).status ≡ false)
      → ((t : Task) → is_dead (change t).status ≡ false)
      → Moves db (record db { tasks = update_where test change db.tasks })
  open_tasks-Moves db v moves opens fin ded =
      let owner : (t : Task) → (change t).job_id ≡ t.job_id = λ t. (keeps t).1 in
      update_tasks-Moves db db.jobs v moves v.jobs_once v.jobs_below (
        All-imp (Accounts db.tasks) (Accounts (update_where test change db.tasks)) db.jobs
          (λ j.
            Accounts-same db.tasks (update_where test change db.tasks) j
              (count_total test change owner j.id db.tasks)
              (count_done_same test change owner j.id db.tasks opens fin)
              (count_dead_same test change owner j.id db.tasks opens ded))
          v.counted)

pub leased_open :
    (s : TaskStatus) → is_leased s ≡ true → (is_finished s ≡ false) × (is_dead s ≡ false)
leased_open waiting h = (refl, refl)
leased_open dispatched h = (refl, refl)
leased_open in_progress h = (refl, refl)
leased_open finished h = absurd (cc)
leased_open dead h = absurd (cc)

pub waiting_open :
    (s : TaskStatus) → is_waiting s ≡ true → (is_finished s ≡ false) × (is_dead s ≡ false)
waiting_open waiting h = (refl, refl)
waiting_open dispatched h = absurd (cc)
waiting_open in_progress h = absurd (cc)
waiting_open finished h = absurd (cc)
waiting_open dead h = absurd (cc)

pub finish_job-Moves :
    (j : ℕ) (db : Db) → IsQueue db → Moves db (record db { jobs = finish_job j db.jobs })
unfolding finish_job
finish_job-Moves j db v =
    update_jobs-Moves (λ (x : Job). (x.id == j) && is_complete x) closed_job (λ x. refl) db v
      λ x e p. Accounts-closed db.tasks x (ground arith) p

pub finish_jobs-Moves :
    (js : List ℕ) (db : Db) → IsQueue db → Moves db (record db { jobs = finish_jobs js db.jobs })
unfolding finish_jobs
finish_jobs-Moves [] db v = Moves-refl db v
finish_jobs-Moves (j ∷ js) db v =
    Moves-trans db (record db { jobs = finish_job j db.jobs }) _ (finish_job-Moves j db v)
      λ w. finish_jobs-Moves js (record db { jobs = finish_job j db.jobs }) w

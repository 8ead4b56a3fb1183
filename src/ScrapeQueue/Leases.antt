-- ===== src/ScrapeQueue/Leases.antt =====
-- backend/src/erp/scrape/service.py: `pull_tasks`, `release_tasks` and `submit_result`, the leases of
-- tasks. `attempt` is the lease's number: each dispatch raises it, and an answer must carry it.
use erp_all.Prelude.{
  ℕ, zero, suc, ◌+◌, String, Bool, false, Option, none, some, List, [], ◌∷◌, ◌++◌, ◌&&◌, ◌||◌, not,
  ◌==◌, leb, ltb, str_eq, if◌then◌else◌, length, map, any_row, select_where, update_where,
  update_key, find_key, Result, ok, err,
}
use erp_all.Gtin.{Text}
use erp_all.ScrapeQueue.{
  Db, Node, Task, waiting, dispatched, finished, Job, running, Error, Answer, task_key, job_key,
  is_waiting, is_leased, job_waits, job_is_live, finish_job, dead_task,
}
use erp_all.ScrapeQueue.Tasks.{Settings, reclaim, is_draining}
use erp_all.Outbox.Payload.{Json}
use erp_all.ScrapeQueue.Products.{Payload, Upsert, product_upsert}

-- A task with its job, as the JOIN gives them.
pub record Pair : Type 0 where
  pub task : Task
  pub job : Job

abbrev pub job_of : Db → Task → Option Job
job_of db t = find_key job_key t.job_id db.jobs

-- `t.status = 'pending' AND j.status IN ('pending','running')`; `locked` are the rows that other
-- transactions hold and that SKIP LOCKED passes over.
abbrev pub is_pullable : List ℕ → Task → Job → Bool
is_pullable locked t j =
    is_waiting t.status && job_is_live j.status && not (any_row (λ k. t.id == k) locked)

abbrev pub add_candidate : List ℕ → Task → Option Job → List Pair → List Pair
add_candidate locked t none rest = rest
add_candidate locked t (some j) rest =
    if is_pullable locked t j then record { task = t; job = j } ∷ rest else rest

unfoldable pub candidates : List ℕ → Db → List Task → List Pair
candidates locked db [] = []
candidates locked db (t ∷ ts) = add_candidate locked t (job_of db t) (candidates locked db ts)

-- `ORDER BY j.priority DESC, t.id`
abbrev pub comes_first : Pair → Pair → Bool
comes_first p q =
    ltb q.job.priority p.job.priority
    || ((p.job.priority == q.job.priority) && leb p.task.id q.task.id)

unfoldable pub insert_pair : Pair → List Pair → List Pair
insert_pair p [] = p ∷ []
insert_pair p (q ∷ qs) =
    let later = insert_pair p qs in if comes_first p q then p ∷ q ∷ qs else q ∷ later

unfoldable pub in_order : List Pair → List Pair
unfolding insert_pair
in_order [] = []
in_order (p ∷ ps) = insert_pair p (in_order ps)

-- `LIMIT :n`
abbrev pub limit : {A : Type 0} → ℕ → List A → List A
limit zero xs = []
limit (suc n) [] = []
limit (suc n) (x ∷ xs) = x ∷ limit n xs

unfoldable pub pullable : List ℕ → ℕ → Db → List Pair
unfolding candidates in_order
pullable locked count db = limit count (in_order (candidates locked db db.tasks))

abbrev pub leased_task : ℕ → ℕ → Task → Task
leased_task now worker t = record t {
  status = dispatched;
  attempt = suc t.attempt;
  worker_id = some worker;
  dispatched_at = some now;
}

-- What a worker is told of a lease.
pub record Lease : Type 0 where
  pub task_id : ℕ
  pub job_id : ℕ
  pub source : String
  pub job_kind : String
  pub target_ref : Text
  pub attempt : ℕ
  pub max_attempts : ℕ

abbrev pub lease_of : Pair → Lease
lease_of p = record {
  task_id = p.task.id;
  job_id = p.job.id;
  source = p.job.source;
  job_kind = p.job.job_kind;
  target_ref = p.task.target_ref;
  attempt = suc p.task.attempt;
  max_attempts = p.task.max_attempts;
}

-- The loop of UPDATEs, by the key of the row.
unfoldable pub lease_all : ℕ → ℕ → List Pair → List Task → List Task
lease_all now worker [] ts = ts
lease_all now worker (p ∷ ps) ts =
    lease_all now worker ps (update_key task_key p.task.id (leased_task now worker) ts)

abbrev pub started_job : Job → Job
started_job j = record j { status = running }

unfoldable pub start_jobs : List Pair → List Job → List Job
start_jobs ps =
    update_where (λ (j : Job). any_row (λ (p : Pair). p.job.id == j.id) ps && job_waits j.status)
      started_job

unfoldable pub take_leases : ℕ → ℕ → List Pair → Db → Db × List Lease
unfolding lease_all start_jobs
take_leases now worker ps db = (
  record db { tasks = lease_all now worker ps db.tasks; jobs = start_jobs ps db.jobs },
  map lease_of ps,
)

unfoldable pub pull_tasks : Settings → ℕ → List ℕ → Node → ℕ → Db → Db × List Lease
unfolding take_leases pullable reclaim
pull_tasks cfg now locked node count db =
    if is_draining node.status
    then (db, [])
    else let db' = (reclaim cfg now none none db).0 in
      take_leases now node.id (pullable locked count db') db'

-- `worker_id = :w`
abbrev pub works_for : ℕ → Option ℕ → Bool
works_for w none = false
works_for w (some v) = v == w

-- The lease that a worker names is the one the task has.
abbrev pub holds_lease : ℕ → ℕ → Task → Bool
holds_lease worker attempt t =
    works_for worker t.worker_id && (t.attempt == attempt) && is_leased t.status

abbrev pub returned : Task → Task
returned t = record t { status = waiting; worker_id = none }

unfoldable pub release_tasks : ℕ → List (ℕ × ℕ) → Db → Db × ℕ
release_tasks worker [] db = (db, 0)
release_tasks worker ((id, attempt) ∷ items) db =
    let test = λ (t : Task). (t.id == id) && holds_lease worker attempt t in
    let (db', n) =
      release_tasks worker items (record db { tasks = update_where test returned db.tasks }) in
    (db', length (select_where test db.tasks) + n)

pub record Submission : Type 0 where
  pub task_id : ℕ
  pub attempt : ℕ
  pub success : Bool
  pub payload : Option Payload

pub data Reply : Type 0 where
  stale : Reply
  accepted : Option Upsert → Reply

abbrev pub finished_task : Task → Task
finished_task t = record t { status = finished }

abbrev pub with_done : Job → Job
with_done j = record j { done_tasks = j.done_tasks + 1 }

abbrev pub with_failed : Job → Job
with_failed j = record j { failed_tasks = j.failed_tasks + 1 }

abbrev pub answer : Submission → Task → Answer
answer s t = record { task_id = t.id; target_ref = t.target_ref; payload = s.payload }

-- The statements of a success before the product.
unfoldable pub record_success : Submission → Task → Db → Db
record_success s t db = record db {
  answers = db.answers ++ (answer s t ∷ []);
  tasks = update_key task_key t.id finished_task db.tasks;
  jobs = update_key job_key t.job_id with_done db.jobs;
}

-- The statements of a failure: the last attempt is final, any other gives the task back.
unfoldable pub record_failure : ℕ → Task → Db → Db
record_failure attempt t db =
    if leb t.max_attempts attempt
    then record db {
      tasks = update_key task_key t.id dead_task db.tasks;
      jobs = update_key job_key t.job_id with_failed db.jobs;
    }
    else record db { tasks = update_key task_key t.id returned db.tasks }

unfoldable pub close_job : ℕ → Db → Db
unfolding finish_job
close_job j db = record db { jobs = finish_job j db.jobs }

module _ (is_zero : String → Bool) (text_of : Json → Text) where
  -- The product of a success; the error of `product_upsert` undoes the request.
  unfoldable pub ingest : Task → Job → Option Payload → Db → Result Error (Db × Reply)
  unfolding product_upsert close_job
  ingest t j (some (field ∷ fields)) db =
      if str_eq j.job_kind "product_detail"
      then elim (product_upsert is_zero text_of db t.team_id j.source t.target_ref
          (field ∷ fields)) [
            | ok (db', u) ↦ ok (close_job t.job_id db', accepted (some u))
            | err e ↦ err e
          ]
      else ok (close_job t.job_id db, accepted none)
  ingest t j _ db = ok (close_job t.job_id db, accepted none)

  unfoldable pub submit_held : Submission → Task → Job → Db → Result Error (Db × Reply)
  unfolding ingest record_success record_failure close_job
  submit_held s t j db =
      if s.success
      then ingest t j s.payload (record_success s t db)
      else ok (close_job t.job_id (record_failure s.attempt t db), accepted none)

  unfoldable pub submit_joined : ℕ → Submission → Task → Option Job → Db → Result Error (Db × Reply)
  unfolding submit_held
  submit_joined worker s t none db = ok (db, stale)
  submit_joined worker s t (some j) db =
      if holds_lease worker s.attempt t then submit_held s t j db else ok (db, stale)

  unfoldable pub submit_found : ℕ → Submission → Option Task → Db → Result Error (Db × Reply)
  unfolding submit_joined
  submit_found worker s none db = ok (db, stale)
  submit_found worker s (some t) db = submit_joined worker s t (job_of db t) db

  unfoldable pub submit_result : ℕ → Submission → Db → Result Error (Db × Reply)
  unfolding submit_found
  submit_result worker s db = submit_found worker s (find_key task_key s.task_id db.tasks) db

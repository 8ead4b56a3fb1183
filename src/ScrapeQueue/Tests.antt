-- ===== src/ScrapeQueue/Tests.antt =====
-- A small queue of backend/src/erp/scrape/service.py: one job, one of its tasks held by a worker.
use erp_all.Prelude.{
  ◌+◌, ◌≡◌, refl, inl, true, false, none, some, List, [], ◌∷◌, arith, ◌||◌, All, In, any_row,
  count_where, find_key, ok, str_eq,
}
use erp_all.Prelude.Text.{codes}
use erp_all.Gtin.{Text}
use erp_all.Outbox.Payload.{Json, str}
use erp_all.ScrapeQueue.{
  Db, Job, running, Task, waiting, dispatched, Node, online, Tombstone, JobArgs, task_key, outcome,
  is_deleted, of_job, is_finished, is_dead,
}
use erp_all.ScrapeQueue.Tasks.{Settings, register_node}
use erp_all.ScrapeQueue.Products.{Payload, same_product}
use erp_all.ScrapeQueue.Leases.{Pair, Lease, Submission, stale, accepted, pull_tasks, submit_result}
use erp_all.ScrapeQueue.Runs.{Outside, Op, pull, submit, sweep, run}
use erp_all.ScrapeQueue.Lifecycle.{Evolves}
use erp_all.ScrapeQueue.Accounts.{done_in, dead_in}
use erp_all.ScrapeQueue.Tables.{IsQueue}
use erp_all.ScrapeQueue.Outcomes.{run_life, run_closed, run_deleted}
use erp_all.ScrapeQueue.Fence.{taken_once}
use erp_all.ScrapeQueue.Order.{pulled_taken}
use erp_all.ScrapeQueue.Requests.{Enrolled, register-authenticate}

abbrev text_of : Json → Text
text_of (str s) = codes s
text_of _ = []

abbrev outside : Outside
outside = record { digest = λ s. s; is_zero = λ s. str_eq s "0"; text_of = text_of }

abbrev job : Job
job = record {
  id = 1;
  team_id = 7;
  source = "amazon";
  job_kind = "product_detail";
  targets = codes "A" ∷ codes "B" ∷ [];
  skipped_deleted = [];
  priority = 100;
  total_tasks = 2;
  done_tasks = 0;
  failed_tasks = 0;
  status = running;
}

abbrev held_task : Task
held_task = record {
  id = 1;
  job_id = 1;
  team_id = 7;
  target_ref = codes "A";
  status = dispatched;
  attempt = 1;
  max_attempts = 3;
  worker_id = some 3;
  dispatched_at = some 100;
}

abbrev waiting_task : Task
waiting_task = record held_task {
  id = 2;
  target_ref = codes "B";
  status = waiting;
  attempt = 2;
  worker_id = none;
  dispatched_at = none;
}

abbrev worker : Node
worker = record {
  id = 3;
  node_key = "w";
  token_hash = "t";
  status = online;
  last_heartbeat_at = 100;
}

abbrev start : Db
start = record {
  jobs = job ∷ [];
  tasks = held_task ∷ waiting_task ∷ [];
  nodes = worker ∷ [];
  answers = [];
  products = [];
  tombstones = record { team_id = 7; source_channel = "amazon"; source_ref = codes "B" } ∷ [];
  next_job = 2;
  next_task = 3;
  next_node = 4;
  next_product = 1;
}

abbrev cfg : Settings
cfg = record { heartbeat_timeout_s = none; task_timeout_min = none }

start-IsQueue : IsQueue start
start-IsQueue = record {
  tasks_once = ((λ e. omega arith, tt), (tt, tt));
  tasks_below = (omega arith, (omega arith, tt));
  tasks_owned = (omega arith, (omega arith, tt));
  jobs_once = (tt, tt);
  jobs_below = (omega arith, tt);
  counted = (
    record {
      total = refl;
      dones = refl;
      deads_le = omega arith;
      deads = λ _. refl;
      closed = λ e. absurd (cc);
      verdict = λ e. absurd (cc);
    },
    tt,
  );
}

abbrev good : Submission
good = record {
  task_id = 1;
  attempt = 1;
  success = true;
  payload = some (("title", str "Cup") ∷ []);
}

abbrev bad : Submission
bad = record good { task_id = 2; attempt = 3; success = false; payload = none }

-- The held task succeeds; the other one is leased a last time and fails; the job is then partial.
abbrev day : List Op
day = submit 3 good ∷ pull cfg 120 [] worker 5 ∷ submit 3 bad ∷ []

run_life_example :
    (t' : Task) × (find_key task_key 2 (run outside day start).tasks ≡ some t')
    × Evolves waiting_task t'
run_life_example = run_life outside day start 2 waiting_task start-IsQueue refl

abbrev closed_job : Job
closed_job = record job { done_tasks = 1; failed_tasks = 1; status = erp_all.ScrapeQueue.partial }

day_jobs : (run outside day start).jobs ≡ closed_job ∷ []
unfolding run
day_jobs = refl

in_one : {A : Type 0} (x : A) (xs : List A) → xs ≡ x ∷ [] → In x xs
in_one x xs e = rw e (inl refl)

run_closed_example :
    let ts = (run outside day start).tasks in
    (closed_job.status ≡ outcome closed_job)
    × (closed_job.done_tasks + closed_job.failed_tasks ≡ closed_job.total_tasks)
    × (closed_job.done_tasks ≡ count_where (done_in closed_job.id) ts)
    × (closed_job.failed_tasks ≡ count_where (dead_in closed_job.id) ts)
    × All
        (λ t. of_job closed_job.id t ≡ true → (is_finished t.status || is_dead t.status) ≡ true)
        ts
run_closed_example =
    run_closed outside day start closed_job start-IsQueue
      (in_one closed_job (run outside day start).jobs day_jobs) refl

run_deleted_example :
    any_row (same_product 7 "amazon" (codes "B")) (run outside day start).products ≡ false
unfolding is_deleted
run_deleted_example = run_deleted outside day start 7 "amazon" (codes "B") start-IsQueue refl refl

abbrev after_good : Db
after_good = run outside (submit 3 good ∷ []) start

good_taken :
    submit_result outside.is_zero outside.text_of 3 good start
    ≡ ok (after_good, accepted (some (erp_all.ScrapeQueue.Products.stored 1)))
unfolding run submit_result
good_taken = refl

taken_once_example :
    submit_result outside.is_zero outside.text_of 3 good (run outside day after_good)
    ≡ ok (run outside day after_good, stale)
taken_once_example =
    taken_once outside 3 3 good good day start after_good
      (some (erp_all.ScrapeQueue.Products.stored 1)) start-IsQueue good_taken refl refl

abbrev next_pair : Pair
next_pair = record { task = waiting_task; job = job }

abbrev second_lease : Lease
second_lease = record {
  task_id = 2;
  job_id = 1;
  source = "amazon";
  job_kind = "product_detail";
  target_ref = codes "B";
  attempt = 3;
  max_attempts = 3;
}

leases_now : (pull_tasks cfg 120 [] worker 5 start).1 ≡ second_lease ∷ []
unfolding pull_tasks
leases_now = refl

pulled_taken_example :
    (d : Db) × (submit_result outside.is_zero outside.text_of worker.id bad
        (pull_tasks cfg 120 [] worker 5 start).0
      ≡ ok (d, accepted none))
pulled_taken_example =
    pulled_taken outside.is_zero outside.text_of cfg 120 [] worker 5 start second_lease bad
      start-IsQueue (in_one second_lease _ leases_now) refl refl refl

abbrev request : JobArgs
request = record {
  team_id = 7;
  source = "amazon";
  job_kind = "product_detail";
  targets = some (codes " C " ∷ codes "B" ∷ codes "C" ∷ []);
  priority = 100;
}

abbrev enrolled : Db
enrolled = record start {
  nodes =
      worker
      ∷ record {
        id = 4;
        node_key = "x";
        token_hash = "new";
        status = online;
        last_heartbeat_at = 130;
      }
      ∷ [];
  next_node = 5;
}

registers :
    register_node outside.digest "new" (some "join") start 130 "x" "join"
    ≡ ok (enrolled, (4, "new"))
unfolding register_node
registers = refl

register-authenticate_example : Enrolled outside.digest "x" (enrolled, (4, "new"))
register-authenticate_example =
    register-authenticate outside.digest "new" start 130 "x" (some "join") "join" enrolled 4 "new"
      registers

-- A lost worker's task that has used its attempts is dead, and its job counts it.
swept_jobs :
    (run outside (pull cfg 120 [] worker 5 ∷ sweep cfg 900 none none ∷ []) start).jobs
    ≡ record job { failed_tasks = 1 } ∷ []
unfolding run
swept_jobs = refl

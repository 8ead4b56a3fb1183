-- ===== src/ScrapeQueue.antt =====
-- backend/src/erp/scrape/service.py: the tables of the scraping queue, and the operations on jobs:
-- `create_job`, `cancel_job` and `_finish_job_if_complete`.
pub mod Tasks
pub mod Products
pub mod Leases
pub mod Runs
pub mod Lifecycle
pub mod Accounts
pub mod Tables
pub mod Reclaims
pub mod Pulls
pub mod Submits
pub mod Creates
pub mod History
pub mod Outcomes
pub mod Fence
pub mod Order
pub mod Requests
pub mod Attempts
mod Tests
use erp_all.Prelude.{
  ℕ, suc, ◌+◌, String, Bool, true, false, not, Option, none, some, List, [], ◌∷◌, ◌++◌, ◌&&◌, ◌||◌,
  ◌==◌, leb, ltb, str_eq, if◌then◌else◌, length, map, any_row, select_where, update_where,
  update_key, find_first, find_key, Result, ok, err,
}
use erp_all.Prelude.Text.{text_eq}
use erp_all.Gtin.{Text}
use erp_all.Gtin.Pool.{strip, fresh_keys}
use erp_all.Outbox.Payload.{Json}

-- `ck_scrape_job_status`
pub data JobStatus : Type 0 where
  pending running done partial failed cancelled : JobStatus

pub record Job : Type 0 where
  pub id : ℕ
  pub team_id : ℕ
  pub source : String
  pub job_kind : String
  pub targets : List Text
  pub skipped_deleted : List Text
  pub priority : ℕ
  pub total_tasks : ℕ
  pub done_tasks : ℕ
  pub failed_tasks : ℕ
  pub status : JobStatus

-- `ck_scrape_task_status`, without the value `failed` that no statement writes.
pub data TaskStatus : Type 0 where
  waiting dispatched in_progress finished dead : TaskStatus

pub record Task : Type 0 where
  pub id : ℕ
  pub job_id : ℕ
  pub team_id : ℕ
  pub target_ref : Text
  pub status : TaskStatus
  pub attempt : ℕ
  pub max_attempts : ℕ
  pub worker_id : Option ℕ
  pub dispatched_at : Option ℕ

pub data NodeStatus : Type 0 where
  online offline draining : NodeStatus

pub record Node : Type 0 where
  pub id : ℕ
  pub node_key : String
  pub token_hash : String
  pub status : NodeStatus
  pub last_heartbeat_at : ℕ

-- A row of `scrape_result`.
pub record Answer : Type 0 where
  pub task_id : ℕ
  pub target_ref : Text
  pub payload : Option (List (String × Json))

pub record Product : Type 0 where
  pub id : ℕ
  pub team_id : ℕ
  pub source_channel : String
  pub source_ref : Text
  pub title : Text
  pub brand : Option Json
  pub category_path : Option Json
  pub amazon_leaf_id : Option Json
  pub images : Json
  pub attrs : Json
  pub price_snapshot : Option Json

-- A row of `deleted_product`.
pub record Tombstone : Type 0 where
  pub team_id : ℕ
  pub source_channel : String
  pub source_ref : Text

pub record Db : Type 0 where
  pub jobs : List Job
  pub tasks : List Task
  pub nodes : List Node
  pub answers : List Answer
  pub products : List Product
  pub tombstones : List Tombstone
  pub next_job : ℕ
  pub next_task : ℕ
  pub next_node : ℕ
  pub next_product : ℕ

pub data Error : Type 0 where
  kind_unsupported : Error
  input_invalid : Error
  no_valid_target : Error
  all_targets_deleted : List Text → Error
  job_not_cancellable : Error
  enroll_disabled : Error
  enroll_token_invalid : Error
  node_exists : Error
  node_auth : Error
  payload_invalid : Error

abbrev pub job_key : Job → ℕ
job_key j = j.id

abbrev pub task_key : Task → ℕ
task_key t = t.id

abbrev pub node_id : Node → ℕ
node_id n = n.id

abbrev pub of_job : ℕ → Task → Bool
of_job j t = t.job_id == j

abbrev pub is_waiting : TaskStatus → Bool
is_waiting waiting = true
is_waiting _ = false

-- `status IN ('dispatched','running')`
abbrev pub is_leased : TaskStatus → Bool
is_leased dispatched = true
is_leased in_progress = true
is_leased _ = false

abbrev pub is_finished : TaskStatus → Bool
is_finished finished = true
is_finished _ = false

abbrev pub is_dead : TaskStatus → Bool
is_dead dead = true
is_dead _ = false

abbrev pub job_waits : JobStatus → Bool
job_waits pending = true
job_waits _ = false

abbrev pub job_runs : JobStatus → Bool
job_runs running = true
job_runs _ = false

-- `status IN ('pending','running')`
abbrev pub job_is_live : JobStatus → Bool
job_is_live pending = true
job_is_live running = true
job_is_live _ = false

-- `_deleted_refs`: the references of the list that have a tombstone under the product's key.
abbrev pub buries : ℕ → String → Text → Tombstone → Bool
buries team source ref s =
    (s.team_id == team) && str_eq s.source_channel source && text_eq s.source_ref ref

unfoldable pub is_deleted : Db → ℕ → String → Text → Bool
is_deleted db team source ref = any_row (buries team source ref) db.tombstones

unfoldable pub deleted_refs : Db → ℕ → String → List Text → List Text
unfolding is_deleted
deleted_refs db team source refs = select_where (is_deleted db team source) refs

-- The rows of the loop `for ref in targets`, numbered by the sequence.
unfoldable pub new_tasks : ℕ → ℕ → ℕ → List Text → List Task
new_tasks next job team [] = []
new_tasks next job team (ref ∷ refs) =
    record {
      id = next;
      job_id = job;
      team_id = team;
      target_ref = ref;
      status = waiting;
      attempt = 0;
      max_attempts = 3;
      worker_id = none;
      dispatched_at = none;
    }
    ∷ new_tasks (suc next) job team refs

pub record JobArgs : Type 0 where
  pub team_id : ℕ
  pub source : String
  pub job_kind : String
  pub targets : Option (List Text)  -- `none` is a value that is not a list
  pub priority : ℕ

pub record JobReply : Type 0 where
  pub id : ℕ
  pub status : JobStatus
  pub total_tasks : ℕ

-- The two INSERTs.
unfoldable pub insert_job : Db → JobArgs → List Text → List Text → Db × JobReply
unfolding new_tasks
insert_job db a targets blocked = (
  record db {
    jobs =
        db.jobs
        ++ (record {
          id = db.next_job;
          team_id = a.team_id;
          source = a.source;
          job_kind = a.job_kind;
          targets = targets;
          skipped_deleted = blocked;
          priority = a.priority;
          total_tasks = length targets;
          done_tasks = 0;
          failed_tasks = 0;
          status = pending;
        }
            ∷ []);
    tasks = db.tasks ++ new_tasks db.next_task db.next_job a.team_id targets;
    next_job = suc db.next_job;
    next_task = db.next_task + length targets;
  },
  record { id = db.next_job; status = pending; total_tasks = length targets },
)

abbrev pub has_text : Text → Bool
has_text [] = false
has_text (_ ∷ _) = true

-- `list(dict.fromkeys(str(t).strip() for t in targets_raw if str(t).strip()))`
unfoldable pub valid_targets : List Text → List Text
unfolding strip fresh_keys
valid_targets raw = fresh_keys [] (select_where has_text (map strip raw))

-- The targets after the tombstones.
unfoldable pub create_for : Db → JobArgs → List Text → Result Error (Db × JobReply)
unfolding deleted_refs insert_job is_deleted
create_for db a [] = err no_valid_target
create_for db a (t ∷ ts) =
    let blocked = deleted_refs db a.team_id a.source (t ∷ ts) in
    let left = select_where (λ x. not (any_row (text_eq x) blocked)) (t ∷ ts) in
    elim left [
      | [] ↦ err (all_targets_deleted blocked)
      | u ∷ us ↦ ok (insert_job db a (u ∷ us) blocked)
    ]

unfoldable pub create_listed : Db → JobArgs → Option (List Text) → Result Error (Db × JobReply)
unfolding create_for valid_targets
create_listed db a none = err input_invalid
create_listed db a (some []) = err input_invalid
create_listed db a (some (t ∷ ts)) = create_for db a (valid_targets (t ∷ ts))

unfoldable pub create_job : Db → JobArgs → Result Error (Db × JobReply)
unfolding create_listed
create_job db a =
    if str_eq a.job_kind "product_detail"
    then create_listed db a a.targets
    else err kind_unsupported

abbrev pub cancelled_job : Job → Job
cancelled_job j = record j { status = cancelled }

abbrev pub dead_task : Task → Task
dead_task t = record t { status = dead }

unfoldable pub cancel_rows : Db → ℕ → Db
cancel_rows db j = record db {
  jobs = update_where (λ (x : Job). (x.id == j) && job_is_live x.status) cancelled_job db.jobs;
  tasks = update_where (λ (t : Task). of_job j t && is_waiting t.status) dead_task db.tasks;
}

unfoldable pub cancel_job : Db → ℕ → Result Error Db
unfolding cancel_rows
cancel_job db j =
    if any_row (λ (x : Job). (x.id == j) && job_is_live x.status) db.jobs
    then ok (cancel_rows db j)
    else err job_not_cancellable

-- `_finish_job_if_complete`
abbrev pub outcome : Job → JobStatus
outcome j = if j.done_tasks == 0 then failed else if ltb 0 j.failed_tasks then partial else done

abbrev pub is_complete : Job → Bool
is_complete j = job_runs j.status && leb j.total_tasks (j.done_tasks + j.failed_tasks)

abbrev pub closed_job : Job → Job
closed_job j = record j { status = outcome j }

unfoldable pub finish_job : ℕ → List Job → List Job
finish_job j = update_where (λ (x : Job). (x.id == j) && is_complete x) closed_job

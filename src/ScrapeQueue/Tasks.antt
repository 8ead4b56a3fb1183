-- ===== src/ScrapeQueue/Tasks.antt =====
-- backend/src/erp/scrape/service.py: nodes and the lease protocol of tasks: `register_node`,
-- `authenticate_node`, `sync_node`, `reclaim`, `pull_tasks` and `release_tasks`. `now` is the
-- database's clock in seconds.
use erp_all.Prelude.{
  ℕ, suc, ◌+◌, ◌*◌, String, Bool, true, false, Option, none, some, List, [], ◌∷◌, ◌++◌, ◌&&◌, ◌||◌,
  ◌==◌, leb, ltb, str_eq, if◌then◌else◌, length, map, any_row, select_where, update_where,
  update_key, find_first, Result, ok, err,
}
use erp_all.ScrapeQueue.{
  Db, Node, NodeStatus, online, offline, draining, Task, waiting, dead, Job, Error, enroll_disabled,
  enroll_token_invalid, node_exists, node_auth, node_id, job_key, of_job, is_leased, finish_job,
}

-- `register_node`: `digest` is the SHA-256 of a token and `token` the fresh one; `expected` is the
-- setting `scrape.worker_enroll_token`.
unfoldable pub register_with :
    (String → String) → String → Db → ℕ → String → Result Error (Db × (ℕ × String))
register_with digest token db now key =
    if any_row (λ (n : Node). str_eq n.node_key key) db.nodes
    then err node_exists
    else ok (
      record db {
        nodes =
            db.nodes
            ++ (record {
              id = db.next_node;
              node_key = key;
              token_hash = digest token;
              status = online;
              last_heartbeat_at = now;
            }
                ∷ []);
        next_node = suc db.next_node;
      },
      (db.next_node, token),
    )

unfoldable pub register_node :
    (String → String)
    → String
    → Option String
    → Db
    → ℕ
    → String
    → String
    → Result Error (Db × (ℕ × String))
unfolding register_with
register_node digest token none db now key given = err enroll_disabled
register_node digest token (some expected) db now key given =
    if str_eq expected ""
    then err enroll_disabled
    else if str_eq given expected
    then register_with digest token db now key
    else err enroll_token_invalid

unfoldable pub check_token : (String → String) → String → Option Node → Result Error Node
check_token digest token none = err node_auth
check_token digest token (some n) =
    if str_eq n.token_hash (digest token) then ok n else err node_auth

unfoldable pub authenticate_node : (String → String) → Db → String → String → Result Error Node
unfolding check_token
authenticate_node digest db key token =
    check_token digest token (find_first (λ (n : Node). str_eq n.node_key key) db.nodes)

-- The thresholds of `reclaim`: the argument, or else the setting, or else the default; an argument 0
-- and an absent one are both passed over once either is absent.
abbrev or_default : Option ℕ → ℕ → ℕ
or_default none d = d
or_default (some n) d = n

abbrev or_setting : Option ℕ → Option ℕ → ℕ → ℕ
or_setting (some (suc n)) setting d = suc n
or_setting _ setting d = or_default setting d

pub record Settings : Type 0 where
  pub heartbeat_timeout_s : Option ℕ
  pub task_timeout_min : Option ℕ

unfoldable pub thresholds : Settings → Option ℕ → Option ℕ → ℕ × ℕ
thresholds cfg (some hb) (some tm) = (hb, tm)
thresholds cfg hb tm =
    (or_setting hb cfg.heartbeat_timeout_s 90, or_setting tm cfg.task_timeout_min 10)

abbrev is_online : NodeStatus → Bool
is_online online = true
is_online _ = false

abbrev is_offline : NodeStatus → Bool
is_offline offline = true
is_offline _ = false

unfoldable pub drop_silent : ℕ → ℕ → List Node → List Node
drop_silent now hb =
    update_where (λ (n : Node). is_online n.status && ltb (n.last_heartbeat_at + hb) now)
      λ (n : Node). record n { status = offline }

-- The condition `stale` of the two UPDATEs; a comparison with NULL is not true.
abbrev pub is_late : ℕ → ℕ → Option ℕ → Bool
is_late now tm none = false
is_late now tm (some at) = ltb (at + tm * 60) now

abbrev pub works_offline : List Node → Option ℕ → Bool
works_offline nodes none = false
works_offline nodes (some w) = any_row (λ (n : Node). is_offline n.status && (n.id == w)) nodes

unfoldable pub is_stale : ℕ → ℕ → List Node → Task → Bool
is_stale now tm nodes t =
    is_leased t.status && (is_late now tm t.dispatched_at || works_offline nodes t.worker_id)

abbrev pub returned_task : Task → Task
returned_task t = record t { status = waiting; worker_id = none }

abbrev pub lost_task : Task → Task
lost_task t = record t { status = dead; worker_id = none }

abbrev pub gives_back : ℕ → ℕ → List Node → Task → Bool
gives_back now tm nodes t = ltb t.attempt t.max_attempts && is_stale now tm nodes t

abbrev pub gives_up : ℕ → ℕ → List Node → Task → Bool
gives_up now tm nodes t = leb t.max_attempts t.attempt && is_stale now tm nodes t

abbrev pub count_of : (Task → Bool) → List Task → ℕ
count_of test ts = length (select_where test ts)

-- `failed_tasks + agg.n`, on the jobs that the aggregate names.
unfoldable pub fail_jobs : (Task → Bool) → List Task → List Job → List Job
fail_jobs test ts =
    update_where (λ (j : Job). ltb 0 (count_of (λ t. of_job j.id t && test t) ts))
      λ (j : Job). record j {
        failed_tasks = j.failed_tasks + count_of (λ t. of_job j.id t && test t) ts;
      }

-- `for row in dead_jobs: _finish_job_if_complete`
unfoldable pub finish_jobs : List ℕ → List Job → List Job
unfolding finish_job
finish_jobs [] jobs = jobs
finish_jobs (j ∷ js) jobs = finish_jobs js (finish_job j jobs)

unfoldable pub dead_jobs : (Task → Bool) → List Task → List Job → List ℕ
dead_jobs test ts jobs =
    map job_key
      (select_where (λ (j : Job). ltb 0 (count_of (λ t. of_job j.id t && test t) ts)) jobs)

-- The second UPDATE and what follows it, over the tasks that the first one left.
unfoldable pub bury_lost : ℕ → ℕ → Db → Db
unfolding fail_jobs finish_jobs dead_jobs is_stale
bury_lost now tm db =
    let lost = gives_up now tm db.nodes in
    record db {
      tasks = update_where lost lost_task db.tasks;
      jobs = finish_jobs (dead_jobs lost db.tasks db.jobs) (fail_jobs lost db.tasks db.jobs);
    }

unfoldable pub return_stale : ℕ → ℕ → Db → Db
unfolding is_stale
return_stale now tm db = record db {
  tasks = update_where (gives_back now tm db.nodes) returned_task db.tasks;
}

-- `reclaim`, and the number of tasks it returns.
unfoldable pub reclaim_with : ℕ → ℕ × ℕ → Db → Db × ℕ
unfolding drop_silent return_stale bury_lost is_stale
reclaim_with now (hb, tm) db =
    let silent = record db { nodes = drop_silent now hb db.nodes } in
    let back = return_stale now tm silent in
    (
      bury_lost now tm back,
      count_of (gives_back now tm silent.nodes) silent.tasks
          + count_of (gives_up now tm back.nodes) back.tasks,
    )

unfoldable pub reclaim : Settings → ℕ → Option ℕ → Option ℕ → Db → Db × ℕ
unfolding reclaim_with thresholds
reclaim cfg now hb tm db = reclaim_with now (thresholds cfg hb tm) db

abbrev back_online : NodeStatus → NodeStatus
back_online draining = draining
back_online _ = online

abbrev pub is_draining : NodeStatus → Bool
is_draining draining = true
is_draining _ = false

-- `sync_node`: the heartbeat, then a reclaim; what is returned says whether the node is draining.
unfoldable pub beat : ℕ → ℕ → List Node → List Node
beat now id =
    update_key node_id id
      λ (n : Node). record n { last_heartbeat_at = now; status = back_online n.status }

unfoldable pub sync_node : Settings → ℕ → Node → Db → Db × Bool
unfolding beat reclaim
sync_node cfg now node db = (
  (reclaim cfg now none none (record db { nodes = beat now node.id db.nodes })).0,
  is_draining node.status,
)

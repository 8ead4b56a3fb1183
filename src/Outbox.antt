-- ===== src/Outbox.antt =====
-- backend/src/erp/channel/outbox.py: the transactional outbox of the channel's write path. The table
-- `channel_command` is a list of rows, each operation is one statement on it, and an interleaving of
-- workers, sweeps and enqueues is a list of operations (`run`). Times are whole seconds.
pub mod Payload
pub mod Queue
pub mod Moves
pub mod Runs
pub mod Valid
pub mod Fence
pub mod Claims
pub mod Lanes
pub mod Keys
mod Tests
use erp_all.Prelude.{
  ℕ, suc, ◌+◌, String, Bool, true, false, not, Option, none, some, List, [], ◌∷◌, ◌++◌, ◌&&◌, ◌||◌,
  str_eq, ltb, ◌==◌, if◌then◌else◌, find_first, any_row, update_where, find_key, update_key, Result,
  ok, err,
}

-- `ACTIONS`
pub data Action : Type 0 where
  feed_submit item_retire order_ack order_ship price_push item_maintenance : Action

pub data Status : Type 0 where
  pending inflight succeeded failed verify_pending : Status

pub data FeedStatus : Type 0 where
  building submitting verify_pending submitted processing : FeedStatus
  processed partial error lost : FeedStatus

-- A row of `channel_command`. The payload itself never influences the protocol; its hash does.
pub record Command : Type 0 where
  pub id : ℕ
  pub team_id : ℕ
  pub store_id : ℕ
  pub action : Action
  pub object_id : Option ℕ
  pub idempotency_key : String
  pub payload_hash : String
  pub status : Status
  pub fence : ℕ
  pub attempts : ℕ
  pub lease_expires_at : Option ℕ
  pub result : Option String
  pub error_code : Option String
  pub completed_at : Option ℕ

pub record Feed : Type 0 where
  pub id : ℕ
  pub status : FeedStatus
  pub submitted_at : Option ℕ

pub record Db : Type 0 where
  pub commands : List Command
  pub next_id : ℕ
  pub feeds : List Feed
  pub active_stores : List ℕ

abbrev pub command_id : Command → ℕ
command_id c = c.id

-- SQL equality of the two text columns that are enumerations.
unfoldable pub action_eq : Action → Action → Bool
action_eq feed_submit feed_submit = true
action_eq item_retire item_retire = true
action_eq order_ack order_ack = true
action_eq order_ship order_ship = true
action_eq price_push price_push = true
action_eq item_maintenance item_maintenance = true
action_eq _ _ = false

abbrev pub is_pending : Status → Bool
is_pending pending = true
is_pending _ = false

abbrev pub is_inflight : Status → Bool
is_inflight inflight = true
is_inflight _ = false

abbrev pub is_verify_pending : Status → Bool
is_verify_pending Status.verify_pending = true
is_verify_pending _ = false

-- `status IN ('pending','inflight','verify_pending')`
abbrev pub is_open : Status → Bool
is_open pending = true
is_open inflight = true
is_open Status.verify_pending = true
is_open _ = false

-- `action IN ('order_ack','order_ship')`
abbrev pub is_order : Action → Bool
is_order order_ack = true
is_order order_ship = true
is_order _ = false

abbrev pub is_price : Action → Bool
is_price price_push = true
is_price _ = false

abbrev pub bool_eq : Bool → Bool → Bool
bool_eq true b = b
bool_eq false b = not b

-- The gate on closed stores: orders pass, all else needs an active store.
unfoldable pub passes_gate : Db → Command → Bool
passes_gate db c = is_order c.action || any_row (λ s. s == c.store_id) db.active_stores

-- `b` stands in the way of `c`: same store, earlier, same lane, not frozen, not settled.
unfoldable pub blocks : Db → Command → Command → Bool
unfolding passes_gate
blocks db c b =
    (b.store_id == c.store_id)
    && ltb b.id c.id
    && bool_eq (is_price b.action) (is_price c.action)
    && passes_gate db b
    && is_open b.status

-- The WHERE of `claim` and `pick_next`, but for the id.
unfoldable pub is_claimable : Db → Command → Bool
unfolding blocks
is_claimable db c =
    is_pending c.status && passes_gate db c && not (any_row (blocks db c) db.commands)

-- claim
unfoldable pub claimed : ℕ → ℕ → Command → Command
claimed now lease c = record c {
  status = inflight;
  fence = suc c.fence;
  attempts = suc c.attempts;
  lease_expires_at = some (now + lease);
}

abbrev pub takes : Db → ℕ → Command → Bool
takes db id c = (c.id == id) && is_claimable db c

unfoldable pub claim : Db → ℕ → ℕ → ℕ → Db × Option Command
unfolding claimed
claim db now id lease = (
  record db { commands = update_where (takes db id) (claimed now lease) db.commands },
  elim (find_first (takes db id) db.commands) [ none ↦ none | some c ↦ some (claimed now lease c) ],
)

-- `id = :id AND fence = :f AND status = 'inflight'`
abbrev pub is_held : ℕ → ℕ → Command → Bool
is_held id fence c = (c.id == id) && ((c.fence == fence) && is_inflight c.status)

-- The statuses that `complete` may write; the first two also are those of `resolve_verify`.
pub data Verdict : Type 0 where
  succeeded failed : Verdict

abbrev pub verdict_status : Verdict → Status
verdict_status Verdict.succeeded = Status.succeeded
verdict_status Verdict.failed = Status.failed

pub data Completion : Type 0 where
  final : Verdict → Completion
  unknown : Completion

abbrev pub completion_status : Completion → Status
completion_status (final v) = verdict_status v
completion_status unknown = Status.verify_pending

abbrev pub completion_time : ℕ → Completion → Option ℕ
completion_time now (final v) = some now
completion_time now unknown = none

-- complete
unfoldable pub completed : ℕ → Completion → Option String → Option String → Command → Command
completed now to result code c = record c {
  status = completion_status to;
  result = result;
  error_code = code;
  lease_expires_at = none;
  completed_at = completion_time now to;
}

unfoldable pub complete : Db → ℕ → ℕ → ℕ → Completion → Option String → Option String → Db × Bool
unfolding completed
complete db now id fence to result code = (
  record db {
    commands = update_where (is_held id fence) (completed now to result code) db.commands;
  },
  any_row (is_held id fence) db.commands,
)

-- release_claim
unfoldable pub released : Command → Command
released c = record c { status = pending; lease_expires_at = none }

unfoldable pub release_claim : Db → ℕ → ℕ → Db × Bool
unfolding released
release_claim db id fence = (
  record db { commands = update_where (is_held id fence) released db.commands },
  any_row (is_held id fence) db.commands,
)

-- resolve_verify
unfoldable pub resolved : ℕ → Verdict → Option String → Option String → Command → Command
resolved now to result code c = record c {
  status = verdict_status to;
  result = result;
  error_code = code;
  lease_expires_at = none;
  completed_at = some now;
}

abbrev pub awaits : ℕ → Command → Bool
awaits id c = (c.id == id) && is_verify_pending c.status

unfoldable pub resolve_verify : Db → ℕ → ℕ → Verdict → Option String → Option String → Db × Bool
unfolding resolved
resolve_verify db now id to result code = (
  record db { commands = update_where (awaits id) (resolved now to result code) db.commands },
  any_row (awaits id) db.commands,
)

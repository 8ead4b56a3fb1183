-- ===== src/Outbox/Queue.antt =====
-- The queue side of backend/src/erp/channel/outbox.py: `enqueue`, `sweep_expired`, `pick_next`, the first
-- transaction of `execute_command`, and runs of the operations in any order.
use erp_all.Prelude.{
  ℕ, suc, String, Bool, true, false, not, Option, none, some, List, [], ◌∷◌, ◌++◌, ◌&&◌, str_eq,
  ltb, ◌==◌, if◌then◌else◌, find_first, any_row, update_where, select_where, Result, ok, err,
}
use erp_all.Outbox.{
  Action, feed_submit, Status, pending, FeedStatus, building, submitting, Command, Feed, Db,
  action_eq, is_inflight, is_claimable, claim, Completion, complete, release_claim, Verdict,
  resolve_verify,
}
use erp_all.Outbox.Payload.{Json, Step, scan_forbidden_keys}

pub data Error : Type 0 where
  outbox_payload_forbidden idempotency_conflict : Error

pub record Reply : Type 0 where
  pub command_id : ℕ
  pub existing : Bool
  pub status : Status

pub record Args : Type 0 where
  pub team_id : ℕ
  pub store_id : ℕ
  pub action : Action
  pub payload : Json
  pub idempotency_key : String
  pub object_id : Option ℕ

-- The constraint `uq_channel_command_idem`.
unfoldable pub same_key : Args → Command → Bool
unfolding action_eq
same_key args c =
    (c.team_id == args.team_id)
    && action_eq c.action args.action
    && str_eq c.idempotency_key args.idempotency_key

-- The row that the INSERT makes, with the column defaults.
unfoldable pub new_command : ℕ → String → Args → Command
new_command id hash args = record {
  id = id;
  team_id = args.team_id;
  store_id = args.store_id;
  action = args.action;
  object_id = args.object_id;
  idempotency_key = args.idempotency_key;
  payload_hash = hash;
  status = pending;
  fence = 0;
  attempts = 0;
  lease_expires_at = none;
  result = none;
  error_code = none;
  completed_at = none;
}

abbrev pub replay : Db → String → Command → Result Error (Db × Reply)
replay db hash c =
    if not (str_eq c.payload_hash hash)
    then err idempotency_conflict
    else ok (db, record { command_id = c.id; existing = true; status = c.status })

unfoldable pub insert : Db → String → Args → Option Command → Result Error (Db × Reply)
unfolding new_command
insert db hash args (some c) = replay db hash c
insert db hash args none = ok (
  record db {
    commands = db.commands ++ (new_command db.next_id hash args ∷ []);
    next_id = suc db.next_id;
  },
  record { command_id = db.next_id; existing = false; status = pending },
)

unfoldable pub insert_scanned : Db → String → Args → Option (List Step) → Result Error (Db × Reply)
unfolding insert
insert_scanned db hash args (some path) = err outbox_payload_forbidden
insert_scanned db hash args none = insert db hash args (find_first (same_key args) db.commands)

-- `hash` stands for SHA-256 over the sorted JSON text, `lower` for `str.lower`. An unknown action has
-- no value of `Action`.
unfoldable pub enqueue :
    (lower : String → List ℕ) (hash : Json → String) → Db → Args → Result Error (Db × Reply)
enqueue lower hash db args =
    insert_scanned db (hash args.payload) args (scan_forbidden_keys lower args.payload)

-- `status = 'inflight' AND lease_expires_at < now()`; a NULL passes no comparison.
abbrev pub is_before : Option ℕ → ℕ → Bool
is_before none now = false
is_before (some t) now = ltb t now

abbrev pub is_expired : ℕ → Command → Bool
is_expired now c = is_inflight c.status && is_before c.lease_expires_at now

unfoldable pub swept : Command → Command
swept c = record c { status = Status.verify_pending; fence = suc c.fence; lease_expires_at = none }

abbrev is_unsent : FeedStatus → Bool
is_unsent building = true
is_unsent submitting = true
is_unsent _ = false

abbrev or_now : ℕ → Option ℕ → Option ℕ
or_now now none = some now
or_now now (some t) = some t

verify_feed : ℕ → ℕ → List Feed → List Feed
verify_feed now id =
    update_where (λ (f : Feed). (f.id == id) && is_unsent f.status)
      (λ f. record f {
        status = FeedStatus.verify_pending;
        submitted_at = or_now now f.submitted_at;
      })

abbrev feed_of : Action → Option ℕ → Option ℕ
feed_of feed_submit object = object
feed_of _ object = none

-- The loop over the swept rows.
verify_feeds : ℕ → List Command → List Feed → List Feed
unfolding verify_feed
verify_feeds now [] feeds = feeds
verify_feeds now (c ∷ cs) feeds =
    verify_feeds now cs
      (elim (feed_of c.action c.object_id) [ none ↦ feeds | some f ↦ verify_feed now f feeds ])

unfoldable pub sweep_expired : Db → ℕ → Db
unfolding swept verify_feeds
sweep_expired db now = record db {
  commands = update_where (is_expired now) swept db.commands;
  feeds = verify_feeds now (select_where (is_expired now) db.commands) db.feeds;
}

-- ORDER BY c.id LIMIT 1
least : Option Command → List Command → Option Command
least best [] = best
least none (c ∷ cs) = least (some c) cs
least (some b) (c ∷ cs) = least (some (if ltb c.id b.id then c else b)) cs

unfoldable pub is_pickable : Db → List ℕ → Command → Bool
is_pickable db exclude c = not (any_row (λ s. s == c.store_id) exclude) && is_claimable db c

unfoldable pub pick_next : Db → List ℕ → Option Command
unfolding least is_pickable
pick_next db exclude = least none (select_where (is_pickable db exclude) db.commands)

-- The first transaction of `execute_command`: sweep, claim, and `gateway.prepare`, whose refusal rolls
-- the whole transaction back. `none` is a command that could not be claimed.
unfoldable pub begin_command : (prepare : ℕ → Bool) → Db → ℕ → ℕ → ℕ → Db × Option Command
begin_command prepare db now id lease =
    let (db', got) = claim (sweep_expired db now) now id lease in
    elim got [
      | none ↦ (db', none)
      | some c ↦ if prepare c.store_id then (db', some c) else (db, none)
    ]

-- What the processes may do to the tables, in any order. `set_stores` is the rest of the program, which
-- closes and reopens stores.
pub data Op : Type 0 where
  add : Args → Op
  take : ℕ → ℕ → ℕ → Op
  finish : ℕ → ℕ → ℕ → Completion → Option String → Option String → Op
  give_back : ℕ → ℕ → Op
  settle : ℕ → ℕ → Verdict → Option String → Option String → Op
  sweep : ℕ → Op
  set_stores : List ℕ → Op

-- A raised error leaves the tables as they were.
abbrev pub kept : Db → Result Error (Db × Reply) → Db
kept db (ok out) = out.0
kept db (err e) = db

module _ (lower : String → List ℕ) (hash : Json → String) where
  unfoldable pub step : Op → Db → Db
  step (add args) db = kept db (enqueue lower hash db args)
  step (take now id lease) db = (claim db now id lease).0
  step (finish now id fence to result code) db = (complete db now id fence to result code).0
  step (give_back id fence) db = (release_claim db id fence).0
  step (settle now id to result code) db = (resolve_verify db now id to result code).0
  step (sweep now) db = sweep_expired db now
  step (set_stores stores) db = record db { active_stores = stores }

  unfoldable pub run : List Op → Db → Db
  run [] db = db
  run (op ∷ ops) db = run ops (step op db)

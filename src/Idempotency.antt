-- ===== src/Idempotency.antt =====
-- backend/src/erp/core/idempotency.py: `run_idempotent`, which takes a client's Idempotency-Key, runs a
-- handler at most once for it and replays the stored response. Times are whole seconds.
pub mod Tracking
pub mod Replay
pub mod Retry
mod Tests
use erp_all.Prelude.{
  ℕ, suc, ◌+◌, ◌*◌, Bool, true, false, not, Option, none, some, List, [], ◌∷◌, ◌++◌, ◌&&◌, ◌||◌,
  String, str_eq, ltb, ◌==◌, if◌then◌else◌, find_first, any_row, update_where, delete_where, Result,
  ok, err,
}

-- A row of `api_idempotency`; the response is a JSON text.
pub record Entry : Type 0 where
  pub id : ℕ
  pub team_id : ℕ
  pub endpoint : String
  pub idem_key : String
  pub payload_hash : String
  pub response : Option String
  pub created_at : ℕ

-- The object of the setting `api.idempotency`.
pub record Setting : Type 0 where
  pub ttl_hours : Option ℕ
  pub stale_minutes : Option ℕ

pub record Db : Type 0 where
  pub entries : List Entry
  pub next_id : ℕ
  pub setting : Option Setting

pub record Args : Type 0 where
  pub team_id : ℕ
  pub endpoint : String
  pub idem_key : String
  pub payload_hash : String
  pub stale_minutes : Option ℕ

-- `idempotency_conflict` and `idempotency_in_progress` are the two refusals, the last is what the handler
-- raised.
pub data Error : Type 0 where
  idempotency_conflict idempotency_in_progress handler_failed : Error

abbrev or_default : ℕ → Option ℕ → ℕ
or_default d none = d
or_default d (some n) = n

-- `_config`
abbrev pub ttl_hours_of : Option Setting → ℕ
ttl_hours_of none = 24
ttl_hours_of (some s) = or_default 24 s.ttl_hours

abbrev pub stale_minutes_of : Option Setting → ℕ
stale_minutes_of none = 10
stale_minutes_of (some s) = or_default 10 s.stale_minutes

abbrev pub stale_for : Option Setting → Args → ℕ
stale_for setting args = or_default (stale_minutes_of setting) args.stale_minutes

abbrev pub carries_key : Args → Entry → Bool
carries_key args e =
    (e.team_id == args.team_id)
    && (str_eq e.endpoint args.endpoint && str_eq e.idem_key args.idem_key)

abbrev pub lacks_response : Option String → Bool
lacks_response none = true
lacks_response (some r) = false

-- An entry past its time, or one without a response past the time for that.
unfoldable pub is_dead : Db → Args → ℕ → Entry → Bool
is_dead db args now e =
    ltb (e.created_at + ttl_hours_of db.setting * 3600) now
    || (lacks_response e.response && ltb (e.created_at + stale_for db.setting args * 60) now)

abbrev pub new_entry : Db → Args → ℕ → Entry
new_entry db args now = record {
  id = db.next_id;
  team_id = args.team_id;
  endpoint = args.endpoint;
  idem_key = args.idem_key;
  payload_hash = args.payload_hash;
  response = none;
  created_at = now;
}

-- What the first transaction decides.
pub data Start : Type 0 where
  reserved : ℕ → Start
  replayed : String → Start

abbrev pub replay_entry : Args → Entry → Result Error Start
replay_entry args e =
    if not (str_eq e.payload_hash args.payload_hash)
    then err idempotency_conflict
    else elim e.response [ none ↦ err idempotency_in_progress | some r ↦ ok (replayed r) ]

abbrev pub with_db : Db → Result Error Start → Result Error (Db × Start)
with_db db (ok s) = ok (db, s)
with_db db (err e) = err e

-- INSERT … ON CONFLICT DO NOTHING after the delete, and the SELECT where it did nothing.
unfoldable pub insert_or_replay : Db → Args → ℕ → Option Entry → Result Error (Db × Start)
insert_or_replay db args now none = ok (
  record db { entries = db.entries ++ (new_entry db args now ∷ []); next_id = suc db.next_id },
  reserved db.next_id,
)
insert_or_replay db args now (some e) = with_db db (replay_entry args e)

-- The first transaction; a raised error rolls it back.
unfoldable pub begin_run : Db → Args → ℕ → Result Error (Db × Start)
unfolding is_dead insert_or_replay
begin_run db args now =
    let kept = delete_where (λ e. carries_key args e && is_dead db args now e) db.entries in
    insert_or_replay (record db { entries = kept }) args now (find_first (carries_key args) kept)

-- `id = :id AND response IS NULL`
abbrev pub is_unanswered : ℕ → Entry → Bool
is_unanswered id e = (e.id == id) && lacks_response e.response

-- The transaction after an exception of the handler.
unfoldable pub fail_run : Db → ℕ → Db
fail_run db id = record db { entries = delete_where (is_unanswered id) db.entries }

abbrev pub answered : String → Entry → Entry
answered r e = record e { response = some r }

-- The transaction after the handler's result.
unfoldable pub finish_run : Db → ℕ → String → Db
finish_run db id r = record db { entries = update_where (is_unanswered id) (answered r) db.entries }

-- The reply to the client, with the mark of a replay.
pub record Answer : Type 0 where
  pub response : String
  pub idempotent_replay : Bool

-- What the handler did: it raised, or it returned a result.
abbrev pub end_run : Db → ℕ → Option String → Db × Result Error Answer
end_run db id none = (fail_run db id, err handler_failed)
end_run db id (some r) =
    (finish_run db id r, ok (record { response = r; idempotent_replay = false }))

abbrev pub after_start : Db → Result Error (Db × Start) → Option String → Db × Result Error Answer
after_start db (err e) handler = (db, err e)
after_start db (ok (db', reserved id)) handler = end_run db' id handler
after_start db (ok (db', replayed r)) handler =
    (db', ok (record { response = r; idempotent_replay = true }))

-- The whole call, nothing else running; `handler` is what the handler would do if it is run.
unfoldable pub run_idempotent : Db → Args → ℕ → Option String → Db × Result Error Answer
unfolding begin_run fail_run finish_run
run_idempotent db args now handler = after_start db (begin_run db args now) handler

-- What concurrent calls do to the table, in any order; a crash is a run that never ends.
pub data Op : Type 0 where
  start : Args → ℕ → Op
  fail : ℕ → Op
  finish : ℕ → String → Op

abbrev pub kept_db : Db → Result Error (Db × Start) → Db
kept_db db (ok out) = out.0
kept_db db (err e) = db

unfoldable pub step : Op → Db → Db
unfolding begin_run fail_run finish_run
step (start args now) db = kept_db db (begin_run db args now)
step (fail id) db = fail_run db id
step (finish id r) db = finish_run db id r

unfoldable pub run : List Op → Db → Db
unfolding step
run [] db = db
run (op ∷ ops) db = run ops (step op db)

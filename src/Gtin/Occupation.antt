-- ===== src/Gtin/Occupation.antt =====
-- backend/src/erp/listing/gtin.py: `hold_one`, `mark_used` and `release`, and runs of all operations on
-- the pool in any order.
use erp_all.Prelude.{
  ℕ, String, Bool, true, false, Option, none, some, List, [], ◌∷◌, ◌&&◌, ◌==◌, if◌then◌else◌,
  str_eq, find_first, update_where, update_key, Result, ok, err,
}
use erp_all.Gtin.{Text}
use erp_all.Gtin.Pool.{Status, free, held, used, Row, Db, row_id, kind_preference, import_batch}

pub data Error : Type 0 where
  gtin_pool_empty : Error

abbrev pub is_free : Status → Bool
is_free free = true
is_free _ = false

abbrev pub has_held : Status → Bool
has_held held = true
has_held _ = false

-- `offered` says which rows the database may give: LIMIT 1 without an order takes any of them, and SKIP
-- LOCKED passes over the rows that another transaction holds.
abbrev pub can_hold : (Row → Bool) → ℕ → String → Row → Bool
can_hold offered team kind r =
    offered r && ((r.team_id == team) && (str_eq r.gtin_kind kind && is_free r.status))

unfoldable pub held_row : ℕ → Row → Row
held_row listing r = record r { status = held; held_listing_id = some listing }

-- The loop over the kinds.
unfoldable pub hold_from : (Row → Bool) → Db → ℕ → ℕ → List String → Result Error (Db × Text)
unfolding held_row
hold_from offered db team listing [] = err gtin_pool_empty
hold_from offered db team listing (k ∷ ks) = elim (find_first (can_hold offered team k) db.rows) [
  | none ↦ hold_from offered db team listing ks
  | some r ↦ ok (record db { rows = update_key row_id r.id (held_row listing) db.rows }, r.gtin)
]

-- `[kind] if kind else await _kind_preference(…)`; an empty text counts as no kind.
abbrev pub kinds_for : Db → ℕ → Option String → List String
kinds_for db team none = kind_preference db team
kinds_for db team (some k) = if str_eq k "" then kind_preference db team else k ∷ []

unfoldable pub hold_one : (Row → Bool) → Db → ℕ → ℕ → Option String → Result Error (Db × Text)
unfolding hold_from kind_preference
hold_one offered db team listing kind = hold_from offered db team listing (kinds_for db team kind)

abbrev pub id_is : ℕ → Option ℕ → Bool
id_is listing none = false
id_is listing (some l) = l == listing

-- `held_listing_id = :l AND status = 'held'`
abbrev pub holds_for : ℕ → Row → Bool
holds_for listing r = id_is listing r.held_listing_id && has_held r.status

unfoldable pub used_row : Row → Row
used_row r = record r { status = used; used_listing_id = r.held_listing_id }

unfoldable pub mark_used : Db → ℕ → Db
unfolding used_row
mark_used db listing = record db { rows = update_where (holds_for listing) used_row db.rows }

unfoldable pub free_row : Row → Row
free_row r = record r { status = free; held_listing_id = none }

unfoldable pub release : Db → ℕ → Db
unfolding free_row
release db listing = record db { rows = update_where (holds_for listing) free_row db.rows }

-- What the program may do to the pool.
pub data Op : Type 0 where
  add : ℕ → List Text → String → Op
  hold : (Row → Bool) → ℕ → ℕ → Option String → Op
  publish : ℕ → Op
  give_back : ℕ → Op

-- A raised error leaves the table as it was.
abbrev pub kept : Db → Result Error (Db × Text) → Db
kept db (ok out) = out.0
kept db (err e) = db

unfoldable pub step : Op → Db → Db
unfolding import_batch hold_one mark_used release
step (add team gtins source) db = (import_batch db team gtins source).db
step (hold offered team listing kind) db = kept db (hold_one offered db team listing kind)
step (publish listing) db = mark_used db listing
step (give_back listing) db = release db listing

unfoldable pub run : List Op → Db → Db
unfolding step
run [] db = db
run (op ∷ ops) db = run ops (step op db)

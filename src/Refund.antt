-- ===== src/Refund.antt =====
-- backend/src/erp/aftersale/refund.py: refund and cancel requests. Each operation runs inside the
-- caller's transaction, which a BusinessError rolls back: an operation returns the error, or the new
-- state with its reply. Amounts are whole cents; only their sign is read.
pub mod Lifecycle
pub mod Creation
mod Tests
use erp_all.Prelude.{
  ℕ, suc, String, Bool, true, false, Option, none, some, List, [], ◌∷◌, ◌++◌, ◌&&◌, ◌||◌, not,
  str_eq, ◌==◌, if◌then◌else◌, find_first, any_row, find_key, update_key, Result, ok, err,
}
use erp_all.Prelude.Int.{ℤ, pos, negsuc, leb_ℤ}
use erp_all.Automation
use erp_all.Automation.{Mode, AutomationFlow, PolicyRow, resolve_mode}

-- A row of `channel_order`, as far as it is read.
pub record Order : Type 0 where
  pub id : ℕ
  pub team_id : ℕ
  pub store_id : ℕ
  pub order_date : ℕ
  pub currency : String

-- The levels of `refund_request`, a vocabulary of their own (`_MODE_MAP`).
pub data Level : Type 0 where
  record_only approval auto : Level

pub data Status : Type 0 where
  recorded pending_approval approved rejected : Status

pub data Decision : Type 0 where
  approved rejected : Decision

pub record Request : Type 0 where
  pub id : ℕ
  pub team_id : ℕ
  pub store_id : ℕ
  pub order_id : ℕ
  pub order_date : ℕ
  pub kind : AutomationFlow
  pub amount : ℤ
  pub currency : String
  pub reason_code : String
  pub mode_applied : Level
  pub status : Status
  pub requested_by : ℕ
  pub approved_by : Option ℕ

-- The tables that the operations read and write. `reasons` is the enabled part of the dictionary
-- `refund_reason`, and `next_id` the sequence behind the requests' ids.
pub record Db : Type 0 where
  pub orders : List Order
  pub reasons : List String
  pub policies : List PolicyRow
  pub requests : List Request
  pub next_id : ℕ

pub data Error : Type 0 where
  order_not_found refund_amount_invalid reason_code_unknown refund_auto_not_wired : Error
  refund_request_not_found refund_request_not_pending : Error

abbrev pub Outcome : Type 0 → Type 0
Outcome = Result Error

-- `_MODE_MAP`
unfoldable pub mode_map : Mode → Level
mode_map Mode.manual = record_only
mode_map Mode.semi = approval
mode_map Mode.auto = auto

-- `_resolve_mode`; the flow is the one that the kind names.
unfoldable pub level_for : Db → ℕ → AutomationFlow → Level
level_for db team kind = mode_map (resolve_mode db.policies team kind).0

abbrev pub is_positive : ℤ → Bool
is_positive amount = not (leb_ℤ amount (pos 0))

unfoldable pub find_order : Db → ℕ → ℕ → Option Order
find_order db team order_id = elim (find_first (λ (o : Order). o.id == order_id) db.orders) [
  | none ↦ none
  | some o ↦ if o.team_id == team then some o else none
]

pub record Args : Type 0 where
  pub team_id : ℕ
  pub order_id : ℕ
  pub kind : AutomationFlow
  pub amount : ℤ
  pub reason_code : String
  pub requested_by : ℕ

-- The reply of `create_request`.
pub record Created : Type 0 where
  pub id : ℕ
  pub status : Status
  pub mode_applied : Level

-- The columns of the INSERT.
unfoldable pub new_request : Db → Args → Order → Level → Status → Request
new_request db args order level status = record {
  id = db.next_id;
  team_id = args.team_id;
  store_id = order.store_id;
  order_id = args.order_id;
  order_date = order.order_date;
  kind = args.kind;
  amount = args.amount;
  currency = order.currency;
  reason_code = args.reason_code;
  mode_applied = level;
  status = status;
  requested_by = args.requested_by;
  approved_by = none;
}

insert_request : Db → Args → Order → Level → Status → Db × Created
unfolding new_request
insert_request db args order level status = (
  record db {
    requests = db.requests ++ (new_request db args order level status ∷ []);
    next_id = suc db.next_id;
  },
  record { id = db.next_id; status = status; mode_applied = level },
)

-- The level decides the first status (`_INITIAL_STATUS`), and `auto` is refused.
create_at : Db → Args → Order → Level → Outcome (Db × Created)
unfolding insert_request
create_at db args order record_only = ok (insert_request db args order record_only recorded)
create_at db args order approval = ok (insert_request db args order approval pending_approval)
create_at db args order auto = err refund_auto_not_wired

create_for : Db → Args → Option Order → Outcome (Db × Created)
create_for db args none = err order_not_found
create_for db args (some order) =
    if not (is_positive args.amount)
    then err refund_amount_invalid
    else if not (any_row (str_eq args.reason_code) db.reasons)
    then err reason_code_unknown
    else create_at db args order (level_for db args.team_id args.kind)

pub create_request : Db → Args → Outcome (Db × Created)
unfolding create_for
create_request db args = create_for db args (find_order db args.team_id args.order_id)

abbrev pub decided : Decision → Status
decided Decision.approved = Status.approved
decided Decision.rejected = Status.rejected

abbrev pub is_pending : Status → Bool
is_pending pending_approval = true
is_pending _ = false

abbrev pub request_id : Request → ℕ
request_id r = r.id

-- The columns that the decision writes.
unfoldable pub decided_request : Decision → ℕ → Request → Request
decided_request decision by r = record r { status = decided decision; approved_by = some by }

decide_found : Db → ℕ → ℕ → Decision → ℕ → Option Request → Outcome Db
decide_found db id team decision by none = err refund_request_not_found
decide_found db id team decision by (some r) =
    if not (r.team_id == team)
    then err refund_request_not_found
    else if not (is_pending r.status)
    then err refund_request_not_pending
    else ok (record db {
      requests = update_key request_id id (decided_request decision by) db.requests;
    })

abbrev pub find_request : Db → ℕ → Option Request
find_request db id = find_key request_id id db.requests

pub decide_request : Db → ℕ → ℕ → Decision → ℕ → Outcome Db
unfolding decide_found
decide_request db id team decision by = decide_found db id team decision by (find_request db id)

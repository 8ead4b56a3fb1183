-- ===== src/Procurement.antt =====
-- backend/src/erp/order/procurement.py: the execution orders of a channel order, and the operations of
-- operators on them. A rate is in ten-thousandths.
pub mod Manual
pub mod Release
pub mod Dispatch
pub mod Runs
pub mod Book
pub mod Keeps
pub mod History
pub mod Outcomes
pub mod Cap
pub mod Guards
mod Tests
use erp_all.Prelude.{
  ℕ, suc, String, Bool, true, false, not, Option, none, some, List, [], ◌∷◌, ◌++◌, ◌&&◌, ◌||◌, ◌==◌,
  str_eq, if◌then◌else◌, any_row, select_where, update_where, find_first, find_key, update_key,
  Result, ok, err,
}
use erp_all.Automation.{Mode, manual, semi, auto, PolicyRow, order_block, resolve_mode}

pub data Status : Type 0 where
  unassigned pending_review assigned claimed purchased shipped backfilled exception cancelled :
      Status

pub data OrderStatus : Type 0 where
  pulled checked order_assigned purchasing order_shipped completed order_cancelled refunded :
      OrderStatus

-- A row of `procurement_order`; `columns` holds the columns of BACKFILL_FIELDS but the reference.
pub record Po : Type 0 where
  pub id : ℕ
  pub team_id : ℕ
  pub store_id : ℕ
  pub order_id : ℕ
  pub order_date : ℕ
  pub status : Status
  pub assignee_kind : String
  pub purchaser_id : Option ℕ
  pub buyer_account_id : Option ℕ
  pub exchange_rate_locked : Option ℕ
  pub exception_kind : Option String
  pub exception_reason : Option String
  pub purchase_order_ref : Option String
  pub purchased_at : Option ℕ
  pub backfill_actor_kind : Option String
  pub assigned_by : Option ℕ
  pub assigned_at : Option ℕ
  pub created_at : ℕ
  pub columns : List (String × String)

pub record Order : Type 0 where
  pub id : ℕ
  pub order_date : ℕ
  pub team_id : ℕ
  pub store_id : ℕ
  pub internal_status : OrderStatus
  pub country : Option String  -- `ship_to ->> 'country'`

pub record Purchaser : Type 0 where
  pub id : ℕ
  pub team_id : ℕ
  pub purchaser_kind : String
  pub is_active : Bool
  pub exchange_rate : ℕ

pub record Account : Type 0 where
  pub id : ℕ
  pub team_id : ℕ
  pub status : String

-- A row of `order_check`, whether it is flagged and whether it is resolved.
pub record Flag : Type 0 where
  pub order_id : ℕ
  pub is_flagged : Bool
  pub is_resolved : Bool

-- A row of `order_line`, and of `product`.
pub record Line : Type 0 where
  pub order_id : ℕ
  pub order_date : ℕ
  pub product_id : Option ℕ

pub record Source : Type 0 where
  pub id : ℕ
  pub source_channel : String
  pub source_ref : Option String

pub record Db : Type 0 where
  pub pos : List Po
  pub orders : List Order
  pub purchasers : List Purchaser
  pub accounts : List Account
  pub flags : List Flag
  pub lines : List Line
  pub sources : List Source
  pub policies : List PolicyRow
  pub next_po : ℕ

pub data Error : Type 0 where
  order_blocked procurement_not_found plugin_dispatched order_not_found order_state_invalid : Error
  order_in_flight state_invalid purchaser_not_found purchaser_disabled manual_assigned : Error
  account_not_found account_not_active not_plugin_dispatched already_purchased : Error
  many_rows integrity account_not_locked : Error

abbrev pub po_key : Po → ℕ
po_key p = p.id

abbrev pub is_none : {A : Type 0} → Option A → Bool
is_none none = true
is_none (some _) = false

abbrev pub is_some : {A : Type 0} → Option A → Bool
is_some none = false
is_some (some _) = true

-- `status <> ALL (ARRAY['cancelled', 'backfilled'])`
abbrev pub is_in_flight : Status → Bool
is_in_flight backfilled = false
is_in_flight cancelled = false
is_in_flight _ = true

abbrev pub in_flight : ℕ → ℕ → Po → Bool
in_flight team order p = (p.team_id == team) && (p.order_id == order) && is_in_flight p.status

abbrev blocks : Mode → Bool
blocks manual = false
blocks semi = true
blocks auto = true

-- `_order_block_gate`, whether it raises.
unfoldable pub is_blocked : Db → ℕ → ℕ → Bool
unfolding resolve_mode
is_blocked db team order =
    blocks (resolve_mode db.policies team order_block).0
    && any_row (λ (f : Flag). (f.order_id == order) && f.is_flagged && not f.is_resolved) db.flags

-- `_load_po`
unfoldable pub owned : ℕ → Option Po → Result Error Po
owned team none = err procurement_not_found
owned team (some p) = if p.team_id == team then ok p else err procurement_not_found

unfoldable pub load_po : Db → ℕ → ℕ → Result Error Po
unfolding owned
load_po db id team = owned team (find_key po_key id db.pos)

-- `advance_order`
unfoldable pub advance_order : ℕ → ℕ → OrderStatus → (OrderStatus → Bool) → List Order → List Order
advance_order id date to froms =
    update_where (λ (o : Order). (o.id == id) && (o.order_date == date) && froms o.internal_status)
      λ (o : Order). record o { internal_status = to }

abbrev pub is_checked : OrderStatus → Bool
is_checked checked = true
is_checked _ = false

abbrev pub is_allotted : OrderStatus → Bool
is_allotted order_assigned = true
is_allotted _ = false

abbrev pub can_create : OrderStatus → Bool
can_create s = is_checked s || is_allotted s

-- The UPDATE of the one row, and the advance of its order.
abbrev pub write : Db → Po → (Po → Po) → List Order → Db
write db p change orders = record db { pos = update_key po_key p.id change db.pos; orders = orders }

-- `uq_po_active_dispatch`
abbrev pub is_active_dispatch : ℕ → Po → Bool
is_active_dispatch order p =
    (p.order_id == order)
    && is_some p.buyer_account_id
    && elim p.status [ cancelled ↦ false | _ ↦ true ]

unfoldable pub breaks_unique : List Po → Bool
breaks_unique [] = false
breaks_unique (p ∷ ps) =
    (is_active_dispatch p.order_id p && any_row (is_active_dispatch p.order_id) ps)
    || breaks_unique ps

abbrev pub can_assign : Status → Bool
can_assign unassigned = true
can_assign assigned = true
can_assign _ = false

abbrev pub allot : ℕ → ℕ → List Order → List Order
allot id date = advance_order id date order_assigned is_checked

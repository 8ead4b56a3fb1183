-- ===== src/Procurement/Manual.antt =====
-- backend/src/erp/order/procurement.py: `create_po`, `assign_po`, `assign_po_to_buyer_account` and
-- `claim_po`.
use erp_all.Prelude.{
  ℕ, suc, Bool, true, false, not, Option, none, some, List, [], ◌∷◌, ◌++◌, ◌==◌, str_eq,
  if◌then◌else◌, any_row, select_where, find_key, Result, ok, err,
}
use erp_all.Procurement.{
  Status, unassigned, assigned, claimed, Po, Order, Purchaser, Account, Db, Error, order_blocked,
  plugin_dispatched, order_not_found, order_state_invalid, order_in_flight, state_invalid,
  purchaser_not_found, purchaser_disabled, manual_assigned, account_not_found, account_not_active,
  many_rows, integrity, is_some, in_flight, is_blocked, load_po, advance_order, allot, can_create,
  write, breaks_unique, can_assign,
}

abbrev purchaser_key : Purchaser → ℕ
purchaser_key p = p.id

abbrev account_key : Account → ℕ
account_key a = a.id

abbrev pub manned : ℕ → Purchaser → Option ℕ → Po → Po
manned now v actor p = record p {
  purchaser_id = some v.id;
  assignee_kind = v.purchaser_kind;
  status = assigned;
  assigned_by = actor;
  assigned_at = some now;
}

unfoldable pub assign_with : ℕ → Option ℕ → Db → ℕ → Po → Option Purchaser → Result Error Db
unfolding is_blocked advance_order
assign_with now actor db team p none = err purchaser_not_found
assign_with now actor db team p (some v) =
    if not (v.team_id == team)
    then err purchaser_not_found
    else if not v.is_active
    then err purchaser_disabled
    else if is_blocked db team p.order_id
    then err order_blocked
    else ok (write db p (manned now v actor) (allot p.order_id p.order_date db.orders))

unfoldable pub assign_loaded : ℕ → Option ℕ → Db → ℕ → ℕ → Po → Result Error Db
unfolding assign_with
assign_loaded now actor db team purchaser p =
    if not (can_assign p.status)
    then err state_invalid
    else if is_some p.buyer_account_id
    then err plugin_dispatched
    else assign_with now actor db team p (find_key purchaser_key purchaser db.purchasers)

unfoldable pub assign_po : ℕ → Option ℕ → Db → ℕ → ℕ → ℕ → Result Error Db
unfolding assign_loaded load_po
assign_po now actor db team id purchaser = elim (load_po db id team) [
  | err e ↦ err e
  | ok p ↦ assign_loaded now actor db team purchaser p
]

unfoldable pub new_po : ℕ → ℕ → Order → Po
new_po now id o = record {
  id = id;
  team_id = o.team_id;
  store_id = o.store_id;
  order_id = o.id;
  order_date = o.order_date;
  status = unassigned;
  assignee_kind = "none";
  purchaser_id = none;
  buyer_account_id = none;
  exchange_rate_locked = none;
  exception_kind = none;
  exception_reason = none;
  purchase_order_ref = none;
  purchased_at = none;
  backfill_actor_kind = none;
  assigned_by = none;
  assigned_at = none;
  created_at = now;
  columns = [];
}

unfoldable pub insert_po : ℕ → Db → Order → Db
unfolding new_po
insert_po now db o = record db {
  pos = db.pos ++ (new_po now db.next_po o ∷ []);
  next_po = suc db.next_po;
}

-- `if purchaser_id is not None: await assign_po(…)`
unfoldable pub assign_new : ℕ → Option ℕ → Db → ℕ → ℕ → Option ℕ → Result Error Db
unfolding assign_po
assign_new now actor db team id none = ok db
assign_new now actor db team id (some purchaser) = assign_po now actor db team id purchaser

unfoldable pub create_for : ℕ → Option ℕ → Db → ℕ → Option ℕ → Order → Result Error (Db × ℕ)
unfolding insert_po assign_new is_blocked
create_for now actor db team purchaser o =
    if not (o.team_id == team)
    then err order_not_found
    else if not (can_create o.internal_status)
    then err order_state_invalid
    else if any_row (in_flight team o.id) db.pos
    then err order_in_flight
    else if is_blocked db team o.id
    then err order_blocked
    else elim (assign_new now actor (insert_po now db o) team db.next_po purchaser) [
      | err e ↦ err e
      | ok db' ↦ ok (db', db.next_po)
    ]

-- `one_or_none` over the rows with the order's number, of whatever date.
unfoldable pub create_among : ℕ → Option ℕ → Db → ℕ → Option ℕ → List Order → Result Error (Db × ℕ)
unfolding create_for
create_among now actor db team purchaser [] = err order_not_found
create_among now actor db team purchaser (o ∷ []) = create_for now actor db team purchaser o
create_among now actor db team purchaser (_ ∷ _ ∷ _) = err many_rows

unfoldable pub create_po : ℕ → Option ℕ → Db → ℕ → ℕ → Option ℕ → Result Error (Db × ℕ)
unfolding create_among
create_po now actor db team order purchaser =
    create_among now actor db team purchaser (select_where (λ (o : Order). o.id == order) db.orders)

abbrev pub dispatched_to : ℕ → ℕ → Option ℕ → Po → Po
dispatched_to now account actor p = record p {
  buyer_account_id = some account;
  purchaser_id = none;
  assignee_kind = "none";
  status = assigned;
  assigned_by = actor;
  assigned_at = some now;
}

-- A statement that would break the unique index raises.
abbrev pub if_unique : Db → Result Error Db
if_unique db = if breaks_unique db.pos then err integrity else ok db

unfoldable pub dispatch_with : ℕ → Option ℕ → Db → ℕ → Po → Option Account → Result Error Db
unfolding is_blocked breaks_unique advance_order
dispatch_with now actor db team p none = err account_not_found
dispatch_with now actor db team p (some a) =
    if not (a.team_id == team)
    then err account_not_found
    else if not (str_eq a.status "active")
    then err account_not_active
    else if is_blocked db team p.order_id
    then err order_blocked
    else if_unique
        (write db p (dispatched_to now a.id actor) (allot p.order_id p.order_date db.orders))

unfoldable pub dispatch_loaded : ℕ → Option ℕ → Db → ℕ → ℕ → Po → Result Error Db
unfolding dispatch_with
dispatch_loaded now actor db team account p =
    if not (can_assign p.status)
    then err state_invalid
    else if is_some p.purchaser_id
    then err manual_assigned
    else dispatch_with now actor db team p (find_key account_key account db.accounts)

unfoldable pub assign_po_to_buyer_account : ℕ → Option ℕ → Db → ℕ → ℕ → ℕ → Result Error Db
unfolding dispatch_loaded load_po
assign_po_to_buyer_account now actor db team id account = elim (load_po db id team) [
  | err e ↦ err e
  | ok p ↦ dispatch_loaded now actor db team account p
]

-- `coalesce(exchange_rate_locked, (SELECT exchange_rate FROM app.purchaser WHERE id = purchaser_id))`
abbrev rate_of : Option Purchaser → Option ℕ
rate_of none = none
rate_of (some v) = some v.exchange_rate

abbrev purchaser_of : List Purchaser → Option ℕ → Option Purchaser
purchaser_of vs none = none
purchaser_of vs (some id) = find_key purchaser_key id vs

abbrev pub locked_rate : List Purchaser → Option ℕ → Option ℕ → Option ℕ
locked_rate vs (some rate) purchaser = some rate
locked_rate vs none purchaser = rate_of (purchaser_of vs purchaser)

abbrev pub claimed_po : List Purchaser → Po → Po
claimed_po vs p = record p {
  status = claimed;
  exchange_rate_locked = locked_rate vs p.exchange_rate_locked p.purchaser_id;
}

abbrev pub is_assigned : Status → Bool
is_assigned assigned = true
is_assigned _ = false

unfoldable pub claim_loaded : Db → Po → Result Error Db
claim_loaded db p =
    if not (is_assigned p.status)
    then err state_invalid
    else if is_some p.buyer_account_id
    then err plugin_dispatched
    else ok (write db p (claimed_po db.purchasers) db.orders)

unfoldable pub claim_po : Db → ℕ → ℕ → Result Error Db
unfolding claim_loaded load_po
claim_po db team id = elim (load_po db id team) [ err e ↦ err e | ok p ↦ claim_loaded db p ]

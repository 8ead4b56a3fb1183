-- ===== src/Procurement/Release.antt =====
-- backend/src/erp/order/procurement.py: `backfill_po`, `exception_po`, `release_po` and
-- `plugin_manual_backfill`.
use erp_all.Prelude.{
  ℕ, String, Bool, true, false, not, Option, none, some, List, [], ◌∷◌, ◌||◌, str_eq, if◌then◌else◌,
  find_first, Result, ok, err,
}
use erp_all.Procurement.{
  Status, unassigned, assigned, claimed, purchased, backfilled, exception, Po, Order, Db, Error,
  plugin_dispatched, state_invalid, not_plugin_dispatched, already_purchased, checked, purchasing,
  is_none, is_some, is_in_flight, load_po, advance_order, is_allotted, can_create, write,
}
use erp_all.Procurement.Manual.{locked_rate}

abbrev pub backfill_fields : List String
backfill_fields =
    "purchase_platform" ∷ "purchase_order_ref" ∷ "purchase_cost" ∷ "purchase_currency"
    ∷ "freight_cost" ∷ "carrier" ∷ "tracking_no" ∷ "note" ∷ "tax_amount" ∷ "payment_card_last4"
    ∷ "delivery_est_date" ∷ "delivery_est_raw" ∷ []

abbrev value_of : Option (String × String) → Option String
value_of none = none
value_of (some (_, v)) = some v

-- `fields[f]`, where a `None` is as an absent one.
abbrev field_of : List (String × String) → String → Option String
field_of fields f = value_of (find_first (λ kv. str_eq kv.0 f) fields)

unfoldable pub put_column : String → String → List (String × String) → List (String × String)
put_column f v [] = (f, v) ∷ []
put_column f v ((k, w) ∷ rest) =
    let later = put_column f v rest in if str_eq k f then (f, v) ∷ rest else (k, w) ∷ later

unfoldable pub set_column : String → Option String → Po → Po
unfolding put_column
set_column f none p = p
set_column f (some v) p =
    if str_eq f "purchase_order_ref"
    then record p { purchase_order_ref = some v }
    else record p { columns = put_column f v p.columns }

-- `for f in …: if fields.get(f) is not None: sets.append(…)`
unfoldable pub set_columns : List String → List (String × String) → Po → Po
unfolding set_column
set_columns [] fields p = p
set_columns (f ∷ fs) fields p = set_columns fs fields (set_column f (field_of fields f) p)

abbrev pub or_now : ℕ → Option ℕ → Option ℕ
or_now now none = some now
or_now now (some t) = some t

abbrev actor_kind : String → String
actor_kind kind = if str_eq kind "none" then "op_direct" else "internal"

unfoldable pub backfilled_po : ℕ → Db → List (String × String) → Po → Po
unfolding set_columns
backfilled_po now db fields p =
    let q = set_columns backfill_fields fields p in
    record q {
      status = backfilled;
      purchased_at = or_now now p.purchased_at;
      backfill_actor_kind = some (actor_kind p.assignee_kind);
      exchange_rate_locked = locked_rate db.purchasers p.exchange_rate_locked p.purchaser_id;
    }

abbrev pub can_backfill : Status → Bool
can_backfill unassigned = true
can_backfill assigned = true
can_backfill claimed = true
can_backfill purchased = true
can_backfill _ = false

abbrev pub buy : ℕ → ℕ → List Order → List Order
buy id date = advance_order id date purchasing can_create

unfoldable pub backfill_loaded : ℕ → Db → List (String × String) → Po → Result Error Db
unfolding backfilled_po advance_order
backfill_loaded now db fields p =
    if not (can_backfill p.status)
    then err state_invalid
    else if is_some p.buyer_account_id
    then err plugin_dispatched
    else ok (write db p (backfilled_po now db fields) (buy p.order_id p.order_date db.orders))

unfoldable pub backfill_po : ℕ → Db → ℕ → ℕ → List (String × String) → Result Error Db
unfolding backfill_loaded load_po
backfill_po now db team id fields = elim (load_po db id team) [
  | err e ↦ err e
  | ok p ↦ backfill_loaded now db fields p
]

-- `coalesce(:kind, exception_kind)`
abbrev pub coalesce : Option String → Option String → Option String
coalesce none old = old
coalesce (some k) old = some k

abbrev pub excepted_po : String → Option String → Po → Po
excepted_po reason kind p = record p {
  status = exception;
  exception_reason = some reason;
  exception_kind = coalesce kind p.exception_kind;
}

unfoldable pub except_loaded : Db → String → Option String → Po → Result Error Db
except_loaded db reason kind p =
    if not (is_in_flight p.status)
    then err state_invalid
    else ok (write db p (excepted_po reason kind) db.orders)

unfoldable pub exception_po : Db → ℕ → ℕ → String → Option String → Result Error Db
unfolding except_loaded load_po
exception_po db team id reason kind = elim (load_po db id team) [
  | err e ↦ err e
  | ok p ↦ except_loaded db reason kind p
]

abbrev pub is_exception : Status → Bool
is_exception exception = true
is_exception _ = false

-- Whether the money is spent: a reference or a time of purchase.
abbrev pub is_bought : Po → Bool
is_bought p = is_some p.purchase_order_ref || is_some p.purchased_at

abbrev pub released_po : Po → Po
released_po p = record p {
  status = unassigned;
  buyer_account_id = none;
  exception_kind = none;
  exception_reason = none;
  assigned_by = none;
  assigned_at = none;
}

abbrev pub hand_back : ℕ → ℕ → List Order → List Order
hand_back id date = advance_order id date checked is_allotted

unfoldable pub release_loaded : Db → Po → Result Error Db
unfolding advance_order
release_loaded db p =
    if is_none p.buyer_account_id
    then err not_plugin_dispatched
    else if not (is_exception p.status)
    then err state_invalid
    else if is_bought p
    then err already_purchased
    else ok (write db p released_po (hand_back p.order_id p.order_date db.orders))

unfoldable pub release_po : Db → ℕ → ℕ → Result Error Db
unfolding release_loaded load_po
release_po db team id = elim (load_po db id team) [ err e ↦ err e | ok p ↦ release_loaded db p ]

abbrev pub manual_fields : List String
manual_fields = "purchase_cost" ∷ "tax_amount" ∷ "freight_cost" ∷ "payment_card_last4" ∷ []

-- `coalesce(exchange_rate_locked, 1.0)`
abbrev pub or_par : Option ℕ → Option ℕ
or_par none = some 10000
or_par (some rate) = some rate

unfoldable pub copied_po : ℕ → String → List (String × String) → Po → Po
unfolding set_columns put_column
copied_po now ref fields p =
    let q = set_columns manual_fields fields p in
    record q {
      columns =
          put_column "purchase_platform" "amazon" (put_column "purchase_currency" "USD" q.columns);
      exchange_rate_locked = or_par p.exchange_rate_locked;
      purchase_order_ref = some ref;
      backfill_actor_kind = some "op_direct";
      exception_kind = none;
      exception_reason = none;
      status = purchased;
      purchased_at = or_now now p.purchased_at;
    }

abbrev pub can_copy : Status → Bool
can_copy assigned = true
can_copy exception = true
can_copy _ = false

unfoldable pub copy_loaded : ℕ → Db → String → List (String × String) → Po → Result Error Db
unfolding copied_po advance_order
copy_loaded now db ref fields p =
    if is_none p.buyer_account_id
    then err not_plugin_dispatched
    else if not (can_copy p.status)
    then err state_invalid
    else if is_some p.purchase_order_ref
    then err already_purchased
    else ok (write db p (copied_po now ref fields) (buy p.order_id p.order_date db.orders))

unfoldable pub plugin_manual_backfill :
    ℕ → Db → ℕ → ℕ → String → List (String × String) → Result Error Db
unfolding copy_loaded load_po
plugin_manual_backfill now db team id ref fields = elim (load_po db id team) [
  | err e ↦ err e
  | ok p ↦ copy_loaded now db ref fields p
]

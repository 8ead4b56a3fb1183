-- ===== src/Refund/Tests.antt =====
-- Requests at a concrete database: the theorems of the module's children applied, and runs.
use erp_all.Prelude.{◌≡◌, refl, true, none, some, List, [], ◌∷◌, arith, ok, err}
use erp_all.Prelude.Int.{pos, negsuc}
use erp_all.Automation.{PolicyRow, resolve_mode, refund, cancel, parse_mode, is_illegal}
use erp_all.Refund.{
  Order, approval, Status, pending_approval, Decision, Request, Db, Args, Created, create_request,
  create_at, decide_request, find_request, find_order, level_for, mode_map, decided_request,
  new_request, refund_auto_not_wired, refund_amount_invalid, refund_request_not_found,
}
use erp_all.Refund.Lifecycle.{IsValid, decision_local}

abbrev order : Order
order = record { id = 9; team_id = 2; store_id = 5; order_date = 100; currency = "USD" }

abbrev policies : List PolicyRow
policies =
    record { team_id = 2; flow_code = "refund"; mode = "semi"; enabled = true }
    ∷ record { team_id = 2; flow_code = "cancel"; mode = "auto"; enabled = true }
    ∷ []

abbrev empty : Db
empty = record {
  orders = order ∷ [];
  reasons = "damaged" ∷ [];
  policies = policies;
  requests = [];
  next_id = 1;
}

abbrev args : Args
args = record {
  team_id = 2;
  order_id = 9;
  kind = refund;
  amount = pos 1250;
  reason_code = "damaged";
  requested_by = 7;
}

abbrev row : Request
row = record {
  id = 1;
  team_id = 2;
  store_id = 5;
  order_id = 9;
  order_date = 100;
  kind = refund;
  amount = pos 1250;
  currency = "USD";
  reason_code = "damaged";
  mode_applied = approval;
  status = pending_approval;
  requested_by = 7;
  approved_by = none;
}

abbrev filed : Db
filed = record empty { requests = row ∷ []; next_id = 2 }

abbrev reply : Created
reply = record { id = 1; status = pending_approval; mode_applied = approval }

abbrev approved : Db
approved = record filed {
  requests = record row { status = Status.approved; approved_by = some 3 } ∷ [];
}

files : create_request empty args ≡ ok (filed, reply)
unfolding create_request create_at resolve_mode parse_mode is_illegal level_for mode_map find_order
    new_request
files = refl

approves : decide_request filed 1 2 Decision.approved 3 ≡ ok approved
unfolding decide_request decided_request
approves = refl

refuses :
    (create_request empty (record args { kind = cancel }) ≡ err refund_auto_not_wired)
    × (create_request empty (record args { amount = pos 0 }) ≡ err refund_amount_invalid)
    × (create_request empty (record args { amount = negsuc 4 }) ≡ err refund_amount_invalid)
    × (decide_request filed 1 3 Decision.approved 3 ≡ err refund_request_not_found)
unfolding create_request create_at decide_request resolve_mode parse_mode is_illegal level_for
    mode_map find_order
refuses = (refl, refl, refl, refl)

empty-IsValid : IsValid empty
empty-IsValid = record { sound = tt; distinct = tt; fresh = tt }

decision_local_example : find_request approved 5 ≡ find_request filed 5
decision_local_example =
    decision_local filed 1 5 2 Decision.approved 3 approved (omega arith) approves

-- ===== src/Procurement/Tests.antt =====
-- Execution orders of backend/src/erp/order/procurement.py and dispatch.py, one that waits for a buyer
-- account and one that an account stopped at.
use erp_all.Prelude.{
  ℕ, ◌≤◌, ◌≡◌, refl, false, none, some, List, [], ◌∷◌, arith, inl, inr, find_key, count_where, max,
  ==→eq, ok, ◌==◌, Bool-cases,
}
use erp_all.Prelude.Int.{pos}
use erp_all.Procurement.{
  Po, Order, Db, unassigned, assigned, exception, checked, order_assigned, po_key, in_flight,
}
use erp_all.Procurement.Dispatch.{Claim, Config, claim_tasks_for_account, used_today, is_candidate}
use erp_all.Procurement.Runs.{Op, create, except, release, pull, run}
use erp_all.Procurement.Book.{is_before, Lasts, IsBooked}
use erp_all.Procurement.Outcomes.{run_lasting, run_bought}
use erp_all.Procurement.Cap.{cap_kept}

abbrev waiting : Po
waiting = record {
  id = 1;
  team_id = 7;
  store_id = 2;
  order_id = 50;
  order_date = 9;
  status = unassigned;
  assignee_kind = "none";
  purchaser_id = none;
  buyer_account_id = none;
  exchange_rate_locked = some 71000;
  exception_kind = none;
  exception_reason = none;
  purchase_order_ref = none;
  purchased_at = none;
  backfill_actor_kind = none;
  assigned_by = none;
  assigned_at = none;
  created_at = 10;
  columns = [];
}

abbrev stopped : Po
stopped = record waiting {
  id = 2;
  order_id = 51;
  status = exception;
  buyer_account_id = some 4;
  assigned_at = some 120;
}

abbrev order : Order
order = record {
  id = 50;
  order_date = 9;
  team_id = 7;
  store_id = 2;
  internal_status = checked;
  country = some "US";
}

abbrev start : Db
start = record {
  pos = waiting ∷ stopped ∷ [];
  orders = order ∷ record order { id = 51; internal_status = order_assigned } ∷ [];
  purchasers = [];
  accounts = record { id = 4; team_id = 7; status = "active" } ∷ [];
  flags = [];
  lines = record { order_id = 50; order_date = 9; product_id = some 6 } ∷ [];
  sources = record { id = 6; source_channel = "amazon"; source_ref = some "B0" } ∷ [];
  policies = [];
  next_po = 3;
}

one_each : (team k : ℕ) → count_where (in_flight team k) (waiting ∷ stopped ∷ []) ≤ 1
one_each team k = elim (Bool-cases (50 == k)) [
  | inl e ↦ let same = ==→eq _ _ e in ground arith
  | inr e ↦ ground arith
]

start-IsBooked : IsBooked start
start-IsBooked = record {
  once = ((λ e. omega arith, tt), (tt, tt));
  below = (omega arith, (omega arith, tt));
  single = one_each;
  safe = (
    record { one_path = λ e. refl; bought_once = λ e. absurd (cc) },
    (record { one_path = λ e. refl; bought_once = λ e. absurd (cc) }, tt),
  );
}

abbrev pull_config : Config
pull_config = record { pull_batch_max = 20; pending_claim_cap = 50 }

abbrev request : Claim
request = record {
  team_id = 7;
  buyer_account_id = 4;
  site = some "amazon_com";
  account_status = "active";
  daily_cap = some 2;
  limit = pos 10;
}

abbrev day : List Op
day =
    release 7 2
    ∷ pull 150 [] 100 pull_config request
    ∷ create 160 none 7 50 none
    ∷ except 7 1 "price" none
    ∷ []

run_lasting_example : (q : Po) × (find_key po_key 1 (run day start).pos ≡ some q) × Lasts waiting q
run_lasting_example = run_lasting day start 1 waiting start-IsBooked refl

abbrev bought : Po
bought = record stopped { purchase_order_ref = some "113-1"; purchased_at = some 130 }

abbrev after_buy : Db
after_buy = record start { pos = waiting ∷ bought ∷ [] }

one_each_bought : (team k : ℕ) → count_where (in_flight team k) (waiting ∷ bought ∷ []) ≤ 1
one_each_bought team k = elim (Bool-cases (50 == k)) [
  | inl e ↦ let same = ==→eq _ _ e in ground arith
  | inr e ↦ ground arith
]

after_buy-IsBooked : IsBooked after_buy
after_buy-IsBooked = record {
  once = ((λ e. omega arith, tt), (tt, tt));
  below = (omega arith, (omega arith, tt));
  single = one_each_bought;
  safe = (
    record { one_path = λ e. refl; bought_once = λ e. absurd (cc) },
    (record { one_path = λ e. refl; bought_once = λ e. refl }, tt),
  );
}

run_bought_example :
    (q : Po) × (find_key po_key 2 (run day after_buy).pos ≡ some q)
    × (is_before q.status ≡ false)
    × (is_candidate [] 7 "US" (run day after_buy) q ≡ false)
run_bought_example = run_bought day after_buy 2 bought [] 7 "US" after_buy-IsBooked refl refl

abbrev given : Po
given = record waiting { status = assigned; buyer_account_id = some 4; assigned_at = some 150 }

abbrev after_pull : Db
after_pull = record start {
  pos = given ∷ stopped ∷ [];
  orders =
      record order { internal_status = order_assigned }
      ∷ record order { id = 51; internal_status = order_assigned }
      ∷ [];
}

pulled :
    claim_tasks_for_account 150 [] 100 pull_config request start
    ≡ ok (after_pull, record { pos = 1 ∷ []; reason = none })
unfolding claim_tasks_for_account
pulled = refl

cap_kept_example : used_today 4 100 after_pull ≤ max (used_today 4 100 start) 2
cap_kept_example =
    cap_kept 150 [] 100 pull_config request 2 start after_pull
      (record { pos = 1 ∷ []; reason = none }) start-IsBooked refl pulled

-- The released execution order waits again, and may be pulled again.
released_again :
    (run (release 7 2 ∷ []) start).pos
    ≡ waiting
      ∷ record stopped { status = unassigned; buyer_account_id = none; assigned_at = none }
      ∷ []
unfolding run
released_again = refl

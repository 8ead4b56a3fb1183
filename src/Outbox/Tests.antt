-- ===== src/Outbox/Tests.antt =====
-- The outbox at concrete tables: its theorems applied, and runs.
use erp_all.Prelude.{
  ℕ, String, ◌≡◌, refl, ap, map, ◌↔◌, true, false, Option, none, some, List, [], ◌∷◌, arith, In,
  inl, inr, find_key, find_first, ok,
}
use erp_all.Prelude.Text.{codes}
use erp_all.Outbox.{
  feed_submit, order_ack, price_push, Status, pending, inflight, Command, Db, command_id, Verdict,
  Completion, final, unknown, claim, complete, release_claim, is_claimable, is_open,
}
use erp_all.Outbox.Payload.{
  Json, num, str, obj, arr, nil, cons, end, field, key, index, HasKey, is_forbidden,
  scan_forbidden_keys, scan_forbidden_keys_iff,
}
use erp_all.Outbox.Queue.{
  Args, same_key, new_command, sweep_expired, insert_scanned, enqueue, pick_next, begin_command, Op,
  add, take, finish, settle, sweep, set_stores, step, run,
}
use erp_all.Outbox.Moves.{Moves}
use erp_all.Outbox.Runs.{command_history}
use erp_all.Outbox.Valid.{IsValid, run-IsValid}
use erp_all.Outbox.Fence.{swept_worker_rejected}
use erp_all.Outbox.Claims.{claimed_once}
use erp_all.Outbox.Keys.{enqueue_again}
use erp_all.Outbox.Lanes.Fifo.{price_pushes_ordered, open_store_ordered}

abbrev payload : Json
payload = obj (field "path" (str "/v3/price") (field "items" (arr (cons (num "1") nil)) end))

abbrev leaky : Json
leaky = obj (field "headers" (arr (cons (obj (field "access_token" (str "x") end)) nil)) end)

abbrev hash : Json → String
hash (obj (field k j rest)) = k
hash j = "other"

finds_token :
    scan_forbidden_keys codes leaky ≡ some (key "headers" ∷ index 0 ∷ key "access_token" ∷ [])
unfolding scan_forbidden_keys is_forbidden
finds_token = refl

abbrev args : Args
args = record {
  team_id = 1;
  store_id = 5;
  action = price_push;
  payload = payload;
  idempotency_key = "p-1";
  object_id = none;
}

abbrev start : Db
start = record { commands = []; next_id = 1; feeds = []; active_stores = 5 ∷ [] }

abbrev first : Command
first = record {
  id = 1;
  team_id = 1;
  store_id = 5;
  action = price_push;
  object_id = none;
  idempotency_key = "p-1";
  payload_hash = "path";
  status = pending;
  fence = 0;
  attempts = 0;
  lease_expires_at = none;
  result = none;
  error_code = none;
  completed_at = none;
}

abbrev queued : Db
queued = record start { commands = first ∷ []; next_id = 2 }

clean : scan_forbidden_keys codes payload ≡ none
unfolding scan_forbidden_keys is_forbidden
clean = refl

enqueues :
    enqueue codes hash start args
    ≡ ok (queued, record { command_id = 1; existing = false; status = pending })
unfolding enqueue insert_scanned same_key new_command scan_forbidden_keys is_forbidden
enqueues = refl

queued-IsValid : IsValid queued
queued-IsValid = record {
  distinct = (tt, tt);
  fresh = (omega arith, tt);
  sound = (record { timed = tt; attempts_le = omega arith }, tt);
}

abbrev taken : Command
taken = record first { status = inflight; fence = 1; attempts = 1; lease_expires_at = some 130 }

abbrev working : Db
working = record queued { commands = taken ∷ [] }

claims : claim queued 10 1 120 ≡ (working, some taken)
unfolding claim is_claimable
claims = refl

working-IsValid : IsValid working
working-IsValid = record {
  distinct = (tt, tt);
  fresh = (omega arith, tt);
  sound = (record { timed = tt; attempts_le = omega arith }, tt);
}

picks_it : pick_next queued [] ≡ some first
unfolding pick_next is_claimable
picks_it = refl

frozen : pick_next (record queued { active_stores = [] }) [] ≡ none
unfolding pick_next is_claimable
frozen = refl

-- A refusal by the gateway's own checks rolls the claim back.
prepare_refuses : begin_command (λ s. false) queued 10 1 120 ≡ (queued, none)
unfolding begin_command sweep_expired claim is_claimable
prepare_refuses = refl

-- The lease runs out, the sweep comes, and a late worker reports success.
abbrev late : List Op
late = sweep 200 ∷ finish 201 1 1 (final Verdict.succeeded) none none ∷ []

late_outcome :
    (run codes hash late working).commands
    ≡ record first { status = Status.verify_pending; fence = 2; attempts = 1 } ∷ []
unfolding run step sweep_expired complete
late_outcome = refl

command_history_example :
    (d : Command) × (find_key command_id 1 (run codes hash late working).commands ≡ some d)
    × Moves taken d
command_history_example = command_history codes hash late working 1 taken refl

run-IsValid_example : IsValid (run codes hash late working)
run-IsValid_example = run-IsValid codes hash late working working-IsValid

swept_worker_rejected_example :
    let after =
      run codes hash (settle 300 1 Verdict.failed none none ∷ []) (sweep_expired working 200) in
    ((at : ℕ) (to : Completion) (result code : Option String)
      → complete after at 1 1 to result code ≡ (after, false))
    × (release_claim after 1 1 ≡ (after, false))
swept_worker_rejected_example =
    swept_worker_rejected codes hash (settle 300 1 Verdict.failed none none ∷ []) working 200 1
      taken working-IsValid refl refl

claimed_once_example :
    let after = run codes hash late (claim queued 10 1 120).0 in
    claim after 400 1 60 ≡ (after, none)
claimed_once_example =
    claimed_once codes hash late queued 10 1 120 taken queued-IsValid
      (ap (λ (r : Db × Option Command). r.1) claims) (refl, (refl, tt)) 400 60

enqueue_again_example :
    let after = run codes hash late queued in
    (c : Command) × (c.id ≡ 1)
    × (find_first (same_key args) after.commands ≡ some c)
    × (enqueue codes hash after (record args { store_id = 6 })
        ≡ ok (after, record { command_id = 1; existing = true; status = c.status }))
enqueue_again_example =
    enqueue_again codes hash late start args (record args { store_id = 6 })
      (queued, record { command_id = 1; existing = false; status = pending }) enqueues refl refl
      refl clean

scan_forbidden_keys_iff_example :
    (scan_forbidden_keys codes payload ≡ none)
    ↔ ((k : String) → HasKey k payload → is_forbidden codes k ≡ false)
scan_forbidden_keys_iff_example = scan_forbidden_keys_iff codes payload

-- Two price pushes: the first in flight, the second waits behind it.
abbrev two_pushes : List Op
two_pushes =
    add args
    ∷ add (record args { idempotency_key = "p-2" })
    ∷ take 10 2 120
    ∷ take 10 1 120
    ∷ finish 20 1 1 (final Verdict.succeeded) none none
    ∷ take 30 2 120
    ∷ []

abbrev done_first : Command
done_first = record taken {
  status = Status.succeeded;
  lease_expires_at = none;
  completed_at = some 20;
}

abbrev second : Command
second = record taken { id = 2; idempotency_key = "p-2"; lease_expires_at = some 150 }

pushed : (run codes hash two_pushes start).commands ≡ done_first ∷ second ∷ []
unfolding run step enqueue insert_scanned same_key new_command scan_forbidden_keys is_forbidden
    claim complete is_claimable
pushed = refl

first_there : In done_first (run codes hash two_pushes start).commands
first_there = rw pushed (inl refl)

second_there : In second (run codes hash two_pushes start).commands
second_there = rw pushed (inr (inl refl))

price_pushes_ordered_example : is_open done_first.status ≡ false
price_pushes_ordered_example =
    price_pushes_ordered codes hash two_pushes start second done_first refl second_there first_there
      refl refl refl (omega arith) refl

open_store_ordered_example : is_open done_first.status ≡ false
open_store_ordered_example =
    open_store_ordered codes hash two_pushes start second done_first 5 refl refl
      (refl, (refl, (refl, (refl, (refl, (refl, tt)))))) second_there first_there refl refl refl
      (omega arith) refl

-- With the store closed in between, an order command is sent past a waiting feed; when the store opens
-- again, the feed can be claimed although the order's result is still unknown.
abbrev reopened : List Op
reopened =
    add (record args { action = feed_submit })
    ∷ set_stores []
    ∷ add (record args { action = order_ack })
    ∷ take 10 2 120
    ∷ finish 20 2 1 unknown none none
    ∷ set_stores (5 ∷ [])
    ∷ take 30 1 120
    ∷ []

overtakes :
    map (λ (c : Command). c.status) (run codes hash reopened start).commands
    ≡ inflight ∷ Status.verify_pending ∷ []
unfolding run step enqueue insert_scanned same_key new_command scan_forbidden_keys is_forbidden
    claim complete is_claimable
overtakes = refl

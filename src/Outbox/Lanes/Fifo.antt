-- ===== src/Outbox/Lanes/Fifo.antt =====
-- Both lanes of a store, over any list of the outbox's operations: what was sent was sent in order.
use erp_all.Prelude.{
  ℕ, String, ◌<◌, ◌≡◌, refl, sym, ◌∙◌, Bool, true, false, List, [], ◌∷◌, arith, ◌==◌, ==→eq, ◌||◌,
  In, All, All-In, any_row,
}
use erp_all.Outbox.{
  Action, price_push, Command, Db, is_price, is_order, is_open, bool_eq, claim, complete,
  release_claim, resolve_verify,
}
use erp_all.Outbox.Payload.{Json}
use erp_all.Outbox.Queue.{
  Args, sweep_expired, Op, add, take, finish, give_back, settle, sweep, set_stores, step, run,
}
use erp_all.Outbox.Runs.{Enqueued, unchanged, appended, enqueue-Enqueued}
use erp_all.Outbox.Valid.{IsValid, step-IsValid}
use erp_all.Outbox.Lanes.{is_sent, Selection, LaneOk, GateOk}
use erp_all.Outbox.Lanes.Writes.{
  complete-LaneOk, release_claim-LaneOk, resolve_verify-LaneOk, sweep_expired-LaneOk,
  enqueue-LaneOk, claim-LaneOk,
}

-- The stores that the rest of the program leaves open suit the selection.
abbrev pub KeepsGate : Selection → Op → Type 0
KeepsGate q (set_stores stores) = GateOk q stores
KeepsGate q _ = Unit

module _ (lower : String → List ℕ) (hash : Json → String) (q : Selection) where
  enqueue-GateOk :
      {db : Db} {h : String} {args : Args} {new : Db}
      → GateOk q db.active_stores
      → Enqueued db h args new
      → GateOk q new.active_stores
  enqueue-GateOk g unchanged = g
  enqueue-GateOk g (appended free) = g

  step-GateOk :
      (op : Op) (db : Db)
      → KeepsGate q op
      → GateOk q db.active_stores
      → GateOk q (step lower hash op db).active_stores
  unfolding step claim complete release_claim resolve_verify sweep_expired
  step-GateOk (add args) db k g = enqueue-GateOk g (enqueue-Enqueued lower hash db args)
  step-GateOk (take now id lease) db k g = g
  step-GateOk (finish now id fence to result code) db k g = g
  step-GateOk (give_back id fence) db k g = g
  step-GateOk (settle now id to result code) db k g = g
  step-GateOk (sweep now) db k g = g
  step-GateOk (set_stores stores) db k g = k

  step-LaneOk :
      (op : Op) (db : Db)
      → IsValid db
      → GateOk q db.active_stores
      → LaneOk q db
      → LaneOk q (step lower hash op db)
  unfolding step
  step-LaneOk (add args) db v g ok = enqueue-LaneOk q db ok v (enqueue-Enqueued lower hash db args)
  step-LaneOk (take now id lease) db v g ok = claim-LaneOk q db ok now id lease g
  step-LaneOk (finish now id fence to result code) db v g ok =
      complete-LaneOk q db ok now id fence to result code
  step-LaneOk (give_back id fence) db v g ok = release_claim-LaneOk q db ok id fence
  step-LaneOk (settle now id to result code) db v g ok =
      resolve_verify-LaneOk q db ok now id to result code
  step-LaneOk (sweep now) db v g ok = sweep_expired-LaneOk q db ok now
  step-LaneOk (set_stores stores) db v g ok = ok

  run-LaneOk :
      (ops : List Op) (db : Db)
      → All (KeepsGate q) ops
      → IsValid db
      → GateOk q db.active_stores
      → LaneOk q db
      → LaneOk q (run lower hash ops db)
  unfolding run
  run-LaneOk [] db k v g ok = ok
  run-LaneOk (op ∷ ops) db k v g ok =
      run-LaneOk ops (step lower hash op db) k.1 (step-IsValid lower hash op db v)
        (step-GateOk op db k.0 g) (step-LaneOk op db v g ok)

-- A table without commands is in order.
empty-IsValid : (db : Db) → db.commands ≡ [] → IsValid db
empty-IsValid db e = record { distinct = rw e tt; fresh = rw e tt; sound = rw e tt }

empty-LaneOk : (q : Selection) (db : Db) → db.commands ≡ [] → LaneOk q db
empty-LaneOk q db e = rw e tt

abbrev prices : Selection
prices store action = is_price action

gate_price :
    (a z : Action) (active : Bool)
    → is_price a ≡ true
    → is_price z ≡ true
    → (is_order a || active) ≡ true
    → (is_order z || active) ≡ true
gate_price a z active p q r = ground arith

prices-GateOk : (stores : List ℕ) → GateOk prices stores
prices-GateOk stores c b qc qb lane pass = rw (lane.0) (gate_price c.action b.action _ qc qb pass)

prices-KeepsGate : (ops : List Op) → All (KeepsGate prices) ops
prices-KeepsGate [] = tt
prices-KeepsGate (set_stores stores ∷ ops) = (prices-GateOk stores, prices-KeepsGate ops)
prices-KeepsGate (_ ∷ ops) = (tt, prices-KeepsGate ops)

abbrev of_store : ℕ → Selection
of_store s store action = store == s

-- The store is open in that list.
abbrev pub has_store : ℕ → List ℕ → Bool
has_store s stores = any_row (λ t. t == s) stores

or-right : (a b : Bool) → b ≡ true → (a || b) ≡ true
or-right a b h = ground arith

of_store-GateOk : (s : ℕ) (stores : List ℕ) → has_store s stores ≡ true → GateOk (of_store s) stores
of_store-GateOk s stores h c b qc qb lane pass =
    or-right (is_order b.action) (has_store b.store_id stores) (rw (==→eq b.store_id s qb) h)

-- The operation does not close the store.
abbrev pub leaves_open : ℕ → Op → Bool
leaves_open s (set_stores stores) = has_store s stores
leaves_open s _ = true

of_store-KeepsGate :
    (s : ℕ) (ops : List Op)
    → All (λ op. leaves_open s op ≡ true) ops
    → All (KeepsGate (of_store s)) ops
of_store-KeepsGate s [] h = tt
of_store-KeepsGate s (set_stores stores ∷ ops) h =
    (of_store-GateOk s stores h.0, of_store-KeepsGate s ops h.1)
of_store-KeepsGate s (_ ∷ ops) h = (tt, of_store-KeepsGate s ops h.1)

module _ (lower : String → List ℕ) (hash : Json → String) where
  -- Price pushes of one store go out in the order in which they were enqueued, one at a time: from a
  -- table without commands, after any operations and however stores are closed and reopened, a price
  -- push that is in flight or awaits its verdict has no earlier price push of its store without one.
  pub price_pushes_ordered :
      (ops : List Op) (db : Db) (c b : Command)
      → db.commands ≡ []
      → let after = run lower hash ops db in
        In c after.commands
        → In b after.commands
        → c.action ≡ price_push
        → b.action ≡ price_push
        → b.store_id ≡ c.store_id
        → b.id < c.id
        → is_sent c.status ≡ true
        → is_open b.status ≡ false
  price_pushes_ordered ops db c b e i j pc pb same lt sent =
      let all =
        run-LaneOk lower hash prices ops db (prices-KeepsGate ops) (empty-IsValid db e)
          (prices-GateOk db.active_stores) (empty-LaneOk prices db e) in
      (All-In _ b _ (All-In _ c _ all i) j).in_order (rw pc refl) (rw pb refl)
        (same, rw (pb, pc) refl) lt sent

  -- While a store stays open, each of its two lanes is first in, first out: from a table without
  -- commands, a command of the store that is in flight or awaits its verdict has no earlier command in
  -- its lane without a verdict.
  pub open_store_ordered :
      (ops : List Op) (db : Db) (c b : Command) (s : ℕ)
      → db.commands ≡ []
      → has_store s db.active_stores ≡ true
      → All (λ op. leaves_open s op ≡ true) ops
      → let after = run lower hash ops db in
        In c after.commands
        → In b after.commands
        → c.store_id ≡ s
        → b.store_id ≡ s
        → bool_eq (is_price b.action) (is_price c.action) ≡ true
        → b.id < c.id
        → is_sent c.status ≡ true
        → is_open b.status ≡ false
  open_store_ordered ops db c b s e is_active keep i j sc sb lane lt sent =
      let all =
        run-LaneOk lower hash (of_store s) ops db (of_store-KeepsGate s ops keep)
          (empty-IsValid db e) (of_store-GateOk s db.active_stores is_active)
          (empty-LaneOk (of_store s) db e) in
      (All-In _ b _ (All-In _ c _ all i) j).in_order (ground arith) (ground arith)
        (sb ∙ sym sc, lane) lt sent

-- ===== src/Outbox/Lanes.antt =====
-- The lanes of the outbox: a store's price pushes are one lane, all its other commands another. The
-- claim's NOT EXISTS keeps a lane first-in first-out as long as closed stores do not interfere.
pub mod Writes
pub mod Fifo
use erp_all.Prelude.{
  ℕ, suc, String, ◌<◌, ◌≡◌, refl, sym, ap, ◌∙◌, subst, Bool, true, false, not, Option, none, some,
  List, [], ◌∷◌, ◌++◌, arith, ◌==◌, ==→eq, ltb, ltb→lt, ◌&&◌, ◌||◌, inl, inr, In, All, All-In,
  any_row, any_row-In, update_where, changed, if-elim, pairs-update, pairs-append,
}
use erp_all.Outbox.{
  Action, Status, pending, inflight, Command, Db, command_id, is_held, awaits, is_price, is_order,
  is_open, is_pending, is_inflight, bool_eq, passes_gate, blocks, is_claimable, takes, claim,
  claimed, Completion, completed, complete, released, release_claim, Verdict, resolved,
  resolve_verify,
}
use erp_all.Outbox.Payload.{Json}
use erp_all.Outbox.Queue.{
  Args, new_command, swept, is_expired, sweep_expired, Op, add, take, finish, give_back, settle,
  sweep, set_stores, step, run,
}
use erp_all.Outbox.Runs.{Enqueued, unchanged, appended, enqueue-Enqueued}
use erp_all.Outbox.Valid.{IsValid, step-IsValid}

-- The request has been sent and has no verdict yet.
abbrev pub is_sent : Status → Bool
is_sent inflight = true
is_sent Status.verify_pending = true
is_sent _ = false

-- The commands that a lane property is about: a test of the store and the action.
abbrev pub Selection : Type 0
Selection = ℕ → Action → Bool

abbrev pub Picks : Selection → Command → Type 0
Picks q c = q c.store_id c.action ≡ true

abbrev pub SameLane : Command → Command → Type 0
SameLane c b = (b.store_id ≡ c.store_id) × (bool_eq (is_price b.action) (is_price c.action) ≡ true)

-- If `c` has been sent, the earlier `b` of its lane has its verdict.
pub record InOrder (q : Selection) (c b : Command) : Type 0 where
  pub in_order :
      Picks q c
      → Picks q b
      → SameLane c b
      → b.id < c.id
      → is_sent c.status ≡ true
      → is_open b.status ≡ false

abbrev pub LaneOk : Selection → Db → Type 0
LaneOk q db = All (λ c. All (InOrder q c) db.commands) db.commands

-- Where a command of the selection passes the gate, the others of its lane do too.
abbrev pub GateOk : Selection → List ℕ → Type 0
GateOk q stores =
    (c b : Command)
    → Picks q c
    → Picks q b
    → SameLane c b
    → (is_order c.action || any_row (λ s. s == c.store_id) stores) ≡ true
    → (is_order b.action || any_row (λ s. s == b.store_id) stores) ≡ true

-- A write that neither sends nor reopens.
pub record Calm (x y : Command) : Type 0 where
  pub id : y.id ≡ x.id
  pub store_id : y.store_id ≡ x.store_id
  pub action : y.action ≡ x.action
  pub sent : is_sent y.status ≡ true → is_sent x.status ≡ true
  pub open_before : is_open x.status ≡ false → is_open y.status ≡ false

pub Calm-refl : (x : Command) → Calm x x
Calm-refl x = record {
  id = refl;
  store_id = refl;
  action = refl;
  sent = λ h. h;
  open_before = λ h. h;
}

pub InOrder-Calm :
    (q : Selection) (c b d e : Command) → Calm c d → Calm b e → InOrder q c b → InOrder q d e
InOrder-Calm q c b d e m n h = record {
  in_order = λ qd qe lane lt sent. n.open_before (
      h.in_order (rw (m.store_id, m.action) at qd) (rw (n.store_id, n.action) at qe)
        (sym n.store_id ∙ lane.0 ∙ m.store_id, rw (m.action, n.action) at (lane.1)) (omega arith)
        (m.sent sent));
}

-- Every operation but a claim and an enqueue writes calmly.
pub Calm-LaneOk :
    (q : Selection) (test : Command → Bool) (change : Command → Command) (xs : List Command)
    → ((x : Command) → test x ≡ true → Calm x (change x))
    → All (λ c. All (InOrder q c) xs) xs
    → let new = update_where test change xs in All (λ c. All (InOrder q c) new) new
Calm-LaneOk q test change xs calm = pairs-update (InOrder q) test change xs λ x y _ _.
    InOrder-Calm q x y _ _ (if-elim (Calm x) (test x) (change x) x (calm x) (λ _. Calm-refl x))
      (if-elim (Calm y) (test y) (change y) y (calm y) (λ _. Calm-refl y))

-- ===== src/Outbox/Lanes/Writes.antt =====
-- Every operation of the outbox keeps the lanes in order.
use erp_all.Prelude.{
  ℕ, String, ◌<◌, ◌≡◌, ◌≢◌, Bool, true, false, not, Option, arith, ◌&&◌, In, All-In, any_row,
  any_row-In, changed, if-elim, pairs-update, pairs-append,
}
use erp_all.Outbox.{
  Status, Command, Db, is_held, awaits, is_open, is_pending, passes_gate, blocks, is_claimable,
  takes, claim, claimed, Completion, completed, complete, released, release_claim, Verdict,
  resolved, resolve_verify,
}
use erp_all.Outbox.Queue.{Args, new_command, swept, is_expired, sweep_expired}
use erp_all.Outbox.Runs.{Enqueued, unchanged, appended}
use erp_all.Outbox.Valid.{IsValid}
use erp_all.Outbox.Lanes.{Selection, SameLane, InOrder, LaneOk, GateOk, Calm-LaneOk}

is_claimable_parts :
    (db : Db) (c : Command)
    → is_claimable db c ≡ true
    → (is_pending c.status ≡ true)
      × (passes_gate db c ≡ true)
      × (any_row (blocks db c) db.commands ≡ false)
unfolding is_claimable passes_gate blocks
is_claimable_parts db c h = parts (any_row (blocks db c) db.commands) (passes_gate db c) h
  where
    parts :
        (blocked gate : Bool)
        → (is_pending c.status && gate && not blocked) ≡ true
        → (is_pending c.status ≡ true) × (gate ≡ true) × (blocked ≡ false)
    parts blocked gate e = ground arith

and-right : (a b : Bool) → (a && b) ≡ true → b ≡ true
and-right a b h = ground arith

is_open-is_pending : (s : Status) → is_pending s ≡ true → is_open s ≢ false
is_open-is_pending s p = ground arith

blocks-eq_false :
    (db : Db) (c b : Command)
    → blocks db c b ≡ false
    → SameLane c b
    → b.id < c.id
    → passes_gate db b ≡ true
    → is_open b.status ≡ false
unfolding blocks
blocks-eq_false db c b h lane lt gate = ground arith

module _ (q : Selection) (db : Db) (ok : LaneOk q db) where
  pub complete-LaneOk :
      (now id fence : ℕ) (to : Completion) (result code : Option String)
      → LaneOk q (complete db now id fence to result code).0
  unfolding complete
  complete-LaneOk now id fence to result code =
      Calm-LaneOk q (is_held id fence) (completed now to result code) db.commands
        (λ x t. ground arith) ok

  pub release_claim-LaneOk : (id fence : ℕ) → LaneOk q (release_claim db id fence).0
  unfolding release_claim
  release_claim-LaneOk id fence =
      Calm-LaneOk q (is_held id fence) released db.commands (λ x t. ground arith) ok

  pub resolve_verify-LaneOk :
      (now id : ℕ) (to : Verdict) (result code : Option String)
      → LaneOk q (resolve_verify db now id to result code).0
  unfolding resolve_verify
  resolve_verify-LaneOk now id to result code =
      Calm-LaneOk q (awaits id) (resolved now to result code) db.commands (λ x t. ground arith) ok

  pub sweep_expired-LaneOk : (now : ℕ) → LaneOk q (sweep_expired db now)
  unfolding sweep_expired
  sweep_expired-LaneOk now =
      Calm-LaneOk q (is_expired now) swept db.commands (λ x t. ground arith) ok

  pub enqueue-LaneOk :
      {hash : String} {args : Args} {new : Db}
      → IsValid db
      → Enqueued db hash args new
      → LaneOk q new
  unfolding new_command
  enqueue-LaneOk v unchanged = ok
  enqueue-LaneOk v (appended free) =
      pairs-append (InOrder q) db.commands _
        (λ x i. record {
          in_order = λ _ _ _ lt _.
              absurd (
                omega (arith, All-In (λ (c : Command). c.id < db.next_id) x db.commands v.fresh i));
        })
        (λ y. record { in_order = λ _ _ _ _ sent. absurd (cc) }) ok

  -- The claim itself: nothing open stood before the command in its lane.
  claimed-InOrder :
      (now lease : ℕ) (c b : Command)
      → GateOk q db.active_stores
      → is_claimable db c ≡ true
      → In b db.commands
      → InOrder q (claimed now lease c) b
  unfolding claimed passes_gate
  claimed-InOrder now lease c b gate ready i = record {
    in_order = λ qc qb lane lt sent.
        let (waiting, passes, free) = is_claimable_parts db c ready in
        blocks-eq_false db c b (any_row-In (blocks db c) db.commands b free i) lane lt
          (gate c b qc qb lane passes);
  }

  -- A row that the claim does not take, beside one that it may have taken.
  beside-InOrder :
      (now id lease : ℕ) (c b : Command)
      → InOrder q c b
      → InOrder q c (changed (takes db id) (claimed now lease) b)
  unfolding claimed
  beside-InOrder now id lease c b h =
      if-elim (InOrder q c) (takes db id b) (claimed now lease b) b (λ t. taken (and-right _ _ t))
        (λ _. h)
    where
      taken : is_claimable db b ≡ true → InOrder q c (claimed now lease b)
      taken ready = record {
        in_order = λ qc qb lane lt sent.
            let settled = h.in_order qc qb lane lt sent in
            absurd (is_open-is_pending b.status (is_claimable_parts db b ready).0 settled);
      }

  pub claim-LaneOk :
      (now id lease : ℕ) → GateOk q db.active_stores → LaneOk q (claim db now id lease).0
  unfolding claim
  claim-LaneOk now id lease gate =
      pairs-update (InOrder q) (takes db id) (claimed now lease) db.commands
        (λ x y i j h.
          if-elim (λ z. InOrder q z (changed (takes db id) (claimed now lease) y)) (takes db id x)
            (claimed now lease x) x
            (λ t.
              beside-InOrder now id lease (claimed now lease x) y
                (claimed-InOrder now lease x y gate (and-right _ _ t) j))
            (λ _. beside-InOrder now id lease x y h))
        ok

-- ===== src/Outbox/Fence.antt =====
-- What the fence of the outbox promises: a worker whose claim has been swept, or given back and taken
-- by another, can write nothing any more.
use erp_all.Prelude.{
  ℕ, String, ◌<◌, ◌≡◌, refl, true, false, Option, some, List, arith, ◌==◌, ◌&&◌, find_key, any_row,
  any_row-key, update_where-none, find_first-update_where,
}
use erp_all.Outbox.{
  Command, Db, command_id, is_held, is_inflight, Completion, completed, complete, released,
  release_claim,
}
use erp_all.Outbox.Payload.{Json}
use erp_all.Outbox.Queue.{swept, is_expired, sweep_expired, Op, run}
use erp_all.Outbox.Runs.{command_history}
use erp_all.Outbox.Valid.{IsValid, sweep_expired-IsValid, run-IsValid}

-- Under an older fence the WHERE of `complete` and `release_claim` finds no row.
is_held-old_fence :
    (db : Db) (id fence : ℕ) (c : Command)
    → IsValid db
    → find_key command_id id db.commands ≡ some c
    → fence < c.fence
    → any_row (is_held id fence) db.commands ≡ false
is_held-old_fence db id fence c v f h =
    any_row-key command_id (λ d. (d.fence == fence) && is_inflight d.status) id db.commands c
      v.distinct f (ground arith)

-- So neither writes anything, and both report that.
stale_writes :
    (db : Db) (id fence : ℕ) (c : Command)
    → IsValid db
    → find_key command_id id db.commands ≡ some c
    → fence < c.fence
    → ((now : ℕ) (to : Completion) (result code : Option String)
        → complete db now id fence to result code ≡ (db, false))
      × (release_claim db id fence ≡ (db, false))
unfolding complete release_claim
stale_writes db id fence c v f h =
    let no_row = is_held-old_fence db id fence c v f h in
    (
      λ now to result code.
          rw (update_where-none _ (completed now to result code) _ no_row, no_row) refl,
      rw (update_where-none _ released _ no_row, no_row) refl,
    )

-- The sweep raises the fence of a command whose lease has run out.
find_key-sweep_expired :
    (db : Db) (now id : ℕ) (c : Command)
    → find_key command_id id db.commands ≡ some c
    → is_expired now c ≡ true
    → find_key command_id id (sweep_expired db now).commands ≡ some (swept c)
unfolding sweep_expired
find_key-sweep_expired db now id c f e =
    let (d, found, r) =
      find_first-update_where (λ x y. is_expired now x ≡ true → y ≡ swept x)
        (λ x. command_id x == id) (is_expired now) swept db.commands c (λ x off on. absurd (cc))
        (λ x _. (unfold swept in refl, λ _. refl)) f in
    rw (← r e) found

module _ (lower : String → List ℕ) (hash : Json → String) where
  -- Once a sweep has found a command's lease run out, the worker that held it can never complete it or
  -- give it back, whatever the other processes do in between: both calls report failure and leave every
  -- table as it is.
  pub swept_worker_rejected :
      (ops : List Op) (db : Db) (now id : ℕ) (c : Command)
      → IsValid db
      → find_key command_id id db.commands ≡ some c
      → is_expired now c ≡ true
      → let after = run lower hash ops (sweep_expired db now) in
        ((at : ℕ) (to : Completion) (result code : Option String)
          → complete after at id c.fence to result code ≡ (after, false))
        × (release_claim after id c.fence ≡ (after, false))
  swept_worker_rejected ops db now id c v f e =
      let start = sweep_expired db now in
      let (d, found, m) =
        command_history lower hash ops start id (swept c)
          (find_key-sweep_expired db now id c f e) in
      let newer : c.fence < d.fence = unfold swept in m.fence_le in
      stale_writes (run lower hash ops start) id c.fence d
        (run-IsValid lower hash ops start (sweep_expired-IsValid db v now)) found newer

-- ===== src/Outbox/Valid.antt =====
-- The well-formedness of the outbox's table: ids are unique and below the sequence, a lease stands
-- exactly on the commands in flight, a completion time exactly on those with a verdict, and a command
-- was claimed no more often than its fence says.
use erp_all.Prelude.{
  ℕ, suc, String, ◌≤◌, ◌<◌, ◌≡◌, refl, Bool, true, Option, none, some, List, [], ◌∷◌, arith, All,
  All-append, All-imp, All-update_where, Distinct, Distinct-update_where, Distinct-append_fresh,
  update_where,
}
use erp_all.Outbox.{
  Status, pending, inflight, Command, Db, command_id, is_held, awaits, takes, is_claimable, claim,
  claimed, Completion, completed, complete, released, release_claim, Verdict, resolved,
  resolve_verify,
}
use erp_all.Outbox.Payload.{Json}
use erp_all.Outbox.Queue.{
  Args, new_command, swept, is_expired, sweep_expired, Op, add, take, finish, give_back, settle,
  sweep, set_stores, step, run,
}
use erp_all.Outbox.Runs.{Enqueued, unchanged, appended, enqueue-Enqueued}

-- The columns that the status determines.
abbrev pub Timed : Status → Option ℕ → Option ℕ → Type 0
Timed inflight (some t) none = Unit
Timed pending none none = Unit
Timed Status.verify_pending none none = Unit
Timed Status.succeeded none (some t) = Unit
Timed Status.failed none (some t) = Unit
Timed _ _ _ = ⊥

pub record IsSound (c : Command) : Type 0 where
  pub timed : Timed c.status c.lease_expires_at c.completed_at
  pub attempts_le : c.attempts ≤ c.fence

pub record IsValid (db : Db) : Type 0 where
  pub distinct : Distinct command_id db.commands
  pub fresh : All (λ (c : Command). c.id < db.next_id) db.commands
  pub sound : All IsSound db.commands

-- An update that keeps the ids and the soundness of the rows that it writes.
update-IsValid :
    (db : Db) (test : Command → Bool) (change : Command → Command)
    → ((c : Command) → (change c).id ≡ c.id)
    → ((c : Command) → test c ≡ true → IsSound c → IsSound (change c))
    → IsValid db
    → IsValid (record db { commands = update_where test change db.commands })
update-IsValid db test change keeps writes v = record {
  distinct = Distinct-update_where command_id change keeps test db.commands v.distinct;
  fresh =
      All-update_where (λ (c : Command). c.id < db.next_id) test change db.commands
        (λ c _ h. omega (arith, keeps c)) v.fresh;
  sound = All-update_where IsSound test change db.commands writes v.sound;
}

module _ (db : Db) (v : IsValid db) where
  pub claim-IsValid : (now id lease : ℕ) → IsValid (claim db now id lease).0
  unfolding claim is_claimable
  claim-IsValid now id lease =
      update-IsValid db (takes db id) (claimed now lease) (λ c. refl) (λ c t s. ground arith) v

  complete-IsValid :
      (now id fence : ℕ) (to : Completion) (result code : Option String)
      → IsValid (complete db now id fence to result code).0
  unfolding complete
  complete-IsValid now id fence to result code =
      update-IsValid db (is_held id fence) (completed now to result code) (λ c. refl)
        (λ c t s. ground arith) v

  release_claim-IsValid : (id fence : ℕ) → IsValid (release_claim db id fence).0
  unfolding release_claim
  release_claim-IsValid id fence =
      update-IsValid db (is_held id fence) released (λ c. refl) (λ c t s. ground arith) v

  resolve_verify-IsValid :
      (now id : ℕ) (to : Verdict) (result code : Option String)
      → IsValid (resolve_verify db now id to result code).0
  unfolding resolve_verify
  resolve_verify-IsValid now id to result code =
      update-IsValid db (awaits id) (resolved now to result code) (λ c. refl)
        (λ c t s. ground arith) v

  pub sweep_expired-IsValid : (now : ℕ) → IsValid (sweep_expired db now)
  unfolding sweep_expired
  sweep_expired-IsValid now =
      let u = update-IsValid db (is_expired now) swept (λ c. refl) (λ c t s. ground arith) v in
      record { distinct = u.distinct; fresh = u.fresh; sound = u.sound }

  enqueue-IsValid :
      {hash : String} {args : Args} {new : Db} → Enqueued db hash args new → IsValid new
  unfolding new_command
  enqueue-IsValid unchanged = v
  enqueue-IsValid {hash = hash} {args = args} (appended free) = record {
    distinct = Distinct-append_fresh command_id db.commands _ v.distinct v.fresh;
    fresh =
        All-append (λ (c : Command). c.id < suc db.next_id) db.commands _
          (All-imp _ _ db.commands (λ c h. omega arith) v.fresh) (omega arith, tt);
    sound =
        All-append IsSound db.commands _ v.sound
          (record { timed = tt; attempts_le = omega arith }, tt);
  }

module _ (lower : String → List ℕ) (hash : Json → String) where
  pub step-IsValid : (op : Op) (db : Db) → IsValid db → IsValid (step lower hash op db)
  unfolding step
  step-IsValid (add args) db v = enqueue-IsValid db v (enqueue-Enqueued lower hash db args)
  step-IsValid (take now id lease) db v = claim-IsValid db v now id lease
  step-IsValid (finish now id fence to result code) db v =
      complete-IsValid db v now id fence to result code
  step-IsValid (give_back id fence) db v = release_claim-IsValid db v id fence
  step-IsValid (settle now id to result code) db v =
      resolve_verify-IsValid db v now id to result code
  step-IsValid (sweep now) db v = sweep_expired-IsValid db v now
  step-IsValid (set_stores stores) db v = record {
    distinct = v.distinct;
    fresh = v.fresh;
    sound = v.sound;
  }

  -- Every operation of the outbox, in any order, keeps the table well formed: ids unique and below the
  -- sequence, a lease exactly while in flight, a completion time exactly with a verdict, and no more
  -- attempts than the fence counts.
  pub run-IsValid : (ops : List Op) (db : Db) → IsValid db → IsValid (run lower hash ops db)
  unfolding run
  run-IsValid [] db v = v
  run-IsValid (op ∷ ops) db v = run-IsValid ops (step lower hash op db) (step-IsValid op db v)

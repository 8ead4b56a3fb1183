-- ===== src/Outbox/Runs.antt =====
-- Runs of the outbox's operations in any order, followed through one selected row.
use erp_all.Prelude.{
  ℕ, suc, String, ◌≡◌, refl, Bool, true, Option, none, some, List, [], ◌∷◌, ◌++◌, arith, ◌==◌,
  find_key, find_first-update_where, find_first-append, update_where, ap, inl, inr, find_first,
  str_eq, Bool-cases,
}
use erp_all.Outbox.{
  Command, Db, command_id, is_claimable, claim, Completion, complete, release_claim, Verdict,
  resolve_verify,
}
use erp_all.Outbox.Payload.{Json, Step, scan_forbidden_keys}
use erp_all.Outbox.Queue.{
  Args, enqueue, insert, insert_scanned, replay, same_key, new_command, sweep_expired, Op, add,
  take, finish, give_back, settle, sweep, set_stores, kept, step, run,
}
use erp_all.Outbox.Moves.{
  Moves, Moves-refl, Moves-trans, claimed-Moves, completed-Moves, released-Moves, resolved-Moves,
  swept-Moves,
}

-- `enqueue` leaves the tables as they are, or appends one new row whose unique key was free.
pub data Enqueued (db : Db) (hash : String) (args : Args) : Db → Type 0 where
  unchanged : Enqueued db hash args db
  appended :
      find_first (same_key args) db.commands ≡ none
      → Enqueued db hash args (record db {
        commands = db.commands ++ (new_command db.next_id hash args ∷ []);
        next_id = suc db.next_id;
      })

replay-Enqueued :
    (db : Db) (hash h : String) (args : Args) (c : Command)
    → Enqueued db h args (kept db (replay db hash c))
replay-Enqueued db hash h args c = elim (Bool-cases (str_eq c.payload_hash hash)) [
  | inl e ↦ rw e unchanged
  | inr e ↦ rw e unchanged
]

insert-Enqueued :
    (db : Db) (hash : String) (args : Args) (found : Option Command)
    → find_first (same_key args) db.commands ≡ found
    → Enqueued db hash args (kept db (insert db hash args found))
unfolding insert
insert-Enqueued db hash args (some c) e = replay-Enqueued db hash hash args c
insert-Enqueued db hash args none e = appended e

insert_scanned-Enqueued :
    (db : Db) (hash : String) (args : Args) (path : Option (List Step))
    → Enqueued db hash args (kept db (insert_scanned db hash args path))
unfolding insert_scanned insert
insert_scanned-Enqueued db hash args (some path) = unchanged
insert_scanned-Enqueued db hash args none =
    insert-Enqueued db hash args (find_first (same_key args) db.commands) refl

pub enqueue-Enqueued :
    (lower : String → List ℕ) (hash : Json → String) (db : Db) (args : Args)
    → Enqueued db (hash args.payload) args (kept db (enqueue lower hash db args))
unfolding enqueue
enqueue-Enqueued lower hash db args =
    insert_scanned-Enqueued db (hash args.payload) args (scan_forbidden_keys lower args.payload)

-- A selection of rows that reads only what stays.
abbrev pub IsStable : (Command → Bool) → Type 0
IsStable sel = (c d : Command) → Moves c d → sel d ≡ sel c

pub has_id-IsStable : (id : ℕ) → IsStable (λ c. command_id c == id)
has_id-IsStable id c d m = ap (λ (i : ℕ). i == id) m.id

-- The row that a test selects, before and after.
abbrev pub Follows : (Command → Bool) → Db → Command → Type 0
Follows sel new c = (d : Command) × (find_first sel new.commands ≡ some d) × Moves c d

module _ (sel : Command → Bool) (stable : IsStable sel) where
  update-Follows :
      (test : Command → Bool) (change : Command → Command) (xs : List Command) (c : Command)
      → ((x : Command) → test x ≡ true → Moves x (change x))
      → find_first sel xs ≡ some c
      → (d : Command) × (find_first sel (update_where test change xs) ≡ some d) × Moves c d
  update-Follows test change xs c moves found =
      find_first-update_where Moves sel test change xs c (λ x _. Moves-refl x)
        (λ x t. (stable x (change x) (moves x t), moves x t)) found

  module _ (db : Db) (c : Command) (found : find_first sel db.commands ≡ some c) where
    claim-Follows : (now at lease : ℕ) → Follows sel (claim db now at lease).0 c
    unfolding claim is_claimable
    claim-Follows now at lease =
        update-Follows _ _ db.commands c (λ x t. claimed-Moves now lease x (ground arith)) found

    complete-Follows :
        (now at fence : ℕ) (to : Completion) (result code : Option String)
        → Follows sel (complete db now at fence to result code).0 c
    unfolding complete
    complete-Follows now at fence to result code =
        update-Follows _ _ db.commands c
          (λ x t. completed-Moves now to result code x (ground arith)) found

    release_claim-Follows : (at fence : ℕ) → Follows sel (release_claim db at fence).0 c
    unfolding release_claim
    release_claim-Follows at fence =
        update-Follows _ _ db.commands c (λ x t. released-Moves x (ground arith)) found

    resolve_verify-Follows :
        (now at : ℕ) (to : Verdict) (result code : Option String)
        → Follows sel (resolve_verify db now at to result code).0 c
    unfolding resolve_verify
    resolve_verify-Follows now at to result code =
        update-Follows _ _ db.commands c (λ x t. resolved-Moves now to result code x (ground arith))
          found

    sweep_expired-Follows : (now : ℕ) → Follows sel (sweep_expired db now) c
    unfolding sweep_expired
    sweep_expired-Follows now =
        update-Follows _ _ db.commands c (λ x t. swept-Moves x (ground arith)) found

    enqueue-Follows :
        {hash : String} {args : Args} {new : Db} → Enqueued db hash args new → Follows sel new c
    enqueue-Follows unchanged = (c, found, Moves-refl c)
    enqueue-Follows (appended free) = (c, find_first-append sel db.commands _ c found, Moves-refl c)

  module _ (lower : String → List ℕ) (hash : Json → String) where
    step-Follows :
        (op : Op) (db : Db) (c : Command)
        → find_first sel db.commands ≡ some c
        → Follows sel (step lower hash op db) c
    unfolding step
    step-Follows (add args) db c f = enqueue-Follows db c f (enqueue-Enqueued lower hash db args)
    step-Follows (take now at lease) db c f = claim-Follows db c f now at lease
    step-Follows (finish now at fence to result code) db c f =
        complete-Follows db c f now at fence to result code
    step-Follows (give_back at fence) db c f = release_claim-Follows db c f at fence
    step-Follows (settle now at to result code) db c f =
        resolve_verify-Follows db c f now at to result code
    step-Follows (sweep now) db c f = sweep_expired-Follows db c f now
    step-Follows (set_stores stores) db c f = (c, f, Moves-refl c)

    -- After any list of operations the selected row is still the selected one, and has moved as `Moves`
    -- allows.
    pub run-Follows :
        (ops : List Op) (db : Db) (c : Command)
        → find_first sel db.commands ≡ some c
        → Follows sel (run lower hash ops db) c
    unfolding run
    run-Follows [] db c f = (c, f, Moves-refl c)
    run-Follows (op ∷ ops) db c f =
        let (d, found, m) = step-Follows op db c f in
        let (e, last, n) = run-Follows ops (step lower hash op db) d found in
        (e, last, Moves-trans c d e m n)

-- After any list of operations a command is still in the table under its id, with the same store,
-- action, key and payload hash; its fence and its attempts have not fallen; and if its request may have
-- left (`verify_pending` or a verdict) it has not been claimed again and never gets back to `pending` or
-- `inflight`.
pub command_history :
    (lower : String → List ℕ) (hash : Json → String) (ops : List Op) (db : Db) (id : ℕ)
    (c : Command)
    → find_key command_id id db.commands ≡ some c
    → (d : Command) × (find_key command_id id (run lower hash ops db).commands ≡ some d) × Moves c d
command_history lower hash ops db id c f =
    run-Follows (λ x. command_id x == id) (has_id-IsStable id) lower hash ops db c f

-- ===== src/Outbox/Claims.antt =====
-- What a claim of the outbox promises: what the caller gets is the row as it now stands, and the
-- command is not handed out a second time unless its claim was given back.
use erp_all.Prelude.{
  ℕ, String, ◌≡◌, refl, sym, ap, subst, Bool, true, false, none, some, List, [], ◌∷◌, arith, ◌==◌,
  ==→eq, All, Option-cases, inl, inr, find_key, find_key_unique, any_row-key, update_where-none,
  update_where, find_first, find_first-none, find_first-eq_some, find_key-eq_some,
  find_first-update_where, find_first-append, some-injective,
}
use erp_all.Outbox.{
  Command, Db, command_id, is_pending, is_claimable, claim, claimed, takes, completed, complete,
  released, release_claim, resolved, resolve_verify,
}
use erp_all.Outbox.Payload.{Json}
use erp_all.Outbox.Queue.{
  swept, is_expired, sweep_expired, Op, add, take, finish, give_back, settle, sweep, set_stores,
  step, run,
}
use erp_all.Outbox.Runs.{Enqueued, unchanged, appended, enqueue-Enqueued}
use erp_all.Outbox.Valid.{IsValid, claim-IsValid, run-IsValid}

-- A claim that succeeds took the command with that id, which was claimable, and returns its new row.
pub claim-eq_some :
    (db : Db) (now id lease : ℕ) (c : Command)
    → IsValid db
    → (claim db now id lease).1 ≡ some c
    → (x : Command) × (find_key command_id id db.commands ≡ some x)
      × (is_claimable db x ≡ true)
      × (c ≡ claimed now lease x)
      × (find_key command_id id (claim db now id lease).0.commands ≡ some c)
unfolding claim
claim-eq_some db now id lease c v e = elim (Option-cases (find_first (takes db id) db.commands)) [
  | inl absent ↦ absurd (cc (rw (absent, claim) at e))
  | inr (x, found) ↦
      let (passes, place) = find_first-eq_some (takes db id) db.commands found in
      let own : x.id ≡ id = ==→eq x.id id (ground arith) in
      let unique : find_key command_id id db.commands ≡ some x =
        subst (λ i. find_key command_id i db.commands ≡ some x) own
          (find_key_unique command_id db.commands x v.distinct place) in
      let same : claimed now lease x ≡ c = some-injective _ _ (rw (found, claim) at e) in
      let (d, after, r) =
        find_first-update_where (λ y z. takes db id y ≡ true → z ≡ claimed now lease y)
          (λ y. command_id y == id) (takes db id) (claimed now lease) db.commands x
          (λ y off on. absurd (cc)) (λ y _. (unfold claimed in refl, λ _. refl)) unique in
      (x, unique, ground arith, sym same, rw (← same, ← r passes) after)
]

-- Nothing is claimed where the command is not pending.
claim-not_pending :
    (db : Db) (now id lease : ℕ) (c : Command)
    → IsValid db
    → find_key command_id id db.commands ≡ some c
    → is_pending c.status ≡ false
    → claim db now id lease ≡ (db, none)
unfolding claim
claim-not_pending db now id lease c v f p =
    let no_row =
      any_row-key command_id (is_claimable db) id db.commands c v.distinct f
        (unfold is_claimable in rw p) in
    rw (
      update_where-none (takes db id) (claimed now lease) db.commands no_row,
      find_first-none _ _ no_row,
    )

abbrev pub gives_back : ℕ → Op → Bool
gives_back id (give_back at fence) = at == id
gives_back id _ = false

-- The command with that id is not waiting to be claimed.
abbrev IsTaken : Db → ℕ → Type 0
IsTaken db id =
    (c : Command) × (find_key command_id id db.commands ≡ some c) × (is_pending c.status ≡ false)

update-IsTaken :
    (id : ℕ) (test : Command → Bool) (change : Command → Command) (db : Db)
    → ((x : Command) → (change x).id ≡ x.id)
    → ((x : Command)
        → test x ≡ true
        → x.id ≡ id
        → is_pending x.status ≡ false
        → is_pending (change x).status ≡ false)
    → IsTaken db id
    → IsTaken (record db { commands = update_where test change db.commands }) id
update-IsTaken id test change db keeps writes (c, found, taken) =
    let (d, after, r) =
      find_first-update_where
        (λ x y. x.id ≡ id → is_pending x.status ≡ false → is_pending y.status ≡ false)
        (λ x. command_id x == id) test change db.commands c (λ x _ _ p. p)
        (λ x t. (ap (λ (i : ℕ). i == id) (keeps x), writes x t)) found in
    (d, after, r (find_key-eq_some command_id id db.commands c found) taken)

module _ (lower : String → List ℕ) (hash : Json → String) where
  -- Only giving the claim back makes a command pending again.
  step-IsTaken :
      (op : Op) (db : Db) (id : ℕ)
      → gives_back id op ≡ false
      → IsTaken db id
      → IsTaken (step lower hash op db) id
  unfolding step
  step-IsTaken (add args) db id g t = grown (enqueue-Enqueued lower hash db args)
    where
      grown : {h : String} {new : Db} → Enqueued db h args new → IsTaken new id
      grown unchanged = t
      grown (appended free) =
          (t.0, find_first-append (λ x. command_id x == id) db.commands _ t.0 t.1, t.2)
  step-IsTaken (take now at lease) db id g t =
      unfold claim claimed in update-IsTaken id _ _ db (λ x. refl) (λ x _ _ _. refl) t
  step-IsTaken (finish now at fence to result code) db id g t =
      unfold complete completed in update-IsTaken id _ _ db (λ x. refl) (λ x _ _ _. ground arith) t
  step-IsTaken (give_back at fence) db id g t =
      unfold release_claim released in
      update-IsTaken id _ _ db (λ x. refl) (λ x held own _. absurd (ground arith)) t
  step-IsTaken (settle now at to result code) db id g t =
      unfold resolve_verify resolved in
      update-IsTaken id _ _ db (λ x. refl) (λ x _ _ _. ground arith) t
  step-IsTaken (sweep now) db id g t =
      let (c, found, taken) =
        update-IsTaken id (is_expired now) swept db (λ x. unfold swept in refl)
          (λ x _ _ _. unfold swept in refl) t in
      (c, unfold sweep_expired in found, taken)
  step-IsTaken (set_stores stores) db id g t = t

  run-IsTaken :
      (ops : List Op) (db : Db) (id : ℕ)
      → All (λ op. gives_back id op ≡ false) ops
      → IsTaken db id
      → IsTaken (run lower hash ops db) id
  unfolding run
  run-IsTaken [] db id g t = t
  run-IsTaken (op ∷ ops) db id g t =
      run-IsTaken ops (step lower hash op db) id g.1 (step-IsTaken op db id g.0 t)

  -- A command that a worker has claimed is never handed out again: unless its claim is given back
  -- before anything was sent, every later claim of it, by whomever and after whatever operations,
  -- returns nothing and changes nothing.
  pub claimed_once :
      (ops : List Op) (db : Db) (now id lease : ℕ) (c : Command)
      → IsValid db
      → (claim db now id lease).1 ≡ some c
      → All (λ op. gives_back id op ≡ false) ops
      → let after = run lower hash ops (claim db now id lease).0 in
        (at again : ℕ) → claim after at id again ≡ (after, none)
  claimed_once ops db now id lease c v e g at again =
      let start = (claim db now id lease).0 in
      let (x, before, ready, same, found) = claim-eq_some db now id lease c v e in
      let taken : IsTaken start id = (c, found, unfold claimed in rw same) in
      let (d, last, off) = run-IsTaken ops start id g taken in
      claim-not_pending (run lower hash ops start) at id again d
        (run-IsValid lower hash ops start (claim-IsValid db v now id lease)) last off

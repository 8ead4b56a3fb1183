-- ===== src/Outbox/Keys.antt =====
-- What the idempotency key of the outbox promises: enqueueing again under one key never makes a second
-- command, whatever has happened to the first.
use mathlib.Core.Path.{fun_ext}
use erp_all.Prelude.{
  ℕ, String, ◌≡◌, refl, ◌∙◌, true, Option, none, some, List, arith, ==-refl, str_eq, str_eq_iff,
  str_eq-refl, if◌then◌else◌, Bool-cases, inl, inr, find_first, find_first-append_none, ok, err,
  Holds, Holds-eq_ok,
}
use erp_all.Outbox.{Action, Command, Db, action_eq}
use erp_all.Outbox.Payload.{Json, Step, scan_forbidden_keys}
use erp_all.Outbox.Queue.{
  idempotency_conflict, Args, Reply, same_key, new_command, replay, insert, insert_scanned, enqueue,
  Op, run,
}
use erp_all.Outbox.Runs.{IsStable, run-Follows}

same_key-IsStable : (args : Args) → IsStable (same_key args)
unfolding same_key
same_key-IsStable args c d m = rw (m.team_id, m.action, m.idempotency_key)

action_eq_refl : (a : Action) → action_eq a a ≡ true
unfolding action_eq
action_eq_refl a = ground arith

same_key-new_command :
    (id : ℕ) (hash : String) (args : Args) → same_key args (new_command id hash args) ≡ true
unfolding same_key new_command
same_key-new_command id hash args =
    rw (==-refl args.team_id, action_eq_refl args.action, str_eq-refl args.idempotency_key)

-- The row that an enqueue replies about.
abbrev IsKept : Db → String → Args → Db × Reply → Type 0
IsKept db hash args out =
    (c : Command) × (find_first (same_key args) out.0.commands ≡ some c)
    × (c.id ≡ out.1.command_id)
    × (c.payload_hash ≡ hash)

replay-IsKept :
    (db : Db) (hash : String) (args : Args) (c : Command)
    → find_first (same_key args) db.commands ≡ some c
    → Holds (IsKept db hash args) (replay db hash c)
replay-IsKept db hash args c f = elim (Bool-cases (str_eq c.payload_hash hash)) [
  | inl e ↦ rw e (c, f, refl, (str_eq_iff c.payload_hash hash).0 e)
  | inr e ↦ rw e tt
]

insert-IsKept :
    (db : Db) (hash : String) (args : Args) (found : Option Command) (out : Db × Reply)
    → find_first (same_key args) db.commands ≡ found
    → insert db hash args found ≡ ok out
    → IsKept db hash args out
unfolding insert
insert-IsKept db hash args (some c) out f e =
    Holds-eq_ok (IsKept db hash args) (replay db hash c) out (replay-IsKept db hash args c f) e
insert-IsKept db hash args none out f e =
    let row = new_command db.next_id hash args in
    let last =
      find_first-append_none (same_key args) db.commands row f (same_key-new_command _ hash args) in
    Holds-eq_ok (IsKept db hash args) (ok _) out
      (row, last, unfold new_command in refl, unfold new_command in refl) e

-- A key that names no command has passed the scan, or the enqueue raised.
insert_scanned-IsKept :
    (db : Db) (hash : String) (args : Args) (path : Option (List Step)) (out : Db × Reply)
    → insert_scanned db hash args path ≡ ok out
    → IsKept db hash args out
unfolding insert_scanned
insert_scanned-IsKept db hash args none out e =
    insert-IsKept db hash args (find_first (same_key args) db.commands) out refl e
insert_scanned-IsKept db hash args (some path) out e = absurd (cc)

replay-eq :
    (db : Db) (hash first : String) (c : Command) (id : ℕ)
    → c.id ≡ id
    → c.payload_hash ≡ first
    → replay db hash c ≡ (
        if str_eq first hash
        then ok (db, record { command_id = id; existing = true; status = c.status })
        else err idempotency_conflict)
replay-eq db hash first c id i h = elim (Bool-cases (str_eq first hash)) [
  | inl e ↦ rw (h, e, i)
  | inr e ↦ rw (h, e)
]

insert_scanned-eq_replay :
    (db : Db) (hash : String) (args : Args) (path : Option (List Step)) (c : Command)
    → path ≡ none
    → find_first (same_key args) db.commands ≡ some c
    → insert_scanned db hash args path ≡ replay db hash c
unfolding insert_scanned insert
insert_scanned-eq_replay db hash args path c clean f = rw (clean, insert_scanned, f)

same_key_congr :
    (args again : Args)
    → again.team_id ≡ args.team_id
    → again.action ≡ args.action
    → again.idempotency_key ≡ args.idempotency_key
    → same_key again ≡ same_key args
unfolding same_key
same_key_congr args again t a k = fun_ext λ c. rw (t, a, k)

module _ (lower : String → List ℕ) (hash : Json → String) where
  -- After an enqueue, and after whatever operations on the outbox, enqueueing again with the same team,
  -- action and key and a clean payload changes nothing: it replies with the first command's id and its
  -- present status if the payload hash is the first one's, and raises the conflict if it is not.
  pub enqueue_again :
      (ops : List Op) (db : Db) (args again : Args) (out : Db × Reply)
      → enqueue lower hash db args ≡ ok out
      → again.team_id ≡ args.team_id
      → again.action ≡ args.action
      → again.idempotency_key ≡ args.idempotency_key
      → scan_forbidden_keys lower again.payload ≡ none
      → let after = run lower hash ops out.0 in
        (c : Command) × (c.id ≡ out.1.command_id)
        × (find_first (same_key args) after.commands ≡ some c)
        × (enqueue lower hash after again ≡ (
            if str_eq (hash args.payload) (hash again.payload)
            then ok (
              after,
              record { command_id = out.1.command_id; existing = true; status = c.status },
            )
            else err idempotency_conflict))
  unfolding enqueue
  enqueue_again ops db args again out e t a k clean =
      let after = run lower hash ops out.0 in
      let (c, found, id, hashed) =
        insert_scanned-IsKept db (hash args.payload) args (scan_forbidden_keys lower args.payload)
          out e in
      let (d, last, m) =
        run-Follows (same_key args) (same_key-IsStable args) lower hash ops out.0 c found in
      let last_again : find_first (same_key again) after.commands ≡ some d =
        rw (same_key_congr args again t a k) last in
      let own : d.id ≡ out.1.command_id = m.id ∙ id in
      let digest : d.payload_hash ≡ hash args.payload = m.payload_hash ∙ hashed in
      (
        d,
        own,
        last,
        insert_scanned-eq_replay after (hash again.payload) again _ d clean last_again
            ∙ replay-eq after (hash again.payload) (hash args.payload) d out.1.command_id own
                digest,
      )

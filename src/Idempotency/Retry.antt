-- ===== src/Idempotency/Retry.antt =====
-- Whole calls of `run_idempotent` of backend/src/erp/core/idempotency.py, one after the other.
use erp_all.Prelude.{
  ℕ, ◌+◌, ◌*◌, ◌≤◌, ◌≡◌, refl, sym, ap, ◌∙◌, subst, true, false, Option, none, some, [], ◌∷◌,
  String, ◌&&◌, str_eq, str_eq-refl, ==-refl, find_first, find_first-update_where,
  find_first-append_eq_none, delete_where-none, delete_where-append, Result, ok, err,
}
use erp_all.Idempotency.{
  Entry, Db, Args, Error, handler_failed, ttl_hours_of, carries_key, is_dead, new_entry, Start,
  reserved, replayed, insert_or_replay, begin_run, is_unanswered, fail_run, answered, finish_run,
  run, after_start, run_idempotent,
}
use erp_all.Idempotency.Tracking.{SameKey, Finds}
use erp_all.Idempotency.Replay.{
  reply_of, left_of, reserved_db, begin_run-reserved, reserved-Finds, result_final, find_first-ext,
  carries_key-subst,
}

-- Nothing is left under the key once the handler's exception has removed the entry.
failed-none :
    (db : Db) (args : Args) (now : ℕ)
    → find_first (carries_key args) (left_of db args now) ≡ none
    → find_first (carries_key args) (fail_run (reserved_db db args now) db.next_id).entries ≡ none
unfolding fail_run
failed-none db args now n =
    let gone : is_unanswered db.next_id (new_entry db args now) ≡ true =
      rw (==-refl db.next_id) refl in
    let split =
      delete_where-append (is_unanswered db.next_id) (left_of db args now)
        (new_entry db args now ∷ []) in
    let left =
      delete_where-none (carries_key args) (is_unanswered db.next_id) (left_of db args now) n in
    rw (split, gone) (find_first-append_eq_none (carries_key args) _ [] left)

begin_run-none :
    (db : Db) (args : Args) (now : ℕ)
    → find_first (carries_key args) db.entries ≡ none
    → begin_run db args now ≡ ok (reserved_db db args now, reserved db.next_id)
unfolding begin_run insert_or_replay
begin_run-none db args now n =
    let left : find_first (carries_key args) (left_of db args now) ≡ none =
      delete_where-none (carries_key args) (λ e. carries_key args e && is_dead db args now e)
        db.entries n in
    rw (left, begin_run, insert_or_replay) refl

-- A failed handler frees its key: the call raises the handler's error, and the next call with the key,
-- at any time and with any payload, runs its own handler and returns that result.
pub retry_after_error :
    (db : Db) (args : Args) (now : ℕ) (db' : Db) (id : ℕ) (other : Args) (later : ℕ) (r : String)
    → begin_run db args now ≡ ok (db', reserved id)
    → SameKey args other
    → let failed = run_idempotent db args now none in
      (failed.1 ≡ err handler_failed)
      × ((run_idempotent failed.0 other later (some r)).1
          ≡ ok (record { response = r; idempotent_replay = false }))
unfolding run_idempotent
retry_after_error db args now db' id other later r h k =
    let (n, same, own) = begin_run-reserved db args now db' id h in
    let free : find_first (carries_key other) (fail_run db' id).entries ≡ none =
      rw (same, own)
        (sym (
            find_first-ext (carries_key args) (carries_key other) _
              (λ x. carries_key-subst args other x k))
          ∙ failed-none db args now n) in
    let again = begin_run-none (fail_run db' id) other later free in
    rw (h, run_idempotent) (refl, rw (again, run_idempotent) refl)

finished-Finds :
    (db : Db) (args : Args) (now : ℕ) (r : String)
    → find_first (carries_key args) (left_of db args now) ≡ none
    → (e : Entry) × Finds args (finish_run (reserved_db db args now) db.next_id r) e
      × (is_unanswered db.next_id (new_entry db args now) ≡ true
          → e ≡ answered r (new_entry db args now))
unfolding finish_run
finished-Finds db args now r n =
    find_first-update_where (λ x y. is_unanswered db.next_id x ≡ true → y ≡ answered r x)
      (carries_key args) (is_unanswered db.next_id) (answered r) (reserved_db db args now).entries
      (new_entry db args now) (λ x off on. absurd (cc)) (λ x t. (refl, λ _. refl))
      (reserved-Finds db args now n)

after_start-replayed :
    (db : Db) (out : Result Error (Db × Start)) (r : String) (handler : Option String)
    → reply_of out ≡ ok (replayed r)
    → (after_start db out handler).1 ≡ ok (record { response = r; idempotent_replay = true })
after_start-replayed db (ok (d, reserved id)) r handler h = absurd (cc)
after_start-replayed db (ok (d, replayed x)) r handler h =
    let same : x ≡ r = cc in ap (λ t. ok (record { response = t; idempotent_replay = true })) same
after_start-replayed db (err e) r handler h = absurd (cc)

-- A finished call is replayed: while the entry lives, a second call with the key and the same payload
-- returns the first call's result, marked as a replay, whatever its own handler would have done.
pub replay_after_result :
    (db : Db) (args : Args) (now : ℕ) (db' : Db) (id : ℕ) (r : String) (other : Args) (later : ℕ)
    (handler : Option String)
    → begin_run db args now ≡ ok (db', reserved id)
    → SameKey args other
    → args.payload_hash ≡ other.payload_hash
    → later ≤ now + ttl_hours_of db.setting * 3600
    → let first = run_idempotent db args now (some r) in
      (first.1 ≡ ok (record { response = r; idempotent_replay = false }))
      × ((run_idempotent first.0 other later handler).1
          ≡ ok (record { response = r; idempotent_replay = true }))
unfolding run_idempotent run
replay_after_result db args now db' id r other later handler h k p l =
    let (n, same, own) = begin_run-reserved db args now db' id h in
    let (e, f, change) = finished-Finds db args now r n in
    let answer : e ≡ answered r (new_entry db args now) = change (rw (==-refl db.next_id) refl) in
    let found : Finds args (finish_run db' id r) (answered r (new_entry db args now)) =
      rw (same, own) (f ∙ ap some answer) in
    let told =
      result_final (finish_run db' id r) args (answered r (new_entry db args now)) r [] other later
        found refl tt k (λ _. (rw same l, λ o. absurd (cc))) in
    let matches : str_eq args.payload_hash other.payload_hash ≡ true =
      subst (λ t. str_eq args.payload_hash t ≡ true) p (str_eq-refl args.payload_hash) in
    rw (h, run_idempotent)
      (
        refl,
        after_start-replayed (finish_run db' id r) (begin_run (finish_run db' id r) other later) r
            handler (told ∙ rw matches refl),
      )

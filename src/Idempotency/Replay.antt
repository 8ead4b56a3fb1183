-- ===== src/Idempotency/Replay.antt =====
-- What a second call with a key gets from backend/src/erp/core/idempotency.py: never a second run.
use erp_all.Prelude.{
  ℕ, suc, ◌≡◌, refl, sym, ◌∙◌, subst, Bool, true, none, some, List, [], ◌∷◌, ◌++◌, String, ◌&&◌,
  str_eq, str_eq-refl, ==-refl, All, find_first, find_first-eq_some, find_first-append_none,
  find_first-delete_where, delete_where, Result, ok, err, Option-cases, inl, inr, if◌then◌else◌,
  Bool-cases,
}
use erp_all.Idempotency.{
  Entry, Db, Args, Error, idempotency_conflict, carries_key, is_dead, new_entry, Start, reserved,
  replayed, replay_entry, with_db, insert_or_replay, begin_run, Op, start, run,
}
use erp_all.Idempotency.Tracking.{
  SameKey, Later, Allowed, Finds, run-Finds, run-setting, is_dead-eq_false,
}

-- The reply of the first transaction, without the tables.
abbrev pub reply_of : Result Error (Db × Start) → Result Error Start
reply_of (ok out) = ok out.1
reply_of (err e) = err e

reply_of-with_db : (db : Db) (r : Result Error Start) → reply_of (with_db db r) ≡ r
reply_of-with_db db (ok s) = refl
reply_of-with_db db (err e) = refl

pub carries_key-subst : (a b : Args) (e : Entry) → SameKey a b → carries_key a e ≡ carries_key b e
carries_key-subst a b e k = let (t, p, i) = k in rw (t, p, i) refl

pub find_first-ext :
    (f g : Entry → Bool) (xs : List Entry)
    → ((x : Entry) → f x ≡ g x)
    → find_first f xs ≡ find_first g xs
find_first-ext f g [] h = refl
find_first-ext f g (x ∷ xs) h = rw (h x, find_first-ext f g xs h) refl

-- A call that finds a living entry under its key answers from it.
begin_run-Finds :
    (db : Db) (args other : Args) (now : ℕ) (e : Entry)
    → SameKey args other
    → Finds args db e
    → Allowed db.setting args e (start other now)
    → reply_of (begin_run db other now) ≡ replay_entry other e
unfolding begin_run insert_or_replay
begin_run-Finds db args other now e k f a =
    let dead = λ (x : Entry). carries_key other x && is_dead db other now x in
    let own = (find_first-eq_some (carries_key args) db.entries f).0 in
    let there : find_first (carries_key other) (delete_where dead db.entries) ≡ some e =
      sym (
        find_first-ext (carries_key args) (carries_key other) (delete_where dead db.entries)
          (λ x. carries_key-subst args other x k))
      ∙ find_first-delete_where (carries_key args) dead db.entries e f
          (is_dead-eq_false db args other now e a own) in
    rw (there, begin_run, insert_or_replay) (reply_of-with_db _ (replay_entry other e))

abbrev pub left_of : Db → Args → ℕ → List Entry
left_of db args now = delete_where (λ e. carries_key args e && is_dead db args now e) db.entries

abbrev pub reserved_db : Db → Args → ℕ → Db
reserved_db db args now = record db {
  entries = left_of db args now ++ (new_entry db args now ∷ []);
  next_id = suc db.next_id;
}

replay_entry-not_reserved :
    (db db' : Db) (args : Args) (e : Entry) (id : ℕ)
    → with_db db (replay_entry args e) ≡ ok (db', reserved id)
    → ⊥
replay_entry-not_reserved db db' args e id h =
    elim (Bool-cases (str_eq e.payload_hash args.payload_hash)) [
      | inr n ↦ absurd (cc (rw n at h))
      | inl y ↦ elim (Option-cases e.response) [
        | inl o ↦ absurd (cc (rw (y, o) at h))
        | inr (r, o) ↦ absurd (cc (rw (y, o) at h))
      ]
    ]

-- A call that reserves found no living entry and added its own.
pub begin_run-reserved :
    (db : Db) (args : Args) (now : ℕ) (db' : Db) (id : ℕ)
    → begin_run db args now ≡ ok (db', reserved id)
    → (find_first (carries_key args) (left_of db args now) ≡ none)
      × (db' ≡ reserved_db db args now)
      × (id ≡ db.next_id)
unfolding begin_run insert_or_replay
begin_run-reserved db args now db' id h =
    elim (Option-cases (find_first (carries_key args) (left_of db args now))) [
      | inr (e, f) ↦ absurd (
          replay_entry-not_reserved (record db { entries = left_of db args now }) db' args e id
            (rw (f, begin_run, insert_or_replay) at h))
      | inl n ↦
          let k : ◌≡◌ {A = Result Error (Db × Start)}
              (ok (reserved_db db args now, reserved db.next_id)) (ok (db', reserved id)) =
            rw (n, begin_run, insert_or_replay) at h in
          (n, cc, cc)
    ]

carries_key-new :
    (db : Db) (args : Args) (now : ℕ) → carries_key args (new_entry db args now) ≡ true
carries_key-new db args now =
    rw (==-refl args.team_id, str_eq-refl args.endpoint, str_eq-refl args.idem_key) refl

pub reserved-Finds :
    (db : Db) (args : Args) (now : ℕ)
    → find_first (carries_key args) (left_of db args now) ≡ none
    → Finds args (reserved_db db args now) (new_entry db args now)
reserved-Finds db args now n =
    find_first-append_none (carries_key args) (left_of db args now) (new_entry db args now) n
      (carries_key-new db args now)

Later-answered : (e f : Entry) (r : String) → e.response ≡ some r → Later e f → f ≡ e
Later-answered e f r p (inl same) = same
Later-answered e f r p (inr (o, _)) = absurd (cc (rw p at o))

replay_entry-answered :
    (args : Args) (e : Entry) (r : String)
    → e.response ≡ some r
    → replay_entry args e ≡ (
        if str_eq e.payload_hash args.payload_hash
        then ok (replayed r)
        else err idempotency_conflict)
replay_entry-answered args e r p = elim (Bool-cases (str_eq e.payload_hash args.payload_hash)) [
  | inr n ↦ rw n refl
  | inl y ↦ rw (y, p) refl
]

-- A stored result is final: through any operations that come before the entry's time is over, a call with
-- the same key and payload gets that result, and one with another payload the conflict.
pub result_final :
    (db : Db) (args : Args) (e : Entry) (r : String) (ops : List Op) (other : Args) (later : ℕ)
    → Finds args db e
    → e.response ≡ some r
    → All (Allowed db.setting args e) ops
    → SameKey args other
    → Allowed db.setting args e (start other later)
    → reply_of (begin_run (run ops db) other later) ≡ (
        if str_eq e.payload_hash other.payload_hash
        then ok (replayed r)
        else err idempotency_conflict)
result_final db args e r ops other later f p a k b =
    let (e', f', l) = run-Finds ops db args e f a in
    let same : e' ≡ e = Later-answered e e' r p l in
    let found = subst (λ x. Finds args (run ops db) x) same f' in
    let c = subst (λ s. Allowed s args e (start other later)) (sym (run-setting ops db)) b in
    begin_run-Finds (run ops db) args other later e k found c ∙ replay_entry-answered other e r p

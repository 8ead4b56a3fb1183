-- ===== src/Idempotency/Tracking.antt =====
-- The entry of a key of backend/src/erp/core/idempotency.py through any interleaving of calls.
use erp_all.Prelude.{
  ℕ, ◌+◌, ◌*◌, ◌≤◌, ◌≡◌, ◌≢◌, refl, sym, ap, ◌∙◌, subst, Bool, true, false, Option, none, some,
  List, [], ◌∷◌, arith, String, ◌&&◌, ◌==◌, ==→eq, str_eq_iff, Bool-cases, ◌⊎◌, inl, inr, All,
  All-imp, find_first, find_first-eq_some, find_first-append, find_first-delete_where,
  find_first-update_where, delete_where, Result, ok, err,
}
use erp_all.Idempotency.{
  Entry, Setting, Db, Args, Error, ttl_hours_of, stale_for, carries_key, lacks_response, is_dead,
  new_entry, Start, replay_entry, with_db, insert_or_replay, begin_run, is_unanswered, fail_run,
  answered, finish_run, Op, start, fail, finish, kept_db, step, run,
}

-- The two calls carry one key.
abbrev pub SameKey : Args → Args → Type 0
SameKey a b = (a.team_id ≡ b.team_id) × (a.endpoint ≡ b.endpoint) × (a.idem_key ≡ b.idem_key)

carries_key-SameKey :
    (a b : Args) (e : Entry) → carries_key a e ≡ true → carries_key b e ≡ true → SameKey a b
carries_key-SameKey a b e h k =
    let i = ==→eq e.team_id a.team_id (ground arith) in
    let j = ==→eq e.team_id b.team_id (ground arith) in
    let p = (str_eq_iff e.endpoint a.endpoint).0 (ground arith) in
    let q = (str_eq_iff e.endpoint b.endpoint).0 (ground arith) in
    let r = (str_eq_iff e.idem_key a.idem_key).0 (ground arith) in
    let s = (str_eq_iff e.idem_key b.idem_key).0 (ground arith) in (sym i ∙ j, sym p ∙ q, sym r ∙ s)

-- An entry stays as it was, or an open one has got its response.
abbrev pub Later : Entry → Entry → Type 0
Later e f = (f ≡ e) ⊎ ((lacks_response e.response ≡ true) × ((r : String) × (f ≡ answered r e)))

Later-trans : (e f g : Entry) → Later e f → Later f g → Later e g
Later-trans e f g (inl p) q = subst (λ x. Later x g) p q
Later-trans e f g (inr (o, (r, p))) (inl q) = inr (o, (r, q ∙ p))
Later-trans e f g (inr (o, (r, p))) (inr (k, t)) =
    let no : true ≡ false = sym k ∙ ap (λ (x : Entry). lacks_response x.response) p in absurd (cc)

-- The operation comes before the entry's time is over: a call with the same key while the entry lives,
-- and, as long as it has no response, within the stale threshold of that call; and an open entry's run
-- does not fail.
abbrev pub Allowed : Option Setting → Args → Entry → Op → Type 0
Allowed setting args e (start other now) =
    SameKey args other
    → (now ≤ e.created_at + ttl_hours_of setting * 3600)
      × (lacks_response e.response ≡ true → now ≤ e.created_at + stale_for setting other * 60)
Allowed setting args e (fail id) = lacks_response e.response ≡ true → id ≢ e.id
Allowed setting args e (finish id r) = Unit

pub Allowed-Later :
    (setting : Option Setting) (args : Args) (e f : Entry) (op : Op)
    → Later e f
    → Allowed setting args e op
    → Allowed setting args f op
Allowed-Later setting args e f op (inl p) a = subst (λ x. Allowed setting args x op) (sym p) a
Allowed-Later setting args e f (start other now) (inr (o, (r, p))) a =
    rw p (λ same. ((a same).0, λ k. absurd (cc)))
Allowed-Later setting args e f (fail id) (inr (o, (r, p))) a = rw p (λ k. absurd (cc))
Allowed-Later setting args e f (finish id x) (inr (o, (r, p))) a = tt

module _ (db : Db) (args : Args) (now : ℕ) (left : List Entry) where
  with_db-entries :
      (sel : Entry → Bool) (e : Entry) (r : Result Error Start)
      → find_first sel db.entries ≡ some e
      → find_first sel left ≡ some e
      → find_first sel (kept_db db (with_db (record db { entries = left }) r)).entries ≡ some e
  with_db-entries sel e (ok s) f g = g
  with_db-entries sel e (err x) f g = f

  insert_or_replay-entries :
      (sel : Entry → Bool) (e : Entry) (o : Option Entry)
      → find_first sel db.entries ≡ some e
      → find_first sel left ≡ some e
      → find_first sel
          (kept_db db (insert_or_replay (record db { entries = left }) args now o)).entries
        ≡ some e
  unfolding insert_or_replay
  insert_or_replay-entries sel e none f g =
      find_first-append sel left (new_entry (record db { entries = left }) args now ∷ []) e g
  insert_or_replay-entries sel e (some x) f g = with_db-entries sel e (replay_entry args x) f g

  with_db-setting :
      (r : Result Error Start)
      → (kept_db db (with_db (record db { entries = left }) r)).setting ≡ db.setting
  with_db-setting (ok s) = refl
  with_db-setting (err x) = refl

  insert_or_replay-setting :
      (o : Option Entry)
      → (kept_db db (insert_or_replay (record db { entries = left }) args now o)).setting
        ≡ db.setting
  unfolding insert_or_replay
  insert_or_replay-setting none = refl
  insert_or_replay-setting (some x) = with_db-setting (replay_entry args x)

pub step-setting : (op : Op) (db : Db) → (step op db).setting ≡ db.setting
unfolding step begin_run fail_run finish_run
step-setting (start args now) db =
    insert_or_replay-setting db args now
      (delete_where (λ e. carries_key args e && is_dead db args now e) db.entries)
      (find_first (carries_key args)
        (delete_where (λ e. carries_key args e && is_dead db args now e) db.entries))
step-setting (fail id) db = refl
step-setting (finish id r) db = refl

-- The entry of the call's key lives at its time.
pub is_dead-eq_false :
    (db : Db) (args other : Args) (now : ℕ) (e : Entry)
    → Allowed db.setting args e (start other now)
    → carries_key args e ≡ true
    → (carries_key other e && is_dead db other now e) ≡ false
unfolding is_dead
is_dead-eq_false db args other now e a h = elim (Bool-cases (carries_key other e)) [
  | inr k ↦ rw k refl
  | inl k ↦
      let (ttl, stale) = a (carries_key-SameKey args other e h k) in
      rw k (elim (Bool-cases (lacks_response e.response)) [
        | inl o ↦ let lives = stale o in rw o (ground arith)
        | inr o ↦ rw o (ground arith)
      ])
]

-- The entry that a call with this key finds.
abbrev pub Finds : Args → Db → Entry → Type 0
Finds args db e = find_first (carries_key args) db.entries ≡ some e

is_unanswered-eq_false :
    (id : ℕ) (e : Entry)
    → (lacks_response e.response ≡ true → id ≢ e.id)
    → is_unanswered id e ≡ false
is_unanswered-eq_false id e a = elim (Bool-cases (e.id == id)) [
  | inr q ↦ rw q refl
  | inl q ↦ elim (Bool-cases (lacks_response e.response)) [
    | inl o ↦ absurd (a o (sym (==→eq e.id id q)))
    | inr o ↦ rw (q, o) refl
  ]
]

step-Finds :
    (op : Op) (db : Db) (args : Args) (e : Entry)
    → Finds args db e
    → Allowed db.setting args e op
    → (f : Entry) × Finds args (step op db) f × Later e f
unfolding step begin_run fail_run finish_run
step-Finds (start other now) db args e f a =
    let dead = λ (x : Entry). carries_key other x && is_dead db other now x in
    let left = delete_where dead db.entries in
    let own = (find_first-eq_some (carries_key args) db.entries f).0 in
    let there =
      find_first-delete_where (carries_key args) dead db.entries e f
        (is_dead-eq_false db args other now e a own) in
    (
      e,
      insert_or_replay-entries db other now left (carries_key args) e
          (find_first (carries_key other) left) f there,
      inl refl,
    )
step-Finds (fail id) db args e f a = (
  e,
  find_first-delete_where (carries_key args) (is_unanswered id) db.entries e f
      (is_unanswered-eq_false id e a),
  inl refl,
)
step-Finds (finish id r) db args e f a =
    find_first-update_where Later (carries_key args) (is_unanswered id) (answered r) db.entries e
      (λ x _. inl refl) (λ x t. (refl, inr (ground arith, (r, refl)))) f

-- Through any operations that come before its time is over, the entry of a key is still found under it, as
-- it was or with the response that its own run put there.
pub run-Finds :
    (ops : List Op) (db : Db) (args : Args) (e : Entry)
    → Finds args db e
    → All (Allowed db.setting args e) ops
    → (f : Entry) × Finds args (run ops db) f × Later e f
unfolding run
run-Finds [] db args e f a = (e, f, inl refl)
run-Finds (op ∷ ops) db args e f a =
    let (e', f', l) = step-Finds op db args e f a.0 in
    let allowed : All (Allowed (step op db).setting args e') ops =
      subst (λ s. All (Allowed s args e') ops) (sym (step-setting op db))
        (All-imp (Allowed db.setting args e) (Allowed db.setting args e') ops
          (λ o. Allowed-Later db.setting args e e' o l) a.1) in
    let (e'', f'', m) = run-Finds ops (step op db) args e' f' allowed in
    (e'', f'', Later-trans e e' e'' l m)

pub run-setting : (ops : List Op) (db : Db) → (run ops db).setting ≡ db.setting
unfolding run
run-setting [] db = refl
run-setting (op ∷ ops) db = run-setting ops (step op db) ∙ step-setting op db

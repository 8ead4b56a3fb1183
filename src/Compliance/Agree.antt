-- ===== src/Compliance/Agree.antt =====
-- backend/src/erp/compliance/assertion.py: the blacklists and the ledger agree after every operation, and
-- `rebuild_canonical` makes them agree.
use erp_all.Prelude.{
  ℕ, ◌≡◌, refl, sym, ap, subst, ◌∙◌, inl, inr, Bool, true, false, Option, none, some, List, [], ◌∷◌,
  ◌++◌, ◌&&◌, arith, String, if◌then◌else◌, if-elim, Bool-cases, map, In, any_row, select_where,
  update_where, any_row-update_ne, any_row-append, In-select_where, Result, ok, err, Holds,
}
use erp_all.Compliance.{
  Domain, domain_of, source_of, Source, Status, is_active, revoked, active, Subject, Assertion, Db,
  same_subject, project_subject,
}
use erp_all.Compliance.Project.{
  same_subject-eq, bans, frees, is_blocked, on_list, project_subject-other, project_subject-same,
  project_subject-ledger,
}
use erp_all.Compliance.Ledger.{
  Args, Error, assertion_not_found, assertion_not_pending, Recorded, new_assertion,
  insert_assertion, conflicts, project_if, record_row, record_checked, record_from,
  record_assertion, may_say, status_of, subject_of, set_status, project_one, update_ledger,
  can_revoke, revoke_assertion, can_decide, decide_assertion, derives, project_all, revoke_from,
  revoke_by_source_ref,
}
use erp_all.Compliance.Rebuild.{subjects, Stats, rebuild_each, rebuild_from, rebuild_canonical}
use erp_all.Compliance.Runs.{Op, note, revoke, decide, revoke_all, rebuild, kept, step, run}

-- A subject is on its blacklist if and only if an assertion in force blocks it and none allows it.
abbrev pub Agrees : Db → Type 0
Agrees db = (y : Subject) → on_list y db ≡ is_blocked y db.ledger

-- The subject is left out of a list of subjects.
abbrev pub IsOut : Subject → List Subject → Type 0
IsOut y xs = any_row (same_subject y) xs ≡ false

pub project_all-ledger : (xs : List Subject) (db : Db) → (project_all xs db).ledger ≡ db.ledger
unfolding project_all
project_all-ledger [] db = refl
project_all-ledger (x ∷ xs) db =
    project_all-ledger xs (project_subject x db).0 ∙ project_subject-ledger x db

-- Projecting some subjects settles them, and leaves the others.
pub project_all_lem :
    (xs : List Subject) (db : Db) (y : Subject)
    → (IsOut y xs → on_list y db ≡ is_blocked y db.ledger)
    → on_list y (project_all xs db) ≡ is_blocked y db.ledger
unfolding project_all
project_all_lem [] db y h = h refl
project_all_lem (x ∷ xs) db y h =
    let db' = (project_subject x db).0 in
    let same_ledger : db'.ledger ≡ db.ledger = project_subject-ledger x db in
    let rest : (IsOut y xs → on_list y db' ≡ is_blocked y db.ledger)
        → on_list y (project_all xs db') ≡ is_blocked y db.ledger =
      λ f.
        project_all_lem xs db' y (λ o. f o ∙ ap (is_blocked y) (sym same_ledger))
        ∙ ap (is_blocked y) same_ledger in
    elim (Bool-cases (same_subject y x)) [
      | inl e ↦ rest λ _.
          subst (λ z. on_list z db' ≡ is_blocked z db.ledger) (sym (same_subject-eq y x e))
            (project_subject-same x db).0
      | inr e ↦ rest λ o. project_subject-other x y e db ∙ h (rw (e, o) refl)
    ]

-- An update of the status of some assertions leaves the subjects that none of them is about.
update_ledger-other :
    (test : Assertion → Bool) (st : Status) (ledger : List Assertion) (y : Subject)
    → IsOut y (map subject_of (select_where test ledger))
    → is_blocked y (update_where test (set_status st) ledger) ≡ is_blocked y ledger
update_ledger-other test st ledger y out =
    let away : (a : Assertion) → In a ledger → test a ≡ true → same_subject y a.subject ≡ false =
      λ a i t. out_of (select_where test ledger) a out (In-select_where test ledger a i t) in
    let banned =
      any_row-update_ne (bans y) test (set_status st) ledger
        (λ a i t. let no = away a i t in (ground arith, ground arith)) in
    let freed =
      any_row-update_ne (frees y) test (set_status st) ledger
        (λ a i t. let no = away a i t in (ground arith, ground arith)) in
    rw (banned, freed) refl
  where
    out_of :
        (rows : List Assertion) (a : Assertion)
        → IsOut y (map subject_of rows)
        → In a rows
        → same_subject y a.subject ≡ false
    out_of [] a o i = absurd i
    out_of (b ∷ rows) a o (inl e) = rw e (ground arith)
    out_of (b ∷ rows) a o (inr i) = out_of rows a (ground arith) i

-- Projecting the subjects of the updated assertions restores the agreement.
updated-Agrees :
    (test : Assertion → Bool) (st : Status) (db : Db)
    → Agrees db
    → Agrees (project_all (map subject_of (select_where test db.ledger)) (update_ledger test st db))
updated-Agrees test st db a y =
    let xs = map subject_of (select_where test db.ledger) in
    let new = update_ledger test st db in
    project_all_lem xs new y (λ o. a y ∙ sym (update_ledger-other test st db.ledger y o))
    ∙ ap (is_blocked y) (sym (project_all-ledger xs new))

abbrev Ends : {A : Type 0} → Result Error (Db × A) → Type 0
Ends r = Holds (λ out. Agrees out.0) r

project_one-Agrees :
    (e : Error) (rows : List Assertion) (db : Db)
    → Agrees (project_all (map subject_of rows) db)
    → Ends (project_one e rows db)
unfolding project_one project_all
project_one-Agrees e [] db a = tt
project_one-Agrees e (r ∷ []) db a = a
project_one-Agrees e (_ ∷ _ ∷ _) db a = tt

-- A new row that is no assertion in force, or is about another subject.
append-other :
    (ledger : List Assertion) (n : Assertion) (y : Subject)
    → (same_subject y n.subject && is_active n.status) ≡ false
    → is_blocked y (ledger ++ n ∷ []) ≡ is_blocked y ledger
append-other ledger n y h =
    let banned = any_row-append (bans y) ledger (n ∷ []) in
    let freed = any_row-append (frees y) ledger (n ∷ []) in rw (banned, freed, h) (ground arith)

insert_assertion-other :
    (n : Assertion) (db : Db) (y : Subject)
    → Agrees db
    → (same_subject y n.subject && is_active n.status) ≡ false
    → on_list y (insert_assertion n db).0 ≡ is_blocked y (insert_assertion n db).0.ledger
unfolding insert_assertion
insert_assertion-other n db y a h =
    if-elim (λ (out : Db × Option ℕ). on_list y out.0 ≡ is_blocked y out.0.ledger)
      (any_row (conflicts n) db.ledger) _ _ (λ _. a y) λ _. a y ∙ sym (append-other db.ledger n y h)

project_if-Agrees :
    (on : Bool) (x : Subject) (db : Db)
    → ((y : Subject) → (same_subject y x && on) ≡ false → on_list y db ≡ is_blocked y db.ledger)
    → Agrees (project_if on x db).0
unfolding project_if project_all
project_if-Agrees false x db h y = h y (ground arith)
project_if-Agrees true x db h y =
    let settled = project_all_lem (x ∷ []) db y (λ o. h y (ground arith)) in
    settled_by x db y settled
  where
    settled_by :
        (x : Subject) (db : Db) (y : Subject)
        → on_list y (project_all (x ∷ []) db) ≡ is_blocked y db.ledger
        → on_list y (project_subject x db).0 ≡ is_blocked y (project_subject x db).0.ledger
    settled_by x db y s = s ∙ ap (is_blocked y) (sym (project_subject-ledger x db))

record_row-Agrees : (n : Assertion) (db : Db) → Agrees db → Agrees (record_row n db).0
unfolding record_row
record_row-Agrees n db a =
    project_if-Agrees (is_active n.status) n.subject (insert_assertion n db).0
      (λ y h. insert_assertion-other n db y a h)

record_from-Agrees :
    (args : Args) (db : Db) (d : Option Domain) (s : Option Source) (st : Option Status)
    → Agrees db
    → Ends (record_from args db d s st)
unfolding record_checked
record_from-Agrees args db none s st a = tt
record_from-Agrees args db (some d) none st a = tt
record_from-Agrees args db (some d) (some s) none a = tt
record_from-Agrees args db (some d) (some s) (some st) a =
    if-elim (λ (r : Result Error Recorded). Ends r) (may_say args.verdict s) _ _
      (λ _. record_row-Agrees (new_assertion args db.next_id d s st) db a) λ _. tt

revoke_from-Agrees :
    (team : Option ℕ) (ref : String) (db : Db) (d : Option Domain) (s : Option Source)
    → Agrees db
    → Ends (revoke_from team ref db d s)
revoke_from-Agrees team ref db none s a = tt
revoke_from-Agrees team ref db (some d) none a = tt
revoke_from-Agrees team ref db (some d) (some s) a =
    updated-Agrees (derives team d s ref) revoked db a

pub rebuild_each-project :
    (xs : List Subject) (db : Db) (s : Stats) → (rebuild_each xs db s).0 ≡ project_all xs db
unfolding rebuild_each project_all
rebuild_each-project [] db s = refl
rebuild_each-project (x ∷ xs) db s = rebuild_each-project xs (project_subject x db).0 _

pub rebuild_each-Agrees :
    (xs : List Subject) (db : Db) (s : Stats) → Agrees db → Agrees (rebuild_each xs db s).0
rebuild_each-Agrees xs db s a =
    subst Agrees (sym (rebuild_each-project xs db s))
      λ y. project_all_lem xs db y (λ _. a y) ∙ ap (is_blocked y) (sym (project_all-ledger xs db))

rebuild_from-Agrees :
    (team : Option ℕ) (db : Db) (d : Option Domain) → Agrees db → Ends (rebuild_from db team d)
rebuild_from-Agrees team db none a = tt
rebuild_from-Agrees team db (some d) a = rebuild_each-Agrees (subjects d team db) db _ a

kept-Agrees :
    {A : Type 0} (db : Db) (r : Result Error (Db × A)) → Agrees db → Ends r → Agrees (kept db r)
kept-Agrees db (ok out) a h = h
kept-Agrees db (err e) a h = a

step-Agrees : (op : Op) (db : Db) → Agrees db → Agrees (step op db)
unfolding step record_assertion revoke_assertion decide_assertion revoke_by_source_ref
    rebuild_canonical
step-Agrees (note args) db a = kept-Agrees db (record_assertion args db) a (
    record_from-Agrees args db (domain_of args.domain) (source_of args.source)
      (status_of args.status) a)
step-Agrees (revoke id team) db a = kept-Agrees db (revoke_assertion id team db) a (
    project_one-Agrees assertion_not_found (select_where (can_revoke id team) db.ledger)
      (update_ledger (can_revoke id team) revoked db)
      (updated-Agrees (can_revoke id team) revoked db a))
step-Agrees (decide id team approve) db a =
    let st = if approve then active else revoked in
    kept-Agrees db (decide_assertion id team approve db) a (
      project_one-Agrees assertion_not_pending (select_where (can_decide id team) db.ledger)
        (update_ledger (can_decide id team) st db) (updated-Agrees (can_decide id team) st db a))
step-Agrees (revoke_all team domain source ref) db a =
    kept-Agrees db (revoke_by_source_ref team domain source ref db) a
      (revoke_from-Agrees team ref db (domain_of domain) (source_of source) a)
step-Agrees (rebuild domain team) db a =
    kept-Agrees db (rebuild_canonical domain team db) a
      (rebuild_from-Agrees team db (domain_of domain) a)

-- In every run of these operations, whatever their order, the blacklists say what the ledger says: a
-- subject is on its blacklist if and only if an assertion in force blocks it and none allows it. So one
-- that is revoked takes the subject off only where no other blocks it, a candidate does not count before
-- it is approved, and an allowance overrides every block until it is revoked.
pub run-Agrees : (ops : List Op) (db : Db) → Agrees db → Agrees (run ops db)
unfolding run
run-Agrees [] db a = a
run-Agrees (op ∷ ops) db a = run-Agrees ops (step op db) (step-Agrees op db a)

-- ===== src/Compliance/History.antt =====
-- backend/src/erp/compliance/assertion.py: the ledger only grows, and what is revoked stays revoked.
use erp_all.Prelude.{
  ℕ, ◌≡◌, refl, sym, ap, subst, ◌∙◌, inl, inr, Bool, true, false, Option, none, some, List, [], ◌∷◌,
  arith, String, if◌then◌else◌, if-elim, In, All-always, any_row, select_where, Grows, Grows-refl,
  Grows-trans, Grows-append, Grows-update_where, Result, ok, err, Holds,
}
use erp_all.Compliance.{
  Domain, domain_of, Source, source_of, Status, pending, active, revoked, is_pending, is_live,
  Subject, Assertion, Db,
}
use erp_all.Compliance.Project.{project_subject-ledger}
use erp_all.Compliance.Ledger.{
  Args, Error, assertion_not_found, assertion_not_pending, Recorded, new_assertion,
  insert_assertion, conflicts, project_if, record_row, record_checked, record_from,
  record_assertion, may_say, status_of, set_status, project_one, update_ledger, can_revoke,
  revoke_assertion, can_decide, decide_assertion, derives, revoke_from, revoke_by_source_ref,
}
use erp_all.Compliance.Agree.{project_all-ledger, rebuild_each-project}
use erp_all.Compliance.Rebuild.{subjects, Stats, rebuild_from, rebuild_canonical}
use erp_all.Compliance.Runs.{Op, note, revoke, decide, revoke_all, rebuild, kept, step, run}

-- What later operations may change of an assertion.
pub record Keeps (a b : Assertion) : Type 0 where
  pub key : b.id ≡ a.id
  pub about : b.subject ≡ a.subject
  pub verdict : b.verdict ≡ a.verdict
  pub origin : (b.source ≡ a.source) × (b.source_ref ≡ a.source_ref)
  pub once : is_pending a.status ≡ false → is_pending b.status ≡ false
  pub final : is_live a.status ≡ false → b ≡ a

Keeps-refl : (a : Assertion) → Keeps a a
Keeps-refl a = record {
  key = refl;
  about = refl;
  verdict = refl;
  origin = (refl, refl);
  once = λ h. h;
  final = λ _. refl;
}

Keeps-trans : (a b c : Assertion) → Keeps a b → Keeps b c → Keeps a c
Keeps-trans a b c k l = record {
  key = l.key ∙ k.key;
  about = l.about ∙ k.about;
  verdict = l.verdict ∙ k.verdict;
  origin = (l.origin.0 ∙ k.origin.0, l.origin.1 ∙ k.origin.1);
  once = λ h. l.once (k.once h);
  final = λ h.
      let same = k.final h in
      l.final (subst (λ (d : Assertion). is_live d.status ≡ false) (sym same) h) ∙ same;
}

set_status-Keeps :
    (st : Status) (a : Assertion)
    → is_pending st ≡ false
    → is_live a.status ≡ true
    → Keeps a (set_status st a)
set_status-Keeps st a decided live = record {
  key = refl;
  about = refl;
  verdict = refl;
  origin = (refl, refl);
  once = λ _. decided;
  final = λ h. let no : true ≡ false = sym live ∙ h in absurd (cc);
}

abbrev Lasts : List Assertion → List Assertion → Type 0
Lasts xs ys = Grows Keeps xs ys

abbrev Ends : {A : Type 0} → Db → Result Error (Db × A) → Type 0
Ends db r = Holds (λ out. Lasts db.ledger out.0.ledger) r

Lasts-refl : (xs : List Assertion) → Lasts xs xs
Lasts-refl xs = Grows-refl Keeps Keeps-refl xs

-- Statements that change no more than the status of live assertions.
module _ (test : Assertion → Bool) (st : Status) (decided : is_pending st ≡ false)
    (live : (a : Assertion) → test a ≡ true → is_live a.status ≡ true) (db : Db) where
  update_ledger-Lasts : Lasts db.ledger (update_ledger test st db).ledger
  update_ledger-Lasts = Grows-update_where Keeps Keeps-refl test (set_status st) db.ledger (
      All-always (λ a. test a ≡ true → Keeps a (set_status st a))
        (λ a t. set_status-Keeps st a decided (live a t)) db.ledger)

  project_one-Ends :
      (e : Error) (rows : List Assertion) → Ends db (project_one e rows (update_ledger test st db))
  unfolding project_one
  project_one-Ends e [] = tt
  project_one-Ends e (a ∷ []) =
      subst (Lasts db.ledger) (sym (project_subject-ledger a.subject (update_ledger test st db)))
        update_ledger-Lasts
  project_one-Ends e (_ ∷ _ ∷ _) = tt

pending_live : (st : Status) → is_pending st ≡ true → is_live st ≡ true
pending_live pending h = refl
pending_live active h = refl
pending_live revoked h = absurd (cc)

project_if-ledger : (on : Bool) (x : Subject) (db : Db) → (project_if on x db).0.ledger ≡ db.ledger
unfolding project_if
project_if-ledger false x db = refl
project_if-ledger true x db = project_subject-ledger x db

insert_assertion-Lasts :
    (n : Assertion) (db : Db) → Lasts db.ledger (insert_assertion n db).0.ledger
unfolding insert_assertion
insert_assertion-Lasts n db =
    if-elim (λ (out : Db × Option ℕ). Lasts db.ledger out.0.ledger)
      (any_row (conflicts n) db.ledger) _ _ (λ _. Lasts-refl db.ledger)
      λ _. Grows-append Keeps Keeps-refl db.ledger (n ∷ [])

record_from-Ends :
    (args : Args) (db : Db) (d : Option Domain) (s : Option Source) (st : Option Status)
    → Ends db (record_from args db d s st)
unfolding record_checked record_row
record_from-Ends args db none s st = tt
record_from-Ends args db (some d) none st = tt
record_from-Ends args db (some d) (some s) none = tt
record_from-Ends args db (some d) (some s) (some st) =
    let n = new_assertion args db.next_id d s st in
    if-elim (λ (r : Result Error Recorded). Ends db r) (may_say args.verdict s) _ _
      (λ _.
        subst (Lasts db.ledger) (sym (project_if-ledger _ n.subject (insert_assertion n db).0))
          (insert_assertion-Lasts n db))
      λ _. tt

revoke_from-Ends :
    (team : Option ℕ) (ref : String) (db : Db) (d : Option Domain) (s : Option Source)
    → Ends db (revoke_from team ref db d s)
revoke_from-Ends team ref db none s = tt
revoke_from-Ends team ref db (some d) none = tt
revoke_from-Ends team ref db (some d) (some s) =
    let test = derives team d s ref in
    subst (Lasts db.ledger) (sym (project_all-ledger _ (update_ledger test revoked db)))
      (update_ledger-Lasts test revoked refl (λ a t. ground arith) db)

rebuild_from-Ends :
    (team : Option ℕ) (db : Db) (d : Option Domain) → Ends db (rebuild_from db team d)
rebuild_from-Ends team db none = tt
rebuild_from-Ends team db (some d) =
    let xs = subjects d team db in
    let moved = λ (s : Stats).
      ap (λ (e : Db). e.ledger) (rebuild_each-project xs db s) ∙ project_all-ledger xs db in
    subst (Lasts db.ledger) (sym (moved _)) (Lasts-refl db.ledger)

kept-Ends :
    {A : Type 0} (db : Db) (r : Result Error (Db × A))
    → Ends db r
    → Lasts db.ledger (kept db r).ledger
kept-Ends db (ok out) h = h
kept-Ends db (err e) h = Lasts-refl db.ledger

step-Lasts : (op : Op) (db : Db) → Lasts db.ledger (step op db).ledger
unfolding step record_assertion revoke_assertion decide_assertion revoke_by_source_ref
    rebuild_canonical
step-Lasts (note args) db = kept-Ends db (record_assertion args db) (
    record_from-Ends args db (domain_of args.domain) (source_of args.source)
      (status_of args.status))
step-Lasts (revoke id team) db = kept-Ends db (revoke_assertion id team db) (
    project_one-Ends (can_revoke id team) revoked refl (λ a t. ground arith) db assertion_not_found
      (select_where (can_revoke id team) db.ledger))
step-Lasts (decide id team approve) db = kept-Ends db (decide_assertion id team approve db) (
    project_one-Ends (can_decide id team) (if approve then active else revoked)
      (if-elim (λ s. is_pending s ≡ false) approve active revoked (λ _. refl) λ _. refl)
      (λ a t. pending_live a.status (ground arith)) db assertion_not_pending
      (select_where (can_decide id team) db.ledger))
step-Lasts (revoke_all team domain source ref) db =
    kept-Ends db (revoke_by_source_ref team domain source ref db)
      (revoke_from-Ends team ref db (domain_of domain) (source_of source))
step-Lasts (rebuild domain team) db =
    kept-Ends db (rebuild_canonical domain team db) (rebuild_from-Ends team db (domain_of domain))

run-Lasts : (ops : List Op) (db : Db) → Lasts db.ledger (run ops db).ledger
unfolding run
run-Lasts [] db = Lasts-refl db.ledger
run-Lasts (op ∷ ops) db =
    Grows-trans Keeps Keeps-trans db.ledger (step op db).ledger (run ops (step op db)).ledger
      (step-Lasts op db) (run-Lasts ops (step op db))

Lasts-in :
    (xs ys : List Assertion) (a : Assertion)
    → Lasts xs ys
    → In a xs
    → (b : Assertion) × In b ys × Keeps a b
Lasts-in [] ys a g i = absurd i
Lasts-in (x ∷ xs) [] a g i = absurd g
Lasts-in (x ∷ xs) (y ∷ ys) a g (inl e) = (y, inl refl, subst (λ z. Keeps z y) (sym e) g.0)
Lasts-in (x ∷ xs) (y ∷ ys) a g (inr i) = let (b, j, k) = Lasts-in xs ys a g.1 i in (b, inr j, k)

-- In every run, an assertion of the ledger stays in it with its id, subject, verdict and source; once it
-- is decided it is no candidate again, and once it is revoked it is left as it is.
pub run_recorded :
    (ops : List Op) (db : Db) (a : Assertion)
    → In a db.ledger
    → (b : Assertion) × In b (run ops db).ledger × Keeps a b
run_recorded ops db a i = Lasts-in db.ledger (run ops db).ledger a (run-Lasts ops db) i

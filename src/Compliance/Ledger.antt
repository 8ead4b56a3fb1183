-- ===== src/Compliance/Ledger.antt =====
-- backend/src/erp/compliance/assertion.py: `record_assertion`, `revoke_assertion`, `decide_assertion` and
-- `revoke_by_source_ref`.
use erp_all.Prelude.{
  ℕ, suc, String, Bool, true, false, not, Option, none, some, List, [], ◌∷◌, ◌++◌, ◌&&◌, ◌==◌,
  str_eq, if◌then◌else◌, length, map, any_row, select_where, update_where, Result, ok, err,
}
use erp_all.Compliance.{
  Domain, domain_id, domain_of, Source, source_of, same_source, manual, Verdict, is_allow, Status,
  pending, active, revoked, is_active, is_pending, is_live, Subject, Assertion, Db, same_team,
  same_subject, project_subject,
}

pub data Error : Type 0 where
  domain_invalid source_invalid status_invalid integrity : Error
  assertion_not_found assertion_not_pending many_rows : Error

pub record Args : Type 0 where
  pub team_id : Option ℕ
  pub domain : String
  pub subject_norm : String
  pub subject_display : Option String
  pub source : String
  pub source_ref : Option String
  pub reason : Option String
  pub verdict : Verdict
  pub status : String

abbrev pub status_of : String → Option Status
status_of s =
    if str_eq s "pending" then some pending else if str_eq s "active" then some active else none

abbrev pub new_assertion : Args → ℕ → Domain → Source → Status → Assertion
new_assertion a id d s st = record {
  id = id;
  subject = record { team_id = a.team_id; domain = d; norm = a.subject_norm };
  display = a.subject_display;
  verdict = a.verdict;
  source = s;
  source_ref = a.source_ref;
  reason = a.reason;
  status = st;
}

abbrev pub text_or_empty : Option String → String
text_or_empty none = ""
text_or_empty (some s) = s

abbrev pub same_verdict : Verdict → Verdict → Bool
same_verdict a b = if is_allow a then is_allow b else not (is_allow b)

-- `_ON_CONFLICT_LIVE`
abbrev pub conflicts : Assertion → Assertion → Bool
conflicts n a =
    is_live a.status
    && (same_subject n.subject a.subject
        && (same_source n.source a.source
            && (same_verdict n.verdict a.verdict
                && str_eq (text_or_empty n.source_ref) (text_or_empty a.source_ref))))

unfoldable pub insert_assertion : Assertion → Db → Db × Option ℕ
insert_assertion n db =
    if any_row (conflicts n) db.ledger
    then (db, none)
    else (record db { ledger = db.ledger ++ (n ∷ []); next_id = suc db.next_id }, some n.id)

-- `if status == "active"`; `none` is the reply `unchanged`.
unfoldable pub project_if : Bool → Subject → Db → Db × Option Bool
unfolding project_subject
project_if false x db = (db, none)
project_if true x db = let (db', on) = project_subject x db in (db', some on)

-- The constraint `ck_bla_allow_manual`: only a person allows.
abbrev pub may_say : Verdict → Source → Bool
may_say v s = if is_allow v then same_source s manual else true

abbrev pub Recorded : Type 0
Recorded = Db × (Option ℕ × Option Bool)

unfoldable pub record_row : Assertion → Db → Recorded
unfolding insert_assertion project_if
record_row n db =
    let (with_it, id) = insert_assertion n db in
    let (db', canonical) = project_if (is_active n.status) n.subject with_it in
    (db', (id, canonical))

unfoldable pub record_checked : Args → Db → Domain → Source → Status → Result Error Recorded
unfolding record_row
record_checked a db d s st =
    if may_say a.verdict s
    then ok (record_row (new_assertion a db.next_id d s st) db)
    else err integrity

abbrev pub record_from :
    Args → Db → Option Domain → Option Source → Option Status → Result Error Recorded
record_from a db none s st = err domain_invalid
record_from a db (some d) none st = err source_invalid
record_from a db (some d) (some s) none = err status_invalid
record_from a db (some d) (some s) (some st) = record_checked a db d s st

unfoldable pub record_assertion : Args → Db → Result Error Recorded
unfolding record_checked domain_of source_of
record_assertion a db =
    record_from a db (domain_of a.domain) (source_of a.source) (status_of a.status)

abbrev pub subject_of : Assertion → Subject
subject_of a = a.subject

abbrev pub set_status : Status → Assertion → Assertion
set_status st a = record a { status = st }

-- `project_subject` for the one row that the update returns.
unfoldable pub project_one : Error → List Assertion → Db → Result Error (Db × Bool)
unfolding project_subject
project_one e [] db = err e
project_one e (a ∷ []) db = ok (project_subject a.subject db)
project_one e (_ ∷ _ ∷ _) db = err many_rows

abbrev pub update_ledger : (Assertion → Bool) → Status → Db → Db
update_ledger test st db = record db { ledger = update_where test (set_status st) db.ledger }

abbrev pub can_revoke : ℕ → Option ℕ → Assertion → Bool
can_revoke id team a = (a.id == id) && (is_live a.status && same_team a.subject.team_id team)

unfoldable pub revoke_assertion : ℕ → Option ℕ → Db → Result Error (Db × Bool)
unfolding project_one
revoke_assertion id team db =
    project_one assertion_not_found (select_where (can_revoke id team) db.ledger)
      (update_ledger (can_revoke id team) revoked db)

abbrev pub can_decide : ℕ → Option ℕ → Assertion → Bool
can_decide id team a = (a.id == id) && (is_pending a.status && same_team a.subject.team_id team)

unfoldable pub decide_assertion : ℕ → Option ℕ → Bool → Db → Result Error (Db × Bool)
unfolding project_one
decide_assertion id team approve db =
    project_one assertion_not_pending (select_where (can_decide id team) db.ledger)
      (update_ledger (can_decide id team) (if approve then active else revoked) db)

abbrev pub derives : Option ℕ → Domain → Source → String → Assertion → Bool
derives team d s ref a =
    (domain_id a.subject.domain == domain_id d)
    && (same_source a.source s
        && ((elim a.source_ref [ none ↦ false | some r ↦ str_eq r ref ])
            && (is_live a.status && same_team a.subject.team_id team)))

-- The loop over the subjects.
unfoldable pub project_all : List Subject → Db → Db
unfolding project_subject
project_all [] db = db
project_all (x ∷ xs) db = project_all xs (project_subject x db).0

abbrev pub revoke_from :
    Option ℕ → String → Db → Option Domain → Option Source → Result Error (Db × ℕ)
revoke_from team ref db none s = err domain_invalid
revoke_from team ref db (some d) none = err source_invalid
revoke_from team ref db (some d) (some s) =
    let found = select_where (derives team d s ref) db.ledger in
    ok (
      project_all (map subject_of found) (update_ledger (derives team d s ref) revoked db),
      length found,
    )

unfoldable pub revoke_by_source_ref :
    Option ℕ → String → String → String → Db → Result Error (Db × ℕ)
unfolding project_all domain_of source_of
revoke_by_source_ref team domain source ref db =
    revoke_from team ref db (domain_of domain) (source_of source)

-- ===== src/Compliance/Rebuild.antt =====
-- backend/src/erp/compliance/assertion.py: `rebuild_canonical`.
use erp_all.Prelude.{
  ℕ, suc, String, Bool, Option, none, some, List, [], ◌∷◌, ◌++◌, ◌&&◌, ◌==◌, if◌then◌else◌, length,
  map, any_row, select_where, Result, ok, err,
}
use erp_all.Compliance.{
  Domain, domain_id, domain_of, Subject, Row, Db, same_team, same_subject, is_listed,
  project_subject,
}
use erp_all.Compliance.Ledger.{Error, domain_invalid, subject_of}

-- Without a team, the subjects of all of them.
abbrev pub in_scope : Domain → Option ℕ → Subject → Bool
in_scope d none x = domain_id x.domain == domain_id d
in_scope d (some t) x = (domain_id x.domain == domain_id d) && same_team x.team_id (some t)

abbrev pub row_subject : Row → Subject
row_subject r = r.subject

abbrev pub is_on : Row → Bool
is_on r = r.listed

-- SELECT DISTINCT … UNION …
abbrev pub distinct : List Subject → List Subject
distinct [] = []
distinct (x ∷ xs) =
    let rest = distinct xs in if any_row (same_subject x) rest then rest else x ∷ rest

abbrev pub mentioned : Db → List Subject
mentioned db = map subject_of db.ledger ++ map row_subject (select_where is_on db.rows)

abbrev pub subjects : Domain → Option ℕ → Db → List Subject
subjects d team db = distinct (select_where (in_scope d team) (mentioned db))

pub record Stats : Type 0 where
  pub checked : ℕ
  pub active : ℕ
  pub removed : ℕ
  pub changed : ℕ

abbrev pub count_up : Bool → Bool → Stats → Stats
count_up before after s = record {
  checked = s.checked;
  active = if after then suc s.active else s.active;
  removed = if after then s.removed else suc s.removed;
  changed =
      if before
      then if after then s.changed else suc s.changed
      else if after
      then suc s.changed
      else s.changed;
}

-- The loop; `before` asks for an active row, as the one that the query prefers.
unfoldable pub rebuild_each : List Subject → Db → Stats → Db × Stats
unfolding project_subject
rebuild_each [] db s = (db, s)
rebuild_each (x ∷ xs) db s =
    let (db', after) = project_subject x db in
    rebuild_each xs db' (count_up (any_row (is_listed x) db.rows) after s)

abbrev pub rebuild_from : Db → Option ℕ → Option Domain → Result Error (Db × Stats)
rebuild_from db team none = err domain_invalid
rebuild_from db team (some d) =
    let xs = subjects d team db in
    ok (rebuild_each xs db (record { checked = length xs; active = 0; removed = 0; changed = 0 }))

unfoldable pub rebuild_canonical : String → Option ℕ → Db → Result Error (Db × Stats)
unfolding rebuild_each domain_of
rebuild_canonical domain team db = rebuild_from db team (domain_of domain)

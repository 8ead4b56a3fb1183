-- ===== src/Compliance.antt =====
-- backend/src/erp/compliance/assertion.py: the ledger of assertions, the blacklists, and `project_subject`,
-- which brings a subject's row of a blacklist in line with the ledger.
pub mod Ledger
pub mod Rebuild
pub mod Runs
mod Project
pub mod Agree
pub mod Repair
pub mod History
mod Tests
use erp_all.Prelude.{
  ℕ, zero, suc, String, Bool, true, false, not, Option, none, some, List, [], ◌∷◌, ◌++◌, ◌&&◌, ◌||◌,
  ◌==◌, ltb, str_eq, if◌then◌else◌, any_row, select_where, update_where,
}

-- `TABLE_BY_DOMAIN`: the six domains, each with a table of its own.
pub data Domain : Type 0 where
  brand seller asin category address zip : Domain

-- `_table`, which raises on other texts.
unfoldable pub domain_of : String → Option Domain
domain_of d =
    if str_eq d "brand"
    then some brand
    else if str_eq d "seller"
    then some seller
    else if str_eq d "asin"
    then some asin
    else if str_eq d "category"
    then some category
    else if str_eq d "address"
    then some address
    else if str_eq d "zip"
    then some zip
    else none

abbrev pub domain_id : Domain → ℕ
domain_id brand = 0
domain_id seller = 1
domain_id asin = 2
domain_id category = 3
domain_id address = 4
domain_id zip = 5

-- The domains whose table has a column for display.
abbrev pub has_display : Domain → Bool
has_display brand = true
has_display seller = true
has_display _ = false

-- `SOURCES`
pub data Source : Type 0 where
  imported manual tro_sync trademark_sync error_recycle : Source

unfoldable pub source_of : String → Option Source
source_of s =
    if str_eq s "import"
    then some imported
    else if str_eq s "manual"
    then some manual
    else if str_eq s "tro_sync"
    then some tro_sync
    else if str_eq s "trademark_sync"
    then some trademark_sync
    else if str_eq s "error_recycle"
    then some error_recycle
    else none

-- `SOURCE_PRIORITY.index`
abbrev pub priority : Source → ℕ
priority manual = 0
priority tro_sync = 1
priority trademark_sync = 2
priority error_recycle = 3
priority imported = 4

abbrev pub same_source : Source → Source → Bool
same_source a b = priority a == priority b

pub data Verdict : Type 0 where
  block allow : Verdict

abbrev pub is_allow : Verdict → Bool
is_allow allow = true
is_allow block = false

pub data Status : Type 0 where
  pending active revoked : Status

abbrev pub is_active : Status → Bool
is_active active = true
is_active _ = false

abbrev pub is_pending : Status → Bool
is_pending pending = true
is_pending _ = false

-- `status IN ('pending','active')`
abbrev pub is_live : Status → Bool
is_live revoked = false
is_live _ = true

-- Whom an assertion is about. Without a team it is about all of them.
pub record Subject : Type 0 where
  pub team_id : Option ℕ
  pub domain : Domain
  pub norm : String

pub record Assertion : Type 0 where
  pub id : ℕ
  pub subject : Subject
  pub display : Option String
  pub verdict : Verdict
  pub source : Source
  pub source_ref : Option String
  pub reason : Option String
  pub status : Status

-- A row of a blacklist; the domain of its subject names the table, and `listed` is the status `active`,
-- its negation `removed`.
pub record Row : Type 0 where
  pub subject : Subject
  pub display : Option String
  pub reason : Option String
  pub source : Source
  pub listed : Bool

pub record Db : Type 0 where
  pub ledger : List Assertion
  pub rows : List Row
  pub next_id : ℕ

-- `team_id IS NOT DISTINCT FROM :t`, and `COALESCE(team_id, 0) = COALESCE(:t, 0)`, which is the same as no
-- team has the id 0: the ids of the teams are generated from 1.
abbrev pub same_team : Option ℕ → Option ℕ → Bool
same_team none none = true
same_team (some a) (some b) = a == b
same_team _ _ = false

abbrev pub same_subject : Subject → Subject → Bool
same_subject a b =
    same_team a.team_id b.team_id
    && ((domain_id a.domain == domain_id b.domain) && str_eq a.norm b.norm)

abbrev pub stands : Subject → Assertion → Bool
stands x a = same_subject x a.subject && is_active a.status

abbrev pub allows : Assertion → Bool
allows a = is_allow a.verdict

abbrev pub blocks : Assertion → Bool
blocks a = not (is_allow a.verdict)

abbrev pub is_listed : Subject → Row → Bool
is_listed x r = same_subject x r.subject && r.listed

abbrev pub removed_row : Row → Row
removed_row r = record r { listed = false }

-- `min(blocks, key=…)`: the first of the least.
abbrev pub lead_of : Assertion → List Assertion → Assertion
lead_of a [] = a
lead_of a (b ∷ bs) = lead_of (if ltb (priority b.source) (priority a.source) then b else a) bs

-- `next((r.subject_display for r in blocks if r.subject_display), None)`
abbrev pub first_display : List Assertion → Option String
first_display [] = none
first_display (a ∷ more) =
    let rest = first_display more in
    elim a.display [ none ↦ rest | some d ↦ if str_eq d "" then rest else some d ]

abbrev pub coalesce : Option String → Option String → Option String
coalesce (some a) b = some a
coalesce none b = b

-- ON CONFLICT … DO UPDATE
abbrev pub updated_row : Assertion → Row → Row
updated_row lead r = record r { source = lead.source; reason = coalesce lead.reason r.reason }

abbrev pub new_row : Subject → Assertion → List Assertion → Row
new_row x lead bs = record {
  subject = x;
  display = if has_display x.domain then first_display bs else none;
  reason = lead.reason;
  source = lead.source;
  listed = true;
}

unfoldable pub upsert_row : Subject → Assertion → List Assertion → List Row → List Row
upsert_row x lead bs rows =
    if any_row (is_listed x) rows
    then update_where (is_listed x) (updated_row lead) rows
    else rows ++ (new_row x lead bs ∷ [])

abbrev pub remove_row : Subject → List Row → List Row
remove_row x rows = update_where (is_listed x) removed_row rows

-- The rows afterwards, and whether the subject is `active` or `removed`.
unfoldable pub project_with : Subject → Bool → List Assertion → List Row → List Row × Bool
unfolding upsert_row
project_with x true bs rows = (remove_row x rows, false)
project_with x false [] rows = (remove_row x rows, false)
project_with x false (b ∷ bs) rows = (upsert_row x (lead_of b bs) (b ∷ bs) rows, true)

unfoldable pub project_subject : Subject → Db → Db × Bool
unfolding project_with
project_subject x db =
    let found = select_where (stands x) db.ledger in
    let out = project_with x (any_row allows found) (select_where blocks found) db.rows in
    (record db { rows = out.0 }, out.1)

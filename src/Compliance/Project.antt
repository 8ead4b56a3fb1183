-- ===== src/Compliance/Project.antt =====
-- backend/src/erp/compliance/assertion.py: what `project_subject` does to the subject and to others.
use erp_all.Prelude.{
  ℕ, ◌≡◌, refl, sym, ap, subst, ◌∙◌, Bool, true, false, not, Option, none, some, List, [], ◌∷◌,
  ◌&&◌, ◌==◌, arith, str_eq, str_eq_iff, str_eq-refl, ==→eq, ==-refl, String, if◌then◌else◌,
  if-elim, any_row, select_where, any_row-update_ne, any_row-update_into, any_row-update_drop,
  any_row-append, any_row-append_last, any_row-select_where,
}
use erp_all.Compliance.{
  Domain, brand, seller, asin, category, address, zip, domain_id, Subject, Assertion, Row, Db,
  same_team, same_subject, stands, allows, blocks, is_listed, removed_row, lead_of, updated_row,
  new_row, upsert_row, remove_row, project_with, project_subject,
}

abbrev domain_at : ℕ → Domain
domain_at n =
    if n == 0
    then brand
    else if n == 1
    then seller
    else if n == 2
    then asin
    else if n == 3
    then category
    else if n == 4
    then address
    else zip

domain_at-id : (d : Domain) → domain_at (domain_id d) ≡ d
domain_at-id brand = refl
domain_at-id seller = refl
domain_at-id asin = refl
domain_at-id category = refl
domain_at-id address = refl
domain_at-id zip = refl

same_team-eq : (a b : Option ℕ) → same_team a b ≡ true → a ≡ b
same_team-eq none none h = refl
same_team-eq none (some b) h = absurd (cc)
same_team-eq (some a) none h = absurd (cc)
same_team-eq (some a) (some b) h = ap (λ n. some n) (==→eq a b h)

same_team_refl : (a : Option ℕ) → same_team a a ≡ true
same_team_refl none = refl
same_team_refl (some a) = ==-refl a

abbrev subject_from : Option ℕ → Domain → String → Subject
subject_from t d n = record { team_id = t; domain = d; norm = n }

subject_from-eq :
    (t u : Option ℕ) (d e : Domain) (m n : String)
    → t ≡ u
    → d ≡ e
    → m ≡ n
    → subject_from t d m ≡ subject_from u e n
subject_from-eq t u d e m n p q r = cc

pub same_subject-eq : (x y : Subject) → same_subject x y ≡ true → x ≡ y
same_subject-eq x y h =
    let domains : (domain_id x.domain == domain_id y.domain) ≡ true = ground arith in
    let norms : str_eq x.norm y.norm ≡ true = ground arith in
    subject_from-eq x.team_id y.team_id x.domain y.domain x.norm y.norm
      (same_team-eq x.team_id y.team_id (ground arith))
      (sym (domain_at-id x.domain) ∙ (ap domain_at (==→eq _ _ domains) ∙ domain_at-id y.domain))
      ((str_eq_iff x.norm y.norm).0 norms)

pub same_subject_refl : (x : Subject) → same_subject x x ≡ true
same_subject_refl x =
    rw (same_team_refl x.team_id, ==-refl (domain_id x.domain), str_eq-refl x.norm) refl

-- A row of one subject is not one of another.
pub differs :
    (x y z : Subject)
    → same_subject y x ≡ false
    → same_subject x z ≡ true
    → same_subject y z ≡ false
differs x y z other h = subst (λ w. same_subject y w ≡ false) (same_subject-eq x z h) other

-- What the ledger says of a subject: some assertion in force blocks it, and none allows it.
abbrev pub bans : Subject → Assertion → Bool
bans x a = stands x a && blocks a

abbrev pub frees : Subject → Assertion → Bool
frees x a = stands x a && allows a

abbrev pub is_blocked : Subject → List Assertion → Bool
is_blocked x ledger = any_row (bans x) ledger && not (any_row (frees x) ledger)

abbrev pub on_list : Subject → Db → Bool
on_list x db = any_row (is_listed x) db.rows

abbrev non_empty : List Assertion → Bool
non_empty [] = false
non_empty (a ∷ more) = true

non_empty-select_where :
    (test : Assertion → Bool) (xs : List Assertion)
    → non_empty (select_where test xs) ≡ any_row test xs
non_empty-select_where test [] = refl
non_empty-select_where test (x ∷ xs) = ground (arith, non_empty-select_where test xs)

remove_row-same :
    (x : Subject) (rows : List Row) → any_row (is_listed x) (remove_row x rows) ≡ false
remove_row-same x rows = any_row-update_drop (is_listed x) removed_row rows (λ r. ground arith)

upsert_row-same :
    (x : Subject) (lead : Assertion) (bs : List Assertion) (rows : List Row)
    → any_row (is_listed x) (upsert_row x lead bs rows) ≡ true
unfolding upsert_row
upsert_row-same x lead bs rows =
    if-elim (λ rs. any_row (is_listed x) rs ≡ true) (any_row (is_listed x) rows) _ _
      (λ e. any_row-update_into (is_listed x) (is_listed x) (updated_row lead) rows (λ r t. t) e)
      λ e.
        any_row-append_last (is_listed x) rows (new_row x lead bs)
          (let same = same_subject_refl x in rw same refl)

project_with-same :
    (x : Subject) (allow : Bool) (bs : List Assertion) (rows : List Row)
    → (any_row (is_listed x) (project_with x allow bs rows).0 ≡ (non_empty bs && not allow))
      × ((project_with x allow bs rows).1 ≡ (non_empty bs && not allow))
unfolding project_with
project_with-same x true bs rows =
    let none_left = remove_row-same x rows in (ground arith, ground arith)
project_with-same x false [] rows = (remove_row-same x rows, refl)
project_with-same x false (b ∷ bs) rows = (upsert_row-same x (lead_of b bs) (b ∷ bs) rows, refl)

module _ (x y : Subject) (other : same_subject y x ≡ false) where
  remove_row-other :
      (rows : List Row) → any_row (is_listed y) (remove_row x rows) ≡ any_row (is_listed y) rows
  remove_row-other rows =
      any_row-update_ne (is_listed y) (is_listed x) removed_row rows
        λ r i t. let no = differs x y r.subject other (ground arith) in (ground arith, ground arith)

  upsert_row-other :
      (lead : Assertion) (bs : List Assertion) (rows : List Row)
      → any_row (is_listed y) (upsert_row x lead bs rows) ≡ any_row (is_listed y) rows
  unfolding upsert_row
  upsert_row-other lead bs rows =
      if-elim (λ rs. any_row (is_listed y) rs ≡ any_row (is_listed y) rows)
        (any_row (is_listed x) rows) _ _
        (λ e. any_row-update_ne (is_listed y) (is_listed x) (updated_row lead) rows λ r i t.
          let no = differs x y r.subject other (ground arith) in (ground arith, ground arith))
        λ e. any_row-append (is_listed y) rows (new_row x lead bs ∷ []) ∙ rw other (ground arith)

  project_with-other :
      (allow : Bool) (bs : List Assertion) (rows : List Row)
      → any_row (is_listed y) (project_with x allow bs rows).0 ≡ any_row (is_listed y) rows
  unfolding project_with
  project_with-other true bs rows = remove_row-other rows
  project_with-other false [] rows = remove_row-other rows
  project_with-other false (b ∷ bs) rows = upsert_row-other (lead_of b bs) (b ∷ bs) rows

  pub project_subject-other : (db : Db) → on_list y (project_subject x db).0 ≡ on_list y db
  unfolding project_subject
  project_subject-other db = project_with-other _ _ db.rows

pub project_subject-same :
    (x : Subject) (db : Db)
    → (on_list x (project_subject x db).0 ≡ is_blocked x db.ledger)
      × ((project_subject x db).1 ≡ is_blocked x db.ledger)
unfolding project_subject
project_subject-same x db =
    let found = select_where (stands x) db.ledger in
    let some_block =
      non_empty-select_where blocks found ∙ any_row-select_where blocks (stands x) db.ledger in
    let some_allow = any_row-select_where allows (stands x) db.ledger in
    let (rows, reply) =
      project_with-same x (any_row allows found) (select_where blocks found) db.rows in
    (rows ∙ rw (some_block, some_allow) refl, reply ∙ rw (some_block, some_allow) refl)

pub project_subject-ledger : (x : Subject) (db : Db) → (project_subject x db).0.ledger ≡ db.ledger
unfolding project_subject
project_subject-ledger x db = refl

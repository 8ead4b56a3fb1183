-- ===== src/Procurement/Dispatch.antt =====
-- backend/src/erp/order/dispatch.py: `dispatch_config`, and `claim_tasks_for_account`, which gives an
-- account the execution orders it works on. `day` is the start of the day in the time zone of the
-- setting; `locked` are the rows that other transactions hold.
use erp_all.Prelude.{
  ℕ, zero, suc, ◌-◌, String, Bool, true, false, not, Option, none, some, List, [], ◌∷◌, ◌++◌, ◌&&◌,
  ◌||◌, ◌==◌, ltb, leb, str_eq, if◌then◌else◌, any_row, select_where, update_where, map, length,
  max, min, count_where, Result, ok, err,
}
use erp_all.Prelude.Sorting.{sort_by, first_rows}
use erp_all.Prelude.Int.{ℤ, pos, negsuc}
use erp_all.Procurement.{
  Status, unassigned, assigned, claimed, cancelled, Po, Order, Account, Line, Source, Db, Error,
  account_not_locked, is_none, breaks_unique, allot, advance_order,
}

-- A value of the setting's object, as `int` takes it.
pub data Value : Type 0 where
  missing malformed : Value
  number : ℤ → Value

-- `int(cfg.get(…) or default)`, or the default where that raises.
abbrev int_or : ℕ → Value → ℤ
int_or default missing = pos default
int_or default malformed = pos default
int_or default (number (pos zero)) = pos default
int_or default (number n) = n

-- `max(1, min(n, top))`
abbrev clamp : ℕ → ℤ → ℕ
clamp top (pos n) = max 1 (min n top)
clamp top (negsuc n) = 1

pub record Config : Type 0 where
  pub pull_batch_max : ℕ
  pub pending_claim_cap : ℕ

unfoldable pub dispatch_config : Value → Value → Config
dispatch_config batch cap = record {
  pull_batch_max = clamp 100 (int_or 20 batch);
  pending_claim_cap = clamp 500 (int_or 50 cap);
}

-- `_SITE_TO_COUNTRY`
unfoldable pub site_country : String → Option String
site_country site =
    if str_eq site "amazon_com"
    then some "US"
    else if str_eq site "amazon_ca"
    then some "CA"
    else if str_eq site "amazon_co_jp"
    then some "JP"
    else none

pub data Reason : Type 0 where
  not_active cap_reached no_task already_dispatched : Reason

abbrev is_working : Status → Bool
is_working assigned = true
is_working claimed = true
is_working _ = false

abbrev pub works_on : ℕ → Po → Bool
works_on account p = elim p.buyer_account_id [ none ↦ false | some a ↦ a == account ]

-- `_RECLAIM_SQL`
abbrev pub is_resumed : ℕ → ℕ → Po → Bool
is_resumed team account p = works_on account p && (p.team_id == team) && is_working p.status

-- `ORDER BY assigned_at NULLS LAST, id`
abbrev time_first : Option ℕ → Option ℕ → Bool → Bool
time_first none none tie = tie
time_first none (some _) tie = false
time_first (some _) none tie = true
time_first (some s) (some t) tie = ltb s t || ((s == t) && tie)

abbrev assigned_first : Po → Po → Bool
assigned_first p q = time_first p.assigned_at q.assigned_at (leb p.id q.id)

unfoldable pub resumed : ℕ → ℕ → ℕ → List Po → List Po
unfolding sort_by
resumed team account n rows =
    first_rows n (sort_by assigned_first (select_where (is_resumed team account) rows))

-- `_USED_TODAY_SQL`
abbrev pub since : ℕ → Option ℕ → Bool
since day none = false
since day (some t) = leb day t

abbrev pub not_cancelled : Status → Bool
not_cancelled cancelled = false
not_cancelled _ = true

abbrev pub is_used : ℕ → ℕ → Po → Bool
is_used account day p = works_on account p && not_cancelled p.status && since day p.assigned_at

abbrev pub used_today : ℕ → ℕ → Db → ℕ
used_today account day db = count_where (is_used account day) db.pos

-- `_BAD_LINE_EXISTS`
abbrev has_ref : Option String → Bool
has_ref none = false
has_ref (some s) = not (str_eq s "")

abbrev is_asin : Option ℕ → Source → Bool
is_asin product s =
    elim product [ none ↦ false | some id ↦ s.id == id ]
    && str_eq s.source_channel "amazon"
    && has_ref s.source_ref

unfoldable pub has_bad_line : Db → Po → Bool
has_bad_line db p =
    any_row
      (λ (l : Line).
        (l.order_id == p.order_id)
        && (l.order_date == p.order_date)
        && not (any_row (is_asin l.product_id) db.sources))
      db.lines

abbrev pub is_unassigned : Status → Bool
is_unassigned unassigned = true
is_unassigned _ = false

abbrev ships_to : String → Option String → Bool
ships_to country none = false
ships_to country (some c) = str_eq c country

unfoldable pub order_ships : Db → String → Po → Bool
order_ships db country p =
    any_row
      (λ (o : Order).
        (o.id == p.order_id) && (o.order_date == p.order_date) && ships_to country o.country)
      db.orders

-- `_CANDIDATE_SQL`
unfoldable pub is_candidate : List ℕ → ℕ → String → Db → Po → Bool
unfolding has_bad_line order_ships
is_candidate locked team country db p =
    (p.team_id == team)
    && is_unassigned p.status
    && is_none p.buyer_account_id
    && is_none p.purchaser_id
    && order_ships db country p
    && not (has_bad_line db p)
    && not (any_row (λ k. p.id == k) locked)

-- `ORDER BY po.created_at, po.id`
abbrev created_first : Po → Po → Bool
created_first p q =
    ltb p.created_at q.created_at || ((p.created_at == q.created_at) && leb p.id q.id)

unfoldable pub candidates : List ℕ → ℕ → String → ℕ → Db → List Po
unfolding is_candidate sort_by
candidates locked team country n db =
    first_rows n (sort_by created_first (select_where (is_candidate locked team country db) db.pos))

-- `_CLAIM_SQL`
abbrev pub is_named : List Po → Po → Bool
is_named ps p = any_row (λ (q : Po). p.id == q.id) ps

abbrev pub takes : List Po → Po → Bool
takes ps p = is_named ps p && is_unassigned p.status && is_none p.buyer_account_id

abbrev pub given_to : ℕ → ℕ → Po → Po
given_to now account p = record p {
  buyer_account_id = some account;
  status = assigned;
  assigned_at = some now;
  assigned_by = none;
}

-- `_advance_claimed`
unfoldable pub allot_all : List Po → List Order → List Order
unfolding advance_order
allot_all [] orders = orders
allot_all (p ∷ ps) orders = allot_all ps (allot p.order_id p.order_date orders)

unfoldable pub claim_rows : ℕ → ℕ → List Po → Db → Db
unfolding allot_all
claim_rows now account ps db = record db {
  pos = update_where (takes ps) (given_to now account) db.pos;
  orders = allot_all (select_where (takes ps) db.pos) db.orders;
}

abbrev pub ids : List Po → List ℕ
ids ps = map (λ (p : Po). p.id) ps

-- The savepoint: a statement that breaks the unique index is undone.
unfoldable pub claim_one_by_one : ℕ → ℕ → List Po → Db → Db × (List ℕ × ℕ)
unfolding claim_rows breaks_unique
claim_one_by_one now account [] db = (db, ([], 0))
claim_one_by_one now account (p ∷ ps) db =
    let db' = claim_rows now account (p ∷ []) db in
    let broken = breaks_unique db'.pos in
    let (end, (taken, conflicts)) = claim_one_by_one now account ps (if broken then db else db') in
    if broken
    then (end, (taken, suc conflicts))
    else (end, (ids (select_where (takes (p ∷ [])) db.pos) ++ taken, conflicts))

-- `_claim`: the whole batch in one statement, or row by row where that breaks the index.
unfoldable pub claim_batch : ℕ → ℕ → List Po → Db → Db × (List ℕ × ℕ)
unfolding claim_rows claim_one_by_one breaks_unique
claim_batch now account ps db =
    let db' = claim_rows now account ps db in
    if breaks_unique db'.pos
    then claim_one_by_one now account ps db
    else (db', (ids (select_where (takes ps) db.pos), 0))

pub record Claim : Type 0 where
  pub team_id : ℕ
  pub buyer_account_id : ℕ
  pub site : Option String
  pub account_status : String
  pub daily_cap : Option ℕ
  pub limit : ℤ

-- What the caller gets: the rows, or the reason for none.
pub record Given : Type 0 where
  pub pos : List ℕ
  pub reason : Option Reason

abbrev reason_for : List ℕ → ℕ → Option Reason
reason_for (_ ∷ _) conflicts = none
reason_for [] zero = some no_task
reason_for [] (suc n) = some already_dispatched

unfoldable pub give_more : ℕ → List ℕ → Claim → String → List Po → ℕ → Db → Db × Given
unfolding candidates claim_batch
give_more now locked c country old room db =
    let (db', (taken, conflicts)) =
      claim_batch now c.buyer_account_id (candidates locked c.team_id country room db) db in
    let all = ids old ++ taken in (db', record { pos = all; reason = reason_for all conflicts })

abbrev cap_reason : List Po → Option Reason
cap_reason [] = some cap_reached
cap_reason (_ ∷ _) = none

-- What the cap leaves.
unfoldable pub give_capped :
    ℕ → List ℕ → ℕ → Claim → String → List Po → ℕ → Option ℕ → Db → Db × Given
unfolding give_more
give_capped now locked day c country old room none db = give_more now locked c country old room db
give_capped now locked day c country old room (some cap) db =
    let used = used_today c.buyer_account_id day db in
    if leb cap used
    then (db, record { pos = ids old; reason = cap_reason old })
    else give_more now locked c country old (min room (cap - used)) db

abbrev pub has_account : ℕ → ℕ → Account → Bool
has_account team account a = (a.id == account) && (a.team_id == team)

-- `max(1, min(limit, cfg.pull_batch_max))`
abbrev pub wanted : Config → ℤ → ℕ
wanted cfg limit = clamp cfg.pull_batch_max limit

unfoldable pub give_room :
    ℕ → List ℕ → ℕ → Claim → String → List Po → ℕ → Db → Result Error (Db × Given)
unfolding give_capped
give_room now locked day c country old want db =
    if leb want (length old)
    then ok (db, record { pos = ids old; reason = none })
    else if any_row (has_account c.team_id c.buyer_account_id) db.accounts
    then ok (give_capped now locked day c country old (want - length old) c.daily_cap db)
    else err account_not_locked

unfoldable pub give_country :
    ℕ → List ℕ → ℕ → Config → Claim → Option String → Db → Result Error (Db × Given)
unfolding give_room resumed
give_country now locked day cfg c none db = ok (db, record { pos = []; reason = some not_active })
give_country now locked day cfg c (some country) db =
    let want = wanted cfg c.limit in
    give_room now locked day c country (resumed c.team_id c.buyer_account_id want db.pos) want db

abbrev pub country_of : Option String → Option String
country_of none = none
country_of (some site) = site_country site

unfoldable pub claim_tasks_for_account :
    ℕ → List ℕ → ℕ → Config → Claim → Db → Result Error (Db × Given)
unfolding give_country site_country
claim_tasks_for_account now locked day cfg c db =
    if str_eq c.account_status "active"
    then give_country now locked day cfg c (country_of c.site) db
    else ok (db, record { pos = []; reason = some not_active })

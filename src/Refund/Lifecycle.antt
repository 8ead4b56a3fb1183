-- ===== src/Refund/Lifecycle.antt =====
-- The life of a request of backend/src/erp/aftersale/refund.py: what `create_request` and
-- `decide_request` keep true of the table, and what they return.
use erp_all.Prelude.{
  ℕ, suc, ◌<◌, ◌≡◌, refl, ◌≢◌, inl, inr, true, Option, none, some, arith, All, All-append, All-imp,
  Holds-eq_ok, ok, Distinct, Option-cases, update_key, All-update_key, All-update_where,
  Distinct-update_where, Distinct-append_fresh, find_key-In, All-In, find_key-update_key_ne,
}
use erp_all.Refund.{
  Order, Level, record_only, approval, Status, recorded, pending_approval, Decision, Request, Db,
  level_for, is_positive, find_order, Args, Created, insert_request, create_at, create_for,
  create_request, decided, request_id, decided_request, decide_found, find_request, decide_request,
}

-- Which status and decider go with which level.
abbrev pub Consistent : Level → Status → Option ℕ → Type 0
Consistent record_only recorded none = Unit
Consistent approval pending_approval none = Unit
Consistent approval Status.approved (some by) = Unit
Consistent approval Status.rejected (some by) = Unit
Consistent _ _ _ = ⊥

pub record IsSound (r : Request) : Type 0 where
  pub consistent : Consistent r.mode_applied r.status r.approved_by
  pub positive : is_positive r.amount ≡ true

pub record IsValid (db : Db) : Type 0 where
  pub sound : All IsSound db.requests
  pub distinct : Distinct (λ (r : Request). r.id) db.requests
  pub fresh : All (λ (r : Request). r.id < db.next_id) db.requests

insert_request-IsValid :
    (db : Db) (args : Args) (order : Order) (level : Level) (status : Status)
    → IsValid db
    → is_positive args.amount ≡ true
    → Consistent level status none
    → IsValid (insert_request db args order level status).0
unfolding insert_request
insert_request-IsValid db args order level status v p c = record {
  sound = All-append IsSound db.requests _ v.sound (record { consistent = c; positive = p }, tt);
  distinct = Distinct-append_fresh (λ (r : Request). r.id) db.requests _ v.distinct v.fresh;
  fresh =
      All-append (λ (r : Request). r.id < suc db.next_id) db.requests _
        (All-imp _ _ db.requests (λ r h. omega arith) v.fresh) (omega arith, tt);
}

create_at-IsValid :
    (db : Db) (args : Args) (order : Order) (level : Level) (out : Db × Created)
    → IsValid db
    → is_positive args.amount ≡ true
    → create_at db args order level ≡ ok out
    → IsValid out.0
unfolding create_at
create_at-IsValid db args order record_only out v p =
    Holds-eq_ok (λ o. IsValid o.0) (ok _) out
      (insert_request-IsValid db args order record_only recorded v p tt)
create_at-IsValid db args order approval out v p =
    Holds-eq_ok (λ o. IsValid o.0) (ok _) out
      (insert_request-IsValid db args order approval pending_approval v p tt)
create_at-IsValid db args order Level.auto out v p = λ e. absurd (cc)

create_for-IsValid :
    (db : Db) (args : Args) (found : Option Order) (out : Db × Created)
    → IsValid db
    → create_for db args found ≡ ok out
    → IsValid out.0
unfolding create_for
create_for-IsValid db args none out v e = absurd (cc)
create_for-IsValid db args (some order) out v e =
    ground (arith, create_at-IsValid db args order (level_for db args.team_id args.kind) out v)

-- A request that is created is positive, has a status that fits its level, and a new id.
pub create_request-IsValid :
    (db : Db) (args : Args) (out : Db × Created)
    → IsValid db
    → create_request db args ≡ ok out
    → IsValid out.0
unfolding create_request
create_request-IsValid db args out v e =
    create_for-IsValid db args (find_order db args.team_id args.order_id) out v e

-- What a decision that succeeds has checked, and the table that it leaves.
pub decide_request-eq_ok :
    (db : Db) (id team : ℕ) (decision : Decision) (by : ℕ) (new : Db)
    → decide_request db id team decision by ≡ ok new
    → (r : Request) × (find_request db id ≡ some r)
      × (r.team_id ≡ team)
      × (r.status ≡ pending_approval)
      × (new ≡ record db {
        requests = update_key request_id id (decided_request decision by) db.requests;
      })
unfolding decide_request
decide_request-eq_ok db id team decision by new e = elim (Option-cases (find_request db id)) [
  | inl absent ↦ absurd (cc (rw absent at e))
  | inr (r, found) ↦
      let here : decide_found db id team decision by (some r) ≡ ok new = rw found at e in
      (r, found, ground arith, ground arith, ground arith)
]

Consistent-decided :
    (level : Level) (status : Status) (decider : Option ℕ) (decision : Decision) (by : ℕ)
    → status ≡ pending_approval
    → Consistent level status decider
    → Consistent level (decided decision) (some by)
Consistent-decided level status decider decision by e c = ground arith

decided_request-IsSound :
    (decision : Decision) (by : ℕ) (r : Request)
    → r.status ≡ pending_approval
    → IsSound r
    → IsSound (decided_request decision by r)
unfolding decided_request
decided_request-IsSound decision by r e h = record {
  consistent = Consistent-decided r.mode_applied r.status r.approved_by decision by e h.consistent;
  positive = h.positive;
}

keeps_id : (decision : Decision) (by : ℕ) (r : Request) → (decided_request decision by r).id ≡ r.id
unfolding decided_request
keeps_id decision by r = refl

-- A decision on a pending request leaves a table in which every request still is sound.
pub decide_request-IsValid :
    (db : Db) (id team : ℕ) (decision : Decision) (by : ℕ) (new : Db)
    → IsValid db
    → decide_request db id team decision by ≡ ok new
    → IsValid new
decide_request-IsValid db id team decision by new v e =
    let (r, found, own, pending, same) = decide_request-eq_ok db id team decision by new e in
    let change = decided_request decision by in
    let r_sound =
      All-In IsSound r db.requests v.sound (find_key-In request_id id db.requests r found) in
    rw same (record {
      sound =
          All-update_key request_id IsSound id change db.requests v.distinct found
            (decided_request-IsSound decision by r pending r_sound) v.sound;
      distinct =
          Distinct-update_where request_id change (keeps_id decision by) _ db.requests v.distinct;
      fresh =
          All-update_where (λ (q : Request). q.id < db.next_id) _ change db.requests
            (λ q _ h. rw (keeps_id decision by q) h) v.fresh;
    })

-- A decision leaves every other request as it was.
pub decision_local :
    (db : Db) (id other team : ℕ) (decision : Decision) (by : ℕ) (new : Db)
    → id ≢ other
    → decide_request db id team decision by ≡ ok new
    → find_request new other ≡ find_request db other
decision_local db id other team decision by new h e =
    let (r, found, own, pending, same) = decide_request-eq_ok db id team decision by new e in
    rw same (
      find_key-update_key_ne request_id (decided_request decision by) (keeps_id decision by) id
        other db.requests h)

-- ===== src/Refund/Creation.antt =====
-- What `create_request` of backend/src/erp/aftersale/refund.py stores, and when it succeeds.
use erp_all.Prelude.{
  ◌<◌, ◌≡◌, refl, ◌≢◌, inl, inr, true, none, some, arith, str_eq, All, Holds-eq_ok, ok, any_row,
  Option-cases, find_key-append_fresh,
}
use erp_all.Refund.{
  Order, Level, record_only, approval, Status, recorded, pending_approval, Request, Db, level_for,
  is_positive, find_order, Args, Created, new_request, insert_request, create_at, create_for,
  create_request, request_id, find_request,
}
use erp_all.Refund.Lifecycle.{IsValid}

-- What the operation checked, and the row that it appended.
create_request-eq_ok :
    (db : Db) (args : Args) (out : Db × Created)
    → create_request db args ≡ ok out
    → (o : Order) × (find_order db args.team_id args.order_id ≡ some o)
      × (is_positive args.amount ≡ true)
      × (any_row (str_eq args.reason_code) db.reasons ≡ true)
      × (create_at db args o (level_for db args.team_id args.kind) ≡ ok out)
unfolding create_request
create_request-eq_ok db args out e =
    elim (Option-cases (find_order db args.team_id args.order_id)) [
      | inl absent ↦ absurd (cc (rw absent at e))
      | inr (o, found) ↦
          let here : create_for db args (some o) ≡ ok out = rw found at e in
          (o, found, ground arith, ground arith, ground arith)
    ]

abbrev first_status : Level → Status
first_status record_only = recorded
first_status _ = pending_approval

-- The new table has, at the replied id, a request of that team at that level, in that status.
abbrev pub IsCreated : Db → Args → Level → Db × Created → Type 0
IsCreated db args level out =
    (out.1.id ≡ db.next_id)
    × (r : Request) × (find_request out.0 out.1.id ≡ some r)
    × (r.team_id ≡ args.team_id)
    × (r.kind ≡ args.kind)
    × (r.amount ≡ args.amount)
    × (r.mode_applied ≡ level)
    × (r.status ≡ first_status level)
    × (r.approved_by ≡ none)

insert_request-IsCreated :
    (db : Db) (args : Args) (o : Order) (level : Level)
    → All (λ (r : Request). r.id < db.next_id) db.requests
    → IsCreated db args level (insert_request db args o level (first_status level))
unfolding insert_request
insert_request-IsCreated db args o level v =
    let row = new_request db args o level (first_status level) in
    (
      refl,
      row,
      find_key-append_fresh request_id db.next_id db.requests row v refl,
      refl,
      refl,
      refl,
      refl,
      refl,
      refl,
    )

create_at-IsCreated :
    (db : Db) (args : Args) (o : Order) (level : Level) (out : Db × Created)
    → All (λ (r : Request). r.id < db.next_id) db.requests
    → create_at db args o level ≡ ok out
    → (level ≢ Level.auto) × IsCreated db args level out
unfolding create_at
create_at-IsCreated db args o record_only out v e = (
  λ q. cc,
  Holds-eq_ok (IsCreated db args record_only) (ok _) out
      (insert_request-IsCreated db args o record_only v) e,
)
create_at-IsCreated db args o approval out v e = (
  λ q. cc,
  Holds-eq_ok (IsCreated db args approval) (ok _) out
      (insert_request-IsCreated db args o approval v) e,
)
create_at-IsCreated db args o Level.auto out v e = absurd (cc)

-- A request that is created belongs to an order of the team, has a positive amount and a known reason,
-- and is stored under the replied id at the level that was in force, which is not `auto`: recorded at
-- the level `record_only`, pending at `approval`, and with no decider.
pub create_request_effect :
    (db : Db) (args : Args) (out : Db × Created)
    → IsValid db
    → create_request db args ≡ ok out
    → let level = level_for db args.team_id args.kind in
      (o : Order) × (find_order db args.team_id args.order_id ≡ some o)
      × (is_positive args.amount ≡ true)
      × (any_row (str_eq args.reason_code) db.reasons ≡ true)
      × (level ≢ Level.auto)
      × IsCreated db args level out
create_request_effect db args out v e =
    let (o, found, positive, known, made) = create_request-eq_ok db args out e in
    let level = level_for db args.team_id args.kind in
    let (wired, row) = create_at-IsCreated db args o level out v.fresh made in
    (o, found, positive, known, wired, row)

-- Where the order is the team's, the amount positive, the reason known and the level not `auto`, the
-- request is created.
pub create_request_total :
    (db : Db) (args : Args) (o : Order)
    → find_order db args.team_id args.order_id ≡ some o
    → is_positive args.amount ≡ true
    → any_row (str_eq args.reason_code) db.reasons ≡ true
    → level_for db args.team_id args.kind ≢ Level.auto
    → (out : Db × Created) × (create_request db args ≡ ok out)
unfolding create_request create_at
create_request_total db args o found positive known wired =
    rw (found, create_for, positive, known) (made _ refl)
  where
    made :
        (level : Level)
        → level_for db args.team_id args.kind ≡ level
        → (out : Db × Created) × (create_at db args o (level_for db args.team_id args.kind)
            ≡ ok out)
    made record_only e = rw e (_, refl)
    made approval e = rw e (_, refl)
    made Level.auto e = absurd (wired e)

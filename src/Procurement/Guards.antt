-- ===== src/Procurement/Guards.antt =====
-- The guards of backend/src/erp/order/procurement.py: what an operator may not do to an execution order,
-- and when one is released.
use erp_all.Prelude.{
  ℕ, ◌≡◌, refl, subst, ◌↔◌, inl, inr, true, false, Option, none, some, ◌==◌, ==→eq, ==-refl,
  find_key, Bool-cases, Result, ok, err,
}
use erp_all.Procurement.{Po, Db, Error, po_key, is_none, is_some, owned, load_po, write}
use erp_all.Procurement.Release.{
  is_bought, release_po, release_loaded, released_po, is_exception, hand_back,
}

-- The operation raises.
abbrev pub Refused : {A : Type 0} → Result Error A → Type 0
Refused r = (e : Error) × (r ≡ err e)

-- What a release needs.
pub record CanRelease (team : ℕ) (p : Po) : Type 0 where
  pub owner : p.team_id ≡ team
  pub dispatched : is_some p.buyer_account_id ≡ true
  pub stopped : is_exception p.status ≡ true
  pub unbought : is_bought p ≡ false

module _ (db : Db) (id team : ℕ) where
  released_row :
      (p : Po)
      → find_key po_key id db.pos ≡ some p
      → CanRelease team p
      → release_po db team id
        ≡ ok (write db p released_po (hand_back p.order_id p.order_date db.orders))
  unfolding release_po load_po owned release_loaded
  released_row p found can =
      let here : (p.team_id == team) ≡ true =
        subst (λ t. (p.team_id == t) ≡ true) can.owner (==-refl p.team_id) in
      let given : is_none p.buyer_account_id ≡ false = not_none p.buyer_account_id can.dispatched in
      rw (found, release_po, load_po, owned, release_loaded, here, given, can.stopped, can.unbought)
        refl
    where
      not_none : (o : Option ℕ) → is_some o ≡ true → is_none o ≡ false
      not_none none h = absurd (cc)
      not_none (some x) h = refl

  release_needs :
      (o : Option Po) (db' : Db)
      → find_key po_key id db.pos ≡ o
      → release_po db team id ≡ ok db'
      → (p : Po) × (o ≡ some p) × CanRelease team p
  unfolding release_po load_po owned release_loaded
  release_needs none db' found h =
      let no = rw (found, release_po, load_po, owned) at h in absurd (cc)
  release_needs (some p) db' found h =
      let h' = rw (found, release_po, load_po, owned) at h in
      elim (Bool-cases (p.team_id == team)) [
        | inr e ↦ let no = rw e at h' in absurd (cc)
        | inl e ↦
            let h1 = rw e at h' in
            elim (Bool-cases (is_none p.buyer_account_id)) [
              | inl n ↦ let no = rw n at h1 in absurd (cc)
              | inr n ↦
                  let h2 = rw n at h1 in
                  elim (Bool-cases (is_exception p.status)) [
                    | inr s ↦ let no = rw s at h2 in absurd (cc)
                    | inl s ↦
                        let h3 = rw s at h2 in
                        elim (Bool-cases (is_bought p)) [
                          | inl b ↦ let no = rw b at h3 in absurd (cc)
                          | inr b ↦ (
                            p,
                            refl,
                            record {
                              owner = ==→eq _ _ e;
                              dispatched = there p.buyer_account_id n;
                              stopped = s;
                              unbought = b;
                            },
                          )
                        ]
                  ]
            ]
      ]
    where
      there : (o : Option ℕ) → is_none o ≡ false → is_some o ≡ true
      there none k = absurd (cc)
      there (some x) k = refl

  -- A release succeeds just where the execution order is the team's, was given to a buyer account, stands
  -- as an exception, and has neither a reference nor a time of purchase.
  pub release_po_iff :
      ((db' : Db) × (release_po db team id ≡ ok db'))
      ↔ ((p : Po) × (find_key po_key id db.pos ≡ some p) × CanRelease team p)
  release_po_iff = (
    λ r. let (db', h) = r in release_needs (find_key po_key id db.pos) db' refl h,
    λ r. let (p, found, can) = r in (_, released_row p found can),
  )

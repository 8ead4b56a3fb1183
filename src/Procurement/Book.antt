-- ===== src/Procurement/Book.antt =====
-- What holds of the execution orders of backend/src/erp/order/procurement.py at any time, and what the
-- UPDATE of one row must satisfy to keep it.
use erp_all.Prelude.{
  ℕ, ◌≤◌, ◌<◌, ◌≡◌, refl, sym, subst, ◌∙◌, inl, inr, Bool, true, false, none, some, List, [], ◌∷◌,
  arith, ◌==◌, if-elim, All, All-keyed, All-update_where, update_where, find_key, count_where,
  Distinct, Distinct-update_where, Grows, Grows-refl, Grows-trans, Grows-update_where, Bool-cases,
}
use erp_all.Procurement.{
  Status, unassigned, assigned, claimed, Po, Order, Db, po_key, is_some, is_in_flight, in_flight,
  write,
}
use erp_all.Procurement.Release.{is_bought}

-- Before the purchase: the row can still be given to somebody.
abbrev pub is_before : Status → Bool
is_before unassigned = true
is_before assigned = true
is_before claimed = true
is_before _ = false

-- Not both a purchaser and a buyer account; and a row that is bought waits for nobody to buy it, except
-- while it is an exception or over.
pub record IsSafe (p : Po) : Type 0 where
  pub one_path : is_some p.buyer_account_id ≡ true → p.purchaser_id ≡ none
  pub bought_once : is_bought p ≡ true → is_before p.status ≡ false

-- The row at a later time: the same execution order, whose rate stays once it is locked, whose purchase
-- is not forgotten, and which is left alone once it is over.
pub record Lasts (p q : Po) : Type 0 where
  pub id : q.id ≡ p.id
  pub team_id : q.team_id ≡ p.team_id
  pub order_id : q.order_id ≡ p.order_id
  pub rate : (r : ℕ) → p.exchange_rate_locked ≡ some r → q.exchange_rate_locked ≡ some r
  pub bought : is_bought p ≡ true → is_bought q ≡ true
  pub over : is_in_flight p.status ≡ false → q ≡ p

pub Lasts-refl : (p : Po) → Lasts p p
Lasts-refl p = record {
  id = refl;
  team_id = refl;
  order_id = refl;
  rate = λ r e. e;
  bought = λ e. e;
  over = λ e. refl;
}

pub Lasts-trans : (p q r : Po) → Lasts p q → Lasts q r → Lasts p r
Lasts-trans p q r a b = record {
  id = b.id ∙ a.id;
  team_id = b.team_id ∙ a.team_id;
  order_id = b.order_id ∙ a.order_id;
  rate = λ x e. b.rate x (a.rate x e);
  bought = λ e. b.bought (a.bought e);
  over = λ e.
      let same = a.over e in
      b.over (subst (λ x. is_in_flight x.status ≡ false) (sym same) e) ∙ same;
}

pub record IsBook (pos : List Po) (next : ℕ) : Type 0 where
  pub once : Distinct po_key pos
  pub below : All (λ (p : Po). p.id < next) pos
  pub single : (team order : ℕ) → count_where (in_flight team order) pos ≤ 1
  pub safe : All IsSafe pos

abbrev pub IsBooked : Db → Type 0
IsBooked db = IsBook db.pos db.next_po

pub record Moves (db db' : Db) : Type 0 where
  pub valid : IsBooked db'
  pub lasts : Grows Lasts db.pos db'.pos

pub Moves-refl : (db : Db) → IsBooked db → Moves db db
Moves-refl db v = record { valid = v; lasts = Grows-refl Lasts Lasts-refl db.pos }

pub Moves-trans : (a b c : Db) → Moves a b → (IsBooked b → Moves b c) → Moves a c
Moves-trans a b c p f =
    let q = f p.valid in
    record {
      valid = q.valid;
      lasts = Grows-trans Lasts Lasts-trans a.pos b.pos c.pos p.lasts q.lasts;
    }

-- An UPDATE that takes no row into the selection does not make it larger.
pub count_where-update_where_le :
    {A : Type 0} (p test : A → Bool) (change : A → A) (xs : List A)
    → All (λ x. test x ≡ true → p (change x) ≡ true → p x ≡ true) xs
    → count_where p (update_where test change xs) ≤ count_where p xs
count_where-update_where_le p test change [] f = omega arith
count_where-update_where_le p test change (x ∷ xs) f =
    let rest = count_where-update_where_le p test change xs f.1 in
    elim (Bool-cases (test x)) [
      | inl e ↦ elim (Bool-cases (p (change x))) [
        | inl c ↦ rw (e, c, f.0 e c) (omega (arith, rest))
        | inr c ↦ elim (Bool-cases (p x)) [
          | inl b ↦ rw (e, c, b) (omega (arith, rest))
          | inr b ↦ rw (e, c, b) rest
        ]
      ]
      | inr e ↦ elim (Bool-cases (p x)) [
        | inl b ↦ rw (e, b) (omega (arith, rest))
        | inr b ↦ rw (e, b) rest
      ]
    ]

-- A change of rows that keeps each of them safe and brings none back into flight.
pub update_pos-Moves :
    (test : Po → Bool) (change : Po → Po) (db : Db) (orders : List Order)
    → IsBooked db
    → ((p : Po) → (change p).id ≡ p.id)
    → All (λ p. test p ≡ true → Lasts p (change p)) db.pos
    → All (λ p. test p ≡ true → is_in_flight p.status ≡ true) db.pos
    → All (λ p. test p ≡ true → IsSafe p → IsSafe (change p)) db.pos
    → Moves db (record db { pos = update_where test change db.pos; orders = orders })
update_pos-Moves test change db orders v keeps lasts flying safe = record {
  valid = record {
    once = Distinct-update_where po_key change keeps test db.pos v.once;
    below =
        All-update_where (λ (p : Po). p.id < db.next_po) test change db.pos
          (λ p e b. subst (λ k. k < db.next_po) (sym (keeps p)) b) v.below;
    single = λ team order.
        let le =
          count_where-update_where_le (in_flight team order) test change db.pos
            (flew team order db.pos lasts flying) in
        omega (arith, le, v.single team order);
    safe = kept_safe db.pos safe v.safe;
  };
  lasts = Grows-update_where Lasts Lasts-refl test change db.pos lasts;
}
  where
    flew :
        (team order : ℕ) (xs : List Po)
        → All (λ p. test p ≡ true → Lasts p (change p)) xs
        → All (λ p. test p ≡ true → is_in_flight p.status ≡ true) xs
        → All
            (λ p.
              test p ≡ true
              → in_flight team order (change p) ≡ true
              → in_flight team order p ≡ true)
            xs
    flew team order [] l f = tt
    flew team order (x ∷ xs) l f = (
      λ t c.
          let last = l.0 t in
          let fly = f.0 t in
          let same_team = last.team_id in let same_order = last.order_id in ground arith,
      flew team order xs l.1 f.1,
    )

    kept_safe :
        (xs : List Po)
        → All (λ p. test p ≡ true → IsSafe p → IsSafe (change p)) xs
        → All IsSafe xs
        → All IsSafe (update_where test change xs)
    kept_safe [] f s = tt
    kept_safe (x ∷ xs) f s =
        (if-elim IsSafe (test x) (change x) x (λ t. f.0 t s.0) (λ _. s.0), kept_safe xs f.1 s.1)

-- The one row that an operation has loaded.
pub write-Moves :
    (db : Db) (p : Po) (change : Po → Po) (orders : List Order)
    → IsBooked db
    → find_key po_key p.id db.pos ≡ some p
    → ((x : Po) → (change x).id ≡ x.id)
    → Lasts p (change p)
    → is_in_flight p.status ≡ true
    → (IsSafe p → IsSafe (change p))
    → Moves db (write db p change orders)
write-Moves db p change orders v found keeps lasts flying safe =
    update_pos-Moves (λ (x : Po). x.id == p.id) change db orders v keeps
      (All-keyed po_key (λ x. Lasts x (change x)) p.id db.pos p v.once found lasts)
      (All-keyed po_key (λ x. is_in_flight x.status ≡ true) p.id db.pos p v.once found flying)
      (All-keyed po_key (λ x. IsSafe x → IsSafe (change x)) p.id db.pos p v.once found safe)

-- ===== src/OrderChecks/Upsert.antt =====
-- `_upsert_check` of backend/src/erp/order/checks.py: which row it leaves under which key.
use erp_all.Prelude.{
  ℕ, ◌≡◌, refl, sym, ap, ◌∙◌, subst, Bool, true, false, Option, none, some, List, [], ◌∷◌, arith,
  ◌&&◌, ◌==◌, ==-refl, ==→eq, Bool-cases, Option-cases, inl, inr, find_first, find_first-eq_some,
  find_first-append, find_first-append_none, find_first-none, find_first-update_where,
  find_first-update_ne, any_row, any_row-eq_false,
}
use erp_all.OrderChecks.{
  Kind, phishing, purchaser, price_limit, consistency, Result, pass, flagged, Detail, Check,
}
use erp_all.OrderChecks.Run.{
  kind_eq, is_flagged, is_check, is_stuck, rechecked, new_check, put_check, upsert_check,
}

kind_eq_refl : (k : Kind) → kind_eq k k ≡ true
unfolding kind_eq
kind_eq_refl phishing = refl
kind_eq_refl purchaser = refl
kind_eq_refl price_limit = refl
kind_eq_refl consistency = refl

is_flagged-eq_true : (r : Result) → is_flagged r ≡ true → r ≡ flagged
is_flagged-eq_true flagged h = refl
is_flagged-eq_true pass h = absurd (cc)

-- The key's row after the upsert carries the result that is returned.
abbrev pub Stores : ℕ → ℕ → Kind → Result → List Check → Type 0
Stores order date kind r checks =
    (c : Check) × (find_first (is_check order date kind) checks ≡ some c) × (c.result ≡ r)

module _ (team order date : ℕ) (kind : Kind) (result : Result) (detail : Detail) where
  put_check-Stores :
      (checks : List Check)
      → Stores order date kind result (put_check team order date kind result detail checks)
  unfolding put_check
  put_check-Stores checks = elim (Bool-cases (any_row (is_check order date kind) checks)) [
    | inr e ↦
        let row = new_check team order date kind result detail in
        let own : is_check order date kind row ≡ true =
          rw (==-refl order, ==-refl date, kind_eq_refl kind) refl in
        rw e (
          row,
          find_first-append_none (is_check order date kind) checks row
              (find_first-none (is_check order date kind) checks e) own,
          refl,
        )
    | inl e ↦ elim (Option-cases (find_first (is_check order date kind) checks)) [
      | inl n ↦
          let no : true ≡ false = sym e ∙ any_row-eq_false (is_check order date kind) checks n in
          absurd (cc)
      | inr (c, f) ↦
          let (d, g, r) =
            find_first-update_where
              (λ (x y : Check). is_check order date kind x ≡ true → y.result ≡ result)
              (is_check order date kind) (is_check order date kind) (rechecked result detail) checks
              c (λ x off on. absurd (cc)) (λ x t. (refl, λ _. refl)) f in
          rw e (d, g, r (find_first-eq_some (is_check order date kind) checks f).0)
    ]
  ]

  stuck-Stores :
      (k : Kind) (o : Option Check) (checks : List Check)
      → find_first (is_check order date k) checks ≡ o
      → is_stuck k o ≡ true
      → Stores order date k flagged checks
  stuck-Stores phishing (some c) checks f s = (c, f, is_flagged-eq_true c.result (ground arith))
  stuck-Stores phishing none checks f s = absurd (cc)
  stuck-Stores purchaser o checks f s = absurd (cc)
  stuck-Stores price_limit o checks f s = absurd (cc)
  stuck-Stores consistency o checks f s = absurd (cc)

  pub upsert_check-Stores :
      (checks : List Check)
      → let (after, r) = upsert_check team order date kind result detail checks in
        Stores order date kind r after
  unfolding upsert_check
  upsert_check-Stores checks =
      let row = find_first (is_check order date kind) checks in
      elim (Bool-cases (is_stuck kind row)) [
        | inl e ↦ rw e (stuck-Stores kind row checks refl e)
        | inr e ↦ rw e (put_check-Stores checks)
      ]

  -- No row of another key is touched.
  put_check-ne :
      (sel : Check → Bool) (checks : List Check) (c : Check)
      → ((x : Check) → is_check order date kind x ≡ true → sel x ≡ false)
      → ((x : Check) → sel (rechecked result detail x) ≡ sel x)
      → find_first sel checks ≡ some c
      → find_first sel (put_check team order date kind result detail checks) ≡ some c
  unfolding put_check
  put_check-ne sel checks c other same f =
      elim (Bool-cases (any_row (is_check order date kind) checks)) [
        | inl e ↦ rw e (
            find_first-update_ne sel (is_check order date kind) (rechecked result detail) checks
              (λ x t. (other x t, same x ∙ other x t))
            ∙ f)
        | inr e ↦
            rw e
              (find_first-append sel checks (new_check team order date kind result detail ∷ []) c f)
      ]

  pub upsert_check-ne :
      (sel : Check → Bool) (checks : List Check) (c : Check)
      → ((x : Check) → is_check order date kind x ≡ true → sel x ≡ false)
      → ((x : Check) → sel (rechecked result detail x) ≡ sel x)
      → find_first sel checks ≡ some c
      → find_first sel (upsert_check team order date kind result detail checks).0 ≡ some c
  unfolding upsert_check
  upsert_check-ne sel checks c other same f =
      elim (Bool-cases (is_stuck kind (find_first (is_check order date kind) checks))) [
        | inl e ↦ rw e f
        | inr e ↦ rw e (put_check-ne sel checks c other same f)
      ]

-- The row of a phishing flag that nobody has resolved.
pub record IsSticky (order date : ℕ) (checks : List Check) (c : Check) : Type 0 where
  pub found : find_first (is_check order date phishing) checks ≡ some c
  pub raised : c.result ≡ flagged
  pub unresolved : c.resolved_at ≡ none

kind_eq_sound : (j k : Kind) → kind_eq j k ≡ true → j ≡ k
unfolding kind_eq
kind_eq_sound j k h = ground arith

pub upsert_check-stuck :
    (order date : ℕ) (c : Check) (team : ℕ) (r : Result) (dt : Detail) (checks : List Check)
    → IsSticky order date checks c
    → upsert_check team order date phishing r dt checks ≡ (checks, flagged)
unfolding upsert_check
upsert_check-stuck order date c team r dt checks s =
    let stuck : is_stuck phishing (find_first (is_check order date phishing) checks) ≡ true =
      rw (s.found) (rw (s.raised, s.unresolved) refl) in
    rw stuck refl

-- The two keys are one where a row has both.
one_key :
    (order date o d : ℕ) (k : Kind) (x : Check)
    → is_check o d k x ≡ true
    → is_check order date phishing x ≡ true
    → (o ≡ order) × (d ≡ date) × (k ≡ phishing)
one_key order date o d k x h p =
    let a = ==→eq x.order_id o (ground arith) in
    let b = ==→eq x.order_id order (ground arith) in
    let e = ==→eq x.order_date d (ground arith) in
    let f = ==→eq x.order_date date (ground arith) in
    let i = kind_eq_sound x.kind k (ground arith) in
    let j = kind_eq_sound x.kind phishing (ground arith) in (sym a ∙ b, sym e ∙ f, sym i ∙ j)

same_upsert :
    (order date : ℕ) (c : Check) (team o d : ℕ) (k : Kind) (r : Result) (dt : Detail)
    (checks : List Check)
    → o ≡ order
    → d ≡ date
    → k ≡ phishing
    → IsSticky order date checks c
    → (upsert_check team o d k r dt checks).0 ≡ checks
same_upsert order date c team o d k r dt checks p q t s =
    rw (p, q, t)
      (ap (λ (out : List Check × Result). out.0)
        (upsert_check-stuck order date c team r dt checks s))

pub upsert_check-IsSticky :
    (order date : ℕ) (c : Check) (team o d : ℕ) (k : Kind) (r : Result) (dt : Detail)
    (checks : List Check)
    → IsSticky order date checks c
    → IsSticky order date (upsert_check team o d k r dt checks).0 c
upsert_check-IsSticky order date c team o d k r dt checks s =
    elim (Bool-cases ((o == order) && ((d == date) && kind_eq k phishing))) [
      | inl e ↦
          let p = ==→eq o order (ground arith) in
          let q = ==→eq d date (ground arith) in
          let t = kind_eq_sound k phishing (ground arith) in
          subst (λ cs. IsSticky order date cs c)
            (sym (same_upsert order date c team o d k r dt checks p q t s)) s
      | inr e ↦ record {
        found =
            upsert_check-ne team o d k r dt (is_check order date phishing) checks c
              (λ x h. elim (Bool-cases (is_check order date phishing x)) [
                | inr n ↦ n
                | inl y ↦
                    let (p, q, t) = one_key order date o d k x h y in
                    let all : ((o == order) && ((d == date) && kind_eq k phishing)) ≡ true =
                      rw (p, q, t) (rw (==-refl order, ==-refl date, kind_eq_refl phishing) refl) in
                    let no : true ≡ false = sym all ∙ e in absurd (cc)
              ])
              (λ x. refl) s.found;
        raised = s.raised;
        unresolved = s.unresolved;
      }
    ]

-- What a key's row stores survives the upsert of another kind.
pub Stores-ne :
    (team order date : ℕ) (k j : Kind) (r : Result) (v : Result × Detail) (checks : List Check)
    → kind_eq j k ≡ false
    → Stores order date k r checks
    → Stores order date k r (upsert_check team order date j v.0 v.1 checks).0
Stores-ne team order date k j r v checks ne (c, f, e) = (
  c,
  upsert_check-ne team order date j v.0 v.1 (is_check order date k) checks c
      (λ x h. elim (Bool-cases (is_check order date k x)) [
        | inr n ↦ n
        | inl y ↦
            let p = kind_eq_sound x.kind j (ground arith) in
            let q = kind_eq_sound x.kind k (ground arith) in
            let t : kind_eq j k ≡ true =
              subst (λ i. kind_eq i k ≡ true) (sym q ∙ p) (kind_eq_refl k) in
            let no : true ≡ false = sym t ∙ ne in absurd (cc)
      ])
      (λ x. refl) f,
  e,
)

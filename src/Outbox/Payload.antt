-- ===== src/Outbox/Payload.antt =====
-- `scan_forbidden_keys` of backend/src/erp/channel/outbox.py: a payload may have no key, at any depth,
-- whose lower-case form contains one of the forbidden parts. `lower` stands for `str(key).lower()`.
use erp_all.Prelude.{
  ℕ, suc, String, ◌≡◌, refl, ◌↔◌, Bool, true, false, Option, none, some, List, [], ◌∷◌, any_row,
  if◌then◌else◌,
}
use erp_all.Prelude.Text.{codes, contains}

-- The JSON value of a payload.
mutual
  pub data Json : Type 0 where
    null : Json
    bool : Bool → Json
    num : String → Json
    str : String → Json
    arr : Items → Json
    obj : Fields → Json

  pub data Items : Type 0 where
    nil : Items
    cons : Json → Items → Items

  pub data Fields : Type 0 where
    end : Fields
    field : String → Json → Fields → Fields

-- A step of the path that the scan returns: `.key` or `[i]`.
pub data Step : Type 0 where
  key : String → Step
  index : ℕ → Step

-- `_FORBIDDEN_KEY_PARTS`
abbrev pub forbidden_parts : List (List ℕ)
forbidden_parts =
    codes "authorization"
    ∷ codes "token"
    ∷ codes "secret"
    ∷ codes "password"
    ∷ codes "credential"
    ∷ codes "proxy"
    ∷ []

unfoldable pub is_forbidden : (String → List ℕ) → String → Bool
unfolding contains
is_forbidden lower k = any_row (λ part. contains part (lower k)) forbidden_parts

-- The rest of the search where the first part found nothing.
abbrev or_else : Option (List Step) → Option (List Step) → Option (List Step)
or_else none next = next
or_else (some p) next = some p

abbrev prefix_step : Step → Option (List Step) → Option (List Step)
prefix_step s none = none
prefix_step s (some p) = some (s ∷ p)

unfoldable mutual
  -- The path of the first forbidden key, from the node down; `none` is a clean node.
  pub scan_forbidden_keys : (String → List ℕ) → Json → Option (List Step)
  scan_forbidden_keys lower (arr items) = scan_items lower 0 items
  scan_forbidden_keys lower (obj fields) = scan_fields lower fields
  scan_forbidden_keys lower _ = none

  pub scan_items : (String → List ℕ) → ℕ → Items → Option (List Step)
  scan_items lower i nil = none
  scan_items lower i (cons j items) =
      or_else (prefix_step (index i) (scan_forbidden_keys lower j)) (scan_items lower (suc i) items)

  pub scan_fields : (String → List ℕ) → Fields → Option (List Step)
  scan_fields lower end = none
  scan_fields lower (field k j fields) =
      if is_forbidden lower k
      then some (key k ∷ [])
      else or_else (prefix_step (key k) (scan_forbidden_keys lower j)) (scan_fields lower fields)

-- The key stands somewhere in the value, at any depth.
mutual
  pub data HasKey : String → Json → Type 0 where
    in_arr : {k : String} {items : Items} → HasKeyItems k items → HasKey k (arr items)
    in_obj : {k : String} {fields : Fields} → HasKeyFields k fields → HasKey k (obj fields)

  pub data HasKeyItems : String → Items → Type 0 where
    head : {k : String} {j : Json} {items : Items} → HasKey k j → HasKeyItems k (cons j items)
    tail :
        {k : String} {j : Json} {items : Items} → HasKeyItems k items → HasKeyItems k (cons j items)

  pub data HasKeyFields : String → Fields → Type 0 where
    here : {k : String} {j : Json} {fields : Fields} → HasKeyFields k (field k j fields)
    inside :
        {k l : String} {j : Json} {fields : Fields} → HasKey k j → HasKeyFields k (field l j fields)
    later :
        {k l : String} {j : Json} {fields : Fields}
        → HasKeyFields k fields
        → HasKeyFields k (field l j fields)

or_else-eq_none :
    (s : Step) (found next : Option (List Step))
    → or_else (prefix_step s found) next ≡ none
    → (found ≡ none) × (next ≡ none)
or_else-eq_none s none next e = (refl, e)
or_else-eq_none s (some p) next e = absurd (cc)

if-eq_none :
    (b : Bool) (path : List Step) (next : Option (List Step))
    → (if b then some path else next) ≡ none
    → (b ≡ false) × (next ≡ none)
if-eq_none true path next e = absurd (cc)
if-eq_none false path next e = (refl, e)

mutual
  unfolding scan_forbidden_keys scan_items scan_fields

  clean_value :
      (lower : String → List ℕ) (j : Json) {k : String}
      → scan_forbidden_keys lower j ≡ none
      → HasKey k j
      → is_forbidden lower k ≡ false
  clean_value lower (arr items) e (in_arr h) = clean_items lower 0 items e h
  clean_value lower (obj fields) e (in_obj h) = clean_fields lower fields e h
  clean_value lower null e h = elim h [ ]
  clean_value lower (bool b) e h = elim h [ ]
  clean_value lower (num n) e h = elim h [ ]
  clean_value lower (str t) e h = elim h [ ]

  clean_items :
      (lower : String → List ℕ) (i : ℕ) (items : Items) {k : String}
      → scan_items lower i items ≡ none
      → HasKeyItems k items
      → is_forbidden lower k ≡ false
  clean_items lower i nil e h = elim h [ ]
  clean_items lower i (cons j items) e (head h) = clean_value lower j (or_else-eq_none _ _ _ e).0 h
  clean_items lower i (cons j items) e (tail h) =
      clean_items lower (suc i) items (or_else-eq_none _ _ _ e).1 h

  clean_fields :
      (lower : String → List ℕ) (fields : Fields) {k : String}
      → scan_fields lower fields ≡ none
      → HasKeyFields k fields
      → is_forbidden lower k ≡ false
  clean_fields lower end e h = elim h [ ]
  clean_fields lower (field k j fields) e here = (if-eq_none _ _ _ e).0
  clean_fields lower (field l j fields) e (inside h) =
      clean_value lower j (or_else-eq_none _ _ _ (if-eq_none _ _ _ e).1).0 h
  clean_fields lower (field l j fields) e (later h) =
      clean_fields lower fields (or_else-eq_none _ _ _ (if-eq_none _ _ _ e).1).1 h

abbrev AllClean : (String → List ℕ) → (String → Type 0) → Type 0
AllClean lower Has = (k : String) → Has k → is_forbidden lower k ≡ false

mutual
  unfolding scan_forbidden_keys scan_items scan_fields

  scan_clean :
      (lower : String → List ℕ) (j : Json)
      → AllClean lower (λ k. HasKey k j)
      → scan_forbidden_keys lower j ≡ none
  scan_clean lower null h = refl
  scan_clean lower (bool b) h = refl
  scan_clean lower (num n) h = refl
  scan_clean lower (str t) h = refl
  scan_clean lower (arr items) h = scan_clean_items lower 0 items (λ k i. h k (in_arr i))
  scan_clean lower (obj fields) h = scan_clean_fields lower fields (λ k i. h k (in_obj i))

  scan_clean_items :
      (lower : String → List ℕ) (i : ℕ) (items : Items)
      → AllClean lower (λ k. HasKeyItems k items)
      → scan_items lower i items ≡ none
  scan_clean_items lower i nil h = refl
  scan_clean_items lower i (cons j items) h = rw (
    scan_clean lower j (λ k g. h k (head g)),
    scan_clean_items lower (suc i) items (λ k g. h k (tail g)),
  )

  scan_clean_fields :
      (lower : String → List ℕ) (fields : Fields)
      → AllClean lower (λ k. HasKeyFields k fields)
      → scan_fields lower fields ≡ none
  scan_clean_fields lower end h = refl
  scan_clean_fields lower (field l j fields) h = rw (
    h l here,
    scan_clean lower j (λ k g. h k (inside g)),
    scan_clean_fields lower fields (λ k g. h k (later g)),
  )

-- The scan finds nothing exactly when no key of the payload, at any depth and inside lists too, has a
-- forbidden part in its lower-case form.
pub scan_forbidden_keys_iff :
    (lower : String → List ℕ) (j : Json)
    → (scan_forbidden_keys lower j ≡ none)
      ↔ ((k : String) → HasKey k j → is_forbidden lower k ≡ false)
scan_forbidden_keys_iff lower j = (λ e k h. clean_value lower j e h, scan_clean lower j)

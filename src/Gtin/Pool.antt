-- ===== src/Gtin/Pool.antt =====
-- backend/src/erp/listing/gtin.py: the table `gtin_pool`, the import of numbers, and `hold_one`,
-- `mark_used` and `release`, each one statement on the table.
use erp_all.Prelude.{
  ℕ, suc, String, Bool, false, not, Option, none, some, List, [], ◌∷◌, ◌++◌, ◌&&◌, ◌||◌, ◌==◌, leb,
  if◌then◌else◌, length, map, any_row,
}
use erp_all.Prelude.Text.{text_eq}
use erp_all.Gtin.{Text, upc_a_len, is_gtin, checksum_ok, effective_first_digit}

pub data Status : Type 0 where
  free held used conflict invalid : Status

-- A row of `gtin_pool`, without the columns that only record who and when.
pub record Row : Type 0 where
  pub id : ℕ
  pub team_id : ℕ
  pub gtin : Text
  pub gtin_kind : String
  pub status : Status
  pub source : String
  pub held_listing_id : Option ℕ
  pub used_listing_id : Option ℕ

-- The JSON value of a setting: an array, its items already through `str`, or something else.
pub data Setting (A : Type 0) : Type 0 where
  items : List A → Setting A
  other : Setting A

pub record Db : Type 0 where
  pub rows : List Row
  pub next_id : ℕ
  pub team_prefixes : ℕ → Option (Setting Text)
  pub system_prefixes : Option (Setting Text)
  pub team_kinds : ℕ → Option (Setting String)
  pub system_kinds : Option (Setting String)

abbrev pub row_id : Row → ℕ
row_id r = r.id

-- `row is not None and isinstance(row[0], list) and row[0]`
abbrev usable : {A : Type 0} → Option (Setting A) → Option (List A)
usable (some (items (x ∷ xs))) = some (x ∷ xs)
usable _ = none

-- The loop over the two queries, and the default after it.
abbrev pub first_usable : {A : Type 0} → Option (Setting A) → Option (Setting A) → List A → List A
first_usable team system default = elim (usable team) [
  | some xs ↦ xs
  | none ↦ elim (usable system) [ some xs ↦ xs | none ↦ default ]
]

abbrev pub default_safe_prefixes : List Text
default_safe_prefixes =
    (b'0' ∷ []) ∷ (b'1' ∷ []) ∷ (b'6' ∷ []) ∷ (b'7' ∷ []) ∷ (b'8' ∷ []) ∷ (b'9' ∷ []) ∷ []

abbrev pub default_kind_preference : List String
default_kind_preference = "upc_a" ∷ "ean_13" ∷ []

unfoldable pub safe_prefixes : Db → ℕ → List Text
safe_prefixes db team =
    first_usable (db.team_prefixes team) db.system_prefixes default_safe_prefixes

unfoldable pub kind_preference : Db → ℕ → List String
kind_preference db team = first_usable (db.team_kinds team) db.system_kinds default_kind_preference

-- `str.isspace` of one character.
abbrev is_space : ℕ → Bool
is_space c =
    (leb 9 c && leb c 13)
    || (leb 28 c && leb c 32)
    || (c == 133)
    || (c == 160)
    || (c == 5760)
    || (leb 8192 c && leb c 8202)
    || (c == 8232)
    || (c == 8233)
    || (c == 8239)
    || (c == 8287)
    || (c == 12288)

lstrip : Text → Text
lstrip [] = []
lstrip (c ∷ cs) = if is_space c then lstrip cs else c ∷ cs

rstrip : Text → Text
rstrip [] = []
rstrip (c ∷ cs) = elim (rstrip cs) [ [] ↦ if is_space c then [] else c ∷ [] | d ∷ ds ↦ c ∷ d ∷ ds ]

-- `str.strip()`
unfoldable pub strip : Text → Text
unfolding lstrip rstrip
strip s = rstrip (lstrip s)

-- The keys of `dict.fromkeys`, `seen` being the keys before.
unfoldable pub fresh_keys : List Text → List Text → List Text
fresh_keys seen [] = []
fresh_keys seen (g ∷ gs) =
    let later = fresh_keys (g ∷ seen) gs in
    let same = fresh_keys seen gs in if any_row (text_eq g) seen then same else g ∷ later

pub data Code : Type 0 where
  gtin_format gtin_checksum gtin_unsafe_prefix gtin_duplicate : Code

abbrev is_safe : List Text → Option ℕ → Bool
is_safe safe none = false
is_safe safe (some c) = any_row (text_eq (c ∷ [])) safe

-- The three tests before the INSERT, in order.
unfoldable pub reject_code : List Text → Text → Option Code
unfolding is_gtin checksum_ok effective_first_digit
reject_code safe raw =
    if not (is_gtin raw)
    then some gtin_format
    else if not (checksum_ok raw)
    then some gtin_checksum
    else if not (is_safe safe (effective_first_digit raw))
    then some gtin_unsafe_prefix
    else none

abbrev pub kind_of : Text → String
kind_of raw = if length raw == upc_a_len then "upc_a" else "ean_13"

unfoldable pub new_row : Db → ℕ → String → Text → Row
new_row db team source raw = record {
  id = db.next_id;
  team_id = team;
  gtin = raw;
  gtin_kind = kind_of raw;
  status = free;
  source = source;
  held_listing_id = none;
  used_listing_id = none;
}

-- What the import has done so far.
pub record Import : Type 0 where
  pub db : Db
  pub imported : ℕ
  pub rejected : List (Text × Code)

abbrev pub reject : Text → Code → Import → Import
reject raw code s = record s { rejected = s.rejected ++ ((raw, code) ∷ []) }

-- INSERT … ON CONFLICT (gtin) DO NOTHING
unfoldable pub insert_gtin : ℕ → String → Text → Import → Import
unfolding new_row
insert_gtin team source raw s =
    if any_row (λ (r : Row). text_eq raw r.gtin) s.db.rows
    then reject raw gtin_duplicate s
    else record s {
      db = record s.db {
        rows = s.db.rows ++ (new_row s.db team source raw ∷ []);
        next_id = suc s.db.next_id;
      };
      imported = suc s.imported;
    }

unfoldable pub import_one : ℕ → String → List Text → Text → Import → Import
unfolding insert_gtin reject_code
import_one team source safe raw s = elim (reject_code safe raw) [
  | some code ↦ reject raw code s
  | none ↦ insert_gtin team source raw s
]

unfoldable pub import_loop : ℕ → String → List Text → List Text → Import → Import
unfolding import_one
import_loop team source safe [] s = s
import_loop team source safe (raw ∷ raws) s =
    import_loop team source safe raws (import_one team source safe raw s)

unfoldable pub import_batch : Db → ℕ → List Text → String → Import
unfolding import_loop safe_prefixes strip fresh_keys
import_batch db team gtins source =
    import_loop team source (safe_prefixes db team) (fresh_keys [] (map strip gtins))
      (record { db = db; imported = 0; rejected = [] })

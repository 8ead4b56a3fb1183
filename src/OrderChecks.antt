-- ===== src/OrderChecks.antt =====
-- backend/src/erp/order/checks.py: the four checks of an order. This file has the tables and the check on
-- addresses; OrderChecks/Run has the other checks and the upsert, OrderChecks/Orders the whole run.
pub mod Run
pub mod Orders
pub mod Phishing
pub mod Upsert
pub mod Flags
mod Tests
use erp_all.Prelude.{
  ℕ, suc, Bool, true, false, not, Option, none, some, List, [], ◌∷◌, ◌++◌, ◌&&◌, ◌||◌, ◌==◌, leb,
  if◌then◌else◌, length, find_first, any_row,
}
use erp_all.Prelude.Text.{text_eq, contains}

abbrev pub Text : Type 0
Text = List ℕ

-- `CHECK_KINDS`
pub data Kind : Type 0 where
  phishing purchaser price_limit consistency : Kind

pub data Result : Type 0 where
  pass flagged : Result

-- The JSON detail of a check, as far as the checks write it.
pub data Detail : Type 0 where
  nothing no_active_purchaser : Detail
  hits : Option ℕ → Option ℕ → Detail
  prices : List Text → List Text → Detail
  titles : List Text → List (Text × Text) → Detail

-- A row of `order_check`.
pub record Check : Type 0 where
  pub team_id : ℕ
  pub order_id : ℕ
  pub order_date : ℕ
  pub kind : Kind
  pub result : Result
  pub detail : Detail
  pub resolved_by : Option ℕ
  pub resolved_at : Option ℕ

-- A row of `blacklist_address` or `blacklist_zip`, with its normalised text.
pub record Listed : Type 0 where
  pub id : ℕ
  pub active : Bool
  pub team_id : Option ℕ
  pub text : Text

pub record ShipTo : Type 0 where
  pub address1 : Text
  pub address2 : Text
  pub postal_code : Text

pub data InternalStatus : Type 0 where
  pulled checked later : InternalStatus

pub record Order : Type 0 where
  pub id : ℕ
  pub order_date : ℕ
  pub ship_to : ShipTo
  pub internal_status : InternalStatus
  pub has_flag : Bool

pub record Line (Num : Type 0) : Type 0 where
  pub order_id : ℕ
  pub order_date : ℕ
  pub channel_line_no : Text
  pub product_id : Option ℕ
  pub unit_price : Num

pub record Product (Num : Type 0) : Type 0 where
  pub id : ℕ
  pub title : Text
  pub list_price : Option Num

pub record Purchaser (Num : Type 0) : Type 0 where
  pub team_id : ℕ
  pub active : Bool
  pub exchange_rate : Num

-- The object of the setting `order.checks`; a missing key keeps what was there.
pub record Setting (Num : Type 0) : Type 0 where
  pub margin_factor : Option Num
  pub usd_rmb_rate : Option Num
  pub consistency_ratio : Option Num

pub record Db (Num : Type 0) : Type 0 where
  pub orders : List Order
  pub lines : List (Line Num)
  pub products : List (Product Num)
  pub purchasers : List (Purchaser Num)
  pub addresses : List Listed
  pub zips : List Listed
  pub checks : List Check
  pub team_setting : ℕ → Option (Setting Num)
  pub system_setting : Option (Setting Num)
  pub notices : List (ℕ × List Kind)

-- What the checks take from Python: floats, `str.upper`, `str.lower` and `SequenceMatcher.ratio`.
pub record Python (Num : Type 0) : Type 0 where
  pub times : Num → Num → Num
  pub divided : Num → Num → Num
  pub exceeds : Num → Num → Bool
  pub default_margin : Num
  pub default_rate : Num
  pub default_ratio : Num
  pub upper : Text → Text
  pub lower : Text → Text
  pub ratio : Text → Text → Num

abbrev keep : (ℕ → Bool) → Text → Text
keep test [] = []
keep test (c ∷ cs) = let rest = keep test cs in if test c then c ∷ rest else rest

abbrev is_digit : ℕ → Bool
is_digit c = leb b'0' c && leb c b'9'

abbrev is_capital : ℕ → Bool
is_capital c = leb b'A' c && leb c b'Z'

abbrev is_small : ℕ → Bool
is_small c = leb b'a' c && leb c b'z'

abbrev first_five : Text → Text
first_five (a ∷ b ∷ c ∷ d ∷ e ∷ rest) = a ∷ b ∷ c ∷ d ∷ e ∷ []
first_five short = short

unfoldable pub normalize_street : (upper : Text → Text) → Text → Text
normalize_street upper value = keep (λ c. is_digit c || is_capital c) (upper value)

unfoldable pub normalize_zip5 : Text → Text
normalize_zip5 value = first_five (keep is_digit value)

unfoldable pub title_norm : (lower : Text → Text) → Text → Text
title_norm lower value = keep (λ c. is_digit c || (is_small c || (c == b' '))) (lower value)

abbrev pub min_blacklist_len : ℕ
min_blacklist_len = 8

abbrev pub is_for_team : ℕ → Option ℕ → Bool
is_for_team team none = true
is_for_team team (some t) = t == team

abbrev pub is_empty : Text → Bool
is_empty [] = true
is_empty (c ∷ cs) = false

-- The WHERE of the two look-ups.
abbrev pub address_hits : ℕ → Text → Listed → Bool
address_hits team street b =
    b.active
    && (is_for_team team b.team_id
        && (leb min_blacklist_len (length b.text)
            && (contains b.text street || contains street b.text)))

abbrev pub zip_hits : ℕ → Text → Listed → Bool
zip_hits team zip5 b = b.active && (is_for_team team b.team_id && text_eq b.text zip5)

abbrev pub look_up : (Listed → Bool) → Text → List Listed → Option Listed
look_up test asked rows = if is_empty asked then none else find_first test rows

abbrev pub hit_id : Option Listed → Option ℕ
hit_id none = none
hit_id (some b) = some b.id

abbrev pub judged : Option Listed → Option Listed → Result × Detail
judged none none = (pass, nothing)
judged addr zip = (flagged, hits (hit_id addr) (hit_id zip))

unfoldable pub street_of : {Num : Type 0} → Python Num → ShipTo → Text
unfolding normalize_street
street_of py ship = normalize_street py.upper (ship.address1 ++ ship.address2)

unfoldable pub check_phishing : {Num : Type 0} → Python Num → Db Num → ℕ → ShipTo → Result × Detail
check_phishing py db team ship =
    let street = street_of py ship in
    let zip5 = normalize_zip5 ship.postal_code in
    judged (look_up (address_hits team street) street db.addresses)
      (look_up (zip_hits team zip5) zip5 db.zips)

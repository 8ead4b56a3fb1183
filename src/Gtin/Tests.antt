-- ===== src/Gtin/Tests.antt =====
-- Concrete runs of backend/src/erp/listing/gtin.py: two numbers are imported, held, published and given
-- back.
use erp_all.Prelude.{
  ℕ, ◌+◌, ◌≡◌, ◌≢◌, refl, Bool, true, false, none, some, List, [], ◌∷◌, ◌++◌, arith, ok, All,
  length, map, find_key,
}
use erp_all.Prelude.Text.{codes}
use erp_all.Gtin.{Text, checksum_ok}
use erp_all.Gtin.Pool.{
  free, held, used, Row, Db, row_id, import_batch, gtin_format, gtin_checksum, gtin_unsafe_prefix,
  safe_prefixes, strip, fresh_keys,
}
use erp_all.Gtin.Occupation.{hold_one, Op, add, hold, publish, give_back, run}
use erp_all.Gtin.Moves.{IsPool}
use erp_all.Gtin.Checksum.{checksum_ok_one_digit}
use erp_all.Gtin.Imports.{Accounted, import_batch-accounts}
use erp_all.Gtin.Exclusive.{run-IsPool, used_for_ever, held_once}

abbrev number : Text
number = codes "036000291452"

number_passes : checksum_ok number ≡ true
unfolding checksum_ok
number_passes = refl

checksum_ok_one_digit_example : checksum_ok (codes "036000291" ++ b'5' ∷ codes "52") ≡ false
checksum_ok_one_digit_example =
    checksum_ok_one_digit (codes "036000291") (codes "52") b'4' b'5' refl refl (λ e. omega arith)
      number_passes

-- Five apart: both orders pass.
abbrev five_apart : Text
five_apart = codes "0000000005"

abbrev zero_digit : ℕ
zero_digit = b'0'

abbrev five_digit : ℕ
five_digit = b'5'

abbrev start : Db
start = record {
  rows = [];
  next_id = 1;
  team_prefixes = λ _. none;
  system_prefixes = none;
  team_kinds = λ _. none;
  system_kinds = none;
}

abbrev given : List Text
given =
    codes " 036000291452 "
    ∷ codes "036000291452"
    ∷ codes "036000291453"
    ∷ codes "12"
    ∷ codes "4006381333931"
    ∷ []

start-IsPool : IsPool start
start-IsPool = record { ids = tt; gtins = tt; below = tt; numbers = tt }

abbrev first : Row
first = record {
  id = 1;
  team_id = 7;
  gtin = number;
  gtin_kind = "upc_a";
  status = free;
  source = "generator_import";
  held_listing_id = none;
  used_listing_id = none;
}

abbrev stocked : Db
stocked = record start { rows = first ∷ []; next_id = 2 }

imports : import_batch start 7 given "generator_import" ≡ record {
  db = stocked;
  imported = 1;
  rejected =
      (codes "036000291453", gtin_checksum)
      ∷ (codes "12", gtin_format)
      ∷ (codes "4006381333931", gtin_unsafe_prefix)
      ∷ [];
}
unfolding import_batch
imports = refl

-- The same number as a twelve-digit and as a thirteen-digit text gives two rows.
imported_twice :
    (import_batch stocked 7 (codes "0036000291452" ∷ []) "generator_import").imported ≡ 1
unfolding import_batch
imported_twice = refl

import_batch-accounts_example :
    let s = import_batch start 7 given "generator_import" in
    IsPool s.db
    × All (λ g. Accounted 7 "generator_import" (safe_prefixes start 7) (strip g) s) given
    × (s.imported + length s.rejected ≡ length (fresh_keys [] (map strip given)))
    × (length s.db.rows ≡ length start.rows + s.imported)
import_batch-accounts_example = import_batch-accounts start 7 given "generator_import" start-IsPool

abbrev any_offered : Row → Bool
any_offered r = true

abbrev life : List Op
life = add 7 given "generator_import" ∷ hold any_offered 7 40 none ∷ publish 40 ∷ give_back 40 ∷ []

run-IsPool_example : IsPool (run life start)
run-IsPool_example = run-IsPool life start start-IsPool

abbrev bound : Row
bound = record first { status = used; held_listing_id = some 40; used_listing_id = some 40 }

lives : (run life start).rows ≡ bound ∷ []
unfolding run import_batch
lives = refl

numbered : find_key row_id 1 (run life start).rows ≡ some bound
numbered = rw lives refl

used_for_ever_example : find_key row_id 1 (run life (run life start)).rows ≡ some bound
used_for_ever_example = used_for_ever life (run life start) 1 bound run-IsPool_example numbered refl

abbrev second : Row
second = record first { id = 2; gtin = codes "0036000291452"; gtin_kind = "ean_13" }

abbrev both : Db
both = (import_batch start 7 (number ∷ codes "0036000291452" ∷ []) "purchased").db

both-IsPool : IsPool both
both-IsPool =
    (import_batch-accounts start 7 (number ∷ codes "0036000291452" ∷ []) "purchased" start-IsPool).0

abbrev held_first : Db
held_first = record both {
  rows =
      record first { source = "purchased"; status = held; held_listing_id = some 40 }
      ∷ record second { source = "purchased" }
      ∷ [];
}

holds_first : hold_one any_offered both 7 40 none ≡ ok (held_first, number)
unfolding hold_one import_batch
holds_first = refl

abbrev later_ops : List Op
later_ops = give_back 41 ∷ add 7 given "generator_import" ∷ []

abbrev held_both : Db
held_both = record both {
  rows =
      record first { source = "purchased"; status = held; held_listing_id = some 40 }
      ∷ record second { source = "purchased"; status = held; held_listing_id = some 41 }
      ∷ [];
}

holds_second :
    hold_one any_offered (run later_ops held_first) 7 41 none
    ≡ ok (held_both, codes "0036000291452")
unfolding hold_one run import_batch
holds_second = refl

held_once_example : codes "0036000291452" ≢ number
held_once_example =
    held_once any_offered any_offered both 7 40 none held_first number later_ops 7 41 none held_both
      (codes "0036000291452") both-IsPool holds_first ((λ e. omega arith), (tt, tt)) holds_second

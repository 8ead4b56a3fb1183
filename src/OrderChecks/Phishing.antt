-- ===== src/OrderChecks/Phishing.antt =====
-- Which orders the phishing check of backend/src/erp/order/checks.py flags.
use erp_all.Prelude.{◌≡◌, Bool, true, false, List, In}
use erp_all.OrderChecks.{Text, Listed, is_empty}

-- The text asked for is not empty, and a listed one matches.
abbrev pub Matches : (Listed → Bool) → Text → List Listed → Type 0
Matches test asked rows = (is_empty asked ≡ false) × ((b : Listed) × In b rows × (test b ≡ true))

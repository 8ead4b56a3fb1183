-- ===== src/RateLimit/Registry.antt =====
-- backend/src/erp/channel/gateway/rate_limiter.py: the table of limits and the registry of buckets, one
-- for each store and endpoint.
use erp_all.Prelude.{
  ℕ, ◌*◌, ◌/◌, Bool, false, Option, none, some, List, [], ◌∷◌, ◌++◌, ◌==◌, String, max, find_first,
  if◌then◌else◌,
}
use erp_all.Prelude.Text.{codes, text_eq, starts_with}
use erp_all.RateLimit.{RateLimit, Bucket, new_bucket, acquire, update_from_walmart_headers}

abbrev pub Text : Type 0
Text = List ℕ

-- `WALMART_ENDPOINT_LIMITS`, periods in milliseconds; the last entry is the default.
abbrev pub walmart_endpoint_limits : List (Text × RateLimit)
walmart_endpoint_limits =
    (codes "POST /v3/feeds:PRICE_AND_PROMOTION", record { limit = 10; period = 3600000 })
    ∷ (codes "PUT /v3/price", record { limit = 100; period = 3600000 })
    ∷ (codes "GET /v3/items?q", record { limit = 60; period = 60000 })
    ∷ (codes "GET /v3/items", record { limit = 300; period = 60000 })
    ∷ (codes "GET /v3/items/catalog/search", record { limit = 200; period = 60000 })
    ∷ (codes "GET /v3/insights/performance/*", record { limit = 1; period = 60000 })
    ∷ (codes "GET /v3/feeds", record { limit = 5000; period = 60000 })
    ∷ (codes "GET /v3/inventory", record { limit = 200; period = 60000 })
    ∷ (codes "PUT /v3/inventory", record { limit = 200; period = 60000 })
    ∷ (codes "POST /v3/feeds:MP_ITEM", record { limit = 10; period = 3600000 })
    ∷ (codes "POST /v3/feeds:MP_ITEM_MATCH", record { limit = 10; period = 3600000 })
    ∷ (codes "POST /v3/feeds:MP_MAINTENANCE", record { limit = 10; period = 3600000 })
    ∷ (codes "POST /v3/feeds:RETIRE_ITEM", record { limit = 20; period = 60000 })
    ∷ (codes "POST /v3/feeds:MP_INVENTORY", record { limit = 50; period = 3600000 })
    ∷ (codes "POST /v3/token", record { limit = 30; period = 60000 })
    ∷ (codes "GET /v3/orders", record { limit = 5000; period = 60000 })
    ∷ (codes "GET /v3/returns", record { limit = 50; period = 60000 })
    ∷ (codes "POST /v3/returns:refund", record { limit = 60; period = 60000 })
    ∷ (codes "POST /v3/orders:acknowledge", record { limit = 60; period = 60000 })
    ∷ (codes "POST /v3/orders:shipping", record { limit = 60; period = 60000 })
    ∷ (codes "_default", record { limit = 120; period = 60000 })
    ∷ []

-- What stands before the star of a pattern that ends with one.
unfoldable pub wildcard : Text → Option Text
wildcard [] = none
wildcard (c ∷ []) = if c == b'*' then some [] else none
wildcard (c ∷ d ∷ cs) = elim (wildcard (d ∷ cs)) [ none ↦ none | some part ↦ some (c ∷ part) ]

unfoldable pub pattern_fits : Text → Text → Bool
unfolding wildcard
pattern_fits endpoint pat = elim (wildcard pat) [
  | none ↦ false
  | some part ↦ starts_with part endpoint
]

-- The exact entry, else the first pattern that fits, else `_default`, which is the last entry.
abbrev pub default_limit : RateLimit
default_limit = record { limit = 120; period = 60000 }

abbrev pub is_entry : Text → Text × RateLimit → Bool
is_entry endpoint e = text_eq e.0 endpoint

abbrev pub fits_entry : Text → Text × RateLimit → Bool
fits_entry endpoint e = pattern_fits endpoint e.0

unfoldable pub limit_for : List (Text × RateLimit) → Text → RateLimit
limit_for table endpoint = elim (find_first (is_entry endpoint) table) [
  | some e ↦ e.1
  | none ↦ elim (find_first (fits_entry endpoint) table) [ some e ↦ e.1 | none ↦ default_limit ]
]

-- `_buckets`, a dict from the key to the bucket.
abbrev pub Registry : Type 0
Registry = List (Text × Bucket)

-- `f"{store_key}::{endpoint}"`
abbrev pub bucket_key : Text → Text → Text
bucket_key store endpoint = store ++ (codes "::" ++ endpoint)

unfoldable pub bucket_at : Text → Registry → Option Bucket
bucket_at k [] = none
bucket_at k ((j, b) ∷ reg) = if text_eq j k then some b else bucket_at k reg

-- The object of the key is changed in place, or the key added.
unfoldable pub put : Text → Bucket → Registry → Registry
put k b [] = (k, b) ∷ []
put k b ((j, c) ∷ reg) =
    let rest = put k b reg in if text_eq j k then (j, b) ∷ reg else (j, c) ∷ rest

abbrev found_or_new : Option Bucket → Text → Bucket
found_or_new none endpoint = new_bucket (limit_for walmart_endpoint_limits endpoint)
found_or_new (some b) endpoint = b

-- `RateLimiterRegistry.get`: the bucket, which the registry has from then on.
unfoldable pub get_bucket : Registry → Text → Text → Registry × Bucket
unfolding bucket_at put limit_for
get_bucket reg store endpoint =
    let b = found_or_new (bucket_at (bucket_key store endpoint) reg) endpoint in
    (put (bucket_key store endpoint) b reg, b)

-- The default is `max(60.0, bucket.period * 1.1)`.
abbrev pub max_wait_for : ℕ → Option ℕ → ℕ
max_wait_for period (some w) = w
max_wait_for period none = max 60000 (period * 11 / 10)

-- `RateLimiterRegistry.gate`: the time to wait, `none` being -1.
unfoldable pub gate : Registry → Text → Text → ℕ → Option ℕ → Registry × Option ℕ
unfolding get_bucket acquire put
gate reg store endpoint now max_wait =
    let (reg', b) = get_bucket reg store endpoint in
    let (b', ok, waited) = acquire b now (max_wait_for b.period max_wait) in
    (put (bucket_key store endpoint) b' reg', if ok then some waited else none)

unfoldable pub note_headers :
    (lower : String → String) (to_int : String → Option ℕ) (delta_of : String → Option ℕ)
    → Registry
    → Text
    → Text
    → ℕ
    → List (String × String)
    → Registry
unfolding get_bucket put update_from_walmart_headers
note_headers lower to_int delta_of reg store endpoint now headers =
    let (reg', b) = get_bucket reg store endpoint in
    put (bucket_key store endpoint)
      (update_from_walmart_headers lower to_int delta_of b now headers) reg'

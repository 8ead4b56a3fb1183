-- ===== src/RateLimit/Tests.antt =====
-- Concrete runs of backend/src/erp/channel/gateway/rate_limiter.py.
use erp_all.Prelude.{
  ℕ, zero, suc, ◌+◌, ◌*◌, ◌≤◌, ◌≡◌, refl, true, Option, none, List, [], ◌∷◌, arith, String,
}
use erp_all.Prelude.Text.{codes, starts_with}
use erp_all.RateLimit.{Bucket, new_bucket, granted, acquire, push_back, Event, ask, push, releases}
use erp_all.RateLimit.Spacing.{tolerance, push_back_ignored}
use erp_all.RateLimit.Registry.{
  Text, Registry, bucket_at, bucket_key, limit_for, pattern_fits, walmart_endpoint_limits,
}
use erp_all.RateLimit.Gates.{Call, gated, response, run_calls, of_key}
use erp_all.RateLimit.Isolation.{calls_apart}

-- Ten calls in an hour.
abbrev item_feed : Bucket
item_feed = new_bucket (record { limit = 10; period = 3600000 })

abbrev asks : ℕ → List Event
asks zero = []
asks (suc n) = ask 0 3960000 ∷ asks n

-- Nineteen calls that ask at once all go within the hour: ten at once, then one every six minutes.
nineteen_in_an_hour :
    releases item_feed (asks 19)
    ≡ 0 ∷ 0 ∷ 0 ∷ 0 ∷ 0 ∷ 0 ∷ 0 ∷ 0 ∷ 0 ∷ 0 ∷ 360000 ∷ 720000 ∷ 1080000 ∷ 1440000 ∷ 1800000
      ∷ 2160000 ∷ 2520000 ∷ 2880000 ∷ 3240000 ∷ []
unfolding releases
nineteen_in_an_hour = refl

abbrev some_events : List Event
some_events = ask 0 0 ∷ push 10 5000000 ∷ ask 20 0 ∷ ask 30 3960000 ∷ []

some_releases : releases item_feed some_events ≡ 0 ∷ 1760510 ∷ []
unfolding releases
some_releases = refl

push_back_ignored_example :
    acquire (push_back item_feed 1000 360000) 1000 0
    ≡ (granted (push_back item_feed 1000 360000) 1000, true, 0)
push_back_ignored_example =
    push_back_ignored item_feed 1000 360000 0 (omega arith) (omega arith) (omega arith)

abbrev lower : String → String
lower s = s

abbrev no_number : String → Option ℕ
no_number s = none

abbrev feed_endpoint : Text
feed_endpoint = codes "POST /v3/feeds:MP_ITEM"

abbrev feed_key : Text
feed_key = bucket_key (codes "7") feed_endpoint

abbrev registry : Registry
registry = (feed_key, item_feed) ∷ []

abbrev some_calls : List Call
some_calls =
    gated (codes "7") feed_endpoint 0 none
    ∷ gated (codes "8") feed_endpoint 0 none
    ∷ response (codes "7") feed_endpoint 5 []
    ∷ gated (codes "7") feed_endpoint 9 none
    ∷ []

calls_go : of_key feed_key (run_calls lower no_number no_number registry some_calls) ≡ 0 ∷ 9 ∷ []
unfolding run_calls
calls_go = refl

calls_apart_example : 0 + 1 * 360000 ≤ 9 + tolerance item_feed
calls_apart_example =
    calls_apart lower no_number no_number feed_key registry some_calls item_feed [] 0 [] 9 []
      (unfold bucket_at in refl) calls_go

wildcard_limit :
    limit_for walmart_endpoint_limits (codes "GET /v3/insights/performance/x")
    ≡ record { limit = 1; period = 60000 }
unfolding limit_for pattern_fits starts_with
wildcard_limit = refl

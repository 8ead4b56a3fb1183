-- ===== src/RateLimit.antt =====
-- backend/src/erp/channel/gateway/rate_limiter.py: one bucket of the limiter, the class `GCRA`, and what
-- its callers do to it. Times are whole milliseconds on the monotonic clock; every limit of the table
-- divides its period, so that the emission interval is exact.
pub mod Spacing
pub mod Registry
pub mod Gates
pub mod Isolation
mod Tests
use erp_all.Prelude.{
  ℕ, ◌+◌, ◌-◌, ◌*◌, ◌/◌, Bool, true, false, not, Option, none, some, List, [], ◌∷◌, ◌==◌, ◌&&◌, ltb,
  max, if◌then◌else◌, str_eq, String,
}

pub record RateLimit : Type 0 where
  pub limit : ℕ
  pub period : ℕ

pub record Bucket : Type 0 where
  pub limit : ℕ
  pub period : ℕ
  pub emission_interval : ℕ
  pub tat : ℕ
  pub next_avail : ℕ

-- `GCRA(limit, period)`
abbrev pub new_bucket : RateLimit → Bucket
new_bucket r = record {
  limit = r.limit;
  period = r.period;
  emission_interval = r.period / r.limit;
  tat = 0;
  next_avail = 0;
}

-- `max(self.tat, now, self.next_avail_monotonic)`
abbrev pub arrival : Bucket → ℕ → ℕ
arrival b now = max (max b.tat now) b.next_avail

-- `allow_at - now`, or 0 where that is negative. No test or result of the code tells a negative wait from
-- 0, since `max_wait` is not negative.
abbrev pub wait_for : Bucket → ℕ → ℕ
wait_for b now = arrival b now - (b.period - b.emission_interval) - now

abbrev pub granted : Bucket → ℕ → Bucket
granted b now = record b { tat = arrival b now + b.emission_interval }

-- acquire: whether the call may go, and the milliseconds to wait.
unfoldable pub acquire : Bucket → ℕ → ℕ → Bucket × Bool × ℕ
acquire b now max_wait =
    if ltb max_wait (wait_for b now)
    then (b, false, wait_for b now)
    else (granted b now, true, wait_for b now)

-- The end of `update_from_walmart_headers`: `delta` milliseconds until the replenishment.
unfoldable pub push_back : Bucket → ℕ → ℕ → Bucket
push_back b now delta =
    if ltb 0 delta then record b { next_avail = max b.next_avail (now + delta + 500) } else b

-- The two headers that the loop reads, the last of each name counting.
abbrev pub token_count :
    (lower : String → String) (to_int : String → Option ℕ)
    → List (String × String)
    → Option ℕ
    → Option ℕ
token_count lower to_int [] tk = tk
token_count lower to_int ((k, v) ∷ headers) tk = token_count lower to_int headers (
    if str_eq (lower k) "x-current-token-count"
    then elim (to_int v) [ none ↦ tk | some n ↦ some n ]
    else tk)

abbrev pub replenishment :
    (lower : String → String) → List (String × String) → Option String → Option String
replenishment lower [] nra = nra
replenishment lower ((k, v) ∷ headers) nra = replenishment lower headers (
    if str_eq (lower k) "x-current-token-count"
    then nra
    else if str_eq (lower k) "x-next-replenishment-time"
    then some v
    else nra)

-- `tk != 0 or not nra`
abbrev pub exhausted : Option ℕ → Option String → Option String
exhausted (some n) (some nra) = if (n == 0) && not (str_eq nra "") then some nra else none
exhausted _ _ = none

unfoldable pub push_known : (delta_of : String → Option ℕ) → Bucket → ℕ → Option String → Bucket
unfolding push_back
push_known delta_of b now none = b
push_known delta_of b now (some nra) = elim (delta_of nra) [
  | none ↦ b
  | some delta ↦ push_back b now delta
]

-- `to_int` stands for `int`, where a negative number may be any that is not 0, and `delta_of` for the
-- milliseconds from now to a written time: `none` is a text that is no time, 0 one that has passed.
unfoldable pub update_from_walmart_headers :
    (lower : String → String) (to_int : String → Option ℕ) (delta_of : String → Option ℕ)
    → Bucket
    → ℕ
    → List (String × String)
    → Bucket
unfolding push_known
update_from_walmart_headers lower to_int delta_of b now headers =
    push_known delta_of b now
      (exhausted (token_count lower to_int headers none) (replenishment lower headers none))

-- What happens to one bucket, in order: a call asks, at a time and with the longest wait it accepts, or
-- a response pushes the bucket back.
pub data Event : Type 0 where
  ask : ℕ → ℕ → Event
  push : ℕ → ℕ → Event

-- The times at which calls go out, in the order of the grants.
unfoldable pub releases : Bucket → List Event → List ℕ
unfolding acquire push_back
releases b [] = []
releases b (ask now max_wait ∷ events) =
    let go = releases (granted b now) events in
    let stay = releases b events in
    if ltb max_wait (wait_for b now) then stay else (now + wait_for b now) ∷ go
releases b (push now delta ∷ events) = releases (push_back b now delta) events

-- ===== src/RateLimit/Spacing.antt =====
-- How far apart the calls go out that a bucket of backend/src/erp/channel/gateway/rate_limiter.py grants.
use erp_all.Prelude.{
  ℕ, suc, ◌+◌, ◌-◌, ◌*◌, ◌≤◌, ◌≡◌, ap, true, false, List, [], ◌∷◌, ◌++◌, arith, ltb, length,
  Bool-cases, inl, inr,
}
use erp_all.RateLimit.{
  Bucket, arrival, wait_for, granted, acquire, push_back, Event, ask, push, releases,
}

-- The burst that the bucket tolerates.
abbrev pub tolerance : Bucket → ℕ
tolerance b = b.period - b.emission_interval

released-le : (b : Bucket) (now : ℕ) → now + wait_for b now ≤ arrival b now
released-le b now = ground arith

arrival-le : (b : Bucket) (now : ℕ) → arrival b now ≤ now + wait_for b now + tolerance b
arrival-le b now = ground arith

tat-le : (b : Bucket) (now : ℕ) → b.tat ≤ arrival b now
tat-le b now = ground arith

-- A push leaves all but the next time alone.
pub push_back-same :
    (b : Bucket) (now delta : ℕ)
    → ((push_back b now delta).tat ≡ b.tat)
      × ((push_back b now delta).emission_interval ≡ b.emission_interval)
      × ((push_back b now delta).period ≡ b.period)
unfolding push_back
push_back-same b now delta = ground arith

pub suc-times : (n i : ℕ) → suc n * i ≡ i + n * i
suc-times n i = ground arith

pub times-zero : (i : ℕ) → 0 * i ≡ 0
times-zero i = ground arith

-- The release that comes after `n` others is `n` intervals after the arrival time, less the tolerance.
releases-tat :
    (b : Bucket) (events : List Event) (before : List ℕ) (z : ℕ) (after : List ℕ)
    → releases b events ≡ before ++ z ∷ after
    → b.tat + length before * b.emission_interval ≤ z + tolerance b
unfolding releases
releases-tat b [] [] z after h = absurd (cc)
releases-tat b [] (y ∷ before) z after h = absurd (cc)
releases-tat b (push now delta ∷ events) before z after h =
    let rest = releases-tat (push_back b now delta) events before z after h in
    let (t, i, p) = push_back-same b now delta in rw (t, i, p) at rest
releases-tat b (ask now max_wait ∷ events) [] z after h =
    elim (Bool-cases (ltb max_wait (wait_for b now))) [
      | inl e ↦ releases-tat b events [] z after (rw e at h)
      | inr e ↦
          let k : (now + wait_for b now) ∷ releases (granted b now) events ≡ z ∷ after =
            rw e at h in
          let same : now + wait_for b now ≡ z = cc in
          let l = tat-le b now in
          let m = arrival-le b now in let n = times-zero b.emission_interval in omega arith
    ]
releases-tat b (ask now max_wait ∷ events) (y ∷ before) z after h =
    elim (Bool-cases (ltb max_wait (wait_for b now))) [
      | inl e ↦ releases-tat b events (y ∷ before) z after (rw e at h)
      | inr e ↦
          let k : (now + wait_for b now) ∷ releases (granted b now) events
              ≡ y ∷ (before ++ z ∷ after) =
            rw e at h in
          let rest = releases-tat (granted b now) events before z after (cc) in
          let l = tat-le b now in
          let n = suc-times (length before) b.emission_interval in omega arith
    ]

-- Any two calls that a bucket lets go, `between` others going between them, are at least
-- `length between + 1` emission intervals apart, less the tolerated burst of one period but one interval:
-- whatever the clock reads, whatever the callers accept to wait, and whatever the responses push back.
pub releases_apart :
    (b : Bucket) (events : List Event) (before : List ℕ) (a : ℕ) (between : List ℕ) (z : ℕ)
    (after : List ℕ)
    → releases b events ≡ before ++ a ∷ (between ++ z ∷ after)
    → a + suc (length between) * b.emission_interval ≤ z + tolerance b
unfolding releases
releases_apart b [] [] a between z after h = absurd (cc)
releases_apart b [] (y ∷ before) a between z after h = absurd (cc)
releases_apart b (push now delta ∷ events) before a between z after h =
    let rest = releases_apart (push_back b now delta) events before a between z after h in
    let (t, i, p) = push_back-same b now delta in rw (i, p) at rest
releases_apart b (ask now max_wait ∷ events) [] a between z after h =
    elim (Bool-cases (ltb max_wait (wait_for b now))) [
      | inl e ↦ releases_apart b events [] a between z after (rw e at h)
      | inr e ↦
          let k : (now + wait_for b now) ∷ releases (granted b now) events
              ≡ a ∷ (between ++ z ∷ after) =
            rw e at h in
          let same : now + wait_for b now ≡ a = cc in
          let rest = releases-tat (granted b now) events between z after (cc) in
          let l = released-le b now in
          let n = suc-times (length between) b.emission_interval in omega arith
    ]
releases_apart b (ask now max_wait ∷ events) (y ∷ before) a between z after h =
    elim (Bool-cases (ltb max_wait (wait_for b now))) [
      | inl e ↦ releases_apart b events (y ∷ before) a between z after (rw e at h)
      | inr e ↦
          let k : (now + wait_for b now) ∷ releases (granted b now) events
              ≡ y ∷ (before ++ a ∷ (between ++ z ∷ after)) =
            rw e at h in
          releases_apart (granted b now) events before a between z after (cc)
    ]

acquire-now :
    (b : Bucket) (now max_wait : ℕ)
    → arrival b now ≤ now + tolerance b
    → acquire b now max_wait ≡ (granted b now, true, 0)
unfolding acquire
acquire-now b now max_wait l =
    let none_left : wait_for b now ≡ 0 = omega arith in
    let passes : ltb max_wait (wait_for b now) ≡ false = rw none_left (ground arith) in
    rw passes (ap (λ w. (granted b now, true, w)) none_left)

pushed-le :
    (b : Bucket) (now delta : ℕ)
    → b.tat ≤ now + tolerance b
    → b.next_avail ≤ now + tolerance b
    → delta + 500 ≤ tolerance b
    → arrival (push_back b now delta) now ≤ now + tolerance (push_back b now delta)
unfolding push_back
pushed-le b now delta l m n = elim (Bool-cases (ltb 0 delta)) [
  | inl e ↦ rw e (ground arith)
  | inr e ↦ rw e (ground arith)
]

-- An exhausted quota does not stop the calls: where the written time of replenishment, with its half
-- second, is no further off than the tolerated burst, and the bucket had no other wait, the next call
-- goes out at once.
pub push_back_ignored :
    (b : Bucket) (now delta max_wait : ℕ)
    → b.tat ≤ now + tolerance b
    → b.next_avail ≤ now + tolerance b
    → delta + 500 ≤ tolerance b
    → acquire (push_back b now delta) now max_wait ≡ (granted (push_back b now delta) now, true, 0)
push_back_ignored b now delta max_wait l m n =
    acquire-now (push_back b now delta) now max_wait (pushed-le b now delta l m n)

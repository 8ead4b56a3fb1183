-- ===== src/ScrapeQueue/Attempts.antt =====
-- The limit of attempts of backend/src/erp/scrape/service.py: where no worker gives a task back by
-- itself, no task is dispatched more often than its limit.
use erp_all.Prelude.{◌≤◌, ◌<◌, ◌≡◌, Bool, true, false, All, Result, Holds}
use erp_all.ScrapeQueue.{Db, Task, Error, is_waiting}
use erp_all.ScrapeQueue.Runs.{Op, give_back}
use erp_all.ScrapeQueue.Pulls.{Pulls}

-- A task has not been dispatched more often than its limit, and one that waits may be once more.
abbrev pub IsBounded : Task → Type 0
IsBounded t =
    (t.attempt ≤ t.max_attempts) × (is_waiting t.status ≡ true → t.attempt < t.max_attempts)

abbrev pub Bounded : Db → Type 0
Bounded db = All IsBounded db.tasks

abbrev Keeps : {A : Type 0} → Result Error (Db × A) → Type 0
Keeps = Holds (λ p. Bounded p.0)

-- Every operation but `release_tasks`.
abbrev pub is_forced : Op → Bool
is_forced (give_back worker items) = false
is_forced _ = true

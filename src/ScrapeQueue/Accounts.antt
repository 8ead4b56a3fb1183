-- ===== src/ScrapeQueue/Accounts.antt =====
-- The counters of a job against its rows of `scrape_task`: backend/src/erp/scrape/service.py keeps
-- `done_tasks` and `failed_tasks` by hand, statement by statement.
use erp_all.Prelude.{
  ℕ, ◌+◌, ◌≤◌, ◌≡◌, refl, ap, ◌∙◌, Bool, true, false, List, [], ◌∷◌, arith, ◌==◌, ◌&&◌, All,
  All-imp, update_where, count_where, count_where-update_where_same, count_where-update_where_add,
  count_where-disjoint,
}
use erp_all.ScrapeQueue.{
  Task, TaskStatus, waiting, dispatched, in_progress, finished, dead, Job, JobStatus, pending,
  running, done, partial, failed, cancelled, of_job, is_finished, is_dead, job_runs, job_is_live,
  outcome, is_complete, closed_job, cancelled_job,
}
use erp_all.ScrapeQueue.Leases.{started_job}

abbrev pub done_in : ℕ → Task → Bool
done_in j t = of_job j t && is_finished t.status

abbrev pub dead_in : ℕ → Task → Bool
dead_in j t = of_job j t && is_dead t.status

abbrev pub is_cancelled : JobStatus → Bool
is_cancelled cancelled = true
is_cancelled _ = false

abbrev pub is_closed : JobStatus → Bool
is_closed done = true
is_closed partial = true
is_closed failed = true
is_closed _ = false

pub record Accounts (ts : List Task) (j : Job) : Type 0 where
  pub total : j.total_tasks ≡ count_where (of_job j.id) ts
  pub dones : j.done_tasks ≡ count_where (done_in j.id) ts
  pub deads_le : j.failed_tasks ≤ count_where (dead_in j.id) ts
  pub deads : is_cancelled j.status ≡ false → j.failed_tasks ≡ count_where (dead_in j.id) ts
  pub closed : is_closed j.status ≡ true → j.done_tasks + j.failed_tasks ≡ j.total_tasks
  pub verdict : is_closed j.status ≡ true → j.status ≡ outcome j

pub finished_not_dead : (s : TaskStatus) → is_finished s ≡ true → is_dead s ≡ false
finished_not_dead waiting h = refl
finished_not_dead dispatched h = refl
finished_not_dead in_progress h = refl
finished_not_dead finished h = refl
finished_not_dead dead h = absurd (cc)

-- The two ends are apart, and both are rows of the job.
pub ends_le :
    (j : ℕ) (ts : List Task)
    → count_where (done_in j) ts + count_where (dead_in j) ts ≤ count_where (of_job j) ts
ends_le j ts =
    count_where-disjoint (done_in j) (dead_in j) (of_job j) ts
      (λ t e. ground (arith, finished_not_dead t.status)) (λ t e. ground arith)

-- A job that is closed has no row left that is not at an end, so no counter can still grow.
closed_not_cancelled : (s : JobStatus) → is_closed s ≡ true → is_cancelled s ≡ false
closed_not_cancelled pending h = absurd (cc)
closed_not_cancelled running h = absurd (cc)
closed_not_cancelled done h = refl
closed_not_cancelled partial h = refl
closed_not_cancelled failed h = refl
closed_not_cancelled cancelled h = absurd (cc)

runs_not_cancelled : (s : JobStatus) → job_runs s ≡ true → is_cancelled s ≡ false
runs_not_cancelled pending h = refl
runs_not_cancelled running h = refl
runs_not_cancelled done h = refl
runs_not_cancelled partial h = refl
runs_not_cancelled failed h = refl
runs_not_cancelled cancelled h = absurd (cc)

module _ (ts ts' : List Task) (j : Job) where
  pub Accounts-same :
      count_where (of_job j.id) ts' ≡ count_where (of_job j.id) ts
      → count_where (done_in j.id) ts' ≡ count_where (done_in j.id) ts
      → count_where (dead_in j.id) ts' ≡ count_where (dead_in j.id) ts
      → Accounts ts j
      → Accounts ts' j
  Accounts-same a b c p = record {
    total = omega (arith, p.total);
    dones = omega (arith, p.dones);
    deads_le = omega (arith, p.deads_le);
    deads = λ h. omega (arith, p.deads h);
    closed = p.closed;
    verdict = p.verdict;
  }

  -- More deaths than the counter knows are possible only where the job is cancelled.
  pub Accounts-failed :
      (n : ℕ)
      → count_where (of_job j.id) ts' ≡ count_where (of_job j.id) ts
      → count_where (done_in j.id) ts' ≡ count_where (done_in j.id) ts
      → count_where (dead_in j.id) ts' ≡ count_where (dead_in j.id) ts + n
      → Accounts ts j
      → Accounts ts' (record j { failed_tasks = j.failed_tasks + n })
  Accounts-failed n a b c p = record {
    total = omega (arith, p.total);
    dones = omega (arith, p.dones);
    deads_le = omega (arith, p.deads_le);
    deads = λ h. omega (arith, p.deads h);
    closed = λ h. omega (arith, none_left h, p.closed h);
    verdict = λ h.
        p.verdict h
        ∙ ap (λ m. outcome (record j { failed_tasks = m })) (omega (arith, none_left h));
  }
    where
      none_left : is_closed j.status ≡ true → n ≡ 0
      none_left h = omega (
        arith,
        p.closed h,
        p.total,
        p.dones,
        p.deads (closed_not_cancelled j.status h),
        ends_le j.id ts',
      )

  pub Accounts-done :
      (n : ℕ)
      → count_where (of_job j.id) ts' ≡ count_where (of_job j.id) ts
      → count_where (done_in j.id) ts' ≡ count_where (done_in j.id) ts + n
      → count_where (dead_in j.id) ts' ≡ count_where (dead_in j.id) ts
      → Accounts ts j
      → Accounts ts' (record j { done_tasks = j.done_tasks + n })
  Accounts-done n a b c p = record {
    total = omega (arith, p.total);
    dones = omega (arith, p.dones);
    deads_le = omega (arith, p.deads_le);
    deads = λ h. omega (arith, p.deads h);
    closed = λ h. omega (arith, none_left h, p.closed h);
    verdict = λ h.
        p.verdict h ∙ ap (λ m. outcome (record j { done_tasks = m })) (omega (arith, none_left h));
  }
    where
      none_left : is_closed j.status ≡ true → n ≡ 0
      none_left h = omega (
        arith,
        p.closed h,
        p.total,
        p.dones,
        p.deads (closed_not_cancelled j.status h),
        ends_le j.id ts',
      )

  -- A job that is cancelled with the rows that wait.
  pub Accounts-cancelled :
      (n : ℕ)
      → count_where (of_job j.id) ts' ≡ count_where (of_job j.id) ts
      → count_where (done_in j.id) ts' ≡ count_where (done_in j.id) ts
      → count_where (dead_in j.id) ts' ≡ count_where (dead_in j.id) ts + n
      → Accounts ts j
      → Accounts ts' (cancelled_job j)
  Accounts-cancelled n a b c p = record {
    total = omega (arith, p.total);
    dones = omega (arith, p.dones);
    deads_le = omega (arith, p.deads_le);
    deads = λ h. absurd (cc);
    closed = λ h. absurd (cc);
    verdict = λ h. absurd (cc);
  }

module _ (ts : List Task) (j : Job) where
  -- `_finish_job_if_complete` closes a job whose rows are all at an end.
  pub Accounts-closed : is_complete j ≡ true → Accounts ts j → Accounts ts (closed_job j)
  Accounts-closed h p =
      let runs : job_runs j.status ≡ true = ground arith in
      let full : j.total_tasks ≤ j.done_tasks + j.failed_tasks = ground arith in
      let all_dead = p.deads (runs_not_cancelled j.status runs) in
      record {
        total = p.total;
        dones = p.dones;
        deads_le = p.deads_le;
        deads = λ _. all_dead;
        closed = λ _. omega (arith, full, all_dead, p.total, p.dones, ends_le j.id ts);
        verdict = λ _. refl;
      }

  pub Accounts-started : job_is_live j.status ≡ true → Accounts ts j → Accounts ts (started_job j)
  Accounts-started h p = record {
    total = p.total;
    dones = p.dones;
    deads_le = p.deads_le;
    deads = λ _. p.deads (live_not_cancelled j.status h);
    closed = λ e. absurd (cc);
    verdict = λ e. absurd (cc);
  }
    where
      live_not_cancelled : (s : JobStatus) → job_is_live s ≡ true → is_cancelled s ≡ false
      live_not_cancelled pending h = refl
      live_not_cancelled running h = refl
      live_not_cancelled done h = refl
      live_not_cancelled partial h = refl
      live_not_cancelled failed h = refl
      live_not_cancelled cancelled h = absurd (cc)

-- What the counts of a job are after an UPDATE of rows that are not at an end.
module _ (test : Task → Bool) (change : Task → Task)
    (keeps : (t : Task) → (change t).job_id ≡ t.job_id) where
  abbrev pub Opens : List Task → Type 0
  Opens = All λ t. test t ≡ true → (is_finished t.status ≡ false) × (is_dead t.status ≡ false)

  pub count_total :
      (j : ℕ) (ts : List Task)
      → count_where (of_job j) (update_where test change ts) ≡ count_where (of_job j) ts
  count_total j ts = count_where-update_where_same (of_job j) test change ts (same ts)
    where
      same : (xs : List Task) → All (λ t. test t ≡ true → of_job j (change t) ≡ of_job j t) xs
      same [] = tt
      same (x ∷ xs) = (λ _. ap (λ k. k == j) (keeps x), same xs)

  pub count_done_same :
      (j : ℕ) (ts : List Task)
      → Opens ts
      → ((t : Task) → is_finished (change t).status ≡ false)
      → count_where (done_in j) (update_where test change ts) ≡ count_where (done_in j) ts
  count_done_same j ts opens ends =
      count_where-update_where_same (done_in j) test change ts
        (All-imp _ _ ts (λ t f e. let (a, b) = f e in ground (arith, a, ends t)) opens)

  pub count_dead_same :
      (j : ℕ) (ts : List Task)
      → Opens ts
      → ((t : Task) → is_dead (change t).status ≡ false)
      → count_where (dead_in j) (update_where test change ts) ≡ count_where (dead_in j) ts
  count_dead_same j ts opens ends =
      count_where-update_where_same (dead_in j) test change ts
        (All-imp _ _ ts (λ t f e. let (a, b) = f e in ground (arith, b, ends t)) opens)

  pub count_dead_add :
      (j : ℕ) (ts : List Task)
      → Opens ts
      → ((t : Task) → is_dead (change t).status ≡ true)
      → count_where (dead_in j) (update_where test change ts)
        ≡ count_where (dead_in j) ts + count_where (λ t. of_job j t && test t) ts
  count_dead_add j ts opens ends =
      count_where-update_where_add (dead_in j) (of_job j) test change ts
        (All-imp _ _ ts (λ t f e. let (a, b) = f e in ground (arith, b, ends t, keeps t)) opens)

  pub count_done_add :
      (j : ℕ) (ts : List Task)
      → Opens ts
      → ((t : Task) → is_finished (change t).status ≡ true)
      → count_where (done_in j) (update_where test change ts)
        ≡ count_where (done_in j) ts + count_where (λ t. of_job j t && test t) ts
  count_done_add j ts opens ends =
      count_where-update_where_add (done_in j) (of_job j) test change ts
        (All-imp _ _ ts (λ t f e. let (a, b) = f e in ground (arith, a, ends t, keeps t)) opens)

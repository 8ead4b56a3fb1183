-- ===== src/ScrapeQueue/Creates.antt =====
-- `create_job` and `cancel_job` of backend/src/erp/scrape/service.py keep the tables right.
use erp_all.Prelude.{
  ℕ, suc, ◌+◌, ◌≤◌, ◌<◌, ◌≡◌, ◌≢◌, refl, sym, ap, subst, ◌∙◌, Bool, true, false, not, Option, none,
  some, List, [], ◌∷◌, ◌++◌, arith, ◌==◌, ◌&&◌, if-elim, All, All-imp, All-append, All-always,
  All-update_where_imp, In, update_where, any_row, any_row-eq_true, count_where, count_where-append,
  count_where-none, count_where-every, Distinct, Distinct-append, Distinct-append_fresh,
  Distinct-unique, Grows-append, length, ok, err, Holds, str_eq, select_where,
}
use erp_all.Prelude.Text.{text_eq}
use erp_all.Gtin.{Text}
use erp_all.ScrapeQueue.{
  Db, Task, Job, Error, task_key, job_key, of_job, is_waiting, is_finished, is_dead, job_is_live,
  dead_task, cancelled_job, new_tasks, insert_job, JobArgs, create_for, create_listed, create_job,
  cancel_rows, cancel_job, valid_targets, deleted_refs,
}
use erp_all.ScrapeQueue.Lifecycle.{Evolves, Evolves-refl, cancelled_task-Evolves}
use erp_all.ScrapeQueue.Accounts.{
  Accounts, Accounts-same, Accounts-cancelled, done_in, dead_in, Opens, count_total,
  count_done_same, count_dead_add,
}
use erp_all.ScrapeQueue.Tables.{
  IsQueue, Moves, update_tasks-Moves, waiting_open, jobs_once_update, jobs_below_update,
}
use erp_all.ScrapeQueue.Submits.{Ends}

module _ (job team : ℕ) where
  new_tasks-All :
      (P : Task → Type 0) (n : ℕ) (refs : List Text)
      → ((t : Task)
          → n ≤ t.id
          → t.id < n + length refs
          → t.job_id ≡ job
          → is_waiting t.status ≡ true
          → P t)
      → All P (new_tasks n job team refs)
  unfolding new_tasks
  new_tasks-All P n [] f = tt
  new_tasks-All P n (r ∷ refs) f = (
    f _ (omega arith) (omega arith) refl refl,
    new_tasks-All P (suc n) refs (λ t a b c d. f t (omega arith) (omega arith) c d),
  )

  new_tasks-Distinct : (n : ℕ) (refs : List Text) → Distinct task_key (new_tasks n job team refs)
  unfolding new_tasks
  new_tasks-Distinct n [] = tt
  new_tasks-Distinct n (r ∷ refs) = (
    new_tasks-All (λ t. n ≢ t.id) (suc n) refs (λ t a b c d e. absurd (omega arith)),
    new_tasks-Distinct (suc n) refs,
  )

  new_tasks-length : (n : ℕ) (refs : List Text) → length (new_tasks n job team refs) ≡ length refs
  unfolding new_tasks
  new_tasks-length n [] = refl
  new_tasks-length n (r ∷ refs) = ap suc (new_tasks-length (suc n) refs)

-- An old job has no new row, and the new job has no old one.
module _ (db : Db) (team : ℕ) (refs : List Text) (v : IsQueue db) where
  abbrev fresh : List Task
  fresh = new_tasks db.next_task db.next_job team refs

  not_of_old :
      (k : ℕ) (p : Task → Bool) → k < db.next_job → count_where (λ t. of_job k t && p t) fresh ≡ 0
  not_of_old k p l =
      count_where-none (λ t. of_job k t && p t) fresh
        (new_tasks-All db.next_job team (λ t. (of_job k t && p t) ≡ false) db.next_task refs
          λ t a b c d. ground (arith, c, l))

  not_old : (p : Task → Bool) → count_where (λ t. of_job db.next_job t && p t) db.tasks ≡ 0
  not_old p =
      count_where-none (λ t. of_job db.next_job t && p t) db.tasks
        (All-imp (λ (t : Task). t.job_id < db.next_job) _ db.tasks (λ t l. ground arith)
          v.tasks_owned)

  total_of_old : (k : ℕ) → k < db.next_job → count_where (of_job k) fresh ≡ 0
  total_of_old k l = count_where-none (of_job k) fresh (
      new_tasks-All db.next_job team (λ t. of_job k t ≡ false) db.next_task refs
        λ t a b c d. ground (arith, c, l))

  total_old : count_where (of_job db.next_job) db.tasks ≡ 0
  total_old = count_where-none (of_job db.next_job) db.tasks (
      All-imp (λ (t : Task). t.job_id < db.next_job) _ db.tasks (λ t l. ground arith) v.tasks_owned)

  all_new : count_where (of_job db.next_job) fresh ≡ length refs
  all_new =
      count_where-every (of_job db.next_job) fresh (
        new_tasks-All db.next_job team (λ t. of_job db.next_job t ≡ true) db.next_task refs
          λ t a b c d. ground (arith, c))
      ∙ new_tasks-length db.next_job team db.next_task refs

  none_new_at_end :
      (p : Task → Bool)
      → ((t : Task) → is_waiting t.status ≡ true → p t ≡ false)
      → count_where (λ t. of_job db.next_job t && p t) fresh ≡ 0
  none_new_at_end p f =
      count_where-none (λ t. of_job db.next_job t && p t) fresh
        (new_tasks-All db.next_job team (λ t. (of_job db.next_job t && p t) ≡ false) db.next_task
          refs λ t a b c d. ground (arith, f t d))

  old-Accounts :
      (j : Job) → j.id < db.next_job → Accounts db.tasks j → Accounts (db.tasks ++ fresh) j
  old-Accounts j l p =
      Accounts-same db.tasks (db.tasks ++ fresh) j
        (omega (arith, count_where-append (of_job j.id) db.tasks fresh, total_of_old j.id l))
        (omega (
          arith,
          count_where-append (done_in j.id) db.tasks fresh,
          not_of_old j.id (λ t. is_finished t.status) l,
        ))
        (omega (
          arith,
          count_where-append (dead_in j.id) db.tasks fresh,
          not_of_old j.id (λ t. is_dead t.status) l,
        ))
        p

pub insert_job-Moves :
    (db : Db) (a : JobArgs) (targets blocked : List Text)
    → IsQueue db
    → Moves db (insert_job db a targets blocked).0
unfolding insert_job
insert_job-Moves db a targets blocked v =
    let new = new_tasks db.next_task db.next_job a.team_id targets in
    let all = λ (P : Task → Type 0). new_tasks-All db.next_job a.team_id P db.next_task targets in
    let n = length targets in
    record {
      valid = record {
        tasks_once =
            Distinct-append task_key db.tasks new v.tasks_once
              (new_tasks-Distinct db.next_job a.team_id db.next_task targets)
              (All-imp (λ (t : Task). t.id < db.next_task) _ db.tasks
                (λ t l. all (λ u. t.id ≢ u.id) (λ u x y z w e. absurd (omega arith)))
                v.tasks_below);
        tasks_below =
            All-append (λ (t : Task). t.id < db.next_task + n) db.tasks new
              (All-imp (λ (t : Task). t.id < db.next_task) _ db.tasks (λ t l. omega arith)
                v.tasks_below)
              (all (λ t. t.id < db.next_task + n) (λ t x y z w. y));
        tasks_owned =
            All-append (λ (t : Task). t.job_id < suc db.next_job) db.tasks new
              (All-imp (λ (t : Task). t.job_id < db.next_job) _ db.tasks (λ t l. omega arith)
                v.tasks_owned)
              (all (λ t. t.job_id < suc db.next_job) (λ t x y z w. omega arith));
        jobs_once = Distinct-append_fresh job_key db.jobs _ v.jobs_once v.jobs_below;
        jobs_below =
            All-append (λ (j : Job). j.id < suc db.next_job) db.jobs _
              (All-imp (λ (j : Job). j.id < db.next_job) _ db.jobs (λ j l. omega arith)
                v.jobs_below)
              (omega arith, tt);
        counted =
            All-append (Accounts (db.tasks ++ new)) db.jobs _ (olds db.jobs v.jobs_below v.counted)
              (
                record {
                  total = omega (
                    arith,
                    count_where-append (of_job db.next_job) db.tasks new,
                    total_old db a.team_id targets v,
                    all_new db a.team_id targets v,
                  );
                  dones = omega (
                    arith,
                    count_where-append (done_in db.next_job) db.tasks new,
                    not_old db a.team_id targets v (λ t. is_finished t.status),
                    none_new_at_end db a.team_id targets v (λ t. is_finished t.status)
                        (λ t e. (waiting_open t.status e).0),
                  );
                  deads_le = omega arith;
                  deads = λ _. omega (
                    arith,
                    count_where-append (dead_in db.next_job) db.tasks new,
                    not_old db a.team_id targets v (λ t. is_dead t.status),
                    none_new_at_end db a.team_id targets v (λ t. is_dead t.status)
                        (λ t e. (waiting_open t.status e).1),
                  );
                  closed = λ e. absurd (cc);
                  verdict = λ e. absurd (cc);
                },
                tt,
              );
      };
      grows = Grows-append Evolves Evolves-refl db.tasks new;
      tombstones = refl;
      stays_out = λ team source ref d h. h;
    }
  where
    olds :
        (js : List Job)
        → All (λ (j : Job). j.id < db.next_job) js
        → All (Accounts db.tasks) js
        → All (Accounts (db.tasks ++ new_tasks db.next_task db.next_job a.team_id targets)) js
    olds [] b c = tt
    olds (j ∷ js) b c = (old-Accounts db a.team_id targets v j b.0 c.0, olds js b.1 c.1)

create_for-Moves :
    (db : Db) (a : JobArgs) (targets : List Text) → IsQueue db → Ends db (create_for db a targets)
unfolding create_for
create_for-Moves db a [] v = tt
create_for-Moves db a (t ∷ ts) v =
    let blocked = deleted_refs db a.team_id a.source (t ∷ ts) in
    left (select_where (λ x. not (any_row (text_eq x) blocked)) (t ∷ ts)) blocked
  where
    left :
        (us blocked : List Text)
        → Ends db (elim us [
          | [] ↦ err (Error.all_targets_deleted blocked)
          | u ∷ us ↦ ok (insert_job db a (u ∷ us) blocked)
        ])
    left [] blocked = tt
    left (u ∷ us) blocked = insert_job-Moves db a (u ∷ us) blocked v

create_listed-Moves :
    (db : Db) (a : JobArgs) (o : Option (List Text)) → IsQueue db → Ends db (create_listed db a o)
unfolding create_listed
create_listed-Moves db a none v = tt
create_listed-Moves db a (some []) v = tt
create_listed-Moves db a (some (t ∷ ts)) v = create_for-Moves db a (valid_targets (t ∷ ts)) v

pub create_job-Moves : (db : Db) (a : JobArgs) → IsQueue db → Ends db (create_job db a)
unfolding create_job
create_job-Moves db a v =
    if-elim (Ends db) (str_eq a.job_kind "product_detail") _ _
      (λ _. create_listed-Moves db a a.targets v) λ _. tt

pub cancel_rows-Moves :
    (db : Db) (j : ℕ)
    → IsQueue db
    → any_row (λ (x : Job). (x.id == j) && job_is_live x.status) db.jobs ≡ true
    → Moves db (cancel_rows db j)
unfolding cancel_rows
cancel_rows-Moves db j v h =
    let live = λ (x : Job). (x.id == j) && job_is_live x.status in
    let test = λ (t : Task). of_job j t && is_waiting t.status in
    let ts' = update_where test dead_task db.tasks in
    let opens : Opens test dead_task (λ t. refl) db.tasks =
      All-always _ (λ t e. waiting_open t.status (ground arith)) db.tasks in
    let total = λ (x : Job). count_total test dead_task (λ t. refl) x.id db.tasks in
    let dones =
      λ (x : Job). count_done_same test dead_task (λ t. refl) x.id db.tasks opens (λ t. refl) in
    let deads =
      λ (x : Job). count_dead_add test dead_task (λ t. refl) x.id db.tasks opens (λ t. refl) in
    let (a, i, e) = any_row-eq_true live db.jobs h in
    update_tasks-Moves test dead_task (λ t. (refl, refl)) db
      (update_where live cancelled_job db.jobs) v
      (All-always _ (λ t d. cancelled_task-Evolves t (ground arith)) db.tasks)
      (jobs_once_update live cancelled_job (λ x. refl) db.jobs v.jobs_once)
      (jobs_below_update live cancelled_job (λ x. refl) db.next_job db.jobs v.jobs_below)
      (All-update_where_imp (Accounts db.tasks) (Accounts ts') live cancelled_job db.jobs
        (λ x k d p. Accounts-cancelled db.tasks ts' x _ (total x) (dones x) (deads x) p)
        (λ x k d p.
          Accounts-same db.tasks ts' x (total x) (dones x)
            (omega (arith, deads x, untouched x (other x a k i e d))) p)
        v.counted)
  where
    other :
        (x a : Job)
        → In x db.jobs
        → In a db.jobs
        → ((a.id == j) && job_is_live a.status) ≡ true
        → ((x.id == j) && job_is_live x.status) ≡ false
        → x.id ≢ j
    other x a k i e d same =
        let a_id : a.id ≡ j = ground arith in
        let one : x ≡ a = Distinct-unique job_key db.jobs x a v.jobs_once k i (same ∙ sym a_id) in
        let both : true ≡ false =
          sym e ∙ subst (λ (y : Job). ((y.id == j) && job_is_live y.status) ≡ false) one d in
        absurd (cc)

    untouched :
        (x : Job)
        → x.id ≢ j
        → count_where (λ t. of_job x.id t && (of_job j t && is_waiting t.status)) db.tasks ≡ 0
    untouched x n =
        count_where-none (λ t. of_job x.id t && (of_job j t && is_waiting t.status)) db.tasks
          (All-always _ (λ t. ground (arith, n)) db.tasks)

pub cancel_job-Moves : (db : Db) (j : ℕ) → IsQueue db → Holds (Moves db) (cancel_job db j)
unfolding cancel_job
cancel_job-Moves db j v =
    if-elim (Holds (Moves db)) (any_row (λ (x : Job). (x.id == j) && job_is_live x.status) db.jobs)
      _ _ (cancel_rows-Moves db j v) λ _. tt

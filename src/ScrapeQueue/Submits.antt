-- ===== src/ScrapeQueue/Submits.antt =====
-- `submit_result` and `product_upsert` of backend/src/erp/scrape/service.py keep the tables right.
use erp_all.Prelude.{
  ℕ, ◌≡◌, refl, sym, subst, ◌∙◌, inl, inr, Bool, true, false, Option, none, some, List, [], ◌∷◌,
  ◌++◌, arith, String, ◌==◌, ==→eq, leb, ◌&&◌, if◌then◌else◌, if-elim, All, All-keyed,
  All-update_where_imp, update_where, update_key, find_key, find_first, find_key-eq_some,
  count_where, count_where-key, Bool-cases, Result, ok, err, Holds, str_eq, str_eq_iff, any_row,
  Grows,
}
use erp_all.Prelude.Text.{text_eq, text_eq_iff}
use erp_all.Gtin.{Text}
use erp_all.Outbox.Payload.{Json}
use erp_all.ScrapeQueue.{
  Db, Task, Job, Product, Error, task_key, job_key, of_job, is_leased, is_finished, is_dead,
  dead_task, is_deleted,
}
use erp_all.ScrapeQueue.Products.{
  Payload, Upsert, same_product, title_of, store_product, new_product, refreshed, upsert_titled,
  product_upsert,
}
use erp_all.ScrapeQueue.Leases.{
  Submission, Reply, job_of, holds_lease, returned, finished_task, with_done, with_failed,
  record_success, record_failure, close_job, ingest, submit_held, submit_joined, submit_found,
  submit_result,
}
use erp_all.ScrapeQueue.Lifecycle.{
  Evolves, finished_task-Evolves, dead_task-Evolves, returned_task-Evolves,
}
use erp_all.ScrapeQueue.Accounts.{
  Accounts, Accounts-same, Accounts-done, Accounts-failed, count_total, count_done_same,
  count_done_add, count_dead_same, count_dead_add,
}
use erp_all.ScrapeQueue.Tables.{
  IsQueue, Moves, StaysOut, is_deleted-kept, Moves-refl, Moves-trans, update_tasks-Moves,
  open_tasks-Moves, leased_open, jobs_once_update, jobs_below_update, finish_job-Moves,
}
use erp_all.ScrapeQueue.Reclaims.{holds_lease-leased}

-- The change of tables that nothing here counts.
pub others-Moves :
    (db db' db'' : Db)
    → Moves db db'
    → db''.jobs ≡ db'.jobs
    → db''.tasks ≡ db'.tasks
    → db''.next_job ≡ db'.next_job
    → db''.next_task ≡ db'.next_task
    → db''.tombstones ≡ db'.tombstones
    → StaysOut db' db''
    → Moves db db''
others-Moves db db' db'' p a b c d e f = record {
  valid = rw (a, b, c, d) p.valid;
  grows = subst (λ ts. Grows Evolves db.tasks ts) (sym b) p.grows;
  tombstones = e ∙ p.tombstones;
  stays_out = λ team source ref d h.
      f team source ref (is_deleted-kept db db' team source ref p.tombstones d)
        (p.stays_out team source ref d h);
}

-- The one row of the task that holds the lease.
module _ (db : Db) (t : Task) (v : IsQueue db) (found : find_key task_key t.id db.tasks ≡ some t)
    (leased : is_leased t.status ≡ true) where
  abbrev is_it : Task → Bool
  is_it x = x.id == t.id

  it_opens :
      All
        (λ x. is_it x ≡ true → (is_finished x.status ≡ false) × (is_dead x.status ≡ false))
        db.tasks
  it_opens =
      All-keyed task_key (λ x. (is_finished x.status ≡ false) × (is_dead x.status ≡ false)) t.id
        db.tasks t v.tasks_once found (leased_open t.status leased)

  it-Evolves :
      (change : Task → Task)
      → Evolves t (change t)
      → All (λ x. is_it x ≡ true → Evolves x (change x)) db.tasks
  it-Evolves change e =
      All-keyed task_key (λ x. Evolves x (change x)) t.id db.tasks t v.tasks_once found e

  it_counts :
      (j : ℕ) → count_where (λ x. of_job j x && is_it x) db.tasks ≡ (if of_job j t then 1 else 0)
  it_counts j = count_where-key task_key (of_job j) t.id db.tasks t v.tasks_once found

  -- The statement on the job of the task, for any counter.
  counted_with :
      (ts : List Task) (change : Job → Job)
      → ((j : Job)
          → count_where (λ x. of_job j.id x && is_it x) db.tasks ≡ 1
          → Accounts db.tasks j
          → Accounts ts (change j))
      → ((j : Job)
          → count_where (λ x. of_job j.id x && is_it x) db.tasks ≡ 0
          → Accounts db.tasks j
          → Accounts ts j)
      → All (Accounts ts) (update_key job_key t.job_id change db.jobs)
  counted_with ts change f g =
      All-update_where_imp (Accounts db.tasks) (Accounts ts) (λ (j : Job). j.id == t.job_id) change
        db.jobs (λ j i e p. f j (it_counts j.id ∙ ground arith) p)
        (λ j i e p. g j (it_counts j.id ∙ ground arith) p) v.counted

  success-Moves : Moves db (record db {
    tasks = update_key task_key t.id finished_task db.tasks;
    jobs = update_key job_key t.job_id with_done db.jobs;
  })
  success-Moves =
      let ts' = update_key task_key t.id finished_task db.tasks in
      let total = λ (j : Job). count_total is_it finished_task (λ x. refl) j.id db.tasks in
      let dones = λ (j : Job).
        count_done_add is_it finished_task (λ x. refl) j.id db.tasks it_opens (λ x. refl) in
      let deads = λ (j : Job).
        count_dead_same is_it finished_task (λ x. refl) j.id db.tasks it_opens (λ x. refl) in
      update_tasks-Moves is_it finished_task (λ x. (refl, refl)) db
        (update_key job_key t.job_id with_done db.jobs) v
        (it-Evolves finished_task (finished_task-Evolves t leased))
        (jobs_once_update _ with_done (λ j. refl) db.jobs v.jobs_once)
        (jobs_below_update _ with_done (λ j. refl) db.next_job db.jobs v.jobs_below)
        (counted_with ts' with_done
          (λ j n p.
            Accounts-done db.tasks ts' j 1 (total j) (omega (arith, dones j, n)) (deads j) p)
          (λ j n p. Accounts-same db.tasks ts' j (total j) (omega (arith, dones j, n)) (deads j) p))

  death-Moves : Moves db (record db {
    tasks = update_key task_key t.id dead_task db.tasks;
    jobs = update_key job_key t.job_id with_failed db.jobs;
  })
  death-Moves =
      let ts' = update_key task_key t.id dead_task db.tasks in
      let total = λ (j : Job). count_total is_it dead_task (λ x. refl) j.id db.tasks in
      let dones = λ (j : Job).
        count_done_same is_it dead_task (λ x. refl) j.id db.tasks it_opens (λ x. refl) in
      let deads = λ (j : Job).
        count_dead_add is_it dead_task (λ x. refl) j.id db.tasks it_opens (λ x. refl) in
      update_tasks-Moves is_it dead_task (λ x. (refl, refl)) db
        (update_key job_key t.job_id with_failed db.jobs) v
        (it-Evolves dead_task (dead_task-Evolves t leased))
        (jobs_once_update _ with_failed (λ j. refl) db.jobs v.jobs_once)
        (jobs_below_update _ with_failed (λ j. refl) db.next_job db.jobs v.jobs_below)
        (counted_with ts' with_failed
          (λ j n p.
            Accounts-failed db.tasks ts' j 1 (total j) (dones j) (omega (arith, deads j, n)) p)
          (λ j n p. Accounts-same db.tasks ts' j (total j) (dones j) (omega (arith, deads j, n)) p))

  pub record_failure-Moves : (attempt : ℕ) → Moves db (record_failure attempt t db)
  unfolding record_failure
  record_failure-Moves attempt =
      if-elim (Moves db) (leb t.max_attempts attempt) _ _ (λ _. death-Moves)
        λ _.
          open_tasks-Moves is_it returned (λ x. (refl, refl)) db v
            (it-Evolves returned (returned_task-Evolves t leased)) it_opens (λ x. refl) (λ x. refl)

  pub record_success-Moves : (s : Submission) → Moves db (record_success s t db)
  unfolding record_success
  record_success-Moves s =
      others-Moves db _ _ success-Moves refl refl refl refl refl (λ team source ref d h. h)

same_key_eq :
    (team t : ℕ) (source c : String) (ref r : Text)
    → ((team == t) && str_eq source c && text_eq ref r) ≡ true
    → (team ≡ t) × (source ≡ c) × (ref ≡ r)
same_key_eq team t source c ref r e = (
  ==→eq _ _ (ground arith),
  (str_eq_iff source c).0 (ground arith),
  (text_eq_iff ref r).0 (ground arith),
)

any_row-append_false :
    {A : Type 0} (test : A → Bool) (xs ys : List A)
    → any_row test xs ≡ false
    → any_row test ys ≡ false
    → any_row test (xs ++ ys) ≡ false
any_row-append_false test [] ys h k = k
any_row-append_false test (x ∷ xs) ys h k = ground (arith, any_row-append_false test xs ys)

abbrev pub Ends : {A : Type 0} → Db → Result Error (Db × A) → Type 0
Ends db = Holds (λ p. Moves db p.0)

module _ (is_zero : String → Bool) (text_of : Json → Text) where
  -- A stored product is one whose key has no tombstone.
  inserted_out :
      (db : Db) (team t : ℕ) (source c : String) (ref r : Text) (payload : Payload)
      → is_deleted db team source ref ≡ false
      → is_deleted db t c r ≡ true
      → any_row (same_product t c r) db.products ≡ false
      → any_row (same_product t c r) (
          db.products ++ (new_product is_zero text_of db.next_product team source ref payload ∷ []))
        ≡ false
  unfolding new_product
  inserted_out db team t source c ref r payload n d h =
      elim (Bool-cases (
        same_product t c r (new_product is_zero text_of db.next_product team source ref payload))) [
          | inl e ↦
              let (ts, cs, rs) = same_key_eq team t source c ref r e in
              let both : true ≡ false =
                sym d
                ∙ subst (λ x. is_deleted db x c r ≡ false) ts
                    (subst (λ x. is_deleted db team x r ≡ false) cs
                      (subst (λ x. is_deleted db team source x ≡ false) rs n)) in
              absurd (cc)
          | inr e ↦ any_row-append_false (same_product t c r) db.products _ h (rw e refl)
        ]

  refreshed_out :
      (team t : ℕ) (source c : String) (ref r : Text) (payload : Payload) (ps : List Product)
      → any_row (same_product t c r) ps ≡ false
      → any_row
          (same_product t c r)
          (update_where (same_product team source ref) (refreshed is_zero text_of payload) ps)
        ≡ false
  unfolding refreshed
  refreshed_out team t source c ref r payload [] h = refl
  refreshed_out team t source c ref r payload (p ∷ ps) h =
      let rest = refreshed_out team t source c ref r payload ps (ground arith) in
      elim (Bool-cases (same_product team source ref p)) [
        | inl e ↦ rw e (ground (arith, rest))
        | inr e ↦ rw e (ground (arith, rest))
      ]

  store_product-Moves :
      (db : Db) (team : ℕ) (source : String) (ref : Text) (payload : Payload) (o : Option Product)
      → IsQueue db
      → is_deleted db team source ref ≡ false
      → Moves db (store_product is_zero text_of db team source ref payload o).0
  unfolding store_product
  store_product-Moves db team source ref payload none v n =
      others-Moves db db _ (Moves-refl db v) refl refl refl refl refl
        λ t c r d h. inserted_out db team t source c ref r payload n d h
  store_product-Moves db team source ref payload (some p) v n =
      others-Moves db db _ (Moves-refl db v) refl refl refl refl refl
        λ t c r d h. refreshed_out team t source c ref r payload db.products h

  upsert_titled-Moves :
      (db : Db) (team : ℕ) (source : String) (ref : Text) (payload : Payload) (title : Text)
      → IsQueue db
      → Ends db (upsert_titled is_zero text_of db team source ref payload title)
  unfolding upsert_titled
  upsert_titled-Moves db team source ref payload [] v = tt
  upsert_titled-Moves db team source ref payload (c ∷ cs) v =
      if-elim (Ends db) (is_deleted db team source ref) _ _ (λ _. Moves-refl db v)
        λ n.
          store_product-Moves db team source ref payload
            (find_first (same_product team source ref) db.products) v n

  pub product_upsert-Moves :
      (db : Db) (team : ℕ) (source : String) (ref : Text) (payload : Payload)
      → IsQueue db
      → Ends db (product_upsert is_zero text_of db team source ref payload)
  unfolding product_upsert
  product_upsert-Moves db team source ref payload v =
      upsert_titled-Moves db team source ref payload (title_of is_zero text_of payload) v

  ingest-Moves :
      (db : Db) (t : Task) (j : Job) (payload : Option Payload) (db' : Db)
      → Moves db db'
      → Ends db (ingest is_zero text_of t j payload db')
  unfolding ingest close_job
  ingest-Moves db t j none db' m = Moves-trans db db' _ m (finish_job-Moves t.job_id db')
  ingest-Moves db t j (some []) db' m = Moves-trans db db' _ m (finish_job-Moves t.job_id db')
  ingest-Moves db t j (some (f ∷ fs)) db' m =
      if-elim (Ends db) (str_eq j.job_kind "product_detail") _ _
        (λ _.
          upserted (product_upsert is_zero text_of db' t.team_id j.source t.target_ref (f ∷ fs))
            (product_upsert-Moves db' t.team_id j.source t.target_ref (f ∷ fs) m.valid))
        λ _. Moves-trans db db' _ m (finish_job-Moves t.job_id db')
    where
      upserted :
          (r : Result Error (Db × Upsert))
          → Ends db' r
          → Ends db (elim r [
            | ok (db'', u) ↦ ok (close_job t.job_id db'', Reply.accepted (some u))
            | err e ↦ err e
          ])
      upserted (ok (db'', u)) p =
          Moves-trans db db' _ m λ w. Moves-trans db' db'' _ p (finish_job-Moves t.job_id db'')
      upserted (err e) p = tt

  submit_held-Moves :
      (s : Submission) (t : Task) (j : Job) (db : Db)
      → IsQueue db
      → find_key task_key t.id db.tasks ≡ some t
      → is_leased t.status ≡ true
      → Ends db (submit_held is_zero text_of s t j db)
  unfolding submit_held close_job
  submit_held-Moves s t j db v found leased =
      if-elim (Ends db) s.success _ _
        (λ _.
          ingest-Moves db t j s.payload (record_success s t db)
            (record_success-Moves db t v found leased s))
        λ _.
          Moves-trans db (record_failure s.attempt t db) _
            (record_failure-Moves db t v found leased s.attempt)
            (finish_job-Moves t.job_id (record_failure s.attempt t db))

  pub submit_result-Moves :
      (worker : ℕ) (s : Submission) (db : Db)
      → IsQueue db
      → Ends db (submit_result is_zero text_of worker s db)
  unfolding submit_result submit_found submit_joined
  submit_result-Moves worker s db v = by_task (find_key task_key s.task_id db.tasks) λ t e.
      subst (λ k. find_key task_key k db.tasks ≡ some t)
        (sym (find_key-eq_some task_key s.task_id db.tasks t e)) e
    where
      by_job :
          (t : Task) (o : Option Job)
          → find_key task_key t.id db.tasks ≡ some t
          → Ends db (submit_joined is_zero text_of worker s t o db)
      by_job t none found = Moves-refl db v
      by_job t (some j) found =
          if-elim (Ends db) (holds_lease worker s.attempt t) _ _
            (λ e. submit_held-Moves s t j db v found (holds_lease-leased worker s.attempt t e))
            λ _. Moves-refl db v

      by_task :
          (o : Option Task)
          → ((t : Task) → o ≡ some t → find_key task_key t.id db.tasks ≡ some t)
          → Ends db (submit_found is_zero text_of worker s o db)
      by_task none f = Moves-refl db v
      by_task (some t) f = by_job t (job_of db t) (f t refl)

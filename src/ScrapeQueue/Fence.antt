-- ===== src/ScrapeQueue/Fence.antt =====
-- The leases of backend/src/erp/scrape/service.py: an answer is taken once for each lease.
use erp_all.Prelude.{
  ℕ, ◌≡◌, refl, sym, subst, Bool, false, Option, none, some, List, [], ◌∷◌, arith, String, ◌==◌,
  ==→eq, ◌&&◌, if-elim, find_key, find_key-eq_some, Result, ok, err, Holds, Holds-eq_ok, update_key,
  find_key-update_key_self, str_eq, leb, find_first,
}
use erp_all.Gtin.{Text}
use erp_all.Outbox.Payload.{Json}
use erp_all.ScrapeQueue.{
  Db, Task, TaskStatus, waiting, dispatched, in_progress, finished, dead, Job, Product, Error,
  task_key, is_leased, dead_task, is_deleted,
}
use erp_all.ScrapeQueue.Products.{
  Payload, Upsert, same_product, title_of, product_upsert, upsert_titled, store_product,
}
use erp_all.ScrapeQueue.Leases.{
  Submission, Reply, stale, accepted, job_of, holds_lease, works_for, submit_result, submit_found,
  submit_joined, submit_held, record_success, record_failure, close_job, ingest, finished_task,
  returned,
}
use erp_all.ScrapeQueue.Runs.{Op, Outside, run}
use erp_all.ScrapeQueue.Lifecycle.{life, life_of, Past, run-Past}
use erp_all.ScrapeQueue.Tables.{IsQueue}
use erp_all.ScrapeQueue.Submits.{submit_result-Moves}
use erp_all.ScrapeQueue.Outcomes.{run_life}

-- The task's row, if the answer was taken, is past the lease.
abbrev pub IsPast : ℕ → ℕ → List Task → Type 0
IsPast k a ts = (t : Task) × (find_key task_key k ts ≡ some t) × Past a (life t)

abbrev Taken : ℕ → ℕ → Db × Reply → Type 0
Taken k a (db, stale) = Unit
Taken k a (db, accepted u) = IsPast k a db.tasks

-- The row of `find_key` after an UPDATE by its key.
updated-IsPast :
    (change : Task → Task) (ts : List Task) (k a : ℕ) (t : Task)
    → ((x : Task) → (change x).id ≡ x.id)
    → find_key task_key k ts ≡ some t
    → Past a (life (change t))
    → IsPast k a (update_key task_key t.id change ts)
updated-IsPast change ts k a t keeps found p =
    let id = find_key-eq_some task_key k ts t found in
    (
      change t,
      subst (λ i. find_key task_key k (update_key task_key i change ts) ≡ some (change t)) (sym id)
          (find_key-update_key_self task_key change keeps k ts t found),
      p,
    )

module _ (is_zero : String → Bool) (text_of : Json → Text) where
  abbrev pub SameTasks : {A : Type 0} → Db → Result Error (Db × A) → Type 0
  SameTasks db = Holds (λ p. p.0.tasks ≡ db.tasks)

  product_upsert-tasks :
      (db : Db) (team : ℕ) (source : String) (ref : Text) (payload : Payload)
      → SameTasks db (product_upsert is_zero text_of db team source ref payload)
  unfolding product_upsert upsert_titled store_product
  product_upsert-tasks db team source ref payload = titled (title_of is_zero text_of payload)
    where
      stored :
          (o : Option Product)
          → (store_product is_zero text_of db team source ref payload o).0.tasks ≡ db.tasks
      stored none = refl
      stored (some p) = refl

      titled :
          (title : Text)
          → SameTasks db (upsert_titled is_zero text_of db team source ref payload title)
      titled [] = tt
      titled (c ∷ cs) =
          if-elim (SameTasks db) (is_deleted db team source ref) _ _ (λ _. refl)
            λ _. stored (find_first (same_product team source ref) db.products)

  pub ingest-tasks :
      (t : Task) (j : Job) (payload : Option Payload) (db : Db)
      → SameTasks db (ingest is_zero text_of t j payload db)
  unfolding ingest close_job
  ingest-tasks t j none db = refl
  ingest-tasks t j (some []) db = refl
  ingest-tasks t j (some (f ∷ fs)) db =
      if-elim (SameTasks db) (str_eq j.job_kind "product_detail") _ _
        (λ _.
          upserted (product_upsert is_zero text_of db t.team_id j.source t.target_ref (f ∷ fs))
            (product_upsert-tasks db t.team_id j.source t.target_ref (f ∷ fs)))
        λ _. refl
    where
      upserted :
          (r : Result Error (Db × Upsert))
          → SameTasks db r
          → SameTasks db (elim r [
            | ok (db', u) ↦ ok (close_job t.job_id db', accepted (some u))
            | err e ↦ err e
          ])
      upserted (ok (db', u)) p = p
      upserted (err e) p = tt

  settled_if_same :
      (k a : ℕ) (db : Db) (r : Result Error (Db × Reply))
      → SameTasks db r
      → IsPast k a db.tasks
      → Holds (Taken k a) r
  settled_if_same k a db (ok (db', stale)) e p = tt
  settled_if_same k a db (ok (db', accepted u)) e (t, found, past) = (t, rw e found, past)
  settled_if_same k a db (err x) e p = tt

  submit_held-Taken :
      (s : Submission) (t : Task) (j : Job) (db : Db)
      → find_key task_key s.task_id db.tasks ≡ some t
      → t.attempt ≡ s.attempt
      → Holds (Taken s.task_id s.attempt) (submit_held is_zero text_of s t j db)
  unfolding submit_held record_success record_failure close_job
  submit_held-Taken s t j db found e =
      if-elim (Holds (Taken s.task_id s.attempt)) s.success _ _
        (λ _.
          settled_if_same s.task_id s.attempt (record_success s t db)
            (ingest is_zero text_of t j s.payload (record_success s t db))
            (ingest-tasks t j s.payload (record_success s t db))
            (updated-IsPast finished_task db.tasks s.task_id s.attempt t (λ x. refl) found tt))
        λ _.
          if-elim (λ d. IsPast s.task_id s.attempt (close_job t.job_id d).tasks)
            (leb t.max_attempts s.attempt) _ _
            (λ _. updated-IsPast dead_task db.tasks s.task_id s.attempt t (λ x. refl) found tt)
            λ _.
              updated-IsPast returned db.tasks s.task_id s.attempt t (λ x. refl) found (omega arith)

  submit_result-Taken :
      (worker : ℕ) (s : Submission) (db : Db)
      → Holds (Taken s.task_id s.attempt) (submit_result is_zero text_of worker s db)
  unfolding submit_result submit_found submit_joined
  submit_result-Taken worker s db = by_task (find_key task_key s.task_id db.tasks) (λ t e. e)
    where
      by_job :
          (t : Task) (o : Option Job)
          → find_key task_key s.task_id db.tasks ≡ some t
          → Holds (Taken s.task_id s.attempt) (submit_joined is_zero text_of worker s t o db)
      by_job t none found = tt
      by_job t (some j) found =
          if-elim (Holds (Taken s.task_id s.attempt)) (holds_lease worker s.attempt t) _ _
            (λ e. submit_held-Taken s t j db found (==→eq _ _ (ground arith))) λ _. tt

      by_task :
          (o : Option Task)
          → ((t : Task) → o ≡ some t → find_key task_key s.task_id db.tasks ≡ some t)
          → Holds (Taken s.task_id s.attempt) (submit_found is_zero text_of worker s o db)
      by_task none f = tt
      by_task (some t) f = by_job t (job_of db t) (f t refl)

  stale_not_held : (worker a : ℕ) (t : Task) → Past a (life t) → holds_lease worker a t ≡ false
  stale_not_held worker a t p = by_status t.status p
    where
      by_status :
          (s : TaskStatus)
          → Past a (life_of s t.attempt t.worker_id)
          → (works_for worker t.worker_id && (t.attempt == a) && is_leased s) ≡ false
      by_status waiting q = ground arith
      by_status dispatched q = ground arith
      by_status in_progress q = ground arith
      by_status finished q = ground arith
      by_status dead q = ground arith

  past_stale :
      (worker : ℕ) (s : Submission) (db : Db)
      → IsPast s.task_id s.attempt db.tasks
      → submit_result is_zero text_of worker s db ≡ ok (db, stale)
  unfolding submit_result submit_found submit_joined
  past_stale worker s db (t, found, p) = rw found (by_job (job_of db t))
    where
      by_job : (o : Option Job) → submit_joined is_zero text_of worker s t o db ≡ ok (db, stale)
      by_job none = refl
      by_job (some j) = rw (stale_not_held worker s.attempt t p) refl

-- An answer that was taken for a lease is taken once: after any run, every answer under the same task
-- and attempt, from any worker, is stale and changes nothing.
pub taken_once :
    (o : Outside) (worker other : ℕ) (s again : Submission) (ops : List Op) (db db' : Db)
    (u : Option Upsert)
    → IsQueue db
    → submit_result o.is_zero o.text_of worker s db ≡ ok (db', accepted u)
    → again.task_id ≡ s.task_id
    → again.attempt ≡ s.attempt
    → submit_result o.is_zero o.text_of other again (run o ops db') ≡ ok (run o ops db', stale)
taken_once o worker other s again ops db db' u v h ids attempts =
    let valid : IsQueue db' =
      (Holds-eq_ok (λ p. _) _ (db', accepted u)
        (submit_result-Moves o.is_zero o.text_of worker s db v) h).valid in
    let (t, found, past) =
      Holds-eq_ok (Taken s.task_id s.attempt) _ (db', accepted u)
        (submit_result-Taken o.is_zero o.text_of worker s db) h in
    let (t', found', e) = run_life o ops db' s.task_id t valid found in
    past_stale o.is_zero o.text_of other again (run o ops db') (
      t',
      subst (λ k. find_key task_key k (run o ops db').tasks ≡ some t') (sym ids) found',
      subst (λ a. Past a (life t')) (sym attempts)
          (run-Past s.attempt (life t) (life t') e.lives past),
    )

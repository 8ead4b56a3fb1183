-- ===== src/ScrapeQueue/Order.antt =====
-- `pull_tasks` of backend/src/erp/scrape/service.py: which candidates are leased, and that a lease counts.
use erp_all.Prelude.{
  ℕ, suc, ◌≡◌, refl, sym, ap, subst, ◌∙◌, inl, inr, Bool, true, false, none, some, List, [], ◌∷◌,
  arith, String, ◌==◌, ==-refl, ◌&&◌, map, All, All-In, In, any_row, any_row-In, find_key,
  find_first-update_where, update_where, find_key_unique, ok, Bool-cases,
}
use erp_all.Gtin.{Text}
use erp_all.Outbox.Payload.{Json}
use erp_all.ScrapeQueue.{Db, Node, Task, Job, task_key, job_key, job_waits}
use erp_all.ScrapeQueue.Tasks.{Settings, reclaim, is_draining}
use erp_all.ScrapeQueue.Leases.{
  Pair, Lease, lease_of, comes_first, pullable, leased_task, started_job, start_jobs, take_leases,
  pull_tasks, Submission, accepted, holds_lease, submit_result, submit_found, submit_joined,
  submit_held, record_failure, close_job,
}
use erp_all.ScrapeQueue.Tables.{IsQueue}
use erp_all.ScrapeQueue.Reclaims.{reclaim-Moves}
use erp_all.ScrapeQueue.Pulls.{is_named, lease_all-eq, pullable-Pulls, pullable-Distinct, Pulls}

abbrev Sorted : List Pair → Type 0
Sorted [] = Unit
Sorted (p ∷ ps) = All (λ q. comes_first p q ≡ true) ps × Sorted ps

In-map_lease :
    (l : Lease) (ps : List Pair) → In l (map lease_of ps) → (p : Pair) × In p ps × (l ≡ lease_of p)
In-map_lease l [] i = absurd i
In-map_lease l (p ∷ ps) (inl e) = (p, inl refl, e)
In-map_lease l (p ∷ ps) (inr i) = let (q, j, e) = In-map_lease l ps i in (q, inr j, e)

is_named-In : (ps : List Pair) (p : Pair) → In p ps → is_named ps p.task ≡ true
is_named-In ps p i = elim (Bool-cases (is_named ps p.task)) [
  | inl e ↦ e
  | inr e ↦
      let no = any_row-In (λ (q : Pair). q.task.id == p.task.id) ps p e i in
      absurd (let yes = ==-refl p.task.id in cc)
]

module _ (is_zero : String → Bool) (text_of : Json → Text) where
  -- The failure of a task that its worker holds is taken.
  failure_taken :
      (worker : ℕ) (s : Submission) (db : Db) (t : Task) (j : Job)
      → s.success ≡ false
      → find_key task_key s.task_id db.tasks ≡ some t
      → find_key job_key t.job_id db.jobs ≡ some j
      → holds_lease worker s.attempt t ≡ true
      → (d : Db) × (submit_result is_zero text_of worker s db ≡ ok (d, accepted none))
  unfolding submit_result submit_found submit_joined submit_held close_job record_failure
  failure_taken worker s db t j f found owner held =
      (close_job t.job_id (record_failure s.attempt t db), rw (found, owner, held, f) refl)

  take_leases-taken :
      (now : ℕ) (locked : List ℕ) (node : Node) (count : ℕ) (db : Db) (l : Lease) (s : Submission)
      → IsQueue db
      → In l (take_leases now node.id (pullable locked count db) db).1
      → s.task_id ≡ l.task_id
      → s.attempt ≡ l.attempt
      → s.success ≡ false
      → (d : Db) × (submit_result is_zero text_of node.id s
            (take_leases now node.id (pullable locked count db) db).0
          ≡ ok (d, accepted none))
  unfolding take_leases start_jobs
  take_leases-taken now locked node count db l s v i ids attempts f =
      let ps = pullable locked count db in
      let (p, j, e) = In-map_lease l ps i in
      let q : Pulls locked db p =
        All-In (Pulls locked db) p ps (pullable-Pulls locked db count) j in
      let here = find_key_unique task_key db.tasks p.task v.tasks_once q.row in
      let (t, found, change) =
        find_first-update_where {0} (λ a b. is_named ps a ≡ true → b ≡ leased_task now node.id a)
          (λ (x : Task). x.id == p.task.id) (is_named ps) (leased_task now node.id) db.tasks p.task
          (λ x e d. absurd (cc)) (λ x e. (refl, λ _. refl)) here in
      let leased : t ≡ leased_task now node.id p.task = change (is_named-In ps p j) in
      let (job, owner, _) =
        find_first-update_where {0} (λ (a b : Job). Unit) (λ (x : Job). x.id == p.task.job_id)
          (λ (x : Job). any_row (λ (r : Pair). r.job.id == x.id) ps && job_waits x.status)
          started_job db.jobs p.job (λ x e. tt) (λ x e. (refl, tt)) q.owner in
      failure_taken node.id s _ t job f
        (rw (lease_all-eq now node.id ps db.tasks (pullable-Distinct locked db count v)) (
          subst
            (λ k.
              find_key task_key k (update_where (is_named ps) (leased_task now node.id) db.tasks)
              ≡ some t)
            (sym (ids ∙ ap (λ (x : Lease). x.task_id) e)) found))
        (rw leased owner) (rw leased (held_it p (attempts ∙ ap (λ (x : Lease). x.attempt) e)))
    where
      held_it :
          (p : Pair)
          → s.attempt ≡ suc p.task.attempt
          → holds_lease node.id s.attempt (leased_task now node.id p.task) ≡ true
      held_it p e = ground arith

  -- A lease that a worker is given counts: the worker may answer at once that the task failed, with the
  -- number of the lease, and the answer is taken.
  pub pulled_taken :
      (cfg : Settings) (now : ℕ) (locked : List ℕ) (node : Node) (count : ℕ) (db : Db) (l : Lease)
      (s : Submission)
      → IsQueue db
      → In l (pull_tasks cfg now locked node count db).1
      → s.task_id ≡ l.task_id
      → s.attempt ≡ l.attempt
      → s.success ≡ false
      → (d : Db) × (submit_result is_zero text_of node.id s
            (pull_tasks cfg now locked node count db).0
          ≡ ok (d, accepted none))
  unfolding pull_tasks
  pulled_taken cfg now locked node count db l s v i ids attempts f =
      elim (Bool-cases (is_draining node.status)) [
        | inl e ↦ absurd (rw e at i)
        | inr e ↦
            let db' = (reclaim cfg now none none db).0 in
            rw e (
              take_leases-taken now locked node count db' l s
                (reclaim-Moves cfg now none none db v).valid (rw e at i) ids attempts f)
      ]

-- ===== src/ScrapeQueue/Pulls.antt =====
-- `pull_tasks` of backend/src/erp/scrape/service.py: the rows that are leased are rows that wait, each
-- once, and the loop of UPDATEs is one UPDATE of them.
use erp_all.Prelude.{
  ℕ, zero, suc, ◌≡◌, ◌≢◌, refl, sym, ap, subst, ◌∙◌, inl, inr, Bool, true, false, Option, none,
  some, List, [], ◌∷◌, arith, ◌==◌, ==→eq, ◌&&◌, if◌then◌else◌, if-elim, All, All-In, All-from_In,
  In, update_where, update_key, Distinct, Distinct-unique, Bool-cases, any_row, any_row-eq_true,
}
use erp_all.ScrapeQueue.{
  Db, Node, Task, Job, task_key, is_waiting, job_is_live, job_waits, JobStatus, pending, running,
  done, partial, failed, cancelled,
}
use erp_all.ScrapeQueue.Tasks.{Settings, reclaim, is_draining}
use erp_all.ScrapeQueue.Leases.{
  Pair, candidates, add_candidate, job_of, is_pullable, comes_first, insert_pair, in_order, limit,
  pullable, leased_task, lease_all, start_jobs, started_job, take_leases, pull_tasks,
}
use erp_all.ScrapeQueue.Lifecycle.{leased_task-Evolves}
use erp_all.ScrapeQueue.Accounts.{Accounts-started}
use erp_all.ScrapeQueue.Tables.{
  IsQueue, Moves, Moves-refl, Moves-trans, open_tasks-Moves, update_jobs-Moves, waiting_open,
}
use erp_all.ScrapeQueue.Reclaims.{reclaim-Moves}

abbrev pub pair_id : Pair → ℕ
pair_id p = p.task.id

-- The UPDATEs of the loop, as one.
abbrev pub is_named : List Pair → Task → Bool
is_named ps t = any_row (λ (p : Pair). p.task.id == t.id) ps

absent-named :
    (k : ℕ) (ps : List Pair) (t : Task)
    → All (λ p. k ≢ pair_id p) ps
    → t.id ≡ k
    → is_named ps t ≡ false
absent-named k [] t n e = refl
absent-named k (p ∷ ps) t n e = ground (arith, absent-named k ps t n.1 e, n.0)

lease_all-once :
    (now w : ℕ) (p : Pair) (ps : List Pair) (ts : List Task)
    → All (λ q. pair_id p ≢ pair_id q) ps
    → update_where
        (is_named ps)
        (leased_task now w)
        (update_key task_key p.task.id (leased_task now w) ts)
      ≡ update_where (is_named (p ∷ ps)) (leased_task now w) ts
lease_all-once now w p ps [] n = refl
lease_all-once now w p ps (t ∷ ts) n =
    let rest = lease_all-once now w p ps ts n in
    elim (Bool-cases (t.id == p.task.id)) [
      | inl e ↦
          let same : t.id ≡ p.task.id = ==→eq _ _ e in
          let later = absent-named p.task.id ps (leased_task now w t) n same in
          let here : (p.task.id == t.id) ≡ true = ground arith in
          rw (e, later, here) (ap (λ xs. leased_task now w t ∷ xs) rest)
      | inr e ↦
          let other : (p.task.id == t.id) ≡ false = ground arith in
          rw (e, other) (ap (λ xs. (if is_named ps t then leased_task now w t else t) ∷ xs) rest)
    ]

pub lease_all-eq :
    (now w : ℕ) (ps : List Pair) (ts : List Task)
    → Distinct pair_id ps
    → lease_all now w ps ts ≡ update_where (is_named ps) (leased_task now w) ts
unfolding lease_all
lease_all-eq now w [] ts d = unchanged ts
  where
    unchanged : (xs : List Task) → xs ≡ update_where (is_named []) (leased_task now w) xs
    unchanged [] = refl
    unchanged (x ∷ xs) = ap (λ ys. x ∷ ys) (unchanged xs)
lease_all-eq now w (p ∷ ps) ts d =
    lease_all-eq now w ps (update_key task_key p.task.id (leased_task now w) ts) d.1
    ∙ lease_all-once now w p ps ts d.0

-- Sorting and the limit keep what holds of the pairs.
module _ (P : Pair → Type 0) where
  pub insert_pair-All : (p : Pair) (qs : List Pair) → P p → All P qs → All P (insert_pair p qs)
  unfolding insert_pair
  insert_pair-All p [] a b = (a, tt)
  insert_pair-All p (q ∷ qs) a b =
      if-elim (All P) (comes_first p q) (p ∷ q ∷ qs) (q ∷ insert_pair p qs) (λ _. (a, b))
        λ _. (b.0, insert_pair-All p qs a b.1)

  in_order-All : (ps : List Pair) → All P ps → All P (in_order ps)
  unfolding in_order
  in_order-All [] a = tt
  in_order-All (p ∷ ps) a = insert_pair-All p (in_order ps) a.0 (in_order-All ps a.1)

  limit-All : (n : ℕ) (ps : List Pair) → All P ps → All P (limit n ps)
  limit-All zero ps a = tt
  limit-All (suc n) [] a = tt
  limit-All (suc n) (p ∷ ps) a = (a.0, limit-All n ps a.1)

insert_pair-Distinct :
    (p : Pair) (qs : List Pair)
    → All (λ q. pair_id p ≢ pair_id q) qs
    → Distinct pair_id qs
    → Distinct pair_id (insert_pair p qs)
unfolding insert_pair
insert_pair-Distinct p [] a b = (tt, tt)
insert_pair-Distinct p (q ∷ qs) a b =
    if-elim (Distinct pair_id) (comes_first p q) (p ∷ q ∷ qs) (q ∷ insert_pair p qs) (λ _. (a, b))
      λ _. (
        insert_pair-All (λ r. pair_id q ≢ pair_id r) p qs (λ e. a.0 (sym e)) b.0,
        insert_pair-Distinct p qs a.1 b.1,
      )

in_order-Distinct : (ps : List Pair) → Distinct pair_id ps → Distinct pair_id (in_order ps)
unfolding in_order
in_order-Distinct [] d = tt
in_order-Distinct (p ∷ ps) d =
    insert_pair-Distinct p (in_order ps) (in_order-All (λ q. pair_id p ≢ pair_id q) ps d.0)
      (in_order-Distinct ps d.1)

limit-Distinct : (n : ℕ) (ps : List Pair) → Distinct pair_id ps → Distinct pair_id (limit n ps)
limit-Distinct zero ps d = tt
limit-Distinct (suc n) [] d = tt
limit-Distinct (suc n) (p ∷ ps) d =
    (limit-All (λ q. pair_id p ≢ pair_id q) n ps d.0, limit-Distinct n ps d.1)

module _ (locked : List ℕ) (db : Db) where
  -- A candidate is a row that waits, with its job that is live.
  pub record Pulls (p : Pair) : Type 0 where
    pub row : In p.task db.tasks
    pub owner : job_of db p.task ≡ some p.job
    pub can : is_pullable locked p.task p.job ≡ true

  add_candidate-All :
      (P : Pair → Type 0) (t : Task) (o : Option Job) (rest : List Pair)
      → ((j : Job) → o ≡ some j → is_pullable locked t j ≡ true → P (record { task = t; job = j }))
      → All P rest
      → All P (add_candidate locked t o rest)
  add_candidate-All P t none rest f a = a
  add_candidate-All P t (some j) rest f a =
      if-elim (All P) (is_pullable locked t j) (record { task = t; job = j } ∷ rest) rest
        (λ e. (f j refl e, a)) (λ _. a)

  candidates-Pulls :
      (ts : List Task)
      → ((t : Task) → In t ts → In t db.tasks)
      → All Pulls (candidates locked db ts)
  unfolding candidates
  candidates-Pulls [] f = tt
  candidates-Pulls (t ∷ ts) f =
      add_candidate-All Pulls t (job_of db t) (candidates locked db ts)
        (λ j o e. record { row = f t (inl refl); owner = o; can = e })
        (candidates-Pulls ts (λ x i. f x (inr i)))

  candidates-ne :
      (k : ℕ) (ts : List Task)
      → All (λ (t : Task). k ≢ t.id) ts
      → All (λ p. k ≢ pair_id p) (candidates locked db ts)
  unfolding candidates
  candidates-ne k [] n = tt
  candidates-ne k (t ∷ ts) n =
      add_candidate-All (λ p. k ≢ pair_id p) t (job_of db t) (candidates locked db ts)
        (λ j o e. n.0) (candidates-ne k ts n.1)

  candidates-Distinct :
      (ts : List Task) → Distinct task_key ts → Distinct pair_id (candidates locked db ts)
  unfolding candidates
  candidates-Distinct [] d = tt
  candidates-Distinct (t ∷ ts) d =
      added _ (job_of db t) (candidates-ne t.id ts d.0) (candidates-Distinct ts d.1)
    where
      added :
          (ps : List Pair) (o : Option Job)
          → All (λ p. t.id ≢ pair_id p) ps
          → Distinct pair_id ps
          → Distinct pair_id (add_candidate locked t o ps)
      added ps none n e = e
      added ps (some j) n e =
          if-elim (Distinct pair_id) (is_pullable locked t j) (record { task = t; job = j } ∷ ps) ps
            (λ _. (n, e)) (λ _. e)

  pub pullable-Pulls : (count : ℕ) → All Pulls (pullable locked count db)
  unfolding pullable
  pullable-Pulls count =
      limit-All Pulls count _
        (in_order-All Pulls (candidates locked db db.tasks) (candidates-Pulls db.tasks (λ t i. i)))

  pub pullable-Distinct : (count : ℕ) → IsQueue db → Distinct pair_id (pullable locked count db)
  unfolding pullable
  pullable-Distinct count v =
      limit-Distinct count _ (in_order-Distinct _ (candidates-Distinct db.tasks v.tasks_once))

  pub named_waits :
      (ps : List Pair) (t : Task)
      → IsQueue db
      → All Pulls ps
      → In t db.tasks
      → is_named ps t ≡ true
      → is_waiting t.status ≡ true
  named_waits ps t v a i e =
      let (p, j, same) = any_row-eq_true (λ (p : Pair). p.task.id == t.id) ps e in
      let q : Pulls p = All-In Pulls p ps a j in
      let here = Distinct-unique task_key db.tasks p.task t v.tasks_once q.row i (==→eq _ _ same) in
      let can = q.can in subst (λ (x : Task). is_waiting x.status ≡ true) here (ground arith)

waits_live : (s : JobStatus) → job_waits s ≡ true → job_is_live s ≡ true
waits_live pending h = refl
waits_live running h = absurd (cc)
waits_live done h = absurd (cc)
waits_live partial h = absurd (cc)
waits_live failed h = absurd (cc)
waits_live cancelled h = absurd (cc)

start_jobs-Moves :
    (ps : List Pair) (db : Db) → IsQueue db → Moves db (record db { jobs = start_jobs ps db.jobs })
unfolding start_jobs
start_jobs-Moves ps db v =
    update_jobs-Moves
      (λ (j : Job). any_row (λ (p : Pair). p.job.id == j.id) ps && job_waits j.status) started_job
      (λ j. refl) db v λ j e p. Accounts-started db.tasks j (waits_live j.status (ground arith)) p

take_leases-Moves :
    (now w : ℕ) (locked : List ℕ) (ps : List Pair) (db : Db)
    → IsQueue db
    → Distinct pair_id ps
    → All (Pulls locked db) ps
    → Moves db (take_leases now w ps db).0
unfolding take_leases
take_leases-Moves now w locked ps db v d a =
    let waits = named_waits locked db ps in
    let leased = record db { tasks = lease_all now w ps db.tasks } in
    Moves-trans db leased _
      (subst (λ ts. Moves db (record db { tasks = ts })) (sym (lease_all-eq now w ps db.tasks d))
        (open_tasks-Moves (is_named ps) (leased_task now w) (λ t. (refl, refl)) db v
          (All-from_In _ db.tasks λ t i e. leased_task-Evolves now w t (waits t v a i e))
          (All-from_In _ db.tasks λ t i e. waiting_open t.status (waits t v a i e)) (λ t. refl)
          (λ t. refl)))
      (start_jobs-Moves ps leased)

pub pull_tasks-Moves :
    (cfg : Settings) (now : ℕ) (locked : List ℕ) (node : Node) (count : ℕ) (db : Db)
    → IsQueue db
    → Moves db (pull_tasks cfg now locked node count db).0
unfolding pull_tasks
pull_tasks-Moves cfg now locked node count db v = elim (Bool-cases (is_draining node.status)) [
  | inl e ↦ rw e (Moves-refl db v)
  | inr e ↦
      let db' = (reclaim cfg now none none db).0 in
      rw e (
        Moves-trans db db' _ (reclaim-Moves cfg now none none db v) λ w.
          take_leases-Moves now node.id locked (pullable locked count db') db' w
            (pullable-Distinct locked db' count w) (pullable-Pulls locked db' count))
]

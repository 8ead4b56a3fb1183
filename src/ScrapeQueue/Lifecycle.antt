-- ===== src/ScrapeQueue/Lifecycle.antt =====
-- The contract of backend/src/erp/scrape/service.py for one task: what its life may be, whatever the
-- statements, as a step relation; and the rows that a table of tasks may turn into.
use erp_all.Prelude.{
  ℕ, suc, ◌≤◌, ◌<◌, ◌≡◌, refl, sym, subst, Bool, true, false, Option, some, arith,
}
use erp_all.ScrapeQueue.{
  Task, TaskStatus, waiting, dispatched, in_progress, finished, dead, is_waiting, is_leased,
  dead_task,
}
use erp_all.ScrapeQueue.Tasks.{returned_task, lost_task}
use erp_all.ScrapeQueue.Leases.{leased_task, finished_task}

-- A task waits, is held by a worker, or is over, with success or without. The number is that of its
-- last lease.
pub data Life : Type 0 where
  queued : ℕ → Life
  held : Option ℕ → ℕ → Life
  over : Bool → ℕ → Life

infix 40 ◌⟶◌ ◌⟶*◌
pub data ◌⟶◌ : Life → Life → Type 0 where
  lease : {n w : ℕ} → queued n ⟶ held (some w) (suc n)
  lose : {n : ℕ} {w : Option ℕ} → held w n ⟶ queued n
  succeed : {n : ℕ} {w : Option ℕ} → held w n ⟶ over true n
  fail : {n : ℕ} {w : Option ℕ} → held w n ⟶ over false n
  cancel : {n : ℕ} → queued n ⟶ over false n

pub data ◌⟶*◌ : Life → Life → Type 0 where
  here : {l : Life} → l ⟶* l
  then : {k l m : Life} → k ⟶ l → l ⟶* m → k ⟶* m

⟶*-trans : (k l m : Life) → k ⟶* l → l ⟶* m → k ⟶* m
⟶*-trans k l m here q = q
⟶*-trans k l m (then s p) q = then s (⟶*-trans _ l m p q)

abbrev pub life_of : TaskStatus → ℕ → Option ℕ → Life
life_of waiting n w = queued n
life_of dispatched n w = held w n
life_of in_progress n w = held w n
life_of finished n w = over true n
life_of dead n w = over false n

-- The abstract view of a row.
abbrev pub life : Task → Life
life t = life_of t.status t.attempt t.worker_id

life_of-leased :
    (s : TaskStatus) (n : ℕ) (w : Option ℕ) → is_leased s ≡ true → life_of s n w ≡ held w n
life_of-leased waiting n w h = absurd (cc)
life_of-leased dispatched n w h = refl
life_of-leased in_progress n w h = refl
life_of-leased finished n w h = absurd (cc)
life_of-leased dead n w h = absurd (cc)

life_of-waiting :
    (s : TaskStatus) (n : ℕ) (w : Option ℕ) → is_waiting s ≡ true → life_of s n w ≡ queued n
life_of-waiting waiting n w h = refl
life_of-waiting dispatched n w h = absurd (cc)
life_of-waiting in_progress n w h = absurd (cc)
life_of-waiting finished n w h = absurd (cc)
life_of-waiting dead n w h = absurd (cc)

-- The row of one task at two times.
pub record Evolves (t t' : Task) : Type 0 where
  pub id : t'.id ≡ t.id
  pub job_id : t'.job_id ≡ t.job_id
  pub target_ref : t'.target_ref ≡ t.target_ref
  pub max_attempts : t'.max_attempts ≡ t.max_attempts
  pub lives : life t ⟶* life t'

pub Evolves-refl : (t : Task) → Evolves t t
Evolves-refl t = record {
  id = refl;
  job_id = refl;
  target_ref = refl;
  max_attempts = refl;
  lives = here;
}

pub Evolves-trans : (r s t : Task) → Evolves r s → Evolves s t → Evolves r t
Evolves-trans r s t p q = record {
  id = cc;
  job_id = cc;
  target_ref = cc;
  max_attempts = cc;
  lives = ⟶*-trans (life r) (life s) (life t) p.lives q.lives;
}

Evolves-leased :
    (t t' : Task)
    → (t'.id ≡ t.id)
      × (t'.job_id ≡ t.job_id)
      × (t'.target_ref ≡ t.target_ref)
      × (t'.max_attempts ≡ t.max_attempts)
    → is_leased t.status ≡ true
    → held t.worker_id t.attempt ⟶ life t'
    → Evolves t t'
Evolves-leased t t' (a, b, c, d) h s = record {
  id = a;
  job_id = b;
  target_ref = c;
  max_attempts = d;
  lives =
      subst (λ l. l ⟶* life t') (sym (life_of-leased t.status t.attempt t.worker_id h))
        (then s here);
}

-- Each UPDATE of a row of the table is a step of the relation.
pub returned_task-Evolves : (t : Task) → is_leased t.status ≡ true → Evolves t (returned_task t)
returned_task-Evolves t h = Evolves-leased t (returned_task t) (refl, refl, refl, refl) h lose

pub lost_task-Evolves : (t : Task) → is_leased t.status ≡ true → Evolves t (lost_task t)
lost_task-Evolves t h = Evolves-leased t (lost_task t) (refl, refl, refl, refl) h fail

pub finished_task-Evolves : (t : Task) → is_leased t.status ≡ true → Evolves t (finished_task t)
finished_task-Evolves t h = Evolves-leased t (finished_task t) (refl, refl, refl, refl) h succeed

pub dead_task-Evolves : (t : Task) → is_leased t.status ≡ true → Evolves t (dead_task t)
dead_task-Evolves t h = Evolves-leased t (dead_task t) (refl, refl, refl, refl) h fail

pub cancelled_task-Evolves : (t : Task) → is_waiting t.status ≡ true → Evolves t (dead_task t)
cancelled_task-Evolves t h = record {
  id = refl;
  job_id = refl;
  target_ref = refl;
  max_attempts = refl;
  lives =
      subst (λ l. l ⟶* over false t.attempt)
        (sym (life_of-waiting t.status t.attempt t.worker_id h)) (then cancel here);
}

pub leased_task-Evolves :
    (now w : ℕ) (t : Task) → is_waiting t.status ≡ true → Evolves t (leased_task now w t)
leased_task-Evolves now w t h = record {
  id = refl;
  job_id = refl;
  target_ref = refl;
  max_attempts = refl;
  lives =
      subst (λ l. l ⟶* held (some w) (suc t.attempt))
        (sym (life_of-waiting t.status t.attempt t.worker_id h)) (then lease here);
}

-- What is over stays as it is.
pub over_final : (b : Bool) (n : ℕ) (l : Life) → over b n ⟶* l → l ≡ over b n
over_final b n l here = refl
over_final b n l (then s p) = elim s [ ]

-- The lease with the number is no longer held, and will not be again.
abbrev pub Past : ℕ → Life → Type 0
Past a (queued n) = a ≤ n
Past a (held w n) = a < n
Past a (over b n) = Unit

step-Past : (a : ℕ) (l m : Life) → l ⟶ m → Past a l → Past a m
step-Past a l m lease p = omega arith
step-Past a l m lose p = omega arith
step-Past a l m succeed p = tt
step-Past a l m fail p = tt
step-Past a l m cancel p = tt

pub run-Past : (a : ℕ) (l m : Life) → l ⟶* m → Past a l → Past a m
run-Past a l m here p = p
run-Past a l m (then s q) p = run-Past a _ m q (step-Past a l _ s p)

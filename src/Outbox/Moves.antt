-- ===== src/Outbox/Moves.antt =====
-- How one command of the outbox may change, whatever the processes do: its identity stays, its fence
-- and its attempts only grow, and once its request may have left it is never sent again.
use native.Mathlib.Nat.{le_refl, le_trans}
use erp_all.Prelude.{ℕ, String, ◌≤◌, ◌≡◌, refl, ◌∙◌, Bool, true, false, Option, arith}
use erp_all.Outbox.{
  Status, pending, inflight, Command, is_pending, is_inflight, is_verify_pending, claimed,
  Completion, completed, released, Verdict, resolved,
}
use erp_all.Outbox.Queue.{swept}

-- The request has been sent, or may have been: nothing may send it again.
abbrev pub is_past : Status → Bool
is_past pending = false
is_past inflight = false
is_past _ = true

-- From `verify_pending` a command only gets its verdict, and a verdict stays.
abbrev pub Allowed : Status → Status → Type 0
Allowed pending t = Unit
Allowed inflight t = Unit
Allowed Status.succeeded Status.succeeded = Unit
Allowed Status.failed Status.failed = Unit
Allowed Status.verify_pending t = is_past t ≡ true
Allowed _ _ = ⊥

pub record Moves (c d : Command) : Type 0 where
  pub id : d.id ≡ c.id
  pub team_id : d.team_id ≡ c.team_id
  pub store_id : d.store_id ≡ c.store_id
  pub action : d.action ≡ c.action
  pub idempotency_key : d.idempotency_key ≡ c.idempotency_key
  pub payload_hash : d.payload_hash ≡ c.payload_hash
  pub fence_le : c.fence ≤ d.fence
  pub attempts_le : c.attempts ≤ d.attempts
  pub allowed : Allowed c.status d.status
  pub not_resent : is_past c.status ≡ true → d.attempts ≡ c.attempts

Allowed-refl : (s : Status) → Allowed s s
Allowed-refl s = ground arith

Allowed-trans : (s t u : Status) → Allowed s t → Allowed t u → Allowed s u
Allowed-trans s t u p q = ground arith

Allowed-is_past : (s t : Status) → Allowed s t → is_past s ≡ true → is_past t ≡ true
Allowed-is_past s t p h = ground arith

pub Moves-refl : (c : Command) → Moves c c
Moves-refl c = record {
  id = refl;
  team_id = refl;
  store_id = refl;
  action = refl;
  idempotency_key = refl;
  payload_hash = refl;
  fence_le = le_refl _;
  attempts_le = le_refl _;
  allowed = Allowed-refl c.status;
  not_resent = λ _. refl;
}

pub Moves-trans : (b c d : Command) → Moves b c → Moves c d → Moves b d
Moves-trans b c d p q = record {
  id = q.id ∙ p.id;
  team_id = q.team_id ∙ p.team_id;
  store_id = q.store_id ∙ p.store_id;
  action = q.action ∙ p.action;
  idempotency_key = q.idempotency_key ∙ p.idempotency_key;
  payload_hash = q.payload_hash ∙ p.payload_hash;
  fence_le = le_trans p.fence_le q.fence_le;
  attempts_le = le_trans p.attempts_le q.attempts_le;
  allowed = Allowed-trans b.status c.status d.status p.allowed q.allowed;
  not_resent = λ h. q.not_resent (Allowed-is_past b.status c.status p.allowed h) ∙ p.not_resent h;
}

-- Every write of a status, at the rows that its WHERE admits.
pub claimed-Moves :
    (now lease : ℕ) (c : Command) → is_pending c.status ≡ true → Moves c (claimed now lease c)
unfolding claimed
claimed-Moves now lease c h = ground arith

pub completed-Moves :
    (now : ℕ) (to : Completion) (result code : Option String) (c : Command)
    → is_inflight c.status ≡ true
    → Moves c (completed now to result code c)
unfolding completed
completed-Moves now to result code c h = ground arith

pub released-Moves : (c : Command) → is_inflight c.status ≡ true → Moves c (released c)
unfolding released
released-Moves c h = ground arith

pub resolved-Moves :
    (now : ℕ) (to : Verdict) (result code : Option String) (c : Command)
    → is_verify_pending c.status ≡ true
    → Moves c (resolved now to result code c)
unfolding resolved
resolved-Moves now to result code c h = ground arith

pub swept-Moves : (c : Command) → is_inflight c.status ≡ true → Moves c (swept c)
unfolding swept
swept-Moves c h = ground arith

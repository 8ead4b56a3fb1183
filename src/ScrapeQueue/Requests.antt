-- ===== src/ScrapeQueue/Requests.antt =====
-- `create_job`, `register_node` and `authenticate_node` of backend/src/erp/scrape/service.py: what a
-- request leads to, and why it is refused.
use erp_all.Prelude.{
  ℕ, ◌<◌, ◌≡◌, ◌≢◌, refl, sym, ◌⊎◌, inl, inr, Bool, true, false, not, Option, none, some, List, [],
  ◌++◌, String, if-elim, All, In, any_row, select_where, length, Result, ok, err, Holds,
  Holds-eq_ok, Bool-cases, str_eq, str_eq_iff, str_eq-refl, find_first-append_none, find_first-none,
}
use erp_all.Prelude.Text.{text_eq}
use erp_all.Gtin.{Text}
use erp_all.ScrapeQueue.{
  Db, Node, Error, kind_unsupported, input_invalid, no_valid_target, all_targets_deleted, node_auth,
  JobArgs, JobReply, is_deleted, new_tasks, valid_targets, online,
}
use erp_all.ScrapeQueue.Tasks.{register_with, register_node, check_token, authenticate_node}

-- The test `t not in blocked` says that the target has no tombstone.
module _ (deleted : Text → Bool) (xs : List Text) where
  abbrev is_left : Text → Bool
  is_left x = not (any_row (text_eq x) (select_where deleted xs))

-- What a job is made of.
pub record Makes (db : Db) (a : JobArgs) (db' : Db) (reply : JobReply) : Type 0 where
  pub raw : List Text
  pub given : a.targets ≡ some raw
  pub targets : List Text
  pub tasks : db'.tasks ≡ db.tasks ++ new_tasks db.next_task db.next_job a.team_id targets
  pub total : reply.total_tasks ≡ length targets
  pub some_target : 0 < length targets
  pub allowed :
      All (λ x. In x (valid_targets raw) × (is_deleted db a.team_id a.source x ≡ false)) targets
  pub complete :
      All (λ x. (is_deleted db a.team_id a.source x ≡ true) ⊎ In x targets) (valid_targets raw)

-- Why a job is not made.
abbrev pub Refuses : Db → JobArgs → Error → Type 0
Refuses db a kind_unsupported = str_eq a.job_kind "product_detail" ≡ false
Refuses db a input_invalid = (a.targets ≡ none) ⊎ (a.targets ≡ some [])
Refuses db a no_valid_target = (raw : List Text) × (a.targets ≡ some raw) × (valid_targets raw ≡ [])
Refuses db a (all_targets_deleted blocked) =
    (raw : List Text) × (a.targets ≡ some raw)
    × (blocked ≡ valid_targets raw)
    × All (λ x. is_deleted db a.team_id a.source x ≡ true) (valid_targets raw)
Refuses db a _ = ⊥

abbrev pub Answers : Db → JobArgs → Result Error (Db × JobReply) → Type 0
Answers db a (ok (db', reply)) = Makes db a db' reply
Answers db a (err e) = Refuses db a e

module _ (db : Db) (a : JobArgs) where
  abbrev deleted : Text → Bool
  deleted = is_deleted db a.team_id a.source

-- A node that was registered.
abbrev pub Enrolled : (String → String) → String → Db × (ℕ × String) → Type 0
Enrolled digest key (db', (id, token)) =
    (n : Node) × (n.id ≡ id)
    × (authenticate_node digest db' key token ≡ ok n)
    × ((other : String)
        → digest other ≢ digest token
        → authenticate_node digest db' key other ≡ err node_auth)

module _ (digest : String → String) (token : String) (db : Db) (now : ℕ) (key : String) where
  register_with-Enrolled : Holds (Enrolled digest key) (register_with digest token db now key)
  unfolding register_with authenticate_node check_token
  register_with-Enrolled =
      elim (Bool-cases (any_row (λ (n : Node). str_eq n.node_key key) db.nodes)) [
        | inl e ↦ rw e tt
        | inr e ↦
            let n : Node = record {
              id = db.next_node;
              node_key = key;
              token_hash = digest token;
              status = online;
              last_heartbeat_at = now;
            } in
            let found =
              find_first-append_none (λ (n : Node). str_eq n.node_key key) db.nodes n
                (find_first-none (λ (n : Node). str_eq n.node_key key) db.nodes e)
                (str_eq-refl key) in
            rw e (
              n,
              refl,
              rw (found, str_eq-refl (digest token)) refl,
              λ other d. elim (Bool-cases (str_eq (digest token) (digest other))) [
                | inl s ↦ absurd (d (sym ((str_eq_iff (digest token) (digest other)).0 s)))
                | inr s ↦ rw (found, s) refl
              ],
            )
      ]

  -- A node that registers is given a token with which it is authenticated as the node that was added;
  -- any token with another digest is refused.
  pub register-authenticate :
      (expected : Option String) (given : String) (db' : Db) (id : ℕ) (issued : String)
      → register_node digest token expected db now key given ≡ ok (db', (id, issued))
      → Enrolled digest key (db', (id, issued))
  unfolding register_node
  register-authenticate expected given db' id issued h =
      Holds-eq_ok (Enrolled digest key) _ (db', (id, issued)) (registered expected) h
    where
      registered :
          (o : Option String)
          → Holds (Enrolled digest key) (register_node digest token o db now key given)
      registered none = tt
      registered (some e) =
          if-elim (Holds (Enrolled digest key)) (str_eq e "") _ _ (λ _. tt)
            λ _.
              if-elim (Holds (Enrolled digest key)) (str_eq given e) _ _
                (λ _. register_with-Enrolled) λ _. tt

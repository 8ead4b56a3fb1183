-- ===== src/Idempotency/Tests.antt =====
-- Concrete runs of backend/src/erp/core/idempotency.py: two calls with one key, one of another team.
use erp_all.Prelude.{◌≡◌, refl, none, some, List, [], ◌∷◌, arith, str_eq, ok, err, if◌then◌else◌}
use erp_all.Idempotency.{
  Entry, Db, Args, idempotency_conflict, new_entry, replayed, begin_run, Op, start, fail, run,
}
use erp_all.Idempotency.Replay.{reply_of, result_final}

abbrev empty_db : Db
empty_db = record { entries = []; next_id = 1; setting = none }

abbrev call : Args
call = record {
  team_id = 7;
  endpoint = "POST /reprice";
  idem_key = "k1";
  payload_hash = "h1";
  stale_minutes = none;
}

abbrev other_payload : Args
other_payload = record call { payload_hash = "h2" }

abbrev other_team : Args
other_team = record call { team_id = 8 }

abbrev between : List Op
between = start other_team 1100 ∷ fail 2 ∷ start call 1200 ∷ []

abbrev done : Entry
done = record (new_entry empty_db call 1000) { response = some "{}" }

abbrev done_db : Db
done_db = record empty_db { entries = done ∷ []; next_id = 2 }

result_final_example :
    reply_of (begin_run (run between done_db) other_payload 40000)
    ≡ (if str_eq "h1" "h2" then ok (replayed "{}") else err idempotency_conflict)
result_final_example =
    result_final done_db call done "{}" between other_payload 40000 refl refl
      (
        λ same. (omega arith, λ no. absurd (cc)),
        (λ no. absurd (cc), (λ same. (omega arith, λ no. absurd (cc)), tt)),
      )
      (refl, refl, refl) (λ same. (omega arith, λ no. absurd (cc)))

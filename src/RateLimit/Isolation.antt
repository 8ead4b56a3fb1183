-- ===== src/RateLimit/Isolation.antt =====
-- Runs of the registry of backend/src/erp/channel/gateway/rate_limiter.py: each key's calls are spaced by
-- its own bucket, whatever the other stores and endpoints do.
use erp_all.Prelude.{
  ℕ, suc, ◌+◌, ◌*◌, ◌≤◌, ◌≡◌, refl, sym, ap, ◌∙◌, subst, Option, some, List, [], ◌∷◌, ◌++◌, String,
  length, Bool-cases, inl, inr,
}
use erp_all.Prelude.Text.{text_eq, text_eq_iff}
use erp_all.RateLimit.{Bucket, granted, wait_for, push_back, releases}
use erp_all.RateLimit.Spacing.{tolerance, releases_apart, push_back-same}
use erp_all.RateLimit.Registry.{Text, Registry, bucket_key, bucket_at, gate, note_headers}
use erp_all.RateLimit.Gates.{
  Call, gated, response, of_key, sent, of_key-goes_own, of_key-goes_other, run_calls, pushed,
  events_for, gate-cases, gate-other, headers-own, headers-other,
}

module _ (lower : String → String) (to_int : String → Option ℕ) (delta_of : String → Option ℕ) where
  -- The calls of one key go out as its bucket alone would let them.
  of_key-run_calls :
      (k : Text) (reg : Registry) (calls : List Call) (b : Bucket)
      → bucket_at k reg ≡ some b
      → of_key k (run_calls lower to_int delta_of reg calls)
        ≡ releases b (events_for lower to_int delta_of k b.period calls)
  unfolding run_calls events_for releases
  of_key-run_calls k reg [] b f = refl
  of_key-run_calls k reg (response store endpoint now headers ∷ calls) b f =
      elim (Bool-cases (text_eq (bucket_key store endpoint) k)) [
        | inl e ↦
            let own : bucket_key store endpoint ≡ k =
              (text_eq_iff (bucket_key store endpoint) k).0 e in
            let next =
              subst
                (λ j.
                  bucket_at j (note_headers lower to_int delta_of reg store endpoint now headers)
                  ≡ some (push_back b now (pushed lower to_int delta_of headers)))
                own
                (headers-own lower to_int delta_of reg store endpoint now headers b
                  (subst (λ j. bucket_at j reg ≡ some b) (sym own) f)) in
            let reg' = note_headers lower to_int delta_of reg store endpoint now headers in
            let rest =
              of_key-run_calls k reg' calls (push_back b now (pushed lower to_int delta_of headers))
                next in
            let period = (push_back-same b now (pushed lower to_int delta_of headers)).2 in
            rw e (rw period at rest)
        | inr e ↦ rw e (
            of_key-run_calls k _ calls b
              (headers-other lower to_int delta_of reg store endpoint k now headers e ∙ f))
      ]
  of_key-run_calls k reg (gated store endpoint now max_wait ∷ calls) b f =
      let reg' = (gate reg store endpoint now max_wait).0 in
      let answer = (gate reg store endpoint now max_wait).1 in
      elim (Bool-cases (text_eq (bucket_key store endpoint) k)) [
        | inl e ↦
            let own : bucket_key store endpoint ≡ k =
              (text_eq_iff (bucket_key store endpoint) k).0 e in
            let here =
              of_key-goes_own (bucket_key store endpoint) k now answer
                (run_calls lower to_int delta_of reg' calls) e in
            elim (gate-cases lower to_int delta_of reg store endpoint now max_wait b
              (subst (λ j. bucket_at j reg ≡ some b) (sym own) f)) [
                | inl (refused, place, none_left) ↦
                    let next = subst (λ j. bucket_at j reg' ≡ some b) own place in
                    rw e (
                      rw refused (
                        here
                        ∙ ap
                            (λ o.
                              sent now o (of_key k (run_calls lower to_int delta_of reg' calls)))
                            none_left
                        ∙ of_key-run_calls k reg' calls b next))
                | inr (grants, place, waited) ↦
                    let next = subst (λ j. bucket_at j reg' ≡ some (granted b now)) own place in
                    rw e (
                      rw grants (
                        here
                        ∙ ap
                            (λ o.
                              sent now o (of_key k (run_calls lower to_int delta_of reg' calls)))
                            waited
                        ∙ ap (λ r. (now + wait_for b now) ∷ r)
                            (of_key-run_calls k reg' calls (granted b now) next)))
              ]
        | inr e ↦ rw e (
            of_key-goes_other (bucket_key store endpoint) k now answer
              (run_calls lower to_int delta_of reg' calls) e
            ∙ of_key-run_calls k reg' calls b
                (gate-other lower to_int delta_of reg store endpoint k now max_wait e ∙ f))
      ]

  -- Any two calls of one store and endpoint that the registry lets go are spaced by their bucket's interval,
  -- less its tolerance, whatever the calls and responses of the other keys: with `between` others of the
  -- key between them, they are at least `length between + 1` intervals apart, less one period but one
  -- interval.
  pub calls_apart :
      (k : Text) (reg : Registry) (calls : List Call) (b : Bucket) (before : List ℕ) (a : ℕ)
      (between : List ℕ) (z : ℕ) (after : List ℕ)
      → bucket_at k reg ≡ some b
      → of_key k (run_calls lower to_int delta_of reg calls) ≡ before ++ a ∷ (between ++ z ∷ after)
      → a + suc (length between) * b.emission_interval ≤ z + tolerance b
  calls_apart k reg calls b before a between z after f h =
      releases_apart b (events_for lower to_int delta_of k b.period calls) before a between z after
        (sym (of_key-run_calls k reg calls b f) ∙ h)

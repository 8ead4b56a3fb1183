-- ===== src/RateLimit/Gates.antt =====
-- Runs of the registry of backend/src/erp/channel/gateway/rate_limiter.py, and what each call does to the
-- bucket of its own key and to the others.
use erp_all.Prelude.{
  ℕ, ◌+◌, ◌≡◌, refl, sym, ap, ◌∙◌, subst, true, false, Option, none, some, List, [], ◌∷◌, String,
  if◌then◌else◌, Bool-cases, Option-cases, inl, inr, ◌⊎◌, ltb,
}
use erp_all.Prelude.Text.{text_eq, text_eq_iff}
use erp_all.RateLimit.{
  Bucket, granted, wait_for, acquire, push_back, push_known, update_from_walmart_headers,
  token_count, replenishment, exhausted, Event, ask, push,
}
use erp_all.RateLimit.Registry.{
  Text, Registry, bucket_key, bucket_at, put, get_bucket, max_wait_for, gate, note_headers,
}

bucket_at-put : (k : Text) (b : Bucket) (reg : Registry) → bucket_at k (put k b reg) ≡ some b
unfolding bucket_at put
bucket_at-put k b [] = rw ((text_eq_iff k k).1 refl) refl
bucket_at-put k b ((j, c) ∷ reg) = elim (Bool-cases (text_eq j k)) [
  | inl e ↦ rw (e, bucket_at) (rw e refl)
  | inr e ↦ rw (e, bucket_at) (rw e (bucket_at-put k b reg))
]

bucket_at-put_ne :
    (j k : Text) (b : Bucket) (reg : Registry)
    → text_eq j k ≡ false
    → bucket_at k (put j b reg) ≡ bucket_at k reg
unfolding bucket_at put
bucket_at-put_ne j k b [] n = rw n refl
bucket_at-put_ne j k b ((i, c) ∷ reg) n = elim (Bool-cases (text_eq i j)) [
  | inl e ↦
      let other : text_eq i k ≡ false =
        subst (λ t. text_eq t k ≡ false) (sym ((text_eq_iff i j).0 e)) n in
      rw e (rw other refl)
  | inr e ↦ rw e (ap (λ o. if text_eq i k then some c else o) (bucket_at-put_ne j k b reg n))
]

-- What the code asks the registry, and the responses it sees.
pub data Call : Type 0 where
  gated : Text → Text → ℕ → Option ℕ → Call
  response : Text → Text → ℕ → List (String × String) → Call

-- A call that may go, under its key and with the time at which it goes.
abbrev pub goes : Text → ℕ → Option ℕ → List (Text × ℕ) → List (Text × ℕ)
goes k now none rest = rest
goes k now (some t) rest = (k, now + t) ∷ rest

abbrev pub of_key : Text → List (Text × ℕ) → List ℕ
of_key k [] = []
of_key k ((j, t) ∷ rest) = let others = of_key k rest in if text_eq j k then t ∷ others else others

abbrev pub sent : ℕ → Option ℕ → List ℕ → List ℕ
sent now none rest = rest
sent now (some t) rest = (now + t) ∷ rest

pub of_key-goes_own :
    (j k : Text) (now : ℕ) (answer : Option ℕ) (rest : List (Text × ℕ))
    → text_eq j k ≡ true
    → of_key k (goes j now answer rest) ≡ sent now answer (of_key k rest)
of_key-goes_own j k now none rest e = refl
of_key-goes_own j k now (some t) rest e = rw e refl

pub of_key-goes_other :
    (j k : Text) (now : ℕ) (answer : Option ℕ) (rest : List (Text × ℕ))
    → text_eq j k ≡ false
    → of_key k (goes j now answer rest) ≡ of_key k rest
of_key-goes_other j k now none rest e = refl
of_key-goes_other j k now (some t) rest e = rw e refl

module _ (lower : String → String) (to_int : String → Option ℕ) (delta_of : String → Option ℕ) where
  unfoldable pub run_calls : Registry → List Call → List (Text × ℕ)
  unfolding gate note_headers
  run_calls reg [] = []
  run_calls reg (gated store endpoint now max_wait ∷ calls) =
      let (reg', waited) = gate reg store endpoint now max_wait in
      goes (bucket_key store endpoint) now waited (run_calls reg' calls)
  run_calls reg (response store endpoint now headers ∷ calls) =
      run_calls (note_headers lower to_int delta_of reg store endpoint now headers) calls

  -- The milliseconds by which a response's headers push the bucket back, 0 where they do not.
  unfoldable pub delta_or_0 : Option String → ℕ
  delta_or_0 none = 0
  delta_or_0 (some nra) = elim (delta_of nra) [ none ↦ 0 | some delta ↦ delta ]

  unfoldable pub pushed : List (String × String) → ℕ
  unfolding delta_or_0
  pushed headers =
      delta_or_0
        (exhausted (token_count lower to_int headers none) (replenishment lower headers none))

  push_known-delta :
      (b : Bucket) (now : ℕ) (nra : Option String)
      → push_known delta_of b now nra ≡ push_back b now (delta_or_0 nra)
  unfolding push_known push_back delta_or_0
  push_known-delta b now none = refl
  push_known-delta b now (some nra) = elim (Option-cases (delta_of nra)) [
    | inl e ↦ rw (e, push_known, delta_or_0) refl
    | inr (d, e) ↦ rw (e, push_known, delta_or_0) refl
  ]

  update-push :
      (b : Bucket) (now : ℕ) (headers : List (String × String))
      → update_from_walmart_headers lower to_int delta_of b now headers
        ≡ push_back b now (pushed headers)
  unfolding update_from_walmart_headers pushed
  update-push b now headers =
      push_known-delta b now
        (exhausted (token_count lower to_int headers none) (replenishment lower headers none))

  -- What the calls are for one key.
  unfoldable pub events_for : Text → ℕ → List Call → List Event
  unfolding pushed
  events_for k period [] = []
  events_for k period (gated store endpoint now max_wait ∷ calls) =
      let rest = events_for k period calls in
      if text_eq (bucket_key store endpoint) k
      then ask now (max_wait_for period max_wait) ∷ rest
      else rest
  events_for k period (response store endpoint now headers ∷ calls) =
      let rest = events_for k period calls in
      if text_eq (bucket_key store endpoint) k then push now (pushed headers) ∷ rest else rest

  -- What a call does to the bucket of its own key.
  gate-own :
      (reg : Registry) (store endpoint : Text) (now : ℕ) (max_wait : Option ℕ) (b : Bucket)
      → bucket_at (bucket_key store endpoint) reg ≡ some b
      → let (b', ok, waited) = acquire b now (max_wait_for b.period max_wait) in
        let (reg', answer) = gate reg store endpoint now max_wait in
        (bucket_at (bucket_key store endpoint) reg' ≡ some b')
        × (answer ≡ (if ok then some waited else none))
  unfolding gate get_bucket
  gate-own reg store endpoint now max_wait b f =
      rw (f, gate, get_bucket) (bucket_at-put (bucket_key store endpoint) _ _, refl)

  -- The call waits no longer than it accepts and is granted, or it is refused and nothing changes.
  pub gate-cases :
      (reg : Registry) (store endpoint : Text) (now : ℕ) (max_wait : Option ℕ) (b : Bucket)
      → bucket_at (bucket_key store endpoint) reg ≡ some b
      → let longest = max_wait_for b.period max_wait in
        let (reg', answer) = gate reg store endpoint now max_wait in
        ((ltb longest (wait_for b now) ≡ true)
          × (bucket_at (bucket_key store endpoint) reg' ≡ some b)
          × (answer ≡ none))
        ⊎ ((ltb longest (wait_for b now) ≡ false)
            × (bucket_at (bucket_key store endpoint) reg' ≡ some (granted b now))
            × (answer ≡ some (wait_for b now)))
  gate-cases reg store endpoint now max_wait b f =
      let longest = max_wait_for b.period max_wait in
      let (place, answer) = gate-own reg store endpoint now max_wait b f in
      elim (Bool-cases (ltb longest (wait_for b now))) [
        | inl e ↦
            let r : acquire b now longest ≡ (b, false, wait_for b now) =
              unfold acquire in rw e refl in
            inl (e, rw r at place, rw r at answer)
        | inr e ↦
            let r : acquire b now longest ≡ (granted b now, true, wait_for b now) =
              unfold acquire in rw e refl in
            inr (e, rw r at place, rw r at answer)
      ]

  pub gate-other :
      (reg : Registry) (store endpoint k : Text) (now : ℕ) (max_wait : Option ℕ)
      → text_eq (bucket_key store endpoint) k ≡ false
      → bucket_at k (gate reg store endpoint now max_wait).0 ≡ bucket_at k reg
  unfolding gate get_bucket
  gate-other reg store endpoint k now max_wait n =
      bucket_at-put_ne (bucket_key store endpoint) k _ _ n
      ∙ bucket_at-put_ne (bucket_key store endpoint) k _ reg n

  pub headers-own :
      (reg : Registry) (store endpoint : Text) (now : ℕ) (headers : List (String × String))
      (b : Bucket)
      → bucket_at (bucket_key store endpoint) reg ≡ some b
      → bucket_at
          (bucket_key store endpoint)
          (note_headers lower to_int delta_of reg store endpoint now headers)
        ≡ some (push_back b now (pushed headers))
  unfolding note_headers get_bucket
  headers-own reg store endpoint now headers b f =
      rw (f, note_headers, get_bucket)
        (bucket_at-put (bucket_key store endpoint) _ _ ∙ ap some (update-push b now headers))

  pub headers-other :
      (reg : Registry) (store endpoint k : Text) (now : ℕ) (headers : List (String × String))
      → text_eq (bucket_key store endpoint) k ≡ false
      → bucket_at k (note_headers lower to_int delta_of reg store endpoint now headers)
        ≡ bucket_at k reg
  unfolding note_headers get_bucket
  headers-other reg store endpoint k now headers n =
      bucket_at-put_ne (bucket_key store endpoint) k _ _ n
      ∙ bucket_at-put_ne (bucket_key store endpoint) k _ reg n

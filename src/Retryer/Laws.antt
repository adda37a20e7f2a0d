-- ===== src/Retryer/Laws.antt =====
-- When the retryers retry.
use gax_go.Prelude.{
  ◌≤◌, Option-cases, ℕ, ◌≡◌, ◌↔◌, ◌⊎◌, inl, inr, refl, List, [], ◌∷◌, Option, some, true, false,
  arith, Bool, Bool-cases, if◌then◌else◌,
}
use gax_go.Prelude.Int.{ℤ, pos, eq_ℤ, ◌≤ℤ◌}
use gax_go.Backoff.{Runtime, IsRandom, Backoff, next}
use gax_go.Backoff.Bounds.{IsValid, limit, pause_lem}
use gax_go.Apierror.Types.{ErrorApi, Status, HttpError}
use gax_go.Retryer.{
  Verdict, Retryer, bo_retryer, http_retryer, on_codes, on_http_codes, code_set, no_retry, Retried,
  pause_and_retry, has_code, retry,
}

abbrev pub IsIn : {A : Type 0} → A → List A → Type 0
IsIn a [] = ⊥
IsIn a (x ∷ xs) = (a ≡ x) ⊎ IsIn a xs

has_code_iff : (cs : List ℕ) (c : ℕ) → (has_code cs c ≡ true) ↔ IsIn c cs
unfolding has_code
has_code_iff [] c = ground arith
has_code_iff (rc ∷ cs) c = ground (arith, has_code_iff cs c)

code_set_iff :
    (cs : List ℤ) (codes : ℤ → Bool) (c : ℤ)
    → (code_set cs codes c ≡ true) ↔ (IsIn c cs ⊎ (codes c ≡ true))
unfolding code_set
code_set_iff [] codes c = ground arith
code_set_iff (d ∷ cs) codes c =
    ground (arith, code_set_iff cs (λ e. if eq_ℤ d e then true else codes e) c)

module _ (api : ErrorApi) (rt : Runtime) where
  -- A call of `Retry` that retries under the condition, and then waits within the limit of the
  -- backoff and moves it on, and that otherwise gives no pause and changes nothing.
  abbrev pub Answers :
      Option (Retried api rt)
      → Type 0
      → (Backoff rt → Retryer api rt)
      → Backoff rt
      → rt.Seed
      → Type 0
  Answers answer Condition make bo s =
      (v : Verdict) × (r : Retryer api rt) × (s' : rt.Seed) × (answer ≡ some (v, r, s'))
      × ((Condition
            × (v.should_retry ≡ true)
            × (pos 1 ≤ℤ v.pause)
            × (v.pause ≤ℤ limit bo)
            × (r ≡ make (next rt bo)))
          ⊎ ((¬ Condition)
              × (v.should_retry ≡ false)
              × (v.pause ≡ pos 0)
              × (r ≡ make bo)
              × (s' ≡ s)))

  pub Answers-iff :
      (answer : Option (Retried api rt)) (C D : Type 0) (make : Backoff rt → Retryer api rt)
      (bo : Backoff rt) (s : rt.Seed)
      → C ↔ D
      → Answers answer C make bo s
      → Answers answer D make bo s
  Answers-iff answer C D make bo s (to, from) (v, r, s', e, inl (c, a, lo, hi, m)) =
      (v, r, s', e, inl (to c, a, lo, hi, m))
  Answers-iff answer C D make bo s (to, from) (v, r, s', e, inr (n, a, z, m, q)) =
      (v, r, s', e, inr ((λ d. n (from d)), a, z, m, q))

module _ (api : ErrorApi) {rt : Runtime} (random : IsRandom rt) (cap : ℕ)
    (room : 30_000_000_000 ≤ cap) where
  pub Answers-retry :
      (Condition : Type 0) (make : Backoff rt → Retryer api rt) (bo : Backoff rt) (s : rt.Seed)
      → IsValid cap bo
      → Condition
      → Answers api rt (pause_and_retry api rt bo make s) Condition make bo s
  unfolding pause_and_retry
  Answers-retry Condition make bo s v c =
      let (d, s', e, lo, hi, _) = pause_lem random cap bo s room v in
      (
        record { pause = d; should_retry = true },
        make (next rt bo),
        s',
        rw e refl,
        inl (c, refl, lo, hi, refl),
      )

  pub Answers-no :
      (Condition : Type 0) (make : Backoff rt → Retryer api rt) (bo : Backoff rt) (s : rt.Seed)
      → (¬ Condition)
      → Answers api rt (some (no_retry api rt, make bo, s)) Condition make bo s
  Answers-no Condition make bo s n =
      (no_retry api rt, make bo, s, refl, inr (n, refl, refl, refl, refl))

  -- With a backoff within range, whose products do not overflow, and under the assumption on the
  -- random source, a retryer of `OnCodes` does not panic. It retries exactly the gRPC errors whose
  -- code is in its list, waits within the limit of its backoff and moves it on, and otherwise
  -- changes nothing.
  pub retry-on_codes :
      (cs : List ℕ) (bo : Backoff rt) (err : api.Err) (s : rt.Seed)
      → IsValid cap bo
      → Answers api rt
          (retry api rt (on_codes api rt cs bo) err s)
          ((st : Status api.Other) × (api.from_status err ≡ some st) × IsIn st.code cs)
          (on_codes api rt cs)
          bo
          s
  unfolding retry on_codes
  retry-on_codes cs bo err s v = elim (Option-cases (api.from_status err)) [
    | inl e ↦ rw (e, retry) (Answers-no _ (λ b. bo_retryer b cs) bo s (λ (st, f, _). cc))
    | inr (st, e) ↦ elim (Bool-cases (has_code cs st.code)) [
      | inl t ↦
          rw (e, retry, t)
            (Answers-retry _ (λ b. bo_retryer b cs) bo s v
              (st, refl, (has_code_iff cs st.code).0 t))
      | inr t ↦
          rw (e, retry, t)
            (Answers-no _ (λ b. bo_retryer b cs) bo s
              (λ (st', f, m). ground (arith, has_code_iff cs st.code)))
    ]
  ]

  -- With a backoff within range, whose products do not overflow, and under the assumption on the
  -- random source, a retryer of `OnHTTPCodes` does not panic. It retries exactly the errors that
  -- are or wrap an HTTP error whose code is in its list, waits within the limit of its backoff and
  -- moves it on, and otherwise changes nothing.
  pub retry-on_http_codes :
      (cs : List ℤ) (bo : Backoff rt) (err : api.Err) (s : rt.Seed)
      → IsValid cap bo
      → Answers api rt
          (retry api rt (on_http_codes api rt bo cs) err s)
          ((h : HttpError) × (api.as_http err ≡ some h) × IsIn h.code cs)
          (λ b. on_http_codes api rt b cs)
          bo
          s
  unfolding retry on_http_codes
  retry-on_http_codes cs bo err s v = elim (Option-cases (api.as_http err)) [
    | inl e ↦
        rw (e, retry)
          (Answers-no _ (λ b. http_retryer b (code_set cs (λ _. false))) bo s (λ (h, f, _). cc))
    | inr (h, e) ↦ elim (Bool-cases (code_set cs (λ _. false) h.code)) [
      | inl t ↦
          rw (e, retry, t)
            (Answers-retry _ (λ b. http_retryer b (code_set cs (λ _. false))) bo s v
              (h, refl, ground (arith, code_set_iff cs (λ _. false) h.code)))
      | inr t ↦
          rw (e, retry, t)
            (Answers-no _ (λ b. http_retryer b (code_set cs (λ _. false))) bo s
              (λ (h', f, m). ground (arith, code_set_iff cs (λ _. false) h.code)))
    ]
  ]

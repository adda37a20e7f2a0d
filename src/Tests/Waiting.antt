-- ===== src/Tests/Waiting.antt =====
-- `Pause`, and the retryers of call_option.go.
use native.Mathlib.Omega.{arith}
use gax_go.Prelude.{◌^◌, ◌≡◌, ◌↔◌, ◌⊎◌, refl, none, List, [], ◌∷◌, some, length}
use gax_go.Prelude.Int.{ℤ, pos, negsuc, ◌≤ℤ◌}
use gax_go.Prelude.Text.{codes}
use gax_go.Backoff.{Backoff, next, pauses, pause, set_defaults, grow, draw}
use gax_go.Backoff.Panics.{RunsOut, pauses_panics}
use gax_go.Backoff.Bounds.{limit, IsWithin, pauses_lem}
use gax_go.Apierror.Types.{HttpError}
use gax_go.Retryer.{on_http_codes, retry}
use gax_go.Retryer.Laws.{Answers, IsIn}
use gax_go.Retryer.Policy.{on_http, retry-retryer_of}
use gax_go.Tests.Setup.{
  wrapped_product, runtime, runtime-IsRandom, backoff, backoff-IsValid, TestErr, http, api,
}

four_pauses : pauses runtime 4 backoff 1234 ≡ some (pos 35 ∷ pos 36 ∷ pos 337 ∷ pos 238 ∷ [])
unfolding pauses pause set_defaults grow draw
four_pauses = refl

pauses_lem_example :
    (ds : List ℤ) × (pauses runtime 4 backoff 1234 ≡ some ds)
    × (length ds ≡ 4)
    × IsWithin backoff ds
pauses_lem_example =
    pauses_lem runtime-IsRandom 60_000_000_000 4 backoff 1234 (omega arith) backoff-IsValid

abbrev bad_gateway : TestErr
bad_gateway = http (record { code = pos 502; message = codes "bad"; body = [] })

retry-retryer_of_example :
    Answers api runtime
      (retry api runtime (on_http_codes api runtime backoff (pos 502 ∷ pos 503 ∷ [])) bad_gateway 5)
      ((h : HttpError) × (api.as_http bad_gateway ≡ some h) × IsIn h.code (pos 502 ∷ pos 503 ∷ []))
      (λ b. on_http_codes api runtime b (pos 502 ∷ pos 503 ∷ []))
      backoff
      5
retry-retryer_of_example =
    retry-retryer_of api runtime-IsRandom 60_000_000_000 (omega arith)
      (on_http (pos 502 ∷ pos 503 ∷ [])) backoff bad_gateway 5 backoff-IsValid

-- Initial 100ns, Max 1000ns, Multiplier 2^60.
abbrev steep : Backoff runtime
steep = record { initial = pos 100; max = pos 1000; multiplier = 2 ^ 60; cur = pos 0 }

steep_panics : pauses runtime 2 steep 0 ≡ none
unfolding pauses pause set_defaults grow draw
steep_panics = refl

pauses_panics_example :
    ((pauses runtime 2 steep 0 ≡ none) ↔ RunsOut runtime 2 steep)
    × ((limit (next runtime steep) ≤ℤ pos 0) ↔ (
        (wrapped_product (set_defaults runtime steep).cur (2 ^ 60) ≤ℤ negsuc 0)
        ⊎ (pos 1000 ≤ℤ negsuc 0)
        ⊎ ((wrapped_product (set_defaults runtime steep).cur (2 ^ 60) ≡ pos 0)
            × (pos 100 ≤ℤ negsuc 0))))
unfolding set_defaults
pauses_panics_example = pauses_panics runtime 2 steep 0

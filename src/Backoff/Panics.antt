-- ===== src/Backoff/Panics.antt =====
-- When `Pause` panics.
use gax_go.Prelude.{
  ℕ, zero, suc, ◌+◌, ◌>>=◌, ◌<◌, ◌≡◌, ◌↔◌, ◌⊎◌, inl, inr, refl, sym, ◌∙◌, arith, Option, none, some,
  List, ◌∷◌,
}
use gax_go.Prelude.Int.{pos, negsuc, ◌≤ℤ◌}
use gax_go.Backoff.{Duration, Runtime, Backoff, pause, pauses, next, grow, set_defaults, draw}
use gax_go.Backoff.Bounds.{limit, advance}

module _ (rt : Runtime) where
  draw-cases :
      (d : Duration) (s : rt.Seed)
      → ((d ≤ℤ pos 0) × (draw rt d s ≡ none))
        ⊎ ((pos 1 ≤ℤ d) × (n : ℕ) × (s' : rt.Seed) × (draw rt d s ≡ some (n, s')))
  unfolding draw
  draw-cases (pos zero) s = inl (omega arith, refl)
  draw-cases (pos (suc n)) s = inr (omega arith, _, _, refl)
  draw-cases (negsuc n) s = inl (omega arith, refl)

  pause-cases :
      (b : Backoff rt) (s : rt.Seed)
      → ((limit b ≤ℤ pos 0) × (pause rt b s ≡ none))
        ⊎ ((pos 1 ≤ℤ limit b)
            × (d : Duration) × (s' : rt.Seed) × (pause rt b s
                ≡ some (record { delay = d; backoff = next rt b; seed = s' })))
  unfolding pause next
  pause-cases b s = elim (draw-cases (set_defaults rt b).cur s) [
    | inl (lo, e) ↦ inl (lo, rw e refl)
    | inr (hi, n, s', e) ↦ inr (hi, pos (1 + n), s', rw e refl)
  ]

  -- One of the next `n` calls has a limit that is not positive.
  abbrev pub RunsOut : ℕ → Backoff rt → Type 0
  RunsOut n b = (k : ℕ) × (k < n) × (limit (advance k b) ≤ℤ pos 0)

  RunsOut-suc :
      (n : ℕ) (b : Backoff rt) → RunsOut (suc n) b ↔ ((limit b ≤ℤ pos 0) ⊎ RunsOut n (next rt b))
  unfolding advance
  RunsOut-suc n b = (
    λ (k, lt, lo). by_call k lt lo,
    λ c. elim c [ inl lo ↦ (0, omega arith, lo) | inr (k, lt, lo) ↦ (suc k, omega arith, lo) ],
  )
    where
      by_call :
          (k : ℕ)
          → k < suc n
          → limit (advance k b) ≤ℤ pos 0
          → (limit b ≤ℤ pos 0) ⊎ RunsOut n (next rt b)
      by_call zero lt lo = inl lo
      by_call (suc k) lt lo = inr (k, omega arith, lo)

  tail_none :
      (d : Duration) (o : Option (List Duration)) → (do rest ← o; some (d ∷ rest)) ≡ none → o ≡ none
  tail_none d none e = refl
  tail_none d (some ds) e = cc

  pauses_iff : (n : ℕ) (b : Backoff rt) (s : rt.Seed) → (pauses rt n b s ≡ none) ↔ RunsOut n b
  unfolding pauses
  pauses_iff zero b s = (λ e. cc, λ (k, lt, _). absurd (omega arith))
  pauses_iff (suc n) b s = elim (pause-cases b s) [
    | inl (lo, e) ↦ (λ _. (RunsOut-suc n b).1 (inl lo), λ _. rw (e, pauses) refl)
    | inr (hi, d, s', e) ↦ (
      λ panics. (RunsOut-suc n b).1 (
          inr (
            (pauses_iff n (next rt b) s').0
              (tail_none d (pauses rt n (next rt b) s') (sym (rest_of d s' e) ∙ panics)))),
      λ out. elim ((RunsOut-suc n b).0 out) [
        | inl lo ↦ absurd (omega arith)
        | inr later ↦ rest_of d s' e ∙ rw ((pauses_iff n (next rt b) s').1 later) refl
      ],
    )
  ]
    where
      rest_of :
          (d : Duration) (s' : rt.Seed)
          → pause rt b s ≡ some (record { delay = d; backoff = next rt b; seed = s' })
          → pauses rt (suc n) b s ≡ (do rest ← pauses rt n (next rt b) s'; some (d ∷ rest))
      rest_of d s' e = rw e refl

  limit-next :
      (b : Backoff rt)
      → let d = set_defaults rt b in
        (limit (next rt b) ≤ℤ pos 0) ↔ (
          (rt.scale d.cur d.multiplier ≤ℤ negsuc 0)
          ⊎ (d.max ≤ℤ negsuc 0)
          ⊎ ((rt.scale d.cur d.multiplier ≡ pos 0) × (d.initial ≤ℤ negsuc 0)))
  unfolding next grow set_defaults
  limit-next b = ground arith

  -- Any number of calls of `Pause` on one receiver panics exactly if the limit of one of them is not
  -- positive, whatever the configuration and the random source. Behind a call the limit is not positive
  -- exactly if, with the defaults, the product of limit and multiplier is a negative duration, or Max is
  -- negative, or the product is 0 and Initial is negative.
  pub pauses_panics :
      (n : ℕ) (b : Backoff rt) (s : rt.Seed)
      → let d = set_defaults rt b in
        ((pauses rt n b s ≡ none) ↔ RunsOut n b)
        × ((limit (next rt b) ≤ℤ pos 0) ↔ (
            (rt.scale d.cur d.multiplier ≤ℤ negsuc 0)
            ⊎ (d.max ≤ℤ negsuc 0)
            ⊎ ((rt.scale d.cur d.multiplier ≡ pos 0) × (d.initial ≤ℤ negsuc 0))))
  pauses_panics n b s = (pauses_iff n b s, limit-next b)

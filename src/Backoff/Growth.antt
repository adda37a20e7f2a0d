-- ===== src/Backoff/Growth.antt =====
-- How the limit grows, where the multiplier is a whole number and products are exact.
use gax_go.Prelude.{ℕ, zero, suc, ◌*◌, ◌^◌, ◌≤◌, ◌<◌, ◌≡◌, refl, ◌∙◌, ap, arith, false, min}
use gax_go.Prelude.Int.{pos, pos_part}
use native.Mathlib.Nat.{pow-suc, pow-zero, one-le-pow}
use native.Mathlib.Decide.{dec_le}
use gax_go.Backoff.{Runtime, Backoff, set_defaults, grow, next}
use gax_go.Backoff.Bounds.{limit, advance}

-- `m` multiplies durations up to `bound` by `k`, without rounding.
pub record IsFactor (rt : Runtime) (m : Runtime.Float rt) (k bound : ℕ) : Type 0 where
  pub exact : (d : ℕ) → d ≤ bound → rt.scale (pos d) m ≡ pos (d * k)
  pub not_small : rt.lt_one m ≡ false

-- The configuration, and the limit of the next call.
record IsAt {rt : Runtime} (m : Runtime.Float rt) (x c : ℕ) (b : Backoff rt) : Type 0 where
  initial : 0 < pos_part b.initial
  max : b.max ≡ pos (suc x)
  multiplier : b.multiplier ≡ m
  current : limit b ≡ pos c
  positive : 0 < c
  capped : c ≤ suc x

set_defaults_lem :
    {rt : Runtime} (m : Runtime.Float rt) (x c : ℕ) (b : Backoff rt)
    → rt.lt_one m ≡ false
    → IsAt m x c b
    → let r = set_defaults rt b in
      (r.initial ≡ b.initial) × (r.max ≡ pos (suc x)) × (r.multiplier ≡ m)
unfolding set_defaults
set_defaults_lem m x c b big at = ground (arith, at.initial, at.max, at.multiplier)

limit_of_pos :
    {rt : Runtime} (b : Backoff rt) → 0 < pos_part b.initial → 0 < pos_part b.cur → limit b ≡ b.cur
unfolding set_defaults
limit_of_pos b h k = ground arith

min_mul : (p y q : ℕ) → 0 < q → min (min p y * q) y ≡ min (p * q) y
min_mul p y q h = elim (dec_le p y) [
  | yes le ↦ let e : min p y ≡ p = omega arith in rw e refl
  | no lt ↦
      let e : min p y ≡ y = omega arith in
      let f : y * 1 ≤ y * q = grind arith in
      let g : y * q ≤ p * q = grind arith in rw e (omega arith)
]

module _ (rt : Runtime) (m : Runtime.Float rt) (k x : ℕ) (factor : IsFactor rt m k (suc x)) where
  grow_lem :
      (c : ℕ) (r : Backoff rt)
      → c ≤ suc x
      → r.cur ≡ pos c
      → r.max ≡ pos (suc x)
      → r.multiplier ≡ m
      → (grow rt r).cur ≡ pos (min (c * k) (suc x))
  unfolding grow
  grow_lem c r h e f g = rw (e, f, g, factor.exact c h) (ground arith)

  next-IsAt :
      (c : ℕ) (b : Backoff rt) → 0 < k → IsAt m x c b → IsAt m x (min (c * k) (suc x)) (next rt b)
  unfolding next
  next-IsAt c b h at =
      let (i, f, g) = set_defaults_lem m x c b factor.not_small at in
      let r : Backoff rt = set_defaults rt b in
      let e : (grow rt r).cur ≡ pos (min (c * k) (suc x)) = grow_lem c r at.capped at.current f g in
      let p : 0 < c * k = grind arith in
      let s : 0 < pos_part (grow rt r).initial = unfold grow in ground (arith, i, at.initial) in
      record {
        initial = s;
        max = unfold grow in f;
        multiplier = unfold grow in g;
        current = limit_of_pos (grow rt r) s (rw e (omega arith)) ∙ e;
        positive = omega arith;
        capped = omega arith;
      }

  cap_step :
      (c n : ℕ) → 0 < k → min (min (c * k) (suc x) * k ^ n) (suc x) ≡ min (c * k ^ suc n) (suc x)
  cap_step c n h =
      min_mul (c * k) (suc x) (k ^ n) (one-le-pow n k h)
      ∙ rw pow-suc (ap (λ t. min t (suc x)) (omega arith))

  limit-advance_onto :
      (n c : ℕ) (b : Backoff rt)
      → 0 < k
      → IsAt m x c b
      → limit (advance n b) ≡ pos (min (c * k ^ n) (suc x))
  unfolding advance
  limit-advance_onto zero c b h at = rw (at.current, pow-zero) (ap pos (omega (arith, at.capped)))
  limit-advance_onto (suc n) c b h at =
      limit-advance_onto n (min (c * k) (suc x)) (next rt b) h (next-IsAt c b h at)
      ∙ ap pos (cap_step c n h)

  -- For a new `Backoff` whose initial period is positive and at most the positive maximum, and
  -- whose multiplier is a whole number k of at least 1, the limit after n calls is
  -- initial * k^n, capped at the maximum.
  pub limit-advance :
      (i n : ℕ) (b : Backoff rt)
      → 0 < k
      → i ≤ x
      → b.initial ≡ pos (suc i)
      → b.max ≡ pos (suc x)
      → b.multiplier ≡ m
      → b.cur ≡ pos 0
      → limit (advance n b) ≡ pos (min (suc i * k ^ n) (suc x))
  unfolding set_defaults
  limit-advance i n b h le ei ex em ec = limit-advance_onto n (suc i) b h (record {
    initial = rw ei (omega arith);
    max = ex;
    multiplier = em;
    current = ground arith;
    positive = omega arith;
    capped = omega arith;
  })

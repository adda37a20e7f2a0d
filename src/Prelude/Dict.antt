-- ===== src/Prelude/Dict.antt =====
-- Go maps with string keys, as association lists.
use mathlib.Core.Path.{◌≡◌, refl}
use mathlib.Core.Option.{Option, none, some}
use mathlib.Core.List.{List, [], ◌∷◌}
use native.Mathlib.Omega.{arith}
use gax_go.Prelude.Tests.{if◌then◌else◌}
use gax_go.Prelude.Text.{Text, text_eq, text_eq_iff}

abbrev pub Dict {ℓ} : Type ℓ → Type ℓ
Dict V = List (Text × V)

module _ {ℓ} {V : Type ℓ} where
  -- v, ok := m[k]
  unfoldable pub get : Dict V → Text → Option V
  get [] k = none
  get ((j, v) ∷ m) k = if text_eq j k then some v else get m k

  -- m[k] = v
  unfoldable pub put : Dict V → Text → V → Dict V
  put [] k v = (k, v) ∷ []
  put ((j, w) ∷ m) k v = if text_eq j k then (j, v) ∷ m else (j, w) ∷ put m k v

  pub get-put :
      (m : Dict V) (k j : Text) (v : V)
      → get (put m k v) j ≡ (if text_eq k j then some v else get m j)
  unfolding get put
  get-put [] k j v = refl
  get-put ((i, w) ∷ m) k j v =
      ground (arith, text_eq_iff k j, text_eq_iff i k, text_eq_iff i j, get-put m k j v)

  -- delete(m, k)
  unfoldable pub delete : Dict V → Text → Dict V
  delete [] k = []
  delete ((j, v) ∷ m) k = let rest = delete m k in if text_eq j k then rest else (j, v) ∷ rest

  pub get-delete :
      (m : Dict V) (k j : Text) → get (delete m k) j ≡ (if text_eq k j then none else get m j)
  unfolding get delete
  get-delete [] k j = ground arith
  get-delete ((i, w) ∷ m) k j =
      ground (arith, text_eq_iff k j, text_eq_iff i k, text_eq_iff i j, get-delete m k j)

  -- No key is listed twice, as in every Go map.
  abbrev pub NodupKeys : Dict V → Type ℓ
  NodupKeys [] = Unit
  NodupKeys ((k, v) ∷ m) = (get m k ≡ none) × NodupKeys m

  pub put-NodupKeys : (m : Dict V) (k : Text) (v : V) → NodupKeys m → NodupKeys (put m k v)
  unfolding get put
  put-NodupKeys [] k v h = (refl, tt)
  put-NodupKeys ((j, w) ∷ m) k v (fresh, h) =
      ground (arith, text_eq_iff j k, text_eq_iff k j, get-put m k j v, put-NodupKeys m k v h)

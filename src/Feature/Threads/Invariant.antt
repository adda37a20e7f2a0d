-- ===== src/Feature/Threads/Invariant.antt =====
-- Where the goroutines are, and what the store has, in every reachable state.
use mathlib.Core.Path.{subst}
use gax_go.Prelude.{
  inl, ℕ, ◌≡◌, refl, sym, ◌∙◌, ap, arith, List, [], ◌∷◌, Bool, true, false, if◌then◌else◌, ◌==◌,
}
use gax_go.Prelude.Text.{Text}
use gax_go.Prelude.Dict.{Dict}
use gax_go.Feature.{load, load_entry, flag, is_feature_enabled, reset, do_once}
use gax_go.Feature.Threads.{
  Once, fresh, running, finished, Pc, idle, entered, loading, passed, State, set_pc, set_env, enter,
  begin, load_next, leave, skip, read_store, Reach, start, later,
}
use gax_go.Feature.Threads.Phases.{
  IsWaiting, IsLoading, IsPassed, is_same, rest_same, one_active, Inv, Began,
}

module _ (Was : List Text → Type 0) where
  enter-Inv :
      (once : Once) (store : Dict Bool) (pc : ℕ → Pc) (answers : List (Text × Bool)) (i : ℕ)
      (name : Text)
      → pc i ≡ idle
      → Inv Was once store pc answers
      → Inv Was once store (set_pc pc i (entered name)) answers
  enter-Inv fresh store pc answers i name e (none_yet, waiting) =
      (none_yet, λ j. ground (arith, waiting j))
  enter-Inv running store pc answers i name e
        (none_yet, k, n, rest, environ, at, same, was, waiting) =
      (
        none_yet,
        k,
        n,
        rest,
        environ,
        ground arith,
        same,
        was,
        λ j other. ground (arith, waiting j other),
      )
  enter-Inv finished store pc answers i name e (environ, same, was, all, quiet) =
      (environ, same, was, all, λ j. ground (arith, quiet j))

  begin-Inv :
      (Now : List Text → Type 0) (pc : ℕ → Pc) (answers : List (Text × Bool)) (i : ℕ) (name : Text)
      (environ : List Text) (store : Dict Bool)
      → Now environ
      → (once : Once) → once ≡ fresh
      → Inv Was once store pc answers
      → Inv Now running [] (set_pc pc i (loading name environ)) answers
  begin-Inv Now pc answers i name environ store now fresh q (none_yet, waiting) = (
    none_yet,
    i,
    name,
    environ,
    environ,
    ground arith,
    refl,
    now,
    λ j other. ground (arith, waiting j),
  )
  begin-Inv Now pc answers i name environ store now running q inv = cc
  begin-Inv Now pc answers i name environ store now finished q inv = cc

  load_next-Inv :
      (once : Once) (store : Dict Bool) (pc : ℕ → Pc) (answers : List (Text × Bool)) (i : ℕ)
      (name env : Text) (rest : List Text)
      → pc i ≡ loading name (env ∷ rest)
      → Inv Was once store pc answers
      → Inv Was once (load_entry env store) (set_pc pc i (loading name rest)) answers
  unfolding load
  load_next-Inv fresh store pc answers i name env rest e (none_yet, waiting) =
      absurd (subst IsWaiting e (waiting i))
  load_next-Inv running store pc answers i name env rest e
        (none_yet, k, n, rest', environ, at, same, was, waiting) =
      (
        none_yet,
        i,
        name,
        rest,
        environ,
        ground arith,
        loaded,
        was,
        λ j other. ground (arith, waiting j, one),
      )
    where
      one : i ≡ k
      one = is_same pc i k (rw e tt) waiting

      loaded : load rest (load_entry env store) ≡ load environ []
      loaded =
          sym (ap (λ r. load r store) (rest_same pc i k name n (env ∷ rest) rest' one e at)) ∙ same
  load_next-Inv finished store pc answers i name env rest e (environ, same, was, all, quiet) =
      absurd (quiet i (rw e tt))

  leave-Inv :
      (once : Once) (store : Dict Bool) (pc : ℕ → Pc) (answers : List (Text × Bool)) (i : ℕ)
      (name : Text)
      → pc i ≡ loading name []
      → Inv Was once store pc answers
      → Inv Was finished store (set_pc pc i (passed name)) answers
  unfolding load
  leave-Inv fresh store pc answers i name e (none_yet, waiting) =
      absurd (subst IsWaiting e (waiting i))
  leave-Inv running store pc answers i name e
        (none_yet, k, n, rest, environ, at, same, was, waiting) =
      (environ, loaded, was, rw none_yet tt, λ j. quiet j (j == i) refl)
    where
      one : i ≡ k
      one = is_same pc i k (rw e tt) waiting

      loaded : store ≡ load environ []
      loaded = sym (ap (λ r. load r store) (rest_same pc i k name n [] rest one e at)) ∙ same

      quiet : (j : ℕ) (b : Bool) → (j == i) ≡ b → IsLoading (if b then passed name else pc j) → ⊥
      quiet j true q at = at
      quiet j false q at = let self : j ≡ k = is_same pc j k at waiting in ground (arith, one)
  leave-Inv finished store pc answers i name e (environ, same, was, all, quiet) =
      absurd (quiet i (rw e tt))

  skip-Inv :
      (once : Once) (store : Dict Bool) (pc : ℕ → Pc) (answers : List (Text × Bool)) (i : ℕ)
      (name : Text)
      → once ≡ finished
      → Inv Was once store pc answers
      → Inv Was once store (set_pc pc i (passed name)) answers
  skip-Inv fresh store pc answers i name e inv = cc
  skip-Inv running store pc answers i name e inv = cc
  skip-Inv finished store pc answers i name e (environ, same, was, all, quiet) =
      (environ, same, was, all, λ j. ground (arith, quiet j))

  read_store-Inv :
      (once : Once) (store : Dict Bool) (pc : ℕ → Pc) (answers : List (Text × Bool)) (i : ℕ)
      (name : Text)
      → pc i ≡ passed name
      → Inv Was once store pc answers
      → Inv Was once store (set_pc pc i idle) ((name, flag store name) ∷ answers)
  unfolding is_feature_enabled do_once reset
  read_store-Inv fresh store pc answers i name e (none_yet, waiting) =
      absurd (subst IsWaiting e (waiting i))
  read_store-Inv running store pc answers i name e
        (none_yet, k, n, rest, environ, at, same, was, waiting) =
      absurd (one_active pc i k n rest (subst IsPassed (sym e) tt) at waiting)
  read_store-Inv finished store pc answers i name e (environ, same, was, all, quiet) =
      (environ, same, was, (ap (λ store. flag store name) same, all), λ j. ground (arith, quiet j))

pub Reach-Inv :
    {environ0 : List Text} (s : State) (run : Reach environ0 s)
    → Inv (Began run) s.once s.store s.pc s.answers
Reach-Inv s start = (refl, λ i. tt)
Reach-Inv s (later run (set_env environ)) = Reach-Inv _ run
Reach-Inv s (later run (enter i name e)) = enter-Inv (Began run) _ _ _ _ i name e (Reach-Inv _ run)
Reach-Inv s (later {t} run (begin i name e free)) =
    begin-Inv (Began run) _ _ _ i name t.environ _ (inl refl) _ free (Reach-Inv _ run)
Reach-Inv s (later run (load_next i name env rest e)) =
    load_next-Inv (Began run) _ _ _ _ i name env rest e (Reach-Inv _ run)
Reach-Inv s (later run (leave i name e)) = leave-Inv (Began run) _ _ _ _ i name e (Reach-Inv _ run)
Reach-Inv s (later run (skip i name e ended)) =
    skip-Inv (Began run) _ _ _ _ i name ended (Reach-Inv _ run)
Reach-Inv s (later run (read_store i name e)) =
    read_store-Inv (Began run) _ _ _ _ i name e (Reach-Inv _ run)

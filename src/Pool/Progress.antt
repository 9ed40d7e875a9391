-- ===== src/Pool/Progress.antt =====
-- special.go: the goroutines never wait for each other for ever.
use smartproxy.Common.{
  ℕ, zero, suc, ◌+◌, ◌≤◌, ◌<◌, ◌≡◌, refl, Bool, true, false, List, [], ◌∷◌, arith, Bool-cases, inl,
  inr,
}
use smartproxy.Pool.{
  Phase, waiting, busy, finished, Job, Pool, active, all_finished, move, step_jobs, step, run,
  start_jobs, pool,
}
use smartproxy.Pool.Bound.{held-run, active-start_jobs}

-- `weight` bounds the accesses that a goroutine still makes.
module _ {K S L : Type 0} (fresh : L) (work : K → S → L → S × L) (is_ready : L → Bool)
    (weight : L → ℕ)
    (lighter : (k : K) (s : S) (l : L)
      → is_ready l ≡ false
      → weight (work k s l).1 < weight l) where
  abbrev moves_left : Phase L → ℕ
  moves_left waiting = weight fresh + 2
  moves_left (busy l) = weight l + 1
  moves_left finished = 0

  abbrev measure : List (Job K L) → ℕ
  measure [] = 0
  measure ((k, f) ∷ js) = moves_left f + measure js

  active_unfinished : (js : List (Job K L)) → 1 ≤ active js → all_finished js ≡ false
  active_unfinished [] h = absurd (omega arith)
  active_unfinished ((k, waiting) ∷ js) h = refl
  active_unfinished ((k, busy l) ∷ js) h = refl
  active_unfinished ((k, finished) ∷ js) h = active_unfinished js (omega arith)

  Lighter : ℕ → S → List (Job K L) → Type 0
  Lighter t s js = (i : ℕ) × (measure (step_jobs fresh work is_ready i t s js).jobs < measure js)

  progress :
      (t : ℕ) (s : S) (js : List (Job K L))
      → all_finished js ≡ false
      → 1 ≤ t + active js
      → Lighter t s js
  unfolding Lighter step_jobs move
  progress t s [] h m = absurd cc
  progress zero s ((k, waiting) ∷ js) h m =
      let (i, less) = progress zero s js (active_unfinished js (omega arith)) (omega arith) in
      (suc i, omega arith)
  progress (suc t) s ((k, waiting) ∷ js) h m = (0, omega arith)
  progress t s ((k, busy l) ∷ js) h m = elim (Bool-cases (is_ready l)) [
    | inl e ↦ (0, rw e (omega arith))
    | inr e ↦ (0, rw e (omega (arith, lighter k s l e)))
  ]
  progress t s ((k, finished) ∷ js) h m =
      let (i, less) = progress t s js h (omega arith) in (suc i, omega arith)

  Ends : Pool K S L → Type 0
  Ends p = (is : List ℕ) × (all_finished (run fresh work is_ready is p).jobs ≡ true)

  -- With enough fuel for the moves that are left.
  Ends-within :
      (fuel : ℕ) (p : Pool K S L) → measure p.jobs ≤ fuel → 1 ≤ p.tokens + active p.jobs → Ends p
  unfolding Ends run step Lighter
  Ends-within zero p small m = elim (Bool-cases (all_finished p.jobs)) [
    | inl e ↦ ([], e)
    | inr e ↦ let (i, less) = progress p.tokens p.shared p.jobs e m in absurd (omega arith)
  ]
  Ends-within (suc fuel) p small m = elim (Bool-cases (all_finished p.jobs)) [
    | inl e ↦ ([], e)
    | inr e ↦
        let (i, less) = progress p.tokens p.shared p.jobs e m in
        let kept = held-run fresh work is_ready (i ∷ []) p in
        let (is, done) =
          Ends-within fuel (step fresh work is_ready i p) (omega arith) (omega arith) in
        (i ∷ is, done)
  ]

  -- Started with a token in the channel, the goroutines are never stuck: wherever an interleaving
  -- has brought them, it can go on until all of them are done.
  pub ends-run :
      (is : List ℕ) (n : ℕ) (s : S) (ks : List K)
      → 1 ≤ n
      → (more : List ℕ) × (all_finished
            (run fresh work is_ready more
              (run fresh work is_ready is (pool n s (start_jobs ks)))).jobs
          ≡ true)
  unfolding Ends
  ends-run is n s ks m =
      let p = run fresh work is_ready is (pool n s (start_jobs ks)) in
      Ends-within (measure p.jobs) p (omega arith) (
        omega (
          arith,
          held-run fresh work is_ready is (pool n s (start_jobs ks)),
          active-start_jobs fresh work is_ready ks,
        ))

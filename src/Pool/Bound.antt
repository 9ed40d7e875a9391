-- ===== src/Pool/Bound.antt =====
-- special.go: how many goroutines are at work.
use smartproxy.Common.{
  ℕ, zero, suc, ◌+◌, ◌≤◌, ◌≡◌, refl, ◌∙◌, Bool, List, [], ◌∷◌, arith, Bool-cases, inl, inr,
}
use smartproxy.Pool.{
  Phase, waiting, busy, finished, Job, Pool, active, is_busy, move, step_jobs, step, run,
  start_jobs, pool,
}

abbrev held : {K S L : Type 0} → Pool K S L → ℕ
held p = p.tokens + active p.jobs

module _ {K S L : Type 0} (fresh : L) (work : K → S → L → S × L) (is_ready : L → Bool) where
  held-move :
      (t : ℕ) (s : S) (k : K) (f : Phase L) (js : List (Job K L))
      → held (move fresh work is_ready t s k f js) ≡ t + (is_busy f + active js)
  unfolding move
  held-move zero s k waiting js = refl
  held-move (suc t) s k waiting js = omega arith
  held-move t s k (busy l) js = elim (Bool-cases (is_ready l)) [
    | inl e ↦ rw e (omega arith)
    | inr e ↦ rw e refl
  ]
  held-move t s k finished js = refl

  held-step_jobs :
      (i t : ℕ) (s : S) (js : List (Job K L))
      → held (step_jobs fresh work is_ready i t s js) ≡ t + active js
  unfolding step_jobs
  held-step_jobs i t s [] = refl
  held-step_jobs zero t s ((k, f) ∷ js) = held-move t s k f js
  held-step_jobs (suc i) t s ((k, f) ∷ js) = omega (arith, held-step_jobs i t s js)

  pub held-run : (is : List ℕ) (p : Pool K S L) → held (run fresh work is_ready is p) ≡ held p
  unfolding run step
  held-run [] p = refl
  held-run (i ∷ is) p =
      held-run is (step fresh work is_ready i p) ∙ held-step_jobs i p.tokens p.shared p.jobs

  pub active-start_jobs : (ks : List K) → active (start_jobs {L = L} ks) ≡ 0
  unfolding start_jobs
  active-start_jobs [] = refl
  active-start_jobs (k ∷ ks) = omega (arith, active-start_jobs ks)

  -- Whatever the interleaving, the tokens in the channel and the goroutines at work are together as
  -- many as the channel was given: no more than these are ever at work, and none of the sends that
  -- give a token back finds the channel full.
  pub active-run :
      (is : List ℕ) (n : ℕ) (s : S) (ks : List K)
      → ((run fresh work is_ready is (pool n s (start_jobs ks))).tokens
            + active (run fresh work is_ready is (pool n s (start_jobs ks))).jobs
          ≡ n)
        × (active (run fresh work is_ready is (pool n s (start_jobs ks))).jobs ≤ n)
  active-run is n s ks =
      let total = held-run is (pool n s (start_jobs ks)) in
      (omega (arith, total, active-start_jobs ks), omega (arith, total, active-start_jobs ks))

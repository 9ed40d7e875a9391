-- ===== src/Pool.antt =====
-- The goroutines of special.go: one for each key, at most MulOpParallel of them at work at a time.
-- The channel `p` is its number of tokens; a goroutine takes one (`<-p`), works on what it shares
-- with the others, and gives the token back (`p <- 1`, then `wg.Done()`). A step is one move of one
-- goroutine; a schedule names who moves next, so a run is any interleaving.
pub mod Bound
pub mod Progress
use smartproxy.Common.{
  ℕ, zero, suc, ◌+◌, ◌≡◌, refl, Bool, true, false, ◌&&◌, List, [], ◌∷◌, if◌then◌else◌, all,
}

pub data Phase (L : Type 0) : Type 0 where
  waiting : Phase L
  busy : L → Phase L
  finished : Phase L

-- A goroutine: its key, and how far it is.
abbrev pub Job : Type 0 → Type 0 → Type 0
Job K L = K × Phase L

pub record Pool (K S L : Type 0) : Type 0 where
  pub tokens : ℕ
  pub shared : S
  pub jobs : List (Job K L)

module _ {L : Type 0} where
  abbrev is_finished : Phase L → Bool
  is_finished finished = true
  is_finished _ = false

  abbrev pub is_busy : Phase L → ℕ
  is_busy (busy l) = 1
  is_busy _ = 0

module _ {K L : Type 0} where
  unfoldable pub start_jobs : List K → List (Job K L)
  start_jobs [] = []
  start_jobs (k ∷ ks) = (k, waiting) ∷ start_jobs ks

  -- What `wg.Wait()` waits for.
  abbrev pub all_finished : List (Job K L) → Bool
  all_finished [] = true
  all_finished ((k, f) ∷ js) = is_finished f && all_finished js

  -- The goroutines that hold a token.
  abbrev pub active : List (Job K L) → ℕ
  active [] = 0
  active ((k, f) ∷ js) = is_busy f + active js

module _ {K S L : Type 0} where
  abbrev pub pool : ℕ → S → List (Job K L) → Pool K S L
  pool t s js = record { tokens = t; shared = s; jobs = js }

  abbrev behind : Job K L → Pool K S L → Pool K S L
  behind j p = pool p.tokens p.shared (j ∷ p.jobs)

-- `work` is one access to the shared state; `is_ready` tells that none is left.
module _ {K S L : Type 0} (fresh : L) (work : K → S → L → S × L) (is_ready : L → Bool) where
  -- The next move of the first goroutine; without a token it cannot begin.
  unfoldable pub move : ℕ → S → K → Phase L → List (Job K L) → Pool K S L
  move zero s k waiting js = pool zero s ((k, waiting) ∷ js)
  move (suc t) s k waiting js = pool t s ((k, busy fresh) ∷ js)
  move t s k (busy l) js =
      if is_ready l
      then pool (suc t) s ((k, finished) ∷ js)
      else pool t (work k s l).0 ((k, busy (work k s l).1) ∷ js)
  move t s k finished js = pool t s ((k, finished) ∷ js)

  unfoldable pub step_jobs : ℕ → ℕ → S → List (Job K L) → Pool K S L
  unfolding move
  step_jobs i t s [] = pool t s []
  step_jobs zero t s ((k, f) ∷ js) = move t s k f js
  step_jobs (suc i) t s (j ∷ js) = behind j (step_jobs i t s js)

  unfoldable pub step : ℕ → Pool K S L → Pool K S L
  unfolding step_jobs
  step i p = step_jobs i p.tokens p.shared p.jobs

  unfoldable pub run : List ℕ → Pool K S L → Pool K S L
  unfolding step
  run [] p = p
  run (i ∷ is) p = run is (step i p)

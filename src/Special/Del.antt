-- ===== src/Special/Del.antt =====
-- special.go: the unguarded counter of DEL.
use smartproxy.Common.{ℕ, zero, suc, ◌+◌, ◌≤◌, ◌≡◌, refl, ap, List, [], ◌∷◌, arith}
use smartproxy.Common.Int.{ℤ, pos, ◌≤ℤ◌, ◌+ℤ◌}
use smartproxy.Pool.{
  Phase, waiting, busy, finished, Job, Pool, pool, move, step_jobs, step, run, start_jobs,
}
use smartproxy.Special.{from, Tally, unsent, seen, added, is_added, del_work, del_run}

-- The cluster deletes `count i` keys for the goroutine that is number `i`.
module _ (count : ℕ → ℕ) where
  abbrev pub total : List ℕ → ℕ
  total [] = 0
  total (i ∷ is) = count i + total is

  abbrev val : ℕ → ℤ
  val i = pos (count i)

  abbrev Bounded : ℕ → ℤ → Type 0
  Bounded top r = (pos 0 ≤ℤ r) × (r ≤ℤ pos top)

  -- What the goroutines have still to add.
  abbrev due : ℕ → Phase Tally → ℕ
  due i waiting = count i
  due i (busy unsent) = count i
  due i (busy (seen r)) = count i
  due i _ = 0

  abbrev dues : List (Job ℕ Tally) → ℕ
  dues [] = 0
  dues ((i, f) ∷ js) = due i f + dues js

  -- `top` bounds the counter and whatever was read of it.
  abbrev IsGood : ℕ → Phase Tally → Type 0
  IsGood top (busy (seen r)) = Bounded top r
  IsGood top _ = Unit

  abbrev AllGood : ℕ → List (Job ℕ Tally) → Type 0
  AllGood top [] = Unit
  AllGood top ((i, f) ∷ js) = IsGood top f × AllGood top js

  Bounded-rises : (top top' : ℕ) (r : ℤ) → top ≤ top' → Bounded top r → Bounded top' r
  Bounded-rises top top' r h (low, high) = (low, omega arith)

  IsGood-rises : (top top' : ℕ) (f : Phase Tally) → top ≤ top' → IsGood top f → IsGood top' f
  IsGood-rises top top' waiting h g = tt
  IsGood-rises top top' (busy unsent) h g = tt
  IsGood-rises top top' (busy (seen r)) h g = Bounded-rises top top' r h g
  IsGood-rises top top' (busy added) h g = tt
  IsGood-rises top top' finished h g = tt

  AllGood-rises :
      (top top' : ℕ) (js : List (Job ℕ Tally)) → top ≤ top' → AllGood top js → AllGood top' js
  AllGood-rises top top' [] h g = tt
  AllGood-rises top top' ((i, f) ∷ js) h (gf, g) =
      (IsGood-rises top top' f h gf, AllGood-rises top top' js h g)

  -- A step raises the bound by what it adds, which is no longer due.
  record IsStep (top : ℕ) (js : List (Job ℕ Tally)) (p : Pool ℕ ℤ Tally) : Type 0 where
    top' : ℕ
    rises : top ≤ top'
    exact : top' + dues p.jobs ≡ top + dues js
    bounded : Bounded top' p.shared
    good : AllGood top' p.jobs

  IsStep-kept :
      (top t : ℕ) (s : ℤ) (js js' : List (Job ℕ Tally))
      → Bounded top s
      → AllGood top js'
      → dues js' ≡ dues js
      → IsStep top js (pool t s js')
  IsStep-kept top t s js js' h g m = record {
    top' = top;
    rises = omega arith;
    exact = ap (λ x. top + x) m;
    bounded = h;
    good = g;
  }

  Bounded-add : (top n : ℕ) (r : ℤ) → Bounded top r → Bounded (top + n) (r +ℤ pos n)
  unfolding ◌+ℤ◌
  Bounded-add top n r (low, high) = (ground arith, ground arith)

  IsStep-move :
      (top t : ℕ) (s : ℤ) (i : ℕ) (f : Phase Tally) (js : List (Job ℕ Tally))
      → Bounded top s
      → AllGood top ((i, f) ∷ js)
      → IsStep top ((i, f) ∷ js) (move unsent (del_work val) is_added t s i f js)
  unfolding move del_work
  IsStep-move top zero s i waiting js h g = IsStep-kept top zero s _ _ h g refl
  IsStep-move top (suc t) s i waiting js h g = IsStep-kept top t s _ _ h g refl
  IsStep-move top t s i (busy unsent) js h (gf, g) = IsStep-kept top t s _ _ h (h, g) refl
  IsStep-move top t s i (busy (seen r)) js h (gf, g) = record {
    top' = top + count i;
    rises = omega arith;
    exact = omega arith;
    bounded = Bounded-add top (count i) r gf;
    good = (tt, AllGood-rises top (top + count i) js (omega arith) g);
  }
  IsStep-move top t s i (busy added) js h g = IsStep-kept top (suc t) s _ _ h g refl
  IsStep-move top t s i finished js h g = IsStep-kept top t s _ _ h g refl

  IsStep-step_jobs :
      (n top t : ℕ) (s : ℤ) (js : List (Job ℕ Tally))
      → Bounded top s
      → AllGood top js
      → IsStep top js (step_jobs unsent (del_work val) is_added n t s js)
  unfolding step_jobs
  IsStep-step_jobs n top t s [] h g = IsStep-kept top t s [] [] h g refl
  IsStep-step_jobs zero top t s ((i, f) ∷ js) h g = IsStep-move top t s i f js h g
  IsStep-step_jobs (suc n) top t s ((i, f) ∷ js) h (gf, g) =
      let rest = IsStep-step_jobs n top t s js h g in
      record {
        top' = rest.top';
        rises = rest.rises;
        exact = omega (arith, rest.exact);
        bounded = rest.bounded;
        good = (IsGood-rises top rest.top' f rest.rises gf, rest.good);
      }

  IsStep-run :
      (is : List ℕ) (top : ℕ) (p : Pool ℕ ℤ Tally)
      → Bounded top p.shared
      → AllGood top p.jobs
      → IsStep top p.jobs (run unsent (del_work val) is_added is p)
  unfolding run step
  IsStep-run [] top p h g = IsStep-kept top p.tokens p.shared p.jobs p.jobs h g refl
  IsStep-run (n ∷ is) top p h g =
      let first = IsStep-step_jobs n top p.tokens p.shared p.jobs h g in
      let rest =
        IsStep-run is first.top' (step unsent (del_work val) is_added n p) first.bounded
          first.good in
      record {
        top' = rest.top';
        rises = omega (arith, first.rises, rest.rises);
        exact = omega (arith, first.exact, rest.exact);
        bounded = rest.bounded;
        good = rest.good;
      }

  AllGood-start : (is : List ℕ) → AllGood 0 (start_jobs is)
  unfolding start_jobs
  AllGood-start [] = tt
  AllGood-start (i ∷ is) = (tt, AllGood-start is)

  dues-start : (is : List ℕ) → dues (start_jobs is) ≡ total is
  unfolding start_jobs
  dues-start [] = refl
  dues-start (i ∷ is) = ap (λ r. count i + r) (dues-start is)

  -- However the goroutines of DEL interleave, and at every point of the run, the counter is not
  -- negative and not more than the sum of what the cluster answers to the DEL of each key, if these
  -- answers are not negative.
  pub del_run-bounded :
      (n keys : ℕ) (is : List ℕ)
      → (pos 0 ≤ℤ (del_run (λ i. pos (count i)) n keys is).shared)
        × ((del_run (λ i. pos (count i)) n keys is).shared ≤ℤ pos (total (from 0 keys)))
  unfolding del_run
  del_run-bounded n keys is =
      let start = pool n (pos 0) (start_jobs (from 0 keys)) in
      let end = IsStep-run is 0 start (omega arith, omega arith) (AllGood-start (from 0 keys)) in
      let (low, high) = end.bounded in
      (low, omega (arith, high, end.exact, dues-start (from 0 keys)))

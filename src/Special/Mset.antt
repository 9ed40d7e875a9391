-- ===== src/Special/Mset.antt =====
-- special.go: the unguarded counter of MSET still tells success from failure.
use smartproxy.Common.{
  ℕ, zero, suc, ◌+◌, ◌≤◌, ◌≡◌, ◌↔◌, refl, ◌∙◌, ap, Bool, true, false, List, [], ◌∷◌, Bytes, arith,
  Bool-cases, inl, inr, ◌==◌,
}
use smartproxy.Redis.Format.{ok_bytes}
use smartproxy.Pool.{
  Phase, waiting, busy, finished, Job, Pool, pool, all_finished, move, step_jobs, step, run,
  start_jobs,
}
use smartproxy.Special.{
  from, Count, unasked, read, counted, is_counted, mset_work, mset_run, mset_reply,
}

abbrev bit : Bool → ℕ
bit true = 1
bit false = 0

minus_plus : (s t : Bytes) → ¬ (b'-' ∷ s ≡ b'+' ∷ t)
minus_plus s t h = cc

nonzero : (c : ℕ) → (suc c == 0) ≡ false
nonzero c = ground arith

mset_reply_ok : (c pairs : ℕ) → (mset_reply c pairs ≡ ok_bytes) ↔ (c ≡ 0)
unfolding mset_reply
mset_reply_ok zero pairs = (λ h. refl, λ h. refl)
mset_reply_ok (suc c) pairs =
    rw (nonzero c) ((λ h. absurd (minus_plus _ _ h)), λ h. absurd (omega arith))

module _ (failed : ℕ → Bool) where
  -- How many of the goroutines with these numbers have a SET that fails.
  abbrev pub failures : List ℕ → ℕ
  failures [] = 0
  failures (i ∷ is) = bit (failed i) + failures is

  abbrev mark : ℕ → Phase Count → ℕ
  mark i (busy counted) = bit (failed i)
  mark i finished = bit (failed i)
  mark i _ = 0

  -- The failures that were counted.
  abbrev marks : List (Job ℕ Count) → ℕ
  marks [] = 0
  marks ((i, f) ∷ js) = mark i f + marks js

  -- `top` bounds the counter, and so what was read of it.
  abbrev IsGood : ℕ → ℕ → ℕ → Phase Count → Type 0
  IsGood top s i (busy (read seen)) = (failed i ≡ true) × (seen ≤ top)
  IsGood top s i (busy counted) = failed i ≡ true → 1 ≤ s
  IsGood top s i finished = failed i ≡ true → 1 ≤ s
  IsGood top s i _ = Unit

  abbrev AllGood : ℕ → ℕ → List (Job ℕ Count) → Type 0
  AllGood top s [] = Unit
  AllGood top s ((i, f) ∷ js) = IsGood top s i f × AllGood top s js

  IsGood-rises :
      (top top' s s' i : ℕ) (f : Phase Count)
      → top ≤ top'
      → (1 ≤ s → 1 ≤ s')
      → IsGood top s i f
      → IsGood top' s' i f
  IsGood-rises top top' s s' i waiting h k g = tt
  IsGood-rises top top' s s' i (busy unasked) h k g = tt
  IsGood-rises top top' s s' i (busy (read seen)) h k (bad, g) = (bad, omega arith)
  IsGood-rises top top' s s' i (busy counted) h k g = λ e. k (g e)
  IsGood-rises top top' s s' i finished h k g = λ e. k (g e)

  AllGood-rises :
      (top top' s s' : ℕ) (js : List (Job ℕ Count))
      → top ≤ top'
      → (1 ≤ s → 1 ≤ s')
      → AllGood top s js
      → AllGood top' s' js
  AllGood-rises top top' s s' [] h k g = tt
  AllGood-rises top top' s s' ((i, f) ∷ js) h k (gf, g) =
      (IsGood-rises top top' s s' i f h k gf, AllGood-rises top top' s s' js h k g)

  abbrev numbers : List (Job ℕ Count) → List ℕ
  numbers [] = []
  numbers ((i, f) ∷ js) = i ∷ numbers js

  -- A step raises the bound by the failure that it counts, if it counts one.
  record IsStep (top s : ℕ) (js : List (Job ℕ Count)) (p : Pool ℕ ℕ Count) : Type 0 where
    top' : ℕ
    rises : top ≤ top'
    exact : marks p.jobs + top ≡ marks js + top'
    below : p.shared ≤ top'
    positive : 1 ≤ s → 1 ≤ p.shared
    good : AllGood top' p.shared p.jobs
    same : numbers p.jobs ≡ numbers js

  IsStep-kept :
      (top t s : ℕ) (js js' : List (Job ℕ Count))
      → s ≤ top
      → AllGood top s js'
      → marks js' ≡ marks js
      → numbers js' ≡ numbers js
      → IsStep top s js (pool t s js')
  IsStep-kept top t s js js' h g m e = record {
    top' = top;
    rises = omega arith;
    exact = ap (λ x. x + top) m;
    below = h;
    positive = λ k. k;
    good = g;
    same = e;
  }

  IsStep-move :
      (top t s i : ℕ) (f : Phase Count) (js : List (Job ℕ Count))
      → s ≤ top
      → AllGood top s ((i, f) ∷ js)
      → IsStep top s ((i, f) ∷ js) (move unasked (mset_work failed) is_counted t s i f js)
  unfolding move mset_work
  IsStep-move top zero s i waiting js h g = IsStep-kept top zero s _ _ h g refl refl
  IsStep-move top (suc t) s i waiting js h g = IsStep-kept top t s _ _ h g refl refl
  IsStep-move top t s i (busy unasked) js h (gf, g) = elim (Bool-cases (failed i)) [
    | inl e ↦ rw e (IsStep-kept top t s _ _ h ((e, h), g) refl refl)
    | inr e ↦ rw e (IsStep-kept top t s _ _ h ((λ k. absurd cc), g) (rw e refl) refl)
  ]
  IsStep-move top t s i (busy (read seen)) js h ((bad, gf), g) = record {
    top' = top + 1;
    rises = omega arith;
    exact = rw bad (omega arith);
    below = omega arith;
    positive = λ k. omega arith;
    good = (
      (λ e. omega arith),
      AllGood-rises top (top + 1) s (suc seen) js (omega arith) (λ k. omega arith) g,
    );
    same = refl;
  }
  IsStep-move top t s i (busy counted) js h g = IsStep-kept top (suc t) s _ _ h g refl refl
  IsStep-move top t s i finished js h g = IsStep-kept top t s _ _ h g refl refl

  IsStep-step_jobs :
      (n top t s : ℕ) (js : List (Job ℕ Count))
      → s ≤ top
      → AllGood top s js
      → IsStep top s js (step_jobs unasked (mset_work failed) is_counted n t s js)
  unfolding step_jobs
  IsStep-step_jobs n top t s [] h g = IsStep-kept top t s [] [] h g refl refl
  IsStep-step_jobs zero top t s ((i, f) ∷ js) h g = IsStep-move top t s i f js h g
  IsStep-step_jobs (suc n) top t s ((i, f) ∷ js) h (gf, g) =
      let rest = IsStep-step_jobs n top t s js h g in
      record {
        top' = rest.top';
        rises = rest.rises;
        exact = omega (arith, rest.exact);
        below = rest.below;
        positive = rest.positive;
        good = (IsGood-rises top rest.top' s _ i f rest.rises rest.positive gf, rest.good);
        same = ap (λ r. i ∷ r) rest.same;
      }

  IsStep-run :
      (is : List ℕ) (top : ℕ) (p : Pool ℕ ℕ Count)
      → p.shared ≤ top
      → AllGood top p.shared p.jobs
      → IsStep top p.shared p.jobs (run unasked (mset_work failed) is_counted is p)
  unfolding run step
  IsStep-run [] top p h g = IsStep-kept top p.tokens p.shared p.jobs p.jobs h g refl refl
  IsStep-run (n ∷ is) top p h g =
      let first = IsStep-step_jobs n top p.tokens p.shared p.jobs h g in
      let rest =
        IsStep-run is first.top' (step unasked (mset_work failed) is_counted n p) first.below
          first.good in
      record {
        top' = rest.top';
        rises = omega (arith, first.rises, rest.rises);
        exact = omega (arith, first.exact, rest.exact);
        below = rest.below;
        positive = λ k. rest.positive (first.positive k);
        good = rest.good;
        same = rest.same ∙ first.same;
      }

  AllGood-start : (is : List ℕ) → AllGood 0 0 (start_jobs is)
  unfolding start_jobs
  AllGood-start [] = tt
  AllGood-start (i ∷ is) = (tt, AllGood-start is)

  marks-start : (is : List ℕ) → marks (start_jobs is) ≡ 0
  unfolding start_jobs
  marks-start [] = refl
  marks-start (i ∷ is) = omega (arith, marks-start is)

  numbers-start : (is : List ℕ) → numbers (start_jobs is) ≡ is
  unfolding start_jobs
  numbers-start [] = refl
  numbers-start (i ∷ is) = ap (λ r. i ∷ r) (numbers-start is)

  marks-finished :
      (js : List (Job ℕ Count)) → all_finished js ≡ true → marks js ≡ failures (numbers js)
  marks-finished [] h = refl
  marks-finished ((i, finished) ∷ js) h = ap (λ r. bit (failed i) + r) (marks-finished js h)
  marks-finished ((i, waiting) ∷ js) h = cc
  marks-finished ((i, busy l) ∷ js) h = cc

  positive-finished :
      (top s : ℕ) (js : List (Job ℕ Count))
      → all_finished js ≡ true
      → AllGood top s js
      → 1 ≤ failures (numbers js)
      → 1 ≤ s
  positive-finished top s [] h g k = absurd (omega arith)
  positive-finished top s ((i, finished) ∷ js) h (gf, g) k = elim (Bool-cases (failed i)) [
    | inl e ↦ gf e
    | inr e ↦
        let none : bit (failed i) ≡ 0 = rw e refl in
        positive-finished top s js h g (omega (arith, k, none))
  ]
  positive-finished top s ((i, waiting) ∷ js) h g k = cc
  positive-finished top s ((i, busy l) ∷ js) h g k = cc

  -- However the goroutines of MSET interleave, once all of them are done the counter is at most the
  -- number of SETs that failed, and the reply is "+OK" exactly when none did.
  pub mset_run-failures :
      (n pairs : ℕ) (is : List ℕ)
      → all_finished (mset_run failed n pairs is).jobs ≡ true
      → ((mset_run failed n pairs is).shared ≤ failures (from 0 pairs))
        × ((mset_reply (mset_run failed n pairs is).shared pairs ≡ ok_bytes)
            ↔ (failures (from 0 pairs) ≡ 0))
  unfolding mset_run
  mset_run-failures n pairs is done =
      let start = pool n 0 (start_jobs (from 0 pairs)) in
      let end = IsStep-run is 0 start (omega arith) (AllGood-start (from 0 pairs)) in
      let last = run unasked (mset_work failed) is_counted is start in
      let order = end.same ∙ numbers-start (from 0 pairs) in
      let total = marks-finished last.jobs done ∙ ap failures order in
      let few : last.shared ≤ failures (from 0 pairs) =
        omega (arith, total, end.exact, end.below, marks-start (from 0 pairs)) in
      let some_failed = positive-finished end.top' last.shared last.jobs done end.good in
      let counted_one : 1 ≤ failures (from 0 pairs) → 1 ≤ last.shared =
        λ k. some_failed (rw (ap failures order) k) in
      let (told, tells) = mset_reply_ok last.shared pairs in
      (
        few,
        (λ fine. none_failed _ _ counted_one (told fine), λ none. tells (omega (arith, few, none))),
      )
    where
      none_failed : (a b : ℕ) → (1 ≤ b → 1 ≤ a) → a ≡ 0 → b ≡ 0
      none_failed a zero h e = refl
      none_failed a (suc b) h e = absurd (omega (arith, h (omega arith)))

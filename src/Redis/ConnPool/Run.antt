-- ===== src/Redis/ConnPool/Run.antt =====
-- redis/pool.go: the invariant of the pool under every interleaving of the goroutines that use it.
use smartproxy.Common.{
  ℕ, zero, suc, ◌+◌, ◌<◌, ◌≡◌, refl, false, List, [], ◌∷◌, ◌++◌, some, length, arith, ap, ◌∙◌,
  subst, lt→ltb,
}
use smartproxy.Common.Int.{pos}
use smartproxy.Redis.ConnPool.Counts.{count, sum}
use smartproxy.Redis.ConnPool.Invariant.{Inv, in_hand, dialled, is_it, any, place, excess, closes}
use smartproxy.Redis.ConnPool.Closing.{open_before}
use smartproxy.Redis.ConnPool.Steps.{move-Inv}
use smartproxy.Redis.ConnList.{Shared}
use smartproxy.Redis.ConnPool.{
  Phase, Back, Choice, away, putting, pushing, return, push, move, step_at, run_pool, new_pool,
}

module _ (size : ℕ) where
  -- An invariant reads its sums one by one.
  Inv-cong :
      (t u : (Phase → ℕ) → ℕ) (s : Shared)
      → ((f : Phase → ℕ) → t f ≡ u f)
      → Inv size t s
      → Inv size u s
  Inv-cong t u s e = subst (λ t. Inv size t s) (λ i. λ f. e f i)

  step_at-Inv :
      (rest : (Phase → ℕ) → ℕ) (ch : Choice) (n : ℕ) (ps : List Phase) (s : Shared)
      → (step_at size ch n ps s).1.closed ≡ false
      → Inv size (λ f. rest f + sum f ps) s
      → Inv size (λ f. rest f + sum f (step_at size ch n ps s).0) (step_at size ch n ps s).1
  unfolding step_at sum
  step_at-Inv rest ch n [] s o v = v
  step_at-Inv rest ch zero (p ∷ ps) s o v =
      Inv-cong _ _ _ (λ f. omega arith)
        (move-Inv size (λ f. rest f + sum f ps) ch p s o (Inv-cong _ _ _ (λ f. omega arith) v))
  step_at-Inv rest ch (suc n) (p ∷ ps) s o v =
      Inv-cong _ _ _ (λ f. omega arith)
        (step_at-Inv (λ f. rest f + f p) ch n ps s o (Inv-cong _ _ _ (λ f. omega arith) v))

  run-Inv :
      (is : List (ℕ × Choice)) (ps : List Phase) (s : Shared)
      → (run_pool size is ps s).1.closed ≡ false
      → Inv size (λ f. sum f ps) s
      → Inv size (λ f. sum f (run_pool size is ps s).0) (run_pool size is ps s).1
  unfolding run_pool
  run-Inv [] ps s o v = v
  run-Inv ((n, ch) ∷ is) ps s o v =
      let down = open_before size is (step_at size ch n ps s).0 (step_at size ch n ps s).1 o in
      run-Inv is _ _ o (
        Inv-cong _ _ _ (λ f. omega arith)
          (step_at-Inv (λ f. 0) ch n ps s down (Inv-cong _ _ _ (λ f. omega arith) v)))

new_pool-Inv :
    (size : ℕ) (ps : List Phase)
    → ((f : Phase → ℕ) → f away ≡ 0 → sum f ps ≡ 0)
    → Inv size (λ f. sum f ps) new_pool
unfolding count in_hand dialled place excess closes
new_pool-Inv size ps zeros = record {
  list = [];
  opened = refl;
  owned = λ c. omega (arith, zeros (λ p. is_it c (in_hand p)) refl);
  single = λ c. omega (arith, zeros (λ p. is_it c (dialled p)) refl);
  unborn = λ c _. omega (arith, zeros (λ p. is_it c (dialled p)) refl);
  counted = ap pos (omega (arith, zeros place refl, zeros excess refl));
  within = omega (arith, zeros place refl);
  held = omega (arith, zeros (λ p. any (in_hand p)) refl);
  no_closer = zeros closes refl;
  safe = refl;
}

-- Any number of goroutines, none of them in the pool.
unfoldable pub idle : ℕ → List Phase
idle zero = []
idle (suc n) = away ∷ idle n

sum-idle : (n : ℕ) (f : Phase → ℕ) → f away ≡ 0 → sum f (idle n) ≡ 0
unfolding sum idle
sum-idle zero f e = refl
sum-idle (suc n) f e = omega (arith, e, sum-idle n f e)

-- As long as no goroutine has closed a new pool, any number of them that use it in any interleaving keep
-- its invariant: each connection of the list is in the channel or in the hands of one goroutine, and in
-- one of them only; the counter is the length of the list and the places reserved for diallings, with one
-- more for each reservation to be given back; the list and the reserved places are at most the size of
-- the pool; and neither `Remove` nor `Replace` has panicked.
pub run_pool-Inv :
    (size n : ℕ) (is : List (ℕ × Choice))
    → (run_pool size is (idle n) new_pool).1.closed ≡ false
    → Inv size
        (λ f. sum f (run_pool size is (idle n) new_pool).0)
        (run_pool size is (idle n) new_pool).1
run_pool-Inv size n is o =
    run-Inv size is (idle n) new_pool o (new_pool-Inv size (idle n) (sum-idle n))

sum-append : (f : Phase → ℕ) (ps qs : List Phase) → sum f (ps ++ qs) ≡ sum f ps + sum f qs
unfolding sum
sum-append f [] qs = omega arith
sum-append f (p ∷ ps) qs = omega (arith, sum-append f ps qs)

-- A connection in a goroutine's hands is not in the channel, which is as large as the pool.
free-lt :
    (size cn : ℕ) (p : Phase) (before after : List Phase) (s : Shared)
    → in_hand p ≡ some cn
    → Inv size (λ f. sum f (before ++ p ∷ after)) s
    → length s.free < size
unfolding sum
free-lt size cn p before after s h v =
    omega (arith, v.held, v.within, ap any h, sum-append (λ p. any (in_hand p)) before (p ∷ after))

push-room :
    (size cn : ℕ) (p q : Phase) (s : Shared)
    → length s.free < size
    → push size p q cn s ≡ (q, record s { free = s.free ++ cn ∷ [] })
unfolding push
push-room size cn p q s h = rw (lt→ltb (length s.free) size h) refl

-- The accesses that send a connection to the channel, and what the goroutine does next.
pub data Sends : Phase → ℕ → Phase → Type 0 where
  puts : {cn : ℕ} → Sends (putting cn) cn away
  pushes : {b : Back} {cn : ℕ} → Sends (pushing b cn) cn (return b)

Sends-move :
    {p q : Phase} {cn : ℕ} (size : ℕ) (ch : Choice) (s : Shared)
    → Sends p cn q
    → (in_hand p ≡ some cn) × (move size ch p s ≡ push size p q cn s)
unfolding move in_hand
Sends-move size ch s puts = (refl, refl)
Sends-move size ch s pushes = (refl, refl)

-- As long as no goroutine has closed the pool, one that sends a connection to the channel, in `Put` or
-- after a replacement, finds room in it: it is never blocked there.
pub run_pool-Sends :
    (size n : ℕ) (is : List (ℕ × Choice)) (before after : List Phase) (p q : Phase) (cn : ℕ)
    (ch : Choice)
    → (run_pool size is (idle n) new_pool).1.closed ≡ false
    → (run_pool size is (idle n) new_pool).0 ≡ before ++ p ∷ after
    → Sends p cn q
    → move size ch p (run_pool size is (idle n) new_pool).1 ≡ (
      q,
      record (run_pool size is (idle n) new_pool).1 {
        free = (run_pool size is (idle n) new_pool).1.free ++ cn ∷ [];
      },
    )
run_pool-Sends size n is before after p q cn ch o e h =
    let (hand, moves) = Sends-move size ch _ h in
    moves
    ∙ push-room size cn p q _ (
        free-lt size cn p before after _ hand (
          subst (λ ps. Inv size (λ f. sum f ps) (run_pool size is (idle n) new_pool).1) e
            (run_pool-Inv size n is o)))

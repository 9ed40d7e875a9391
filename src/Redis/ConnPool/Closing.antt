-- ===== src/Redis/ConnPool/Closing.antt =====
-- redis/pool.go: the flag that `Close` raises stays up.
use smartproxy.Common.{
  ℕ, zero, suc, ◌≡◌, refl, Bool, true, false, List, [], ◌∷◌, Option, none, some, length, arith, ◌∙◌,
  ltb, if_split,
}
use smartproxy.Redis.ConnList.{remove_from, removed_as, replace_in, replaced_as, crash, Shared}
use smartproxy.Redis.ConnPool.{
  Phase, Looker, Waiter, Op, Choice, away, starting, looking, dropping, reserving, over_reserved,
  dialing, dial_failed, adding, waiting, holding, putting, removing, removal_failed, replacing,
  pushing, closing, closing_list, start, look, receive, push, reserve, move, step_at, run_pool,
}

-- The flag of `Close` stays up.
-- A state with the flag up.
abbrev IsUp : Phase × Shared → Type 0
IsUp (p, s) = s.closed ≡ true

removed_as-closed : (o : Option (List ℕ)) (s : Shared) → (removed_as o s).closed ≡ s.closed
unfolding removed_as crash
removed_as-closed none s = refl
removed_as-closed (some l) s = refl

remove_from-closed :
    (o : Option (List ℕ)) (cn : ℕ) (s : Shared) → (remove_from o cn s).closed ≡ s.closed
unfolding remove_from
remove_from-closed none cn s = refl
remove_from-closed (some l) cn s = removed_as-closed _ s

replaced_as-closed : (o : Option (List ℕ)) (s : Shared) → (replaced_as o s).closed ≡ s.closed
unfolding replaced_as crash
replaced_as-closed none s = refl
replaced_as-closed (some l) s = refl

replace_in-closed :
    (o : Option (List ℕ)) (cn newcn : ℕ) (s : Shared) → (replace_in o cn newcn s).closed ≡ s.closed
unfolding replace_in
replace_in-closed none cn newcn s = refl
replace_in-closed (some l) cn newcn s = replaced_as-closed _ s

look-closed :
    (ch : Choice) (l : Looker) (free : List ℕ) (s : Shared) → (look ch l free s).1.closed ≡ s.closed
unfolding look
look-closed ch l [] s = refl
look-closed ch l (cn ∷ free) s = refl

receive-closed :
    (ch : Choice) (w : Waiter) (free : List ℕ) (s : Shared)
    → (receive ch w free s).1.closed ≡ s.closed
unfolding receive
receive-closed ch w [] s = refl
receive-closed ch w (cn ∷ free) s = refl

start-closed : (op : Op) (s : Shared) → s.closed ≡ true → (start op s).1.closed ≡ true
unfolding start
start-closed op s e = ground arith

push-closed :
    (size : ℕ) (p q : Phase) (cn : ℕ) (s : Shared) → (push size p q cn s).1.closed ≡ s.closed
unfolding push
push-closed size p q cn s =
    if_split (λ (r : Phase × Shared). r.1.closed ≡ s.closed) (ltb (length s.free) size) _ _ refl
      refl

move-closed :
    (size : ℕ) (ch : Choice) (p : Phase) (s : Shared)
    → s.closed ≡ true
    → (move size ch p s).1.closed ≡ true
unfolding move reserve
move-closed size ch away s e = start-closed ch.op s e
move-closed size ch starting s e = e
move-closed size ch (looking l) s e = look-closed ch l s.free s ∙ e
move-closed size ch (dropping l cn) s e = remove_from-closed s.cns cn s ∙ e
move-closed size ch reserving s e = e
move-closed size ch over_reserved s e = e
move-closed size ch dialing s e = if_split IsUp ch.dials _ _ e e
move-closed size ch dial_failed s e = e
move-closed size ch (adding cn) s e = e
move-closed size ch (waiting w) s e =
    if_split IsUp ch.is_timeout _ _ e (receive-closed ch w s.free s ∙ e)
move-closed size ch (holding cn) s e = e
move-closed size ch (putting cn) s e = push-closed size _ _ cn s ∙ e
move-closed size ch (removing b cn) s e = if_split IsUp ch.dials _ _ e e
move-closed size ch (removal_failed b cn) s e = remove_from-closed s.cns cn s ∙ e
move-closed size ch (replacing b cn newcn) s e = replace_in-closed s.cns cn newcn s ∙ e
move-closed size ch (pushing b cn) s e = push-closed size _ _ cn s ∙ e
move-closed size ch (closing i) s e = e
move-closed size ch closing_list s e = e

module _ (size : ℕ) where
  step_at-closed :
      (ch : Choice) (n : ℕ) (ps : List Phase) (s : Shared)
      → s.closed ≡ true
      → (step_at size ch n ps s).1.closed ≡ true
  unfolding step_at
  step_at-closed ch n [] s e = e
  step_at-closed ch zero (p ∷ ps) s e = move-closed size ch p s e
  step_at-closed ch (suc n) (p ∷ ps) s e = step_at-closed ch n ps s e

  run_pool-closed :
      (is : List (ℕ × Choice)) (ps : List Phase) (s : Shared)
      → s.closed ≡ true
      → (run_pool size is ps s).1.closed ≡ true
  unfolding run_pool
  run_pool-closed [] ps s e = e
  run_pool-closed ((n, ch) ∷ is) ps s e = run_pool-closed is _ _ (step_at-closed ch n ps s e)

down_before : (b c : Bool) → (b ≡ true → c ≡ true) → c ≡ false → b ≡ false
down_before true c h e = ground arith
down_before false c h e = refl

-- So a goroutine that has not closed the pool moved in one that was open.
pub open_before :
    (size : ℕ) (is : List (ℕ × Choice)) (ps : List Phase) (s : Shared)
    → (run_pool size is ps s).1.closed ≡ false
    → s.closed ≡ false
open_before size is ps s = down_before s.closed _ (run_pool-closed size is ps s)

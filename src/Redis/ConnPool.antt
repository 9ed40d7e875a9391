-- ===== src/Redis/ConnPool.antt =====
-- redis/pool.go: the pool of the connections to one node, `connPool` over `connList`. A goroutine that
-- uses the pool moves by one access to what they share, and `Phase` says where it stands.
pub mod Counts
pub mod Invariant
pub mod Moves
pub mod ListMoves
pub mod Steps
pub mod Closing
pub mod Run
use smartproxy.Common.{
  ℕ, zero, suc, ◌+◌, ◌≡◌, refl, Bool, true, false, List, [], ◌∷◌, ◌++◌, Option, none, some, ltb,
  ◌==◌, if◌then◌else◌, length,
}
use smartproxy.Common.Int.{ℤ, pos, negsuc, ltb_ℤ}
use smartproxy.Redis.ConnList.{
  Shared, incr, decr, cons_to, without, with_new, crash, removed_as, remove_from, replaced_as,
  replace_in, add_to,
}

-- `First` is called by `Get` and by the reaper, `wait` by `Get` and by the loop of `Close`.
pub data Looker : Type 0 where
  for_get for_reaper : Looker

pub data Waiter : Type 0 where
  in_get : Waiter
  in_close : ℕ → Waiter

-- Where `Remove` returns to.
pub data Back : Type 0 where
  to_user : Back
  to_wait : Waiter → Back

pub data Phase : Type 0 where
  away starting : Phase
  looking : Looker → Phase
  dropping : Looker → ℕ → Phase
  reserving over_reserved dialing dial_failed : Phase
  adding : ℕ → Phase
  waiting : Waiter → Phase
  holding putting : ℕ → Phase
  removing removal_failed : Back → ℕ → Phase
  replacing : Back → ℕ → ℕ → Phase
  pushing : Back → ℕ → Phase
  closing : ℕ → Phase
  closing_list : Phase

pub data Op : Type 0 where
  op_get op_put op_remove op_close op_reap : Op

-- What the goroutine wants, and what it meets: an idle connection, unread data, a dialling that
-- succeeds, the time-out of the wait.
pub record Choice : Type 0 where
  pub op : Op
  pub is_idle : Bool
  pub is_unread : Bool
  pub dials : Bool
  pub is_timeout : Bool

unfoldable pub hand_back : Choice → Op → ℕ → Phase
hand_back ch op_put cn = if ch.is_unread then removing to_user cn else putting cn
hand_back ch op_remove cn = removing to_user cn
hand_back ch _ cn = holding cn

-- The reaper puts back what it finds.
unfoldable pub found : Choice → Looker → ℕ → Phase
unfolding hand_back
found ch for_get cn = holding cn
found ch for_reaper cn = hand_back ch op_put cn

unfoldable pub none_found : Looker → Phase
none_found for_get = reserving
none_found for_reaper = away

-- `First`: a receive that does not block.
unfoldable pub look : Choice → Looker → List ℕ → Shared → Phase × Shared
unfolding found none_found
look ch l [] s = (none_found l, s)
look ch l (cn ∷ rest) s =
    (if ch.is_idle then dropping l cn else found ch l cn, record s { free = rest })

pub taken : Waiter → ℕ → Phase
taken in_get cn = holding cn
taken (in_close i) cn = closing (i + 1)

unfoldable pub timed_out : Waiter → Phase
timed_out in_get = away
timed_out (in_close i) = closing_list

-- `wait`: a goroutine that finds nothing stays where it is.
unfoldable pub receive : Choice → Waiter → List ℕ → Shared → Phase × Shared
unfolding taken
receive ch w [] s = (waiting w, s)
receive ch w (cn ∷ rest) s =
    (if ch.is_idle then removing (to_wait w) cn else taken w cn, record s { free = rest })

pub return : Back → Phase
return to_user = away
return (to_wait w) = waiting w

unfoldable pub start : Op → Shared → Phase × Shared
start op_get s = (starting, s)
start op_reap s = (if s.closed then away else looking for_reaper, s)
start op_close s = if s.closed then (away, s) else (closing 0, record s { closed = true })
start _ s = (away, s)

module _ (size : ℕ) where
  -- `p.freeConns <- cn`: a goroutine that finds the channel full stays where it is.
  pub push : Phase → Phase → ℕ → Shared → Phase × Shared
  push here next cn s =
      if ltb (length s.free) size then (next, record s { free = s.free ++ cn ∷ [] }) else (here, s)

  -- `Reserve`: the counter is raised first and lowered again if it is above the size.
  unfoldable pub reserve : Shared → Phase × Shared
  unfolding incr
  reserve s = (
    if ltb_ℤ (pos size) (incr s.len) then over_reserved else dialing,
    record s { len = incr s.len },
  )

  unfoldable pub move : Choice → Phase → Shared → Phase × Shared
  unfolding start look receive reserve push remove_from replace_in add_to return hand_back decr
  move ch away s = start ch.op s
  move ch starting s = (if s.closed then away else looking for_get, s)
  move ch (looking l) s = look ch l s.free s
  move ch (dropping l cn) s = (looking l, remove_from s.cns cn s)
  move ch reserving s = reserve s
  move ch over_reserved s = (waiting in_get, record s { len = decr s.len })
  move ch dialing s =
      if ch.dials then (adding s.next, record s { next = suc s.next }) else (dial_failed, s)
  move ch dial_failed s = (away, record s { len = decr s.len })
  move ch (adding cn) s = (holding cn, record s { cns = some (add_to s.cns cn) })
  move ch (waiting w) s = if ch.is_timeout then (timed_out w, s) else receive ch w s.free s
  move ch (holding cn) s = (hand_back ch ch.op cn, s)
  move ch (putting cn) s = push (putting cn) away cn s
  move ch (removing b cn) s =
      if ch.dials
      then (replacing b cn s.next, record s { next = suc s.next })
      else (removal_failed b cn, s)
  move ch (removal_failed b cn) s = (return b, remove_from s.cns cn s)
  move ch (replacing b cn newcn) s = (pushing b newcn, replace_in s.cns cn newcn s)
  move ch (pushing b cn) s = push (pushing b cn) (return b) cn s
  move ch (closing i) s = (if ltb_ℤ (pos i) s.len then waiting (in_close i) else closing_list, s)
  move ch closing_list s = (away, record s { cns = none; len = pos 0 })

  -- The goroutine that is number `n` moves.
  unfoldable pub step_at : Choice → ℕ → List Phase → Shared → List Phase × Shared
  unfolding move
  step_at ch n [] s = ([], s)
  step_at ch zero (p ∷ ps) s = let (p', s') = move ch p s in (p' ∷ ps, s')
  step_at ch (suc n) (p ∷ ps) s = let (ps', s') = step_at ch n ps s in (p ∷ ps', s')

  unfoldable pub run_pool : List (ℕ × Choice) → List Phase → Shared → List Phase × Shared
  unfolding step_at
  run_pool [] ps s = (ps, s)
  run_pool ((n, ch) ∷ is) ps s = let (ps', s') = step_at ch n ps s in run_pool is ps' s'

abbrev pub new_pool : Shared
new_pool = record {
  cns = some [];
  len = pos 0;
  free = [];
  closed = false;
  next = 0;
  crashed = false;
}

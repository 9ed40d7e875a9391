-- ===== src/Redis/SinglePool/Balance.antt =====
-- redis/pool.go: the single pool loses no connection of the pool below.
use smartproxy.Common.{ℕ, ◌+◌, ◌≡◌, refl, Bool, false, List, [], ◌∷◌, Option, some, arith}
use smartproxy.Errors.{Error}
use smartproxy.Redis.SinglePool.{
  Call, took, gave, dropped, Single, Method, sets, firsts, lens, free_lens, gets, puts, removes,
  closes, set_conn, first, get, get_held, get_below, put, remove, remove_below, put_below,
  close_held, close_single, len_of, free_len_of, call_single, run_single, new_single, panicked,
}

abbrev taken_in : List Call → ℕ
taken_in [] = 0
taken_in (took c ∷ cs) = 1 + taken_in cs
taken_in (gave c ∷ cs) = taken_in cs
taken_in (dropped c ∷ cs) = taken_in cs

abbrev returned_in : List Call → ℕ
returned_in [] = 0
returned_in (took c ∷ cs) = returned_in cs
returned_in (gave c ∷ cs) = 1 + returned_in cs
returned_in (dropped c ∷ cs) = 1 + returned_in cs

-- The connections set from outside, by one method and by several.
abbrev set_by : Method → Single → ℕ
set_by (sets cn) p = free_len_of p.cn
set_by _ p = 0

set_in : List Method → Single → ℕ
unfolding run_single free_len_of
set_in [] p = 0
set_in (m ∷ ms) p = set_by m p + set_in ms (call_single m p).1

-- What was taken is what was returned and what is held, when `extra` connections were set from outside.
abbrev Balanced : ℕ → Single → Type 0
Balanced extra p = taken_in p.calls + extra ≡ returned_in p.calls + len_of p.cn

call_single-Balanced :
    (extra : ℕ) (m : Method) (p : Single)
    → Balanced extra p
    → Balanced (extra + set_by m p) (call_single m p).1
unfolding call_single set_conn first get get_held get_below put remove remove_below put_below
    close_held close_single len_of free_len_of
call_single-Balanced extra (sets cn) p b = ground arith
call_single-Balanced extra firsts p b = ground arith
call_single-Balanced extra lens p b = ground arith
call_single-Balanced extra free_lens p b = ground arith
call_single-Balanced extra (gets new err) p b = ground arith
call_single-Balanced extra (puts cn) p b = ground arith
call_single-Balanced extra (removes cn err) p b = ground arith
call_single-Balanced extra (closes err) p b = ground arith

run_single-Balanced :
    (extra : ℕ) (ms : List Method) (p : Single)
    → Balanced extra p
    → Balanced (extra + set_in ms p) (run_single ms p)
unfolding run_single set_in
run_single-Balanced extra [] p b = ground arith
run_single-Balanced extra (m ∷ ms) p b = ground (
  arith,
  run_single-Balanced (extra + set_by m p) ms (call_single m p).1
      (call_single-Balanced extra m p b),
)

-- In every order of methods, what a new single pool took from the pool below and what was set from outside
-- is what it returned to the pool below and what it holds.
new_single-Balanced :
    (has_pool reusable : Bool) (ms : List Method)
    → Balanced
        (set_in ms (new_single has_pool reusable))
        (run_single ms (new_single has_pool reusable))
unfolding new_single len_of
new_single-Balanced has_pool reusable ms =
    omega (arith, run_single-Balanced 0 ms (new_single has_pool reusable) refl)

-- Over the nil pool of `conn.init`, `Remove` of the connection held panics.
remove-nil :
    (p : Single) (cn : ℕ) (err : Option Error)
    → p.has_pool ≡ false
    → p.closed ≡ false
    → (remove err cn (some cn) p).0 ≡ panicked
unfolding remove remove_below
remove-nil p cn err h k = ground arith

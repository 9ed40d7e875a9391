-- ===== src/Redis/SinglePool.antt =====
-- redis/pool.go: `singleConnPool`, a pool of one connection over another pool, by which a connection is
-- initialised. Each method runs under its lock, so a method is a step.
pub mod Balance
use smartproxy.Common.{
  ℕ, zero, suc, ◌≡◌, refl, Bool, true, false, List, [], ◌∷◌, Option, none, some, ◌==◌,
  if◌then◌else◌,
}
use smartproxy.Errors.{Error}
use smartproxy.Redis.Cluster.{err_closed}

-- A call of the pool below: a connection taken, put back, or removed.
pub data Call : Type 0 where
  took gave dropped : ℕ → Call

-- `has_pool` is false for the nil pool of `conn.init`. `calls` holds the latest call first.
pub record Single : Type 0 where
  pub has_pool : Bool
  pub reusable : Bool
  pub cn : Option ℕ
  pub closed : Bool
  pub calls : List Call

-- What a method returns: a connection, an error, or a number; or its panic.
pub data Returned : Type 0 where
  a_conn : Option ℕ → Option Error → Returned
  an_err : Option Error → Returned
  a_len : ℕ → Returned
  panicked : Returned

pub new_single : Bool → Bool → Single
new_single has_pool reusable = record {
  has_pool = has_pool;
  reusable = reusable;
  cn = none;
  closed = false;
  calls = [];
}

pub set_conn : ℕ → Option ℕ → Single → Returned × Single
set_conn cn none p = (an_err none, record p { cn = some cn })
set_conn cn (some held) p = (panicked, p)

unfoldable pub first : Single → Returned × Single
first p = (a_conn p.cn none, p)

-- `p.pool.Get()` returns the connection, or the error.
pub get_below : ℕ → Option Error → Single → Returned × Single
get_below new (some e) p = (a_conn none (some e), p)
get_below new none p =
    (a_conn (some new) none, record p { cn = some new; calls = took new ∷ p.calls })

pub get_held : ℕ → Option Error → Option ℕ → Single → Returned × Single
unfolding get_below
get_held new err (some held) p = (a_conn (some held) none, p)
get_held new err none p = if p.has_pool then get_below new err p else (panicked, p)

pub get : ℕ → Option Error → Single → Returned × Single
unfolding get_held
get new err p = if p.closed then (a_conn none (some err_closed), p) else get_held new err p.cn p

pub put : ℕ → Option ℕ → Single → Returned × Single
put cn none p = (panicked, p)
put cn (some held) p =
    if held == cn then (an_err (if p.closed then some err_closed else none), p) else (panicked, p)

-- `p.remove()` of the connection held
pub remove_below : Option Error → ℕ → Single → Returned × Single
remove_below err held p =
    if p.has_pool
    then (an_err err, record p { cn = none; calls = dropped held ∷ p.calls })
    else (panicked, p)

unfoldable pub remove : Option Error → ℕ → Option ℕ → Single → Returned × Single
unfolding remove_below
remove err cn none p = (panicked, p)
remove err cn (some held) p =
    if held == cn
    then if p.closed then (an_err (some err_closed), p) else remove_below err held p
    else (panicked, p)

pub put_below : Option Error → ℕ → Single → Returned × Single
put_below err held p =
    if p.has_pool
    then (an_err err, record p { cn = none; calls = gave held ∷ p.calls })
    else (panicked, p)

pub close_held : Option Error → Option ℕ → Single → Returned × Single
unfolding put_below remove_below
close_held err none p = (an_err none, p)
close_held err (some held) p = if p.reusable then put_below err held p else remove_below err held p

pub close_single : Option Error → Single → Returned × Single
unfolding close_held
close_single err p =
    if p.closed
    then (an_err (some err_closed), p)
    else close_held err p.cn (record p { closed = true })

pub len_of : Option ℕ → ℕ
len_of none = 0
len_of (some held) = 1

pub free_len_of : Option ℕ → ℕ
free_len_of none = 1
free_len_of (some held) = 0

-- A method, with its argument and what the pool below returns.
pub data Method : Type 0 where
  sets : ℕ → Method
  firsts lens free_lens : Method
  gets : ℕ → Option Error → Method
  puts : ℕ → Method
  removes : ℕ → Option Error → Method
  closes : Option Error → Method

pub call_single : Method → Single → Returned × Single
unfolding set_conn first get put remove close_single len_of free_len_of
call_single (sets cn) p = set_conn cn p.cn p
call_single firsts p = first p
call_single lens p = (a_len (len_of p.cn), p)
call_single free_lens p = (a_len (free_len_of p.cn), p)
call_single (gets new err) p = get new err p
call_single (puts cn) p = put cn p.cn p
call_single (removes cn err) p = remove err cn p.cn p
call_single (closes err) p = close_single err p

pub run_single : List Method → Single → Single
unfolding call_single
run_single [] p = p
run_single (m ∷ ms) p = run_single ms (call_single m p).1

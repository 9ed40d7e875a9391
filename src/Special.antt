-- ===== src/Special.antt =====
-- special.go: MGET, MSET and DEL, whose goroutines each send one command to the cluster. `process i` is
-- what the cluster answers to the command of the goroutine that is number `i`.
pub mod Table
pub mod Mget
pub mod Mset
pub mod Del
use smartproxy.Common.{
  ℕ, zero, suc, ◌+◌, ◌*◌, ◌/◌, ◌%◌, ◌≡◌, refl, Bool, true, false, not, ◌&&◌, ◌||◌, List, [], ◌∷◌,
  ◌++◌, Option, none, some, Bytes, codes, ◌==◌, if◌then◌else◌, length, set, get_or, replicate,
  bytes_eq,
}
use smartproxy.Common.Int.{ℤ, pos, pos_part, sub_ℕ, ltb_ℤ, ◌+ℤ◌}
use smartproxy.Text.{itoa, format_int}
use smartproxy.Errors.{Error, error_text, wrong_argument_count}
use smartproxy.Redis.Command.{Val, Cmd, reply, status, int}
use smartproxy.Redis.Request.{new_request}
use smartproxy.Redis.Format.{crlf, ok_bytes, error_line, format_int_reply}
use smartproxy.Redis.Handlers.{on_get, whole_request, call}
use smartproxy.Pool.{Pool, pool, start_jobs, run, all_finished}

-- The numbers of the goroutines.
abbrev pub from : ℕ → ℕ → List ℕ
from i zero = []
from i (suc n) = i ∷ from (suc i) n

abbrev concat : List Bytes → Bytes
concat [] = []
concat (d ∷ ds) = d ++ concat ds

-- Whether a goroutine has stored its reply.
abbrev pub stored : Bool → Bool
stored done = done

module _ (format_float : ℕ → Bytes) (process : ℕ → Cmd → Cmd) where
  -- `OnGET(NewRequest("GET", key)).Reply()`
  pub get_reply : ℕ → Bytes → Bytes
  unfolding call new_request reply
  get_reply i key =
      reply format_float (process i (call on_get (new_request (codes "GET" ∷ key ∷ []))))

  -- `result[idx] = resp.Reply()`, with `key` the one at `idx`.
  unfoldable pub mget_work : List Bytes → ℕ → List Bytes → Bool → List Bytes × Bool
  unfolding get_reply
  mget_work keys i result false = (set result i (get_reply i (get_or keys i [])), true)
  mget_work keys i result true = (result, true)

  -- MGET up to `wg.Wait()`, for `n` tokens and a schedule of the goroutines.
  unfoldable pub mget_run : ℕ → List Bytes → List ℕ → Pool ℕ (List Bytes) Bool
  unfolding mget_work run start_jobs
  mget_run n keys is =
      run false (mget_work keys) stored is
        (pool n (replicate (length keys) []) (start_jobs (from 0 (length keys))))

-- What MGET writes once they are done.
pub mget_reply : List Bytes → List Bytes → Bytes
unfolding itoa
mget_reply keys result = (b'*' ∷ itoa (length keys)) ++ crlf ++ concat result

-- `resp.Err() != nil && resp.Err() != redis.Nil`; no error but `redis.Nil` has its text.
has_failed : Option Error → Bool
unfolding error_text bytes_eq
has_failed none = false
has_failed (some e) = not (bytes_eq (error_text e) (codes "redis: nil"))

-- `OnSET(NewRequest("SET", k, v))`
set_failed : (ℕ → Cmd → Cmd) → ℕ → Bytes → Bytes → Bool
unfolding call new_request has_failed
set_failed process i k v =
    has_failed
      (process i (call (whole_request (status [])) (new_request (codes "SET" ∷ k ∷ v ∷ [])))).err

-- The counter of MSET: `partialErr += 1` reads and writes it in two accesses.
pub data Count : Type 0 where
  unasked : Count
  read : ℕ → Count
  counted : Count

abbrev pub is_counted : Count → Bool
is_counted counted = true
is_counted _ = false

-- `failed i` is whether the SET of the goroutine that is number `i` failed.
pub mset_work : (ℕ → Bool) → ℕ → ℕ → Count → ℕ × Count
mset_work failed i partial_err unasked =
    if failed i then (partial_err, read partial_err) else (partial_err, counted)
mset_work failed i partial_err (read seen) = (suc seen, counted)
mset_work failed i partial_err counted = (partial_err, counted)

unfoldable pub mset_run : (ℕ → Bool) → ℕ → ℕ → List ℕ → Pool ℕ ℕ Count
unfolding mset_work run start_jobs
mset_run failed n pairs is =
    run unasked (mset_work failed) is_counted is (pool n 0 (start_jobs (from 0 pairs)))

-- "- %d MSET failed, partial key/value %d set\r\n", without the first byte.
mset_failure : ℕ → ℕ → Bytes
unfolding itoa format_int
mset_failure partial_err pairs =
    codes " "
    ++ itoa partial_err
    ++ codes " MSET failed, partial key/value "
    ++ format_int (sub_ℕ pairs partial_err)
    ++ codes " set\r\n"

-- What MSET writes once they are done.
pub mset_reply : ℕ → ℕ → Bytes
mset_reply partial_err pairs =
    if partial_err == 0 then ok_bytes else b'-' ∷ mset_failure partial_err pairs

int_of : Val → ℤ
int_of (int v) = v
int_of _ = pos 0

-- `OnDEL(NewRequest("DEL", key)).Val()`
del_val : (ℕ → Cmd → Cmd) → ℕ → Bytes → ℤ
unfolding call new_request int_of
del_val process i key =
    int_of
      (process i (call (whole_request (int (pos 0))) (new_request (codes "DEL" ∷ key ∷ [])))).val

-- The counter of DEL: `result += resp.Val()` reads and writes it in two accesses.
pub data Tally : Type 0 where
  unsent : Tally
  seen : ℤ → Tally
  added : Tally

abbrev pub is_added : Tally → Bool
is_added added = true
is_added _ = false

pub del_work : (ℕ → ℤ) → ℕ → ℤ → Tally → ℤ × Tally
unfolding ◌+ℤ◌
del_work val i result unsent = (result, seen result)
del_work val i result (seen r) = (r +ℤ val i, added)
del_work val i result added = (result, added)

pub del_run : (ℕ → ℤ) → ℕ → ℕ → List ℕ → Pool ℕ ℤ Tally
unfolding del_work run start_jobs
del_run val n keys is =
    run unsent (del_work val) is_added is (pool n (pos 0) (start_jobs (from 0 keys)))

-- What became of a command: its reply, a `wg.Wait()` that the schedule does not end, or the panic
-- of a channel made with a negative size.
pub data Scattered : Type 0 where
  replied : Bytes → Scattered
  stuck : Scattered
  broken : Scattered

waited : Bool → Bytes → Scattered
waited done d = if done then replied d else stuck

module _ (format_float : ℕ → Bytes) (process : ℕ → Cmd → Cmd) (is : List ℕ) where
  mget : ℕ → List Bytes → Scattered
  unfolding mget_run mget_reply waited
  mget n keys =
      let p = mget_run format_float process n keys is in
      waited (all_finished p.jobs) (mget_reply keys p.shared)

  mset : ℕ → List Bytes → Scattered
  unfolding set_failed mset_run mset_reply waited
  mset n pair =
      let failed : ℕ → Bool =
        λ i. set_failed process i (get_or pair (2 * i) []) (get_or pair (2 * i + 1) []) in
      let p = mset_run failed n (length pair / 2) is in
      waited (all_finished p.jobs) (mset_reply p.shared (length pair / 2))

  del : ℕ → List Bytes → Scattered
  unfolding del_run del_val format_int_reply waited
  del n keys =
      let p = del_run (λ i. del_val process i (get_or keys i [])) n (length keys) is in
      waited (all_finished p.jobs) (format_int_reply p.shared)

  -- MGET, MSET or DEL with `parallel` goroutines at work; MSET counts its words first.
  pub scatter : ℤ → Bytes → List Bytes → Scattered
  unfolding mget mset del bytes_eq
  scatter parallel name args =
      if bytes_eq name (codes "MSET") && not (length args % 2 == 0)
      then replied (error_line wrong_argument_count)
      else if ltb_ℤ parallel (pos 0)
      then broken
      else if bytes_eq name (codes "MGET")
      then mget (pos_part parallel) args
      else if bytes_eq name (codes "MSET")
      then mset (pos_part parallel) args
      else del (pos_part parallel) args

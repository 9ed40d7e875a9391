-- ===== src/Redis/Node.antt =====
-- redis/redis.go: the client of one node, which sends a command on a connection of its pool and
-- retries after an error of the network.
pub mod Uses
pub mod Keeps
use smartproxy.Common.{
  ℕ, zero, suc, ◌+◌, ◌≤◌, ◌≡◌, refl, ap, Bool, true, false, not, ◌&&◌, List, [], ◌∷◌, Option, none,
  some, Bytes, codes, ◌==◌, if◌then◌else◌, arith, length, all, if_cases,
}
use smartproxy.Common.Int.{ℤ, pos, negsuc}
use smartproxy.Errors.{Error, redis_error, net_error, plain, eof, is_network_error}
use smartproxy.Redis.Command.{Cmd, reset, set_err, new_cmd, string}

-- What an attempt meets: the error of the pool's `Get`, the error of writing, `parseReply` on the
-- connection (the command it leaves and the error it returns; `none` where it panics), and whether bytes
-- stay unread.
pub record Try : Type 0 where
  pub get_err : Option Error
  pub write_err : Option Error
  pub parse : Cmd → Option (Cmd × Option Error)
  pub is_unread : Bool

-- How a connection is handed back to its pool.
pub data Handed : Type 0 where
  put : Handed
  removed : Handed

-- What `process` does in the attempt of a number: it takes a connection from the pool, it meets an error
-- or none in writing or in reading the reply, it hands the connection back.
pub data Act : Type 0 where
  took : ℕ → Act
  met : ℕ → Option Error → Act
  gave : ℕ → Handed → Act

-- `putConn`
unfoldable pub put_conn : Bool → Option Error → Handed
put_conn true ei = removed
put_conn false none = put
put_conn false (some (redis_error s)) = put
put_conn false (some _) = removed

-- `shouldRetry` of redis/error.go
unfoldable pub should_retry : Option Error → Bool
unfolding is_network_error
should_retry none = false
should_retry (some e) = is_network_error e

-- The command and what was done for it, the latest first; `none` is a panic.
abbrev pub Ran : Type 0
Ran = Option (Cmd × List Act)

-- `putConn`, and the end of the body of the loop; `again` goes on with it.
next_try : (Cmd → List Act → Ran) → Try → ℕ → Option Error → Cmd → List Act → Ran
unfolding should_retry put_conn
next_try again t i err cmd acts =
    let acts' = gave i (put_conn t.is_unread err) ∷ met i err ∷ acts in
    let rest = again cmd acts' in if should_retry err then rest else some (cmd, acts')

on_read : (Cmd → List Act → Ran) → Try → ℕ → List Act → Option (Cmd × Option Error) → Ran
unfolding next_try
on_read again t i acts none = none
on_read again t i acts (some (cmd, err)) = next_try again t i err cmd acts

on_written : (Cmd → List Act → Ran) → Try → ℕ → Option Error → Cmd → List Act → Ran
unfolding next_try on_read set_err
on_written again t i (some e) cmd acts = next_try again t i (some e) (set_err e cmd) acts
on_written again t i none cmd acts = on_read again t i acts (t.parse cmd)

on_conn : (Cmd → List Act → Ran) → Try → ℕ → Option Error → Cmd → List Act → Ran
unfolding on_written set_err
on_conn again t i (some e) cmd acts = some (set_err e cmd, acts)
on_conn again t i none cmd acts = on_written again t i t.write_err cmd (took i ∷ acts)

-- `MaxRetries + 1`
unfoldable pub max_tries : ℤ → ℕ
max_tries (pos n) = n + 1
max_tries (negsuc n) = 0

module _ (tries : ℕ → Try) where
  -- The loop of `process`: the attempts left, the number of this one, and what was done so far.
  try_loop : ℕ → ℕ → Cmd → List Act → Ran
  unfolding on_conn reset
  try_loop zero i cmd acts = some (cmd, acts)
  try_loop (suc n) i cmd acts =
      on_conn (try_loop n (i + 1)) (tries i) i (tries i).get_err (if i == 0 then cmd else reset cmd)
        acts

  pub process_on_node : ℤ → Cmd → Ran
  unfolding try_loop max_tries
  process_on_node max_retries cmd = try_loop (max_tries max_retries) 0 cmd []

-- A node that refuses the first connection and answers on the second.
abbrev pub flaky : ℕ → Try
flaky i = record {
  get_err = none;
  write_err = if i == 0 then some eof else none;
  parse = λ c. some (c, none);
  is_unread = false;
}

flaky_test :
    process_on_node flaky (pos 1) (new_cmd (string []) [])
    ≡ some (
      new_cmd (string []) [],
      gave 1 put ∷ met 1 none ∷ took 1 ∷ gave 0 removed ∷ met 0 (some eof) ∷ took 0 ∷ [],
    )
unfolding process_on_node new_cmd
flaky_test = refl

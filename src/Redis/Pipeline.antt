-- ===== src/Redis/Pipeline.antt =====
-- redis/pipeline.go: a pipeline of commands to one node, by which the cluster client follows ASK.
pub mod Keeps
pub mod Ask
use smartproxy.Common.{
  ℕ, zero, suc, ◌+◌, ◌≡◌, refl, Bool, true, false, List, [], ◌∷◌, Option, none, some, Bytes, codes,
  ◌==◌, if◌then◌else◌,
}
use smartproxy.Common.Int.{ℤ, pos}
use smartproxy.Errors.{Error}
use smartproxy.Wire.{Reader}
use smartproxy.Redis.Command.{Cmd, reset, set_err, new_cmd, any}
use smartproxy.Redis.Reply.Commands.{Parsing, parsed, crashed, parse_cmd}
use smartproxy.Redis.Node.{Handed, put_conn, should_retry, max_tries}

-- A connection that an attempt uses: the errors of getting it and of writing to it, what it brings back,
-- and whether more than the replies is buffered.
pub record Link : Type 0 where
  pub get_err : Option Error
  pub write_err : Option Error
  pub reader : Reader
  pub is_unread : Bool

-- A command of the pipeline, and whether it is among `failedCmds`, a slice of the same pointers.
pub record Queued : Type 0 where
  pub cmd : Cmd
  pub is_failed : Bool

-- What `execCmds` does: the commands, with the failed ones marked, and `firstCmdErr`.
pub record Pass : Type 0 where
  pub cmds : List Queued
  pub first_err : Option Error

-- A connection as the pipeline used it: the commands written and how it was handed back.
pub record Batch : Type 0 where
  pub sent_args : List (List Bytes)
  pub handed : Handed

-- The end of `Exec`: the commands, `retErr`, and the connections used, the latest first.
pub record Done : Type 0 where
  pub cmds : List Queued
  pub err : Option Error
  pub batches : List Batch

unfoldable pub first_of : Option Error → Option Error → Option Error
first_of none err = err
first_of (some e) err = some e

pub put_first : Queued → Option Error → Option Pass → Option Pass
unfolding first_of
put_first q err none = none
put_first q err (some p) =
    some (record p { cmds = q ∷ p.cmds; first_err = first_of err p.first_err })

pub on_parsed : Parsing → (Reader → Option Pass) → Option Pass
unfolding put_first should_retry
on_parsed (parsed c err r) again =
    put_first (record { cmd = c; is_failed = should_retry err }) err (again r)
on_parsed crashed again = none

-- `setCmdsErr` and `resetCmds` of the failed commands
pub set_cmds_err : Error → List Queued → List Queued
unfolding set_err
set_cmds_err e [] = []
set_cmds_err e (q ∷ qs) =
    (if q.is_failed then record q { cmd = set_err e q.cmd } else q) ∷ set_cmds_err e qs

pub reset_cmds : List Queued → List Queued
unfolding reset
reset_cmds [] = []
reset_cmds (q ∷ qs) = (if q.is_failed then record q { cmd = reset q.cmd } else q) ∷ reset_cmds qs

pub failed_args : List Queued → List (List Bytes)
failed_args [] = []
failed_args (q ∷ qs) = let rest = failed_args qs in if q.is_failed then q.cmd.args ∷ rest else rest

unfoldable pub queue : List Cmd → List Queued
queue [] = []
queue (c ∷ cs) = record { cmd = c; is_failed = true } ∷ queue cs

pub is_done : List Queued → Bool
is_done [] = true
is_done (q ∷ qs) = let rest = is_done qs in if q.is_failed then false else rest

-- The body of the loop behind `execCmds`; `again` goes on with it.
pub on_pass :
    (List Queued → Option Error → List Batch → Option Done)
    → Link
    → List (List Bytes)
    → Option Error
    → List Batch
    → Option Pass
    → Option Done
unfolding is_done put_conn first_of
on_pass again l args ret bs none = none
on_pass again l args ret bs (some p) =
    let ret' = first_of ret p.first_err in
    let bs' = record { sent_args = args; handed = put_conn l.is_unread p.first_err } ∷ bs in
    let rest = again p.cmds ret' bs' in
    if is_done p.cmds then some (record { cmds = p.cmds; err = ret'; batches = bs' }) else rest

module _ (sprintf : Bytes → Bytes) (max_cap : ℕ) (parse_float : Bytes → ℕ × Option Error) where
  -- The replies of the failed commands are read in their order; `none` is a panic.
  pub parse_all : List Queued → Reader → Option Pass
  unfolding on_parsed put_first
  parse_all [] r = some (record { cmds = []; first_err = none })
  parse_all (q ∷ qs) r = elim q.is_failed [
    | true ↦ on_parsed (parse_cmd sprintf max_cap parse_float q.cmd r) (parse_all qs)
    | false ↦ put_first q none (parse_all qs r)
  ]

  pub exec_on : Link → Option Error → List Queued → Option Pass
  unfolding parse_all set_cmds_err
  exec_on l (some e) qs = some (record { cmds = set_cmds_err e qs; first_err = some e })
  exec_on l none qs = parse_all qs l.reader

  -- `execCmds`
  pub exec_cmds : Link → List Queued → Option Pass
  unfolding exec_on
  exec_cmds l qs = exec_on l l.write_err qs

  pub on_link :
      (List Queued → Option Error → List Batch → Option Done)
      → Link
      → Option Error
      → List Queued
      → List Queued
      → Option Error
      → List Batch
      → Option Done
  unfolding exec_cmds on_pass set_cmds_err failed_args
  on_link again l (some e) qs qs' ret bs =
      some (record { cmds = set_cmds_err e qs; err = some e; batches = bs })
  on_link again l none qs qs' ret bs = on_pass again l (failed_args qs') ret bs (exec_cmds l qs')

  module _ (links : ℕ → Link) where
    unfoldable pub exec_loop : ℕ → ℕ → List Queued → Option Error → List Batch → Option Done
    unfolding on_link reset_cmds
    exec_loop zero i qs ret bs = some (record { cmds = qs; err = ret; batches = bs })
    exec_loop (suc n) i qs ret bs =
        on_link (exec_loop n (i + 1)) (links i) (links i).get_err qs
          (if i == 0 then qs else reset_cmds qs) ret bs

    -- `Exec` of the commands that were queued.
    unfoldable pub exec : ℤ → List Cmd → Option Done
    unfolding exec_loop queue max_tries
    exec max_retries [] = some (record { cmds = []; err = none; batches = [] })
    exec max_retries (c ∷ cs) = exec_loop (max_tries max_retries) 0 (queue (c ∷ cs)) none []

-- `NewCmd("ASKING")`
abbrev pub asking : Cmd
asking = record { args = codes "ASKING" ∷ []; err = none; cluster_key_pos = 0; val = any none }

-- ===== src/Session/Links.antt =====
-- redis/cluster.go over redis/redis.go over `parseReply`: what the nodes answer, given what stands on
-- the connections to them.
use smartproxy.Common.{
  ap, sym, ◌∙◌, ℕ, ◌≡◌, refl, Bool, true, false, List, [], ◌∷◌, Option, none, some, Bytes,
}
use smartproxy.Common.Int.{ℤ}
use smartproxy.Errors.{Error}
use smartproxy.Wire.{Reader}
use smartproxy.Redis.Command.{Cmd, has_reply}
use smartproxy.Redis.Reply.Commands.{Parsing, parsed, crashed, parse_cmd}
use smartproxy.Redis.Reply.Keeps.{parse_cmd-has_reply}
use smartproxy.Redis.Node.{Try, Act, Ran, process_on_node}
use smartproxy.Redis.Node.Keeps.{process_on_node-has_reply}
use smartproxy.Redis.Pipeline.{Link, Queued, Done, exec, asking, queue}
use smartproxy.Redis.Pipeline.Keeps.{types, IsDone, exec-IsDone}
use smartproxy.Redis.Cluster.{Nodes}

-- What `process` goes on with after `parseReply`; `none` is its panic.
unfoldable pub read_by : Parsing → Option (Cmd × Option Error)
read_by (parsed c' err r) = some (c', err)
read_by crashed = none

unfoldable pub command_of : Ran → Option Cmd
command_of none = none
command_of (some (c, acts)) = some c

-- The command behind ASKING after `Exec`.
unfoldable pub second_of : Cmd → List Queued → Cmd
second_of c (a ∷ q ∷ qs) = q.cmd
second_of c _ = c

unfoldable pub asked : Cmd → Option Done → Option Cmd
unfolding second_of
asked c (some d) = some (second_of c d.cmds)
asked c none = none

second_of-has_reply :
    (c : Cmd) (qs : List Queued)
    → types qs ≡ types (queue (asking ∷ c ∷ []))
    → has_reply (second_of c qs).val ≡ has_reply c.val
unfolding second_of types queue
second_of-has_reply c [] h = refl
second_of-has_reply c (q ∷ []) h = refl
second_of-has_reply c (a ∷ q ∷ qs) h = cc

asked-has_reply :
    (c c' : Cmd) (o : Option Done)
    → IsDone (types (queue (asking ∷ c ∷ []))) o
    → asked c o ≡ some c'
    → has_reply c'.val ≡ has_reply c.val
unfolding asked
asked-has_reply c c' none h e = cc
asked-has_reply c c' (some d) h e =
    ap (λ (k : Cmd). has_reply k.val) (some_inj (sym e)) ∙ second_of-has_reply c d.cmds h
  where
    some_inj : some c' ≡ some (second_of c d.cmds) → c' ≡ second_of c d.cmds
    some_inj h = cc

command_of-has_reply :
    (b : Bool) (c : Cmd) (r : Ran)
    → ((c' : Cmd) (acts : List Act) → r ≡ some (c', acts) → has_reply c'.val ≡ b)
    → command_of r ≡ some c
    → has_reply c.val ≡ b
unfolding command_of
command_of-has_reply b c none h e = cc
command_of-has_reply b c (some (c', acts)) h e = same (h c' acts refl)
  where
    same : has_reply c'.val ≡ b → has_reply c.val ≡ b
    same k = cc

module _ (sprintf : Bytes → Bytes) (max_cap : ℕ) (parse_float : Bytes → ℕ × Option Error) where
  unfoldable pub try_of : Link → Try
  unfolding read_by
  try_of l = record {
    get_err = l.get_err;
    write_err = l.write_err;
    parse = λ c. read_by (parse_cmd sprintf max_cap parse_float c l.reader);
    is_unread = l.is_unread;
  }

  -- The connections by the time, the node, whether ASKING went before, and the attempt.
  module _ (links : ℕ → Bytes → Bool → ℕ → Link) (max_retries : ℤ) where
    -- `client.Process(cmd)` of each node, or the pipeline of ASKING and the command.
    unfoldable pub answer_over : ℕ → Bytes → Bool → Cmd → Option Cmd
    unfolding try_of asked command_of
    answer_over t node false c =
        command_of (process_on_node (λ i. try_of (links t node false i)) max_retries c)
    answer_over t node true c =
        asked c (exec sprintf max_cap parse_float (links t node true) max_retries (asking ∷ c ∷ []))

    unfoldable pub nodes_over : Nodes → Nodes
    unfolding answer_over
    nodes_over env = record env { answer = answer_over }

    read_by-has_reply :
        (c c' : Cmd) (err : Option Error) (r : Reader) (p : Parsing)
        → parse_cmd sprintf max_cap parse_float c r ≡ p
        → read_by p ≡ some (c', err)
        → has_reply c'.val ≡ has_reply c.val
    unfolding read_by
    read_by-has_reply c c' err r (parsed d f r') h e =
        same (parse_cmd-has_reply sprintf max_cap parse_float c d f r r' h)
      where
        same : has_reply d.val ≡ has_reply c.val → has_reply c'.val ≡ has_reply c.val
        same k = cc
    read_by-has_reply c c' err r crashed h e = cc

    -- So the nodes keep the type of every command.
    pub answer_over-has_reply :
        (t : ℕ) (node : Bytes) (ask : Bool) (c c' : Cmd)
        → answer_over t node ask c ≡ some c'
        → has_reply c'.val ≡ has_reply c.val
    unfolding answer_over try_of
    answer_over-has_reply t node false c c' h =
        command_of-has_reply (has_reply c.val) c'
          (process_on_node (λ i. try_of (links t node false i)) max_retries c)
          (λ d acts e.
            process_on_node-has_reply (λ i. try_of (links t node false i))
              (λ i d d' err e. read_by-has_reply d d' err (links t node false i).reader _ refl e)
              max_retries c d acts e)
          h
    answer_over-has_reply t node true c c' h =
        asked-has_reply c c' _
          (exec-IsDone sprintf max_cap parse_float (links t node true) max_retries asking (c ∷ []))
          h

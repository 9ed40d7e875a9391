-- ===== src/Session/Relay.antt =====
-- session.go over redis/cluster.go, redis/redis.go and redis/command.go: a reply on its whole way from
-- a node to a client.
use smartproxy.Common.{
  ℕ, ◌≤◌, ◌≡◌, refl, ◌∙◌, sym, ap, subst, Bool, true, false, ◌||◌, List, [], ◌∷◌, ◌++◌, Option,
  none, some, codes, arith, Bytes, find,
}
use smartproxy.Common.Int.{ℤ}
use smartproxy.Errors.{Error, redis_error, is_moved_error, is_network_error}
use smartproxy.Wire.{Reader}
use smartproxy.Wire.RoundTrip.{reader}
use smartproxy.Redis.Command.{Cmd, reply, reply_of, has_reply, error_reply}
use smartproxy.Redis.Request
use smartproxy.Redis.Request.{Request, new_request}
use smartproxy.Redis.Reply.Commands.{Parsing, parsed, stored, parse_cmd}
use smartproxy.Redis.Reply.Transparent.{
  Answers, Answers-has_reply, Read, read_val, read_error, parse_by-Read,
}
use smartproxy.Redis.Node.{should_retry, max_tries}
use smartproxy.Redis.Node.Keeps.{process_on_node-first}
use smartproxy.Redis.Cluster.{World, Nodes, got, max_attempts, process}
use smartproxy.Redis.Cluster.First.{
  IsFinal, final_none, final_error, Sending, Arrives, Arrives-err, slot_for, client_for,
  process-Arrives,
}
use smartproxy.Redis.Handlers.{Handler, handlers, call}
use smartproxy.Redis.Handlers.Replies.{call-err}
use smartproxy.Precheck.{pre_check_command, is_spec_command, pass}
use smartproxy.Server.Dispatch.{IsCoherent}
use smartproxy.Session.{Env, Conn, with_verdict, on_request}
use smartproxy.Session.Answers.{KeepsType, on_request-answers}
use smartproxy.Session.Cluster.{answer_of, KeepsType-process}
use smartproxy.Redis.Format.{crlf}
use smartproxy.Redis.Pipeline.{Link, asking}
use smartproxy.Redis.Pipeline.Ask.{parse_cmd-asking, exec-once}
use smartproxy.Session.Links.{
  read_by, command_of, try_of, asked, second_of, answer_over, nodes_over, answer_over-has_reply,
}

-- What a node writes for ASKING, if it was sent.
abbrev asking_reply : Bool → Bytes
asking_reply false = []
asking_reply true = b'+' ∷ (codes "OK" ++ crlf)

-- The first attempt of a sending gets a connection, writes, and finds `bytes` there, behind the reply to
-- ASKING if that was sent, with anything behind them.
pub record Delivers (links : ℕ → Bytes → Bool → ℕ → Link) (t : Sending) (bytes : Bytes)
    : Type 0 where
  pub rest : Bytes
  pub last : Error
  pub gets : (links t.time t.node t.asks 0).get_err ≡ none
  pub writes : (links t.time t.node t.asks 0).write_err ≡ none
  pub brings :
      (links t.time t.node t.asks 0).reader ≡ reader (asking_reply t.asks ++ (bytes ++ rest)) last

module _ (format_float : ℕ → Bytes) (sprintf : Bytes → Bytes) (max_cap : ℕ)
    (parse_float : Bytes → ℕ × Option Error) (links : ℕ → Bytes → Bool → ℕ → Link)
    (max_retries : ℤ) where
  Read-parsed :
      (c : Cmd) (bytes : Bytes) (p : Parsing) (r : Reader)
      → c.err ≡ none
      → has_reply c.val ≡ true
      → ((s : Bytes)
          → error_reply (redis_error s) ≡ bytes
          → ((is_moved_error (redis_error s)).moved || (is_moved_error (redis_error s)).ask)
            ≡ false)
      → Read format_float c bytes r p
      → (c' : Cmd) × (err : Option Error) × (p ≡ parsed c' err r)
        × IsFinal c'.err
        × (reply format_float c' ≡ bytes)
        × (should_retry err ≡ false)
  unfolding reply reply_of should_retry is_network_error stored
  Read-parsed c bytes p r n h m (read_val w e k) =
      (record c { val = w }, none, e, rw n final_none, rw (n, k) refl, refl)
  Read-parsed c bytes p r n h m (read_error s e k) = (
    record c { err = some (redis_error s) },
    some (redis_error s),
    e,
    final_error s (m s k),
    rw (h, k) refl,
    refl,
  )

  answer_over-Delivers :
      (time : ℕ) (node bytes : Bytes) (asks : Bool) (c : Cmd)
      → 1 ≤ max_tries max_retries
      → Delivers links (record { time = time; node = node; asks = asks; cmd = c }) bytes
      → c.err ≡ none
      → Answers sprintf max_cap c.val bytes
      → ((s : Bytes)
          → error_reply (redis_error s) ≡ bytes
          → ((is_moved_error (redis_error s)).moved || (is_moved_error (redis_error s)).ask)
            ≡ false)
      → (c' : Cmd) × (answer_over sprintf max_cap parse_float links max_retries time node asks c
          ≡ some c')
        × IsFinal c'.err
        × (reply format_float c' ≡ bytes)
  unfolding answer_over asked second_of try_of parse_cmd read_by command_of
  answer_over-Delivers time node bytes false c tries d n a m =
      let read = parse_by-Read format_float sprintf max_cap parse_float c d.rest d.last a in
      let (c', err, parsed_it, final, out, harmless) =
        Read-parsed c bytes _ (reader d.rest d.last) n (Answers-has_reply sprintf max_cap a) m
          read in
      let (acts, first) =
        process_on_node-first (λ i. try_of sprintf max_cap parse_float (links time node false i)) c
          c' err d.gets d.writes
          (ap (λ r. read_by (parse_cmd sprintf max_cap parse_float c r)) d.brings
            ∙ ap read_by parsed_it)
          harmless max_retries tries in
      (c', ap command_of first, final, out)
  answer_over-Delivers time node bytes true c tries d n a m =
      let read = parse_by-Read format_float sprintf max_cap parse_float c d.rest d.last a in
      let (c', err, parsed_it, final, out, harmless) =
        Read-parsed c bytes _ (reader d.rest d.last) n (Answers-has_reply sprintf max_cap a) m
          read in
      let answered_ok =
        ap (parse_cmd sprintf max_cap parse_float asking) d.brings
        ∙ parse_cmd-asking sprintf max_cap parse_float (codes "OK") (bytes ++ d.rest) d.last
            (omega arith, (omega arith, tt)) (omega arith) in
      let once =
        exec-once sprintf max_cap parse_float (links time node true) c max_retries _ _ _ _ _ _ tries
          d.gets d.writes answered_ok (no_retry none refl) parsed_it harmless in
      (c', ap (asked c) once, final, out)
    where
      no_retry : (o : Option Error) → o ≡ none → should_retry o ≡ false
      no_retry o e = unfold should_retry in rw e refl

-- The whole way of a request that passes the checks and is no special command. Its handler makes a
-- command; the cluster client finds the client of the node that has the slot, and comes from there,
-- directly or by redirections, to a sending whose first attempt gets a connection, writes, and finds
-- `bytes`, a reply that fits the type of the command and is no redirection, behind the reply to ASKING
-- if that was sent. Then the client of the proxy is sent exactly `bytes`, and the connection stays as it
-- was served.
pub on_request-Delivers :
    (sprintf : Bytes → Bytes) (max_cap : ℕ) (parse_float : Bytes → ℕ × Option Error)
    (links : ℕ → Bytes → Bool → ℕ → Link) (max_retries max_redirects : ℤ) (depth : ℕ)
    (nodes : Nodes) (w w' : World) (node bytes : Bytes) (t : Sending) (h : Handler) (env : Env)
    (words : List Bytes) (c : Conn)
    → env.process ≡ (λ cmd. answer_of cmd (
        process
          (nodes_over sprintf max_cap parse_float links max_retries nodes)
          depth
          max_redirects
          cmd
          w))
    → (pre_check_command c.server.black_keys (new_request words)).handled ≡ false
    → is_spec_command (Request.name (new_request words)) ≡ false
    → IsCoherent c.server
    → env.write_ok ≡ true
    → find (Request.name (new_request words)) handlers ≡ some h
    → 1 ≤ max_tries max_retries
    → client_for
        (nodes_over sprintf max_cap parse_float links max_retries nodes)
        depth
        (call h (with_verdict pass (new_request words)))
        w
      ≡ (got node, w')
    → Arrives
        (nodes_over sprintf max_cap parse_float links max_retries nodes)
        depth
        (slot_for
          (nodes_over sprintf max_cap parse_float links max_retries nodes)
          depth
          (call h (with_verdict pass (new_request words)))
          w)
        (max_attempts max_redirects)
        true
        false
        node
        (call h (with_verdict pass (new_request words)))
        w'
        t
    → Delivers links t bytes
    → Answers sprintf max_cap t.cmd.val bytes
    → ((s : Bytes)
        → error_reply (redis_error s) ≡ bytes
        → ((is_moved_error (redis_error s)).moved || (is_moved_error (redis_error s)).ask) ≡ false)
    → ((on_request env words c).out ≡ c.out ++ bytes) × ((on_request env words c).status ≡ c.status)
unfolding nodes_over
on_request-Delivers sprintf max_cap parse_float links max_retries max_redirects depth nodes w w'
      node bytes t h env words c p passed plain coherent can_write found tries client way d a m =
    let over = nodes_over sprintf max_cap parse_float links max_retries nodes in
    let cmd = call h (with_verdict pass (new_request words)) in
    let keeps = subst KeepsType (sym p) (
      KeepsType-process over depth max_redirects w
        (answer_over-has_reply sprintf max_cap parse_float links max_retries)) in
    let (h', found', out, some_reply, status, cached) =
      on_request-answers env words c passed plain coherent keeps can_write in
    let (c', answer, final, relayed) =
      answer_over-Delivers env.format_float sprintf max_cap parse_float links max_retries t.time
        t.node bytes t.asks t.cmd tries d (Arrives-err over depth way (call-err h _)) a m in
    let same_h = the_same h' h found' found in
    let (w'', e) =
      process-Arrives over depth max_redirects cmd c' w w' node t client way answer final in
    (
      out
          ∙ ap
              (λ k.
                c.out
                ++ reply env.format_float
                    (env.process (call k (with_verdict pass (new_request words)))))
              same_h
          ∙ ap (λ (f : Cmd → Cmd). c.out ++ reply env.format_float (f cmd)) p
          ∙ ap (λ r. c.out ++ reply env.format_float (answer_of cmd r)) e
          ∙ ap (λ b. c.out ++ b) relayed,
      status,
    )
  where
    the_same : {o : Option Handler} (h h' : Handler) → o ≡ some h → o ≡ some h' → h ≡ h'
    the_same h h' a b = cc

-- ===== src/Redis/Cluster/First.antt =====
-- redis/cluster.go: `process` of a command that a node answers without a redirection, the first or one behind redirections.
use smartproxy.Common.{
  Bool, if◌then◌else◌, subst, ap, ◌∙◌, ℕ, zero, suc, ◌≡◌, refl, true, false, ◌||◌, Option, none,
  some, Bytes, if_split,
}
use smartproxy.Common.Int.{ℤ}
use smartproxy.Errors.{Error, redis_error, is_network_error, is_moved_error}
use smartproxy.Redis.Command.{Cmd, reset, cluster_key}
use smartproxy.Redis.Reply.{is_nil}
use smartproxy.Redis.Slots.{hash_slots, hash_slot}
use smartproxy.Redis.Topology.{slot_master_addr}
use smartproxy.Redis.Cluster.{
  World, Nodes, Tried, got, stop, go, answered, max_attempts, tick, get_client, to_moved, redirect,
  on_next, send_log, on_answer, attempt, on_client, process, is_tx_failed,
}

-- The answers of a node behind which `process` returns: no error, or an error of the node that is no
-- redirection.
pub data IsFinal : Option Error → Type 0 where
  final_none : IsFinal none
  final_error :
      (s : Bytes)
      → ((is_moved_error (redis_error s)).moved || (is_moved_error (redis_error s)).ask) ≡ false
      → IsFinal (some (redis_error s))

-- A sending of a command: the time, the node, whether ASKING goes before, and the command.
pub record Sending : Type 0 where
  pub time : ℕ
  pub node : Bytes
  pub asks : Bool
  pub cmd : Cmd

abbrev answer_to : Nodes → Sending → Option Cmd
answer_to env t = env.answer t.time t.node t.asks t.cmd

abbrev sending : Bool → Bool → Bytes → Cmd → World → Sending
sending first ask node cmd w = record {
  time = w.clock;
  node = node;
  asks = ask;
  cmd = if first then cmd else reset cmd;
}

-- The loop of `process`, with attempts left, comes to a sending: the next one, or one behind redirections.
pub data Arrives (env : Nodes) (depth slot : ℕ)
    : ℕ → Bool → Bool → Bytes → Cmd → World → Sending → Type 0 where
  at_once :
      {n : ℕ} {first ask : Bool} {node : Bytes} {cmd : Cmd} {w : World} {t : Sending}
      → sending first ask node cmd w ≡ t
      → Arrives env depth slot (suc n) first ask node cmd w t
  redirected :
      {n : ℕ} {first ask : Bool} {node : Bytes} {cmd : Cmd} {w : World} {t : Sending} (c : Cmd)
      (node' : Bytes) (ask' : Bool) (w' : World)
      → answer_to env (sending first ask node cmd w) ≡ some c
      → redirect env depth slot c.err (send_log env node ask c w) ≡ go node' ask' w'
      → Arrives env depth slot n false ask' node' c w' t
      → Arrives env depth slot (suc n) first ask node cmd w t

module _ (env : Nodes) (depth : ℕ) where
  redirect-IsFinal :
      (slot : ℕ) (err : Option Error) (w : World)
      → IsFinal err
      → redirect env depth slot err w ≡ stop w
  unfolding redirect to_moved is_network_error
  redirect-IsFinal slot none w final_none = refl
  redirect-IsFinal slot (some e) w (final_error s h) =
      if_split (λ n. n ≡ stop w) (is_nil (redis_error s) || is_tx_failed (redis_error s)) (stop w)
        (to_moved env depth slot (is_moved_error (redis_error s)) w) refl (rw h refl)

  -- The client of the node that has the slot of the command, as `process` finds it.
  abbrev pub client_for : Cmd → World → Tried × World
  client_for cmd w =
      get_client env depth
        (slot_master_addr w.cluster (hash_slot (env.draw w.clock hash_slots) (cluster_key cmd)))
        (tick env w)

  attempt-Arrives :
      {slot n : ℕ} {first ask : Bool} {node : Bytes} {cmd : Cmd} {w : World} {t : Sending}
      → (c' : Cmd) → Arrives env depth slot n first ask node cmd w t
      → answer_to env t ≡ some c'
      → IsFinal c'.err
      → (w' : World) × (attempt env depth n first ask slot node cmd w ≡ answered c' w')
  unfolding attempt on_answer on_next
  attempt-Arrives {n = zero} c' a q f = elim a [ ]
  attempt-Arrives {slot = slot} {n = suc n} {first = first} {ask = ask} {node = node} {cmd = cmd}
        {w = w} {t = t} c' (at_once e) q f =
      let given : answer_to env (sending first ask node cmd w) ≡ some c' =
        ap (answer_to env) e ∙ q in
      (
        send_log env node ask c' w,
        rw (given, on_answer, redirect-IsFinal slot c'.err (send_log env node ask c' w) f) refl,
      )
  attempt-Arrives {slot = slot} {n = suc n} {first = first} {ask = ask} {node = node} {cmd = cmd}
        {w = w} {t = t} c' (redirected c node' ask' w' given r a) q f =
      let (w'', e) = attempt-Arrives c' a q f in (w'', rw (given, on_answer, r) e)

  -- The command of a sending has no error yet.
  pub Arrives-err :
      {slot n : ℕ} {first ask : Bool} {node : Bytes} {cmd : Cmd} {w : World} {t : Sending}
      → Arrives env depth slot n first ask node cmd w t
      → (sending first ask node cmd w).cmd.err ≡ none
      → t.cmd.err ≡ none
  unfolding reset
  Arrives-err (at_once e) h = subst (λ (u : Sending). u.cmd.err ≡ none) e h
  Arrives-err (redirected c node' ask' w' given r a) h = Arrives-err a refl

  abbrev pub slot_for : Cmd → World → ℕ
  slot_for cmd w = hash_slot (env.draw w.clock hash_slots) (cluster_key cmd)

  -- Where a sending is answered without a redirection, that answer is what `process` returns.
  pub process-Arrives :
      (max_redirects : ℤ) (cmd c' : Cmd) (w w' : World) (node : Bytes) (t : Sending)
      → client_for cmd w ≡ (got node, w')
      → Arrives env depth (slot_for cmd w) (max_attempts max_redirects) true false node cmd w' t
      → answer_to env t ≡ some c'
      → IsFinal c'.err
      → (w'' : World) × (process env depth max_redirects cmd w ≡ answered c' w'')
  unfolding process on_client
  process-Arrives max_redirects cmd c' w w' node t found a q f =
      rw (found, on_client) (attempt-Arrives c' a q f)

-- ===== src/Redis/Cluster/Total.antt =====
-- redis/cluster.go: `process` answers every command, or a reply panics.
use smartproxy.Common.{
  ℕ, zero, suc, ◌≡◌, refl, Bool, true, false, ◌⊎◌, inl, inr, not, ◌&&◌, ◌||◌, Option, none, some,
  Bytes, bytes_eq, if◌then◌else◌, if_split,
}
use smartproxy.Common.Int.{ℤ}
use smartproxy.Errors.{Error, Moved, is_network_error, is_moved_error}
use smartproxy.Redis.Command.{Cmd, reset, cluster_key}
use smartproxy.Redis.Reply.{is_nil}
use smartproxy.Redis.Slots.{hash_slots, hash_slot}
use smartproxy.Redis.Topology.{slot_master_addr}
use smartproxy.Redis.Cluster.{
  World, Nodes, Tried, got, gave_up, panicked, too_deep, Next, go, stop, crash, Processed, answered,
  crashed, max_attempts, lazy_reload_slots, tick, get_client, random_client, to_client, to_moved,
  is_tx_failed, redirect, on_next, send_log, on_answer, attempt, on_client, process,
}
use smartproxy.Redis.Cluster.Random.{
  HasNodes, IsSane, ProbePanics, Ends, IsUsable, HasNodes-tick, IsLive-IsUsable,
  random_client-IsLive, get_client-IsUsable,
}

abbrev Continues : Nodes → Next → Type 0
Continues env (go node ask w) = HasNodes w.cluster
Continues env (stop w) = HasNodes w.cluster
Continues env crash = ProbePanics env

-- A reply of a node, to a probe or to a command, makes `parseReply` panic.
abbrev pub ReplyPanics : Nodes → Type 0
ReplyPanics env =
    ProbePanics env
    ⊎ ((t : ℕ) × (node : Bytes) × (ask : Bool) × (cmd : Cmd) × (env.answer t node ask cmd ≡ none))

abbrev pub IsAnswered : Nodes → Processed → Type 0
IsAnswered env (answered cmd w) = HasNodes w.cluster
IsAnswered env crashed = ReplyPanics env

on_next-IsAnswered :
    (env : Nodes) (cmd : Cmd) (again : Bytes → Bool → World → Processed) (o : Next)
    → ((node : Bytes) (ask : Bool) (w : World)
        → HasNodes w.cluster
        → IsAnswered env (again node ask w))
    → Continues env o
    → IsAnswered env (on_next cmd again o)
unfolding on_next
on_next-IsAnswered env cmd again (go node ask w) next k = next node ask w k
on_next-IsAnswered env cmd again (stop w) next k = k
on_next-IsAnswered env cmd again crash next k = inl k

module _ (env : Nodes) (sane : IsSane env) (depth : ℕ) where
  to_client-Continues :
      (ask : Bool) (r : Tried × World) → Ends (IsUsable env) r → Continues env (to_client ask r)
  unfolding to_client
  to_client-Continues ask (got addr, w) (u, h) = h
  to_client-Continues ask (gave_up (some e), w) (u, h) = h
  to_client-Continues ask (gave_up none, w) (u, h) = h
  to_client-Continues ask (panicked, w) (u, h) = u
  to_client-Continues ask (too_deep, w) (u, h) = elim u [ ]

  to_moved-Continues :
      (slot : ℕ) (m : Moved) (w : World)
      → HasNodes w.cluster
      → Continues env (to_moved env (suc depth) slot m w)
  unfolding to_moved lazy_reload_slots
  to_moved-Continues slot m w h =
      let w' : World =
        if m.moved && not (bytes_eq (slot_master_addr w.cluster slot) m.addr)
        then lazy_reload_slots w
        else w in
      let h' : HasNodes w'.cluster =
        if_split (λ (v : World). HasNodes v.cluster)
          (m.moved && not (bytes_eq (slot_master_addr w.cluster slot) m.addr)) (lazy_reload_slots w)
          w (if_split (λ (v : World). HasNodes v.cluster) w.cluster.reloading _ _ h h) h in
      if_split (Continues env) (m.moved || m.ask) _ _
        (to_client-Continues m.ask (get_client env (suc depth) m.addr w')
          (get_client-IsUsable env sane depth m.addr w' h'))
        h

  redirect-Continues :
      (slot : ℕ) (err : Option Error) (w : World)
      → HasNodes w.cluster
      → Continues env (redirect env (suc depth) slot err w)
  unfolding redirect
  redirect-Continues slot none w h = h
  redirect-Continues slot (some e) w h =
      if_split (Continues env) (is_nil e || is_tx_failed e) _ _ h (
        if_split (Continues env) (is_network_error e) _ _
          (to_client-Continues false (random_client env (suc depth) w) (
            IsLive-IsUsable env sane (random_client env (suc depth) w)
              (random_client-IsLive env sane (suc depth) w h)))
          (to_moved-Continues slot (is_moved_error e) w h))

  on_answer-IsAnswered :
      (slot : ℕ) (node : Bytes) (ask : Bool) (cmd : Cmd) (w : World)
      (again : Cmd → Bytes → Bool → World → Processed) (o : Option Cmd)
      → env.answer w.clock node ask cmd ≡ o
      → HasNodes w.cluster
      → ((c : Cmd) (node' : Bytes) (ask' : Bool) (v : World)
          → HasNodes v.cluster
          → IsAnswered env (again c node' ask' v))
      → IsAnswered env (on_answer env (suc depth) slot node ask w again o)
  unfolding on_answer send_log
  on_answer-IsAnswered slot node ask cmd w again none e h next = inr (w.clock, node, ask, cmd, e)
  on_answer-IsAnswered slot node ask cmd w again (some c) e h next =
      on_next-IsAnswered env c (again c)
        (redirect env (suc depth) slot c.err (send_log env node ask c w)) (next c)
        (redirect-Continues slot c.err (send_log env node ask c w) (HasNodes-tick env sane w h))

  attempt-IsAnswered :
      (n : ℕ) (first ask : Bool) (slot : ℕ) (node : Bytes) (cmd : Cmd) (w : World)
      → HasNodes w.cluster
      → IsAnswered env (attempt env (suc depth) n first ask slot node cmd w)
  unfolding attempt
  attempt-IsAnswered zero first ask slot node cmd w h = h
  attempt-IsAnswered (suc n) first ask slot node cmd w h =
      let asked : Cmd = if first then cmd else reset cmd in
      on_answer-IsAnswered slot node ask asked w
        (λ cmd' node' ask' v. attempt env (suc depth) n false ask' slot node' cmd' v)
        (env.answer w.clock node ask asked) refl h
        (λ cmd' node' ask' v k. attempt-IsAnswered n false ask' slot node' cmd' v k)

  on_client-IsAnswered :
      (n slot : ℕ) (cmd : Cmd) (r : Tried × World)
      → Ends (IsUsable env) r
      → IsAnswered env (on_client env (suc depth) n slot cmd r)
  unfolding on_client
  on_client-IsAnswered n slot cmd (got addr, w) (u, h) =
      attempt-IsAnswered n true false slot addr cmd w h
  on_client-IsAnswered n slot cmd (gave_up (some e), w) (u, h) = h
  on_client-IsAnswered n slot cmd (gave_up none, w) (u, h) = elim u [ ]
  on_client-IsAnswered n slot cmd (panicked, w) (u, h) = inl u
  on_client-IsAnswered n slot cmd (too_deep, w) (u, h) = elim u [ ]

  -- `process` comes to an end: the command is answered and there are still nodes to draw, or `parseReply`
  -- panicked on a reply of a node. It panics in no other way and does not go on for ever, whatever the
  -- nodes answer and the other goroutines do, as long as there is a node to draw, no known address is empty,
  -- and a draw keeps to its range. A redirection to an empty address takes one call of `randomClient`.
  pub process-IsAnswered :
      (max_redirects : ℤ) (cmd : Cmd) (w : World)
      → HasNodes w.cluster
      → ((cmd' : Cmd) × (w' : World) × (process env (suc depth) max_redirects cmd w
            ≡ answered cmd' w')
          × HasNodes w'.cluster)
        ⊎ ((process env (suc depth) max_redirects cmd w ≡ crashed) × ReplyPanics env)
  unfolding process
  process-IsAnswered max_redirects cmd w h =
      let slot = hash_slot (env.draw w.clock hash_slots) (cluster_key cmd) in
      let addr = slot_master_addr w.cluster slot in
      shown (process env (suc depth) max_redirects cmd w) (
        on_client-IsAnswered (max_attempts max_redirects) slot cmd
          (get_client env (suc depth) addr (tick env w))
          (get_client-IsUsable env sane depth addr (tick env w) (HasNodes-tick env sane w h)))
    where
      shown :
          (p : Processed)
          → IsAnswered env p
          → ((cmd' : Cmd) × (w' : World) × (p ≡ answered cmd' w') × HasNodes w'.cluster)
            ⊎ ((p ≡ crashed) × ReplyPanics env)
      shown (answered cmd' w') k = inl (cmd', w', refl, k)
      shown crashed k = inr (refl, k)

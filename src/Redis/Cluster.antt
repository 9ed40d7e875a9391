-- ===== src/Redis/Cluster.antt =====
-- redis/cluster.go: the client of a cluster over its state (Topology). It keeps one client for each
-- node that it has talked to; `process` follows redirections.
pub mod Random
pub mod Total
pub mod Looks
pub mod Redirects
pub mod Keeps
pub mod First
pub mod Start
use smartproxy.Common.{
  ℕ, zero, suc, ◌+◌, ◌-◌, ◌≡◌, refl, Bool, true, false, not, ◌&&◌, ◌||◌, List, [], ◌∷◌, ◌++◌,
  Option, none, some, Bytes, codes, ltb, leb, ◌==◌, if◌then◌else◌, length, get_or, bytes_eq,
  mem_key,
}
use smartproxy.Common.Int.{ℤ, pos, negsuc}
use smartproxy.Errors.{
  Error, plain, redis_error, tx_failed_err, is_network_error, Moved, is_moved_error,
}
use smartproxy.Redis.Command.{SlotInfo, Val, Cmd, reset, set_err, cluster_key}
use smartproxy.Redis.Reply.{is_nil}
use smartproxy.Redis.Slots.{hash_slots, hash_slot}
use smartproxy.Redis.Topology.{Cluster, set_slots, slot_master_addr}

-- `errClosed` of redis/pool.go
abbrev pub err_closed : Error
err_closed = plain (codes "redis: client is closed")

-- What the client does, in order, the latest first: a command sent to a node, after ASKING or not,
-- with the error it came back with; a node probed by CLUSTER INFO; a reload of the table begun.
pub data Event : Type 0 where
  sent : Bytes → Bool → Option Error → Event
  probed : Bytes → Event
  reload : Event

pub record World : Type 0 where
  pub cluster : Cluster
  pub clock : ℕ
  pub log : List Event

-- What the client meets, by the time: `rand.Intn`, the error of CLUSTER INFO, the slots that a node
-- reports, the command as `Process` of a node's client leaves it (after ASKING if the flag is set),
-- and what the other goroutines do to the state at that time. `probe` and `answer` are `none` where
-- `parseReply` panics on the reply, as at the type assertion of redis/command.go:592.
pub record Nodes : Type 0 where
  pub draw : ℕ → ℕ → ℕ
  pub probe : ℕ → Bytes → Option (Option Error)
  pub reported : ℕ → Bytes → Option (List SlotInfo)
  pub answer : ℕ → Bytes → Bool → Cmd → Option Cmd
  pub others : ℕ → Cluster → Cluster

-- The result of `getClient` and of `randomClient`: the client of an address, or an error. Where the
-- addresses hold the empty one, the two call each other, maybe deeper than the fuel.
pub data Tried : Type 0 where
  got : Bytes → Tried
  gave_up : Option Error → Tried
  panicked : Tried
  too_deep : Tried

pub data Next : Type 0 where
  go : Bytes → Bool → World → Next
  stop : World → Next
  crash : Next

pub data Processed : Type 0 where
  answered : Cmd → World → Processed
  crashed : Processed

-- `getMaxRedirects() + 1`, the bound of the loop of `process`.
unfoldable pub max_attempts : ℤ → ℕ
max_attempts (pos zero) = 17
max_attempts (pos (suc n)) = n + 2
max_attempts (negsuc zero) = 1
max_attempts (negsuc (suc n)) = 0

pub lazy_reload_slots : World → World
lazy_reload_slots w =
    if w.cluster.reloading
    then w
    else record w { cluster = record w.cluster { reloading = true }; log = reload ∷ w.log }

-- `err == TxFailedErr`
is_tx_failed : Error → Bool
unfolding bytes_eq
is_tx_failed (redis_error s) = bytes_eq s (codes "redis: transaction failed")
is_tx_failed _ = false

to_client : Bool → Tried × World → Next
to_client ask (got addr, w) = go addr ask w
to_client ask (gave_up e, w) = stop w
to_client ask (panicked, w) = crash
to_client ask (too_deep, w) = crash

on_next : Cmd → (Bytes → Bool → World → Processed) → Next → Processed
on_next cmd again (go node ask w) = again node ask w
on_next cmd again (stop w) = answered cmd w
on_next cmd again crash = crashed

module _ (env : Nodes) where
  pub tick : World → World
  tick w = record w { clock = w.clock + 1; cluster = env.others w.clock w.cluster }

  pub insert_client : Bytes → World → Tried × World
  unfolding mem_key
  insert_client addr w =
      if w.cluster.closed
      then (gave_up (some err_closed), w)
      else if mem_key addr w.cluster.clients
      then (got addr, w)
      else (
        got addr,
        record w { cluster = record w.cluster { clients = addr ∷ w.cluster.clients } },
      )

  -- `getClient` of an address; the lock is let go between the two looks at the map.
  unfoldable pub known_client : Bytes → World → Tried × World
  unfolding mem_key insert_client tick
  known_client addr w =
      if mem_key addr w.cluster.clients then (got addr, w) else insert_client addr (tick w)

  probe_client :
      Bytes → World → (Option Error → World → Tried × World) → Option (Option Error) → Tried × World
  probe_client addr w retry none = (panicked, w)
  probe_client addr w retry (some none) = (got addr, w)
  probe_client addr w retry (some (some e)) = retry (some e) w

  -- The body of the loop of `randomClient` behind `getClient`; `retry` continues the loop.
  try_client : (Option Error → World → Tried × World) → Tried × World → Tried × World
  unfolding probe_client tick
  try_client retry (got addr, w) =
      probe_client addr (tick (record w { log = probed addr ∷ w.log })) retry
        (env.probe w.clock addr)
  try_client retry (gave_up e, w) = retry e w
  try_client retry (panicked, w) = (panicked, w)
  try_client retry (too_deep, w) = (too_deep, w)

  random_loop : (Bytes → World → Tried × World) → ℕ → Option Error → World → Tried × World
  unfolding try_client tick
  random_loop get zero e w = (gave_up e, w)
  random_loop get (suc n) e w =
      if length w.cluster.addrs == 0
      then (panicked, w)
      else try_client (random_loop get n)
          (get (get_or w.cluster.addrs (env.draw w.clock (length w.cluster.addrs)) []) (tick w))

  -- `getClient`, with fuel for the calls of `randomClient` in it.
  unfoldable pub get_client : ℕ → Bytes → World → Tried × World
  unfolding random_loop known_client bytes_eq
  get_client zero addr w = if bytes_eq addr [] then (too_deep, w) else known_client addr w
  get_client (suc depth) addr w =
      if bytes_eq addr [] then random_loop (get_client depth) 10 none w else known_client addr w

  pub random_client : ℕ → World → Tried × World
  unfolding random_loop get_client
  random_client depth w = random_loop (get_client depth) 10 none w

  pub send_log : Bytes → Bool → Cmd → World → World
  unfolding tick
  send_log node ask cmd w = tick (record w { log = sent node ask cmd.err ∷ w.log })

  module _ (depth : ℕ) where
    to_moved : ℕ → Moved → World → Next
    unfolding to_client get_client lazy_reload_slots slot_master_addr bytes_eq
    to_moved slot m w =
        if m.moved || m.ask
        then to_client m.ask (
            get_client depth m.addr (
              if m.moved && not (bytes_eq (slot_master_addr w.cluster slot) m.addr)
              then lazy_reload_slots w
              else w))
        else stop w

    -- The end of the body of the loop of `process`: where the command goes next.
    pub redirect : ℕ → Option Error → World → Next
    unfolding to_moved to_client random_client is_network_error is_moved_error is_nil is_tx_failed
    redirect slot none w = stop w
    redirect slot (some e) w =
        if is_nil e || is_tx_failed e
        then stop w
        else if is_network_error e
        then to_client false (random_client depth w)
        else to_moved slot (is_moved_error e) w

    -- The body of the loop of `process` behind the sending.
    on_answer :
        ℕ → Bytes → Bool → World → (Cmd → Bytes → Bool → World → Processed) → Option Cmd → Processed
    unfolding redirect on_next send_log
    on_answer slot node ask w again none = crashed
    on_answer slot node ask w again (some cmd') =
        on_next cmd' (again cmd') (redirect slot cmd'.err (send_log node ask cmd' w))

    -- The loop of `process`; the number counts the attempts left.
    pub attempt : ℕ → Bool → Bool → ℕ → Bytes → Cmd → World → Processed
    unfolding on_answer reset
    attempt zero first ask slot node cmd w = answered cmd w
    attempt (suc n) first ask slot node cmd w =
        on_answer slot node ask w (λ cmd' node' ask' w'. attempt n false ask' slot node' cmd' w')
          (env.answer w.clock node ask (if first then cmd else reset cmd))

    on_client : ℕ → ℕ → Cmd → Tried × World → Processed
    unfolding attempt set_err
    on_client attempts slot cmd (got addr, w) = attempt attempts true false slot addr cmd w
    on_client attempts slot cmd (gave_up (some e), w) = answered (set_err e cmd) w
    on_client attempts slot cmd (gave_up none, w) = crashed
    on_client attempts slot cmd (panicked, w) = crashed
    on_client attempts slot cmd (too_deep, w) = crashed

    -- `process`; for a command without a key the slot is drawn.
    unfoldable pub process : ℤ → Cmd → World → Processed
    unfolding on_client max_attempts hash_slot cluster_key get_client slot_master_addr tick
    process max_redirects cmd w =
        let slot = hash_slot (env.draw w.clock hash_slots) (cluster_key cmd) in
        on_client (max_attempts max_redirects) slot cmd
          (get_client depth (slot_master_addr w.cluster slot) (tick w))

    -- `reloadSlots` from its second half on: `none` is a panic.
    stored_slots : World → Option (List SlotInfo) → Option World
    unfolding set_slots
    stored_slots w none = some w
    stored_slots w (some infos) = elim (set_slots infos w.cluster) [
      | none ↦ none
      | some c ↦ some (record w { cluster = c })
    ]

    reload_with : (World → Option World) → Tried × World → Option World
    unfolding stored_slots tick
    reload_with retry (got addr, w) = stored_slots (tick w) (env.reported w.clock addr)
    reload_with retry (gave_up e, w) = retry w
    reload_with retry (panicked, w) = none
    reload_with retry (too_deep, w) = none

    reload_loop : ℕ → World → Option World
    unfolding reload_with random_client
    reload_loop zero w = some w
    reload_loop (suc n) w = reload_with (reload_loop n) (random_client depth w)

    reloaded : Option World → Option World
    reloaded none = none
    reloaded (some w) = some (record w { cluster = record w.cluster { reloading = false } })

    -- `reloadSlots`: three tries of `randomClient`, and the flag is reset at the end.
    unfoldable pub reload_slots : World → Option World
    unfolding reload_loop reloaded
    reload_slots w = reloaded (reload_loop 3 w)

-- ===== src/Examples/Clustering.antt =====
-- The theorems about the cluster client, at concrete inputs.
use smartproxy.Common.{
  Option, ◌⊎◌, inl, inr, ℕ, ◌≡◌, ◌<◌, ◌≤◌, refl, arith, Bool, true, false, ◌==◌, ◌||◌,
  if◌then◌else◌, List, [], ◌∷◌, ◌++◌, none, some, Bytes, codes, all, length, mem_key,
}
use smartproxy.Common.Int.{pos}
use smartproxy.Errors.{redis_error}
use smartproxy.Redis.Command.{SlotInfo, Cmd, new_cmd, string, cluster_key}
use smartproxy.Redis.Slots.{hash_slots, hash_slot, crc16sum}
use smartproxy.Redis.Slots.Crc.{poly_sum, crc16sum-poly_sum}
use smartproxy.Redis.Slots.Tag.{hash_slot-tag}
use smartproxy.Redis.Topology.{Cluster, set_slots, slot_master_addr}
use smartproxy.Redis.Cluster.{World, Nodes, answered, crashed, process, random_client, max_attempts}
use smartproxy.Redis.Topology.Table.{
  is_some, in_table, assigned, set_slots-in_table, set_slots-assigned,
}
use smartproxy.Redis.Topology.Addresses.{no_repeat, is_reported, set_slots-no_repeat}
use smartproxy.Redis.Cluster.Random.{HasNodes, IsSane, IsLive, random_client-IsLive}
use smartproxy.Redis.Cluster.Total.{ReplyPanics, process-IsAnswered}
use smartproxy.Redis.Cluster.Looks.{hops}
use smartproxy.Redis.Cluster.Redirects.{is_chain, Returned, process-is_chain}
use smartproxy.Redis.Node.{flaky, process_on_node}
use smartproxy.Redis.Node.Uses.{EndsOrderly, process_on_node-EndsOrderly}

crc16sum-poly_sum_example : crc16sum (codes "ab") ≡ poly_sum (codes "ab")
crc16sum-poly_sum_example = crc16sum-poly_sum (codes "ab") (omega arith, (omega arith, tt))

hash_slot-tag_example :
    (hash_slot 5 (codes "u" ++ b'{' ∷ (codes "a" ++ b'}' ∷ codes ".x")) ≡ hash_slot 7 (codes "a"))
    × (hash_slot 7 (codes "a") < hash_slots)
hash_slot-tag_example =
    hash_slot-tag 5 7 (codes "u") b'a' [] (codes ".x") (omega arith, tt) (omega arith, tt)
      (omega arith, tt)

-- Two nodes: the first redirects every command to the second, which answers it.
abbrev ranges : List SlotInfo
ranges =
    record { start = 0; last = 8191; addrs = codes "a:1" ∷ [] }
    ∷ record { start = 8192; last = 16383; addrs = codes "b:1" ∷ [] }
    ∷ []

abbrev cluster : Cluster
cluster = record {
  addrs = codes "a:1" ∷ [];
  slots = λ slot. codes "a:1" ∷ [];
  clients = [];
  closed = false;
  reloading = false;
}

abbrev world : World
world = record { cluster = cluster; clock = 0; log = [] }

abbrev answer : ℕ → Bytes → Bool → Cmd → Option Cmd
answer t node ask c = some (record c {
  val = c.val;
  err = if t == 1 then some (redis_error (codes "MOVED 3 b:1")) else none;
})

abbrev nodes : Nodes
nodes = record {
  draw = λ t n. 0;
  probe = λ t addr. some none;
  reported = λ t addr. some ranges;
  answer = answer;
  others = λ t c. c;
}

nodes-IsSane : IsSane nodes
nodes-IsSane = record { in_range = λ t n h. h; keeps = λ t c h. h }

world-HasNodes : HasNodes world.cluster
world-HasNodes = (omega arith, (cc, tt))

abbrev get_k : Cmd
get_k = new_cmd (string []) (codes "GET" ∷ codes "k" ∷ [])

set_slots-in_table_example : is_some (set_slots ranges cluster) ≡ all in_table ranges
set_slots-in_table_example = set_slots-in_table ranges cluster

ranges-in_table : all in_table ranges ≡ true
unfolding in_table
ranges-in_table = refl

set_slots-assigned_example :
    (c' : Cluster) × (set_slots ranges cluster ≡ some c')
    × ((i : ℕ) → c'.slots i ≡ assigned ranges i [])
    × (c'.clients ≡ [])
    × (c'.closed ≡ false)
    × (c'.reloading ≡ false)
set_slots-assigned_example = set_slots-assigned ranges cluster ranges-in_table

-- The table after the ranges are set.
abbrev full_cluster : Cluster
full_cluster = (set_slots-assigned ranges cluster ranges-in_table).0

set_slots-no_repeat_example :
    (new : List Bytes) × (full_cluster.addrs ≡ cluster.addrs ++ new)
    × ((k : Bytes)
        → mem_key k full_cluster.addrs ≡ (mem_key k cluster.addrs || is_reported k ranges))
    × (no_repeat cluster.addrs ≡ true → no_repeat full_cluster.addrs ≡ true)
set_slots-no_repeat_example =
    set_slots-no_repeat ranges cluster full_cluster
      (set_slots-assigned ranges cluster ranges-in_table).1

random_client-IsLive_example :
    IsLive nodes (random_client nodes 1 world).0 × HasNodes (random_client nodes 1 world).1.cluster
random_client-IsLive_example = random_client-IsLive nodes nodes-IsSane 1 world world-HasNodes

-- The end with an answer, whose parts the next example uses.
abbrev Answered : Type 0
Answered =
    (cmd' : Cmd) × (w' : World) × (process nodes 1 (pos 0) get_k world ≡ answered cmd' w')
    × HasNodes w'.cluster

process-IsAnswered_example :
    ((cmd' : Cmd) × (w' : World) × (process nodes 1 (pos 0) get_k world ≡ answered cmd' w')
      × HasNodes w'.cluster)
    ⊎ ((process nodes 1 (pos 0) get_k world ≡ crashed) × ReplyPanics nodes)
process-IsAnswered_example =
    process-IsAnswered nodes nodes-IsSane 0 (pos 0) get_k world world-HasNodes

not-ReplyPanics : ReplyPanics nodes → ⊥
not-ReplyPanics (inl (t, addr, h)) = cc
not-ReplyPanics (inr (t, node, ask, cmd, h)) = cc

without_panic :
    Answered ⊎ ((process nodes 1 (pos 0) get_k world ≡ crashed) × ReplyPanics nodes) → Answered
without_panic (inl a) = a
without_panic (inr (c, h)) = absurd (not-ReplyPanics h)

the_end : Answered
the_end = without_panic (process-IsAnswered nodes nodes-IsSane 0 (pos 0) get_k world world-HasNodes)

abbrev end_cmd : Cmd
end_cmd = the_end.0

abbrev end_world : World
end_world = the_end.1

ends : process nodes 1 (pos 0) get_k world ≡ answered end_cmd end_world
ends = the_end.2

process-is_chain_example :
    (is_chain (slot_master_addr cluster (hash_slot 0 (cluster_key get_k))) (hops end_world.log)
      ≡ true)
    × (length (hops end_world.log) ≤ max_attempts (pos 0))
    × Returned (hops end_world.log) end_cmd.err
process-is_chain_example = process-is_chain nodes 1 (pos 0) get_k end_cmd world end_world refl ends

process_on_node-EndsOrderly_example : EndsOrderly flaky 2 (process_on_node flaky (pos 1) get_k)
process_on_node-EndsOrderly_example = process_on_node-EndsOrderly flaky (pos 1) get_k

-- ===== src/Redis/Cluster/Start.antt =====
-- redis/cluster.go: `NewClusterClient`, up to the start of its reaper.
use smartproxy.Common.{ℕ, false, Option, []}
use smartproxy.Redis.Options.{ClusterOptions}
use smartproxy.Redis.Topology.{Cluster}
use smartproxy.Redis.Cluster.{World, Nodes, reload_slots}

new_cluster : ClusterOptions → Cluster
new_cluster opt = record {
  addrs = opt.addrs;
  slots = λ slot. [];
  clients = [];
  closed = false;
  reloading = false;
}

-- The table is loaded before the client is returned; `none` is a panic.
unfoldable new_cluster_client : Nodes → ℕ → ClusterOptions → ℕ → Option World
unfolding reload_slots new_cluster
new_cluster_client env depth opt clock =
    reload_slots env depth (record { cluster = new_cluster opt; clock = clock; log = [] })

-- ===== src/Server/Backend.antt =====
-- proxy.go over config.go, redis/cluster.go and redis/pool.go: the pools behind the proxy.
use smartproxy.Common.{
  ℕ, zero, suc, ◌≤◌, ◌+◌, ◌≡◌, refl, sym, subst, false, List, [], some, Bytes, length, arith,
}
use smartproxy.Common.Int.{ℤ, pos, negsuc, pos_part, ◌≤ℤ◌}
use smartproxy.Config.{
  ProxyConfig, Ini, new_proxy_config, started, max_pool_size_per_node, min_pool_size_per_node,
}
use smartproxy.Config.Laws.{Within, new_proxy_config-IsValid}
use smartproxy.Redis.Options.{ClusterOptions, client_options, get_pool_size, or_default}
use smartproxy.Redis.ConnPool.{Choice, run_pool, new_pool}
use smartproxy.Redis.ConnPool.Invariant.{any, in_hand}
use smartproxy.Redis.ConnPool.Counts.{sum}
use smartproxy.Redis.ConnPool.Run.{idle, run_pool-Inv}

-- The options that `NewProxyServer` gives to the cluster client.
unfoldable pub backend_options : ProxyConfig → ClusterOptions
backend_options conf = record {
  addrs = conf.nodes;
  max_redirects = pos 0;
  password = [];
  dial_timeout = pos 0;
  read_timeout = pos 0;
  write_timeout = pos 0;
  pool_size = conf.pool_size_per_node;
  pool_timeout = pos 0;
  idle_timeout = pos 0;
}

-- The size of the pool of each node. `newConnPool` panics at a negative one.
unfoldable pub node_pool_size : ProxyConfig → ℕ
unfolding backend_options client_options get_pool_size
node_pool_size conf = pos_part (get_pool_size (client_options (backend_options conf) []))

in_bounds :
    (v : ℤ)
    → Within min_pool_size_per_node max_pool_size_per_node v
    → v ≡ pos (pos_part (or_default (pos 10) v))
unfolding or_default
in_bounds (pos zero) h = absurd (omega (arith, h.0))
in_bounds (pos (suc n)) h = refl
in_bounds (negsuc n) h = absurd (omega (arith, h.0))

-- A proxy that started from a file, with any goroutines on the pool of a node in any interleaving: until
-- the pool is closed, its list has at most PoolSizePerNode of the configuration connections, which is at
-- most MaxPoolSizePerNode, and as many as are free in the channel or in the hands of a goroutine.
pub node_pool-bounded :
    (ini : Ini) (file_name : Bytes) {conf : ProxyConfig} (n : ℕ) (is : List (ℕ × Choice))
    → new_proxy_config ini file_name ≡ started conf
    → (run_pool (node_pool_size conf) is (idle n) new_pool).1.closed ≡ false
    → (list : List ℕ) × ((run_pool (node_pool_size conf) is (idle n) new_pool).1.cns ≡ some list)
      × (pos (length list) ≤ℤ conf.pool_size_per_node)
      × (length list ≤ max_pool_size_per_node)
      × (length (run_pool (node_pool_size conf) is (idle n) new_pool).1.free
            + sum (λ p. any (in_hand p)) (run_pool (node_pool_size conf) is (idle n) new_pool).0
          ≡ length list)
unfolding node_pool_size get_pool_size client_options backend_options
node_pool-bounded ini file_name {conf} n is starts not_closed =
    let v = run_pool-Inv (node_pool_size conf) n is not_closed in
    let valid = (new_proxy_config-IsValid ini file_name starts).0 in
    let size = in_bounds conf.pool_size_per_node valid.pool_ok in
    let most = subst (λ z. z ≤ℤ pos max_pool_size_per_node) size valid.pool_ok.1 in
    (
      v.list,
      v.opened,
      subst (λ z. pos (length v.list) ≤ℤ z) (sym size) (omega (arith, v.within)),
      omega (arith, v.within, most),
      v.held,
    )

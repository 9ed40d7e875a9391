-- ===== src/Config/Laws.antt =====
-- config.go: what holds of the configuration of a proxy that has started.
use smartproxy.Common.{
  ℕ, ◌≡◌, ◌≢◌, refl, false, ◌||◌, List, [], ◌∷◌, none, some, Bytes, codes, arith, All, length, ◌⊎◌,
  ◌↔◌,
}
use smartproxy.Common.Int.{ℤ, pos, ◌≤ℤ◌}
use smartproxy.Text.{split}
use smartproxy.Text.Parts.{Lacks, split-join}
use smartproxy.Config.{
  ProxyConfig, Ini, started, out_of, adjust, is_empty, loaded, adjusted, new_proxy_config,
  save_config_tick, max_max_conn, min_max_conn, min_pool_size_per_node, max_pool_size_per_node,
  min_mul_op_parallel, max_mul_op_parallel, min_idle_time, max_idle_time,
}

abbrev pub Within : ℕ → ℕ → ℤ → Type 0
Within lo hi v = (pos lo ≤ℤ v) × (v ≤ℤ pos hi)

-- The bounds of const.go.
pub record IsValid (c : ProxyConfig) : Type 0 where
  pub idle_ok : Within min_idle_time max_idle_time c.idle_time
  pub conn_ok : Within min_max_conn max_max_conn c.max_conn
  pub parallel_ok : Within min_mul_op_parallel max_mul_op_parallel c.mul_op_parallel
  pub pool_ok : Within min_pool_size_per_node max_pool_size_per_node c.pool_size_per_node

pub out_of-Within : (lo hi : ℕ) (v : ℤ) → out_of lo hi v ≡ false → Within lo hi v
unfolding out_of
out_of-Within lo hi v h = ground arith

adjust-Within :
    (lo hi fallback : ℕ) (v : ℤ)
    → Within lo hi (pos fallback)
    → Within lo hi (adjust lo hi fallback v)
unfolding adjust
adjust-Within lo hi fallback v h = ground arith

adjusted-IsValid : (c : ProxyConfig) → IsValid (adjusted c)
unfolding adjusted
adjusted-IsValid c = record {
  idle_ok = adjust-Within 5 300 300 c.idle_time (omega arith);
  conn_ok = adjust-Within 100 60000 60000 c.max_conn (omega arith);
  parallel_ok = adjust-Within 5 100 10 c.mul_op_parallel (omega arith);
  pool_ok = adjust-Within 10 300 30 c.pool_size_per_node (omega arith);
}

is_empty-ne : (s : Bytes) → is_empty s ≡ false → s ≢ []
unfolding is_empty
is_empty-ne [] h = cc
is_empty-ne (c ∷ s) h = cc

started-only :
    (ini : Ini) (file_name : Bytes) {c : ProxyConfig}
    → new_proxy_config ini file_name ≡ started c
    → let start = loaded ini file_name (ini.default_string (codes "proxy::nodes") []) in
      ((is_empty start.id || is_empty start.name || is_empty start.port) ≡ false)
      × (adjusted start ≡ c)
unfolding new_proxy_config
started-only ini file_name h = ground arith

none_empty :
    (a b c : Bytes)
    → (is_empty a || is_empty b || is_empty c) ≡ false
    → (a ≢ []) × (b ≢ []) × (c ≢ [])
none_empty a b c h =
    (is_empty-ne a (ground arith), is_empty-ne b (ground arith), is_empty-ne c (ground arith))

-- A proxy that starts has its sizes and times within the bounds of const.go, whatever the file
-- says, and its id, name and port are not empty; its nodes are the parts of `proxy::nodes`.
pub new_proxy_config-IsValid :
    (ini : Ini) (file_name : Bytes) {c : ProxyConfig}
    → new_proxy_config ini file_name ≡ started c
    → IsValid c
      × (c.id ≢ [])
      × (c.name ≢ [])
      × (c.port ≢ [])
      × (c.nodes ≡ split b',' (ini.default_string (codes "proxy::nodes") []))
unfolding loaded adjusted
new_proxy_config-IsValid ini file_name h =
    let start = loaded ini file_name (ini.default_string (codes "proxy::nodes") []) in
    let (named, value) = started-only ini file_name h in
    let (id, name, port) = none_empty start.id start.name start.port named in
    rw (← value) (adjusted-IsValid start, id, name, port, refl)

-- What a tick of `SaveConfigToFile` writes to the file is read back at the next start as the
-- addresses that the tick took over, if they hold no comma. It writes exactly when the number of
-- addresses has changed and is not 0, and otherwise leaves the configuration as it was.
pub save_config_tick-split :
    (newaddr : List Bytes) (c : ProxyConfig)
    → All (Lacks b',') newaddr
    → ((text : Bytes)
        → (save_config_tick newaddr c).1 ≡ some text
        → (split b',' text ≡ newaddr) × ((save_config_tick newaddr c).0.nodes ≡ newaddr))
      × ((save_config_tick newaddr c).1 ≡ none → (save_config_tick newaddr c).0 ≡ c)
      × (((save_config_tick newaddr c).1 ≡ none)
          ↔ ((length newaddr ≡ length c.nodes) ⊎ (newaddr ≡ [])))
unfolding save_config_tick
save_config_tick-split [] c h = (λ text e. ground arith, λ e. ground arith, ground arith)
save_config_tick-split (a ∷ rest) c (ha, h) =
    (λ text e. ground (arith, split-join b',' a rest ha h), λ e. ground arith, ground arith)

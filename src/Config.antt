-- ===== src/Config.antt =====
-- config.go and const.go: the proxy's configuration. The ini file is read through `Ini`, the calls
-- of the configuration library; starting the process can end in `log.Fatal`.
pub mod Laws
use smartproxy.Common.{
  ℕ, ◌≡◌, refl, Bool, true, false, not, ◌&&◌, ◌||◌, List, [], ◌∷◌, ◌++◌, Option, none, some, Bytes,
  codes, ◌==◌, if◌then◌else◌, length, bytes_eq,
}
use smartproxy.Common.Int.{ℤ, pos, ltb_ℤ, ◌≤ℤ◌}
use smartproxy.Text.{split, join}

abbrev pub max_max_conn : ℕ
max_max_conn = 60000

abbrev pub min_max_conn : ℕ
min_max_conn = 100

abbrev pub min_pool_size_per_node : ℕ
min_pool_size_per_node = 10

abbrev pub max_pool_size_per_node : ℕ
max_pool_size_per_node = 300

abbrev pub min_mul_op_parallel : ℕ
min_mul_op_parallel = 5

abbrev pub max_mul_op_parallel : ℕ
max_mul_op_parallel = 100

abbrev pub min_idle_time : ℕ
min_idle_time = 5

abbrev pub max_idle_time : ℕ
max_idle_time = 300

pub record ProxyConfig : Type 0 where
  pub id : Bytes
  pub name : Bytes
  pub port : Bytes
  pub nodes : List Bytes
  pub slave_ok : Bool
  pub idle_time : ℤ
  pub max_conn : ℤ
  pub mul_op_parallel : ℤ
  pub pool_size_per_node : ℤ
  pub statsd : Bytes
  pub statsd_prefix : Bytes
  pub zk : Bytes
  pub zk_path : Bytes
  pub file_name : Bytes

-- The calls of the configuration library and of the file system: a value with its default, whether
-- the file is read, whether the log takes its file, and whether a file can be created.
pub record Ini : Type 0 where
  pub is_read : Bytes → Bool
  pub default_string : Bytes → Bytes → Bytes
  pub default_bool : Bytes → Bool → Bool
  pub default_int : Bytes → ℤ → ℤ
  pub log_opens : Bytes → Bool
  pub creates : Bytes → Bool

-- `fatal` is `log.Fatal`, which ends the process.
pub data Started : Type 0 where
  fatal : Started
  started : ProxyConfig → Started

-- `v < lo || v > hi`
unfoldable pub out_of : ℕ → ℕ → ℤ → Bool
out_of lo hi v = ltb_ℤ v (pos lo) || ltb_ℤ (pos hi) v

pub adjust : ℕ → ℕ → ℕ → ℤ → ℤ
unfolding out_of
adjust lo hi fallback v = if out_of lo hi v then pos fallback else v

-- The sizes and times that are out of bounds fall back to a default.
pub adjusted : ProxyConfig → ProxyConfig
unfolding adjust
adjusted c = record c {
  pool_size_per_node = adjust min_pool_size_per_node max_pool_size_per_node 30 c.pool_size_per_node;
  mul_op_parallel = adjust min_mul_op_parallel max_mul_op_parallel 10 c.mul_op_parallel;
  max_conn = adjust min_max_conn max_max_conn 60000 c.max_conn;
  idle_time = adjust min_idle_time max_idle_time 300 c.idle_time;
}

is_empty : Bytes → Bool
is_empty [] = true
is_empty (c ∷ s) = false

-- A file that is named must be accepted.
optional : (Bytes → Bool) → Bytes → Bool
optional works [] = true
optional works (c ∷ s) = works (c ∷ s)

module _ (ini : Ini) where
  loaded : Bytes → Bytes → ProxyConfig
  unfolding split
  loaded file_name nodes = record {
    id = ini.default_string (codes "product::id") [];
    name = ini.default_string (codes "product::name") [];
    port = ini.default_string (codes "proxy::port") [];
    nodes = split b',' nodes;
    slave_ok = ini.default_bool (codes "proxy::slaveok") false;
    idle_time = ini.default_int (codes "proxy::idletime") (pos 300);
    max_conn = ini.default_int (codes "proxy::maxconn") (pos 60000);
    mul_op_parallel = ini.default_int (codes "proxy::mulparallel") (pos 10);
    pool_size_per_node = ini.default_int (codes "proxy::poolsizepernode") (pos 30);
    statsd = ini.default_string (codes "proxy::statsd") [];
    statsd_prefix = ini.default_string (codes "proxy::prefix") (codes "redis.proxy.");
    zk = ini.default_string (codes "zk::zk") [];
    zk_path = ini.default_string (codes "zk::zkpath") [];
    file_name = file_name;
  }

  unfoldable pub new_proxy_config : Bytes → Started
  unfolding optional is_empty loaded adjusted
  new_proxy_config file_name =
      let nodes = ini.default_string (codes "proxy::nodes") [] in
      let c = loaded file_name nodes in
      if not (ini.is_read file_name)
      then fatal
      else if not (optional ini.log_opens (ini.default_string (codes "log::logfile") []))
      then fatal
      else if is_empty nodes
      then fatal
      else if is_empty c.id || is_empty c.name || is_empty c.port
      then fatal
      else if not (optional ini.creates (ini.default_string (codes "debug::cpufile") []))
      then fatal
      else if not (optional ini.creates (ini.default_string (codes "debug::memfile") []))
      then fatal
      else started (adjusted c)

-- One tick of `SaveConfigToFile`: the configuration, and the `proxy::nodes` that is written to the
-- file if anything is. `newaddr` is `Backend.GetAddrs()`.
pub save_config_tick : List Bytes → ProxyConfig → ProxyConfig × Option Bytes
unfolding join
save_config_tick newaddr c =
    if not (length newaddr == length c.nodes) && not (length newaddr == 0)
    then (record c { nodes = newaddr }, some (join b',' newaddr))
    else (c, none)

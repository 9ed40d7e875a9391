-- ===== src/Examples.antt =====
-- The theorems at concrete inputs: a small server, its configuration and requests of a client.
mod Parsing
mod Serving
mod Scattering
mod Settings
mod Replies
mod Clustering
mod Pooling
mod Relaying
use smartproxy.Common.{
  ℕ, ◌≡◌, refl, Bool, true, false, List, [], ◌∷◌, ◌++◌, Option, none, some, Bytes, codes, arith,
}
use smartproxy.Common.Int.{ℤ, pos, negsuc}
use smartproxy.Config.{ProxyConfig, Ini}
use smartproxy.Config.Laws.{IsValid}
use smartproxy.Server.{Server, Session}

abbrev conf : ProxyConfig
conf = record {
  id = codes "7000";
  name = codes "7000";
  port = codes "7000";
  nodes = codes "7000" ∷ [];
  slave_ok = false;
  idle_time = pos 300;
  max_conn = pos 60000;
  mul_op_parallel = pos 10;
  pool_size_per_node = pos 30;
  statsd = codes "7000";
  statsd_prefix = codes "7000";
  zk = codes "7000";
  zk_path = codes "7000";
  file_name = codes "proxy.ini";
}

-- A file that says 7000 of every text and true of everything, with all else by default.
abbrev ini : Ini
ini = record {
  is_read = λ _. true;
  default_string = λ _ _. codes "7000";
  default_bool = λ _ d. d;
  default_int = λ _ d. d;
  log_opens = λ _. true;
  creates = λ _. true;
}

abbrev server : Server
server = record {
  conf = conf;
  sess_mgr = [];
  redis_method = [];
  black_keys = [];
  log_level = codes "info";
  last_qps = pos 0;
  op_count = pos 0;
}

abbrev set_level : Bytes → Bytes → Bytes
set_level old new = new

conf-IsValid : IsValid conf
conf-IsValid = record {
  idle_ok = omega arith;
  conn_ok = omega arith;
  parallel_ok = omega arith;
  pool_ok = omega arith;
}

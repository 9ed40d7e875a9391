-- ===== src/Redis/Options.antt =====
-- redis/redis.go and redis/cluster.go: the options of a node's client and of the cluster client, with
-- their defaults. A `time.Duration` is a number of nanoseconds.
use smartproxy.Common.{◌*◌, ◌^◌, zero, suc, List, [], ◌∷◌, Bytes, codes}
use smartproxy.Common.Int.{ℤ, pos, negsuc}

-- `Dialer` is left out: the proxy never sets it.
pub record Options : Type 0 where
  pub network : Bytes
  pub addr : Bytes
  pub password : Bytes
  pub db : ℤ
  pub max_retries : ℤ
  pub dial_timeout : ℤ
  pub read_timeout : ℤ
  pub write_timeout : ℤ
  pub pool_size : ℤ
  pub pool_timeout : ℤ
  pub idle_timeout : ℤ

pub record ClusterOptions : Type 0 where
  pub addrs : List Bytes
  pub max_redirects : ℤ
  pub password : Bytes
  pub dial_timeout : ℤ
  pub read_timeout : ℤ
  pub write_timeout : ℤ
  pub pool_size : ℤ
  pub pool_timeout : ℤ
  pub idle_timeout : ℤ

unfoldable pub or_default : ℤ → ℤ → ℤ
or_default d (pos zero) = d
or_default d (pos (suc n)) = pos (suc n)
or_default d (negsuc n) = negsuc n

unfoldable get_network : Options → Bytes
get_network opt = named opt.network
  where
    named : Bytes → Bytes
    named [] = codes "tcp"
    named (c ∷ s) = c ∷ s

unfoldable pub get_pool_size : Options → ℤ
unfolding or_default
get_pool_size opt = or_default (pos 10) opt.pool_size

unfoldable get_dial_timeout : Options → ℤ
unfolding or_default
get_dial_timeout opt = or_default (pos (5 * 10 ^ 9)) opt.dial_timeout

unfoldable get_pool_timeout : Options → ℤ
unfolding or_default
get_pool_timeout opt = or_default (pos (10 ^ 9)) opt.pool_timeout

unfoldable get_idle_timeout : Options → ℤ
get_idle_timeout opt = opt.idle_timeout

-- `clientOptions`: `DB`, `MaxRetries` and `Network` stay at their zero values, and `getClient` sets `Addr`.
unfoldable pub client_options : ClusterOptions → Bytes → Options
client_options opt addr = record {
  network = [];
  addr = addr;
  password = opt.password;
  db = pos 0;
  max_retries = pos 0;
  dial_timeout = opt.dial_timeout;
  read_timeout = opt.read_timeout;
  write_timeout = opt.write_timeout;
  pool_size = opt.pool_size;
  pool_timeout = opt.pool_timeout;
  idle_timeout = opt.idle_timeout;
}

unfoldable get_max_redirects : ClusterOptions → ℤ
get_max_redirects opt = within opt.max_redirects
  where
    within : ℤ → ℤ
    within (pos zero) = pos 16
    within (pos (suc n)) = pos (suc n)
    within (negsuc zero) = pos 0
    within (negsuc (suc n)) = negsuc (suc n)

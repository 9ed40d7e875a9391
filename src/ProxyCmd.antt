-- ===== src/ProxyCmd.antt =====
-- proxycmd.go: the PROXY command. A call takes the server and the words behind PROXY, and gives
-- the server and the bytes written to the client; `panicked` is an index out of range. Times are in
-- seconds, and the readings of the clock within one call are one.
pub mod Keeps
pub mod Laws
pub mod Black
pub mod Settings
use smartproxy.Common.{
  ℕ, ◌+◌, ◌≡◌, refl, Bool, true, false, not, ◌&&◌, ◌||◌, List, [], ◌∷◌, ◌++◌, Option, none, some,
  Bytes, codes, ltb, ◌==◌, if◌then◌else◌, length, bytes_eq, Map, find, insert, remove,
}
use smartproxy.Common.Int.{ℤ, pos, negsuc, ltb_ℤ}
use smartproxy.Text.{to_lower, itoa, format_int, Parsed, num, atoi}
use smartproxy.Errors.{wrong_argument_count, unknow_proxy_op_type, black_time_unavaliable}
use smartproxy.Redis.Format.{
  ok_bytes, error_line, format_string, format_int_reply, format_string_slice,
}
use smartproxy.Config.{
  ProxyConfig, out_of, max_max_conn, min_max_conn, min_mul_op_parallel, max_mul_op_parallel,
  min_idle_time, max_idle_time,
}
use smartproxy.Precheck.{BlackKey, BlackKeys}
use smartproxy.Server.{Server}

pub data Written : Type 0 where
  wrote : Server → Bytes → Written
  panicked : Written

-- `"-%s\r\n"` of the two errors.
abbrev wrong_count : Bytes
wrong_count = error_line wrong_argument_count

abbrev unknown_op : Bytes
unknown_op = error_line unknow_proxy_op_type

pub config_get : Bytes → Server → Bytes
unfolding format_string format_int_reply
config_get name ps =
    if bytes_eq name (codes "loglevel")
    then format_string ps.log_level
    else if bytes_eq name (codes "idletime")
    then format_int_reply ps.conf.idle_time
    else if bytes_eq name (codes "maxconn")
    then format_int_reply ps.conf.max_conn
    else if bytes_eq name (codes "slaveok")
    then format_int_reply (if ps.conf.slave_ok then pos 1 else pos 0)
    else if bytes_eq name (codes "mulparallel")
    then format_int_reply ps.conf.mul_op_parallel
    else if bytes_eq name (codes "statsd")
    then format_string ps.conf.statsd
    else codes "-wrong proxy config name\r\n"

pub set_idle_time : ℤ → Server → Server
set_idle_time v ps = record ps { conf = record (ps.conf) { idle_time = v } }

set_slave_ok : Bool → Server → Server
set_slave_ok v ps = record ps { conf = record (ps.conf) { slave_ok = v } }

pub set_mul_op_parallel : ℤ → Server → Server
set_mul_op_parallel v ps = record ps { conf = record (ps.conf) { mul_op_parallel = v } }

pub set_statsd : Bytes → Server → Server
set_statsd v ps = record ps { conf = record (ps.conf) { statsd = v } }

pub set_max_conn : ℤ → Server → Server
set_max_conn v ps = record ps { conf = record (ps.conf) { max_conn = v } }

-- The cases of a setting that is a number: unreadable, out of bounds, or stored with the old value
-- as the reply.
pub set_number :
    ℕ → ℕ → Bytes → Bytes → Parsed → Bytes → (ℤ → Server → Server) → Server → Server × Bytes
unfolding config_get out_of
set_number lo hi unreadable outside (num v) name store ps =
    if out_of lo hi v then (ps, outside) else (store v ps, config_get name ps)
set_number lo hi unreadable outside _ name store ps = (ps, unreadable)

-- `v != 0 || v != 1`
pub set_slave : Parsed → Server → Server × Bytes
unfolding config_get set_slave_ok
set_slave (num v) ps =
    let is_zero = not (ltb_ℤ v (pos 0)) && not (ltb_ℤ (pos 0) v) in
    let is_one = not (ltb_ℤ v (pos 1)) && not (ltb_ℤ (pos 1) v) in
    if not is_zero || not is_one
    then (ps, codes "-unavailable slaveok,must 0 or 1\r\n")
    else (set_slave_ok is_one ps, config_get (codes "slaveok") ps)
set_slave _ ps = (ps, codes "-unavailable slaveok,must 0 or 1\r\n")

wrote_pair : Server × Bytes → Written
wrote_pair (ps, reply) = wrote ps reply

get_words : List Bytes → Server → Written
get_words (name ∷ []) ps = wrote ps (config_get (to_lower name) ps)
get_words _ ps = wrote ps wrong_count

-- `set_level` is the effect of `log.SetLevelByString` on the text of the log's level.
module _ (set_level : Bytes → Bytes → Bytes) where
  set_log_level : Bytes → Server → Server × Bytes
  unfolding config_get to_lower
  set_log_level value ps =
      let v = to_lower value in
      if not (bytes_eq v (codes "info"))
        || not (bytes_eq v (codes "warning"))
        || not (bytes_eq v (codes "debug"))
      then (ps, codes "-loglevel must be info warning or debug\r\n")
      else (record ps { log_level = set_level v ps.log_level }, config_get (codes "loglevel") ps)

  pub config_set : Bytes → Bytes → Server → Server × Bytes
  config_set name value ps =
      if bytes_eq name (codes "loglevel")
      then set_log_level value ps
      else if bytes_eq name (codes "idletime")
      then set_number min_idle_time max_idle_time (codes "-unavailable idletime\r\n")
          (codes "-unavailable idletime, must between 10 ~ 300\r\n") (atoi value) (codes "idletime")
          set_idle_time ps
      else if bytes_eq name (codes "slaveok")
      then set_slave (atoi value) ps
      else if bytes_eq name (codes "mulparallel")
      then set_number min_mul_op_parallel max_mul_op_parallel (codes "-unavailable mulparallel\r\n")
          (codes "-unavailable mulparallel, must between 5 ~ 100\r\n") (atoi value)
          (codes "mulparallel") set_mul_op_parallel ps
      else if bytes_eq name (codes "statsd")
      then (set_statsd value ps, config_get (codes "statsd") ps)
      else if bytes_eq name (codes "maxconn")
      then set_number min_max_conn max_max_conn (codes "-unavailable maxconn\r\n")
          (codes "-unavailable maxconn, must between 100 ~ 60000\r\n") (atoi value)
          (codes "maxconn") set_max_conn ps
      else (ps, codes "-wrong proxy config name\r\n")

  set_words : List Bytes → Server → Written
  set_words (name ∷ value ∷ []) ps = wrote_pair (config_set (to_lower name) (to_lower value) ps)
  set_words _ ps = wrote ps wrong_count

  -- `proxyConf` on the words `config get|set name [value]`.
  pub proxy_conf : List Bytes → Server → Written
  proxy_conf (op ∷ sub ∷ words) ps =
      if bytes_eq (to_lower sub) (codes "get")
      then get_words words ps
      else if bytes_eq (to_lower sub) (codes "set")
      then set_words words ps
      else wrote ps (codes "-wrong proxy config op type\r\n")
  proxy_conf _ ps = panicked

unfoldable proxy_info : Server → Bytes
unfolding format_string_slice format_int itoa
proxy_info ps = format_string_slice (
    (codes "name:" ++ ps.conf.name)
    ∷ (codes "id:" ++ ps.conf.id)
    ∷ (codes "port:" ++ ps.conf.port)
    ∷ (codes "statsd:" ++ ps.conf.statsd)
    ∷ (codes "zk:" ++ ps.conf.zk)
    ∷ (codes "zkpath:" ++ ps.conf.zk_path)
    ∷ (codes "qps:" ++ format_int ps.last_qps)
    ∷ (codes "conns:" ++ itoa (length ps.sess_mgr))
    ∷ codes "nodes:"
    ∷ ps.conf.nodes)

keys : BlackKeys → List Bytes
keys [] = []
keys ((k, b) ∷ m) = k ∷ keys m

with_black : BlackKeys → Server → Server
with_black black ps = record ps { black_keys = black }

black_remove : List Bytes → Server → Written
unfolding remove with_black find
black_remove (key ∷ []) ps = elim (find key ps.black_keys) [
  | none ↦ wrote ps (codes "-remove key not exists\r\n")
  | some b ↦ wrote (with_black (remove key ps.black_keys) ps) ok_bytes
]
black_remove _ ps = wrote ps wrong_count

-- The order of the keys is the list's; Go's is arbitrary.
black_get : List Bytes → Server → Written
unfolding keys format_string_slice
black_get [] ps = wrote ps (format_string_slice (keys ps.black_keys))
black_get _ ps = wrote ps wrong_count

black_for : ℕ → Bytes → Parsed → Server → Written
unfolding insert with_black
black_for now key (num (pos t)) ps =
    if ltb 86400 t
    then wrote ps (codes "-black time must between 0 ~ 86400\r\n")
    else wrote
        (with_black
          (insert key (record { name = key; startup = now; deadline = now + t }) ps.black_keys) ps)
        ok_bytes
black_for now key (num (negsuc t)) ps = wrote ps (codes "-black time must between 0 ~ 86400\r\n")
black_for now key _ ps = wrote ps (error_line black_time_unavaliable)

black_set : ℕ → List Bytes → Server → Written
unfolding black_for atoi
black_set now (key ∷ time ∷ []) ps = black_for now key (atoi time) ps
black_set now _ ps = wrote ps wrong_count

-- `proxyBlack` on the words `black remove|get|set [key [seconds]]`.
pub proxy_black : ℕ → List Bytes → Server → Written
proxy_black now (op ∷ sub ∷ words) ps =
    if bytes_eq (to_lower sub) (codes "remove")
    then black_remove words ps
    else if bytes_eq (to_lower sub) (codes "get")
    then black_get words ps
    else if bytes_eq (to_lower sub) (codes "set")
    then black_set now words ps
    else wrote ps unknown_op
proxy_black now _ ps = panicked

-- `PROXY` on the arguments of the request.
pub proxy : (Bytes → Bytes → Bytes) → ℕ → List Bytes → Server → Written
proxy set_level now [] ps = panicked
proxy set_level now (op ∷ words) ps =
    let n = length words + 1 in
    if bytes_eq (to_lower op) (codes "info")
    then if n == 1 then wrote ps (proxy_info ps) else wrote ps wrong_count
    else if bytes_eq (to_lower op) (codes "black")
    then if ltb n 2 then wrote ps wrong_count else proxy_black now (op ∷ words) ps
    else if bytes_eq (to_lower op) (codes "config")
    then if ltb n 3 || ltb 4 n then wrote ps wrong_count else proxy_conf set_level (op ∷ words) ps
    else wrote ps unknown_op

-- ===== src/Server.antt =====
-- proxy.go: the server's state, `Dispatch`, and the tick of `ExpireClient`. Times are numbers since
-- 1970; the comments say in which unit.
pub mod Expiry
pub mod Backend
pub mod Dispatch
use smartproxy.Common.{
  ℕ, ◌+◌, ◌/◌, ◌*◌, ◌≡◌, refl, Bool, true, false, List, [], ◌∷◌, Option, none, some, Bytes, codes,
  if◌then◌else◌, Map, find, insert,
}
use smartproxy.Common.Int.{ℤ, pos, sub_ℕ, ltb_ℤ}
use smartproxy.Config.{ProxyConfig}
use smartproxy.Precheck.{BlackKeys}
use smartproxy.Redis.Request
use smartproxy.Redis.Request.{Request}
use smartproxy.Redis.Command.{Cmd}
use smartproxy.Redis.Handlers.{Handler, handlers, call, on_reflect_unvalid}

-- `Session` of session.go, without its buffers. `last_access` is in microseconds once a request was
-- read.
pub record Session : Type 0 where
  pub last_access : ℕ
  pub mul_op_parallel : ℤ
  pub is_closed : Bool

-- `ProxyServer`, with the globals `BlackKeyLists` and the level of the log. `redis_method` holds
-- `none` for a method that the reflection did not find.
pub record Server : Type 0 where
  pub conf : ProxyConfig
  pub sess_mgr : Map Session
  pub redis_method : Map (Option Handler)
  pub black_keys : BlackKeys
  pub log_level : Bytes
  pub last_qps : ℤ
  pub op_count : ℤ

unfoldable new_proxy_server : ProxyConfig → Bytes → Server
new_proxy_server conf log_level = record {
  conf = conf;
  sess_mgr = [];
  redis_method = [];
  black_keys = [];
  log_level = log_level;
  last_qps = pos 0;
  op_count = pos 0;
}

-- `NewSession`: the time of the call in seconds.
unfoldable pub new_session : Server → ℕ → Session
new_session ps now = record {
  last_access = now;
  mul_op_parallel = ps.conf.mul_op_parallel;
  is_closed = false;
}

-- The cached method of a name, or the one that `MethodByName` finds now.
pub method : Option (Option Handler) → Bytes → Option Handler
unfolding handlers find
method none name = find name handlers
method (some cached) name = cached

-- `process` is the cluster client's `process`. A method that is found makes a command and
-- processes it; it never returns nil.
unfoldable pub call_method : (Cmd → Cmd) → Option Handler → Request → Cmd
unfolding on_reflect_unvalid call
call_method process none req = on_reflect_unvalid req
call_method process (some handler) req = process (call handler req)

pub remember : Option (Option Handler) → Bytes → Option Handler → Server → Server
unfolding insert
remember none name found ps = record ps { redis_method = insert name found ps.redis_method }
remember (some cached) name found ps = ps

pub dispatch : (Cmd → Cmd) → Request → Server → Server × Cmd
unfolding Request.name
dispatch process req ps =
    let name = Request.name req in
    let cached = find name ps.redis_method in
    let found = method cached name in (remember cached name found ps, call_method process found req)

-- `now` in seconds: `now - s.LastAccess/1e6 > IdleTime`
pub is_idle : ℕ → ProxyConfig → Session → Bool
is_idle now conf s = ltb_ℤ conf.idle_time (sub_ℕ now (s.last_access / 1000000))

unfoldable pub close_session : Session → Session
close_session s = record s { is_closed = true }

keep_active : ℕ → ProxyConfig → Map Session → Map Session
unfolding is_idle
keep_active now conf [] = []
keep_active now conf ((addr, s) ∷ m) =
    let rest = keep_active now conf m in if is_idle now conf s then rest else (addr, s) ∷ rest

close_idle : ℕ → ProxyConfig → Map Session → Map Session
unfolding is_idle close_session
close_idle now conf [] = []
close_idle now conf ((addr, s) ∷ m) =
    let rest = close_idle now conf m in
    if is_idle now conf s then (addr, close_session s) ∷ rest else rest

-- One tick of `ExpireClient`: the server, and the sessions that it closed.
pub expire_client : ℕ → Server → Server × Map Session
unfolding keep_active close_idle
expire_client now ps = (
  record ps { sess_mgr = keep_active now ps.conf ps.sess_mgr },
  close_idle now ps.conf ps.sess_mgr,
)

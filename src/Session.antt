-- ===== src/Session.antt =====
-- session.go, with the `switch` of special.go: one client's connection. A step reads one request and
-- answers it; what the rest of the world contributes to a step is an `Env`.
pub mod Admission
pub mod Doors
pub mod Pipeline
pub mod Cluster
pub mod Answers
pub mod Links
pub mod Relay
use smartproxy.Common.{
  ◌/◌, ℕ, ◌+◌, ◌≡◌, refl, Bool, true, false, not, ◌&&◌, ◌||◌, List, [], ◌∷◌, ◌++◌, Option, none,
  some, Bytes, codes, ltb, ◌==◌, if◌then◌else◌, length, bytes_eq, Map, find, insert, remove,
}
use smartproxy.Common.Int.{ℤ, pos, ltb_ℤ, ◌+ℤ◌}
use smartproxy.Errors.{Error, error_text}
use smartproxy.Wire.{Reader, Outcome, ok, failed, panicked, parse_req}
use smartproxy.Redis.Command.{Cmd}
use smartproxy.Redis.Request
use smartproxy.Redis.Request.{Request, new_request, set_reply, set_error, set_resp, result}
use smartproxy.Redis.Format.{ok_bytes}
use smartproxy.Precheck.{Verdict, pre_check_command, is_spec_command}
use smartproxy.Server.{Server, Session, close_session, dispatch}
use smartproxy.Special.{Scattered, replied, stuck, broken, scatter}
use smartproxy.ProxyCmd
use smartproxy.ProxyCmd.{Written, wrote, proxy}

-- `now` is the clock in microseconds, `write_ok` whether the writes of this step reach the client,
-- and `process` what the cluster answers to a command. For MGET, MSET and DEL `answers` is what it
-- answers to the goroutine of a number, and `schedule` how these interleave. The other fields are
-- as in Wire, ProxyCmd and Redis.Command.
pub record Env : Type 0 where
  pub now : ℕ
  pub write_ok : Bool
  pub process : Cmd → Cmd
  pub answers : ℕ → Cmd → Cmd
  pub schedule : List ℕ
  pub format_float : ℕ → Bytes
  pub set_level : Bytes → Bytes → Bytes
  pub max_cap : ℕ

-- `crashed` is a panic that nothing recovers: it ends the process. `blocked` waits for goroutines
-- that the schedule does not end.
pub data Status : Type 0 where
  serving ended crashed blocked : Status

pub record Conn : Type 0 where
  pub addr : Bytes
  pub server : Server
  pub session : Session
  pub reader : Reader
  pub out : Bytes
  pub status : Status

-- The test at the start of `HandleConn`; a connection that meets it is closed at once.
unfoldable pub is_full : Server → Bool
is_full ps = ltb_ℤ ps.conf.max_conn (pos (length ps.sess_mgr))

-- `ps.SessMgr[addr] = s`
unfoldable pub enter : Bytes → Session → Server → Server
unfolding insert
enter addr s ps = record ps { sess_mgr = insert addr s ps.sess_mgr }

-- The deferred `delete(ps.SessMgr, addr)`.
leave : Conn → Conn
unfolding remove
leave c = record c {
  server = record (c.server) { sess_mgr = remove c.addr c.server.sess_mgr };
  status = ended;
}

-- The session that the map points to is the one of the connection.
touch_map : Bytes → ℕ → Map Session → Map Session
touch_map addr now [] = []
touch_map addr now ((a, s) ∷ m) =
    if bytes_eq a addr
    then (a, record s { last_access = now }) ∷ m
    else (a, s) ∷ touch_map addr now m

unfoldable pub touched : ℕ → Conn → Conn
unfolding touch_map ◌+ℤ◌
touched now c = record c {
  session = record (c.session) { last_access = now };
  server = record (c.server) {
    sess_mgr = touch_map c.addr now c.server.sess_mgr;
    op_count = c.server.op_count +ℤ pos 1;
  };
}

starts_with : Bytes → Bytes → Bool
starts_with [] s = true
starts_with (p ∷ ps) [] = false
starts_with (p ∷ ps) (c ∷ s) = (p == c) && starts_with ps s

-- `strings.Contains`
contains : Bytes → Bytes → Bool
unfolding starts_with
contains [] part = starts_with part []
contains (c ∷ s) part = starts_with part (c ∷ s) || contains s part

-- The errors on which `HandleConn` returns in silence.
is_gone : Error → Bool
unfolding contains error_text
is_gone e =
    contains (error_text e) (codes "connection reset by peer")
    || contains (error_text e) (codes "broken pipe")
    || contains (error_text e) (codes "use of closed network connection")

-- `write2client`
write : Env → Bytes → Conn → Conn
write env reply c = if env.write_ok then record c { out = c.out ++ reply } else c

-- A parse error: the client is told, and the loop goes on if that worked.
on_error : Env → Error → Conn → Conn
unfolding is_gone write leave result set_error new_request
on_error env e c =
    if is_gone e
    then leave c
    else if env.write_ok
    then write env (result (set_error (some e) (new_request []))) c
    else leave c

written : Env → Written → Conn → Conn
unfolding write
written env (wrote ps reply) c = write env reply (record c { server = ps })
written env ProxyCmd.panicked c = record c { status = crashed }

scattered : Env → Scattered → Conn → Conn
unfolding write
scattered env (replied d) c = write env d c
scattered env stuck c = record c { status = blocked }
scattered env broken c = record c { status = crashed }

unfoldable is_stub : Bytes → Bool
unfolding bytes_eq
is_stub name =
    bytes_eq name (codes "MSETNX")
    || bytes_eq name (codes "ZUNIONSTORE")
    || bytes_eq name (codes "RENAMENX")
    || bytes_eq name (codes "SDIFF")
    || bytes_eq name (codes "SINTER")
    || bytes_eq name (codes "SINTERSTORE")
    || bytes_eq name (codes "RENAME")
    || bytes_eq name (codes "RPOPLPUSH")
    || bytes_eq name (codes "SDIFFSTORE")
    || bytes_eq name (codes "SMOVE")
    || bytes_eq name (codes "ZINTERSTORE")

-- `SpecCommandProcess`; its default is `log.Fatalf`. The clock of PROXY is in seconds.
pub spec_command_process : Env → Request → Conn → Conn
spec_command_process env req c =
    if bytes_eq (Request.name req) (codes "PROXY")
    then written env (proxy env.set_level (env.now / 1000000) (Request.args req) c.server) c
    else if bytes_eq (Request.name req) (codes "MGET")
        || bytes_eq (Request.name req) (codes "MSET")
        || bytes_eq (Request.name req) (codes "DEL")
    then scattered env
        (scatter env.format_float env.answers env.schedule c.session.mul_op_parallel
          (Request.name req) (Request.args req))
        c
    else if is_stub (Request.name req)
    then write env ok_bytes c
    else record c { status = crashed }

-- `Forward`
pub forward : Env → Request → Conn → Conn
forward env req c =
    let answered = dispatch env.process req c.server in
    write env (result (set_resp env.format_float answered.1 req)) (record c { server = answered.0 })

is_error : Option Error → Bool
is_error none = false
is_error (some e) = true

-- After `preCheckCommand`: the request carries its reply and error.
pub with_verdict : Verdict → Request → Request
unfolding set_reply set_error
with_verdict v req = set_error v.err (set_reply v.reply req)

close_conn : Conn → Conn
unfolding close_session leave
close_conn c = leave (record c { session = close_session c.session })

pub decide : Env → Verdict → Request → Conn → Conn
decide env v req c =
    let answered = write env (result (with_verdict v req)) c in
    if is_error v.err || v.should_close || v.handled
    then if v.should_close then close_conn answered else answered
    else if is_spec_command (Request.name req)
    then spec_command_process env (with_verdict v req) c
    else forward env (with_verdict v req) c

-- A request that was read.
pub on_request : Env → List Bytes → Conn → Conn
on_request env words c =
    decide env (pre_check_command c.server.black_keys (new_request words)) (new_request words) c

pub on_outcome : Env → Outcome (List Bytes) → Conn → Conn
unfolding touched on_error
on_outcome env (ok words r) c = on_request env words (touched env.now (record c { reader = r }))
on_outcome env (failed e r) c = on_error env e (touched env.now (record c { reader = r }))
on_outcome env panicked c = record c { status = crashed }

-- One round of the loop of `HandleConn`.
on_status : Status → Env → Conn → Conn
on_status serving env c = on_outcome env (parse_req env.max_cap c.reader) c
on_status ended env c = c
on_status crashed env c = c
on_status blocked env c = c

pub step : Env → Conn → Conn
unfolding on_status
step env c = on_status c.status env c

pub serve : List Env → Conn → Conn
serve [] c = c
serve (env ∷ envs) c = serve envs (step env c)

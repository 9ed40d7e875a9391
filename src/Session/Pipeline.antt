-- ===== src/Session/Pipeline.antt =====
-- session.go: requests sent back to back are answered one by one, in their order.
use smartproxy.Common.{
  ℕ, ◌^◌, ◌≤◌, ◌<◌, ◌≡◌, refl, ap, ◌∙◌, List, [], ◌∷◌, ◌++◌, append_assoc, Bytes, All, length, Bool,
  true, false, if◌then◌else◌, bytes_eq, codes, ◌||◌,
}
use smartproxy.Errors.{Error}
use smartproxy.Wire.{Reader, append_args, parse_req}
use smartproxy.Wire.RoundTrip.{reader, FitsArg, parse_req-append_args}
use smartproxy.Session.{
  Env, Conn, Status, serving, ended, crashed, blocked, scattered, touched, on_request, on_outcome,
  on_status, step, serve, is_stub, write, written, close_conn, spec_command_process, forward,
  decide, with_verdict,
}
use smartproxy.Special.{Scattered, replied, stuck, broken, scatter}
use smartproxy.ProxyCmd
use smartproxy.ProxyCmd.{Written, wrote}
use smartproxy.Redis.Request
use smartproxy.Redis.Request.{Request, result, new_request}
use smartproxy.Redis.Format.{ok_bytes}
use smartproxy.Precheck.{Verdict}

-- A request and the world at the time when it is answered.
pub record Turn : Type 0 where
  pub env : Env
  pub words : List Bytes

-- The request can be written by `appendArgs` and read back.
pub record IsReadable (t : Turn) : Type 0 where
  pub fits : All FitsArg t.words
  pub counted : length t.words < 2 ^ 63
  pub allocated : length t.words ≤ t.env.max_cap

pub wire : List Turn → Bytes
wire [] = []
wire (t ∷ ts) = append_args t.words ++ wire ts

pub envs : List Turn → List Env
envs [] = []
envs (t ∷ ts) = t.env ∷ envs ts

with_input : Bytes → Error → Conn → Conn
with_input s e c = record c { reader = reader s e }

-- What a request does to a connection that is served, with `s` behind it on the wire.
pub answer : Bytes → Error → Status → Turn → Conn → Conn
answer s e serving t c = on_request t.env t.words (touched t.env.now (with_input s e c))
answer s e _ t c = c

-- The requests in their order, each on the connection as the one before left it.
pub answer_all : Bytes → Error → List Turn → Conn → Conn
answer_all rest e [] c = c
answer_all rest e (t ∷ ts) c = answer_all rest e ts (answer (wire ts ++ rest) e c.status t c)

-- The bytes that are still to be read.
record HasReader (r : Reader) (c : Conn) : Type 0 where
  same : c.reader ≡ r

HasReader-if :
    {r : Reader} (b : Bool) (x y : Conn)
    → HasReader r x
    → HasReader r y
    → HasReader r (if b then x else y)
HasReader-if true x y hx hy = hx
HasReader-if false x y hx hy = hy

module _ (r : Reader) (env : Env) where
  HasReader-write : (reply : Bytes) (c : Conn) → HasReader r c → HasReader r (write env reply c)
  unfolding write
  HasReader-write reply c h =
      HasReader-if env.write_ok (record c { out = c.out ++ reply }) c (record { same = h.same }) h

  HasReader-written : (w : Written) (c : Conn) → HasReader r c → HasReader r (written env w c)
  unfolding written
  HasReader-written (wrote ps reply) c h = HasReader-write reply _ (record { same = h.same })
  HasReader-written ProxyCmd.panicked c h = record { same = h.same }

  HasReader-scattered : (d : Scattered) (c : Conn) → HasReader r c → HasReader r (scattered env d c)
  unfolding scattered
  HasReader-scattered (replied d) c h = HasReader-write d c h
  HasReader-scattered stuck c h = record { same = h.same }
  HasReader-scattered broken c h = record { same = h.same }

  HasReader-close : (c : Conn) → HasReader r c → HasReader r (close_conn c)
  unfolding close_conn
  HasReader-close c h = record { same = h.same }

  HasReader-spec :
      (req : Request) (c : Conn) → HasReader r c → HasReader r (spec_command_process env req c)
  unfolding spec_command_process
  HasReader-spec req c h =
      let name = Request.name req in
      let stub : Conn =
        if is_stub name then write env ok_bytes c else record c { status = crashed } in
      let is_scattered =
        bytes_eq name (codes "MGET")
        || bytes_eq name (codes "MSET")
        || bytes_eq name (codes "DEL") in
      let scattered_reply =
        scattered env
          (scatter env.format_float env.answers env.schedule c.session.mul_op_parallel
            (Request.name req) (Request.args req))
          c in
      let other : Conn = if is_scattered then scattered_reply else stub in
      HasReader-if (bytes_eq name (codes "PROXY")) _ other (HasReader-written _ c h) (
        HasReader-if is_scattered _ stub (HasReader-scattered _ c h) (
          HasReader-if (is_stub name) _ (record c { status = crashed }) (HasReader-write _ c h)
            (record { same = h.same })))

  HasReader-forward : (req : Request) (c : Conn) → HasReader r c → HasReader r (forward env req c)
  unfolding forward
  HasReader-forward req c h = HasReader-write _ _ (record { same = h.same })

  HasReader-decide :
      (v : Verdict) (req : Request) (c : Conn) → HasReader r c → HasReader r (decide env v req c)
  unfolding decide
  HasReader-decide v req c h =
      let answered = HasReader-write (result (with_verdict v req)) c h in
      HasReader-if _ _ _ (HasReader-if _ _ _ (HasReader-close _ answered) answered)
        (HasReader-if _ _ _ (HasReader-spec _ c h) (HasReader-forward _ c h))

  HasReader-on_request :
      (words : List Bytes) (c : Conn) → HasReader r c → HasReader r (on_request env words c)
  unfolding on_request
  HasReader-on_request words c h = HasReader-decide _ _ c h

HasReader-input :
    (s : Bytes) (e : Error) (now : ℕ) (c : Conn)
    → HasReader (reader s e) (touched now (with_input s e c))
unfolding touched with_input
HasReader-input s e now c = record { same = refl }

-- The connection is over, or what is left to read is this.
abbrev pub IsAt : Reader → Conn → Type 0
IsAt r c = (c.status ≡ serving) → c.reader ≡ r

-- One round of the loop on a readable request is that request's answer.
step-answer :
    (t : Turn) (s : Bytes) (e : Error) (c : Conn)
    → IsReadable t
    → IsAt (reader (append_args t.words ++ s) e) c
    → step t.env c ≡ answer s e c.status t c
unfolding step on_status on_outcome answer with_input
step-answer t s e c ok_turn at_front = go c.status refl
  where
    go : (st : Status) → c.status ≡ st → on_status st t.env c ≡ answer s e st t c
    go serving is_st =
        ap (λ r. on_outcome t.env (parse_req t.env.max_cap r) c) (at_front is_st)
        ∙ ap (λ o. on_outcome t.env o c)
            (parse_req-append_args t.env.max_cap t.words s e ok_turn.fits ok_turn.counted
              ok_turn.allocated)
    go ended is_st = refl
    go crashed is_st = refl
    go blocked is_st = refl

answer-IsAt :
    (t : Turn) (s : Bytes) (e : Error) (c : Conn) → IsAt (reader s e) (answer s e c.status t c)
unfolding answer
answer-IsAt t s e c = go c.status refl
  where
    go : (st : Status) → c.status ≡ st → IsAt (reader s e) (answer s e st t c)
    go serving is_st = λ _.
        (HasReader-on_request (reader s e) t.env t.words _ (HasReader-input s e t.env.now c)).same
    go ended is_st = λ running. cc
    go crashed is_st = λ running. cc
    go blocked is_st = λ running. cc

-- Requests that were written back to back, each readable, are answered one by one in their order,
-- whatever stands behind them: the rounds of `HandleConn` do to the connection what the requests do
-- in that order, each finding it as the one before left it; and if the connection is then still
-- served, exactly what stood behind the requests is left to read.
pub serve-wire :
    (ts : List Turn) (rest : Bytes) (e : Error) (c : Conn)
    → All IsReadable ts
    → IsAt (reader (wire ts ++ rest) e) c
    → (serve (envs ts) c ≡ answer_all rest e ts c) × IsAt (reader rest e) (serve (envs ts) c)
unfolding serve answer_all envs wire
serve-wire [] rest e c h at_front = (refl, at_front)
serve-wire (t ∷ ts) rest e c (ht, h) at_front =
    let s = wire ts ++ rest in
    let round =
      step-answer t s e c ht (rw (append_assoc (append_args t.words) (wire ts) rest) at at_front) in
    rw (round, serve) (serve-wire ts rest e (answer s e c.status t c) h (answer-IsAt t s e c))

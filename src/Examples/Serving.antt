-- ===== src/Examples/Serving.antt =====
-- precheck.go, session.go and `Dispatch` at concrete inputs.
use smartproxy.Common.{
  ℕ, ◌+◌, ◌≡◌, ◌↔◌, refl, true, false, List, [], ◌∷◌, ◌++◌, none, some, Bytes, codes, arith, length,
  find, mem_key, bytes_eq, All,
}
use smartproxy.Common.Int.{pos, ◌≤ℤ◌, ◌+ℤ◌}
use smartproxy.Errors.{eof}
use smartproxy.Wire.RoundTrip.{reader}
use smartproxy.Redis.Command.{Cmd, reply}
use smartproxy.Redis.Request
use smartproxy.Redis.Request.{Request, name_of}
use smartproxy.Redis.Handlers.{Handler, handlers}
use smartproxy.Redis.Handlers.Complete.{passes-handler}
use smartproxy.Precheck.{pre_check_command, is_spec_command}
use smartproxy.Precheck.Tables.{Rule, req_rules, spec_list, black_list}
use smartproxy.Precheck.Laws.{IsAllowed, pre_check_command_passes_iff}
use smartproxy.Server.{Session}
use smartproxy.Session.{Env, Conn, serving, is_full, step, serve}
use smartproxy.Session.Doors.{Passing, Fits, AreNew, no_one, burst, run_doors, run_doors-bounded}
use smartproxy.Session.Admission.{step-eof}
use smartproxy.Session.Pipeline.{Turn, IsReadable, IsAt, wire, envs, answer_all, serve-wire}
use smartproxy.Stats.Counter.{Moment, reads, ticks, count_all, total, requests, total-count_all}
use smartproxy.Examples.{server, set_level}

abbrev get_k : Request
get_k = record { cmd = codes "get" ∷ codes "k" ∷ []; reply = []; err = none; resp = none }

get_passes : (pre_check_command [] get_k).handled ≡ false
unfolding pre_check_command mem_key find req_rules black_list bytes_eq
get_passes = refl

get_plain : is_spec_command (Request.name get_k) ≡ false
unfolding is_spec_command Request.name mem_key spec_list bytes_eq
get_plain = refl

pre_check_command_passes_iff_example :
    ((pre_check_command [] get_k).handled ≡ false) ↔ ((rule : Rule) × IsAllowed [] get_k rule)
pre_check_command_passes_iff_example = pre_check_command_passes_iff [] get_k

passes-handler_example : (h : Handler) × (find (Request.name get_k) handlers ≡ some h)
passes-handler_example = passes-handler [] get_k get_passes get_plain

abbrev same : Cmd → Cmd
same c = c

abbrev env : Env
env = record {
  now = 1480000000000000;
  write_ok = true;
  process = same;
  answers = λ _ c. c;
  schedule = [];
  format_float = λ _. [];
  set_level = set_level;
  max_cap = 1000;
}

abbrev session : Session
session = record { last_access = 1480000000; mul_op_parallel = pos 10; is_closed = false }

abbrev conn_at : Bytes → Conn
conn_at s = record {
  addr = codes "10.0.0.1:5000";
  server = server;
  session = session;
  reader = reader s eof;
  out = [];
  status = serving;
}

server_not_over : pos (length server.sess_mgr) ≤ℤ server.conf.max_conn
server_not_over = omega arith

run_doors-bounded_example :
    ((most : ℕ) (es : List Passing)
      → Fits most es (no_one server)
      → ((run_doors es (no_one server)).server.conf ≡ server.conf)
        × (pos (length (run_doors es (no_one server)).server.sess_mgr)
            ≤ℤ server.conf.max_conn +ℤ pos most))
    × ((now : ℕ) (addrs : List Bytes)
        → AreNew addrs server.sess_mgr
        → length (run_doors (burst now addrs) (no_one server)).server.sess_mgr ≡ 0 + length addrs)
run_doors-bounded_example = run_doors-bounded server server_not_over

-- Two goroutines that are both past the test.
two_at_once_test : Fits 2 (burst 7 (codes "a" ∷ codes "b" ∷ [])) (no_one server)
unfolding Fits burst is_full
two_at_once_test = omega arith

two_new_test : AreNew (codes "a" ∷ codes "b" ∷ []) server.sess_mgr
unfolding find bytes_eq
two_new_test = (refl, (refl, tt), (refl, tt, tt))

step-eof_example :
    ((step env (conn_at [])).out ≡ codes "-EOF\r\n")
    × ((step env (conn_at [])).status ≡ serving)
    × ((step env (conn_at [])).reader ≡ reader [] eof)
step-eof_example = step-eof env (conn_at []) refl refl refl

-- Two requests, a tick, and a request.
abbrev events : List Moment
events = reads 1 (conn_at []) ∷ reads 2 (conn_at []) ∷ ticks ∷ reads 3 (conn_at []) ∷ []

total-count_all_example :
    total (count_all [] events server).0 +ℤ (count_all [] events server).1.op_count ≡ pos 0 +ℤ pos 3
unfolding requests
total-count_all_example = total-count_all [] events server

abbrev turns : List Turn
turns =
    record { env = env; words = codes "GET" ∷ codes "k" ∷ [] }
    ∷ record { env = env; words = codes "QUIT" ∷ [] }
    ∷ []

turns-IsReadable : All IsReadable turns
turns-IsReadable = (
  record {
    fits = (omega arith, (omega arith, tt));
    counted = omega arith;
    allocated = omega arith;
  },
  (record { fits = (omega arith, tt); counted = omega arith; allocated = omega arith }, tt),
)

serve-wire_example :
    (serve (envs turns) (conn_at (wire turns ++ codes "*1"))
      ≡ answer_all (codes "*1") eof turns (conn_at (wire turns ++ codes "*1")))
    × IsAt (reader (codes "*1") eof) (serve (envs turns) (conn_at (wire turns ++ codes "*1")))
serve-wire_example =
    serve-wire turns (codes "*1") eof (conn_at (wire turns ++ codes "*1")) turns-IsReadable
      (λ _. refl)

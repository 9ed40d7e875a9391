-- ===== src/Examples/Relaying.antt =====
-- The reply of a node on its whole way to a client, at a concrete input.
use smartproxy.Common.{
  ℕ, ◌≡◌, ◌≤◌, ◌≢◌, refl, ap, Bool, true, false, ◌||◌, List, [], ◌∷◌, ◌++◌, Option, none, some,
  Bytes, codes, arith, find, bytes_eq, mem_key, if◌then◌else◌,
}
use smartproxy.Common.Int.{pos}
use smartproxy.Errors.{Error, eof, redis_error, is_moved_error}
use smartproxy.Wire.RoundTrip.{reader}
use smartproxy.Redis.Format.{crlf, nil_bulk, error_line}
use smartproxy.Redis.Command.{Cmd, new_cmd, status, error_reply}
use smartproxy.Redis.Request
use smartproxy.Redis.Request.{new_request}
use smartproxy.Redis.Reply.Transparent.{Answers, answers_status}
use smartproxy.Redis.Topology.{slot_master_addr}
use smartproxy.Redis.Handlers.{whole_request, handlers, call}
use smartproxy.Redis.Cluster.{World, Nodes, got, max_attempts, process, get_client, known_client}
use smartproxy.Redis.Cluster.First.{Sending, Arrives, at_once, slot_for, client_for}
use smartproxy.Redis.Node.{max_tries}
use smartproxy.Precheck.{pre_check_command, is_spec_command, pass}
use smartproxy.Precheck.Tables.{req_rules, black_list, spec_list}
use smartproxy.Server.Dispatch.{IsCoherent}
use smartproxy.Session.{Env, Conn, serving, with_verdict, on_request}
use smartproxy.Session.Cluster.{answer_of}
use smartproxy.Redis.Pipeline.{Link}
use smartproxy.Session.Links.{nodes_over}
use smartproxy.Session.Relay.{Delivers, on_request-Delivers}
use smartproxy.Examples.{server}

abbrev plain_text : Bytes → Bytes
plain_text s = s

abbrev no_float : Bytes → ℕ × Option Error
no_float s = (0, none)

abbrev ok_reply : Bytes
ok_reply = b'+' ∷ (codes "OK" ++ crlf)

-- Every connection to a node brings the status OK, and a byte more.
abbrev links : ℕ → Bytes → Bool → ℕ → Link
links t node ask i = record {
  get_err = none;
  write_err = none;
  reader = reader (ok_reply ++ codes "x") eof;
  is_unread = true;
}

abbrev nodes : Nodes
nodes = record {
  draw = λ t n. 0;
  probe = λ t addr. some none;
  reported = λ t addr. none;
  answer = λ t node ask c. some c;
  others = λ t c. c;
}

abbrev world : World
world = record {
  cluster = record {
    addrs = codes "a:1" ∷ [];
    slots = λ slot. codes "a:1" ∷ [];
    clients = codes "a:1" ∷ [];
    closed = false;
    reloading = false;
  };
  clock = 0;
  log = [];
}

abbrev later : World
later = record world { clock = 1 }

abbrev env : Env
env = record {
  now = 1480000000000000;
  write_ok = true;
  process = λ cmd.
      answer_of cmd
        (process (nodes_over plain_text 100 no_float links (pos 0) nodes) 0 (pos 0) cmd world);
  answers = λ i c. c;
  schedule = [];
  format_float = λ f. [];
  set_level = λ old new. new;
  max_cap = 1000;
}

abbrev conn : Conn
conn = record {
  addr = codes "10.0.0.1:5000";
  server = server;
  session = record { last_access = 1480000000; mul_op_parallel = pos 10; is_closed = false };
  reader = reader [] eof;
  out = [];
  status = serving;
}

abbrev set_k : List Bytes
set_k = codes "set" ∷ codes "k" ∷ codes "v" ∷ []

passes : (pre_check_command server.black_keys (new_request set_k)).handled ≡ false
unfolding pre_check_command mem_key find req_rules black_list bytes_eq new_request
passes = refl

plain : is_spec_command (Request.name (new_request set_k)) ≡ false
unfolding is_spec_command Request.name mem_key spec_list bytes_eq new_request
plain = refl

server-IsCoherent : IsCoherent server
unfolding find
server-IsCoherent = λ name cached e. cc

set_found : find (Request.name (new_request set_k)) handlers ≡ some (whole_request (status []))
unfolding find handlers Request.name new_request bytes_eq
set_found = refl

abbrev set_cmd : Cmd
set_cmd = call (whole_request (status [])) (with_verdict pass (new_request set_k))

abbrev first_sending : Sending
first_sending = record { time = 1; node = codes "a:1"; asks = false; cmd = set_cmd }

links-Delivers : Delivers links first_sending ok_reply
links-Delivers = record { rest = codes "x"; last = eof; gets = refl; writes = refl; brings = refl }

arrives :
    Arrives
      (nodes_over plain_text 100 no_float links (pos 0) nodes)
      0
      (slot_for (nodes_over plain_text 100 no_float links (pos 0) nodes) 0 set_cmd world)
      (max_attempts (pos 0))
      true
      false
      (codes "a:1")
      set_cmd
      later
      first_sending
unfolding max_attempts
arrives = at_once refl

client_found :
    client_for
      (nodes_over plain_text 100 no_float links (pos 0) nodes)
      0
      (call (whole_request (status [])) (with_verdict pass (new_request set_k)))
      world
    ≡ (got (codes "a:1"), later)
unfolding get_client known_client slot_master_addr mem_key bytes_eq nodes_over
client_found = refl

fits :
    Answers plain_text 100
      (call (whole_request (status [])) (with_verdict pass (new_request set_k))).val
      (ok_reply)
unfolding call new_cmd
fits = answers_status [] (codes "OK") (omega arith, (omega arith, tt)) (omega arith)

abbrev first : Bytes → ℕ
first [] = 0
first (b ∷ bytes) = b

no_error : (b : Bool) (e : Error) → (if b then nil_bulk else error_line e) ≢ ok_reply
unfolding error_line
no_error true e h = omega (arith, ap first h)
no_error false e h = omega (arith, ap first h)

stays :
    (s : Bytes)
    → error_reply (redis_error s) ≡ ok_reply
    → ((is_moved_error (redis_error s)).moved || (is_moved_error (redis_error s)).ask) ≡ false
unfolding error_reply
stays s e = absurd (no_error _ (redis_error s) e)

some_try : 1 ≤ max_tries (pos 0)
unfolding max_tries
some_try = omega arith

on_request-Delivers_example :
    ((on_request env set_k conn).out ≡ [] ++ ok_reply)
    × ((on_request env set_k conn).status ≡ serving)
on_request-Delivers_example =
    on_request-Delivers plain_text 100 no_float links (pos 0) (pos 0) 0 nodes world later
      (codes "a:1") ok_reply first_sending (whole_request (status [])) env set_k conn refl passes
      plain server-IsCoherent refl set_found some_try client_found arrives links-Delivers fits stays

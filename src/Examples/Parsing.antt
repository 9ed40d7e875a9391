-- ===== src/Examples/Parsing.antt =====
-- parser.go, redis/format.go and redis/command.go at concrete inputs.
use smartproxy.Common.{
  ℕ, suc, true, ◌^◌, ◌≡◌, ◌≤◌, ◌<◌, refl, List, [], ◌∷◌, ◌++◌, none, Bytes, codes, arith,
}
use smartproxy.Common.Int.{negsuc}
use smartproxy.Text.{itoa}
use smartproxy.Errors.{eof}
use smartproxy.Wire.{ok, panicked, append_args, parse_req}
use smartproxy.Wire.RoundTrip.{reader, parse_req-append_args}
use smartproxy.Wire.Safety.{left, left-parse_req, parse_req-panics}
use smartproxy.Redis.Command.{Cmd, int, has_reply}

abbrev get_k : List Bytes
get_k = codes "GET" ∷ codes "k" ∷ []

parse_req-append_args_example :
    parse_req 1000 (reader (append_args get_k ++ codes "*1") eof)
    ≡ ok get_k (reader (codes "*1") eof)
parse_req-append_args_example =
    parse_req-append_args 1000 get_k (codes "*1") eof (omega arith, (omega arith, tt)) (omega arith)
      (omega arith)

left-parse_req_example : left (parse_req 1000 (reader (codes "*1\r\n$4\r\nPING\r\n") eof)) ≤ 13
left-parse_req_example = left-parse_req 1000 (reader (codes "*1\r\n$4\r\nPING\r\n") eof)

parse_req-panics_example :
    (parse_req 1000 (reader (13 ∷ 10 ∷ []) eof) ≡ panicked)
    × ((k : ℕ)
        → k < 2 ^ 63
        → parse_req 1000 (reader ((b'*' ∷ b'-' ∷ itoa (suc k)) ++ 13 ∷ 10 ∷ []) eof) ≡ panicked)
parse_req-panics_example = parse_req-panics 1000 [] eof

abbrev answered : Cmd
answered = record { args = get_k; err = none; val = int (negsuc 2); cluster_key_pos = 1 }

answered-has_reply : has_reply answered.val ≡ true
unfolding has_reply
answered-has_reply = refl

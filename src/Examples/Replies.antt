-- ===== src/Examples/Replies.antt =====
-- The theorems about the replies of a node, at concrete inputs.
use smartproxy.Common.{ℕ, ◌≡◌, refl, arith, [], ◌∷◌, ◌++◌, Option, none, some, Bytes, codes}
use smartproxy.Common.Int.{pos, negsuc}
use smartproxy.Errors.{Error, eof}
use smartproxy.Wire.RoundTrip.{reader}
use smartproxy.Redis.Format.{
  Value, nil, cons, nil_value, int_value, str_value, list_value, count, second,
}
use smartproxy.Redis.Command.{Cmd, new_cmd, duration}
use smartproxy.Redis.Reply.{parse_reply}
use smartproxy.Redis.Reply.RoundTrip.{encode, Fits, FitsAll}
use smartproxy.Redis.Reply.Nested.{result_of, parse_reply-encode}
use smartproxy.Redis.Reply.Commands.{parse_cmd}
use smartproxy.Redis.Reply.Transparent.{Answers, answers_seconds, relayed, relayed-parse_cmd}

abbrev plain_text : Bytes → Bytes
plain_text s = s

abbrev nested_value : Value
nested_value = list_value (
    cons (str_value (codes "ab"))
      (cons (list_value (cons (int_value (negsuc 6)) nil)) (cons nil_value nil)))

nested_value-Fits : Fits 100 2 nested_value
unfolding Fits FitsAll count
nested_value-Fits = (
  omega arith,
  omega arith,
  (omega arith, ((omega arith, omega arith, (omega arith, tt)), (tt, tt))),
)

parse_reply-encode_example :
    parse_reply plain_text 100 (reader (encode nested_value ++ codes "x") eof)
    ≡ result_of nested_value (reader (codes "x") eof)
parse_reply-encode_example =
    parse_reply-encode plain_text 100 2 nested_value (codes "x") eof nested_value-Fits

abbrev no_float : Bytes → ℕ × Option Error
no_float s = (0, none)

abbrev ttl_cmd : Cmd
ttl_cmd = new_cmd (duration second (pos 0)) (codes "TTL" ∷ codes "k" ∷ [])

ttl_Answers : Answers plain_text 100 (duration second (pos 0)) (encode (int_value (negsuc 1)))
ttl_Answers = answers_seconds (pos 0) (negsuc 1) (omega arith) (omega arith)

relayed-parse_cmd_example :
    relayed
      (λ f. [])
      (parse_cmd plain_text 100 no_float ttl_cmd
        (reader (encode (int_value (negsuc 1)) ++ codes "x") eof))
    ≡ some (encode (int_value (negsuc 1)), reader (codes "x") eof)
unfolding new_cmd
relayed-parse_cmd_example =
    relayed-parse_cmd (λ f. []) plain_text 100 no_float ttl_cmd (encode (int_value (negsuc 1)))
      (codes "x") eof refl ttl_Answers

-- ===== src/Wire.antt =====
-- parser.go: the wire format between a client and the proxy. A `Reader` is Go's `bufio.Reader` of
-- 4096 bytes over a connection: the bytes that will still arrive, and the error behind them.
pub mod RoundTrip
pub mod Safety
use smartproxy.Common.{
  ℕ, zero, suc, ◌+◌, ◌-◌, ◌≡◌, refl, Bool, true, false, List, [], ◌∷◌, ◌++◌, Option, none, some,
  Bytes, codes, ltb, ◌==◌, if◌then◌else◌, length, take, drop,
}
use smartproxy.Common.Int.{ℤ, pos, negsuc}
use smartproxy.Text.{
  itoa, Parsed, num, bad_syntax, out_of_range, parse_int, quote, num_error, show_bytes,
}
use smartproxy.Errors.{Error, plain, eof}

pub record Reader : Type 0 where
  pub unread : Bytes
  pub last : Error

-- `panicked` is a run-time panic: an index or a slice out of range, or `make` with a bad size.
pub data Outcome {ℓ} (A : Type ℓ) : Type ℓ where
  ok : A → Reader → Outcome A
  failed : Error → Reader → Outcome A
  panicked : Outcome A

infixl 5 ◌>>=◌
abbrev pub ◌>>=◌ {ℓ κ} :
    {A : Type ℓ} {B : Type κ} → Outcome A → (A → Reader → Outcome B) → Outcome B
ok a r >>= f = f a r
failed e r >>= f = failed e r
panicked >>= f = panicked

unfoldable pub append_arg : Bytes → Bytes
append_arg arg = (b'$' ∷ itoa (length arg)) ++ 13 ∷ 10 ∷ (arg ++ 13 ∷ 10 ∷ [])

unfoldable pub append_each : List Bytes → Bytes
unfolding append_arg
append_each [] = []
append_each (arg ∷ args) = append_arg arg ++ append_each args

-- `appendArgs` of parser.go and of redis/parser.go
unfoldable pub append_args : List Bytes → Bytes
unfolding append_each
append_args args = (b'*' ∷ itoa (length args)) ++ 13 ∷ 10 ∷ append_each args

-- The outcomes of `ReadSlice('\n')`: a line without its '\n', a full buffer, the end of the input.
pub data Cut : Type 0 where
  found : Bytes → Bytes → Cut
  full : Bytes → Cut
  ended : Cut

unfoldable pub keep : ℕ → Cut → Cut
keep c (found line rest) = found (c ∷ line) rest
keep c (full rest) = full rest
keep c ended = ended

-- The first argument counts the bytes that the buffer still holds.
unfoldable pub cut_line : ℕ → Bytes → Cut
unfolding keep
cut_line zero s = full s
cut_line (suc n) [] = ended
cut_line (suc n) (c ∷ s) = if c == 10 then found [] s else keep c (cut_line n s)

cons_some : ℕ → Option Bytes → Option Bytes
cons_some c none = none
cons_some c (some s) = some (c ∷ s)

-- A line without the '\r' at its end, if it has one.
pub strip_cr : Bytes → Option Bytes
unfolding cons_some
strip_cr [] = none
strip_cr (c ∷ []) = if c == 13 then some [] else none
strip_cr (c ∷ d ∷ s) = cons_some c (strip_cr (d ∷ s))

invalid_packet : Bytes → Error
invalid_packet line =
    plain (codes "invalid redis packet " ++ show_bytes (line ++ 10 ∷ []) ++ codes ", err:<nil>")

checked_line : Bytes → Option Bytes → Reader → Outcome Bytes
unfolding invalid_packet
checked_line line none r = failed (invalid_packet line) r
checked_line line (some stripped) r = ok stripped r

line_of : Reader → Cut → Outcome Bytes
unfolding checked_line
line_of r (found line rest) = checked_line line (strip_cr line) (record r { unread = rest })
line_of r (full rest) = failed (plain (codes "bufio: buffer full")) (record r { unread = rest })
line_of r ended = failed r.last (record r { unread = [] })

pub read_line : Reader → Outcome Bytes
unfolding line_of cut_line strip_cr
read_line r = line_of r (cut_line 4096 r.unread)

-- The error of `io.ReadFull` when too few bytes are left.
short_read : Error → Bytes → Error
short_read eof (c ∷ s) = plain (codes "unexpected EOF")
short_read e _ = e

pub read_n : ℕ → Reader → Outcome Bytes
unfolding short_read
read_n n r =
    if ltb (length r.unread) n
    then failed (short_read r.last r.unread) (record r { unread = [] })
    else ok (take n r.unread) (record r { unread = drop n r.unread })

-- A length line is read: `argLen + 2` bytes follow, and the argument is the first `argLen`.
read_arg_body : Bytes → Parsed → Reader → Outcome Bytes
read_arg_body digits bad_syntax r = failed (plain (num_error digits (codes "invalid syntax"))) r
read_arg_body digits out_of_range r =
    failed (plain (num_error digits (codes "value out of range"))) r
read_arg_body digits (num (pos n)) r = read_n (n + 2) r >>= λ arg rest. ok (take n arg) rest
read_arg_body digits (num (negsuc zero)) r = read_n 1 r >>= λ arg rest. panicked
read_arg_body digits (num (negsuc (suc n))) r = panicked

read_arg_line : Bytes → Reader → Outcome Bytes
unfolding read_arg_body
read_arg_line [] r = panicked
read_arg_line (c ∷ digits) r =
    if c == b'$'
    then read_arg_body digits (parse_int 32 digits) r
    else failed (plain (codes "redis: expected '$', but got " ++ quote (c ∷ digits))) r

pub read_arg : Reader → Outcome Bytes
unfolding read_line read_n read_arg_line
read_arg r = read_line r >>= read_arg_line

-- The loop of `parseReq` over the announced number of arguments.
pub read_args : ℕ → List Bytes → Reader → Outcome (List Bytes)
read_args zero args r = ok args r
read_args (suc n) args r = read_arg r >>= λ arg rest. read_args n (args ++ arg ∷ []) rest

-- `max_cap` is the largest capacity that the run-time's `make([]string, 0, n)` takes.
module _ (max_cap : ℕ) where
  read_count : Bytes → Parsed → Reader → Outcome (List Bytes)
  unfolding read_args read_arg
  read_count digits bad_syntax r = failed (plain (num_error digits (codes "invalid syntax"))) r
  read_count digits out_of_range r =
      failed (plain (num_error digits (codes "value out of range"))) r
  read_count digits (num (negsuc n)) r = panicked
  read_count digits (num (pos n)) r = if ltb max_cap n then panicked else read_args n [] r

  read_head : Bytes → Reader → Outcome (List Bytes)
  unfolding read_count
  read_head [] r = panicked
  read_head (c ∷ digits) r =
      if c == b'*'
      then read_count digits (parse_int 64 digits) r
      else failed (plain (codes "bad command " ++ (c ∷ digits) ++ codes " ")) r

  unfoldable pub parse_req : Reader → Outcome (List Bytes)
  unfolding read_line read_head
  parse_req r = read_line r >>= read_head

abbrev from_client : Bytes → Reader
from_client s = record { unread = s; last = eof }

get_a_test :
    parse_req 100 (from_client (codes "*2\r\n$3\r\nGET\r\n$1\r\na\r\nrest"))
    ≡ ok (codes "GET" ∷ codes "a" ∷ []) (from_client (codes "rest"))
unfolding parse_req parse_int
get_a_test = refl

empty_line_test : parse_req 100 (from_client (codes "\r\n")) ≡ panicked
unfolding parse_req
empty_line_test = refl

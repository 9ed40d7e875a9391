-- ===== src/Redis/Reply.antt =====
-- redis/parser.go: the replies of a node. A `Reader` is the `bufio.Reader` of a connection, as in
-- Wire; its buffer has 4096 bytes too. `read_line` and `read_n` are over `ReadLine` and `ReadN`.
pub mod Typed
pub mod Commands
pub mod Bounds
pub mod Fuel
pub mod RoundTrip
pub mod Nested
pub mod Lists
pub mod Durations
pub mod Reads
pub mod Transparent
pub mod Keeps
use smartproxy.Common.{
  ℕ, zero, suc, ◌+◌, ◌≡◌, refl, Bool, true, false, List, [], ◌∷◌, ◌++◌, Option, none, some, Bytes,
  codes, ltb, leb, ◌&&◌, ◌||◌, ◌^◌, ◌-◌, ◌==◌, if◌then◌else◌, length, take, drop, bytes_eq,
}
use smartproxy.Common.Int.{ℤ, pos, negsuc}
use smartproxy.Text.{Parsed, num, bad_syntax, out_of_range, parse_int, atoi, quote, num_error}
use smartproxy.Errors.{Error, plain, redis_error, eof, nil_error}
use smartproxy.Wire.{
  Reader, Outcome, ok, failed, panicked, ◌>>=◌, Cut, found, full, ended, cut_line,
}
use smartproxy.Redis.Format.{Value, Values, nil, cons, nil_value, int_value, str_value, list_value}

abbrev err_reader_too_small : Error
err_reader_too_small = plain (codes "redis: reader is too small")

-- A line without the '\r' at its end, if it has one.
pub drop_cr : Bytes → Bytes
drop_cr [] = []
drop_cr (c ∷ []) = if c == 13 then [] else c ∷ []
drop_cr (c ∷ d ∷ s) = c ∷ drop_cr (d ∷ s)

-- A '\r' at the end of a full buffer is put back.
put_back : Bytes → Bytes → Bytes
put_back [] rest = rest
put_back (c ∷ []) rest = if c == 13 then 13 ∷ rest else rest
put_back (c ∷ d ∷ s) rest = put_back (d ∷ s) rest

-- The last line may lack its end.
last_line : Bytes → Reader → Outcome Bytes
last_line [] r = failed r.last r
last_line (c ∷ s) r = ok (c ∷ s) (record r { unread = [] })

line_of : Reader → Cut → Outcome Bytes
unfolding drop_cr put_back last_line
line_of r (found line rest) = ok (drop_cr line) (record r { unread = rest })
line_of r (full rest) =
    failed err_reader_too_small (record r { unread = put_back (take 4096 r.unread) rest })
line_of r ended = last_line r.unread r

pub read_line : Reader → Outcome Bytes
unfolding line_of cut_line
read_line r = line_of r (cut_line 4096 r.unread)

pub read_n : ℕ → Reader → Outcome Bytes
read_n n r =
    if ltb (length r.unread) n
    then failed r.last (record r { unread = [] })
    else ok (take n r.unread) (record r { unread = drop n r.unread })

-- The greatest length that `make([]byte, n)` accepts on a machine of 64 bits.
abbrev pub max_make : ℕ
max_make = 2 ^ 48

-- `readN(rd, replyLen+2)`, with so many bytes to come. Where they do not come, the call may panic: the sum
-- wraps from 2 ^ 63 on and `ReadN` slices by a negative length, and once the buffer is full `readN` makes a
-- slice of the length, before it reads on. A text that has come whole fits the memory.
pub is_too_long : ℕ → ℕ → Bool
is_too_long n len =
    ltb len (n + 2) && (leb (2 ^ 63) (n + 2) || (ltb max_make (n + 2) && leb 4096 len))

pub read_bulk : ℕ → Reader → Outcome Bytes
unfolding is_too_long read_n
read_bulk n r = if is_too_long n (length r.unread) then panicked else read_n (n + 2) r

wraps_test : read_bulk (2 ^ 63 - 1) (record { unread = codes "ab"; last = eof }) ≡ panicked
unfolding read_bulk
wraps_test = refl

-- What `parseReply` returns as an `interface{}`: a text, an int64, or the result of its parser.
pub data Got (A : Type 0) : Type 0 where
  got_str : Bytes → Got A
  got_int : ℤ → Got A
  got_multi : A → Got A

-- `err == Nil`: two values of the struct are equal if their texts are.
unfoldable pub is_nil : Error → Bool
unfolding bytes_eq
is_nil (redis_error s) = bytes_eq s (codes "redis: nil")
is_nil _ = false

abbrev pub syntax_error : Bytes → Error
syntax_error digits = plain (num_error digits (codes "invalid syntax"))

abbrev pub range_error : Bytes → Error
range_error digits = plain (num_error digits (codes "value out of range"))

unfoldable pub value_of : Got Values → Value
value_of (got_str s) = str_value s
value_of (got_int v) = int_value v
value_of (got_multi vs) = list_value vs

-- An element that is `Nil` is kept as nil.
pub as_element : Outcome (Got Values) → Outcome Value
unfolding is_nil value_of
as_element (ok g r) = ok (value_of g) r
as_element (failed e r) = if is_nil e then ok nil_value r else failed e r
as_element panicked = panicked

-- `sprintf` is `fmt.Sprintf` of a format alone, which `errorf` makes of the text of an error.
module _ (sprintf : Bytes → Bytes) where
  module _ {A : Type 0} (p : ℤ → Reader → Outcome A) where
    number_reply : Bytes → Parsed → Reader → Outcome (Got A)
    number_reply digits (num v) r = ok (got_int v) r
    number_reply digits bad_syntax r = failed (syntax_error digits) r
    number_reply digits out_of_range r = failed (range_error digits) r

    bulk_reply : Bytes → Parsed → Reader → Outcome (Got A)
    unfolding read_bulk read_n
    bulk_reply digits (num (pos n)) r = read_bulk n r >>= λ b rest. ok (got_str (take n b)) rest
    bulk_reply digits (num (negsuc zero)) r = read_n 1 r >>= λ b rest. panicked
    bulk_reply digits (num (negsuc (suc n))) r = panicked
    bulk_reply digits bad_syntax r = failed (syntax_error digits) r
    bulk_reply digits out_of_range r = failed (range_error digits) r

    multi_reply : Bytes → Parsed → Reader → Outcome (Got A)
    multi_reply digits (num v) r = p v r >>= λ a rest. ok (got_multi a) rest
    multi_reply digits bad_syntax r = failed (syntax_error digits) r
    multi_reply digits out_of_range r = failed (range_error digits) r

    pub on_reply : Bytes → Reader → Outcome (Got A)
    unfolding number_reply bulk_reply multi_reply parse_int atoi bytes_eq
    on_reply [] r = panicked
    on_reply (c ∷ s) r =
        if c == b'-'
        then failed (redis_error (sprintf s)) r
        else if c == b'+'
        then ok (got_str s) r
        else if c == b':'
        then number_reply s (parse_int 64 s) r
        else if c == b'$'
        then (if bytes_eq s (codes "-1") then failed nil_error r else bulk_reply s (atoi s) r)
        else if c == b'*'
        then (if bytes_eq s (codes "-1")
            then failed nil_error r
            else multi_reply s (parse_int 64 s) r)
        else failed (plain (codes "redis: can't parse " ++ quote (c ∷ s))) r

    -- `parseReply(rd, p)`
    pub parse_with : Reader → Outcome (Got A)
    unfolding read_line on_reply
    parse_with r = read_line r >>= on_reply

  -- The loop of `parseSlice`; `rec` parses one element.
  pub slice_loop : (Reader → Outcome (Got Values)) → ℕ → Reader → Outcome Values
  unfolding as_element
  slice_loop rec zero r = ok nil r
  slice_loop rec (suc n) r =
      as_element (rec r) >>= λ v rest. slice_loop rec n rest >>= λ vs rest'. ok (cons v vs) rest'

  -- `max_cap` is the largest capacity that `make` takes.
  module _ (max_cap : ℕ) where
    pub parse_slice : (Reader → Outcome (Got Values)) → ℤ → Reader → Outcome Values
    unfolding slice_loop
    parse_slice rec (negsuc n) r = panicked
    parse_slice rec (pos n) r = if ltb max_cap n then panicked else slice_loop rec n r

    -- `parseReply(rd, parseSlice)` for replies nested less deep than the fuel.
    unfoldable pub parse_nested : ℕ → Reader → Outcome (Got Values)
    unfolding parse_with parse_slice
    parse_nested zero r = panicked
    parse_nested (suc fuel) r = parse_with (parse_slice (parse_nested fuel)) r

    -- Each level takes a byte off the connection, so the fuel is never used up.
    unfoldable pub parse_reply : Reader → Outcome (Got Values)
    unfolding parse_nested
    parse_reply r = parse_nested (suc (length r.unread)) r

  -- `parseReply(rd, nil)`: a `*` reply calls the parser that is nil.
  pub no_parser : ℤ → Reader → Outcome (Unit {0})
  no_parser n r = panicked

  pub parse_flat : Reader → Outcome (Got (Unit {0}))
  unfolding parse_with no_parser
  parse_flat r = parse_with no_parser r

abbrev from_node : Bytes → Reader
from_node s = record { unread = s; last = eof }

nested_test :
    parse_reply (λ s. s) 100 (from_node (codes "*3\r\n$2\r\nab\r\n*1\r\n:-7\r\n$-1\r\nx"))
    ≡ ok
        (got_multi (
          cons
            (str_value (codes "ab"))
            (cons (list_value (cons (int_value (negsuc 6)) nil)) (cons nil_value nil))))
        (from_node (codes "x"))
unfolding parse_reply
nested_test = refl

error_test :
    parse_flat (λ s. s) (from_node (codes "-ERR no\r\n"))
    ≡ failed (redis_error (codes "ERR no")) (from_node [])
unfolding parse_flat
error_test = refl

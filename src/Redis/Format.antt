-- ===== src/Redis/Format.antt =====
-- The `Format…` functions of redis/command.go and redis/commands.go: replies as the client reads
-- them. A float64 is kept as its 64-bit pattern, which `strconv` prints and parses.
use smartproxy.Common.{
  ℕ, suc, ◌/◌, ◌≡◌, refl, Bool, List, [], ◌∷◌, ◌++◌, append_assoc, Bytes, codes, ◌==◌,
  if◌then◌else◌, length,
}
use smartproxy.Common.Int.{ℤ, pos, negsuc, sub_ℕ}
use smartproxy.Text.{itoa, format_int}
use smartproxy.Errors.{Error, error_text, type_asserted_err}
use smartproxy.Wire.{append_arg, append_each, append_args}

-- What a reply of the server holds, as an `interface{}`.
mutual
  pub data Value : Type 0 where
    nil_value : Value
    int_value : ℤ → Value
    str_value : Bytes → Value
    list_value : Values → Value

  pub data Values : Type 0 where
    nil : Values
    cons : Value → Values → Values

unfoldable pub count : Values → ℕ
count nil = 0
count (cons v vs) = suc (count vs)

abbrev pub crlf : Bytes
crlf = 13 ∷ 10 ∷ []

abbrev pub ok_bytes : Bytes
ok_bytes = codes "+OK\r\n"

abbrev pub nil_bulk : Bytes
nil_bulk = codes "$-1\r\n"

-- `"-" + text + "\r\n"`
unfoldable pub error_line : Error → Bytes
unfolding error_text
error_line e = b'-' ∷ error_text e ++ crlf

unfoldable pub format_status : Bytes → Bytes
format_status val = b'+' ∷ val ++ crlf

unfoldable pub format_int_reply : ℤ → Bytes
unfolding format_int
format_int_reply val = b':' ∷ format_int val ++ crlf

unfoldable pub format_bool : Bool → Bytes
format_bool val = b':' ∷ (if val then b'1' else b'0') ∷ crlf

unfoldable pub format_string : Bytes → Bytes
unfolding itoa
format_string val = (b'$' ∷ itoa (length val)) ++ crlf ++ val ++ crlf

-- Go's division of int64 by a positive constant: towards zero.
unfoldable pub quotient : ℤ → ℕ → ℤ
quotient (pos n) d = pos (n / d)
quotient (negsuc n) d = sub_ℕ 0 (suc n / d)

abbrev pub millisecond : ℕ
millisecond = 1000000

abbrev pub second : ℕ
second = 1000000000

unfoldable pub format_ms : ℤ → Bytes
unfolding quotient format_int
format_ms dur = format_int (quotient dur millisecond)

unfoldable pub format_sec : ℤ → Bytes
unfolding quotient format_int
format_sec dur = format_int (quotient dur second)

-- `FormatDuration`: in the unit of the command's precision.
unfoldable pub format_duration : ℤ → ℕ → Bytes
unfolding format_ms format_sec
format_duration val precision =
    b':' ∷ (if precision == millisecond then format_ms val else format_sec val) ++ crlf

unfoldable pub format_strings : List Bytes → Bytes
unfolding format_string
format_strings [] = []
format_strings (v ∷ vs) = format_string v ++ format_strings vs

unfoldable pub format_string_slice : List Bytes → Bytes
unfolding format_strings itoa
format_string_slice vs = (b'*' ∷ itoa (length vs)) ++ crlf ++ format_strings vs

-- The loop of `FormatSlice`; a value of another type gives up what was written.
unfoldable pub add_values : Bytes → Values → Bytes
unfolding format_string error_line format_int
add_values out nil = out
add_values out (cons nil_value vs) = add_values (out ++ nil_bulk) vs
add_values out (cons (int_value n) vs) = add_values (out ++ format_string (format_int n)) vs
add_values out (cons (str_value s) vs) = add_values (out ++ format_string s) vs
add_values out (cons (list_value ws) vs) = error_line type_asserted_err

unfoldable pub format_slice : Values → Bytes
unfolding add_values count itoa
format_slice vs = add_values ((b'*' ∷ itoa (count vs)) ++ crlf) vs

format_strings-append_each : (vs : List Bytes) → format_strings vs ≡ append_each vs
unfolding format_strings append_each append_arg
format_strings-append_each [] = refl
format_strings-append_each (v ∷ vs) = rw (format_strings-append_each vs) (simp append_assoc)

-- A reply of strings is written as `appendArgs` writes a request of them.
format_string_slice-append_args : (vs : List Bytes) → format_string_slice vs ≡ append_args vs
unfolding format_string_slice append_args
format_string_slice-append_args vs = rw (format_strings-append_each vs) (simp append_assoc)

slice_test :
    format_slice (cons (str_value (codes "ab")) (cons nil_value (cons (int_value (negsuc 4)) nil)))
    ≡ codes "*3\r\n$2\r\nab\r\n$-1\r\n$2\r\n-5\r\n"
unfolding format_slice
slice_test = refl

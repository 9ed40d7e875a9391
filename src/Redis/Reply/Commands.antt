-- ===== src/Redis/Reply/Commands.antt =====
-- redis/command.go: `parseReply` of each type of command, over the parsers of redis/parser.go.
use smartproxy.Common.{
  ℕ, zero, suc, ◌+◌, ◌-◌, ◌*◌, ◌/◌, ◌%◌, ◌^◌, Bool, false, List, [], ◌∷◌, ◌++◌, Option, none, some,
  Bytes, codes, ltb, ◌==◌, if◌then◌else◌, bytes_eq, Map,
}
use smartproxy.Common.Int.{ℤ, pos, negsuc, sub_ℕ}
use smartproxy.Text.{Parsed, num, bad_syntax, out_of_range, parse_int}
use smartproxy.Errors.{Error}
use smartproxy.Wire.{Reader, Outcome, ok, failed, panicked, ◌>>=◌}
use smartproxy.Redis.Format.{Values, nil, cons, str_value, list_value}
use smartproxy.Redis.Command.{
  SlotInfo, Val, Cmd, any, slice, status, int, duration, bool, string, float, string_slice,
  bool_slice, string_string_map, string_int_map, zslice, scan, cluster_slots,
}
use smartproxy.Redis.Reply.{
  Got, got_str, got_int, got_multi, is_nil, syntax_error, range_error, value_of, parse_reply,
  parse_flat, parse_with,
}
use smartproxy.Redis.Reply.Typed.{as_string, as_flag, as_number, each_of, each_pair, slot_item}

-- The result of a command's `parseReply`: the command as it left it, and the error it returned.
pub data Parsing : Type 0 where
  parsed : Cmd → Option Error → Reader → Parsing
  crashed : Parsing

-- `cmd.err = err`, or `cmd.val = v`.
unfoldable pub stored : Cmd → Outcome Val → Parsing
stored c (ok v r) = parsed (record c { val = v }) none r
stored c (failed e r) = parsed (record c { err = some e }) (some e) r
stored c panicked = crashed

-- A type assertion panics on another type.
unfoldable pub assert_str : (Bytes → Val) → Got (Unit {0}) → Reader → Outcome Val
assert_str f (got_str s) r = ok (f s) r
assert_str f _ r = panicked

unfoldable pub assert_int : (ℤ → Val) → Got (Unit {0}) → Reader → Outcome Val
assert_int f (got_int v) r = ok (f v) r
assert_int f _ r = panicked

unfoldable pub assert_multi : {A : Type 0} → (A → Val) → Got A → Reader → Outcome Val
assert_multi f (got_multi a) r = ok (f a) r
assert_multi f _ r = panicked

-- The product of two int64, of which the second is positive.
unfoldable pub signed64 : ℕ → ℤ
signed64 u = if ltb u (2 ^ 63) then pos u else sub_ℕ u (2 ^ 64)

unfoldable pub times64 : ℤ → ℕ → ℤ
unfolding signed64
times64 (pos n) p = signed64 (n * p % 2 ^ 64)
times64 (negsuc n) p = signed64 ((2 ^ 64 - suc n * p % 2 ^ 64) % 2 ^ 64)

-- `BoolCmd`: nil is false.
unfoldable pub bool_reply : Outcome (Got (Unit {0})) → Outcome Val
unfolding bytes_eq is_nil
bool_reply (ok (got_int (pos n)) r) = ok (bool (n == 1)) r
bool_reply (ok (got_int (negsuc n)) r) = ok (bool false) r
bool_reply (ok (got_str s) r) = ok (bool (bytes_eq s (codes "OK"))) r
bool_reply (ok (got_multi u) r) = panicked
bool_reply (failed e r) = if is_nil e then ok (bool false) r else failed e r
bool_reply panicked = panicked

unfoldable pub any_reply : Cmd → Outcome (Got Values) → Parsing
unfolding value_of
any_reply c (ok g r) = parsed (record c { val = any (some (value_of g)); err = none }) none r
any_reply c (failed e r) = parsed (record c { val = any none; err = some e }) (some e) r
any_reply c panicked = crashed

-- What `ParseInt` returns beside its error.
pub cursor_beside : Bytes → Parsed → ℤ
cursor_beside s (num v) = v
cursor_beside s bad_syntax = pos 0
cursor_beside (c ∷ s) out_of_range = if c == b'-' then negsuc (2 ^ 63 - 1) else pos (2 ^ 63 - 1)
cursor_beside [] out_of_range = pos 0

pub cursor_error : Bytes → Parsed → Option Error
cursor_error s (num v) = none
cursor_error s bad_syntax = some (syntax_error s)
cursor_error s out_of_range = some (range_error s)

-- `none` where an element is no text.
pub all_strings : Values → Option (List Bytes)
all_strings nil = some []
all_strings (cons (str_value s) vs) = elim (all_strings vs) [
  | none ↦ none
  | some list ↦ some (s ∷ list)
]
all_strings (cons _ vs) = none

unfoldable pub scan_done : Cmd → ℤ → List Bytes → Option (List Bytes) → Reader → Parsing
scan_done c cursor keys none r = crashed
scan_done c cursor keys (some more) r =
    parsed (record c { val = scan cursor (keys ++ more); err = none }) none r

unfoldable pub scan_keys : Cmd → ℤ → List Bytes → Option Error → Values → Reader → Parsing
unfolding scan_done all_strings
scan_keys c cursor keys (some e) vs r =
    parsed (record c { val = scan cursor keys; err = some e }) (some e) r
scan_keys c cursor keys none (cons (list_value more) vs) r =
    scan_done c cursor keys (all_strings more) r
scan_keys c cursor keys none _ r = crashed

unfoldable pub scan_reply : Cmd → List Bytes → Outcome (Got Values) → Parsing
unfolding scan_keys cursor_beside cursor_error parse_int
scan_reply c keys (ok (got_multi (cons (str_value s) vs)) r) =
    scan_keys c (cursor_beside s (parse_int 64 s)) keys (cursor_error s (parse_int 64 s)) vs r
scan_reply c keys (ok _ r) = crashed
scan_reply c keys (failed e r) = parsed (record c { err = some e }) (some e) r
scan_reply c keys panicked = crashed

-- `parse_float` is `strconv.ParseFloat(s, 64)`, which returns a value beside its error.
module _ (sprintf : Bytes → Bytes) (max_cap : ℕ) (parse_float : Bytes → ℕ × Option Error) where
  unfoldable pub float_reply : Cmd → Outcome (Got (Unit {0})) → Parsing
  float_reply c (ok (got_str s) r) =
      parsed (record c { val = float (parse_float s).0; err = (parse_float s).1 }) (parse_float s).1
        r
  float_reply c (ok _ r) = crashed
  float_reply c (failed e r) = parsed (record c { err = some e }) (some e) r
  float_reply c panicked = crashed

  unfoldable pub text_item : Reader → Outcome Bytes
  unfolding as_string parse_flat
  text_item r = parse_flat sprintf r >>= as_string

  flag_item : Reader → Outcome Bool
  unfolding as_flag parse_flat
  flag_item r = parse_flat sprintf r >>= as_flag

  number_item : Reader → Outcome ℤ
  unfolding as_number parse_flat
  number_item r = parse_flat sprintf r >>= as_number

  score : ℕ × Option Error → Bytes → Reader → Outcome (ℕ × Bytes)
  score (f, none) member r = ok (f, member) r
  score (f, some e) member r = failed e r

  z_item : Reader → Outcome (ℕ × Bytes)
  unfolding text_item score
  z_item r = text_item r >>= λ member rest.
      text_item rest >>= λ s rest'. score (parse_float s) member rest'

  slots_item : Reader → Outcome SlotInfo
  unfolding slot_item parse_reply
  slots_item r = parse_reply sprintf max_cap r >>= slot_item

  -- The parsers that make a slice of the announced size.
  unfoldable pub list_of : {A : Type 0} → (Reader → Outcome A) → ℤ → Reader → Outcome (List A)
  unfolding each_of
  list_of item (negsuc n) r = panicked
  list_of item (pos n) r = if ltb max_cap n then panicked else each_of item n r

  -- The parsers that make a map; the size of a map is only a hint.
  map_of : {V : Type 0} → (Reader → Outcome V) → ℤ → Reader → Outcome (Map V)
  unfolding each_pair text_item
  map_of value (negsuc n) r = ok [] r
  map_of value (pos n) r = each_pair text_item value ((n + 1) / 2) [] r

  -- With an odd number the loop steps out of the slice.
  zslice_of : ℤ → Reader → Outcome (List (ℕ × Bytes))
  unfolding each_of z_item
  zslice_of (negsuc zero) r = ok [] r
  zslice_of (negsuc (suc n)) r = panicked
  zslice_of (pos n) r =
      if ltb max_cap (n / 2)
      then panicked
      else (each_of z_item (n / 2) r >>= λ zs rest. if n % 2 == 0 then ok zs rest else panicked)

  unfoldable pub parse_by : Val → Cmd → Reader → Parsing
  unfolding stored any_reply assert_str assert_int assert_multi times64 bool_reply float_reply
      scan_reply parse_reply parse_flat parse_with list_of map_of zslice_of text_item flag_item
      number_item slots_item
  parse_by (any v) c r = any_reply c (parse_reply sprintf max_cap r)
  parse_by (slice v) c r = stored c (parse_reply sprintf max_cap r >>= assert_multi slice)
  parse_by (status v) c r = stored c (parse_flat sprintf r >>= assert_str status)
  parse_by (int v) c r = stored c (parse_flat sprintf r >>= assert_int int)
  parse_by (duration precision v) c r =
      stored c (parse_flat sprintf r >>= assert_int λ t. duration precision (times64 t precision))
  parse_by (bool v) c r = stored c (bool_reply (parse_flat sprintf r))
  parse_by (string v) c r = stored c (parse_flat sprintf r >>= assert_str string)
  parse_by (float v) c r = float_reply c (parse_flat sprintf r)
  parse_by (string_slice v) c r =
      stored c (parse_with sprintf (list_of text_item) r >>= assert_multi string_slice)
  parse_by (bool_slice v) c r =
      stored c (parse_with sprintf (list_of flag_item) r >>= assert_multi bool_slice)
  parse_by (string_string_map v) c r =
      stored c (parse_with sprintf (map_of text_item) r >>= assert_multi string_string_map)
  parse_by (string_int_map v) c r =
      stored c (parse_with sprintf (map_of number_item) r >>= assert_multi string_int_map)
  parse_by (zslice v) c r = stored c (parse_with sprintf zslice_of r >>= assert_multi zslice)
  parse_by (scan cursor keys) c r = scan_reply c keys (parse_reply sprintf max_cap r)
  parse_by (cluster_slots v) c r =
      stored c (parse_with sprintf (list_of slots_item) r >>= assert_multi cluster_slots)

  -- `cmd.parseReply(rd)`
  unfoldable pub parse_cmd : Cmd → Reader → Parsing
  unfolding parse_by
  parse_cmd c r = parse_by c.val c r

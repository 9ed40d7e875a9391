-- ===== src/Redis/Command.antt =====
-- redis/command.go: the commands as values. The fields of `baseCmd` without its time-outs, and one
-- constructor of `Val` for each type of command, with that type's `val`.
use smartproxy.Common.{
  ℕ, ◌≡◌, refl, Bool, true, false, List, [], Option, ◌&&◌, none, some, Bytes, codes, ltb,
  if◌then◌else◌, length, get_or, bytes_eq, Map,
}
use smartproxy.Common.Int.{ℤ, pos}
use smartproxy.Errors.{Error, error_text}
use smartproxy.Redis.Format.{
  Value, Values, nil, error_line, nil_bulk, format_status, format_int_reply, format_bool,
  format_string, format_duration, format_string_slice, format_slice, second,
}

pub record SlotInfo : Type 0 where
  pub start : ℕ
  pub last : ℕ
  pub addrs : List Bytes

pub data Val : Type 0 where
  any : Option Value → Val
  slice : Values → Val
  status : Bytes → Val
  int : ℤ → Val
  duration : ℕ → ℤ → Val
  bool : Bool → Val
  string : Bytes → Val
  float : ℕ → Val
  string_slice : List Bytes → Val
  bool_slice : List Bool → Val
  string_string_map : Map Bytes → Val
  string_int_map : Map ℤ → Val
  zslice : List (ℕ × Bytes) → Val
  scan : ℤ → List Bytes → Val
  cluster_slots : List SlotInfo → Val

pub record Cmd : Type 0 where
  pub args : List Bytes
  pub err : Option Error
  pub cluster_key_pos : ℕ
  pub val : Val

-- The zero value of each type of command; a duration keeps its precision.
unfoldable pub zero_val : Val → Val
zero_val (any v) = any none
zero_val (slice v) = slice nil
zero_val (status v) = status []
zero_val (int v) = int (pos 0)
zero_val (duration precision v) = duration precision (pos 0)
zero_val (bool v) = bool false
zero_val (string v) = string []
zero_val (float v) = float 0
zero_val (string_slice v) = string_slice []
zero_val (bool_slice v) = bool_slice []
zero_val (string_string_map v) = string_string_map []
zero_val (string_int_map v) = string_int_map []
zero_val (zslice v) = zslice []
zero_val (scan cursor keys) = scan (pos 0) []
zero_val (cluster_slots v) = cluster_slots []

-- `New…Cmd(args...)` of every type but `Cmd`: the key is the first argument.
unfoldable pub new_cmd : Val → List Bytes → Cmd
new_cmd v args = record { args = args; err = none; cluster_key_pos = 1; val = v }

-- `NewCmd` and `newKeylessStatusCmd`
unfoldable new_keyless_cmd : Val → List Bytes → Cmd
new_keyless_cmd v args = record { args = args; err = none; cluster_key_pos = 0; val = v }

unfoldable pub reset : Cmd → Cmd
unfolding zero_val
reset c = record c { val = zero_val c.val; err = none }

unfoldable pub set_err : Error → Cmd → Cmd
set_err e c = record c { err = some e }

set_val : Val → Cmd → Cmd
set_val v c = record c { val = v }

unfoldable pub cluster_key : Cmd → Bytes
cluster_key c =
    if ltb 0 c.cluster_key_pos && ltb c.cluster_key_pos (length c.args)
    then get_or c.args c.cluster_key_pos []
    else []

-- `Reply` of a command that failed.
unfoldable pub error_reply : Error → Bytes
unfolding error_text error_line bytes_eq
error_reply e = if bytes_eq (error_text e) (codes "redis: nil") then nil_bulk else error_line e

-- The types whose `Reply` is `return nil`, whatever happened.
unfoldable pub has_reply : Val → Bool
has_reply (any v) = false
has_reply (bool_slice v) = false
has_reply (string_string_map v) = false
has_reply (string_int_map v) = false
has_reply (zslice v) = false
has_reply (scan cursor keys) = false
has_reply (cluster_slots v) = false
has_reply _ = true

-- `format_float` is `strconv.FormatFloat(f, 'f', -1, 64)` on the pattern of `f`.
module _ (format_float : ℕ → Bytes) where
  -- `Reply` without an error.
  unfoldable pub value_reply : Val → Bytes
  unfolding format_slice format_status format_int_reply format_duration format_bool format_string
      format_string_slice
  value_reply (slice v) = format_slice v
  value_reply (status v) = format_status v
  value_reply (int v) = format_int_reply v
  value_reply (duration precision v) = format_duration v precision
  value_reply (bool v) = format_bool v
  value_reply (string v) = format_string v
  value_reply (float v) = format_string (format_float v)
  value_reply (string_slice v) = format_string_slice v
  value_reply (any v) = []
  value_reply (bool_slice v) = []
  value_reply (string_string_map v) = []
  value_reply (string_int_map v) = []
  value_reply (zslice v) = []
  value_reply (scan cursor keys) = []
  value_reply (cluster_slots v) = []

  unfoldable pub reply_of : Option Error → Val → Bytes
  unfolding error_reply value_reply has_reply
  reply_of none v = value_reply v
  reply_of (some e) v = if has_reply v then error_reply e else []

  unfoldable pub reply : Cmd → Bytes
  unfolding reply_of
  reply c = reply_of c.err c.val

ttl_test :
    reply
      (λ f. [])
      (set_val (duration second (pos 5000000000)) (new_cmd (duration second (pos 0)) []))
    ≡ codes ":5\r\n"
unfolding reply set_val new_cmd
ttl_test = refl

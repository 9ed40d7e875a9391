-- ===== src/Redis/Reply/Typed.antt =====
-- redis/parser.go and redis/command.go: the parsers of lists, maps and slots, and `parseReply` of
-- each type of command.
use smartproxy.Common.{
  ℕ, zero, suc, Bool, false, ◌||◌, List, [], ◌∷◌, ◌++◌, Option, none, some, Bytes, codes, ltb, ◌==◌,
  if◌then◌else◌, Map, insert,
}
use smartproxy.Common.Int.{ℤ, pos, negsuc}
use smartproxy.Text.{Parsed, num, parse_int, format_int}
use smartproxy.Errors.{Error, plain}
use smartproxy.Wire.{Reader, Outcome, ok, failed, panicked, ◌>>=◌}
use smartproxy.Redis.Format.{Value, Values, nil, cons, nil_value, int_value, str_value, list_value}
use smartproxy.Redis.Command.{SlotInfo}
use smartproxy.Redis.Slots.{hash_slots}
use smartproxy.Redis.Reply.{Got, got_str, got_int, got_multi}

abbrev not_string : Error
not_string = plain (codes "got int64, expected string")

unfoldable pub as_string : Got (Unit {0}) → Reader → Outcome Bytes
as_string (got_str s) r = ok s r
as_string (got_int v) r = failed not_string r
as_string (got_multi u) r = failed not_string r

unfoldable pub as_flag : Got (Unit {0}) → Reader → Outcome Bool
as_flag (got_int (pos n)) r = ok (n == 1) r
as_flag (got_int (negsuc n)) r = ok false r
as_flag _ r = failed (plain (codes "got string, expected int64")) r

number_text : Bytes → Parsed → Reader → Outcome ℤ
number_text s (num v) r = ok v r
number_text s _ r = failed (plain (codes "got " ++ s ++ codes ", expected number")) r

unfoldable pub as_number : Got (Unit {0}) → Reader → Outcome ℤ
unfolding number_text
as_number (got_int v) r = ok v r
as_number (got_str s) r = number_text s (parse_int 64 s) r
as_number (got_multi u) r = panicked

-- The loop that `parseStringSlice` and `parseBoolSlice` share.
unfoldable pub each_of : {A : Type 0} → (Reader → Outcome A) → ℕ → Reader → Outcome (List A)
each_of item zero r = ok [] r
each_of item (suc n) r =
    item r >>= λ a rest. each_of item n rest >>= λ list rest'. ok (a ∷ list) rest'

-- The loop of `parseStringStringMap` and `parseStringIntMap` over the pairs; a later pair replaces.
unfoldable pub each_pair :
    {V : Type 0}
    → (Reader → Outcome Bytes)
    → (Reader → Outcome V)
    → ℕ
    → Map V
    → Reader
    → Outcome (Map V)
unfolding insert
each_pair key value zero m r = ok m r
each_pair key value (suc n) m r =
    key r >>= λ k rest. value rest >>= λ v rest'. each_pair key value n (insert k v m) rest'

-- `%v` of what a slice holds.
mutual
  show_value : Value → Bytes
  show_value nil_value = codes "<nil>"
  show_value (int_value v) = format_int v
  show_value (str_value s) = s
  show_value (list_value vs) = b'[' ∷ show_values vs

  show_values : Values → Bytes
  show_values nil = b']' ∷ []
  show_values (cons v vs) = show_value v ++ show_rest vs

  show_rest : Values → Bytes
  show_rest nil = b']' ∷ []
  show_rest (cons v vs) = b' ' ∷ show_value v ++ show_rest vs

bad_item : Values → Error
unfolding show_value
bad_item item =
    plain
      (codes "got " ++ show_value (list_value item) ++ codes ", expected {int64, int64, string...}")

bad_pair : Values → Error
unfolding show_value
bad_pair pair =
    plain (codes "got " ++ show_value (list_value pair) ++ codes ", expected IP PORT pair")

has_byte : ℕ → Bytes → Bool
has_byte b [] = false
has_byte b (c ∷ s) = c == b || has_byte b s

-- `net.JoinHostPort`
join_host_port : Bytes → Bytes → Bytes
unfolding has_byte
join_host_port host port =
    if has_byte b':' host || has_byte b'%' host
    then b'[' ∷ host ++ codes "]:" ++ port
    else host ++ b':' ∷ port

host_port : Values → Value → Value → Reader → Outcome Bytes
unfolding bad_pair join_host_port
host_port pair (str_value (c ∷ ip)) (int_value (pos (suc port))) r =
    ok (join_host_port (c ∷ ip) (format_int (pos (suc port)))) r
host_port pair _ _ r = failed (bad_pair pair) r

pair_addr : Values → Value → Reader → Outcome Bytes
unfolding host_port
pair_addr item (list_value (cons ip (cons port nil))) r =
    host_port (cons ip (cons port nil)) ip port r
pair_addr item _ r =
    failed
      (plain (
        codes "got " ++ show_value (list_value item) ++ codes ", expected []interface{host, port}"))
      r

pair_addrs : Values → Values → Reader → Outcome (List Bytes)
unfolding pair_addr
pair_addrs item nil r = ok [] r
pair_addrs item (cons v vs) r = pair_addr item v r >>= λ addr rest.
    pair_addrs item vs rest >>= λ addrs rest'. ok (addr ∷ addrs) rest'

-- `start > hashSlots` lets the number of the slots itself through.
slot_bound : Value → Option ℕ
slot_bound (int_value (pos n)) = if ltb hash_slots n then none else some n
slot_bound _ = none

slot_info : Values → Option ℕ → Option ℕ → Values → Reader → Outcome SlotInfo
unfolding pair_addrs bad_item
slot_info item (some start) (some last) pairs r = pair_addrs item pairs r >>= λ addrs rest.
    ok (record { start = start; last = last; addrs = addrs }) rest
slot_info item _ _ pairs r = failed (bad_item item) r

unfoldable pub slot_item : Got Values → Reader → Outcome SlotInfo
unfolding slot_info slot_bound bad_item
slot_item (got_multi (cons start (cons last (cons v vs)))) r =
    slot_info (cons start (cons last (cons v vs))) (slot_bound start) (slot_bound last) (cons v vs)
      r
slot_item (got_multi item) r = failed (bad_item item) r
slot_item (got_str s) r = failed (plain (codes "got string, expected []interface{}")) r
slot_item (got_int v) r = failed (plain (codes "got int64, expected []interface{}")) r

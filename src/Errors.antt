-- ===== src/Errors.antt =====
-- The error values that cross the program: precheck.go, redis/error.go and Go's io and bufio.
use smartproxy.Common.{
  ℕ, ◌≡◌, refl, Bool, true, false, List, [], ◌∷◌, Bytes, codes, bytes_eq, ltb, ◌&&◌, ◌-◌, ◌==◌,
  if◌then◌else◌,
}
use smartproxy.Text.{push_first}

-- `plain` is `errors.New` or `fmt.Errorf`, `redis_error` is the struct of redis/error.go, and
-- `net_error` is any value that is a `net.Error`.
pub data Error : Type 0 where
  plain : Bytes → Error
  redis_error : Bytes → Error
  net_error : Bytes → Error
  eof : Error

-- `err.Error()`
unfoldable pub error_text : Error → Bytes
error_text (plain s) = s
error_text (redis_error s) = s
error_text (net_error s) = s
error_text eof = codes "EOF"

abbrev pub bad_command_error : Error
bad_command_error = plain (codes "error bad command")

abbrev pub wrong_argument_count : Error
wrong_argument_count = plain (codes "wrong argument count")

abbrev pub command_forbidden : Error
command_forbidden = plain (codes "command forbidden")

abbrev pub unknow_proxy_op_type : Error
unknow_proxy_op_type = plain (codes "Unknow args type for proxy command")

abbrev pub black_time_unavaliable : Error
black_time_unavaliable = plain (codes "black time unavaliable")

abbrev pub nil_error : Error
nil_error = redis_error (codes "redis: nil")

abbrev pub tx_failed_err : Error
tx_failed_err = redis_error (codes "redis: transaction failed")

abbrev pub un_defined_err : Error
un_defined_err = redis_error (codes "UnDenfined command ")

abbrev pub reflect_unvalid_err : Error
reflect_unvalid_err = redis_error (codes "Reflect Unvalid Method Err")

abbrev pub type_asserted_err : Error
type_asserted_err = redis_error (codes "Type Asserted Error")

unfoldable pub is_network_error : Error → Bool
is_network_error (net_error s) = true
is_network_error eof = true
is_network_error _ = false

-- `strings.SplitN(s, " ", n)`: at most `n` parts, the last one whole.
split_n : ℕ → Bytes → List Bytes
unfolding push_first
split_n n [] = [] ∷ []
split_n n (c ∷ s) =
    let apart = [] ∷ split_n (n - 1) s in
    let joined = push_first c (split_n n s) in if ltb 1 n && c == b' ' then apart else joined

pub record Moved : Type 0 where
  pub moved : Bool
  pub ask : Bool
  pub addr : Bytes

abbrev not_moved : Moved
not_moved = record { moved = false; ask = false; addr = [] }

moved_parts : List Bytes → Moved
moved_parts (kind ∷ slot ∷ addr ∷ []) =
    if bytes_eq kind (codes "MOVED")
    then record { moved = true; ask = false; addr = addr }
    else if bytes_eq kind (codes "ASK")
    then record { moved = false; ask = true; addr = addr }
    else not_moved
moved_parts _ = not_moved

unfoldable pub is_moved_error : Error → Moved
unfolding moved_parts split_n bytes_eq
is_moved_error (redis_error s) = moved_parts (split_n 3 s)
is_moved_error _ = not_moved

moved_test :
    is_moved_error (redis_error (codes "MOVED 12 h:1"))
    ≡ record { moved = true; ask = false; addr = codes "h:1" }
unfolding is_moved_error
moved_test = refl

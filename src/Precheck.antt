-- ===== src/Precheck.antt =====
-- precheck.go: which requests the proxy answers itself, refuses, or lets through. The map
-- `BlackKeyLists` is an argument; times are in seconds.
pub mod Tables
pub mod Rules
pub mod Laws
pub mod Specials
pub mod Blacked
use smartproxy.Common.{
  ℕ, ◌+◌, ◌≡◌, refl, Bool, true, false, List, [], ◌∷◌, ◌++◌, Option, none, some, Bytes, codes, ltb,
  ◌==◌, if◌then◌else◌, ◌||◌, length, bytes_eq, Map, find, remove, mem_key,
}
use smartproxy.Text.{to_upper}
use smartproxy.Errors.{Error, bad_command_error, wrong_argument_count, command_forbidden}
use smartproxy.Redis.Format.{ok_bytes, crlf}
use smartproxy.Redis.Request
use smartproxy.Redis.Request.{Request, new_request}
use smartproxy.Precheck.Tables.{Rule, req_rules, spec_list, black_list}

pub record BlackKey : Type 0 where
  pub name : Bytes
  pub startup : ℕ
  pub deadline : ℕ

-- `BlackKeyLists`
abbrev pub BlackKeys : Type 0
BlackKeys = Map BlackKey

pub above : ℕ → Option ℕ → Bool
above n none = false
above n (some most) = ltb most n

-- The loop of `verifyCommand` over the two numbers of a rule.
pub check_rule : ℕ → Option Rule → Option Error
unfolding above
check_rule n none = some bad_command_error
check_rule n (some rule) =
    if ltb n rule.min_count
    then some wrong_argument_count
    else if above n rule.max_count
    then some wrong_argument_count
    else none

-- `none` is `nil`: the command passes.
pub verify_command : Request → Option Error
unfolding check_rule Request.len Request.name
verify_command req =
    if Request.len req == 0
    then some bad_command_error
    else if mem_key (Request.name req) black_list
    then some command_forbidden
    else check_rule (Request.len req) (find (Request.name req) req_rules)

-- The four results of `preCheckCommand`.
pub record Verdict : Type 0 where
  pub reply : Bytes
  pub should_close : Bool
  pub handled : Bool
  pub err : Option Error

abbrev pub answer : Bytes → Bool → Verdict
answer reply close = record { reply = reply; should_close = close; handled = true; err = none }

abbrev refuse : Error → Verdict
refuse e = record { reply = []; should_close = false; handled = true; err = some e }

abbrev pub pass : Verdict
pass = record { reply = []; should_close = false; handled = false; err = none }

pub echo : List Bytes → Verdict
echo (word ∷ []) = answer (b'+' ∷ word ++ crlf) false
echo _ = refuse wrong_argument_count

pub key_is_black : BlackKeys → List Bytes → Bool
key_is_black black [] = false
key_is_black black (key ∷ args) = elim (find key black) [ none ↦ false | some b ↦ true ]

-- What is left once the `switch` has made no reply.
pub check_key : BlackKeys → Request → Option Error → Verdict
unfolding key_is_black Request.args
check_key black req (some e) = refuse e
check_key black req none =
    if key_is_black black (Request.args req)
    then answer (codes "-key already be blacked \r\n") false
    else pass

unfoldable pub pre_check_command : BlackKeys → Request → Verdict
unfolding verify_command check_key echo Request.len Request.name Request.args
pre_check_command black req =
    let cmd = Request.name req in
    if Request.len req == 0
    then refuse bad_command_error
    else if bytes_eq cmd (codes "PING")
    then answer (codes "+PONG\r\n") false
    else if bytes_eq cmd (codes "QUIT")
    then answer ok_bytes true
    else if bytes_eq cmd (codes "SELECT") || bytes_eq cmd (codes "AUTH")
    then answer ok_bytes false
    else if bytes_eq cmd (codes "ECHO")
    then echo (Request.args req)
    else check_key black req (verify_command req)

unfoldable pub is_spec_command : Bytes → Bool
unfolding to_upper
is_spec_command cmd = mem_key (to_upper cmd) spec_list

-- One tick of `ExpireBlackLists`: the keys whose deadline lies before now are deleted.
pub expire_black_lists : ℕ → BlackKeys → BlackKeys
expire_black_lists now [] = []
expire_black_lists now ((k, b) ∷ black) =
    let rest = expire_black_lists now black in if ltb b.deadline now then rest else (k, b) ∷ rest

too_many_test :
    verify_command (new_request (codes "get" ∷ codes "a" ∷ codes "b" ∷ []))
    ≡ some wrong_argument_count
unfolding verify_command new_request mem_key find req_rules black_list bytes_eq
too_many_test = refl

-- ===== src/Redis/Request.antt =====
-- redis/request.go: one command of a client, with its reply, error and response.
use smartproxy.Common.{
  ℕ, List, [], ◌∷◌, Option, none, some, Bytes, leb, if◌then◌else◌, length, get_or,
}
use smartproxy.Text.{to_upper}
use smartproxy.Errors.{Error}
use smartproxy.Redis.Format.{error_line}
use smartproxy.Redis.Command.{Cmd, reply}

pub record Request : Type 0 where
  pub cmd : List Bytes
  pub reply : Bytes
  pub err : Option Error
  pub resp : Option Cmd

unfoldable pub new_request : List Bytes → Request
new_request cmd = record { cmd = cmd; reply = []; err = none; resp = none }

unfoldable pub name_of : List Bytes → Bytes
unfolding to_upper
name_of [] = []
name_of (c ∷ args) = to_upper c

-- `Name`: the command, in upper case.
unfoldable pub name : Request → Bytes
unfolding name_of
name r = name_of r.cmd

unfoldable pub len : Request → ℕ
len r = length r.cmd

args_of : List Bytes → List Bytes
args_of [] = []
args_of (c ∷ args) = args

unfoldable pub args : Request → List Bytes
unfolding args_of
args r = args_of r.cmd

unfoldable string_at_index : ℕ → Request → Bytes
string_at_index i r = if leb (length r.cmd) i then [] else get_or r.cmd i []

result_of : Option Error → Bytes → Bytes
unfolding error_line
result_of none reply = reply
result_of (some e) reply = error_line e

-- `Result`: what is written to the client.
unfoldable pub result : Request → Bytes
unfolding result_of
result r = result_of r.err r.reply

unfoldable pub set_reply : Bytes → Request → Request
set_reply d r = record r { reply = d }

unfoldable pub set_error : Option Error → Request → Request
set_error e r = record r { err = e }

unfoldable pub set_resp : (ℕ → Bytes) → Cmd → Request → Request
unfolding set_reply reply
set_resp format_float c r = set_reply (reply format_float c) (record r { resp = some c })

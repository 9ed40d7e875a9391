-- ===== src/Precheck/Blacked.antt =====
-- precheck.go: what `preCheckCommand` answers to a request whose first argument is a blacked key.
use smartproxy.Common.{
  ◌≡◌, refl, ◌∙◌, true, false, List, [], ◌∷◌, Option, none, some, Bytes, codes, arith, find,
}
use smartproxy.Errors.{Error}
use smartproxy.Redis.Request
use smartproxy.Redis.Request.{Request}
use smartproxy.Precheck.{
  BlackKey, BlackKeys, Verdict, verify_command, key_is_black, check_key, pre_check_command,
}
use smartproxy.Precheck.Laws.{pre_check_remote, pre_check_handled}

abbrev pub key_blacked : Verdict
key_blacked = record {
  reply = codes "-key already be blacked \r\n";
  should_close = false;
  handled = true;
  err = none;
}

-- A request with this first argument that would pass if no key were blacked is answered by the error; any
-- other is answered as if no key were blacked.
abbrev pub IsRefused : BlackKeys → Bytes → Type 0
IsRefused black key =
    (req : Request) (rest : List Bytes)
    → Request.args req ≡ key ∷ rest
    → ((pre_check_command [] req).handled ≡ false → pre_check_command black req ≡ key_blacked)
      × ((pre_check_command [] req).handled ≡ true
          → pre_check_command black req ≡ pre_check_command [] req)

module _ (black : BlackKeys) (req : Request) where
  check_key-black :
      (o : Option Error)
      → key_is_black black (Request.args req) ≡ true
      → (check_key [] req o).handled ≡ false
      → check_key black req o ≡ key_blacked
  unfolding check_key
  check_key-black none found h = rw found refl
  check_key-black (some e) found h = cc

  no_key_black : (args : List Bytes) → key_is_black [] args ≡ false
  unfolding key_is_black find
  no_key_black [] = refl
  no_key_black (key ∷ args) = refl

  check_key-answered :
      (o : Option Error)
      → (check_key [] req o).handled ≡ true
      → check_key black req o ≡ check_key [] req o
  unfolding check_key
  check_key-answered none h = ground (arith, no_key_black (Request.args req))
  check_key-answered (some e) h = refl

  pre_check-black :
      key_is_black black (Request.args req) ≡ true
      → (pre_check_command [] req).handled ≡ false
      → pre_check_command black req ≡ key_blacked
  pre_check-black found h =
      let (nonempty, remote) = pre_check_handled [] req h in
      pre_check_remote black req nonempty remote
      ∙ check_key-black (verify_command req) found
          (rw (pre_check_remote [] req nonempty remote) at h)

  pre_check-answered :
      (pre_check_command [] req).handled ≡ true
      → pre_check_command black req ≡ pre_check_command [] req
  unfolding pre_check_command
  pre_check-answered h = ground (arith, check_key-answered (verify_command req))

found-is_black :
    (black : BlackKeys) (key : Bytes) (b : BlackKey) (args rest : List Bytes)
    → args ≡ key ∷ rest
    → find key black ≡ some b
    → key_is_black black args ≡ true
unfolding key_is_black
found-is_black black key b args rest e found = rw (e, key_is_black, found) refl

pub found-IsRefused :
    (black : BlackKeys) (key : Bytes) (b : BlackKey) → find key black ≡ some b → IsRefused black key
found-IsRefused black key b found = λ req rest e. (
  pre_check-black black req (found-is_black black key b (Request.args req) rest e found),
  pre_check-answered black req,
)

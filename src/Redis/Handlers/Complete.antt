-- ===== src/Redis/Handlers/Complete.antt =====
-- Every command that gets past precheck.go to `Dispatch` has its handler.
use smartproxy.Common.{
  ◌≡◌, refl, Bool, true, false, ◌||◌, Option, none, some, Bytes, arith, all, bytes_eq, find,
  find-all, mem_key,
}
use smartproxy.Redis.Request
use smartproxy.Redis.Request.{Request}
use smartproxy.Redis.Handlers.{Handler, handlers}
use smartproxy.Precheck.Tables.{Rule, req_rules, spec_list, black_list}
use smartproxy.Precheck.{BlackKeys, pre_check_command, is_spec_command}
use smartproxy.Precheck.Laws.{pre_check_command_passes_iff}
use smartproxy.Precheck.Specials.{to_upper-name}

has_handler : Option Handler → Bool
has_handler none = false
has_handler (some h) = true

abbrev is_dispatched : Bytes → Rule → Bool
is_dispatched cmd rule =
    mem_key cmd black_list || mem_key cmd spec_list || has_handler (find cmd handlers)

rules_dispatched : all (λ e. is_dispatched e.0 e.1) req_rules ≡ true
unfolding req_rules handlers has_handler black_list spec_list mem_key find bytes_eq
rules_dispatched = refl

found_handler : (o : Option Handler) → has_handler o ≡ true → (h : Handler) × (o ≡ some h)
unfolding has_handler
found_handler none e = cc
found_handler (some h) e = (h, refl)

-- A request that passes the checks and is no special command is answered by a handler of the
-- cluster client: its name is never one that the reflection in `Dispatch` fails to find.
pub passes-handler :
    (black : BlackKeys) (req : Request)
    → (pre_check_command black req).handled ≡ false
    → is_spec_command (Request.name req) ≡ false
    → (h : Handler) × (find (Request.name req) handlers ≡ some h)
unfolding is_spec_command
passes-handler black req h spec =
    let (rule, a) = (pre_check_command_passes_iff black req).0 h in
    let plain : mem_key (Request.name req) spec_list ≡ false = rw (to_upper-name req) at spec in
    let entry = find-all is_dispatched (Request.name req) req_rules rules_dispatched a.is_listed in
    found_handler (find (Request.name req) handlers) (ground (arith, a.is_open, plain, entry))

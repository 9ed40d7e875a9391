-- ===== src/Precheck/Specials.antt =====
-- precheck.go: which special commands get past the checks.
use smartproxy.Common.{
  ◌≡◌, refl, Bool, true, false, not, ◌||◌, List, [], ◌∷◌, Option, none, some, Bytes, codes, arith,
  all, bytes_eq, find, mem_key, mem_key-all,
}
use smartproxy.Text.{to_upper, to_upper_idem}
use smartproxy.Redis.Request
use smartproxy.Redis.Request.{Request, name_of}
use smartproxy.Precheck.Tables.{Rule, req_rules, spec_list, black_list}
use smartproxy.Precheck.{BlackKeys, pre_check_command, is_spec_command}
use smartproxy.Precheck.Laws.{passes→IsAllowed}

-- The special commands that no list refuses.
abbrev is_open_special : Bytes → Bool
is_open_special cmd =
    bytes_eq cmd (codes "PROXY")
    || bytes_eq cmd (codes "MGET")
    || bytes_eq cmd (codes "MSET")
    || bytes_eq cmd (codes "DEL")

has_rule : Option Rule → Bool
has_rule none = false
has_rule (some rule) = true

abbrev is_stopped : Bytes → Bool
is_stopped cmd = mem_key cmd black_list || not (has_rule (find cmd req_rules))

specials_sound : all (λ cmd. is_stopped cmd || is_open_special cmd) spec_list ≡ true
unfolding spec_list black_list req_rules has_rule find mem_key bytes_eq
specials_sound = refl

pub to_upper-name : (req : Request) → to_upper (Request.name req) ≡ Request.name req
unfolding Request.name
to_upper-name req = go req.cmd
  where
    go : (cmd : List Bytes) → to_upper (name_of cmd) ≡ name_of cmd
    go [] = unfold name_of to_upper in refl
    go (c ∷ args) = unfold name_of in to_upper_idem c

-- Whatever reaches `SpecCommandProcess` is one of PROXY, MGET, MSET and DEL: the stubs of the
-- other special commands, and the fatal default of its `switch`, are never run.
passes-IsOpenSpecial :
    (black : BlackKeys) (req : Request)
    → (pre_check_command black req).handled ≡ false
    → is_spec_command (Request.name req) ≡ true
    → is_open_special (Request.name req) ≡ true
unfolding is_spec_command
passes-IsOpenSpecial black req h spec =
    let (rule, a) = passes→IsAllowed black req h in
    let listed : mem_key (Request.name req) spec_list ≡ true = rw (to_upper-name req) at spec in
    let entry =
      mem_key-all (λ (cmd : Bytes). is_stopped cmd || is_open_special cmd) (Request.name req)
        spec_list specials_sound listed in
    unfold has_rule in ground (arith, a.is_open, a.is_listed, entry)

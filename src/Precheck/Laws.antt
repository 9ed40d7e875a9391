-- ===== src/Precheck/Laws.antt =====
-- precheck.go: which requests get past the checks, and the expiry of the black list.
use smartproxy.Common.{
  ℕ, ◌≤◌, ◌≡◌, ◌↔◌, ◌∙◌, false, [], ◌∷◌, Option, none, some, Bytes, ◌==◌, arith, find, mem_key,
}
use smartproxy.Errors.{Error}
use smartproxy.Redis.Request
use smartproxy.Redis.Request.{Request, name_of}
use smartproxy.Precheck.Tables.{Rule, req_rules, black_list}
use smartproxy.Precheck.{
  BlackKey, BlackKeys, check_rule, verify_command, key_is_black, check_key, pre_check_command,
  expire_black_lists, pass,
}
use smartproxy.Precheck.Rules.{
  AtMost, KeyIsFree, check_rule_iff, check_rule-found, key_is_black_iff, is_local, listed_sound,
  echo-handled,
}

-- A command that a rule names, that is not on the black list, whose number of words is within the
-- rule, and whose key is not blacked.
pub record IsAllowed (black : BlackKeys) (req : Request) (rule : Rule) : Type 0 where
  pub is_listed : find (Request.name req) req_rules ≡ some rule
  pub is_open : mem_key (Request.name req) black_list ≡ false
  pub enough : rule.min_count ≤ Request.len req
  pub not_too_many : AtMost (Request.len req) rule.max_count
  pub key_free : KeyIsFree black (Request.args req)

module _ (black : BlackKeys) (req : Request) where
  -- Past the answers that it makes by itself, `preCheckCommand` is a check of the rule and the key.
  pub pre_check_remote :
      (Request.len req == 0) ≡ false
      → is_local (Request.name req) ≡ false
      → pre_check_command black req ≡ check_key black req (verify_command req)
  unfolding pre_check_command
  pre_check_remote h k = ground arith

  pub pre_check_handled :
      (pre_check_command black req).handled ≡ false
      → ((Request.len req == 0) ≡ false) × (is_local (Request.name req) ≡ false)
  unfolding pre_check_command
  pre_check_handled h = ground (arith, echo-handled (Request.args req))

  check_key_handled :
      (o : Option Error)
      → ((check_key black req o).handled ≡ false)
        ↔ ((o ≡ none) × (key_is_black black (Request.args req) ≡ false))
  unfolding check_key
  check_key_handled none = ground arith
  check_key_handled (some e) = ground arith

  verify_command-none :
      verify_command req ≡ none
      → (mem_key (Request.name req) black_list ≡ false)
        × (check_rule (Request.len req) (find (Request.name req) req_rules) ≡ none)
  unfolding verify_command
  verify_command-none h = ground arith

  pub passes→IsAllowed :
      (pre_check_command black req).handled ≡ false → (rule : Rule) × IsAllowed black req rule
  passes→IsAllowed h =
      let (nonempty, remote) = pre_check_handled h in
      let (verified, free) =
        (check_key_handled (verify_command req)).0 (rw (pre_check_remote nonempty remote) at h) in
      let (is_open, checked) = verify_command-none verified in
      let (rule, is_listed) = check_rule-found (Request.len req) _ checked in
      let (enough, most) = (check_rule_iff (Request.len req) rule).0 (rw is_listed at checked) in
      (
        rule,
        record {
          is_listed = is_listed;
          is_open = is_open;
          enough = enough;
          not_too_many = most;
          key_free = (key_is_black_iff black (Request.args req)).0 free;
        },
      )

  IsAllowed→passes :
      (rule : Rule) → IsAllowed black req rule → (pre_check_command black req).handled ≡ false
  IsAllowed→passes rule a =
      let (remote, two) = listed_sound (Request.name req) rule a.is_listed in
      let nonempty : (Request.len req == 0) ≡ false = nonzero two a.enough in
      let checked : check_rule (Request.len req) (some rule) ≡ none =
        (check_rule_iff (Request.len req) rule).1 (a.enough, a.not_too_many) in
      rw (pre_check_remote nonempty remote) (
        (check_key_handled (verify_command req)).1
          (verified nonempty checked, (key_is_black_iff black (Request.args req)).1 a.key_free))
    where
      nonzero : {n m : ℕ} → 2 ≤ m → m ≤ n → (n == 0) ≡ false
      nonzero h k = ground arith

      verified :
          (Request.len req == 0) ≡ false
          → check_rule (Request.len req) (some rule) ≡ none
          → verify_command req ≡ none
      verified h k = unfold verify_command in rw (h, a.is_open, a.is_listed) k

  -- A request goes on behind the checks exactly when its command has a rule and is not on the
  -- black list, its number of words is within the rule, and its first argument is no blacked key.
  pub pre_check_command_passes_iff :
      ((pre_check_command black req).handled ≡ false) ↔ ((rule : Rule) × IsAllowed black req rule)
  pre_check_command_passes_iff = (passes→IsAllowed, λ (rule, a). IsAllowed→passes rule a)

check_key-pass :
    (black : BlackKeys) (req : Request) (o : Option Error)
    → (check_key black req o).handled ≡ false
    → check_key black req o ≡ pass
unfolding check_key
check_key-pass black req none h = ground arith
check_key-pass black req (some e) h = cc

-- A request that goes on carries no reply and no error.
pub pre_check_command-pass :
    (black : BlackKeys) (req : Request)
    → (pre_check_command black req).handled ≡ false
    → pre_check_command black req ≡ pass
pre_check_command-pass black req h =
    let (nonempty, remote) = pre_check_handled black req h in
    let whole = pre_check_remote black req nonempty remote in
    whole ∙ check_key-pass black req (verify_command req) (rw whole at h)

expired-find :
    (now : ℕ) (key : Bytes) (black : BlackKeys) {b : BlackKey}
    → find key (expire_black_lists now black) ≡ some b
    → now ≤ b.deadline
unfolding expire_black_lists find
expired-find now key [] h = cc
expired-find now key ((k, c) ∷ black) {b} h = ground (arith, expired-find now key black {b = b})

kept-find :
    (now : ℕ) (key : Bytes) (black : BlackKeys) {b : BlackKey}
    → find key black ≡ some b
    → now ≤ b.deadline
    → find key (expire_black_lists now black) ≡ some b
unfolding expire_black_lists find
kept-find now key [] h k = cc
kept-find now key ((i, c) ∷ black) {b} h k = ground (arith, kept-find now key black {b = b})

-- After a tick of `ExpireBlackLists` no key whose deadline lies before now is blacked, and a key
-- whose deadline does not is blacked as before.
pub find-expire_black_lists :
    (now : ℕ) (key : Bytes) (black : BlackKeys) (b : BlackKey)
    → (find key (expire_black_lists now black) ≡ some b → now ≤ b.deadline)
      × (find key black ≡ some b
          → now ≤ b.deadline
          → find key (expire_black_lists now black) ≡ some b)
find-expire_black_lists now key black b = (expired-find now key black, kept-find now key black)

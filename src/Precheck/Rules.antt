-- ===== src/Precheck/Rules.antt =====
-- precheck.go: what the tests of `preCheckCommand` say of a rule, a key and a name.
use smartproxy.Common.{
  ℕ, ◌≤◌, ◌≡◌, ◌↔◌, refl, Bool, true, false, not, ◌&&◌, ◌||◌, List, [], ◌∷◌, Option, none, some,
  Bytes, codes, leb, arith, all, bytes_eq, find, find-all,
}
use smartproxy.Precheck.Tables.{Rule, req_rules}
use smartproxy.Precheck.{BlackKeys, above, check_rule, echo, key_is_black}

abbrev pub AtMost : ℕ → Option ℕ → Type 0
AtMost n none = Unit
AtMost n (some most) = n ≤ most

abbrev pub KeyIsFree : BlackKeys → List Bytes → Type 0
KeyIsFree black [] = Unit
KeyIsFree black (key ∷ args) = find key black ≡ none

above_iff : (n : ℕ) (most : Option ℕ) → (above n most ≡ false) ↔ AtMost n most
unfolding above
above_iff n none = (λ h. tt, λ h. refl)
above_iff n (some m) = ground arith

pub check_rule_iff :
    (n : ℕ) (rule : Rule)
    → (check_rule n (some rule) ≡ none) ↔ ((rule.min_count ≤ n) × AtMost n rule.max_count)
unfolding check_rule
check_rule_iff n rule = (
  λ h. (ground arith, (above_iff n rule.max_count).0 (ground arith)),
  λ (least, most). rw ((above_iff n rule.max_count).1 most) (ground arith),
)

pub check_rule-found :
    (n : ℕ) (o : Option Rule) → check_rule n o ≡ none → (rule : Rule) × (o ≡ some rule)
unfolding check_rule
check_rule-found n none h = cc
check_rule-found n (some rule) h = (rule, refl)

pub key_is_black_iff :
    (black : BlackKeys) (args : List Bytes)
    → (key_is_black black args ≡ false) ↔ KeyIsFree black args
unfolding key_is_black
key_is_black_iff black [] = (λ h. tt, λ h. refl)
key_is_black_iff black (key ∷ args) = ground arith

-- The commands that `preCheckCommand` answers by itself.
abbrev pub is_local : Bytes → Bool
is_local cmd =
    bytes_eq cmd (codes "PING")
    || bytes_eq cmd (codes "QUIT")
    || bytes_eq cmd (codes "SELECT")
    || bytes_eq cmd (codes "AUTH")
    || bytes_eq cmd (codes "ECHO")

abbrev sound_entry : Bytes → Rule → Bool
sound_entry cmd rule = not (is_local cmd) && leb 2 rule.min_count

rules_sound : all (λ e. sound_entry e.0 e.1) req_rules ≡ true
unfolding req_rules bytes_eq
rules_sound = refl

pub listed_sound :
    (cmd : Bytes) (rule : Rule)
    → find cmd req_rules ≡ some rule
    → (is_local cmd ≡ false) × (2 ≤ rule.min_count)
listed_sound cmd rule h =
    let entry = find-all sound_entry cmd req_rules rules_sound h in ground arith

pub echo-handled : (args : List Bytes) → (echo args).handled ≡ true
unfolding echo
echo-handled [] = refl
echo-handled (word ∷ []) = refl
echo-handled (word ∷ w ∷ args) = refl

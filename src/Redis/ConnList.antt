-- ===== src/Redis/ConnList.antt =====
-- redis/pool.go: what the goroutines that use a pool share, and `connList`, the list of its connections.
use smartproxy.Common.{
  ℕ, zero, suc, Bool, true, List, [], ◌∷◌, ◌++◌, Option, none, some, ◌==◌, if◌then◌else◌,
}
use smartproxy.Common.Int.{ℤ, pos, negsuc}

-- What the goroutines share. A connection is the number of its dialling; `next` is the next one.
-- `cns` is `none` for the nil slice, `free` is the channel, and `crashed` says that `Remove` or
-- `Replace` panicked.
pub record Shared : Type 0 where
  pub cns : Option (List ℕ)
  pub len : ℤ
  pub free : List ℕ
  pub closed : Bool
  pub next : ℕ
  pub crashed : Bool

unfoldable pub incr : ℤ → ℤ
incr (pos n) = pos (suc n)
incr (negsuc zero) = pos 0
incr (negsuc (suc n)) = negsuc n

unfoldable pub decr : ℤ → ℤ
decr (pos zero) = negsuc 0
decr (pos (suc n)) = pos n
decr (negsuc n) = negsuc (suc n)

unfoldable pub cons_to : ℕ → Option (List ℕ) → Option (List ℕ)
cons_to c none = none
cons_to c (some l) = some (c ∷ l)

-- `append(l.cns[:i], l.cns[i+1:]...)` for the first `i` with the connection.
unfoldable pub without : ℕ → List ℕ → Option (List ℕ)
unfolding cons_to
without cn [] = none
without cn (c ∷ l) = let rest = cons_to c (without cn l) in if c == cn then some l else rest

-- `l.cns[i] = newcn` for the first `i` with the connection.
unfoldable pub with_new : ℕ → ℕ → List ℕ → Option (List ℕ)
unfolding cons_to
with_new cn newcn [] = none
with_new cn newcn (c ∷ l) =
    let rest = cons_to c (with_new cn newcn l) in if c == cn then some (newcn ∷ l) else rest

unfoldable pub crash : Shared → Shared
crash s = record s { crashed = true }

unfoldable pub removed_as : Option (List ℕ) → Shared → Shared
unfolding crash decr
removed_as none s = crash s
removed_as (some l) s = record s { cns = some l; len = decr s.len }

-- `connList.Remove` of a connection
unfoldable pub remove_from : Option (List ℕ) → ℕ → Shared → Shared
unfolding removed_as without
remove_from none cn s = s
remove_from (some l) cn s = removed_as (without cn l) s

unfoldable pub replaced_as : Option (List ℕ) → Shared → Shared
unfolding crash
replaced_as none s = crash s
replaced_as (some l) s = record s { cns = some l }

-- `connList.Replace`
unfoldable pub replace_in : Option (List ℕ) → ℕ → ℕ → Shared → Shared
unfolding replaced_as with_new
replace_in none cn newcn s = s
replace_in (some l) cn newcn s = replaced_as (with_new cn newcn l) s

-- `connList.Add`
unfoldable pub add_to : Option (List ℕ) → ℕ → List ℕ
add_to none cn = cn ∷ []
add_to (some l) cn = l ++ cn ∷ []

-- ===== src/Redis/ConnPool/Invariant.antt =====
-- redis/pool.go: what the goroutines hold, and the invariant of the pool while it is open.
use smartproxy.Common.{ℕ, ◌+◌, ◌≤◌, ◌≡◌, false, List, Option, none, some, length}
use smartproxy.Common.Int.{pos}
use smartproxy.Redis.ConnPool.Counts.{count, one_if}
use smartproxy.Redis.ConnList.{Shared}
use smartproxy.Redis.ConnPool.{
  Phase, in_close, Back, to_wait, dropping, over_reserved, dialing, dial_failed, adding, waiting,
  holding, putting, removing, removal_failed, replacing, pushing, closing, closing_list,
}

-- The connection of the list that a goroutine has in its hands.
unfoldable pub in_hand : Phase → Option ℕ
in_hand (dropping l cn) = some cn
in_hand (holding cn) = some cn
in_hand (putting cn) = some cn
in_hand (removing b cn) = some cn
in_hand (removal_failed b cn) = some cn
in_hand (replacing b cn newcn) = some cn
in_hand (pushing b cn) = some cn
in_hand _ = none

-- The connection it has dialled and not yet added.
unfoldable pub dialled : Phase → Option ℕ
dialled (adding cn) = some cn
dialled (replacing b cn newcn) = some newcn
dialled _ = none

abbrev pub is_it : ℕ → Option ℕ → ℕ
is_it c none = 0
is_it c (some x) = one_if c x

abbrev pub any : Option ℕ → ℕ
any none = 0
any (some x) = 1

-- A place of the list that it has reserved, and one that `Reserve` is to give back.
unfoldable pub place : Phase → ℕ
place dialing = 1
place dial_failed = 1
place (adding cn) = 1
place _ = 0

unfoldable pub excess : Phase → ℕ
excess over_reserved = 1
excess _ = 0

unfoldable pub closes_after : Back → ℕ
closes_after (to_wait (in_close i)) = 1
closes_after _ = 0

-- It is in `Close`, past the test.
unfoldable pub closes : Phase → ℕ
unfolding closes_after
closes (waiting (in_close i)) = 1
closes (removing b cn) = closes_after b
closes (removal_failed b cn) = closes_after b
closes (replacing b cn newcn) = closes_after b
closes (pushing b cn) = closes_after b
closes (closing i) = 1
closes closing_list = 1
closes _ = 0

-- The size of the pool and the sums over the goroutines.
module _ (size : ℕ) (total : (Phase → ℕ) → ℕ) where
  -- No connection is in two places: each one of the list is in the channel or in one goroutine's hands,
  -- once. The counter counts the list and the places reserved, and these are at most the size.
  pub record Inv (s : Shared) : Type 0 where
    pub list : List ℕ
    pub opened : s.cns ≡ some list
    pub owned : (c : ℕ) → count c s.free + total (λ p. is_it c (in_hand p)) ≡ count c list
    pub single : (c : ℕ) → count c list + total (λ p. is_it c (dialled p)) ≤ 1
    pub unborn : (c : ℕ) → s.next ≤ c → count c list + total (λ p. is_it c (dialled p)) ≡ 0
    pub counted : s.len ≡ pos (length list + total place + total excess)
    pub within : length list + total place ≤ size
    pub held : length s.free + total (λ p. any (in_hand p)) ≡ length list
    pub no_closer : total closes ≡ 0
    pub safe : s.crashed ≡ false

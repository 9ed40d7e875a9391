-- ===== src/Redis/ConnPool/Moves.antt =====
-- redis/pool.go: what each access of a goroutine does to the invariant of the pool.
use smartproxy.Common.{
  ℕ, suc, ◌+◌, ◌≡◌, List, [], ◌∷◌, ◌++◌, none, some, length, arith, ap, ◌∙◌, length-append,
}
use smartproxy.Common.Int.{pos}
use smartproxy.Redis.ConnPool.Counts.{count, count-append}
use smartproxy.Redis.ConnPool.Invariant.{Inv, in_hand, dialled, is_it, any, place, excess, closes}
use smartproxy.Redis.ConnList.{Shared}
use smartproxy.Redis.ConnPool.{Phase}

-- The sums with the goroutine at `p`; the others give `rest`.
abbrev pub with_at : ((Phase → ℕ) → ℕ) → Phase → (Phase → ℕ) → ℕ
with_at rest p f = rest f + f p

module _ (size : ℕ) (rest : (Phase → ℕ) → ℕ) where
  -- What the goroutine holds is all that the invariant sees of it.
  pub same-Inv :
      (p q : Phase) (s : Shared)
      → in_hand p ≡ in_hand q
      → dialled p ≡ dialled q
      → place p ≡ place q
      → excess p ≡ excess q
      → closes p ≡ closes q
      → Inv size (with_at rest p) s
      → Inv size (with_at rest q) s
  same-Inv p q s h d r x cl v = record {
    list = v.list;
    opened = v.opened;
    owned = λ c. omega (arith, v.owned c, ap (is_it c) h);
    single = λ c. omega (arith, v.single c, ap (is_it c) d);
    unborn = λ c low. omega (arith, v.unborn c low, ap (is_it c) d);
    counted = v.counted ∙ ap pos (omega arith);
    within = omega (arith, v.within);
    held = omega (arith, v.held, ap any h);
    no_closer = omega (arith, v.no_closer);
    safe = v.safe;
  }

  -- A connection is received from the channel.
  pub take-Inv :
      (p q : Phase) (cn : ℕ) (free : List ℕ) (s : Shared)
      → s.free ≡ cn ∷ free
      → in_hand p ≡ none
      → in_hand q ≡ some cn
      → dialled p ≡ dialled q
      → place p ≡ place q
      → excess p ≡ excess q
      → closes p ≡ closes q
      → Inv size (with_at rest p) s
      → Inv size (with_at rest q) (record s { free = free })
  unfolding count
  take-Inv p q cn free s fr h h' d r x cl v = record {
    list = v.list;
    opened = v.opened;
    owned = λ c. omega (arith, v.owned c, ap (is_it c) h, ap (is_it c) h', ap (count c) fr);
    single = λ c. omega (arith, v.single c, ap (is_it c) d);
    unborn = λ c low. omega (arith, v.unborn c low, ap (is_it c) d);
    counted = v.counted ∙ ap pos (omega arith);
    within = omega (arith, v.within);
    held = omega (arith, v.held, ap any h, ap any h', ap length fr);
    no_closer = omega (arith, v.no_closer);
    safe = v.safe;
  }

  -- A connection is sent to the channel.
  pub give-Inv :
      (p q : Phase) (cn : ℕ) (s : Shared)
      → in_hand p ≡ some cn
      → in_hand q ≡ none
      → dialled p ≡ dialled q
      → place p ≡ place q
      → excess p ≡ excess q
      → closes p ≡ closes q
      → Inv size (with_at rest p) s
      → Inv size (with_at rest q) (record s { free = s.free ++ cn ∷ [] })
  give-Inv p q cn s h h' d r x cl v = record {
    list = v.list;
    opened = v.opened;
    owned =
        λ c. omega (arith, v.owned c, ap (is_it c) h, ap (is_it c) h', count-append c s.free cn);
    single = λ c. omega (arith, v.single c, ap (is_it c) d);
    unborn = λ c low. omega (arith, v.unborn c low, ap (is_it c) d);
    counted = v.counted ∙ ap pos (omega arith);
    within = omega (arith, v.within);
    held = omega (arith, v.held, ap any h, ap any h', length-append s.free (cn ∷ []));
    no_closer = omega (arith, v.no_closer);
    safe = v.safe;
  }

  -- A connection is dialled.
  pub dial-Inv :
      (p q : Phase) (s : Shared)
      → in_hand p ≡ in_hand q
      → dialled p ≡ none
      → dialled q ≡ some s.next
      → place p ≡ place q
      → excess p ≡ excess q
      → closes p ≡ closes q
      → Inv size (with_at rest p) s
      → Inv size (with_at rest q) (record s { next = suc s.next })
  dial-Inv p q s h d d' r x cl v = record {
    list = v.list;
    opened = v.opened;
    owned = λ c. omega (arith, v.owned c, ap (is_it c) h);
    single = λ c. ground (arith, v.single c, v.unborn c, ap (is_it c) d, ap (is_it c) d');
    unborn = λ c low. ground (arith, v.unborn c, ap (is_it c) d, ap (is_it c) d');
    counted = v.counted ∙ ap pos (omega arith);
    within = omega (arith, v.within);
    held = omega (arith, v.held, ap any h);
    no_closer = omega (arith, v.no_closer);
    safe = v.safe;
  }

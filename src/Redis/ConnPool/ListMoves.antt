-- ===== src/Redis/ConnPool/ListMoves.antt =====
-- redis/pool.go: what each access of a goroutine to the list does to the invariant of the pool.
use smartproxy.Common.{
  ℕ, suc, ◌+◌, ◌≤◌, ◌≡◌, refl, [], ◌∷◌, ◌++◌, none, some, length, arith, ap, ◌∙◌, length-append,
  ◌⊎◌,
}
use smartproxy.Common.Int.{pos}
use smartproxy.Redis.ConnPool.Counts.{
  count, count-append, one_if_self, without-count, with_new-count,
}
use smartproxy.Redis.ConnPool.Invariant.{Inv, in_hand, dialled, is_it, any, place, excess, closes}
use smartproxy.Redis.ConnList.{
  Shared, remove_from, removed_as, replace_in, replaced_as, add_to, decr, incr,
}
use smartproxy.Redis.ConnPool.Moves.{with_at}
use smartproxy.Redis.ConnPool.{Phase}

module _ (size : ℕ) (rest : (Phase → ℕ) → ℕ) where
  -- A connection that the goroutine has is in the list.
  in_list :
      (p : Phase) (cn : ℕ) (s : Shared) (v : Inv size (with_at rest p) s)
      → in_hand p ≡ some cn
      → 1 ≤ count cn v.list
  in_list p cn s v h = omega (arith, v.owned cn, ap (is_it cn) h, one_if_self cn)

  -- It is closed and removed from the list.
  pub remove-Inv :
      (p q : Phase) (cn : ℕ) (s : Shared)
      → in_hand p ≡ some cn
      → in_hand q ≡ none
      → dialled p ≡ dialled q
      → place p ≡ place q
      → excess p ≡ excess q
      → closes p ≡ closes q
      → Inv size (with_at rest p) s
      → Inv size (with_at rest q) (remove_from s.cns cn s)
  unfolding remove_from removed_as decr
  remove-Inv p q cn s h h' d r x cl v =
      let (l, e, counts, len) = without-count cn v.list (in_list p cn s v h) in
      rw (v.opened, remove_from, e, removed_as)
        record {
          list = l;
          opened = refl;
          owned = λ c. omega (arith, v.owned c, counts c, ap (is_it c) h, ap (is_it c) h');
          single = λ c. omega (arith, v.single c, counts c, ap (is_it c) d);
          unborn = λ c low. omega (arith, v.unborn c low, counts c, ap (is_it c) d);
          counted = ap decr (
              v.counted
              ∙ ap pos {y = suc (length l + with_at rest q place + with_at rest q excess)}
                  (omega (arith, len, r, x)));
          within = omega (arith, v.within);
          held = omega (arith, v.held, ap any h, ap any h');
          no_closer = omega (arith, v.no_closer);
          safe = v.safe;
        }

  -- It is closed and the one dialled stands in its place.
  pub replace-Inv :
      (p q : Phase) (cn newcn : ℕ) (s : Shared)
      → in_hand p ≡ some cn
      → in_hand q ≡ some newcn
      → dialled p ≡ some newcn
      → dialled q ≡ none
      → place p ≡ place q
      → excess p ≡ excess q
      → closes p ≡ closes q
      → Inv size (with_at rest p) s
      → Inv size (with_at rest q) (replace_in s.cns cn newcn s)
  unfolding replace_in replaced_as
  replace-Inv p q cn newcn s h h' d d' r x cl v =
      let (l, e, counts, len) = with_new-count cn newcn v.list (in_list p cn s v h) in
      rw (v.opened, replace_in, e, replaced_as)
        record {
          list = l;
          opened = refl;
          owned = λ c. omega (arith, v.owned c, counts c, ap (is_it c) h, ap (is_it c) h');
          single = λ c. omega (arith, v.single c, counts c, ap (is_it c) d, ap (is_it c) d');
          unborn =
              λ c low. omega (arith, v.unborn c low, counts c, ap (is_it c) d, ap (is_it c) d');
          counted = v.counted ∙ ap pos (omega (arith, len));
          within = omega (arith, v.within);
          held = omega (arith, v.held, ap any h, ap any h');
          no_closer = omega (arith, v.no_closer);
          safe = v.safe;
        }

  -- The one dialled takes the place that was reserved for it.
  pub add-Inv :
      (p q : Phase) (cn : ℕ) (s : Shared)
      → in_hand p ≡ none
      → in_hand q ≡ some cn
      → dialled p ≡ some cn
      → dialled q ≡ none
      → place p ≡ suc (place q)
      → excess p ≡ excess q
      → closes p ≡ closes q
      → Inv size (with_at rest p) s
      → Inv size (with_at rest q) (record s { cns = some (add_to s.cns cn) })
  unfolding add_to
  add-Inv p q cn s h h' d d' r x cl v =
      rw (v.opened, add_to)
        record {
          list = v.list ++ cn ∷ [];
          opened = refl;
          owned = λ c.
              omega (arith, v.owned c, count-append c v.list cn, ap (is_it c) h, ap (is_it c) h');
          single = λ c.
              omega (arith, v.single c, count-append c v.list cn, ap (is_it c) d, ap (is_it c) d');
          unborn = λ c low.
              omega
                (arith, v.unborn c low, count-append c v.list cn, ap (is_it c) d, ap (is_it c) d');
          counted = v.counted ∙ ap pos (omega (arith, length-append v.list (cn ∷ [])));
          within = omega (arith, v.within, length-append v.list (cn ∷ []));
          held = omega (arith, v.held, ap any h, ap any h', length-append v.list (cn ∷ []));
          no_closer = omega (arith, v.no_closer);
          safe = v.safe;
        }

  -- The counter is raised, for a place if there is one.
  pub raise-Inv :
      (p q : Phase) (s : Shared)
      → in_hand p ≡ in_hand q
      → dialled p ≡ dialled q
      → suc (place p + excess p) ≡ place q + excess q
      → closes p ≡ closes q
      → ((n : ℕ) → s.len ≡ pos n → place q ≤ place p ⊎ (suc n ≤ size))
      → place q ≤ suc (place p)
      → Inv size (with_at rest p) s
      → Inv size (with_at rest q) (record s { len = incr s.len })
  unfolding incr
  raise-Inv p q s h d n cl room up v = record {
    list = v.list;
    opened = v.opened;
    owned = λ c. omega (arith, v.owned c, ap (is_it c) h);
    single = λ c. omega (arith, v.single c, ap (is_it c) d);
    unborn = λ c low. omega (arith, v.unborn c low, ap (is_it c) d);
    counted = ap incr v.counted ∙ ap pos (omega (arith, n));
    within = ground (arith, v.within, room _ v.counted);
    held = omega (arith, v.held, ap any h);
    no_closer = omega (arith, v.no_closer);
    safe = v.safe;
  }

  -- It is lowered, by a goroutine that had raised it.
  pub lower-Inv :
      (p q : Phase) (s : Shared)
      → in_hand p ≡ in_hand q
      → dialled p ≡ dialled q
      → place p + excess p ≡ suc (place q + excess q)
      → place q ≤ place p
      → closes p ≡ closes q
      → Inv size (with_at rest p) s
      → Inv size (with_at rest q) (record s { len = decr s.len })
  unfolding decr
  lower-Inv p q s h d n less cl v = record {
    list = v.list;
    opened = v.opened;
    owned = λ c. omega (arith, v.owned c, ap (is_it c) h);
    single = λ c. omega (arith, v.single c, ap (is_it c) d);
    unborn = λ c low. omega (arith, v.unborn c low, ap (is_it c) d);
    counted = ap decr (
        v.counted
        ∙ ap pos {y = suc (length v.list + with_at rest q place + with_at rest q excess)}
            (omega (arith, n)));
    within = omega (arith, v.within, less);
    held = omega (arith, v.held, ap any h);
    no_closer = omega (arith, v.no_closer);
    safe = v.safe;
  }

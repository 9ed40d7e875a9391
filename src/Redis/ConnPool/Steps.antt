-- ===== src/Redis/ConnPool/Steps.antt =====
-- redis/pool.go: one move of a goroutine keeps the invariant of the pool.
use smartproxy.Common.{
  ℕ, suc, ◌≡◌, refl, true, false, List, [], ◌∷◌, ◌++◌, none, some, length, arith, ap, sym, ◌∙◌, ltb,
  inl, inr, if_cases, if_split,
}
use smartproxy.Common.Int.{pos, ltb_ℤ}
use smartproxy.Redis.ConnPool.Invariant.{Inv, in_hand, dialled, place, excess, closes, closes_after}
use smartproxy.Redis.ConnPool.Moves.{with_at, same-Inv, take-Inv, give-Inv, dial-Inv}
use smartproxy.Redis.ConnPool.ListMoves.{remove-Inv, replace-Inv, add-Inv, raise-Inv, lower-Inv}
use smartproxy.Redis.ConnList.{Shared, incr}
use smartproxy.Redis.ConnPool.{
  Phase, Looker, Back, Op, Choice, away, starting, looking, dropping, reserving, over_reserved,
  dialing, dial_failed, adding, waiting, holding, putting, removing, removal_failed, replacing,
  pushing, closing, closing_list, for_get, for_reaper, in_get, in_close, to_user, to_wait, op_get,
  op_put, op_remove, op_close, op_reap, start, look, found, none_found, receive, taken, timed_out,
  return, hand_back, push, reserve, move,
}

module _ (size : ℕ) (rest : (Phase → ℕ) → ℕ) where
  -- A move leads from `p` and `s` to a phase and a state of the invariant.
  abbrev pub Keeps : Phase × Shared → Type 0
  Keeps (q, s) = Inv size (with_at rest q) s

  start-Inv :
      (op : Op) (s : Shared) → (start op s).1.closed ≡ false → Keeps (away, s) → Keeps (start op s)
  unfolding start in_hand dialled place excess closes
  start-Inv op_get s o v = same-Inv size rest away starting s refl refl refl refl refl v
  start-Inv op_put s o v = v
  start-Inv op_remove s o v = v
  start-Inv op_close s o v =
      if_cases (λ r. r.1.closed ≡ false → Keeps r) s.closed (away, s)
        (closing 0, record s { closed = true }) (λ _ _. v) (λ _ o. absurd (ground arith)) o
  start-Inv op_reap s o v =
      if_split (λ q. Keeps (q, s)) s.closed away (looking for_reaper) v
        (same-Inv size rest away (looking for_reaper) s refl refl refl refl refl v)

  hand_back-Inv :
      (ch : Choice) (op : Op) (cn : ℕ) (s : Shared)
      → Keeps (holding cn, s)
      → Keeps (hand_back ch op cn, s)
  unfolding hand_back in_hand dialled place excess closes closes_after
  hand_back-Inv ch op_get cn s v = v
  hand_back-Inv ch op_close cn s v = v
  hand_back-Inv ch op_reap cn s v = v
  hand_back-Inv ch op_remove cn s v =
      same-Inv size rest (holding cn) (removing to_user cn) s refl refl refl refl refl v
  hand_back-Inv ch op_put cn s v =
      if_split (λ q. Keeps (q, s)) ch.is_unread (removing to_user cn) (putting cn)
        (same-Inv size rest (holding cn) (removing to_user cn) s refl refl refl refl refl v)
        (same-Inv size rest (holding cn) (putting cn) s refl refl refl refl refl v)

  found-Inv :
      (ch : Choice) (l : Looker) (cn : ℕ) (s : Shared)
      → Keeps (holding cn, s)
      → Keeps (found ch l cn, s)
  unfolding found
  found-Inv ch for_get cn s v = v
  found-Inv ch for_reaper cn s v = hand_back-Inv ch op_put cn s v

  look-Inv :
      (ch : Choice) (l : Looker) (free : List ℕ) (s : Shared)
      → s.free ≡ free
      → Keeps (looking l, s)
      → Keeps (look ch l free s)
  unfolding look none_found in_hand dialled place excess closes
  look-Inv ch for_get [] s e v =
      same-Inv size rest (looking for_get) reserving s refl refl refl refl refl v
  look-Inv ch for_reaper [] s e v =
      same-Inv size rest (looking for_reaper) away s refl refl refl refl refl v
  look-Inv ch l (cn ∷ free) s e v =
      if_split (λ q. Keeps (q, record s { free = free })) ch.is_idle (dropping l cn) (found ch l cn)
        (take-Inv size rest (looking l) (dropping l cn) cn free s e refl refl refl refl refl refl v)
        (found-Inv ch l cn _
          (take-Inv size rest (looking l) (holding cn) cn free s e refl refl refl refl refl refl v))

  receive-Inv :
      (ch : Choice) (free : List ℕ) (s : Shared)
      → s.free ≡ free
      → Keeps (waiting in_get, s)
      → Keeps (receive ch in_get free s)
  unfolding receive taken in_hand dialled place excess closes closes_after
  receive-Inv ch [] s e v = v
  receive-Inv ch (cn ∷ free) s e v =
      if_split (λ q. Keeps (q, record s { free = free })) ch.is_idle (removing (to_wait in_get) cn)
        (holding cn)
        (take-Inv size rest (waiting in_get) (removing (to_wait in_get) cn) cn free s e refl refl
          refl refl refl refl v)
        (take-Inv size rest (waiting in_get) (holding cn) cn free s e refl refl refl refl refl refl
          v)

  reserve-Inv : (s : Shared) → Keeps (reserving, s) → Keeps (reserve size s)
  unfolding reserve incr in_hand dialled place excess closes
  reserve-Inv s v =
      if_cases (λ q. Keeps (q, record s { len = incr s.len })) (ltb_ℤ (pos size) (incr s.len))
        over_reserved dialing
        (λ _.
          raise-Inv size rest reserving over_reserved s refl refl refl refl
            (λ n e. inl (omega arith)) (omega arith) v)
        (λ low.
          raise-Inv size rest reserving dialing s refl refl refl refl
            (λ n e. inr (ground (arith, ap (λ z. ltb_ℤ (pos size) (incr z)) (sym e) ∙ low)))
            (omega arith) v)

  push-Inv :
      (p q : Phase) (cn : ℕ) (s : Shared)
      → in_hand p ≡ some cn
      → in_hand q ≡ none
      → dialled p ≡ dialled q
      → place p ≡ place q
      → excess p ≡ excess q
      → closes p ≡ closes q
      → Keeps (p, s)
      → Keeps (push size p q cn s)
  unfolding push
  push-Inv p q cn s h h' d r x cl v =
      if_split Keeps (ltb (length s.free) size) (q, record s { free = s.free ++ cn ∷ [] }) (p, s)
        (give-Inv size rest p q cn s h h' d r x cl v) v

  return-Inv :
      (b : Back)
      → (in_hand (return b) ≡ none)
        × (dialled (return b) ≡ none)
        × (place (return b) ≡ 0)
        × (excess (return b) ≡ 0)
        × (closes (return b) ≡ closes_after b)
  unfolding return in_hand dialled place excess closes closes_after
  return-Inv to_user = (refl, refl, refl, refl, refl)
  return-Inv (to_wait in_get) = (refl, refl, refl, refl, refl)
  return-Inv (to_wait (in_close i)) = (refl, refl, refl, refl, refl)

  pub move-Inv :
      (ch : Choice) (p : Phase) (s : Shared)
      → (move size ch p s).1.closed ≡ false
      → Keeps (p, s)
      → Keeps (move size ch p s)
  unfolding move in_hand dialled place excess closes closes_after timed_out
  move-Inv ch away s o v = start-Inv ch.op s o v
  move-Inv ch starting s o v =
      if_split (λ q. Keeps (q, s)) s.closed away (looking for_get)
        (same-Inv size rest starting away s refl refl refl refl refl v)
        (same-Inv size rest starting (looking for_get) s refl refl refl refl refl v)
  move-Inv ch (looking l) s o v = look-Inv ch l s.free s refl v
  move-Inv ch (dropping l cn) s o v =
      remove-Inv size rest (dropping l cn) (looking l) cn s refl refl refl refl refl refl v
  move-Inv ch reserving s o v = reserve-Inv s v
  move-Inv ch over_reserved s o v =
      lower-Inv size rest over_reserved (waiting in_get) s refl refl refl (omega arith) refl v
  move-Inv ch dialing s o v =
      if_split Keeps ch.dials (adding s.next, record s { next = suc s.next }) (dial_failed, s)
        (dial-Inv size rest dialing (adding s.next) s refl refl refl refl refl refl v)
        (same-Inv size rest dialing dial_failed s refl refl refl refl refl v)
  move-Inv ch dial_failed s o v =
      lower-Inv size rest dial_failed away s refl refl refl (omega arith) refl v
  move-Inv ch (adding cn) s o v =
      add-Inv size rest (adding cn) (holding cn) cn s refl refl refl refl refl refl refl v
  move-Inv ch (waiting in_get) s o v =
      if_split Keeps ch.is_timeout (away, s) (receive ch in_get s.free s)
        (same-Inv size rest (waiting in_get) away s refl refl refl refl refl v)
        (receive-Inv ch s.free s refl v)
  move-Inv ch (waiting (in_close i)) s o v = absurd (omega (arith, v.no_closer))
  move-Inv ch (holding cn) s o v = hand_back-Inv ch ch.op cn s v
  move-Inv ch (putting cn) s o v = push-Inv (putting cn) away cn s refl refl refl refl refl refl v
  move-Inv ch (removing b cn) s o v =
      if_split Keeps ch.dials (replacing b cn s.next, record s { next = suc s.next })
        (removal_failed b cn, s)
        (dial-Inv size rest (removing b cn) (replacing b cn s.next) s refl refl refl refl refl refl
          v)
        (same-Inv size rest (removing b cn) (removal_failed b cn) s refl refl refl refl refl v)
  move-Inv ch (removal_failed b cn) s o v =
      let (h, d, r, x, cl) = return-Inv b in
      remove-Inv size rest (removal_failed b cn) (return b) cn s refl h (sym d) (sym r) (sym x)
        (sym cl) v
  move-Inv ch (replacing b cn newcn) s o v =
      replace-Inv size rest (replacing b cn newcn) (pushing b newcn) cn newcn s refl refl refl refl
        refl refl refl v
  move-Inv ch (pushing b cn) s o v =
      let (h, d, r, x, cl) = return-Inv b in
      push-Inv (pushing b cn) (return b) cn s refl h (sym d) (sym r) (sym x) (sym cl) v
  move-Inv ch (closing i) s o v = absurd (omega (arith, v.no_closer))
  move-Inv ch closing_list s o v = absurd (omega (arith, v.no_closer))

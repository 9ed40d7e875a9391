-- ===== src/Redis/Topology/Addresses.antt =====
-- redis/cluster.go: the addresses that the client knows after `setSlots`.
use smartproxy.Common.{
  ℕ, ◌+◌, ◌-◌, ◌≡◌, refl, sym, ◌∙◌, ap, Bool, true, false, not, ◌&&◌, ◌||◌, List, [], ◌∷◌, ◌++◌,
  append_assoc, append-nil, Option, none, some, Bytes, arith, bytes_eq_iff, mem_key, Bool-cases,
  Option-cases, inl, inr,
}
use smartproxy.Redis.Command.{SlotInfo}
use smartproxy.Redis.Topology.{Cluster, set_range, add_addrs, set_ranges, with_table, set_slots}

-- No address stands twice.
pub no_repeat : List Bytes → Bool
unfolding mem_key
no_repeat [] = true
no_repeat (a ∷ list) = not (mem_key a list) && no_repeat list

-- A node reports the address for some range.
pub is_reported : Bytes → List SlotInfo → Bool
unfolding mem_key
is_reported k [] = false
is_reported k (info ∷ infos) = mem_key k info.addrs || is_reported k infos

mem_key-append :
    (k : Bytes) (xs ys : List Bytes) → mem_key k (xs ++ ys) ≡ (mem_key k xs || mem_key k ys)
unfolding mem_key
mem_key-append k [] ys = refl
mem_key-append k (x ∷ xs) ys = ground (arith, mem_key-append k xs ys)

no_repeat-append :
    (xs : List Bytes) (a : Bytes) → no_repeat (xs ++ a ∷ []) ≡ (no_repeat xs && not (mem_key a xs))
unfolding no_repeat mem_key
no_repeat-append [] a = refl
no_repeat-append (x ∷ xs) a =
    ground (
      arith,
      no_repeat-append xs a,
      mem_key-append x xs (a ∷ []),
      bytes_eq_iff x a,
      bytes_eq_iff a x,
    )

-- What a step does to the addresses: it adds behind them, repeats none, and `seen` keeps step.
record Grown (addrs seen addrs' seen' : List Bytes) (now : Bytes → Bool) : Type 0 where
  new : List Bytes
  suffix : addrs' ≡ addrs ++ new
  in_step : (k : Bytes) → mem_key k addrs' ≡ mem_key k seen'
  known : (k : Bytes) → mem_key k addrs' ≡ (mem_key k addrs || now k)
  apart : no_repeat addrs ≡ true → no_repeat addrs' ≡ true

add_addrs-Grown :
    (more addrs seen : List Bytes)
    → ((k : Bytes) → mem_key k addrs ≡ mem_key k seen)
    → Grown addrs seen
        (add_addrs more addrs seen).0
        (add_addrs more addrs seen).1
        (λ k. mem_key k more)
unfolding add_addrs mem_key
add_addrs-Grown [] addrs seen same = record {
  new = [];
  suffix = sym (append-nil addrs);
  in_step = same;
  known = λ k. ground arith;
  apart = λ h. h;
}
add_addrs-Grown (a ∷ more) addrs seen same = elim (Bool-cases (mem_key a seen)) [
  | inl e ↦
      let g = add_addrs-Grown more addrs seen same in
      rw (e, add_addrs)
        (record {
          new = g.new;
          suffix = g.suffix;
          in_step = g.in_step;
          known = λ k. ground (arith, g.known k, same a, bytes_eq_iff a k);
          apart = g.apart;
        })
  | inr e ↦
      let g =
        add_addrs-Grown more (addrs ++ a ∷ []) (a ∷ seen)
          (λ k. ground (arith, mem_key-append k addrs (a ∷ []), same k)) in
      rw (e, add_addrs)
        (record {
          new = a ∷ g.new;
          suffix = g.suffix ∙ append_assoc addrs (a ∷ []) g.new;
          in_step = g.in_step;
          known = λ k. ground (arith, g.known k, mem_key-append k addrs (a ∷ []));
          apart = λ h. g.apart (ground (arith, no_repeat-append addrs a, same a));
        })
]

abbrev known_of : Option (List Bytes × (ℕ → List Bytes)) → List Bytes
known_of none = []
known_of (some (addrs, slots)) = addrs

abbrev kept_by : Option Cluster → List Bytes
kept_by none = []
kept_by (some c) = c.addrs

set_ranges-Grown :
    (infos : List SlotInfo) (addrs seen : List Bytes) (slots : ℕ → List Bytes) (addrs' : List Bytes)
    (slots' : ℕ → List Bytes)
    → ((k : Bytes) → mem_key k addrs ≡ mem_key k seen)
    → set_ranges infos addrs seen slots ≡ some (addrs', slots')
    → (new : List Bytes) × (addrs' ≡ addrs ++ new)
      × ((k : Bytes) → mem_key k addrs' ≡ (mem_key k addrs || is_reported k infos))
      × (no_repeat addrs ≡ true → no_repeat addrs' ≡ true)
unfolding set_ranges is_reported
set_ranges-Grown [] addrs seen slots addrs' slots' same h =
    let e : addrs' ≡ addrs = sym (ap known_of h) in
    ([], e ∙ sym (append-nil addrs), λ k. rw e (ground arith), λ n. rw e n)
set_ranges-Grown (info ∷ infos) addrs seen slots addrs' slots' same h =
    elim (Option-cases (set_range info.addrs info.start (info.last + 1 - info.start) slots)) [
      | inl e ↦ cc (rw (e, set_ranges) at h)
      | inr (next, e) ↦
          let g = add_addrs-Grown info.addrs addrs seen same in
          let (new, suffix, known, apart) =
            set_ranges-Grown infos (add_addrs info.addrs addrs seen).0
              (add_addrs info.addrs addrs seen).1 next addrs' slots' g.in_step
              (rw (e, set_ranges) at h) in
          (
            g.new ++ new,
            suffix ∙ ap (λ l. l ++ new) g.suffix ∙ append_assoc addrs g.new new,
            λ k. ground (arith, known k, g.known k),
            λ n. apart (g.apart n),
          )
    ]

-- After `setSlots` the client knows the addresses it knew before, in their order, and behind them
-- those that were reported, and no others; if none stood there twice, none does now.
pub set_slots-no_repeat :
    (infos : List SlotInfo) (c c' : Cluster)
    → set_slots infos c ≡ some c'
    → (new : List Bytes) × (c'.addrs ≡ c.addrs ++ new)
      × ((k : Bytes) → mem_key k c'.addrs ≡ (mem_key k c.addrs || is_reported k infos))
      × (no_repeat c.addrs ≡ true → no_repeat c'.addrs ≡ true)
unfolding set_slots with_table
set_slots-no_repeat infos c c' h =
    elim (Option-cases (set_ranges infos c.addrs c.addrs (λ slot. []))) [
      | inl e ↦ cc (rw e at h)
      | inr ((addrs, slots), e) ↦
          let stored : c'.addrs ≡ addrs = sym (ap kept_by (rw e at h)) in
          rw stored (set_ranges-Grown infos c.addrs c.addrs (λ slot. []) addrs slots (λ k. refl) e)
    ]

-- ===== src/Redis/Topology/Table.antt =====
-- redis/cluster.go: what `setSlots` makes of the ranges that a node reports.
use smartproxy.Common.{
  ℕ, zero, suc, ◌+◌, ◌-◌, ◌≡◌, refl, sym, ◌∙◌, ap, Bool, true, false, ◌&&◌, ◌||◌, List, [], ◌∷◌,
  Option, none, some, Bytes, ltb, leb, ◌==◌, if◌then◌else◌, arith, all, Bool-cases, Option-cases,
  inl, inr,
}
use smartproxy.Redis.Command.{SlotInfo}
use smartproxy.Redis.Slots.{hash_slots}
use smartproxy.Redis.Topology.{
  Cluster, set_slot, set_range, add_addrs, set_ranges, with_table, set_slots,
}

-- The range is empty or ends inside the table.
unfoldable pub in_table : SlotInfo → Bool
in_table info = ltb info.last info.start || ltb info.last hash_slots

covers : SlotInfo → ℕ → Bool
covers info slot = leb info.start slot && leb slot info.last

-- The last range that covers the slot decides.
pub assigned : List SlotInfo → ℕ → List Bytes → List Bytes
unfolding covers
assigned [] slot addrs = addrs
assigned (info ∷ infos) slot addrs =
    assigned infos slot (if covers info slot then info.addrs else addrs)

abbrev pub is_some {ℓ} : {A : Type ℓ} → Option A → Bool
is_some none = false
is_some (some a) = true

set_range-is_some :
    (addrs : List Bytes) (slot n : ℕ) (slots : ℕ → List Bytes)
    → is_some (set_range addrs slot n slots) ≡ (n == 0 || leb (slot + n) hash_slots)
unfolding set_range set_slot
set_range-is_some addrs slot zero slots = refl
set_range-is_some addrs slot (suc n) slots = elim (Bool-cases (ltb slot hash_slots)) [
  | inl e ↦
      let next : ℕ → List Bytes = λ i. if i == slot then addrs else slots i in
      rw (e, set_range) (set_range-is_some addrs (slot + 1) n next ∙ ground arith)
  | inr e ↦ rw (e, set_range) (ground arith)
]

abbrev entry : Option (ℕ → List Bytes) → ℕ → List Bytes
entry none i = []
entry (some slots) i = slots i

set_range-at :
    (addrs : List Bytes) (slot n : ℕ) (slots slots' : ℕ → List Bytes) (i : ℕ)
    → set_range addrs slot n slots ≡ some slots'
    → slots' i ≡ (if leb slot i && ltb i (slot + n) then addrs else slots i)
unfolding set_range set_slot
set_range-at addrs slot zero slots slots' i h =
    let same : slots' i ≡ slots i = sym (ap (λ o. entry o i) h) in same ∙ ground arith
set_range-at addrs slot (suc n) slots slots' i h = elim (Bool-cases (ltb slot hash_slots)) [
  | inl e ↦
      let next : ℕ → List Bytes = λ j. if j == slot then addrs else slots j in
      set_range-at addrs (slot + 1) n next slots' i (rw (e, set_range) at h) ∙ ground arith
  | inr e ↦ cc (rw (e, set_range) at h)
]

range-in_table :
    (info : SlotInfo) (slots : ℕ → List Bytes)
    → is_some (set_range info.addrs info.start (info.last + 1 - info.start) slots) ≡ in_table info
unfolding in_table
range-in_table info slots =
    set_range-is_some info.addrs info.start (info.last + 1 - info.start) slots ∙ ground arith

-- Exactly the ranges inside the table are stored without a panic.
set_ranges-is_some :
    (infos : List SlotInfo) (addrs seen : List Bytes) (slots : ℕ → List Bytes)
    → is_some (set_ranges infos addrs seen slots) ≡ all in_table infos
unfolding set_ranges
set_ranges-is_some [] addrs seen slots = refl
set_ranges-is_some (info ∷ infos) addrs seen slots =
    elim (Option-cases (set_range info.addrs info.start (info.last + 1 - info.start) slots)) [
      | inl e ↦
          let out : in_table info ≡ false = sym (range-in_table info slots) ∙ ap is_some e in
          rw (e, out, set_ranges) refl
      | inr (slots', e) ↦
          let fits : in_table info ≡ true = sym (range-in_table info slots) ∙ ap is_some e in
          rw (e, fits, set_ranges)
            (set_ranges-is_some infos (add_addrs info.addrs addrs seen).0
              (add_addrs info.addrs addrs seen).1 slots')
    ]

abbrev second_entry : Option (List Bytes × (ℕ → List Bytes)) → ℕ → List Bytes
second_entry none i = []
second_entry (some (addrs, slots)) i = slots i

set_ranges-assigned :
    (infos : List SlotInfo) (addrs seen : List Bytes) (slots : ℕ → List Bytes) (addrs' : List Bytes)
    (slots' : ℕ → List Bytes) (i : ℕ)
    → set_ranges infos addrs seen slots ≡ some (addrs', slots')
    → slots' i ≡ assigned infos i (slots i)
unfolding set_ranges assigned covers
set_ranges-assigned [] addrs seen slots addrs' slots' i h = sym (ap (λ o. second_entry o i) h)
set_ranges-assigned (info ∷ infos) addrs seen slots addrs' slots' i h =
    elim (Option-cases (set_range info.addrs info.start (info.last + 1 - info.start) slots)) [
      | inl e ↦ cc (rw (e, set_ranges) at h)
      | inr (next, e) ↦
          let added = add_addrs info.addrs addrs seen in
          set_ranges-assigned infos added.0 added.1 next addrs' slots' i (rw (e, set_ranges) at h)
          ∙ ap (λ l. assigned infos i l)
              (set_range-at info.addrs info.start (info.last + 1 - info.start) slots next i e
                ∙ ground arith)
    ]

-- `setSlots` panics exactly if a range that is not empty ends behind the last slot.
pub set_slots-in_table :
    (infos : List SlotInfo) (c : Cluster) → is_some (set_slots infos c) ≡ all in_table infos
unfolding set_slots with_table
set_slots-in_table infos c =
    go (set_ranges infos c.addrs c.addrs (λ slot. []))
    ∙ set_ranges-is_some infos c.addrs c.addrs (λ slot. [])
  where
    go : (o : Option (List Bytes × (ℕ → List Bytes))) → is_some (with_table c o) ≡ is_some o
    go none = refl
    go (some t) = refl

-- If the ranges are inside the table, `setSlots` returns and every slot then has the addresses of
-- the last range that covers it, or none; the clients and the flags stay.
pub set_slots-assigned :
    (infos : List SlotInfo) (c : Cluster)
    → all in_table infos ≡ true
    → (c' : Cluster) × (set_slots infos c ≡ some c')
      × ((i : ℕ) → c'.slots i ≡ assigned infos i [])
      × (c'.clients ≡ c.clients)
      × (c'.closed ≡ c.closed)
      × (c'.reloading ≡ c.reloading)
unfolding set_slots with_table
set_slots-assigned infos c fits =
    elim (Option-cases (set_ranges infos c.addrs c.addrs (λ slot. []))) [
      | inl e ↦ cc (set_ranges-is_some infos c.addrs c.addrs (λ slot. []), fits, ap is_some e)
      | inr ((addrs, slots), e) ↦ (
        record c { addrs = addrs; slots = slots },
        rw e refl,
        λ i. set_ranges-assigned infos c.addrs c.addrs (λ slot. []) addrs slots i e,
        refl,
        refl,
        refl,
      )
    ]

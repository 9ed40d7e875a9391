-- ===== src/Redis/Topology.antt =====
-- redis/cluster.go: the state of the client of a cluster, with its table of the slots and the
-- addresses it has heard of.
pub mod Table
pub mod Addresses
use smartproxy.Common.{
  ℕ, zero, suc, ◌+◌, ◌-◌, ◌≡◌, refl, Bool, true, false, not, ◌&&◌, ◌||◌, List, [], ◌∷◌, ◌++◌,
  Option, none, some, Bytes, codes, ltb, leb, ◌==◌, if◌then◌else◌, length, get_or, bytes_eq,
  mem_key,
}
use smartproxy.Common.Int.{ℤ, pos, negsuc}
use smartproxy.Errors.{
  Error, plain, redis_error, tx_failed_err, is_network_error, Moved, is_moved_error,
}
use smartproxy.Redis.Command.{SlotInfo, Val, Cmd, reset, set_err, cluster_key}
use smartproxy.Redis.Reply.{is_nil}
use smartproxy.Redis.Slots.{hash_slots, hash_slot}

-- A slot without an entry has no address; the keys of `clients` are the addresses of the clients.
pub record Cluster : Type 0 where
  pub addrs : List Bytes
  pub slots : ℕ → List Bytes
  pub clients : List Bytes
  pub closed : Bool
  pub reloading : Bool

-- `c.slots[slot] = addrs`: the index panics out of range.
set_slot : ℕ → List Bytes → (ℕ → List Bytes) → Option (ℕ → List Bytes)
set_slot slot addrs slots =
    if ltb slot hash_slots then some (λ i. if i == slot then addrs else slots i) else none

-- The loop over the slots of one range; the second number counts those left.
set_range : List Bytes → ℕ → ℕ → (ℕ → List Bytes) → Option (ℕ → List Bytes)
unfolding set_slot
set_range addrs slot zero slots = some slots
set_range addrs slot (suc n) slots = elim (set_slot slot addrs slots) [
  | none ↦ none
  | some slots' ↦ set_range addrs (slot + 1) n slots'
]

-- The addresses that are new are added; the second list is the map `seen`.
add_addrs : List Bytes → List Bytes → List Bytes → List Bytes × List Bytes
unfolding mem_key
add_addrs [] addrs seen = (addrs, seen)
add_addrs (addr ∷ more) addrs seen =
    add_addrs more (if mem_key addr seen then addrs else addrs ++ addr ∷ [])
      (if mem_key addr seen then seen else addr ∷ seen)

-- The loop over the ranges; `none` is a panic.
set_ranges :
    List SlotInfo
    → List Bytes
    → List Bytes
    → (ℕ → List Bytes)
    → Option (List Bytes × (ℕ → List Bytes))
unfolding set_range add_addrs
set_ranges [] addrs seen slots = some (addrs, slots)
set_ranges (info ∷ infos) addrs seen slots =
    elim (set_range info.addrs info.start (info.last + 1 - info.start) slots) [
      | none ↦ none
      | some slots' ↦
          let (addrs', seen') = add_addrs info.addrs addrs seen in
          set_ranges infos addrs' seen' slots'
    ]

with_table : Cluster → Option (List Bytes × (ℕ → List Bytes)) → Option Cluster
with_table c none = none
with_table c (some (addrs, slots)) = some (record c { addrs = addrs; slots = slots })

-- `setSlots`: the old table is emptied first.
unfoldable pub set_slots : List SlotInfo → Cluster → Option Cluster
unfolding set_ranges with_table
set_slots infos c = with_table c (set_ranges infos c.addrs c.addrs (λ slot. []))

first_addr : List Bytes → Bytes
first_addr [] = []
first_addr (addr ∷ addrs) = addr

unfoldable pub slot_master_addr : Cluster → ℕ → Bytes
unfolding first_addr
slot_master_addr c slot = first_addr (c.slots slot)

-- `Close`: the clients are closed and forgotten, and the table is emptied.
close : Cluster → Option Cluster
unfolding set_slots
close c = if c.closed then some c else set_slots [] (record c { closed = true; clients = [] })

closed_test :
    close (record {
      addrs = codes "a:1" ∷ [];
      slots = λ slot. codes "a:1" ∷ [];
      clients = codes "a:1" ∷ [];
      closed = false;
      reloading = false;
    })
    ≡ some (record {
      addrs = codes "a:1" ∷ [];
      slots = λ slot. [];
      clients = [];
      closed = true;
      reloading = false;
    })
unfolding close
closed_test = refl

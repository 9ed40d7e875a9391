-- ===== src/Common/Maps.antt =====
-- Go maps with string keys, as association lists without repeated keys.
use mathlib.Core.Path.{◌≡◌, refl, subst}
use mathlib.Core.Logic.{inl, inr}
use mathlib.Core.Bool.{Bool, true, false, ◌||◌}
use mathlib.Core.List.{List, [], ◌∷◌}
use mathlib.Core.Option.{Option, none, some}
use native.Mathlib.Omega.{arith}
use smartproxy.Common.Tests.{if◌then◌else◌, Bool-cases, true_of_&&}
use smartproxy.Common.Lists.{all}
use smartproxy.Common.Strings.{Bytes, bytes_eq, bytes_eq_iff, bytes_eq→eq}

abbrev pub Map {ℓ} : Type ℓ → Type ℓ
Map V = List (Bytes × V)

-- Membership of a key in a list of keys.
unfoldable pub mem_key : Bytes → List Bytes → Bool
mem_key k [] = false
mem_key k (j ∷ js) = bytes_eq j k || mem_key k js

module _ {ℓ} {V : Type ℓ} where
  unfoldable pub find : Bytes → Map V → Option V
  find k [] = none
  find k ((j, v) ∷ m) = if bytes_eq j k then some v else find k m

  unfoldable pub insert : Bytes → V → Map V → Map V
  insert k v [] = (k, v) ∷ []
  insert k v ((j, w) ∷ m) = if bytes_eq j k then (k, v) ∷ m else (j, w) ∷ insert k v m

  unfoldable pub remove : Bytes → Map V → Map V
  remove k [] = []
  remove k ((j, w) ∷ m) = if bytes_eq j k then remove k m else (j, w) ∷ remove k m

  pub find-insert :
      (k j : Bytes) (v : V) (m : Map V)
      → find j (insert k v m) ≡ (if bytes_eq k j then some v else find j m)
  unfolding find insert
  find-insert k j v [] = refl
  find-insert k j v ((i, w) ∷ m) =
      ground (arith, bytes_eq_iff k j, bytes_eq_iff i k, bytes_eq_iff i j, find-insert k j v m)

  pub find-remove :
      (k j : Bytes) (m : Map V) → find j (remove k m) ≡ (if bytes_eq k j then none else find j m)
  unfolding find remove
  find-remove k j [] = ground arith
  find-remove k j ((i, w) ∷ m) =
      ground (arith, bytes_eq_iff k j, bytes_eq_iff i k, bytes_eq_iff i j, find-remove k j m)

  -- What a test says of every entry of a table, it says of what is found there.
  pub find-all :
      (p : Bytes → V → Bool) (k : Bytes) (m : Map V) {v : V}
      → all (λ e. p e.0 e.1) m ≡ true
      → find k m ≡ some v
      → p k v ≡ true
  unfolding find
  find-all p k [] h e = cc
  find-all p k ((j, w) ∷ m) {v} h e = ground (
    arith,
    bytes_eq_iff j k,
    true_of_&& (p j w) (all (λ e. p e.0 e.1) m) h,
    find-all p k m {v = v},
  )

pub mem_key-all :
    (p : Bytes → Bool) (k : Bytes) (l : List Bytes)
    → all p l ≡ true
    → mem_key k l ≡ true
    → p k ≡ true
unfolding mem_key
mem_key-all p k [] h e = cc
mem_key-all p k (j ∷ l) h e = elim (Bool-cases (bytes_eq j k)) [
  | inl same ↦ subst (λ a. p a ≡ true) (bytes_eq→eq j k same) (true_of_&& (p j) (all p l) h).0
  | inr other ↦ mem_key-all p k l (true_of_&& (p j) (all p l) h).1 (rw other at e)
]

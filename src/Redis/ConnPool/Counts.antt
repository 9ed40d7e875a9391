-- ===== src/Redis/ConnPool/Counts.antt =====
-- redis/pool.go: how often a connection stands in a list, and sums of a measure over the goroutines.
use smartproxy.Common.{
  ℕ, suc, ◌+◌, ◌≤◌, ◌≡◌, refl, List, [], ◌∷◌, ◌++◌, Option, some, ◌==◌, if◌then◌else◌, length,
  arith, Bool-cases, ==_iff, ap, inl, inr,
}
use smartproxy.Redis.ConnList.{cons_to, without, with_new}
use smartproxy.Redis.ConnPool.{Phase}

abbrev pub one_if : ℕ → ℕ → ℕ
one_if c x = if x == c then 1 else 0

unfoldable pub count : ℕ → List ℕ → ℕ
count c [] = 0
count c (x ∷ l) = one_if c x + count c l

unfoldable pub sum : (Phase → ℕ) → List Phase → ℕ
sum f [] = 0
sum f (p ∷ ps) = f p + sum f ps

pub count-append : (c : ℕ) (l : List ℕ) (x : ℕ) → count c (l ++ x ∷ []) ≡ count c l + one_if c x
unfolding count
count-append c [] x = omega arith
count-append c (y ∷ l) x = ground (arith, count-append c l x)

pub one_if_self : (c : ℕ) → one_if c c ≡ 1
one_if_self c = ground arith

cons_to-some : (x : ℕ) (o : Option (List ℕ)) (l : List ℕ) → o ≡ some l → cons_to x o ≡ some (x ∷ l)
unfolding cons_to
cons_to-some x o l e = ap (cons_to x) e

-- A connection that is in the list is taken out once.
pub without-count :
    (cn : ℕ) (l : List ℕ)
    → 1 ≤ count cn l
    → (l' : List ℕ) × (without cn l ≡ some l')
      × ((c : ℕ) → count c l ≡ one_if c cn + count c l')
      × (length l ≡ suc (length l'))
unfolding count without
without-count cn [] h = absurd (omega arith)
without-count cn (x ∷ l) h = elim (Bool-cases (x == cn)) [
  | inl e ↦ (l, rw e refl, λ c. ground (arith, ==_iff x cn), refl)
  | inr ne ↦
      let (l', e, counts, len) = without-count cn l (ground arith) in
      (x ∷ l', rw ne (cons_to-some x _ l' e), λ c. omega (arith, counts c), omega arith)
]

-- A connection that is in the list is exchanged once.
pub with_new-count :
    (cn newcn : ℕ) (l : List ℕ)
    → 1 ≤ count cn l
    → (l' : List ℕ) × (with_new cn newcn l ≡ some l')
      × ((c : ℕ) → one_if c newcn + count c l ≡ one_if c cn + count c l')
      × (length l ≡ length l')
unfolding count with_new
with_new-count cn newcn [] h = absurd (omega arith)
with_new-count cn newcn (x ∷ l) h = elim (Bool-cases (x == cn)) [
  | inl e ↦ (newcn ∷ l, rw e refl, λ c. ground (arith, ==_iff x cn), refl)
  | inr ne ↦
      let (l', e, counts, len) = with_new-count cn newcn l (ground arith) in
      (x ∷ l', rw ne (cons_to-some x _ l' e), λ c. omega (arith, counts c), omega arith)
]

-- ===== src/Special/Table.antt =====
-- special.go: the slice of results that MGET fills.
use smartproxy.Common.{
  ℕ, zero, suc, ◌<◌, ◌≡◌, refl, ap, List, [], ◌∷◌, some, Bytes, arith, length, set, get_elem?,
  replicate,
}

pub get-set_self :
    (s : List Bytes) (i : ℕ) (w : Bytes) → i < length s → get_elem? (set s i w) i ≡ some w
get-set_self [] i w h = absurd (omega arith)
get-set_self (x ∷ s) zero w h = refl
get-set_self (x ∷ s) (suc i) w h = get-set_self s i w (omega arith)

pub get-set_keeps :
    (s : List Bytes) (i j : ℕ) (w v : Bytes)
    → (i ≡ j → w ≡ v)
    → get_elem? s j ≡ some v
    → get_elem? (set s i w) j ≡ some v
get-set_keeps [] i j w v same h = h
get-set_keeps (x ∷ s) zero zero w v same h = ap some (same refl)
get-set_keeps (x ∷ s) zero (suc j) w v same h = h
get-set_keeps (x ∷ s) (suc i) zero w v same h = h
get-set_keeps (x ∷ s) (suc i) (suc j) w v same h = get-set_keeps s i j w v (λ e. same (ap suc e)) h

-- The list of what `f` is at the numbers below `n`.
abbrev pub table : (ℕ → Bytes) → ℕ → List Bytes
table f zero = []
table f (suc n) = f 0 ∷ table (λ i. f (suc i)) n

pub table_of :
    (f : ℕ → Bytes) (n : ℕ) (s : List Bytes)
    → length s ≡ n
    → ((j : ℕ) → j < n → get_elem? s j ≡ some (f j))
    → s ≡ table f n
table_of f zero [] e h = refl
table_of f zero (x ∷ s) e h = absurd (omega arith)
table_of f (suc n) [] e h = absurd (omega arith)
table_of f (suc n) (x ∷ s) e h =
    let first : x ≡ f 0 = ground (arith, h 0 (omega arith)) in
    let rest = table_of (λ i. f (suc i)) n s (omega arith) (λ j k. h (suc j) (omega arith)) in
    rw (first, ← rest) refl

pub length-replicate : (n : ℕ) → length (replicate {A = Bytes} n []) ≡ n
length-replicate zero = refl
length-replicate (suc n) = ap suc (length-replicate n)

-- ===== src/Redis/Slots/Bits.antt =====
-- Laws of the exclusive or of numbers, from its lowest digit up.
use Prim.Native.Nat.{bit_xor, digits, differ, bit_xor-bitwise}
use smartproxy.Common.{
  ℕ, zero, suc, ◌+◌, ◌*◌, ◌/◌, ◌%◌, ◌≤◌, ◌<◌, ◌≡◌, refl, ◌∙◌, ap, sym, Bool, true, List, [], ◌∷◌,
  ◌==◌, all, true_of_&&, Bool-cases, inl, inr, arith,
}

abbrev xor_digits : ℕ → ℕ → ℕ → ℕ
xor_digits n a b = digits (λ b. b) differ n a b

runs_out : (n b : ℕ) → xor_digits n 0 b ≡ b
runs_out zero b = refl
runs_out (suc n) b = refl

parity_lem : (x y : ℕ) → x ≤ 1 → y ≤ 1 → differ x y ≡ (x + y) % 2
parity_lem zero y le le' = omega arith
parity_lem (suc zero) zero le le' = refl
parity_lem (suc zero) (suc zero) le le' = refl
parity_lem (suc zero) (suc (suc y)) le le' = absurd (omega arith)
parity_lem (suc (suc x)) y le le' = absurd (omega arith)

-- Counting down from any number that is large enough gives the exclusive or; `k` bounds the first one.
enough : (k n a b : ℕ) → a ≤ k → a ≤ n → xor_digits n a b ≡ bit_xor a b
enough k n zero b small le = runs_out n b ∙ sym (bit_xor-bitwise 0 b)
enough zero n (suc a) b small le = absurd (omega arith)
enough (suc k) zero (suc a) b small le = absurd (omega arith)
enough (suc k) (suc n) (suc a) b small le =
    let half : suc a / 2 ≤ k = omega arith in
    let here = enough k n (suc a / 2) (b / 2) half (omega arith) in
    let there = enough k a (suc a / 2) (b / 2) half (omega arith) in
    omega (arith, here, there, bit_xor-bitwise (suc a) b)

-- The lowest digit is the parity of the sum.
bit_xor_step : (a b : ℕ) → bit_xor a b ≡ bit_xor (a / 2) (b / 2) * 2 + (a + b) % 2
bit_xor_step zero b = bit_xor-bitwise 0 b ∙ omega (arith, bit_xor-bitwise 0 (b / 2))
bit_xor_step (suc a) b =
    let rest = enough a a (suc a / 2) (b / 2) (omega arith) (omega arith) in
    let low = parity_lem (suc a % 2) (b % 2) (omega arith) (omega arith) in
    bit_xor-bitwise (suc a) b ∙ omega (arith, rest, low)

bit_xor_half : (a b : ℕ) → bit_xor a b / 2 ≡ bit_xor (a / 2) (b / 2)
bit_xor_half a b = omega (arith, bit_xor_step a b)

bit_xor_parity : (a b : ℕ) → bit_xor a b % 2 ≡ (a + b) % 2
bit_xor_parity a b = omega (arith, bit_xor_step a b)

comm_below : (n a b : ℕ) → a ≤ n → b ≤ n → bit_xor a b ≡ bit_xor b a
comm_below zero a b p q = let e : a ≡ b = omega arith in rw e refl
comm_below (suc n) a b p q = omega (
  arith,
  bit_xor_step a b,
  bit_xor_step b a,
  comm_below n (a / 2) (b / 2) (omega arith) (omega arith),
)

pub bit_xor_comm : (a b : ℕ) → bit_xor a b ≡ bit_xor b a
bit_xor_comm a b = comm_below (a + b) a b (omega arith) (omega arith)

assoc_below :
    (n a b c : ℕ) → a ≤ n → b ≤ n → c ≤ n → bit_xor (bit_xor a b) c ≡ bit_xor a (bit_xor b c)
assoc_below zero a b c p q r =
    let e : a ≡ 0 = omega arith in
    let f : b ≡ 0 = omega arith in let g : c ≡ 0 = omega arith in rw (e, f, g) refl
assoc_below (suc n) a b c p q r =
    let left : bit_xor (bit_xor a b / 2) (c / 2) ≡ bit_xor (bit_xor (a / 2) (b / 2)) (c / 2) =
      ap (λ x. bit_xor x (c / 2)) (bit_xor_half a b) in
    let right : bit_xor (a / 2) (bit_xor b c / 2) ≡ bit_xor (a / 2) (bit_xor (b / 2) (c / 2)) =
      ap (λ x. bit_xor (a / 2) x) (bit_xor_half b c) in
    omega (
      arith,
      bit_xor_step (bit_xor a b) c,
      bit_xor_step a (bit_xor b c),
      bit_xor_parity a b,
      bit_xor_parity b c,
      assoc_below n (a / 2) (b / 2) (c / 2) (omega arith) (omega arith) (omega arith),
    )

pub bit_xor_assoc : (a b c : ℕ) → bit_xor (bit_xor a b) c ≡ bit_xor a (bit_xor b c)
bit_xor_assoc a b c = assoc_below (a + b + c) a b c (omega arith) (omega arith) (omega arith)

-- The number with `k` zeros put behind its digits.
abbrev pub shl : ℕ → ℕ → ℕ
shl zero h = h
shl (suc k) h = shl k h * 2

-- High and low digits do not mix.
pub bit_xor_split :
    (k h b l m : ℕ)
    → l < shl k 1
    → m < shl k 1
    → bit_xor (shl k h + l) (shl k b + m) ≡ shl k (bit_xor h b) + bit_xor l m
bit_xor_split zero h b l m p q =
    let e : l ≡ 0 = omega arith in
    let f : m ≡ 0 = omega arith in
    let high : h + l ≡ h = omega arith in
    let high' : b + m ≡ b = omega arith in
    let none_left : bit_xor l m ≡ 0 = rw (e, f) refl in rw (high, high') (omega (arith, none_left))
bit_xor_split (suc k) h b l m p q =
    let x : (shl k h * 2 + l) / 2 ≡ shl k h + l / 2 = omega arith in
    let y : (shl k b * 2 + m) / 2 ≡ shl k b + m / 2 = omega arith in
    bit_xor_step (shl k h * 2 + l) (shl k b * 2 + m)
    ∙ rw (x, y, bit_xor_split k h b (l / 2) (m / 2) (omega arith) (omega arith))
        (omega (arith, bit_xor_step l m))

pub bit_xor_bound : (k a b : ℕ) → a < shl k 1 → b < shl k 1 → bit_xor a b < shl k 1
bit_xor_bound zero a b p q =
    let e : a ≡ 0 = omega arith in let f : b ≡ 0 = omega arith in rw (e, f) (omega arith)
bit_xor_bound (suc k) a b p q =
    omega (arith, bit_xor_step a b, bit_xor_bound k (a / 2) (b / 2) (omega arith) (omega arith))

pub bit_xor_double : (a b : ℕ) → bit_xor (a * 2) (b * 2) ≡ bit_xor a b * 2
bit_xor_double a b =
    let p : a * 2 / 2 ≡ a = omega arith in
    let q : b * 2 / 2 ≡ b = omega arith in bit_xor_step (a * 2) (b * 2) ∙ rw (p, q) (omega arith)

pub bit_xor-zero : (a : ℕ) → bit_xor a 0 ≡ a
bit_xor-zero a = bit_xor_comm a 0 ∙ bit_xor-bitwise 0 a

pub shl_double : (k h : ℕ) → shl k (h * 2) ≡ shl k h * 2
shl_double zero h = refl
shl_double (suc k) h = omega (arith, shl_double k h)

pub shl_le : (k h : ℕ) → h ≤ shl k h
shl_le zero h = omega arith
shl_le (suc k) h = omega (arith, shl_le k h)

-- The numbers below a bound, for a test that is run on each of them.
unfoldable pub below : ℕ → List ℕ
below zero = []
below (suc n) = n ∷ below n

pub all-below : (p : ℕ → Bool) (n x : ℕ) → all p (below n) ≡ true → x < n → p x ≡ true
unfolding below
all-below p zero x tested lt = absurd (omega arith)
all-below p (suc n) x tested lt =
    let (here, there) = true_of_&& (p n) (all p (below n)) tested in
    elim (Bool-cases (x == n)) [
      | inl same ↦ let e : x ≡ n = ground arith in rw e here
      | inr other ↦ all-below p n x there (ground arith)
    ]

-- ===== src/Text/Decimal.antt =====
-- What is printed in decimal is read back, and how long it is.
use native.Mathlib.Nat.{pow-suc}
use smartproxy.Common.{
  ℕ, zero, suc, ◌+◌, ◌-◌, ◌/◌, ◌%◌, ◌^◌, ◌≤◌, ◌<◌, ◌≡◌, ◌≢◌, refl, ◌∙◌, true, false, inl, inr, [],
  ◌∷◌, Bytes, ltb, arith, length, Bool-cases, All,
}
use smartproxy.Common.Int.{ℤ, pos, negsuc}
use smartproxy.Text.{emit, itoa, format_int, num, scan, scanned, with_sign, parse_digits, parse_int}

abbrev pub IsDigit : ℕ → Type 0
IsDigit c = (b'0' ≤ c) × (c ≤ b'9')

scan_last :
    (top n : ℕ) (out : Bytes) → n ≤ top → scan top ((b'0' + n % 10) ∷ out) (n / 10) ≡ scan top out n
unfolding scan
scan_last top n out h = ground arith

scan_first :
    (top n : ℕ) (out : Bytes)
    → ltb n 10 ≡ true
    → n ≤ top
    → scan top ((b'0' + n % 10) ∷ out) 0 ≡ scan top out n
unfolding scan
scan_first top n out s h = ground arith

scan-emit :
    (f top n : ℕ) (out : Bytes) → n < f → n ≤ top → scan top (emit f n out) 0 ≡ scan top out n
unfolding emit
scan-emit zero top n out h k = absurd (omega arith)
scan-emit (suc f) top n out h k = elim (Bool-cases (ltb n 10)) [
  | inl small ↦ rw small (scan_first top n out small k)
  | inr large ↦ rw large (
      scan-emit f top (n / 10) ((b'0' + n % 10) ∷ out) (ground arith) (omega arith)
      ∙ scan_last top n out k)
]

emit-All : (f n : ℕ) (out : Bytes) → All IsDigit out → All IsDigit (emit f n out)
unfolding emit
emit-All zero n out h = h
emit-All (suc f) n out h = elim (Bool-cases (ltb n 10)) [
  | inl small ↦ rw small ((omega arith, omega arith), h)
  | inr large ↦
      rw large (emit-All f (n / 10) ((b'0' + n % 10) ∷ out) ((omega arith, omega arith), h))
]

pub itoa-All : (n : ℕ) → All IsDigit (itoa n)
unfolding itoa
itoa-All n = emit-All (suc n) n [] tt

length-emit_le :
    (k f n : ℕ) (out : Bytes) → n < 10 ^ suc k → length (emit f n out) ≤ suc k + length out
unfolding emit
length-emit_le k zero n out h = omega arith
length-emit_le zero (suc f) n out h = rw (lt_ten n h) (omega arith)
  where
    lt_ten : (n : ℕ) → n < 10 ^ 1 → ltb n 10 ≡ true
    lt_ten n h = ground arith
length-emit_le (suc k) (suc f) n out h = elim (Bool-cases (ltb n 10)) [
  | inl small ↦ rw small (omega arith)
  | inr large ↦ rw large (
      omega (
        arith,
        length-emit_le k f (n / 10) ((b'0' + n % 10) ∷ out) (omega (arith, pow-suc 10 (suc k))),
      ))
]

pub length-itoa_le : (k n : ℕ) → n < 10 ^ suc k → length (itoa n) ≤ suc k
unfolding itoa
length-itoa_le k n h = omega (arith, length-emit_le k (suc n) n [] h)

emit-ne-nil : (f n : ℕ) (out : Bytes) → out ≢ [] → emit f n out ≢ []
unfolding emit
emit-ne-nil zero n out h = h
emit-ne-nil (suc f) n out h = elim (Bool-cases (ltb n 10)) [
  | inl small ↦ rw small cc
  | inr large ↦ rw large (emit-ne-nil f (n / 10) ((b'0' + n % 10) ∷ out) cc)
]

itoa-ne-nil : (n : ℕ) → itoa n ≢ []
unfolding itoa emit
itoa-ne-nil n = elim (Bool-cases (ltb n 10)) [
  | inl small ↦ rw small cc
  | inr large ↦ rw large (emit-ne-nil n (n / 10) ((b'0' + n % 10) ∷ []) cc)
]

-- Digits are read as such: their first byte is no sign.
parse_int-digits :
    (bits : ℕ) (s : Bytes) → All IsDigit s → parse_int bits s ≡ parse_digits bits false s
unfolding parse_int parse_digits
parse_int-digits bits [] h = refl
parse_int-digits bits (c ∷ s) h = ground arith

parse_digits-scan :
    (bits : ℕ) (s : Bytes)
    → s ≢ []
    → parse_digits bits false s ≡ with_sign bits false (scan (2 ^ bits - 1) s 0)
unfolding parse_digits
parse_digits-scan bits [] h = absurd (h refl)
parse_digits-scan bits (c ∷ s) h = refl

with_sign-digits :
    (bits n : ℕ) → n < 2 ^ (bits - 1) → with_sign bits false (scanned n) ≡ num (pos n)
unfolding with_sign
with_sign-digits bits n h = ground arith

scan-itoa : (top n : ℕ) → n ≤ top → scan top (itoa n) 0 ≡ scanned n
unfolding itoa scan
scan-itoa top n k = scan-emit (suc n) top n [] (omega arith) k

-- A number that fits the signed range is read back from its print.
pub parse_int-itoa :
    (bits n : ℕ) → n < 2 ^ (bits - 1) → n ≤ 2 ^ bits - 1 → parse_int bits (itoa n) ≡ num (pos n)
parse_int-itoa bits n h k =
    parse_int-digits bits (itoa n) (itoa-All n)
    ∙ parse_digits-scan bits (itoa n) (itoa-ne-nil n)
    ∙ rw (scan-itoa (2 ^ bits - 1) n k) (with_sign-digits bits n h)

-- The decimal of a negative number is read as that number.
pub parse_int-negative : (k : ℕ) → k < 2 ^ 63 → parse_int 64 (b'-' ∷ itoa (suc k)) ≡ num (negsuc k)
parse_int-negative k h =
    unfold parse_int in
    rw
      (
        parse_digits-negative (itoa (suc k)) (itoa-ne-nil (suc k)),
        scan-itoa (2 ^ 64 - 1) (suc k) (omega arith),
      )
      (signed k h)
  where
    parse_digits-negative :
        (s : Bytes) → s ≢ [] → parse_digits 64 true s ≡ with_sign 64 true (scan (2 ^ 64 - 1) s 0)
    parse_digits-negative [] h = absurd (h refl)
    parse_digits-negative (c ∷ s) h = unfold parse_digits in refl

    signed : (k : ℕ) → k < 2 ^ 63 → with_sign 64 true (scanned (suc k)) ≡ num (negsuc k)
    signed k h = unfold with_sign in ground arith

-- The numbers of an int64.
abbrev pub Fits64 : ℤ → Type 0
Fits64 (pos n) = n < 2 ^ 63
Fits64 (negsuc n) = n < 2 ^ 63

pub parse_int-format_int : (v : ℤ) → Fits64 v → parse_int 64 (format_int v) ≡ num v
unfolding format_int
parse_int-format_int (pos n) h = parse_int-itoa 64 n h (omega arith)
parse_int-format_int (negsuc n) h = parse_int-negative n h

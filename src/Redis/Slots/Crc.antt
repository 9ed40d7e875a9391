-- ===== src/Redis/Slots/Crc.antt =====
-- redis/crc16.go: the table against the polynomial x¹⁶ + x¹² + x⁵ + 1.
use Prim.Native.Nat.{bit_and, bit_xor}
use smartproxy.Common.{
  all, ℕ, zero, suc, ◌+◌, ◌-◌, ◌*◌, ◌/◌, ◌%◌, ◌^◌, ◌<◌, ◌≡◌, refl, sym, ◌∙◌, ap, true, false, [],
  ◌∷◌, Bytes, ltb, ◌==◌, ==_iff, if◌then◌else◌, arith, All, Bool-cases, inl, inr,
}
use smartproxy.Redis.Slots.{crc_entry, crc_round, crc_loop, crc16sum}
use smartproxy.Redis.Slots.Bits.{
  bit_xor_comm, bit_xor_assoc, shl, bit_xor_split, bit_xor_bound, bit_xor_double, bit_xor-zero,
  shl_double, shl_le, below, all-below,
}

-- The CRC bit by bit: the polynomial is taken off when a one leaves at the top.
poly_bit : ℕ → ℕ
poly_bit x = if ltb x 0x8000 then x * 2 else bit_xor (x * 2 % 2 ^ 16) 0x1021

poly_bits : ℕ → ℕ → ℕ
unfolding poly_bit
poly_bits zero x = x
poly_bits (suc n) x = poly_bits n (poly_bit x)

poly_loop : ℕ → Bytes → ℕ
unfolding poly_bits
poly_loop crc [] = crc
poly_loop crc (b ∷ key) = poly_loop (poly_bits 8 (bit_xor crc (b * 256))) key

-- CRC-16 with the polynomial 0x1021, from zero.
pub poly_sum : Bytes → ℕ
unfolding poly_loop
poly_sum key = poly_loop 0 key

table_lem : (i : ℕ) → i < 256 → crc_entry i ≡ poly_bits 8 (i * 256)
table_lem i h = (==_iff _ _).0 (all-below (λ i. crc_entry i == poly_bits 8 (i * 256)) 256 i table h)
  where
    table : all (λ i. crc_entry i == poly_bits 8 (i * 256)) (below 256) ≡ true
    table = unfold below poly_bits crc_entry in refl

mask_lem : (i : ℕ) → i < 256 → bit_and i 0xff ≡ i
mask_lem i h = (==_iff _ _).0 (all-below (λ i. bit_and i 0xff == i) 256 i mask h)
  where
    mask : all (λ i. bit_and i 0xff == i) (below 256) ≡ true
    mask = unfold below in refl

bit_xor-top : (x y : ℕ) → x < 2 ^ 15 → y < 2 ^ 15 → bit_xor (0x8000 + x) y ≡ 0x8000 + bit_xor x y
bit_xor-top x y hx hy =
    let y' : 0 + y ≡ y = omega arith in rw y' at (bit_xor_split 15 1 0 x y hx hy)

swap_last : (a b c : ℕ) → bit_xor (bit_xor a b) c ≡ bit_xor (bit_xor a c) b
swap_last a b c =
    bit_xor_assoc a b c ∙ ap (λ x. bit_xor a x) (bit_xor_comm b c) ∙ sym (bit_xor_assoc a c b)

-- A round with a one at the top, which the low digits of `y` do not reach.
poly_bit-top :
    (x y : ℕ)
    → x < 2 ^ 15
    → y < 2 ^ 15
    → poly_bit (bit_xor (0x8000 + x) y) ≡ bit_xor (poly_bit (0x8000 + x)) (y * 2)
unfolding poly_bit
poly_bit-top x y hx hy =
    let below : bit_xor x y < 2 ^ 15 = bit_xor_bound 15 x y hx hy in
    let e : ltb (0x8000 + x) 0x8000 ≡ false = ground arith in
    let e' : ltb (0x8000 + bit_xor x y) 0x8000 ≡ false = ground arith in
    let out : (0x8000 + bit_xor x y) * 2 % 2 ^ 16 ≡ bit_xor x y * 2 = omega arith in
    let out' : (0x8000 + x) * 2 % 2 ^ 16 ≡ x * 2 = omega arith in
    rw (bit_xor-top x y hx hy, e, e', out, out')
      (ap (λ z. bit_xor z 0x1021) (sym (bit_xor_double x y)) ∙ swap_last (x * 2) (y * 2) 0x1021)

poly_bit-xor :
    (x y : ℕ) → x < 2 ^ 16 → y < 2 ^ 15 → poly_bit (bit_xor x y) ≡ bit_xor (poly_bit x) (y * 2)
unfolding poly_bit
poly_bit-xor x y hx hy = elim (Bool-cases (ltb x 0x8000)) [
  | inl e ↦
      let below : bit_xor x y < 2 ^ 15 = bit_xor_bound 15 x y (ground arith) hy in
      let e' : ltb (bit_xor x y) 0x8000 ≡ true = ground arith in
      rw (e, e') (sym (bit_xor_double x y))
  | inr e ↦
      let p : 0x8000 + (x - 0x8000) ≡ x = ground arith in
      rw p at (poly_bit-top (x - 0x8000) y (omega arith) hy)
]

poly_bit_bound : (x : ℕ) → x < 2 ^ 16 → poly_bit x < 2 ^ 16
unfolding poly_bit
poly_bit_bound x h = elim (Bool-cases (ltb x 0x8000)) [
  | inl e ↦ ground arith
  | inr e ↦ rw e (bit_xor_bound 16 (x * 2 % 2 ^ 16) 0x1021 (omega arith) (omega arith))
]

poly_bits_bound : (n x : ℕ) → x < 2 ^ 16 → poly_bits n x < 2 ^ 16
unfolding poly_bits
poly_bits_bound zero x h = h
poly_bits_bound (suc n) x h = poly_bits_bound n (poly_bit x) (poly_bit_bound x h)

-- Rounds are linear in the digits that do not reach the top in them.
poly_bits-xor :
    (n x y : ℕ)
    → x < 2 ^ 16
    → shl n y < 2 ^ 16
    → poly_bits n (bit_xor x y) ≡ bit_xor (poly_bits n x) (shl n y)
unfolding poly_bits
poly_bits-xor zero x y hx hy = refl
poly_bits-xor (suc n) x y hx hy =
    ap (λ z. poly_bits n z) (poly_bit-xor x y hx (omega (arith, shl_le n y)))
    ∙ poly_bits-xor n (poly_bit x) (y * 2) (poly_bit_bound x hx) (omega (arith, shl_double n y))
    ∙ ap (λ z. bit_xor (poly_bits n (poly_bit x)) z) (shl_double n y)

high_digits : (h b l : ℕ) → l < 256 → bit_xor (h * 256 + l) (b * 256) ≡ bit_xor h b * 256 + l
high_digits h b l hl =
    let p : shl 8 h + l ≡ h * 256 + l = omega arith in
    let q : shl 8 b + 0 ≡ b * 256 = omega arith in
    rw (p, q) at (bit_xor_split 8 h b l 0 hl (omega arith)) ∙ omega (arith, bit_xor-zero l)

low_digits : (h l : ℕ) → l < 256 → bit_xor (h * 256) l ≡ h * 256 + l
low_digits h l hl =
    let p : shl 8 h + 0 ≡ h * 256 = omega arith in
    let q : shl 8 0 + l ≡ l = omega arith in
    rw (p, q) at (bit_xor_split 8 h 0 0 l (omega arith) hl)
    ∙ omega (arith, bit_xor-zero h, bit_xor_comm 0 l, bit_xor-zero l)

-- A round of the code is eight rounds of the polynomial.
crc_round-poly :
    (crc b : ℕ) → crc < 2 ^ 16 → b < 256 → crc_round crc b ≡ poly_bits 8 (bit_xor crc (b * 256))
unfolding crc_round
crc_round-poly crc b hc hb =
    let l : ℕ = crc % 256 in
    let x : ℕ = bit_xor (crc / 256) b in
    let small : x < 256 = bit_xor_bound 8 (crc / 256) b (omega arith) hb in
    let top : crc / 256 % 256 ≡ crc / 256 = omega arith in
    let low : crc * 256 % 2 ^ 16 ≡ shl 8 l = omega arith in
    let halves : crc / 256 * 256 + l ≡ crc = omega arith in
    let whole : bit_xor crc (b * 256) ≡ bit_xor (x * 256) l =
      rw halves at (high_digits (crc / 256) b l (omega arith))
      ∙ sym (low_digits x l (omega arith)) in
    let rounds : poly_bits 8 (bit_xor (x * 256) l) ≡ bit_xor (poly_bits 8 (x * 256)) (shl 8 l) =
      poly_bits-xor 8 (x * 256) l (omega arith) (omega arith) in
    rw (top, low, mask_lem x small, table_lem x small, whole, rounds)
      (bit_xor_comm (shl 8 l) (poly_bits 8 (x * 256)))

crc_loop-poly :
    (crc : ℕ) (key : Bytes)
    → crc < 2 ^ 16
    → All (λ b. b < 256) key
    → crc_loop crc key ≡ poly_loop crc key
unfolding crc_loop poly_loop
crc_loop-poly crc [] hc h = refl
crc_loop-poly crc (b ∷ key) hc (hb, h) =
    let round = crc_round-poly crc b hc hb in
    let input : bit_xor crc (b * 256) < 2 ^ 16 = bit_xor_bound 16 crc (b * 256) hc (omega arith) in
    let next : crc_round crc b < 2 ^ 16 =
      omega (arith, round, poly_bits_bound 8 (bit_xor crc (b * 256)) input) in
    crc_loop-poly (crc_round crc b) key next h ∙ ap (λ c. poly_loop c key) round

-- The checksum that the table gives is the CRC with the polynomial 0x1021, computed bit by bit, for
-- every string of bytes.
pub crc16sum-poly_sum : (key : Bytes) → All (λ b. b < 256) key → crc16sum key ≡ poly_sum key
unfolding crc16sum poly_sum
crc16sum-poly_sum key h = crc_loop-poly 0 key (omega arith) h

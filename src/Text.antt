-- ===== src/Text.antt =====
-- The parts of Go's `strings` and `strconv` that the program calls (util/itoa.go, and the calls in
-- parser.go, proxycmd.go and redis/*.go), over byte strings. Case folding is that of ASCII.
pub mod Cached
pub mod Decimal
pub mod Parts
use smartproxy.Common.{
  ℕ, zero, suc, ◌+◌, ◌-◌, ◌*◌, ◌/◌, ◌%◌, ◌^◌, ◌≡◌, refl, Bool, true, false, ◌&&◌, ◌||◌, not, List,
  [], ◌∷◌, ◌++◌, Bytes, codes, ltb, leb, ◌==◌, if◌then◌else◌, arith,
}
use smartproxy.Common.Int.{ℤ, pos, negsuc, sub_ℕ}

upper_byte : ℕ → ℕ
upper_byte c = if leb b'a' c && leb c b'z' then c - 32 else c

lower_byte : ℕ → ℕ
lower_byte c = if leb b'A' c && leb c b'Z' then c + 32 else c

unfoldable pub to_upper : Bytes → Bytes
unfolding upper_byte
to_upper [] = []
to_upper (c ∷ s) = upper_byte c ∷ to_upper s

unfoldable pub to_lower : Bytes → Bytes
unfolding lower_byte
to_lower [] = []
to_lower (c ∷ s) = lower_byte c ∷ to_lower s

-- The decimal digits of `n` in front of `out`; each round divides by ten.
pub emit : ℕ → ℕ → Bytes → Bytes
emit zero n out = out
emit (suc f) n out =
    let longer = (b'0' + n % 10) ∷ out in
    let rest = emit f (n / 10) longer in if ltb n 10 then longer else rest

-- `strconv.Itoa`, `AppendUint` and `FormatInt` on a number that is not negative. The rounds are
-- never more than `suc n`.
unfoldable pub itoa : ℕ → Bytes
unfolding emit
itoa n = emit (suc n) n []

-- `strconv.FormatInt(v, 10)`
unfoldable pub format_int : ℤ → Bytes
unfolding itoa
format_int (pos n) = itoa n
format_int (negsuc n) = b'-' ∷ itoa (suc n)

-- The outcomes of `strconv.ParseInt`.
pub data Parsed : Type 0 where
  num : ℤ → Parsed
  bad_syntax out_of_range : Parsed

pub data Scanned : Type 0 where
  scanned : ℕ → Scanned
  stray overflow : Scanned

-- `strconv.ParseUint(s, 10, bits)` behind its first digit, with the largest value `top`.
pub scan : ℕ → Bytes → ℕ → Scanned
scan top [] n = scanned n
scan top (c ∷ s) n =
    let m = n * 10 + (c - b'0') in
    if ltb c b'0' || ltb b'9' c then stray else if ltb top m then overflow else scan top s m

pub with_sign : ℕ → Bool → Scanned → Parsed
with_sign bits neg stray = bad_syntax
with_sign bits neg overflow = out_of_range
with_sign bits true (scanned n) = if ltb (2 ^ (bits - 1)) n then out_of_range else num (sub_ℕ 0 n)
with_sign bits false (scanned n) = if ltb n (2 ^ (bits - 1)) then num (pos n) else out_of_range

pub parse_digits : ℕ → Bool → Bytes → Parsed
unfolding scan with_sign
parse_digits bits neg [] = bad_syntax
parse_digits bits neg (c ∷ s) = with_sign bits neg (scan (2 ^ bits - 1) (c ∷ s) 0)

-- `strconv.ParseInt(s, 10, bits)`, and with 64 bits `strconv.Atoi`.
unfoldable pub parse_int : ℕ → Bytes → Parsed
unfolding parse_digits
parse_int bits [] = bad_syntax
parse_int bits (c ∷ s) =
    if c == b'+'
    then parse_digits bits false s
    else if c == b'-'
    then parse_digits bits true s
    else parse_digits bits false (c ∷ s)

unfoldable pub atoi : Bytes → Parsed
unfolding parse_int
atoi s = parse_int 64 s

hex_digit : ℕ → ℕ
hex_digit d = if ltb d 10 then b'0' + d else b'a' + (d - 10)

-- One byte inside `strconv.Quote`; bytes from 128 on are taken as broken UTF-8.
quote_byte : ℕ → Bytes
unfolding hex_digit
quote_byte c =
    if c == b'"' || c == 92
    then 92 ∷ c ∷ []
    else if leb 32 c && ltb c 127
    then c ∷ []
    else if c == 7
    then codes "\\a"
    else if c == 8
    then codes "\\b"
    else if c == 12
    then codes "\\f"
    else if c == 10
    then codes "\\n"
    else if c == 13
    then codes "\\r"
    else if c == 9
    then codes "\\t"
    else if c == 11
    then codes "\\v"
    else codes "\\x" ++ hex_digit (c / 16) ∷ hex_digit (c % 16) ∷ []

quoted : Bytes → Bytes
unfolding quote_byte
quoted [] = b'"' ∷ []
quoted (c ∷ s) = quote_byte c ++ quoted s

-- `%q`
pub quote : Bytes → Bytes
unfolding quoted
quote s = b'"' ∷ quoted s

-- The text of a failed `strconv.ParseInt(s, …)`.
pub num_error : Bytes → Bytes → Bytes
unfolding quote
num_error s why = codes "strconv.ParseInt: parsing " ++ quote s ++ codes ": " ++ why

spaced : List ℕ → Bytes
unfolding itoa
spaced [] = codes "]"
spaced (c ∷ s) = b' ' ∷ itoa c ++ spaced s

-- `%v` of a byte slice: the numbers in brackets.
pub show_bytes : Bytes → Bytes
unfolding spaced
show_bytes [] = codes "[]"
show_bytes (c ∷ s) = b'[' ∷ itoa c ++ spaced s

-- A byte in front of the first part.
unfoldable pub push_first : ℕ → List Bytes → List Bytes
push_first c [] = (c ∷ []) ∷ []
push_first c (p ∷ ps) = (c ∷ p) ∷ ps

-- `strings.Split(s, sep)` at one byte; there is always a part.
unfoldable pub split : ℕ → Bytes → List Bytes
unfolding push_first
split sep [] = [] ∷ []
split sep (c ∷ s) = let parts = split sep s in if c == sep then [] ∷ parts else push_first c parts

glue : ℕ → List Bytes → Bytes
glue sep [] = []
glue sep (p ∷ ps) = sep ∷ p ++ glue sep ps

-- `strings.Join(parts, sep)` with one byte between the parts.
unfoldable pub join : ℕ → List Bytes → Bytes
unfolding glue
join sep [] = []
join sep (p ∷ ps) = p ++ glue sep ps

upper_byte_idem : (c : ℕ) → upper_byte (upper_byte c) ≡ upper_byte c
unfolding upper_byte
upper_byte_idem c = ground arith

pub to_upper_idem : (s : Bytes) → to_upper (to_upper s) ≡ to_upper s
unfolding to_upper
to_upper_idem [] = refl
to_upper_idem (c ∷ s) = λ i. upper_byte_idem c i ∷ to_upper_idem s i

upper_get : to_upper (codes "gEt1") ≡ codes "GET1"
unfolding to_upper
upper_get = refl

itoa_1205 : itoa 1205 ≡ codes "1205"
unfolding itoa
itoa_1205 = refl

parse_lowest : parse_int 64 (codes "-9223372036854775808") ≡ num (negsuc (2 ^ 63 - 1))
unfolding parse_int
parse_lowest = refl

parse_past_32 : parse_int 32 (codes "2147483648") ≡ out_of_range
unfolding parse_int
parse_past_32 = refl

quote_line : quote (codes "a\"\n") ≡ codes "\"a\\\"\\n\""
unfolding quote
quote_line = refl

show_abc : show_bytes (codes "ab") ≡ codes "[97 98]"
unfolding show_bytes
show_abc = refl

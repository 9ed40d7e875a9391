-- ===== src/Text/Cached.antt =====
-- util/itoa.go: the table of the decimals below 1000, and `Itoa` over it.
use smartproxy.Common.{
  ℕ, zero, suc, ◌+◌, ◌<◌, ◌≡◌, refl, ap, List, [], ◌∷◌, Bytes, ltb, ◌&&◌, if◌then◌else◌, get_or,
  arith, if_cases,
}
use smartproxy.Common.Int.{ℤ, pos, negsuc}
use smartproxy.Text.{itoa, format_int}

-- `init`: the decimals of `i`, `i + 1` and so on, `n` of them.
decimals : ℕ → ℕ → List Bytes
unfolding itoa
decimals zero i = []
decimals (suc n) i = itoa i ∷ decimals n (i + 1)

abbrev nums_len : ℕ
nums_len = 1000

itoa_nums : List Bytes
unfolding decimals
itoa_nums = decimals nums_len 0

-- `Itoa`
cached_itoa : ℤ → Bytes
unfolding itoa_nums format_int
cached_itoa (pos i) =
    if ltb 0 i && ltb i nums_len then get_or itoa_nums i [] else format_int (pos i)
cached_itoa (negsuc i) = format_int (negsuc i)

get_or-decimals : (n i k j : ℕ) → k < n → i + k ≡ j → get_or (decimals n i) k [] ≡ itoa j
unfolding decimals
get_or-decimals zero i k j h e = absurd (omega arith)
get_or-decimals (suc n) i zero j h e = ap itoa {x = i} {y = j} (omega arith)
get_or-decimals (suc n) i (suc k) j h e = get_or-decimals n (i + 1) k j (omega arith) (omega arith)

-- The table gives what `strconv.Itoa` gives.
cached_itoa-format_int : (v : ℤ) → cached_itoa v ≡ format_int v
unfolding cached_itoa itoa_nums format_int
cached_itoa-format_int (negsuc n) = refl
cached_itoa-format_int (pos n) =
    if_cases (λ s. s ≡ itoa n) (ltb 0 n && ltb n nums_len) (get_or (decimals nums_len 0) n [])
      (itoa n) (λ h. get_or-decimals nums_len 0 n n (ground arith) (omega arith)) (λ h. refl)

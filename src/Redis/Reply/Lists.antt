-- ===== src/Redis/Reply/Lists.antt =====
-- redis/command.go: lists as a node writes them and as `FormatSlice` and `FormatStringSlice` do.
use smartproxy.Common.{
  ℕ, suc, ◌^◌, ◌<◌, ◌≡◌, refl, sym, ◌∙◌, ap, List, [], ◌∷◌, ◌++◌, append_assoc, append-nil, Bytes,
  length,
}
use smartproxy.Redis.Format.{
  Values, nil, cons, nil_value, int_value, str_value, list_value, count, nil_bulk, format_string,
  format_strings, format_string_slice, add_values,
}
use smartproxy.Redis.Reply.RoundTrip.{encode, encode_all, Fits, FitsAll}

-- A list of texts and nils only, as `FormatSlice` writes it unchanged.
abbrev pub IsFlat : Values → Type 0
IsFlat nil = Unit
IsFlat (cons nil_value vs) = IsFlat vs
IsFlat (cons (str_value s) vs) = (length s < 2 ^ 63) × IsFlat vs
IsFlat (cons _ vs) = ⊥

unfoldable pub strings : List Bytes → Values
strings [] = nil
strings (s ∷ list) = cons (str_value s) (strings list)

abbrev pub AllShort : List Bytes → Type 0
AllShort [] = Unit
AllShort (s ∷ list) = (length s < 2 ^ 63) × AllShort list

pub IsFlat-FitsAll : (max_cap : ℕ) (vs : Values) → IsFlat vs → FitsAll max_cap 0 vs
unfolding FitsAll Fits
IsFlat-FitsAll max_cap nil h = h
IsFlat-FitsAll max_cap (cons nil_value vs) h = (tt, IsFlat-FitsAll max_cap vs h)
IsFlat-FitsAll max_cap (cons (str_value s) vs) (a, h) = (a, IsFlat-FitsAll max_cap vs h)
IsFlat-FitsAll max_cap (cons (int_value v) vs) h = elim h [ ]
IsFlat-FitsAll max_cap (cons (list_value ws) vs) h = elim h [ ]

pub add_values-encode_all :
    (out : Bytes) (vs : Values) → IsFlat vs → add_values out vs ≡ out ++ encode_all vs
unfolding add_values encode_all encode format_string
add_values-encode_all out nil h = sym (append-nil out)
add_values-encode_all out (cons nil_value vs) h =
    add_values-encode_all (out ++ nil_bulk) vs h ∙ append_assoc out nil_bulk (encode_all vs)
add_values-encode_all out (cons (str_value s) vs) (a, h) =
    add_values-encode_all (out ++ format_string s) vs h
    ∙ append_assoc out (format_string s) (encode_all vs)
add_values-encode_all out (cons (int_value v) vs) h = elim h [ ]
add_values-encode_all out (cons (list_value ws) vs) h = elim h [ ]

pub count-strings : (list : List Bytes) → count (strings list) ≡ length list
unfolding count strings
count-strings [] = refl
count-strings (s ∷ list) = ap suc (count-strings list)

format_strings-strings : (list : List Bytes) → format_strings list ≡ encode_all (strings list)
unfolding format_strings strings encode_all encode format_string
format_strings-strings [] = refl
format_strings-strings (s ∷ list) = ap (λ r. format_string s ++ r) (format_strings-strings list)

pub format_string_slice-strings :
    (list : List Bytes) → format_string_slice list ≡ encode (list_value (strings list))
unfolding format_string_slice encode
format_string_slice-strings list = rw (count-strings list, format_strings-strings list) refl

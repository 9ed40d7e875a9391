-- ===== src/Wire/Safety.antt =====
-- parser.go: how much of the input a request takes, and the inputs on which the parser panics.
use smartproxy.Common.{
  ℕ, zero, suc, ◌+◌, ◌-◌, ◌^◌, ◌≤◌, ◌<◌, ◌≡◌, refl, List, [], ◌∷◌, ◌++◌, Option, none, some, Bytes,
  ltb, ◌==◌, arith, length, take, drop, Bool-cases, inl, inr,
}
use smartproxy.Common.Int.{pos, negsuc}
use smartproxy.Text.{itoa, Parsed, num, bad_syntax, out_of_range, parse_int}
use smartproxy.Text.Decimal.{parse_int-negative, itoa-All, length-itoa_le}
use smartproxy.Errors.{Error}
use smartproxy.Wire.{
  Reader, Outcome, ok, failed, panicked, ◌>>=◌, Cut, found, full, ended, keep, cut_line, strip_cr,
  checked_line, line_of, read_line, read_n, read_arg_body, read_arg_line, read_arg, read_args,
  read_count, read_head, parse_req,
}
use smartproxy.Wire.RoundTrip.{reader, read_line_lem, digits-NoNewline}

-- The bytes that an outcome leaves on the connection.
abbrev pub left {ℓ} : {A : Type ℓ} → Outcome A → ℕ
left (ok a r) = length r.unread
left (failed e r) = length r.unread
left panicked = 0

pub left-bind {ℓ κ} :
    {A : Type ℓ} {B : Type κ} (m : Outcome A) (f : A → Reader → Outcome B)
    → ((a : A) (r : Reader) → left (f a r) ≤ length r.unread)
    → left (m >>= f) ≤ left m
left-bind (ok a r) f h = h a r
left-bind (failed e r) f h = omega arith
left-bind panicked f h = omega arith

pub length-drop_le {ℓ} : {A : Type ℓ} (n : ℕ) (xs : List A) → length (drop n xs) ≤ length xs
length-drop_le zero xs = omega arith
length-drop_le (suc n) [] = omega arith
length-drop_le (suc n) (x ∷ xs) = omega (arith, length-drop_le n xs)

abbrev pub cut_left : Cut → ℕ
cut_left (found line rest) = length rest
cut_left (full rest) = length rest
cut_left ended = 0

cut_left-keep : (c : ℕ) (u : Cut) → cut_left (keep c u) ≡ cut_left u
unfolding keep
cut_left-keep c (found line rest) = refl
cut_left-keep c (full rest) = refl
cut_left-keep c ended = refl

cut_left-cut_line : (n : ℕ) (s : Bytes) → cut_left (cut_line n s) ≤ length s
unfolding cut_line
cut_left-cut_line zero s = omega arith
cut_left-cut_line (suc n) [] = omega arith
cut_left-cut_line (suc n) (c ∷ s) = elim (Bool-cases (c == 10)) [
  | inl e ↦ rw e (omega arith)
  | inr e ↦ rw (e, cut_left-keep c (cut_line n s)) (omega (arith, cut_left-cut_line n s))
]

pub cut_left_pred : (n : ℕ) (s : Bytes) → cut_left (cut_line (suc n) s) ≤ length s - 1
unfolding cut_line
cut_left_pred n [] = omega arith
cut_left_pred n (c ∷ s) = elim (Bool-cases (c == 10)) [
  | inl e ↦ rw e (omega arith)
  | inr e ↦ rw (e, cut_left-keep c (cut_line n s)) (omega (arith, cut_left-cut_line n s))
]

left-checked_line :
    (line : Bytes) (o : Option Bytes) (r : Reader) → left (checked_line line o r) ≤ length r.unread
unfolding checked_line
left-checked_line line none r = omega arith
left-checked_line line (some s) r = omega arith

left-line_of : (r : Reader) (u : Cut) → left (line_of r u) ≤ cut_left u
unfolding line_of
left-line_of r (found line rest) =
    left-checked_line line (strip_cr line) (record r { unread = rest })
left-line_of r (full rest) = omega arith
left-line_of r ended = omega arith

left-read_line : (r : Reader) → left (read_line r) ≤ length r.unread - 1
unfolding read_line
left-read_line r =
    omega (arith, left-line_of r (cut_line 4096 r.unread), cut_left_pred 4095 r.unread)

left-read_n : (n : ℕ) (r : Reader) → left (read_n n r) ≤ length r.unread
unfolding read_n
left-read_n n r = elim (Bool-cases (ltb (length r.unread) n)) [
  | inl e ↦ rw e (omega arith)
  | inr e ↦ rw e (length-drop_le n r.unread)
]

left-read_arg_body :
    (digits : Bytes) (p : Parsed) (r : Reader) → left (read_arg_body digits p r) ≤ length r.unread
unfolding read_arg_body
left-read_arg_body digits bad_syntax r = omega arith
left-read_arg_body digits out_of_range r = omega arith
left-read_arg_body digits (num (negsuc (suc n))) r = omega arith
left-read_arg_body digits (num (negsuc zero)) r = omega (
  arith,
  left-bind (read_n 1 r) (λ (a : Bytes) (s : Reader). let p : Outcome Bytes = panicked in p)
      (λ a s. omega arith),
  left-read_n 1 r,
)
left-read_arg_body digits (num (pos n)) r = omega (
  arith,
  left-bind (read_n (n + 2) r) (λ (a : Bytes) (s : Reader). ok (take n a) s) (λ a s. omega arith),
  left-read_n (n + 2) r,
)

left-read_arg_line : (line : Bytes) (r : Reader) → left (read_arg_line line r) ≤ length r.unread
unfolding read_arg_line
left-read_arg_line [] r = omega arith
left-read_arg_line (c ∷ s) r = elim (Bool-cases (c == b'$')) [
  | inl e ↦ rw e (left-read_arg_body s (parse_int 32 s) r)
  | inr e ↦ rw e (omega arith)
]

left-read_arg : (r : Reader) → left (read_arg r) ≤ length r.unread
unfolding read_arg
left-read_arg r =
    omega (arith, left-bind (read_line r) read_arg_line left-read_arg_line, left-read_line r)

left-read_args :
    (n : ℕ) (args : List Bytes) (r : Reader) → left (read_args n args r) ≤ length r.unread
unfolding read_args
left-read_args zero args r = omega arith
left-read_args (suc n) args r = omega (
  arith,
  left-bind (read_arg r) (λ (a : Bytes) (s : Reader). read_args n (args ++ a ∷ []) s)
      (λ a s. left-read_args n (args ++ a ∷ []) s),
  left-read_arg r,
)

module _ (max_cap : ℕ) where
  left-read_count :
      (s : Bytes) (p : Parsed) (r : Reader) → left (read_count max_cap s p r) ≤ length r.unread
  unfolding read_count
  left-read_count s bad_syntax r = omega arith
  left-read_count s out_of_range r = omega arith
  left-read_count s (num (negsuc n)) r = omega arith
  left-read_count s (num (pos n)) r = elim (Bool-cases (ltb max_cap n)) [
    | inl e ↦ rw e (omega arith)
    | inr e ↦ rw e (left-read_args n [] r)
  ]

  left-read_head : (line : Bytes) (r : Reader) → left (read_head max_cap line r) ≤ length r.unread
  unfolding read_head
  left-read_head [] r = omega arith
  left-read_head (c ∷ s) r = elim (Bool-cases (c == b'*')) [
    | inl e ↦ rw e (left-read_count s (parse_int 64 s) r)
    | inr e ↦ rw e (omega arith)
  ]

  -- Every call of `parseReq` that returns, with a request or with an error, takes at least one
  -- byte off the connection if one is there, and never puts any back.
  pub left-parse_req : (r : Reader) → left (parse_req max_cap r) ≤ length r.unread - 1
  unfolding parse_req
  left-parse_req r =
      omega (arith, left-bind (read_line r) (read_head max_cap) left-read_head, left-read_line r)

-- The parser panics, whatever follows, on an empty line and on every negative number of arguments:
-- it reads `line[0]` of the empty line, and calls `make` with the negative capacity.
pub parse_req-panics :
    (max_cap : ℕ) (rest : Bytes) (e : Error)
    → (parse_req max_cap (reader (13 ∷ 10 ∷ rest) e) ≡ panicked)
      × ((k : ℕ)
          → k < 2 ^ 63
          → parse_req max_cap (reader ((b'*' ∷ b'-' ∷ itoa (suc k)) ++ 13 ∷ 10 ∷ rest) e)
            ≡ panicked)
unfolding parse_req read_head read_count
parse_req-panics max_cap rest e = (
  refl,
  λ k h.
      rw
        (
          read_line_lem (b'*' ∷ b'-' ∷ itoa (suc k)) rest e
              (omega arith, (omega arith, digits-NoNewline (itoa (suc k)) (itoa-All (suc k))))
              (omega (arith, length-itoa_le 19 (suc k) (omega arith))),
          parse_int-negative k h,
        )
        refl,
)

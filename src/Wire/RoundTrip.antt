-- ===== src/Wire/RoundTrip.antt =====
-- parser.go: what `appendArgs` writes, `parseReq` reads back.
use smartproxy.Common.{
  ℕ, zero, suc, ◌^◌, ◌≤◌, ◌<◌, ◌≡◌, ◌≢◌, refl, sym, false, List, [], ◌∷◌, ◌++◌, append_assoc,
  append-nil, some, Bytes, ltb, arith, length, length-append, take-append_length,
  drop-append_length, All,
}
use smartproxy.Common.Int.{pos}
use smartproxy.Text.{itoa, num}
use smartproxy.Text.Decimal.{IsDigit, itoa-All, length-itoa_le, parse_int-itoa}
use smartproxy.Errors.{Error}
use smartproxy.Wire.{
  Reader, ok, append_arg, append_each, append_args, found, cut_line, strip_cr, read_line, read_n,
  read_arg_body, read_arg_line, read_arg, read_args, read_head, parse_req,
}

abbrev pub reader : Bytes → Error → Reader
reader s e = record { unread = s; last = e }

abbrev pub NoNewline : Bytes → Type 0
NoNewline = All (λ c. c ≢ 10)

pub cut_line-found :
    (n : ℕ) (line rest : Bytes)
    → NoNewline line
    → length line < n
    → cut_line n (line ++ 10 ∷ rest) ≡ found line rest
unfolding cut_line
cut_line-found zero line rest h k = absurd (omega arith)
cut_line-found (suc n) [] rest h k = refl
cut_line-found (suc n) (c ∷ line) rest (hc, h) k =
    ground (arith, cut_line-found n line rest h (omega arith))

strip_cr-append : (s : Bytes) → strip_cr (s ++ 13 ∷ []) ≡ some s
unfolding strip_cr
strip_cr-append [] = refl
strip_cr-append (c ∷ []) = refl
strip_cr-append (c ∷ d ∷ s) = rw (strip_cr-append (d ∷ s))

pub NoNewline-cr : (s : Bytes) → NoNewline s → NoNewline (s ++ 13 ∷ [])
NoNewline-cr [] h = (omega arith, tt)
NoNewline-cr (c ∷ s) (hc, h) = (hc, NoNewline-cr s h)

pub digits-NoNewline : (s : Bytes) → All IsDigit s → NoNewline s
digits-NoNewline [] h = tt
digits-NoNewline (c ∷ s) (hc, h) = (omega arith, digits-NoNewline s h)

-- A line that fits the buffer is read up to its "\r\n".
pub read_line_lem :
    (s rest : Bytes) (e : Error)
    → NoNewline s
    → length s < 4095
    → read_line (reader (s ++ 13 ∷ 10 ∷ rest) e) ≡ ok s (reader rest e)
unfolding read_line
read_line_lem s rest e h k = rw (sym (append_assoc s (13 ∷ []) (10 ∷ rest))) (
    rw
      (
        cut_line-found 4096 (s ++ 13 ∷ []) rest (NoNewline-cr s h)
            (omega (arith, length-append s (13 ∷ []))),
        strip_cr-append s,
      )
      refl)

read_n_lem :
    (xs rest : Bytes) (e : Error)
    → read_n (length xs) (reader (xs ++ rest) e) ≡ ok xs (reader rest e)
unfolding read_n
read_n_lem xs rest e =
    rw (not_short xs rest, take-append_length xs rest, drop-append_length xs rest) refl
  where
    not_short : (xs rest : Bytes) → ltb (length (xs ++ rest)) (length xs) ≡ false
    not_short xs rest = ground (arith, length-append xs rest)

-- An argument that fits Go's int32, as `ParseInt(…, 10, 32)` wants it.
abbrev pub FitsArg : Bytes → Type 0
FitsArg arg = length arg < 2 ^ 31

append_arg-split :
    (arg rest : Bytes)
    → append_arg arg ++ rest ≡ (b'$' ∷ itoa (length arg)) ++ 13 ∷ 10 ∷ (arg ++ 13 ∷ 10 ∷ rest)
unfolding append_arg
append_arg-split arg rest = simp append_assoc

read_arg_line-dollar :
    (n : ℕ) (r : Reader)
    → n < 2 ^ 31
    → read_arg_line (b'$' ∷ itoa n) r ≡ read_arg_body (itoa n) (num (pos n)) r
unfolding read_arg_line
read_arg_line-dollar n r h = rw (parse_int-itoa 32 n h (omega arith)) refl

read_arg_body_lem :
    (digits arg rest : Bytes) (e : Error)
    → read_arg_body digits (num (pos (length arg))) (reader (arg ++ 13 ∷ 10 ∷ rest) e)
      ≡ ok arg (reader rest e)
unfolding read_arg_body
read_arg_body_lem digits arg rest e =
    rw
      (
        sym (append_assoc arg (13 ∷ 10 ∷ []) rest),
        sym (length-append arg (13 ∷ 10 ∷ [])),
        read_n_lem (arg ++ 13 ∷ 10 ∷ []) rest e,
        take-append_length arg (13 ∷ 10 ∷ []),
      )
      refl

pub length-itoa_small : (n : ℕ) → n < 2 ^ 63 → length (itoa n) ≤ 19
length-itoa_small n h = length-itoa_le 18 n (omega arith)

read_arg_lem :
    (arg rest : Bytes) (e : Error)
    → FitsArg arg
    → read_arg (reader (append_arg arg ++ rest) e) ≡ ok arg (reader rest e)
unfolding read_arg
read_arg_lem arg rest e h =
    rw
      (
        append_arg-split arg rest,
        read_line_lem (b'$' ∷ itoa (length arg)) (arg ++ 13 ∷ 10 ∷ rest) e
            (omega arith, digits-NoNewline (itoa (length arg)) (itoa-All (length arg)))
            (omega (arith, length-itoa_small (length arg) (omega arith))),
        read_arg_line-dollar (length arg) (reader (arg ++ 13 ∷ 10 ∷ rest) e) h,
        read_arg_body_lem (itoa (length arg)) arg rest e,
      )
      refl

read_args_lem :
    (args done : List Bytes) (rest : Bytes) (e : Error)
    → All FitsArg args
    → read_args (length args) done (reader (append_each args ++ rest) e)
      ≡ ok (done ++ args) (reader rest e)
unfolding read_args append_each
read_args_lem [] done rest e h = rw (append-nil done) refl
read_args_lem (arg ∷ args) done rest e (ha, h) =
    rw
      (
        append_assoc (append_arg arg) (append_each args) rest,
        read_arg_lem arg (append_each args ++ rest) e ha,
        read_args_lem args (done ++ arg ∷ []) rest e h,
        append_assoc done (arg ∷ []) args,
      )
      refl

append_args-split :
    (args : List Bytes) (rest : Bytes)
    → append_args args ++ rest ≡ (b'*' ∷ itoa (length args)) ++ 13 ∷ 10 ∷ (append_each args ++ rest)
unfolding append_args
append_args-split args rest = simp append_assoc

read_head_lem :
    (max_cap n : ℕ) (r : Reader)
    → n < 2 ^ 63
    → n ≤ max_cap
    → read_head max_cap (b'*' ∷ itoa n) r ≡ read_args n [] r
unfolding read_head
read_head_lem max_cap n r h k = rw (parse_int-itoa 64 n h (omega arith), fits max_cap n k) refl
  where
    fits : (m n : ℕ) → n ≤ m → ltb m n ≡ false
    fits m n k = ground arith

-- A command written by `appendArgs` is read back by `parseReq` with every argument intact,
-- whatever bytes the arguments hold and whatever follows on the connection, and what follows is
-- left unread. The arguments fit int32, and their number fits int64 and the run-time's `make`.
pub parse_req-append_args :
    (max_cap : ℕ) (args : List Bytes) (rest : Bytes) (e : Error)
    → All FitsArg args
    → length args < 2 ^ 63
    → length args ≤ max_cap
    → parse_req max_cap (reader (append_args args ++ rest) e) ≡ ok args (reader rest e)
unfolding parse_req
parse_req-append_args max_cap args rest e h k m =
    rw
      (
        append_args-split args rest,
        read_line_lem (b'*' ∷ itoa (length args)) (append_each args ++ rest) e
            (omega arith, digits-NoNewline (itoa (length args)) (itoa-All (length args)))
            (omega (arith, length-itoa_small (length args) k)),
        read_head_lem max_cap (length args) (reader (append_each args ++ rest) e) k m,
        read_args_lem args [] rest e h,
      )
      refl

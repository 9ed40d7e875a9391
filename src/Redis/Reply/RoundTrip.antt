-- ===== src/Redis/Reply/RoundTrip.antt =====
-- redis/parser.go: what a node writes, `parseReply` reads back.
use smartproxy.Common.{
  ℕ, zero, suc, ◌+◌, take, ◌^◌, ◌≤◌, ◌<◌, ◌≡◌, refl, sym, ◌∙◌, ap, false, [], ◌∷◌, ◌++◌,
  append_assoc, Bytes, codes, ltb, arith, length, length-append, take-append_length,
  drop-append_length, All, bytes_eq,
}
use smartproxy.Common.Int.{ℤ, pos, negsuc}
use smartproxy.Text.{itoa, format_int, num, atoi}
use smartproxy.Text.Decimal.{
  IsDigit, length-itoa_le, itoa-All, parse_int-itoa, Fits64, parse_int-format_int,
}
use smartproxy.Errors.{Error, redis_error, nil_error}
use smartproxy.Wire.{Reader, Outcome, ok, failed, ◌>>=◌}
use smartproxy.Wire.RoundTrip.{
  reader, NoNewline, NoNewline-cr, cut_line-found, digits-NoNewline, length-itoa_small,
}
use smartproxy.Redis.Format.{
  Value, Values, nil, cons, nil_value, int_value, str_value, list_value, count, crlf, nil_bulk,
}
use smartproxy.Redis.Reply.{
  got_str, got_int, got_multi, drop_cr, line_of, read_line, read_n, is_too_long, read_bulk,
  number_reply, bulk_reply, multi_reply, on_reply, parse_with,
}

-- The bytes of a reply in the protocol of Redis, as a node writes them.
unfoldable mutual
  pub encode : Value → Bytes
  encode nil_value = nil_bulk
  encode (int_value v) = (b':' ∷ format_int v) ++ crlf
  encode (str_value s) = (b'$' ∷ itoa (length s)) ++ crlf ++ s ++ crlf
  encode (list_value vs) = (b'*' ∷ itoa (count vs)) ++ crlf ++ encode_all vs

  pub encode_all : Values → Bytes
  encode_all nil = []
  encode_all (cons v vs) = encode v ++ encode_all vs

-- What fits the parser: numbers and lengths fit int64, `make` takes the lists, and they are nested
-- at most as deep as the first argument.
unfoldable mutual
  pub Fits : ℕ → ℕ → Value → Type 0
  Fits max_cap depth nil_value = Unit
  Fits max_cap depth (int_value v) = Fits64 v
  Fits max_cap depth (str_value s) = length s < 2 ^ 63
  Fits max_cap zero (list_value vs) = ⊥
  Fits max_cap (suc depth) (list_value vs) =
      (count vs < 2 ^ 63) × (count vs ≤ max_cap) × FitsAll max_cap depth vs

  pub FitsAll : ℕ → ℕ → Values → Type 0
  FitsAll max_cap depth nil = Unit
  FitsAll max_cap depth (cons v vs) = Fits max_cap depth v × FitsAll max_cap depth vs

drop_cr-append : (s : Bytes) → drop_cr (s ++ 13 ∷ []) ≡ s
unfolding drop_cr
drop_cr-append [] = refl
drop_cr-append (c ∷ []) = refl
drop_cr-append (c ∷ d ∷ s) = ap (λ r. c ∷ r) (drop_cr-append (d ∷ s))

pub read_line_lem :
    (s rest : Bytes) (e : Error)
    → NoNewline s
    → length s < 4095
    → read_line (reader (s ++ 13 ∷ 10 ∷ rest) e) ≡ ok s (reader rest e)
unfolding read_line line_of
read_line_lem s rest e h k = rw (sym (append_assoc s (13 ∷ []) (10 ∷ rest))) (
    rw
      (cut_line-found 4096 (s ++ 13 ∷ []) rest (NoNewline-cr s h)
        (omega (arith, length-append s (13 ∷ []))))
      (ap (λ l. ok l (reader rest e)) (drop_cr-append s)))

read_n_lem :
    (xs rest : Bytes) (e : Error)
    → read_n (length xs) (reader (xs ++ rest) e) ≡ ok xs (reader rest e)
unfolding read_n
read_n_lem xs rest e =
    rw (not_short xs rest, take-append_length xs rest, drop-append_length xs rest) refl
  where
    not_short : (xs rest : Bytes) → ltb (length (xs ++ rest)) (length xs) ≡ false
    not_short xs rest = ground (arith, length-append xs rest)

not_too_long : (n len : ℕ) → n + 2 ≤ len → is_too_long n len ≡ false
unfolding is_too_long
not_too_long n len h = let e : ltb len (n + 2) ≡ false = ground arith in rw e refl

read_bulk-there : (n : ℕ) (r : Reader) → n + 2 ≤ length r.unread → read_bulk n r ≡ read_n (n + 2) r
unfolding read_bulk
read_bulk-there n r h = rw (not_too_long n (length r.unread) h) refl

bulk_fits : (s rest : Bytes) → length s + 2 ≤ length (s ++ 13 ∷ 10 ∷ rest)
bulk_fits s rest = omega (arith, length-append s (13 ∷ 10 ∷ rest))

digits_not_minus : (s : Bytes) → All IsDigit s → bytes_eq s (codes "-1") ≡ false
unfolding bytes_eq
digits_not_minus [] h = refl
digits_not_minus (c ∷ s) (hc, h) = ground arith

format_int-NoNewline : (v : ℤ) → NoNewline (format_int v)
unfolding format_int
format_int-NoNewline (pos n) = digits-NoNewline (itoa n) (itoa-All n)
format_int-NoNewline (negsuc n) = (omega arith, digits-NoNewline (itoa (suc n)) (itoa-All (suc n)))

length-format_int : (v : ℤ) → Fits64 v → length (format_int v) ≤ 20
unfolding format_int
length-format_int (pos n) h = omega (arith, length-itoa_small n h)
length-format_int (negsuc n) h = omega (arith, length-itoa_le 18 (suc n) (omega arith))

module _ (sprintf : Bytes → Bytes) where
  module _ {A : Type 0} (p : ℤ → Reader → Outcome A) where
    line-with :
        (s rest : Bytes) (e : Error)
        → NoNewline s
        → length s < 4095
        → parse_with sprintf p (reader (s ++ 13 ∷ 10 ∷ rest) e)
          ≡ on_reply sprintf p s (reader rest e)
    unfolding parse_with
    line-with s rest e h k = ap (λ o. o >>= on_reply sprintf p) (read_line_lem s rest e h k)

    pub parse-error :
        (s rest : Bytes) (e : Error)
        → NoNewline s
        → length s < 4094
        → parse_with sprintf p (reader ((b'-' ∷ s) ++ 13 ∷ 10 ∷ rest) e)
          ≡ failed (redis_error (sprintf s)) (reader rest e)
    unfolding on_reply
    parse-error s rest e h k = line-with (b'-' ∷ s) rest e (omega arith, h) (omega arith)

    pub parse-status :
        (s rest : Bytes) (e : Error)
        → NoNewline s
        → length s < 4094
        → parse_with sprintf p (reader ((b'+' ∷ s) ++ 13 ∷ 10 ∷ rest) e)
          ≡ ok (got_str s) (reader rest e)
    unfolding on_reply
    parse-status s rest e h k = line-with (b'+' ∷ s) rest e (omega arith, h) (omega arith)

    pub parse-int :
        (v : ℤ) (rest : Bytes) (e : Error)
        → Fits64 v
        → parse_with sprintf p (reader ((b':' ∷ format_int v) ++ 13 ∷ 10 ∷ rest) e)
          ≡ ok (got_int v) (reader rest e)
    unfolding on_reply number_reply
    parse-int v rest e h =
        line-with (b':' ∷ format_int v) rest e (omega arith, format_int-NoNewline v)
          (omega (arith, length-format_int v h))
        ∙ rw (parse_int-format_int v h) refl

    pub parse-nil :
        (rest : Bytes) (e : Error)
        → parse_with sprintf p (reader (nil_bulk ++ rest) e) ≡ failed nil_error (reader rest e)
    unfolding on_reply bytes_eq
    parse-nil rest e = line-with (codes "$-1") rest e (omega arith) (omega arith)

    bulk_lem :
        (digits s rest : Bytes) (e : Error)
        → bulk_reply sprintf p digits (num (pos (length s))) (reader (s ++ 13 ∷ 10 ∷ rest) e)
          ≡ ok (got_str s) (reader rest e)
    unfolding bulk_reply
    bulk_lem digits s rest e =
        ap (λ (o : Outcome Bytes). o >>= λ b r. ok (got_str (take (length s) b)) r)
          (read_bulk-there (length s) (reader (s ++ 13 ∷ 10 ∷ rest) e) (bulk_fits s rest))
        ∙ rw
            (
              sym (append_assoc s (13 ∷ 10 ∷ []) rest),
              sym (length-append s (13 ∷ 10 ∷ [])),
              read_n_lem (s ++ 13 ∷ 10 ∷ []) rest e,
              take-append_length s (13 ∷ 10 ∷ []),
            )
            refl

    pub parse-bulk :
        (s rest : Bytes) (e : Error)
        → length s < 2 ^ 63
        → parse_with sprintf p
            (reader ((b'$' ∷ itoa (length s)) ++ 13 ∷ 10 ∷ (s ++ 13 ∷ 10 ∷ rest)) e)
          ≡ ok (got_str s) (reader rest e)
    unfolding on_reply atoi
    parse-bulk s rest e h =
        line-with (b'$' ∷ itoa (length s)) (s ++ 13 ∷ 10 ∷ rest) e
          (omega arith, digits-NoNewline (itoa (length s)) (itoa-All (length s)))
          (omega (arith, length-itoa_small (length s) h))
        ∙ rw
            (
              digits_not_minus (itoa (length s)) (itoa-All (length s)),
              parse_int-itoa 64 (length s) h (omega arith),
            )
            (bulk_lem (itoa (length s)) s rest e)

    pub parse-multi :
        (n : ℕ) (rest : Bytes) (e : Error)
        → n < 2 ^ 63
        → parse_with sprintf p (reader ((b'*' ∷ itoa n) ++ 13 ∷ 10 ∷ rest) e)
          ≡ (p (pos n) (reader rest e) >>= λ a r. ok (got_multi a) r)
    unfolding on_reply multi_reply
    parse-multi n rest e h =
        line-with (b'*' ∷ itoa n) rest e (omega arith, digits-NoNewline (itoa n) (itoa-All n))
          (omega (arith, length-itoa_small n h))
        ∙ rw (digits_not_minus (itoa n) (itoa-All n), parse_int-itoa 64 n h (omega arith)) refl

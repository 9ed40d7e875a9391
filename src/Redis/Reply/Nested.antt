-- ===== src/Redis/Reply/Nested.antt =====
-- redis/parser.go: `parseReply` with `parseSlice` reads nested replies back.
use smartproxy.Common.{
  ℕ, zero, suc, ◌+◌, ◌≤◌, ◌≡◌, refl, sym, ◌∙◌, ap, ◌∷◌, ◌++◌, append_assoc, Bytes, arith, length,
  bytes_eq,
}
use smartproxy.Common.Int.{ℤ, pos}
use smartproxy.Text.{itoa, format_int}
use smartproxy.Errors.{Error, nil_error}
use smartproxy.Wire.{Reader, Outcome, ok, failed, ◌>>=◌}
use smartproxy.Wire.RoundTrip.{reader}
use smartproxy.Redis.Format.{
  Value, Values, nil, cons, nil_value, int_value, str_value, list_value, count,
}
use smartproxy.Redis.Reply.{
  Got, got_str, got_int, got_multi, is_nil, as_element, slice_loop, parse_slice, parse_nested,
  parse_reply,
}
use smartproxy.Redis.Reply.RoundTrip.{
  encode, encode_all, Fits, FitsAll, parse-int, parse-nil, parse-bulk, parse-multi,
}
use smartproxy.Redis.Reply.Fuel.{parse_reply-fuel}

-- What `parseReply` returns for a reply: nil is an error of its own.
unfoldable pub result_of : Value → Reader → Outcome (Got Values)
result_of nil_value r = failed nil_error r
result_of (int_value v) r = ok (got_int v) r
result_of (str_value s) r = ok (got_str s) r
result_of (list_value vs) r = ok (got_multi vs) r

as_element-result_of : (v : Value) (r : Reader) → as_element (result_of v r) ≡ ok v r
unfolding as_element is_nil bytes_eq result_of
as_element-result_of nil_value r = refl
as_element-result_of (int_value v) r = refl
as_element-result_of (str_value s) r = refl
as_element-result_of (list_value vs) r = refl

mutual
  unfolding Fits FitsAll

  Fits-deeper : (max_cap f g : ℕ) (v : Value) → f ≤ g → Fits max_cap f v → Fits max_cap g v
  Fits-deeper max_cap f g nil_value le h = h
  Fits-deeper max_cap f g (int_value v) le h = h
  Fits-deeper max_cap f g (str_value s) le h = h
  Fits-deeper max_cap zero g (list_value vs) le h = elim h [ ]
  Fits-deeper max_cap (suc f) zero (list_value vs) le h = absurd (omega arith)
  Fits-deeper max_cap (suc f) (suc g) (list_value vs) le (a, b, h) =
      (a, b, FitsAll-deeper max_cap f g vs (omega arith) h)

  FitsAll-deeper :
      (max_cap f g : ℕ) (vs : Values) → f ≤ g → FitsAll max_cap f vs → FitsAll max_cap g vs
  FitsAll-deeper max_cap f g nil le h = h
  FitsAll-deeper max_cap f g (cons v vs) le (h, hs) =
      (Fits-deeper max_cap f g v le h, FitsAll-deeper max_cap f g vs le hs)

pub encode-int :
    (v : ℤ) (rest : Bytes) → encode (int_value v) ++ rest ≡ (b':' ∷ format_int v) ++ 13 ∷ 10 ∷ rest
unfolding encode
encode-int v rest = simp append_assoc

pub encode-str :
    (s rest : Bytes)
    → encode (str_value s) ++ rest ≡ (b'$' ∷ itoa (length s)) ++ 13 ∷ 10 ∷ (s ++ 13 ∷ 10 ∷ rest)
unfolding encode
encode-str s rest = simp append_assoc

pub encode-list :
    (vs : Values) (rest : Bytes)
    → encode (list_value vs) ++ rest ≡ (b'*' ∷ itoa (count vs)) ++ 13 ∷ 10 ∷ (encode_all vs ++ rest)
unfolding encode
encode-list vs rest = simp append_assoc

module _ (sprintf : Bytes → Bytes) (max_cap : ℕ) where
  parse_slice_lem :
      (rec : Reader → Outcome (Got Values)) (n : ℕ) (r : Reader)
      → n ≤ max_cap
      → parse_slice sprintf max_cap rec (pos n) r ≡ slice_loop sprintf rec n r
  unfolding parse_slice
  parse_slice_lem rec n r le = ground arith

  mutual
    unfolding Fits FitsAll parse_nested slice_loop result_of count encode_all

    nested_lem :
        (f : ℕ) (v : Value) (rest : Bytes) (e : Error)
        → Fits max_cap f v
        → parse_nested sprintf max_cap (suc f) (reader (encode v ++ rest) e)
          ≡ result_of v (reader rest e)
    nested_lem f nil_value rest e h =
        parse-nil sprintf (parse_slice sprintf max_cap (parse_nested sprintf max_cap f)) rest e
    nested_lem f (int_value v) rest e h =
        ap (λ s. parse_nested sprintf max_cap (suc f) (reader s e)) (encode-int v rest)
        ∙ parse-int sprintf (parse_slice sprintf max_cap (parse_nested sprintf max_cap f)) v rest e
            h
    nested_lem f (str_value s) rest e h =
        ap (λ s. parse_nested sprintf max_cap (suc f) (reader s e)) (encode-str s rest)
        ∙ parse-bulk sprintf (parse_slice sprintf max_cap (parse_nested sprintf max_cap f)) s rest e
            h
    nested_lem zero (list_value vs) rest e h = elim h [ ]
    nested_lem (suc f) (list_value vs) rest e (a, b, h) =
        ap (λ s. parse_nested sprintf max_cap (suc (suc f)) (reader s e)) (encode-list vs rest)
        ∙ parse-multi sprintf (parse_slice sprintf max_cap (parse_nested sprintf max_cap (suc f)))
            (count vs) (encode_all vs ++ rest) e a
        ∙ ap (λ o. o >>= λ (ws : Values) (r : Reader). ok (got_multi ws) r)
            (parse_slice_lem (parse_nested sprintf max_cap (suc f)) (count vs)
                (reader (encode_all vs ++ rest) e) b
              ∙ elements_lem f vs rest e h)

    elements_lem :
        (f : ℕ) (vs : Values) (rest : Bytes) (e : Error)
        → FitsAll max_cap f vs
        → slice_loop sprintf
            (parse_nested sprintf max_cap (suc f))
            (count vs)
            (reader (encode_all vs ++ rest) e)
          ≡ ok vs (reader rest e)
    elements_lem f nil rest e h = refl
    elements_lem f (cons v vs) rest e (h, hs) =
        ap
          (λ s.
            slice_loop sprintf (parse_nested sprintf max_cap (suc f)) (suc (count vs)) (reader s e))
          (append_assoc (encode v) (encode_all vs) rest)
        ∙ ap
            (λ o. as_element o >>= λ (w : Value) (r : Reader).
              slice_loop sprintf (parse_nested sprintf max_cap (suc f)) (count vs) r
              >>= λ (ws : Values) (r' : Reader). ok (cons w ws) r')
            (nested_lem f v (encode_all vs ++ rest) e h)
        ∙ ap
            (λ o. o >>= λ (w : Value) (r : Reader).
              slice_loop sprintf (parse_nested sprintf max_cap (suc f)) (count vs) r
              >>= λ (ws : Values) (r' : Reader). ok (cons w ws) r')
            (as_element-result_of v (reader (encode_all vs ++ rest) e))
        ∙ ap (λ o. o >>= λ (ws : Values) (r : Reader). ok (cons v ws) r)
            (elements_lem f vs rest e hs)

  -- A value that a node writes in the protocol of Redis, nested to any depth, is what the client
  -- reads (a nil at the top as the error `Nil`), and the bytes behind it are left; the lengths and
  -- the numbers fit int64, and `make` takes the lists.
  pub parse_reply-encode :
      (depth : ℕ) (v : Value) (rest : Bytes) (e : Error)
      → Fits max_cap depth v
      → parse_reply sprintf max_cap (reader (encode v ++ rest) e) ≡ result_of v (reader rest e)
  parse_reply-encode depth v rest e h =
      let n = length (encode v ++ rest) in
      sym (
        parse_reply-fuel sprintf max_cap (suc (n + depth)) (reader (encode v ++ rest) e)
          (omega arith))
      ∙ nested_lem (n + depth) v rest e (Fits-deeper max_cap depth (n + depth) v (omega arith) h)

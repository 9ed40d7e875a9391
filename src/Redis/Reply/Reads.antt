-- ===== src/Redis/Reply/Reads.antt =====
-- redis/command.go: what `parseReply` of a command stores for each form of a node's reply.
use smartproxy.Common.{
  ℕ, ◌^◌, ◌≤◌, ◌<◌, ◌≡◌, refl, ◌∙◌, ap, Bool, true, false, List, [], ◌∷◌, ◌++◌, append_assoc,
  Option, Bytes, arith, length,
}
use smartproxy.Common.Int.{ℤ, pos}
use smartproxy.Text.Decimal.{Fits64}
use smartproxy.Errors.{Error}
use smartproxy.Wire.{Reader, Outcome, ok, failed, ◌>>=◌, cut_line}
use smartproxy.Wire.RoundTrip.{reader, NoNewline}
use smartproxy.Redis.Format.{Values, int_value, str_value, list_value, count, crlf}
use smartproxy.Redis.Command.{
  Val, Cmd, any, slice, status, int, duration, bool, string, float, string_slice, bool_slice,
  string_string_map, string_int_map, zslice, scan, cluster_slots, has_reply,
}
use smartproxy.Text.{itoa}
use smartproxy.Redis.Reply.{
  got_multi, got_str, got_int, is_nil, no_parser, parse_flat, parse_with, parse_reply, parse_slice,
  parse_nested, read_line, line_of, last_line,
}
use smartproxy.Redis.Reply.Typed.{as_string, each_of}
use smartproxy.Redis.Reply.Commands.{
  stored, assert_multi, bool_reply, float_reply, text_item, list_of, parse_by,
}
use smartproxy.Redis.Reply.RoundTrip.{
  encode, encode_all, Fits, parse-status, parse-int, parse-bulk, parse-multi,
}
use smartproxy.Redis.Reply.Nested.{
  result_of, encode-int, encode-str, encode-list, parse_reply-encode,
}
use smartproxy.Redis.Reply.Lists.{IsFlat, AllShort, strings, IsFlat-FitsAll, count-strings}

pub is_bool : Val → Bool
is_bool (bool b) = true
is_bool _ = false

module _ (sprintf : Bytes → Bytes) where
  pub flat_int :
      (v : ℤ) (rest : Bytes) (e : Error)
      → Fits64 v
      → parse_flat sprintf (reader (encode (int_value v) ++ rest) e)
        ≡ ok (got_int v) (reader rest e)
  unfolding parse_flat
  flat_int v rest e h =
      ap (λ bytes. parse_flat sprintf (reader bytes e)) (encode-int v rest)
      ∙ parse-int sprintf (no_parser sprintf) v rest e h

  pub flat_str :
      (s rest : Bytes) (e : Error)
      → length s < 2 ^ 63
      → parse_flat sprintf (reader (encode (str_value s) ++ rest) e)
        ≡ ok (got_str s) (reader rest e)
  unfolding parse_flat
  flat_str s rest e h =
      ap (λ bytes. parse_flat sprintf (reader bytes e)) (encode-str s rest)
      ∙ parse-bulk sprintf (no_parser sprintf) s rest e h

  -- A connection that ends before the reply.
  pub flat_end : (e : Error) → parse_flat sprintf (reader [] e) ≡ failed e (reader [] e)
  unfolding parse_flat parse_with read_line line_of last_line cut_line
  flat_end e = refl

  pub flat_status :
      (s rest : Bytes) (e : Error)
      → NoNewline s
      → length s < 4094
      → parse_flat sprintf (reader (b'+' ∷ (s ++ crlf) ++ rest) e) ≡ ok (got_str s) (reader rest e)
  unfolding parse_flat
  flat_status s rest e h k =
      ap (λ bytes. parse_flat sprintf (reader (b'+' ∷ bytes) e)) (append_assoc s crlf rest)
      ∙ parse-status sprintf (no_parser sprintf) s rest e h k

module _ (sprintf : Bytes → Bytes) (max_cap : ℕ) (parse_float : Bytes → ℕ × Option Error) where
  pub failed_by :
      (v : Val) (c : Cmd) (e : Error) (s r : Reader)
      → has_reply v ≡ true
      → (is_bool v ≡ true → is_nil e ≡ false)
      → ((A : Type 0) (p : ℤ → Reader → Outcome A) → parse_with sprintf p s ≡ failed e r)
      → parse_by sprintf max_cap parse_float v c s ≡ stored c (failed e r)
  unfolding parse_by has_reply is_bool parse_flat parse_reply parse_nested bool_reply float_reply
      stored
  failed_by (any v) c e s r h k fails = cc
  failed_by (slice v) c e s r h k fails =
      rw
        (fails Values
          (parse_slice sprintf max_cap (parse_nested sprintf max_cap (length s.unread))))
        refl
  failed_by (status v) c e s r h k fails = rw (fails _ (no_parser sprintf)) refl
  failed_by (int v) c e s r h k fails = rw (fails _ (no_parser sprintf)) refl
  failed_by (duration p v) c e s r h k fails = rw (fails _ (no_parser sprintf)) refl
  failed_by (bool v) c e s r h k fails = rw (fails _ (no_parser sprintf)) (rw (k refl) refl)
  failed_by (string v) c e s r h k fails = rw (fails _ (no_parser sprintf)) refl
  failed_by (float v) c e s r h k fails = rw (fails _ (no_parser sprintf)) refl
  failed_by (string_slice v) c e s r h k fails =
      rw
        (fails (List Bytes)
          (list_of sprintf max_cap parse_float (text_item sprintf max_cap parse_float)))
        refl
  failed_by (bool_slice v) c e s r h k fails = cc
  failed_by (string_string_map v) c e s r h k fails = cc
  failed_by (string_int_map v) c e s r h k fails = cc
  failed_by (zslice v) c e s r h k fails = cc
  failed_by (scan cursor keys) c e s r h k fails = cc
  failed_by (cluster_slots v) c e s r h k fails = cc

  read_text :
      (s rest : Bytes) (e : Error)
      → length s < 2 ^ 63
      → text_item sprintf max_cap parse_float (reader (encode (str_value s) ++ rest) e)
        ≡ ok s (reader rest e)
  unfolding text_item parse_flat as_string
  read_text s rest e h =
      ap (λ bytes. text_item sprintf max_cap parse_float (reader bytes e)) (encode-str s rest)
      ∙ ap (λ o. o >>= as_string) (parse-bulk sprintf (no_parser sprintf) s rest e h)

  read_texts :
      (list : List Bytes) (rest : Bytes) (e : Error)
      → AllShort list
      → each_of
          (text_item sprintf max_cap parse_float)
          (length list)
          (reader (encode_all (strings list) ++ rest) e)
        ≡ ok list (reader rest e)
  unfolding each_of encode_all strings
  read_texts [] rest e h = refl
  read_texts (s ∷ list) rest e (a, h) =
      rw
        (
          append_assoc (encode (str_value s)) (encode_all (strings list)) rest,
          read_text s (encode_all (strings list) ++ rest) e a,
        )
        (ap (λ o. o >>= λ (l : List Bytes) (r : Reader). ok (s ∷ l) r) (read_texts list rest e h))

  pub read_list :
      (c : Cmd) (old list : List Bytes) (rest : Bytes) (e : Error)
      → length list < 2 ^ 63
      → length list ≤ max_cap
      → AllShort list
      → parse_by sprintf max_cap parse_float
          (string_slice old)
          c
          (reader (encode (list_value (strings list)) ++ rest) e)
        ≡ stored c (ok (string_slice list) (reader rest e))
  unfolding parse_by assert_multi
  read_list c old list rest e a b h =
      let item = text_item sprintf max_cap parse_float in
      let behind = encode_all (strings list) ++ rest in
      ap (λ bytes. parse_by sprintf max_cap parse_float (string_slice old) c (reader bytes e))
        (encode-list (strings list) rest)
      ∙ ap
          (λ n.
            parse_by sprintf max_cap parse_float (string_slice old) c
              (reader ((b'*' ∷ itoa n) ++ 13 ∷ 10 ∷ behind) e))
          (count-strings list)
      ∙ ap (λ o. stored c (o >>= assert_multi string_slice))
          (parse-multi sprintf (list_of sprintf max_cap parse_float item) (length list) behind e a
            ∙ ap (λ o. o >>= λ (texts : List Bytes) (r : Reader). ok (got_multi texts) r)
                (list_of_lem item (length list) (reader behind e) b ∙ read_texts list rest e h))
    where
      list_of_lem :
          {A : Type 0} (item : Reader → Outcome A) (n : ℕ) (r : Reader)
          → n ≤ max_cap
          → list_of sprintf max_cap parse_float item (pos n) r ≡ each_of item n r
      list_of_lem item n r le = unfold list_of in ground arith

  pub read_slice :
      (c : Cmd) (old vs : Values) (rest : Bytes) (e : Error)
      → count vs < 2 ^ 63
      → count vs ≤ max_cap
      → IsFlat vs
      → parse_by sprintf max_cap parse_float
          (slice old)
          c
          (reader (encode (list_value vs) ++ rest) e)
        ≡ stored c (ok (slice vs) (reader rest e))
  unfolding parse_by assert_multi result_of
  read_slice c old vs rest e a b h =
      ap (λ o. stored c (o >>= assert_multi slice))
        (parse_reply-encode sprintf max_cap 1 (list_value vs) rest e (flat_fits vs a b h))
    where
      flat_fits :
          (vs : Values)
          → count vs < 2 ^ 63
          → count vs ≤ max_cap
          → IsFlat vs
          → Fits max_cap 1 (list_value vs)
      flat_fits vs a b h = unfold Fits in (a, b, IsFlat-FitsAll max_cap vs h)

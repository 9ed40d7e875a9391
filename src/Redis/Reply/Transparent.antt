-- ===== src/Redis/Reply/Transparent.antt =====
-- redis/command.go: the client reads the reply of a node, and `Reply` writes it for the client of the
-- proxy. `format_float` is as in Redis/Command, the other parameters as in Redis/Reply/Commands.
use smartproxy.Common.{
  ℕ, ◌^◌, ◌≤◌, ◌<◌, ◌≡◌, ◌≢◌, refl, ◌∙◌, ap, Bool, true, false, List, ◌∷◌, ◌++◌, append_assoc,
  Option, none, some, Bytes, codes, if◌then◌else◌, arith, length, bytes_eq_iff,
}
use smartproxy.Common.Int.{ℤ, pos}
use smartproxy.Text.Decimal.{Fits64}
use smartproxy.Errors.{Error, redis_error, nil_error, error_text}
use smartproxy.Wire.{Reader, ok, failed, ◌>>=◌}
use smartproxy.Wire.RoundTrip.{reader, NoNewline}
use smartproxy.Redis.Format.{
  Values, nil_value, int_value, str_value, list_value, count, crlf, error_line, format_string,
  format_status, format_int_reply, format_bool, format_duration, format_ms, format_sec,
  format_string_slice, format_slice, second, millisecond,
}
use smartproxy.Redis.Command.{
  Val, Cmd, slice, status, int, duration, bool, string, string_slice, has_reply, error_reply,
  value_reply, reply_of, reply,
}
use smartproxy.Redis.Reply.{is_nil, parse_with}
use smartproxy.Redis.Reply.Commands.{
  Parsing, parsed, crashed, stored, assert_str, assert_int, times64, bool_reply, parse_by,
  parse_cmd,
}
use smartproxy.Redis.Reply.RoundTrip.{encode, parse-error, parse-nil}
use smartproxy.Redis.Reply.Lists.{
  IsFlat, AllShort, strings, add_values-encode_all, format_string_slice-strings,
}
use smartproxy.Redis.Reply.Durations.{FitsScaled, quotient-times64}
use smartproxy.Redis.Reply.Reads.{
  is_bool, failed_by, read_list, read_slice, flat_int, flat_str, flat_status,
}

-- The replies of a node to a command of each type, for the types that `Reply` supports.
module _ (sprintf : Bytes → Bytes) (max_cap : ℕ) where
  pub data Answers : Val → Bytes → Type 0 where
    answers_status :
        (old s : Bytes) → NoNewline s → length s < 4094 → Answers (status old) (b'+' ∷ (s ++ crlf))
    answers_int : (old v : ℤ) → Fits64 v → Answers (int old) (encode (int_value v))
    answers_bool :
        (old b : Bool) → Answers (bool old) (encode (int_value (pos (if b then 1 else 0))))
    answers_seconds :
        (old t : ℤ)
        → Fits64 t
        → FitsScaled t second
        → Answers (duration second old) (encode (int_value t))
    answers_milliseconds :
        (old t : ℤ)
        → Fits64 t
        → FitsScaled t millisecond
        → Answers (duration millisecond old) (encode (int_value t))
    answers_string :
        (old s : Bytes) → length s < 2 ^ 63 → Answers (string old) (encode (str_value s))
    answers_strings :
        (old list : List Bytes)
        → length list < 2 ^ 63
        → length list ≤ max_cap
        → AllShort list
        → Answers (string_slice old) (encode (list_value (strings list)))
    answers_slice :
        (old vs : Values)
        → count vs < 2 ^ 63
        → count vs ≤ max_cap
        → IsFlat vs
        → Answers (slice old) (encode (list_value vs))
    answers_nil : (v : Val) → has_reply v ≡ true → is_bool v ≡ false → Answers v (encode nil_value)
    answers_error :
        (v : Val) (s : Bytes)
        → has_reply v ≡ true
        → NoNewline s
        → length s < 4094
        → sprintf s ≡ s
        → s ≢ codes "redis: nil"
        → Answers v (b'-' ∷ (s ++ crlf))

-- Only a type with a `Reply` is answered so.
pub Answers-has_reply :
    {v : Val} {bytes : Bytes} (sprintf : Bytes → Bytes) (max_cap : ℕ)
    → Answers sprintf max_cap v bytes
    → has_reply v ≡ true
unfolding has_reply
Answers-has_reply sprintf max_cap (answers_status old s h k) = refl
Answers-has_reply sprintf max_cap (answers_int old v h) = refl
Answers-has_reply sprintf max_cap (answers_bool old b) = refl
Answers-has_reply sprintf max_cap (answers_seconds old t h k) = refl
Answers-has_reply sprintf max_cap (answers_milliseconds old t h k) = refl
Answers-has_reply sprintf max_cap (answers_string old s h) = refl
Answers-has_reply sprintf max_cap (answers_strings old list a b h) = refl
Answers-has_reply sprintf max_cap (answers_slice old vs a b h) = refl
Answers-has_reply sprintf max_cap (answers_nil v h k) = h
Answers-has_reply sprintf max_cap (answers_error v s h k l m o) = h

no_nil : (s : Bytes) → s ≢ codes "redis: nil" → is_nil (redis_error s) ≡ false
unfolding is_nil
no_nil s h = ground (arith, bytes_eq_iff s (codes "redis: nil"))

error_reply_lem :
    (s : Bytes) → s ≢ codes "redis: nil" → error_reply (redis_error s) ≡ b'-' ∷ (s ++ crlf)
unfolding error_reply error_line error_text
error_reply_lem s h = ground (arith, bytes_eq_iff s (codes "redis: nil"))

module _ (format_float : ℕ → Bytes) where
  -- What the proxy writes for the command after the reply of the node, and the rest of the input.
  pub relayed : Parsing → Option (Bytes × Reader)
  relayed (parsed c err r) = some (reply format_float c, r)
  relayed crashed = none

  -- What `parse_cmd` makes of the reply of a node: a value, nil, or the error of the node.
  pub data Read (c : Cmd) (bytes : Bytes) (r : Reader) (p : Parsing) : Type 0 where
    read_val :
        (w : Val) → p ≡ stored c (ok w r) → value_reply format_float w ≡ bytes → Read c bytes r p
    read_error :
        (s : Bytes)
        → p ≡ stored c (failed (redis_error s) r)
        → error_reply (redis_error s) ≡ bytes
        → Read c bytes r p

  relayed-Read :
      {bytes : Bytes} {r : Reader} {p : Parsing} (c : Cmd)
      → Read c bytes r p
      → c.err ≡ none
      → has_reply c.val ≡ true
      → relayed p ≡ some (bytes, r)
  unfolding relayed stored reply reply_of
  relayed-Read c (read_val w e k) n h = rw (e, stored, n, k) refl
  relayed-Read c (read_error s e k) n h = rw (e, stored, h, k) refl

  module _ (sprintf : Bytes → Bytes) (max_cap : ℕ) (parse_float : Bytes → ℕ × Option Error) where
    pub parse_by-Read :
        {v : Val} {bytes : Bytes} (c : Cmd) (rest : Bytes) (e : Error)
        → Answers sprintf max_cap v bytes
        → Read c bytes
            (reader rest e)
            (parse_by sprintf max_cap parse_float v c (reader (bytes ++ rest) e))
    unfolding parse_by assert_str assert_int bool_reply value_reply encode format_status
        format_int_reply format_bool format_string format_duration format_ms format_sec format_slice
        format_string_slice error_reply has_reply
    parse_by-Read c rest e (answers_status old s h k) =
        read_val (status s)
          (ap (λ o. stored c (o >>= assert_str status)) (flat_status sprintf s rest e h k)) refl
    parse_by-Read c rest e (answers_int old v h) =
        read_val (int v) (ap (λ o. stored c (o >>= assert_int int)) (flat_int sprintf v rest e h))
          refl
    parse_by-Read c rest e (answers_bool old true) =
        read_val (bool true)
          (ap (λ o. stored c (bool_reply o)) (flat_int sprintf (pos 1) rest e (omega arith))) refl
    parse_by-Read c rest e (answers_bool old false) =
        read_val (bool false)
          (ap (λ o. stored c (bool_reply o)) (flat_int sprintf (pos 0) rest e (omega arith))) refl
    parse_by-Read c rest e (answers_seconds old t h k) =
        read_val (duration second (times64 t second))
          (ap (λ o. stored c (o >>= assert_int λ (u : ℤ). duration second (times64 u second)))
            (flat_int sprintf t rest e h))
          (rw (quotient-times64 t second (omega arith) k) refl)
    parse_by-Read c rest e (answers_milliseconds old t h k) =
        read_val (duration millisecond (times64 t millisecond))
          (ap
            (λ o.
              stored c (o >>= assert_int λ (u : ℤ). duration millisecond (times64 u millisecond)))
            (flat_int sprintf t rest e h))
          (rw (quotient-times64 t millisecond (omega arith) k) refl)
    parse_by-Read c rest e (answers_string old s h) =
        read_val (string s)
          (ap (λ o. stored c (o >>= assert_str string)) (flat_str sprintf s rest e h)) refl
    parse_by-Read c rest e (answers_strings old list a b h) =
        read_val (string_slice list) (read_list sprintf max_cap parse_float c old list rest e a b h)
          (format_string_slice-strings list)
    parse_by-Read c rest e (answers_slice old vs a b h) =
        read_val (slice vs) (read_slice sprintf max_cap parse_float c old vs rest e a b h)
          (add_values-encode_all _ vs h)
    parse_by-Read c rest e (answers_nil v h k) =
        read_error (codes "redis: nil")
          (failed_by sprintf max_cap parse_float v c nil_error (reader (encode nil_value ++ rest) e)
            (reader rest e) h (λ b. cc) (λ A p. parse-nil sprintf p rest e))
          refl
    parse_by-Read c rest e (answers_error v s h k l m o) =
        read_error (sprintf s)
          (failed_by sprintf max_cap parse_float v c (redis_error (sprintf s))
            (reader (b'-' ∷ (s ++ crlf) ++ rest) e) (reader rest e) h (λ b. rw m (no_nil s o))
            (λ A p.
              ap (λ bytes. parse_with sprintf p (reader (b'-' ∷ bytes) e))
                (append_assoc s crlf rest)
              ∙ parse-error sprintf p s rest e k l))
          (rw m (error_reply_lem s o))

    -- The reply of a node, of a form that fits the command, reaches the client of the proxy byte for
    -- byte, and the client of the node has read no byte behind it. For a status, an error, a number,
    -- a flag, a time, a text, a list of texts, a flat list, and nil for any of them but a flag.
    pub relayed-parse_cmd :
        (c : Cmd) (bytes rest : Bytes) (e : Error)
        → c.err ≡ none
        → Answers sprintf max_cap c.val bytes
        → relayed (parse_cmd sprintf max_cap parse_float c (reader (bytes ++ rest) e))
          ≡ some (bytes, reader rest e)
    unfolding parse_cmd
    relayed-parse_cmd c bytes rest e n h =
        relayed-Read c (parse_by-Read c rest e h) n (Answers-has_reply sprintf max_cap h)

-- ===== src/Redis/Reply/Fuel.antt =====
-- redis/parser.go: the fuel of `parse_reply` makes no difference once it exceeds the input.
use smartproxy.Common.{
  ℕ, zero, suc, ◌≤◌, ◌<◌, ◌≡◌, refl, sym, ◌∙◌, ap, Bool, [], ◌∷◌, Bytes, codes, ltb, ◌==◌,
  if◌then◌else◌, arith, length, bytes_eq,
}
use smartproxy.Common.Int.{ℤ, pos, negsuc}
use smartproxy.Text.{Parsed, num, bad_syntax, out_of_range, parse_int, atoi}
use smartproxy.Wire.{Reader, Outcome, ok, failed, panicked, ◌>>=◌, cut_line}
use smartproxy.Wire.Safety.{left}
use smartproxy.Redis.Format.{Value, Values, cons}
use smartproxy.Redis.Reply.{
  Got, line_of, last_line, read_line, as_element, number_reply, bulk_reply, multi_reply, on_reply,
  parse_with, slice_loop, parse_slice, parse_nested, parse_reply,
}
use smartproxy.Redis.Reply.Bounds.{left-read_line, Takes, Takes-parse_nested, left-as_element}

-- Two parsers that agree on inputs of less than `n` bytes.
abbrev AgreeBelow : {A : Type 0} → ℕ → (Reader → Outcome A) → (Reader → Outcome A) → Type 0
AgreeBelow n p q = (r : Reader) → length r.unread < n → p r ≡ q r

if-agree {ℓ} :
    {A : Type ℓ} (b : Bool) (x x' y y' : A)
    → x ≡ x'
    → y ≡ y'
    → (if b then x else y) ≡ (if b then x' else y')
if-agree b x x' y y' h k = rw (h, k) refl

bind-agree :
    {A B : Type 0} (o : Outcome A) (f g : A → Reader → Outcome B) (n : ℕ)
    → left o ≤ n
    → ((a : A) (r : Reader) → length r.unread ≤ n → f a r ≡ g a r)
    → (o >>= f) ≡ (o >>= g)
bind-agree (ok a r) f g n le h = h a r le
bind-agree (failed e r) f g n le h = refl
bind-agree panicked f g n le h = refl

module _ (sprintf : Bytes → Bytes) where
  module _ {A : Type 0} (p q : ℤ → Reader → Outcome A) where
    multi_reply-agree :
        (digits : Bytes) (n : Parsed) (r : Reader)
        → ((v : ℤ) → p v r ≡ q v r)
        → multi_reply sprintf p digits n r ≡ multi_reply sprintf q digits n r
    unfolding multi_reply
    multi_reply-agree digits (num v) r h = rw (h v) refl
    multi_reply-agree digits bad_syntax r h = refl
    multi_reply-agree digits out_of_range r h = refl

    number_reply-agree :
        (digits : Bytes) (n : Parsed) (r : Reader)
        → number_reply sprintf p digits n r ≡ number_reply sprintf q digits n r
    unfolding number_reply
    number_reply-agree digits (num v) r = refl
    number_reply-agree digits bad_syntax r = refl
    number_reply-agree digits out_of_range r = refl

    bulk_reply-agree :
        (digits : Bytes) (n : Parsed) (r : Reader)
        → bulk_reply sprintf p digits n r ≡ bulk_reply sprintf q digits n r
    unfolding bulk_reply
    bulk_reply-agree digits (num (pos n)) r = refl
    bulk_reply-agree digits (num (negsuc zero)) r = refl
    bulk_reply-agree digits (num (negsuc (suc n))) r = refl
    bulk_reply-agree digits bad_syntax r = refl
    bulk_reply-agree digits out_of_range r = refl

    on_reply-agree :
        (line : Bytes) (r : Reader)
        → ((v : ℤ) → p v r ≡ q v r)
        → on_reply sprintf p line r ≡ on_reply sprintf q line r
    unfolding on_reply
    on_reply-agree [] r h = refl
    on_reply-agree (c ∷ s) r h = if-agree (c == b'-') _ _ _ _ refl (
        if-agree (c == b'+') _ _ _ _ refl (
          if-agree (c == b':') _ _ _ _ (number_reply-agree s (parse_int 64 s) r) (
            if-agree (c == b'$') _ _ _ _
              (if-agree (bytes_eq s (codes "-1")) _ _ _ _ refl (bulk_reply-agree s (atoi s) r))
              (if-agree (c == b'*') _ _ _ _
                (if-agree (bytes_eq s (codes "-1")) _ _ _ _ refl
                  (multi_reply-agree s (parse_int 64 s) r h))
                refl))))

    parse_with-agree :
        (n : ℕ) (r : Reader)
        → length r.unread ≤ suc n
        → ((v : ℤ) (s : Reader) → length s.unread ≤ n → p v s ≡ q v s)
        → parse_with sprintf p r ≡ parse_with sprintf q r
    unfolding parse_with
    parse_with-agree n r le h =
        bind-agree (read_line r) (on_reply sprintf p) (on_reply sprintf q) n
          (omega (arith, left-read_line r)) (λ line s k. on_reply-agree line s (λ v. h v s k))

  parse_with-empty :
      {A : Type 0} (p : ℤ → Reader → Outcome A) (r : Reader)
      → length r.unread ≤ 0
      → parse_with sprintf p r ≡ failed r.last r
  unfolding parse_with
  parse_with-empty {A} p r le = ap (λ o. o >>= on_reply sprintf p) (nothing r.unread r refl le)
    where
      nothing :
          (s : Bytes) (r : Reader) → r.unread ≡ s → length s ≤ 0 → read_line r ≡ failed r.last r
      nothing [] r h k = unfold read_line line_of cut_line last_line in rw h refl
      nothing (c ∷ s) r h k = absurd (omega arith)

  slice_loop-agree :
      (f g : Reader → Outcome (Got Values)) (n : ℕ)
      → Takes f
      → ((s : Reader) → length s.unread ≤ n → f s ≡ g s)
      → (k : ℕ) (r : Reader) → length r.unread ≤ n
      → slice_loop sprintf f k r ≡ slice_loop sprintf g k r
  unfolding slice_loop
  slice_loop-agree f g n takes h zero r le = refl
  slice_loop-agree f g n takes h (suc k) r le =
      bind-agree (as_element (f r))
        (λ (v : Value) (s : Reader).
          slice_loop sprintf f k s >>= λ (vs : Values) (t : Reader). ok (cons v vs) t)
        (λ (v : Value) (s : Reader).
          slice_loop sprintf g k s >>= λ (vs : Values) (t : Reader). ok (cons v vs) t)
        n (omega (arith, left-as_element sprintf (f r), takes r))
        (λ v s l.
          ap (λ o. o >>= λ (vs : Values) (t : Reader). ok (cons v vs) t)
            (slice_loop-agree f g n takes h k s l))
      ∙ ap
          (λ o. as_element o >>= λ (v : Value) (s : Reader).
            slice_loop sprintf g k s >>= λ (vs : Values) (t : Reader). ok (cons v vs) t)
          (h r le)

  module _ (max_cap : ℕ) where
    parse_slice-agree :
        (f g : Reader → Outcome (Got Values)) (n : ℕ)
        → Takes f
        → ((s : Reader) → length s.unread ≤ n → f s ≡ g s)
        → (k : ℤ) (r : Reader) → length r.unread ≤ n
        → parse_slice sprintf max_cap f k r ≡ parse_slice sprintf max_cap g k r
    unfolding parse_slice
    parse_slice-agree f g n takes h (negsuc k) r le = refl
    parse_slice-agree f g n takes h (pos k) r le =
        ap (λ o. if ltb max_cap k then panicked else o) (slice_loop-agree f g n takes h k r le)

    same_below :
        (f g n : ℕ)
        → n < f
        → n < g
        → (r : Reader) → length r.unread ≤ n
        → parse_nested sprintf max_cap f r ≡ parse_nested sprintf max_cap g r
    unfolding parse_nested
    same_below (suc f) (suc g) (suc n) hf hg r le =
        parse_with-agree (parse_slice sprintf max_cap (parse_nested sprintf max_cap f))
          (parse_slice sprintf max_cap (parse_nested sprintf max_cap g)) n r le
          (parse_slice-agree (parse_nested sprintf max_cap f) (parse_nested sprintf max_cap g) n
            (Takes-parse_nested sprintf max_cap f) (same_below f g n (omega arith) (omega arith)))
    same_below (suc f) (suc g) zero hf hg r le =
        parse_with-empty (parse_slice sprintf max_cap (parse_nested sprintf max_cap f)) r le
        ∙ sym (parse_with-empty (parse_slice sprintf max_cap (parse_nested sprintf max_cap g)) r le)
    same_below zero g n hf hg r le = absurd (omega arith)
    same_below (suc f) zero n hf hg r le = absurd (omega arith)

    -- Any fuel above the number of bytes there are gives the same result.
    pub parse_reply-fuel :
        (f : ℕ) (r : Reader)
        → length r.unread < f
        → parse_nested sprintf max_cap f r ≡ parse_reply sprintf max_cap r
    unfolding parse_reply
    parse_reply-fuel f r h =
        same_below f (suc (length r.unread)) (length r.unread) h (omega arith) r (omega arith)

-- ===== src/Redis/Reply/Bounds.antt =====
-- redis/parser.go: a reply takes bytes off the connection at every level of nesting, so that the
-- fuel of `parse_reply` is enough.
use smartproxy.Common.{
  ℕ, zero, suc, ◌+◌, ◌-◌, ◌≤◌, ◌≡◌, refl, ap, Bool, true, false, [], ◌∷◌, Bytes, codes, ltb, ◌==◌,
  if◌then◌else◌, arith, length, take, Bool-cases, inl, inr, bytes_eq,
}
use smartproxy.Common.Int.{ℤ, pos, negsuc}
use smartproxy.Text.{Parsed, num, bad_syntax, out_of_range, parse_int, atoi}
use smartproxy.Wire.{
  Reader, Outcome, ok, failed, panicked, ◌>>=◌, Cut, found, full, ended, keep, cut_line,
}
use smartproxy.Wire.Safety.{left, left-bind, length-drop_le, cut_left, cut_left_pred}
use smartproxy.Redis.Format.{Value, Values, cons}
use smartproxy.Redis.Reply.{
  Got, got_str, got_multi, put_back, last_line, line_of, read_line, read_n, is_too_long, read_bulk,
  is_nil, as_element, number_reply, bulk_reply, multi_reply, on_reply, parse_with, slice_loop,
  parse_slice, parse_nested,
}

-- What is put back was read before.
full_left : (n : ℕ) (s rest : Bytes) → cut_line n s ≡ full rest → length rest + n ≤ length s
unfolding cut_line
full_left zero s rest h = ground arith
full_left (suc n) [] rest h = cc
full_left (suc n) (c ∷ s) rest h = elim (Bool-cases (c == 10)) [
  | inl e ↦ cc (rw e at h)
  | inr e ↦
      let more = full-keep c (cut_line n s) rest (rw e at h) in
      omega (arith, full_left n s rest more)
]
  where
    full-keep : (c : ℕ) (u : Cut) (rest : Bytes) → keep c u ≡ full rest → u ≡ full rest
    full-keep c (found line s) rest h = unfold keep in cc
    full-keep c (full s) rest h = unfold keep in cc
    full-keep c ended rest h = unfold keep in cc

length-put_back : (line rest : Bytes) → length (put_back line rest) ≤ length rest + 1
unfolding put_back
length-put_back [] rest = omega arith
length-put_back (c ∷ []) rest = ground arith
length-put_back (c ∷ d ∷ s) rest = length-put_back (d ∷ s) rest

left-line_of :
    (r : Reader) (u : Cut) → cut_line 4096 r.unread ≡ u → left (line_of r u) ≤ length r.unread - 1
unfolding line_of
left-line_of r (found line rest) h =
    let shorter = ap cut_left h in omega (arith, shorter, cut_left_pred 4095 r.unread)
left-line_of r (full rest) h =
    omega (arith, length-put_back (take 4096 r.unread) rest, full_left 4096 r.unread rest h)
left-line_of r ended h = go r.unread r refl
  where
    go : (s : Bytes) (r : Reader) → r.unread ≡ s → left (last_line s r) ≤ length r.unread - 1
    go [] r h = unfold last_line in rw h (omega arith)
    go (c ∷ s) r h = unfold last_line in omega arith

pub left-read_line : (r : Reader) → left (read_line r) ≤ length r.unread - 1
unfolding read_line
left-read_line r = left-line_of r (cut_line 4096 r.unread) refl

left-read_n : (n : ℕ) (r : Reader) → left (read_n n r) ≤ length r.unread
unfolding read_n
left-read_n n r = elim (Bool-cases (ltb (length r.unread) n)) [
  | inl e ↦ rw e (omega arith)
  | inr e ↦ rw e (length-drop_le n r.unread)
]

left-if {ℓ} :
    {A : Type ℓ} (b : Bool) (x y : Outcome A) (n : ℕ)
    → left x ≤ n
    → left y ≤ n
    → left (if b then x else y) ≤ n
left-if true x y n hx hy = hx
left-if false x y n hx hy = hy

left-read_bulk : (n : ℕ) (r : Reader) → left (read_bulk n r) ≤ length r.unread
unfolding read_bulk
left-read_bulk n r =
    left-if (is_too_long n (length r.unread)) panicked (read_n (n + 2) r) (length r.unread)
      (omega arith) (left-read_n (n + 2) r)

-- A parser that takes no byte more than there is.
abbrev pub Takes : {A : Type 0} → (Reader → Outcome A) → Type 0
Takes p = (r : Reader) → left (p r) ≤ length r.unread

module _ (sprintf : Bytes → Bytes) where
  module _ {A : Type 0} (p : ℤ → Reader → Outcome A) (takes : (n : ℤ) → Takes (p n)) where
    left-number_reply :
        (digits : Bytes) (n : Parsed) (r : Reader)
        → left (number_reply sprintf p digits n r) ≤ length r.unread
    unfolding number_reply
    left-number_reply digits bad_syntax r = omega arith
    left-number_reply digits out_of_range r = omega arith
    left-number_reply digits (num v) r = omega arith

    left-bulk_reply :
        (digits : Bytes) (n : Parsed) (r : Reader)
        → left (bulk_reply sprintf p digits n r) ≤ length r.unread
    unfolding bulk_reply
    left-bulk_reply digits bad_syntax r = omega arith
    left-bulk_reply digits out_of_range r = omega arith
    left-bulk_reply digits (num (negsuc (suc n))) r = omega arith
    left-bulk_reply digits (num (negsuc zero)) r = omega (
      arith,
      left-bind (read_n 1 r) (λ (b : Bytes) (s : Reader). let q : Outcome (Got A) = panicked in q)
          (λ b s. omega arith),
      left-read_n 1 r,
    )
    left-bulk_reply digits (num (pos n)) r = omega (
      arith,
      left-bind (read_bulk n r)
          (λ (b : Bytes) (s : Reader). let q : Outcome (Got A) = ok (got_str (take n b)) s in q)
          (λ b s. omega arith),
      left-read_bulk n r,
    )

    left-multi_reply :
        (digits : Bytes) (n : Parsed) (r : Reader)
        → left (multi_reply sprintf p digits n r) ≤ length r.unread
    unfolding multi_reply
    left-multi_reply digits bad_syntax r = omega arith
    left-multi_reply digits out_of_range r = omega arith
    left-multi_reply digits (num v) r = omega (
      arith,
      left-bind (p v r) (λ (a : A) (s : Reader). ok (got_multi a) s) (λ a s. omega arith),
      takes v r,
    )

    left-on_reply : (line : Bytes) (r : Reader) → left (on_reply sprintf p line r) ≤ length r.unread
    unfolding on_reply
    left-on_reply [] r = omega arith
    left-on_reply (c ∷ s) r =
        let n = length r.unread in
        left-if (c == b'-') _ _ n (omega arith) (
          left-if (c == b'+') _ _ n (omega arith) (
            left-if (c == b':') _ _ n (left-number_reply s (parse_int 64 s) r) (
              left-if (c == b'$') _ _ n
                (left-if (bytes_eq s (codes "-1")) _ _ n (omega arith)
                  (left-bulk_reply s (atoi s) r))
                (left-if (c == b'*') _ _ n
                  (left-if (bytes_eq s (codes "-1")) _ _ n (omega arith)
                    (left-multi_reply s (parse_int 64 s) r))
                  (omega arith)))))

    -- A call of `parseReply` takes at least one byte, if there is one.
    pub left-parse_with : (r : Reader) → left (parse_with sprintf p r) ≤ length r.unread - 1
    unfolding parse_with
    left-parse_with r =
        omega (arith, left-bind (read_line r) (on_reply sprintf p) left-on_reply, left-read_line r)

  pub left-as_element : (o : Outcome (Got Values)) → left (as_element o) ≤ left o
  unfolding as_element
  left-as_element (ok g r) = omega arith
  left-as_element panicked = omega arith
  left-as_element (failed e r) = elim (Bool-cases (is_nil e)) [
    | inl h ↦ rw h (omega arith)
    | inr h ↦ rw h (omega arith)
  ]

  left-slice_loop :
      (rec : Reader → Outcome (Got Values)) → Takes rec → (n : ℕ) → Takes (slice_loop sprintf rec n)
  unfolding slice_loop
  left-slice_loop rec takes zero r = omega arith
  left-slice_loop rec takes (suc n) r = omega (
    arith,
    left-bind (as_element (rec r))
        (λ (v : Value) (s : Reader).
          slice_loop sprintf rec n s >>= λ (vs : Values) (t : Reader). ok (cons v vs) t)
        (λ v s. omega (
          arith,
          left-bind (slice_loop sprintf rec n s) (λ (vs : Values) (t : Reader). ok (cons v vs) t)
              (λ vs t. omega arith),
          left-slice_loop rec takes n s,
        )),
    left-as_element (rec r),
    takes r,
  )

  module _ (max_cap : ℕ) where
    left-parse_slice :
        (rec : Reader → Outcome (Got Values))
        → Takes rec
        → (n : ℤ) → Takes (parse_slice sprintf max_cap rec n)
    unfolding parse_slice
    left-parse_slice rec takes (negsuc n) r = omega arith
    left-parse_slice rec takes (pos n) r =
        left-if (ltb max_cap n) _ _ (length r.unread) (omega arith) (left-slice_loop rec takes n r)

    pub Takes-parse_nested : (fuel : ℕ) → Takes (parse_nested sprintf max_cap fuel)
    unfolding parse_nested
    Takes-parse_nested zero r = omega arith
    Takes-parse_nested (suc fuel) r =
        let slice = parse_slice sprintf max_cap (parse_nested sprintf max_cap fuel) in
        omega (
          arith,
          left-parse_with slice
              (left-parse_slice (parse_nested sprintf max_cap fuel) (Takes-parse_nested fuel)) r,
        )

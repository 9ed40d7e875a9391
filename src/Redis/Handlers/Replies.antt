-- ===== src/Redis/Handlers/Replies.antt =====
-- redis/command.go: which replies are empty, and that no handler makes a command of such a type.
use smartproxy.Common.{
  ℕ, ◌≡◌, ◌≢◌, refl, Bool, true, [], ◌∷◌, ◌++◌, Option, none, some, Bytes, codes, arith, all, find,
  find-all, bytes_eq, Bool-cases, inl, inr,
}
use smartproxy.Errors.{Error, error_text}
use smartproxy.Redis.Format.{
  Values, nil, cons, nil_value, int_value, str_value, list_value, error_line, format_string,
  add_values, nil_bulk,
}
use smartproxy.Text.{format_int}
use smartproxy.Redis.Command.{
  Val, Cmd, value_reply, error_reply, has_reply, reply, reply_of, any, slice, bool_slice,
  string_string_map, string_int_map, zslice, scan, cluster_slots, new_cmd,
}
use smartproxy.Redis.Request.{Request}
use smartproxy.Redis.Handlers.{
  Handler, handlers, call, whole_request, on_get, on_xadd, on_xincrby, on_xsetoptions, get_cmd,
  xadd_cmd, xincrby_cmd, xsetoptions_cmd,
}

append-ne-nil : (out s : Bytes) → out ≢ [] → out ++ s ≢ []
append-ne-nil [] s h = absurd (h refl)
append-ne-nil (c ∷ out) s h = cc

add_values-ne-nil : (out : Bytes) (vs : Values) → out ≢ [] → add_values out vs ≢ []
unfolding add_values error_line
add_values-ne-nil out nil h = h
add_values-ne-nil out (cons nil_value vs) h =
    add_values-ne-nil (out ++ nil_bulk) vs (append-ne-nil out nil_bulk h)
add_values-ne-nil out (cons (int_value n) vs) h =
    let d = format_string (format_int n) in add_values-ne-nil (out ++ d) vs (append-ne-nil out d h)
add_values-ne-nil out (cons (str_value s) vs) h =
    add_values-ne-nil (out ++ format_string s) vs (append-ne-nil out (format_string s) h)
add_values-ne-nil out (cons (list_value ws) vs) h = cc

value_reply-ne-nil :
    (format_float : ℕ → Bytes) (v : Val) → has_reply v ≡ true → value_reply format_float v ≢ []
unfolding has_reply value_reply
value_reply-ne-nil ff (any v) h = cc
value_reply-ne-nil ff (bool_slice v) h = cc
value_reply-ne-nil ff (string_string_map v) h = cc
value_reply-ne-nil ff (string_int_map v) h = cc
value_reply-ne-nil ff (zslice v) h = cc
value_reply-ne-nil ff (scan c k) h = cc
value_reply-ne-nil ff (cluster_slots v) h = cc
value_reply-ne-nil ff (slice v) h = add_values-ne-nil _ v cc
value_reply-ne-nil ff _ h = cc

error_reply-ne-nil : (e : Error) → error_reply e ≢ []
unfolding error_reply error_line
error_reply-ne-nil e = elim (Bool-cases (bytes_eq (error_text e) (codes "redis: nil"))) [
  | inl h ↦ rw h cc
  | inr h ↦ rw h cc
]

-- A command of a type with a `Reply` is answered by at least a byte, with an error or without.
pub reply-ne-nil :
    (format_float : ℕ → Bytes) (c : Cmd) → has_reply c.val ≡ true → reply format_float c ≢ []
unfolding reply
reply-ne-nil ff c h = go c.err c.val h
  where
    go : (e : Option Error) (v : Val) → has_reply v ≡ true → reply_of ff e v ≢ []
    go none v h = unfold reply_of in value_reply-ne-nil ff v h
    go (some e) v h = unfold reply_of in rw h (error_reply-ne-nil e)

makes_reply : Handler → Bool
makes_reply (whole_request v) = has_reply v
makes_reply _ = true

all_make_replies : all (λ e. makes_reply e.1) handlers ≡ true
unfolding handlers makes_reply has_reply
all_make_replies = refl

call-has_reply :
    (h : Handler) (req : Request) → makes_reply h ≡ true → has_reply (call h req).val ≡ true
unfolding makes_reply call has_reply
call-has_reply (whole_request v) req e = e
call-has_reply on_get req e = refl
call-has_reply on_xadd req e = ground arith
call-has_reply on_xincrby req e = ground arith
call-has_reply on_xsetoptions req e = ground arith

-- Every handler in the table makes a command whose type has a `Reply`.
pub handlers-has_reply :
    (name : Bytes) {h : Handler} (req : Request)
    → find name handlers ≡ some h
    → has_reply (call h req).val ≡ true
handlers-has_reply name {h} req e =
    call-has_reply h req
      (find-all (λ (n : Bytes) (g : Handler). makes_reply g) name handlers all_make_replies e)

-- A handler makes a command that has no error yet.
pub call-err : (h : Handler) (req : Request) → (call h req).err ≡ none
unfolding call new_cmd get_cmd xadd_cmd xincrby_cmd xsetoptions_cmd
call-err h req = ground arith

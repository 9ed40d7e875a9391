-- ===== src/Redis/Reply/Keeps.antt =====
-- redis/command.go: `parseReply` leaves the type of a command.
use smartproxy.Common.{
  ℕ, ◌≡◌, refl, Bool, true, false, Option, none, some, Bytes, List, if_split, subst,
}
use smartproxy.Common.Int.{ℤ, pos, negsuc}
use smartproxy.Text.{parse_int}
use smartproxy.Errors.{Error}
use smartproxy.Wire.{Reader, Outcome, ok, failed, panicked, ◌>>=◌}
use smartproxy.Redis.Format.{Values, nil, cons, nil_value, int_value, str_value, list_value}
use smartproxy.Redis.Command.{
  Val, Cmd, has_reply, any, slice, status, int, duration, bool, string, float, string_slice,
  bool_slice, string_string_map, string_int_map, zslice, scan, cluster_slots,
}
use smartproxy.Redis.Reply.{Got, got_str, got_int, got_multi, is_nil, parse_reply, parse_flat}
use smartproxy.Redis.Reply.Commands.{
  Parsing, parsed, crashed, stored, assert_str, assert_int, assert_multi, parse_by, parse_cmd,
  bool_reply, any_reply, all_strings, cursor_beside, cursor_error, scan_done, scan_keys, scan_reply,
  float_reply, times64,
}

abbrev Same : Bool → Parsing → Type 0
Same b (parsed c err r) = has_reply c.val ≡ b
Same b crashed = Unit

abbrev Gives : Bool → Outcome Val → Type 0
Gives b (ok v r) = has_reply v ≡ b
Gives b o = Unit

stored-Same :
    (b : Bool) (c : Cmd) (o : Outcome Val) → has_reply c.val ≡ b → Gives b o → Same b (stored c o)
unfolding stored
stored-Same b c (ok v r) k h = h
stored-Same b c (failed e r) k h = k
stored-Same b c panicked k h = tt

str-Gives :
    (b : Bool) (f : Bytes → Val) (o : Outcome (Got (Unit {0})))
    → ((s : Bytes) → has_reply (f s) ≡ b)
    → Gives b (o >>= assert_str f)
unfolding assert_str
str-Gives b f (ok (got_str s) r) h = h s
str-Gives b f (ok (got_int v) r) h = tt
str-Gives b f (ok (got_multi u) r) h = tt
str-Gives b f (failed e r) h = tt
str-Gives b f panicked h = tt

int-Gives :
    (b : Bool) (f : ℤ → Val) (o : Outcome (Got (Unit {0})))
    → ((v : ℤ) → has_reply (f v) ≡ b)
    → Gives b (o >>= assert_int f)
unfolding assert_int
int-Gives b f (ok (got_str s) r) h = tt
int-Gives b f (ok (got_int v) r) h = h v
int-Gives b f (ok (got_multi u) r) h = tt
int-Gives b f (failed e r) h = tt
int-Gives b f panicked h = tt

multi-Gives :
    {A : Type 0} (b : Bool) (f : A → Val) (o : Outcome (Got A))
    → ((a : A) → has_reply (f a) ≡ b)
    → Gives b (o >>= assert_multi f)
unfolding assert_multi
multi-Gives b f (ok (got_str s) r) h = tt
multi-Gives b f (ok (got_int v) r) h = tt
multi-Gives b f (ok (got_multi a) r) h = h a
multi-Gives b f (failed e r) h = tt
multi-Gives b f panicked h = tt

bool-Gives :
    (b : Bool) (o : Outcome (Got (Unit {0})))
    → ((f : Bool) → has_reply (bool f) ≡ b)
    → Gives b (bool_reply o)
unfolding bool_reply has_reply
bool-Gives b (ok (got_str s) r) h = h true
bool-Gives b (ok (got_int (pos n)) r) h = h true
bool-Gives b (ok (got_int (negsuc n)) r) h = h false
bool-Gives b (ok (got_multi u) r) h = tt
bool-Gives b (failed e r) h = if_split (Gives b) (is_nil e) _ _ (h false) tt
bool-Gives b panicked h = tt

any-Same :
    (b : Bool) (c : Cmd) (o : Outcome (Got Values))
    → has_reply (any none) ≡ b
    → Same b (any_reply c o)
unfolding any_reply has_reply
any-Same b c (ok g r) h = h
any-Same b c (failed e r) h = h
any-Same b c panicked h = tt

scan_done-Same :
    (b : Bool) (c : Cmd) (cursor : ℤ) (keys : List Bytes) (o : Option (List Bytes)) (r : Reader)
    → has_reply (scan cursor keys) ≡ b
    → Same b (scan_done c cursor keys o r)
unfolding scan_done has_reply
scan_done-Same b c cursor keys none r h = tt
scan_done-Same b c cursor keys (some more) r h = h

scan_keys-Same :
    (b : Bool) (c : Cmd) (cursor : ℤ) (keys : List Bytes) (e : Option Error) (vs : Values)
    (r : Reader)
    → has_reply (scan cursor keys) ≡ b
    → Same b (scan_keys c cursor keys e vs r)
unfolding scan_keys
scan_keys-Same b c cursor keys (some e) vs r h = h
scan_keys-Same b c cursor keys none nil r h = tt
scan_keys-Same b c cursor keys none (cons nil_value vs) r h = tt
scan_keys-Same b c cursor keys none (cons (int_value v) vs) r h = tt
scan_keys-Same b c cursor keys none (cons (str_value s) vs) r h = tt
scan_keys-Same b c cursor keys none (cons (list_value more) vs) r h =
    scan_done-Same b c cursor keys (all_strings more) r h

scan-Same :
    (b : Bool) (c : Cmd) (keys : List Bytes) (o : Outcome (Got Values))
    → has_reply c.val ≡ b
    → has_reply (scan (pos 0) keys) ≡ b
    → Same b (scan_reply c keys o)
unfolding scan_reply has_reply
scan-Same b c keys (ok (got_str s) r) k h = tt
scan-Same b c keys (ok (got_int v) r) k h = tt
scan-Same b c keys (ok (got_multi nil) r) k h = tt
scan-Same b c keys (ok (got_multi (cons nil_value vs)) r) k h = tt
scan-Same b c keys (ok (got_multi (cons (int_value v) vs)) r) k h = tt
scan-Same b c keys (ok (got_multi (cons (list_value ws) vs)) r) k h = tt
scan-Same b c keys (ok (got_multi (cons (str_value s) vs)) r) k h =
    scan_keys-Same b c (cursor_beside s (parse_int 64 s)) keys (cursor_error s (parse_int 64 s)) vs
      r h
scan-Same b c keys (failed e r) k h = k
scan-Same b c keys panicked k h = tt

module _ (sprintf : Bytes → Bytes) (max_cap : ℕ) (parse_float : Bytes → ℕ × Option Error) where
  float-Same :
      (b : Bool) (c : Cmd) (o : Outcome (Got (Unit {0})))
      → has_reply c.val ≡ b
      → has_reply (float 0) ≡ b
      → Same b (float_reply sprintf max_cap parse_float c o)
  unfolding float_reply has_reply
  float-Same b c (ok (got_str s) r) k h = h
  float-Same b c (ok (got_int v) r) k h = tt
  float-Same b c (ok (got_multi u) r) k h = tt
  float-Same b c (failed e r) k h = k
  float-Same b c panicked k h = tt

  parse_by-Same :
      (b : Bool) (v : Val) (c : Cmd) (r : Reader)
      → has_reply c.val ≡ b
      → has_reply v ≡ b
      → Same b (parse_by sprintf max_cap parse_float v c r)
  unfolding parse_by has_reply
  parse_by-Same b (any v) c r k h = any-Same b c (parse_reply sprintf max_cap r) h
  parse_by-Same b (slice v) c r k h =
      stored-Same b c _ k (multi-Gives b slice (parse_reply sprintf max_cap r) (λ a. h))
  parse_by-Same b (status v) c r k h =
      stored-Same b c _ k (str-Gives b status (parse_flat sprintf r) (λ a. h))
  parse_by-Same b (int v) c r k h =
      stored-Same b c _ k (int-Gives b int (parse_flat sprintf r) (λ a. h))
  parse_by-Same b (duration p v) c r k h =
      stored-Same b c _ k
        (int-Gives b (λ t. duration p (times64 t p)) (parse_flat sprintf r) (λ a. h))
  parse_by-Same b (bool v) c r k h =
      stored-Same b c _ k (bool-Gives b (parse_flat sprintf r) (λ a. h))
  parse_by-Same b (string v) c r k h =
      stored-Same b c _ k (str-Gives b string (parse_flat sprintf r) (λ a. h))
  parse_by-Same b (float v) c r k h = float-Same b c (parse_flat sprintf r) k h
  parse_by-Same b (string_slice v) c r k h =
      stored-Same b c _ k (multi-Gives b string_slice _ (λ a. h))
  parse_by-Same b (bool_slice v) c r k h = stored-Same b c _ k (multi-Gives b bool_slice _ (λ a. h))
  parse_by-Same b (string_string_map v) c r k h =
      stored-Same b c _ k (multi-Gives b string_string_map _ (λ a. h))
  parse_by-Same b (string_int_map v) c r k h =
      stored-Same b c _ k (multi-Gives b string_int_map _ (λ a. h))
  parse_by-Same b (zslice v) c r k h = stored-Same b c _ k (multi-Gives b zslice _ (λ a. h))
  parse_by-Same b (scan cursor keys) c r k h =
      scan-Same b c keys (parse_reply sprintf max_cap r) k h
  parse_by-Same b (cluster_slots v) c r k h =
      stored-Same b c _ k (multi-Gives b cluster_slots _ (λ a. h))

  -- A command has a `Reply` after its reply was read exactly if it had one before.
  pub parse_cmd-has_reply :
      (c c' : Cmd) (err : Option Error) (r r' : Reader)
      → parse_cmd sprintf max_cap parse_float c r ≡ parsed c' err r'
      → has_reply c'.val ≡ has_reply c.val
  unfolding parse_cmd
  parse_cmd-has_reply c c' err r r' h =
      subst (Same (has_reply c.val)) h (parse_by-Same (has_reply c.val) c.val c r refl refl)

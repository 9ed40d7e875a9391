-- ===== src/ProxyCmd/Laws.antt =====
-- proxycmd.go: what PROXY keeps, what it can set, and that it answers every request.
use smartproxy.Common.{
  ℕ, ◌+◌, ◌≤◌, ◌≡◌, ◌≢◌, refl, Bool, true, false, not, ◌||◌, List, [], ◌∷◌, Bytes, codes, arith,
  if◌then◌else◌, bytes_eq, bytes_eq_iff, inl, inr, ltb, length, find, Option-cases,
}
use smartproxy.Common.Int.{pos, negsuc}
use smartproxy.Text.{to_lower, Parsed, num, bad_syntax, out_of_range, atoi}
use smartproxy.Server.{Server}
use smartproxy.ProxyCmd.{
  Written, set_log_level, config_set, wrote_pair, get_words, set_words, proxy_conf, black_remove,
  black_get, black_for, black_set, with_black, proxy_black, proxy,
}
use smartproxy.ProxyCmd.Keeps.{
  Keeps-refl, Keeps-set_number, Keeps-set_slave, Keeps-if, Keeps-idle_time, Keeps-mul_op_parallel,
  Keeps-max_conn, Keeps-statsd, Keeps, KeepsAfter, returned,
}

After-if :
    (b : Bool) (ps : Server) (x y : Written)
    → KeepsAfter ps x
    → KeepsAfter ps y
    → KeepsAfter ps (if b then x else y)
After-if true ps x y hx hy = hx
After-if false ps x y hx hy = hy

After-pair : (ps : Server) (w : Server × Bytes) → Keeps ps w.0 → KeepsAfter ps (wrote_pair w)
unfolding wrote_pair
After-pair ps (ps', reply) h = returned h

After-get_words : (words : List Bytes) (ps : Server) → KeepsAfter ps (get_words words ps)
unfolding get_words
After-get_words [] ps = returned (Keeps-refl ps)
After-get_words (name ∷ []) ps = returned (Keeps-refl ps)
After-get_words (name ∷ w ∷ words) ps = returned (Keeps-refl ps)

module _ (set_level : Bytes → Bytes → Bytes) where
  -- No text is both "info" and "warning".
  Keeps-set_log_level :
      (value : Bytes) (ps : Server) → Keeps ps (set_log_level set_level value ps).0
  unfolding set_log_level
  Keeps-set_log_level value ps = rw (refused (to_lower value)) (Keeps-refl ps)
    where
      refused :
          (v : Bytes)
          → (not (bytes_eq v (codes "info"))
              || not (bytes_eq v (codes "warning"))
              || not (bytes_eq v (codes "debug")))
            ≡ true
      refused v = ground (arith, bytes_eq_iff v (codes "info"), bytes_eq_iff v (codes "warning"))

  Keeps-config_set :
      (name value : Bytes) (ps : Server) → Keeps ps (config_set set_level name value ps).0
  unfolding config_set
  Keeps-config_set name value ps = Keeps-if _ ps _ _ (Keeps-set_log_level value ps) (
      Keeps-if _ ps _ _ (Keeps-set_number 5 300 _ _ (atoi value) _ _ ps (Keeps-idle_time ps)) (
        Keeps-if _ ps _ _ (Keeps-set_slave (atoi value) ps) (
          Keeps-if _ ps _ _
            (Keeps-set_number 5 100 _ _ (atoi value) _ _ ps (Keeps-mul_op_parallel ps))
            (Keeps-if _ ps _ _ (Keeps-statsd ps value) (
              Keeps-if _ ps _ _
                (Keeps-set_number 100 60000 _ _ (atoi value) _ _ ps (Keeps-max_conn ps))
                (Keeps-refl ps))))))

  After-set_words :
      (words : List Bytes) (ps : Server) → KeepsAfter ps (set_words set_level words ps)
  unfolding set_words
  After-set_words [] ps = returned (Keeps-refl ps)
  After-set_words (name ∷ []) ps = returned (Keeps-refl ps)
  After-set_words (name ∷ value ∷ []) ps =
      After-pair ps _ (Keeps-config_set (to_lower name) (to_lower value) ps)
  After-set_words (name ∷ value ∷ w ∷ words) ps = returned (Keeps-refl ps)

Keeps-black : (black : _) (ps : Server) → Keeps ps (with_black black ps)
unfolding with_black
Keeps-black black ps = record {
  log_kept = refl;
  slave_kept = refl;
  nodes_kept = refl;
  pool_kept = refl;
  sessions_kept = refl;
  valid_kept = λ v. v;
}

After-black_remove : (words : List Bytes) (ps : Server) → KeepsAfter ps (black_remove words ps)
unfolding black_remove
After-black_remove [] ps = returned (Keeps-refl ps)
After-black_remove (key ∷ []) ps = elim (Option-cases (find key ps.black_keys)) [
  | inl e ↦ rw (e, black_remove) (returned (Keeps-refl ps))
  | inr (b, e) ↦ rw (e, black_remove) (returned (Keeps-black _ ps))
]
After-black_remove (key ∷ w ∷ words) ps = returned (Keeps-refl ps)

After-black_get : (words : List Bytes) (ps : Server) → KeepsAfter ps (black_get words ps)
unfolding black_get
After-black_get [] ps = returned (Keeps-refl ps)
After-black_get (w ∷ words) ps = returned (Keeps-refl ps)

After-black_for :
    (now : ℕ) (key : Bytes) (p : Parsed) (ps : Server) → KeepsAfter ps (black_for now key p ps)
unfolding black_for
After-black_for now key bad_syntax ps = returned (Keeps-refl ps)
After-black_for now key out_of_range ps = returned (Keeps-refl ps)
After-black_for now key (num (negsuc t)) ps = returned (Keeps-refl ps)
After-black_for now key (num (pos t)) ps =
    After-if (ltb 86400 t) ps _ _ (returned (Keeps-refl ps)) (returned (Keeps-black _ ps))

After-black_set :
    (now : ℕ) (words : List Bytes) (ps : Server) → KeepsAfter ps (black_set now words ps)
unfolding black_set
After-black_set now [] ps = returned (Keeps-refl ps)
After-black_set now (key ∷ []) ps = returned (Keeps-refl ps)
After-black_set now (key ∷ time ∷ []) ps = After-black_for now key (atoi time) ps
After-black_set now (key ∷ time ∷ w ∷ words) ps = returned (Keeps-refl ps)

After-proxy_black :
    (now : ℕ) (op : Bytes) (words : List Bytes) (ps : Server)
    → 2 ≤ length words + 1
    → KeepsAfter ps (proxy_black now (op ∷ words) ps)
unfolding proxy_black
After-proxy_black now op [] ps h = absurd (omega arith)
After-proxy_black now op (sub ∷ words) ps h = After-if _ ps _ _ (After-black_remove words ps) (
    After-if _ ps _ _ (After-black_get words ps)
      (After-if _ ps _ _ (After-black_set now words ps) (returned (Keeps-refl ps))))

After-proxy_conf :
    (set_level : Bytes → Bytes → Bytes) (op : Bytes) (words : List Bytes) (ps : Server)
    → 3 ≤ length words + 1
    → KeepsAfter ps (proxy_conf set_level (op ∷ words) ps)
unfolding proxy_conf
After-proxy_conf set_level op [] ps h = absurd (omega arith)
After-proxy_conf set_level op (sub ∷ words) ps h =
    After-if _ ps _ _ (After-get_words words ps)
      (After-if _ ps _ _ (After-set_words set_level words ps) (returned (Keeps-refl ps)))

After-guard :
    (b : Bool) (ps : Server) (x y : Written)
    → KeepsAfter ps x
    → (b ≡ false → KeepsAfter ps y)
    → KeepsAfter ps (if b then x else y)
After-guard true ps x y hx hy = hx
After-guard false ps x y hx hy = hy refl

-- Every PROXY request with an argument is answered, without a panic, and whatever it says the
-- level of the log, `SlaveOk`, the nodes, the pool size and the sessions stay as they were: no
-- value of `config set loglevel` or `config set slaveok` is ever accepted. The configuration stays
-- within the bounds of const.go.
pub KeepsAfter-proxy :
    (set_level : Bytes → Bytes → Bytes) (now : ℕ) (args : List Bytes) (ps : Server)
    → args ≢ []
    → KeepsAfter ps (proxy set_level now args ps)
unfolding proxy
KeepsAfter-proxy set_level now [] ps h = absurd (h refl)
KeepsAfter-proxy set_level now (op ∷ words) ps h =
    After-if _ ps _ _ (After-if _ ps _ _ (returned (Keeps-refl ps)) (returned (Keeps-refl ps))) (
      After-if _ ps _ _
        (After-guard (ltb (length words + 1) 2) ps _ _ (returned (Keeps-refl ps))
          λ e. After-proxy_black now op words ps (ground arith))
        (After-if _ ps _ _
          (After-guard (ltb (length words + 1) 3 || ltb 4 (length words + 1)) ps _ _
            (returned (Keeps-refl ps)) λ e. After-proxy_conf set_level op words ps (ground arith))
          (returned (Keeps-refl ps))))

-- ===== src/ProxyCmd/Settings.antt =====
-- proxycmd.go: `config set` of a number, and what `config get` shows before and after it.
use smartproxy.Common.{
  ℕ, ◌≡◌, refl, true, false, Bytes, codes, arith, bytes_eq, ap, ◌∙◌, Bool-cases, inl, inr,
}
use smartproxy.Common.Int.{ℤ}
use smartproxy.Text.{Parsed, num, bad_syntax, out_of_range, atoi}
use smartproxy.Redis.Format.{format_int_reply}
use smartproxy.Config.{
  out_of, max_max_conn, min_max_conn, min_mul_op_parallel, max_mul_op_parallel, min_idle_time,
  max_idle_time,
}
use smartproxy.Config.Laws.{Within, out_of-Within}
use smartproxy.Server.{Server}
use smartproxy.ProxyCmd.{
  config_get, set_idle_time, set_mul_op_parallel, set_max_conn, set_number, config_set,
}

-- The settings that are numbers.
pub data Setting : Type 0 where
  idle parallel conn : Setting

abbrev setting_name : Setting → Bytes
setting_name idle = codes "idletime"
setting_name parallel = codes "mulparallel"
setting_name conn = codes "maxconn"

abbrev pub least : Setting → ℕ
least idle = min_idle_time
least parallel = min_mul_op_parallel
least conn = min_max_conn

abbrev pub most : Setting → ℕ
most idle = max_idle_time
most parallel = max_mul_op_parallel
most conn = max_max_conn

abbrev setting_of : Setting → Server → ℤ
setting_of idle ps = ps.conf.idle_time
setting_of parallel ps = ps.conf.mul_op_parallel
setting_of conn ps = ps.conf.max_conn

config_get-setting :
    (st : Setting) (ps : Server)
    → config_get (setting_name st) ps ≡ format_int_reply (setting_of st ps)
unfolding config_get bytes_eq
config_get-setting idle ps = refl
config_get-setting parallel ps = refl
config_get-setting conn ps = refl

Within-out_of : (lo hi : ℕ) (v : ℤ) → Within lo hi v → out_of lo hi v ≡ false
unfolding out_of
Within-out_of lo hi v h = ground arith

set_number-num :
    (lo hi : ℕ) (unreadable outside name : Bytes) (v : ℤ) (store : ℤ → Server → Server)
    (ps : Server)
    → out_of lo hi v ≡ false
    → set_number lo hi unreadable outside (num v) name store ps ≡ (store v ps, config_get name ps)
unfolding set_number
set_number-num lo hi unreadable outside name v store ps h = rw h refl

set_number-out :
    (lo hi : ℕ) (unreadable outside name : Bytes) (v : ℤ) (store : ℤ → Server → Server)
    (ps : Server)
    → out_of lo hi v ≡ true
    → (set_number lo hi unreadable outside (num v) name store ps).0 ≡ ps
unfolding set_number
set_number-out lo hi unreadable outside name v store ps h = rw h refl

abbrev store : Setting → ℤ → Server → Server
store idle = set_idle_time
store parallel = set_mul_op_parallel
store conn = set_max_conn

setting_of-store : (st : Setting) (v : ℤ) (ps : Server) → setting_of st (store st v ps) ≡ v
unfolding set_idle_time set_mul_op_parallel set_max_conn
setting_of-store idle v ps = refl
setting_of-store parallel v ps = refl
setting_of-store conn v ps = refl

-- The part of `config_set` that a number's name selects.
number_case : Setting → Parsed → Server → Server × Bytes
number_case idle p ps =
    set_number 5 300 (codes "-unavailable idletime\r\n")
      (codes "-unavailable idletime, must between 10 ~ 300\r\n") p (codes "idletime") set_idle_time
      ps
number_case parallel p ps =
    set_number 5 100 (codes "-unavailable mulparallel\r\n")
      (codes "-unavailable mulparallel, must between 5 ~ 100\r\n") p (codes "mulparallel")
      set_mul_op_parallel ps
number_case conn p ps =
    set_number 100 60000 (codes "-unavailable maxconn\r\n")
      (codes "-unavailable maxconn, must between 100 ~ 60000\r\n") p (codes "maxconn") set_max_conn
      ps

config_set-number :
    (set_level : Bytes → Bytes → Bytes) (st : Setting) (value : Bytes) (ps : Server)
    → config_set set_level (setting_name st) value ps ≡ number_case st (atoi value) ps
unfolding config_set number_case bytes_eq
config_set-number set_level idle value ps = refl
config_set-number set_level parallel value ps = refl
config_set-number set_level conn value ps = refl

number_case-stored :
    (st : Setting) (v : ℤ) (ps : Server)
    → Within (least st) (most st) v
    → number_case st (num v) ps ≡ (store st v ps, config_get (setting_name st) ps)
unfolding number_case
number_case-stored idle v ps h = set_number-num 5 300 _ _ _ v _ ps (Within-out_of 5 300 v h)
number_case-stored parallel v ps h = set_number-num 5 100 _ _ _ v _ ps (Within-out_of 5 100 v h)
number_case-stored conn v ps h = set_number-num 100 60000 _ _ _ v _ ps (Within-out_of 100 60000 v h)

set_number-keeps :
    (lo hi : ℕ) (unreadable outside name : Bytes) (p : Parsed) (f : ℤ → Server → Server)
    (ps : Server)
    → ((v : ℤ) → p ≡ num v → ¬ (Within lo hi v))
    → (set_number lo hi unreadable outside p name f ps).0 ≡ ps
unfolding set_number
set_number-keeps lo hi unreadable outside name bad_syntax f ps h = refl
set_number-keeps lo hi unreadable outside name out_of_range f ps h = refl
set_number-keeps lo hi unreadable outside name (num v) f ps h = elim (Bool-cases (out_of lo hi v)) [
  | inl e ↦ rw e refl
  | inr e ↦ absurd (h v refl (out_of-Within lo hi v e))
]

number_case-keeps :
    (st : Setting) (p : Parsed) (ps : Server)
    → ((v : ℤ) → p ≡ num v → ¬ (Within (least st) (most st) v))
    → (number_case st p ps).0 ≡ ps
unfolding number_case
number_case-keeps idle p ps h = set_number-keeps 5 300 _ _ _ p _ ps h
number_case-keeps parallel p ps h = set_number-keeps 5 100 _ _ _ p _ ps h
number_case-keeps conn p ps h = set_number-keeps 100 60000 _ _ _ p _ ps h

-- `config set` of `idletime`, `mulparallel` or `maxconn` to a number within its bounds is what the
-- next `config get` shows, and it replies with what `config get` showed before; any other value
-- leaves the server as it was.
pub config_set-setting :
    (set_level : Bytes → Bytes → Bytes) (st : Setting) (value : Bytes) (ps : Server)
    → ((v : ℤ)
        → atoi value ≡ num v
        → Within (least st) (most st) v
        → (config_get (setting_name st) (config_set set_level (setting_name st) value ps).0
            ≡ format_int_reply v)
          × ((config_set set_level (setting_name st) value ps).1 ≡ config_get (setting_name st) ps))
      × (((v : ℤ) → atoi value ≡ num v → ¬ (Within (least st) (most st) v))
          → (config_set set_level (setting_name st) value ps).0 ≡ ps)
config_set-setting set_level st value ps = (
  λ v read fits.
      let whole : config_set set_level (setting_name st) value ps
          ≡ (store st v ps, config_get (setting_name st) ps) =
        config_set-number set_level st value ps ∙ rw read (number_case-stored st v ps fits) in
      (
        ap (λ w. config_get (setting_name st) w.0) whole
            ∙ config_get-setting st (store st v ps)
            ∙ ap format_int_reply (setting_of-store st v ps),
        ap (λ w. w.1) whole,
      ),
  λ bad.
      ap (λ w. w.0) (config_set-number set_level st value ps)
      ∙ number_case-keeps st (atoi value) ps bad,
)

-- ===== src/ProxyCmd/Keeps.antt =====
-- proxycmd.go: what the settings of `config set` keep of the server.
use smartproxy.Common.{
  ℕ, ◌≡◌, refl, Bool, true, false, not, ◌&&◌, ◌||◌, Bytes, arith, if◌then◌else◌, Bool-cases, inl,
  inr,
}
use smartproxy.Common.Int.{ℤ, pos, ltb_ℤ}
use smartproxy.Text.{Parsed, num, bad_syntax, out_of_range}
use smartproxy.Config.{out_of}
use smartproxy.Config.Laws.{Within, IsValid, out_of-Within}
use smartproxy.Server.{Server}
use smartproxy.ProxyCmd.{
  Written, wrote, set_idle_time, set_mul_op_parallel, set_statsd, set_max_conn, set_number,
  set_slave,
}

-- What PROXY never touches, the level of the log and `SlaveOk` among it, with the bounds of const.go
-- on what it does set.
pub record Keeps (ps ps' : Server) : Type 0 where
  pub log_kept : ps'.log_level ≡ ps.log_level
  pub slave_kept : ps'.conf.slave_ok ≡ ps.conf.slave_ok
  pub nodes_kept : ps'.conf.nodes ≡ ps.conf.nodes
  pub pool_kept : ps'.conf.pool_size_per_node ≡ ps.conf.pool_size_per_node
  pub sessions_kept : ps'.sess_mgr ≡ ps.sess_mgr
  pub valid_kept : IsValid ps.conf → IsValid ps'.conf

-- The call returned, and its new server keeps all that.
pub data KeepsAfter (ps : Server) : Written → Type 0 where
  returned : {ps' : Server} {reply : Bytes} → Keeps ps ps' → KeepsAfter ps (wrote ps' reply)

pub Keeps-refl : (ps : Server) → Keeps ps ps
Keeps-refl ps = record {
  log_kept = refl;
  slave_kept = refl;
  nodes_kept = refl;
  pool_kept = refl;
  sessions_kept = refl;
  valid_kept = λ v. v;
}

pub Keeps-set_number :
    (lo hi : ℕ) (unreadable outside : Bytes) (p : Parsed) (name : Bytes)
    (store : ℤ → Server → Server) (ps : Server)
    → ((v : ℤ) → Within lo hi v → Keeps ps (store v ps))
    → Keeps ps (set_number lo hi unreadable outside p name store ps).0
unfolding set_number
Keeps-set_number lo hi unreadable outside bad_syntax name store ps h = Keeps-refl ps
Keeps-set_number lo hi unreadable outside out_of_range name store ps h = Keeps-refl ps
Keeps-set_number lo hi unreadable outside (num v) name store ps h =
    elim (Bool-cases (out_of lo hi v)) [
      | inl e ↦ rw e (Keeps-refl ps)
      | inr e ↦ rw e (h v (out_of-Within lo hi v e))
    ]

-- No number is both 0 and 1.
pub Keeps-set_slave : (p : Parsed) (ps : Server) → Keeps ps (set_slave p ps).0
unfolding set_slave
Keeps-set_slave bad_syntax ps = Keeps-refl ps
Keeps-set_slave out_of_range ps = Keeps-refl ps
Keeps-set_slave (num v) ps = rw (refused v) (Keeps-refl ps)
  where
    refused :
        (v : ℤ)
        → (not (not (ltb_ℤ v (pos 0)) && not (ltb_ℤ (pos 0) v))
            || not (not (ltb_ℤ v (pos 1)) && not (ltb_ℤ (pos 1) v)))
          ≡ true
    refused v = ground arith

-- A property of both branches holds of the `if`.
pub Keeps-if :
    (b : Bool) (ps : Server) (x y : Server × Bytes)
    → Keeps ps x.0
    → Keeps ps y.0
    → Keeps ps (if b then x else y).0
Keeps-if true ps x y hx hy = hx
Keeps-if false ps x y hx hy = hy

pub Keeps-idle_time : (ps : Server) (v : ℤ) → Within 5 300 v → Keeps ps (set_idle_time v ps)
unfolding set_idle_time
Keeps-idle_time ps v h = record {
  log_kept = refl;
  slave_kept = refl;
  nodes_kept = refl;
  pool_kept = refl;
  sessions_kept = refl;
  valid_kept = λ w. record {
    idle_ok = h;
    conn_ok = w.conn_ok;
    parallel_ok = w.parallel_ok;
    pool_ok = w.pool_ok;
  };
}

pub Keeps-mul_op_parallel :
    (ps : Server) (v : ℤ) → Within 5 100 v → Keeps ps (set_mul_op_parallel v ps)
unfolding set_mul_op_parallel
Keeps-mul_op_parallel ps v h = record {
  log_kept = refl;
  slave_kept = refl;
  nodes_kept = refl;
  pool_kept = refl;
  sessions_kept = refl;
  valid_kept = λ w. record {
    idle_ok = w.idle_ok;
    conn_ok = w.conn_ok;
    parallel_ok = h;
    pool_ok = w.pool_ok;
  };
}

pub Keeps-max_conn : (ps : Server) (v : ℤ) → Within 100 60000 v → Keeps ps (set_max_conn v ps)
unfolding set_max_conn
Keeps-max_conn ps v h = record {
  log_kept = refl;
  slave_kept = refl;
  nodes_kept = refl;
  pool_kept = refl;
  sessions_kept = refl;
  valid_kept = λ w. record {
    idle_ok = w.idle_ok;
    conn_ok = h;
    parallel_ok = w.parallel_ok;
    pool_ok = w.pool_ok;
  };
}

pub Keeps-statsd : (ps : Server) (v : Bytes) → Keeps ps (set_statsd v ps)
unfolding set_statsd
Keeps-statsd ps v = record {
  log_kept = refl;
  slave_kept = refl;
  nodes_kept = refl;
  pool_kept = refl;
  sessions_kept = refl;
  valid_kept = λ w. record {
    idle_ok = w.idle_ok;
    conn_ok = w.conn_ok;
    parallel_ok = w.parallel_ok;
    pool_ok = w.pool_ok;
  };
}

-- ===== src/Examples/Settings.antt =====
-- config.go, proxy.go and proxycmd.go at concrete inputs.
use smartproxy.Common.{
  ◌≡◌, ◌≢◌, ◌≤◌, ◌↔◌, ◌⊎◌, refl, true, false, List, [], ◌∷◌, none, some, Bytes, codes, arith,
  length, find, bytes_eq,
}
use smartproxy.Common.Int.{ℤ, pos}
use smartproxy.Text.{split, to_lower, atoi, num}
use smartproxy.Redis.Format.{format_int_reply, ok_bytes}
use smartproxy.Config.{started, new_proxy_config, save_config_tick}
use smartproxy.Config.Laws.{IsValid, Within, new_proxy_config-IsValid, save_config_tick-split}
use smartproxy.Server.{Server, Session, is_idle, new_session}
use smartproxy.Server.Expiry.{is_idle-new_session}
use smartproxy.Precheck.{BlackKey, expire_black_lists}
use smartproxy.Precheck.Blacked.{IsRefused}
use smartproxy.Precheck.Laws.{find-expire_black_lists}
use smartproxy.ProxyCmd.{proxy, config_set, config_get, wrote}
use smartproxy.ProxyCmd.Keeps.{KeepsAfter}
use smartproxy.ProxyCmd.Laws.{KeepsAfter-proxy}
use smartproxy.ProxyCmd.Settings.{idle, config_set-setting}
use smartproxy.ProxyCmd.Black.{new_key, proxy-black_set-IsRefused}
use smartproxy.Examples.{conf, ini, server, set_level, conf-IsValid}

starts : new_proxy_config ini (codes "proxy.ini") ≡ started conf
unfolding new_proxy_config
starts = refl

new_proxy_config-IsValid_example :
    IsValid conf
    × (conf.id ≢ [])
    × (conf.name ≢ [])
    × (conf.port ≢ [])
    × (conf.nodes ≡ split b',' (ini.default_string (codes "proxy::nodes") []))
new_proxy_config-IsValid_example =
    new_proxy_config-IsValid ini (codes "proxy.ini") {c = conf} starts

abbrev addrs : List Bytes
addrs = codes "a:1" ∷ codes "b:2" ∷ []

save_config_tick-split_example :
    ((text : Bytes)
      → (save_config_tick addrs conf).1 ≡ some text
      → (split b',' text ≡ addrs) × ((save_config_tick addrs conf).0.nodes ≡ addrs))
    × ((save_config_tick addrs conf).1 ≡ none → (save_config_tick addrs conf).0 ≡ conf)
    × (((save_config_tick addrs conf).1 ≡ none)
        ↔ ((length addrs ≡ length conf.nodes) ⊎ (addrs ≡ [])))
save_config_tick-split_example = save_config_tick-split addrs conf (
  (omega arith, (omega arith, (omega arith, tt))),
  ((omega arith, (omega arith, (omega arith, tt))), tt),
)

abbrev idle_session : Session
idle_session = record { last_access = 1000000; mul_op_parallel = pos 10; is_closed = false }

abbrev fresh_session : Session
fresh_session = record { last_access = 900000000; mul_op_parallel = pos 10; is_closed = false }

abbrev two_clients : Server
two_clients = record server {
  sess_mgr = (codes "a", idle_session) ∷ (codes "b", fresh_session) ∷ [];
}

is_idle-new_session_example : is_idle 1480000001 conf (new_session server 1480000000) ≡ true
is_idle-new_session_example =
    is_idle-new_session server 1480000000 1480000001 conf-IsValid (omega arith) (omega arith)
      (omega arith)

abbrev blacked : BlackKey
blacked = record { name = codes "k"; startup = 10; deadline = 3610 }

find-expire_black_lists_example :
    (find (codes "k") (expire_black_lists 20 ((codes "k", blacked) ∷ [])) ≡ some blacked
      → 20 ≤ blacked.deadline)
    × (find (codes "k") ((codes "k", blacked) ∷ []) ≡ some blacked
        → 20 ≤ blacked.deadline
        → find (codes "k") (expire_black_lists 20 ((codes "k", blacked) ∷ [])) ≡ some blacked)
find-expire_black_lists_example =
    find-expire_black_lists 20 (codes "k") ((codes "k", blacked) ∷ []) blacked

KeepsAfter-proxy_example :
    KeepsAfter server
      (proxy set_level 7 (codes "config" ∷ codes "set" ∷ codes "slaveok" ∷ codes "1" ∷ []) server)
KeepsAfter-proxy_example =
    KeepsAfter-proxy set_level 7 (codes "config" ∷ codes "set" ∷ codes "slaveok" ∷ codes "1" ∷ [])
      server cc

config_set-setting_example :
    ((v : ℤ)
      → atoi (codes "60") ≡ num v
      → Within 5 300 v
      → (config_get
            (codes "idletime")
            (config_set set_level (codes "idletime") (codes "60") server).0
          ≡ format_int_reply v)
        × ((config_set set_level (codes "idletime") (codes "60") server).1
            ≡ config_get (codes "idletime") server))
    × (((v : ℤ) → atoi (codes "60") ≡ num v → ¬ (Within 5 300 v))
        → (config_set set_level (codes "idletime") (codes "60") server).0 ≡ server)
config_set-setting_example = config_set-setting set_level idle (codes "60") server

black_word : to_lower (codes "BLACK") ≡ codes "black"
unfolding to_lower
black_word = refl

set_word : to_lower (codes "set") ≡ codes "set"
unfolding to_lower
set_word = refl

remove_word : to_lower (codes "Remove") ≡ codes "remove"
unfolding to_lower
remove_word = refl

an_hour : atoi (codes "3600") ≡ num (pos 3600)
unfolding atoi
an_hour = refl

proxy-black_set-IsRefused_example :
    (ps' : Server) × (proxy set_level 10
        (codes "BLACK" ∷ codes "set" ∷ codes "k" ∷ codes "3600" ∷ [])
        server
      ≡ wrote ps' ok_bytes)
    × (find (codes "k") ps'.black_keys ≡ some (new_key 10 (codes "k") 3600))
    × IsRefused ps'.black_keys (codes "k")
    × ((j : Bytes)
        → bytes_eq (codes "k") j ≡ false
        → find j ps'.black_keys ≡ find j server.black_keys)
proxy-black_set-IsRefused_example =
    proxy-black_set-IsRefused set_level 10 (codes "BLACK") (codes "set") (codes "k") (codes "3600")
      3600 server black_word set_word an_hour (omega arith)

abbrev one_black : Server
one_black = record server { black_keys = (codes "k", blacked) ∷ [] }

k_is_black : find (codes "k") one_black.black_keys ≡ some blacked
unfolding find bytes_eq
k_is_black = refl

-- ===== src/Server/Expiry.antt =====
-- proxy.go: what a tick of `ExpireClient` closes and keeps.
use smartproxy.Common.{ℕ, ◌^◌, ◌≤◌, ◌<◌, ◌≡◌, ◌⊎◌, true, [], ◌∷◌, Bytes, arith, Map}
use smartproxy.Config.{ProxyConfig}
use smartproxy.Config.Laws.{IsValid}
use smartproxy.Server.{Server, Session, new_session, is_idle}

-- An entry of a map, at some place.
abbrev pub In : Bytes → Session → Map Session → Type 0
In addr s [] = ⊥
In addr s ((a, u) ∷ m) = ((addr ≡ a) × (s ≡ u)) ⊎ In addr s m

module _ (now : ℕ) (conf : ProxyConfig) (addr : Bytes) where
  -- A closed session was an idle one of the map.
  abbrev pub WasIdle : Session → Map Session → Type 0
  WasIdle s m =
      (u : Session) × In addr u m
      × (is_idle now conf u ≡ true)
      × (s ≡ record u { is_closed = true })

-- `NewSession` notes the time in seconds where `ExpireClient` reads microseconds: a session that
-- has sent nothing yet counts as idle at every tick, however young it is, from 1970-01-01 01:17 on
-- and until 2106.
pub is_idle-new_session :
    (ps : Server) (opened now : ℕ)
    → IsValid ps.conf
    → opened ≤ now
    → opened < 2 ^ 32
    → 4594 < now
    → is_idle now ps.conf (new_session ps opened) ≡ true
unfolding is_idle new_session
is_idle-new_session ps opened now v h k m = ground arith

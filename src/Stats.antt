-- ===== src/Stats.antt =====
-- statsd.go, statsd/client.go and statsd/host.go: the counter of the requests, and the lines that are
-- sent to a statsd daemon.
pub mod Counter
pub mod Lines
use smartproxy.Common.{
  ℕ, zero, suc, ◌+◌, ◌-◌, ◌≡◌, refl, Bool, true, false, List, [], ◌∷◌, ◌++◌, Option, none, some,
  Bytes, codes, ltb, leb, ◌==◌, if◌then◌else◌, length, get_or,
}
use smartproxy.Common.Int.{ℤ, pos, negsuc, ◌+ℤ◌}
use smartproxy.Text.{format_int}
use smartproxy.Server.{Server}

-- A tick of `QpsStats`: the counter is swapped with 0, and its value is sent unless the channel, which
-- holds 1024, is full.
pub qps_tick : List ℤ → Server → List ℤ × Server
qps_tick qps ps = (
  if ltb (length qps) 1024 then qps ++ ps.op_count ∷ [] else qps,
  record ps { last_qps = ps.op_count; op_count = pos 0 },
)

pub in_front : Bytes → Option Bytes → Option Bytes
in_front s none = none
in_front s (some line) = some (s ++ line)

pub no_verb : Bytes → Option Bytes
unfolding in_front
no_verb [] = some []
no_verb (c ∷ s) = let rest = no_verb s in if c == b'%' then none else in_front (c ∷ []) rest

pub verb : ℤ → Bytes → Option Bytes
unfolding no_verb in_front
verb v [] = none
verb v (c ∷ s) = if c == b'd' then in_front (format_int v) (no_verb s) else none

-- `fmt.Fprintf` of a format with one `%d`; with any other verb it is not modelled.
pub fprintf : ℤ → Bytes → Option Bytes
unfolding verb in_front
fprintf v [] = none
fprintf v (c ∷ s) = let rest = fprintf v s in if c == b'%' then verb v s else in_front (c ∷ []) rest

-- `Client.send`: `%s%s:%s` of the prefix, the name and the format is itself a format.
pub send : Bytes → Bytes → Bytes → ℤ → Option Bytes
unfolding fprintf
send prefix stat format v = fprintf v (prefix ++ (stat ++ b':' ∷ format))

unfoldable pub incr : Bytes → Bytes → ℤ → Option Bytes
unfolding send
incr prefix stat count = send prefix stat (codes "%d|c") count

timing : Bytes → Bytes → ℤ → Option Bytes
unfolding send
timing prefix stat delta = send prefix stat (codes "%d|ms") delta

unfoldable gauge : Bytes → Bytes → ℤ → Option Bytes
unfolding send
gauge prefix stat value = send prefix stat (codes "%d|g") value

-- What the `select` of `QpsSend` takes.
pub data Taken : Type 0 where
  a_time : ℤ → Taken
  a_qps : ℤ → Taken
  quit : Taken

-- A round of `QpsSend`: whether the socket is made, and what is taken then.
pub record Round : Type 0 where
  pub connects : Bool
  pub takes : Taken

pub record Sending : Type 0 where
  pub lines : List (Option Bytes)
  pub is_ended : Bool

on_taken : Bytes → Taken → Sending → Sending
unfolding timing incr
on_taken prefix (a_time t) later = record later {
  lines = timing prefix (codes ".time") t ∷ later.lines;
}
on_taken prefix (a_qps n) later = record later { lines = incr prefix (codes "qps") n ∷ later.lines }
on_taken prefix quit later = record { lines = []; is_ended = true }

-- `QpsSend`, for the rounds given. `StatsdPrefix` is read in every round; here it does not change.
pub qps_send : Bytes → List Round → Sending
unfolding on_taken
qps_send prefix [] = record { lines = []; is_ended = false }
qps_send prefix (r ∷ rs) =
    let later = qps_send prefix rs in if r.connects then on_taken prefix r.takes later else later

-- `percentile` of a sorted list; `rounded` is the value of `math.Floor`.
pub percentile : ℕ → List ℕ → ℕ
percentile rounded arr =
    if length arr == 0
    then 0
    else get_or arr (if leb (length arr) rounded then length arr - 1 else rounded) 0

-- `HostKey`
pub host_key : Bytes → Bytes
host_key [] = []
host_key (c ∷ h) = (if c == b'.' then b'_' else if c == b':' then b'_' else c) ∷ host_key h

-- ===== src/Stats/Lines.antt =====
-- statsd/client.go and statsd/host.go: what is sent.
use smartproxy.Common.{
  ℕ, ◌-◌, ◌<◌, ◌≡◌, refl, Bool, true, false, List, [], ◌∷◌, ◌++◌, some, Bytes, codes, leb, ◌==◌,
  ◌&&◌, not, if◌then◌else◌, length, get_or, arith, true_of_&&, all,
}
use smartproxy.Common.Int.{ℤ}
use smartproxy.Text.{format_int}
use smartproxy.Stats.{
  no_verb, verb, in_front, fprintf, send, incr, Round, qps_send, host_key, percentile,
}

abbrev plain_byte : ℕ → Bool
plain_byte c = not (c == b'%')

not_percent : (c : ℕ) → plain_byte c ≡ true → (c == b'%') ≡ false
not_percent c h = ground arith

fprintf-plain :
    (v : ℤ) (s rest out : Bytes)
    → all plain_byte s ≡ true
    → fprintf v rest ≡ some out
    → fprintf v (s ++ rest) ≡ some (s ++ out)
unfolding fprintf in_front
fprintf-plain v [] rest out h k = k
fprintf-plain v (c ∷ s) rest out h k =
    let (plain, others) = true_of_&& (plain_byte c) (all plain_byte s) h in
    rw (not_percent c plain, fprintf-plain v s rest out others k) refl

-- A prefix and a name without a % are sent as they are, with the value behind a colon.
send-plain :
    (prefix stat : Bytes) (v : ℤ)
    → all plain_byte prefix ≡ true
    → all plain_byte stat ≡ true
    → incr prefix stat v ≡ some (prefix ++ (stat ++ b':' ∷ (format_int v ++ codes "|c")))
unfolding incr send fprintf verb no_verb in_front
send-plain prefix stat v h k = fprintf-plain v prefix _ _ h (fprintf-plain v stat _ _ k refl)

-- A host key has neither a dot nor a colon, and is as long as the host.
is_key_byte : ℕ → Bool
is_key_byte c = not (c == b'.') && not (c == b':')

host_key-all : (h : Bytes) → all is_key_byte (host_key h) ≡ true
unfolding host_key is_key_byte
host_key-all [] = refl
host_key-all (c ∷ h) = ground (arith, host_key-all h)

-- A percentile of a list that is not empty stands in the list, whatever the rounding is.
percentile-lt :
    (rounded : ℕ) (x : ℕ) (arr : List ℕ)
    → (i : ℕ) × (i < length (x ∷ arr)) × (percentile rounded (x ∷ arr) ≡ get_or (x ∷ arr) i 0)
unfolding percentile
percentile-lt rounded x arr = (
  if leb (length (x ∷ arr)) rounded then length (x ∷ arr) - 1 else rounded,
  ground arith,
  ground arith,
)

-- As long as no socket is made, `QpsSend` goes round, also after `Quit` was closed, and sends nothing.
qps_send-spins :
    (prefix : Bytes) (rs : List Round)
    → all (λ r. not r.connects) rs ≡ true
    → qps_send prefix rs ≡ record { lines = []; is_ended = false }
unfolding qps_send
qps_send-spins prefix [] h = refl
qps_send-spins prefix (r ∷ rs) h =
    let (off, others) = true_of_&& (not r.connects) _ h in
    rw (off_of r.connects off) (qps_send-spins prefix rs others)
  where
    off_of : (b : Bool) → not b ≡ true → b ≡ false
    off_of b h = ground arith

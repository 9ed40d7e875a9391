-- ===== src/Session/Cluster.antt =====
-- session.go over redis/cluster.go: the cluster client answers as a session needs it.
use smartproxy.Common.{ℕ, ◌≡◌, refl, Bool, Bytes, some}
use smartproxy.Common.Int.{ℤ}
use smartproxy.Redis.Command.{Cmd, has_reply}
use smartproxy.Redis.Cluster.{World, Nodes, Processed, answered, crashed, process}
use smartproxy.Redis.Cluster.Keeps.{process-has_reply}
use smartproxy.Session.Answers.{KeepsType}

-- The command that a session finds after `Process`; a crash ends the proxy.
abbrev pub answer_of : Cmd → Processed → Cmd
answer_of c (answered c' w) = c'
answer_of c crashed = c

pub KeepsType-process :
    (env : Nodes) (depth : ℕ) (max_redirects : ℤ) (w : World)
    → ((t : ℕ) (node : Bytes) (ask : Bool) (c c' : Cmd)
        → env.answer t node ask c ≡ some c'
        → has_reply c'.val ≡ has_reply c.val)
    → KeepsType (λ c. answer_of c (process env depth max_redirects c w))
KeepsType-process env depth max_redirects w keeps c =
    at_end (process env depth max_redirects c w) refl
  where
    at_end :
        (p : Processed)
        → process env depth max_redirects c w ≡ p
        → has_reply (answer_of c p).val ≡ has_reply c.val
    at_end (answered c' w') h = process-has_reply env keeps depth max_redirects c c' w w' h
    at_end crashed h = refl

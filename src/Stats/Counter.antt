-- ===== src/Stats/Counter.antt =====
-- statsd.go and session.go: no request is lost between the counter and the ticks.
use smartproxy.Common.{ℕ, suc, ◌≡◌, ap, ◌∙◌, List, [], ◌∷◌, arith}
use smartproxy.Common.Int.{ℤ, pos, ◌+ℤ◌, +ℤ_assoc, +ℤ_comm}
use smartproxy.Server.{Server}
use smartproxy.Session.{Conn, touched}
use smartproxy.Stats.{qps_tick}

-- A round of `HandleConn` that reads a request at a time, or a tick of `QpsStats`.
pub data Moment : Type 0 where
  reads : ℕ → Conn → Moment
  ticks : Moment

-- The values that `LastQPS` has after the ticks, in their order, and the server behind the events.
pub count_all : List ℤ → List Moment → Server → List ℤ × Server
unfolding touched qps_tick
count_all qps [] ps = ([], ps)
count_all qps (reads now c ∷ es) ps =
    count_all qps es (touched now (record c { server = ps })).server
count_all qps (ticks ∷ es) ps =
    let (values, ps') = count_all (qps_tick qps ps).0 es (qps_tick qps ps).1 in
    ((qps_tick qps ps).1.last_qps ∷ values, ps')

pub total : List ℤ → ℤ
total [] = pos 0
total (v ∷ vs) = v +ℤ total vs

unfoldable pub requests : List Moment → ℕ
requests [] = 0
requests (reads now c ∷ es) = suc (requests es)
requests (ticks ∷ es) = requests es

shift : (o : ℤ) (n : ℕ) → o +ℤ pos 1 +ℤ pos n ≡ o +ℤ pos (suc n)
unfolding ◌+ℤ◌
shift o n = ground arith

pos_add : (n : ℕ) → pos 0 +ℤ pos n ≡ pos n
unfolding ◌+ℤ◌
pos_add n = ground arith

-- Whatever the order of requests and ticks, the values that the ticks leave in `LastQPS` and what is left in
-- the counter are together what the counter held first and one for each request.
pub total-count_all :
    (qps : List ℤ) (es : List Moment) (ps : Server)
    → total (count_all qps es ps).0 +ℤ (count_all qps es ps).1.op_count
      ≡ ps.op_count +ℤ pos (requests es)
unfolding total count_all requests touched qps_tick
total-count_all qps [] ps = +ℤ_comm (pos 0) ps.op_count
total-count_all qps (reads now c ∷ es) ps =
    total-count_all qps es (touched now (record c { server = ps })).server
    ∙ shift ps.op_count (requests es)
total-count_all qps (ticks ∷ es) ps =
    +ℤ_assoc ps.op_count _ _
    ∙ ap (λ z. ps.op_count +ℤ z)
        (total-count_all (qps_tick qps ps).0 es (qps_tick qps ps).1 ∙ pos_add (requests es))

-- ===== src/Examples/Scattering.antt =====
-- special.go at concrete inputs.
use smartproxy.Common.{
  ℕ, ◌+◌, ◌≤◌, ◌<◌, ◌≡◌, ◌↔◌, refl, Bool, true, false, List, [], ◌∷◌, Bytes, codes, arith,
}
use smartproxy.Common.Int.{pos, ◌≤ℤ◌}
use smartproxy.Redis.Command.{Cmd}
use smartproxy.Redis.Format.{ok_bytes}
use smartproxy.Pool.{active, all_finished, start_jobs, pool, run}
use smartproxy.Pool.Bound.{active-run}
use smartproxy.Pool.Progress.{ends-run}
use smartproxy.Special.{from, stored, mget_work, mset_run, mset_reply, del_run}
use smartproxy.Special.Del.{total, del_run-bounded}
use smartproxy.Special.Mset.{failures, mset_run-failures}

abbrev keys : List Bytes
keys = codes "a" ∷ codes "b" ∷ []

abbrev process : ℕ → Cmd → Cmd
process i c = c

abbrev no_float : ℕ → Bytes
no_float f = []

-- The second goroutine stores its reply first.
abbrev second_first : List ℕ
second_first = 1 ∷ 0 ∷ 1 ∷ 1 ∷ 0 ∷ 0 ∷ []

abbrev all_fail : ℕ → Bool
all_fail i = true

-- Both read the counter before either writes it: one failure is lost.
abbrev overlapping : List ℕ
overlapping = 0 ∷ 1 ∷ 0 ∷ 1 ∷ 0 ∷ 1 ∷ 0 ∷ 1 ∷ []

mset_done : all_finished (mset_run all_fail 5 2 overlapping).jobs ≡ true
unfolding mset_run
mset_done = refl

lost_update : (mset_run all_fail 5 2 overlapping).shared ≡ 1
unfolding mset_run
lost_update = refl

mset_run-failures_example :
    ((mset_run all_fail 5 2 overlapping).shared ≤ failures all_fail (from 0 2))
    × ((mset_reply (mset_run all_fail 5 2 overlapping).shared 2 ≡ ok_bytes)
        ↔ (failures all_fail (from 0 2) ≡ 0))
mset_run-failures_example = mset_run-failures all_fail 5 2 overlapping mset_done

active-run_example :
    ((run false
          (mget_work no_float process keys)
          stored
          (0 ∷ 1 ∷ [])
          (pool 1 ([] ∷ [] ∷ []) (start_jobs (0 ∷ 1 ∷ [])))).tokens
        + active
            (run false
              (mget_work no_float process keys)
              stored
              (0 ∷ 1 ∷ [])
              (pool 1 ([] ∷ [] ∷ []) (start_jobs (0 ∷ 1 ∷ [])))).jobs
      ≡ 1)
    × (active
          (run false
            (mget_work no_float process keys)
            stored
            (0 ∷ 1 ∷ [])
            (pool 1 ([] ∷ [] ∷ []) (start_jobs (0 ∷ 1 ∷ [])))).jobs
        ≤ 1)
active-run_example =
    active-run false (mget_work no_float process keys) stored (0 ∷ 1 ∷ []) 1 ([] ∷ [] ∷ [])
      (0 ∷ 1 ∷ [])

abbrev to_store : Bool → ℕ
to_store true = 0
to_store false = 1

lighter :
    (k : ℕ) (s : List Bytes) (l : Bool)
    → stored l ≡ false
    → to_store (mget_work no_float process keys k s l).1 < to_store l
unfolding mget_work
lighter k s true h = cc
lighter k s false h = omega arith

ends-run_example :
    (more : List ℕ) × (all_finished
        (run false (mget_work no_float process keys) stored more (
          run false
            (mget_work no_float process keys)
            stored
            (1 ∷ [])
            (pool 1 ([] ∷ [] ∷ []) (start_jobs (0 ∷ 1 ∷ []))))).jobs
      ≡ true)
ends-run_example =
    ends-run false (mget_work no_float process keys) stored to_store lighter (1 ∷ []) 1
      ([] ∷ [] ∷ []) (0 ∷ 1 ∷ []) (omega arith)

del_run-bounded_example :
    (pos 0 ≤ℤ (del_run (λ i. pos 1) 5 2 overlapping).shared)
    × ((del_run (λ i. pos 1) 5 2 overlapping).shared ≤ℤ pos (total (λ i. 1) (from 0 2)))
del_run-bounded_example = del_run-bounded (λ i. 1) 5 2 overlapping

-- ===== src/Examples/Pooling.antt =====
-- The theorems about the pool of a node, at concrete inputs.
use smartproxy.Common.{
  ◌+◌, ◌≤◌, codes, length, ℕ, ◌≡◌, refl, true, false, List, [], ◌∷◌, ◌++◌, some,
}
use smartproxy.Redis.ConnList.{
  incr, decr, cons_to, with_new, crash, replaced_as, replace_in, add_to,
}
use smartproxy.Redis.ConnPool.{
  Phase, Waiter, Op, Choice, op_get, op_put, op_remove, op_close, away, putting, hand_back, found,
  none_found, look, timed_out, receive, start, reserve, move, step_at, run_pool, new_pool,
}
use smartproxy.Common.Int.{pos, ◌≤ℤ◌}
use smartproxy.Redis.ConnPool.Invariant.{Inv, any, in_hand}
use smartproxy.Config.{new_proxy_config, started, max_pool_size_per_node}
use smartproxy.Redis.Options.{client_options, get_pool_size, or_default}
use smartproxy.Server.Backend.{backend_options, node_pool_size, node_pool-bounded}
use smartproxy.Examples.{conf, ini}
use smartproxy.Redis.ConnPool.Counts.{sum}
use smartproxy.Redis.ConnPool.Run.{idle, run_pool-Inv, puts, run_pool-Sends}

-- The goroutine meets a node that answers, and no idle connection.
abbrev wants : Op → Choice
wants op = record { op = op; is_idle = false; is_unread = false; dials = true; is_timeout = false }

abbrev gives_up : Choice
gives_up = record {
  op = op_get;
  is_idle = false;
  is_unread = false;
  dials = true;
  is_timeout = true;
}

-- The accesses of `Get` that dials.
abbrev gets : ℕ → List (ℕ × Choice)
gets n =
    (n, wants op_get)
    ∷ (n, wants op_get)
    ∷ (n, wants op_get)
    ∷ (n, wants op_get)
    ∷ (n, wants op_get)
    ∷ (n, wants op_get)
    ∷ []

-- The first of two goroutines gets a connection, the second waits, and the first returns its own.
abbrev shared_by_two : List (ℕ × Choice)
shared_by_two =
    gets 0
    ++ (1, wants op_get)
      ∷ (1, wants op_get)
      ∷ (1, wants op_get)
      ∷ (1, wants op_get)
      ∷ (1, wants op_get)
      ∷ (0, wants op_put)
      ∷ []

run_pool-Inv_example :
    Inv 1
      (λ f. sum f (run_pool 1 shared_by_two (idle 2) new_pool).0)
      (run_pool 1 shared_by_two (idle 2) new_pool).1
unfolding run_pool step_at move start look found none_found reserve incr decr add_to hand_back idle
run_pool-Inv_example = run_pool-Inv 1 2 shared_by_two refl

run_pool-Sends_example :
    move 1 (wants op_get) (putting 0) (run_pool 1 shared_by_two (idle 2) new_pool).1 ≡ (
      away,
      record (run_pool 1 shared_by_two (idle 2) new_pool).1 {
        free = (run_pool 1 shared_by_two (idle 2) new_pool).1.free ++ 0 ∷ [];
      },
    )
unfolding run_pool step_at move start look found none_found reserve incr decr add_to hand_back idle
run_pool-Sends_example =
    run_pool-Sends 1 2 shared_by_two [] (Phase.waiting Waiter.in_get ∷ []) (putting 0) away 0
      (wants op_get) refl refl puts

starts : new_proxy_config ini (codes "proxy.ini") ≡ started conf
unfolding new_proxy_config
starts = refl

still_open : (run_pool (node_pool_size conf) shared_by_two (idle 2) new_pool).1.closed ≡ false
unfolding run_pool step_at move start look found none_found reserve incr decr add_to hand_back idle
    node_pool_size get_pool_size client_options backend_options or_default
still_open = refl

node_pool-bounded_example :
    (list : List ℕ) × ((run_pool (node_pool_size conf) shared_by_two (idle 2) new_pool).1.cns
      ≡ some list)
    × (pos (length list) ≤ℤ conf.pool_size_per_node)
    × (length list ≤ max_pool_size_per_node)
    × (length (run_pool (node_pool_size conf) shared_by_two (idle 2) new_pool).1.free
          + sum
              (λ p. any (in_hand p))
              (run_pool (node_pool_size conf) shared_by_two (idle 2) new_pool).0
        ≡ length list)
node_pool-bounded_example =
    node_pool-bounded ini (codes "proxy.ini") {conf = conf} 2 shared_by_two starts still_open

-- `Get` is at `Add` while `Close` gives up waiting; a connection dialled before is then removed.
abbrev overtaken : List (ℕ × Choice)
overtaken =
    gets 0
    ++ (1, wants op_get)
      ∷ (1, wants op_get)
      ∷ (1, wants op_get)
      ∷ (1, wants op_get)
      ∷ (1, wants op_get)
      ∷ (2, wants op_close)
      ∷ (2, wants op_close)
      ∷ (2, gives_up)
      ∷ (2, wants op_close)
      ∷ (1, wants op_get)
      ∷ (0, wants op_remove)
      ∷ (0, wants op_get)
      ∷ (0, wants op_get)
      ∷ []

overtaken_crashes :
    ((run_pool 2 overtaken (idle 3) new_pool).1.crashed ≡ true)
    × ((run_pool 2 overtaken (idle 3) new_pool).1.cns ≡ some (1 ∷ []))
unfolding run_pool step_at move start look found none_found reserve incr decr add_to hand_back idle
    timed_out receive replace_in replaced_as with_new cons_to crash
overtaken_crashes = (refl, refl)

-- ===== src/Redis/Node/Keeps.antt =====
-- redis/redis.go: the command that the client of a node hands back.
use smartproxy.Common.{
  ℕ, zero, suc, ◌+◌, ◌≡◌, refl, ◌∙◌, Bool, false, List, [], ◌∷◌, Option, none, some, ◌==◌, if_split,
  ◌≤◌, arith, subst,
}
use smartproxy.Common.Int.{ℤ}
use smartproxy.Errors.{Error}
use smartproxy.Redis.Command.{Cmd, reset, set_err, has_reply}
use smartproxy.Redis.Cluster.Keeps.{has_reply-zero_val}
use smartproxy.Redis.Node.{
  Try, Act, took, met, gave, Ran, put_conn, should_retry, next_try, on_read, on_written, on_conn,
  max_tries, try_loop, process_on_node,
}

abbrev Is : Bool → Ran → Type 0
Is b none = Unit
Is b (some (c, acts)) = has_reply c.val ≡ b

module _ (b : Bool) (again : Cmd → List Act → Ran)
    (next : (c : Cmd) (acts : List Act) → has_reply c.val ≡ b → Is b (again c acts)) where
  next_try-Is :
      (t : Try) (i : ℕ) (err : Option Error) (c : Cmd) (acts : List Act)
      → has_reply c.val ≡ b
      → Is b (next_try again t i err c acts)
  unfolding next_try
  next_try-Is t i err c acts h =
      if_split (Is b) (should_retry err) _ _
        (next c (gave i (put_conn t.is_unread err) ∷ met i err ∷ acts) h) h

  on_read-Is :
      (t : Try) (i : ℕ) (acts : List Act) (o : Option (Cmd × Option Error))
      → ((c : Cmd) (err : Option Error) → o ≡ some (c, err) → has_reply c.val ≡ b)
      → Is b (on_read again t i acts o)
  unfolding on_read
  on_read-Is t i acts none h = tt
  on_read-Is t i acts (some (c, err)) h = next_try-Is t i err c acts (h c err refl)

  on_conn-Is :
      (t : Try) (i : ℕ) (get_err write_err : Option Error) (c : Cmd) (acts : List Act)
      → ((d d' : Cmd) (err : Option Error)
          → t.parse d ≡ some (d', err)
          → has_reply d'.val ≡ has_reply d.val)
      → t.write_err ≡ write_err
      → has_reply c.val ≡ b
      → Is b (on_conn again t i get_err c acts)
  unfolding on_conn on_written set_err
  on_conn-Is t i (some e) we c acts keeps eq h = h
  on_conn-Is t i none (some e) c acts keeps eq h =
      rw (eq, on_written) (next_try-Is t i (some e) (set_err e c) (took i ∷ acts) h)
  on_conn-Is t i none none c acts keeps eq h =
      rw (eq, on_written)
        (on_read-Is t i (took i ∷ acts) (t.parse c) (λ d err e. keeps c d err e ∙ h))

module _ (tries : ℕ → Try)
    (keeps : (i : ℕ) (c c' : Cmd) (err : Option Error)
      → (tries i).parse c ≡ some (c', err)
      → has_reply c'.val ≡ has_reply c.val) where
  try_loop-Is :
      (b : Bool) (n i : ℕ) (c : Cmd) (acts : List Act)
      → has_reply c.val ≡ b
      → Is b (try_loop tries n i c acts)
  unfolding try_loop reset
  try_loop-Is b zero i c acts h = h
  try_loop-Is b (suc n) i c acts h =
      on_conn-Is b (try_loop tries n (i + 1)) (try_loop-Is b n (i + 1)) (tries i) i
        (tries i).get_err (tries i).write_err _ acts (keeps i) refl
        (if_split (λ (d : Cmd). has_reply d.val ≡ b) (i == 0) c (reset c) h
          (has_reply-zero_val c.val ∙ h))

  -- If reading a reply keeps the type of a command, so do all its attempts.
  pub process_on_node-has_reply :
      (max_retries : ℤ) (c c' : Cmd) (acts : List Act)
      → process_on_node tries max_retries c ≡ some (c', acts)
      → has_reply c'.val ≡ has_reply c.val
  unfolding process_on_node
  process_on_node-has_reply max_retries c c' acts h =
      subst (Is (has_reply c.val)) h (try_loop-Is _ (max_tries max_retries) 0 c [] refl)

-- The first attempt is the last one if it meets no error of the network.
module _ (tries : ℕ → Try) (c c' : Cmd) (err : Option Error) (gets : (tries 0).get_err ≡ none)
    (writes : (tries 0).write_err ≡ none) (reads : (tries 0).parse c ≡ some (c', err))
    (harmless : should_retry err ≡ false) where
  try_loop-first : (n : ℕ) → 1 ≤ n → (acts : List Act) × (try_loop tries n 0 c [] ≡ some (c', acts))
  unfolding try_loop on_conn on_written on_read next_try
  try_loop-first zero h = absurd (omega arith)
  try_loop-first (suc n) h = (
    gave 0 (put_conn (tries 0).is_unread err) ∷ met 0 err ∷ took 0 ∷ [],
    rw (gets, on_conn, writes, on_written, reads, on_read, harmless) refl,
  )

  pub process_on_node-first :
      (max_retries : ℤ)
      → 1 ≤ max_tries max_retries
      → (acts : List Act) × (process_on_node tries max_retries c ≡ some (c', acts))
  unfolding process_on_node
  process_on_node-first max_retries h = try_loop-first (max_tries max_retries) h

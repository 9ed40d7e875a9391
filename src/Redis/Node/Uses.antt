-- ===== src/Redis/Node/Uses.antt =====
-- redis/redis.go: how the connections are used that a command takes.
use smartproxy.Common.{
  ℕ, zero, suc, ◌+◌, ◌≤◌, ◌≡◌, ◌↔◌, ◌⊎◌, inl, inr, refl, sym, ◌∙◌, Bool, true, false, List, [], ◌∷◌,
  Option, none, some, ◌==◌, if◌then◌else◌, arith, if_cases,
}
use smartproxy.Common.Int.{ℤ, pos, negsuc}
use smartproxy.Errors.{Error, redis_error, net_error, plain, eof, is_network_error}
use smartproxy.Redis.Command.{Cmd, reset, set_err}
use smartproxy.Redis.Node.{
  Try, Handed, put, Act, took, met, gave, Ran, put_conn, should_retry, next_try, on_read,
  on_written, on_conn, max_tries, try_loop, process_on_node,
}

-- The end of a connection: an error of the network or the end of the stream.
abbrev pub is_lost : Option Error → Bool
is_lost none = false
is_lost (some eof) = true
is_lost (some (net_error s)) = true
is_lost (some (redis_error s)) = false
is_lost (some (plain s)) = false

-- Nothing stays unread, and no error but one that the node itself sent.
abbrev pub IsClean : Bool → Option Error → Type 0
IsClean true e = ⊥
IsClean false none = Unit
IsClean false (some (redis_error s)) = Unit
IsClean false (some (plain s)) = ⊥
IsClean false (some (net_error s)) = ⊥
IsClean false (some eof) = ⊥

-- The number of connections taken.
abbrev pub attempts : List Act → ℕ
attempts [] = 0
attempts (took i ∷ acts) = suc (attempts acts)
attempts (met i e ∷ acts) = attempts acts
attempts (gave i h ∷ acts) = attempts acts

-- The latest attempt, if there is one, lost its connection.
abbrev pub last_lost : List Act → Bool
last_lost [] = true
last_lost (gave i h ∷ acts) = last_lost acts
last_lost (met i e ∷ acts) = is_lost e
last_lost (took i ∷ acts) = false

-- An attempt that gets its connection meets the error of writing or, after writing, what `parseReply`
-- returns for a command.
abbrev pub Meets : Try → Option Error → Type 0
Meets t e =
    (t.get_err ≡ none)
    × (((f : Error) × (e ≡ some f) × (t.write_err ≡ some f))
        ⊎ ((t.write_err ≡ none) × ((c : Cmd) × (c' : Cmd) × (t.parse c ≡ some (c', e)))))

-- What was done, the latest first, is a row of attempts. Each takes one connection, meets an error or
-- none, and hands that connection back, to the pool exactly if it is clean; each but the first stands
-- behind one that lost its connection.
pub data Handled (tries : ℕ → Try) : List Act → Type 0 where
  nothing : Handled tries []
  one_more :
      {older : List Act} (i : ℕ) (h : Handed) (e : Option Error)
      → i ≡ attempts older
      → Meets (tries i) e
      → ((h ≡ put) ↔ IsClean (tries i).is_unread e)
      → last_lost older ≡ true
      → Handled tries older
      → Handled tries (gave i h ∷ met i e ∷ took i ∷ older)

-- After a lost connection there is another attempt, unless that was the last one or the pool has no
-- connection for it.
pub record IsOrderly (tries : ℕ → Try) (most : ℕ) (acts : List Act) : Type 0 where
  pub handled : Handled tries acts
  pub few : attempts acts ≤ most
  pub ended :
      last_lost acts ≡ true
      → (attempts acts ≡ most) ⊎ ((e : Error) × ((tries (attempts acts)).get_err ≡ some e))

abbrev pub EndsOrderly : (ℕ → Try) → ℕ → Ran → Type 0
EndsOrderly tries most none = (i : ℕ) × (c : Cmd) × ((tries i).parse c ≡ none)
EndsOrderly tries most (some (c, acts)) = IsOrderly tries most acts

should_retry-is_lost : (e : Option Error) → should_retry e ≡ is_lost e
unfolding should_retry is_network_error
should_retry-is_lost none = refl
should_retry-is_lost (some eof) = refl
should_retry-is_lost (some (net_error s)) = refl
should_retry-is_lost (some (redis_error s)) = refl
should_retry-is_lost (some (plain s)) = refl

put_conn_iff : (b : Bool) (e : Option Error) → (put_conn b e ≡ put) ↔ IsClean b e
unfolding put_conn
put_conn_iff true e = (λ h. cc, λ h. elim h [ ])
put_conn_iff false none = (λ h. tt, λ h. refl)
put_conn_iff false (some (redis_error s)) = (λ h. tt, λ h. refl)
put_conn_iff false (some (plain s)) = (λ h. cc, λ h. elim h [ ])
put_conn_iff false (some (net_error s)) = (λ h. cc, λ h. elim h [ ])
put_conn_iff false (some eof) = (λ h. cc, λ h. elim h [ ])

-- What holds before an attempt, with attempts left.
record IsReady (tries : ℕ → Try) (most n : ℕ) (acts : List Act) : Type 0 where
  handled : Handled tries acts
  left : attempts acts + n ≡ most
  lost : last_lost acts ≡ true

module _ (tries : ℕ → Try) (most : ℕ) where
  -- The loop goes on well from a state that is ready.
  abbrev GoesOn : ℕ → (Cmd → List Act → Ran) → Type 0
  GoesOn n again =
      (c : Cmd) (acts : List Act)
      → IsReady tries most n acts
      → EndsOrderly tries most (again c acts)

  module _ (n : ℕ) (again : Cmd → List Act → Ran) (next : GoesOn n again) (acts : List Act)
      (ready : IsReady tries most (suc n) acts) where
    abbrev now : ℕ
    now = attempts acts

    next_try-Orderly :
        (e : Option Error) (c : Cmd)
        → Meets (tries now) e
        → EndsOrderly tries most (next_try again (tries now) now e c (took now ∷ acts))
    unfolding next_try
    next_try-Orderly e c meets =
        let done : Handled tries
            (gave now (put_conn (tries now).is_unread e) ∷ met now e ∷ took now ∷ acts) =
          one_more now (put_conn (tries now).is_unread e) e refl meets
            (put_conn_iff (tries now).is_unread e) ready.lost ready.handled in
        let enough : suc now + n ≡ most = omega (arith, ready.left) in
        if_cases (EndsOrderly tries most) (should_retry e) _ _
          (λ retry.
            next c _ (record {
              handled = done;
              left = enough;
              lost = sym (should_retry-is_lost e) ∙ retry;
            }))
          (λ over. record {
            handled = done;
            few = omega arith;
            ended = λ lost. absurd (no_way (sym (should_retry-is_lost e) ∙ over) lost);
          })
      where
        no_way : is_lost e ≡ false → is_lost e ≡ true → ⊥
        no_way a b = cc

    on_read-Orderly :
        (c : Cmd) (o : Option (Cmd × Option Error))
        → (tries now).get_err ≡ none
        → (tries now).write_err ≡ none
        → (tries now).parse c ≡ o
        → EndsOrderly tries most (on_read again (tries now) now (took now ∷ acts) o)
    unfolding on_read
    on_read-Orderly c none gets writes reads = (now, c, reads)
    on_read-Orderly c (some (c', e)) gets writes reads =
        next_try-Orderly e c' (gets, inr (writes, (c, c', reads)))

    on_written-Orderly :
        (c : Cmd) (o : Option Error)
        → (tries now).get_err ≡ none
        → (tries now).write_err ≡ o
        → EndsOrderly tries most (on_written again (tries now) now o c (took now ∷ acts))
    unfolding on_written
    on_written-Orderly c none gets writes = on_read-Orderly c ((tries now).parse c) gets writes refl
    on_written-Orderly c (some f) gets writes =
        next_try-Orderly (some f) (set_err f c) (gets, inl (f, refl, writes))

    on_conn-Orderly :
        (c : Cmd) (o : Option Error)
        → (tries now).get_err ≡ o
        → EndsOrderly tries most (on_conn again (tries now) now o c acts)
    unfolding on_conn
    on_conn-Orderly c none gets = on_written-Orderly c (tries now).write_err gets refl
    on_conn-Orderly c (some f) gets = record {
      handled = ready.handled;
      few = omega (arith, ready.left);
      ended = λ lost. inr (f, gets);
    }

  try_loop-Orderly :
      (n i : ℕ) (c : Cmd) (acts : List Act)
      → i ≡ attempts acts
      → IsReady tries most n acts
      → EndsOrderly tries most (try_loop tries n i c acts)
  unfolding try_loop
  try_loop-Orderly zero i c acts same ready = record {
    handled = ready.handled;
    few = omega (arith, ready.left);
    ended = λ lost. inl (omega (arith, ready.left));
  }
  try_loop-Orderly (suc n) i c acts same ready = rw same (
      on_conn-Orderly n (try_loop tries n (attempts acts + 1))
        (λ c' acts' ready'.
          try_loop-Orderly n (attempts acts + 1) c' acts' (omega (arith, ready.left, ready'.left))
            ready')
        acts ready (if attempts acts == 0 then c else reset c) (tries (attempts acts)).get_err refl)

-- The first attempt and the retries; with a number below 0 there is none.
abbrev pub allowed : ℤ → ℕ
allowed (pos retries) = suc retries
allowed (negsuc n) = 0

max_tries-allowed : (max_retries : ℤ) → max_tries max_retries ≡ allowed max_retries
unfolding max_tries
max_tries-allowed (pos n) = omega arith
max_tries-allowed (negsuc n) = refl

-- A command is sent on at most `MaxRetries` + 1 connections, on none where that is below 1. Each attempt that gets a connection meets the
-- error of writing, or what `parseReply` returns behind a write without one; then it hands the connection
-- back, to the pool exactly if nothing stays unread on it and there was no error but one of the node. There
-- is a further attempt exactly behind an error of the network or the end of the stream, as long as there are
-- attempts left and the pool has a connection. Only a panic of `parseReply` cuts this short.
pub process_on_node-EndsOrderly :
    (tries : ℕ → Try) (max_retries : ℤ) (cmd : Cmd)
    → EndsOrderly tries (allowed max_retries) (process_on_node tries max_retries cmd)
unfolding process_on_node
process_on_node-EndsOrderly tries max_retries cmd =
    try_loop-Orderly tries (allowed max_retries) (max_tries max_retries) 0 cmd [] refl (record {
      handled = nothing;
      left = omega (arith, max_tries-allowed max_retries);
      lost = refl;
    })

-- ===== src/Special/Mget.antt =====
-- special.go: MGET answers its keys in their order, however its goroutines interleave.
use smartproxy.Common.{
  ℕ, suc, ◌<◌, ◌≡◌, Bool, true, false, List, [], ◌∷◌, some, Bytes, length, get_or, get_elem?,
}
use smartproxy.Redis.Command.{Cmd}
use smartproxy.Pool.{Phase, waiting, busy, finished, Job, Pool}
use smartproxy.Special.{get_reply, mget_work}

module _ (format_float : ℕ → Bytes) (process : ℕ → Cmd → Cmd) (keys : List Bytes) where
  abbrev work : ℕ → List Bytes → Bool → List Bytes × Bool
  work = mget_work format_float process keys

  answer_at : ℕ → Bytes
  answer_at i = get_reply format_float process i (get_or keys i [])

  IsAnswered : List Bytes → ℕ → Type 0
  IsAnswered s i = get_elem? s i ≡ some (answer_at i)

  abbrev IsGood : List Bytes → ℕ → Phase Bool → Type 0
  IsGood s i waiting = i < length s
  IsGood s i (busy false) = i < length s
  IsGood s i (busy true) = IsAnswered s i
  IsGood s i finished = IsAnswered s i

  record Keeps (s s' : List Bytes) : Type 0 where
    sized : length s' ≡ length s
    answered : (i : ℕ) → IsAnswered s i → IsAnswered s' i

  abbrev AllGood : List Bytes → List (Job ℕ Bool) → Type 0
  AllGood s [] = Unit
  AllGood s ((i, f) ∷ js) = IsGood s i f × AllGood s js

  abbrev numbers : List (Job ℕ Bool) → List ℕ
  numbers [] = []
  numbers ((i, f) ∷ js) = i ∷ numbers js

  -- A step keeps what is answered, and the goroutines and their numbers with it.
  record IsStep (s : List Bytes) (js : List (Job ℕ Bool)) (p : Pool ℕ (List Bytes) Bool)
      : Type 0 where
    kept : Keeps s p.shared
    good : AllGood p.shared p.jobs
    same : numbers p.jobs ≡ numbers js

-- The replies to the keys one after the other, in the order of the request.
abbrev pub in_order : (ℕ → Bytes → Bytes) → List Bytes → List Bytes
in_order get [] = []
in_order get (key ∷ keys) = get 0 key ∷ in_order (λ i. get (suc i)) keys

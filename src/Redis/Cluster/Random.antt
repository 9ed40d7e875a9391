-- ===== src/Redis/Cluster/Random.antt =====
-- redis/cluster.go: `getClient` and `randomClient` come to an end with a client or an error.
use smartproxy.Common.{
  ℕ, zero, suc, ◌<◌, ◌≡◌, ◌≢◌, refl, sym, ◌∙◌, false, List, [], ◌∷◌, Option, none, some, Bytes,
  ◌==◌, arith, length, get_or, bytes_eq, bytes_eq_iff, mem_key, All, if_split,
}
use smartproxy.Errors.{Error}
use smartproxy.Redis.Topology.{Cluster}
use smartproxy.Redis.Cluster.{
  World, Nodes, probed, Tried, got, gave_up, panicked, too_deep, tick, insert_client, known_client,
  probe_client, try_client, random_loop, get_client, random_client,
}

-- There is a node to draw, and no address is empty.
abbrev pub HasNodes : Cluster → Type 0
HasNodes c = (0 < length c.addrs) × All (λ a. a ≢ []) c.addrs

-- `rand.Intn` keeps to its range, and no other goroutine takes the addresses away.
pub record IsSane (env : Nodes) : Type 0 where
  pub in_range : (t n : ℕ) → 0 < n → env.draw t n < n
  pub keeps : (t : ℕ) (c : Cluster) → HasNodes c → HasNodes (env.others t c)

-- The reply to a probe makes `parseReply` panic.
abbrev pub ProbePanics : Nodes → Type 0
ProbePanics env = (t : ℕ) × (addr : Bytes) × (env.probe t addr ≡ none)

-- A client is live: its node answered the probe at some time. An error is given with every failure.
abbrev pub IsLive : Nodes → Tried → Type 0
IsLive env (got addr) = (addr ≢ []) × (t : ℕ) × (env.probe t addr ≡ some none)
IsLive env (gave_up (some e)) = Unit
IsLive env (gave_up none) = ⊥
IsLive env panicked = ProbePanics env
IsLive env too_deep = ⊥

-- A client of a given address.
abbrev IsFor : Bytes → Tried → Type 0
IsFor addr (got a) = a ≡ addr
IsFor addr (gave_up (some e)) = Unit
IsFor addr (gave_up none) = ⊥
IsFor addr panicked = ⊥
IsFor addr too_deep = ⊥

-- A client, an error, or the panic of a probe.
abbrev pub IsUsable : Nodes → Tried → Type 0
IsUsable env (got addr) = Unit
IsUsable env (gave_up (some e)) = Unit
IsUsable env (gave_up none) = ⊥
IsUsable env panicked = ProbePanics env
IsUsable env too_deep = ⊥

get_or-All :
    (P : Bytes → Type 0) (list : List Bytes) (i : ℕ)
    → i < length list
    → All P list
    → P (get_or list i [])
get_or-All P [] i h all = absurd (omega arith)
get_or-All P (a ∷ list) zero h (p, all) = p
get_or-All P (a ∷ list) (suc i) h (p, all) = get_or-All P list i (omega arith) all

-- A result and the state with it.
abbrev pub Ends : (Tried → Type 0) → Tried × World → Type 0
Ends P (t, w) = P t × HasNodes w.cluster

module _ (env : Nodes) (sane : IsSane env) where
  pub HasNodes-tick : (w : World) → HasNodes w.cluster → HasNodes (tick env w).cluster
  unfolding tick
  HasNodes-tick w h = sane.keeps w.clock w.cluster h

  insert_client-IsFor :
      (addr : Bytes) (w : World) → HasNodes w.cluster → Ends (IsFor addr) (insert_client env addr w)
  unfolding insert_client
  insert_client-IsFor addr w h =
      if_split (Ends (IsFor addr)) w.cluster.closed _ _ (tt, h)
        (if_split (Ends (IsFor addr)) (mem_key addr w.cluster.clients) _ _ (refl, h) (refl, h))

  known_client-IsFor :
      (addr : Bytes) (w : World) → HasNodes w.cluster → Ends (IsFor addr) (known_client env addr w)
  unfolding known_client
  known_client-IsFor addr w h =
      if_split (Ends (IsFor addr)) (mem_key addr w.cluster.clients) _ _ (refl, h)
        (insert_client-IsFor addr (tick env w) (HasNodes-tick w h))

  -- `getClient` of a given address needs no call of `randomClient`.
  get_client-given :
      (depth : ℕ) (addr : Bytes) (w : World)
      → addr ≢ []
      → get_client env depth addr w ≡ known_client env addr w
  unfolding get_client
  get_client-given zero addr w h = ground (arith, bytes_eq_iff addr [])
  get_client-given (suc depth) addr w h = ground (arith, bytes_eq_iff addr [])

  -- Where the loop ends without a client it has an error.
  abbrev Failed : ℕ → Option Error → Type 0
  Failed (suc n) e = Unit
  Failed zero (some e) = Unit
  Failed zero none = ⊥

  Failed-some : (n : ℕ) (e : Error) → Failed n (some e)
  Failed-some zero e = tt
  Failed-some (suc n) e = tt

  try_client-IsLive :
      (retry : Option Error → World → Tried × World) (addr : Bytes) (r : Tried × World)
      → ((e : Error) (w : World) → HasNodes w.cluster → Ends (IsLive env) (retry (some e) w))
      → addr ≢ []
      → Ends (IsFor addr) r
      → Ends (IsLive env) (try_client env retry r)
  unfolding try_client
  try_client-IsLive retry addr (got a, w) again h (same, k) =
      probed_client (env.probe w.clock a) refl
    where
      probed_client :
          (o : Option (Option Error))
          → env.probe w.clock a ≡ o
          → Ends
              (IsLive env)
              (probe_client env a (tick env (record w { log = probed a ∷ w.log })) retry o)
      probed_client none q = ((w.clock, a, q), HasNodes-tick w k)
      probed_client (some none) q = ((λ empty. h (sym same ∙ empty), w.clock, q), HasNodes-tick w k)
      probed_client (some (some e)) q =
          again e (tick env (record w { log = probed a ∷ w.log })) (HasNodes-tick w k)
  try_client-IsLive retry addr (gave_up (some e), w) again h (u, k) = again e w k
  try_client-IsLive retry addr (gave_up none, w) again h (u, k) = elim u [ ]
  try_client-IsLive retry addr (panicked, w) again h (u, k) = elim u [ ]
  try_client-IsLive retry addr (too_deep, w) again h (u, k) = elim u [ ]

  random_loop-IsLive :
      (depth n : ℕ) (e : Option Error) (w : World)
      → Failed n e
      → HasNodes w.cluster
      → Ends (IsLive env) (random_loop env (get_client env depth) n e w)
  unfolding random_loop
  random_loop-IsLive depth zero (some e) w f h = (tt, h)
  random_loop-IsLive depth zero none w f h = elim f [ ]
  random_loop-IsLive depth (suc n) e w f h =
      let i = env.draw w.clock (length w.cluster.addrs) in
      let addr = get_or w.cluster.addrs i [] in
      let given : addr ≢ [] =
        get_or-All (λ a. a ≢ []) w.cluster.addrs i
          (sane.in_range w.clock (length w.cluster.addrs) h.0) h.1 in
      let some_node : (length w.cluster.addrs == 0) ≡ false = ground arith in
      rw (some_node, random_loop)
        (try_client-IsLive (random_loop env (get_client env depth) n) addr
          (get_client env depth addr (tick env w))
          (λ e' w' h'. random_loop-IsLive depth n (some e') w' (Failed-some n e') h') given
          (rw (get_client-given depth addr (tick env w) given)
            (known_client-IsFor addr (tick env w) (HasNodes-tick w h))))

  -- `randomClient` ends with the client of a node that answered its probe, or with an error, or with the
  -- panic of `parseReply` on the reply to a probe. It panics in no other way and does not go on calling
  -- itself, whatever the nodes and the other goroutines do, as long as there is a node to draw, no address
  -- is empty, and a draw keeps to its range.
  pub random_client-IsLive :
      (depth : ℕ) (w : World)
      → HasNodes w.cluster
      → IsLive env (random_client env depth w).0 × HasNodes (random_client env depth w).1.cluster
  unfolding random_client
  random_client-IsLive depth w h = random_loop-IsLive depth 10 none w tt h

  pub IsLive-IsUsable : (r : Tried × World) → Ends (IsLive env) r → Ends (IsUsable env) r
  IsLive-IsUsable (got addr, w) (u, k) = (tt, k)
  IsLive-IsUsable (gave_up (some e), w) (u, k) = (tt, k)
  IsLive-IsUsable (gave_up none, w) (u, k) = elim u [ ]
  IsLive-IsUsable (panicked, w) (u, k) = (u, k)
  IsLive-IsUsable (too_deep, w) (u, k) = elim u [ ]

  IsFor-IsUsable : (addr : Bytes) (r : Tried × World) → Ends (IsFor addr) r → Ends (IsUsable env) r
  IsFor-IsUsable a (got addr, w) (u, k) = (tt, k)
  IsFor-IsUsable a (gave_up (some e), w) (u, k) = (tt, k)
  IsFor-IsUsable a (gave_up none, w) (u, k) = elim u [ ]
  IsFor-IsUsable a (panicked, w) (u, k) = elim u [ ]
  IsFor-IsUsable a (too_deep, w) (u, k) = elim u [ ]

  -- `getClient` ends, with an empty address too.
  pub get_client-IsUsable :
      (depth : ℕ) (addr : Bytes) (w : World)
      → HasNodes w.cluster
      → Ends (IsUsable env) (get_client env (suc depth) addr w)
  unfolding get_client random_loop
  get_client-IsUsable depth addr w h =
      if_split (Ends (IsUsable env)) (bytes_eq addr []) _ _
        (IsLive-IsUsable (random_loop env (get_client env depth) 10 none w)
          (random_loop-IsLive depth 10 none w tt h))
        (IsFor-IsUsable addr (known_client env addr w) (known_client-IsFor addr w h))

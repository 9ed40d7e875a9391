-- ===== src/Redis/Cluster/Looks.antt =====
-- redis/cluster.go: looking for a client sends no command.
use smartproxy.Common.{
  ℕ, zero, suc, ◌≡◌, refl, ◌∙◌, Bool, true, ◌||◌, List, [], ◌∷◌, Option, none, some, Bytes, ◌==◌,
  arith, length, bytes_eq, bytes_eq_iff, mem_key, get_or, if_split, if_cases,
}
use smartproxy.Errors.{Error}
use smartproxy.Redis.Cluster.{
  Event, sent, probed, reload, World, Nodes, Tried, got, gave_up, panicked, too_deep, tick,
  insert_client, known_client, probe_client, try_client, random_loop, get_client, random_client,
}

-- A command sent: the node, whether behind ASKING, and the error that came back.
pub record Hop : Type 0 where
  pub node : Bytes
  pub ask : Bool
  pub err : Option Error

-- The commands sent, the latest first.
unfoldable pub hops : List Event → List Hop
hops [] = []
hops (sent node ask err ∷ log) = record { node = node; ask = ask; err = err } ∷ hops log
hops (probed addr ∷ log) = hops log
hops (reload ∷ log) = hops log

-- Nothing is sent, and a client of an address that is not empty is of that address.
abbrev pub Looks : List Event → Bytes → Tried × World → Type 0
Looks log addr (got a, w) = (hops w.log ≡ hops log) × ((bytes_eq addr [] || bytes_eq a addr) ≡ true)
Looks log addr (t, w) = hops w.log ≡ hops log

pub Looks-log :
    (log log' : List Event) (addr : Bytes) (r : Tried × World)
    → hops log ≡ hops log'
    → Looks log addr r
    → Looks log' addr r
Looks-log log log' addr (got a, w) h (k, l) = (k ∙ h, l)
Looks-log log log' addr (gave_up e, w) h k = k ∙ h
Looks-log log log' addr (panicked, w) h k = k ∙ h
Looks-log log log' addr (too_deep, w) h k = k ∙ h

module _ (env : Nodes) where
  known_client-Looks : (addr : Bytes) (w : World) → Looks w.log addr (known_client env addr w)
  unfolding known_client insert_client tick
  known_client-Looks addr w =
      let same : (bytes_eq addr [] || bytes_eq addr addr) ≡ true =
        ground (arith, bytes_eq_iff addr addr) in
      if_split (Looks w.log addr) (mem_key addr w.cluster.clients) _ _ (refl, same)
        (if_split (Looks w.log addr) (tick env w).cluster.closed _ _ refl (
          if_split (Looks w.log addr) (mem_key addr (tick env w).cluster.clients) _ _ (refl, same)
            (refl, same)))

  -- A retry that sends nothing.
  abbrev Quiet : (Option Error → World → Tried × World) → Type 0
  Quiet retry = (e : Option Error) (w : World) → Looks w.log [] (retry e w)

  try_client-Looks :
      (log : List Event) (addr : Bytes) (retry : Option Error → World → Tried × World)
      (r : Tried × World)
      → Quiet retry
      → Looks log addr r
      → Looks log [] (try_client env retry r)
  unfolding try_client tick bytes_eq hops
  try_client-Looks log addr retry (got a, w) quiet (h, k) = found (env.probe w.clock a)
    where
      found :
          (o : Option (Option Error))
          → Looks log []
              (probe_client env a (tick env (record w { log = probed a ∷ w.log })) retry o)
      found none = h
      found (some none) = (h, refl)
      found (some (some e)) =
          Looks-log (probed a ∷ w.log) log []
            (retry (some e) (tick env (record w { log = probed a ∷ w.log }))) h
            (quiet (some e) (tick env (record w { log = probed a ∷ w.log })))
  try_client-Looks log addr retry (gave_up e, w) quiet h =
      Looks-log w.log log [] (retry e w) h (quiet e w)
  try_client-Looks log addr retry (panicked, w) quiet h = h
  try_client-Looks log addr retry (too_deep, w) quiet h = h

  random_loop-Looks :
      (get : Bytes → World → Tried × World) (n : ℕ)
      → ((addr : Bytes) (w : World) → Looks w.log addr (get addr w))
      → Quiet (random_loop env get n)
  unfolding random_loop tick
  random_loop-Looks get zero h e w = refl
  random_loop-Looks get (suc n) h e w =
      let addr = get_or w.cluster.addrs (env.draw w.clock (length w.cluster.addrs)) [] in
      if_split (Looks w.log []) (length w.cluster.addrs == 0) _ _ refl (
        try_client-Looks w.log addr (random_loop env get n) (get addr (tick env w))
          (random_loop-Looks get n h) (h addr (tick env w)))

  pub get_client-Looks :
      (depth : ℕ) (addr : Bytes) (w : World) → Looks w.log addr (get_client env depth addr w)
  unfolding get_client
  get_client-Looks zero addr w =
      if_split (Looks w.log addr) (bytes_eq addr []) _ _ refl (known_client-Looks addr w)
  get_client-Looks (suc depth) addr w =
      if_cases (Looks w.log addr) (bytes_eq addr []) _ _
        (λ e.
          at_random e (random_loop env (get_client env depth) 10 none w)
            (random_loop-Looks (get_client env depth) 10 (get_client-Looks depth) none w))
        (λ e. known_client-Looks addr w)
    where
      at_random :
          bytes_eq addr [] ≡ true → (r : Tried × World) → Looks w.log [] r → Looks w.log addr r
      at_random e (got a, v) (h, k) = (h, rw e refl)
      at_random e (gave_up f, v) h = h
      at_random e (panicked, v) h = h
      at_random e (too_deep, v) h = h

  pub random_client-Looks : (depth : ℕ) (w : World) → Looks w.log [] (random_client env depth w)
  unfolding random_client
  random_client-Looks depth w =
      random_loop-Looks (get_client env depth) 10 (get_client-Looks depth) none w

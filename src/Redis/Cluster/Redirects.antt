-- ===== src/Redis/Cluster/Redirects.antt =====
-- redis/cluster.go: where `process` sends a command, and how often.
use smartproxy.Common.{
  ℕ, zero, suc, ◌+◌, ◌≤◌, ◌≡◌, refl, ◌∙◌, ap, Bool, true, false, not, ◌&&◌, ◌||◌, List, [], ◌∷◌,
  Option, none, some, Bytes, subst, if◌then◌else◌, arith, length, bytes_eq, if_split, if_cases,
}
use smartproxy.Common.Int.{ℤ}
use smartproxy.Errors.{Error, Moved, is_network_error, is_moved_error}
use smartproxy.Redis.Command.{Cmd, reset, set_err, cluster_key}
use smartproxy.Redis.Reply.{is_nil}
use smartproxy.Redis.Slots.{hash_slots, hash_slot}
use smartproxy.Redis.Topology.{slot_master_addr}
use smartproxy.Redis.Cluster.{
  Event, World, Nodes, Tried, got, gave_up, panicked, too_deep, Next, go, stop, crash, Processed,
  answered, crashed, max_attempts, lazy_reload_slots, tick, get_client, random_client, to_client,
  to_moved, is_tx_failed, redirect, on_next, send_log, on_answer, attempt, on_client, process,
}
use smartproxy.Redis.Cluster.Looks.{
  Hop, hops, Looks, Looks-log, get_client-Looks, random_client-Looks,
}

-- Where a redirection leads: to its address, or to any node if that is empty; with ASKING if it says so.
leads : Moved → Bytes → Bool → Bool
unfolding bytes_eq
leads m node ask =
    (m.moved || m.ask)
    && ((m.ask && ask) || (not m.ask && not ask))
    && (bytes_eq m.addr [] || bytes_eq node m.addr)

-- A command that came back with the error may go to the node next: after an error of the network to
-- any, without ASKING; after MOVED or ASK where that leads; after any other not at all.
may_follow : Option Error → Bytes → Bool → Bool
unfolding leads is_nil is_tx_failed is_network_error is_moved_error
may_follow none node ask = false
may_follow (some e) node ask =
    not (is_nil e || is_tx_failed e)
    && (if is_network_error e then not ask else leads (is_moved_error e) node ask)

-- The first command goes to the master of the slot, or to any node if that is not known.
may_start : Bytes → List Hop → Bytes → Bool → Bool
unfolding may_follow bytes_eq
may_start home [] node ask = not ask && (bytes_eq home [] || bytes_eq node home)
may_start home (hop ∷ older) node ask = may_follow hop.err node ask

-- Every command sent follows from the answer to the one before.
pub is_chain : Bytes → List Hop → Bool
unfolding may_start
is_chain home [] = true
is_chain home (hop ∷ older) = may_start home older hop.node hop.ask && is_chain home older

-- The error that stands in the command is the one that came back with the last command sent.
abbrev pub Returned : List Hop → Option Error → Type 0
Returned [] err = Unit
Returned (hop ∷ older) err = hop.err ≡ err

module _ (env : Nodes) where
  -- Nothing is sent before the command goes on, and then only where it may.
  abbrev Leads : List Event → (Bytes → Bool → Bool) → Next → Type 0
  Leads log f (go node ask w) = (hops w.log ≡ hops log) × (f node ask ≡ true)
  Leads log f (stop w) = hops w.log ≡ hops log
  Leads log f crash = Unit

  to_client-Leads :
      (log : List Event) (addr : Bytes) (f : Bytes → Bool → Bool) (ask : Bool) (r : Tried × World)
      → ((node : Bytes) → (bytes_eq addr [] || bytes_eq node addr) ≡ true → f node ask ≡ true)
      → Looks log addr r
      → Leads log f (to_client ask r)
  unfolding to_client
  to_client-Leads log addr f ask (got a, w) h (k, l) = (k, h a l)
  to_client-Leads log addr f ask (gave_up e, w) h k = k
  to_client-Leads log addr f ask (panicked, w) h k = tt
  to_client-Leads log addr f ask (too_deep, w) h k = tt

  hops-lazy_reload_slots : (w : World) → hops (lazy_reload_slots w).log ≡ hops w.log
  unfolding lazy_reload_slots hops
  hops-lazy_reload_slots w =
      if_split (λ (v : World). hops v.log ≡ hops w.log) w.cluster.reloading _ _ refl refl

  module _ (depth : ℕ) where
    to_moved-Leads :
        (slot : ℕ) (m : Moved) (w : World) → Leads w.log (leads m) (to_moved env depth slot m w)
    unfolding to_moved leads
    to_moved-Leads slot m w =
        let b = m.moved && not (bytes_eq (slot_master_addr w.cluster slot) m.addr) in
        let w' : World = if b then lazy_reload_slots w else w in
        let same : hops w'.log ≡ hops w.log =
          if_split (λ (v : World). hops v.log ≡ hops w.log) b (lazy_reload_slots w) w
            (hops-lazy_reload_slots w) refl in
        if_cases (Leads w.log (leads m)) (m.moved || m.ask) _ _
          (λ e.
            to_client-Leads w.log m.addr (leads m) m.ask (get_client env depth m.addr w')
              (λ node h. ground arith)
              (Looks-log w'.log w.log m.addr (get_client env depth m.addr w') same
                (get_client-Looks env depth m.addr w')))
          (λ e. refl)

    redirect-Leads :
        (slot : ℕ) (err : Option Error) (w : World)
        → Leads w.log (may_follow err) (redirect env depth slot err w)
    unfolding redirect may_follow
    redirect-Leads slot none w = refl
    redirect-Leads slot (some e) w =
        if_cases (Leads w.log (may_follow (some e))) (is_nil e || is_tx_failed e) _ _ (λ h. refl)
          (λ h.
            if_cases (Leads w.log (may_follow (some e))) (is_network_error e) _ _
              (λ k.
                to_client-Leads w.log [] (may_follow (some e)) false (random_client env depth w)
                  (λ node l. ground arith) (random_client-Looks env depth w))
              (λ k.
                weaken (to_moved env depth slot (is_moved_error e) w) (λ node ask l. ground arith)
                  (to_moved-Leads slot (is_moved_error e) w)))
      where
        weaken :
            (o : Next)
            → ((node : Bytes) (ask : Bool)
                → leads (is_moved_error e) node ask ≡ true
                → may_follow (some e) node ask ≡ true)
            → Leads w.log (leads (is_moved_error e)) o
            → Leads w.log (may_follow (some e)) o
        weaken (go node ask v) f (a, b) = (a, f node ask b)
        weaken (stop v) f a = a
        weaken crash f a = a

    -- What an answered command says of the commands that were sent for it.
    abbrev Traced : Bytes → ℕ → Processed → Type 0
    Traced home bound (answered cmd w) =
        (is_chain home (hops w.log) ≡ true)
        × (length (hops w.log) ≤ bound)
        × Returned (hops w.log) cmd.err
    Traced home bound crashed = Unit

    on_next-Traced :
        (home : Bytes) (bound : ℕ) (cmd : Cmd) (again : Bytes → Bool → World → Processed)
        (hop : Hop) (older : List Hop) (log : List Event) (o : Next)
        → hops log ≡ hop ∷ older
        → hop.err ≡ cmd.err
        → is_chain home (hop ∷ older) ≡ true
        → length (hop ∷ older) ≤ bound
        → ((node : Bytes) (ask : Bool) (w : World)
            → hops w.log ≡ hop ∷ older
            → may_follow cmd.err node ask ≡ true
            → Traced home bound (again node ask w))
        → Leads log (may_follow cmd.err) o
        → Traced home bound (on_next cmd again o)
    unfolding on_next
    on_next-Traced home bound cmd again hop older log (go node ask w) same last chain le next
          (k, l) =
        next node ask w (k ∙ same) l
    on_next-Traced home bound cmd again hop older log (stop w) same last chain le next k =
        rw (k ∙ same) (chain, le, last)
    on_next-Traced home bound cmd again hop older log crash same last chain le next k = tt

    on_answer-Traced :
        (home : Bytes) (bound slot : ℕ) (node : Bytes) (ask : Bool) (w : World)
        (again : Cmd → Bytes → Bool → World → Processed) (o : Option Cmd)
        → (may_start home (hops w.log) node ask && is_chain home (hops w.log)) ≡ true
        → length (hops w.log) + 1 ≤ bound
        → ((c : Cmd) (node' : Bytes) (ask' : Bool) (v : World)
            → hops v.log ≡ record { node = node; ask = ask; err = c.err } ∷ hops w.log
            → may_follow c.err node' ask' ≡ true
            → Traced home bound (again c node' ask' v))
        → Traced home bound (on_answer env depth slot node ask w again o)
    unfolding on_answer send_log tick hops is_chain
    on_answer-Traced home bound slot node ask w again none chain le next = tt
    on_answer-Traced home bound slot node ask w again (some c) chain le next =
        let w' = send_log env node ask c w in
        let hop : Hop = record { node = node; ask = ask; err = c.err } in
        on_next-Traced home bound c (again c) hop (hops w.log) w'.log
          (redirect env depth slot c.err w') refl refl chain (omega arith) (next c)
          (redirect-Leads slot c.err w')

    attempt-Traced :
        (home : Bytes) (n bound : ℕ) (first ask : Bool) (slot : ℕ) (node : Bytes) (cmd : Cmd)
        (w : World)
        → is_chain home (hops w.log) ≡ true
        → may_start home (hops w.log) node ask ≡ true
        → length (hops w.log) + n ≤ bound
        → Returned (hops w.log) cmd.err
        → Traced home bound (attempt env depth n first ask slot node cmd w)
    unfolding attempt hops is_chain may_start
    attempt-Traced home zero bound first ask slot node cmd w chain start le last =
        (chain, omega arith, last)
    attempt-Traced home (suc n) bound first ask slot node cmd w chain start le last =
        on_answer-Traced home bound slot node ask w
          (λ cmd' node' ask' v. attempt env depth n false ask' slot node' cmd' v)
          (env.answer w.clock node ask (if first then cmd else reset cmd)) (rw (start, chain) refl)
          (omega arith)
          (λ cmd' node' ask' v same follows.
            attempt-Traced home n bound false ask' slot node' cmd' v
              (rw same (rw (start, chain) refl)) (rw same follows) (rw same (omega arith))
              (rw same refl))

    on_client-Traced :
        (home : Bytes) (n slot : ℕ) (cmd : Cmd) (r : Tried × World)
        → Looks [] home r
        → Traced home n (on_client env depth n slot cmd r)
    unfolding on_client hops is_chain may_start set_err
    on_client-Traced home n slot cmd (got addr, w) (h, k) =
        attempt-Traced home n n true false slot addr cmd w (rw h refl) (rw h k) (rw h (omega arith))
          (rw h tt)
    on_client-Traced home n slot cmd (gave_up (some e), w) h = rw h (refl, omega arith, tt)
    on_client-Traced home n slot cmd (gave_up none, w) h = tt
    on_client-Traced home n slot cmd (panicked, w) h = tt
    on_client-Traced home n slot cmd (too_deep, w) h = tt

    -- The commands that `process` sends before it answers: the first one goes to the master of the
    -- slot (to any node if that is not known), and every further one follows from the answer to the one
    -- before: after MOVED to the address it names, after ASK to the address it names behind ASKING,
    -- after an error of the network to any node, and after any other answer there is none. There are
    -- at most `max_attempts`, and the command holds the error of the last answer.
    pub process-is_chain :
        (max_redirects : ℤ) (cmd cmd' : Cmd) (w w' : World)
        → w.log ≡ []
        → process env depth max_redirects cmd w ≡ answered cmd' w'
        → (is_chain
              (slot_master_addr w.cluster
                (hash_slot (env.draw w.clock hash_slots) (cluster_key cmd)))
              (hops w'.log)
            ≡ true)
          × (length (hops w'.log) ≤ max_attempts max_redirects)
          × Returned (hops w'.log) cmd'.err
    unfolding process tick
    process-is_chain max_redirects cmd cmd' w w' empty h =
        let slot = hash_slot (env.draw w.clock hash_slots) (cluster_key cmd) in
        let home = slot_master_addr w.cluster slot in
        subst (Traced home (max_attempts max_redirects)) h (
          on_client-Traced home (max_attempts max_redirects) slot cmd
            (get_client env depth home (tick env w))
            (Looks-log (tick env w).log [] home (get_client env depth home (tick env w))
              (ap hops empty) (get_client-Looks env depth home (tick env w))))

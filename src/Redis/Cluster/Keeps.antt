-- ===== src/Redis/Cluster/Keeps.antt =====
-- redis/cluster.go: `process` leaves the type of the command, whose `Reply` the session writes.
use smartproxy.Common.{
  ℕ, zero, suc, ◌≡◌, refl, ◌∙◌, subst, Bool, true, false, Option, none, some, Bytes, if◌then◌else◌,
  if_split,
}
use smartproxy.Common.Int.{ℤ}
use smartproxy.Redis.Command.{
  Val, Cmd, reset, zero_val, set_err, cluster_key, has_reply, any, slice, status, int, duration,
  bool, string, float, string_slice, bool_slice, string_string_map, string_int_map, zslice, scan,
  cluster_slots,
}
use smartproxy.Redis.Slots.{hash_slots, hash_slot}
use smartproxy.Redis.Topology.{slot_master_addr}
use smartproxy.Redis.Cluster.{
  World, Nodes, Tried, got, gave_up, panicked, too_deep, Next, go, stop, crash, Processed, answered,
  crashed, max_attempts, tick, get_client, redirect, on_next, send_log, on_answer, attempt,
  on_client, process,
}

pub has_reply-zero_val : (v : Val) → has_reply (zero_val v) ≡ has_reply v
unfolding has_reply zero_val
has_reply-zero_val (any v) = refl
has_reply-zero_val (slice v) = refl
has_reply-zero_val (status v) = refl
has_reply-zero_val (int v) = refl
has_reply-zero_val (duration p v) = refl
has_reply-zero_val (bool v) = refl
has_reply-zero_val (string v) = refl
has_reply-zero_val (float v) = refl
has_reply-zero_val (string_slice v) = refl
has_reply-zero_val (bool_slice v) = refl
has_reply-zero_val (string_string_map v) = refl
has_reply-zero_val (string_int_map v) = refl
has_reply-zero_val (zslice v) = refl
has_reply-zero_val (scan cursor keys) = refl
has_reply-zero_val (cluster_slots v) = refl

abbrev Same : Bool → Processed → Type 0
Same b (answered cmd w) = has_reply cmd.val ≡ b
Same b crashed = Unit

on_next-Same :
    (b : Bool) (cmd : Cmd) (again : Bytes → Bool → World → Processed) (o : Next)
    → has_reply cmd.val ≡ b
    → ((node : Bytes) (ask : Bool) (w : World) → Same b (again node ask w))
    → Same b (on_next cmd again o)
unfolding on_next
on_next-Same b cmd again (go node ask w) h next = next node ask w
on_next-Same b cmd again (stop w) h next = h
on_next-Same b cmd again crash h next = tt

module _ (env : Nodes)
    (keeps : (t : ℕ) (node : Bytes) (ask : Bool) (c c' : Cmd)
      → env.answer t node ask c ≡ some c'
      → has_reply c'.val ≡ has_reply c.val)
    (depth : ℕ) where
  on_answer-Same :
      (b : Bool) (slot : ℕ) (node : Bytes) (ask : Bool) (w : World)
      (again : Cmd → Bytes → Bool → World → Processed) (o : Option Cmd)
      → ((c : Cmd) → o ≡ some c → has_reply c.val ≡ b)
      → ((c : Cmd) (node' : Bytes) (ask' : Bool) (v : World)
          → has_reply c.val ≡ b
          → Same b (again c node' ask' v))
      → Same b (on_answer env depth slot node ask w again o)
  unfolding on_answer
  on_answer-Same b slot node ask w again none kept next = tt
  on_answer-Same b slot node ask w again (some c) kept next =
      on_next-Same b c (again c) (redirect env depth slot c.err (send_log env node ask c w))
        (kept c refl) (λ node' ask' v. next c node' ask' v (kept c refl))

  attempt-Same :
      (b : Bool) (n : ℕ) (first ask : Bool) (slot : ℕ) (node : Bytes) (cmd : Cmd) (w : World)
      → has_reply cmd.val ≡ b
      → Same b (attempt env depth n first ask slot node cmd w)
  unfolding attempt reset
  attempt-Same b zero first ask slot node cmd w h = h
  attempt-Same b (suc n) first ask slot node cmd w h =
      let asked : Cmd = if first then cmd else reset cmd in
      let kept : has_reply asked.val ≡ b =
        if_split (λ (c : Cmd). has_reply c.val ≡ b) first cmd (reset cmd) h
          (has_reply-zero_val cmd.val ∙ h) in
      on_answer-Same b slot node ask w
        (λ cmd' node' ask' v. attempt env depth n false ask' slot node' cmd' v)
        (env.answer w.clock node ask asked) (λ cmd' e. keeps w.clock node ask asked cmd' e ∙ kept)
        (λ cmd' node' ask' v k. attempt-Same b n false ask' slot node' cmd' v k)

  on_client-Same :
      (n slot : ℕ) (cmd : Cmd) (r : Tried × World)
      → Same (has_reply cmd.val) (on_client env depth n slot cmd r)
  unfolding on_client set_err
  on_client-Same n slot cmd (got addr, w) =
      attempt-Same (has_reply cmd.val) n true false slot addr cmd w refl
  on_client-Same n slot cmd (gave_up (some e), w) = refl
  on_client-Same n slot cmd (gave_up none, w) = tt
  on_client-Same n slot cmd (panicked, w) = tt
  on_client-Same n slot cmd (too_deep, w) = tt

  -- A command comes back from the cluster as one with a `Reply` exactly if it was one before,
  -- through all redirections and resets, if the clients of the nodes keep this.
  pub process-has_reply :
      (max_redirects : ℤ) (cmd cmd' : Cmd) (w w' : World)
      → process env depth max_redirects cmd w ≡ answered cmd' w'
      → has_reply cmd'.val ≡ has_reply cmd.val
  unfolding process
  process-has_reply max_redirects cmd cmd' w w' h =
      let slot = hash_slot (env.draw w.clock hash_slots) (cluster_key cmd) in
      subst (Same (has_reply cmd.val)) h (
        on_client-Same (max_attempts max_redirects) slot cmd
          (get_client env depth (slot_master_addr w.cluster slot) (tick env w)))

-- ===== src/Redis/Pipeline/Keeps.antt =====
-- redis/pipeline.go: the commands that `Exec` hands back are of the types of those it was given.
use smartproxy.Common.{
  ℕ, zero, suc, ◌+◌, ◌≡◌, refl, ◌∙◌, subst, Bool, true, false, List, [], ◌∷◌, Option, none, some,
  Bytes, ◌==◌, if_split,
}
use mathlib.Core.Path.{ap₂}
use smartproxy.Common.Int.{ℤ}
use smartproxy.Errors.{Error}
use smartproxy.Wire.{Reader}
use smartproxy.Redis.Command.{Cmd, reset, set_err, has_reply}
use smartproxy.Redis.Cluster.Keeps.{has_reply-zero_val}
use smartproxy.Redis.Reply.Commands.{Parsing, parsed, crashed, parse_cmd}
use smartproxy.Redis.Reply.Keeps.{parse_cmd-has_reply}
use smartproxy.Redis.Node.{max_tries}
use smartproxy.Redis.Pipeline.{
  Link, Queued, Pass, Batch, Done, put_first, on_parsed, set_cmds_err, reset_cmds, queue, is_done,
  parse_all, exec_on, exec_cmds, on_pass, on_link, exec_loop, exec,
}

-- Which commands have a `Reply`.
unfoldable pub types : List Queued → List Bool
types [] = []
types (q ∷ qs) = has_reply q.cmd.val ∷ types qs

abbrev IsPass : List Bool → Option Pass → Type 0
IsPass bs none = Unit
IsPass bs (some p) = types p.cmds ≡ bs

abbrev pub IsDone : List Bool → Option Done → Type 0
IsDone bs none = Unit
IsDone bs (some d) = types d.cmds ≡ bs

set_cmds_err-types : (e : Error) (qs : List Queued) → types (set_cmds_err e qs) ≡ types qs
unfolding set_cmds_err set_err types
set_cmds_err-types e [] = refl
set_cmds_err-types e (q ∷ qs) =
    ap₂ ◌∷◌
      (if_split (λ (p : Queued). has_reply p.cmd.val ≡ has_reply q.cmd.val) q.is_failed _ _ refl
        refl)
      (set_cmds_err-types e qs)

reset_cmds-types : (qs : List Queued) → types (reset_cmds qs) ≡ types qs
unfolding reset_cmds reset types
reset_cmds-types [] = refl
reset_cmds-types (q ∷ qs) =
    ap₂ ◌∷◌
      (if_split (λ (p : Queued). has_reply p.cmd.val ≡ has_reply q.cmd.val) q.is_failed _ _
        (has_reply-zero_val q.cmd.val) refl)
      (reset_cmds-types qs)

put_first-IsPass :
    (b : Bool) (bs : List Bool) (q : Queued) (err : Option Error) (o : Option Pass)
    → has_reply q.cmd.val ≡ b
    → IsPass bs o
    → IsPass (b ∷ bs) (put_first q err o)
unfolding put_first types
put_first-IsPass b bs q err none h k = tt
put_first-IsPass b bs q err (some p) h k = ap₂ ◌∷◌ h k

module _ (sprintf : Bytes → Bytes) (max_cap : ℕ) (parse_float : Bytes → ℕ × Option Error) where
  on_parsed-IsPass :
      (c : Cmd) (bs : List Bool) (r : Reader) (p : Parsing) (again : Reader → Option Pass)
      → parse_cmd sprintf max_cap parse_float c r ≡ p
      → ((r : Reader) → IsPass bs (again r))
      → IsPass (has_reply c.val ∷ bs) (on_parsed p again)
  unfolding on_parsed
  on_parsed-IsPass c bs r (parsed c' err r') again h k =
      put_first-IsPass _ bs _ err (again r')
        (parse_cmd-has_reply sprintf max_cap parse_float c c' err r r' h) (k r')
  on_parsed-IsPass c bs r crashed again h k = tt

  parse_all-IsPass :
      (qs : List Queued) (r : Reader)
      → IsPass (types qs) (parse_all sprintf max_cap parse_float qs r)
  unfolding parse_all types
  parse_all-IsPass [] r = refl
  parse_all-IsPass (q ∷ qs) r =
      elim q.is_failed
        as (λ b. IsPass (has_reply q.cmd.val ∷ types qs) (elim b [
          | true ↦
              on_parsed (parse_cmd sprintf max_cap parse_float q.cmd r)
                (parse_all sprintf max_cap parse_float qs)
          | false ↦ put_first q none (parse_all sprintf max_cap parse_float qs r)
        ])) [
          | true ↦ on_parsed-IsPass q.cmd (types qs) r _ _ refl (parse_all-IsPass qs)
          | false ↦ put_first-IsPass _ (types qs) q none _ refl (parse_all-IsPass qs r)
        ]

  exec_on-IsPass :
      (l : Link) (e : Option Error) (qs : List Queued)
      → IsPass (types qs) (exec_on sprintf max_cap parse_float l e qs)
  unfolding exec_on
  exec_on-IsPass l (some e) qs = set_cmds_err-types e qs
  exec_on-IsPass l none qs = parse_all-IsPass qs l.reader

  on_pass-IsDone :
      (bs : List Bool) (again : List Queued → Option Error → List Batch → Option Done) (l : Link)
      (args : List (List Bytes)) (ret : Option Error) (us : List Batch) (o : Option Pass)
      → IsPass bs o
      → ((qs : List Queued) (ret : Option Error) (us : List Batch)
          → types qs ≡ bs
          → IsDone bs (again qs ret us))
      → IsDone bs (on_pass again l args ret us o)
  unfolding on_pass
  on_pass-IsDone bs again l args ret us none h k = tt
  on_pass-IsDone bs again l args ret us (some p) h k =
      if_split (IsDone bs) (is_done p.cmds) _ _ h (k p.cmds _ _ h)

  on_link-IsDone :
      (bs : List Bool) (again : List Queued → Option Error → List Batch → Option Done) (l : Link)
      (e : Option Error) (qs qs' : List Queued) (ret : Option Error) (us : List Batch)
      → types qs ≡ bs
      → types qs' ≡ bs
      → ((qs : List Queued) (ret : Option Error) (us : List Batch)
          → types qs ≡ bs
          → IsDone bs (again qs ret us))
      → IsDone bs (on_link sprintf max_cap parse_float again l e qs qs' ret us)
  unfolding on_link exec_cmds
  on_link-IsDone bs again l (some e) qs qs' ret us h h' k = set_cmds_err-types e qs ∙ h
  on_link-IsDone bs again l none qs qs' ret us h h' k =
      on_pass-IsDone bs again l _ ret us _
        (subst (λ b. IsPass b (exec_on sprintf max_cap parse_float l l.write_err qs')) h'
          (exec_on-IsPass l l.write_err qs'))
        k

  module _ (links : ℕ → Link) where
    exec_loop-IsDone :
        (bs : List Bool) (n i : ℕ) (qs : List Queued) (ret : Option Error) (us : List Batch)
        → types qs ≡ bs
        → IsDone bs (exec_loop sprintf max_cap parse_float links n i qs ret us)
    unfolding exec_loop
    exec_loop-IsDone bs zero i qs ret us h = h
    exec_loop-IsDone bs (suc n) i qs ret us h =
        on_link-IsDone bs _ (links i) (links i).get_err qs _ ret us h
          (if_split (λ (qs : List Queued). types qs ≡ bs) (i == 0) qs (reset_cmds qs) h
            (reset_cmds-types qs ∙ h))
          (exec_loop-IsDone bs n (i + 1))

    -- `Exec` hands back as many commands as it was given, each with a `Reply` exactly if it had one.
    pub exec-IsDone :
        (max_retries : ℤ) (c : Cmd) (cs : List Cmd)
        → IsDone
            (types (queue (c ∷ cs)))
            (exec sprintf max_cap parse_float links max_retries (c ∷ cs))
    unfolding exec
    exec-IsDone max_retries c cs =
        exec_loop-IsDone _ (max_tries max_retries) 0 (queue (c ∷ cs)) none [] refl

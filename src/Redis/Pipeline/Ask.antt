-- ===== src/Redis/Pipeline/Ask.antt =====
-- redis/pipeline.go: the pipeline of ASKING and a command, on its first connection.
use smartproxy.Common.{
  ℕ, zero, suc, ◌≤◌, ◌<◌, ◌≡◌, refl, ◌∙◌, ap, false, [], ◌∷◌, ◌++◌, append_assoc, Option, none,
  some, Bytes, arith, length,
}
use smartproxy.Common.Int.{ℤ}
use smartproxy.Errors.{Error}
use smartproxy.Wire.{Reader}
use smartproxy.Wire.RoundTrip.{reader, NoNewline}
use smartproxy.Redis.Format.{crlf, str_value}
use smartproxy.Redis.Command.{Cmd, any}
use smartproxy.Redis.Reply.{parse_reply, parse_nested, value_of}
use smartproxy.Redis.Reply.Commands.{parsed, parse_cmd, parse_by, any_reply}
use smartproxy.Redis.Reply.RoundTrip.{parse-status}
use smartproxy.Redis.Node.{put_conn, should_retry, max_tries}
use smartproxy.Redis.Pipeline.{
  Link, first_of, put_first, on_parsed, failed_args, queue, is_done, parse_all, exec_on, exec_cmds,
  on_pass, on_link, exec_loop, exec, asking,
}

module _ (sprintf : Bytes → Bytes) (max_cap : ℕ) (parse_float : Bytes → ℕ × Option Error) where
  -- The reply to ASKING is read.
  pub parse_cmd-asking :
      (s rest : Bytes) (e : Error)
      → NoNewline s
      → length s < 4094
      → parse_cmd sprintf max_cap parse_float asking (reader (b'+' ∷ (s ++ crlf) ++ rest) e)
        ≡ parsed (record asking { val = any (some (str_value s)) }) none (reader rest e)
  unfolding parse_cmd parse_by any_reply parse_reply parse_nested value_of
  parse_cmd-asking s rest e h k =
      ap (λ bytes. any_reply asking (parse_reply sprintf max_cap (reader (b'+' ∷ bytes) e)))
        (append_assoc s crlf rest)
      ∙ ap (any_reply asking) (parse-status sprintf _ s rest e h k)

  module _ (links : ℕ → Link) (c : Cmd) where
    exec_loop-once :
        (n : ℕ) (a c' : Cmd) (ea err : Option Error) (r r' : Reader)
        → 1 ≤ n
        → (links 0).get_err ≡ none
        → (links 0).write_err ≡ none
        → parse_cmd sprintf max_cap parse_float asking (links 0).reader ≡ parsed a ea r
        → should_retry ea ≡ false
        → parse_cmd sprintf max_cap parse_float c r ≡ parsed c' err r'
        → should_retry err ≡ false
        → exec_loop sprintf max_cap parse_float links n 0 (queue (asking ∷ c ∷ [])) none []
          ≡ some (record {
            cmds =
                record { cmd = a; is_failed = false } ∷ record { cmd = c'; is_failed = false } ∷ [];
            err = first_of ea (first_of err none);
            batches =
                record {
                  sent_args = asking.args ∷ c.args ∷ [];
                  handed = put_conn (links 0).is_unread (first_of ea (first_of err none));
                }
                ∷ [];
          })
    unfolding exec_loop on_link exec_cmds exec_on parse_all queue on_parsed put_first on_pass
        is_done failed_args first_of
    exec_loop-once zero a c' ea err r r' n g w p pa q qa = absurd (omega arith)
    exec_loop-once (suc n) a c' ea err r r' h g w p pa q qa =
        rw (g, on_link, w, exec_on, p, on_parsed, pa, q, on_parsed, qa) refl

    -- If no error of the network is met on the first connection, it is the only one: it was sent ASKING and
    -- the command, in this order, and the commands hold what their replies left.
    pub exec-once :
        (max_retries : ℤ) (a c' : Cmd) (ea err : Option Error) (r r' : Reader)
        → 1 ≤ max_tries max_retries
        → (links 0).get_err ≡ none
        → (links 0).write_err ≡ none
        → parse_cmd sprintf max_cap parse_float asking (links 0).reader ≡ parsed a ea r
        → should_retry ea ≡ false
        → parse_cmd sprintf max_cap parse_float c r ≡ parsed c' err r'
        → should_retry err ≡ false
        → exec sprintf max_cap parse_float links max_retries (asking ∷ c ∷ [])
          ≡ some (record {
            cmds =
                record { cmd = a; is_failed = false } ∷ record { cmd = c'; is_failed = false } ∷ [];
            err = first_of ea (first_of err none);
            batches =
                record {
                  sent_args = asking.args ∷ c.args ∷ [];
                  handed = put_conn (links 0).is_unread (first_of ea (first_of err none));
                }
                ∷ [];
          })
    unfolding exec
    exec-once max_retries = exec_loop-once (max_tries max_retries)

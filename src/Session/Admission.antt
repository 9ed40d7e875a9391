-- ===== src/Session/Admission.antt =====
-- session.go: what `HandleConn` does at the end of the input.
use smartproxy.Common.{ℕ, ◌≡◌, refl, true, [], ◌++◌, codes, ap, sym, ◌∙◌}
use smartproxy.Errors.{eof}
use smartproxy.Wire.{Reader, failed, parse_req}
use smartproxy.Session.{Env, Conn, serving, on_outcome, on_status, step}

-- A round of the loop while the connection is served.
step-serving :
    (env : Env) (c : Conn)
    → c.status ≡ serving
    → step env c ≡ on_outcome env (parse_req env.max_cap c.reader) c
unfolding step
step-serving env c running = ap (λ st. on_status st env c) running

abbrev at_end : Reader
at_end = record { unread = []; last = eof }

parse_req-at_end : (max_cap : ℕ) → parse_req max_cap at_end ≡ failed eof at_end
unfolding parse_req
parse_req-at_end max_cap = refl

on_outcome-eof :
    (env : Env) (c : Conn)
    → env.write_ok ≡ true
    → ((on_outcome env (failed eof at_end) c).out ≡ c.out ++ codes "-EOF\r\n")
      × ((on_outcome env (failed eof at_end) c).status ≡ c.status)
      × ((on_outcome env (failed eof at_end) c).reader ≡ at_end)
unfolding on_outcome
on_outcome-eof env c w = rw w (refl, refl, refl)

-- At the end of the input, with nothing left to read, a round of `HandleConn` writes "-EOF" to the
-- client and goes on: as long as the writes succeed, it answers the end of the input for ever.
pub step-eof :
    (env : Env) (c : Conn)
    → c.status ≡ serving
    → c.reader ≡ record { unread = []; last = eof }
    → env.write_ok ≡ true
    → ((step env c).out ≡ c.out ++ codes "-EOF\r\n")
      × ((step env c).status ≡ serving)
      × ((step env c).reader ≡ c.reader)
step-eof env c running ended can_write =
    let whole =
      step-serving env c running
      ∙ ap (λ r. on_outcome env (parse_req env.max_cap r) c) ended
      ∙ ap (λ o. on_outcome env o c) (parse_req-at_end env.max_cap) in
    let (out, status, reader) = on_outcome-eof env c can_write in
    (
      ap (λ (d : Conn). d.out) whole ∙ out,
      ap (λ (d : Conn). d.status) whole ∙ status ∙ running,
      ap (λ (d : Conn). d.reader) whole ∙ reader ∙ sym ended,
    )

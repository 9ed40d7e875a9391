-- ===== src/Session/Answers.antt =====
-- session.go: a request that is passed on to the cluster is answered.
use smartproxy.Common.{
  ◌≡◌, ◌≢◌, refl, ap, ◌∙◌, true, false, List, [], ◌++◌, none, some, Bytes, find,
}
use smartproxy.Redis.Command.{Cmd, has_reply, reply}
use smartproxy.Redis.Request
use smartproxy.Redis.Request.{Request, new_request, set_resp, result}
use smartproxy.Redis.Handlers.{Handler, handlers, call}
use smartproxy.Redis.Handlers.Complete.{passes-handler}
use smartproxy.Redis.Handlers.Replies.{reply-ne-nil, handlers-has_reply}
use smartproxy.Precheck.{Verdict, pre_check_command, is_spec_command, pass}
use smartproxy.Precheck.Laws.{pre_check_command-pass}
use smartproxy.Server.{dispatch, call_method}
use smartproxy.Server.Dispatch.{IsCoherent, dispatch_lem}
use smartproxy.Session.{Env, Conn, is_error, write, forward, decide, with_verdict, on_request}

-- The cluster answers a command by one of the same type.
abbrev pub KeepsType : (Cmd → Cmd) → Type 0
KeepsType process = (c : Cmd) → has_reply (process c).val ≡ has_reply c.val

decide-pass :
    (env : Env) (req : Request) (c : Conn)
    → is_spec_command (Request.name req) ≡ false
    → decide env pass req c ≡ forward env (with_verdict pass req) c
unfolding decide is_error
decide-pass env req c h = rw h refl

name-with_verdict :
    (v : Verdict) (req : Request) → Request.name (with_verdict v req) ≡ Request.name req
unfolding with_verdict Request.name
name-with_verdict v req = refl

forward-out :
    (env : Env) (req : Request) (c : Conn)
    → env.write_ok ≡ true
    → req.err ≡ none
    → ((forward env req c).out
        ≡ c.out ++ reply env.format_float (dispatch env.process req c.server).1)
      × ((forward env req c).status ≡ c.status)
      × ((forward env req c).server ≡ (dispatch env.process req c.server).0)
unfolding forward write set_resp result
forward-out env req c w e = rw (w, e) (refl, refl, refl)

pub on_request-answers :
    (env : Env) (words : List Bytes) (c : Conn)
    → (pre_check_command c.server.black_keys (new_request words)).handled ≡ false
    → is_spec_command (Request.name (new_request words)) ≡ false
    → IsCoherent c.server
    → KeepsType env.process
    → env.write_ok ≡ true
    → (h : Handler) × (find (Request.name (new_request words)) handlers ≡ some h)
      × ((on_request env words c).out
          ≡ c.out
            ++ reply env.format_float
                (env.process (call h (with_verdict pass (new_request words)))))
      × (reply env.format_float (env.process (call h (with_verdict pass (new_request words)))) ≢ [])
      × ((on_request env words c).status ≡ c.status)
      × IsCoherent (on_request env words c).server
on_request-answers env words c passed plain coherent keeps can_write =
    let req = new_request words in
    let req' = with_verdict pass req in
    let (h, found) = passes-handler c.server.black_keys req passed plain in
    let whole = request-forward env words c passed plain in
    let (out, status, server) = forward-out env req' c can_write (err_none req) in
    let (answered, cached) = dispatch_lem env.process req' c.server coherent in
    let cmd = answered ∙ rw (name-with_verdict pass req, found) (called env.process h req') in
    (
      h,
      found,
      ap (λ (d : Conn). d.out) whole
          ∙ out
          ∙ ap (λ (a : Cmd). c.out ++ reply env.format_float a) cmd,
      reply-ne-nil env.format_float _
          (keeps (call h req') ∙ handlers-has_reply (Request.name req) req' found),
      ap (λ (d : Conn). d.status) whole ∙ status,
      rw (whole, server) cached,
    )
  where
    request-forward :
        (env : Env) (words : List Bytes) (c : Conn)
        → (pre_check_command c.server.black_keys (new_request words)).handled ≡ false
        → is_spec_command (Request.name (new_request words)) ≡ false
        → on_request env words c ≡ forward env (with_verdict pass (new_request words)) c
    request-forward env words c passed plain =
        unfold on_request in
        rw (pre_check_command-pass c.server.black_keys (new_request words) passed)
          (decide-pass env (new_request words) c plain)

    err_none : (req : Request) → (with_verdict pass req).err ≡ none
    err_none req = unfold with_verdict in refl

    called :
        (process : Cmd → Cmd) (h : Handler) (req : Request)
        → call_method process (some h) req ≡ process (call h req)
    called process h req = unfold call_method in refl

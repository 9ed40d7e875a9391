-- ===== src/Server/Dispatch.antt =====
-- proxy.go: the cache of methods that `Dispatch` keeps changes no answer.
use smartproxy.Common.{
  ◌≡◌, refl, ap, Option, none, some, Bytes, arith, find, find-insert, bytes_eq_iff,
}
use smartproxy.Redis.Command.{Cmd}
use smartproxy.Redis.Request
use smartproxy.Redis.Request.{Request}
use smartproxy.Redis.Handlers.{Handler, handlers}
use smartproxy.Server.{Server, method, call_method, remember, dispatch}

-- Every cached method is the one that the reflection finds.
abbrev pub IsCoherent : Server → Type 0
IsCoherent ps =
    (name : Bytes) (cached : Option Handler)
    → find name ps.redis_method ≡ some cached
    → cached ≡ find name handlers

method-coherent :
    (name : Bytes) (o : Option (Option Handler))
    → ((cached : Option Handler) → o ≡ some cached → cached ≡ find name handlers)
    → method o name ≡ find name handlers
unfolding method
method-coherent name none h = refl
method-coherent name (some cached) h = h cached refl

remember-IsCoherent :
    (o : Option (Option Handler)) (name : Bytes) (ps : Server)
    → IsCoherent ps
    → IsCoherent (remember o name (find name handlers) ps)
unfolding remember
remember-IsCoherent (some cached) name ps h = h
remember-IsCoherent none name ps h = λ j cached e. ground (
  arith,
  find-insert name j (find name handlers) ps.redis_method,
  bytes_eq_iff name j,
  h j cached,
)

-- Whatever is cached, `Dispatch` answers by the handler of the request's name, or by the error for
-- a name that has none, and the cache stays true to the reflection.
pub dispatch_lem :
    (process : Cmd → Cmd) (req : Request) (ps : Server)
    → IsCoherent ps
    → ((dispatch process req ps).1 ≡ call_method process (find (Request.name req) handlers) req)
      × IsCoherent (dispatch process req ps).0
unfolding dispatch
dispatch_lem process req ps h =
    let name = Request.name req in
    let found = method-coherent name (find name ps.redis_method) (h name) in
    (
      ap (λ m. call_method process m req) found,
      rw found (remember-IsCoherent (find name ps.redis_method) name ps h),
    )

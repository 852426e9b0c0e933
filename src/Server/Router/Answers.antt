-- ===== src/Server/Router/Answers.antt =====
-- What every answer of the router has.
use go_mongo_boilerplate.Base.{ℕ, ◌≡◌, refl, Bool, true, false, Option, none, some, if◌then◌else◌}
use go_mongo_boilerplate.Base.Int.{ℤ, pos, leb_ℤ}
use go_mongo_boilerplate.Stdlib.Text.{Text, is_empty}
use go_mongo_boilerplate.RateLimit.{Verdict}
use go_mongo_boilerplate.Cors.{CorsConfig}
use go_mongo_boilerplate.Server.Router.{
  Request, Context, Done, Chain, recovered, request_id, logged, request_logger, after_verdict,
  rate_limit, body_limit, timeout, after_cors, cors, RouterConfig, route, provide_router,
}

abbrev pub context_of : Done → Context
context_of (Done.returned c) = c
context_of (Done.panicked c) = c

-- A property of contexts that a chain keeps, whether it returns or panics.
abbrev pub Keeps : (Context → Type 0) → Chain → Type 0
Keeps P chain = (c : Context) → P c → P (context_of (chain c))

module _ (id : Text) where
  abbrev pub HasId : Context → Type 0
  HasId c = c.request_id ≡ some id

  recovered-HasId : (d : Done) → HasId (context_of d) → HasId (recovered d)
  unfolding recovered
  recovered-HasId (Done.returned c) h = h
  recovered-HasId (Done.panicked c) h = h

  logged-HasId : (d : Done) → HasId (context_of d) → HasId (context_of (logged d))
  unfolding logged
  logged-HasId (Done.returned c) h = h
  logged-HasId (Done.panicked c) h = h

  request_logger-Keeps : (next : Chain) → Keeps HasId next → Keeps HasId (request_logger next)
  unfolding request_logger
  request_logger-Keeps next k c h = logged-HasId (next c) (k c h)

  after_verdict-Keeps :
      (next : Chain) (v : Verdict) → Keeps HasId next → Keeps HasId (after_verdict next v)
  unfolding after_verdict
  after_verdict-Keeps next Verdict.next k c h = k c h
  after_verdict-Keeps next Verdict.too_many k c h = h

  rate_limit-Keeps :
      (req : Request) (next : Chain) → Keeps HasId next → Keeps HasId (rate_limit req next)
  unfolding rate_limit
  rate_limit-Keeps req next k c h = after_verdict-Keeps next _ k _ h

  -- A middleware that may set a field that is not the id.
  either-HasId :
      (b : Bool) (next : Chain) (c d : Context)
      → Keeps HasId next
      → HasId c
      → HasId d
      → HasId (context_of (if b then next c else next d))
  either-HasId true next c d k hc hd = k c hc
  either-HasId false next c d k hc hd = k d hd

  body_limit-Keeps :
      (max_bytes : ℤ) (next : Chain) → Keeps HasId next → Keeps HasId (body_limit max_bytes next)
  unfolding body_limit
  body_limit-Keeps max_bytes next k c h =
      either-HasId (leb_ℤ max_bytes (pos 0)) next c (record c { body_limit = some max_bytes }) k h h

  timeout-Keeps : (d : ℤ) (next : Chain) → Keeps HasId next → Keeps HasId (timeout d next)
  unfolding timeout
  timeout-Keeps d next k c h =
      either-HasId (leb_ℤ d (pos 0)) next c (record c { deadline = some d }) k h h

  after_cors-Keeps :
      (next : Chain) (aborted : Option ℕ) → Keeps HasId next → Keeps HasId (after_cors next aborted)
  unfolding after_cors
  after_cors-Keeps next none k c h = k c h
  after_cors-Keeps next (some status) k c h = h

  cors-Keeps :
      (cfg : CorsConfig) (req : Request) (next : Chain)
      → Keeps HasId next
      → Keeps HasId (cors cfg req next)
  unfolding cors
  cors-Keeps cfg req next k c h = after_cors-Keeps next _ k _ h

  route-Keeps : (handler : Chain) → Keeps HasId handler → Keeps HasId (route handler)
  unfolding route
  route-Keeps handler k c h = k _ h

-- The id of a request: the client's, or else a new one.
abbrev pub id_of : Request → Text
id_of req = if is_empty req.request_id then req.uuid else req.request_id

-- If the route's handler leaves the header alone, every answer of the router carries the request's id,
-- also an answer to a panic, to a preflight or to a client over its limit.
pub provide_router-HasId :
    (cfg : RouterConfig) (handler : Chain) (req : Request) (c : Context)
    → Keeps (HasId (id_of req)) handler
    → HasId (id_of req) (provide_router cfg handler req c)
unfolding provide_router request_id
provide_router-HasId cfg handler req c k =
    let id = id_of req in
    let inner : Chain = cors cfg.cors req (route handler) in
    let timed : Chain = timeout cfg.handler_timeout inner in
    let capped : Chain = body_limit cfg.body_limit_bytes timed in
    let limited : Chain = rate_limit req capped in
    let c' : Context = record c { request_id = some (id_of req) } in
    recovered-HasId id (request_logger limited c') (
      request_logger-Keeps id limited
        (rate_limit-Keeps id req capped (
          body_limit-Keeps id cfg.body_limit_bytes timed (
            timeout-Keeps id cfg.handler_timeout inner
              (cors-Keeps id cfg.cors req (route handler) (route-Keeps id handler k)))))
        c' refl)

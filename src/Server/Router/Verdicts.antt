-- ===== src/Server/Router/Verdicts.antt =====
-- What the chain does with a client over its limit, and with a panic of the handler.
use go_mongo_boilerplate.Base.{
  ◌≡◌, refl, ◌∙◌, ap, Bool, true, false, ◌∷◌, none, some, if◌then◌else◌,
}
use go_mongo_boilerplate.Base.Int.{ℤ, pos, leb_ℤ}
use go_mongo_boilerplate.Stdlib.Text.{is_empty}
use go_mongo_boilerplate.Stdlib.Decimal.{itoa}
use go_mongo_boilerplate.RateLimit.{Limits, Verdict, handle}
use go_mongo_boilerplate.Cors.{CorsConfig, respond}
use go_mongo_boilerplate.Server.Router.{
  Request, Context, Done, Chain, recovered, request_id, logged, request_logger, after_verdict,
  rate_limit, body_limit, timeout, after_cors, cors, RouterConfig, route, provide_router,
}

-- What the rate limiters say to a request, and the limiters after it.
abbrev pub judged : Request → Context → Verdict × Limits
judged req c = handle req.allow_global req.allow req.client_ip req.remote_addr req.now c.limits

-- A request over a limit is answered with 429 and the header Retry-After; neither the CORS policy nor the
-- route's handler sees it, and it is logged.
pub provide_router_limited :
    (cfg : RouterConfig) (handler : Chain) (req : Request) (c : Context)
    → (judged req c).0 ≡ Verdict.too_many
    → let c' = provide_router cfg handler req c in
      (c'.status ≡ 429)
      × (c'.retry_after ≡ some (itoa (pos 1)))
      × (c'.cors ≡ c.cors)
      × (c'.handled ≡ c.handled)
      × (c'.access_log ≡ (429, c'.request_id) ∷ c.access_log)
unfolding provide_router recovered request_id request_logger logged rate_limit after_verdict
provide_router_limited cfg handler req c h = rw h (refl, refl, refl, refl, refl)

-- A chain that panics, with the access log as it was.
abbrev Crashes : Chain → Type 0
Crashes chain =
    (c : Context) → (y : Context) × (chain c ≡ Done.panicked y) × (y.access_log ≡ c.access_log)

either-Crashes :
    (b : Bool) (next : Chain) (c d : Context)
    → d.access_log ≡ c.access_log
    → Crashes next
    → (y : Context) × ((if b then next c else next d) ≡ Done.panicked y)
      × (y.access_log ≡ c.access_log)
either-Crashes true next c d e k = k c
either-Crashes false next c d e k = let r = k d in (r.0, r.1, r.2 ∙ e)

body_limit-Crashes :
    (max_bytes : ℤ) (next : Chain) → Crashes next → Crashes (body_limit max_bytes next)
unfolding body_limit
body_limit-Crashes max_bytes next k c =
    either-Crashes (leb_ℤ max_bytes (pos 0)) next c (record c { body_limit = some max_bytes }) refl
      k

timeout-Crashes : (d : ℤ) (next : Chain) → Crashes next → Crashes (timeout d next)
unfolding timeout
timeout-Crashes d next k c =
    either-Crashes (leb_ℤ d (pos 0)) next c (record c { deadline = some d }) refl k

cors-Crashes :
    (cfg : CorsConfig) (req : Request) (next : Chain)
    → req.is_options ≡ false
    → Crashes next
    → Crashes (cors cfg req next)
unfolding cors after_cors respond
cors-Crashes cfg req next plain k c =
    let seen : Context = record c { cors = some (respond cfg req.origin req.is_options) } in
    let r = k seen in
    (r.0, ap (λ b. after_cors next (if b then some 204 else none) seen) plain ∙ r.1, r.2)

-- If the limits let a request pass, it is no preflight and the route's handler panics without touching
-- the access log, the answer is 500 and the request is not in the access log.
pub provide_router_panic :
    (cfg : RouterConfig) (handler : Chain) (req : Request) (c : Context)
    → (judged req c).0 ≡ Verdict.next
    → req.is_options ≡ false
    → Crashes handler
    → ((provide_router cfg handler req c).status ≡ 500)
      × ((provide_router cfg handler req c).access_log ≡ c.access_log)
unfolding provide_router recovered request_id request_logger logged rate_limit after_verdict route
provide_router_panic cfg handler req c pass plain k =
    let inner : Crashes (cors cfg.cors req (route handler)) =
      cors-Crashes cfg.cors req (route handler) plain (λ x. k (record x { handled = true })) in
    let capped =
      body_limit-Crashes cfg.body_limit_bytes _ (timeout-Crashes cfg.handler_timeout _ inner) in
    let r = capped (record c {
      request_id = some (if is_empty req.request_id then req.uuid else req.request_id);
      limits = (judged req c).1;
    }) in
    rw (pass, r.1) (refl, r.2)

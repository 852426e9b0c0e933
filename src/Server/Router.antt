-- ===== src/Server/Router.antt =====
-- The chain of middleware of cmd/server/providers.go, with internal/middleware/recovery.go,
-- request_id.go, request_logger.go, body_limit.go and timeout.go. A handler either returns or panics,
-- and a panic comes before anything of the response is sent.
use go_mongo_boilerplate.Base.{
  ℕ, ◌+◌, Bool, true, false, List, [], ◌∷◌, Option, none, some, if◌then◌else◌,
}
use go_mongo_boilerplate.Base.Int.{ℤ, pos, leb_ℤ}
use go_mongo_boilerplate.Stdlib.Text.{Text, codes, is_empty}
use go_mongo_boilerplate.Stdlib.Decimal.{itoa}
use go_mongo_boilerplate.RateLimit.{Limits, Verdict, handle}
use go_mongo_boilerplate.Cors.{CorsConfig, Response, respond}
pub mod Answers
pub mod Verdicts

-- What a request brings, with the UUID that the generator would give it, the moment, and what the rate
-- limiters would answer.
pub record Request : Type 0 where
  pub request_id : Text
  pub origin : Text
  pub is_options : Bool
  pub client_ip : Text
  pub remote_addr : Text
  pub uuid : Text
  pub now : ℕ
  pub allow_global : Bool
  pub allow : ℕ → Bool

-- A context in the chain: the status and the headers of the response so far, what the request carries
-- for the handler, the limiters, and the access log, the latest first.
pub record Context : Type 0 where
  pub status : ℕ
  pub request_id : Option Text
  pub cors : Option Response
  pub retry_after : Option Text
  pub body_limit : Option ℤ
  pub deadline : Option ℤ
  pub limits : Limits
  pub access_log : List (ℕ × Option Text)
  pub handled : Bool

pub data Done : Type 0 where
  returned panicked : Context → Done

abbrev pub Chain : Type 0
Chain = Context → Done

unfoldable pub recovered : Done → Context
recovered (Done.returned c) = c
recovered (Done.panicked c) = record c { status = 500 }

unfoldable pub request_id : Request → Chain → Chain
request_id req next c =
    next (record c {
      request_id = some (if is_empty req.request_id then req.uuid else req.request_id);
    })

unfoldable pub logged : Done → Done
logged (Done.returned c) =
    Done.returned (record c { access_log = (c.status, c.request_id) ∷ c.access_log })
logged (Done.panicked c) = Done.panicked c

unfoldable pub request_logger : Chain → Chain
unfolding logged
request_logger next c = logged (next c)

unfoldable pub after_verdict : Chain → Verdict → Context → Done
after_verdict next Verdict.next c = next c
after_verdict next Verdict.too_many c =
    Done.returned (record c { status = 429; retry_after = some (itoa (pos 1)) })

unfoldable pub rate_limit : Request → Chain → Chain
unfolding after_verdict
rate_limit req next c =
    let r = handle req.allow_global req.allow req.client_ip req.remote_addr req.now c.limits in
    after_verdict next r.0 (record c { limits = r.1 })

unfoldable pub body_limit : ℤ → Chain → Chain
body_limit max_bytes next c =
    if leb_ℤ max_bytes (pos 0) then next c else next (record c { body_limit = some max_bytes })

unfoldable pub timeout : ℤ → Chain → Chain
timeout d next c = if leb_ℤ d (pos 0) then next c else next (record c { deadline = some d })

unfoldable pub after_cors : Chain → Option ℕ → Context → Done
after_cors next none c = next c
after_cors next (some status) c = Done.returned (record c { status = status })

unfoldable pub cors : CorsConfig → Request → Chain → Chain
unfolding after_cors
cors cfg req next c =
    let r = respond cfg req.origin req.is_options in
    after_cors next r.aborted (record c { cors = some r })

-- The settings that the chain reads.
pub record RouterConfig : Type 0 where
  pub body_limit_bytes : ℤ
  pub handler_timeout : ℤ
  pub cors : CorsConfig

-- The route's own handler.
unfoldable pub route : Chain → Chain
route handler c = handler (record c { handled = true })

-- `Recovery` is the outermost, `CORS` the innermost.
unfoldable pub provide_router : RouterConfig → Chain → Request → Context → Context
unfolding recovered request_id request_logger rate_limit body_limit timeout cors route
provide_router cfg handler req c = recovered (
    request_id req
      (request_logger (
        rate_limit req (
          body_limit cfg.body_limit_bytes
            (timeout cfg.handler_timeout (cors cfg.cors req (route handler))))))
      c)

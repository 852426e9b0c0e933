-- ===== src/Server.antt =====
-- internal/platform/httpserver/server.go, and the health check of cmd/server/main.go. The child Router
-- is the chain of middleware of cmd/server/providers.go.
use go_mongo_boilerplate.Base.{
  ℕ, ◌+◌, ◌*◌, Bool, true, false, List, [], ◌∷◌, ◌++◌, Option, none, some, if◌then◌else◌, ◌==◌,
  is_some,
}
use go_mongo_boilerplate.Base.Int.{ℤ, pos, negsuc, leb_ℤ}
use go_mongo_boilerplate.Stdlib.Text.{Text, codes, is_empty, text_eq}
use go_mongo_boilerplate.Stdlib.Decimal.{itoa, atoi}
use go_mongo_boilerplate.Stdlib.Errors.{GoError}
use go_mongo_boilerplate.Stdlib.Outcome.{Outcome}
use go_mongo_boilerplate.Health.{
  Checker, Registry, Severity, new_registry, register, readiness, detailed_readiness,
}
pub mod Probe
pub mod Router
mod Tests

-- Durations are nanoseconds.
pub record ServerConfig : Type 0 where
  pub port : ℤ
  pub mode : Text
  pub shutdown_timeout : ℤ
  pub read_header_timeout : ℤ
  pub read_timeout : ℤ
  pub write_timeout : ℤ
  pub idle_timeout : ℤ
  pub max_header_bytes : ℤ
  pub body_limit_bytes : ℤ
  pub handler_timeout : ℤ
  pub trusted_proxies : List Text

-- The settings of the `http.Server` and of its engine; `mode` is the mode that is set, if one is.
pub record Settings : Type 0 where
  pub mode : Option Text
  pub trusted_proxies : List Text
  pub addr : Text
  pub read_header_timeout : ℤ
  pub read_timeout : ℤ
  pub write_timeout : ℤ
  pub idle_timeout : ℤ
  pub max_header_bytes : ℤ

unfoldable pub dur_or : ℤ → ℤ → ℤ
dur_or d fallback = if leb_ℤ d (pos 0) then fallback else d

unfoldable pub new : ServerConfig → Settings
unfolding dur_or
new cfg = record {
  mode = if is_empty cfg.mode then none else some cfg.mode;
  trusted_proxies = cfg.trusted_proxies;
  addr = codes ":" ++ itoa cfg.port;
  read_header_timeout = dur_or cfg.read_header_timeout (pos 5000000000);
  read_timeout = dur_or cfg.read_timeout (pos 30000000000);
  write_timeout = dur_or cfg.write_timeout (pos 30000000000);
  idle_timeout = dur_or cfg.idle_timeout (pos 120000000000);
  max_header_bytes =
      if leb_ℤ cfg.max_header_bytes (pos 0) then pos 1048576 else cfg.max_header_bytes;
}

-- `http.ErrServerClosed`.
abbrev pub server_closed : Text
server_closed = codes "http: Server closed"

is_server_closed : GoError → Bool
unfolding text_eq
is_server_closed (GoError.sentinel m) = text_eq m server_closed
is_server_closed _ = false

-- `Start`, on the error of `ListenAndServe`; the comparison is by `!=`, not by `errors.Is`.
unfoldable pub start : Option GoError → Option GoError
unfolding is_server_closed
start none = none
start (some e) = if is_server_closed e then none else some e

-- The port that the health check asks, from PORT and APP_SERVER__PORT.
unfoldable pub healthcheck_port : Text → Text → Text
healthcheck_port port server_port =
    if is_empty port then (if is_empty server_port then codes "8002" else server_port) else port

unfoldable pub healthcheck_url : Text → Text
healthcheck_url port = codes "http://127.0.0.1:" ++ (port ++ codes "/readyz")

abbrev answered : Outcome ℕ → ℕ
answered (Outcome.err e) = 1
answered (Outcome.ok status) = if status == 200 then 0 else 1

-- The exit code; `request` is the client's `Get` with the status of the response.
unfoldable pub run_healthcheck : (Text → Outcome ℕ) → Text → Text → ℕ
unfolding healthcheck_port healthcheck_url
run_healthcheck request port server_port =
    let chosen = healthcheck_port port server_port in
    if is_some (atoi chosen) then answered (request (healthcheck_url chosen)) else 1

-- The status of the answer of a probe, by the path of its route.
unfoldable pub probe_status : Registry → Text → Option ℕ
probe_status r path =
    if text_eq path (codes "/healthz")
    then some 200
    else if text_eq path (codes "/readyz")
    then some (readiness r).0
    else if text_eq path (codes "/internal/readyz")
    then some (detailed_readiness r r).0
    else if text_eq path (codes "/ping")
    then some 200
    else none

-- The registry of the server; the MongoDB checker is critical.
unfoldable pub mongo_checker : Checker
mongo_checker = record { name = codes "mongo"; severity = Severity.critical }

unfoldable pub provide_health_registry : Registry
unfolding new_registry register mongo_checker
provide_health_registry = register (new_registry (pos 3)) mongo_checker

-- ===== src/Server/Tests.antt =====
-- A server with a limit for each client, and the theorems applied to it.
use go_mongo_boilerplate.Base.{
  ℕ, zero, suc, ap, inl, inr, Option, ◌≡◌, ◌↔◌, refl, true, false, [], ◌∷◌, none, some,
}
use go_mongo_boilerplate.Base.Int.{pos}
use go_mongo_boilerplate.Stdlib.Text.{Text, codes}
use go_mongo_boilerplate.Stdlib.Errors.{GoError}
use go_mongo_boilerplate.Stdlib.Decimal.{itoa, atoi}
use go_mongo_boilerplate.Stdlib.Outcome.{Outcome}
use go_mongo_boilerplate.Stdlib.Maps.{lookup}
use go_mongo_boilerplate.Health.{ready}
use go_mongo_boilerplate.RateLimit.{handle, handle_per_ip, get, push_new, evict, verdict, new_store}
use go_mongo_boilerplate.Server.{run_healthcheck, provide_health_registry, probe_status}
use go_mongo_boilerplate.Server.Probe.{Serves, run_healthcheck_iff}
use go_mongo_boilerplate.Server.Router.{Request, Context, Done, RouterConfig, provide_router}
use go_mongo_boilerplate.Server.Router.Answers.{HasId, provide_router-HasId}
use go_mongo_boilerplate.Server.Router.Verdicts.{provide_router_limited, provide_router_panic}

abbrev request : Request
request = record {
  request_id = codes "r1";
  origin = [];
  is_options = false;
  client_ip = codes "a";
  remote_addr = codes "b";
  uuid = codes "u";
  now = 5;
  allow_global = true;
  allow = λ limiter. false;
}

abbrev allowed : Request
allowed = record request { allow = λ limiter. true }

abbrev cfg : RouterConfig
cfg = record {
  body_limit_bytes = pos 1024;
  handler_timeout = pos 0;
  cors = record {
    allowed_origins = [];
    allowed_methods = [];
    allowed_headers = [];
    allow_credentials = false;
    max_age_seconds = pos 0;
  };
}

abbrev fresh : Context
fresh = record {
  status = 200;
  request_id = none;
  cors = none;
  retry_after = none;
  body_limit = none;
  deadline = none;
  limits = record { per_ip = some (new_store 2 100); has_global = false };
  access_log = [];
  handled = false;
}

provide_router-HasId_example : HasId (codes "r1") (provide_router cfg Done.returned request fresh)
provide_router-HasId_example = provide_router-HasId cfg Done.returned request fresh (λ c h. h)

provide_router_limited_example :
    let c' = provide_router cfg Done.returned request fresh in
    (c'.status ≡ 429)
    × (c'.retry_after ≡ some (itoa (pos 1)))
    × (c'.cors ≡ none)
    × (c'.handled ≡ false)
    × (c'.access_log ≡ (429, c'.request_id) ∷ [])
unfolding handle handle_per_ip get push_new evict verdict new_store lookup
provide_router_limited_example = provide_router_limited cfg Done.returned request fresh refl

provide_router_panic_example :
    ((provide_router cfg Done.panicked allowed fresh).status ≡ 500)
    × ((provide_router cfg Done.panicked allowed fresh).access_log ≡ [])
unfolding handle handle_per_ip get push_new evict verdict new_store lookup
provide_router_panic_example =
    provide_router_panic cfg Done.panicked allowed fresh refl refl (λ c. (c, refl, refl))

abbrev answer : Option ℕ → Outcome ℕ
answer none = Outcome.err (GoError.plain (codes "404"))
answer (some status) = Outcome.ok status

abbrev skip : ℕ → Text → Text
skip zero s = s
skip (suc n) [] = []
skip (suc n) (c ∷ s) = skip n s

-- A client that finds the server on port 8080, whatever 21 characters stand before the path.
abbrev get_local : Text → Outcome ℕ
get_local url = answer (probe_status provide_health_registry (skip 21 url))

get_local-Serves : Serves get_local (codes "8080") provide_health_registry
get_local-Serves path status h = ap answer h

run_healthcheck_iff_example :
    (run_healthcheck get_local [] (codes "8080") ≡ 0) ↔ (ready provide_health_registry ≡ true)
unfolding atoi
run_healthcheck_iff_example =
    run_healthcheck_iff get_local [] (codes "8080") (codes "8080") provide_health_registry
      (inr (inl (refl, (λ e. cc e), refl))) refl get_local-Serves

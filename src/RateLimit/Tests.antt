-- ===== src/RateLimit/Tests.antt =====
-- Runs of the limiter store, and the theorems applied to them.
use go_mongo_boilerplate.Base.{refl, true, List, [], ◌∷◌}
use go_mongo_boilerplate.Base.Int.{pos}
use go_mongo_boilerplate.Stdlib.Text.{Text, codes}
use go_mongo_boilerplate.Stdlib.Maps.{lookup}
use go_mongo_boilerplate.RateLimit.{
  LimiterStore, new_store, get, RateLimitConfig, positive_or, rate_limit,
}
use go_mongo_boilerplate.RateLimit.Store.{IsConsistent}
use go_mongo_boilerplate.RateLimit.Middleware.{Request, serve, AllSound, serve-rate_limit}

abbrev empty_store : LimiterStore
empty_store = new_store 2 100

empty_store-IsConsistent : IsConsistent empty_store
unfolding new_store lookup
empty_store-IsConsistent = ((λ key. refl), tt)

abbrev one : LimiterStore
one = (get (codes "a") 7 empty_store).1

abbrev cfg : RateLimitConfig
cfg = record { has_per_ip = true; has_global = true; map_max_entries = pos 2; map_ttl = pos 100 }

abbrev from : Text → Request
from ip = record {
  allow_global = true;
  allow = λ limiter. true;
  client_ip = ip;
  remote_addr = codes "unknown";
  now = 5;
}

abbrev requests : List Request
requests = from (codes "a") ∷ from (codes "b") ∷ from (codes "c") ∷ from [] ∷ []

serve-rate_limit_example :
    AllSound (positive_or cfg.map_max_entries 50000) (serve requests (rate_limit cfg)).per_ip
serve-rate_limit_example = serve-rate_limit cfg requests

-- ===== src/Cors/Tests.antt =====
-- A policy with credentials, and the theorem applied to it.
use go_mongo_boilerplate.Base.{◌≡◌, ◌≢◌, refl, true, false, [], ◌∷◌}
use go_mongo_boilerplate.Base.Int.{pos}
use go_mongo_boilerplate.Stdlib.Text.{Text, codes, text_eq}
use go_mongo_boilerplate.Cors.{Config, star, listed, validate, respond}
use go_mongo_boilerplate.Cors.Policy.{respond-validate}

abbrev config : Config
config = record {
  observability_enabled = false;
  observability_insecure = true;
  ingestion_key = [];
  cors = record {
    allowed_origins = codes "https://shop.example" ∷ [];
    allowed_methods = codes "GET" ∷ codes "POST" ∷ [];
    allowed_headers = [];
    allow_credentials = true;
    max_age_seconds = pos 600;
  };
}

abbrev shop : Text
shop = codes "https://shop.example"

respond-validate_example : (shop ≡ shop) × (listed shop (shop ∷ []) ≡ true) × (shop ≢ star)
unfolding validate respond listed text_eq
respond-validate_example = respond-validate config shop shop false refl refl refl

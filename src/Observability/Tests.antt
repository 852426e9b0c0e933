-- ===== src/Observability/Tests.antt =====
-- A configuration with a key, and the theorems applied to it.
use go_mongo_boilerplate.Base.{◌≡◌, refl, true, false, []}
use go_mongo_boilerplate.Base.Int.{pos}
use go_mongo_boilerplate.Stdlib.Text.{codes, text_eq}
use go_mongo_boilerplate.Stdlib.Search.{has_prefix, is_space}
use go_mongo_boilerplate.Stdlib.Outcome.{Outcome}
use go_mongo_boilerplate.Cors.{
  CorsConfig, validate, validate_cors, is_unset, listed, trim_left, trim_right,
}
use go_mongo_boilerplate.Observability.{ObservabilityConfig, ExporterOptions, exporter_options}
use go_mongo_boilerplate.Observability.Secrets.{validated_exporter}

abbrev cfg : ObservabilityConfig
cfg = record {
  enabled = true;
  endpoint = codes "ingest.example.org:443";
  insecure = false;
  ingestion_key = codes "k1";
  service_name = codes "api";
  environment = codes "prod";
  public_facing = false;
}

abbrev cors : CorsConfig
cors = record {
  allowed_origins = [];
  allowed_methods = [];
  allowed_headers = [];
  allow_credentials = false;
  max_age_seconds = pos 0;
}

validated_exporter_example :
    (options : ExporterOptions) × (exporter_options cfg ≡ Outcome.ok options)
unfolding validate validate_cors is_unset listed trim_left trim_right has_prefix is_space text_eq
validated_exporter_example = validated_exporter cfg cors refl refl

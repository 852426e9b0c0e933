-- ===== src/Observability.antt =====
-- internal/platform/observability/otel.go, and `ObservabilityConfig` of internal/platform/config/config.go.
-- The sample ratio, a floating-point number, is left out.
use go_mongo_boilerplate.Base.{
  Bool, true, false, List, [], ◌∷◌, ◌++◌, Option, none, some, if◌then◌else◌,
}
use go_mongo_boilerplate.Stdlib.Text.{Text, codes, is_empty}
use go_mongo_boilerplate.Stdlib.Errors.{GoError, plain, wrap}
use go_mongo_boilerplate.Stdlib.Outcome.{Outcome}
pub mod Secrets
pub mod Providers
mod Tests

pub record ObservabilityConfig : Type 0 where
  pub enabled : Bool
  pub endpoint : Text
  pub insecure : Bool
  pub ingestion_key : Text
  pub service_name : Text
  pub environment : Text
  pub public_facing : Bool

-- What `LogValue` makes of it.
pub record LogGroup : Type 0 where
  pub enabled : Bool
  pub endpoint : Text
  pub insecure : Bool
  pub ingestion_key : Text
  pub service_name : Text
  pub environment : Text
  pub public_facing : Bool

unfoldable pub log_value : ObservabilityConfig → LogGroup
log_value o = record {
  enabled = o.enabled;
  endpoint = o.endpoint;
  insecure = o.insecure;
  ingestion_key = if is_empty o.ingestion_key then [] else codes "***";
  service_name = o.service_name;
  environment = o.environment;
  public_facing = o.public_facing;
}

-- The options of an exporter; both have the same ones.
pub record ExporterOptions : Type 0 where
  pub endpoint : Text
  pub insecure : Bool
  pub headers : List (Text × Text)
  pub tls : Bool

unfoldable pub exporter_options : ObservabilityConfig → Outcome ExporterOptions
exporter_options cfg =
    if cfg.insecure
    then Outcome.ok (record { endpoint = cfg.endpoint; insecure = true; headers = []; tls = false })
    else if is_empty cfg.ingestion_key
    then Outcome.err
        (plain (codes "observability: ingestion_key required for non-insecure exporter"))
    else Outcome.ok (record {
      endpoint = cfg.endpoint;
      insecure = false;
      headers = (codes "signoz-ingestion-key", cfg.ingestion_key) ∷ [];
      tls = true;
    })

-- What the libraries answer when the resource and the two exporters are made.
pub record Telemetry : Type 0 where
  pub resource : Option GoError
  pub trace_exporter : ExporterOptions → Option GoError
  pub metric_exporter : ExporterOptions → Option GoError

pub data Provider : Type 0 where
  tracer meter : Provider

-- The providers that are running, those that were shut down, and the error, if there is one.
pub record Started : Type 0 where
  pub running : List Provider
  pub stopped : List Provider
  pub failure : Option GoError

abbrev failed_with : List Provider → GoError → Started
failed_with stopped e = record { running = []; stopped = stopped; failure = some e }

init_metrics : Option GoError → Started
init_metrics (some e) =
    failed_with (Provider.tracer ∷ []) (wrap (codes "otlp metric exporter: ") e [])
init_metrics none = record {
  running = Provider.tracer ∷ Provider.meter ∷ [];
  stopped = [];
  failure = none;
}

init_traces : Option GoError → Option GoError → Started
unfolding init_metrics
init_traces (some e) metric = failed_with [] (wrap (codes "otlp trace exporter: ") e [])
init_traces none metric = init_metrics metric

init_exporters : Telemetry → Outcome ExporterOptions → Started
unfolding init_traces
init_exporters t (Outcome.err e) = failed_with [] e
init_exporters t (Outcome.ok options) =
    init_traces (t.trace_exporter options) (t.metric_exporter options)

init_resource : Telemetry → ObservabilityConfig → Option GoError → Started
unfolding init_exporters exporter_options
init_resource t cfg (some e) = failed_with [] (wrap (codes "otel resource: ") e [])
init_resource t cfg none = init_exporters t (exporter_options cfg)

unfoldable pub init : Telemetry → ObservabilityConfig → Started
unfolding init_resource
init t cfg =
    let started = init_resource t cfg t.resource in
    if cfg.enabled then started else record { running = []; stopped = []; failure = none }

-- `shutdown`, on the errors of the tracer's and of the meter's: both are shut down in any case.
unfoldable pub shutdown : Option GoError → Option GoError → Option GoError
shutdown none none = none
shutdown (some e) none = some (wrap (codes "tracer: ") e [])
shutdown none (some e) = some (wrap (codes "meter: ") e [])
shutdown (some e) (some f) =
    some (GoError.join (wrap (codes "tracer: ") e []) (wrap (codes "meter: ") f []))

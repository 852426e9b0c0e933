-- ===== src/Observability/Providers.antt =====
-- How Init of internal/platform/observability/otel.go ends.
use go_mongo_boilerplate.Base.{[], ◌∷◌, Option, none, some, inl, inr, Bool-cases}
use go_mongo_boilerplate.Stdlib.Errors.{GoError}
use go_mongo_boilerplate.Stdlib.Outcome.{Outcome}
use go_mongo_boilerplate.Observability.{
  ObservabilityConfig, ExporterOptions, Telemetry, Provider, Started, init, init_resource,
  init_exporters, init_traces, init_metrics, exporter_options,
}

-- Nothing was started, both providers run, or an error came before the first or between the two.
pub data Shape : Started → Type 0 where
  idle : Shape (record { running = []; stopped = []; failure = none })
  both :
      Shape
        (record { running = Provider.tracer ∷ Provider.meter ∷ []; stopped = []; failure = none })
  before : (e : GoError) → Shape (record { running = []; stopped = []; failure = some e })
  between :
      (e : GoError)
      → Shape (record { running = []; stopped = Provider.tracer ∷ []; failure = some e })

init_traces-Shape : (trace metric : Option GoError) → Shape (init_traces trace metric)
unfolding init_traces init_metrics
init_traces-Shape (some e) metric = Shape.before _
init_traces-Shape none (some e) = Shape.between _
init_traces-Shape none none = Shape.both

init_exporters-Shape : (t : Telemetry) (o : Outcome ExporterOptions) → Shape (init_exporters t o)
unfolding init_exporters
init_exporters-Shape t (Outcome.err e) = Shape.before e
init_exporters-Shape t (Outcome.ok options) = init_traces-Shape _ _

init_resource-Shape :
    (t : Telemetry) (cfg : ObservabilityConfig) (r : Option GoError) → Shape (init_resource t cfg r)
unfolding init_resource
init_resource-Shape t cfg (some e) = Shape.before _
init_resource-Shape t cfg none = init_exporters-Shape t (exporter_options cfg)

pub init-Shape : (t : Telemetry) (cfg : ObservabilityConfig) → Shape (init t cfg)
unfolding init
init-Shape t cfg = elim (Bool-cases cfg.enabled) [
  | inl on ↦ rw on (init_resource-Shape t cfg t.resource)
  | inr off ↦ rw off Shape.idle
]

-- ===== src/Observability/Secrets.antt =====
-- The key of the exporter: what the check of the configuration guarantees, and what the log shows.
use go_mongo_boilerplate.Base.{
  ◌≡◌, ◌≢◌, refl, ◌∙◌, sym, Bool, true, false, ◌&&◌, not, [], ◌∷◌, Option, none, some,
  if◌then◌else◌, Bool-cases, inl, inr,
}
use go_mongo_boilerplate.Stdlib.Text.{Text, codes, is_empty}
use go_mongo_boilerplate.Stdlib.Errors.{GoError}
use go_mongo_boilerplate.Stdlib.Outcome.{Outcome}
use go_mongo_boilerplate.Cors.{Config, CorsConfig, validate, is_unset, trim_left, trim_right}
use go_mongo_boilerplate.Observability.{
  ObservabilityConfig, ExporterOptions, log_value, exporter_options,
}

-- The part of the configuration that `Validate` reads.
abbrev pub config_of : ObservabilityConfig → CorsConfig → Config
config_of o cors = record {
  observability_enabled = o.enabled;
  observability_insecure = o.insecure;
  ingestion_key = o.ingestion_key;
  cors = cors;
}

-- Two configurations that differ in their keys only, neither of them empty, are logged alike.
pub log_value_redacts :
    (o : ObservabilityConfig) (key other : Text)
    → key ≢ []
    → other ≢ []
    → log_value (record o { ingestion_key = key }) ≡ log_value (record o { ingestion_key = other })
unfolding log_value
log_value_redacts o [] other h k = absurd (h refl)
log_value_redacts o (c ∷ key) [] h k = absurd (k refl)
log_value_redacts o (c ∷ key) (d ∷ other) h k = refl

some_ne_none : {x : GoError} → some x ≢ none
some_ne_none e = cc

refused :
    (x : GoError) (y : Option GoError) (enabled insecure missing : Bool)
    → enabled ≡ true
    → insecure ≡ false
    → missing ≡ true
    → (if enabled && not insecure && missing then some x else y) ≡ some x
refused x y enabled insecure missing a b c = rw (a, b, c)

unset : (key : Text) → is_empty key ≡ true → is_unset key ≡ true
unfolding is_unset trim_left trim_right
unset [] h = refl
unset (c ∷ key) h = absurd (cc)

-- If the configuration passes the check and telemetry is enabled, the options of the exporters can be made.
pub validated_exporter :
    (o : ObservabilityConfig) (cors : CorsConfig)
    → validate (config_of o cors) ≡ none
    → o.enabled ≡ true
    → (options : ExporterOptions) × (exporter_options o ≡ Outcome.ok options)
unfolding validate exporter_options
validated_exporter o cors h e = elim (Bool-cases o.insecure) [
  | inl plain_text ↦
      (record { endpoint = o.endpoint; insecure = true; headers = []; tls = false }, rw plain_text)
  | inr secure ↦ elim (Bool-cases (is_empty o.ingestion_key)) [
    | inr given ↦ (
      record {
        endpoint = o.endpoint;
        insecure = false;
        headers = (codes "signoz-ingestion-key", o.ingestion_key) ∷ [];
        tls = true;
      },
      rw (secure, given),
    )
    | inl empty ↦ absurd (
        some_ne_none (
          sym (
            refused _ _ o.enabled o.insecure (is_unset o.ingestion_key) e secure
              (unset o.ingestion_key empty))
          ∙ h))
  ]
]

-- ===== src/Kafka/Retry/Carried.antt =====
-- What the options of a relayed or republished record carry as its retry counter.
use go_mongo_boilerplate.Base.{
  ℕ, ◌≡◌, refl, sym, ◌∙◌, true, false, List, [], ◌∷◌, ◌++◌, inl, inr, arith, All, Bool-cases,
  if◌then◌else◌,
}
use mathlib.Core.List.{append-nil, append_assoc}
use go_mongo_boilerplate.Stdlib.Text.{
  Text, text_eq, text_eq→eq, text_eq_refl, equal_fold, fold_rune, is_empty, to_lower_of_equal_fold,
}
use go_mongo_boilerplate.Sqs.Headers.{
  header_retry_count, header_trace_parent, header_trace_state, header_idempotency_key,
}
use go_mongo_boilerplate.Sqs.Headers.Sanitize.{header_retry_count-IsFoldStable}
use go_mongo_boilerplate.Kafka.World.{Headers, Env, PublishConfig, PublishOpt}
use go_mongo_boilerplate.Kafka.Headers.{get, set, set_idempotency_key, is_kept, keep_headers}
use go_mongo_boilerplate.Kafka.Headers.Carrier.{get-set-other}
use go_mongo_boilerplate.Kafka.Producer.{
  with_header, with_idempotency_key, force_sample, zero_config, apply_options, inject, record_for,
}
use go_mongo_boilerplate.Kafka.Consumer.{
  is_reserved, custom_options, idempotency_options, republish_options,
}
use go_mongo_boilerplate.Kafka.Retry.{relay_options}

-- The propagator writes no header that is read as the counter.
abbrev pub IsApart : Env → Type 0
IsApart env = (t : ℕ) → All (λ e. equal_fold e.0 header_retry_count ≡ false) (env.trace_headers t)

kept_apart : (k v : Text) → is_kept k v ≡ true → equal_fold k header_retry_count ≡ false
unfolding is_kept
kept_apart k v h = elim (Bool-cases (equal_fold k header_retry_count)) [
  | inl folds ↦
      let e = to_lower_of_equal_fold k header_retry_count header_retry_count-IsFoldStable folds in
      absurd (cc (rw (e, text_eq_refl header_retry_count) at h))
  | inr apart ↦ apart
]

-- Of a sanitised record a reader sees no retry count, in whatever case the sender spelled the name.
pub keep_headers_counter : (hs : Headers) → get (keep_headers hs) header_retry_count ≡ []
unfolding get keep_headers
keep_headers_counter [] = refl
keep_headers_counter ((k, v) ∷ hs) = elim (Bool-cases (is_kept k v)) [
  | inl kept ↦ rw (kept, get, kept_apart k v kept) (keep_headers_counter hs)
  | inr gone ↦ rw gone (keep_headers_counter hs)
]

inject_counter :
    (pairs : List (Text × Text)) (hs : Headers)
    → All (λ e. equal_fold e.0 header_retry_count ≡ false) pairs
    → get (inject hs pairs) header_retry_count ≡ get hs header_retry_count
unfolding inject
inject_counter [] hs h = refl
inject_counter ((k, v) ∷ pairs) hs h =
    inject_counter pairs (set hs k v) h.1 ∙ get-set-other hs k v header_retry_count h.0

differs :
    (k x : Text)
    → equal_fold x header_retry_count ≡ false
    → equal_fold k header_retry_count ≡ true
    → text_eq k x ≡ false
differs k x apart c = elim (Bool-cases (text_eq k x)) [
  | inl same ↦ absurd (cc (text_eq→eq k x same, c, apart))
  | inr other ↦ other
]

not-is_reserved : (k : Text) → equal_fold k header_retry_count ≡ true → is_reserved k ≡ false
unfolding is_reserved equal_fold fold_rune text_eq
not-is_reserved k c = rw (
  differs k header_idempotency_key refl c,
  differs k header_trace_parent refl c,
  differs k header_trace_state refl c,
)

-- The headers that are passed on, in their order.
passed : Headers → Headers
passed [] = []
passed ((k, v) ∷ hs) = if is_reserved k then passed hs else (k, v) ∷ passed hs

custom_options-extra :
    (hs : Headers) (c : PublishConfig)
    → (apply_options (custom_options hs) c).extra_headers ≡ c.extra_headers ++ passed hs
unfolding custom_options apply_options with_header passed
custom_options-extra [] c = sym (append-nil c.extra_headers)
custom_options-extra ((k, v) ∷ hs) c = elim (Bool-cases (is_reserved k)) [
  | inl skip ↦ rw (skip, custom_options, passed) (custom_options-extra hs c)
  | inr custom ↦
      rw (custom, custom_options, passed)
        (custom_options-extra hs (with_header k v c)
          ∙ append_assoc c.extra_headers ((k, v) ∷ []) (passed hs))
]

get-passed : (hs : Headers) → get (passed hs) header_retry_count ≡ get hs header_retry_count
unfolding passed get
get-passed [] = refl
get-passed ((k, v) ∷ hs) = elim (Bool-cases (equal_fold k header_retry_count)) [
  | inl count ↦ rw (not-is_reserved k count, passed, count)
  | inr other ↦ elim (Bool-cases (is_reserved k)) [
    | inl skip ↦ rw (skip, passed, other) (get-passed hs)
    | inr custom ↦ rw (custom, passed, other) (get-passed hs)
  ]
]

-- The counter that a reader of the produced record sees is the one among the options' headers.
pub record_for_counter :
    (env : Env) (now : ℕ) (topic key value : Text) (cfg : PublishConfig)
    → IsApart env
    → get (record_for env now topic key value cfg).headers header_retry_count
      ≡ get cfg.extra_headers header_retry_count
unfolding record_for set_idempotency_key equal_fold fold_rune text_eq
record_for_counter env now topic key value cfg apart =
    let id = if is_empty cfg.idempotency_key then env.uuid now else cfg.idempotency_key in
    inject_counter (env.trace_headers now) (set cfg.extra_headers header_idempotency_key id)
      (apart now)
    ∙ get-set-other cfg.extra_headers header_idempotency_key id header_retry_count refl

idempotency_options-extra :
    (hs : Headers) (c : PublishConfig)
    → (apply_options (idempotency_options hs) c).extra_headers ≡ c.extra_headers
unfolding idempotency_options apply_options with_idempotency_key
idempotency_options-extra hs c = ground arith

apply_options-append :
    (a b : List PublishOpt) (c : PublishConfig)
    → apply_options (a ++ b) c ≡ apply_options b (apply_options a c)
unfolding apply_options
apply_options-append [] b c = refl
apply_options-append (o ∷ a) b c = apply_options-append a b (o c)

pub relay_options-extra :
    (hs : Headers) (c : PublishConfig)
    → c.extra_headers ≡ []
    → get (apply_options (relay_options hs) c).extra_headers header_retry_count
      ≡ get hs header_retry_count
unfolding relay_options
relay_options-extra hs c e =
    rw
      (
        apply_options-append (idempotency_options hs) (custom_options hs) c,
        custom_options-extra hs (apply_options (idempotency_options hs) c),
        idempotency_options-extra hs c,
        e,
      )
      (get-passed hs)

pub republish_options-extra :
    (hs : Headers)
    → get (apply_options (republish_options hs) zero_config).extra_headers header_retry_count
      ≡ get hs header_retry_count
unfolding republish_options relay_options apply_options force_sample
republish_options-extra hs = relay_options-extra hs (force_sample zero_config) refl

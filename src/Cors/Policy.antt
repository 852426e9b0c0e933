-- ===== src/Cors/Policy.antt =====
-- What a validated policy lets a browser send credentials to.
use go_mongo_boilerplate.Base.{
  ◌≡◌, ◌≢◌, sym, Bool, true, false, none, some, inl, inr, arith, Bool-cases, some_inj,
}
use go_mongo_boilerplate.Stdlib.Text.{Text, is_empty}
use go_mongo_boilerplate.Cors.{
  CorsConfig, Config, star, listed, validate_cors, validate, allow_origin_for, respond,
}

no_star :
    (c : CorsConfig)
    → validate_cors c ≡ none
    → c.allow_credentials ≡ true
    → listed star c.allowed_origins ≡ false
unfolding validate_cors
no_star c h k = ground arith

validate-cors : (c : Config) → validate c ≡ none → validate_cors c.cors ≡ none
unfolding validate
validate-cors c h = ground arith

reflected :
    (c : CorsConfig) (origin o : Text)
    → listed star c.allowed_origins ≡ false
    → (allow_origin_for c origin).0 ≡ some o
    → (o ≡ origin) × (listed origin c.allowed_origins ≡ true)
unfolding allow_origin_for
reflected c origin o h e = elim (Bool-cases (listed origin c.allowed_origins)) [
  | inl known ↦ elim (Bool-cases (is_empty origin)) [
    | inl absent ↦ absurd (cc (rw (absent) at e))
    | inr present ↦ (sym (some_inj (rw (present, h, known) at e)), known)
  ]
  | inr unknown ↦ elim (Bool-cases (is_empty origin)) [
    | inl absent ↦ absurd (cc (rw (absent) at e))
    | inr present ↦ absurd (cc (rw (present, h, unknown) at e))
  ]
]

-- With a configuration that Validate accepts, an answer that allows credentials names an origin only if it is
-- the request's own one, is listed in the configuration, and is not the wildcard.
pub respond-validate :
    (c : Config) (origin o : Text) (is_options : Bool)
    → validate c ≡ none
    → (respond c.cors origin is_options).credentials ≡ true
    → (respond c.cors origin is_options).allow_origin ≡ some o
    → (o ≡ origin) × (listed o c.cors.allowed_origins ≡ true) × (o ≢ star)
unfolding respond
respond-validate c origin o is_options h k e =
    let safe = no_star c.cors (validate-cors c h) k in
    let r = reflected c.cors origin o safe e in
    (r.0, rw (r.0) (r.1), λ s. absurd (cc (safe, r.1, r.0, s)))

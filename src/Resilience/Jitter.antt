-- ===== src/Resilience/Jitter.antt =====
-- The bounds of a jittered timeout, and the identity of breakers.
use go_mongo_boilerplate.Base.{
  ℕ, ◌+◌, ◌-◌, ◌/◌, ◌≤◌, ◌<◌, ◌≡◌, ◌∙◌, ap, sym, Option, none, some, if◌then◌else◌, arith,
}
use go_mongo_boilerplate.Base.Int.{ℤ, pos}
use go_mongo_boilerplate.Stdlib.Text.{Text, text_eq_refl}
use go_mongo_boilerplate.Stdlib.Maps.{lookup, insert, lookup-insert}
use go_mongo_boilerplate.Resilience.{
  BreakerConfig, CircuitBreaker, BreakerRegistry, jittered, make_breaker, threshold_or_default,
  asserted, found_or_made, breaker,
}

-- For a random number below its bound, a timeout of at least five nanoseconds becomes one that differs from
-- it by a tenth at most.
pub jittered_bounds :
    (int63n : ℕ → ℕ) (timeout : ℕ)
    → 5 ≤ timeout
    → int63n (timeout / 5) < timeout / 5
    → (t : ℕ) × (jittered int63n (pos timeout) ≡ some (pos t))
      × (timeout ≤ t + timeout / 10)
      × (t ≤ timeout + timeout / 10)
unfolding jittered
jittered_bounds int63n timeout h r = (
  timeout - timeout / 10 + int63n (timeout / 5),
  ground arith,
  omega (arith, r),
  omega (arith, r),
)

asserted_own : (cb : CircuitBreaker) → asserted cb.kind cb ≡ some cb
unfolding asserted
asserted_own cb = rw (text_eq_refl cb.kind)

module _ (int63n : ℕ → ℕ) (kind : Text) (cfg other : BreakerConfig) (r : BreakerRegistry) where
  stored :
      (new : CircuitBreaker)
      → other.name ≡ cfg.name
      → lookup other.name (insert cfg.name new r.breakers) ≡ some new
  stored new same =
      rw (same, lookup-insert cfg.name cfg.name new r.breakers)
        (ap (λ b. if b then some new else lookup cfg.name r.breakers) (text_eq_refl cfg.name))

  made_again :
      (timeout : Option ℤ) (cb : CircuitBreaker)
      → other.name ≡ cfg.name
      → (make_breaker kind cfg timeout r).0 ≡ some cb
      → breaker int63n kind other (make_breaker kind cfg timeout r).1
        ≡ (some cb, (make_breaker kind cfg timeout r).1)
  unfolding breaker make_breaker found_or_made
  made_again none cb same made = absurd (cc)
  made_again (some timeout) cb same made =
      let r' = (make_breaker kind cfg (some timeout) r).1 in
      let new : CircuitBreaker = record {
        kind = kind;
        made = r.made;
        max_requests = cfg.max_requests;
        interval = cfg.interval;
        timeout = timeout;
        trips_at = threshold_or_default cfg.failure_threshold;
      } in
      ap (λ q. found_or_made int63n kind other q r') (stored new same)
      ∙ ap (λ q. (q, r')) (asserted_own new ∙ made)

-- Once a breaker is made, every call for its name and type gives the same one and leaves the registry
-- alone, whatever its other settings are.
pub breaker_once :
    (int63n : ℕ → ℕ) (kind : Text) (cfg other : BreakerConfig) (r : BreakerRegistry)
    (cb : CircuitBreaker)
    → lookup cfg.name r.breakers ≡ none
    → other.name ≡ cfg.name
    → (breaker int63n kind cfg r).0 ≡ some cb
    → breaker int63n kind other (breaker int63n kind cfg r).1
      ≡ (some cb, (breaker int63n kind cfg r).1)
unfolding breaker found_or_made
breaker_once int63n kind cfg other r cb absent same made =
    ap (λ q. breaker int63n kind other q.1) (ap (λ o. found_or_made int63n kind cfg o r) absent)
    ∙ made_again int63n kind cfg other r (jittered int63n cfg.timeout) cb same
        (ap (λ o. (found_or_made int63n kind cfg o r).0) (sym absent) ∙ made)
    ∙ ap (λ o. (some cb, (found_or_made int63n kind cfg o r).1)) (sym absent)

-- ===== src/RateLimit/Middleware.antt =====
-- The middleware over a sequence of requests.
use go_mongo_boilerplate.Base.{
  ℕ, ◌<◌, ◌≤◌, ◌≡◌, ◌∙◌, refl, Bool, ◌&&◌, not, List, [], ◌∷◌, Option, none, some, inl, inr, arith,
  Bool-cases, length,
}
use go_mongo_boilerplate.Base.Int.{ℤ}
use go_mongo_boilerplate.Stdlib.Text.{Text}
use go_mongo_boilerplate.Stdlib.Maps.{lookup}
use go_mongo_boilerplate.RateLimit.{
  LimiterStore, new_store, get, push_new, RateLimitConfig, positive_or, Limits, rate_limit,
  handle_per_ip, handle,
}
use go_mongo_boilerplate.RateLimit.Store.{IsConsistent, get-IsConsistent}
use go_mongo_boilerplate.RateLimit.Store.Bounds.{get_bounded}

-- A request, with the answers of the limiters that are asked for it.
pub record Request : Type 0 where
  pub allow_global : Bool
  pub allow : ℕ → Bool
  pub client_ip : Text
  pub remote_addr : Text
  pub now : ℕ

unfoldable pub serve : List Request → Limits → Limits
serve [] l = l
serve (q ∷ qs) l = serve qs (handle q.allow_global q.allow q.client_ip q.remote_addr q.now l).1

-- A store that is consistent and holds at most `n` limiters, `n` positive.
abbrev pub IsSound : ℕ → LimiterStore → Type 0
IsSound n s = (s.max_size ≡ n) × (0 < n) × IsConsistent s × (length s.order ≤ n)

abbrev pub AllSound : ℕ → Option LimiterStore → Type 0
AllSound n none = Unit
AllSound n (some s) = IsSound n s

get-max_size : (key : Text) (now : ℕ) (s : LimiterStore) → (get key now s).1.max_size ≡ s.max_size
unfolding get push_new
get-max_size key now s = ground arith

get-IsSound :
    (n : ℕ) (key : Text) (now : ℕ) (s : LimiterStore) → IsSound n s → IsSound n (get key now s).1
get-IsSound n key now s h = (
  get-max_size key now s ∙ h.0,
  h.1,
  get-IsConsistent key now s h.2,
  omega (arith, get_bounded key now s h.2 (omega arith) (omega arith)),
)

handle_per_ip-AllSound :
    (n : ℕ) (allow : ℕ → Bool) (ip addr : Text) (now : ℕ) (l : Limits) (o : Option LimiterStore)
    → AllSound n l.per_ip
    → AllSound n o
    → AllSound n (handle_per_ip allow ip addr now l o).1.per_ip
unfolding handle_per_ip
handle_per_ip-AllSound n allow ip addr now l none h k = h
handle_per_ip-AllSound n allow ip addr now l (some s) h k = get-IsSound n _ now s k

handle-AllSound :
    (n : ℕ) (q : Request) (l : Limits)
    → AllSound n l.per_ip
    → AllSound n (handle q.allow_global q.allow q.client_ip q.remote_addr q.now l).1.per_ip
unfolding handle
handle-AllSound n q l h = elim (Bool-cases (l.has_global && not q.allow_global)) [
  | inl refused ↦ rw (refused, handle) h
  | inr passes ↦
      rw (passes, handle)
        (handle_per_ip-AllSound n q.allow q.client_ip q.remote_addr q.now l l.per_ip h h)
]

serve-AllSound :
    (n : ℕ) (qs : List Request) (l : Limits) → AllSound n l.per_ip → AllSound n (serve qs l).per_ip
unfolding serve
serve-AllSound n [] l h = h
serve-AllSound n (q ∷ qs) l h = serve-AllSound n qs _ (handle-AllSound n q l h)

positive_or_pos : (z : ℤ) (n : ℕ) → 0 < n → 0 < positive_or z n
unfolding positive_or
positive_or_pos z n h = ground arith

rate_limit-AllSound :
    (cfg : RateLimitConfig)
    → AllSound (positive_or cfg.map_max_entries 50000) (rate_limit cfg).per_ip
unfolding rate_limit new_store lookup
rate_limit-AllSound cfg = elim (Bool-cases cfg.has_per_ip) [
  | inl limited ↦ rw limited (
    refl,
    positive_or_pos cfg.map_max_entries 50000 (omega arith),
    ((λ k. refl), tt),
    omega arith,
  )
  | inr free ↦ rw free tt
]

-- Whatever requests come, from however many addresses: the store of limiters never holds more of them than
-- the configured number of entries (50000 if none is configured), and its map and its list agree.
pub serve-rate_limit :
    (cfg : RateLimitConfig) (qs : List Request)
    → AllSound (positive_or cfg.map_max_entries 50000) (serve qs (rate_limit cfg)).per_ip
serve-rate_limit cfg qs = serve-AllSound _ qs (rate_limit cfg) (rate_limit-AllSound cfg)

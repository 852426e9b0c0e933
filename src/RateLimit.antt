-- ===== src/RateLimit.antt =====
-- internal/middleware/rate_limit.go: the store of limiters, one for each client, and the middleware. A
-- limiter of golang.org/x/time/rate is its number; what `Allow` answers is a parameter.
pub mod Store
pub mod Middleware
mod Tests
use go_mongo_boilerplate.Base.{
  ℕ, ◌+◌, ◌-◌, ◌*◌, Bool, true, false, ◌&&◌, ◌||◌, not, List, [], ◌∷◌, ◌++◌, Option, none, some,
  ltb, leb, length, if◌then◌else◌,
}
use go_mongo_boilerplate.Base.Int.{ℤ, pos, leb_ℤ, pos_part}
use go_mongo_boilerplate.Stdlib.Text.{Text, text_eq, is_empty}
use go_mongo_boilerplate.Stdlib.Maps.{Map, lookup, insert, delete}

-- `rateLimitEntry`; moments are in nanoseconds.
pub record Entry : Type 0 where
  pub key : Text
  pub limiter : ℕ
  pub last_seen : ℕ

-- `rateLimiterStore`: `order` has the back of the list first. `entries` holds the limiter of the element
-- that a key points to, and the element is the one in `order` with that key. `made` limiters were
-- created so far; a `ttl` of 0 is none.
pub record LimiterStore : Type 0 where
  pub max_size : ℕ
  pub ttl : ℕ
  pub made : ℕ
  pub entries : Map ℕ
  pub order : List Entry

unfoldable pub new_store : ℕ → ℕ → LimiterStore
new_store max_size ttl = record {
  max_size = max_size;
  ttl = ttl;
  made = 0;
  entries = [];
  order = [];
}

unfoldable pub remove_entry : Text → List Entry → List Entry
remove_entry key [] = []
remove_entry key (e ∷ es) =
    let rest = remove_entry key es in if text_eq e.key key then rest else e ∷ rest

-- Whether the loop evicts the entry at the back of a list of `len` elements.
unfoldable pub is_evicted : ℕ → ℕ → ℕ → ℕ → Entry → Bool
is_evicted max_size ttl now len e = (ltb 0 ttl && ltb ttl (now - e.last_seen)) || leb max_size len

-- The loop over the back of the list.
unfoldable pub evict : ℕ → ℕ → ℕ → Map ℕ → List Entry → Map ℕ × List Entry
unfolding is_evicted
evict max_size ttl now entries [] = (entries, [])
evict max_size ttl now entries (e ∷ es) =
    let rest = evict max_size ttl now (delete e.key entries) es in
    if is_evicted max_size ttl now (length (e ∷ es)) e then rest else (entries, e ∷ es)

unfoldable pub push_new : Text → ℕ → LimiterStore → Map ℕ × List Entry → ℕ × LimiterStore
push_new key now s (entries, order) = (
  s.made,
  record s {
    made = s.made + 1;
    entries = insert key s.made entries;
    order = order ++ (record { key = key; limiter = s.made; last_seen = now } ∷ []);
  },
)

-- `get`: the limiter, and the store after the call.
unfoldable pub get : Text → ℕ → LimiterStore → ℕ × LimiterStore
unfolding evict remove_entry push_new
get key now s = elim (lookup key s.entries) [
  | some limiter ↦ (
    limiter,
    record s {
      order =
          remove_entry key s.order
          ++ (record { key = key; limiter = limiter; last_seen = now } ∷ []);
    },
  )
  | none ↦ push_new key now s (evict s.max_size s.ttl now s.entries s.order)
]

-- `RateLimitConfig`, as far as the code tests it: whether a rate is positive.
pub record RateLimitConfig : Type 0 where
  pub has_per_ip : Bool
  pub has_global : Bool
  pub map_max_entries : ℤ
  pub map_ttl : ℤ

unfoldable pub positive_or : ℤ → ℕ → ℕ
positive_or n fallback = if leb_ℤ n (pos 0) then fallback else pos_part n

-- What `RateLimit` sets up.
pub record Limits : Type 0 where
  pub per_ip : Option LimiterStore
  pub has_global : Bool

unfoldable pub rate_limit : RateLimitConfig → Limits
unfolding positive_or new_store
rate_limit cfg = record {
  per_ip =
      if cfg.has_per_ip
      then some (
          new_store (positive_or cfg.map_max_entries 50000)
            (positive_or cfg.map_ttl (600 * 1000000000)))
      else none;
  has_global = cfg.has_global;
}

pub data Verdict : Type 0 where
  next too_many : Verdict

unfoldable pub verdict : Bool → Verdict
verdict true = next
verdict false = too_many

-- The part of the handler behind the global limit.
unfoldable pub handle_per_ip :
    (ℕ → Bool) → Text → Text → ℕ → Limits → Option LimiterStore → Verdict × Limits
unfolding get verdict
handle_per_ip allow client_ip remote_addr now l none = (next, l)
handle_per_ip allow client_ip remote_addr now l (some s) =
    let r = get (if is_empty client_ip then remote_addr else client_ip) now s in
    (verdict (allow r.0), record l { per_ip = some r.1 })

-- The handler: `allow_global` is the answer of the global limiter, `allow` that of each other.
unfoldable pub handle : Bool → (ℕ → Bool) → Text → Text → ℕ → Limits → Verdict × Limits
unfolding handle_per_ip
handle allow_global allow client_ip remote_addr now l =
    if l.has_global && not allow_global
    then (too_many, l)
    else handle_per_ip allow client_ip remote_addr now l l.per_ip

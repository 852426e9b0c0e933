-- ===== src/RateLimit/Store/Bounds.antt =====
-- The store of limiters never outgrows its limit, and keeps the limiters of those who come again.
use go_mongo_boilerplate.Base.{
  ℕ, ◌+◌, ◌<◌, ◌≤◌, ◌≡◌, refl, sym, ◌∙◌, false, List, [], ◌∷◌, some, inl, inr, arith, All,
  Bool-cases, Option-cases, length, length-append,
}
use go_mongo_boilerplate.Stdlib.Text.{Text, text_eq, text_eq_refl}
use go_mongo_boilerplate.Stdlib.Maps.{Map, lookup, lookup-insert}
use go_mongo_boilerplate.RateLimit.{
  Entry, LimiterStore, remove_entry, is_evicted, evict, push_new, get,
}
use go_mongo_boilerplate.RateLimit.Store.{find, IsConsistent, evict-lt}

length-remove_entry-le : (key : Text) (es : List Entry) → length (remove_entry key es) ≤ length es
unfolding remove_entry
length-remove_entry-le key [] = omega arith
length-remove_entry-le key (e ∷ es) = ground (arith, length-remove_entry-le key es)

length-remove_entry-lt :
    (key : Text) (es : List Entry) (l : ℕ)
    → find key es ≡ some l
    → length (remove_entry key es) < length es
unfolding remove_entry
length-remove_entry-lt key [] l h = absurd (cc)
length-remove_entry-lt key (e ∷ es) l h = elim (Bool-cases (text_eq e.key key)) [
  | inl same ↦ rw same (omega (arith, length-remove_entry-le key es))
  | inr other ↦ rw other (omega (arith, length-remove_entry-lt key es l (rw other at h)))
]

-- A store that is within its limit stays within it, provided that the limit is positive and that map and
-- list agree.
pub get_bounded :
    (key : Text) (now : ℕ) (s : LimiterStore)
    → IsConsistent s
    → 0 < s.max_size
    → length s.order ≤ s.max_size
    → length (get key now s).1.order ≤ s.max_size
unfolding get push_new
get_bounded key now s h p b = elim (Option-cases (lookup key s.entries)) [
  | inr (l, found) ↦
      rw
        (
          found,
          get,
          length-append (remove_entry key s.order)
              (record { key = key; limiter = l; last_seen = now } ∷ []),
        )
        (omega (arith, length-remove_entry-lt key s.order l (sym (h.0 key) ∙ found)))
  | inl absent ↦
      let r = evict s.max_size s.ttl now s.entries s.order in
      rw
        (
          absent,
          get,
          push_new,
          length-append r.1 (record { key = key; limiter = s.made; last_seen = now } ∷ []),
        )
        (omega (arith, evict-lt s.max_size s.ttl now s.entries s.order p))
]

evict_fresh :
    (max_size ttl now : ℕ) (entries : Map ℕ) (es : List Entry)
    → length es < max_size
    → All (λ e. now ≤ e.last_seen + ttl) es
    → (evict max_size ttl now entries es).0 ≡ entries
unfolding evict is_evicted
evict_fresh max_size ttl now entries [] h a = refl
evict_fresh max_size ttl now entries (e ∷ es) h a = ground (arith, a.0)

-- The limiter that a client got is the one that it gets again, and another client still has the one that it
-- had, provided that there was room for one more and no entry was out of date.
pub get_stable :
    (key j : Text) (now now' : ℕ) (s : LimiterStore)
    → text_eq key j ≡ false
    → length s.order < s.max_size
    → All (λ e. now ≤ e.last_seen + s.ttl) s.order
    → ((get key now' (get key now s).1).0 ≡ (get key now s).0)
      × (lookup j (get key now s).1.entries ≡ lookup j s.entries)
unfolding get push_new
get_stable key j now now' s d room fresh = elim (Option-cases (lookup key s.entries)) [
  | inr (l, found) ↦ (rw (found, get, found), rw (found, get))
  | inl absent ↦
      let r = evict s.max_size s.ttl now s.entries s.order in
      (
        rw (absent, get, push_new, lookup-insert key key s.made r.0, text_eq_refl key),
        rw (
          absent,
          get,
          push_new,
          lookup-insert key j s.made r.0,
          d,
          evict_fresh s.max_size s.ttl now s.entries s.order room fresh,
        ),
      )
]

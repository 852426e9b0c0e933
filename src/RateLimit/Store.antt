-- ===== src/RateLimit/Store.antt =====
-- The store of limiters: its map and its list agree. What its limit
-- keeps is in Store/Bounds.
pub mod Bounds
use go_mongo_boilerplate.Base.{
  ℕ, ◌+◌, ◌<◌, ◌≤◌, ◌≡◌, refl, sym, ◌∙◌, false, List, [], ◌∷◌, ◌++◌, Option, none, some, inl, inr,
  arith, All, Bool-cases, Option-cases, length, length-append, if◌then◌else◌,
}
use go_mongo_boilerplate.Stdlib.Text.{Text, text_eq, text_eq_iff, text_eq_refl}
use go_mongo_boilerplate.Stdlib.Maps.{Map, lookup, delete, lookup-insert, lookup-delete}
use go_mongo_boilerplate.RateLimit.{
  Entry, LimiterStore, remove_entry, is_evicted, evict, push_new, get,
}

-- The limiter in the list under a key.
abbrev pub find : Text → List Entry → Option ℕ
find key [] = none
find key (e ∷ es) = if text_eq e.key key then some e.limiter else find key es

-- No key stands twice.
abbrev pub Distinct : List Entry → Type 0
Distinct [] = Unit
Distinct (e ∷ es) = (find e.key es ≡ none) × Distinct es

abbrev pub Agree : Map ℕ → List Entry → Type 0
Agree entries order = ((key : Text) → lookup key entries ≡ find key order) × Distinct order

-- The map and the list agree.
abbrev pub IsConsistent : LimiterStore → Type 0
IsConsistent s = Agree s.entries s.order

find-remove_entry :
    (k j : Text) (es : List Entry)
    → find j (remove_entry k es) ≡ (if text_eq k j then none else find j es)
unfolding remove_entry
find-remove_entry k j [] = ground arith
find-remove_entry k j (e ∷ es) =
    ground
      (arith, text_eq_iff k j, text_eq_iff e.key k, text_eq_iff e.key j, find-remove_entry k j es)

find-append :
    (j : Text) (es : List Entry) (e : Entry)
    → find e.key es ≡ none
    → find j (es ++ (e ∷ [])) ≡ (if text_eq e.key j then some e.limiter else find j es)
find-append j [] e h = refl
find-append j (d ∷ es) e h =
    ground
      (arith, text_eq_iff e.key j, text_eq_iff d.key j, text_eq_iff d.key e.key, find-append j es e)

remove_entry-Distinct : (k : Text) (es : List Entry) → Distinct es → Distinct (remove_entry k es)
unfolding remove_entry
remove_entry-Distinct k [] h = tt
remove_entry-Distinct k (e ∷ es) h = elim (Bool-cases (text_eq e.key k)) [
  | inl same ↦ rw same (remove_entry-Distinct k es h.1)
  | inr other ↦
      rw other (find-remove_entry k e.key es ∙ ground (arith, h.0), remove_entry-Distinct k es h.1)
]

append-Distinct :
    (es : List Entry) (e : Entry) → find e.key es ≡ none → Distinct es → Distinct (es ++ (e ∷ []))
append-Distinct [] e h d = (refl, tt)
append-Distinct (x ∷ es) e h d = elim (Bool-cases (text_eq x.key e.key)) [
  | inl same ↦ absurd (cc (rw same at h))
  | inr other ↦
      let h' : find e.key es ≡ none = rw other at h in
      (
        find-append x.key es e h'
            ∙ ground (arith, text_eq_iff x.key e.key, text_eq_iff e.key x.key, d.0),
        append-Distinct es e h' d.1,
      )
]

-- An element that is taken out of both.
delete-Agree :
    (entries : Map ℕ) (e : Entry) (es : List Entry)
    → Agree entries (e ∷ es)
    → Agree (delete e.key entries) es
delete-Agree entries e es h = (
  (λ j. lookup-delete e.key j entries ∙ ground (arith, h.0 j, text_eq_iff e.key j, h.1.0)),
  h.1.1,
)

module _ (max_size ttl now : ℕ) where
  evict-Agree :
      (entries : Map ℕ) (es : List Entry)
      → Agree entries es
      → Agree (evict max_size ttl now entries es).0 (evict max_size ttl now entries es).1
  unfolding evict
  evict-Agree entries [] h = h
  evict-Agree entries (e ∷ es) h =
      elim (Bool-cases (is_evicted max_size ttl now (length (e ∷ es)) e)) [
        | inl gone ↦ rw gone (evict-Agree (delete e.key entries) es (delete-Agree entries e es h))
        | inr stays ↦ rw stays h
      ]

  evict-lookup :
      (entries : Map ℕ) (es : List Entry) (key : Text)
      → lookup key entries ≡ none
      → lookup key (evict max_size ttl now entries es).0 ≡ none
  unfolding evict
  evict-lookup entries [] key h = h
  evict-lookup entries (e ∷ es) key h =
      elim (Bool-cases (is_evicted max_size ttl now (length (e ∷ es)) e)) [
        | inl gone ↦ rw gone (
            evict-lookup (delete e.key entries) es key
              (lookup-delete e.key key entries ∙ ground (arith, h)))
        | inr stays ↦ rw stays h
      ]

  pub evict-lt :
      (entries : Map ℕ) (es : List Entry)
      → 0 < max_size
      → length (evict max_size ttl now entries es).1 < max_size
  unfolding evict is_evicted
  evict-lt entries [] h = h
  evict-lt entries (e ∷ es) h = ground (arith, evict-lt (delete e.key entries) es h)

move-Agree :
    (key : Text) (limiter now : ℕ) (entries : Map ℕ) (order : List Entry)
    → lookup key entries ≡ some limiter
    → Agree entries order
    → Agree entries
        (remove_entry key order ++ (record { key = key; limiter = limiter; last_seen = now } ∷ []))
move-Agree key limiter now entries order found h =
    let e : Entry = record { key = key; limiter = limiter; last_seen = now } in
    let gone : find key (remove_entry key order) ≡ none =
      find-remove_entry key key order ∙ rw (text_eq_refl key) refl in
    (
      (λ j. sym (
          find-append j (remove_entry key order) e gone
          ∙ ground (arith, find-remove_entry key j order, text_eq_iff key j, h.0 j, found))),
      append-Distinct (remove_entry key order) e gone (remove_entry-Distinct key order h.1),
    )

push_new-IsConsistent :
    (key : Text) (now : ℕ) (s : LimiterStore) (r : Map ℕ × List Entry)
    → lookup key r.0 ≡ none
    → Agree r.0 r.1
    → IsConsistent (push_new key now s r).1
unfolding push_new
push_new-IsConsistent key now s (entries, order) absent h =
    let e : Entry = record { key = key; limiter = s.made; last_seen = now } in
    let gone : find key order ≡ none = sym (h.0 key) ∙ absent in
    (
      (λ j.
          lookup-insert key j s.made entries
          ∙ sym (find-append j order e gone ∙ ground (arith, h.0 j))),
      append-Distinct order e gone h.1,
    )

-- A lookup keeps the map and the list in agreement: each key of the map has one element in the list, with
-- the same limiter, and there is no other element.
pub get-IsConsistent :
    (key : Text) (now : ℕ) (s : LimiterStore) → IsConsistent s → IsConsistent (get key now s).1
unfolding get
get-IsConsistent key now s h = elim (Option-cases (lookup key s.entries)) [
  | inr (limiter, found) ↦ rw (found, get) (move-Agree key limiter now s.entries s.order found h)
  | inl absent ↦
      rw (absent, get)
        (push_new-IsConsistent key now s _
          (evict-lookup s.max_size s.ttl now s.entries s.order key absent)
          (evict-Agree s.max_size s.ttl now s.entries s.order h))
]

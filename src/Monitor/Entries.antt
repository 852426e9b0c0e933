-- ===== src/Monitor/Entries.antt =====
-- The map of spans by request id.
use go_mongo_boilerplate.Base.{
  ℕ, ◌≡◌, ◌≢◌, refl, List, [], ◌∷◌, none, some, ◌==◌, arith, Bool-cases, inl, inr, ==_iff,
}
use go_mongo_boilerplate.Monitor.{SpanEntry, load, remove, store}

pub load-remove : (k : ℕ) (m : List (ℕ × SpanEntry)) → load k (remove k m) ≡ none
unfolding load remove
load-remove k [] = refl
load-remove k ((j, e) ∷ m) = elim (Bool-cases (j == k)) [
  | inl same ↦ rw same (load-remove k m)
  | inr other ↦ rw (other, load, other) (load-remove k m)
]

pub load-remove-other :
    (k j : ℕ) (m : List (ℕ × SpanEntry)) → j ≢ k → load j (remove k m) ≡ load j m
unfolding load remove
load-remove-other k j [] d = refl
load-remove-other k j ((i, e) ∷ m) d = elim (Bool-cases (i == k)) [
  | inl same ↦ rw (same, load-remove-other k j m d) (ground (arith, (==_iff i k).0 same))
  | inr other ↦ rw (other, load, load-remove-other k j m d)
]

pub load-store : (k : ℕ) (e : SpanEntry) (m : List (ℕ × SpanEntry)) → load k (store k e m) ≡ some e
unfolding load store
load-store k e m = ground arith

pub load-store-other :
    (k j : ℕ) (e : SpanEntry) (m : List (ℕ × SpanEntry)) → j ≢ k → load j (store k e m) ≡ load j m
unfolding load store
load-store-other k j e m d = ground (arith, load-remove-other k j m d)

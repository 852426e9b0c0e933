-- ===== src/Kafka/Headers/Carrier.antt =====
-- The carrier of a record's headers: what is written is read back, under every spelling of the key.
use go_mongo_boilerplate.Base.{◌≡◌, ap, ◌∙◌, true, false, [], ◌∷◌, inl, inr, Bool-cases, map}
use go_mongo_boilerplate.Stdlib.Text.{
  Text, text_eq, text_eq→eq, equal_fold, equal_fold_refl, fold_rune,
}
use go_mongo_boilerplate.Kafka.World.{Headers}
use go_mongo_boilerplate.Kafka.Headers.{get, set}

-- Two spellings of one key are read alike.
pub equal_fold_same : (i k j : Text) → equal_fold i k ≡ true → equal_fold i j ≡ equal_fold k j
unfolding equal_fold
equal_fold_same i k j h = ap (λ x. text_eq x (map fold_rune j)) (text_eq→eq _ _ h)

pub get-set-same : (hs : Headers) (key value : Text) → get (set hs key value) key ≡ value
unfolding get set
get-set-same [] key value = rw (equal_fold_refl key)
get-set-same ((k, v) ∷ hs) key value = elim (Bool-cases (equal_fold k key)) [
  | inl same ↦ rw (same, get) (rw same)
  | inr other ↦ rw (other, get) (rw other (get-set-same hs key value))
]

pub get-set-other :
    (hs : Headers) (key value j : Text)
    → equal_fold key j ≡ false
    → get (set hs key value) j ≡ get hs j
unfolding get set
get-set-other [] key value j d = rw d
get-set-other ((k, v) ∷ hs) key value j d = elim (Bool-cases (equal_fold k key)) [
  | inl same ↦ let e = equal_fold_same k key j same ∙ d in rw (same, get) (rw e)
  | inr other ↦ rw (other, get, get-set-other hs key value j d)
]

-- After `Set` a reader sees the value under the key that was written, and what it saw before under a key
-- that is not another spelling of it.
pub get-set :
    (hs : Headers) (key value j : Text)
    → equal_fold key j ≡ false
    → (get (set hs key value) key ≡ value) × (get (set hs key value) j ≡ get hs j)
get-set hs key value j d = (get-set-same hs key value, get-set-other hs key value j d)

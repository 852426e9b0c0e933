-- ===== src/Sqs/Retry/Carried.antt =====
-- A value that every spelling of one key carries, from the attributes of a message through the options
-- of Publish to the attributes of the message that is sent.
use go_mongo_boilerplate.Base.{
  ◌≡◌, Bool, true, [], ◌∷◌, some, inl, inr, ◌⊎◌, arith, All, Bool-cases,
}
use go_mongo_boilerplate.Stdlib.Text.{Text, text_eq, text_eq→eq, equal_fold}
use go_mongo_boilerplate.Stdlib.Maps.{Map, insert}
use go_mongo_boilerplate.Sqs.Headers.{
  Attributes, AttributeValue, header_retry_count, get_string_attribute,
}

-- Whether a key is read as the retry counter.
abbrev pub is_count : Text → Bool
is_count k = equal_fold k header_retry_count

module _ {V : Type 0} (G : V → Type 0) where
  -- Every entry that is read as the counter holds a good value.
  abbrev pub AllGood : Map V → Type 0
  AllGood = All (λ e. is_count e.0 ≡ true → G e.1)

  -- Some entry is read as the counter.
  abbrev pub Present : Map V → Type 0
  Present [] = ⊥
  Present ((k, v) ∷ m) = (is_count k ≡ true) ⊎ Present m

  pub AllGood-insert :
      (k : Text) (v : V) (m : Map V)
      → (is_count k ≡ true → G v)
      → AllGood m
      → AllGood (insert k v m)
  unfolding insert
  AllGood-insert k v [] g h = (g, tt)
  AllGood-insert k v ((j, w) ∷ m) g h = elim (Bool-cases (text_eq j k)) [
    | inl same ↦ rw same ((λ c. g (rw (text_eq→eq j k same) at c)), h.1)
    | inr other ↦ rw other (h.0, AllGood-insert k v m g h.1)
  ]

  pub Present-insert : (k : Text) (v : V) (m : Map V) → Present m → Present (insert k v m)
  unfolding insert
  Present-insert k v [] h = absurd h
  Present-insert k v ((j, w) ∷ m) h = elim (Bool-cases (text_eq j k)) [
    | inl same ↦ rw same h
    | inr other ↦ rw other (elim h [ inl c ↦ inl c | inr p ↦ inr (Present-insert k v m p) ])
  ]

  pub Present-insert_self :
      (k : Text) (v : V) (m : Map V) → is_count k ≡ true → Present (insert k v m)
  unfolding insert
  Present-insert_self k v [] c = inl c
  Present-insert_self k v ((j, w) ∷ m) c = elim (Bool-cases (text_eq j k)) [
    | inl same ↦ rw same (inl (rw (text_eq→eq j k same) c))
    | inr other ↦ rw other (inr (Present-insert_self k v m c))
  ]

-- The attributes hold the text `s` as the counter, and nothing else.
abbrev pub Holds : Text → AttributeValue → Type 0
Holds s v = v.string_value ≡ some s

abbrev pub Carries : Text → Attributes → Type 0
Carries s attrs = AllGood (Holds s) attrs × Present (Holds s) attrs

abbrev pub CarriesText : Text → Map Text → Type 0
CarriesText s m = AllGood (λ t. t ≡ s) m × Present (λ t. t ≡ s) m

pub get-Carries :
    (s : Text) (attrs : Attributes)
    → AllGood (Holds s) attrs
    → Present (Holds s) attrs
    → get_string_attribute attrs header_retry_count ≡ s
unfolding get_string_attribute
get-Carries s [] h p = absurd p
get-Carries s ((k, v) ∷ attrs) h p = elim (Bool-cases (is_count k)) [
  | inl c ↦ let e = h.0 c in ground arith
  | inr other ↦ elim p [
    | inl c ↦ absurd (cc)
    | inr later ↦ let e = get-Carries s attrs h.1 later in ground arith
  ]
]

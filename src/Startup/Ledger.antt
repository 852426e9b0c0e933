-- ===== src/Startup/Ledger.antt =====
-- The ledger of open resources: what is open after a sequence of events, if none closes what is not open.
use go_mongo_boilerplate.Base.{
  ℕ, ◌==◌, ◌≡◌, refl, ◌∙◌, sym, Bool, List, [], ◌∷◌, ◌++◌, Option, none, some, if◌then◌else◌, inl,
  inr, Option-cases,
}
use go_mongo_boilerplate.Stdlib.Errors.{GoError}
use go_mongo_boilerplate.Observability.{Provider}
use go_mongo_boilerplate.Startup.{Resource, Event, opened, closed, Provided}

abbrev number : Resource → ℕ
number Resource.stop_channel = 0
number Resource.mongo_client = 1
number Resource.main_client = 2
number Resource.retry_client = 3
number Resource.producer_client = 4
number (Resource.provider Provider.tracer) = 5
number (Resource.provider Provider.meter) = 6

abbrev same : Resource → Resource → Bool
same r s = number r == number s

-- The list without its first `r`; there is none if `r` is not in it.
unfoldable pub release : Resource → List Resource → Option (List Resource)
release r [] = none
release r (s ∷ held) =
    let rest = release r held in
    if same r s then some held else elim rest [ none ↦ none | some kept ↦ some (s ∷ kept) ]

-- What is open after the events; none if an event closes what is not open, for which a channel panics.
unfoldable pub replay : List Event → List Resource → Option (List Resource)
unfolding release
replay [] held = some held
replay (opened r ∷ es) held = replay es (r ∷ held)
replay (closed r ∷ es) held = elim (release r held) [ none ↦ none | some kept ↦ replay es kept ]

pub release-same : (r : Resource) (held : List Resource) → release r (r ∷ held) ≡ some held
unfolding release
release-same Resource.stop_channel held = refl
release-same Resource.mongo_client held = refl
release-same Resource.main_client held = refl
release-same Resource.retry_client held = refl
release-same Resource.producer_client held = refl
release-same (Resource.provider Provider.tracer) held = refl
release-same (Resource.provider Provider.meter) held = refl

pub replay-closed :
    (r : Resource) (es : List Event) (held kept : List Resource)
    → release r held ≡ some kept
    → replay (closed r ∷ es) held ≡ replay es kept
unfolding replay
replay-closed r es held kept found = rw (found, replay) refl

pub replay-append :
    (xs ys : List Event) (held mid : List Resource)
    → replay xs held ≡ some mid
    → replay (xs ++ ys) held ≡ replay ys mid
unfolding replay
replay-append [] ys held mid h = cc h
replay-append (opened r ∷ xs) ys held mid h = replay-append xs ys (r ∷ held) mid h
replay-append (closed r ∷ xs) ys held mid h = elim (Option-cases (release r held)) [
  | inl absent ↦ absurd (cc (absent, h))
  | inr (kept, found) ↦
      replay-closed r (xs ++ ys) held kept found
      ∙ replay-append xs ys kept mid (sym (replay-closed r xs held kept found) ∙ h)
]

-- After the events, which end with the error or without one: a provider that fails leaves open what was
-- open before it, and one that succeeds does so with its clean-up.
abbrev pub EndsTidy : List Resource → Option GoError → List Event → List Event → Type 0
EndsTidy held (some e) events cleanup = replay events held ≡ some held
EndsTidy held none events cleanup =
    (mid : List Resource) × (replay events held ≡ some mid) × (replay cleanup mid ≡ some held)

abbrev pub IsTidy : List Resource → Provided → Type 0
IsTidy held p = EndsTidy held p.failure p.events p.cleanup

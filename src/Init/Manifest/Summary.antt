-- ===== src/Init/Manifest/Summary.antt =====
-- The selection of features, what is found of it in the manifest, and what the summary says.
use mathlib.Core.List.{append_assoc}
use go_mongo_boilerplate.Base.{
  arith, ◌||◌, ◌≡◌, refl, Bool, true, false, not, List, [], ◌∷◌, ◌++◌, All, is_some,
}
use go_mongo_boilerplate.Stdlib.Text.{Text, codes, text_eq}
use go_mongo_boilerplate.Init.Manifest.{
  find_feature, compute_strip_list, include, kept_and_removed, Selection, Flags, from_flags,
  after_prompt, summary, cascades, kafka, sqs, strip_list_from_selection, observability,
}

-- Each feature that is selected, by flags or at the prompt, is in the manifest: the loop of main never meets
-- an unknown one.
pub compute_strip_list_found :
    (no_kafka no_sqs no_obs no_samples : Bool)
    → All
        (λ name. is_some (find_feature name) ≡ true)
        (compute_strip_list no_kafka no_sqs no_obs no_samples)
unfolding compute_strip_list find_feature text_eq
compute_strip_list_found true true true true = (refl, (refl, (refl, (refl, tt))))
compute_strip_list_found true true true false = (refl, (refl, (refl, tt)))
compute_strip_list_found true true false true = (refl, (refl, (refl, tt)))
compute_strip_list_found true true false false = (refl, (refl, tt))
compute_strip_list_found true false true true = (refl, (refl, (refl, tt)))
compute_strip_list_found true false true false = (refl, (refl, tt))
compute_strip_list_found true false false true = (refl, (refl, tt))
compute_strip_list_found true false false false = (refl, tt)
compute_strip_list_found false true true true = (refl, (refl, (refl, tt)))
compute_strip_list_found false true true false = (refl, (refl, tt))
compute_strip_list_found false true false true = (refl, (refl, tt))
compute_strip_list_found false true false false = (refl, tt)
compute_strip_list_found false false true true = (refl, (refl, tt))
compute_strip_list_found false false true false = (refl, tt)
compute_strip_list_found false false false true = (refl, tt)
compute_strip_list_found false false false false = tt

-- What the summary should say is removed: what was stripped, and the worker if it went as well.
abbrev pub removed : Flags → List Text
removed flags = flags.selected ++ include (cascades flags) (codes "worker (cascade)")

-- Without the prompt the summary names what was removed.
pub summary-from_flags :
    (no_kafka no_sqs no_obs no_samples : Bool)
    → let flags = from_flags no_kafka no_sqs no_obs no_samples in (summary flags).1 ≡ removed flags
unfolding summary from_flags cascades
summary-from_flags no_kafka no_sqs no_obs no_samples = simp append_assoc

-- The list holds the name.
unfoldable pub has : Text → List Text → Bool
has name [] = false
has name (x ∷ xs) = text_eq x name || has name xs

has-append : (name : Text) (a b : List Text) → has name (a ++ b) ≡ (has name a || has name b)
unfolding has
has-append name [] b = refl
has-append name (x ∷ a) b = rw (has-append name a b) (ground arith)

has_later : (name : Text) (a b : List Text) → has name b ≡ true → has name (a ++ b) ≡ true
has_later name a b h = rw (has-append name a b, h) (ground arith)

-- When the user drops observability at the prompt, it is stripped, but the summary says that it is kept,
-- unless a flag had dropped it as well.
pub summary-after_prompt :
    (sel : Selection) (flags : Flags)
    → sel.keep_observability ≡ false
    → flags.no_obs ≡ false
    → (has observability (after_prompt sel flags).selected ≡ true)
      × (has observability (summary (after_prompt sel flags)).0 ≡ true)
unfolding summary after_prompt strip_list_from_selection compute_strip_list kept_and_removed has
    text_eq
summary-after_prompt sel flags dropped kept = (
  has_later observability (include (not sel.keep_kafka) kafka) _
      (has_later observability (include (not sel.keep_sqs) sqs) _ (rw dropped refl)),
  has_later observability (include (not (not sel.keep_kafka)) kafka) _
      (has_later observability (include (not (not sel.keep_sqs)) sqs) _ (rw kept refl)),
)

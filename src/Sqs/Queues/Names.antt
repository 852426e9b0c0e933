-- ===== src/Sqs/Queues/Names.antt =====
-- The queues of one family: main, retry and dead-letter, in whatever order they are derived.
use go_mongo_boilerplate.Base.{
  suc, ◌≡◌, ◌≢◌, refl, ap, ◌∙◌, Bool, false, [], ◌∷◌, ◌++◌, none, All-append, length, take, drop,
  if◌then◌else◌,
}
use mathlib.Core.List.{append_assoc}
use go_mongo_boilerplate.Stdlib.Text.{
  Text, trim_suffix, trim_suffix-append, last_index-append, Lacks,
}
use go_mongo_boilerplate.Sqs.Queues.{queue_name, dest_queue_url}

-- The URL of a queue below an account.
abbrev pub url_of : Text → Text → Text
url_of account name = account ++ (b'/' ∷ name)

take-url_of : (p s : Text) → take (suc (length p)) (url_of p s) ≡ p ++ (b'/' ∷ [])
take-url_of [] s = refl
take-url_of (x ∷ p) s = ap (◌∷◌ x) (take-url_of p s)

drop-url_of : (p s : Text) → drop (suc (length p)) (url_of p s) ≡ s
drop-url_of [] s = refl
drop-url_of (x ∷ p) s = drop-url_of p s

-- The name of a queue is read back from its URL.
pub queue_name-url_of :
    (account name : Text) → Lacks b'/' name → queue_name (url_of account name) ≡ (name, none)
unfolding queue_name
queue_name-url_of [] name h = rw (last_index-append b'/' [] name h, queue_name)
queue_name-url_of (c ∷ account) name h =
    rw (last_index-append b'/' (c ∷ account) name h, queue_name, drop-url_of account name)

dest-url_of :
    (account name retry dlq : Text) (to_dlq : Bool)
    → Lacks b'/' name
    → dest_queue_url (url_of account name) retry dlq to_dlq
      ≡ url_of account (trim_suffix name retry ++ (if to_dlq then dlq else retry))
unfolding dest_queue_url
dest-url_of account name retry dlq to_dlq h =
    rw
      (
        last_index-append b'/' account name h,
        dest_queue_url,
        take-url_of account name,
        drop-url_of account name,
      )
      (append_assoc account (b'/' ∷ []) _)

-- From the main queue and from its retry queue one gets to the same retry and dead-letter queues,
-- and taking the retry suffix off the retry queue leads back to the main queue, provided that neither
-- the name nor the suffix has a slash, and that the main queue's name does not end in the suffix.
pub dest_queue_url-url_of :
    (account base retry dlq : Text) (to_dlq : Bool)
    → Lacks b'/' base
    → Lacks b'/' retry
    → trim_suffix base retry ≡ base
    → (dest_queue_url (url_of account base) retry dlq to_dlq
        ≡ url_of account (base ++ (if to_dlq then dlq else retry)))
      × (dest_queue_url (url_of account (base ++ retry)) retry dlq to_dlq
          ≡ url_of account (base ++ (if to_dlq then dlq else retry)))
      × (trim_suffix (dest_queue_url (url_of account base) retry dlq false) retry
          ≡ url_of account base)
dest_queue_url-url_of account base retry dlq to_dlq h k e =
    let both = All-append (λ x. x ≢ b'/') base retry h k in
    (
      dest-url_of account base retry dlq to_dlq h ∙ rw e,
      dest-url_of account (base ++ retry) retry dlq to_dlq both
          ∙ rw (trim_suffix-append base retry),
      rw (dest-url_of account base retry dlq false h, e, ← append_assoc account (b'/' ∷ base) retry)
          (trim_suffix-append (url_of account base) retry),
    )

-- ===== src/Sqs/Producer/Results.antt =====
-- What Publish does to the log: nothing, a refused send or an accepted one.
use go_mongo_boilerplate.Base.{
  ◌<◌, ◌≡◌, true, List, [], Option, none, some, inl, inr, ltb, length, Bool-cases, ◌++◌,
  Option-cases, lt→ltb,
}
use go_mongo_boilerplate.Stdlib.Text.{Text, codes, text_eq_refl}
use go_mongo_boilerplate.Sqs.Queues.{queue_name}
use go_mongo_boilerplate.Stdlib.Errors.{wrap, GoError, is_error}
use go_mongo_boilerplate.Sqs.Routing.{err_too_many_attributes}
use go_mongo_boilerplate.Sqs.Headers.{max_custom_attributes}
use go_mongo_boilerplate.Sqs.World.{SendMessageInput, Env, World, PublishOpt, sent, emit}
use go_mongo_boilerplate.Sqs.Producer.{apply_options, zero_config, message_input, too_many, publish}

-- The message that the options make.
abbrev pub input_for : Env → Text → Text → List PublishOpt → World → SendMessageInput
input_for env queue_url body opts w =
    message_input env w.now queue_url body (apply_options opts zero_config)

pub data PublishResult (env : Env) (queue_url body : Text) (opts : List PublishOpt) (w : World)
    (r : Option GoError × World) : Type 0 where
  rejected : (e : GoError) → r ≡ (some e, w) → PublishResult env queue_url body opts w r
  refused :
      (e e' : GoError)
      → r ≡ (some e', emit (sent (input_for env queue_url body opts w) (some e)) w)
      → PublishResult env queue_url body opts w r
  accepted :
      r ≡ (none, emit (sent (input_for env queue_url body opts w) none) w)
      → PublishResult env queue_url body opts w r

pub publish-PublishResult :
    (env : Env) (queue_url body : Text) (opts : List PublishOpt) (w : World)
    → PublishResult env queue_url body opts w (publish env queue_url body opts w)
unfolding publish
publish-PublishResult env queue_url body opts w =
    elim (Bool-cases
      (ltb max_custom_attributes (length (apply_options opts zero_config).extra_attrs))) [
        | inl many ↦
            rejected (too_many (length (apply_options opts zero_config).extra_attrs)) (rw many)
        | inr few ↦ elim (Option-cases (env.send w.now (input_for env queue_url body opts w))) [
          | inl fine ↦ accepted (rw (few, fine))
          | inr (e, bad) ↦
              refused e
                (wrap (codes "sqs publish " ++ ((queue_name queue_url).0 ++ codes ": ")) e [])
                (rw (few, bad))
        ]
      ]

-- With more than seven custom attributes nothing is sent, and the error is ErrTooManyAttributes;
-- the message stays unsent even if the queue would take it.
pub publish_too_many :
    (env : Env) (queue_url body : Text) (opts : List PublishOpt) (w : World)
    → max_custom_attributes < length (apply_options opts zero_config).extra_attrs
    → (e : GoError) × (publish env queue_url body opts w ≡ (some e, w))
      × (is_error e err_too_many_attributes ≡ true)
unfolding publish is_error
publish_too_many env queue_url body opts w h = (
  too_many (length (apply_options opts zero_config).extra_attrs),
  rw (lt→ltb _ _ h),
  text_eq_refl err_too_many_attributes,
)

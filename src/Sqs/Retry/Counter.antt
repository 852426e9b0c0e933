-- ===== src/Sqs/Retry/Counter.antt =====
-- The retry counter that the main consumer sees after a round through the retry queue.
use go_mongo_boilerplate.Base.{
  ℕ, ◌≡◌, refl, ap, ◌∙◌, true, false, List, [], ◌∷◌, Option, none, some, inl, inr, arith, All,
  if◌then◌else◌, ◌++◌,
}
use go_mongo_boilerplate.Base.Int.{ℤ, pos, negsuc, add64, ◌≤ℤ◌, IsInt64}
use go_mongo_boilerplate.Stdlib.Text.{Text, equal_fold, fold_rune, text_eq, is_empty}
use go_mongo_boilerplate.Stdlib.Decimal.{itoa}
use go_mongo_boilerplate.Stdlib.Errors.{GoError, is_error, canceled}
use go_mongo_boilerplate.Sqs.Routing.{retry, err_non_retryable, decide_route}
use go_mongo_boilerplate.Stdlib.Maps.{insert}
use go_mongo_boilerplate.Sqs.Headers.{
  Attributes, Message, header_retry_count, header_idempotency_key, string_attribute,
  set_string_attribute, get_string_attribute, set_idempotency_key, parse_count, retry_count,
  inc_retry_count, sanitize_for_republish,
}
use go_mongo_boilerplate.Sqs.Headers.Counts.{parse_count-itoa, retry_count_bounds}
use go_mongo_boilerplate.Sqs.Headers.Sanitize.{
  sanitize_for_republish-IsTrusted, sanitize_for_republish_apart,
}
use go_mongo_boilerplate.Sqs.Settings.{SqsConsumerConfig}
use go_mongo_boilerplate.Sqs.World.{Env, World, PublishConfig, SendMessageInput}
use go_mongo_boilerplate.Sqs.Producer.{
  force_sample, zero_config, apply_options, set_all, message_input,
}
use go_mongo_boilerplate.Sqs.Producer.Results.{input_for}
use go_mongo_boilerplate.Sqs.Consumer.{
  text_or_empty, custom_options, idempotency_options, delay_options, republished, republish_options,
}
use go_mongo_boilerplate.Sqs.Retry.{relayed_attributes, relay_options}
use go_mongo_boilerplate.Sqs.Retry.Carried.{
  is_count, AllGood, AllGood-insert, Present-insert, Present-insert_self, Holds, Carries,
  CarriesText, get-Carries,
}
use go_mongo_boilerplate.Sqs.Retry.Cycle.{
  custom-AllGood, custom-Present, apply_options-append, idempotency_options_keep,
  delay_options_keep, set_all-AllGood, set_all-Present, IsApart,
}

-- The message that SQS delivers for a send.
abbrev pub delivered : SendMessageInput → Message
delivered input = record {
  message_id = none;
  receipt_handle = none;
  body = some input.message_body;
  attributes = input.message_attributes;
}

-- The copy of a message that the main consumer puts in the retry queue, and the one that the relay puts
-- back in the main queue.
abbrev pub requeued : Env → Text → World → SqsConsumerConfig → Option GoError → Message → Message
requeued env dest w cfg err src =
    let copy = republished cfg src err false in
    delivered (input_for env dest copy.1 (republish_options cfg src copy.0 false) w)

abbrev pub relayed : Env → Text → World → Message → Message
relayed env dest w msg =
    delivered
      (input_for env dest (text_or_empty msg.body) (relay_options (relayed_attributes msg)) w)

-- A value written over a sanitised message is the only one that is read as the counter.
AllGood-of_apart :
    (s : Text) (attrs : Attributes)
    → All (λ e. is_count e.0 ≡ false) attrs
    → AllGood (Holds s) attrs
AllGood-of_apart s [] h = tt
AllGood-of_apart s (e ∷ attrs) h = ((λ c. absurd (cc (h.0, c))), AllGood-of_apart s attrs h.1)

set-Carries :
    (s : Text) (attrs : Attributes)
    → All (λ e. is_count e.0 ≡ false) attrs
    → Carries s (set_string_attribute attrs header_retry_count s)
unfolding set_string_attribute equal_fold fold_rune text_eq
set-Carries s attrs h = (
  AllGood-insert (Holds s) header_retry_count (string_attribute s) attrs (λ c. refl)
      (AllGood-of_apart s attrs h),
  Present-insert_self (Holds s) header_retry_count (string_attribute s) attrs refl,
)

good_of_apart :
    (s : Text) (pairs : List (Text × Text))
    → All (λ e. is_count e.0 ≡ false) pairs
    → All (λ e. is_count e.0 ≡ true → e.1 ≡ s) pairs
good_of_apart s [] h = tt
good_of_apart s (e ∷ pairs) h = ((λ c. absurd (cc (h.0, c))), good_of_apart s pairs h.1)

not-count_idempotency : is_count header_idempotency_key ≡ false
unfolding equal_fold fold_rune text_eq
not-count_idempotency = refl

-- The message for options that carry `s` is read with the counter `s`.
message_input_counter :
    (env : Env) (s dest body : Text) (cfg : PublishConfig) (now : ℕ)
    → IsApart env
    → CarriesText s cfg.extra_attrs
    → get_string_attribute
        (message_input env now dest body cfg).message_attributes
        header_retry_count
      ≡ s
unfolding message_input set_idempotency_key set_string_attribute
message_input_counter env s dest body cfg now apart c =
    let custom = set_all [] cfg.extra_attrs in
    let key = if is_empty cfg.idempotency_key then env.uuid now else cfg.idempotency_key in
    let keyed = insert header_idempotency_key (string_attribute key) custom in
    get-Carries s (set_all keyed (env.trace_headers now))
      (set_all-AllGood s (env.trace_headers now) keyed (good_of_apart s _ (apart now)) (
        AllGood-insert (Holds s) header_idempotency_key (string_attribute key) custom
          (λ k. absurd (cc (not-count_idempotency, k)))
          (set_all-AllGood s cfg.extra_attrs [] c.0 tt)))
      (set_all-Present s (env.trace_headers now) keyed (
        inr (
          Present-insert (Holds s) header_idempotency_key (string_attribute key) custom
            (set_all-Present s cfg.extra_attrs [] (inl c.1)))))

custom-CarriesText :
    (s : Text) (attrs : Attributes) (c : PublishConfig)
    → c.extra_attrs ≡ []
    → Carries s attrs
    → CarriesText s (apply_options (custom_options attrs) c).extra_attrs
custom-CarriesText s attrs c e h =
    (custom-AllGood s attrs c h.0 (rw e tt), custom-Present s attrs c h.0 (inl h.1))

-- The options that a relay applies carry what its attributes carry.
relay_options-CarriesText :
    (s : Text) (attrs : Attributes)
    → Carries s attrs
    → CarriesText s (apply_options (relay_options attrs) zero_config).extra_attrs
unfolding relay_options apply_options force_sample
relay_options-CarriesText s attrs h =
    let sampled = force_sample zero_config in
    rw (apply_options-append (idempotency_options attrs) (custom_options attrs) sampled) (
      custom-CarriesText s attrs (apply_options (idempotency_options attrs) sampled)
        (idempotency_options_keep attrs sampled) h)

republish_options_extra :
    (cfg : SqsConsumerConfig) (src : Message) (attrs : Attributes)
    → (apply_options (republish_options cfg src attrs false) zero_config).extra_attrs
      ≡ (apply_options (relay_options attrs) zero_config).extra_attrs
unfolding republish_options relay_options apply_options
republish_options_extra cfg src attrs =
    rw
      (
        apply_options-append (idempotency_options attrs)
            (custom_options attrs ++ delay_options cfg src false) (force_sample zero_config),
        apply_options-append (idempotency_options attrs) (custom_options attrs)
            (force_sample zero_config),
        apply_options-append (custom_options attrs) (delay_options cfg src false)
            (apply_options (idempotency_options attrs) (force_sample zero_config)),
        delay_options_keep cfg src _,
      )
      refl

itoa-parse_count : (z : ℤ) → pos 0 ≤ℤ z → IsInt64 z → parse_count (itoa z) ≡ z
itoa-parse_count (pos n) h b = parse_count-itoa n (omega arith)
itoa-parse_count (negsuc n) h b = absurd (omega arith)

module _ (env : Env) (dest : Text) (w : World) (apart : IsApart env) where
  delivered_counter :
      (body : Text) (cfg : PublishConfig) (s : Text)
      → CarriesText s cfg.extra_attrs
      → retry_count (some (delivered (message_input env w.now dest body cfg))) ≡ parse_count s
  unfolding retry_count
  delivered_counter body cfg s c =
      ap parse_count (message_input_counter env s dest body cfg w.now apart c)

  -- Whatever count a message had, the copy that goes to the retry queue counts 1, provided that the
  -- trace propagator does not write the counter itself: the sanitising strips the old count first.
  pub republish_counter :
      (cfg : SqsConsumerConfig) (src : Message) (err : Option GoError)
      → retry_count (some (requeued env dest w cfg err src)) ≡ pos 1
  unfolding republished inc_retry_count add64
  republish_counter cfg src err =
      let attrs = sanitize_for_republish src in
      let bumped = set_string_attribute attrs header_retry_count (itoa (pos 1)) in
      let copy : (republished cfg src err false).0 ≡ bumped =
        rw ((sanitize_for_republish-IsTrusted src).0, parse_count) refl in
      rw copy (
        delivered_counter _ _ (itoa (pos 1)) (
          rw (republish_options_extra cfg src bumped) (
            relay_options-CarriesText (itoa (pos 1)) bumped
              (set-Carries (itoa (pos 1)) attrs (sanitize_for_republish_apart src))))
        ∙ parse_count-itoa 1 (omega arith))

  -- The relay from the retry queue to the main queue keeps the count of a message, provided that the
  -- trace propagator does not write the counter itself.
  pub relay_counter :
      (msg : Message) → retry_count (some (relayed env dest w msg)) ≡ retry_count (some msg)
  unfolding relayed_attributes
  relay_counter msg =
      let s = itoa (retry_count (some msg)) in
      let bounds = retry_count_bounds (some msg) in
      delivered_counter _ _ s (
        relay_options-CarriesText s _
          (set-Carries s (sanitize_for_republish msg) (sanitize_for_republish_apart msg)))
      ∙ itoa-parse_count (retry_count (some msg)) bounds.0 bounds.1

-- After a round through the retry queue a message is always retried again, however many rounds it has
-- behind it: the error is neither a cancellation nor non-retryable, the budget is two or more, and
-- the trace propagator does not write the counter.
pub retry_round_unspent :
    (env env' : Env) (retry_url main_url : Text) (w w' : World) (cfg : SqsConsumerConfig)
    (src : Message) (err : Option GoError) (e : GoError) (max : ℤ)
    → IsApart env
    → IsApart env'
    → is_error e canceled ≡ false
    → is_error e err_non_retryable ≡ false
    → pos 2 ≤ℤ max
    → decide_route
        (some e)
        (retry_count (some (relayed env' main_url w' (requeued env retry_url w cfg err src))))
        max
      ≡ retry
unfolding decide_route
retry_round_unspent env env' retry_url main_url w w' cfg src err e max apart apart' c n h =
    let count =
      relay_counter env' main_url w' apart' (requeued env retry_url w cfg err src)
      ∙ republish_counter env retry_url w apart cfg src err in
    rw (count, c, n) (ground arith)

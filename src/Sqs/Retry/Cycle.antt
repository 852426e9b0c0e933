-- ===== src/Sqs/Retry/Cycle.antt =====
-- The retry counter on its way through the retry queue.
use go_mongo_boilerplate.Base.{
  ℕ, ◌≡◌, refl, sym, ap, ◌∙◌, true, false, List, [], ◌∷◌, ◌++◌, some, inl, inr, ◌⊎◌, arith, All,
  Bool-cases, Option-cases, some_inj,
}
use go_mongo_boilerplate.Stdlib.Text.{Text, text_eq, text_eq→eq, equal_fold, fold_rune}
use go_mongo_boilerplate.Sqs.Headers.{
  Attributes, Message, header_trace_parent, header_trace_state, header_idempotency_key,
  string_attribute, set_string_attribute,
}
use go_mongo_boilerplate.Sqs.Settings.{SqsConsumerConfig}
use go_mongo_boilerplate.Sqs.World.{Env, PublishConfig, PublishOpt}
use go_mongo_boilerplate.Sqs.Producer.{
  with_attribute, with_idempotency_key, with_delay, apply_options, set_all,
}
use go_mongo_boilerplate.Sqs.Consumer.{
  is_reserved, custom_options, idempotency_options, delay_options,
}
use go_mongo_boilerplate.Sqs.Retry.Carried.{
  is_count, AllGood, Present, AllGood-insert, Present-insert, Present-insert_self, Holds,
}

differs : (k x : Text) → is_count x ≡ false → is_count k ≡ true → text_eq k x ≡ false
differs k x apart c = elim (Bool-cases (text_eq k x)) [
  | inl same ↦ absurd (cc (text_eq→eq k x same, c, apart))
  | inr other ↦ other
]

not-is_reserved : (k : Text) → is_count k ≡ true → is_reserved k ≡ false
unfolding is_reserved equal_fold fold_rune text_eq
not-is_reserved k c = rw (
  differs k header_trace_parent refl c,
  differs k header_trace_state refl c,
  differs k header_idempotency_key refl c,
)

module _ (s : Text) where
  pub custom-AllGood :
      (attrs : Attributes) (c : PublishConfig)
      → AllGood (Holds s) attrs
      → AllGood (λ t. t ≡ s) c.extra_attrs
      → AllGood (λ t. t ≡ s) (apply_options (custom_options attrs) c).extra_attrs
  unfolding custom_options apply_options with_attribute
  custom-AllGood [] c h g = g
  custom-AllGood ((k, v) ∷ attrs) c h g = elim (Bool-cases (is_reserved k)) [
    | inl skip ↦ rw (skip, custom_options) (custom-AllGood attrs c h.1 g)
    | inr custom ↦ elim (Option-cases v.string_value) [
      | inl binary ↦ rw (custom, custom_options, binary) (custom-AllGood attrs c h.1 g)
      | inr (t, text) ↦
          rw (custom, custom_options, text)
            (custom-AllGood attrs (with_attribute k t c) h.1 (
              AllGood-insert (λ t. t ≡ s) k t c.extra_attrs (λ is. some_inj (sym text ∙ h.0 is)) g))
    ]
  ]

  pub custom-Present :
      (attrs : Attributes) (c : PublishConfig)
      → AllGood (Holds s) attrs
      → Present (Holds s) attrs ⊎ Present (λ t. t ≡ s) c.extra_attrs
      → Present (λ t. t ≡ s) (apply_options (custom_options attrs) c).extra_attrs
  unfolding custom_options apply_options with_attribute
  custom-Present [] c h (inl p) = absurd p
  custom-Present [] c h (inr p) = p
  custom-Present ((k, v) ∷ attrs) c h p = elim (Bool-cases (is_count k)) [
    | inl count ↦
        rw (not-is_reserved k count, custom_options, h.0 count)
          (custom-Present attrs (with_attribute k s c) h.1
            (inr (Present-insert_self (λ t. t ≡ s) k s c.extra_attrs count)))
    | inr other ↦
        let p' : Present (Holds s) attrs ⊎ Present (λ t. t ≡ s) c.extra_attrs = elim p [
          | inl (inl c') ↦ absurd (cc)
          | inl (inr q) ↦ inl q
          | inr q ↦ inr q
        ] in
        elim (Bool-cases (is_reserved k)) [
          | inl skip ↦ rw (skip, custom_options) (custom-Present attrs c h.1 p')
          | inr custom ↦ elim (Option-cases v.string_value) [
            | inl binary ↦ rw (custom, custom_options, binary) (custom-Present attrs c h.1 p')
            | inr (t, text) ↦
                rw (custom, custom_options, text)
                  (custom-Present attrs (with_attribute k t c) h.1 (elim p' [
                    | inl q ↦ inl q
                    | inr q ↦ inr (Present-insert (λ t. t ≡ s) k t c.extra_attrs q)
                  ]))
          ]
        ]
  ]

pub apply_options-append :
    (a b : List PublishOpt) (c : PublishConfig)
    → apply_options (a ++ b) c ≡ apply_options b (apply_options a c)
unfolding apply_options
apply_options-append [] b c = refl
apply_options-append (o ∷ a) b c = apply_options-append a b (o c)

pub idempotency_options_keep :
    (attrs : Attributes) (c : PublishConfig)
    → (apply_options (idempotency_options attrs) c).extra_attrs ≡ c.extra_attrs
unfolding idempotency_options apply_options with_idempotency_key
idempotency_options_keep attrs c = ground arith

pub delay_options_keep :
    (cfg : SqsConsumerConfig) (src : Message) (c : PublishConfig)
    → (apply_options (delay_options cfg src false) c).extra_attrs ≡ c.extra_attrs
unfolding delay_options apply_options with_delay
delay_options_keep cfg src c = ground arith

module _ (s : Text) where
  pub set_all-AllGood :
      (pairs : List (Text × Text)) (attrs : Attributes)
      → All (λ e. is_count e.0 ≡ true → e.1 ≡ s) pairs
      → AllGood (Holds s) attrs
      → AllGood (Holds s) (set_all attrs pairs)
  unfolding set_all set_string_attribute
  set_all-AllGood [] attrs h g = g
  set_all-AllGood ((k, v) ∷ pairs) attrs h g =
      set_all-AllGood pairs _ h.1
        (AllGood-insert (Holds s) k (string_attribute v) attrs (λ c. ap some (h.0 c)) g)

  pub set_all-Present :
      (pairs : List (Text × Text)) (attrs : Attributes)
      → Present (λ t. t ≡ s) pairs ⊎ Present (Holds s) attrs
      → Present (Holds s) (set_all attrs pairs)
  unfolding set_all set_string_attribute
  set_all-Present [] attrs (inl p) = absurd p
  set_all-Present [] attrs (inr p) = p
  set_all-Present ((k, v) ∷ pairs) attrs (inl (inl c)) =
      set_all-Present pairs _ (inr (Present-insert_self (Holds s) k (string_attribute v) attrs c))
  set_all-Present ((k, v) ∷ pairs) attrs (inl (inr p)) = set_all-Present pairs _ (inl p)
  set_all-Present ((k, v) ∷ pairs) attrs (inr p) =
      set_all-Present pairs _ (inr (Present-insert (Holds s) k (string_attribute v) attrs p))

-- The propagator writes no key that is read as the counter: W3C trace context and baggage.
abbrev pub IsApart : Env → Type 0
IsApart env = (t : ℕ) → All (λ e. is_count e.0 ≡ false) (env.trace_headers t)

-- ===== src/User/Registration.antt =====
-- Registrations against a collection that counts and inserts as the server documents, and the
-- statuses of the handler.
use go_mongo_boilerplate.Base.{
  ℕ, ◌+◌, ◌<◌, ◌≡◌, ◌≢◌, refl, ◌∙◌, ap, sym, Bool, true, false, List, [], ◌∷◌, Option, none, some,
  ltb, if◌then◌else◌, All, arith, lt→ltb, Bool-cases, ◌⊎◌, inl, inr,
}
use mathlib.Core.Path.{subst}
use go_mongo_boilerplate.Stdlib.Text.{Text, text_eq, text_eq_refl}
use go_mongo_boilerplate.Stdlib.Errors.{GoError, is_error}
use go_mongo_boilerplate.Stdlib.Outcome.{Outcome, ◌>>=◌}
use go_mongo_boilerplate.Mongo.{Collection, Counts, Inserts, AreDistinct, occurrences}
use go_mongo_boilerplate.Pagination.{ObjectIds}
use go_mongo_boilerplate.HttpError.{Response, status, conflict, internal}
use go_mongo_boilerplate.User.{
  User, RegisterRequest, err_user_already_exists, register, register_unless, exists_by_email,
  create, new_user, inserted,
}
use go_mongo_boilerplate.User.Handler.{RegisterResponse, register_reply, handle_register}

not_positive : (n : ℕ) → ltb 0 n ≡ false → n ≡ 0
not_positive n h = ground arith

true-ne-false : true ≢ false
true-ne-false e = cc

abbrev register_error_reply : Bool → GoError → Response RegisterResponse
register_error_reply b e = if b then conflict e else internal e

error_reply-status : (b : Bool) (e : GoError) → status (register_error_reply b e) ≢ 201
unfolding status conflict internal
error_reply-status true e h = omega arith
error_reply-status false e h = omega arith

none_counted : (b : Bool) (n : ℕ) → (if b then 1 else 0) + n ≡ 0 → (b ≡ false) × (n ≡ 0)
none_counted b n h = ground arith

absent-of_count : (k : Text) (ks : List Text) → occurrences k ks ≡ 0 → All (λ j. j ≢ k) ks
unfolding occurrences
absent-of_count k [] h = tt
absent-of_count k (j ∷ ks) h =
    let r = none_counted (text_eq j k) (occurrences k ks) h in
    (
      λ e. absurd (true-ne-false (sym (ap (λ i. text_eq i k) e ∙ text_eq_refl k) ∙ r.0)),
      absent-of_count k ks r.1,
    )

module _ {S : Type 0} (keys : S → List Text) where
  keys-inserted : (u : User) (p : Outcome (Option ℕ) × S) → keys (inserted u p).1 ≡ keys p.1
  unfolding inserted
  keys-inserted u (Outcome.err e, s) = refl
  keys-inserted u (Outcome.ok none, s) = refl
  keys-inserted u (Outcome.ok (some oid), s) = refl

inserted_fails :
    {S : Type 0} (u : User) (p : Outcome (Option ℕ) × S)
    → ((r : Option ℕ) → p.0 ≢ Outcome.ok r)
    → (v : User) → (inserted u p).0 ≢ Outcome.ok v
unfolding inserted
inserted_fails u (Outcome.err e, s) h v = λ q. cc
inserted_fails u (Outcome.ok r, s) h v = λ q. h r refl

module _ {S : Type 0} (coll : Collection S User) where
  -- Requests served one after the other; each carries what the framework bound and a UUID.
  unfoldable pub serve : ObjectIds → List (Outcome RegisterRequest × Text) → S → S
  serve ids [] s = s
  serve ids ((bound, uuid) ∷ rest) s = serve ids rest (handle_register coll ids bound uuid s).1

module _ {S : Type 0} (coll : Collection S User) (emails : S → List Text)
    (counts : Counts coll (λ u. u.email) emails)
    (inserts : Inserts coll (λ u. u.email) emails) where
  abbrev Registers : RegisterRequest → S → Outcome User × S → Type 0
  Registers req s result =
      ((emails result.1 ≡ req.email ∷ emails s) × All (λ j. j ≢ req.email) (emails s))
      ⊎ ((emails result.1 ≡ emails s) × ((u : User) → result.0 ≢ Outcome.ok u))

  create-cases :
      (req : RegisterRequest) (uuid : Text) (s : S)
      → All (λ j. j ≢ req.email) (emails s)
      → Registers req s (create coll (new_user req uuid) s)
  unfolding create new_user
  create-cases req uuid s absent = elim (inserts _ s) [
    | inl stored ↦ inl (keys-inserted emails _ _ ∙ stored, absent)
    | inr lost ↦ inr (keys-inserted emails _ _ ∙ lost.0, inserted_fails _ _ lost.1)
  ]

  unless-cases :
      (req : RegisterRequest) (uuid : Text) (s : S) (count : Outcome ℕ)
      → ((n : ℕ) → count ≡ Outcome.ok n → n ≡ occurrences req.email (emails s))
      → Registers req s (register_unless coll req uuid (count >>= λ n. Outcome.ok (ltb 0 n)) s)
  unfolding register_unless
  unless-cases req uuid s (Outcome.err e) known = inr (refl, λ u q. cc)
  unless-cases req uuid s (Outcome.ok n) known = elim (Bool-cases (ltb 0 n)) [
    | inl taken ↦ rw taken (inr (refl, λ u q. cc))
    | inr free ↦ rw free (
        create-cases req uuid s
          (absent-of_count req.email (emails s) (omega (arith, known n refl, not_positive n free))))
  ]

  -- What a registration leaves: a new email in front, or no user and the emails as they were.
  register-cases :
      (req : RegisterRequest) (uuid : Text) (s : S) → Registers req s (register coll req uuid s)
  unfolding register exists_by_email
  register-cases req uuid s =
      unless-cases req uuid s (coll.count_documents req.email s) (counts req.email s)

  handle_register-AreDistinct :
      (ids : ObjectIds) (bound : Outcome RegisterRequest) (uuid : Text) (s : S)
      → AreDistinct (emails s)
      → AreDistinct (emails (handle_register coll ids bound uuid s).1)
  unfolding handle_register
  handle_register-AreDistinct ids (Outcome.err e) uuid s h = h
  handle_register-AreDistinct ids (Outcome.ok req) uuid s h = elim (register-cases req uuid s) [
    | inl new ↦ subst AreDistinct (sym new.0) (new.1, h)
    | inr old ↦ subst AreDistinct (sym old.0) h
  ]

  -- If counting and inserting do what the server documents and no email stands twice, then none does
  -- after any requests served one after the other, whether they fail, and where, or not.
  pub serve-AreDistinct :
      (ids : ObjectIds) (requests : List (Outcome RegisterRequest × Text)) (s : S)
      → AreDistinct (emails s)
      → AreDistinct (emails (serve coll ids requests s))
  unfolding serve
  serve-AreDistinct ids [] s h = h
  serve-AreDistinct ids ((bound, uuid) ∷ rest) s h =
      serve-AreDistinct ids rest _ (handle_register-AreDistinct ids bound uuid s h)

  created-reply :
      (ids : ObjectIds) (r : Outcome User)
      → status (register_reply ids r) ≡ 201
      → (u : User) × (r ≡ Outcome.ok u)
  unfolding register_reply status
  created-reply ids (Outcome.ok u) h = (u, refl)
  created-reply ids (Outcome.err e) h =
      absurd (error_reply-status (is_error e err_user_already_exists) e h)

  -- If counting and inserting do what the server documents, a registration that is answered with
  -- 201 Created has stored one user with the requested email, which no user had before.
  pub handle_register_created :
      (ids : ObjectIds) (req : RegisterRequest) (uuid : Text) (s : S)
      → status (handle_register coll ids (Outcome.ok req) uuid s).0 ≡ 201
      → (emails (handle_register coll ids (Outcome.ok req) uuid s).1 ≡ req.email ∷ emails s)
        × All (λ j. j ≢ req.email) (emails s)
  unfolding handle_register
  handle_register_created ids req uuid s h = elim (register-cases req uuid s) [
    | inl new ↦ new
    | inr old ↦ let r = created-reply ids (register coll req uuid s).0 h in absurd (old.1 r.0 r.1)
  ]

  -- If counting does what the server documents and answers, a registration for an email that some
  -- user has is answered with 409 Conflict and changes nothing.
  pub handle_register_taken :
      (ids : ObjectIds) (req : RegisterRequest) (uuid : Text) (s : S) (n : ℕ)
      → coll.count_documents req.email s ≡ Outcome.ok n
      → 0 < occurrences req.email (emails s)
      → handle_register coll ids (Outcome.ok req) uuid s
        ≡ (conflict (GoError.sentinel err_user_already_exists), s)
  unfolding handle_register register exists_by_email register_unless register_reply is_error
  handle_register_taken ids req uuid s n counted taken =
      rw (counted, lt→ltb 0 n (omega (arith, counts req.email s n counted, taken)))

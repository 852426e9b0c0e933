-- ===== src/Role/Statuses.antt =====
-- The statuses with which the role handlers answer.
use go_mongo_boilerplate.Base.{
  ℕ, ◌≡◌, refl, false, Option, none, some, if◌then◌else◌, Bool-cases, inl, inr,
}
use go_mongo_boilerplate.Stdlib.Text.{Text, text_eq}
use go_mongo_boilerplate.Stdlib.Errors.{GoError, is_error}
use go_mongo_boilerplate.Stdlib.Outcome.{Outcome}
use go_mongo_boilerplate.Mongo.{Collection, no_documents}
use go_mongo_boilerplate.Pagination.{ObjectIds}
use go_mongo_boilerplate.HttpError.{status, bad_request, internal, not_found}
use go_mongo_boilerplate.Role.{
  Role, err_role_not_found, err_invalid_role_id, found_or, get_error, get_reply, find_parsed,
  find_by_id, get_by_id, handle_get_by_id,
}

-- What looking up an id amounts to, and the status that stands for it.
pub data Lookup : Type 0 where
  unparsable missing present broken : Lookup

abbrev pub lookup_status : Lookup → ℕ
lookup_status Lookup.unparsable = 400
lookup_status Lookup.missing = 404
lookup_status Lookup.present = 200
lookup_status Lookup.broken = 500

abbrev stored : Outcome Role → Lookup
stored (Outcome.ok _) = Lookup.present
stored (Outcome.err e) = if is_error e no_documents then Lookup.missing else Lookup.broken

module _ {S : Type 0} (coll : Collection S Role) (ids : ObjectIds) where
  parsed : Option ℕ → S → Lookup
  parsed none s = Lookup.unparsable
  parsed (some oid) s = stored (coll.find_id oid s)

  unfoldable pub lookup_role : Text → S → Lookup
  unfolding parsed
  lookup_role id s = parsed (ids.from_hex id) s

-- The driver reports none of the service's own errors.
abbrev pub IsForeign : Outcome Role → Type 0
IsForeign (Outcome.ok _) = Unit
IsForeign (Outcome.err e) =
    (is_error e err_invalid_role_id ≡ false) × (is_error e err_role_not_found ≡ false)

get_error-missing : status (get_error (GoError.sentinel err_role_not_found)) ≡ 404
unfolding get_error is_error status not_found text_eq
get_error-missing = refl

get_error-invalid : status (get_error (GoError.sentinel err_invalid_role_id)) ≡ 400
unfolding get_error is_error status bad_request text_eq
get_error-invalid = refl

get_error-foreign :
    (e : GoError)
    → is_error e err_invalid_role_id ≡ false
    → is_error e err_role_not_found ≡ false
    → status (get_error e) ≡ 500
unfolding get_error status internal
get_error-foreign e i n = rw (i, n)

module _ {S : Type 0} (coll : Collection S Role) (ids : ObjectIds) where
  found-status :
      (r : Outcome Role)
      → IsForeign r
      → status (get_reply coll ids (found_or r)) ≡ lookup_status (stored r)
  unfolding get_reply found_or status
  found-status (Outcome.ok r) h = refl
  found-status (Outcome.err e) h = elim (Bool-cases (is_error e no_documents)) [
    | inl none_found ↦ rw none_found get_error-missing
    | inr other ↦ rw other (get_error-foreign e h.0 h.1)
  ]

  parsed-status :
      (id : Option ℕ) (s : S)
      → ((oid : ℕ) → IsForeign (coll.find_id oid s))
      → status (get_reply coll ids (find_parsed coll ids id s))
        ≡ lookup_status (parsed coll ids id s)
  unfolding find_parsed parsed find_by_id get_reply
  parsed-status none s h = get_error-invalid
  parsed-status (some oid) s h = found-status (coll.find_id oid s) (h oid)

  -- If the driver reports none of the service's own errors, a role is answered with 400 for an id
  -- that is no object id, with 404 for one that no document has, with 200 for one that the driver
  -- finds, and with 500 for every other failure.
  pub handle_get_by_id-status :
      (id : Text) (s : S)
      → ((oid : ℕ) → IsForeign (coll.find_id oid s))
      → status (handle_get_by_id coll ids id s) ≡ lookup_status (lookup_role coll ids id s)
  unfolding handle_get_by_id get_by_id lookup_role
  handle_get_by_id-status id s h = parsed-status (ids.from_hex id) s h

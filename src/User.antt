-- ===== src/User.antt =====
-- internal/user: the model, the repository over a collection of the driver, and the service. The
-- children hold the handler, the paging and the registration.
use go_mongo_boilerplate.Base.{
  ℕ, ◌+◌, Bool, true, false, List, [], ◌∷◌, Option, none, some, map, length, take, ltb, ◌==◌,
  if◌then◌else◌,
}
use go_mongo_boilerplate.Base.Int.{ℤ}
use go_mongo_boilerplate.Stdlib.Text.{Text, codes}
use go_mongo_boilerplate.Stdlib.Errors.{GoError, is_error}
use go_mongo_boilerplate.Stdlib.Outcome.{Outcome, ◌>>=◌}
use go_mongo_boilerplate.Mongo.{Collection, no_documents}
use go_mongo_boilerplate.Pagination.{Cursor, ObjectIds, Page, encode, decode_cursor, clamp_limit}
pub mod Handler
pub mod Paging
pub mod Registration
mod Tests

pub record User : Type 0 where
  pub id : ℕ
  pub uuid : Text
  pub user_name : Text
  pub email : Text
  pub is_active : Bool
  pub role_ids : List ℕ
  pub created_at : ℕ
  pub updated_at : ℕ

pub record RegisterRequest : Type 0 where
  pub email : Text
  pub user_name : Text
  pub purpose : Text

pub record UserResponse : Type 0 where
  pub id : Text
  pub email : Text
  pub user_name : Text

abbrev pub err_user_not_found : Text
err_user_not_found = codes "user not found"

abbrev pub err_user_already_exists : Text
err_user_already_exists = codes "user already exists"

not_found_or : Outcome User → Outcome User
not_found_or (Outcome.ok u) = Outcome.ok u
not_found_or (Outcome.err e) =
    if is_error e no_documents
    then Outcome.err (GoError.sentinel err_user_not_found)
    else Outcome.err e

module _ {S : Type 0} where
  unfoldable pub inserted : User → Outcome (Option ℕ) × S → Outcome User × S
  inserted u (Outcome.err e, s) = (Outcome.err e, s)
  inserted u (Outcome.ok none, s) = (Outcome.ok u, s)
  inserted u (Outcome.ok (some oid), s) = (Outcome.ok (record u { id = oid }), s)

unfoldable pub user_response : ObjectIds → User → UserResponse
user_response ids u = record { id = ids.hex u.id; email = u.email; user_name = u.user_name }

-- The id of the last user on the page, if there are more behind it.
unfoldable pub next_cursor : ObjectIds → Bool → List User → Text
next_cursor ids false users = []
next_cursor ids true [] = []
next_cursor ids true (u ∷ []) = encode ids (record { last_id = u.id })
next_cursor ids true (u ∷ v ∷ users) = next_cursor ids true (v ∷ users)

unfoldable pub page_of : ObjectIds → ℕ → List User → Page UserResponse
unfolding user_response next_cursor
page_of ids limit users =
    let has_more = ltb limit (length users) in
    let shown = if has_more then take limit users else users in
    record {
      items = map (user_response ids) shown;
      next_cursor = next_cursor ids has_more shown;
      has_more = has_more;
    }

-- No `$gt` for the zero id.
unfoldable pub id_filter : Cursor → Option ℕ
id_filter cur = if cur.last_id == 0 then none else some cur.last_id

-- `uuid.New()` is the parameter `uuid`; the id is the driver's to choose.
unfoldable pub new_user : RegisterRequest → Text → User
new_user req uuid = record {
  id = 0;
  uuid = uuid;
  user_name = req.user_name;
  email = req.email;
  is_active = true;
  role_ids = [];
  created_at = 0;
  updated_at = 0;
}

module _ {S : Type 0} (coll : Collection S User) where
  unfoldable pub find_by_email : Text → S → Outcome User
  unfolding not_found_or
  find_by_email email s = not_found_or (coll.find_one email s)

  unfoldable pub exists_by_email : Text → S → Outcome Bool
  exists_by_email email s = coll.count_documents email s >>= λ count. Outcome.ok (ltb 0 count)

  unfoldable pub create : User → S → Outcome User × S
  unfolding inserted
  create u s =
      let stamped = record u { created_at = coll.now s; updated_at = coll.now s } in
      inserted stamped (coll.insert_one stamped s)

  -- One row more than the page, so that the service sees whether there are more.
  unfoldable pub list_after : Cursor → ℕ → S → Outcome (List User)
  unfolding id_filter
  list_after cur limit s = coll.find (id_filter cur) (limit + 1) s

  unfoldable pub register_unless : RegisterRequest → Text → Outcome Bool → S → Outcome User × S
  unfolding create new_user
  register_unless req uuid (Outcome.err e) s = (Outcome.err e, s)
  register_unless req uuid (Outcome.ok true) s =
      (Outcome.err (GoError.sentinel err_user_already_exists), s)
  register_unless req uuid (Outcome.ok false) s = create (new_user req uuid) s

  unfoldable pub register : RegisterRequest → Text → S → Outcome User × S
  unfolding register_unless exists_by_email
  register req uuid s = register_unless req uuid (exists_by_email req.email s) s

  unfoldable pub list_users : ObjectIds → Text → ℤ → S → Outcome (Page UserResponse)
  unfolding decode_cursor clamp_limit list_after page_of
  list_users ids cursor limit s = do
    cur ← decode_cursor ids cursor
    users ← list_after cur (clamp_limit limit) s
    Outcome.ok (page_of ids (clamp_limit limit) users)

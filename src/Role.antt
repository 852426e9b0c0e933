-- ===== src/Role.antt =====
-- internal/role: the repository over a collection of the driver, the service and the handler.
use go_mongo_boilerplate.Base.{
  ℕ, Bool, true, false, List, Option, none, some, map, ltb, if◌then◌else◌,
}
use go_mongo_boilerplate.Stdlib.Text.{Text, codes}
use go_mongo_boilerplate.Stdlib.Errors.{GoError, is_error}
use go_mongo_boilerplate.Stdlib.Outcome.{Outcome, ◌>>=◌}
use go_mongo_boilerplate.Mongo.{Collection, no_documents}
use go_mongo_boilerplate.Pagination.{ObjectIds}
use go_mongo_boilerplate.HttpError.{Response, bad_request, conflict, not_found, internal}
pub mod Statuses
mod Tests

pub record Role : Type 0 where
  pub id : ℕ
  pub name : Text
  pub description : Text
  pub created_at : ℕ
  pub updated_at : ℕ

pub record CreateRoleRequest : Type 0 where
  pub name : Text
  pub description : Text

pub record RoleResponse : Type 0 where
  pub id : Text
  pub name : Text
  pub description : Text

abbrev pub err_role_not_found : Text
err_role_not_found = codes "role not found"

abbrev pub err_role_already_exists : Text
err_role_already_exists = codes "role already exists"

abbrev pub err_invalid_role_id : Text
err_invalid_role_id = codes "invalid role id"

unfoldable pub to_response : ObjectIds → Role → RoleResponse
to_response ids r = record { id = ids.hex r.id; name = r.name; description = r.description }

unfoldable pub found_or : Outcome Role → Outcome Role
found_or (Outcome.ok r) = Outcome.ok r
found_or (Outcome.err e) =
    if is_error e no_documents
    then Outcome.err (GoError.sentinel err_role_not_found)
    else Outcome.err e

module _ {S : Type 0} where
  inserted : Role → Outcome (Option ℕ) × S → Outcome Role × S
  inserted r (Outcome.err e, s) = (Outcome.err e, s)
  inserted r (Outcome.ok none, s) = (Outcome.ok r, s)
  inserted r (Outcome.ok (some oid), s) = (Outcome.ok (record r { id = oid }), s)

-- The id is the driver's to choose.
new_role : CreateRoleRequest → Role
new_role req = record {
  id = 0;
  name = req.name;
  description = req.description;
  created_at = 0;
  updated_at = 0;
}

unfoldable pub create_error : GoError → Response RoleResponse
unfolding conflict internal
create_error e = if is_error e err_role_already_exists then conflict e else internal e

unfoldable pub get_error : GoError → Response RoleResponse
unfolding bad_request not_found internal
get_error e =
    if is_error e err_invalid_role_id
    then bad_request e
    else if is_error e err_role_not_found
    then not_found e
    else internal e

module _ {S : Type 0} (coll : Collection S Role) (ids : ObjectIds) where
  unfoldable pub create : Role → S → Outcome Role × S
  unfolding inserted
  create r s =
      let stamped = record r { created_at = coll.now s; updated_at = coll.now s } in
      inserted stamped (coll.insert_one stamped s)

  unfoldable pub find_by_id : ℕ → S → Outcome Role
  unfolding found_or
  find_by_id id s = found_or (coll.find_id id s)

  unfoldable pub find_by_name : Text → S → Outcome Role
  unfolding found_or
  find_by_name name s = found_or (coll.find_one name s)

  unfoldable pub exists_by_name : Text → S → Outcome Bool
  exists_by_name name s = do count ← coll.count_documents name s; Outcome.ok (ltb 0 count)

  create_unless : CreateRoleRequest → Outcome Bool → S → Outcome Role × S
  unfolding create new_role
  create_unless req (Outcome.err e) s = (Outcome.err e, s)
  create_unless req (Outcome.ok true) s =
      (Outcome.err (GoError.sentinel err_role_already_exists), s)
  create_unless req (Outcome.ok false) s = create (new_role req) s

  unfoldable pub create_role : CreateRoleRequest → S → Outcome Role × S
  unfolding create_unless exists_by_name
  create_role req s = create_unless req (exists_by_name req.name s) s

  unfoldable pub find_parsed : Option ℕ → S → Outcome Role
  unfolding find_by_id
  find_parsed none s = Outcome.err (GoError.sentinel err_invalid_role_id)
  find_parsed (some oid) s = find_by_id oid s

  unfoldable pub get_by_id : Text → S → Outcome Role
  unfolding find_parsed
  get_by_id id s = find_parsed (ids.from_hex id) s

  create_reply : Outcome Role → Response RoleResponse
  unfolding create_error to_response
  create_reply (Outcome.ok r) = Response.json 201 (to_response ids r)
  create_reply (Outcome.err e) = create_error e

  unfoldable pub get_reply : Outcome Role → Response RoleResponse
  unfolding get_error to_response
  get_reply (Outcome.ok r) = Response.json 200 (to_response ids r)
  get_reply (Outcome.err e) = get_error e

  list_reply : Outcome (List Role) → Response (List RoleResponse)
  unfolding internal to_response
  list_reply (Outcome.ok roles) = Response.json 200 (map (to_response ids) roles)
  list_reply (Outcome.err e) = internal e

  unfoldable pub handle_create : Outcome CreateRoleRequest → S → Response RoleResponse × S
  unfolding create_role create_reply bad_request
  handle_create (Outcome.err e) s = (bad_request e, s)
  handle_create (Outcome.ok req) s = let done = create_role req s in (create_reply done.0, done.1)

  unfoldable pub handle_get_by_id : Text → S → Response RoleResponse
  unfolding get_by_id get_reply
  handle_get_by_id id s = get_reply (get_by_id id s)

  -- `Find` of everything, in the order of the server.
  unfoldable pub handle_list : S → Response (List RoleResponse)
  unfolding list_reply
  handle_list s = list_reply (coll.find_all s)

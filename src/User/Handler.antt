-- ===== src/User/Handler.antt =====
-- internal/user/handler.go. `ShouldBindJSON` is the framework's: its result is an argument.
use go_mongo_boilerplate.Base.{if◌then◌else◌}
use go_mongo_boilerplate.Stdlib.Text.{Text}
use go_mongo_boilerplate.Stdlib.Errors.{is_error}
use go_mongo_boilerplate.Stdlib.Clamped.{atoi_value}
use go_mongo_boilerplate.Stdlib.Outcome.{Outcome}
use go_mongo_boilerplate.Mongo.{Collection}
use go_mongo_boilerplate.Pagination.{ObjectIds, Page}
use go_mongo_boilerplate.HttpError.{Response, bad_request, conflict, internal}
use go_mongo_boilerplate.User.{
  User, RegisterRequest, UserResponse, err_user_already_exists, register, list_users,
}

pub record RegisterResponse : Type 0 where
  pub id : Text
  pub email : Text

unfoldable pub register_reply : ObjectIds → Outcome User → Response RegisterResponse
unfolding conflict internal
register_reply ids (Outcome.ok u) =
    Response.json 201 (record { id = ids.hex u.id; email = u.email })
register_reply ids (Outcome.err e) =
    if is_error e err_user_already_exists then conflict e else internal e

unfoldable pub page_reply : Outcome (Page UserResponse) → Response (Page UserResponse)
unfolding bad_request
page_reply (Outcome.ok page) = Response.json 200 page
page_reply (Outcome.err e) = bad_request e

module _ {S : Type 0} (coll : Collection S User) (ids : ObjectIds) where
  unfoldable pub handle_register :
      Outcome RegisterRequest → Text → S → Response RegisterResponse × S
  unfolding register register_reply bad_request
  handle_register (Outcome.err e) uuid s = (bad_request e, s)
  handle_register (Outcome.ok req) uuid s =
      let done = register coll req uuid s in (register_reply ids done.0, done.1)

  -- The texts of the query parameters, empty where they are missing.
  unfoldable pub handle_list : Text → Text → S → Response (Page UserResponse)
  unfolding atoi_value list_users page_reply
  handle_list cursor limit s = page_reply (list_users coll ids cursor (atoi_value limit) s)

-- ===== src/Role/Tests.antt =====
-- A collection of roles in memory, and the theorem applied to it.
use go_mongo_boilerplate.Base.{◌≡◌, refl, List, [], ◌∷◌, none, some, length, suc}
use go_mongo_boilerplate.Stdlib.Text.{codes, text_eq}
use go_mongo_boilerplate.Stdlib.Errors.{GoError, is_error}
use go_mongo_boilerplate.Stdlib.Outcome.{Outcome}
use go_mongo_boilerplate.Mongo.{Collection, no_documents}
use go_mongo_boilerplate.Pagination.{ObjectIds}
use go_mongo_boilerplate.HttpError.{status}
use go_mongo_boilerplate.Role.{Role, handle_get_by_id}
use go_mongo_boilerplate.Role.Statuses.{lookup_role, handle_get_by_id-status}

abbrev ids : ObjectIds
ids = record { hex = λ id. id ∷ []; from_hex = λ t. some 7; unmarshal = λ b. none }

abbrev empty : Collection (List Role) Role
empty = record {
  find_one = λ k s. Outcome.err (GoError.sentinel no_documents);
  find_id = λ k s. Outcome.err (GoError.sentinel no_documents);
  count_documents = λ k s. Outcome.ok 0;
  insert_one = λ r s. (Outcome.ok (some (suc (length s))), r ∷ s);
  find = λ after n s. Outcome.ok s;
  find_all = λ s. Outcome.ok s;
  now = λ s. 7;
}

handle_get_by_id-status_example : status (handle_get_by_id empty ids (codes "07") []) ≡ 404
unfolding is_error text_eq lookup_role
handle_get_by_id-status_example =
    handle_get_by_id-status empty ids (codes "07") [] (λ oid. (refl, refl))

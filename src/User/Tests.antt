-- ===== src/User/Tests.antt =====
-- A collection in memory, and the theorems applied to it.
use go_mongo_boilerplate.Base.{
  ℕ, suc, ◌+◌, ◌-◌, ◌≡◌, ◌≢◌, refl, true, List, [], ◌∷◌, Option, none, some, map, length, take,
  arith, All, inl,
}
use go_mongo_boilerplate.Base.Int.{pos}
use go_mongo_boilerplate.Stdlib.Text.{Text, codes}
use go_mongo_boilerplate.Stdlib.Errors.{GoError}
use go_mongo_boilerplate.Stdlib.Outcome.{Outcome}
use go_mongo_boilerplate.Mongo.{Collection, Counts, AreDistinct, occurrences}
use go_mongo_boilerplate.Pagination.{
  ObjectIds, Cursor, cursor_json, decode_cursor, decode_cursor-encode, encode,
}
use go_mongo_boilerplate.HttpError.{status}
use go_mongo_boilerplate.User.{
  User, RegisterRequest, user_response, register, register_unless, exists_by_email, create,
  new_user, inserted,
}
use go_mongo_boilerplate.User.Handler.{register_reply, handle_register}
use go_mongo_boilerplate.User.Paging.{above, visits}
use go_mongo_boilerplate.User.Paging.Visits.{visits_all}
use go_mongo_boilerplate.User.Registration.{serve, serve-AreDistinct, handle_register_created}

read_digit : List ℕ → Option Cursor
read_digit (_ ∷ _ ∷ _ ∷ _ ∷ _ ∷ _ ∷ _ ∷ _ ∷ _ ∷ _ ∷ _ ∷ _ ∷ d ∷ _) =
    some (record { last_id = d - b'0' })
read_digit _ = none

-- Ids of one digit.
ids : ObjectIds
unfolding read_digit
ids = record { hex = λ id. (b'0' + id) ∷ []; from_hex = λ t. none; unmarshal = read_digit }

abbrev emails : List User → List Text
emails = map (λ u. u.email)

abbrev memory : Collection (List User) User
memory = record {
  find_one = λ k s. Outcome.err (GoError.sentinel (codes "unused"));
  find_id = λ k s. Outcome.err (GoError.sentinel (codes "unused"));
  count_documents = λ k s. Outcome.ok (occurrences k (emails s));
  insert_one = λ u s. (Outcome.ok (some (suc (length s))), record u { id = suc (length s) } ∷ s);
  find = λ after n s. Outcome.ok (take n (above after s));
  find_all = λ s. Outcome.ok s;
  now = λ s. 7;
}

abbrev user : ℕ → Text → User
user id email = record {
  id = id;
  uuid = [];
  user_name = codes "name";
  email = email;
  is_active = true;
  role_ids = [];
  created_at = 1;
  updated_at = 1;
}

abbrev three : List User
three = user 1 (codes "a") ∷ user 2 (codes "b") ∷ user 3 (codes "c") ∷ []

decode_cursor-encode_example :
    decode_cursor ids (encode ids (record { last_id = 2 })) ≡ Outcome.ok (record { last_id = 2 })
unfolding ids cursor_json read_digit
decode_cursor-encode_example = decode_cursor-encode ids 2 ((omega arith, tt), refl)

visits_all_example :
    visits memory ids 4 [] (pos 1) three ≡ Outcome.ok (map (user_response ids) three)
unfolding ids cursor_json read_digit
visits_all_example =
    visits_all memory ids three three (pos 1) (λ after n. refl)
      (omega arith, (omega arith, (omega arith, tt)))
      (((omega arith, tt), refl), (((omega arith, tt), refl), (((omega arith, tt), refl), tt)))

memory-Counts : Counts memory (λ u. u.email) emails
memory-Counts k s n e = cc

abbrev request : RegisterRequest
request = record { email = codes "a"; user_name = codes "name"; purpose = codes "test" }

serve-AreDistinct_example : AreDistinct (
    emails (
      serve memory ids ((Outcome.ok request, codes "u") ∷ (Outcome.ok request, codes "v") ∷ []) []))
serve-AreDistinct_example =
    serve-AreDistinct memory emails memory-Counts (λ u s. inl refl) ids
      ((Outcome.ok request, codes "u") ∷ (Outcome.ok request, codes "v") ∷ []) [] tt

handle_register_created_example :
    (emails (handle_register memory ids (Outcome.ok request) (codes "u") []).1 ≡ codes "a" ∷ [])
    × All (λ j. j ≢ codes "a") []
unfolding handle_register register register_unless exists_by_email create new_user inserted
    register_reply status occurrences
handle_register_created_example =
    handle_register_created memory emails memory-Counts (λ u s. inl refl) ids request (codes "u") []
      refl

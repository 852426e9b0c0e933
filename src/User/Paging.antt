-- ===== src/User/Paging.antt =====
-- A client that follows `next_cursor` from the empty cursor, against the collection in the order of
-- its ids.
pub mod Pages
pub mod Visits
use go_mongo_boilerplate.Base.{
  ℕ, zero, suc, ◌+◌, ◌<◌, ◌≤◌, ◌≡◌, refl, ◌∙◌, ap, sym, true, false, List, [], ◌∷◌, ◌++◌, Option,
  none, some, map, length, take, ltb, ◌==◌, if◌then◌else◌, All, arith, ◌⊎◌, inl, inr, lt→ltb,
  take_of_length-le, length-take, length-append,
}
use mathlib.Core.Path.{subst}
use mathlib.Core.List.{append-nil, append_assoc, map-append}
use go_mongo_boilerplate.Base.Int.{ℤ}
use go_mongo_boilerplate.Stdlib.Text.{Text}
use go_mongo_boilerplate.Stdlib.Outcome.{Outcome, ◌>>=◌}
use go_mongo_boilerplate.Mongo.{Collection}
use go_mongo_boilerplate.Pagination.{
  Cursor, ObjectIds, IsReadable, encode, decode_cursor, clamp_limit, decode_cursor-encode,
  clamp_limit_bounds,
}
use go_mongo_boilerplate.User.{
  User, UserResponse, user_response, next_cursor, page_of, id_filter, list_after, list_users,
}

-- The documents whose id is greater, those of `$gt`.
unfoldable pub above : Option ℕ → List User → List User
above none users = users
above (some k) [] = []
above (some k) (u ∷ users) =
    let rest = above (some k) users in if ltb k u.id then u ∷ rest else rest

-- The ids ascend from above `k`.
abbrev pub Ascends : ℕ → List User → Type 0
Ascends k [] = Unit
Ascends k (u ∷ users) = (k < u.id) × Ascends u.id users

module _ {S : Type 0} (coll : Collection S User) (ids : ObjectIds) where
  -- The rows of the pages from a cursor on, for `n` pages at most.
  unfoldable pub visits : ℕ → Text → ℤ → S → Outcome (List UserResponse)
  visits zero cursor limit s = Outcome.ok []
  visits (suc n) cursor limit s = do
    page ← list_users coll ids cursor limit s
    rest ← (if page.has_more then visits n page.next_cursor limit s else Outcome.ok [])
    Outcome.ok (page.items ++ rest)

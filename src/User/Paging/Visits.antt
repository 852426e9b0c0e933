-- ===== src/User/Paging/Visits.antt =====
-- The visits of a client reach every user once.
use go_mongo_boilerplate.Base.{
  ℕ, zero, suc, ◌+◌, ◌<◌, ◌≤◌, ◌≡◌, refl, ◌∙◌, ap, sym, List, [], ◌∷◌, ◌++◌, Option, map, length,
  take, All, arith, inl, inr, length-append,
}
use mathlib.Core.Path.{subst}
use mathlib.Core.List.{append-nil, append_assoc, map-append}
use go_mongo_boilerplate.Base.Int.{ℤ}
use go_mongo_boilerplate.Stdlib.Text.{Text}
use go_mongo_boilerplate.Stdlib.Outcome.{Outcome}
use go_mongo_boilerplate.Mongo.{Collection}
use go_mongo_boilerplate.Pagination.{
  Cursor, ObjectIds, IsReadable, encode, decode_cursor, clamp_limit, decode_cursor-encode,
  clamp_limit_bounds,
}
use go_mongo_boilerplate.User.{User, user_response, page_of, id_filter, list_after, list_users}
use go_mongo_boilerplate.User.Paging.{above, Ascends, visits}
use go_mongo_boilerplate.User.Paging.Pages.{
  positive, leb_cases, Ascends-lt, above-append, append_one, split_page, page_of-last, page_of-more,
}

module _ (ids : ObjectIds) where
  shown_split :
      (before behind : List User) (u : User) (rest : List User)
      → rest ≡ before ++ (u ∷ behind)
      → map (user_response ids) (before ++ (u ∷ [])) ++ map (user_response ids) behind
        ≡ map (user_response ids) rest
  shown_split before behind u rest e =
      sym (map-append (user_response ids) (before ++ (u ∷ [])) behind)
      ∙ ap (map (user_response ids)) (sym (append_one before u behind) ∙ sym e)

  id_filter-above :
      (docs before behind : List User) (u : User)
      → Ascends 0 docs
      → docs ≡ before ++ (u ∷ behind)
      → above (id_filter (record { last_id = u.id })) docs ≡ behind
  unfolding id_filter
  id_filter-above docs before behind u h e =
      let there = subst (Ascends 0) e h in
      rw (positive u.id (Ascends-lt 0 before u behind there), e)
        (above-append 0 before u behind there)

  IsReadable-at :
      (docs before behind : List User) (u : User)
      → All (λ v. IsReadable ids v.id) docs
      → docs ≡ before ++ (u ∷ behind)
      → IsReadable ids u.id
  IsReadable-at docs before behind u h e =
      (All-drop before (u ∷ behind) (subst (All (λ v. IsReadable ids v.id)) e h)).0
    where
      All-drop :
          (xs ys : List User)
          → All (λ v. IsReadable ids v.id) (xs ++ ys)
          → All (λ v. IsReadable ids v.id) ys
      All-drop [] ys a = a
      All-drop (x ∷ xs) ys a = All-drop xs ys a.1

module _ {S : Type 0} (coll : Collection S User) (ids : ObjectIds) (docs : List User) (s : S)
    (limit : ℤ)
    (found : (after : Option ℕ) (n : ℕ)
      → coll.find after n s ≡ Outcome.ok (take n (above after docs)))
    (ascends : Ascends 0 docs) (readable : All (λ u. IsReadable ids u.id) docs) where
  -- The page from a cursor that stands for `cur`.
  list_users-eq :
      (c : Text) (cur : Cursor) (rest : List User)
      → decode_cursor ids c ≡ Outcome.ok cur
      → above (id_filter cur) docs ≡ rest
      → list_users coll ids c limit s
        ≡ Outcome.ok (page_of ids (clamp_limit limit) (take (clamp_limit limit + 1) rest))
  unfolding list_users list_after
  list_users-eq c cur rest d e = rw (d, found, e)

  visits-last :
      (n : ℕ) (c : Text) (rest : List User)
      → length rest ≤ clamp_limit limit
      → list_users coll ids c limit s
        ≡ Outcome.ok (page_of ids (clamp_limit limit) (take (clamp_limit limit + 1) rest))
      → visits coll ids (suc n) c limit s ≡ Outcome.ok (map (user_response ids) rest)
  unfolding visits
  visits-last n c rest h e = rw (e, page_of-last ids (clamp_limit limit) rest h, append-nil)

  visits-more :
      (n : ℕ) (c : Text) (rest before behind : List User) (u : User)
      → clamp_limit limit < length rest
      → rest ≡ before ++ (u ∷ behind)
      → take (clamp_limit limit) rest ≡ before ++ (u ∷ [])
      → list_users coll ids c limit s
        ≡ Outcome.ok (page_of ids (clamp_limit limit) (take (clamp_limit limit + 1) rest))
      → visits coll ids n (encode ids (record { last_id = u.id })) limit s
        ≡ Outcome.ok (map (user_response ids) behind)
      → visits coll ids (suc n) c limit s ≡ Outcome.ok (map (user_response ids) rest)
  unfolding visits
  visits-more n c rest before behind u h split p e more =
      rw (e, page_of-more ids (clamp_limit limit) rest before u h p, more)
        (ap Outcome.ok (shown_split ids before behind u rest split))

  visits-from :
      (n : ℕ) (c : Text) (cur : Cursor) (before rest : List User)
      → length rest ≤ n
      → docs ≡ before ++ rest
      → decode_cursor ids c ≡ Outcome.ok cur
      → above (id_filter cur) docs ≡ rest
      → visits coll ids (suc n) c limit s ≡ Outcome.ok (map (user_response ids) rest)
  visits-from zero c cur before rest h e d r =
      visits-last zero c rest (omega (arith, (clamp_limit_bounds limit).0))
        (list_users-eq c cur rest d r)
  visits-from (suc n) c cur before rest h e d r =
      elim (leb_cases (length rest) (clamp_limit limit)) [
        | inl last ↦ visits-last (suc n) c rest last (list_users-eq c cur rest d r)
        | inr more ↦
            let q = split_page (clamp_limit limit) rest (clamp_limit_bounds limit).0 more in
            let next : Cursor = record { last_id = q.1.id } in
            let all = e ∙ ap (λ t. before ++ t) q.3 ∙ sym (append_assoc before q.0 (q.1 ∷ q.2)) in
            visits-more (suc n) c rest q.0 q.2 q.1 more q.3 q.4 (list_users-eq c cur rest d r) (
              visits-from n (encode ids next) next ((before ++ q.0) ++ (q.1 ∷ [])) q.2
                (omega (arith, h, ap length q.3, length-append q.0 (q.1 ∷ q.2)))
                (all ∙ append_one (before ++ q.0) q.1 q.2)
                (decode_cursor-encode ids q.1.id
                  (IsReadable-at ids docs (before ++ q.0) q.2 q.1 readable all))
                (id_filter-above ids docs (before ++ q.0) q.2 q.1 ascends all))
      ]

  -- In a collection whose ids ascend from above the zero id and are read back from their cursors, and
  -- for which the server finds the first documents above an id, a client that starts from the empty
  -- cursor and follows each next cursor gets every user once, in the order of the ids, whatever
  -- limit it asks for; one page more than there are users is enough.
  pub visits_all :
      visits coll ids (suc (length docs)) [] limit s ≡ Outcome.ok (map (user_response ids) docs)
  unfolding decode_cursor id_filter above
  visits_all =
      visits-from (length docs) [] (record { last_id = 0 }) [] docs (omega arith) refl refl refl

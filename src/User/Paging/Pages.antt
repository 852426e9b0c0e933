-- ===== src/User/Paging/Pages.antt =====
-- What stands above a document, and what a page holds.
use go_mongo_boilerplate.Base.{
  ℕ, zero, suc, ◌+◌, ◌<◌, ◌≤◌, ◌≡◌, refl, ap, true, false, List, [], ◌∷◌, ◌++◌, some, map, length,
  take, ltb, ◌==◌, arith, ◌⊎◌, lt→ltb, take_of_length-le, length-take,
}
use go_mongo_boilerplate.Pagination.{ObjectIds, encode}
use go_mongo_boilerplate.User.{User, user_response, next_cursor, page_of}
use go_mongo_boilerplate.User.Paging.{above, Ascends}

pub not_ltb : (a b : ℕ) → b ≤ a → ltb a b ≡ false
not_ltb a b h = ground arith

pub positive : (a : ℕ) → 0 < a → (a == 0) ≡ false
positive a h = ground arith

pub leb_cases : (a b : ℕ) → (a ≤ b) ⊎ (b < a)
leb_cases a b = ground arith

pub Ascends-weaken : (k j : ℕ) (users : List User) → k ≤ j → Ascends j users → Ascends k users
Ascends-weaken k j [] le h = tt
Ascends-weaken k j (u ∷ users) le h = (omega (arith, le, h.0), h.1)

pub Ascends-lt :
    (k : ℕ) (before : List User) (u : User) (rest : List User)
    → Ascends k (before ++ (u ∷ rest))
    → k < u.id
Ascends-lt k [] u rest h = h.0
Ascends-lt k (v ∷ before) u rest h = omega (arith, h.0, Ascends-lt v.id before u rest h.1)

pub above-later : (k : ℕ) (users : List User) → Ascends k users → above (some k) users ≡ users
unfolding above
above-later k [] h = refl
above-later k (u ∷ users) h =
    rw (
      lt→ltb k u.id h.0,
      above-later k users (Ascends-weaken k u.id users (omega (arith, h.0)) h.1),
    )

-- Behind a document stand those above its id.
pub above-append :
    (k : ℕ) (before : List User) (u : User) (rest : List User)
    → Ascends k (before ++ (u ∷ rest))
    → above (some u.id) (before ++ (u ∷ rest)) ≡ rest
unfolding above
above-append k [] u rest h = rw (not_ltb u.id u.id (omega arith)) (above-later u.id rest h.1)
above-append k (v ∷ before) u rest h =
    rw (not_ltb u.id v.id (omega (arith, Ascends-lt v.id before u rest h.1)))
      (above-append v.id before u rest h.1)

pub take-take-suc : (n : ℕ) (users : List User) → take n (take (suc n) users) ≡ take n users
take-take-suc zero users = refl
take-take-suc (suc n) [] = refl
take-take-suc (suc n) (u ∷ users) = ap (λ r. u ∷ r) (take-take-suc n users)

pub take-take : (n m : ℕ) (users : List User) → m ≡ suc n → take n (take m users) ≡ take n users
take-take n m users e = rw e (take-take-suc n users)

pub append_one :
    (before : List User) (u : User) (rest : List User)
    → before ++ (u ∷ rest) ≡ (before ++ (u ∷ [])) ++ rest
append_one [] u rest = refl
append_one (v ∷ before) u rest = ap (λ t. v ∷ t) (append_one before u rest)

-- Where a page is full, its last user and those behind it.
pub split_last :
    (n : ℕ) (users : List User)
    → n < length users
    → (before : List User) × (u : User) × (rest : List User) × (users ≡ before ++ (u ∷ rest))
      × (take (suc n) users ≡ before ++ (u ∷ []))
split_last n [] h = absurd (omega arith)
split_last zero (u ∷ users) h = ([], u, users, refl, refl)
split_last (suc n) (v ∷ users) h =
    let r = split_last n users (omega arith) in
    (v ∷ r.0, r.1, r.2, ap (λ t. v ∷ t) r.3, ap (λ t. v ∷ t) r.4)

pub split_page :
    (n : ℕ) (users : List User)
    → 1 ≤ n
    → n < length users
    → (before : List User) × (u : User) × (rest : List User) × (users ≡ before ++ (u ∷ rest))
      × (take n users ≡ before ++ (u ∷ []))
split_page zero users p h = absurd (omega arith)
split_page (suc n) users p h = split_last n users (omega arith)

pub next_cursor-append :
    (ids : ObjectIds) (before : List User) (u : User)
    → next_cursor ids true (before ++ (u ∷ [])) ≡ encode ids (record { last_id = u.id })
unfolding next_cursor
next_cursor-append ids [] u = refl
next_cursor-append ids (v ∷ []) u = refl
next_cursor-append ids (v ∷ w ∷ before) u = next_cursor-append ids (w ∷ before) u

pub page_of-last :
    (ids : ObjectIds) (n : ℕ) (users : List User)
    → length users ≤ n
    → page_of ids n (take (n + 1) users)
      ≡ record { items = map (user_response ids) users; next_cursor = []; has_more = false }
unfolding page_of next_cursor
page_of-last ids n users h =
    rw (take_of_length-le (n + 1) users (omega arith), not_ltb n (length users) h)

pub page_of-more :
    (ids : ObjectIds) (n : ℕ) (users before : List User) (u : User)
    → n < length users
    → take n users ≡ before ++ (u ∷ [])
    → page_of ids n (take (n + 1) users) ≡ record {
      items = map (user_response ids) (before ++ (u ∷ []));
      next_cursor = encode ids (record { last_id = u.id });
      has_more = true;
    }
unfolding page_of
page_of-more ids n users before u h e = rw (
  lt→ltb n (length (take (n + 1) users)) (omega (arith, length-take (n + 1) users)),
  take-take n (n + 1) users (omega arith),
  e,
  next_cursor-append ids before u,
)

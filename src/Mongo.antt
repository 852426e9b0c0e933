-- ===== src/Mongo.antt =====
-- The MongoDB driver as internal/user and internal/role call it, on a state `S` of the server: the
-- operations on a collection of documents `A`, and what the server documents of them.
use go_mongo_boilerplate.Base.{ℕ, ◌+◌, ◌≡◌, ◌⊎◌, List, [], ◌∷◌, Option, if◌then◌else◌, ◌≢◌, All}
use go_mongo_boilerplate.Stdlib.Text.{Text, codes, text_eq}
use go_mongo_boilerplate.Stdlib.Outcome.{Outcome}

-- `mongo.ErrNoDocuments`.
abbrev pub no_documents : Text
no_documents = codes "mongo: no documents in result"

-- `FindOne` by the collection's text key and by `_id`, `CountDocuments` by the key, `InsertOne` with
-- the id that it reports if that is an ObjectID, and `Find` with an optional `$gt` on `_id`, sorted
-- by `_id`, with a limit, or of everything. `now` is `time.Now().UTC()`.
pub record Collection (S : Type 0) (A : Type 0) : Type 0 where
  pub find_one : Text → S → Outcome A
  pub find_id : ℕ → S → Outcome A
  pub count_documents : Text → S → Outcome ℕ
  pub insert_one : A → S → Outcome (Option ℕ) × S
  pub find : Option ℕ → ℕ → S → Outcome (List A)
  pub find_all : S → Outcome (List A)
  pub now : S → ℕ

-- How many of the keys are `k`.
unfoldable pub occurrences : Text → List Text → ℕ
occurrences k [] = 0
occurrences k (j ∷ js) = (if text_eq j k then 1 else 0) + occurrences k js

-- No key stands twice.
abbrev pub AreDistinct : List Text → Type 0
AreDistinct [] = Unit
AreDistinct (k ∷ ks) = All (λ j. j ≢ k) ks × AreDistinct ks

module _ {S A : Type 0} (coll : Collection S A) (key : A → Text) (keys : S → List Text) where
  -- An answer of `CountDocuments` is the number of documents with the key.
  abbrev pub Counts : Type 0
  Counts =
      (k : Text) (s : S) (n : ℕ)
      → coll.count_documents k s ≡ Outcome.ok n
      → n ≡ occurrences k (keys s)

  -- `InsertOne` stores the document; where it reports an error, the document may be stored or not.
  abbrev pub Inserts : Type 0
  Inserts =
      (a : A) (s : S)
      → ((keys (coll.insert_one a s).1 ≡ key a ∷ keys s)
          ⊎ ((keys (coll.insert_one a s).1 ≡ keys s)
              × ((r : Option ℕ) → (coll.insert_one a s).0 ≢ Outcome.ok r)))

-- ===== src/HttpError.antt =====
-- internal/platform/httperror: the JSON envelope of an error, and the helpers that answer with it.
-- A handler's response is its status with the body that it marshals.
use go_mongo_boilerplate.Base.{ℕ}
use go_mongo_boilerplate.Stdlib.Text.{Text, codes}
use go_mongo_boilerplate.Stdlib.Errors.{GoError, error_text}

pub record Body : Type 0 where
  pub code : Text
  pub message : Text

pub data Response {ℓ} (A : Type ℓ) : Type ℓ where
  json : ℕ → A → Response A
  envelope : ℕ → Body → Response A

module _ {ℓ} {A : Type ℓ} where
  unfoldable pub write : ℕ → Text → Text → Response A
  write status code message = Response.envelope status (record { code = code; message = message })

  unfoldable pub write_err : ℕ → Text → GoError → Response A
  unfolding write
  write_err status code e = write status code (error_text e)

  unfoldable pub bad_request : GoError → Response A
  unfolding write_err
  bad_request = write_err 400 (codes "BAD_REQUEST")

  unfoldable pub conflict : GoError → Response A
  unfolding write_err
  conflict = write_err 409 (codes "CONFLICT")

  unfoldable pub not_found : GoError → Response A
  unfolding write_err
  not_found = write_err 404 (codes "NOT_FOUND")

  unfoldable pub internal : GoError → Response A
  unfolding write_err
  internal = write_err 500 (codes "INTERNAL")

  unfoldable pub status : Response A → ℕ
  status (Response.json n _) = n
  status (Response.envelope n _) = n

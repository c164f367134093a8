-- ===== src/Http/Errors/Traced.antt =====
-- What every response tells of its request.
use inference_control_plane.Prelude.{ℕ, String, Option, none, some, ◌≡◌, refl, ◌⊎◌, inl, inr, arith}
use inference_control_plane.Prelude.Dict.{lookup, lookup-insert_self}
use inference_control_plane.Python.Json.{Json, arr}
use inference_control_plane.Http.Errors.{
  http, invalid, unhandled, Outcome, returned, failed, Body, model, json, error_payload, error_code,
  normalize_detail, validation_details, request_id_of, http_exception_handler,
  validation_exception_handler, dispatch,
}

-- The codes of the API.
abbrev pub IsCode : String → Type 0
IsCode c =
    (c ≡ "UNAUTHORIZED")
    ⊎ (c ≡ "FORBIDDEN")
    ⊎ (c ≡ "NOT_FOUND")
    ⊎ (c ≡ "VALIDATION_ERROR")
    ⊎ (c ≡ "RATE_LIMITED")
    ⊎ (c ≡ "UPSTREAM_ERROR")
    ⊎ (c ≡ "INTERNAL_ERROR")
    ⊎ (c ≡ "HTTP_ERROR")

-- The body is that of the endpoint, or an error with a code and the identifier.
abbrev pub HasEnvelope : {A : Type 0} → String → Body A → Type 0
HasEnvelope id (model a) = Unit {0}
HasEnvelope id (json j) =
    (code : String) × (message : String) × (details : Option Json) × IsCode code
    × (j ≡ error_payload code message id details)

error_code-IsCode : (n : ℕ) → IsCode (error_code n)
unfolding error_code
error_code-IsCode n = ground arith

module _ (lower : String → String) {A : Type 0} where
  -- The body of a response that `dispatch` gives for an outcome.
  envelope :
      (header : Option String) (fresh unused : String) (o : Outcome A)
      → HasEnvelope (request_id_of header fresh) (dispatch lower header fresh unused o).body
  unfolding dispatch http_exception_handler validation_exception_handler
  envelope header fresh unused (returned a) = tt
  envelope header fresh unused (failed (http exc)) = (
    error_code exc.status_code,
    (normalize_detail exc.detail).0,
    (normalize_detail exc.detail).1,
    error_code-IsCode exc.status_code,
    refl,
  )
  envelope header fresh unused (failed (invalid errors)) = (
    "VALIDATION_ERROR",
    "Request validation failed.",
    some (arr (validation_details errors)),
    inr (inr (inr (inl refl))),
    refl,
  )
  envelope header fresh unused (failed (unhandled exc)) = (
    "INTERNAL_ERROR",
    "An internal error occurred.",
    none,
    inr (inr (inr (inr (inr (inr (inl refl)))))),
    refl,
  )

  traced :
      (header : Option String) (fresh unused : String) (o : Outcome A)
      → lookup "x-request-id" (dispatch lower header fresh unused o).headers
        ≡ some (request_id_of header fresh)
  unfolding dispatch lookup
  traced header fresh unused (returned a) = simp lookup-insert_self
  traced header fresh unused (failed (http exc)) = simp lookup-insert_self
  traced header fresh unused (failed (invalid errors)) = simp lookup-insert_self
  traced header fresh unused (failed (unhandled exc)) = refl

  -- However an endpoint ends, the response has the request's identifier in its `x-request-id`
  -- header: that of the request's own header if it is there and not empty, and a fresh one
  -- otherwise. A body that is not what the endpoint returned is an error with one of the eight
  -- codes and the same identifier.
  pub dispatch-IsTraced :
      (header : Option String) (fresh unused : String) (o : Outcome A)
      → (lookup "x-request-id" (dispatch lower header fresh unused o).headers
          ≡ some (request_id_of header fresh))
        × HasEnvelope (request_id_of header fresh) (dispatch lower header fresh unused o).body
  dispatch-IsTraced header fresh unused o =
      (traced header fresh unused o, envelope header fresh unused o)

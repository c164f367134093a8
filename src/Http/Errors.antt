-- ===== src/Http/Errors.antt =====
-- core/errors.py: what a client gets for a failure, and the request identifier. A header's name is
-- in lower case, and the headers are those that the program sets.
pub mod Traced
use inference_control_plane.Prelude.{
  ℕ, String, Bool, true, false, Option, none, some, List, [], ◌∷◌, ◌==◌, ◌&&◌, eqb, leb, ltb,
  is_empty, if◌then◌else◌,
}
use inference_control_plane.Prelude.Dict.{Dict, insert}
use inference_control_plane.Python.{Exc, http_exception, Result, ok, err}
use inference_control_plane.Python.Json.{
  Json, null, str, arr, obj, Items, nil, cons, Fields, end, field, entry,
}

-- FastAPI's `HTTPException`, whose `detail` is any object.
pub record HttpException : Type 0 where
  pub status_code : ℕ
  pub detail : Json
  pub headers : Dict String

-- How an endpoint fails: by an `HTTPException`, by the errors of a `RequestValidationError`, or by
-- any other exception.
pub data Failure : Type 0 where
  http : HttpException → Failure
  invalid : List Fields → Failure
  unhandled : Exc → Failure

pub data Outcome (A : Type 0) : Type 0 where
  returned : A → Outcome A
  failed : Failure → Outcome A

abbrev pub failure_of : Exc → Failure
failure_of (http_exception status detail headers) =
    http (record { status_code = status; detail = str detail; headers = headers })
failure_of e = unhandled e

abbrev pub outcome_of : {A : Type 0} → Result A → Outcome A
outcome_of (ok a) = returned a
outcome_of (err e) = failed (failure_of e)

-- The body of a response: what an endpoint has returned, or JSON.
pub data Body (A : Type 0) : Type 0 where
  model : A → Body A
  json : Json → Body A

pub record Response (A : Type 0) : Type 0 where
  pub status_code : ℕ
  pub headers : Dict String
  pub body : Body A

-- `_normalize_detail`
unfoldable pub normalize_detail : Json → String × Option Json
normalize_detail (str s) = (s, none)
normalize_detail (obj fs) = elim (entry "message" fs) [
  | some (str s) ↦ (s, some (obj fs))
  | _ ↦ ("Request failed.", some (obj fs))
]
normalize_detail _ = ("Request failed.", none)

abbrev pub details_field : Option Json → Fields
details_field none = end
details_field (some d) = field "details" d end

-- The `payload` of `_error_response`.
abbrev pub error_payload : String → String → String → Option Json → Json
error_payload code message request_id details = obj (
    field "error"
      (obj (
        field "code" (str code) (
          field "message" (str message)
            (field "request_id" (str request_id) (details_field details)))))
      end)

-- The code for a status.
unfoldable pub error_code : ℕ → String
error_code n =
    if eqb n 401
    then "UNAUTHORIZED"
    else if eqb n 403
    then "FORBIDDEN"
    else if eqb n 404
    then "NOT_FOUND"
    else if eqb n 422
    then "VALIDATION_ERROR"
    else if eqb n 429
    then "RATE_LIMITED"
    else if leb 500 n && ltb n 600
    then "UPSTREAM_ERROR"
    else "HTTP_ERROR"

-- `getattr(request.state, "request_id", str(uuid.uuid4()))`
abbrev pub id_in : Option String → String → String
id_in none fresh = fresh
id_in (some id) fresh = id

-- `request.headers.get("x-request-id") or str(uuid.uuid4())`
abbrev pub request_id_of : Option String → String → String
request_id_of none fresh = fresh
request_id_of (some id) fresh = if is_empty id then fresh else id

-- `err.get(key)`
abbrev pub get : String → Fields → Json
get key fs = elim (entry key fs) [ none ↦ null | some v ↦ v ]

-- The details of a validation error tell where it is and of which type, and not the input.
unfoldable pub validation_details : List Fields → Items
validation_details [] = nil
validation_details (e ∷ es) =
    cons
      (obj (
        field "loc" (get "loc" e)
          (field "msg" (str "Invalid input.") (field "type" (get "type" e) end))))
      (validation_details es)

module _ (lower : String → String) where
  -- `response.headers[key] = value` for each header of the exception.
  unfoldable pub set_headers : Dict String → Dict String → Dict String
  set_headers [] d = d
  set_headers ((k, v) ∷ hs) d = set_headers hs (insert (lower k) v d)

  module _ {A : Type 0} where
    -- `_error_response`
    abbrev pub error_response :
        ℕ → String → String → String → Option Json → Dict String → Response A
    error_response status code message request_id details headers = record {
      status_code = status;
      headers = headers;
      body = json (error_payload code message request_id details);
    }

    -- `build_http_exception_handler`
    unfoldable pub http_exception_handler : String → HttpException → Response A
    unfolding normalize_detail error_code set_headers insert
    http_exception_handler request_id exc =
        let (message, details) = normalize_detail exc.detail in
        error_response exc.status_code (error_code exc.status_code) message request_id details
          (insert "x-request-id" request_id (set_headers exc.headers []))

    -- `build_validation_exception_handler`
    unfoldable pub validation_exception_handler : String → List Fields → Response A
    unfolding validation_details
    validation_exception_handler request_id errors =
        error_response 422 "VALIDATION_ERROR" "Request validation failed." request_id
          (some (arr (validation_details errors))) (("x-request-id", request_id) ∷ [])

    -- `build_unhandled_exception_handler`
    abbrev pub unhandled_exception_handler : String → Exc → Response A
    unhandled_exception_handler request_id exc =
        error_response 500 "INTERNAL_ERROR" "An internal error occurred." request_id none
          (("x-request-id", request_id) ∷ [])

    -- The handlers that `create_app` registers, each with the identifier in the request's state.
    abbrev pub handle_failure : Option String → String → Failure → Response A
    handle_failure state fresh (http exc) = http_exception_handler (id_in state fresh) exc
    handle_failure state fresh (invalid errors) =
        validation_exception_handler (id_in state fresh) errors
    handle_failure state fresh (unhandled exc) = unhandled_exception_handler (id_in state fresh) exc

    -- The response of an endpoint, before the middleware sees it.
    abbrev pub answer : Option String → String → Outcome A → Response A
    answer state fresh (returned a) = record { status_code = 200; headers = []; body = model a }
    answer state fresh (failed f) = handle_failure state fresh f

    -- `RequestIdMiddleware.dispatch`. An exception that no handler takes passes it by, and is
    -- answered outside.
    unfoldable pub dispatch : Option String → String → String → Outcome A → Response A
    unfolding insert
    dispatch header fresh unused (failed (unhandled exc)) =
        unhandled_exception_handler (id_in (some (request_id_of header fresh)) unused) exc
    dispatch header fresh unused outcome =
        let request_id = request_id_of header fresh in
        let response = answer (some request_id) unused outcome in
        record response { headers = insert "x-request-id" request_id response.headers }

-- ===== src/Sli/Models/Values.antt =====
-- The conversions of JSON values in `parse_observation` of models.py.
use inference_control_plane.Prelude.{
  ℕ, String, Bool, true, false, Option, none, some, List, [], ◌∷◌, contains, eqb, strip, ◌&&◌,
  if◌then◌else◌,
}
use inference_control_plane.Prelude.Int.{pos}
use inference_control_plane.Python.{
  Float, Exc, builtin, value_error, type_error, Result, ok, err, ◌>>=◌,
}
use inference_control_plane.Python.Json.{
  Json, null, bool, int, float, str, obj, end, truthy, get_or,
}
use inference_control_plane.Python.Builtins.{Builtins, py_float}
use inference_control_plane.LlmClient.Payload.{py_str}

-- `value if isinstance(value, dict) else {}`
abbrev pub as_mapping : Json → Json
as_mapping (obj fs) = obj fs
as_mapping _ = obj end

-- `except (ValueError, TypeError)`
abbrev pub is_conversion_error : Exc → Bool
is_conversion_error (builtin value_error _) = true
is_conversion_error (builtin type_error _) = true
is_conversion_error _ = false

-- `value is None`
abbrev pub is_null : Json → Bool
is_null null = true
is_null _ = false

-- `safe_types`
abbrev pub safe_types : List String
safe_types =
    "throttlingexception" ∷ "ratelimiterror" ∷ "ratelimitexception" ∷ "timeouterror"
    ∷ "timeoutexception" ∷ "serviceunavailable" ∷ "serviceunavailableexception"
    ∷ "internalservererror" ∷ "modelerrorexception" ∷ "authenticationerror"
    ∷ "accessdeniedexception" ∷ "badrequesterror" ∷ "validationexception" ∷ "contentpolicyviolation"
    ∷ []

module _ (b : Builtins) (lower : String → String) where
  -- `_mapping`
  unfoldable pub mapping : Json → String → Result Json
  unfolding get_or
  mapping raw name = do value ← get_or raw name null; ok (as_mapping value)

  -- `str(value or "")`
  unfoldable pub text_of : Json → String
  unfolding py_str truthy
  text_of value = if truthy value then py_str b.repr value else ""

  -- `0 <= x < inf`
  unfoldable pub is_amount : Float → Bool
  is_amount v = b.floats.is_finite v && b.floats.le (b.floats.of_nat 0) v

  -- The total that is kept of a cost that was converted, and whether the cost is invalid.
  unfoldable pub cost_of : Result Float → Result (Option Float × Bool)
  unfolding is_amount
  cost_of (ok v) = if is_amount v then ok (some v, false) else ok (none, true)
  cost_of (err e) = if is_conversion_error e then ok (none, true) else err e

  unfoldable pub total_cost : Json → Result (Option Float × Bool)
  unfolding cost_of py_float
  total_cost raw = if is_null raw then ok (none, false) else cost_of (py_float b raw)

  -- What a candidate for a count converts to: none for one that is passed over.
  unfoldable pub count_of : Result Float → Result (Option ℕ)
  unfolding is_amount
  count_of (ok v) =
      if is_amount v && b.floats.is_integer v then ok (some (b.floats.truncate v)) else ok none
  count_of (err e) = if is_conversion_error e then ok none else err e

  abbrev pub candidate : Json → Result (Option ℕ)
  candidate null = ok none
  candidate (bool _) = ok none
  candidate c = count_of (py_float b c)

  -- `_int`
  unfoldable pub int_from : List Json → Result ℕ
  unfolding count_of py_float
  int_from [] = ok 0
  int_from (c ∷ cs) = do n ← candidate c; elim n [ some k ↦ ok k | none ↦ int_from cs ]

  unfoldable pub stream_of : Json → Bool
  stream_of (bool v) = v
  stream_of (str s) = contains ("true" ∷ "1" ∷ "yes" ∷ []) (lower (strip s))
  stream_of (int (pos n)) = eqb n 1
  stream_of (float v) = b.floats.le v (b.floats.of_nat 1) && b.floats.le (b.floats.of_nat 1) v
  stream_of _ = false

  -- The marker for a type of error.
  abbrev pub marker : String → String
  marker raw_type = if contains safe_types raw_type then raw_type else "__unknown__"

  unfoldable pub error_of : Json → Result (Option String)
  unfolding text_of get_or
  error_of (obj fs) = do
    type ← get_or (obj fs) "type" null
    ok (some (marker (lower (strip (text_of type)))))
  error_of _ = ok none

  -- `value or other`
  abbrev pub or_json : Json → Json → Json
  or_json v w = if truthy v then v else w

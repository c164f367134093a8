-- ===== src/Sli/Times.antt =====
-- `_parse_ts` of models.py. A time is in microseconds.
use inference_control_plane.Prelude.{
  ℕ, String, Bool, true, false, ◌≡◌, Option, none, some, strip, if◌then◌else◌,
}
use inference_control_plane.Prelude.Dict.{Dict}
use inference_control_plane.Python.{
  Exc, builtin, type_error, value_error, attribute_error, Result, ok, err, ◌>>=◌,
}
use inference_control_plane.Python.Json.{Json, str, truthy}

-- `rfc3339` is the match of the pattern and `datetime.fromisoformat` of what it has matched, in UTC.
-- `isoformat` is that of a time in UTC, and `dict_of` is `dict(value)` of what is not a dict.
pub record Times : Type 0 where
  pub rfc3339 : String → Result ℕ
  pub isoformat : ℕ → String
  pub dict_of : Json → Result (Dict Json)

-- A time is read back from its text.
pub record IsExact (t : Times) : Type 0 where
  pub rfc3339-isoformat : (n : ℕ) → t.rfc3339 (strip (t.isoformat n)) ≡ ok n
  pub isoformat-full : (n : ℕ) → truthy (str (t.isoformat n)) ≡ true

-- The time in a text that is not empty.
abbrev pub time_in : Times → Json → Result (Option ℕ)
time_in t (str s) = do n ← t.rfc3339 (strip s); ok (some n)
time_in t _ = err (builtin type_error "timestamp must be a string")

-- `_parse_ts`
unfoldable pub parse_ts : Times → Json → Result (Option ℕ)
unfolding truthy
parse_ts t value = if truthy value then time_in t value else ok none

-- `except (ValueError, TypeError, AttributeError)`
abbrev pub is_parse_error : Exc → Bool
is_parse_error (builtin value_error _) = true
is_parse_error (builtin type_error _) = true
is_parse_error (builtin attribute_error _) = true
is_parse_error _ = false

-- `_safe_ts`
abbrev pub safe : Result (Option ℕ) → Result (Option ℕ)
safe (ok o) = ok o
safe (err e) = if is_parse_error e then ok none else err e

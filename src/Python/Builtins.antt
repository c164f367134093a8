-- ===== src/Python/Builtins.antt =====
-- The builtins and the standard modules that the control plane calls, as far as it relies on them.
use inference_control_plane.Prelude.{String, Bool, false, ◌≡◌, none, some, if◌then◌else◌}
use inference_control_plane.Prelude.Int.{ℤ}
use inference_control_plane.Python.{Float, FloatOps, Result, ok, err, builtin, key_error}
use inference_control_plane.Python.Json.{Json, int, float, obj, entry, not_subscriptable}

-- `repr`, `int_of` and `float_of` are `str`, `int` and `float` of a value of another type; the
-- digests are those of hashlib, in hexadecimal, and `re_sub pattern replacement text` is `re.sub`.
pub record Builtins : Type 0 where
  pub repr : Json → String
  pub int_of : Json → Result ℤ
  pub float_of : Json → Result Float
  pub sha256 : String → String
  pub sha1 : String → String
  pub re_sub : String → String → String → String
  pub floats : FloatOps

-- `json.dumps` and `json.loads`, and `not raw` of an encoded text.
pub record JsonCodec : Type 1 where
  pub Text : Type 0
  pub dumps : Json → Text
  pub loads : Text → Result Json
  pub is_blank : Text → Bool

-- What is encoded is not empty and is decoded to the same value.
pub record IsLossless (J : JsonCodec) : Type 0 where
  pub loads-dumps : (j : Json) → J.loads (J.dumps j) ≡ ok j
  pub dumps-full : (j : Json) → J.is_blank (J.dumps j) ≡ false

-- `int(value)`
unfoldable pub py_int : Builtins → Json → Result ℤ
py_int b (int n) = ok n
py_int b j = b.int_of j

-- `float(value)`
unfoldable pub py_float : Builtins → Json → Result Float
py_float b (float x) = ok x
py_float b j = b.float_of j

-- `value[key]`
unfoldable pub item : Json → String → Result Json
item (obj fs) key = elim (entry key fs) [ none ↦ err (builtin key_error key) | some v ↦ ok v ]
item j key = err (not_subscriptable j)

-- `max(x, y)` on floats: the second only if it is greater.
unfoldable pub max_float : FloatOps → Float → Float → Float
max_float f x y = if f.lt x y then y else x

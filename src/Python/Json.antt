-- ===== src/Python/Json.antt =====
-- What `json.loads` returns, and the operations on it that the program uses.
use inference_control_plane.Prelude.{
  zero, suc, String, Bool, true, false, not, Option, none, some, eqb, is_empty, ◌<>◌, ◌==◌,
  if◌then◌else◌, ◌||◌,
}
use inference_control_plane.Prelude.Int.{ℤ, pos, negsuc}
use inference_control_plane.Python.{
  Float, of_bits, Exc, builtin, type_error, attribute_error, Result, ok, err,
}

-- A dict keeps its keys in insertion order; of two like keys the decoder keeps one.
mutual
  pub data Json : Type 0 where
    null : Json
    bool : Bool → Json
    int : ℤ → Json
    float : Float → Json
    str : String → Json
    arr : Items → Json
    obj : Fields → Json

  pub data Items : Type 0 where
    nil : Items
    cons : Json → Items → Items

  pub data Fields : Type 0 where
    end : Fields
    field : String → Json → Fields → Fields

-- The entry of a dict under a key.
abbrev pub entry : String → Fields → Option Json
entry k end = none
entry k (field j v fs) = if k == j then some v else entry k fs

-- Both zeros of binary64 are false.
is_zero : Float → Bool
is_zero (of_bits n) = eqb n 0 || eqb n 0x8000000000000000

-- `bool(value)`
unfoldable pub truthy : Json → Bool
unfolding is_zero
truthy null = false
truthy (bool b) = b
truthy (int (pos zero)) = false
truthy (int (pos (suc n))) = true
truthy (int (negsuc n)) = true
truthy (float x) = not (is_zero x)
truthy (str s) = not (is_empty s)
truthy (arr nil) = false
truthy (arr (cons x xs)) = true
truthy (obj end) = false
truthy (obj (field k v fs)) = true

-- `type(value).__name__`
abbrev pub type_name : Json → String
type_name null = "NoneType"
type_name (bool _) = "bool"
type_name (int _) = "int"
type_name (float _) = "float"
type_name (str _) = "str"
type_name (arr _) = "list"
type_name (obj _) = "dict"

abbrev pub no_attribute : Json → Exc
no_attribute j = builtin attribute_error ("'" <> type_name j <> "' object has no attribute 'get'")

abbrev pub not_subscriptable : Json → Exc
not_subscriptable j = builtin type_error ("'" <> type_name j <> "' object is not subscriptable")

-- `value.get(key, default)`: only a dict has the method.
unfoldable pub get_or : Json → String → Json → Result Json
get_or (obj fs) key default = ok (elim (entry key fs) [ none ↦ default | some v ↦ v ])
get_or j key default = err (no_attribute j)

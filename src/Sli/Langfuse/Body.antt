-- ===== src/Sli/Langfuse/Body.antt =====
-- What `LangfuseApiTraceSource` asks for, and what it reads in the body of an answer.
use inference_control_plane.Prelude.{
  ℕ, String, Bool, true, false, not, Option, none, some, List, [], ◌∷◌, ◌++◌, ◌==◌, ◌&&◌, ◌||◌,
  is_empty, show, if◌then◌else◌,
}
use inference_control_plane.Prelude.Dict.{Dict}
use inference_control_plane.Prelude.Int.{pos, negsuc}
use inference_control_plane.Python.{Exc, builtin, type_error, value_error, ok, err}
use inference_control_plane.Python.Json.{
  Json, null, str, arr, obj, Items, nil, cons, Fields, end, entry, truthy,
}
use inference_control_plane.Python.Builtins.{Builtins, py_int}
use inference_control_plane.LlmClient.Payload.{py_str}
use inference_control_plane.Sli.Models.Values.{text_of}
use inference_control_plane.Sli.Langfuse.{
  Source, Read, got, failed, langfuse_source_incomplete, raised,
}

abbrev pub incomplete {ℓ} : {A : Type ℓ} → String → Read A
incomplete reason = failed (langfuse_source_incomplete reason)

-- `.get(key)`
abbrev pub value_of : String → Fields → Json
value_of key fs = elim (entry key fs) [ none ↦ null | some v ↦ v ]

abbrev pub items_of : Items → List Json
items_of nil = []
items_of (cons j js) = j ∷ items_of js

-- What a page is asked by: its number, or a cursor.
pub data Query : Type 0 where
  page : ℕ → Query
  cursor : String → Query

abbrev pub query_params : Query → Dict String
query_params (page n) = ("page", show n) ∷ []
query_params (cursor c) = ("cursor", c) ∷ []

abbrev pub since : String → Option String → Dict String
since key none = []
since key (some time) = if is_empty time then [] else (key, time) ∷ []

-- `_base_params`
unfoldable pub base_params : Source → Dict String
base_params c =
    ("type", "GENERATION") ∷ ("limit", show c.page_limit) ∷ since "fromStartTime" c.from_timestamp
    ++ since "toStartTime" c.to_timestamp

abbrev pub is_object : Json → Bool
is_object (obj _) = true
is_object _ = false

abbrev pub all_objects : List Json → Bool
all_objects [] = true
all_objects (j ∷ js) = is_object j && all_objects js

-- `data`, `meta` and the checks of their types.
abbrev pub list_of : Json → Read (List Json)
list_of (arr js) =
    if all_objects (items_of js)
    then got (items_of js)
    else incomplete "response data contains a non-object"
list_of j = if truthy j then incomplete "response data is not a list" else got []

abbrev pub meta_of : Json → Read Fields
meta_of (obj fs) = got fs
meta_of j = if truthy j then incomplete "response meta is not an object" else got end

-- Whether `value or []` is a list.
abbrev pub is_listed : Json → Bool
is_listed (arr _) = true
is_listed j = not (truthy j)

-- The two parts of a body. That the data is no list is found before what the meta is, and what the
-- meta is before what the data holds.
unfoldable pub parts_of : Json → Read (List Json × Fields)
unfolding truthy
parts_of (obj fs) =
    if not (is_listed (value_of "data" fs))
    then incomplete "response data is not a list"
    else elim (meta_of (value_of "meta" fs)) [
      | failed e ↦ failed e
      | got meta ↦ elim (list_of (value_of "data" fs)) [
        | failed e ↦ failed e
        | got rows ↦ got (rows, meta)
      ]
    ]
parts_of _ = got ([], end)

-- `==` of two tuples of texts.
unfoldable pub same_signature : List String → List String → Bool
same_signature [] [] = true
same_signature (a ∷ as_) (b ∷ bs) = a == b && same_signature as_ bs
same_signature _ _ = false

unfoldable pub has_signature : List (List String) → List String → Bool
unfolding same_signature
has_signature [] x = false
has_signature (y ∷ ys) x = same_signature x y || has_signature ys x

abbrev pub is_nil {ℓ} : {A : Type ℓ} → List A → Bool
is_nil [] = true
is_nil (_ ∷ _) = false

module _ (b : Builtins) where
  -- `str(item.get("id") or "")`
  abbrev pub id_of : Json → String
  id_of (obj fs) = text_of b (λ s. s) (value_of "id" fs)
  id_of _ = ""

  unfoldable pub signature : List Json → List String
  unfolding text_of
  signature [] = []
  signature (j ∷ js) = id_of j ∷ signature js

  -- `_cursor`
  unfoldable pub cursor_of : Fields → Option String
  unfolding py_str
  cursor_of meta = elim (value_of "cursor" meta) [
    | null ↦ none
    | str s ↦ if is_empty s then none else some s
    | j ↦ some (py_str b.repr j)
  ]

  -- `except (TypeError, ValueError)`
  abbrev pub is_number_error : Exc → Bool
  is_number_error (builtin value_error _) = true
  is_number_error (builtin type_error _) = true
  is_number_error _ = false

  -- `total_pages`, of a value that may be missing.
  unfoldable pub total_pages : Json → Read (Option ℕ)
  unfolding py_int
  total_pages null = got none
  total_pages j = elim (py_int b j) [
    | ok (pos n) ↦ got (some n)
    | ok (negsuc n) ↦ incomplete "invalid totalPages"
    | err e ↦ if is_number_error e then incomplete "invalid totalPages" else failed (raised e)
  ]

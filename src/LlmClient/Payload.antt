-- ===== src/LlmClient/Payload.antt =====
-- Reading the generated text out of a provider's response, in services/llm_client.py. `repr` is
-- Python's `str()` of a value that is no text.
use inference_control_plane.Prelude.{String, Option, none, some, if◌then◌else◌}
use inference_control_plane.Python.{Result, ok, err, builtin, key_error, llm_client_error, ◌>>=◌}
use inference_control_plane.Python.Json.{
  Json, str, arr, obj, nil, cons, end, entry, truthy, get_or, not_subscriptable,
}

module _ (repr : Json → String) where
  -- `str(value)`
  unfoldable pub py_str : Json → String
  py_str (str s) = s
  py_str j = repr j

-- `value[0]` of a value that is true
unfoldable pub first : Json → Result Json
first (arr (cons x xs)) = ok x
first (str (String.◌∷◌ c s)) = ok (str (String.◌∷◌ c String.[]))
first (obj fs) = err (builtin key_error "0")
first j = err (not_subscriptable j)

-- `"text" in value`, for a value with a method `get`
abbrev pub entry_of : String → Json → Option Json
entry_of k (obj fs) = entry k fs
entry_of k _ = none

module _ (repr : Json → String) where
  -- The end of `_extract_message_text`: the field `text` of the first choice.
  extract_choice_text : Json → Result String
  extract_choice_text choice = elim (entry_of "text" choice) [
    | some text ↦ ok (py_str repr text)
    | none ↦ err (llm_client_error "Unable to extract generated text from LLM response payload.")
  ]

  unfoldable pub extract_message_text : Json → Result String
  unfolding extract_choice_text py_str first truthy get_or
  extract_message_text payload = do
    choices ← get_or payload "choices" (arr nil)
    if truthy choices
        then (do
          first_choice ← first choices
          message ← get_or first_choice "message" (obj end)
          elim (entry_of "content" message) [
            | some content ↦ ok (py_str repr content)
            | none ↦ extract_choice_text first_choice
          ])
        else err (llm_client_error "LLM response payload had no choices.")

  unfoldable pub extract_anthropic_text : Json → Result String
  unfolding py_str first truthy get_or
  extract_anthropic_text payload = do
    content ← get_or payload "content" (arr nil)
    if truthy content
        then (do
          first_block ← first content
          elim (entry_of "text" first_block) [
            | some text ↦ ok (py_str repr text)
            | none ↦
                err (llm_client_error "Unable to extract generated text from Anthropic payload.")
          ])
        else err (llm_client_error "Anthropic response payload had no content.")

-- ===== src/Settings/Validators.antt =====
-- The validators of `Settings` in core/config.py, and the address that db/session.py connects to.
pub mod Effects
use Prim.Native.String as String
use inference_control_plane.Prelude.{
  ℕ, String, Bool, true, false, not, Option, none, some, List, [], ◌∷◌, ◌==◌, ◌≡◌, ◌⊎◌, inl, inr,
  refl, is_empty, strip, contains, map, ◌&&◌, ◌||◌, if◌then◌else◌,
}
use inference_control_plane.Python.{Result, ok, err, builtin, value_error}
use inference_control_plane.Settings.{LlmMode, simulated, openai_compatible, multi_provider}

-- `s[len(p):]` where `s` starts with `p`.
unfoldable pub strip_prefix : String → String → Option String
strip_prefix String.[] s = some s
strip_prefix (String.◌∷◌ c p) String.[] = none
strip_prefix (String.◌∷◌ c p) (String.◌∷◌ d s) =
    let rest = strip_prefix p s in
    if String.◌∷◌ c String.[] == String.◌∷◌ d String.[] then rest else none

-- `p + s`
unfoldable pub prepend : String → String → String
prepend String.[] s = s
prepend (String.◌∷◌ c p) s = String.◌∷◌ c (prepend p s)

abbrev pub async_scheme : String
async_scheme = "postgresql+asyncpg://"

-- `url.replace(scheme, "postgresql+asyncpg://", 1)` of a url that starts with the scheme, for the two
-- schemes. A url of the asynchronous scheme starts with neither.
abbrev pub chosen : String → Option String → Option String → String
chosen url (some rest) _ = prepend async_scheme rest
chosen url none (some rest) = prepend async_scheme rest
chosen url none none = url

unfoldable pub with_driver : String → String
unfolding strip_prefix prepend
with_driver url = chosen url (strip_prefix "postgres://" url) (strip_prefix "postgresql://" url)

-- `parse_database_url`
abbrev pub parse_database_url : Option String → Option String
parse_database_url none = none
parse_database_url (some value) = if is_empty value then some value else some (with_driver value)

-- `db_url` of `init_engine`
abbrev pub engine_url : String → String
engine_url database_url = with_driver database_url

-- `value.split(",")`
abbrev pub push : String → List String → List String
push c [] = c ∷ []
push c (w ∷ ws) = prepend c w ∷ ws

unfoldable pub split_commas : String → List String
split_commas String.[] = "" ∷ []
split_commas (String.◌∷◌ c s) =
    let rest = split_commas s in
    let one = String.◌∷◌ c String.[] in if one == "," then "" ∷ rest else push one rest

-- `[item.strip() for item in value if item.strip()]`
unfoldable pub stripped_items : List String → List String
unfolding strip
stripped_items [] = []
stripped_items (item ∷ rest) =
    let items = stripped_items rest in if is_empty (strip item) then items else strip item ∷ items

-- A value of a list field: a list, a text or something else.
pub data Listed : Type 0 where
  listed : List String → Listed
  text : String → Listed
  neither : Listed

-- `parse_llm_provider_order` and `parse_cors_allowed_origins`, which differ in their default.
unfoldable pub parse_list : List String → Listed → List String
unfolding stripped_items split_commas
parse_list default (listed items) = stripped_items items
parse_list default (text value) = stripped_items (split_commas value)
parse_list default neither = default

-- The fields that the last validator reads.
pub record Runtime : Type 0 where
  pub database_url : String
  pub redis_url : String
  pub llm_mode : LlmMode
  pub llm_provider_order : List String
  pub llm_api_key : Option String
  pub anthropic_api_key : Option String
  pub azure_openai_base_url : Option String
  pub azure_openai_api_key : Option String
  pub azure_openai_deployment : Option String
  pub environment : String
  pub cors_allowed_origins : List String

-- `not value` of an optional text.
abbrev pub lacks : Option String → Bool
lacks none = true
lacks (some s) = is_empty s

abbrev pub is_nil : List String → Bool
is_nil [] = true
is_nil (_ ∷ _) = false

-- A check that raises a `ValueError`, before the rest.
unfoldable pub refuse_if : Bool → String → Result (Unit {0}) → Result (Unit {0})
refuse_if true message rest = err (builtin value_error message)
refuse_if false message rest = rest

module _ (lower : String → String) (s : Runtime) where
  abbrev pub providers : List String
  providers = map lower s.llm_provider_order

  -- The checks of the mode `openai-compatible`.
  unfoldable pub check_providers : Result (Unit {0}) → Result (Unit {0})
  check_providers rest =
      refuse_if (is_nil s.llm_provider_order)
        "LLM_PROVIDER_ORDER must include at least one provider."
        (refuse_if (contains providers "openai" && lacks s.llm_api_key)
          "LLM_API_KEY is required when using the openai provider."
          (refuse_if (contains providers "anthropic" && lacks s.anthropic_api_key)
            "ANTHROPIC_API_KEY is required when using the anthropic provider."
            (refuse_if
              (contains providers "azure"
                && (lacks s.azure_openai_base_url || lacks s.azure_openai_api_key))
              "AZURE_OPENAI_BASE_URL and AZURE_OPENAI_API_KEY are required."
              (refuse_if (contains providers "azure" && lacks s.azure_openai_deployment)
                "AZURE_OPENAI_DEPLOYMENT is required when using azure provider." rest))))

  abbrev pub check_mode : LlmMode → Result (Unit {0}) → Result (Unit {0})
  check_mode openai_compatible rest = check_providers rest
  check_mode _ rest = rest

  -- `validate_runtime_security`
  unfoldable pub validate_runtime_security : Result (Unit {0})
  validate_runtime_security = refuse_if (is_empty s.database_url) "DATABASE_URL is required." (
      refuse_if (is_empty s.redis_url) "REDIS_URL is required." (
        check_mode s.llm_mode (
          refuse_if (lower s.environment == "production" && contains s.cors_allowed_origins "*")
            "CORS_ALLOWED_ORIGINS cannot include '*' in production" (ok tt))))

-- ===== src/Sli/Normalize.antt =====
-- normalize.py: the projection of an observation onto the governed dimensions.
pub mod Vocabulary
use inference_control_plane.Prelude.{
  String, Bool, true, false, not, Option, none, some, List, [], ◌∷◌, ◌++◌, ◌==◌, starts_with,
  includes, strip, is_empty, ◌&&◌, ◌||◌, if◌then◌else◌,
}
use inference_control_plane.Prelude.Dict.{Dict, lookup, insert, or_default}
use inference_control_plane.Sli.Models.{Observation, is_error}
use inference_control_plane.Sli.Governance.{Config, other, unknown, unattributed}

-- `str.lower`, and `re.match` of a pattern; `matches_i` ignores the case.
pub record Texts : Type 0 where
  pub lower : String → String
  pub matches : String → String → Bool
  pub matches_i : String → String → Bool

-- `_MODEL_RULES`
abbrev pub model_rules : Dict String
model_rules =
    ("^claude-sonnet", "claude-sonnet")
    ∷ ("^claude-haiku", "claude-haiku")
    ∷ ("^claude-opus", "claude-opus")
    ∷ ("^gpt-5(\\.|-).*mini", "gpt-5-mini")
    ∷ ("^gpt-5", "gpt-5")
    ∷ ("^gpt-4o", "gpt-4o")
    ∷ []

-- The loop over the rules, which passes over those of two families.
unfoldable pub rules : Texts → String → Dict String → String
rules x provided_model [] = other
rules x provided_model ((rx, name) ∷ rs) =
    let rest = rules x provided_model rs in
    if name == "gpt-5" || name == "gpt-5-mini"
    then rest
    else if x.matches_i rx provided_model
    then name
    else rest

-- What follows the test for a Claude model.
unfoldable pub gpt_family : Texts → String → String → String
unfolding rules
gpt_family x value provided_model =
    if x.matches "^gpt-5(?:[.-]\\d+)*(?:[-.].*mini)$" value
    then "gpt-5-mini"
    else if x.matches "^gpt-5(?:[.-]\\d+)*$" value
    then "gpt-5"
    else rules x provided_model model_rules

unfoldable pub model_family : Texts → String → String
unfolding gpt_family includes
model_family x provided_model =
    let value = x.lower provided_model in
    if not (includes "claude" value)
    then gpt_family x value provided_model
    else if includes "sonnet" value
    then "claude-sonnet"
    else if includes "haiku" value
    then "claude-haiku"
    else if includes "opus" value
    then "claude-opus"
    else gpt_family x value provided_model

-- `_ERROR_TYPE_MAP`
abbrev pub error_type_map : Dict String
error_type_map =
    ("throttlingexception", "throttling")
    ∷ ("ratelimiterror", "throttling")
    ∷ ("ratelimitexception", "throttling")
    ∷ ("timeouterror", "timeout")
    ∷ ("timeoutexception", "timeout")
    ∷ ("serviceunavailable", "provider_error")
    ∷ ("serviceunavailableexception", "provider_error")
    ∷ ("internalservererror", "provider_error")
    ∷ ("modelerrorexception", "provider_error")
    ∷ ("authenticationerror", "auth")
    ∷ ("accessdeniedexception", "auth")
    ∷ ("badrequesterror", "invalid_request")
    ∷ ("validationexception", "invalid_request")
    ∷ ("contentpolicyviolation", "content_filter")
    ∷ []

-- The category of an error that is marked by a type, or not marked.
unfoldable pub category_of : Texts → Option String → String
unfolding lookup
category_of x none = unknown
category_of x (some etype) =
    if is_empty etype then unknown else or_default unknown (lookup (x.lower etype) error_type_map)

unfoldable pub error_category : Texts → Observation → Option String
unfolding category_of
error_category x obs = if not (is_error obs) then none else some (category_of x obs.error)

-- `_ENV_MAP`
abbrev pub env_map : Dict String
env_map =
    ("production", "prod")
    ∷ ("prod", "prod")
    ∷ ("staging", "staging")
    ∷ ("stage", "staging")
    ∷ ("dev", "dev")
    ∷ ("development", "dev")
    ∷ []

unfoldable pub env : Texts → Observation → String
unfolding lookup
env x obs = or_default other (lookup (x.lower obs.env_raw) env_map)

-- `{t.lower(): t for t in values}`, after the entries of `d`.
unfoldable pub canonical : Texts → Dict String → List String → Dict String
unfolding insert
canonical x d [] = d
canonical x d (t ∷ ts) = canonical x (insert (x.lower t) t d) ts

unfoldable pub team : Texts → Observation → Config → String
unfolding canonical lookup
team x obs cfg =
    let raw = strip obs.team in
    if is_empty raw
    then unattributed
    else or_default other (lookup (x.lower raw) (canonical x [] cfg.known_teams))

unfoldable pub route : Texts → Observation → Config → String
unfolding canonical lookup
route x obs cfg =
    let r = strip obs.route in
    if not (x.matches_i "^[a-z0-9][a-z0-9._-]{0,63}$" r)
    then other
    else or_default other (lookup (x.lower r) (canonical x [] cfg.known_routes))

-- `_PROVIDER_MAP`
abbrev pub provider_map : Dict String
provider_map =
    ("eu.anthropic", "bedrock_eu")
    ∷ ("us.anthropic", "bedrock_us")
    ∷ ("external", "external_zdr")
    ∷ []

-- The loop over the prefixes.
unfoldable pub first_prefix : String → Dict String → String
first_prefix im [] = other
first_prefix im ((prefix, value) ∷ rs) =
    let rest = first_prefix im rs in if starts_with im prefix then value else rest

unfoldable pub provider_region : Observation → String
unfolding first_prefix
provider_region obs = first_prefix obs.internal_model provider_map

-- A dimension is reported if a text that is not blank was folded.
abbrev pub folded : String → String → String → List String
folded name raw value = if not (is_empty (strip raw)) && value == other then name ∷ [] else []

unfoldable pub folded_dimensions : Texts → Observation → Config → List String
unfolding team route model_family env provider_region
folded_dimensions x obs cfg =
    folded "team" obs.team (team x obs cfg)
    ++ folded "route" obs.route (route x obs cfg)
    ++ folded "model_family" obs.provided_model (model_family x obs.provided_model)
    ++ folded "env" obs.env_raw (env x obs)
    ++ folded "provider_region" obs.internal_model (provider_region obs)

pub record PrimaryDims : Type 0 where
  pub team_dim : String
  pub route_dim : String
  pub model_family_dim : String
  pub env_dim : String

-- `==` of two frozen dataclasses.
abbrev pub same_dims : PrimaryDims → PrimaryDims → Bool
same_dims a b =
    a.team_dim == b.team_dim
    && a.route_dim == b.route_dim
    && a.model_family_dim == b.model_family_dim
    && a.env_dim == b.env_dim

unfoldable pub as_dict : PrimaryDims → Dict String
as_dict d =
    ("team", d.team_dim)
    ∷ ("route", d.route_dim)
    ∷ ("model_family", d.model_family_dim)
    ∷ ("env", d.env_dim)
    ∷ []

unfoldable pub primary_dims : Texts → Observation → Config → PrimaryDims
unfolding team route model_family env
primary_dims x obs cfg = record {
  team_dim = team x obs cfg;
  route_dim = route x obs cfg;
  model_family_dim = model_family x obs.provided_model;
  env_dim = env x obs;
}

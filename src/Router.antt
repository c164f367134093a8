-- ===== src/Router.antt =====
-- services/router.py
pub mod Routing
use inference_control_plane.Prelude.{
  ℕ, ◌+◌, ◌/◌, max, String, Bool, true, false, Option, none, some, ltb, len, strip, is_empty, ◌||◌,
  if◌then◌else◌,
}
use inference_control_plane.Schemas.{Priority, low, high, GenerateRequest}
use inference_control_plane.Settings.{Settings}

pub record RouteDecision : Type 0 where
  pub model_tier : String
  pub estimated_tokens : ℕ
  pub model_override : Option String
  pub provider_override : Option String

-- `math.ceil(len(text) / 4)` on integers: a length is far below the range where the quotient of
-- floats is inexact.
unfoldable pub estimate_tokens : String → ℕ
unfolding len
estimate_tokens text = max 1 ((len text + 3) / 4)

abbrev pub is_high : Priority → Bool
is_high low = false
is_high high = true

-- `value.strip() if value else None`
abbrev pub stripped : Option String → Option String
stripped none = none
stripped (some s) = if is_empty s then none else some (strip s)

unfoldable pub choose_model : GenerateRequest → Settings → RouteDecision
unfolding estimate_tokens
choose_model request settings =
    let tokens = estimate_tokens request.prompt in
    elim (stripped request.model_override) [
      | some model ↦ record {
        model_tier = "override";
        estimated_tokens = tokens;
        model_override = some model;
        provider_override = stripped request.provider_override;
      }
      | none ↦ record {
        model_tier =
            if is_high request.priority || ltb settings.router_token_threshold tokens
            then "premium"
            else "cheap";
        estimated_tokens = tokens;
        model_override = none;
        provider_override = stripped request.provider_override;
      }
    ]

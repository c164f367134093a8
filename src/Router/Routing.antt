-- ===== src/Router/Routing.antt =====
-- How services/router.py chooses a tier.
use inference_control_plane.Prelude.{
  ◌+◌, ◌*◌, ◌≤◌, String, some, none, ◌≡◌, ◌⊎◌, inl, inr, arith, len, Option-cases, ltb, ◌||◌,
  if◌then◌else◌,
}
use inference_control_plane.Schemas.{GenerateRequest}
use inference_control_plane.Settings.{Settings}
use inference_control_plane.Router.{estimate_tokens, choose_model, stripped, is_high}

-- The estimate is at least 1, and four times it is at least the length of the text and at most
-- four more.
pub estimate_tokens_bounds :
    (text : String)
    → (1 ≤ estimate_tokens text)
      × (len text ≤ 4 * estimate_tokens text)
      × (4 * estimate_tokens text ≤ len text + 4)
unfolding estimate_tokens
estimate_tokens_bounds text = omega arith

-- For a prompt that is not empty: without an override the tier is premium for a high priority or a
-- prompt of more than four times the threshold in characters, cheap otherwise, and there is no model
-- override; with one, which is not empty, the tier is `override` and the model is the override,
-- stripped. The provider is that of the request, stripped, in each case.
pub choose_model_lem :
    (r : GenerateRequest) (s : Settings)
    → 1 ≤ len r.prompt
    → ((stripped r.model_override ≡ none)
          × ((choose_model r s).model_override ≡ none)
          × ((choose_model r s).model_tier ≡ (
              if is_high r.priority || ltb (4 * s.router_token_threshold) (len r.prompt)
              then "premium"
              else "cheap"))
        ⊎ (model : String) × (stripped r.model_override ≡ some model)
          × ((choose_model r s).model_tier ≡ "override")
          × ((choose_model r s).model_override ≡ some model))
      × ((choose_model r s).provider_override ≡ stripped r.provider_override)
unfolding choose_model
choose_model_lem r s full = elim (Option-cases (stripped r.model_override)) [
  | inl e ↦ (inl (e, cc, ground (arith, e, estimate_tokens_bounds r.prompt)), cc)
  | inr (model, e) ↦ (inr (model, e, cc, cc), cc)
]

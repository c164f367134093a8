-- ===== src/Settings.antt =====
-- The fields of `Settings` in core/config.py that the modelled code reads.
pub mod Validators
use inference_control_plane.Prelude.{ℕ, String, Option}
use inference_control_plane.Prelude.Int.{ℤ}
use inference_control_plane.Python.{Float}

pub data LlmMode : Type 0 where
  simulated openai_compatible multi_provider : LlmMode

pub record Settings : Type 0 where
  pub cache_ttl_seconds : ℕ
  pub rate_limit_window_seconds : ℕ
  pub user_rate_limit_per_minute : ℤ
  pub cheap_model_name : String
  pub premium_model_name : String
  pub router_token_threshold : ℕ
  pub cheap_model_cost_per_1k_tokens : Float
  pub premium_model_cost_per_1k_tokens : Float
  pub llm_mode : LlmMode
  pub openrouter_api_key : Option String
  pub openrouter_base_url : String
  pub openrouter_cheap_model : String
  pub anthropic_base_url : String
  pub anthropic_api_key : Option String
  pub anthropic_version : String
  pub azure_openai_base_url : Option String
  pub azure_openai_api_key : Option String
  pub azure_openai_deployment : Option String
  pub azure_openai_api_version : String
  pub llm_max_retries : ℕ
  pub llm_max_output_tokens : ℕ
  pub auth_cache_ttl_seconds : ℕ

-- ===== src/Tests/Configured.antt =====
-- Settings and their validators.
use inference_control_plane.Prelude.{String, none, some, [], ◌∷◌}
use inference_control_plane.Settings.{openai_compatible}
use inference_control_plane.Settings.Validators.{Runtime, validate_runtime_security}
use inference_control_plane.Settings.Validators.Effects.{
  Passes, IsSecure, validate_runtime_security-IsSecure,
}

abbrev runtime : Runtime
runtime = record {
  database_url = "postgresql+asyncpg://host/db";
  redis_url = "redis://host";
  llm_mode = openai_compatible;
  llm_provider_order = "openai" ∷ [];
  llm_api_key = some "key";
  anthropic_api_key = none;
  azure_openai_base_url = none;
  azure_openai_api_key = none;
  azure_openai_deployment = none;
  environment = "production";
  cors_allowed_origins = "https://host" ∷ [];
}

abbrev same : String → String
same s = s

validate_runtime_security-IsSecure_example :
    Passes (IsSecure same runtime) (validate_runtime_security same runtime)
validate_runtime_security-IsSecure_example = validate_runtime_security-IsSecure same runtime

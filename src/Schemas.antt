-- ===== src/Schemas.antt =====
-- The request and the response of schemas/generate.py, and the rows of models/*.py. A time is in
-- microseconds.
use inference_control_plane.Prelude.{ℕ, String, Bool, Option}
use inference_control_plane.Prelude.Int.{ℤ}
use inference_control_plane.Python.{Float}
use inference_control_plane.Python.Json.{Json}

pub data Priority : Type 0 where
  low high : Priority

pub record GenerateRequest : Type 0 where
  pub prompt : String
  pub user_id : String
  pub priority : Priority
  pub model_override : Option String
  pub provider_override : Option String
  pub provider_api_key : Option String

pub record GenerateResponse : Type 0 where
  pub request_id : String
  pub model_used : String
  pub response : String
  pub cached : Bool
  pub latency_ms : Float
  pub tokens : ℤ
  pub cost : Float
  pub timestamp : ℕ

-- `APIKey`
pub record ApiKey : Type 0 where
  pub id : String
  pub key_hash : String
  pub name : String
  pub tenant_id : String
  pub rate_limit_per_minute : ℤ
  pub role : String
  pub is_active : Bool
  pub created_at : ℕ

-- `RequestLog`, without the columns that the database fills in. `tenant_id` is what the
-- authentication gave, which may come from decoded JSON.
pub record RequestLog : Type 0 where
  pub tenant_id : Json
  pub user_id : String
  pub api_key_hash : String
  pub prompt : String
  pub response : String
  pub model_used : String
  pub latency_ms : Float
  pub tokens : ℤ
  pub cost : Float
  pub cache_hit : Bool
  pub status : String
  pub error_message : Option String

-- ===== src/Tests/Fixtures.antt =====
-- Stand-ins for the code that the program calls: numbers as floats, a codec that keeps values, a
-- server in memory, and a provider that fails twice by a timeout.
use inference_control_plane.Prelude.{
  ℕ, zero, suc, ◌+◌, ◌-◌, ◌*◌, ◌/◌, refl, String, Bool, true, false, none, some, [], ltb, leb,
  if◌then◌else◌,
}
use inference_control_plane.Prelude.Int.{pos}
use inference_control_plane.Python.{
  Float, of_bits, FloatOps, Exc, builtin, value_error, timeout_exception, ok, err,
}
use inference_control_plane.Python.Exec.{Exec}
use inference_control_plane.Python.Json.{Json, str, arr, nil, cons, obj, field, end}
use inference_control_plane.Python.Builtins.{Builtins, JsonCodec, IsLossless}
use inference_control_plane.Redis.{Redis}
use inference_control_plane.Redis.Memory.{memory, empty}
use inference_control_plane.Settings.{Settings, LlmMode, multi_provider}
use inference_control_plane.Schemas.{GenerateRequest, low, ApiKey}
use inference_control_plane.Auth.{AuthContext}
use inference_control_plane.Metrics.{Metrics}
use inference_control_plane.LlmClient.Transport.{Transport, World, Retryer, attempted, IsTenacity}
use inference_control_plane.Inference.State.{App, Readings}

abbrev pub bits : Float → ℕ
bits (of_bits n) = n

abbrev pub floats : FloatOps
floats = record {
  of_nat = of_bits;
  add = λ x y. of_bits (bits x + bits y);
  sub = λ x y. of_bits (bits x - bits y);
  mul = λ x y. of_bits (bits x * bits y);
  div = λ x y. of_bits (bits x / bits y);
  true_div = λ m n. some (of_bits (m / n));
  lt = λ x y. ltb (bits x) (bits y);
  le = λ x y. leb (bits x) (bits y);
  round = λ x n. x;
  is_finite = λ x. true;
  is_integer = λ x. true;
  truncate = bits;
}

abbrev pub builtins : Builtins
builtins = record {
  repr = λ j. "value";
  int_of = λ j. err (builtin value_error "int");
  float_of = λ j. err (builtin value_error "float");
  sha256 = λ s. s;
  sha1 = λ s. s;
  re_sub = λ pattern replacement s. s;
  floats = floats;
}

abbrev pub codec : JsonCodec
codec = record { Text = Json; dumps = λ j. j; loads = ok; is_blank = λ j. false }

abbrev pub codec-IsLossless : IsLossless codec
codec-IsLossless = record { loads-dumps = λ j. refl; dumps-full = λ j. refl }

abbrev pub server : Redis Json
server = memory Json

-- `{"choices": [{"text": "hello"}]}`
abbrev pub reply : Json
reply = obj (field "choices" (arr (cons (obj (field "text" (str "hello") end)) nil)) end)

abbrev pub provider : Transport
provider = record {
  State = ℕ;
  exchange = λ request n. (if ltb n 2 then err (timeout_exception "slow") else ok reply, n + 1);
}

abbrev pub run : {W : Type 0} → (Exc → Bool) → ℕ → Exec W String → Exec W String
run p zero f w = f w
run p (suc n) f w = attempted p n (run p n f) (f w)

abbrev pub tenacity : Retryer (World provider)
tenacity = record { run = run }

abbrev pub tenacity-IsTenacity : IsTenacity tenacity
tenacity-IsTenacity = record { run-suc = λ p n f w. refl }

abbrev pub world : World provider
world = record { client = true; breakers = []; net = 0 }

abbrev pub settings_in : LlmMode → Settings
settings_in mode = record {
  cache_ttl_seconds = 300;
  rate_limit_window_seconds = 60;
  user_rate_limit_per_minute = pos 120;
  cheap_model_name = "cheap";
  premium_model_name = "premium";
  router_token_threshold = 10;
  cheap_model_cost_per_1k_tokens = of_bits 1;
  premium_model_cost_per_1k_tokens = of_bits 2;
  llm_mode = mode;
  openrouter_api_key = some "key";
  openrouter_base_url = "https://openrouter.ai/api/v1";
  openrouter_cheap_model = "model";
  anthropic_base_url = "https://api.anthropic.com";
  anthropic_api_key = some "key";
  anthropic_version = "2023-06-01";
  azure_openai_base_url = some "https://azure";
  azure_openai_api_key = some "key";
  azure_openai_deployment = some "deployment";
  azure_openai_api_version = "2024";
  llm_max_retries = 2;
  llm_max_output_tokens = 100;
  auth_cache_ttl_seconds = 60;
}

abbrev pub settings : Settings
settings = settings_in multi_provider

abbrev pub request : GenerateRequest
request = record {
  prompt = "hi";
  user_id = "u";
  priority = low;
  model_override = none;
  provider_override = none;
  provider_api_key = none;
}

abbrev pub auth : AuthContext
auth = record {
  tenant_id = str "t";
  api_key_hash = "h";
  rate_limit_per_minute = pos 1;
  role = str "tenant";
}

abbrev pub key_record : ApiKey
key_record = record {
  id = "1";
  key_hash = "secret";
  name = "n";
  tenant_id = "t";
  rate_limit_per_minute = pos 5;
  role = "tenant";
  is_active = true;
  created_at = 0;
}

abbrev pub readings : Readings
readings = record {
  key_check = 0;
  user_check = 0;
  breaker_asked = 100;
  breaker_failed = 200;
  latency_ms = of_bits 7;
  timestamp = 1;
  request_id = "id";
}

abbrev pub metrics : Metrics
metrics = record {
  cache_hits = 0;
  cache_misses = 0;
  cache_hit_ratio = of_bits 0;
  request_count = [];
  latency_histogram = [];
  model_usage_count = [];
  rate_limit_rejections = [];
  model_cost_usd_total = [];
}

abbrev pub app : App server.State provider
app = record {
  redis = empty Json;
  llm = world;
  metrics = metrics;
  tasks = [];
  session_factory = true;
}

-- ===== src/Inference/State.antt =====
-- The state and the helpers of services/inference.py.
use inference_control_plane.Prelude.{
  ℕ, String, Bool, Option, none, some, List, [], ◌∷◌, ◌++◌, ◌==◌, if◌then◌else◌,
}
use inference_control_plane.Prelude.Int.{ℤ, pos, pos_part, max_ℤ}
use inference_control_plane.Python.{Float, builtin, runtime_error, ok, err}
use inference_control_plane.Python.Exec.{Exec, catch}
use inference_control_plane.Python.Builtins.{Builtins, max_float}
use inference_control_plane.Settings.{Settings}
use inference_control_plane.Schemas.{RequestLog}
use inference_control_plane.Cache.{CachedResponse}
use inference_control_plane.Metrics.{Metrics}
use inference_control_plane.LlmClient.Transport.{Transport, World}

-- The tasks that a request leaves for after its response: a row to write, and a response to cache
-- under a prompt and a model key.
pub data Task : Type 0 where
  persist_request_log : RequestLog → Task
  cache_response : String → String → CachedResponse → ℕ → Task

-- Redis, the LLM client, the metrics, the background tasks of the request, and whether
-- `_session_factory` of db/session.py is set.
pub record App (Redis : Type 0) (T : Transport) : Type 0 where
  pub redis : Redis
  pub llm : World T
  pub metrics : Metrics
  pub tasks : List Task
  pub session_factory : Bool

-- What the request reads from the clocks and from `uuid4`: the seconds of the two rate-limit
-- checks, the times of the breaker's question and of its failure, the measured latency, the
-- response's timestamp and its identifier.
pub record Readings : Type 0 where
  pub key_check : ℕ
  pub user_check : ℕ
  pub breaker_asked : ℕ
  pub breaker_failed : ℕ
  pub latency_ms : Float
  pub timestamp : ℕ
  pub request_id : String

abbrev pub email_pattern : String
email_pattern = "[a-zA-Z0-9._%+-]+@[a-zA-Z0-9.-]+\\.[a-zA-Z]{2,}"

abbrev pub phone_pattern : String
phone_pattern = "\\b(?:\\+\\d{1,2}\\s)?\\(?\\d{3}\\)?[\\s.-]?\\d{3}[\\s.-]?\\d{4}\\b"

-- `redact_pii`
unfoldable pub redact_pii : Builtins → String → String
redact_pii b text =
    b.re_sub phone_pattern "[REDACTED_PHONE]" (b.re_sub email_pattern "[REDACTED_EMAIL]" text)

-- `_estimate_cost`
unfoldable pub estimate_cost : Builtins → String → ℤ → Settings → Float
estimate_cost b model tokens settings =
    let f = b.floats in
    f.mul (f.div (f.of_nat (pos_part tokens)) (f.of_nat 1000)) (
      if model == settings.cheap_model_name
      then settings.cheap_model_cost_per_1k_tokens
      else settings.premium_model_cost_per_1k_tokens)

-- `_fallback_model`
unfoldable pub fallback_model : String → Settings → Option String
fallback_model model settings =
    if model == settings.cheap_model_name
    then some settings.premium_model_name
    else if model == settings.premium_model_name
    then some settings.cheap_model_name
    else none

-- The row that `_persist_request_log` adds, from the arguments of the task.
unfoldable pub row_of : Builtins → RequestLog → RequestLog
unfolding max_float
row_of b e = record e {
  latency_ms = max_float b.floats e.latency_ms (b.floats.of_nat 0);
  tokens = max_ℤ e.tokens (pos 0);
  cost = max_float b.floats e.cost (b.floats.of_nat 0);
}

-- `_persist_request_log`: `commit` adds and commits a row; a failure is rolled back and logged.
unfoldable pub persist :
    {Db : Type 0} → Builtins → (RequestLog → Exec Db (Unit {0})) → RequestLog → Db → Db
unfolding row_of
persist b commit e db = (catch (commit (row_of b e) db) (λ _ _. (ok tt, db))).1

module _ {Redis : Type 0} {T : Transport} where
  abbrev pub add_task : Task → App Redis T → App Redis T
  add_task t app = record app { tasks = app.tasks ++ t ∷ [] }

  abbrev pub count_in : (Metrics → Metrics) → App Redis T → App Redis T
  count_in f app = record app { metrics = f app.metrics }

  -- `_queue_request_log`, with `get_session_factory` of db/session.py. The row is a background task of
  -- the request. The framework runs the tasks after a response that is returned; it drops those of an
  -- endpoint that raises, and a task may fail when it writes the row.
  unfoldable pub queue_request_log : RequestLog → Exec (App Redis T) (Unit {0})
  queue_request_log e app =
      if app.session_factory
      then (ok tt, add_task (persist_request_log e) app)
      else (err (builtin runtime_error "Session factory has not been initialized."), app)

-- ===== src/Sli/Emit/OtlpHttp.antt =====
-- `OtlpHttpExporter` of emit/otlp_http.py, over an injected transport and sleep.
pub mod Delivery
use inference_control_plane.Prelude.{
  ℕ, zero, suc, ◌+◌, ◌^◌, String, Bool, true, false, not, Option, none, some, List, [], ◌∷◌, ◌++◌,
  ◌<>◌, ◌==◌, ◌&&◌, ◌||◌, eqb, ltb, leb, if◌then◌else◌, rstrip_slash,
}
use inference_control_plane.Prelude.Dict.{Dict, insert}
use inference_control_plane.Python.{
  Float, FloatOps, Exc, builtin, value_error, Result, ok, err, ◌>>=◌,
}
use inference_control_plane.Python.Json.{Json}
use inference_control_plane.Sli.Histogram.{MetricPoint}
use inference_control_plane.Sli.Emit.{Reprs, assert_allowed}
use inference_control_plane.Sli.Emit.Otel.{Serializer, build_payload}
use inference_control_plane.Sli.Pipeline.Finish.{Exporter}

-- `OtlpExportError`, and what other code raises.
pub data ExportError : Type 0 where
  otlp_export_error : ℕ → String → ExportError
  raised : Exc → ExportError

pub data Exported : Type 0 where
  done : Json → Exported
  failed : ExportError → Exported

-- The transport gives the status and the text of the collector's answer. `dumps` may refuse a value
-- that is no JSON, as `allow_nan` is false, and `type_name` is `type(exc).__name__`.
pub record Collector : Type 1 where
  pub World : Type 0
  pub transport : String → String → Dict String → World → Result (ℕ × String) × World
  pub sleep : Float → World → World
  pub dumps : Json → Result String
  pub type_name : Exc → String

-- What `__init__` keeps of its arguments. `endpoint` is the stripped one.
pub record Client : Type 0 where
  pub endpoint : String
  pub headers : Dict String
  pub max_retries : ℕ
  pub backoff_base : Float
  pub serializer : Serializer

-- `{"Content-Type": "application/json", **headers}`
abbrev pub merged : Dict String → Dict String → Dict String
merged d [] = d
merged d ((k, v) ∷ hs) = merged (insert k v d) hs

-- `__init__`, with the default of the retries.
unfoldable pub client_for : Float → String → Dict String → Serializer → Client
unfolding rstrip_slash insert
client_for backoff endpoint headers serializer = record {
  endpoint = rstrip_slash endpoint;
  headers = merged (("Content-Type", "application/json") ∷ []) headers;
  max_retries = 3;
  backoff_base = backoff;
  serializer = serializer;
}

-- `200 <= status < 300`
abbrev pub is_accepted : ℕ → Bool
is_accepted status = leb 200 status && ltb status 300

-- `status in {429, 500, 502, 503, 504, 599}`
abbrev pub is_retried : ℕ → Bool
is_retried status =
    eqb status 429
    || eqb status 500
    || eqb status 502
    || eqb status 503
    || eqb status 504
    || eqb status 599

module _ (C : Collector) (f : FloatOps) (c : Client) where
  -- `metrics_url`
  abbrev pub metrics_url : String
  metrics_url = c.endpoint <> "/v1/metrics"

  abbrev pub post : String → C.World → Result (ℕ × String) × C.World
  post body = C.transport metrics_url body c.headers

  abbrev pub wait : ℕ → C.World → C.World
  wait attempt = C.sleep (f.mul c.backoff_base (f.of_nat (2 ^ attempt)))

  -- What the loop does after an answer, with the next round.
  unfoldable pub after_answer :
      Json
      → ℕ
      → Result (ℕ × String)
      → C.World
      → (ℕ × String → C.World → Exported × C.World)
      → Exported × C.World
  after_answer payload attempt (err e) w again = (failed (raised e), w)
  after_answer payload attempt (ok (status, text)) w again =
      if is_accepted status
      then (done payload, w)
      else if not (is_retried status) || leb c.max_retries attempt
      then (failed (otlp_export_error status text), w)
      else again (status, text) (wait attempt w)

  -- The loop of `export`, with the rounds that are left and the last answer.
  unfoldable pub rounds : Json → String → ℕ → ℕ → ℕ × String → C.World → Exported × C.World
  unfolding after_answer
  rounds payload body zero attempt (status, text) w = (failed (otlp_export_error status text), w)
  rounds payload body (suc left) attempt last w =
      let (answer, w') = post body w in
      after_answer payload attempt answer w'
        (λ last' w''. rounds payload body left (attempt + 1) last' w'')

  -- What precedes the loop: the checks, the document and its text.
  unfoldable pub prepared : Reprs → List MetricPoint → Result (Json × String)
  unfolding build_payload assert_allowed
  prepared q points = do
    _ ← assert_allowed q points
    payload ← build_payload c.serializer q points
    body ← C.dumps payload
    ok (payload, body)

  abbrev pub send : Result (Json × String) → C.World → Exported × C.World
  send (err e) w = (failed (raised e), w)
  send (ok (payload, body)) w =
      rounds payload body (c.max_retries + 1) 0 (599, "transport failure") w

  -- `export`, and `heartbeat` too.
  unfoldable pub export : Reprs → List MetricPoint → C.World → Exported × C.World
  unfolding prepared rounds
  export q points w = send (prepared q points) w

  -- `type(exc).__name__` of what an export raises.
  abbrev pub failure_name : Exported → Option String
  failure_name (done payload) = none
  failure_name (failed (otlp_export_error status text)) = some "OtlpExportError"
  failure_name (failed (raised e)) = some (C.type_name e)

  -- The exporter as `run` sees it.
  abbrev pub exporter : Reprs → Exporter
  exporter q = record {
    State = C.World;
    export = λ points w. let (r, w') = export q points w in (failure_name r, w');
    heartbeat = some (λ points w. let (r, w') = export q points w in (failure_name r, w'));
  }

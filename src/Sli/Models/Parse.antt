-- ===== src/Sli/Models/Parse.antt =====
-- `parse_observation` of models.py.
pub mod Projection
use inference_control_plane.Prelude.{
  ℕ, String, Bool, true, false, not, Option, none, some, List, [], ◌∷◌, ◌==◌, contains, ltb, eqb,
  strip, ◌&&◌, if◌then◌else◌,
}
use inference_control_plane.Prelude.Int.{ℤ, pos, negsuc}
use inference_control_plane.Python.{
  Float, FloatOps, Exc, builtin, value_error, type_error, Result, ok, err, ◌>>=◌,
}
use inference_control_plane.Python.Json.{
  Json, null, bool, int, float, str, arr, obj, Fields, end, truthy, get_or,
}
use inference_control_plane.Python.Builtins.{Builtins, py_float}
use inference_control_plane.LlmClient.Payload.{py_str}
use inference_control_plane.Sli.Times.{Times, parse_ts, is_parse_error, safe}
use inference_control_plane.Sli.Models.{Observation}
use inference_control_plane.Sli.Models.Values.{
  mapping, text_of, total_cost, stream_of, error_of, int_from, or_json,
}

-- An observation, a `MalformedObservation` with its reason, or another exception.
pub data Parsed : Type 0 where
  observed : Observation → Parsed
  malformed : String → Parsed
  crashed : Exc → Parsed

-- `MALFORMED_REASONS`
abbrev pub malformed_reasons : List String
malformed_reasons =
    "unparseable_timestamp" ∷ "missing_timestamp" ∷ "end_before_start" ∷ "missing_observation_id"
    ∷ []

-- The locals of `parse_observation`, and the arguments of its last call.
pub record Parts : Type 0 where
  pub tm : Json
  pub usage : Json
  pub total : Option Float × Bool
  pub stream : Bool
  pub error : Option String

pub record Labels : Type 0 where
  pub obs_id : String
  pub level : String
  pub team : String
  pub route : String
  pub provided_model : String
  pub internal_model : String
  pub env_raw : String

pub record Counts : Type 0 where
  pub first : Option ℕ
  pub input : ℕ
  pub output : ℕ
  pub all : ℕ
  pub cache_read : ℕ

module _ (b : Builtins) (t : Times) (lower : String → String) where
  -- What comes of the nested dicts, the cost, the stream flag and the error.
  unfoldable pub parts_of : Json → Result Parts
  unfolding mapping total_cost stream_of error_of get_or
  parts_of raw = do
    tm ← mapping b lower raw "traceMetadata"
    md ← mapping b lower raw "metadata"
    usage ← mapping b lower raw "usageDetails"
    cost ← mapping b lower raw "costDetails"
    params ← mapping b lower raw "modelParameters"
    raw_total ← get_or cost "total" null
    total ← total_cost b lower raw_total
    stream ← get_or params "stream" (bool false)
    raw_error ← get_or md "error" null
    error ← error_of b lower raw_error
    ok (record {
      tm = tm;
      usage = usage;
      total = total;
      stream = stream_of b lower stream;
      error = error;
    })

  -- The texts of an observation.
  unfoldable pub texts_of : Json → Json → Result Labels
  unfolding text_of get_or py_str
  texts_of raw tm = do
    id ← get_or raw "id" null
    level ← get_or raw "level" (str "DEFAULT")
    team ← get_or tm "team" (str "")
    route ← get_or raw "traceName" (str "")
    provided_model ← get_or raw "providedModelName" (str "")
    internal_model ← get_or raw "internalModelId" (str "")
    tm_env ← get_or tm "env" null
    environment ← get_or raw "environment" null
    ok (record {
      obs_id = text_of b lower id;
      level = py_str b.repr level;
      team = strip (text_of b lower team);
      route = strip (text_of b lower route);
      provided_model = text_of b lower provided_model;
      internal_model = text_of b lower internal_model;
      env_raw = strip (text_of b lower (or_json b lower tm_env environment));
    })

  -- The first token's time, and the counts.
  unfoldable pub counts_of : Json → Json → Result Counts
  unfolding get_or int_from parse_ts
  counts_of raw usage = do
    raw_first ← get_or raw "completionStartTime" null
    first ← safe (parse_ts t raw_first)
    raw_input ← get_or raw "inputUsage" null
    usage_input ← get_or usage "input" null
    input ← int_from b lower (raw_input ∷ usage_input ∷ [])
    raw_output ← get_or raw "outputUsage" null
    usage_output ← get_or usage "output" null
    output ← int_from b lower (raw_output ∷ usage_output ∷ [])
    raw_all ← get_or raw "totalUsage" null
    usage_all ← get_or usage "total" null
    all ← int_from b lower (raw_all ∷ usage_all ∷ [])
    cached ← get_or usage "cache_read_input_tokens" null
    cache_read ← int_from b lower (cached ∷ [])
    ok (record {
      first = first;
      input = input;
      output = output;
      all = all;
      cache_read = cache_read;
    })

  -- What follows the checks of the two times.
  unfoldable pub project : Json → ℕ → ℕ → Result Observation
  unfolding parts_of texts_of counts_of
  project raw start finish = do
    parts ← parts_of raw
    labels ← texts_of raw parts.tm
    counts ← counts_of raw parts.usage
    ok (record {
      obs_id = labels.obs_id;
      level = labels.level;
      team = labels.team;
      route = labels.route;
      provided_model = labels.provided_model;
      internal_model = labels.internal_model;
      env_raw = labels.env_raw;
      stream = parts.stream;
      start = start;
      completion_start = counts.first;
      finish = finish;
      input_tokens = counts.input;
      output_tokens = counts.output;
      total_tokens = counts.all;
      cache_read_tokens = counts.cache_read;
      cost_total = parts.total.0;
      cost_invalid = parts.total.1;
      error = parts.error;
    })

  -- The two times.
  unfoldable pub times_of : Json → Result (Option ℕ × Option ℕ)
  unfolding get_or parse_ts
  times_of raw = do
    raw_start ← get_or raw "startTime" null
    start ← parse_ts t raw_start
    raw_finish ← get_or raw "endTime" null
    finish ← parse_ts t raw_finish
    ok (start, finish)

  abbrev pub finished : Result Observation → Parsed
  finished (ok obs) = observed obs
  finished (err e) = crashed e

  -- What follows the parsing of the two times.
  unfoldable pub checked : Json → Result (Option ℕ × Option ℕ) → Parsed
  unfolding project
  checked raw (err e) = if is_parse_error e then malformed "unparseable_timestamp" else crashed e
  checked raw (ok (some start, some finish)) =
      if ltb finish start then malformed "end_before_start" else finished (project raw start finish)
  checked raw (ok _) = malformed "missing_timestamp"

  unfoldable pub parse_observation : Json → Parsed
  unfolding checked times_of
  parse_observation raw = checked raw (times_of raw)

-- ===== src/Tests/Indicators.antt =====
-- Runs of the pipeline of indicators.
use inference_control_plane.Prelude.{
  ℕ, refl, String, true, false, none, some, List, [], ◌∷◌, strip, ◌==◌, if◌then◌else◌,
}
use inference_control_plane.Python.{of_bits, builtin, value_error, ok, err}
use inference_control_plane.Python.Json.{Json, null, str, obj, field, end}
use inference_control_plane.Sli.Times.{Times}
use inference_control_plane.Sli.Models.{Observation}
use inference_control_plane.Sli.Models.Parse.{parse_observation}
use inference_control_plane.Sli.Models.Parse.Projection.{IsProjected, parse_observation-IsProjected}
use inference_control_plane.Sli.Governance.{Config, by_route, teams, routes}
use inference_control_plane.Sli.Normalize.{Texts}
use inference_control_plane.Sli.Quality.{Random}
use inference_control_plane.Sli.Pipeline.{Window, begin, stream}
use inference_control_plane.Sli.Pipeline.Accounting.{
  IsAccounted, begin-IsAccounted, stream-IsAccounted,
}
use inference_control_plane.Tests.Fixtures.{builtins}

-- Two times are known.
abbrev pub times : Times
times = record {
  rfc3339 = λ s.
      if s == "first"
      then ok 1
      else if s == "second"
      then ok 2
      else err (builtin value_error "time");
  isoformat = λ n. "first";
  dict_of = λ j. err (builtin value_error "dict");
}

abbrev pub texts : Texts
texts = record { lower = λ s. s; matches = λ pattern s. false; matches_i = λ pattern s. true }

abbrev pub config : Config
config = record {
  latency_buckets_ms = of_bits 50 ∷ of_bits 100 ∷ [];
  anomaly = record { min_sample = 30; threshold = of_bits 3; baseline_grouping = by_route };
  include_provider_region = true;
  known_teams = teams;
  known_routes = routes;
}

abbrev pub random : Random
random = record { State = ℕ; seeded = λ n. n; randint = λ low high n. (low, n) }

-- `{"id": id, "startTime": start, "endTime": finish}`
abbrev pub raw : String → String → String → Json
raw id start finish =
    obj (field "id" (str id) (field "startTime" (str start) (field "endTime" (str finish) end)))

abbrev observation : Observation
observation = record {
  obs_id = "a";
  level = "ERROR";
  team = "KYC";
  route = "x";
  provided_model = "gpt-4o";
  internal_model = "external";
  env_raw = "prod";
  stream = true;
  start = 1;
  completion_start = some 1;
  finish = 2;
  input_tokens = 3;
  output_tokens = 4;
  total_tokens = 7;
  cache_read_tokens = 0;
  cost_total = none;
  cost_invalid = false;
  error = some "timeouterror";
}

abbrev parsed : Observation
parsed = record {
  obs_id = "a";
  level = "DEFAULT";
  team = "";
  route = "";
  provided_model = "";
  internal_model = "";
  env_raw = "";
  stream = false;
  start = 1;
  completion_start = none;
  finish = 2;
  input_tokens = 0;
  output_tokens = 0;
  total_tokens = 0;
  cache_read_tokens = 0;
  cost_total = none;
  cost_invalid = false;
  error = none;
}

parse_observation-IsProjected_example : IsProjected parsed
unfolding parse_observation strip
parse_observation-IsProjected_example =
    parse_observation-IsProjected builtins times texts.lower (raw "a" "first" "second") parsed refl

abbrev window : Window
window = record {
  prior_seen = "b" ∷ [];
  collect_seen = true;
  cutoff = some 1;
  max_records = some 4;
}

-- A record, its duplicate, one of an earlier run, a malformed one, and one beyond the limit.
abbrev records : List Json
records =
    raw "a" "first" "second"
    ∷ raw "a" "first" "second"
    ∷ raw "b" "first" "second"
    ∷ null
    ∷ raw "c" "first" "second"
    ∷ []

stream-IsAccounted_example :
    IsAccounted random
      (stream random builtins times texts config window none records (begin random))
stream-IsAccounted_example =
    stream-IsAccounted random builtins times texts config window none records (begin random)
      (begin-IsAccounted random builtins times texts config window)

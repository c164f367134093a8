-- ===== src/Tests/Runs.antt =====
-- Whole runs of the pipeline, and the scoring of groups.
use inference_control_plane.Prelude.{
  inl, inr, strip, ℕ, ◌+◌, ◌≤◌, ◌<◌, ◌≡◌, ◌⊎◌, refl, arith, String, none, some, List, [], ◌∷◌,
}
use inference_control_plane.Prelude.Dict.{Dict}
use inference_control_plane.Prelude.Table.{Table}
use inference_control_plane.Python.{Exc, of_bits, Float, ok, err, builtin, value_error}
use inference_control_plane.Python.Json.{Json, null}
use inference_control_plane.Sli.Governance.{AnomalyConfig, by_route, accepts}
use inference_control_plane.Sli.Quality.Scoring.{
  Statistics, GroupResult, well, degenerate_constant_baseline, cold, score_group,
}
use inference_control_plane.Sli.Quality.Scoring.Returns.{score_group-returns, score_group-lone}
use inference_control_plane.Sli.Emit.{Reprs, assert_allowed}
use inference_control_plane.Sli.Models.Parse.{parse_observation}
use inference_control_plane.Sli.Pipeline.{Source, begin, stream}
use inference_control_plane.Sli.Pipeline.Finish.{Exporter, saved, Store, Finished}
use inference_control_plane.Sli.Pipeline.Run.{Arguments, window_of, broke, ran, run}
use inference_control_plane.Sli.Pipeline.Replay.{saved_seen, first_pass, replay-AddsNothing}
use inference_control_plane.Sli.Pipeline.Replay.Skipped.{AddsNothing}
use inference_control_plane.Sli.Pipeline.Run.Allowed.{run-allowed}
use inference_control_plane.Sli.Pipeline.Run.Safety.{Overflows, run-ran, run-failed_source}
use inference_control_plane.Tests.Fixtures.{floats, builtins}
use inference_control_plane.Tests.Indicators.{times, texts, config, random, raw}

-- The median is the first value.
abbrev first_value : List Float → Float
first_value [] = of_bits 0
first_value (x ∷ xs) = x

abbrev pub statistics : Statistics
statistics = record {
  median = first_value;
  fabs = λ x. x;
  total = first_value;
  mad_to_sigma = of_bits 1;
  meanad_to_sigma = of_bits 1;
}

abbrev anomaly_from : ℕ → AnomalyConfig
anomaly_from least = record {
  min_sample = least;
  threshold = of_bits 3;
  baseline_grouping = by_route;
}

abbrev pub reprs : Reprs
reprs = record { text_repr = λ s. s; sorted_repr = λ ss. "names" }

-- An exporter that counts its calls, and a store that counts its saves.
abbrev pub counter_exporter : Exporter
counter_exporter = record {
  State = ℕ;
  export = λ points n. (none, n + 1);
  heartbeat = some (λ points n. (none, n + 1));
}

abbrev pub counter_store : Store
counter_store = record { State = ℕ; save = λ c n. (saved, n + 1) }

abbrev pub arguments : Arguments
arguments = record {
  loaded = none;
  window_end = 9;
  overlap = 2;
  max_records = some 4;
  source_stats = none;
  duration = of_bits 1;
}

-- Two records and a malformed one, and then an error.
abbrev source : Source
source = record {
  records = raw "a" "first" "second" ∷ raw "b" "first" "second" ∷ null ∷ [];
  failure = some "TimeoutError";
}

score_group-returns_example :
    (g : GroupResult) × (score_group floats statistics (7 ∷ 8 ∷ 9 ∷ []) (anomaly_from 2) ≡ ok g)
    × (((3 < 2) × (g ≡ cold floats statistics))
        ⊎ ((2 ≤ 3)
            × (g.anomaly_count ≤ 3)
            × (g.status ≡ well ⊎ g.status ≡ degenerate_constant_baseline)))
score_group-returns_example =
    score_group-returns floats statistics (anomaly_from 2) (7 ∷ 8 ∷ 9 ∷ []) (omega arith)

score_group-lone_example :
    score_group floats statistics (7 ∷ []) (anomaly_from 1)
    ≡ err (builtin value_error "no median for empty data")
score_group-lone_example = score_group-lone floats statistics (anomaly_from 1) 7 refl

abbrev Ended : Type 0
Ended =
    (end : Finished ℕ ℕ) × (quality : Dict String) × (reasons : Table String ℕ) × (run random
        builtins times texts statistics config arguments counter_exporter counter_store source 0 5
      ≡ ran end quality reasons)

run-ran_example :
    Ended
    ⊎ ((e : Exc) × (run random builtins times texts statistics config arguments counter_exporter
            counter_store source 0 5
          ≡ broke e)
        × Overflows random builtins times texts statistics config arguments counter_exporter
            counter_store e)
run-ran_example =
    run-ran random builtins times texts statistics config arguments counter_exporter counter_store
      source 0 5 (omega arith)

-- No quotient of the fixtures is too large.
abbrev ended : Ended
ended =
    elim (run-ran random builtins times texts statistics config arguments counter_exporter
      counter_store source 0 5 (omega arith)) [
        | inl end ↦ end
        | inr (e, stopped, (same, n, d, least, large)) ↦ absurd (cc large)
      ]

run-allowed_example : assert_allowed reprs ended.0.points ≡ ok tt
unfolding accepts
run-allowed_example =
    run-allowed random builtins times texts statistics config arguments reprs counter_exporter
      counter_store refl source 0 5 ended.0 ended.1 ended.2 ended.3

run-failed_source_example : ended.0.store ≡ 5
run-failed_source_example =
    run-failed_source random builtins times texts statistics config arguments counter_exporter
      counter_store source 0 5 "TimeoutError" ended.0 ended.1 ended.2 refl ended.3

-- A first run with no checkpoint, and a later one with what it saves.
abbrev first_run : Arguments
first_run = record arguments { overlap = 9 }

abbrev twice : List Json
twice = raw "a" "first" "second" ∷ raw "b" "first" "second" ∷ []

abbrev second_run : Arguments
second_run = record first_run {
  loaded = some (record {
    watermark = some 9;
    seen =
        saved_seen random builtins times texts config first_run first_run
          (first_pass random builtins times texts config first_run first_run none twice);
  });
}

replay-AddsNothing_example :
    AddsNothing
      (begin random)
      (stream random builtins times texts config (window_of second_run) none twice (begin random))
unfolding parse_observation strip stream
replay-AddsNothing_example =
    replay-AddsNothing random builtins times texts config first_run second_run none twice
      (λ oid h. absurd (cc h)) (λ oid. refl) none (omega arith, (omega arith, tt)) refl

-- ===== src/Tests/Commands.antt =====
-- Runs of the command line.
use inference_control_plane.Prelude.{refl, none, some, [], ◌∷◌, strip}
use inference_control_plane.Prelude.Int.{pos}
use inference_control_plane.Python.{of_bits, ok}
use inference_control_plane.Sli.Pipeline.{Source, begin, stream}
use inference_control_plane.Sli.Pipeline.Run.{window_of, run}
use inference_control_plane.Sli.Cli.{Options, otlp_http, System, prepare, exit_code}
use inference_control_plane.Sli.Cli.Prepared.{Settles, IsSettled, prepare-IsSettled}
use inference_control_plane.Sli.Cli.Committed.{HasCommitted, run-HasCommitted}
use inference_control_plane.Tests.Fixtures.{floats, builtins}
use inference_control_plane.Tests.Indicators.{times, texts, config, random, raw}
use inference_control_plane.Tests.Runs.{statistics, counter_exporter, counter_store, arguments}

-- A store with a watermark, and keys in the environment.
abbrev system : System
system = record {
  floats = floats;
  getenv = λ name. some name;
  now = 9000000000;
  minutes = λ x. ok 600000000;
  fromisoformat = λ s. ok 8000000000;
  isoformat = λ n. "time";
  load = λ store. ok (some (record { watermark = some 7000000000; seen = [] }));
}

abbrev options : Options
options = record {
  source = "langfuse";
  emit = otlp_http;
  otel_out = none;
  otlp_endpoint = some "http://collector:4318";
  window_minutes = pos 60;
  window_end = none;
  grace_minutes = of_bits 10;
  checkpoint = some "state.json";
  checkpoint_dynamo_table = none;
  checkpoint_job_id = "gateway-sli";
  dynamo_region = none;
  overlap_minutes = of_bits 10;
  max_records = pos 250000;
}

prepare-IsSettled_example : Settles (IsSettled system options) (prepare system options)
prepare-IsSettled_example = prepare-IsSettled system options

-- Two records and a clean end.
abbrev whole_source : Source
whole_source = record {
  records = raw "a" "first" "second" ∷ raw "b" "first" "second" ∷ [];
  failure = none;
}

run-HasCommitted_example :
    HasCommitted random builtins times texts statistics config arguments counter_exporter
      counter_store
      (stream random builtins times texts config
        (window_of arguments)
        none
        whole_source.records
        (begin random)).current_seen
      5
      (run random builtins times texts statistics config arguments counter_exporter counter_store
        whole_source 0 5)
unfolding exit_code run strip
run-HasCommitted_example =
    run-HasCommitted random builtins times texts statistics config arguments counter_exporter
      counter_store whole_source 0 5 refl

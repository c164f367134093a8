-- ===== src/Tests/Exports.antt =====
-- Runs of the exporters.
use inference_control_plane.Prelude.{
  ℕ, ◌+◌, ◌≡◌, ◌⊎◌, refl, eqb, none, List, [], ◌∷◌, length, if◌then◌else◌,
}
use inference_control_plane.Python.{of_bits, ok}
use inference_control_plane.Python.Json.{null}
use inference_control_plane.Sli.Histogram.{new}
use inference_control_plane.Sli.Histogram.Buckets.{sum}
use inference_control_plane.Sli.Pipeline.Finish.{gauge, health_points, finish}
use inference_control_plane.Sli.Histogram.{MetricPoint, real}
use inference_control_plane.Sli.Emit.Otel.{Serializer, histogram_point}
use inference_control_plane.Sli.Emit.Otel.Buckets.{filled, Tells, histogram_point-Tells}
use inference_control_plane.Sli.Emit.OtlpHttp.{Collector, Client, prepared, export, exporter}
use inference_control_plane.Sli.Emit.OtlpHttp.Delivery.{
  IsExport, export-IsExport, IsDelivered, finish-IsDelivered,
}
use inference_control_plane.Tests.Fixtures.{floats}
use inference_control_plane.Tests.Indicators.{times}
use inference_control_plane.Tests.Runs.{reprs, counter_store}
use inference_control_plane.Tests.Checkpoints.{stats}

-- A collector that is unavailable for its first two posts.
abbrev collector : Collector
collector = record {
  World = ℕ;
  transport =
      λ url body headers n. (ok (if eqb n 0 then 503 else if eqb n 1 then 429 else 200, ""), n + 1);
  sleep = λ seconds n. n;
  dumps = λ j. ok "body";
  type_name = λ e. "Exception";
}

abbrev serializer : Serializer
serializer = record {
  start_nanos = 1;
  time_nanos = 2;
  service_version = "1.0.14";
  deployment_environment = none;
}

abbrev client : Client
client = record {
  endpoint = "http://collector:4318";
  headers = [];
  max_retries = 3;
  backoff_base = of_bits 1;
  serializer = serializer;
}

abbrev health : List MetricPoint
health = gauge "gateway.pipeline.export_success" "1" (real (of_bits 1)) ∷ []

histogram_point-Tells_example :
    (counts : List ℕ) × Tells floats
      (histogram_point serializer null
        (filled floats (of_bits 3 ∷ of_bits 9 ∷ []) (new floats (of_bits 5 ∷ of_bits 8 ∷ []))))
      (of_bits 5 ∷ of_bits 8 ∷ [])
      counts
      2
    × (length counts ≡ 2 + 1)
    × (sum counts ≡ 2)
histogram_point-Tells_example =
    histogram_point-Tells floats serializer null (of_bits 5 ∷ of_bits 8 ∷ [])
      (of_bits 3 ∷ of_bits 9 ∷ []) ((refl, tt), (tt, tt))

export-IsExport_example :
    IsExport collector floats client
      (prepared collector floats client reprs health)
      0
      (export collector floats client reprs health 0)
export-IsExport_example = export-IsExport collector floats client reprs health 0

finish-IsDelivered_example :
    ((finish floats times
        (exporter collector floats client reprs)
        counter_store
        9
        2
        []
        []
        (of_bits 1)
        health
        stats
        0
        5).store
      ≡ 5)
    ⊎ IsDelivered collector floats client reprs health 0
      × IsDelivered collector floats client reprs
          (health_points floats stats)
          (export collector floats client reprs health 0).1
finish-IsDelivered_example =
    finish-IsDelivered collector floats client floats times reprs counter_store 9 2 [] []
      (of_bits 1) health stats 0 5 refl

-- ===== src/Sli/Emit/Otel.antt =====
-- `OtelJsonExporter` of emit/otel.py: the document, and where it is written.
pub mod Buckets
use inference_control_plane.Prelude.{
  ℕ, String, Bool, true, false, Option, none, some, List, [], ◌∷◌, ◌++◌, map, ◌==◌, ◌<>◌, is_empty,
  show, if◌then◌else◌,
}
use inference_control_plane.Prelude.Dict.{Dict, sorted_items}
use inference_control_plane.Prelude.Int.{pos}
use inference_control_plane.Python.{Float, Result, ok, err, ◌>>=◌}
use inference_control_plane.Python.Exec.{Exec, continue}
use inference_control_plane.Python.Json.{
  Json, null, bool, int, float, str, arr, obj, Items, nil, cons, Fields, end, field,
}
use inference_control_plane.Sli.Histogram.{
  Number, whole, real, Hist, HistAcc, counts_of, MetricPoint,
}
use inference_control_plane.Sli.Emit.{Reprs, assert_allowed}

-- What `__init__` keeps. The two times are those of the window, in nanoseconds.
pub record Serializer : Type 0 where
  pub start_nanos : ℕ
  pub time_nanos : ℕ
  pub service_version : String
  pub deployment_environment : Option String

abbrev pub items : List Json → Items
items [] = nil
items (j ∷ js) = cons j (items js)

-- An attribute with a text.
abbrev pub attribute : String → String → Json
attribute key value =
    obj (field "key" (str key) (field "value" (obj (field "stringValue" (str value) end)) end))

-- `_attrs`
unfoldable pub attrs : Dict String → Json
unfolding sorted_items
attrs dims = arr (items (map (λ e. attribute e.0 e.1) (sorted_items dims)))

-- `_resource_attrs`
abbrev pub environment_attrs : Option String → List Json
environment_attrs none = []
environment_attrs (some e) = if is_empty e then [] else attribute "deployment.environment" e ∷ []

unfoldable pub resource_attrs : Serializer → Json
resource_attrs s = arr (
    items (
      attribute "service.name" "gateway-sli"
      ∷ attribute "service.version" s.service_version
      ∷ environment_attrs s.deployment_environment))

abbrev pub number : Option Number → Json
number none = null
number (some (whole n)) = int (pos n)
number (some (real x)) = float x

-- `bucket_counts`: those of the bounds, and then that of the values above every bound.
abbrev pub bucket_counts : HistAcc → List ℕ
bucket_counts acc = counts_of acc ++ acc.over ∷ []

-- An entry that is left out where there is no value.
abbrev pub optional : String → Option Float → Fields → Fields
optional key none fs = fs
optional key (some x) fs = field key (float x) fs

abbrev pub delta : String
delta = "AGGREGATION_TEMPORALITY_DELTA"

module _ (s : Serializer) where
  abbrev pub start : Json
  start = str (show s.start_nanos)

  abbrev pub time : Json
  time = str (show s.time_nanos)

  -- The data point of a histogram.
  unfoldable pub histogram_point : Json → HistAcc → Json
  unfolding show
  histogram_point attributes acc = obj (
      field "attributes" attributes (
        field "startTimeUnixNano" start (
          field "timeUnixNano" time (
            field "count" (str (show acc.count)) (
              field "sum" (float acc.sum) (
                field "explicitBounds" (arr (items (map float acc.bounds))) (
                  field "bucketCounts" (arr (items (map (λ c. str (show c)) (bucket_counts acc))))
                    (optional "min" acc.least (optional "max" acc.greatest end)))))))))

  abbrev pub histogram_metric : MetricPoint → HistAcc → Json
  histogram_metric p acc = obj (
      field "name" (str p.name) (
        field "unit" (str p.unit) (
          field "histogram"
            (obj (
              field "aggregationTemporality" (str delta)
                (field "dataPoints" (arr (cons (histogram_point (attrs p.dims) acc) nil)) end)))
            end)))

  unfoldable pub counter_metric : MetricPoint → Json
  unfolding attrs show
  counter_metric p = obj (
      field "name" (str p.name) (
        field "unit" (str p.unit) (
          field "sum"
            (obj (
              field "isMonotonic" (bool true) (
                field "aggregationTemporality" (str delta) (
                  field "dataPoints"
                    (arr (
                      cons
                        (obj (
                          field "attributes" (attrs p.dims) (
                            field "startTimeUnixNano" start
                              (field "timeUnixNano" time (field "asDouble" (number p.value) end)))))
                        nil))
                    end))))
            end)))

  unfoldable pub gauge_metric : MetricPoint → Json
  unfolding attrs show
  gauge_metric p = obj (
      field "name" (str p.name) (
        field "unit" (str p.unit) (
          field "gauge"
            (obj (
              field "dataPoints"
                (arr (
                  cons
                    (obj (
                      field "attributes" (attrs p.dims)
                        (field "timeUnixNano" time (field "asDouble" (number p.value) end))))
                    nil))
                end))
            end)))

  abbrev pub plain_metric : MetricPoint → Json
  plain_metric p = if p.type == "counter" then counter_metric p else gauge_metric p

  -- The body of the loop of `_to_otlp`.
  unfoldable pub metric : MetricPoint → Json
  unfolding histogram_point counter_metric gauge_metric attrs
  metric p = elim p.histogram [
    | none ↦ plain_metric p
    | some h ↦ if p.type == "histogram" then histogram_metric p h.acc else plain_metric p
  ]

  -- `_to_otlp`
  unfoldable pub to_otlp : List MetricPoint → Json
  unfolding metric resource_attrs
  to_otlp points = obj (
      field "resourceMetrics"
        (arr (
          cons
            (obj (
              field "resource" (obj (field "attributes" (resource_attrs s) end)) (
                field "scopeMetrics"
                  (arr (
                    cons
                      (obj (
                        field "scope"
                          (obj
                            (field "name" (str "gateway_sli") (field "version" (str "1.0.14") end)))
                          (field "metrics" (arr (items (map metric points))) end)))
                      nil))
                  end)))
            nil))
        end)

  -- `build_payload`
  unfoldable pub build_payload : Reprs → List MetricPoint → Result Json
  unfolding to_otlp assert_allowed
  build_payload q points = do _ ← assert_allowed q points; ok (to_otlp points)

-- The file system and the standard output: `write` makes the directory of a path and writes a text.
pub record Output : Type 1 where
  pub State : Type 0
  pub write : String → String → Exec State (Unit {0})
  pub print : String → Exec State (Unit {0})

module _ (O : Output) (q : Reprs) (dumps : Json → Result String) (s : Serializer)
    (out_path : Option String) where
  -- The exporter's state: the output, and the points of the heartbeats so far.
  pub record Written : Type 0 where
    pub output : O.State
    pub heartbeat_points : List MetricPoint

  abbrev lift : (Exec O.State (Unit {0})) → Json → Exec Written Json
  lift act payload w =
      let (r, o) = act w.output in ((do _ ← r; ok payload), record w { output = o })

  -- `if self.out_path`
  abbrev path_of : Option String → Option String
  path_of none = none
  path_of (some p) = if is_empty p then none else some p

  abbrev deliver : Option String → Json → String → Exec Written Json
  deliver none payload text = lift (O.print text) payload
  deliver (some p) payload text = lift (O.write p text) payload

  -- `export`
  unfoldable pub export : List MetricPoint → Exec Written Json
  unfolding build_payload
  export points w =
      continue (build_payload s q points, w)
        (λ payload w.
          continue (dumps payload, w) (λ text w. deliver (path_of out_path) payload text w))

  abbrev deliver_heartbeat : Option String → Json → Exec Written Json
  deliver_heartbeat none payload w = (ok payload, w)
  deliver_heartbeat (some p) payload w =
      continue (dumps payload, w) (λ text w. lift (O.write (p <> ".heartbeat.json") text) payload w)

  -- `heartbeat`
  unfoldable pub heartbeat : List MetricPoint → Exec Written Json
  unfolding build_payload
  heartbeat points w =
      let kept = record w { heartbeat_points = w.heartbeat_points ++ points } in
      continue (build_payload s q kept.heartbeat_points, kept)
        (λ payload w. deliver_heartbeat (path_of out_path) payload w)

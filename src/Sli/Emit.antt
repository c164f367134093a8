-- ===== src/Sli/Emit.antt =====
-- `assert_allowed` of emit/base.py: what an exporter may send.
pub mod Allowed
pub mod Built
pub mod Otel
pub mod OtlpHttp
use inference_control_plane.Prelude.{
  String, Bool, true, false, not, Option, none, some, List, [], ◌∷◌, ◌==◌, ◌&&◌, ◌<>◌, contains,
  map, if◌then◌else◌,
}
use inference_control_plane.Prelude.Dict.{Dict, lookup}
use inference_control_plane.Python.{Result, ok, err, ◌>>=◌, builtin, value_error}
use inference_control_plane.Sli.Governance.Registry.{
  MetricDefinition, metric_registry, allowed_attribute_keys, vocabulary_of,
}
use inference_control_plane.Sli.Histogram.{MetricPoint}

-- `repr` of a text, and of a set of texts that is sorted into a list.
pub record Reprs : Type 0 where
  pub text_repr : String → String
  pub sorted_repr : List String → String

-- `set(keys) - allowed`
abbrev pub minus : List String → List String → List String
minus [] allowed = []
minus (k ∷ ks) allowed = if contains allowed k then minus ks allowed else k ∷ minus ks allowed

-- Raises a `ValueError` if a set is not empty.
abbrev pub none_of : List String → (List String → String) → Result (Unit {0})
none_of [] text = ok tt
none_of (k ∷ ks) text = err (builtin value_error (text (k ∷ ks)))

-- The loop over the values. Each key has passed the tests before, and is registered.
unfoldable pub check_values : Reprs → String → Dict String → Result (Unit {0})
check_values q name [] = ok tt
check_values q name ((key, value) ∷ dims) =
    let rest = check_values q name dims in
    if contains (vocabulary_of key) value
    then rest
    else err (
        builtin value_error
          ("metric " <> name <> " has disallowed value for " <> key <> ": " <> q.text_repr value))

-- The checks of a point whose metric is registered.
unfoldable pub check_shape : Reprs → MetricPoint → MetricDefinition → Result (Unit {0})
unfolding check_values
check_shape q p d =
    let names = map (λ e. e.0) p.dims in
    if not (p.type == d.metric_type && p.unit == d.metric_unit)
    then err (
        builtin value_error (
          "metric " <> p.name <> " has invalid shape: " <> p.type <> "/" <> p.unit <> "; expected "
          <> d.metric_type <> "/" <> d.metric_unit))
    else (do
      _ ← none_of (minus names d.allowed_dimensions) (λ ks.
          "metric "
          <> p.name
          <> " has dimensions not allowed for this metric: "
          <> q.sorted_repr ks)
      _ ←
          none_of (minus names allowed_attribute_keys)
            (λ ks. "metric " <> p.name <> " has disallowed attributes: " <> q.sorted_repr ks)
      check_values q p.name p.dims)

-- The body of the loop over the points.
unfoldable pub check_point : Reprs → MetricPoint → Result (Unit {0})
unfolding check_shape lookup
check_point q p = elim (lookup p.name metric_registry) [
  | none ↦ err (builtin value_error ("unregistered metric: " <> p.name))
  | some d ↦ check_shape q p d
]

unfoldable pub assert_allowed : Reprs → List MetricPoint → Result (Unit {0})
unfolding check_point
assert_allowed q [] = ok tt
assert_allowed q (p ∷ ps) = do _ ← check_point q p; assert_allowed q ps

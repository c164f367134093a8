-- ===== src/Sli/Models.antt =====
-- models.py: an observation and what is derived of it. A time is in microseconds.
pub mod Values
pub mod Parse
use inference_control_plane.Prelude.{
  ℕ, ◌-◌, String, Bool, true, false, not, Option, none, some, ◌==◌, leb, ltb, ◌&&◌, ◌||◌,
  if◌then◌else◌,
}
use inference_control_plane.Python.{Float, FloatOps}

-- `error` is the type in the marker that `parse_observation` keeps of an error.
pub record Observation : Type 0 where
  pub obs_id : String
  pub level : String
  pub team : String
  pub route : String
  pub provided_model : String
  pub internal_model : String
  pub env_raw : String
  pub stream : Bool
  pub start : ℕ
  pub completion_start : Option ℕ
  pub finish : ℕ
  pub input_tokens : ℕ
  pub output_tokens : ℕ
  pub total_tokens : ℕ
  pub cache_read_tokens : ℕ
  pub cost_total : Option Float
  pub cost_invalid : Bool
  pub error : Option String

abbrev pub is_some {ℓ} : {A : Type ℓ} → Option A → Bool
is_some none = false
is_some (some _) = true

unfoldable pub is_error : Observation → Bool
is_error obs = obs.level == "ERROR" || is_some obs.error

-- `(b - a).total_seconds() * 1000.0`, of a time that is not before another.
abbrev pub milliseconds : FloatOps → ℕ → ℕ → Float
milliseconds f a b = f.mul (f.div (f.of_nat (b - a)) (f.of_nat 1000000)) (f.of_nat 1000)

-- `parse_observation` refuses a record whose end is before its start.
unfoldable pub latency_ms : FloatOps → Observation → Float
latency_ms f obs = milliseconds f obs.start obs.finish

unfoldable pub ttft_ms : FloatOps → Observation → Option Float
unfolding is_error
ttft_ms f obs = elim obs.completion_start [
  | none ↦ none
  | some first ↦
      if is_error obs || not obs.stream
      then none
      else if not (leb obs.start first && leb first obs.finish)
      then none
      else some (milliseconds f obs.start first)
]

unfoldable pub is_cache_hit : Observation → Bool
is_cache_hit obs = ltb 0 obs.cache_read_tokens

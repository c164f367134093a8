-- ===== src/Sli/Pipeline.antt =====
-- The streaming pass of `run`, in pipeline.py.
pub mod Accounting
pub mod Finish
pub mod Report
pub mod Run
pub mod Replay
use inference_control_plane.Prelude.{
  ℕ, ◌+◌, String, Bool, true, false, Option, none, some, List, [], ◌∷◌, ◌==◌, ◌&&◌, contains, leb,
  ltb, is_empty, if◌then◌else◌,
}
use inference_control_plane.Prelude.Dict.{Dict, insert}
use inference_control_plane.Prelude.Table.{Table, update}
use inference_control_plane.Python.Json.{Json}
use inference_control_plane.Python.Builtins.{Builtins}
use inference_control_plane.Sli.Times.{Times}
use inference_control_plane.Sli.Models.{Observation}
use inference_control_plane.Sli.Models.Parse.{
  Parsed, observed, malformed, crashed, parse_observation,
}
use inference_control_plane.Sli.Governance.{Config}
use inference_control_plane.Sli.Normalize.{Texts}
use inference_control_plane.Sli.Aggregation.{Aggregator, add_observation}
use inference_control_plane.Sli.Aggregation as Aggregation
use inference_control_plane.Sli.Quality.{Random, QualityAccumulator, add_quality}
use inference_control_plane.Sli.Quality as Quality

-- What the pass reads: the ids of the checkpoint, whether ids are collected, the time from which they
-- are, and the limit of records.
pub record Window : Type 0 where
  pub prior_seen : List String
  pub collect_seen : Bool
  pub cutoff : Option ℕ
  pub max_records : Option ℕ

-- The records that a source gives before it ends or raises, and the type of what it raises.
pub record Source : Type 0 where
  pub records : List Json
  pub failure : Option String

-- Whether the limit of records is reached.
unfoldable pub is_full : Option ℕ → ℕ → Bool
is_full none n = false
is_full (some most) n = leb most n

-- `cutoff is not None and end >= cutoff`
abbrev pub is_late : Option ℕ → ℕ → Bool
is_late none finish = false
is_late (some cutoff) finish = leb cutoff finish

-- The later of an end and the latest one.
abbrev pub latest : Option ℕ → ℕ → Option ℕ
latest none finish = some finish
latest (some old) finish = some (if ltb old finish then finish else old)

abbrev pub bump_reason : String → Table String ℕ → Table String ℕ
bump_reason reason d = update (λ a b. a == b) reason 0 (λ n. n + 1) d

module _ (r : Random) where
  -- The locals of `run` during the pass.
  pub record Progress : Type 0 where
    pub aggregator : Aggregator
    pub quality : QualityAccumulator r
    pub current_seen : Dict ℕ
    pub malformed_by_reason : Table String ℕ
    pub quarantined : ℕ
    pub duplicates : ℕ
    pub cross_run_duplicates : ℕ
    pub records_read : ℕ
    pub processed : ℕ
    pub max_end : Option ℕ
    pub read_truncated : Bool
    pub seen_batch : List String
    pub source_error : Option String

  abbrev pub begin : Progress
  begin = record {
    aggregator = Aggregation.start;
    quality = Quality.start r;
    current_seen = [];
    malformed_by_reason = [];
    quarantined = 0;
    duplicates = 0;
    cross_run_duplicates = 0;
    records_read = 0;
    processed = 0;
    max_end = none;
    read_truncated = false;
    seen_batch = [];
    source_error = none;
  }

  module _ (b : Builtins) (t : Times) (x : Texts) (cfg : Config) (w : Window) where
    -- An observation that is folded in.
    unfoldable pub process : Observation → Progress → Progress
    unfolding add_observation add_quality insert
    process obs p = record p {
      aggregator = add_observation b.floats x cfg obs p.aggregator;
      quality = add_quality r x cfg obs p.quality;
      processed = p.processed + 1;
      max_end = latest p.max_end obs.finish;
      current_seen =
          if w.collect_seen && is_late w.cutoff obs.finish
          then insert obs.obs_id obs.finish p.current_seen
          else p.current_seen;
    }

    abbrev pub reject : String → Progress → Progress
    reject reason p = record p { malformed_by_reason = bump_reason reason p.malformed_by_reason }

    -- What follows the parsing of a record.
    unfoldable pub take_parsed : Parsed → Progress → Progress
    unfolding process update
    take_parsed (malformed reason) p = reject reason p
    take_parsed (crashed e) p =
        reject "unexpected_error" (record p { quarantined = p.quarantined + 1 })
    take_parsed (observed obs) p =
        if is_empty obs.obs_id
        then reject "missing_observation_id" p
        else if contains p.seen_batch obs.obs_id
        then record p { duplicates = p.duplicates + 1 }
        else if contains w.prior_seen obs.obs_id
        then record p {
          seen_batch = obs.obs_id ∷ p.seen_batch;
          cross_run_duplicates = p.cross_run_duplicates + 1;
        }
        else process obs (record p { seen_batch = obs.obs_id ∷ p.seen_batch })

    -- The body of the loop, for a record within the limit.
    unfoldable pub step : Json → Progress → Progress
    unfolding take_parsed parse_observation
    step raw p =
        take_parsed (parse_observation b t x.lower raw)
          (record p { records_read = p.records_read + 1 })

    -- The loop, which ends at the limit or with the source.
    unfoldable pub stream : Option String → List Json → Progress → Progress
    unfolding step is_full
    stream failure [] p = record p { source_error = failure }
    stream failure (raw ∷ rest) p =
        let after = stream failure rest (step raw p) in
        if is_full w.max_records p.records_read then record p { read_truncated = true } else after

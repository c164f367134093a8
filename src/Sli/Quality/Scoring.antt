-- ===== src/Sli/Quality/Scoring.antt =====
-- `score_group` and the results of `QualityAccumulator`, of quality.py.
pub mod Returns
use inference_control_plane.Prelude.{
  ℕ, zero, suc, ◌+◌, ◌-◌, ◌/◌, ◌%◌, String, Bool, true, false, not, Option, none, some, List, [],
  ◌∷◌, ◌++◌, ◌==◌, ◌&&◌, ltb, leb, eqb, length, map, if◌then◌else◌,
}
use inference_control_plane.Prelude.Table.{Table}
use inference_control_plane.Python.{Float, FloatOps, Result, ok, err, ◌>>=◌, builtin, value_error}
use inference_control_plane.Sli.Governance.{AnomalyConfig}
use inference_control_plane.Sli.Quality.{QualityKey, Random, QualityAccumulator}

pub data Status : Type 0 where
  well cold_start degenerate_constant_baseline : Status

abbrev pub status_text : Status → String
status_text well = "ok"
status_text cold_start = "cold_start"
status_text degenerate_constant_baseline = "degenerate_constant_baseline"

-- `GroupResult`
pub record GroupResult : Type 0 where
  pub status : Status
  pub anomaly_count : ℕ
  pub max_abs_z : Option Float

-- `median`, `fabs` and the sum of the standard library, on floats. `median` of integers is that of
-- their conversions, which are exact here.
pub record Statistics : Type 0 where
  pub median : List Float → Float
  pub fabs : Float → Float
  pub total : List Float → Float
  pub mad_to_sigma : Float
  pub meanad_to_sigma : Float

-- A status, a score if there is one, and whether the value is an anomaly.
pub record Score : Type 0 where
  pub status : Status
  pub z : Option Float
  pub anomaly : Bool

-- `lengths[:i] + lengths[i + 1:]`
unfoldable pub without : ℕ → List ℕ → List ℕ
without i [] = []
without zero (x ∷ xs) = xs
without (suc i) (x ∷ xs) = x ∷ without i xs

-- `lengths[::2]` and `lengths[1::2]`
unfoldable pub halves : List ℕ → List ℕ × List ℕ
halves [] = ([], [])
halves (x ∷ xs) = let (left, right) = halves xs in (x ∷ right, left)

module _ (f : FloatOps) (m : Statistics) where
  abbrev pub is_positive : Float → Bool
  is_positive x = f.lt (f.of_nat 0) x

  abbrev pub same_float : Float → Float → Bool
  same_float x y = f.le x y && f.le y x

  abbrev pub breach : AnomalyConfig → Float → Score
  breach cfg z = record {
    status = well;
    z = some (m.fabs z);
    anomaly = f.le cfg.threshold (m.fabs z);
  }

  -- The local `score` of `score_group`, of a baseline that is not empty.
  unfoldable pub score_against : AnomalyConfig → ℕ → List ℕ → Score
  score_against cfg value baseline =
      let values = map f.of_nat baseline in
      let med = m.median values in
      let deviations = map (λ x. m.fabs (f.sub x med)) values in
      let mad = m.median deviations in
      let mean_ad = f.div (m.total deviations) (f.of_nat (length baseline)) in
      let off = f.sub (f.of_nat value) med in
      if is_positive mad
      then breach cfg (f.div off (f.div mad m.mad_to_sigma))
      else if is_positive mean_ad
      then breach cfg (f.div off (f.mul m.meanad_to_sigma mean_ad))
      else if same_float (f.of_nat value) med
      then record { status = degenerate_constant_baseline; z = some (f.of_nat 0); anomaly = false }
      else record { status = degenerate_constant_baseline; z = none; anomaly = true }

  -- The local `score`. The median of nothing raises a `StatisticsError`, which is a `ValueError`.
  unfoldable pub score : AnomalyConfig → ℕ → List ℕ → Result Score
  unfolding score_against
  score cfg value [] = err (builtin value_error "no median for empty data")
  score cfg value (x ∷ xs) = ok (score_against cfg value (x ∷ xs))

  -- The exact loop: each value against the others. `i` is the index of the first one.
  unfoldable pub leave_one_out : AnomalyConfig → List ℕ → ℕ → List ℕ → Result (List Score)
  unfolding score without
  leave_one_out cfg lengths i [] = ok []
  leave_one_out cfg lengths i (v ∷ vs) = do
    s ← score cfg v (without i lengths)
    ss ← leave_one_out cfg lengths (i + 1) vs
    ok (s ∷ ss)

  -- The loop over two folds.
  unfoldable pub cross_fit : AnomalyConfig → List ℕ → List ℕ → ℕ → List ℕ → Result (List Score)
  unfolding score
  cross_fit cfg left right i [] = ok []
  cross_fit cfg left right i (v ∷ vs) = do
    s ← score cfg v (if eqb (i % 2) 0 then right else left)
    ss ← cross_fit cfg left right (i + 1) vs
    ok (s ∷ ss)

  -- `"ok" in statuses`
  abbrev pub any_well : List Score → Bool
  any_well [] = false
  any_well (s ∷ ss) = elim s.status [ well ↦ true | _ ↦ any_well ss ]

  abbrev pub anomalies : List Score → ℕ
  anomalies [] = 0
  anomalies (s ∷ ss) = (if s.anomaly then 1 else 0) + anomalies ss

  -- `max` of the scores that are there: the first of the greatest.
  abbrev pub greatest_from : Option Float → List Score → Option Float
  greatest_from best [] = best
  greatest_from best (s ∷ ss) =
      greatest_from
        (elim s.z [
          | none ↦ best
          | some z ↦ elim best [ none ↦ some z | some old ↦ some (if f.lt old z then z else old) ]
        ])
        ss

  abbrev pub summary : List Score → GroupResult
  summary scored = record {
    status = if any_well scored then well else degenerate_constant_baseline;
    anomaly_count = anomalies scored;
    max_abs_z = greatest_from none scored;
  }

  abbrev pub cold : GroupResult
  cold = record { status = cold_start; anomaly_count = 0; max_abs_z = none }

  -- `score_group`. A half is empty only if there are fewer than two values, so the test of the halves
  -- has nothing to do.
  unfoldable pub score_group : List ℕ → AnomalyConfig → Result GroupResult
  unfolding leave_one_out cross_fit halves
  score_group lengths cfg =
      if ltb (length lengths) cfg.min_sample
      then ok cold
      else if leb (length lengths) 2000
      then (do scored ← leave_one_out cfg lengths 0 lengths; ok (summary scored))
      else (do
        let sides = halves lengths
        scored ← cross_fit cfg sides.0 sides.1 0 lengths
        ok (summary scored))

  -- `results`
  unfoldable pub results :
      AnomalyConfig → Table QualityKey (List ℕ) → Result (Table QualityKey GroupResult)
  unfolding score_group
  results cfg [] = ok []
  results cfg ((k, lengths) ∷ groups) = do
    g ← score_group lengths cfg
    rest ← results cfg groups
    ok ((k, g) ∷ rest)

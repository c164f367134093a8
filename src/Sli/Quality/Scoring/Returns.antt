-- ===== src/Sli/Quality/Scoring/Returns.antt =====
-- When `score_group` of quality.py returns, and what it counts.
use inference_control_plane.Prelude.{
  ℕ, zero, suc, ◌+◌, ◌*◌, ◌%◌, ◌≤◌, ◌<◌, ◌≡◌, refl, inl, inr, ◌⊎◌, List, [], ◌∷◌, arith, ltb, leb,
  eqb, length, Bool-cases, if◌then◌else◌,
}
use inference_control_plane.Prelude.Table.{Table}
use inference_control_plane.Python.{FloatOps, Result, ok, err, builtin, value_error}
use inference_control_plane.Sli.Governance.{AnomalyConfig}
use inference_control_plane.Sli.Quality.{QualityKey}
use inference_control_plane.Sli.Quality.Scoring.{
  well, degenerate_constant_baseline, GroupResult, Statistics, Score, without, halves, score,
  score_against, leave_one_out, cross_fit, anomalies, any_well, summary, cold, score_group, results,
}

length-without : (i : ℕ) (xs : List ℕ) → length xs ≤ length (without i xs) + 1
unfolding without
length-without i [] = omega arith
length-without zero (x ∷ xs) = omega arith
length-without (suc i) (x ∷ xs) = omega (arith, length-without i xs)

length-halves :
    (xs : List ℕ)
    → (length xs ≤ length (halves xs).0 * 2)
      × (length (halves xs).0 * 2 ≤ length xs + 1)
      × (length (halves xs).0 + length (halves xs).1 ≡ length xs)
unfolding halves
length-halves [] = (omega arith, omega arith, refl)
length-halves (x ∷ xs) =
    let (a, b, c) = length-halves xs in
    (omega (arith, a, b, c), omega (arith, a, b, c), omega (arith, c))

module _ (f : FloatOps) (m : Statistics) (cfg : AnomalyConfig) where
  score-ok :
      (v : ℕ) (baseline : List ℕ)
      → 1 ≤ length baseline
      → score f m cfg v baseline ≡ ok (score_against f m cfg v baseline)
  unfolding score
  score-ok v [] h = absurd (omega arith)
  score-ok v (x ∷ xs) h = refl

  -- The scores of a loop, one for each value.
  abbrev Scores : List ℕ → Result (List Score) → Type 0
  Scores vs r = (ss : List Score) × (r ≡ ok ss) × (length ss ≡ length vs)

  leave_one_out-Scores :
      (lengths : List ℕ) (i : ℕ) (vs : List ℕ)
      → 2 ≤ length lengths
      → Scores vs (leave_one_out f m cfg lengths i vs)
  unfolding leave_one_out
  leave_one_out-Scores lengths i [] h = ([], refl, refl)
  leave_one_out-Scores lengths i (v ∷ vs) h =
      let (ss, e, n) = leave_one_out-Scores lengths (i + 1) vs h in
      let others = without i lengths in
      (
        score_against f m cfg v others ∷ ss,
        rw (score-ok v others (omega (arith, length-without i lengths)), e) refl,
        omega (arith, n),
      )

  cross_fit-Scores :
      (left right : List ℕ) (i : ℕ) (vs : List ℕ)
      → 1 ≤ length left
      → 1 ≤ length right
      → Scores vs (cross_fit f m cfg left right i vs)
  unfolding cross_fit
  cross_fit-Scores left right i [] l r = ([], refl, refl)
  cross_fit-Scores left right i (v ∷ vs) l r =
      let (ss, e, n) = cross_fit-Scores left right (i + 1) vs l r in
      let side = if eqb (i % 2) 0 then right else left in
      (
        score_against f m cfg v side ∷ ss,
        rw (score-ok v side (ground arith), e) refl,
        omega (arith, n),
      )

  anomalies-le : (ss : List Score) → anomalies f m ss ≤ length ss
  anomalies-le [] = omega arith
  anomalies-le (s ∷ ss) = ground (arith, anomalies-le ss)

  summary-status :
      (ss : List Score)
      → (summary f m ss).status ≡ well ⊎ (summary f m ss).status ≡ degenerate_constant_baseline
  summary-status ss = elim (Bool-cases (any_well f m ss)) [
    | inl e ↦ inl (simp e)
    | inr e ↦ inr (simp e)
  ]

  -- With a minimal sample of at least two, the scoring of a group returns. Below the minimal sample the
  -- group is cold and counts no anomaly; from it on it is not cold, and counts at most as many
  -- anomalies as there are values.
  pub score_group-returns :
      (lengths : List ℕ)
      → 2 ≤ cfg.min_sample
      → (g : GroupResult) × (score_group f m lengths cfg ≡ ok g)
        × (((length lengths < cfg.min_sample) × (g ≡ cold f m))
            ⊎ ((cfg.min_sample ≤ length lengths)
                × (g.anomaly_count ≤ length lengths)
                × (g.status ≡ well ⊎ g.status ≡ degenerate_constant_baseline)))
  unfolding score_group
  score_group-returns lengths least = elim (Bool-cases (ltb (length lengths) cfg.min_sample)) [
    | inl few ↦ (cold f m, rw few refl, inl (ground (arith, few), refl))
    | inr enough ↦
        let two : 2 ≤ length lengths = ground (arith, enough, least) in
        let sample : cfg.min_sample ≤ length lengths = ground (arith, enough) in
        elim (Bool-cases (leb (length lengths) 2000)) [
          | inl small ↦
              let (ss, e, n) = leave_one_out-Scores lengths 0 lengths two in
              (
                summary f m ss,
                rw (enough, small, e) refl,
                inr (sample, omega (arith, n, anomalies-le ss), summary-status ss),
              )
          | inr large ↦
              let (left, right) = halves lengths in
              let (a, b, c) = length-halves lengths in
              let (ss, e, n) =
                cross_fit-Scores left right 0 lengths (omega (arith, a, b, c, two))
                  (omega (arith, a, b, c, two)) in
              (
                summary f m ss,
                rw (enough, large, e) refl,
                inr (sample, omega (arith, n, anomalies-le ss), summary-status ss),
              )
        ]
  ]

  -- With a minimal sample of one, which the configuration allows, a group of a single value makes the
  -- scoring raise.
  pub score_group-lone :
      (v : ℕ)
      → cfg.min_sample ≡ 1
      → score_group f m (v ∷ []) cfg ≡ err (builtin value_error "no median for empty data")
  unfolding score_group leave_one_out score without
  score_group-lone v h = rw h refl

  -- With a minimal sample of at least two, the results of all groups are there.
  pub results-returns :
      (groups : Table QualityKey (List ℕ))
      → 2 ≤ cfg.min_sample
      → (scored : Table QualityKey GroupResult) × (results f m cfg groups ≡ ok scored)
  unfolding results
  results-returns [] least = ([], refl)
  results-returns ((k, lengths) ∷ groups) least =
      let (g, e, _) = score_group-returns lengths least in
      let (rest, e') = results-returns groups least in ((k, g) ∷ rest, rw (e, e') refl)

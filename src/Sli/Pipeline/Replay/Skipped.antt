-- ===== src/Sli/Pipeline/Replay/Skipped.antt =====
-- A pass of pipeline.py over ids that its checkpoint names.
use inference_control_plane.Prelude.{
  ◌+◌, String, true, Option, List, [], ◌∷◌, ◌≡◌, ◌⊎◌, inl, inr, refl, ◌∙◌, contains, is_empty, All,
  Bool-cases,
}
use inference_control_plane.Python.Json.{Json}
use inference_control_plane.Python.Builtins.{Builtins}
use inference_control_plane.Sli.Times.{Times}
use inference_control_plane.Sli.Models.Parse.{
  Parsed, observed, malformed, crashed, parse_observation,
}
use inference_control_plane.Sli.Governance.{Config}
use inference_control_plane.Sli.Normalize.{Texts}
use inference_control_plane.Sli.Quality.{Random}
use inference_control_plane.Sli.Pipeline.{Window, is_full, Progress, take_parsed, step, stream}

-- The id of an observation is empty, or one of a list.
abbrev pub IsSkipped : List String → Parsed → Type 0
IsSkipped ids (observed obs) = (is_empty obs.obs_id ≡ true) ⊎ (contains ids obs.obs_id ≡ true)
IsSkipped ids _ = Unit {0}

-- Between two states no record is processed, and nothing is aggregated or kept for the quality
-- signal.
abbrev pub AddsNothing : {r : Random} → Progress r → Progress r → Type 0
AddsNothing p q =
    (q.processed ≡ p.processed) × (q.aggregator ≡ p.aggregator) × (q.quality ≡ p.quality)

module _ (r : Random) (b : Builtins) (t : Times) (x : Texts) (cfg : Config) (w : Window) where
  take_parsed-AddsNothing :
      (parsed : Parsed) (p : Progress r)
      → IsSkipped w.prior_seen parsed
      → AddsNothing p (take_parsed r b t x cfg w parsed p)
  unfolding take_parsed
  take_parsed-AddsNothing (malformed reason) p h = (refl, refl, refl)
  take_parsed-AddsNothing (crashed e) p h = (refl, refl, refl)
  take_parsed-AddsNothing (observed obs) p (inl blank) = rw blank (refl, refl, refl)
  take_parsed-AddsNothing (observed obs) p (inr known) = elim (Bool-cases (is_empty obs.obs_id)) [
    | inl blank ↦ rw blank (refl, refl, refl)
    | inr full ↦ elim (Bool-cases (contains p.seen_batch obs.obs_id)) [
      | inl again ↦ rw (full, again) (refl, refl, refl)
      | inr fresh ↦ rw (full, fresh, known) (refl, refl, refl)
    ]
  ]

  pub stream-AddsNothing :
      (failure : Option String) (records : List Json) (p : Progress r)
      → All (λ raw. IsSkipped w.prior_seen (parse_observation b t x.lower raw)) records
      → AddsNothing p (stream r b t x cfg w failure records p)
  unfolding stream step
  stream-AddsNothing failure [] p h = (refl, refl, refl)
  stream-AddsNothing failure (raw ∷ rest) p (first, h) =
      elim (Bool-cases (is_full w.max_records p.records_read)) [
        | inl full ↦ rw full (refl, refl, refl)
        | inr more ↦
            let (n, a, q) =
              take_parsed-AddsNothing (parse_observation b t x.lower raw)
                (record p { records_read = p.records_read + 1 }) first in
            let (n', a', q') = stream-AddsNothing failure rest (step r b t x cfg w raw p) h in
            rw more (n' ∙ n, a' ∙ a, q' ∙ q)
      ]

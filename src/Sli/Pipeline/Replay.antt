-- ===== src/Sli/Pipeline/Replay.antt =====
-- That a run of pipeline.py skips what an earlier run has processed and its checkpoint still names.
pub mod Named
pub mod Skipped
use inference_control_plane.Prelude.{
  ℕ, ◌+◌, ◌-◌, ◌≤◌, String, Bool, true, false, Option, none, some, List, [], ◌∷◌, ◌==◌, ◌≡◌, ◌⊎◌,
  inl, inr, refl, sym, subst, ◌∙◌, ap, contains, arith, is_empty, All, All-mono, leb, Bool-cases,
  eq_iff, ◌||◌, ◌&&◌, if◌then◌else◌,
}
use inference_control_plane.Prelude.Dict.{Dict, keys, insert, lookup}
use inference_control_plane.Python.Json.{Json}
use inference_control_plane.Python.Builtins.{Builtins}
use inference_control_plane.Sli.Times.{Times}
use inference_control_plane.Sli.Models.{Observation}
use inference_control_plane.Sli.Models.Parse.{
  Parsed, observed, malformed, crashed, parse_observation,
}
use inference_control_plane.Sli.Governance.{Config}
use inference_control_plane.Sli.Normalize.{Texts}
use inference_control_plane.Sli.Quality.{Random}
use inference_control_plane.Sli.Checkpoint.{prune_seen, keep_prior}
use inference_control_plane.Sli.Checkpoint.Horizon.{Has, Occurs, prune_seen-kept, keep_current-Has}
use inference_control_plane.Sli.Pipeline.Run.{Arguments, prior_map, window_of}
use inference_control_plane.Sli.Pipeline.{
  Window, is_full, Progress, begin, process, take_parsed, step, stream,
}
use inference_control_plane.Sli.Pipeline.Replay.Named.{IsLate, IsNamedOf, stream-Goes}
use inference_control_plane.Sli.Pipeline.Replay.Skipped.{IsSkipped, AddsNothing, stream-AddsNothing}

contains-keys :
    (oid : String) (d : Dict Json) (v : Json) → lookup oid d ≡ some v → contains (keys d) oid ≡ true
unfolding lookup
contains-keys oid [] v h = absurd (cc h)
contains-keys oid ((k, w) ∷ d) v h = elim (Bool-cases (oid == k)) [
  | inl same ↦ rw same refl
  | inr other ↦ rw other (contains-keys oid d v (simp other at h))
]

module _ (r : Random) (b : Builtins) (t : Times) (x : Texts) (cfg : Config)
    (a later : Arguments) where
  -- The pass of the first run over some records.
  abbrev pub first_pass : Option String → List Json → Progress r
  first_pass failure records = stream r b t x cfg (window_of a) failure records (begin r)

  -- The map that the first run saves.
  abbrev pub saved_seen : Progress r → Dict Json
  saved_seen p = prune_seen t (prior_map a.loaded) p.current_seen (a.window_end - a.overlap)

  module _ (failure : Option String) (records : List Json)
      (kept : (oid : String)
        → contains (keys (prior_map a.loaded)) oid ≡ true
        → Has t
            (a.window_end - a.overlap)
            oid
            (keep_prior t (a.window_end - a.overlap) (prior_map a.loaded) []))
      (loads : (oid : String)
        → lookup oid (prior_map later.loaded)
          ≡ lookup oid (saved_seen (first_pass failure records))) where
    named-IsSkipped :
        (parsed : Parsed)
        → IsNamedOf r b t x cfg
            (a.window_end - a.overlap)
            (keys (prior_map a.loaded))
            a.max_records
            (first_pass failure records)
            parsed
        → IsSkipped (keys (prior_map later.loaded)) parsed
    unfolding prune_seen
    named-IsSkipped (malformed reason) h = tt
    named-IsSkipped (crashed e) h = tt
    named-IsSkipped (observed obs) (inl blank) = inl blank
    named-IsSkipped (observed obs) (inr named) = elim (Bool-cases (is_empty obs.obs_id)) [
      | inl blank ↦ inl blank
      | inr full ↦
          let cutoff = a.window_end - a.overlap in
          let current = (first_pass failure records).current_seen in
          let (v, found) : Has t cutoff obs.obs_id (saved_seen (first_pass failure records)) =
            elim named [
              | inl occurs ↦
                  prune_seen-kept t cutoff obs.obs_id (prior_map a.loaded) current full occurs
              | inr known ↦
                  keep_current-Has t cutoff obs.obs_id current
                    (keep_prior t cutoff (prior_map a.loaded) []) (kept obs.obs_id known)
            ] in
          inr (contains-keys obs.obs_id (prior_map later.loaded) v (loads obs.obs_id ∙ found))
    ]

    -- Let a run read its records to the end, none of them ending before its cutoff, and let every
    -- id that its checkpoint names outlast the pruning. A later run that has loaded the map which
    -- the first one saved, and is given the same records again, processes none of them: what is
    -- aggregated of observations and kept for the quality signal is what a pass without records has.
    -- Its own counters of what it has read and dropped still count them.
    pub replay-AddsNothing :
        (other_failure : Option String)
        → All (λ raw. IsLate (a.window_end - a.overlap) (parse_observation b t x.lower raw)) records
        → (first_pass failure records).read_truncated ≡ false
        → AddsNothing
            (begin r)
            (stream r b t x cfg (window_of later) other_failure records (begin r))
    replay-AddsNothing other_failure late whole =
        let (more, named) =
          stream-Goes r b t x cfg (a.window_end - a.overlap) (keys (prior_map a.loaded))
            a.max_records failure records (begin r) late tt whole in
        stream-AddsNothing r b t x cfg (window_of later) other_failure records (begin r) (
          All-mono _ _ records (λ raw h. named-IsSkipped (parse_observation b t x.lower raw) h)
            named)

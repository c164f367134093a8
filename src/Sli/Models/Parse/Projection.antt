-- ===== src/Sli/Models/Parse/Projection.antt =====
-- What `parse_observation` of models.py lets through.
use inference_control_plane.Prelude.{
  ℕ, ◌≤◌, String, Bool, true, false, Option, none, some, ◌∷◌, contains, ◌≡◌, ◌⊎◌, refl, arith, ltb,
  strip, subst, Bool-cases, inl, inr,
}
use inference_control_plane.Python.{Float, Exc, Result, ok, err, ◌>>=◌}
use inference_control_plane.Python.Json.{Json, null, bool, int, float, str, arr, obj, entry, get_or}
use inference_control_plane.Python.Builtins.{Builtins}
use inference_control_plane.Sli.Times.{Times, is_parse_error}
use inference_control_plane.Sli.Models.{Observation}
use inference_control_plane.Sli.Models.Values.{
  safe_types, mapping, text_of, total_cost, cost_of, marker, error_of,
}
use inference_control_plane.Sli.Models.Parse.{
  observed, malformed, crashed, malformed_reasons, Parts, parts_of, texts_of, counts_of, project,
  times_of, checked, finished, parse_observation,
}

-- A predicate of what a computation returns, if it returns.
unfoldable pub Yields : {A : Type 0} → (A → Type 0) → Result A → Type 0
Yields P (ok a) = P a
Yields P (err e) = Unit

bind-Yields :
    {A B : Type 0} (P : B → Type 0) (x : Result A) (f : A → Result B)
    → ((a : A) → x ≡ ok a → Yields P (f a))
    → Yields P (x >>= f)
unfolding Yields
bind-Yields P (ok a) f h = h a refl
bind-Yields P (err e) f h = tt

Yields-ok : {A : Type 0} (P : A → Type 0) (x : Result A) (a : A) → Yields P x → x ≡ ok a → P a
unfolding Yields
Yields-ok P x a h e = subst (Yields P) e h

-- A marker is one of the types of error that are let through, or the unknown one.
unfoldable pub IsMarker : Option String → Type 0
IsMarker none = Unit
IsMarker (some m) = contains ("__unknown__" ∷ safe_types) m ≡ true

marker-IsMarker :
    (b : Builtins) (t : Times) (lower : String → String) (raw_type : String)
    → IsMarker (some (marker b lower raw_type))
unfolding IsMarker
marker-IsMarker b t lower raw_type = elim (Bool-cases (contains safe_types raw_type)) [
  | inl e ↦ simp e (ground arith)
  | inr e ↦ simp e
]

abbrev HasValidCost : Option Float × Bool → Type 0
HasValidCost total = total.1 ≡ false ⊎ total.0 ≡ none

-- An observation ends no earlier than it starts, has no cost where the cost is invalid, and keeps of an
-- error a marker only.
unfoldable pub IsProjected : Observation → Type 0
unfolding IsMarker
IsProjected obs =
    (obs.start ≤ obs.finish)
    × (obs.cost_invalid ≡ false ⊎ obs.cost_total ≡ none)
    × IsMarker obs.error

module _ (b : Builtins) (t : Times) (lower : String → String) where
  total_cost-valid :
      (raw : Json) (total : Option Float × Bool)
      → total_cost b lower raw ≡ ok total
      → HasValidCost total
  unfolding total_cost cost_of
  total_cost-valid raw total h = elim (Bool-cases total.1) [
    | inl e ↦ inr (ground (arith, h, e))
    | inr e ↦ inl e
  ]

  error_of-IsMarker : (raw : Json) → Yields IsMarker (error_of b lower raw)
  unfolding error_of Yields get_or IsMarker
  error_of-IsMarker null = tt
  error_of-IsMarker (bool _) = tt
  error_of-IsMarker (int _) = tt
  error_of-IsMarker (float _) = tt
  error_of-IsMarker (str _) = tt
  error_of-IsMarker (arr _) = tt
  error_of-IsMarker (obj fs) =
      marker-IsMarker b t lower
        (lower (strip (text_of b lower (elim (entry "type" fs) [ none ↦ null | some v ↦ v ]))))

  abbrev AreValid : Parts → Type 0
  AreValid p = HasValidCost p.total × IsMarker p.error

  parts_of-AreValid : (raw : Json) → Yields AreValid (parts_of b t lower raw)
  unfolding parts_of Yields
  parts_of-AreValid raw = bind-Yields AreValid (mapping b lower raw "traceMetadata") _ (λ tm _.
      bind-Yields AreValid (mapping b lower raw "metadata") _ (λ md _.
        bind-Yields AreValid (mapping b lower raw "usageDetails") _ (λ usage _.
          bind-Yields AreValid (mapping b lower raw "costDetails") _ (λ cost _.
            bind-Yields AreValid (mapping b lower raw "modelParameters") _ (λ params _.
              bind-Yields AreValid (get_or cost "total" null) _ (λ raw_total _.
                bind-Yields AreValid (total_cost b lower raw_total) _ (λ total e.
                  bind-Yields AreValid (get_or params "stream" (bool false)) _ (λ stream _.
                    bind-Yields AreValid (get_or md "error" null) _ (λ raw_error _.
                      bind-Yields AreValid (error_of b lower raw_error) _ (λ error e'. (
                        total_cost-valid raw_total total e,
                        Yields-ok IsMarker (error_of b lower raw_error) error
                            (error_of-IsMarker raw_error) e',
                      )))))))))))

  project-IsProjected :
      (raw : Json) (start finish : ℕ)
      → start ≤ finish
      → Yields IsProjected (project b t lower raw start finish)
  unfolding project Yields IsProjected
  project-IsProjected raw start finish ordered =
      bind-Yields IsProjected (parts_of b t lower raw) _ (λ parts e.
        bind-Yields IsProjected (texts_of b t lower raw parts.tm) _ (λ labels _.
          bind-Yields IsProjected (counts_of b t lower raw parts.usage) _ (λ counts _.
            let (costs, marked) =
              Yields-ok AreValid (parts_of b t lower raw) parts (parts_of-AreValid raw) e in
            (ordered, costs, marked))))

  finished-IsProjected :
      (r : Result Observation) (obs : Observation)
      → Yields IsProjected r
      → finished b t lower r ≡ observed obs
      → IsProjected obs
  unfolding Yields
  finished-IsProjected (ok obs') obs h e = subst IsProjected (cc) h
  finished-IsProjected (err _) obs h e = absurd (cc e)

  checked-IsProjected :
      (raw : Json) (times : Result (Option ℕ × Option ℕ)) (obs : Observation)
      → checked b t lower raw times ≡ observed obs
      → IsProjected obs
  unfolding checked
  checked-IsProjected raw (err e) obs h = absurd (ground arith)
  checked-IsProjected raw (ok (some start, some finish)) obs h =
      elim (Bool-cases (ltb finish start)) [
        | inl early ↦ absurd (ground arith)
        | inr late ↦
            finished-IsProjected (project b t lower raw start finish) obs
              (project-IsProjected raw start finish (ground arith)) (simp late at h)
      ]
  checked-IsProjected raw (ok (none, finish)) obs h = absurd (cc h)
  checked-IsProjected raw (ok (some start, none)) obs h = absurd (cc h)

  -- An observation that is parsed ends no earlier than it starts, has no cost where its cost is
  -- invalid, and keeps of an error one of the listed types or the unknown marker.
  pub parse_observation-IsProjected :
      (raw : Json) (obs : Observation)
      → parse_observation b t lower raw ≡ observed obs
      → IsProjected obs
  unfolding parse_observation
  parse_observation-IsProjected raw obs h = checked-IsProjected raw (times_of b t lower raw) obs h

  listed :
      (code reason : String)
      → malformed code ≡ malformed reason
      → contains malformed_reasons code ≡ true
      → contains malformed_reasons reason ≡ true
  listed code reason h known =
      let same : code ≡ reason = cc in subst (λ s. contains malformed_reasons s ≡ true) same known

  crashed≢malformed : (e : Exc) (reason : String) → ¬ (crashed e ≡ malformed reason)
  crashed≢malformed e reason h = cc h

  finished-malformed :
      (r : Result Observation) (reason : String) → ¬ (finished b t lower r ≡ malformed reason)
  finished-malformed (ok obs) reason h = cc h
  finished-malformed (err e) reason h = cc h

  checked-reason :
      (raw : Json) (times : Result (Option ℕ × Option ℕ)) (reason : String)
      → checked b t lower raw times ≡ malformed reason
      → contains malformed_reasons reason ≡ true
  unfolding checked
  checked-reason raw (err e) reason h = elim (Bool-cases (is_parse_error e)) [
    | inl known ↦ listed "unparseable_timestamp" reason (simp known at h) refl
    | inr other ↦ absurd (crashed≢malformed e reason (simp other at h))
  ]
  checked-reason raw (ok (some start, some finish)) reason h =
      elim (Bool-cases (ltb finish start)) [
        | inl early ↦ listed "end_before_start" reason (simp early at h) refl
        | inr late ↦
            absurd (finished-malformed (project b t lower raw start finish) reason (simp late at h))
      ]
  checked-reason raw (ok (none, finish)) reason h = listed "missing_timestamp" reason h refl
  checked-reason raw (ok (some start, none)) reason h = listed "missing_timestamp" reason h refl

  -- The reason of a malformed record is one of the bounded codes.
  pub parse_observation-reason :
      (raw : Json) (reason : String)
      → parse_observation b t lower raw ≡ malformed reason
      → contains malformed_reasons reason ≡ true
  unfolding parse_observation
  parse_observation-reason raw reason h = checked-reason raw (times_of b t lower raw) reason h

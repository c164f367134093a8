-- ===== src/Sli/Quality.antt =====
-- `QualityAccumulator` of quality.py.
pub mod Reservoir
pub mod Scoring
use inference_control_plane.Prelude.{
  ℕ, zero, suc, ◌+◌, ◌≤◌, String, Bool, true, false, not, Option, none, some, List, [], ◌∷◌, ◌++◌,
  ◌==◌, ◌&&◌, ltb, eqb, length, if◌then◌else◌,
}
use inference_control_plane.Prelude.Table.{Table, update}
use inference_control_plane.Sli.Models.{Observation, is_error}
use inference_control_plane.Sli.Governance.{Config, Grouping, by_route, by_route_model}
use inference_control_plane.Sli.Normalize.{Texts, route, model_family}

-- `random.Random`: `randint low high`.
pub record Random : Type 1 where
  pub State : Type 0
  pub seeded : ℕ → State
  pub randint : ℕ → ℕ → State → ℕ × State

pub record QualityKey : Type 0 where
  pub key_route : String
  pub key_family : Option String

abbrev pub same_family : Option String → Option String → Bool
same_family none none = true
same_family (some a) (some b) = a == b
same_family _ _ = false

abbrev pub same_key : QualityKey → QualityKey → Bool
same_key a b = a.key_route == b.key_route && same_family a.key_family b.key_family

abbrev pub family_for : Grouping → String → Option String
family_for by_route family = none
family_for by_route_model family = some family

-- `_baseline_key`
unfoldable pub baseline_key : Texts → Observation → Config → QualityKey
unfolding route model_family
baseline_key x obs cfg = record {
  key_route = route x obs cfg;
  key_family = family_for cfg.anomaly.baseline_grouping (model_family x obs.provided_model);
}

-- `bucket[j] = v`, of an index in range.
unfoldable pub put : ℕ → ℕ → List ℕ → List ℕ
put j v [] = []
put zero v (x ∷ xs) = v ∷ xs
put (suc j) v (x ∷ xs) = x ∷ put j v xs

-- `d.get(key, default)`
unfoldable pub value_at {ℓ} : {K V : Type ℓ} → (K → K → Bool) → K → V → Table K V → V
value_at same k v [] = v
value_at same k v ((j, w) ∷ d) = if same k j then w else value_at same k v d

module _ (r : Random) where
  pub record QualityAccumulator : Type 0 where
    pub sample_cap : ℕ
    pub groups : Table QualityKey (List ℕ)
    pub empty_counts : Table QualityKey ℕ
    pub seen : Table QualityKey ℕ
    pub rng : r.State

  -- `__init__`, with its defaults.
  abbrev pub start : QualityAccumulator
  start = record {
    sample_cap = 50000;
    groups = [];
    empty_counts = [];
    seen = [];
    rng = r.seeded 1729;
  }

  -- A bucket and the generator, after a length.
  unfoldable pub sample : ℕ → ℕ → ℕ → List ℕ → r.State → List ℕ × r.State
  unfolding put
  sample cap seen tokens bucket rng =
      if ltb (length bucket) cap
      then (bucket ++ tokens ∷ [], rng)
      else (let (j, rng') = r.randint 0 seen rng in
          (if ltb j cap then put j tokens bucket else bucket, rng'))

  -- `add`. A bucket and its number of lengths are under the same key.
  unfoldable pub add_quality :
      Texts → Config → Observation → QualityAccumulator → QualityAccumulator
  unfolding is_error baseline_key sample update value_at
  add_quality x cfg obs acc =
      let key = baseline_key x obs cfg in
      let seen = value_at same_key key 0 acc.seen in
      let bucket = value_at same_key key [] acc.groups in
      let (bucket', rng') = sample acc.sample_cap seen obs.output_tokens bucket acc.rng in
      if is_error obs
      then acc
      else if eqb obs.output_tokens 0
      then record acc { empty_counts = update same_key key 0 (λ n. n + 1) acc.empty_counts }
      else record acc {
        groups = update same_key key [] (λ b. bucket') acc.groups;
        seen = update same_key key 0 (λ n. seen + 1) acc.seen;
        rng = rng';
      }

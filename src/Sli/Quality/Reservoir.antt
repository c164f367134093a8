-- ===== src/Sli/Quality/Reservoir.antt =====
-- That the sample of quality.py is bounded.
use inference_control_plane.Prelude.{
  ℕ, zero, suc, ◌≤◌, ◌≡◌, refl, ap, Bool, List, [], ◌∷◌, length, length-append, eqb, arith,
  Bool-cases, inl, inr,
}
use inference_control_plane.Prelude.Table.{Table, AllValues, AllValues-update}
use inference_control_plane.Sli.Models.{Observation, is_error}
use inference_control_plane.Sli.Governance.{Config}
use inference_control_plane.Sli.Normalize.{Texts}
use inference_control_plane.Sli.Quality.{
  Random, same_key, baseline_key, put, value_at, QualityAccumulator, sample, add_quality,
}

length-put : (j v : ℕ) (xs : List ℕ) → length (put j v xs) ≡ length xs
unfolding put
length-put j v [] = refl
length-put zero v (x ∷ xs) = refl
length-put (suc j) v (x ∷ xs) = ap suc (length-put j v xs)

value_at-AllValues {ℓ κ} :
    {K V : Type ℓ} (same : K → K → Bool) (P : V → Type κ) (k : K) (v : V) (d : Table K V)
    → P v
    → AllValues P d
    → P (value_at same k v d)
unfolding value_at
value_at-AllValues same P k v [] h all = h
value_at-AllValues same P k v ((j, w) ∷ d) h all = elim (Bool-cases (same k j)) [
  | inl e ↦ rw e all.0
  | inr e ↦ rw e (value_at-AllValues same P k v d h all.1)
]

module _ (r : Random) where
  -- No bucket holds more lengths than the cap.
  abbrev pub IsBounded : QualityAccumulator r → Type 0
  IsBounded acc = AllValues (λ xs. length xs ≤ acc.sample_cap) acc.groups

  sample-bounded :
      (cap seen tokens : ℕ) (bucket : List ℕ) (rng : r.State)
      → length bucket ≤ cap
      → length (sample r cap seen tokens bucket rng).0 ≤ cap
  unfolding sample
  sample-bounded cap seen tokens bucket rng h =
      ground (
        arith,
        length-append bucket (tokens ∷ []),
        length-put (r.randint 0 seen rng).0 tokens bucket,
      )

  -- Adding an observation, whatever numbers the generator draws, leaves no bucket with more lengths
  -- than the cap, if none had more before.
  pub add_quality-IsBounded :
      (x : Texts) (cfg : Config) (obs : Observation) (acc : QualityAccumulator r)
      → IsBounded acc
      → IsBounded (add_quality r x cfg obs acc)
  unfolding add_quality
  add_quality-IsBounded x cfg obs acc bounded = elim (Bool-cases (is_error obs)) [
    | inl e ↦ rw e bounded
    | inr e ↦ elim (Bool-cases (eqb obs.output_tokens 0)) [
      | inl z ↦ rw (e, z) bounded
      | inr z ↦
          rw (e, z)
            (let P : List ℕ → Type 0 = λ xs. length xs ≤ acc.sample_cap in
              let key = baseline_key x obs cfg in
              let bucket = value_at same_key key [] acc.groups in
              AllValues-update same_key P key []
                (λ b.
                  (sample r acc.sample_cap (value_at same_key key 0 acc.seen) obs.output_tokens
                    bucket acc.rng).0)
                acc.groups (omega arith)
                (λ w hw.
                  sample-bounded acc.sample_cap (value_at same_key key 0 acc.seen) obs.output_tokens
                    bucket acc.rng
                    (value_at-AllValues same_key P key [] acc.groups (omega arith) bounded))
                bounded)
    ]
  ]

-- ===== src/Sli/Aggregation/Accounting.antt =====
-- What the sums of an aggregator account for.
use inference_control_plane.Prelude.{
  ℕ, ◌+◌, ◌≡◌, refl, Bool, true, false, not, String, Option, none, some, List, [], ◌∷◌, length,
  contains, arith, if◌then◌else◌, is_empty, ◌&&◌, ◌||◌,
}
use inference_control_plane.Prelude.Table.{Table, total, total-update, AllValues, AllValues-update}
use inference_control_plane.Python.{Float, FloatOps}
use inference_control_plane.Sli.Models.{Observation, is_error, ttft_ms, latency_ms}
use inference_control_plane.Sli.Governance.{Config}
use inference_control_plane.Sli.Normalize.{Texts, PrimaryDims, same_dims, primary_dims, category_of}
use inference_control_plane.Sli.Histogram.{HistAcc, new, add}
use inference_control_plane.Sli.Histogram.Buckets.{new-IsValid, add-IsValid}
use inference_control_plane.Sli.Histogram.Buckets as Buckets
use inference_control_plane.Sli.Aggregation.{
  Aggregator, Outcomes, start, no_outcomes, no_cost, one_if, one_of, count_error, count_ttft,
  outcome, same_error, same_cost, is_missing, charge, cost_key, add_observation, fold,
}

-- The accounts agree: every observation is in one duration histogram, in one outcome and in one cost
-- entry, every error has one category, every observation with a time to the first token is in one
-- histogram of those, the missing and the invalid costs are those of the entries, and the buckets of
-- every histogram add up.
abbrev pub IsBalanced : Aggregator → Type 0
IsBalanced a =
    (total (λ h. h.count) a.dur ≡ a.observations)
    × (total (λ h. h.count) a.ttft ≡ a.ttft_eligible)
    × (total (λ c. c.success + c.error) a.counts ≡ a.observations)
    × (total (λ c. c.error) a.counts ≡ a.errors)
    × (total (λ n. n) a.errcat ≡ a.errors)
    × (total (λ e. e.requests) a.cost ≡ a.observations)
    × (total (λ e. e.missing) a.cost ≡ a.cost_missing)
    × (total (λ e. e.invalid) a.cost ≡ a.cost_invalid)
    × AllValues Buckets.IsValid a.dur
    × AllValues Buckets.IsValid a.ttft

module _ (f : FloatOps) where
  add-count : (v : Float) (h : HistAcc) → (add f v h).count ≡ h.count + 1
  unfolding add
  add-count v h = refl

  outcome-all :
      (b : Bool) (c : Outcomes)
      → (outcome b c).success + (outcome b c).error ≡ c.success + c.error + 1
  outcome-all true c = omega arith
  outcome-all false c = omega arith

  outcome-error : (b : Bool) (c : Outcomes) → (outcome b c).error ≡ c.error + one_if b
  outcome-error true c = refl
  outcome-error false c = omega arith

  module _ (x : Texts) (obs : Observation) (pk : PrimaryDims) where
    count_error-total :
        (b : Bool) (d : Table (PrimaryDims × String) ℕ)
        → total (λ n. n) (count_error x obs pk b d) ≡ total (λ n. n) d + one_if b
    unfolding count_error
    count_error-total true d =
        total-update same_error (λ n. n) 1 (pk, category_of x obs.error) 0 (λ n. n + 1) d refl
          (λ n. refl)
    count_error-total false d = omega arith

  module _ (bounds : List Float) (pk : PrimaryDims) where
    count_ttft-total :
        (t : Option Float) (d : Table PrimaryDims HistAcc)
        → total (λ h. h.count) (count_ttft f bounds pk t d) ≡ total (λ h. h.count) d + one_of t
    unfolding count_ttft
    count_ttft-total none d = omega arith
    count_ttft-total (some t) d =
        total-update same_dims (λ h. h.count) 1 pk (new f bounds) (add f t) d refl (add-count t)

    count_ttft-IsValid :
        (t : Option Float) (d : Table PrimaryDims HistAcc)
        → AllValues Buckets.IsValid d
        → AllValues Buckets.IsValid (count_ttft f bounds pk t d)
    unfolding count_ttft
    count_ttft-IsValid none d all = all
    count_ttft-IsValid (some t) d all =
        AllValues-update same_dims Buckets.IsValid pk (new f bounds) (add f t) d
          (new-IsValid f bounds) (add-IsValid f t) all

  module _ (x : Texts) (cfg : Config) where
    pub start-IsBalanced : IsBalanced start
    start-IsBalanced = (refl, refl, refl, refl, refl, refl, refl, refl, tt, tt)

    -- Adding an observation keeps the accounts in agreement: the counts of the duration
    -- histograms, the outcomes and the cost entries each add up to the observations, the error
    -- categories to the errors, the histograms of first tokens to the eligible ones, the missing
    -- and invalid costs to their totals, and the buckets of each histogram to its count.
    pub add_observation-IsBalanced :
        (obs : Observation) (a : Aggregator)
        → IsBalanced a
        → IsBalanced (add_observation f x cfg obs a)
    unfolding add_observation charge
    add_observation-IsBalanced obs a (d, t, c, e, ec, r, m, i, vd, vt) =
        let pk = primary_dims x obs cfg in
        let bounds = cfg.latency_buckets_ms in
        let key = cost_key f x cfg obs pk in
        (
          omega (
            arith,
            d,
            total-update same_dims (λ h. h.count) 1 pk (new f bounds) (add f (latency_ms f obs))
                a.dur refl (add-count (latency_ms f obs)),
          ),
          omega (arith, t, count_ttft-total bounds pk (ttft_ms f obs) a.ttft),
          omega (
            arith,
            c,
            total-update same_dims (λ c. c.success + c.error) 1 pk no_outcomes
                (outcome (is_error obs)) a.counts refl (outcome-all (is_error obs)),
          ),
          omega (
            arith,
            e,
            total-update same_dims (λ c. c.error) (one_if (is_error obs)) pk no_outcomes
                (outcome (is_error obs)) a.counts refl (outcome-error (is_error obs)),
          ),
          omega (arith, ec, count_error-total x obs pk (is_error obs) a.errcat),
          omega (
            arith,
            r,
            total-update same_cost (λ e. e.requests) 1 key (no_cost f) (charge f obs) a.cost refl
                (λ e. refl),
          ),
          omega (
            arith,
            m,
            total-update same_cost (λ e. e.missing) (one_if (is_missing obs)) key (no_cost f)
                (charge f obs) a.cost refl (λ e. refl),
          ),
          omega (
            arith,
            i,
            total-update same_cost (λ e. e.invalid) (one_if obs.cost_invalid) key (no_cost f)
                (charge f obs) a.cost refl (λ e. refl),
          ),
          AllValues-update same_dims Buckets.IsValid pk (new f bounds) (add f (latency_ms f obs))
              a.dur (new-IsValid f bounds) (add-IsValid f (latency_ms f obs)) vd,
          count_ttft-IsValid bounds pk (ttft_ms f obs) a.ttft vt,
        )

    skip_or_add-IsBalanced :
        (again : Bool) (obs : Observation) (a : Aggregator)
        → IsBalanced a
        → IsBalanced (if again then a else add_observation f x cfg obs a)
    skip_or_add-IsBalanced true obs a balanced = balanced
    skip_or_add-IsBalanced false obs a balanced = add_observation-IsBalanced obs a balanced

    skip_or_add-counted :
        (again : Bool) (obs : Observation) (a : Aggregator) (n : ℕ)
        → (if again then a else add_observation f x cfg obs a).observations
            + (if again then n + 1 else n)
          ≡ a.observations + n + 1
    unfolding add_observation
    skip_or_add-counted true obs a n = omega arith
    skip_or_add-counted false obs a n = omega arith

    -- From agreeing accounts, a batch ends in agreeing ones, and every observation of it is either
    -- aggregated or counted as a duplicate.
    pub fold-accounts :
        (batch : List Observation) (seen : List String) (n : ℕ) (a : Aggregator)
        → IsBalanced a
        → IsBalanced (fold f x cfg batch seen n a).0
          × ((fold f x cfg batch seen n a).0.observations + (fold f x cfg batch seen n a).1
              ≡ a.observations + n + length batch)
    unfolding fold add_observation
    fold-accounts [] seen n a balanced = (balanced, omega arith)
    fold-accounts (obs ∷ rest) seen n a balanced =
        let again = not (is_empty obs.obs_id) && contains seen obs.obs_id in
        let (balanced', counted) =
          fold-accounts rest (if is_empty obs.obs_id || again then seen else obs.obs_id ∷ seen)
            (if again then n + 1 else n) (if again then a else add_observation f x cfg obs a)
            (skip_or_add-IsBalanced again obs a balanced) in
        (balanced', omega (arith, counted, skip_or_add-counted again obs a n))

-- ===== src/Sli/Histogram.antt =====
-- `_HistAcc` and its percentiles, of sli.py.
pub mod Buckets
use inference_control_plane.Prelude.{
  ℕ, zero, suc, ◌+◌, String, Bool, true, false, Option, none, some, List, [], ◌∷◌, ltb, eqb, ◌&&◌,
  ◌||◌, if◌then◌else◌, map,
}
use inference_control_plane.Prelude.Dict.{Dict}
use inference_control_plane.Prelude.Table.{Table, update}
use inference_control_plane.Python.{Float, of_bits, FloatOps}
use inference_control_plane.Python.Builtins.{max_float}

-- The keys of the dict of counts. Floats with the same bits are equal. Python equates 0.0 and -0.0 as
-- well, which no configuration has among its bounds: they are positive.
abbrev pub same_float : Float → Float → Bool
same_float (of_bits m) (of_bits n) = eqb m n

-- `counts` is the dict without its key "inf", and `over` is the entry of that key.
pub record HistAcc : Type 0 where
  pub bounds : List Float
  pub counts : Table Float ℕ
  pub over : ℕ
  pub sum : Float
  pub count : ℕ
  pub least : Option Float
  pub greatest : Option Float

abbrev pub has_key : Float → Table Float ℕ → Bool
has_key b [] = false
has_key b ((k, c) ∷ d) = same_float b k || has_key b d

-- `{b: 0 for b in bounds}`, with each key once.
abbrev pub zeros : List Float → Table Float ℕ
zeros [] = []
zeros (b ∷ bs) = let rest = zeros bs in if has_key b rest then rest else (b, 0) ∷ rest

-- `counts[b]`, of a key that is there.
unfoldable pub entry_at : Float → Table Float ℕ → ℕ
entry_at b [] = 0
entry_at b ((k, c) ∷ d) = let rest = entry_at b d in if same_float b k then c else rest

-- The counts along the bounds.
abbrev pub counts_of : HistAcc → List ℕ
counts_of acc = map (λ b. entry_at b acc.counts) acc.bounds

-- `__init__`
abbrev pub new : FloatOps → List Float → HistAcc
new f bounds = record {
  bounds = bounds;
  counts = zeros bounds;
  over = 0;
  sum = f.of_nat 0;
  count = 0;
  least = none;
  greatest = none;
}

-- The loop of `add`: the first bound that is not below the value.
unfoldable pub slot : FloatOps → Float → List Float → Option Float
slot f v [] = none
slot f v (b ∷ bs) = let rest = slot f v bs in if f.le v b then some b else rest

-- What `add` does to the entries of the bounds, and what it adds to that of "inf".
unfoldable pub bump : Option Float → Table Float ℕ → Table Float ℕ × ℕ
unfolding update
bump none counts = (counts, 1)
bump (some b) counts = (update same_float b 0 (λ n. n + 1) counts, 0)

-- `v if old is None or better(v, old) else old`
abbrev pub pick : (Float → Float → Bool) → Float → Option Float → Option Float
pick better v none = some v
pick better v (some old) = some (if better v old then v else old)

unfoldable pub add : FloatOps → Float → HistAcc → HistAcc
unfolding bump slot
add f v acc =
    let (counts, over) = bump (slot f v acc.bounds) acc.counts in
    record acc {
      counts = counts;
      over = acc.over + over;
      sum = f.add acc.sum v;
      count = acc.count + 1;
      least = pick f.lt v acc.least;
      greatest = pick (λ x y. f.lt y x) v acc.greatest;
    }

-- `min(x, y)` on floats.
abbrev pub min_float : FloatOps → Float → Float → Float
min_float f x y = if f.lt y x then y else x

abbrev pub max_with : FloatOps → Float → Option Float → Float
max_with f x none = x
max_with f x (some y) = max_float f x y

abbrev pub min_with : FloatOps → Float → Option Float → Float
min_with f x none = x
min_with f x (some y) = min_float f x y

abbrev pub float_or : Float → Option Float → Float
float_or x none = x
float_or x (some y) = y

-- The loop of `_hist_percentile`.
unfoldable pub walk : FloatOps → HistAcc → Float → Float → Float → List Float → List ℕ → Float
unfolding max_float
walk f acc target cum prev (b ∷ bs) (c ∷ cs) =
    let rest = walk f acc target (f.add cum (f.of_nat c)) b bs cs in
    if ltb 0 c && f.le target (f.add cum (f.of_nat c))
    then (let fraction = f.div (f.sub target cum) (f.of_nat c) in
        let at_zero = f.le cum (f.of_nat 0) && f.le (f.of_nat 0) cum in
        let lower = if at_zero then max_with f prev acc.least else prev in
        let upper = min_with f b acc.greatest in
        f.add lower (f.mul (f.sub (max_float f lower upper) lower) fraction))
    else rest
walk f acc target cum prev bs cs = float_or prev acc.greatest

-- `_hist_percentile`
unfoldable pub hist_percentile : FloatOps → HistAcc → ℕ → Option Float
unfolding walk entry_at
hist_percentile f acc q =
    if eqb acc.count 0
    then none
    else if eqb acc.count 1
    then acc.least
    else some (
        walk f acc (f.mul (f.div (f.of_nat q) (f.of_nat 100)) (f.of_nat acc.count)) (f.of_nat 0)
          (float_or (f.of_nat 0) acc.least) acc.bounds (counts_of acc))

pub data Number : Type 0 where
  whole : ℕ → Number
  real : Float → Number

-- The dict `hist` of `_acc_to_point`.
pub record Hist : Type 0 where
  pub acc : HistAcc
  pub p50 : Option Float
  pub p95 : Option Float
  pub p99 : Option Float

pub record MetricPoint : Type 0 where
  pub name : String
  pub type : String
  pub unit : String
  pub dims : Dict String
  pub value : Option Number
  pub histogram : Option Hist

-- `_acc_to_point`
unfoldable pub acc_to_point : FloatOps → String → Dict String → HistAcc → MetricPoint
unfolding hist_percentile
acc_to_point f name dims acc = record {
  name = name;
  type = "histogram";
  unit = "ms";
  dims = dims;
  value = none;
  histogram = some (record {
    acc = acc;
    p50 = hist_percentile f acc 50;
    p95 = hist_percentile f acc 95;
    p99 = hist_percentile f acc 99;
  });
}

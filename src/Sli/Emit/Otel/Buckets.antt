-- ===== src/Sli/Emit/Otel/Buckets.antt =====
-- The data point of a histogram in emit/otel.py, against the values that the histogram was given.
use inference_control_plane.Prelude.{
  ℕ, ◌+◌, some, List, [], ◌∷◌, ◌++◌, map, ◌≡◌, refl, ap, ◌∙◌, arith, length, length-append, show,
}
use inference_control_plane.Python.{Float, FloatOps}
use inference_control_plane.Python.Json.{Json, str, arr, obj, float, Fields, entry}
use inference_control_plane.Sli.Histogram.{HistAcc, entry_at, counts_of, new, add}
use inference_control_plane.Prelude.Table.{total}
use inference_control_plane.Sli.Histogram.Buckets.{
  sum, IsValid, new-IsValid, add-IsValid, AreDistinct, HasKeys, zeros-HasKeys, add-HasKeys,
  entries-total,
}
use inference_control_plane.Sli.Emit.Otel.{Serializer, items, bucket_counts, histogram_point}

sum-append : (ns ms : List ℕ) → sum (ns ++ ms) ≡ sum ns + sum ms
sum-append [] ms = omega arith
sum-append (n ∷ ns) ms = omega (arith, sum-append ns ms)

length-map : (g : Float → ℕ) (xs : List Float) → length (map g xs) ≡ length xs
length-map g [] = refl
length-map g (x ∷ xs) = omega (arith, length-map g xs)

module _ (f : FloatOps) where
  -- A histogram after some values.
  abbrev pub filled : List Float → HistAcc → HistAcc
  filled [] acc = acc
  filled (v ∷ vs) acc = filled vs (add f v acc)

  -- With distinct bounds it counts every value, and keeps its bounds, also as keys.
  filled_lem :
      (vs : List Float) (acc : HistAcc)
      → AreDistinct acc.bounds
      → HasKeys acc.bounds acc.counts
      → IsValid acc
      → IsValid (filled vs acc)
        × ((filled vs acc).count ≡ acc.count + length vs)
        × ((filled vs acc).bounds ≡ acc.bounds)
        × HasKeys acc.bounds (filled vs acc).counts
  unfolding add
  filled_lem [] acc distinct keys valid = (valid, omega arith, refl, keys)
  filled_lem (v ∷ vs) acc distinct keys valid =
      let (kept, counted, same, named) =
        filled_lem vs (add f v acc) distinct (add-HasKeys f v acc distinct keys)
          (add-IsValid f v acc valid) in
      (kept, omega (arith, counted), same, named)

  -- The data point of a histogram says of its bounds and its buckets, and of how many values it has.
  abbrev pub Tells : Json → List Float → List ℕ → ℕ → Type 0
  Tells j bounds counts count =
      (fs : Fields) × (j ≡ obj fs)
      × (entry "explicitBounds" fs ≡ some (arr (items (map float bounds))))
      × (entry "bucketCounts" fs ≡ some (arr (items (map (λ c. str (show c)) counts))))
      × (entry "count" fs ≡ some (str (show count)))

  -- Let no bound occur twice. The data point of a histogram that was given any values has those bounds,
  -- one bucket more than bounds, and as its count the number of the values, which the counts of the
  -- buckets add up to.
  pub histogram_point-Tells :
      (s : Serializer) (attributes : Json) (bounds vs : List Float)
      → AreDistinct bounds
      → (counts : List ℕ) × Tells
          (histogram_point s attributes (filled vs (new f bounds)))
          bounds
          counts
          (length vs)
        × (length counts ≡ length bounds + 1)
        × (sum counts ≡ length vs)
  unfolding histogram_point
  histogram_point-Tells s attributes bounds vs distinct =
      let acc = filled vs (new f bounds) in
      let (valid, counted, same, named) =
        filled_lem vs (new f bounds) distinct (zeros-HasKeys bounds distinct)
          (new-IsValid f bounds) in
      let along = entries-total bounds acc.counts distinct named in
      let total_here : sum (counts_of acc) ≡ total (λ n. n) acc.counts =
        ap (λ bs. sum (map (λ b. entry_at b acc.counts) bs)) same ∙ along in
      (
        bucket_counts acc,
        (
          _,
          refl,
          ap (λ bs. some (arr (items (map float bs)))) same,
          refl,
          ap (λ n. some (str (show n)))
              (let n : acc.count ≡ length vs = omega (arith, counted) in n),
        ),
        omega (
          arith,
          length-append (counts_of acc) (acc.over ∷ []),
          length-map (λ b. entry_at b acc.counts) acc.bounds,
          ap length same,
        ),
        omega (arith, sum-append (counts_of acc) (acc.over ∷ []), total_here, valid.1, counted),
      )

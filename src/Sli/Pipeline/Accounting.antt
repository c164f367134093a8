-- ===== src/Sli/Pipeline/Accounting.antt =====
-- What the streaming pass of pipeline.py accounts for.
use inference_control_plane.Prelude.{
  ℕ, ◌+◌, ◌≤◌, String, false, Option, none, some, List, [], ◌∷◌, ◌==◌, ◌≡◌, ◌⊎◌, sym, subst, true,
  refl, contains, length, arith, is_empty, ◌∙◌, Bool-cases, inl, inr,
}
use inference_control_plane.Prelude.Table.{Table, total, total-update}
use inference_control_plane.Python.Json.{Json}
use inference_control_plane.Python.Builtins.{Builtins}
use inference_control_plane.Sli.Times.{Times}
use inference_control_plane.Sli.Models.Parse.{
  Parsed, observed, malformed, crashed, parse_observation,
}
use inference_control_plane.Sli.Governance.{Config}
use inference_control_plane.Sli.Normalize.{Texts}
use inference_control_plane.Sli.Aggregation.{add_observation}
use inference_control_plane.Sli.Aggregation.Accounting.{
  IsBalanced, add_observation-IsBalanced, start-IsBalanced,
}
use inference_control_plane.Sli.Quality.{Random}
use inference_control_plane.Sli.Pipeline.{
  Window, is_full, bump_reason, Progress, begin, process, take_parsed, step, stream,
}

-- No text occurs twice.
abbrev pub AreDistinct : List String → Type 0
AreDistinct [] = Unit
AreDistinct (k ∷ ks) = (contains ks k ≡ false) × AreDistinct ks

-- Every record that was read is processed or counted under one heading; an id is seen once, and
-- processed or counted as one of an earlier run; the aggregator has exactly what was processed, and
-- its accounts agree.
abbrev pub IsAccounted : (r : Random) → Progress r → Type 0
IsAccounted r p =
    (p.records_read
      ≡ p.processed + total (λ n. n) p.malformed_by_reason + p.duplicates + p.cross_run_duplicates)
    × AreDistinct p.seen_batch
    × (length p.seen_batch ≡ p.processed + p.cross_run_duplicates)
    × (p.aggregator.observations ≡ p.processed)
    × IsBalanced p.aggregator

reason-total :
    (reason : String) (d : Table String ℕ)
    → total (λ n. n) (bump_reason reason d) ≡ total (λ n. n) d + 1
reason-total reason d =
    total-update (λ a b. a == b) (λ n. n) 1 reason 0 (λ n. n + 1) d refl (λ n. refl)

-- At most the limit of records, where there is one.
unfoldable pub IsWithin : Option ℕ → ℕ → Type 0
IsWithin none n = Unit
IsWithin (some most) n = n ≤ most

not_full-IsWithin : (limit : Option ℕ) (n : ℕ) → is_full limit n ≡ false → IsWithin limit (n + 1)
unfolding is_full IsWithin
not_full-IsWithin none n h = tt
not_full-IsWithin (some most) n h = ground (arith, h)

module _ (r : Random) (b : Builtins) (t : Times) (x : Texts) (cfg : Config) (w : Window) where
  pub begin-IsAccounted : IsAccounted r (begin r)
  begin-IsAccounted = (refl, tt, refl, refl, start-IsBalanced b.floats x cfg)

  -- Taking a record keeps the account.
  take_parsed-IsAccounted :
      (parsed : Parsed) (p : Progress r)
      → IsAccounted r p
      → IsAccounted r
          (take_parsed r b t x cfg w parsed (record p { records_read = p.records_read + 1 }))
  unfolding take_parsed process add_observation
  take_parsed-IsAccounted (malformed reason) p (n, d, l, a, bal) =
      (omega (arith, n, reason-total reason p.malformed_by_reason), d, l, a, bal)
  take_parsed-IsAccounted (crashed e) p (n, d, l, a, bal) =
      (omega (arith, n, reason-total "unexpected_error" p.malformed_by_reason), d, l, a, bal)
  take_parsed-IsAccounted (observed obs) p (n, d, l, a, bal) =
      elim (Bool-cases (is_empty obs.obs_id)) [
        | inl blank ↦ rw blank (
          omega (arith, n, reason-total "missing_observation_id" p.malformed_by_reason),
          d,
          l,
          a,
          bal,
        )
        | inr full ↦ elim (Bool-cases (contains p.seen_batch obs.obs_id)) [
          | inl again ↦ rw (full, again) (omega (arith, n), d, l, a, bal)
          | inr fresh ↦ elim (Bool-cases (contains w.prior_seen obs.obs_id)) [
            | inl prior ↦
                rw (full, fresh, prior) (omega (arith, n), (fresh, d), omega (arith, l), a, bal)
            | inr new ↦
                rw (full, fresh, new)
                  (
                    omega (arith, n),
                    (fresh, d),
                    omega (arith, l),
                    omega (arith, a),
                    add_observation-IsBalanced b.floats x cfg obs p.aggregator bal,
                  )
          ]
        ]
      ]

  -- The streaming pass, over any records and from any accounted state, ends in an accounted one,
  -- at the end of the source, at its exception or at the limit: every record read is processed,
  -- malformed, quarantined, a duplicate or one of an earlier run; no id is taken twice; the
  -- aggregator has exactly the processed ones and its accounts agree.
  pub stream-IsAccounted :
      (failure : Option String) (records : List Json) (p : Progress r)
      → IsAccounted r p
      → IsAccounted r (stream r b t x cfg w failure records p)
  unfolding stream step
  stream-IsAccounted failure [] p h = h
  stream-IsAccounted failure (raw ∷ rest) p h =
      elim (Bool-cases (is_full w.max_records p.records_read)) [
        | inl full ↦ rw full h
        | inr more ↦ rw more (
            stream-IsAccounted failure rest (step r b t x cfg w raw p)
              (take_parsed-IsAccounted (parse_observation b t x.lower raw) p h))
      ]

  take_parsed-read :
      (parsed : Parsed) (p : Progress r)
      → ((take_parsed r b t x cfg w parsed p).records_read ≡ p.records_read)
        × ((take_parsed r b t x cfg w parsed p).read_truncated ≡ p.read_truncated)
  unfolding take_parsed process
  take_parsed-read (malformed reason) p = (refl, refl)
  take_parsed-read (crashed e) p = (refl, refl)
  take_parsed-read (observed obs) p = (ground arith, ground arith)

  step-read :
      (raw : Json) (p : Progress r)
      → ((step r b t x cfg w raw p).records_read ≡ p.records_read + 1)
        × ((step r b t x cfg w raw p).read_truncated ≡ p.read_truncated)
  unfolding step
  step-read raw p =
      take_parsed-read (parse_observation b t x.lower raw)
        (record p { records_read = p.records_read + 1 })

  -- A pass that is neither truncated nor over the limit at its start reads at most the limit of
  -- records; and at its end it is marked as truncated, or it has read every record and reports the
  -- source's failure.
  pub stream-limit :
      (failure : Option String) (records : List Json) (p : Progress r)
      → p.read_truncated ≡ false
      → IsWithin w.max_records p.records_read
      → IsWithin w.max_records (stream r b t x cfg w failure records p).records_read
        × (((stream r b t x cfg w failure records p).read_truncated ≡ true)
            ⊎ (((stream r b t x cfg w failure records p).records_read
                  ≡ p.records_read + length records)
                × ((stream r b t x cfg w failure records p).source_error ≡ failure)))
  unfolding stream
  stream-limit failure [] p open_yet within = (within, inr (omega arith, refl))
  stream-limit failure (raw ∷ rest) p open_yet within =
      let (one, kept) = step-read raw p in
      elim (Bool-cases (is_full w.max_records p.records_read)) [
        | inl full ↦ rw full (within, inl refl)
        | inr more ↦ rw more (
            let (limit, end) =
              stream-limit failure rest (step r b t x cfg w raw p) (kept ∙ open_yet) (
                subst (IsWithin w.max_records) (sym one)
                  (not_full-IsWithin w.max_records p.records_read more)) in
            (
              limit,
              elim end [
                | inl cut ↦ inl cut
                | inr (all, source) ↦ inr (omega (arith, all, one), source)
              ],
            ))
      ]

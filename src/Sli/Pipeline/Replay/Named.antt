-- ===== src/Sli/Pipeline/Replay/Named.antt =====
-- The ids that a pass of pipeline.py sees are named by its checkpoint, or by the one before.
use inference_control_plane.Prelude.{
  ℕ, ◌+◌, ◌≤◌, String, true, false, Option, some, List, [], ◌∷◌, ◌==◌, ◌≡◌, ◌⊎◌, inl, inr, refl,
  sym, subst, ◌∙◌, contains, arith, is_empty, All, All-mono, leb, Bool-cases, eq_iff,
}
use inference_control_plane.Prelude.Dict.{Dict, insert}
use inference_control_plane.Python.Json.{Json}
use inference_control_plane.Python.Builtins.{Builtins}
use inference_control_plane.Sli.Times.{Times}
use inference_control_plane.Sli.Models.{Observation}
use inference_control_plane.Sli.Models.Parse.{
  Parsed, observed, malformed, crashed, parse_observation,
}
use inference_control_plane.Sli.Governance.{Config}
use inference_control_plane.Sli.Normalize.{Texts}
use inference_control_plane.Sli.Quality.{Random}
use inference_control_plane.Sli.Checkpoint.Horizon.{Occurs}
use inference_control_plane.Sli.Pipeline.{
  Window, is_full, Progress, process, take_parsed, step, stream,
}

-- The observation ends at the cutoff or later.
abbrev pub IsLate : ℕ → Parsed → Type 0
IsLate cutoff (observed obs) = cutoff ≤ obs.finish
IsLate cutoff _ = Unit {0}

All-contains :
    (P : String → Type 0) (ks : List String) (k : String) → All P ks → contains ks k ≡ true → P k
All-contains P [] k all h = absurd (cc h)
All-contains P (j ∷ ks) k (here, all) h = elim (Bool-cases (k == j)) [
  | inl same ↦ subst P (sym ((eq_iff k j).0 same)) here
  | inr other ↦ All-contains P ks k all (simp other at h)
]

module _ (t : Times) (cutoff : ℕ) where
  insert-Occurs :
      (oid k : String) (finish : ℕ) (d : Dict ℕ)
      → cutoff ≤ finish
      → Occurs t cutoff oid d
      → Occurs t cutoff oid (insert k finish d)
  unfolding insert
  insert-Occurs oid k finish [] late occurs = elim occurs [ ]
  insert-Occurs oid k finish ((j, old) ∷ d) late (inl (same, was_late)) =
      elim (Bool-cases (k == j)) [
        | inl e ↦ rw e (inl ((eq_iff k j).0 e ∙ same, late))
        | inr e ↦ rw e (inl (same, was_late))
      ]
  insert-Occurs oid k finish ((j, old) ∷ d) late (inr occurs) = elim (Bool-cases (k == j)) [
    | inl e ↦ rw e (inr occurs)
    | inr e ↦ rw e (inr (insert-Occurs oid k finish d late occurs))
  ]

  insert_self-Occurs :
      (k : String) (finish : ℕ) (d : Dict ℕ)
      → cutoff ≤ finish
      → Occurs t cutoff k (insert k finish d)
  unfolding insert
  insert_self-Occurs k finish [] late = inl (refl, late)
  insert_self-Occurs k finish ((j, old) ∷ d) late = elim (Bool-cases (k == j)) [
    | inl e ↦ rw e (inl (refl, late))
    | inr e ↦ rw e (inr (insert_self-Occurs k finish d late))
  ]

module _ (r : Random) (b : Builtins) (t : Times) (x : Texts) (cfg : Config) (cutoff : ℕ)
    (prior : List String) (limit : Option ℕ) where
  abbrev collecting : Window
  collecting = record {
    prior_seen = prior;
    collect_seen = true;
    cutoff = some cutoff;
    max_records = limit;
  }

  -- The id is named by what the run was given, or by what it has collected.
  abbrev pub IsNamed : Progress r → String → Type 0
  IsNamed p oid = Occurs t cutoff oid p.current_seen ⊎ (contains prior oid ≡ true)

  abbrev pub IsNamedOf : Progress r → Parsed → Type 0
  IsNamedOf p (observed obs) = (is_empty obs.obs_id ≡ true) ⊎ IsNamed p obs.obs_id
  IsNamedOf p _ = Unit {0}

  -- A state after another one names what that one names.
  abbrev pub Names : Progress r → Progress r → Type 0
  Names p q = (oid : String) → IsNamed p oid → IsNamed q oid

  IsNamedOf-Names :
      (parsed : Parsed) (p q : Progress r) → Names p q → IsNamedOf p parsed → IsNamedOf q parsed
  IsNamedOf-Names (malformed reason) p q more h = tt
  IsNamedOf-Names (crashed e) p q more h = tt
  IsNamedOf-Names (observed obs) p q more (inl blank) = inl blank
  IsNamedOf-Names (observed obs) p q more (inr named) = inr (more obs.obs_id named)

  -- Taking a late record keeps what is named, and names every id that was seen.
  abbrev Goes : Parsed → Progress r → Progress r → Type 0
  Goes parsed p q = Names p q × All (IsNamed q) q.seen_batch × IsNamedOf q parsed

  process-Goes :
      (obs : Observation) (p q : Progress r)
      → cutoff ≤ obs.finish
      → All (IsNamed p) p.seen_batch
      → q.current_seen ≡ insert obs.obs_id obs.finish p.current_seen
      → q.seen_batch ≡ obs.obs_id ∷ p.seen_batch
      → Goes (observed obs) p q
  process-Goes obs p q late all seen batch =
      let more : Names p q = λ oid named. elim named [
        | inl occurs ↦ inl (
            subst (Occurs t cutoff oid) (sym seen)
              (insert-Occurs t cutoff oid obs.obs_id obs.finish p.current_seen late occurs))
        | inr known ↦ inr known
      ] in
      let self : IsNamed q obs.obs_id = inl (
        subst (Occurs t cutoff obs.obs_id) (sym seen)
          (insert_self-Occurs t cutoff obs.obs_id obs.finish p.current_seen late)) in
      (
        more,
        subst (All (IsNamed q)) (sym batch)
            (self, All-mono (IsNamed p) (IsNamed q) p.seen_batch more all),
        inr self,
      )

  take_parsed-Goes :
      (parsed : Parsed) (p : Progress r)
      → IsLate cutoff parsed
      → All (IsNamed p) p.seen_batch
      → Goes parsed p (
          take_parsed r b t x cfg collecting parsed
            (record p { records_read = p.records_read + 1 }))
  unfolding take_parsed process
  take_parsed-Goes (malformed reason) p late all = (λ oid named. named, all, tt)
  take_parsed-Goes (crashed e) p late all = (λ oid named. named, all, tt)
  take_parsed-Goes (observed obs) p late all = elim (Bool-cases (is_empty obs.obs_id)) [
    | inl blank ↦ rw blank (λ oid named. named, all, inl refl)
    | inr full ↦ elim (Bool-cases (contains p.seen_batch obs.obs_id)) [
      | inl again ↦
          rw (full, again)
            (
              λ oid named. named,
              all,
              inr (All-contains (IsNamed p) p.seen_batch obs.obs_id all again),
            )
      | inr fresh ↦ elim (Bool-cases (contains prior obs.obs_id)) [
        | inl known ↦ rw (full, fresh, known) (λ oid named. named, (inr known, all), inr (inr refl))
        | inr new ↦
            let at_end : leb cutoff obs.finish ≡ true = ground (arith, late) in
            process-Goes obs p
              (take_parsed r b t x cfg collecting (observed obs)
                (record p { records_read = p.records_read + 1 }))
              late all (simp (full, fresh, new, at_end)) (simp (full, fresh, new))
      ]
    ]
  ]

  -- The records of a pass that reaches its end are named by its end.
  pub stream-Goes :
      (failure : Option String) (records : List Json) (p : Progress r)
      → All (λ raw. IsLate cutoff (parse_observation b t x.lower raw)) records
      → All (IsNamed p) p.seen_batch
      → (stream r b t x cfg collecting failure records p).read_truncated ≡ false
      → Names p (stream r b t x cfg collecting failure records p)
        × All
            (λ raw.
              IsNamedOf
                (stream r b t x cfg collecting failure records p)
                (parse_observation b t x.lower raw))
            records
  unfolding stream step
  stream-Goes failure [] p late all whole = (λ oid named. named, tt)
  stream-Goes failure (raw ∷ rest) p (first, late) all whole =
      elim (Bool-cases (is_full limit p.records_read)) [
        | inl full ↦ absurd (let cut : true ≡ false = simp full at whole in cc cut)
        | inr more ↦
            let parsed = parse_observation b t x.lower raw in
            let (kept, all', here) = take_parsed-Goes parsed p first all in
            let q = step r b t x cfg collecting raw p in
            let (further, there) = stream-Goes failure rest q late all' (simp more at whole) in
            let same : stream r b t x cfg collecting failure (raw ∷ rest) p
                ≡ stream r b t x cfg collecting failure rest q =
              simp more in
            subst
              (λ s.
                Names p s
                × All (λ json. IsNamedOf s (parse_observation b t x.lower json)) (raw ∷ rest))
              (sym same)
              (
                λ oid named. further oid (kept oid named),
                (
                  IsNamedOf-Names parsed q (stream r b t x cfg collecting failure rest q) further
                      here,
                  there,
                ),
              )
      ]

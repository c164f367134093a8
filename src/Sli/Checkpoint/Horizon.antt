-- ===== src/Sli/Checkpoint/Horizon.antt =====
-- What `prune_seen` of checkpoint.py keeps.
use inference_control_plane.Prelude.{
  ℕ, ◌≤◌, String, Bool, true, false, not, some, [], ◌∷◌, leb, All, is_empty, ◌&&◌, ◌≡◌, refl, arith,
  if◌then◌else◌, Bool-cases, inl, inr, eq_refl, ◌==◌, ◌⊎◌, subst, sym,
}
use inference_control_plane.Prelude.Dict.{Dict, insert, lookup, lookup-insert}
use inference_control_plane.Python.Json.{Json, str}
use inference_control_plane.Sli.Times.{Times, IsExact, parse_ts}
use inference_control_plane.Sli.Checkpoint.{is_recent, keep_prior, keep_current, prune_seen}

module _ (t : Times) (cutoff : ℕ) where
  abbrev pub IsRecent : String × Json → Type 0
  IsRecent (oid, end_iso) = (is_empty oid ≡ false) × (is_recent cutoff (parse_ts t end_iso) ≡ true)

  insert-IsRecent :
      (oid : String) (v : Json) (d : Dict Json)
      → IsRecent (oid, v)
      → All IsRecent d
      → All IsRecent (insert oid v d)
  unfolding insert
  insert-IsRecent oid v [] h all = (h, tt)
  insert-IsRecent oid v ((j, w) ∷ d) h all = elim (Bool-cases (oid == j)) [
    | inl e ↦ rw e (h, all.1)
    | inr e ↦ rw e (all.0, insert-IsRecent oid v d h all.1)
  ]

  insert_if-IsRecent :
      (c : Bool) (oid : String) (v : Json) (d : Dict Json)
      → (c ≡ true → IsRecent (oid, v))
      → All IsRecent d
      → All IsRecent (if c then insert oid v d else d)
  insert_if-IsRecent true oid v d h all = insert-IsRecent oid v d (h refl) all
  insert_if-IsRecent false oid v d h all = all

  keep_prior-IsRecent :
      (prior out : Dict Json) → All IsRecent out → All IsRecent (keep_prior t cutoff prior out)
  unfolding keep_prior
  keep_prior-IsRecent [] out all = all
  keep_prior-IsRecent ((oid, v) ∷ prior) out all =
      keep_prior-IsRecent prior
        (if not (is_empty oid) && is_recent cutoff (parse_ts t v) then insert oid v out else out)
        (insert_if-IsRecent (not (is_empty oid) && is_recent cutoff (parse_ts t v)) oid v out
          (λ h. ground arith) all)

  module _ (exact : IsExact t) where
    written-IsRecent :
        (finish : ℕ)
        → leb cutoff finish ≡ true
        → is_recent cutoff (parse_ts t (str (t.isoformat finish))) ≡ true
    unfolding parse_ts
    written-IsRecent finish h = simp (exact.isoformat-full, exact.rfc3339-isoformat, h)

    keep_current-IsRecent :
        (current : Dict ℕ) (out : Dict Json)
        → All IsRecent out
        → All IsRecent (keep_current t cutoff current out)
    unfolding keep_current
    keep_current-IsRecent [] out all = all
    keep_current-IsRecent ((oid, finish) ∷ current) out all =
        let v = str (t.isoformat finish) in
        keep_current-IsRecent current
          (if not (is_empty oid) && leb cutoff finish then insert oid v out else out)
          (insert_if-IsRecent (not (is_empty oid) && leb cutoff finish) oid v out
            (λ h. (ground arith, written-IsRecent finish (ground arith))) all)

    -- With exact times, every entry that pruning keeps has an id that is not empty and a time that
    -- parses and is not before the cutoff.
    pub prune_seen-IsRecent :
        (prior : Dict Json) (current : Dict ℕ) → All IsRecent (prune_seen t prior current cutoff)
    unfolding prune_seen
    prune_seen-IsRecent prior current =
        keep_current-IsRecent current (keep_prior t cutoff prior [])
          (keep_prior-IsRecent prior [] tt)

  -- Whether an id is in a map.
  abbrev pub Has : String → Dict Json → Type 0
  Has oid d = (v : Json) × (lookup oid d ≡ some v)

  insert-Has : (oid k : String) (v : Json) (d : Dict Json) → Has oid d → Has oid (insert k v d)
  insert-Has oid k v d (w, h) = elim (Bool-cases (oid == k)) [
    | inl e ↦ (v, simp (lookup-insert, e))
    | inr e ↦ (w, simp (lookup-insert, e, h))
  ]

  insert_if-Has :
      (c : Bool) (oid k : String) (v : Json) (d : Dict Json)
      → Has oid d
      → Has oid (if c then insert k v d else d)
  insert_if-Has true oid k v d h = insert-Has oid k v d h
  insert_if-Has false oid k v d h = h

  insert_self-Has :
      (c : Bool) (oid : String) (v : Json) (d : Dict Json)
      → c ≡ true
      → Has oid (if c then insert oid v d else d)
  insert_self-Has true oid v d h = (v, simp (lookup-insert, eq_refl))
  insert_self-Has false oid v d h = absurd (cc h)

  keep_prior-Has :
      (oid : String) (prior out : Dict Json) → Has oid out → Has oid (keep_prior t cutoff prior out)
  unfolding keep_prior
  keep_prior-Has oid [] out h = h
  keep_prior-Has oid ((k, v) ∷ prior) out h =
      keep_prior-Has oid prior _
        (insert_if-Has (not (is_empty k) && is_recent cutoff (parse_ts t v)) oid k v out h)

  pub keep_current-Has :
      (oid : String) (current : Dict ℕ) (out : Dict Json)
      → Has oid out
      → Has oid (keep_current t cutoff current out)
  unfolding keep_current
  keep_current-Has oid [] out h = h
  keep_current-Has oid ((k, finish) ∷ current) out h =
      keep_current-Has oid current _ (
        insert_if-Has (not (is_empty k) && leb cutoff finish) oid k (str (t.isoformat finish)) out
          h)

  -- An id occurs in a map with a time that is not before the cutoff.
  abbrev pub Occurs : String → Dict ℕ → Type 0
  Occurs oid [] = ⊥
  Occurs oid ((k, finish) ∷ current) = ((k ≡ oid) × (cutoff ≤ finish)) ⊎ Occurs oid current

  keep_current-kept :
      (oid : String) (current : Dict ℕ) (out : Dict Json)
      → is_empty oid ≡ false
      → Occurs oid current
      → Has oid (keep_current t cutoff current out)
  unfolding keep_current
  keep_current-kept oid [] out full occurs = elim occurs [ ]
  keep_current-kept oid ((k, finish) ∷ current) out full (inl (same, late)) =
      keep_current-Has oid current _ (
        subst
          (λ i. Has oid (
            if not (is_empty i) && leb cutoff finish
            then insert i (str (t.isoformat finish)) out
            else out))
          (sym same)
          (insert_self-Has (not (is_empty oid) && leb cutoff finish) oid (str (t.isoformat finish))
            out (ground (arith, full))))
  keep_current-kept oid ((k, finish) ∷ current) out full (inr later) =
      keep_current-kept oid current _ full later

  -- An id of the window that is not empty and ends at the cutoff or later is in the pruned map.
  pub prune_seen-kept :
      (oid : String) (prior : Dict Json) (current : Dict ℕ)
      → is_empty oid ≡ false
      → Occurs oid current
      → Has oid (prune_seen t prior current cutoff)
  unfolding prune_seen
  prune_seen-kept oid prior current full occurs =
      keep_current-kept oid current (keep_prior t cutoff prior []) full occurs

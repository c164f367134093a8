-- ===== src/Prelude/Dict.antt =====
-- Python dicts with text keys, in insertion order: `d[k] = v` keeps the place of a key that is there.
use Prim.Native.String.{String, compare}
use mathlib.Core.Path.{◌≡◌, refl, ap, ◌∙◌}
use mathlib.Core.Option.{Option, none, some}
use mathlib.Core.List.{List, [], ◌∷◌, map}
use native.Mathlib.Omega.{arith}
use text.Mathlib.Text.{◌==◌, is_lt}
use text.Mathlib.TextEquality.{eq_iff}
use text.Mathlib.TextPositions.{eq_refl}
use inference_control_plane.Prelude.Tests.{if◌then◌else◌, Bool-cases}
use mathlib.Core.Logic.{inl, inr}
use inference_control_plane.Prelude.Lists.{All}

abbrev pub Dict {ℓ} : Type ℓ → Type ℓ
Dict V = List (String × V)

module _ {ℓ} {V : Type ℓ} where
  abbrev pub keys : Dict V → List String
  keys = map (λ e. e.0)

  -- `d.get(k)`
  unfoldable pub lookup : String → Dict V → Option V
  lookup k [] = none
  lookup k ((j, v) ∷ d) = if k == j then some v else lookup k d

  -- `d[k] = v`
  unfoldable pub insert : String → V → Dict V → Dict V
  insert k v [] = (k, v) ∷ []
  insert k v ((j, w) ∷ d) = if k == j then (k, v) ∷ d else (j, w) ∷ insert k v d

  -- `d.get(k, default)`
  abbrev pub or_default : V → Option V → V
  or_default v none = v
  or_default v (some w) = w

  pub lookup-insert :
      (j k : String) (v : V) (d : Dict V)
      → lookup j (insert k v d) ≡ (if j == k then some v else lookup j d)
  unfolding lookup insert
  lookup-insert j k v [] = refl
  lookup-insert j k v ((i, w) ∷ d) =
      ground (arith, eq_iff k i, eq_iff j k, eq_iff j i, lookup-insert j k v d)

  pub lookup-insert_self : (k : String) (v : V) (d : Dict V) → lookup k (insert k v d) ≡ some v
  lookup-insert_self k v d = simp (lookup-insert, eq_refl)

module _ {ℓ} {V : Type ℓ} where
  -- The place of an entry among sorted ones: before those of the same key.
  unfoldable pub place : String × V → Dict V → Dict V
  place e [] = e ∷ []
  place e (g ∷ d) = let rest = place e d in if is_lt (compare g.0 e.0) then g ∷ rest else e ∷ g ∷ d

  -- `sorted(d.items())`, by the keys.
  unfoldable pub sorted_items : Dict V → Dict V
  unfolding place
  sorted_items [] = []
  sorted_items (e ∷ d) = place e (sorted_items d)

  lookup-place :
      (k : String) (e : String × V) (d : Dict V)
      → lookup k (place e d) ≡ (if k == e.0 then some e.1 else lookup k d)
  unfolding lookup place
  lookup-place k e [] = refl
  lookup-place k e (g ∷ d) =
      ground (arith, eq_iff k g.0, eq_iff k e.0, eq_iff g.0 e.0, eq_refl g.0, lookup-place k e d)

  -- Sorting keeps what every key has.
  pub lookup-sorted_items : (k : String) (d : Dict V) → lookup k (sorted_items d) ≡ lookup k d
  unfolding lookup sorted_items
  lookup-sorted_items k [] = refl
  lookup-sorted_items k ((j, v) ∷ d) =
      lookup-place k (j, v) (sorted_items d)
      ∙ ap (λ o. if k == j then some v else o) (lookup-sorted_items k d)

  All-place {κ} :
      (P : String × V → Type κ) (e : String × V) (d : Dict V) → P e → All P d → All P (place e d)
  unfolding place
  All-place P e [] he hd = (he, tt)
  All-place P e (g ∷ d) he hd = elim (Bool-cases (is_lt (compare g.0 e.0))) [
    | inl l ↦ rw l (hd.0, All-place P e d he hd.1)
    | inr l ↦ rw l (he, hd)
  ]

  -- Sorting keeps what all entries have.
  pub All-sorted_items {κ} :
      (P : String × V → Type κ) (d : Dict V) → All P d → All P (sorted_items d)
  unfolding sorted_items
  All-sorted_items P [] h = tt
  All-sorted_items P (e ∷ d) h = All-place P e (sorted_items d) h.0 (All-sorted_items P d h.1)

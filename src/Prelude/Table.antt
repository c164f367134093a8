-- ===== src/Prelude/Table.antt =====
-- Python dicts with keys of any type, in insertion order, and the update of a `defaultdict`.
use Prim.Native.Nat.{ℕ, ◌+◌}
use mathlib.Core.Path.{◌≡◌}
use mathlib.Core.Bool.{Bool}
use mathlib.Core.List.{List, [], ◌∷◌}
use native.Mathlib.Omega.{arith}
use inference_control_plane.Prelude.Tests.{if◌then◌else◌, Bool-cases}
use mathlib.Core.Logic.{inl, inr}
use inference_control_plane.Prelude.Lists.{All}

abbrev pub Table {ℓ} : Type ℓ → Type ℓ → Type ℓ
Table K V = List (K × V)

module _ {ℓ} {K V : Type ℓ} (same : K → K → Bool) where
  -- `d[k] = f(d[k])`, where a missing key has the value `v`.
  unfoldable pub update : K → V → (V → V) → Table K V → Table K V
  update k v f [] = (k, f v) ∷ []
  update k v f ((j, w) ∷ d) = if same k j then (j, f w) ∷ d else (j, w) ∷ update k v f d

module _ {ℓ} {K V : Type ℓ} where
  -- The sum of a number that the values have.
  abbrev pub total : (V → ℕ) → Table K V → ℕ
  total n [] = 0
  total n ((k, v) ∷ d) = n v + total n d

  abbrev pub AllValues {κ} : (V → Type κ) → Table K V → Type κ
  AllValues P d = All (λ e. P e.1) d

  pub total-update :
      (same : K → K → Bool) (n : V → ℕ) (more : ℕ) (k : K) (v : V) (f : V → V) (d : Table K V)
      → n v ≡ 0
      → ((w : V) → n (f w) ≡ n w + more)
      → total n (update same k v f d) ≡ total n d + more
  unfolding update
  total-update same n more k v f [] none_yet step = omega (arith, step v, none_yet)
  total-update same n more k v f ((j, w) ∷ d) none_yet step =
      ground (arith, step w, total-update same n more k v f d none_yet step)

  pub AllValues-update {κ} :
      (same : K → K → Bool) (P : V → Type κ) (k : K) (v : V) (f : V → V) (d : Table K V)
      → P v
      → ((w : V) → P w → P (f w))
      → AllValues P d
      → AllValues P (update same k v f d)
  unfolding update
  AllValues-update same P k v f [] start step all = (step v start, tt)
  AllValues-update same P k v f ((j, w) ∷ d) start step all = elim (Bool-cases (same k j)) [
    | inl e ↦ rw e (step w all.0, all.1)
    | inr e ↦ rw e (all.0, AllValues-update same P k v f d start step all.1)
  ]

  -- A predicate that every key satisfies.
  abbrev pub AllKeys {κ} : (K → Type κ) → Table K V → Type κ
  AllKeys P d = All (λ e. P e.0) d

  pub AllKeys-update {κ} :
      (same : K → K → Bool) (P : K → Type κ) (k : K) (v : V) (f : V → V) (d : Table K V)
      → P k
      → AllKeys P d
      → AllKeys P (update same k v f d)
  unfolding update
  AllKeys-update same P k v f [] one all = (one, tt)
  AllKeys-update same P k v f ((j, w) ∷ d) one all = elim (Bool-cases (same k j)) [
    | inl e ↦ rw e all
    | inr e ↦ rw e (all.0, AllKeys-update same P k v f d one all.1)
  ]

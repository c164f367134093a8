-- ===== src/Redis.antt =====
-- The calls that the control plane makes of its Redis server, and what it assumes of them.
pub mod Memory
use inference_control_plane.Prelude.{ℕ, ◌+◌, String, ◌≡◌, Option, none, some, ◌==◌, if◌then◌else◌}
use inference_control_plane.Prelude.Int.{ℤ, pos}
use inference_control_plane.Python.{Result, ok}
use inference_control_plane.Python.Exec.{Exec}

-- `incr_ttl` is the transaction `INCR key; TTL key`. Each call may raise.
pub record Redis (Text : Type 0) : Type 1 where
  pub State : Type 0
  pub incr_ttl : String → Exec State (ℤ × ℤ)
  pub expire : String → ℕ → Exec State (Unit {0})
  pub get : String → Exec State (Option Text)
  pub set : String → Text → ℕ → Exec State (Unit {0})

-- A server that answers, while no key expires: `count` and `value` are what it holds.
pub record IsReliable {Text : Type 0} (R : Redis Text) : Type 0 where
  pub count : R.State → String → ℕ
  pub value : R.State → String → Option Text
  pub ttl : R.State → String → ℤ
  pub incr : R.State → String → R.State
  pub incr_ttl_lem :
      (k : String) (s : R.State) → R.incr_ttl k s ≡ (ok (pos (count s k + 1), ttl s k), incr s k)
  pub count-incr :
      (k j : String) (s : R.State)
      → count (incr s k) j ≡ (if j == k then count s k + 1 else count s j)
  pub expire_ok : (k : String) (n : ℕ) (s : R.State) → (R.expire k n s).0 ≡ ok tt
  pub count-expire : (k j : String) (n : ℕ) (s : R.State) → count (R.expire k n s).1 j ≡ count s j
  pub get_lem : (k : String) (s : R.State) → R.get k s ≡ (ok (value s k), s)
  pub set_ok : (k : String) (v : Text) (n : ℕ) (s : R.State) → (R.set k v n s).0 ≡ ok tt
  pub value-set :
      (k j : String) (v : Text) (n : ℕ) (s : R.State)
      → value (R.set k v n s).1 j ≡ (if j == k then some v else value s j)

-- ===== src/Python/Exec.antt =====
-- Actions on a state that may raise. What was written before a raise stays written.
use inference_control_plane.Prelude.{◌≡◌, refl}
use inference_control_plane.Python.{Exc, Result, ok, err}

abbrev pub Exec {ℓ} : Type ℓ → Type ℓ → Type ℓ
Exec S A = S → Result A × S

module _ {ℓ} {S A B : Type ℓ} where
  -- The rest of a block, after an action that has returned or raised.
  abbrev pub continue : Result A × S → (A → Exec S B) → Result B × S
  continue (ok a, s) f = f a s
  continue (err e, s) f = (err e, s)

module _ {ℓ} {S A : Type ℓ} where
  -- `except Exception`: the handler sees the exception and the state that the block left.
  abbrev pub catch : Result A × S → (Exc → Exec S A) → Result A × S
  catch (ok a, s) f = (ok a, s)
  catch (err e, s) f = f e s

-- An action that is known to return goes on from its state.
pub continue-ok {ℓ} :
    {S A B : Type ℓ} (x : Result A × S) (f : A → Exec S B) (a : A)
    → x.0 ≡ ok a
    → continue x f ≡ f a x.1
continue-ok (ok b, s) f a h = cc
continue-ok (err e, s) f a h = absurd (cc h)

-- A property of the outcome of a block, from one of its first action and one of the rest.
pub continue_post {ℓ κ} :
    {S A B : Type ℓ} (P : Result B × S → Type κ) (x : Result A × S) (f : A → Exec S B)
    → ((e : Exc) (s : S) → x ≡ (err e, s) → P (err e, s))
    → ((a : A) (s : S) → x ≡ (ok a, s) → P (f a s))
    → P (continue x f)
continue_post P (ok a, s) f raised returned = returned a s refl
continue_post P (err e, s) f raised returned = raised e s refl

pub catch_post {ℓ κ} :
    {S A : Type ℓ} (P : Result A × S → Type κ) (x : Result A × S) (f : Exc → Exec S A)
    → ((a : A) (s : S) → x ≡ (ok a, s) → P (ok a, s))
    → ((e : Exc) (s : S) → x ≡ (err e, s) → P (f e s))
    → P (catch x f)
catch_post P (ok a, s) f returned raised = returned a s refl
catch_post P (err e, s) f returned raised = raised e s refl

-- ===== src/Sli/Checkpoint/Dynamo/Versions.antt =====
-- Which of several writers commits, in checkpoint.py.
use inference_control_plane.Prelude.{
  Bool-cases, ◌⊎◌, ℕ, zero, suc, ◌+◌, ◌≤◌, String, true, false, Option, none, some, ◌≡◌, ◌≢◌, refl,
  ap, sym, ◌∙◌, arith, eqb, Option-cases, inl, inr, ◌<>◌, show,
}
use inference_control_plane.Python.Builtins.{JsonCodec}
use inference_control_plane.Sli.Times.{Times}
use inference_control_plane.Sli.Checkpoint.{Checkpoint}
use inference_control_plane.Sli.Checkpoint.Dynamo.{
  checkpoint_conflict, Reply, done, failed, Item, Boto, meets, IsConditional, translate, surface,
  condition_at, item_for, loaded, load, save,
}

-- The version of an item, 0 for none.
abbrev pub version_of : {Text : Type 0} → Option (Item Text) → ℕ
version_of none = 0
version_of (some item) = item.version

abbrev pub conflict : String → ℕ → Reply (Unit {0})
conflict job version = failed (
    checkpoint_conflict (
      "checkpoint for job '"
      <> job
      <> "' was advanced by another writer (expected version "
      <> show version
      <> ")"))

module _ (t : Times) (J : JsonCodec) (C : Boto J.Text) (conditional : IsConditional C)
    (job : String) where
  open conditional use {item_of, get_lem, put_done, put-item_of, put_refused}

  -- An item that the stores write has a version from 1.
  abbrev pub IsWritten : C.State → Type 0
  IsWritten s = (item : Item J.Text) → item_of job s ≡ some item → 1 ≤ item.version

  meets-version :
      (version : ℕ) (item : Option (Item J.Text))
      → ((i : Item J.Text) → item ≡ some i → 1 ≤ i.version)
      → meets (condition_at version) item ≡ eqb (version_of item) version
  meets-version zero none w = refl
  meets-version zero (some i) w = ground (arith, w i refl)
  meets-version (suc n) none w = ground arith
  meets-version (suc n) (some i) w = refl

  save_commits :
      (cp : Checkpoint) (version : ℕ) (s : C.State)
      → meets (condition_at version) (item_of job s) ≡ true
      → ((save t J C job cp version s).0 ≡ done tt)
        × ((save t J C job cp version s).1 ≡ version + 1)
        × (item_of job (save t J C job cp version s).2 ≡ some (item_for t J C (version + 1) cp))
  unfolding save translate surface
  save_commits cp version s holds =
      let item = item_for t J C (version + 1) cp in
      let written = put_done job item (condition_at version) s holds in
      (simp written, simp written, put-item_of job item (condition_at version) s holds)

  save_refused :
      (cp : Checkpoint) (version : ℕ) (s : C.State)
      → meets (condition_at version) (item_of job s) ≡ false
      → save t J C job cp version s ≡ (conflict job version, version, s)
  unfolding save translate surface
  save_refused cp version s fails =
      simp (put_refused job (item_for t J C (version + 1) cp) (condition_at version) s fails)

  -- On a table with conditional writes, whose item has a version of at least 1 if it is there: if
  -- the store's version is that of the item, 0 for none, a save returns, and the item is the new
  -- checkpoint's under the next version, which the store has too. Otherwise the save is a
  -- conflict, and the table and the store's version are unchanged.
  pub save_lem :
      (cp : Checkpoint) (version : ℕ) (s : C.State)
      → IsWritten s
      → (version_of (item_of job s) ≡ version)
          × ((save t J C job cp version s).0 ≡ done tt)
          × ((save t J C job cp version s).1 ≡ version + 1)
          × (item_of job (save t J C job cp version s).2 ≡ some (item_for t J C (version + 1) cp))
        ⊎ (version_of (item_of job s) ≢ version)
          × (save t J C job cp version s ≡ (conflict job version, version, s))
  save_lem cp version s written =
      let version_meets = meets-version version (item_of job s) written in
      elim (Bool-cases (eqb (version_of (item_of job s)) version)) [
        | inl e ↦
            let (returned, next, stored) = save_commits cp version s (version_meets ∙ e) in
            inl (ground arith, returned, next, stored)
        | inr n ↦ inr (ground arith, save_refused cp version s (version_meets ∙ n))
      ]

  load-version :
      (version : ℕ) (s : C.State)
      → ((load t J C job version s).1 ≡ version_of (item_of job s))
        × ((load t J C job version s).2 ≡ s)
  unfolding load loaded
  load-version version s = elim (Option-cases (item_of job s)) [
    | inl e ↦ (simp (get_lem, e), simp (get_lem))
    | inr (item, e) ↦ (simp (get_lem, e), simp (get_lem))
  ]

  -- On such a table, of two writers that have loaded the same state the first to save commits its
  -- checkpoint under the next version, and the second gets a conflict and leaves the table as the
  -- first has left it.
  pub save-save :
      (first second : Checkpoint) (v w : ℕ) (s : C.State)
      → IsWritten s
      → ((save t J C job first (load t J C job v s).1 s).0 ≡ done tt)
        × (item_of job (save t J C job first (load t J C job v s).1 s).2
            ≡ some (item_for t J C (version_of (item_of job s) + 1) first))
        × (save t J C job second
              (load t J C job w s).1
              (save t J C job first (load t J C job v s).1 s).2
            ≡ (
              conflict job (version_of (item_of job s)),
              version_of (item_of job s),
              (save t J C job first (load t J C job v s).1 s).2,
            ))
  save-save first second v w s written =
      let version = version_of (item_of job s) in
      let (committed, _, stored) =
        save_commits first version s
          (meets-version version (item_of job s) written ∙ ground arith) in
      let s' = (save t J C job first version s).2 in
      let written' : IsWritten s' = λ item e. omega (arith, ap version_of (sym e ∙ stored)) in
      rw ((load-version v s).0, (load-version w s).0)
        (
          committed,
          stored,
          save_refused second version s' (
              meets-version version (item_of job s') written'
              ∙ ground (arith, ap version_of stored)),
        )

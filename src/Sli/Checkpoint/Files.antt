-- ===== src/Sli/Checkpoint/Files.antt =====
-- `FileCheckpointStore` of checkpoint.py: a target file and a temporary file beside it.
pub mod Atomic
use inference_control_plane.Prelude.{String, Bool, true, false, Option, none, some, if◌then◌else◌}
use inference_control_plane.Python.{Exc, Result, ok, err, ◌>>=◌}
use inference_control_plane.Python.Builtins.{JsonCodec}
use inference_control_plane.Sli.Times.{Times}
use inference_control_plane.Sli.Checkpoint.{Checkpoint, sorted_json, from_json}

-- The content of the target and of the temporary file, none for a file that is not there.
pub record Files (Text : Type 0) : Type 0 where
  pub target : Option Text
  pub temporary : Option Text

-- The exception that a step of `save` raises, if it does: before there is a temporary file, while it
-- is written (`written` is then what it holds), or at the replacement. In the last two cases removing
-- the temporary file may raise as well.
pub data Fault (Text : Type 0) : Type 0 where
  clean : Fault Text
  at_directory : Exc → Fault Text
  at_write : Text → Exc → Option Exc → Fault Text
  at_replace : Exc → Option Exc → Fault Text

-- What removing the temporary file raises.
abbrev pub removal_of : {T : Type 0} → Fault T → Option Exc
removal_of (at_write written e removal) = removal
removal_of (at_replace e removal) = removal
removal_of _ = none

module _ (t : Times) (J : JsonCodec) where
  unfoldable pub load : Files J.Text → Result (Option Checkpoint)
  unfolding from_json
  load files = elim files.target [
    | none ↦ ok none
    | some text ↦
        if J.is_blank text
        then ok none
        else (do payload ← J.loads text; cp ← from_json t payload; ok (some cp))
  ]

  -- The `try` block, after `mkstemp`.
  unfoldable pub write_and_replace :
      J.Text → Fault J.Text → Files J.Text → Result (Unit {0}) × Files J.Text
  write_and_replace text clean files = (ok tt, record { target = some text; temporary = none })
  write_and_replace text (at_directory e) files = (err e, files)
  write_and_replace text (at_write written e removal) files =
      (err e, record files { temporary = some written })
  write_and_replace text (at_replace e removal) files =
      (err e, record files { temporary = some text })

  -- The `finally` block: what `os.remove` raises takes the place of what the `try` block has raised.
  abbrev pub cleanup :
      Option Exc → Result (Unit {0}) × Files J.Text → Result (Unit {0}) × Files J.Text
  cleanup removal (r, files) = elim files.temporary [
    | none ↦ (r, files)
    | some text ↦ elim removal [
      | none ↦ (r, record files { temporary = none })
      | some e ↦ (err e, files)
    ]
  ]

  unfoldable pub save : Checkpoint → Fault J.Text → Files J.Text → Result (Unit {0}) × Files J.Text
  unfolding sorted_json write_and_replace
  save cp (at_directory e) files = (err e, files)
  save cp fault files =
      cleanup (removal_of fault) (write_and_replace (J.dumps (sorted_json t cp)) fault files)

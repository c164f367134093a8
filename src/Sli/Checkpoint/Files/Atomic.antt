-- ===== src/Sli/Checkpoint/Files/Atomic.antt =====
-- That a checkpoint file holds the old or the new checkpoint, in checkpoint.py.
use inference_control_plane.Prelude.{
  String, ℕ, true, Option, none, some, [], ◌∷◌, ◌≡◌, ◌⊎◌, inl, inr, refl, ap,
}
use inference_control_plane.Prelude.Dict.{Dict, lookup, sorted_items, lookup-sorted_items}
use inference_control_plane.Python.{Exc, ok, err, is_err}
use inference_control_plane.Python.Json.{Json, get_or}
use inference_control_plane.Python.Builtins.{JsonCodec, IsLossless}
use inference_control_plane.Sli.Times.{Times, IsExact, parse_ts}
use inference_control_plane.Sli.Checkpoint.{
  Checkpoint, fields, entries, watermark_json, to_json, sorted_json, from_json,
}
use inference_control_plane.Sli.Checkpoint.Files.{
  Files, Fault, clean, at_directory, at_write, at_replace, removal_of, load, write_and_replace,
  save,
}

entries-fields : (d : Dict Json) → entries (fields d) ≡ d
entries-fields [] = refl
entries-fields ((k, v) ∷ d) = ap (λ e. (k, v) ∷ e) (entries-fields d)

module _ (t : Times) (exact : IsExact t) where
  watermark-read : (w : Option ℕ) → parse_ts t (watermark_json t w) ≡ ok w
  unfolding parse_ts
  watermark-read none = refl
  watermark-read (some n) = simp (exact.isoformat-full, exact.rfc3339-isoformat)

  -- With exact times a checkpoint is read back from its JSON.
  pub from_json-to_json : (cp : Checkpoint) → from_json t (to_json t cp) ≡ ok cp
  unfolding from_json to_json get_or
  from_json-to_json cp = simp (watermark-read cp.watermark, entries-fields cp.seen)

  -- Of what is written with sorted keys, the ids are read back in order.
  from_json-sorted_json :
      (cp : Checkpoint)
      → from_json t (sorted_json t cp) ≡ ok (record cp { seen = sorted_items cp.seen })
  unfolding from_json sorted_json get_or
  from_json-sorted_json cp =
      simp (watermark-read cp.watermark, entries-fields (sorted_items cp.seen))

  module _ (J : JsonCodec) (lossless : IsLossless J) where
    -- A load gives the watermark and every id of a checkpoint.
    abbrev pub Holds : Files J.Text → Checkpoint → Type 0
    Holds files cp =
        (loaded : Checkpoint) × (load t J files ≡ ok (some loaded))
        × (loaded.watermark ≡ cp.watermark)
        × ((oid : String) → lookup oid loaded.seen ≡ lookup oid cp.seen)

    -- With exact times and a lossless codec, and no temporary file before, a save, whatever step
    -- fails, leaves no temporary file, unless removing it raises; the save then raises that. Either
    -- it returns, and a load gives the watermark and, under every id, the time of the checkpoint that
    -- was saved, or it raises, and the target is as it was.
    pub save-atomic :
        (cp : Checkpoint) (fault : Fault J.Text) (files : Files J.Text)
        → files.temporary ≡ none
        → (((save t J cp fault files).1.temporary ≡ none)
            ⊎ ((e : Exc) × (removal_of fault ≡ some e) × ((save t J cp fault files).0 ≡ err e)))
          × (((save t J cp fault files).0 ≡ ok tt) × Holds (save t J cp fault files).1 cp
              ⊎ (is_err (save t J cp fault files).0 ≡ true)
                × ((save t J cp fault files).1.target ≡ files.target))
    unfolding save load write_and_replace
    save-atomic cp clean files none_before = (
      inl refl,
      inl (
        refl,
        (
          record cp { seen = sorted_items cp.seen },
          simp (lossless.dumps-full, lossless.loads-dumps, from_json-sorted_json cp),
          refl,
          λ oid. lookup-sorted_items oid cp.seen,
        ),
      ),
    )
    save-atomic cp (at_directory e) files none_before = (inl none_before, inr (refl, refl))
    save-atomic cp (at_write written e none) files none_before = (inl refl, inr (refl, refl))
    save-atomic cp (at_write written e (some e')) files none_before =
        (inr (e', refl, refl), inr (refl, refl))
    save-atomic cp (at_replace e none) files none_before = (inl refl, inr (refl, refl))
    save-atomic cp (at_replace e (some e')) files none_before =
        (inr (e', refl, refl), inr (refl, refl))

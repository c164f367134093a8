-- ===== src/Tests/Checkpoints.antt =====
-- Runs of the checkpoint stores and of the end of a run.
use inference_control_plane.Prelude.{
  ℕ, zero, suc, ap, strip, rstrip, lstrip, keep, is_space, ◌-◌, ◌+◌, ◌≡◌, ◌⊎◌, ◌≢◌, inl, inr, refl,
  String, true, Option, none, some, [], ◌∷◌, arith, if◌then◌else◌,
}
use inference_control_plane.Python.{
  Exc, of_bits, builtin, value_error, runtime_error, ok, err, is_err,
}
use inference_control_plane.Python.Json.{Json, null, str, truthy}
use inference_control_plane.Sli.Times.{Times, IsExact}
use inference_control_plane.Sli.Aggregation.Points.{AggregationStats, stats_of}
use inference_control_plane.Sli.Aggregation as Aggregation
use inference_control_plane.Sli.Checkpoint.{Checkpoint, prune_seen}
use inference_control_plane.Sli.Checkpoint.Files.{Files, Fault, at_replace, save}
use inference_control_plane.Sli.Checkpoint.Files.Atomic.{Holds, save-atomic}
use inference_control_plane.Sli.Checkpoint.Dynamo.{
  Failure, conditional_check_failed, checkpoint_conflict, client_error, Reply, done, failed, Item,
  Condition, Boto, meets, IsConditional, item_for,
}
use inference_control_plane.Sli.Checkpoint.Dynamo as Dynamo
use inference_control_plane.Sli.Checkpoint.Dynamo.Versions.{conflict, save_lem, save-save}
use inference_control_plane.Sli.Pipeline.Finish.{Exporter, saved, Store, finish}
use inference_control_plane.Sli.Pipeline.Finish.Watermark.{finish-kept, finish-saves}
use inference_control_plane.Tests.Fixtures.{floats, codec, codec-IsLossless}

-- A time is written in strokes.
strokes : ℕ → String
strokes zero = "|"
strokes (suc n) = String.◌∷◌ "|" (strokes n)

count : String → ℕ
count String.[] = 0
count (String.◌∷◌ c s) = suc (count s)

rstrip-strokes : (n : ℕ) → rstrip is_space (strokes n) ≡ strokes n
unfolding rstrip keep is_space strokes
rstrip-strokes zero = refl
rstrip-strokes (suc zero) = refl
rstrip-strokes (suc (suc n)) = rw (rstrip-strokes (suc n)) refl

strip-strokes : (n : ℕ) → strip (strokes n) ≡ strokes n
unfolding strip lstrip is_space strokes
strip-strokes zero = refl
strip-strokes (suc n) = rstrip-strokes (suc n)

count-strokes : (n : ℕ) → count (strokes n) ≡ suc n
unfolding count strokes
count-strokes zero = refl
count-strokes (suc n) = ap suc (count-strokes n)

strokes-full : (n : ℕ) → truthy (str (strokes n)) ≡ true
unfolding strokes truthy
strokes-full zero = refl
strokes-full (suc n) = refl

abbrev times : Times
unfolding strokes count
times = record {
  rfc3339 = λ s. ok (count s - 1);
  isoformat = strokes;
  dict_of = λ j. err (builtin value_error "dict");
}

times-IsExact : IsExact times
unfolding times
times-IsExact = record {
  rfc3339-isoformat =
      λ n. rw (strip-strokes n, count-strokes n) (ap (λ (m : ℕ). ok m) (omega arith));
  isoformat-full = strokes-full;
}

abbrev checkpoint : Checkpoint
checkpoint = record { watermark = some 3; seen = ("a", str (strokes 2)) ∷ [] }

abbrev files : Files Json
files = record { target = some null; temporary = none }

-- The replacement fails, and so does the removal.
abbrev broken : Fault Json
broken = at_replace (builtin runtime_error "disk") (some (builtin runtime_error "kept"))

save-atomic_example :
    (((save times codec checkpoint broken files).1.temporary ≡ none)
      ⊎ ((e : Exc) × (some (builtin runtime_error "kept") ≡ some e)
          × ((save times codec checkpoint broken files).0 ≡ err e)))
    × (((save times codec checkpoint broken files).0 ≡ ok tt)
          × Holds times times-IsExact codec codec-IsLossless
              (save times codec checkpoint broken files).1
              checkpoint
        ⊎ (is_err (save times codec checkpoint broken files).0 ≡ true)
          × ((save times codec checkpoint broken files).1.target ≡ some null))
save-atomic_example =
    save-atomic times times-IsExact codec codec-IsLossless checkpoint broken files refl

-- A table with one item.
abbrev table : Boto Json
table = record {
  State = Option (Item Json);
  get_item = λ job s. (done s, s);
  put_item = λ job item c s. if meets c s then (done tt, some item) else (
    failed (client_error (some "ConditionalCheckFailedException") "The conditional request failed"),
    s,
  );
}

abbrev table-IsConditional : IsConditional table
table-IsConditional = record {
  item_of = λ job s. s;
  get_lem = λ job s. refl;
  put_done = λ job item c s h. rw h refl;
  put-item_of = λ job item c s h. rw h refl;
  put_refused = λ job item c s h. rw h refl;
}

-- A first save, by a store that has found no item.
save_lem_example :
    (zero ≡ 0)
      × ((Dynamo.save times codec table "job" checkpoint 0 none).0 ≡ done tt)
      × ((Dynamo.save times codec table "job" checkpoint 0 none).1 ≡ 1)
      × ((Dynamo.save times codec table "job" checkpoint 0 none).2
          ≡ some (item_for times codec table 1 checkpoint))
    ⊎ (zero ≢ 0)
      × (Dynamo.save times codec table "job" checkpoint 0 none ≡ (conflict "job" 0, 0, none))
save_lem_example =
    save_lem times codec table table-IsConditional "job" checkpoint 0 none (λ item e. absurd (cc e))

save-save_example :
    ((Dynamo.save times codec table "job" checkpoint
        (Dynamo.load times codec table "job" 0 none).1
        none).0
      ≡ done tt)
    × ((Dynamo.save times codec table "job" checkpoint
          (Dynamo.load times codec table "job" 0 none).1
          none).2
        ≡ some (item_for times codec table 1 checkpoint))
    × (Dynamo.save times codec table "job" checkpoint
          (Dynamo.load times codec table "job" 0 none).1
          (Dynamo.save times codec table "job" checkpoint
            (Dynamo.load times codec table "job" 0 none).1
            none).2
        ≡ (
          conflict "job" 0,
          0,
          (Dynamo.save times codec table "job" checkpoint
              (Dynamo.load times codec table "job" 0 none).1
              none).2,
        ))
save-save_example =
    save-save times codec table table-IsConditional "job" checkpoint checkpoint 0 0 none
      (λ item e. absurd (cc e))

-- An exporter that raises for an empty batch, and a store that counts.
abbrev exporter : Exporter
exporter = record {
  State = ℕ;
  export = λ points n. (elim points [ [] ↦ some "ValueError" | _ ↦ none ], n);
  heartbeat = some (λ points n. (none, n + 1));
}

abbrev counting : Store
counting = record { State = ℕ; save = λ cp n. (saved, n + 1) }

abbrev pub stats : AggregationStats
stats = stats_of Aggregation.start 0 0

-- A store that keeps what is saved.
abbrev logging : Store
logging = record { State = Option Checkpoint; save = λ cp s. (saved, some cp) }

finish-kept_example :
    (finish floats times exporter counting 9 2 [] [] (of_bits 1) [] stats 0 5).store ≡ 5
finish-kept_example =
    finish-kept floats times exporter counting 9 2 [] [] (of_bits 1) [] stats 0 5
      (inr (inr (inl (refl, "ValueError", refl))))

finish-saves_example :
    (cp : Checkpoint) × (cp.watermark ≡ some 9)
    × (cp.seen ≡ prune_seen times [] (("a", 8) ∷ []) (9 - 2))
    × ((finish floats times exporter logging 9 2 []
          (("a", 8) ∷ [])
          (of_bits 1)
          (record {
            name = "n";
            type = "gauge";
            unit = "1";
            dims = [];
            value = none;
            histogram = none;
          }
            ∷ [])
          stats
          0
          none).store
        ≡ some cp)
finish-saves_example =
    finish-saves floats times exporter logging 9 2 [] (("a", 8) ∷ []) (of_bits 1)
      (record { name = "n"; type = "gauge"; unit = "1"; dims = []; value = none; histogram = none }
        ∷ [])
      stats 0 none (λ points n. (none, n + 1)) refl refl refl refl refl refl refl

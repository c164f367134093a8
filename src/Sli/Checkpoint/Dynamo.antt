-- ===== src/Sli/Checkpoint/Dynamo.antt =====
-- `DynamoDbCheckpointStore` and `Boto3DynamoClient` of checkpoint.py.
pub mod Versions
use inference_control_plane.Prelude.{
  ℕ, zero, suc, [], ◌+◌, String, Bool, true, false, Option, none, some, ◌==◌, ◌<>◌, show, ◌≡◌, eqb,
  if◌then◌else◌,
}
use inference_control_plane.Prelude.Dict.{sorted_items}
use inference_control_plane.Python.{Exc, Result, ok, err, ◌>>=◌}
use inference_control_plane.Python.Json.{Json, null, str, obj}
use inference_control_plane.Python.Builtins.{JsonCodec}
use inference_control_plane.Sli.Times.{Times, parse_ts}
use inference_control_plane.Sli.Checkpoint.{Checkpoint, fields, entries, dict_from}

-- The exceptions of a store: the two of the module, what the boto3 client raises, with the error code
-- of its response, and any other.
pub data Failure : Type 0 where
  conditional_check_failed : String → Failure
  checkpoint_conflict : String → Failure
  client_error : Option String → String → Failure
  other : Exc → Failure

pub data Reply (A : Type 0) : Type 0 where
  done : A → Reply A
  failed : Failure → Reply A

-- The item of a job. An attribute of type N is its number.
pub record Item (Text : Type 0) : Type 0 where
  pub version : ℕ
  pub watermark : Option String
  pub seen : Option Text

-- `attribute_not_exists(job_id)`, and `version = :expected`.
pub data Condition : Type 0 where
  not_exists : Condition
  version_is : ℕ → Condition

-- The boto3 client, for one table: the item under a job, and a conditional write.
pub record Boto (Text : Type 0) : Type 1 where
  pub State : Type 0
  pub get_item : String → State → Reply (Option (Item Text)) × State
  pub put_item : String → Item Text → Condition → State → Reply (Unit {0}) × State

-- Whether a condition holds of an item.
abbrev pub meets : {Text : Type 0} → Condition → Option (Item Text) → Bool
meets not_exists none = true
meets not_exists (some _) = false
meets (version_is n) none = false
meets (version_is n) (some item) = eqb item.version n

-- DynamoDB's conditional writes, while its requests succeed: a write whose condition holds takes
-- effect, and another fails by its error code and leaves the table.
pub record IsConditional {Text : Type 0} (C : Boto Text) : Type 0 where
  pub item_of : String → C.State → Option (Item Text)
  pub get_lem : (job : String) (s : C.State) → C.get_item job s ≡ (done (item_of job s), s)
  pub put_done :
      (job : String) (item : Item Text) (c : Condition) (s : C.State)
      → meets c (item_of job s) ≡ true
      → (C.put_item job item c s).0 ≡ done tt
  pub put-item_of :
      (job : String) (item : Item Text) (c : Condition) (s : C.State)
      → meets c (item_of job s) ≡ true
      → item_of job (C.put_item job item c s).1 ≡ some item
  pub put_refused :
      (job : String) (item : Item Text) (c : Condition) (s : C.State)
      → meets c (item_of job s) ≡ false
      → C.put_item job item c s ≡ (
        failed (
            client_error (some "ConditionalCheckFailedException") "The conditional request failed"),
        s,
      )

-- The `except` clause of `Boto3DynamoClient.put_item`.
unfoldable pub translate : Reply (Unit {0}) → Reply (Unit {0})
translate (failed (client_error (some code) m)) =
    if code == "ConditionalCheckFailedException"
    then failed (conditional_check_failed m)
    else failed (client_error (some code) m)
translate r = r

-- The `except` clause of `save`.
unfoldable pub surface : String → ℕ → Reply (Unit {0}) → Reply (Unit {0})
surface job version (failed (conditional_check_failed m)) = failed (
    checkpoint_conflict (
      "checkpoint for job '"
      <> job
      <> "' was advanced by another writer (expected version "
      <> show version
      <> ")"))
surface job version r = r

-- The condition of a store at a version.
abbrev pub condition_at : ℕ → Condition
condition_at zero = not_exists
condition_at (suc n) = version_is (suc n)

module _ (t : Times) (J : JsonCodec) (C : Boto J.Text) where
  abbrev pub iso_of : Option ℕ → Option String
  iso_of none = none
  iso_of (some n) = some (t.isoformat n)

  abbrev pub item_for : ℕ → Checkpoint → Item J.Text
  item_for version cp = record {
    version = version;
    watermark = iso_of cp.watermark;
    seen = some (J.dumps (obj (fields (sorted_items cp.seen))));
  }

  abbrev pub json_of : Option String → Json
  json_of none = null
  json_of (some s) = str s

  -- The checkpoint in an item, which `load` reads after it has taken the version. The stored map is
  -- a dict.
  unfoldable pub seen_in : Option J.Text → Result Json
  seen_in none = ok (obj (fields []))
  seen_in (some raw) = if J.is_blank raw then ok (obj (fields [])) else J.loads raw

  unfoldable pub read_item : Item J.Text → Result Checkpoint
  unfolding parse_ts seen_in
  read_item item = do
    raw ← seen_in item.seen
    watermark ← parse_ts t (json_of item.watermark)
    seen ← dict_from t raw
    ok (record { watermark = watermark; seen = seen })

  -- What `load` makes of the answer, with the store's new version.
  unfoldable pub loaded : ℕ → Reply (Option (Item J.Text)) → Reply (Option Checkpoint) × ℕ
  unfolding read_item
  loaded version (failed e) = (failed e, version)
  loaded version (done none) = (done none, 0)
  loaded version (done (some item)) =
      (elim (read_item item) [ ok cp ↦ done (some cp) | err e ↦ failed (other e) ], item.version)

  -- `load`: the reply, the store's version and the table.
  unfoldable pub load : String → ℕ → C.State → Reply (Option Checkpoint) × ℕ × C.State
  unfolding loaded
  load job version s =
      let (reply, s') = C.get_item job s in
      let (cp, version') = loaded version reply in (cp, version', s')

  -- A version is advanced by a write that succeeds.
  abbrev pub advanced : ℕ → Reply (Unit {0}) → ℕ
  advanced version (done _) = version + 1
  advanced version (failed _) = version

  unfoldable pub save : String → Checkpoint → ℕ → C.State → Reply (Unit {0}) × ℕ × C.State
  unfolding translate surface
  save job cp version s =
      let (written, s') = C.put_item job (item_for (version + 1) cp) (condition_at version) s in
      let reply = surface job version (translate written) in (reply, advanced version reply, s')

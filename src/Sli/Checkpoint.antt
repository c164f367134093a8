-- ===== src/Sli/Checkpoint.antt =====
-- `Checkpoint` and `prune_seen` of checkpoint.py. A time is in microseconds.
pub mod Horizon
pub mod Files
pub mod Dynamo
use inference_control_plane.Prelude.{
  ℕ, String, Bool, ◌≡◌, true, false, not, Option, none, some, List, [], ◌∷◌, leb, strip, is_empty,
  ◌&&◌, if◌then◌else◌,
}
use inference_control_plane.Prelude.Dict.{Dict, insert, sorted_items}
use inference_control_plane.Prelude.Int.{pos}
use inference_control_plane.Python.{Exc, builtin, type_error, Result, ok, err, ◌>>=◌}
use inference_control_plane.Sli.Times.{Times, parse_ts}
use inference_control_plane.Python.Json.{
  Json, null, int, str, obj, Fields, end, field, truthy, get_or,
}

pub record Checkpoint : Type 0 where
  pub watermark : Option ℕ
  pub seen : Dict Json

abbrev pub fields : Dict Json → Fields
fields [] = end
fields ((k, v) ∷ d) = field k v (fields d)

abbrev pub entries : Fields → Dict Json
entries end = []
entries (field k v fs) = (k, v) ∷ entries fs

abbrev pub watermark_json : Times → Option ℕ → Json
watermark_json t none = null
watermark_json t (some n) = str (t.isoformat n)

unfoldable pub to_json : Times → Checkpoint → Json
to_json t cp = obj (
    field "version" (int (pos 1))
      (field "watermark" (watermark_json t cp.watermark) (field "seen" (obj (fields cp.seen)) end)))

-- `to_json` with its keys in order, as `sort_keys=True` writes them. The values of `seen` are texts.
unfoldable pub sorted_json : Times → Checkpoint → Json
unfolding sorted_items
sorted_json t cp = obj (
    field "seen" (obj (fields (sorted_items cp.seen)))
      (field "version" (int (pos 1)) (field "watermark" (watermark_json t cp.watermark) end)))

-- `dict(value or {})`
abbrev pub dict_from : Times → Json → Result (Dict Json)
dict_from t (obj fs) = ok (entries fs)
dict_from t value = if truthy value then t.dict_of value else ok []

unfoldable pub from_json : Times → Json → Result Checkpoint
unfolding parse_ts get_or
from_json t payload = do
  raw ← get_or payload "watermark" null
  watermark ← parse_ts t raw
  raw_seen ← get_or payload "seen" null
  seen ← dict_from t raw_seen
  ok (record { watermark = watermark; seen = seen })

-- Whether an entry of the prior map is kept: what does not parse is dropped. The times of the map are
-- taken to be in the range of a datetime also in UTC; one that is not raises an `OverflowError`, which
-- `prune_seen` does not catch.
abbrev pub is_recent : ℕ → Result (Option ℕ) → Bool
is_recent cutoff (ok (some finish)) = leb cutoff finish
is_recent cutoff _ = false

-- The loop over the prior map.
unfoldable pub keep_prior : Times → ℕ → Dict Json → Dict Json → Dict Json
unfolding parse_ts insert
keep_prior t cutoff [] out = out
keep_prior t cutoff ((oid, end_iso) ∷ prior) out = keep_prior t cutoff prior (
    if not (is_empty oid) && is_recent cutoff (parse_ts t end_iso)
    then insert oid end_iso out
    else out)

-- The loop over this window's ids.
unfoldable pub keep_current : Times → ℕ → Dict ℕ → Dict Json → Dict Json
unfolding insert
keep_current t cutoff [] out = out
keep_current t cutoff ((oid, finish) ∷ current) out = keep_current t cutoff current (
    if not (is_empty oid) && leb cutoff finish
    then insert oid (str (t.isoformat finish)) out
    else out)

unfoldable pub prune_seen : Times → Dict Json → Dict ℕ → ℕ → Dict Json
unfolding keep_prior keep_current
prune_seen t prior current cutoff = keep_current t cutoff current (keep_prior t cutoff prior [])

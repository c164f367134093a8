-- ===== src/Sli/FileSource.antt =====
-- `FileTraceSource` of sources/file_source.py, of what opening and decoding its file gives.
use inference_control_plane.Prelude.{String, none, some, List, []}
use inference_control_plane.Python.{Exc, builtin, value_error, Result, ok, err, ◌>>=◌}
use inference_control_plane.Python.Json.{Json, arr, obj, entry}
use inference_control_plane.Sli.Langfuse.Body.{items_of}
use inference_control_plane.Sli.Pipeline.{Source}

abbrev pub unrecognized : Exc
unrecognized = builtin value_error "Unrecognized fixture shape: expected {'data': [...]} or a list"

abbrev pub data_of : Json → Result (List Json)
data_of (arr js) = ok (items_of js)
data_of _ = err (builtin value_error "'data' must be a list of observation objects")

-- What `_load` makes of the decoded file.
abbrev pub data_in : Json → Result (List Json)
data_in (obj fs) = elim (entry "data" fs) [ none ↦ err unrecognized | some value ↦ data_of value ]
data_in (arr js) = ok (items_of js)
data_in _ = err unrecognized

-- `_load`
abbrev pub load : Result Json → Result (List Json)
load payload = payload >>= data_in

-- `iter_records`, as `run` reads it: all the records, or an exception before the first one.
abbrev pub iter_file : (Exc → String) → Result (List Json) → Source
iter_file type_name (ok records) = record { records = records; failure = none }
iter_file type_name (err e) = record { records = []; failure = some (type_name e) }

-- ===== src/Sli/Cli.antt =====
-- `main` of cli.py, between the parser of the arguments and the process. Times are in microseconds.
pub mod Committed
pub mod Prepared
use inference_control_plane.Prelude.{
  ℕ, ◌-◌, ◌*◌, String, Bool, true, false, not, Option, none, some, List, [], ◌∷◌, ◌<>◌, ◌==◌, ◌&&◌,
  leb, is_empty, if◌then◌else◌,
}
use inference_control_plane.Prelude.Int.{ℤ, pos, leb_ℤ, pos_part}
use inference_control_plane.Python.{Float, FloatOps, Exc, builtin, other, Result, ok, err}
use inference_control_plane.Sli.Aggregation.Points.{AggregationStats}
use inference_control_plane.Sli.Checkpoint.{Checkpoint}
use inference_control_plane.Sli.Pipeline.Finish.{Finished}
use inference_control_plane.Sli.Pipeline.Run.{Ran, broke, ran}

-- The choices of `--emit`.
pub data Emit : Type 0 where
  console otel otlp_http : Emit

-- The arguments, with the defaults that argparse fills in.
pub record Options : Type 0 where
  pub source : String
  pub emit : Emit
  pub otel_out : Option String
  pub otlp_endpoint : Option String
  pub window_minutes : ℤ
  pub window_end : Option String
  pub grace_minutes : Float
  pub checkpoint : Option String
  pub checkpoint_dynamo_table : Option String
  pub checkpoint_job_id : String
  pub dynamo_region : Option String
  pub overlap_minutes : Float
  pub max_records : ℤ

pub data StoreChoice : Type 0 where
  no_store : StoreChoice
  file_store : String → StoreChoice
  dynamo_store : String → String → Option String → StoreChoice

-- The Langfuse source has a host, the two keys and the bounds of the window.
pub data SourceChoice : Type 0 where
  langfuse_source : String → String → String → String → String → SourceChoice
  file_source : String → SourceChoice

-- An exporter with the bounds of the window and the deployment environment.
pub data ExporterChoice : Type 0 where
  console_exporter : ExporterChoice
  otel_exporter : Option String → ℕ → ℕ → Option String → ExporterChoice
  otlp_exporter : String → ℕ → ℕ → Option String → ExporterChoice

-- What `run` is called with, and the checkpoint that the store has loaded.
pub record Job : Type 0 where
  pub source : SourceChoice
  pub exporter : ExporterChoice
  pub store : StoreChoice
  pub loaded : Option Checkpoint
  pub window_start : ℕ
  pub window_end : ℕ
  pub overlap_minutes : Float
  pub max_records : ℕ

-- A part of `main`: it goes on, it ends by `parser.error`, or it raises.
pub data Step (A : Type 0) : Type 0 where
  go : A → Step A
  usage : String → Step A
  crashed : Exc → Step A

infixl 5 ◌>>=◌
abbrev pub ◌>>=◌ : {A B : Type 0} → Step A → (A → Step B) → Step B
go a >>= f = f a
usage m >>= f = usage m
crashed e >>= f = crashed e

abbrev pub lift : {A : Type 0} → Result A → Step A
lift (ok a) = go a
lift (err e) = crashed e

-- `value or default`, where an empty text is no value.
abbrev pub filled : Option String → Option String
filled none = none
filled (some s) = if is_empty s then none else some s

abbrev pub or_else : Option String → Option String → Option String
or_else none b = b
or_else (some s) b = some s

-- What `main` meets outside: the environment, the clock, `timedelta(minutes=…)` of a float that is
-- not negative, the texts of times, and the store's `load`.
pub record System : Type 0 where
  pub floats : FloatOps
  pub getenv : String → Option String
  pub now : ℕ
  pub minutes : Float → Result ℕ
  pub fromisoformat : String → Result ℕ
  pub isoformat : ℕ → String
  pub load : StoreChoice → Result (Option Checkpoint)

-- A time before another. Below the first one there is none.
abbrev pub before : ℕ → ℕ → Result ℕ
before time span =
    if leb span time then ok (time - span) else err (builtin other "date value out of range")

abbrev pub missing : Option String → String → List String → List String
missing none name names = name ∷ names
missing (some _) name names = names

abbrev pub joined : List String → String
joined [] = ""
joined (n ∷ []) = n
joined (n ∷ ns) = n <> ", " <> joined ns

abbrev pub watermark_of : Option Checkpoint → Option ℕ
watermark_of none = none
watermark_of (some c) = c.watermark

module _ (S : System) (o : Options) where
  -- The four tests of the numbers.
  unfoldable pub check_options : Step (Unit {0})
  check_options =
      let zero = S.floats.of_nat 0 in
      if leb_ℤ o.window_minutes (pos 0)
      then usage "--window-minutes must be > 0"
      else if S.floats.lt o.grace_minutes zero
      then usage "--grace-minutes must be >= 0"
      else if S.floats.lt o.overlap_minutes zero
      then usage "--overlap-minutes must be >= 0"
      else if leb_ℤ o.max_records (pos 0)
      then usage "--max-records must be > 0"
      else go tt

  -- `window_end`, from the argument or from the clock.
  abbrev pub end_from : Option String → Step ℕ
  end_from (some text) = lift (S.fromisoformat text)
  end_from none = do grace ← lift (S.minutes o.grace_minutes); lift (before S.now grace)

  -- `build_checkpoint_store`, of the arguments that are not empty.
  abbrev pub store_from : Option String → Option String → Step StoreChoice
  store_from (some path) (some table) =
      usage "use either --checkpoint or --checkpoint-dynamo-table, not both"
  store_from (some path) none = go (file_store path)
  store_from none (some table) = go (
      dynamo_store table o.checkpoint_job_id
        (or_else (filled o.dynamo_region) (S.getenv "AWS_REGION")))
  store_from none none = go no_store

  abbrev pub load_from : StoreChoice → Step (Option Checkpoint)
  load_from no_store = go none
  load_from store = lift (S.load store)

  -- The start of the window: the watermark minus the overlap, if a checkpoint has one.
  abbrev pub start_from : Option ℕ → ℕ → Step ℕ
  start_from none start = go start
  start_from (some watermark) start = do
    overlap ← lift (S.minutes o.overlap_minutes)
    lift (before watermark overlap)

  abbrev pub otlp_from : Option String → ℕ → ℕ → Step ExporterChoice
  otlp_from none start finish = usage "--emit otlp-http requires --otlp-endpoint"
  otlp_from (some endpoint) start finish =
      go (otlp_exporter endpoint start finish (S.getenv "OTEL_DEPLOYMENT_ENVIRONMENT"))

  -- The exporter that `--emit` chooses.
  unfoldable pub build_exporter : ℕ → ℕ → Step ExporterChoice
  build_exporter start finish = elim o.emit [
    | console ↦ go console_exporter
    | otlp_http ↦ otlp_from (filled o.otlp_endpoint) start finish
    | otel ↦ go (otel_exporter o.otel_out start finish (S.getenv "OTEL_DEPLOYMENT_ENVIRONMENT"))
  ]

  abbrev pub host : String
  host =
      elim (or_else (filled (S.getenv "LANGFUSE_HOST")) (filled (S.getenv "LANGFUSE_BASE_URL"))) [
        | none ↦ "https://cloud.langfuse.com"
        | some h ↦ h
      ]

  -- The Langfuse source, of the keys that are not empty.
  abbrev pub langfuse_from : Option String → Option String → ℕ → ℕ → Step SourceChoice
  langfuse_from (some public_key) (some secret_key) start finish =
      go (langfuse_source host public_key secret_key (S.isoformat start) (S.isoformat finish))
  langfuse_from public_key secret_key start finish = usage (
      "--source langfuse requires these environment variables: "
      <> joined
          (missing public_key "LANGFUSE_PUBLIC_KEY" (missing secret_key "LANGFUSE_SECRET_KEY" [])))

  -- `build_source`
  unfoldable pub build_source : ℕ → ℕ → Step SourceChoice
  build_source start finish =
      if o.source == "langfuse"
      then langfuse_from (filled (S.getenv "LANGFUSE_PUBLIC_KEY"))
          (filled (S.getenv "LANGFUSE_SECRET_KEY")) start finish
      else go (file_source o.source)

  abbrev pub job : StoreChoice → Option Checkpoint → ℕ → ℕ → ExporterChoice → SourceChoice → Job
  job store loaded finish start exporter source = record {
    source = source;
    exporter = exporter;
    store = store;
    loaded = loaded;
    window_start = start;
    window_end = finish;
    overlap_minutes = o.overlap_minutes;
    max_records = pos_part o.max_records;
  }

  -- The rest of `main` from the source, from the exporter and from the store on.
  abbrev pub with_exporter : StoreChoice → Option Checkpoint → ℕ → ℕ → ExporterChoice → Step Job
  with_exporter store loaded finish start exporter = do
    source ← build_source start finish
    go (job store loaded finish start exporter source)

  abbrev pub with_start : StoreChoice → Option Checkpoint → ℕ → ℕ → Step Job
  with_start store loaded finish start = do
    exporter ← build_exporter start finish
    with_exporter store loaded finish start exporter

  abbrev pub with_checkpoint : StoreChoice → ℕ → ℕ → Option Checkpoint → Step Job
  with_checkpoint store finish nominal loaded = do
    start ← start_from (watermark_of loaded) nominal
    with_start store loaded finish start

  abbrev pub with_store : ℕ → ℕ → StoreChoice → Step Job
  with_store finish nominal store = do
    loaded ← load_from store
    with_checkpoint store finish nominal loaded

  abbrev pub with_nominal : ℕ → ℕ → Step Job
  with_nominal finish nominal = do
    store ← store_from (filled o.checkpoint) (filled o.checkpoint_dynamo_table)
    with_store finish nominal store

  abbrev pub with_end : ℕ → Step Job
  with_end finish = do
    nominal ← lift (before finish (pos_part o.window_minutes * 60000000))
    with_nominal finish nominal

  -- `main`, from the parsed arguments to the call of `run`.
  unfoldable pub prepare : Step Job
  unfolding check_options build_exporter build_source
  prepare = do _ ← check_options; finish ← end_from (filled o.window_end); with_end finish

-- `run_ok`
abbrev pub run_ok : AggregationStats → Bool
run_ok stats =
    stats.export_ok
    && stats.heartbeat_ok
    && not stats.read_truncated
    && not stats.checkpoint_conflict

-- How the process ends: by an exception, or by an exit code.
pub data Exit : Type 0 where
  by_exception : Exit
  by_code : ℕ → Exit

abbrev pub exit_of : Option String → AggregationStats → Exit
exit_of (some name) stats = by_exception
exit_of none stats = by_code (if run_ok stats then 0 else 1)

-- The end of `main`, after `run`.
unfoldable pub exit_code : {E S : Type 0} → Ran E S → Exit
exit_code (broke e) = by_exception
exit_code (ran end quality reasons) = exit_of end.uncaught end.stats

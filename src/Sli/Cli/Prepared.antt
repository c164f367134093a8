-- ===== src/Sli/Cli/Prepared.antt =====
-- What cli.py has settled when it calls `run`.
use inference_control_plane.Prelude.{
  ℕ, zero, suc, ◌+◌, ◌-◌, ◌*◌, ◌<◌, String, false, Option, none, some, ◌≡◌, refl, inl, inr, arith,
  leb, leb→le, is_empty, Bool-cases, ◌==◌,
}
use inference_control_plane.Prelude.Int.{ℤ, pos, negsuc, leb_ℤ, pos_part}
use inference_control_plane.Python.{Result, ok, err}
use inference_control_plane.Sli.Checkpoint.{Checkpoint}
use inference_control_plane.Sli.Cli.{
  Options, StoreChoice, SourceChoice, langfuse_source, file_source, ExporterChoice,
  console_exporter, otel_exporter, otlp_exporter, Emit, console, otel, otlp_http, Job, Step, go,
  usage, crashed, ◌>>=◌, lift, filled, System, before, watermark_of, check_options, end_from,
  store_from, load_from, start_from, otlp_from, build_exporter, langfuse_from, build_source, job,
  with_exporter, with_start, with_checkpoint, with_store, with_nominal, with_end, prepare,
}

-- What holds of the value of a step that goes on.
abbrev pub Settles : {A : Type 0} → (A → Type 0) → Step A → Type 0
Settles P (go a) = P a
Settles P (usage m) = Unit {0}
Settles P (crashed e) = Unit {0}

-- A step that follows another one is settled by what the first one settles.
Settles-bind :
    {A B : Type 0} (Q : A → Type 0) (P : B → Type 0) (x : Step A) (f : A → Step B)
    → Settles Q x
    → ((a : A) → Q a → Settles P (f a))
    → Settles P (x >>= f)
Settles-bind Q P (go a) f q k = k a q
Settles-bind Q P (usage m) f q k = tt
Settles-bind Q P (crashed e) f q k = tt

Settles-lift : {A : Type 0} (r : Result A) → Settles (λ a. r ≡ ok a) (lift r)
Settles-lift (ok a) = refl
Settles-lift (err e) = tt

Settles-any : {A : Type 0} (x : Step A) → Settles (λ a. Unit {0}) x
Settles-any (go a) = tt
Settles-any (usage m) = tt
Settles-any (crashed e) = tt

before_lem : (time span start : ℕ) → before time span ≡ ok start → start + span ≡ time
before_lem time span start h = elim (Bool-cases (leb span time)) [
  | inl fits ↦
      let q : ◌≡◌ {A = Result ℕ} (ok (time - span)) (ok start) = simp fits at h in
      let e : time - span ≡ start = cc in omega (arith, leb→le span time fits, e)
  | inr over ↦ absurd (let q : before time span ≡ ok start = h in cc (simp over at q))
]

module _ (S : System) (o : Options) where
  -- The window starts where the last one ended, less the overlap, or where its nominal length says.
  abbrev pub IsStart : Option ℕ → ℕ → ℕ → Type 0
  IsStart none finish start = start + pos_part o.window_minutes * 60000000 ≡ finish
  IsStart (some watermark) finish start =
      (overlap : ℕ) × (S.minutes o.overlap_minutes ≡ ok overlap) × (start + overlap ≡ watermark)

  -- The Langfuse source is bounded by the window, and has two keys that are not empty.
  abbrev pub IsBoundBy : ℕ → ℕ → SourceChoice → Type 0
  IsBoundBy start finish (file_source path) = Unit {0}
  IsBoundBy start finish (langfuse_source host public_key secret_key from to) =
      (from ≡ S.isoformat start)
      × (to ≡ S.isoformat finish)
      × (is_empty public_key ≡ false)
      × (is_empty secret_key ≡ false)

  -- An exporter is told the window.
  abbrev pub IsTold : ℕ → ℕ → ExporterChoice → Type 0
  IsTold start finish console_exporter = Unit {0}
  IsTold start finish (otel_exporter path from to deployment) = (from ≡ start) × (to ≡ finish)
  IsTold start finish (otlp_exporter endpoint from to deployment) =
      (from ≡ start) × (to ≡ finish) × (is_empty endpoint ≡ false)

  abbrev pub IsSettled : Job → Type 0
  IsSettled job =
      (0 < job.max_records)
      × (0 < pos_part o.window_minutes)
      × IsStart (watermark_of job.loaded) job.window_end job.window_start
      × IsBoundBy job.window_start job.window_end job.source
      × IsTold job.window_start job.window_end job.exporter

  positive : (n : ℤ) → leb_ℤ n (pos 0) ≡ false → 0 < pos_part n
  positive (pos zero) h = absurd (ground (arith, h))
  positive (pos (suc n)) h = omega arith
  positive (negsuc n) h = absurd (ground (arith, h))

  checked :
      Settles
        (λ _. (0 < pos_part o.window_minutes) × (0 < pos_part o.max_records))
        (check_options S o)
  unfolding check_options
  checked = elim (Bool-cases (leb_ℤ o.window_minutes (pos 0))) [
    | inl bad ↦ rw bad tt
    | inr window ↦ elim (Bool-cases (S.floats.lt o.grace_minutes (S.floats.of_nat 0))) [
      | inl bad ↦ rw (window, bad) tt
      | inr grace ↦ elim (Bool-cases (S.floats.lt o.overlap_minutes (S.floats.of_nat 0))) [
        | inl bad ↦ rw (window, grace, bad) tt
        | inr overlap ↦ elim (Bool-cases (leb_ℤ o.max_records (pos 0))) [
          | inl bad ↦ rw (window, grace, overlap, bad) tt
          | inr records ↦
              rw (window, grace, overlap, records)
                (positive o.window_minutes window, positive o.max_records records)
        ]
      ]
    ]
  ]

  started :
      (watermark : Option ℕ) (finish nominal : ℕ)
      → before finish (pos_part o.window_minutes * 60000000) ≡ ok nominal
      → Settles (IsStart watermark finish) (start_from S o watermark nominal)
  started none finish nominal h = before_lem finish (pos_part o.window_minutes * 60000000) nominal h
  started (some watermark) finish nominal h =
      Settles-bind _ _ (lift (S.minutes o.overlap_minutes)) _
        (Settles-lift (S.minutes o.overlap_minutes))
        (λ overlap q. within overlap q (before watermark overlap) (before_lem watermark overlap))
    where
      within :
          (overlap : ℕ)
          → S.minutes o.overlap_minutes ≡ ok overlap
          → (r : Result ℕ) → ((start : ℕ) → r ≡ ok start → start + overlap ≡ watermark)
          → Settles (IsStart (some watermark) finish) (lift r)
      within overlap q (ok start) k = (overlap, q, k start refl)
      within overlap q (err e) k = tt

  -- A text that is kept is not empty.
  abbrev IsFull : Option String → Type 0
  IsFull none = Unit {0}
  IsFull (some s) = is_empty s ≡ false

  filled-IsFull : (s : Option String) → IsFull (filled s)
  filled-IsFull none = tt
  filled-IsFull (some s) = elim (Bool-cases (is_empty s)) [
    | inl empty ↦ rw empty tt
    | inr full ↦ rw full full
  ]

  from_keys :
      (public_key secret_key : Option String) (start finish : ℕ)
      → IsFull public_key
      → IsFull secret_key
      → Settles (IsBoundBy start finish) (langfuse_from S o public_key secret_key start finish)
  from_keys (some public_key) (some secret_key) start finish p s = (refl, refl, p, s)
  from_keys (some public_key) none start finish p s = tt
  from_keys none secret_key start finish p s = tt

  sourced : (start finish : ℕ) → Settles (IsBoundBy start finish) (build_source S o start finish)
  unfolding build_source
  sourced start finish = elim (Bool-cases (o.source == "langfuse")) [
    | inl live ↦ rw live (
        from_keys (filled (S.getenv "LANGFUSE_PUBLIC_KEY"))
          (filled (S.getenv "LANGFUSE_SECRET_KEY")) start finish
          (filled-IsFull (S.getenv "LANGFUSE_PUBLIC_KEY"))
          (filled-IsFull (S.getenv "LANGFUSE_SECRET_KEY")))
    | inr file ↦ rw file tt
  ]

  to_endpoint :
      (endpoint : Option String) (start finish : ℕ)
      → IsFull endpoint
      → Settles (IsTold start finish) (otlp_from S o endpoint start finish)
  to_endpoint none start finish h = tt
  to_endpoint (some endpoint) start finish h = (refl, refl, h)

  exported :
      (emit : Emit) (start finish : ℕ)
      → o.emit ≡ emit
      → Settles (IsTold start finish) (build_exporter S o start finish)
  unfolding build_exporter
  exported console start finish h = rw h tt
  exported otel start finish h = rw h (refl, refl)
  exported otlp_http start finish h =
      rw h (to_endpoint (filled o.otlp_endpoint) start finish (filled-IsFull o.otlp_endpoint))

  module _ (store : StoreChoice) (loaded : Option Checkpoint) (finish : ℕ)
      (numbers : (0 < pos_part o.window_minutes) × (0 < pos_part o.max_records)) where
    with_exporter-IsSettled :
        (start : ℕ) (exporter : ExporterChoice)
        → IsStart (watermark_of loaded) finish start
        → IsTold start finish exporter
        → Settles IsSettled (with_exporter S o store loaded finish start exporter)
    with_exporter-IsSettled start exporter at_start told =
        Settles-bind (IsBoundBy start finish) IsSettled (build_source S o start finish)
          (λ source. go (job S o store loaded finish start exporter source)) (sourced start finish)
          (λ source bound. (numbers.1, numbers.0, at_start, bound, told))

    with_start-IsSettled :
        (start : ℕ)
        → IsStart (watermark_of loaded) finish start
        → Settles IsSettled (with_start S o store loaded finish start)
    with_start-IsSettled start at_start =
        Settles-bind (IsTold start finish) IsSettled (build_exporter S o start finish)
          (with_exporter S o store loaded finish start) (exported o.emit start finish refl)
          (λ exporter told. with_exporter-IsSettled start exporter at_start told)

    with_checkpoint-IsSettled :
        (nominal : ℕ)
        → before finish (pos_part o.window_minutes * 60000000) ≡ ok nominal
        → Settles IsSettled (with_checkpoint S o store finish nominal loaded)
    with_checkpoint-IsSettled nominal q =
        Settles-bind (IsStart (watermark_of loaded) finish) IsSettled
          (start_from S o (watermark_of loaded) nominal) (with_start S o store loaded finish)
          (started (watermark_of loaded) finish nominal q) with_start-IsSettled

  with_end-IsSettled :
      (0 < pos_part o.window_minutes) × (0 < pos_part o.max_records)
      → (finish : ℕ) → Settles IsSettled (with_end S o finish)
  with_end-IsSettled numbers finish =
      let length = pos_part o.window_minutes * 60000000 in
      Settles-bind (λ nominal. before finish length ≡ ok nominal) IsSettled
        (lift (before finish length)) (with_nominal S o finish)
        (Settles-lift (before finish length))
        (λ nominal q.
          Settles-bind (λ _. Unit {0}) IsSettled
            (store_from S o (filled o.checkpoint) (filled o.checkpoint_dynamo_table))
            (with_store S o finish nominal) (Settles-any _)
            (λ store _.
              Settles-bind (λ _. Unit {0}) IsSettled (load_from S o store)
                (with_checkpoint S o store finish nominal) (Settles-any _)
                (λ loaded _. with_checkpoint-IsSettled store loaded finish numbers nominal q)))

  -- When `main` comes to call `run`: the window's length and the limit of records are positive; the
  -- window starts at the watermark of the loaded checkpoint less the overlap, so that none of the
  -- time since is left out, or, without one, as long before its end as was asked for; a Langfuse
  -- source reads this window with keys that are not empty; and an OpenTelemetry exporter reports
  -- this window.
  pub prepare-IsSettled : Settles IsSettled (prepare S o)
  unfolding prepare
  prepare-IsSettled =
      Settles-bind (λ _. (0 < pos_part o.window_minutes) × (0 < pos_part o.max_records)) IsSettled
        (check_options S o) (λ _. end_from S o (filled o.window_end) >>= with_end S o) checked
        (λ _ numbers.
          Settles-bind (λ _. Unit {0}) IsSettled (end_from S o (filled o.window_end)) (with_end S o)
            (Settles-any _) (λ finish _. with_end-IsSettled numbers finish))

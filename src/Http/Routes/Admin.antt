-- ===== src/Http/Routes/Admin.antt =====
-- Who may read the usage and the dashboard, and whose rows.
use inference_control_plane.Prelude.{
  ℕ, ◌≤◌, String, true, false, List, ◌≡◌, refl, ◌==◌, ◌&&◌, leb, leb→le, eq_iff, arith, Bool-cases,
  inl, inr, ap,
}
use inference_control_plane.Python.{FloatOps, Float, Result, ok, err}
use inference_control_plane.Python.Json.{Json, null, bool, int, float, str, arr, obj, Fields}
use inference_control_plane.Auth.{AuthContext}
use inference_control_plane.Http.Errors.{Outcome, returned, failed}
use inference_control_plane.Http.Usage.{StoredLog, UsageLogsResponse, rows_or_none, get_usage_logs}
use inference_control_plane.Http.Usage.Own.{IsOwn, get_usage_logs-IsOwn}
use inference_control_plane.Http.Routes.{
  is_admin, has_size, usage_summary, usage_logs, dashboard_metrics, dashboard_activity,
}

-- The authentication failed, or gave a role that is not that of an administrator.
abbrev pub IsDenied : Result AuthContext → Type 0
IsDenied (ok auth) = is_admin auth ≡ false
IsDenied (err e) = Unit {0}

abbrev pub IsFailure : {A : Type 0} → Outcome A → Type 0
IsFailure (returned a) = ⊥
IsFailure (failed f) = Unit {0}

-- Two outcomes are the same failure.
abbrev pub FailAlike : {A : Type 0} → Outcome A → Outcome A → Type 0
FailAlike o p = IsFailure o × (o ≡ p)

module _ (errors : List Fields) (rows others : Result (List StoredLog)) where
  summary-denied :
      (authenticated : Result AuthContext) (f : FloatOps) (user_id : String)
      → IsDenied authenticated
      → FailAlike
          (usage_summary errors authenticated rows f user_id)
          (usage_summary errors authenticated others f user_id)
  unfolding usage_summary
  summary-denied (err e) f user_id h = (tt, refl)
  summary-denied (ok auth) f user_id h = elim (Bool-cases (has_size 1 128 user_id)) [
    | inl valid ↦ rw (valid, h) (tt, refl)
    | inr broken ↦ rw broken (tt, refl)
  ]

  logs-denied :
      (authenticated : Result AuthContext) (user_id : String) (limit : ℕ)
      → IsDenied authenticated
      → FailAlike
          (usage_logs errors authenticated rows user_id limit)
          (usage_logs errors authenticated others user_id limit)
  unfolding usage_logs
  logs-denied (err e) user_id limit h = (tt, refl)
  logs-denied (ok auth) user_id limit h =
      elim (Bool-cases (has_size 1 128 user_id && leb 1 limit && leb limit 100)) [
        | inl valid ↦ rw (valid, h) (tt, refl)
        | inr broken ↦ rw broken (tt, refl)
      ]

  metrics-denied :
      (authenticated : Result AuthContext) (f : FloatOps) (fixed : Float → ℕ → String) (now : ℕ)
      → IsDenied authenticated
      → FailAlike
          (dashboard_metrics errors authenticated rows f fixed now)
          (dashboard_metrics errors authenticated others f fixed now)
  unfolding dashboard_metrics
  metrics-denied (err e) f fixed now h = (tt, refl)
  metrics-denied (ok auth) f fixed now h = rw h (tt, refl)

  activity-denied :
      (authenticated : Result AuthContext)
      → IsDenied authenticated
      → FailAlike
          (dashboard_activity errors authenticated rows)
          (dashboard_activity errors authenticated others)
  unfolding dashboard_activity
  activity-denied (err e) h = (tt, refl)
  activity-denied (ok auth) h = rw h (tt, refl)

  -- A caller who is not authenticated, or whose role is not that of an administrator, gets a failure
  -- from each of the four routes of usage and dashboard, and the same one whatever the database
  -- holds.
  pub routes-denied :
      (authenticated : Result AuthContext) (f : FloatOps) (fixed : Float → ℕ → String)
      (user_id : String) (limit now : ℕ)
      → IsDenied authenticated
      → FailAlike
          (usage_summary errors authenticated rows f user_id)
          (usage_summary errors authenticated others f user_id)
        × FailAlike
            (usage_logs errors authenticated rows user_id limit)
            (usage_logs errors authenticated others user_id limit)
        × FailAlike
            (dashboard_metrics errors authenticated rows f fixed now)
            (dashboard_metrics errors authenticated others f fixed now)
        × FailAlike
            (dashboard_activity errors authenticated rows)
            (dashboard_activity errors authenticated others)
  routes-denied authenticated f fixed user_id limit now h = (
    summary-denied authenticated f user_id h,
    logs-denied authenticated user_id limit h,
    metrics-denied authenticated f fixed now h,
    activity-denied authenticated h,
  )

is_admin-role : (auth : AuthContext) → is_admin auth ≡ true → auth.role ≡ str "admin"
is_admin-role auth h = named auth.role h
  where
    named : (j : Json) → elim j [ str r ↦ r == "admin" | _ ↦ false ] ≡ true → j ≡ str "admin"
    named (str s) k = ap str ((eq_iff s "admin").0 k)
    named null k = cc
    named (bool b) k = cc
    named (int n) k = cc
    named (float x) k = cc
    named (arr js) k = cc
    named (obj fs) k = cc

-- What a response of `/usage/logs` shows: the caller is an administrator, the limit is at most 100,
-- and the rows are the caller's tenant's.
abbrev pub ShowsOwn :
    Result AuthContext → List StoredLog → String → ℕ → Outcome UsageLogsResponse → Type 0
ShowsOwn authenticated rows user_id limit (failed f) = Unit {0}
ShowsOwn authenticated rows user_id limit (returned r) =
    (auth : AuthContext) × (authenticated ≡ ok auth)
    × (auth.role ≡ str "admin")
    × (limit ≤ 100)
    × IsOwn rows auth.tenant_id user_id limit r.entries

module _ (errors : List Fields) (rows : Result (List StoredLog)) where
  granted-ShowsOwn :
      (auth : AuthContext) (user_id : String) (limit : ℕ)
      → (is_admin auth ≡ true)
      → limit ≤ 100
      → ShowsOwn
          (ok auth)
          (rows_or_none rows)
          user_id
          limit
          (returned (get_usage_logs rows auth.tenant_id user_id limit))
  granted-ShowsOwn auth user_id limit granted small = (
    auth,
    refl,
    is_admin-role auth granted,
    small,
    get_usage_logs-IsOwn rows auth.tenant_id user_id limit,
  )

  -- Where `/usage/logs` returns, the caller is authenticated as an administrator, the limit is at
  -- most 100, and the entries are rows of the database that belong to the caller's tenant and to
  -- the user that was asked for, the newest first, and no more than the limit.
  pub usage_logs-ShowsOwn :
      (authenticated : Result AuthContext) (user_id : String) (limit : ℕ)
      → ShowsOwn authenticated
          (rows_or_none rows)
          user_id
          limit
          (usage_logs errors authenticated rows user_id limit)
  unfolding usage_logs
  usage_logs-ShowsOwn (err e) user_id limit = tt
  usage_logs-ShowsOwn (ok auth) user_id limit =
      elim (Bool-cases (has_size 1 128 user_id && leb 1 limit && leb limit 100)) [
        | inr broken ↦ rw broken tt
        | inl valid ↦ elim (Bool-cases (is_admin auth)) [
          | inr denied ↦ rw (valid, denied) tt
          | inl granted ↦
              rw (valid, granted)
                (granted-ShowsOwn auth user_id limit granted (ground (arith, leb→le limit 100)))
        ]
      ]

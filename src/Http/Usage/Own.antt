-- ===== src/Http/Usage/Own.antt =====
-- Whose rows the usage queries of services/usage.py tell of, and that the two agree.
use Prim.Native.Nat.{min}
use inference_control_plane.Prelude.{
  ℕ, zero, suc, ◌+◌, ◌≤◌, String, Bool, true, List, [], ◌∷◌, map, ◌≡◌, refl, ap, sym, eq_iff, ◌⊎◌,
  inl, inr, arith, All, All-mono, length, length-map, leb, leb→le, Bool-cases,
}
use inference_control_plane.Python.{FloatOps, Result}
use inference_control_plane.Python.Json.{Json, null, bool, int, float, str, arr, obj}
use inference_control_plane.Http.Usage.{
  StoredLog, UsageLogEntry, where_is, is_of, newest, newest_first, first_rows, total_tokens,
  entry_of, rows_or_none, get_usage_summary, get_usage_logs,
}

-- A row is one of a list.
abbrev pub IsIn : StoredLog → List StoredLog → Type 0
IsIn r [] = ⊥
IsIn r (q ∷ qs) = (r ≡ q) ⊎ IsIn r qs

abbrev pub IsNewestFirst : List StoredLog → Type 0
IsNewestFirst [] = Unit {0}
IsNewestFirst (r ∷ rs) = All (λ q. q.created_at ≤ r.created_at) rs × IsNewestFirst rs

abbrev pub tokens_of : List UsageLogEntry → ℕ
tokens_of [] = 0
tokens_of (e ∷ es) = e.tokens + tokens_of es

All-where_is :
    (p : StoredLog → Bool) (rs : List StoredLog)
    → All (λ r. (p r ≡ true) × IsIn r rs) (where_is p rs)
unfolding where_is
All-where_is p [] = tt
All-where_is p (r ∷ rs) =
    let rest : All (λ q. (p q ≡ true) × IsIn q (r ∷ rs)) (where_is p rs) =
      All-mono (λ q. (p q ≡ true) × IsIn q rs) (λ q. (p q ≡ true) × IsIn q (r ∷ rs)) (where_is p rs)
        (λ q h. (h.0, inr h.1)) (All-where_is p rs) in
    elim (Bool-cases (p r)) [ inl met ↦ rw met ((met, inl refl), rest) | inr unmet ↦ rw unmet rest ]

module _ (P : StoredLog → Type 0) where
  All-newest : (r : StoredLog) (qs : List StoredLog) → P r → All P qs → All P (newest r qs)
  unfolding newest
  All-newest r [] h k = (h, tt)
  All-newest r (q ∷ qs) h (k, ks) = elim (Bool-cases (leb q.created_at r.created_at)) [
    | inl older ↦ rw older (h, (k, ks))
    | inr newer ↦ rw newer (k, All-newest r qs h ks)
  ]

  All-newest_first : (rs : List StoredLog) → All P rs → All P (newest_first rs)
  unfolding newest_first
  All-newest_first [] h = tt
  All-newest_first (r ∷ rs) (h, hs) = All-newest r (newest_first rs) h (All-newest_first rs hs)

  All-first_rows : (n : ℕ) (rs : List StoredLog) → All P rs → All P (first_rows n rs)
  unfolding first_rows
  All-first_rows zero rs h = tt
  All-first_rows (suc n) [] h = tt
  All-first_rows (suc n) (r ∷ rs) (h, hs) = (h, All-first_rows n rs hs)

newest-IsNewestFirst :
    (r : StoredLog) (qs : List StoredLog) → IsNewestFirst qs → IsNewestFirst (newest r qs)
unfolding newest
newest-IsNewestFirst r [] h = (tt, tt)
newest-IsNewestFirst r (q ∷ qs) (below, h) = elim (Bool-cases (leb q.created_at r.created_at)) [
  | inl older ↦
      let q_below = leb→le q.created_at r.created_at older in
      rw older (
        (
          q_below,
          All-mono (λ x. x.created_at ≤ q.created_at) (λ x. x.created_at ≤ r.created_at) qs
              (λ x k. omega (arith, k, q_below)) below,
        ),
        (below, h),
      )
  | inr newer ↦ rw newer (
    All-newest (λ x. x.created_at ≤ q.created_at) r qs (ground arith) below,
    newest-IsNewestFirst r qs h,
  )
]

newest_first-IsNewestFirst : (rs : List StoredLog) → IsNewestFirst (newest_first rs)
unfolding newest_first
newest_first-IsNewestFirst [] = tt
newest_first-IsNewestFirst (r ∷ rs) =
    newest-IsNewestFirst r (newest_first rs) (newest_first-IsNewestFirst rs)

first_rows-IsNewestFirst :
    (n : ℕ) (rs : List StoredLog) → IsNewestFirst rs → IsNewestFirst (first_rows n rs)
unfolding first_rows
first_rows-IsNewestFirst zero rs h = tt
first_rows-IsNewestFirst (suc n) [] h = tt
first_rows-IsNewestFirst (suc n) (r ∷ rs) (below, h) =
    (All-first_rows (λ q. q.created_at ≤ r.created_at) n rs below, first_rows-IsNewestFirst n rs h)

length-first_rows : (n : ℕ) (rs : List StoredLog) → length (first_rows n rs) ≡ min n (length rs)
unfolding first_rows
length-first_rows zero rs = omega arith
length-first_rows (suc n) [] = omega arith
length-first_rows (suc n) (r ∷ rs) = omega (arith, length-first_rows n rs)

length-newest : (r : StoredLog) (qs : List StoredLog) → length (newest r qs) ≡ suc (length qs)
unfolding newest
length-newest r [] = refl
length-newest r (q ∷ qs) = ground (arith, length-newest r qs)

length-newest_first : (rs : List StoredLog) → length (newest_first rs) ≡ length rs
unfolding newest_first
length-newest_first [] = refl
length-newest_first (r ∷ rs) =
    omega (arith, length-newest r (newest_first rs), length-newest_first rs)

tokens-newest :
    (r : StoredLog) (qs : List StoredLog) → total_tokens (newest r qs) ≡ r.tokens + total_tokens qs
unfolding newest
tokens-newest r [] = refl
tokens-newest r (q ∷ qs) = ground (arith, tokens-newest r qs)

tokens-newest_first : (rs : List StoredLog) → total_tokens (newest_first rs) ≡ total_tokens rs
unfolding newest_first
tokens-newest_first [] = refl
tokens-newest_first (r ∷ rs) =
    omega (arith, tokens-newest r (newest_first rs), tokens-newest_first rs)

first_rows_le : (n : ℕ) (rs : List StoredLog) → total_tokens (first_rows n rs) ≤ total_tokens rs
unfolding first_rows
first_rows_le zero rs = omega arith
first_rows_le (suc n) [] = omega arith
first_rows_le (suc n) (r ∷ rs) = omega (arith, first_rows_le n rs)

first_rows_all : (n : ℕ) (rs : List StoredLog) → length rs ≡ n → first_rows n rs ≡ rs
unfolding first_rows
first_rows_all zero [] h = refl
first_rows_all zero (r ∷ rs) h = absurd (omega (arith, h))
first_rows_all (suc n) [] h = refl
first_rows_all (suc n) (r ∷ rs) h = ap (λ qs. r ∷ qs) (first_rows_all n rs (omega (arith, h)))

tokens-map : (rs : List StoredLog) → tokens_of (map entry_of rs) ≡ total_tokens rs
tokens-map [] = refl
tokens-map (r ∷ rs) = omega (arith, tokens-map rs)

-- The entries of a response of `/usage/logs` are rows of the database that are of the tenant and of
-- the user, the newest first, and no more than the limit.
abbrev pub IsOwn : List StoredLog → Json → String → ℕ → List UsageLogEntry → Type 0
IsOwn rows tenant_id user_id limit entries =
    (own : List StoredLog) × (entries ≡ map entry_of own)
    × All (λ r. (tenant_id ≡ str r.tenant_id) × (r.user_id ≡ user_id) × IsIn r rows) own
    × IsNewestFirst own
    × (length own ≤ limit)

is_of-own :
    (tenant_id : Json) (user_id : String) (r : StoredLog)
    → is_of tenant_id user_id r ≡ true
    → (tenant_id ≡ str r.tenant_id) × (r.user_id ≡ user_id)
is_of-own (str t) user_id r h = (
  ap str (sym ((eq_iff r.tenant_id t).0 (ground (arith, h)))),
  (eq_iff r.user_id user_id).0 (ground (arith, h)),
)
is_of-own null user_id r h = absurd (cc h)
is_of-own (bool p) user_id r h = absurd (cc h)
is_of-own (int n) user_id r h = absurd (cc h)
is_of-own (float v) user_id r h = absurd (cc h)
is_of-own (arr js) user_id r h = absurd (cc h)
is_of-own (obj fs) user_id r h = absurd (cc h)

pub get_usage_logs-IsOwn :
    (rows : Result (List StoredLog)) (tenant_id : Json) (user_id : String) (limit : ℕ)
    → IsOwn
        (rows_or_none rows)
        tenant_id
        user_id
        limit
        (get_usage_logs rows tenant_id user_id limit).entries
unfolding get_usage_logs
get_usage_logs-IsOwn rows tenant_id user_id limit =
    let rs = rows_or_none rows in
    let found = where_is (is_of tenant_id user_id) rs in
    (
      first_rows limit (newest_first found),
      refl,
      All-first_rows _ limit (newest_first found) (
          All-newest_first _ found (
            All-mono (λ r. (is_of tenant_id user_id r ≡ true) × IsIn r rs)
              (λ r. (tenant_id ≡ str r.tenant_id) × (r.user_id ≡ user_id) × IsIn r rs) found
              (λ r h. let (mine, own) = is_of-own tenant_id user_id r h.0 in (mine, own, h.1))
              (All-where_is (is_of tenant_id user_id) rs))),
      first_rows-IsNewestFirst limit (newest_first found) (newest_first-IsNewestFirst found),
      omega (arith, length-first_rows limit (newest_first found)),
    )

-- The two usage queries agree: the log of a user has as many entries as the summary counts
-- requests, or as the limit allows, whichever is less. Its entries have no more tokens than the
-- summary's total, and exactly as many if the limit is the number of requests.
pub get_usage_logs-summary :
    (f : FloatOps) (rows : Result (List StoredLog)) (tenant_id : Json) (user_id : String)
    (limit : ℕ)
    → let summary = get_usage_summary f rows tenant_id user_id in
      (length (get_usage_logs rows tenant_id user_id limit).entries ≡ min limit summary.requests)
      × (tokens_of (get_usage_logs rows tenant_id user_id limit).entries ≤ summary.total_tokens)
      × (tokens_of (get_usage_logs rows tenant_id user_id summary.requests).entries
          ≡ summary.total_tokens)
unfolding get_usage_logs get_usage_summary
get_usage_logs-summary f rows tenant_id user_id limit =
    let found = where_is (is_of tenant_id user_id) (rows_or_none rows) in
    let sorted = newest_first found in
    (
      simp (length-map, length-first_rows, length-newest_first),
      omega (
        arith,
        tokens-map (first_rows limit sorted),
        first_rows_le limit sorted,
        tokens-newest_first found,
      ),
      simp (
        tokens-map,
        first_rows_all (length found) sorted (length-newest_first found),
        tokens-newest_first,
      ),
    )

-- ===== src/Http/Routes/Bounds.antt =====
-- The payloads of `/generate` that are within the bounds of schemas/generate.py.
use inference_control_plane.Prelude.{
  ℕ, String, true, Option, none, some, ◌≡◌, refl, arith, ◌≤◌, len,
}
use inference_control_plane.Schemas.{GenerateRequest}
use inference_control_plane.Http.Routes.{has_at_most, is_valid_request}

-- At most a number of characters, if there is a string.
abbrev AtMost : ℕ → Option String → Type 0
AtMost most none = Unit
AtMost most (some s) = len s ≤ most

-- The bounds that the fields of a payload promise.
abbrev pub IsWithinBounds : GenerateRequest → Type 0
IsWithinBounds r =
    (1 ≤ len r.prompt)
    × (len r.prompt ≤ 20000)
    × (1 ≤ len r.user_id)
    × (len r.user_id ≤ 128)
    × AtMost 128 r.model_override
    × AtMost 128 r.provider_override

has_at_most-AtMost : (s : Option String) → has_at_most 128 s ≡ true → AtMost 128 s
has_at_most-AtMost none h = tt
has_at_most-AtMost (some s) h = ground (arith, h)

AtMost-has_at_most : (s : Option String) → AtMost 128 s → has_at_most 128 s ≡ true
AtMost-has_at_most none h = refl
AtMost-has_at_most (some s) h = ground (arith, h)

pub valid-IsWithinBounds : (r : GenerateRequest) → is_valid_request r ≡ true → IsWithinBounds r
unfolding is_valid_request
valid-IsWithinBounds r h = (
  ground (arith, h),
  ground (arith, h),
  ground (arith, h),
  ground (arith, h),
  has_at_most-AtMost r.model_override (ground (arith, h)),
  has_at_most-AtMost r.provider_override (ground (arith, h)),
)

pub IsWithinBounds-valid : (r : GenerateRequest) → IsWithinBounds r → is_valid_request r ≡ true
unfolding is_valid_request
IsWithinBounds-valid r (p, q, u, v, m, w) = ground (
  arith,
  p,
  q,
  u,
  v,
  AtMost-has_at_most r.model_override m,
  AtMost-has_at_most r.provider_override w,
)

-- ===== src/Http/Routes/Denials.antt =====
-- Why `get_auth_context` of core/security.py does not let a caller of a route in.
use inference_control_plane.Prelude.{
  String, Bool, true, false, Option, none, some, [], ◌≡◌, refl, arith, ◌⊎◌, inl, inr, ◌==◌,
  is_empty, Bool-cases,
}
use inference_control_plane.Python.{Exc, http_exception, Result, ok, err, Raises}
use inference_control_plane.Python.Builtins.{Builtins, JsonCodec}
use inference_control_plane.Redis.{Redis}
use inference_control_plane.Settings.{Settings}
use inference_control_plane.Schemas.{ApiKey}
use inference_control_plane.Auth.{AuthContext, hash_api_key, extract_api_key, validate_api_key}
use inference_control_plane.Auth.Validation.{verdict, cached_or, validate_api_key-verdict}
use inference_control_plane.LlmClient.Transport.{Transport, World, Retryer}
use inference_control_plane.Inference.Handler.{Server}
use inference_control_plane.Http.Routes.{get_auth_context}

module _ (find : String → Result (Option ApiKey)) (b : Builtins) where
  -- A key of which the database says that there is none, or that it is not active.
  abbrev pub IsUnusable : String → Type 0
  IsUnusable key =
      (find (hash_api_key b key) ≡ ok none)
      ⊎ ((k : ApiKey) × (find (hash_api_key b key) ≡ ok (some k)) × (k.is_active ≡ false))

  -- Why a key is refused: it is missing or empty, or it is not the public one and is not usable.
  abbrev pub IsRejected : Option String → Type 0
  IsRejected none = Unit
  IsRejected (some key) =
      (is_empty key ≡ true) ⊎ ((key == "public-demo-key") ≡ false) × IsUnusable key

  -- The query for a key raises.
  abbrev pub IsUnanswered : Option String → Exc → Type 0
  IsUnanswered key e =
      (k : String) × (key ≡ some k)
      × (is_empty k ≡ false)
      × ((k == "public-demo-key") ≡ false)
      × (find (hash_api_key b k) ≡ err e)

  -- The exceptions of the authentication.
  abbrev pub IsDenied : Option String → Exc → Type 0
  IsDenied key e =
      ((detail : String) × (e ≡ http_exception 401 detail []) × IsRejected key) ⊎ IsUnanswered key e

  verdict-IsDenied :
      (k : String) (r : Result (Option ApiKey))
      → find (hash_api_key b k) ≡ r
      → is_empty k ≡ false
      → (k == "public-demo-key") ≡ false
      → Raises (IsDenied (some k)) (verdict r)
  verdict-IsDenied k (err e) h given other = inr (k, refl, given, other, h)
  verdict-IsDenied k (ok none) h given other = inl ("Invalid API key.", refl, inr (other, inl h))
  verdict-IsDenied k (ok (some key)) h given other = elim (Bool-cases key.is_active) [
    | inl active ↦ rw active tt
    | inr inactive ↦
        rw inactive (inl ("Invalid API key.", refl, inr (other, inr (key, h, inactive))))
  ]

  cached_or-IsDenied :
      (key : Option String) (r : Result AuthContext) (c : Option AuthContext)
      → Raises (IsDenied key) r
      → Raises (IsDenied key) (cached_or r c)
  cached_or-IsDenied key r none h = h
  cached_or-IsDenied key r (some c) h = tt

module _ (find : String → Result (Option ApiKey)) (b : Builtins) (J : JsonCodec) (R : Redis J.Text)
    (T : Transport) (Y : Retryer (World T)) (settings : Settings) (connected : Bool) where
  validate-IsDenied :
      (k : String) (s : R.State)
      → is_empty k ≡ false
      → Raises (IsDenied find b (some k)) (validate_api_key b J R settings find connected k s).0
  validate-IsDenied k s given =
      rw (validate_api_key-verdict b J R settings find connected k s)
        (elim (Bool-cases (k == "public-demo-key")) [
          | inl public ↦ rw public tt
          | inr other ↦ rw other (
              cached_or-IsDenied find b (some k) _ _
                (verdict-IsDenied find b k (find (hash_api_key b k)) refl given other))
        ])

  pub authenticated-IsDenied :
      (key : Option String) (app : Server b J R T Y)
      → app.session_factory ≡ true
      → Raises (IsDenied find b key) (get_auth_context b J R T Y settings connected find key app).0
  unfolding get_auth_context extract_api_key
  authenticated-IsDenied none app set = inl ("Missing API key. Provide x-api-key header.", refl, tt)
  authenticated-IsDenied (some key) app set = elim (Bool-cases (is_empty key)) [
    | inl empty ↦ rw empty (inl ("Missing API key. Provide x-api-key header.", refl, inl empty))
    | inr given ↦ rw (given, set) (validate-IsDenied key app.redis given)
  ]

  pub session-get_auth_context :
      (key : Option String) (app : Server b J R T Y)
      → (get_auth_context b J R T Y settings connected find key app).1.session_factory
        ≡ app.session_factory
  unfolding get_auth_context extract_api_key
  session-get_auth_context none app = refl
  session-get_auth_context (some key) app = ground arith

-- ===== src/Settings/Validators/Effects.antt =====
-- What the validators of core/config.py have settled.
use inference_control_plane.Prelude.{
  String, Bool, true, false, Option, none, some, ◌≡◌, ◌≢◌, refl, ap, ◌⊎◌, inl, inr, is_empty,
  contains, ◌==◌, ◌&&◌, ◌||◌, arith,
}
use inference_control_plane.Python.{Result, ok, err}
use inference_control_plane.Settings.{LlmMode, simulated, openai_compatible, multi_provider}
use inference_control_plane.Settings.Validators.{
  strip_prefix, prepend, async_scheme, chosen, with_driver, parse_database_url, engine_url, Runtime,
  lacks, is_nil, refuse_if, providers, check_providers, check_mode, validate_runtime_security,
}

with_driver-async : (s : String) → with_driver (prepend async_scheme s) ≡ prepend async_scheme s
unfolding with_driver
with_driver-async s = refl

-- A url, or one of the asynchronous scheme.
chosen-cases :
    (url : String) (short long : Option String)
    → (chosen url short long ≡ url)
      ⊎ ((rest : String) × (chosen url short long ≡ prepend async_scheme rest))
chosen-cases url (some rest) long = inr (rest, refl)
chosen-cases url none (some rest) = inr (rest, refl)
chosen-cases url none none = inl refl

with_driver-cases :
    (s : String)
    → (with_driver s ≡ s) ⊎ ((rest : String) × (with_driver s ≡ prepend async_scheme rest))
unfolding with_driver
with_driver-cases s = chosen-cases s (strip_prefix "postgres://" s) (strip_prefix "postgresql://" s)

with_driver-again : (s : String) → with_driver (with_driver s) ≡ with_driver s
with_driver-again s = elim (with_driver-cases s) [
  | inl same ↦ ap with_driver same
  | inr (rest, driven) ↦ rw (driven, with_driver-async rest) refl
]

-- A url that the engine connects to as it is.
abbrev pub IsKept : Option String → Type 0
IsKept none = Unit {0}
IsKept (some url) = engine_url url ≡ url

-- The rewriting of the scheme in db/session.py changes nothing of a database url that the validator
-- of core/config.py has settled.
pub parse_database_url-IsKept : (value : Option String) → IsKept (parse_database_url value)
unfolding with_driver
parse_database_url-IsKept none = tt
parse_database_url-IsKept (some String.[]) = refl
parse_database_url-IsKept (some (String.◌∷◌ c s)) = with_driver-again (String.◌∷◌ c s)

abbrev pub Passes : Type 0 → Result (Unit {0}) → Type 0
Passes P (ok _) = P
Passes P (err e) = Unit {0}

Passes-refuse_if :
    (P : Type 0) (p : Bool) (message : String) (rest : Result (Unit {0}))
    → (p ≡ false → Passes P rest)
    → Passes P (refuse_if p message rest)
unfolding refuse_if
Passes-refuse_if P true message rest f = tt
Passes-refuse_if P false message rest f = f refl

module _ (lower : String → String) (s : Runtime) where
  -- The keys of the providers are there.
  abbrev pub HasKeys : Type 0
  HasKeys =
      (is_nil s.llm_provider_order ≡ false)
      × ((contains (providers lower s) "openai" && lacks s.llm_api_key) ≡ false)
      × ((contains (providers lower s) "anthropic" && lacks s.anthropic_api_key) ≡ false)
      × ((contains (providers lower s) "azure"
            && (lacks s.azure_openai_base_url
                || lacks s.azure_openai_api_key
                || lacks s.azure_openai_deployment))
          ≡ false)

  check_providers-HasKeys :
      (P : Type 0) (rest : Result (Unit {0}))
      → (HasKeys → Passes P rest)
      → Passes P (check_providers lower s rest)
  unfolding check_providers
  check_providers-HasKeys P rest more = Passes-refuse_if P _ _ _ (λ order.
      Passes-refuse_if P _ _ _ (λ openai. Passes-refuse_if P _ _ _ (λ anthropic.
        Passes-refuse_if P _ _ _ (λ azure.
          Passes-refuse_if P _ _ _
            (λ deployment. more (order, openai, anthropic, ground (arith, azure, deployment)))))))

  -- What holds of settings that are accepted.
  abbrev pub IsSecure : Type 0
  IsSecure =
      (is_empty s.database_url ≡ false)
      × (is_empty s.redis_url ≡ false)
      × ((s.llm_mode ≢ openai_compatible) ⊎ HasKeys)
      × ((lower s.environment == "production" && contains s.cors_allowed_origins "*") ≡ false)

  check_mode-IsSecure :
      (mode : LlmMode) (rest : Result (Unit {0}))
      → ((mode ≢ openai_compatible) ⊎ HasKeys → Passes IsSecure rest)
      → Passes IsSecure (check_mode lower s mode rest)
  check_mode-IsSecure openai_compatible rest more =
      check_providers-HasKeys IsSecure rest (λ keys. more (inr keys))
  check_mode-IsSecure simulated rest more = more (inl (λ e. cc e))
  check_mode-IsSecure multi_provider rest more = more (inl (λ e. cc e))

  -- Settings that are accepted have a database and a Redis; in the mode `openai-compatible` an order
  -- of providers, and the keys of each of the three providers that is in it; and in production no
  -- wildcard among the origins.
  pub validate_runtime_security-IsSecure : Passes IsSecure (validate_runtime_security lower s)
  unfolding validate_runtime_security
  validate_runtime_security-IsSecure = Passes-refuse_if IsSecure _ _ _ (λ database.
      Passes-refuse_if IsSecure _ _ _ (λ redis.
        check_mode-IsSecure s.llm_mode _
          (λ mode. Passes-refuse_if IsSecure _ _ _ (λ origins. (database, redis, mode, origins)))))

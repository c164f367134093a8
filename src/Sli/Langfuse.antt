-- ===== src/Sli/Langfuse.antt =====
-- `LangfuseApiTraceSource` of sources/langfuse_api.py: its state, and a request with its retries. The
-- pages are in the children.
pub mod Retry
pub mod Body
pub mod Pages
use inference_control_plane.Prelude.{
  ℕ, zero, suc, ◌+◌, ◌^◌, String, Bool, true, false, not, Option, none, some, List, [], ◌∷◌, ◌++◌,
  ◌<>◌, ◌==◌, ◌&&◌, ◌||◌, eqb, ltb, leb, is_empty, show, if◌then◌else◌, rstrip_slash,
}
use inference_control_plane.Prelude.Dict.{Dict, lookup}
use inference_control_plane.Python.{Float, FloatOps, Exc, Result, ok, err}
use inference_control_plane.Python.Json.{Json, str, obj, end}
use inference_control_plane.Python.Builtins.{Builtins, max_float}
use inference_control_plane.Sli.Histogram.{min_float}

-- `LangfuseApiError`, `LangfuseSourceIncomplete`, and what a call of other code raises.
pub data SourceError : Type 0 where
  langfuse_api_error : ℕ → String → SourceError
  langfuse_source_incomplete : String → SourceError
  raised : Exc → SourceError

pub data Read {ℓ} (A : Type ℓ) : Type ℓ where
  got : A → Read A
  failed : SourceError → Read A

-- The status, the headers and the text of an answer. No headers at all are the empty dict.
pub record Response : Type 0 where
  pub status : ℕ
  pub headers : Dict String
  pub text : String

-- How `json.loads` ends: it returns, it raises a `JSONDecodeError` or a `TypeError`, or another one.
pub data Decoded : Type 0 where
  decoded : Json → Decoded
  not_json : Decoded
  crashed : Exc → Decoded

-- The injected transport, clock and sleep, over a state of the world, and the codecs.
pub record Wire : Type 1 where
  pub World : Type 0
  pub transport : String → Dict String → World → Result Response × World
  pub clock : World → Float × World
  pub sleep : Float → World → World
  pub urlencode : Dict String → String
  pub b64encode : String → String
  pub loads : String → Decoded

-- `stats`
pub record SourceStats : Type 0 where
  pub requests : ℕ
  pub retries : ℕ
  pub pages : ℕ
  pub latency_seconds : Float

-- What `__init__` keeps of its arguments. `base_url` is the stripped one.
pub record Source : Type 0 where
  pub base_url : String
  pub public_key : String
  pub secret_key : String
  pub from_timestamp : Option String
  pub to_timestamp : Option String
  pub page_limit : ℕ
  pub max_pages : ℕ
  pub max_retries : ℕ
  pub backoff_base : Float

-- `__init__`, with the defaults of the limits.
unfoldable pub source_for :
    Float → String → String → String → Option String → Option String → Source
unfolding rstrip_slash
source_for backoff base_url public_key secret_key from to = record {
  base_url = rstrip_slash base_url;
  public_key = public_key;
  secret_key = secret_key;
  from_timestamp = from;
  to_timestamp = to;
  page_limit = 50;
  max_pages = 10000;
  max_retries = 5;
  backoff_base = backoff;
}

-- `status in {429, 500, 502, 503, 504, 599}`
unfoldable pub is_transient : ℕ → Bool
is_transient status =
    eqb status 429
    || eqb status 500
    || eqb status 502
    || eqb status 503
    || eqb status 504
    || eqb status 599

-- What a text that `float` reads gives as a wait: at least 0 and at most 60 seconds. `float` of a text
-- raises only a `ValueError`.
abbrev pub bounded_wait : FloatOps → Float → Result Float → Float
bounded_wait f backoff (ok seconds) = min_float f (f.of_nat 60) (max_float f (f.of_nat 0) seconds)
bounded_wait f backoff (err _) = backoff

-- `_retry_after`
unfoldable pub retry_after : Builtins → Source → Dict String → ℕ → Float
unfolding lookup max_float
retry_after b c headers attempt =
    let backoff = b.floats.mul c.backoff_base (b.floats.of_nat (2 ^ attempt)) in
    elim (lookup "Retry-After" headers) [
      | none ↦ backoff
      | some ra ↦
          if is_empty ra then backoff else bounded_wait b.floats backoff (b.float_of (str ra))
    ]

-- What `_get` makes of the text of an answer that is not transient.
unfoldable pub parse_body : Decoded → Read Json
parse_body (decoded (obj fs)) = got (obj fs)
parse_body (decoded _) = failed (langfuse_source_incomplete "response JSON is not an object")
parse_body not_json = failed (langfuse_source_incomplete "response is not valid JSON")
parse_body (crashed e) = failed (raised e)

module _ (W : Wire) where
  -- The client's state: that of the world, and its counters.
  pub record Session : Type 0 where
    pub world : W.World
    pub stats : SourceStats

  abbrev pub Action : Type 0 → Type 0
  Action A = Session → Read A × Session

  -- The rest of a block, after a call that has returned or raised.
  abbrev pub continue : {A B : Type 0} → Read A × Session → (A → Action B) → Read B × Session
  continue (got a, s) f = f a s
  continue (failed e, s) f = (failed e, s)

  -- `_auth_header`
  abbrev pub auth_header : Source → String
  auth_header c = "Basic " <> W.b64encode (c.public_key <> ":" <> c.secret_key)

  abbrev pub request_headers : Source → Dict String
  request_headers c = ("Authorization", auth_header c) ∷ ("Accept", "application/json") ∷ []

  abbrev pub received : Result Response → Read Response
  received (ok r) = got r
  received (err e) = failed (raised e)

  module _ (b : Builtins) (c : Source) where
    -- The counters after a request that took the time between two readings of the clock.
    abbrev pub timed : Float → Float → SourceStats → SourceStats
    timed started ended stats = record stats {
      requests = stats.requests + 1;
      latency_seconds =
          b.floats.add stats.latency_seconds
            (max_float b.floats (b.floats.of_nat 0) (b.floats.sub ended started));
    }

    -- One request, with the readings of the clock around it.
    unfoldable pub send : String → Action Response
    unfolding max_float
    send url s =
        let (started, w) = W.clock s.world in
        let (answer, w') = W.transport url (request_headers c) w in
        continue (received answer, record s { world = w' })
          (λ r s'.
            let (ended, w'') = W.clock s'.world in
            (got r, record { world = w''; stats = timed started ended s'.stats }))

    -- What precedes `continue` in the loop of `_get`.
    unfoldable pub back_off : Response → ℕ → Session → Session
    unfolding retry_after
    back_off r attempt s = record {
      world = W.sleep (retry_after b c r.headers attempt) s.world;
      stats = record s.stats { retries = s.stats.retries + 1 };
    }

    -- What `_get` makes of an answer that it does not retry.
    unfoldable pub accept : Response → Read Json
    unfolding parse_body
    accept r =
        if not (leb 200 r.status && ltb r.status 300)
        then failed (langfuse_api_error r.status r.text)
        else if is_empty r.text
        then got (obj end)
        else parse_body (W.loads r.text)

    -- The loop of `_get`, with the attempts that are left.
    unfoldable pub attempts : ℕ → ℕ → String → Action Json
    unfolding send back_off accept is_transient
    attempts zero attempt url s =
        (failed (langfuse_api_error 429 "exhausted retries after repeated 429s"), s)
    attempts (suc left) attempt url s = continue (send url s) (λ r s'.
        let again = attempts left (attempt + 1) url (back_off r attempt s') in
        if is_transient r.status && ltb attempt c.max_retries then again else (accept r, s'))

    -- `_get`, of the parameters in the order of the dict.
    unfoldable pub get : String → Dict String → Action Json
    unfolding attempts
    get path params s =
        attempts (suc c.max_retries) 0 (c.base_url <> path <> "?" <> W.urlencode params) s

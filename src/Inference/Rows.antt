-- ===== src/Inference/Rows.antt =====
-- The rows that a request of services/inference.py leaves in the list of background tasks.
use inference_control_plane.Prelude.{
  ◌+◌, String, true, false, ◌≡◌, refl, ap, ◌∙◌, List, [], ◌∷◌, ◌++◌, length,
}
use inference_control_plane.Prelude.Int.{pos}
use inference_control_plane.Python.{FloatOps, Result, ok, err}
use inference_control_plane.Python.Exec.{Exec, continue}
use inference_control_plane.Schemas.{GenerateResponse, RequestLog}
use inference_control_plane.LlmClient.Transport.{Transport}
use inference_control_plane.Inference.State.{Task, persist_request_log, cache_response, App}

-- The rows that the background tasks will write.
abbrev pub logs : List Task → List RequestLog
logs [] = []
logs (persist_request_log e ∷ ts) = e ∷ logs ts
logs (cache_response _ _ _ _ ∷ ts) = logs ts

pub logs-append : (ts us : List Task) → logs (ts ++ us) ≡ logs ts ++ logs us
logs-append [] us = refl
logs-append (persist_request_log e ∷ ts) us = rw (logs-append ts us)
logs-append (cache_response _ _ _ _ ∷ ts) us = logs-append ts us

-- The row tells what the client is told: the response and its cost, or an error that cost nothing.
abbrev pub Tells : FloatOps → RequestLog → Result GenerateResponse → Type 0
Tells f e (ok r) =
    (e.status ≡ "success")
    × (e.response ≡ r.response)
    × (e.model_used ≡ r.model_used)
    × (e.tokens ≡ r.tokens)
    × (e.cost ≡ r.cost)
    × (e.cache_hit ≡ r.cached)
Tells f e (err _) =
    (e.status ≡ "error")
    × (e.response ≡ "")
    × (e.tokens ≡ pos 0)
    × (e.cost ≡ f.of_nat 0)
    × (e.cache_hit ≡ false)

module _ {S : Type 0} {T : Transport} where
  -- No row is queued between the two states, and the session factory stays set.
  pub record IsQuiet (app after : App S T) : Type 0 where
    pub session : after.session_factory ≡ app.session_factory
    pub same_logs : logs after.tasks ≡ logs app.tasks
    pub same_requests : length after.metrics.request_count ≡ length app.metrics.request_count

  IsQuiet-trans : (a b c : App S T) → IsQuiet a b → IsQuiet b c → IsQuiet a c
  IsQuiet-trans a b c h k = record {
    session = k.session ∙ h.session;
    same_logs = k.same_logs ∙ h.same_logs;
    same_requests = k.same_requests ∙ h.same_requests;
  }

module _ {S : Type 0} {T : Transport} (f : FloatOps) where
  -- One row is queued between the two states, and one request counted.
  pub record IsLogged (app after : App S T) (prompt : String) (r : Result GenerateResponse)
      : Type 0 where
    pub row : RequestLog
    pub one_row : logs after.tasks ≡ logs app.tasks ++ row ∷ []
    pub one_request : length after.metrics.request_count ≡ length app.metrics.request_count + 1
    pub prompt_kept : row.prompt ≡ prompt
    pub tells : Tells f row r

  -- For a response a row is queued, for an exception not yet.
  abbrev pub Logs : App S T → String → Result GenerateResponse × App S T → Type 0
  Logs app prompt (ok r, after) = IsLogged app after prompt (ok r)
  Logs app prompt (err e, after) = IsQuiet app after

  IsLogged-after :
      (a b c : App S T) (prompt : String) (r : Result GenerateResponse)
      → IsQuiet a b
      → IsLogged b c prompt r
      → IsLogged a c prompt r
  IsLogged-after a b c prompt r h l = record {
    row = l.row;
    one_row = l.one_row ∙ ap (λ (x : List RequestLog). x ++ l.row ∷ []) h.same_logs;
    one_request = l.one_request ∙ ap (λ n. n + 1) h.same_requests;
    prompt_kept = l.prompt_kept;
    tells = l.tells;
  }

  pub Logs-after :
      (a b : App S T) (prompt : String) (x : Result GenerateResponse × App S T)
      → IsQuiet a b
      → Logs b prompt x
      → Logs a prompt x
  Logs-after a b prompt (ok r, c) h l = IsLogged-after a b c prompt (ok r) h l
  Logs-after a b prompt (err e, c) h l = IsQuiet-trans a b c h l

  pub Logs-continue :
      {A : Type 0} (app : App S T) (prompt : String) (x : Result A × App S T)
      (k : A → Exec (App S T) GenerateResponse)
      → IsQuiet app x.1
      → app.session_factory ≡ true
      → ((a : A) (s : App S T) → s.session_factory ≡ true → Logs s prompt (k a s))
      → Logs app prompt (continue x k)
  Logs-continue app prompt (ok a, s) k h set each =
      Logs-after app s prompt (k a s) h (each a s (h.session ∙ set))
  Logs-continue app prompt (err e, s) k h set each = h

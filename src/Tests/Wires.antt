-- ===== src/Tests/Wires.antt =====
-- A server of pages, and one that is always busy.
use inference_control_plane.Prelude.{
  ℕ, ◌+◌, refl, arith, String, none, [], ◌∷◌, ◌<>◌, ◌==◌, if◌then◌else◌, show,
}
use inference_control_plane.Prelude.Dict.{Dict}
use inference_control_plane.Python.{of_bits, ok}
use inference_control_plane.Python.Json.{Json, str, arr, obj, Fields, cons, nil, field, end}
use inference_control_plane.Sli.Langfuse.{
  Wire, Source, Session, SourceStats, Response, decoded, get,
}
use inference_control_plane.Sli.Langfuse.Retry.{get-Settles, Settles}
use inference_control_plane.Sli.Langfuse.Body.{
  page, cursor, parts_of, base_params, cursor_of, signature, has_signature,
}
use inference_control_plane.Sli.Langfuse.Pages.{iter_records}
use inference_control_plane.Sli.Langfuse.Pages.Ending.{IsOver, iter_records-IsOver}
use inference_control_plane.Sli.Langfuse.Pages.Serving.{Answers, Gives, iter_records-Gives}
use inference_control_plane.Tests.Fixtures.{builtins}

abbrev item : String → Json
item id = obj (field "id" (str id) end)

abbrev first_meta : Fields
first_meta = field "cursor" (str "next") end

abbrev first_body : Fields
first_body = field "data" (arr (cons (item "a") nil)) (field "meta" (obj first_meta) end)

abbrev last_body : Fields
last_body = field "data" (arr (cons (item "b") nil)) end

abbrev joined : Dict String → String
joined [] = ""
joined ((k, v) ∷ d) = k <> "=" <> v <> "&" <> joined d

abbrev answer : ℕ → String → Response
answer status text = record { status = status; headers = []; text = text }

abbrev source : Source
source = record {
  base_url = "https://langfuse";
  public_key = "public";
  secret_key = "secret";
  from_timestamp = none;
  to_timestamp = none;
  page_limit = 50;
  max_pages = 3;
  max_retries = 2;
  backoff_base = of_bits 1;
}

-- The page of a query is first or last, by whether it is asked by its number.
abbrev first_url : String
first_url = "https://langfuse/api/public/observations?type=GENERATION&limit=50&page=1&"

abbrev wire_with : (String → Response) → Wire
wire_with reply = record {
  World = ℕ;
  transport = λ url headers n. (ok (reply url), n + 1);
  clock = λ n. (of_bits n, n + 1);
  sleep = λ seconds n. n;
  urlencode = joined;
  b64encode = λ s. s;
  loads = λ s. if s == "first" then decoded (obj first_body) else decoded (obj last_body);
}

abbrev pages : Wire
pages = wire_with (λ url. answer 200 (if url == first_url then "first" else "last"))

abbrev busy : Wire
busy = wire_with (λ url. answer 429 "later")

abbrev no_stats : SourceStats
no_stats = record { requests = 0; retries = 0; pages = 0; latency_seconds = of_bits 0 }

abbrev pages_session : Session pages
pages_session = record { world = 0; stats = no_stats }

abbrev busy_session : Session busy
busy_session = record { world = 0; stats = no_stats }

get-Settles_example :
    Settles busy builtins source 0 no_stats
      (get busy builtins source "/api/public/observations" [] busy_session)
get-Settles_example = get-Settles busy builtins source "/api/public/observations" [] busy_session

iter_records-IsOver_example :
    IsOver busy builtins source (iter_records busy builtins source busy_session)
iter_records-IsOver_example = iter_records-IsOver busy builtins source busy_session

first_page : Answers pages builtins source (page 1) (item "a" ∷ []) first_meta
unfolding parts_of base_params show
first_page = record {
  response = answer 200 "first";
  body = first_body;
  sent = λ w. refl;
  accepted = refl;
  full = refl;
  read = refl;
  parts = refl;
}

last_page : Answers pages builtins source (cursor "next") (item "b" ∷ []) end
unfolding parts_of base_params show
last_page = record {
  response = answer 200 "last";
  body = last_body;
  sent = λ w. refl;
  accepted = refl;
  full = refl;
  read = refl;
  parts = refl;
}

iter_records-Gives_example :
    Gives pages builtins source
      (item "a" ∷ item "b" ∷ [])
      (iter_records pages builtins source pages_session)
unfolding cursor_of signature has_signature
iter_records-Gives_example =
    iter_records-Gives pages builtins source (item "a" ∷ []) first_meta "next" (item "b" ∷ []) []
      pages_session first_page refl refl ((end, last_page, refl), tt) (refl, (refl, refl), tt)
      (omega arith)

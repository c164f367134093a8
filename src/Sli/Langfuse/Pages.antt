-- ===== src/Sli/Langfuse/Pages.antt =====
-- The pagination of `LangfuseApiTraceSource`. The records that a generator gives are a list, with how
-- it ends: a reader that stops early has a prefix of the records.
pub mod Ending
pub mod Serving
use inference_control_plane.Prelude.{
  ℕ, zero, suc, ◌+◌, ◌-◌, String, Bool, true, false, not, Option, none, some, List, [], ◌∷◌, ◌++◌,
  ◌<>◌, ◌==◌, ◌&&◌, ◌||◌, ltb, leb, is_empty, show, contains, length, if◌then◌else◌,
}
use inference_control_plane.Prelude.Dict.{Dict}
use inference_control_plane.Prelude.Int.{ℤ, pos, negsuc}
use inference_control_plane.Python.{Exc, builtin, type_error, value_error, Result, ok, err, Float}
use inference_control_plane.Python.Json.{
  Json, null, str, arr, obj, Items, nil, cons, Fields, end, entry, truthy,
}
use inference_control_plane.Python.Builtins.{Builtins, py_int}
use inference_control_plane.LlmClient.Payload.{py_str}
use inference_control_plane.Sli.Models.Values.{text_of}
use inference_control_plane.Sli.Langfuse.{
  Wire, Source, SourceStats, Session, Read, got, failed, SourceError, langfuse_source_incomplete,
  raised, Action, continue, get,
}
use inference_control_plane.Sli.Langfuse.Body.{
  incomplete, value_of, items_of, Query, query_params, since, base_params, is_object, all_objects,
  list_of, meta_of, is_listed, parts_of, same_signature, has_signature, is_nil, id_of, signature,
  cursor_of, is_number_error, total_pages, page, cursor,
}

-- How a read ends. Out of fuel is no end of the program's.
pub data End : Type 0 where
  finished : End
  raises : SourceError → End
  out_of_fuel : End

module _ (W : Wire) where
  -- The client, with the signatures of the pages that it has seen.
  pub record Reader : Type 0 where
    pub session : Session W
    pub signatures : List (List String)

  abbrev pub pages_of : Reader → ℕ
  pages_of r = r.session.stats.pages

  abbrev pub counted : Session W → Session W
  counted s = record s { stats = record s.stats { pages = s.stats.pages + 1 } }

  -- The records that a read has given, and how it ends.
  pub record Outcome : Type 0 where
    pub rows : List Json
    pub ending : End
    pub reader : Reader

  abbrev pub ends : End → Reader → Outcome
  ends e r = record { rows = []; ending = e; reader = r }

  -- `yield from rows`
  abbrev pub yields : List Json → Outcome → Outcome
  yields rows o = record o { rows = rows ++ o.rows }

  abbrev pub reader_at : Session W → Reader
  reader_at s = record {
    session = record s { stats = record s.stats { pages = 0 } };
    signatures = [];
  }

module _ (W : Wire) (b : Builtins) (c : Source) where
  -- What `_fetch_page` makes of the two parts of an answer.
  unfoldable pub take_page :
      Read (List Json × Fields) → Reader W → Read (List Json × Fields) × Reader W
  unfolding signature has_signature
  take_page (failed e) r = (failed e, r)
  take_page (got (rows, meta)) r =
      let ids = signature b rows in
      if not (is_nil rows) && has_signature r.signatures ids
      then (incomplete "pagination page repeated", r)
      else (
        got (rows, meta),
        record {
          session = counted W r.session;
          signatures = if is_nil rows then r.signatures else ids ∷ r.signatures;
        },
      )

  -- The parts of an answer to a query, or what `_get` raises.
  unfoldable pub ask : Query → Session W → Read (List Json × Fields) × Session W
  unfolding get parts_of
  ask query s =
      continue W (get W b c "/api/public/observations" (base_params c ++ query_params query) s)
        (λ body s'. (parts_of body, s'))

  -- `_fetch_page`
  unfoldable pub fetch_page : Query → Reader W → Read (List Json × Fields) × Reader W
  unfolding ask take_page base_params
  fetch_page query r =
      let (answer, s) = ask query r.session in
      if leb c.max_pages (pages_of W r)
      then (incomplete ("pagination exceeded safety limit of " <> show c.max_pages <> " pages"), r)
      else take_page answer (record r { session = s })

  -- What follows the fetch in the loop of `_iter_cursor_pages`, with the next round.
  unfoldable pub after_cursor :
      List Json → Option String → List String → Reader W → (String → Outcome W) → Outcome W
  after_cursor rows none seen r again = yields W rows (ends W finished r)
  after_cursor rows (some next) seen r again =
      if is_nil rows
      then ends W (raises (langfuse_source_incomplete "empty page supplied a continuation cursor"))
          r
      else if contains seen next
      then yields W rows
          (ends W (raises (langfuse_source_incomplete "pagination cursor repeated")) r)
      else yields W rows (again next)

  -- `_iter_cursor_pages`, with the cursors that it has seen.
  unfoldable pub cursor_pages : ℕ → String → List String → Reader W → Outcome W
  unfolding fetch_page cursor_of after_cursor
  cursor_pages zero at seen r = ends W out_of_fuel r
  cursor_pages (suc fuel) at seen r =
      let (answer, r') = fetch_page (cursor at) r in
      elim answer [
        | failed e ↦ ends W (raises e) r'
        | got (rows, meta) ↦
            after_cursor rows (cursor_of b meta) seen r'
              (λ next. cursor_pages fuel next (next ∷ seen) r')
      ]

  -- The test of the loop over numbered pages.
  abbrev pub has_more : Option ℕ → ℕ → List Json → Bool
  has_more (some total) n previous = ltb n total
  has_more none n previous = leb c.page_limit (length previous)

  -- What follows the fetch in the loop of `_iter_numbered_pages`, with the next round.
  unfoldable pub after_number : List Json → Option String → Reader W → Outcome W → Outcome W
  after_number rows (some _) r again =
      ends W (raises (langfuse_source_incomplete "pagination mode changed from page to cursor")) r
  after_number rows none r again = if is_nil rows then ends W finished r else yields W rows again

  -- The loop of `_iter_numbered_pages`, at a page.
  unfoldable pub numbered_loop : ℕ → Option ℕ → ℕ → List Json → Reader W → Outcome W
  unfolding fetch_page cursor_of after_number
  numbered_loop zero total n previous r = ends W out_of_fuel r
  numbered_loop (suc fuel) total n previous r =
      let (answer, r') = fetch_page (page (n + 1)) r in
      let round : Outcome W = elim answer [
        | failed e ↦ ends W (raises e) r'
        | got (rows, meta) ↦
            let again = numbered_loop fuel total (n + 1) rows r' in
            after_number rows (cursor_of b meta) r' again
      ] in
      if has_more total n previous then round else ends W finished r

  -- What `_iter_numbered_pages` does for a number of pages.
  unfoldable pub with_total : ℕ → Read (Option ℕ) → List Json → Reader W → Outcome W
  unfolding numbered_loop
  with_total fuel (failed e) first r = ends W (raises e) r
  with_total fuel (got (some zero)) first r = ends W finished r
  with_total fuel (got (some (suc n))) first r = numbered_loop fuel (some (suc n)) 1 first r
  with_total fuel (got none) first r = numbered_loop fuel none 1 first r

  -- `_iter_numbered_pages`
  unfoldable pub numbered_pages : ℕ → List Json → Fields → Reader W → Outcome W
  unfolding with_total total_pages
  numbered_pages fuel first meta r =
      with_total fuel (total_pages b (value_of "totalPages" meta)) first r

  -- The mode is chosen once, by the first page.
  unfoldable pub by_mode : ℕ → Option String → List Json → Fields → Reader W → Outcome W
  unfolding cursor_pages numbered_pages
  by_mode fuel (some next) rows meta r = cursor_pages fuel next (next ∷ []) r
  by_mode fuel none rows meta r = numbered_pages fuel rows meta r

  -- What follows the first fetch.
  unfoldable pub from_first : ℕ → Read (List Json × Fields) → Reader W → Outcome W
  unfolding by_mode cursor_of
  from_first fuel answer r = elim answer [
    | failed e ↦ ends W (raises e) r
    | got (rows, meta) ↦ yields W rows (by_mode fuel (cursor_of b meta) rows meta r)
  ]

  -- `iter_records`. Every page but one that fails is counted, and at the limit the next one fails: the
  -- loops go round at most as often as there are pages, and once more.
  unfoldable pub iter_records : Session W → Outcome W
  unfolding from_first
  iter_records s =
      let first = fetch_page (page 1) (reader_at W s) in
      from_first (suc c.max_pages) first.0 first.1

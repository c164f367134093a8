-- ===== src/Sli/Langfuse/Pages/Serving.antt =====
-- What a read gives of a server that answers.
use inference_control_plane.Prelude.{
  ℕ, zero, suc, ◌+◌, ◌≤◌, ◌<◌, ◌≡◌, refl, ap, String, false, Option, none, some, List, [], ◌∷◌,
  ◌++◌, ◌<>◌, arith, leb, contains, length, is_empty,
}
use inference_control_plane.Python.{ok}
use inference_control_plane.Python.Json.{Json, Fields, obj}
use inference_control_plane.Python.Builtins.{Builtins}
use inference_control_plane.Sli.Langfuse.{
  Wire, Source, Session, got, Response, decoded, get, attempts, send, accept, parse_body,
  is_transient, request_headers,
}
use inference_control_plane.Sli.Langfuse.Body.{
  Query, page, cursor, parts_of, base_params, query_params, cursor_of, is_nil, has_signature,
  signature,
}
use inference_control_plane.Sli.Langfuse.Pages.{
  finished, Reader, pages_of, reader_at, take_page, ask, fetch_page, Outcome, after_cursor,
  cursor_pages, by_mode, from_first, iter_records,
}
use inference_control_plane.Sli.Langfuse.Pages.Ending.{ask-pages}

module _ (W : Wire) (b : Builtins) (c : Source) where
  abbrev pub url_of : Query → String
  url_of query =
      c.base_url
      <> "/api/public/observations"
      <> "?"
      <> W.urlencode (base_params c ++ query_params query)

  -- The server answers a query, whenever it is asked: with status 200 and a text that is decoded to
  -- a body of these rows and this meta.
  pub record Answers (query : Query) (rows : List Json) (meta : Fields) : Type 0 where
    pub response : Response
    pub body : Fields
    pub sent : (w : W.World) → (W.transport (url_of query) (request_headers W c) w).0 ≡ ok response
    pub accepted : response.status ≡ 200
    pub full : is_empty response.text ≡ false
    pub read : W.loads response.text ≡ decoded (obj body)
    pub parts : parts_of (obj body) ≡ got (rows, meta)

  ask-got :
      (query : Query) (rows : List Json) (meta : Fields) (s : Session W)
      → Answers query rows meta
      → (ask W b c query s).0 ≡ got (rows, meta)
  unfolding ask get attempts send accept parse_body is_transient
  ask-got query rows meta s a =
      rw (a.sent (W.clock s.world).1, a.accepted, a.full, a.read, a.parts) refl

  -- The room and the rows of a page that can be taken.
  abbrev pub CanTake : List (List String) → List Json → Type 0
  CanTake seen rows = (is_nil rows ≡ false) × (has_signature seen (signature b rows) ≡ false)

  fetch-got :
      (query : Query) (rows : List Json) (meta : Fields) (r : Reader W)
      → Answers query rows meta
      → pages_of W r < c.max_pages
      → CanTake r.signatures rows
      → ((fetch_page W b c query r).0 ≡ got (rows, meta))
        × (pages_of W (fetch_page W b c query r).1 ≡ pages_of W r + 1)
        × ((fetch_page W b c query r).1.signatures ≡ signature b rows ∷ r.signatures)
  unfolding fetch_page take_page
  fetch-got query rows meta r a room (full, new) =
      let open_ : leb c.max_pages (pages_of W r) ≡ false = ground arith in
      let asked = ask-got query rows meta r.session a in
      (
        rw (open_, asked, full, new) refl,
        rw (open_, asked, full, new) (omega (arith, ask-pages W b c query r.session)),
        rw (open_, asked, full, new) refl,
      )

  -- The cursor that leads to the first of some pages.
  abbrev pub first_of : List (String × List Json) → Option String
  first_of [] = none
  first_of ((at, _) ∷ _) = some at

  -- The server answers each cursor by its rows and the cursor of the page that follows.
  abbrev pub Serves : List (String × List Json) → Type 0
  Serves [] = Unit
  Serves ((at, rows) ∷ rest) =
      ((meta : Fields) × Answers (cursor at) rows meta × (cursor_of b meta ≡ first_of rest))
      × Serves rest

  -- No page is empty, and no page and no cursor comes twice.
  abbrev pub AreNew : List String → List (List String) → List (String × List Json) → Type 0
  AreNew cursors seen [] = Unit
  AreNew cursors seen ((at, rows) ∷ rest) =
      (contains cursors at ≡ false)
      × CanTake seen rows
      × AreNew (at ∷ cursors) (signature b rows ∷ seen) rest

  abbrev pub all_rows : List (String × List Json) → List Json
  all_rows [] = []
  all_rows ((at, rows) ∷ rest) = rows ++ all_rows rest

  -- A read that has given these rows and has ended.
  abbrev pub Gives : List Json → Outcome W → Type 0
  Gives rows o = (o.rows ≡ rows) × (o.ending ≡ finished)

  after_cursor-Gives :
      (rows : List Json) (next : Option String) (seen : List String) (r : Reader W)
      (again : String → Outcome W) (rest : List (String × List Json))
      → next ≡ first_of rest
      → is_nil rows ≡ false
      → AreNew seen r.signatures rest
      → ((at : String) → next ≡ some at → Gives (all_rows rest) (again at))
      → Gives (rows ++ all_rows rest) (after_cursor W b c rows next seen r again)
  unfolding after_cursor
  after_cursor-Gives rows none seen r again [] e full new h = (refl, refl)
  after_cursor-Gives rows none seen r again (_ ∷ _) e full new h = absurd (cc e)
  after_cursor-Gives rows (some next) seen r again [] e full new h = absurd (cc e)
  after_cursor-Gives rows (some next) seen r again ((at, more) ∷ rest) e full new h =
      let unseen : contains seen next ≡ false = (let same : next ≡ at = cc e in rw same new.0) in
      rw (full, unseen) (ap (λ xs. rows ++ xs) (h next refl).0, (h next refl).1)

  cursor_pages-Gives :
      (rest : List (String × List Json)) (fuel : ℕ) (at : String) (rows : List Json)
      (seen : List String) (r : Reader W)
      → length rest < fuel
      → pages_of W r + length rest < c.max_pages
      → Serves ((at, rows) ∷ rest)
      → CanTake r.signatures rows
      → AreNew seen (signature b rows ∷ r.signatures) rest
      → Gives (rows ++ all_rows rest) (cursor_pages W b c fuel at seen r)
  unfolding cursor_pages
  cursor_pages-Gives rest zero at rows seen r enough room served take new = absurd (omega arith)
  cursor_pages-Gives [] (suc fuel) at rows seen r enough room ((meta, a, last), served) take new =
      let r' = (fetch_page W b c (cursor at) r).1 in
      let (e, one, signed) = fetch-got (cursor at) rows meta r a (omega arith) take in
      rw (e, cursor_pages)
        (after_cursor-Gives rows (cursor_of b meta) seen r' _ [] last take.0 tt
          (λ next h. absurd (cc (h, last))))
  cursor_pages-Gives ((at', rows') ∷ rest) (suc fuel) at rows seen r enough room
        ((meta, a, follows), served) take new =
      let r' = (fetch_page W b c (cursor at) r).1 in
      let (e, one, signed) = fetch-got (cursor at) rows meta r a (omega arith) take in
      rw (e, cursor_pages)
        (after_cursor-Gives rows (cursor_of b meta) seen r' _ ((at', rows') ∷ rest) follows take.0
          (rw signed new)
          (λ next h.
            let same : next ≡ at' = cc (h, follows) in
            rw same (
              cursor_pages-Gives rest fuel at' rows' (at' ∷ seen) r' (omega arith)
                (omega (arith, one)) served (rw signed new.1) (rw signed new.2))))

  -- A server that answers the first page and each cursor, always by the same rows and the same next
  -- cursor, is read whole and in order, in one pass that ends without an error, if no page is empty, no
  -- page and no cursor comes twice, and there are no more pages than the limit.
  pub iter_records-Gives :
      (rows : List Json) (meta : Fields) (at : String) (more : List Json)
      (rest : List (String × List Json)) (s : Session W)
      → Answers (page 1) rows meta
      → cursor_of b meta ≡ some at
      → is_nil rows ≡ false
      → Serves ((at, more) ∷ rest)
      → AreNew [] (signature b rows ∷ []) ((at, more) ∷ rest)
      → 2 + length rest ≤ c.max_pages
      → Gives (rows ++ all_rows ((at, more) ∷ rest)) (iter_records W b c s)
  unfolding iter_records from_first by_mode
  iter_records-Gives rows meta at more rest s a leads full served new room =
      let r = reader_at W s in
      let r' = (fetch_page W b c (page 1) r).1 in
      let (e, one, signed) = fetch-got (page 1) rows meta r a (omega arith) (full, refl) in
      let given =
        cursor_pages-Gives rest (suc c.max_pages) at more (at ∷ []) r' (omega arith)
          (omega (arith, one)) served (rw signed new.1) (rw signed new.2) in
      rw (e, from_first, leads) (ap (λ xs. rows ++ xs) given.0, given.1)

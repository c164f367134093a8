-- ===== src/Sli/Langfuse/Pages/Ending.antt =====
-- That a read of the pages comes to an end.
use inference_control_plane.Prelude.{
  ℕ, zero, suc, ◌+◌, ◌≤◌, ◌<◌, ◌≡◌, refl, ◌∙◌, inl, inr, String, not, Option, none, some, List, [],
  ◌∷◌, ◌++◌, arith, leb, Bool-cases, contains, ◌&&◌,
}
use inference_control_plane.Python.Json.{Json, Fields}
use inference_control_plane.Python.Builtins.{Builtins}
use inference_control_plane.Sli.Langfuse.{Wire, Source, Session, Read, got, failed, continue, get}
use inference_control_plane.Sli.Langfuse.Retry.{get-Settles}
use inference_control_plane.Sli.Langfuse.Body.{
  Query, page, cursor, parts_of, base_params, query_params, cursor_of, total_pages, value_of,
  is_nil, has_signature, signature,
}
use inference_control_plane.Sli.Langfuse.Pages.{
  End, finished, raises, out_of_fuel, Reader, pages_of, reader_at, take_page, ask, fetch_page,
  Outcome, ends, yields, after_cursor, after_number, with_total, by_mode, cursor_pages,
  numbered_loop, has_more, numbered_pages, from_first, iter_records,
}

-- The read came to an end, and not by want of fuel.
abbrev pub Halts : End → Type 0
Halts finished = Unit
Halts (raises _) = Unit
Halts out_of_fuel = ⊥

module _ (W : Wire) (b : Builtins) (c : Source) where
  continue-pages :
      {A B : Type 0} (x : Read A × Session W) (f : A → Session W → Read B × Session W) (n : ℕ)
      → x.1.stats.pages ≡ n
      → ((a : A) (s : Session W) → (f a s).1.stats.pages ≡ s.stats.pages)
      → (continue W x f).1.stats.pages ≡ n
  continue-pages (got a, s) f n h same = same a s ∙ h
  continue-pages (failed e, s) f n h same = h

  pub ask-pages :
      (query : Query) (s : Session W) → (ask W b c query s).1.stats.pages ≡ s.stats.pages
  unfolding ask
  ask-pages query s =
      let params = base_params c ++ query_params query in
      continue-pages (get W b c "/api/public/observations" params s)
        (λ body s'. (parts_of body, s')) s.stats.pages
        (get-Settles W b c "/api/public/observations" params s).3.2 (λ body s'. refl)

  -- A page that is read is counted, and there was room for it.
  abbrev Advances : Reader W → Read (List Json × Fields) → Reader W → Type 0
  Advances r (got _) r' = (pages_of W r' ≡ pages_of W r + 1) × (pages_of W r < c.max_pages)
  Advances r (failed _) r' = pages_of W r' ≡ pages_of W r

  take_page-Advances :
      (r r' : Reader W) (answer : Read (List Json × Fields))
      → pages_of W r' ≡ pages_of W r
      → pages_of W r < c.max_pages
      → Advances r (take_page W b c answer r').0 (take_page W b c answer r').1
  unfolding take_page
  take_page-Advances r r' (failed e) same room = same
  take_page-Advances r r' (got (rows, meta)) same room =
      elim (Bool-cases (not (is_nil rows) && has_signature r'.signatures (signature b rows))) [
        | inl e ↦ rw e same
        | inr e ↦ rw e (omega arith, room)
      ]

  fetch_page-Advances :
      (query : Query) (r : Reader W)
      → Advances r (fetch_page W b c query r).0 (fetch_page W b c query r).1
  unfolding fetch_page
  fetch_page-Advances query r = elim (Bool-cases (leb c.max_pages (pages_of W r))) [
    | inl full ↦ rw full refl
    | inr more ↦ rw more (
        take_page-Advances r (record r { session = (ask W b c query r.session).1 })
          (ask W b c query r.session).0 (ask-pages query r.session) (ground (arith, more)))
  ]

  -- The read came to an end, within the limit of pages.
  abbrev pub IsOver : Outcome W → Type 0
  IsOver o = Halts o.ending × (pages_of W o.reader ≤ c.max_pages)

  after_cursor-IsOver :
      (rows : List Json) (next : Option String) (seen : List String) (r : Reader W)
      (again : String → Outcome W)
      → pages_of W r ≤ c.max_pages
      → ((at : String) → IsOver (again at))
      → IsOver (after_cursor W b c rows next seen r again)
  unfolding after_cursor
  after_cursor-IsOver rows none seen r again room over = (tt, room)
  after_cursor-IsOver [] (some next) seen r again room over = (tt, room)
  after_cursor-IsOver (row ∷ rows) (some next) seen r again room over =
      elim (Bool-cases (contains seen next)) [ inl e ↦ rw e (tt, room) | inr e ↦ rw e (over next) ]

  after_number-IsOver :
      (rows : List Json) (next : Option String) (r : Reader W) (again : Outcome W)
      → pages_of W r ≤ c.max_pages
      → IsOver again
      → IsOver (after_number W b c rows next r again)
  unfolding after_number
  after_number-IsOver rows (some next) r again room over = (tt, room)
  after_number-IsOver [] none r again room over = (tt, room)
  after_number-IsOver (row ∷ rows) none r again room over = over

  -- The end of a round, from that of what follows a page.
  round-IsOver :
      (r r' : Reader W) (answer : Read (List Json × Fields)) (more : List Json → Fields → Outcome W)
      → pages_of W r ≤ c.max_pages
      → Advances r answer r'
      → ((rows : List Json) (meta : Fields)
          → pages_of W r' ≡ pages_of W r + 1
          → pages_of W r' ≤ c.max_pages
          → IsOver (more rows meta))
      → IsOver (elim answer [ failed e ↦ ends W (raises e) r' | got (rows, meta) ↦ more rows meta ])
  round-IsOver r r' (failed e) more room same next = (tt, omega (arith, same))
  round-IsOver r r' (got (rows, meta)) more room (one, below) next =
      next rows meta one (omega (arith, one, below))

  cursor_pages-IsOver :
      (fuel : ℕ) (at : String) (seen : List String) (r : Reader W)
      → pages_of W r ≤ c.max_pages
      → c.max_pages < pages_of W r + fuel
      → IsOver (cursor_pages W b c fuel at seen r)
  unfolding cursor_pages
  cursor_pages-IsOver zero at seen r room enough = absurd (omega arith)
  cursor_pages-IsOver (suc fuel) at seen r room enough =
      let (answer, r') = fetch_page W b c (cursor at) r in
      round-IsOver r r' answer
        (λ rows meta.
          after_cursor W b c rows (cursor_of b meta) seen r'
            (λ next. cursor_pages W b c fuel next (next ∷ seen) r'))
        room (fetch_page-Advances (cursor at) r)
        (λ rows meta one within.
          after_cursor-IsOver rows (cursor_of b meta) seen r' _ within
            (λ next. cursor_pages-IsOver fuel next (next ∷ seen) r' within (omega arith)))

  numbered_loop-IsOver :
      (fuel : ℕ) (total : Option ℕ) (n : ℕ) (previous : List Json) (r : Reader W)
      → pages_of W r ≤ c.max_pages
      → c.max_pages < pages_of W r + fuel
      → IsOver (numbered_loop W b c fuel total n previous r)
  unfolding numbered_loop
  numbered_loop-IsOver zero total n previous r room enough = absurd (omega arith)
  numbered_loop-IsOver (suc fuel) total n previous r room enough =
      let (answer, r') = fetch_page W b c (page (n + 1)) r in
      elim (Bool-cases (has_more W b c total n previous)) [
        | inr done ↦ rw done (tt, room)
        | inl more ↦ rw more (
            round-IsOver r r' answer
              (λ rows meta.
                after_number W b c rows (cursor_of b meta) r'
                  (numbered_loop W b c fuel total (n + 1) rows r'))
              room (fetch_page-Advances (page (n + 1)) r)
              (λ rows meta one within.
                after_number-IsOver rows (cursor_of b meta) r' _ within
                  (numbered_loop-IsOver fuel total (n + 1) rows r' within (omega arith))))
      ]

  numbered_pages-IsOver :
      (fuel : ℕ) (total : Read (Option ℕ)) (first : List Json) (r : Reader W)
      → pages_of W r ≤ c.max_pages
      → c.max_pages < pages_of W r + fuel
      → IsOver (with_total W b c fuel total first r)
  unfolding with_total
  numbered_pages-IsOver fuel (failed e) first r room enough = (tt, room)
  numbered_pages-IsOver fuel (got (some zero)) first r room enough = (tt, room)
  numbered_pages-IsOver fuel (got (some (suc n))) first r room enough =
      numbered_loop-IsOver fuel (some (suc n)) 1 first r room enough
  numbered_pages-IsOver fuel (got none) first r room enough =
      numbered_loop-IsOver fuel none 1 first r room enough

  by_mode-IsOver :
      (fuel : ℕ) (next : Option String) (rows : List Json) (meta : Fields) (r : Reader W)
      → pages_of W r ≤ c.max_pages
      → c.max_pages < pages_of W r + fuel
      → IsOver (by_mode W b c fuel next rows meta r)
  unfolding by_mode numbered_pages
  by_mode-IsOver fuel (some next) rows meta r room enough =
      cursor_pages-IsOver fuel next (next ∷ []) r room enough
  by_mode-IsOver fuel none rows meta r room enough =
      numbered_pages-IsOver fuel (total_pages b (value_of "totalPages" meta)) rows r room enough

  -- However the server answers, a read ends: the loops do not run out of rounds, and no more pages are
  -- counted than the limit allows.
  pub iter_records-IsOver : (s : Session W) → IsOver (iter_records W b c s)
  unfolding iter_records from_first
  iter_records-IsOver s =
      let r = reader_at W s in
      let (answer, r') = fetch_page W b c (page 1) r in
      round-IsOver r r' answer
        (λ rows meta.
          yields W rows (by_mode W b c (suc c.max_pages) (cursor_of b meta) rows meta r'))
        (omega arith) (fetch_page-Advances (page 1) r)
        (λ rows meta one within.
          by_mode-IsOver (suc c.max_pages) (cursor_of b meta) rows meta r' within (omega arith))

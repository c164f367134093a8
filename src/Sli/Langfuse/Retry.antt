-- ===== src/Sli/Langfuse/Retry.antt =====
-- How often `_get` of sources/langfuse_api.py calls the transport.
use inference_control_plane.Prelude.{
  ℕ, zero, suc, ◌+◌, ◌≤◌, ◌≡◌, refl, ◌⊎◌, inl, inr, String, Bool, true, false, arith, subst, ltb,
  ◌&&◌, Bool-cases, not, leb, is_empty, ◌<>◌, if◌then◌else◌,
}
use inference_control_plane.Prelude.Dict.{Dict}
use inference_control_plane.Python.{Float, Result, ok, err}
use inference_control_plane.Python.Json.{Json, null, bool, int, float, str, arr, obj}
use inference_control_plane.Python.Builtins.{Builtins}
use inference_control_plane.Sli.Langfuse.{
  Wire, Source, SourceStats, Decoded, decoded, not_json, crashed, parse_body, timed,
  langfuse_api_error, Session, Read, got, failed, langfuse_source_incomplete, raised, Response,
  continue, send, back_off, accept, attempts, get, is_transient, received, request_headers,
}

-- The counters after some retries: each was a request, and after them one more was answered, or the
-- call raised.
abbrev pub Counts : ℕ → SourceStats → SourceStats → Bool → Type 0
Counts k before after answered =
    (after.retries ≡ before.retries + k)
    × (after.requests ≡ before.requests + k + (if answered then 1 else 0))
    × (after.pages ≡ before.pages)

abbrev pub is_got {ℓ} : {A : Type ℓ} → Read A → Bool
is_got (got _) = true
is_got (failed _) = false

module _ (W : Wire) (b : Builtins) (c : Source) where
  received-counts :
      (s : Session W) (started : Float) (x : Result Response × W.World)
      → let after =
          continue W
            (received W x.0, record s { world = x.1 })
            (λ r s'.
              let (ended, w) = W.clock s'.world in
              (got r, record { world = w; stats = timed W b c started ended s'.stats })) in
        Counts 0 s.stats after.1.stats (is_got after.0)
  received-counts s started (ok r, w) = (omega arith, omega arith, refl)
  received-counts s started (err e, w) = (omega arith, omega arith, refl)

  -- A call that returns is counted as a request, one that raises is not.
  send-counts :
      (url : String) (s : Session W)
      → Counts 0 s.stats (send W b c url s).1.stats (is_got (send W b c url s).0)
  unfolding send
  send-counts url s =
      let (started, w) = W.clock s.world in
      received-counts s started (W.transport url (request_headers W c) w)

  -- What fails, fails by what another's code raises.
  abbrev IsOutside {ℓ} : {A : Type ℓ} → Read A → Type 0
  IsOutside (got _) = Unit
  IsOutside (failed (raised _)) = Unit
  IsOutside (failed _) = ⊥

  received-IsOutside :
      (s : Session W) (started : Float) (x : Result Response × W.World)
      → IsOutside
          (continue W
            (received W x.0, record s { world = x.1 })
            (λ r s'.
              let (ended, w) = W.clock s'.world in
              (got r, record { world = w; stats = timed W b c started ended s'.stats }))).0
  received-IsOutside s started (ok r, w) = tt
  received-IsOutside s started (err e, w) = tt

  send-IsOutside : (url : String) (s : Session W) → IsOutside (send W b c url s).0
  unfolding send
  send-IsOutside url s =
      let (started, w) = W.clock s.world in
      received-IsOutside s started (W.transport url (request_headers W c) w)

  -- An error of a status that is retried is raised only after the last retry.
  abbrev pub GivesUp : ℕ → Read Json → Type 0
  GivesUp used (failed (langfuse_api_error status text)) =
      (is_transient status ≡ false) ⊎ (used ≡ c.max_retries)
  GivesUp used _ = Unit

  parse_body-GivesUp : (used : ℕ) (d : Decoded) → GivesUp used (parse_body d)
  unfolding parse_body
  parse_body-GivesUp used (decoded null) = tt
  parse_body-GivesUp used (decoded (bool _)) = tt
  parse_body-GivesUp used (decoded (int _)) = tt
  parse_body-GivesUp used (decoded (float _)) = tt
  parse_body-GivesUp used (decoded (str _)) = tt
  parse_body-GivesUp used (decoded (arr _)) = tt
  parse_body-GivesUp used (decoded (obj _)) = tt
  parse_body-GivesUp used not_json = tt
  parse_body-GivesUp used (crashed e) = tt

  accept-GivesUp :
      (r : Response) (used : ℕ)
      → (is_transient r.status ≡ false) ⊎ (used ≡ c.max_retries)
      → GivesUp used (accept W b c r)
  unfolding accept
  accept-GivesUp r used h = elim (Bool-cases (not (leb 200 r.status && ltb r.status 300))) [
    | inl out ↦ rw out h
    | inr within ↦ rw within (elim (Bool-cases (is_empty r.text)) [
      | inl e ↦ rw e tt
      | inr e ↦ rw e (parse_body-GivesUp used (W.loads r.text))
    ])
  ]

  -- What a loop that has made `used` retries before leaves.
  abbrev pub Settles : ℕ → SourceStats → Read Json × Session W → Type 0
  Settles used before x =
      (k : ℕ) × (answered : Bool) × (used + k ≤ c.max_retries)
      × Counts k before x.1.stats answered
      × GivesUp (used + k) x.0

  settle :
      (attempt left : ℕ) (url : String) (before : SourceStats) (x : Read Response × Session W)
      → attempt ≤ c.max_retries
      → Counts 0 before x.1.stats (is_got x.0)
      → IsOutside x.0
      → ((s : Session W)
          → attempt + 1 ≤ c.max_retries
          → Settles (attempt + 1) s.stats (attempts W b c left (attempt + 1) url s))
      → Settles attempt before (
          continue W x (λ r s'.
            let again = attempts W b c left (attempt + 1) url (back_off W b c r attempt s') in
            if is_transient r.status && ltb attempt c.max_retries
            then again
            else (accept W b c r, s')))
  unfolding back_off
  settle attempt left url before (failed (raised e), s) within counts outside again =
      (0, false, omega arith, counts, tt)
  settle attempt left url before (failed (langfuse_api_error _ _), s) within counts outside again =
      elim outside [ ]
  settle attempt left url before (failed (langfuse_source_incomplete _), s) within counts outside
        again =
      elim outside [ ]
  settle attempt left url before (got r, s) within counts outside again =
      elim (Bool-cases (is_transient r.status && ltb attempt c.max_retries)) [
        | inl more ↦ rw more (
            let (k, answered, most, counts', ended) =
              again (back_off W b c r attempt s) (ground (arith, more)) in
            (
              k + 1,
              answered,
              omega (arith, most),
              omega (arith, counts, counts'),
              subst
                  (λ n.
                    GivesUp n
                      (attempts W b c left (attempt + 1) url (back_off W b c r attempt s)).0)
                  (omega arith) ended,
            ))
        | inr done ↦
            rw done
              (0, true, omega arith, counts, accept-GivesUp r (attempt + 0) (ground (arith, done)))
      ]

  attempts-Settles :
      (left attempt : ℕ) (url : String) (s : Session W)
      → attempt + left ≡ c.max_retries + 1
      → attempt ≤ c.max_retries
      → Settles attempt s.stats (attempts W b c left attempt url s)
  unfolding attempts
  attempts-Settles zero attempt url s enough within = absurd (omega arith)
  attempts-Settles (suc left) attempt url s enough within =
      settle attempt left url s.stats (send W b c url s) within (send-counts url s)
        (send-IsOutside url s)
        (λ s' more. attempts-Settles left (attempt + 1) url s' (omega arith) more)

  -- A call of `_get` makes at most as many retries as are allowed. Each retry is one request more,
  -- and so is the call that is answered; no page is counted. An error of a status that is retried is
  -- raised only when every retry is used up.
  pub get-Settles :
      (path : String) (params : Dict String) (s : Session W)
      → Settles 0 s.stats (get W b c path params s)
  unfolding get
  get-Settles path params s =
      attempts-Settles (suc c.max_retries) 0 (c.base_url <> path <> "?" <> W.urlencode params) s
        (omega arith) (omega arith)

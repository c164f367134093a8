-- ===== src/Sli/Emit/OtlpHttp/Delivery.antt =====
-- What the collector has been sent when an export ends, and when a run commits its watermark.
use inference_control_plane.Prelude.{
  ℕ, zero, suc, ◌+◌, ◌-◌, ◌≤◌, String, true, false, not, none, List, ◌≡◌, refl, ap, sym, subst, ◌⊎◌,
  inl, inr, ◌||◌, leb, leb→le, Bool-cases, Option-cases, arith,
}
use inference_control_plane.Python.{FloatOps, Result, ok, err}
use inference_control_plane.Python.Json.{Json}
use inference_control_plane.Sli.Histogram.{MetricPoint}
use inference_control_plane.Prelude.Dict.{Dict}
use inference_control_plane.Python.{Float}
use inference_control_plane.Sli.Times.{Times}
use inference_control_plane.Sli.Aggregation.Points.{AggregationStats}
use inference_control_plane.Sli.Pipeline.Finish.{Store, health_points, finish}
use inference_control_plane.Sli.Pipeline.Finish.Watermark.{finish-kept}
use inference_control_plane.Sli.Emit.{Reprs}
use inference_control_plane.Sli.Emit.OtlpHttp.{
  otlp_export_error, raised, Exported, done, failed, Collector, Client, is_accepted, is_retried,
  post, wait, after_answer, rounds, prepared, send, export, failure_name, exporter,
}

module _ (C : Collector) (f : FloatOps) (c : Client) where
  -- The posts of one body that were answered by a status that is retried, each followed by its wait,
  -- from an attempt on.
  pub data Retries (body : String) : ℕ → ℕ → C.World → C.World → Type 0 where
    rest : (attempt : ℕ) (w : C.World) → Retries body attempt 0 w w
    again :
        (attempt n status : ℕ) (text : String) (w u : C.World)
        → (post C f c body w).0 ≡ ok (status, text)
        → is_accepted status ≡ false
        → is_retried status ≡ true
        → Retries body (attempt + 1) n (wait C f c attempt (post C f c body w).1) u
        → Retries body attempt (suc n) w u

  -- What an export that ends by a post from a world says of the answer.
  abbrev pub IsVerdict : Json → String → ℕ → C.World → Exported → Type 0
  IsVerdict payload body n u (done sent) =
      (sent ≡ payload)
      × (status : ℕ) × (text : String) × ((post C f c body u).0 ≡ ok (status, text))
      × (is_accepted status ≡ true)
  IsVerdict payload body n u (failed (otlp_export_error status text)) =
      ((post C f c body u).0 ≡ ok (status, text))
      × (is_accepted status ≡ false)
      × ((is_retried status ≡ false) ⊎ (n ≡ c.max_retries))
  IsVerdict payload body n u (failed (raised e)) = (post C f c body u).0 ≡ err e

  -- A number of retries within a limit, and one last post with the outcome.
  abbrev pub Ends : Json → String → ℕ → ℕ → C.World → Exported × C.World → Type 0
  Ends payload body attempt limit w x =
      (n : ℕ) × (u : C.World) × (n ≤ limit)
      × Retries body attempt n w u
      × (x.1 ≡ (post C f c body u).1)
      × IsVerdict payload body (attempt + n) u x.0

  -- A post that is retried, before an end.
  extend :
      (payload : Json) (body : String) (left before attempt status : ℕ) (text : String)
      (w w' : C.World) (x : Exported × C.World)
      → left ≡ suc before
      → post C f c body w ≡ (ok (status, text), w')
      → is_accepted status ≡ false
      → is_retried status ≡ true
      → Ends payload body (attempt + 1) before (wait C f c attempt w') x
      → Ends payload body attempt left w x
  extend payload body left before attempt status text w w' x some_left q refused again_asked
        (n, u, within, retries, after, verdict) =
      (
        suc n,
        u,
        omega (arith, within, some_left),
        again attempt n status text w u (ap (λ x. x.0) q) refused again_asked (
            subst (λ v. Retries body (attempt + 1) n (wait C f c attempt v) u)
              (ap (λ x. x.1) (sym q)) retries),
        after,
        subst (λ m. IsVerdict payload body m u x.0)
            (let e : attempt + 1 + n ≡ attempt + suc n = omega arith in e) verdict,
      )

  step :
      (payload : Json) (body : String) (left attempt : ℕ) (w : C.World)
      (answer : Result (ℕ × String)) (w' : C.World)
      → left + attempt ≡ c.max_retries
      → post C f c body w ≡ (answer, w')
      → ((last : ℕ × String) (before : ℕ)
          → left ≡ suc before
          → Ends payload body
              (attempt + 1)
              before
              (wait C f c attempt w')
              (rounds C f c payload body left (attempt + 1) last (wait C f c attempt w')))
      → Ends payload body attempt left w (
          after_answer C f c payload attempt answer w'
            (λ last w''. rounds C f c payload body left (attempt + 1) last w''))
  unfolding after_answer
  step payload body left attempt w (err e) w' total q more =
      (0, w, omega arith, rest attempt w, ap (λ x. x.1) (sym q), ap (λ x. x.0) q)
  step payload body left attempt w (ok (status, text)) w' total q more =
      elim (Bool-cases (is_accepted status)) [
        | inl accepted ↦ rw accepted (
          0,
          w,
          omega arith,
          rest attempt w,
          ap (λ x. x.1) (sym q),
          (refl, status, text, ap (λ x. x.0) q, accepted),
        )
        | inr refused ↦ elim (Bool-cases (not (is_retried status) || leb c.max_retries attempt)) [
          | inl last ↦
              rw (refused, last)
                (
                  0,
                  w,
                  omega arith,
                  rest attempt w,
                  ap (λ x. x.1) (sym q),
                  (ap (λ x. x.0) q, refused, given_up last),
                )
          | inr more_asked ↦
              rw (refused, more_asked)
                (extend payload body left (left - 1) attempt status text w w' _
                  (ground (arith, more_asked, total)) q refused (ground (arith, more_asked))
                  (more (status, text) (left - 1) (ground (arith, more_asked, total))))
        ]
      ]
    where
      given_up :
          (not (is_retried status) || leb c.max_retries attempt) ≡ true
          → (is_retried status ≡ false) ⊎ (attempt + 0 ≡ c.max_retries)
      given_up last = elim (Bool-cases (is_retried status)) [
        | inr final ↦ inl final
        | inl retried ↦ inr (
            let at_end : leb c.max_retries attempt ≡ true = simp (retried) at last in
            omega (arith, leb→le c.max_retries attempt at_end, total))
      ]

  rounds-Ends :
      (payload : Json) (body : String) (left attempt : ℕ) (last : ℕ × String) (w : C.World)
      → left + attempt ≡ c.max_retries
      → Ends payload body attempt left w (rounds C f c payload body (suc left) attempt last w)
  unfolding rounds
  rounds-Ends payload body zero attempt last w total =
      step payload body zero attempt w _ _ total refl
        (λ last' before none_left. absurd (omega (arith, none_left)))
  rounds-Ends payload body (suc left) attempt last w total =
      step payload body (suc left) attempt w _ _ total refl (λ last' before e.
        subst
          (λ k. Ends payload body (attempt + 1) k (wait C f c attempt (post C f c body w).1) (
            rounds C f c payload body (suc left) (attempt + 1) last'
              (wait C f c attempt (post C f c body w).1)))
          (let same : left ≡ before = omega (arith, e) in same)
          (rounds-Ends payload body left (attempt + 1) last'
            (wait C f c attempt (post C f c body w).1) (omega (arith, total))))

  -- What precedes the posts has raised, and nothing is sent, or the posts have ended.
  abbrev pub IsExport : Result (Json × String) → C.World → Exported × C.World → Type 0
  IsExport (err e) w x = x ≡ (failed (raised e), w)
  IsExport (ok (payload, body)) w x = Ends payload body 0 c.max_retries w x

  send-IsExport : (r : Result (Json × String)) (w : C.World) → IsExport r w (send C f c r w)
  send-IsExport (err e) w = refl
  send-IsExport (ok (payload, body)) w =
      subst
        (λ k.
          Ends payload body 0 c.max_retries w
            (rounds C f c payload body k 0 (599, "transport failure") w))
        (let e : suc c.max_retries ≡ c.max_retries + 1 = omega arith in e)
        (rounds-Ends payload body c.max_retries 0 (599, "transport failure") w (omega arith))

  -- An export of points that `assert_allowed` refuses, or that are no JSON, raises and sends
  -- nothing. Any other export posts its one body at most `max_retries` + 1 times, and each post but
  -- the last was answered by a status that is retried. It returns the document if the last answer
  -- was a success, and raises that answer's status otherwise; if this status is one that is
  -- retried, every retry was used up. An exception of the transport ends it at once.
  pub export-IsExport :
      (q : Reprs) (points : List MetricPoint) (w : C.World)
      → IsExport (prepared C f c q points) w (export C f c q points w)
  unfolding export
  export-IsExport q points w = send-IsExport (prepared C f c q points) w

  -- The collector has accepted the document of some points, by a post that an export from a world
  -- has come to.
  abbrev pub IsDelivered : Reprs → List MetricPoint → C.World → Type 0
  IsDelivered q points w =
      (payload : Json) × (body : String) × (prepared C f c q points ≡ ok (payload, body))
      × (n : ℕ) × (u : C.World) × (n ≤ c.max_retries)
      × Retries body 0 n w u
      × (status : ℕ) × (text : String) × ((post C f c body u).0 ≡ ok (status, text))
      × (is_accepted status ≡ true)

  accepted-IsDelivered :
      (q : Reprs) (points : List MetricPoint) (w : C.World) (r : Result (Json × String))
      (x : Exported × C.World)
      → prepared C f c q points ≡ r
      → IsExport r w x
      → failure_name C f c x.0 ≡ none
      → IsDelivered q points w
  accepted-IsDelivered q points w (err e) x p h k = absurd (cc)
  accepted-IsDelivered q points w (ok (payload, body)) (done sent, v) p
        (n, u, within, retries, after, (same, status, text, answered, accepted)) k =
      (payload, body, p, n, u, within, retries, status, text, answered, accepted)
  accepted-IsDelivered q points w (ok (payload, body)) (failed (otlp_export_error s m), v) p h k =
      absurd (cc k)
  accepted-IsDelivered q points w (ok (payload, body)) (failed (raised e), v) p h k = absurd (cc k)

  exported-IsDelivered :
      (q : Reprs) (points : List MetricPoint) (w : C.World)
      → failure_name C f c (export C f c q points w).0 ≡ none
      → IsDelivered q points w
  exported-IsDelivered q points w =
      accepted-IsDelivered q points w (prepared C f c q points) (export C f c q points w) refl
        (export-IsExport q points w)

  module _ (g : FloatOps) (t : Times) (q : Reprs) (S : Store) (window_end overlap : ℕ)
      (prior : Dict Json) (current : Dict ℕ) (duration : Float) (points : List MetricPoint)
      (stats : AggregationStats) (w : C.World) (s : S.State) where
    -- With the OTLP exporter and a source that did not fail, the end of a run leaves the checkpoint
    -- store as it was, unless the collector has accepted both the points of the window and those of
    -- the heartbeat after them.
    pub finish-IsDelivered :
        stats.source_ok ≡ true
        → ((finish g t
              (exporter C f c q)
              S
              window_end
              overlap
              prior
              current
              duration
              points
              stats
              w
              s).store
            ≡ s)
          ⊎ IsDelivered q points w
            × IsDelivered q (health_points g stats) (export C f c q points w).1
    finish-IsDelivered live = elim (Option-cases (failure_name C f c (export C f c q points w).0)) [
      | inr (name, raised_name) ↦ inl (
          finish-kept g t (exporter C f c q) S window_end overlap prior current duration points
            stats w s (inr (inr (inl (live, name, raised_name)))))
      | inl flushed ↦
          let sent = export C f c q (health_points g stats) (export C f c q points w).1 in
          elim (Option-cases (failure_name C f c sent.0)) [
            | inr (name, raised_name) ↦ inl (
                finish-kept g t (exporter C f c q) S window_end overlap prior current duration
                  points stats w s (inr (inr (inr (live, flushed, _, name, refl, raised_name)))))
            | inl answered ↦ inr (
              exported-IsDelivered q points w flushed,
              exported-IsDelivered q (health_points g stats) (export C f c q points w).1 answered,
            )
          ]
    ]

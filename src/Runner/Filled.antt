-- ===== src/Runner/Filled.antt =====
-- Which numbers of a cell are there, and which are missing for want of a window or of a sampler.
use octo_performance.Prelude.{
  String, Bool, true, false, Option, none, some, List, [], ◌≡◌, refl, ap, ◌∙◌, arith, ◌⊎◌, inl, inr,
  Bool-cases, Option-cases, if◌then◌else◌, not, ◌||◌, ◌&&◌,
}
use octo_performance.Prelude.Int.{ℤ, pos, ltb_ℤ, leb_ℤ, ge→ltb_ℤ}
use octo_performance.Prelude.Float.{Float, ◌<F◌, ◌/F◌, ◌*F◌, zero_float, seconds}
use octo_performance.Series
use octo_performance.Series.Frames.{get}
use octo_performance.Stats.Steady.{Window, SteadyConfig, window_duration, fixed_window}
use octo_performance.Agent.{Collected, present}
use octo_performance.Collect.{Scrapes, Bracket}
use octo_performance.Collect as Collect
use octo_performance.Loadgen.Summary.{achieved_rps}
use octo_performance.Loadgen.K6.{Run, run_observed_max_vus}
use octo_performance.Rollup.{Headline}
use octo_performance.Prelude.Text.{Message}
use octo_performance.Promx.{Exposition}
use octo_performance.Gate.Cell.{Evidence, Peer, utilisation_pct}
use octo_performance.Gate.Settings.{Config}
use octo_performance.Gate.Generator.{runner_busy}
use octo_performance.Runner.Windowing.{
  ServerNumbers, Draft, accept, with_naive, whole_seconds, select_window, window_subject,
}
use octo_performance.Runner.Numbers.{
  server_between, window_server, fill_headline, client_numbers, server_mean_numbers, cost_numbers,
  lifetime_numbers, new_draft, windowed,
}
use octo_performance.Runner.Gathered.{CellFacts, evidence, runner_evidence}

if_both {ℓ κ} :
    {A : Type ℓ} (P : A → Type κ) (b : Bool) {x y : A} → P x → P y → P (if b then x else y)
if_both P true p q = p
if_both P false p q = q

middle_false : (p l c : Bool) → l ≡ false → (p && l && c) ≡ false
middle_false true l c h = rw h refl
middle_false false l c h = refl

last_false : (p c : Bool) → c ≡ false → (p && c) ≡ false
last_false true c h = h
last_false false c h = refl

no_subject {ℓ} :
    {A : Type ℓ} (p q : Bool) (a b : A) → p ≡ false → (if not p || not q then a else b) ≡ a
no_subject p q a b h = rw h refl

module _ {F : Type 0} ⦃fl : Float F⦄ where
  -- Nothing is filled in of what is measured over the window.
  pub record IsBlank (h : Headline F) : Type 0 where
    pub no_mean : h.has_server_mean ≡ false
    pub mean_zero : h.server_mean_ms ≡ zero_float
    pub gap_zero : h.client_server_gap ≡ zero_float
    pub no_runner : h.has_runner_cpu ≡ false
    pub runner_zero : h.runner_cpu_pct ≡ zero_float
    pub cpu_zero : h.subject_cpu_pct ≡ zero_float
    pub cost_zero : h.subject_cpu_ms_per_req ≡ zero_float
    pub peak_zero : h.subject_rss_peak_mb ≡ zero_float
    pub drift_zero : h.subject_rss_drift_mb ≡ zero_float

  -- What the load generator said of its pass.
  pub record IsReported (run : Run F) (h : Headline F) : Type 0 where
    pub offered : h.offered_rate ≡ run.offered_rate
    pub achieved : h.achieved_rps ≡ achieved_rps run.summary
    pub mean : h.client_mean_ms ≡ run.summary.duration.avg
    pub p50 : h.client_p50_ms ≡ run.summary.duration.med
    pub p95 : h.client_p95_ms ≡ run.summary.duration.p95
    pub p99 : h.client_p99_ms ≡ run.summary.duration.p99
    pub waiting : h.client_waiting_p95_ms ≡ run.summary.waiting.p95
    pub requests : h.requests ≡ run.summary.requests.count
    pub dropped : h.dropped ≡ run.summary.dropped.count
    pub allocated : h.pre_allocated_vus ≡ run.pool.pre_allocated_vus
    pub observed : h.observed_max_vus ≡ run_observed_max_vus run

  -- The numbers that `fill_headline` works out of the window and of the server touch none of the others.
  abbrev client_part : Headline F → F × F × F × F × F × F × F × F × F × ℤ × ℤ × F
  client_part h = (
    h.offered_rate, h.achieved_rps, h.client_mean_ms, h.client_p50_ms, h.client_p95_ms,
    h.client_p99_ms, h.client_waiting_p95_ms, h.requests, h.dropped, h.pre_allocated_vus,
    h.observed_max_vus, h.runner_cpu_pct,
  )

  client_part-server_mean_numbers :
      (s : ServerNumbers F) (h : Headline F) → client_part (server_mean_numbers s h) ≡ client_part h
  unfolding server_mean_numbers
  client_part-server_mean_numbers s h =
      if_both (λ u. client_part u ≡ client_part h) s.has_flow_mean refl refl

  client_part-cost_numbers :
      (ok : Bool) (w : ℤ) (h : Headline F) → client_part (cost_numbers ok w h) ≡ client_part h
  unfolding cost_numbers
  client_part-cost_numbers ok w h =
      if_both (λ u. client_part u ≡ client_part h)
        (zero_float <F h.requests && (zero_float <F h.subject_cpu_pct && ok))
        (if_both (λ u. client_part u ≡ client_part h) (zero_float <F h.achieved_rps *F seconds w)
          refl refl)
        refl

  client_part-lifetime_numbers :
      (cold : ℤ) (o : Option F) (h : Headline F)
      → client_part (lifetime_numbers cold o h) ≡ client_part h
  client_part-lifetime_numbers cold none h = refl
  client_part-lifetime_numbers cold (some x) h = refl

  client_part-fill_headline :
      (out : Draft F) (run : Run F)
      → client_part (fill_headline out run).headline ≡ client_part (client_numbers run out.headline)
  unfolding fill_headline
  client_part-fill_headline out run =
      let client = client_numbers run out.headline in
      let meant = server_mean_numbers out.server client in
      client_part-lifetime_numbers out.cold_start out.rusage
        (cost_numbers out.window_ok (window_duration out.window) meant)
      ∙ client_part-cost_numbers out.window_ok (window_duration out.window) meant
      ∙ client_part-server_mean_numbers out.server client

  fill_headline-runner :
      (out : Draft F) (run : Run F)
      → (fill_headline out run).headline.runner_cpu_pct ≡ out.headline.runner_cpu_pct
  unfolding client_numbers
  fill_headline-runner out run = ap (λ t. t.11) (client_part-fill_headline out run)

  fill_headline-sampled :
      (out : Draft F) (run : Run F) → (fill_headline out run).runner ≡ out.runner
  unfolding fill_headline
  fill_headline-sampled out run = refl

  window_subject-absent : (out : Draft F) → present out.subject ≡ false → window_subject out ≡ out
  unfolding window_subject
  window_subject-absent out s = no_subject (present out.subject) out.window_ok out _ s

  runner_evidence-present :
      (out : Draft F)
      → present out.runner ≡ true
      → ((runner_evidence out).present ≡ true)
        × ((runner_evidence out).cpu_pct_mean ≡ out.headline.runner_cpu_pct)
        × ((runner_evidence out).cores ≡ out.runner.static.cores)
  unfolding runner_evidence
  runner_evidence-present out r = rw (runner_evidence, r) (refl, refl, refl)

  idle_lem :
      (p : Bool) (cores : ℤ) (ceiling mean : F)
      → mean ≡ zero_float
      → ceiling <F zero_float /F fl.of_int cores ≡ false
      → (p
          && ltb_ℤ (pos 0) cores
          && ceiling <F (if leb_ℤ cores (pos 0) then zero_float else mean /F fl.of_int cores))
        ≡ false
  idle_lem p cores ceiling mean z h = elim (Bool-cases (leb_ℤ cores (pos 0))) [
    | inl b ↦ middle_false p (ltb_ℤ (pos 0) cores) _ (ge→ltb_ℤ (pos 0) cores (ground (arith, b)))
    | inr b ↦ last_false (p && ltb_ℤ (pos 0) cores) _ (
        ap (λ t. ceiling <F (if t then zero_float else mean /F fl.of_int cores)) b
        ∙ ap (λ m. ceiling <F m /F fl.of_int cores) z
        ∙ h)
  ]

  runner_busy-idle :
      (cfg : Config F) (e : Evidence F)
      → e.runner.cpu_pct_mean ≡ zero_float
      → cfg.runner_cpu_ceiling_pct <F zero_float /F fl.of_int e.runner.cores ≡ false
      → runner_busy cfg e ≡ []
  unfolding runner_busy utilisation_pct
  runner_busy-idle cfg e z h =
      rw
        (idle_lem e.runner.present e.runner.cores cfg.runner_cpu_ceiling_pct e.runner.cpu_pct_mean z
          h)
        refl

  -- The choice of the window leaves the numbers and the samples alone.
  abbrev kept : Draft F → Headline F × ServerNumbers F × Collected F × Collected F
  kept out = (out.headline, out.server, out.subject, out.runner)

  module _ (parse_duration : String → Option ℤ) where
    accept-kept :
        (out : Draft F) (o : Option (Window F)) → kept (accept parse_duration out o) ≡ kept out
    unfolding accept
    accept-kept out none = refl
    accept-kept out (some w) = refl

    with_naive-kept :
        (out : Draft F) (o : Option (Window F)) → kept (with_naive parse_duration out o) ≡ kept out
    with_naive-kept out none = refl
    with_naive-kept out (some w) = refl

    select_window-kept :
        (steady : SteadyConfig F) (out : Draft F) (run : Run F)
        → kept (select_window parse_duration steady out run) ≡ kept out
    unfolding select_window
    select_window-kept steady out run = elim (Option-cases (get run.series "k6.rps")) [
      | inl e ↦ rw (select_window, e) refl
      | inr (all, e) ↦
          rw (select_window, e)
            (if_both (λ u. kept u ≡ kept out) (Series.empty all) refl
              (if_both (λ u. kept u ≡ kept out) (Series.empty (whole_seconds all)) refl
                (accept-kept
                    (with_naive parse_duration out
                      (fixed_window (whole_seconds all) (pos 10_000_000_000)))
                    _
                  ∙ with_naive-kept out _)))
    ]

module _ {F : Type 0} ⦃fl : Float F⦄ (parse_float : String → Option F)
    (lines_of : String → List String × Option String) where
  -- Nothing but the server's numbers changes.
  abbrev others : Draft F → Headline F × Collected F × Bool
  others out = (out.headline, out.runner, out.window_ok)

  with_server-others :
      (out : Draft F) (flows : List String)
      (o : Message F ⊎ (Exposition F × Exposition F × Bracket))
      → others (elim o as (λ x. Draft F) [
        | inl e ↦ out
        | inr pair ↦ record out { server = server_between parse_float flows pair }
      ])
        ≡ others out
  with_server-others out flows (inl e) = refl
  with_server-others out flows (inr pair) = refl

  window_server-others :
      (out : Draft F) (scrapes : Scrapes) (flows : List String)
      → others (window_server parse_float lines_of out scrapes flows) ≡ others out
  unfolding window_server
  window_server-others out scrapes flows =
      if_both (λ u. others u ≡ others out) (not (Collect.present scrapes) || not out.window_ok) refl
        (with_server-others out flows _)

  module _ (parse_duration : String → Option ℤ) where
    -- Where the runner was sampled and the subject was not, the runner's mean CPU is never worked out:
    -- the gates are told that the runner was measured and that its mean was zero, and the check of a
    -- busy generator finds nothing, however busy the samples say it was, unless its ceiling lies below
    -- zero divided by the number of cores.
    pub runner-unmeasured :
        (load_duration : ℤ) (subject runner : Collected F) (cold_start : ℤ) (rusage : Option F)
        (steady : SteadyConfig F) (run : Run F) (scrapes : Scrapes) (flows : List String)
        (c : CellFacts F) (peers : List Peer) (cfg : Config F)
        → present runner ≡ true
        → present subject ≡ false
        → cfg.runner_cpu_ceiling_pct <F zero_float /F fl.of_int runner.static.cores ≡ false
        → let u =
            windowed parse_float lines_of parse_duration steady
              (new_draft load_duration subject runner cold_start rusage)
              run
              scrapes
              flows in
          let e = evidence c u run peers in
          (e.runner.present ≡ true)
          × (e.runner.cpu_pct_mean ≡ zero_float)
          × (runner_busy cfg e ≡ [])
    unfolding evidence windowed
    runner-unmeasured load_duration subject runner cold_start rusage steady run scrapes flows c
          peers cfg r s ceiling =
        let new = new_draft load_duration subject runner cold_start rusage in
        let chosen = select_window parse_duration steady new run in
        let same = select_window-kept parse_duration steady new run in
        let served = window_server parse_float lines_of (window_subject chosen) scrapes flows in
        let u = fill_headline served run in
        let unsampled : window_subject chosen ≡ chosen =
          window_subject-absent chosen (ap (λ t. present t.2) same ∙ s) in
        let sampled : u.runner ≡ runner =
          fill_headline-sampled served run
          ∙ ap (λ t. t.1) (window_server-others (window_subject chosen) scrapes flows)
          ∙ ap (λ d. d.runner) unsampled
          ∙ ap (λ t. t.3) same in
        let zero : u.headline.runner_cpu_pct ≡ zero_float =
          fill_headline-runner served run
          ∙ ap (λ t. t.0.runner_cpu_pct)
              (window_server-others (window_subject chosen) scrapes flows)
          ∙ ap (λ d. d.headline.runner_cpu_pct) unsampled
          ∙ ap (λ t. t.0.runner_cpu_pct) same in
        let (there, mean, cores) = runner_evidence-present u (ap present sampled ∙ r) in
        (
          there,
          mean ∙ zero,
          runner_busy-idle cfg (evidence c u run peers) (mean ∙ zero) (
              ap (λ n. cfg.runner_cpu_ceiling_pct <F zero_float /F fl.of_int n)
                (cores ∙ ap (λ d. d.static.cores) sampled)
              ∙ ceiling),
        )

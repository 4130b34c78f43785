-- ===== src/Runner/Windowing.antt =====
-- campaign/campaign.go: the window of a cell, chosen from what was measured, and the numbers of the cell
-- over that window.
use octo_performance.Prelude.{
  String, Bool, true, false, not, ◌&&◌, ◌||◌, Option, none, some, List, [], ◌∷◌, if◌then◌else◌,
}
use octo_performance.Prelude.Int.{ℤ, pos, ltb_ℤ, eqb_ℤ}
use octo_performance.Prelude.Text.{Message, str, sprintf, plain, str_eq, append}
use octo_performance.Prelude.Float.{Float, ◌*F◌, ◌/F◌, of_nat, seconds}
use octo_performance.Series
use octo_performance.Series.{Point, Series}
use octo_performance.Series.Frames.{get}
use octo_performance.Series.Moments.{delta, max}
use octo_performance.Stats.Steady.{
  Window, SteadyConfig, window_duration, steady_config_for, detect_steady, fixed_window,
}
use octo_performance.Agent.{
  Collected, Fidelity, full, coarse, is_full_fidelity, present, cpu, rss, host_busy,
  cpu_rate_quantum,
}
use octo_performance.Loadgen.K6.{Run}
use octo_performance.Promx.Window.{Quantile}
use octo_performance.Collect.{Bracket}
use octo_performance.Rollup.{Headline}

-- The struct `Server` of result/cell.go.
pub record ServerNumbers (F : Type 0) : Type 0 where
  pub present : Bool
  pub bracket : Option Bracket
  pub flows : List String
  pub messages_completed : F
  pub messages_failed : F
  pub messages_dropped : F
  pub flow_mean_seconds : F
  pub has_flow_mean : Bool
  pub flow_p95 : Quantile F
  pub flow_p99 : Quantile F
  pub throughput_rps : F

-- The part of `result.Cell` that the steps after the measured pass read and fill in.
pub record Draft (F : Type 0) : Type 0 where
  pub load_duration : ℤ
  pub subject : Collected F
  pub runner : Collected F
  pub cold_start : ℤ
  pub rusage : Option F
  pub window : Window F
  pub window_ok : Bool
  pub window_note : Message F
  pub naive_window : Window F
  pub server : ServerNumbers F
  pub headline : Headline F

abbrev fidelity_text : Fidelity → String
fidelity_text full = "full"
fidelity_text coarse = "coarse"

module _ {F : Type 0} where
  -- `wholeSeconds`: the points without the first and the last one.
  abbrev init_points : List (Point F) → List (Point F)
  init_points [] = []
  init_points (p ∷ []) = []
  init_points (p ∷ q ∷ ps) = p ∷ init_points (q ∷ ps)

  unfoldable pub whole_seconds : Series F → Series F
  whole_seconds s = record s { points = elim s.points [ [] ↦ [] | p ∷ ps ↦ init_points ps ] }

  abbrev no_note : Message F → Bool
  no_note m = str_eq m.format ""

module _ {F : Type 0} ⦃fl : Float F⦄ (parse_duration : String → Option ℤ) where
  -- The subject's CPU rate as a second series, where the sampler can see it.
  unfoldable pub corroborated_by : Collected F → SteadyConfig F → SteadyConfig F
  corroborated_by subject cfg =
      if present subject && is_full_fidelity subject.fidelity
      then (let rate = (Series.rate (cpu subject)).0 in
          if Series.empty rate then cfg else record cfg {
            corroborate = rate;
            corroborate_resolution = cpu_rate_quantum parse_duration subject;
          })
      else cfg

  -- What `DetectSteady` found of a series with whole seconds.
  unfoldable pub accept : Draft F → Option (Window F) → Draft F
  accept out none = record out {
    window_ok = false;
    window_note =
        plain "no interval of this pass was flat enough to measure; there is no silent fallback";
  }
  accept out (some w) =
      let why =
        if no_note w.corroboration_note
        then sprintf "the subject's CPU was not available to agree (sampler fidelity %q)"
            (str (fidelity_text out.subject.fidelity) ∷ [])
        else w.corroboration_note in
      record out {
        window = w;
        window_ok = true;
        window_note =
            if w.corroborated
            then out.window_note
            else record why { format = append "accepted on throughput alone: " why.format };
      }

  abbrev pub with_naive : Draft F → Option (Window F) → Draft F
  with_naive out none = out
  with_naive out (some w) = record out { naive_window = w }

  -- `steady` is the configuration of the campaign; its bucket is 0 where it has none.
  unfoldable pub select_window : SteadyConfig F → Draft F → Run F → Draft F
  unfolding whole_seconds corroborated_by accept
  select_window steady out run = elim (get run.series "k6.rps") [
    | none ↦ record out { window_note = plain "the load pass produced no throughput series" }
    | some all ↦
        if Series.empty all
        then record out { window_note = plain "the load pass produced no throughput series" }
        else let rps = whole_seconds all in
          if Series.empty rps
          then record out {
            window_note =
                plain "the load pass was too short to contain a whole second of throughput";
          }
          else let cfg =
              if eqb_ℤ steady.bucket (pos 0) then steady_config_for out.load_duration else steady in
            accept (with_naive out (fixed_window rps (pos 10_000_000_000)))
              (detect_steady rps (corroborated_by out.subject cfg))
  ]

module _ {F : Type 0} ⦃fl : Float F⦄ where
  abbrev share_pct : F → ℤ → F
  share_pct d w = d /F seconds w *F of_nat 100

  abbrev mebi : F → F
  mebi x = x /F of_nat 1_048_576

  -- `if delta, ok := …; ok && out.Window.Duration() > 0`
  abbrev set_cpu : ℤ → Option F → Headline F → Headline F
  set_cpu w none h = h
  set_cpu w (some d) h = if ltb_ℤ (pos 0) w then record h { subject_cpu_pct = share_pct d w } else h

  abbrev set_peak : Option F → Headline F → Headline F
  set_peak none h = h
  set_peak (some x) h = record h { subject_rss_peak_mb = mebi x }

  abbrev set_drift : Option F → Headline F → Headline F
  set_drift none h = h
  set_drift (some x) h = record h { subject_rss_drift_mb = mebi x }

  abbrev set_busy : ℤ → Option F → Headline F → Headline F
  set_busy w none h = h
  set_busy w (some d) h =
      if ltb_ℤ (pos 0) w
      then record h { runner_cpu_pct = share_pct d w; has_runner_cpu = true }
      else h

  unfoldable pub window_runner : Draft F → Headline F → Headline F
  window_runner out h =
      if present out.runner
      then set_busy (window_duration out.window)
          (delta (Series.window (host_busy out.runner) out.window.from out.window.to)) h
      else h

  unfoldable pub window_subject : Draft F → Draft F
  unfolding window_runner
  window_subject out =
      if not (present out.subject) || not out.window_ok
      then out
      else let w = window_duration out.window in
        let used = Series.window (cpu out.subject) out.window.from out.window.to in
        let resident = Series.window (rss out.subject) out.window.from out.window.to in
        record out {
          headline = window_runner out (
              set_drift (delta resident)
                (set_peak (max resident) (set_cpu w (delta used) out.headline)));
        }

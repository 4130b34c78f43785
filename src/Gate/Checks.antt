-- ===== src/Gate/Checks.antt =====
-- When the suite a campaign runs excludes a cell.
use octo_performance.Prelude.{
  ◌≡◌, refl, ap, ◌∙◌, Bool, true, false, not, ◌&&◌, ◌||◌, List, [], ◌∷◌, ◌++◌, Option-cases, Option,
  none, some, inl, inr, arith, any,
}
use mathlib.Core.Path.{ap₂}
use octo_performance.Prelude.Int.{pos, ltb_ℤ, leb_ℤ}
use octo_performance.Prelude.Float.{Float, ◌<F◌, ◌≤F◌, ◌=F◌, zero_float, of_nat}
use octo_performance.Gate.Cell.{Evidence, Peer, growth, achieved_ratio, utilisation_pct}
use octo_performance.Gate.Settings.{Config, or_default, with_defaults}
use octo_performance.Gate.Generator.{
  pool_growth, vu_ceiling, runner_busy, negative_correlation, feedback_loop, disagrees, peer_pools,
  check_generator,
}
use octo_performance.Gate.Suite.{
  shed, present_differs, check_errors, check_rate_gap, check_window, check_identity, host_differs,
  readiness_differs, check_fingerprint, check_clock, default_suite,
}
use octo_performance.Gate.{invalid, Finding, excluded, evaluate}
use octo_performance.Gate.Verdict.{raw_findings, reaches, any-append, excluded-evaluate_lem}

or_false : (b : Bool) → (b || false) ≡ b
or_false b = ground arith

abbrev pub is_some {ℓ} : {A : Type ℓ} → Option A → Bool
is_some none = false
is_some (some x) = true

module _ {F : Type 0} ⦃fl : Float F⦄ where
  -- Some finding excludes the cell.
  abbrev excludes : List (Finding F) → Bool
  excludes = any (reaches invalid)

  -- The load generator measured itself: the pool grew past the limit or hit its cap, its machine
  -- was busy, throughput fell as its CPU rose, or a sibling needed a very different pool.
  pub measured_itself : Config F → Evidence F → Bool
  measured_itself cfg e =
      (ltb_ℤ (pos 0) e.load.pre_allocated_vus
        && (cfg.pool_growth_suspect <F growth e.load && cfg.pool_growth_invalid ≤F growth e.load))
      || ((ltb_ℤ (pos 0) e.load.vu_cap && leb_ℤ e.load.vu_cap e.load.observed_max_vus)
          || ((e.runner.present
                && (ltb_ℤ (pos 0) e.runner.cores
                    && cfg.runner_cpu_ceiling_pct <F utilisation_pct e.runner))
              || (is_some (negative_correlation e) || any (disagrees cfg e) e.peers)))

  peer_pools_lem :
      (cfg : Config F) (e : Evidence F) (ps : List Peer)
      → excludes (peer_pools cfg e ps) ≡ any (disagrees cfg e) ps
  unfolding peer_pools reaches
  peer_pools_lem cfg e [] = refl
  peer_pools_lem cfg e (p ∷ ps) = ground (arith, peer_pools_lem cfg e ps)

  feedback_loop_lem :
      (e : Evidence F) → excludes (feedback_loop e) ≡ is_some (negative_correlation e)
  unfolding feedback_loop reaches
  feedback_loop_lem e = elim (Option-cases (negative_correlation e)) [
    | inl n ↦ rw n refl
    | inr (r, s) ↦ rw s refl
  ]

  pool_growth_lem :
      (cfg : Config F) (e : Evidence F)
      → excludes (pool_growth cfg e) ≡ (
          ltb_ℤ (pos 0) e.load.pre_allocated_vus
          && (cfg.pool_growth_suspect <F growth e.load && cfg.pool_growth_invalid ≤F growth e.load))
  unfolding pool_growth reaches
  pool_growth_lem cfg e = ground arith

  vu_ceiling_lem :
      (e : Evidence F)
      → excludes (vu_ceiling e)
        ≡ (ltb_ℤ (pos 0) e.load.vu_cap && leb_ℤ e.load.vu_cap e.load.observed_max_vus)
  unfolding vu_ceiling reaches
  vu_ceiling_lem e = ground arith

  runner_busy_lem :
      (cfg : Config F) (e : Evidence F)
      → excludes (runner_busy cfg e) ≡ (
          e.runner.present
          && (ltb_ℤ (pos 0) e.runner.cores
              && cfg.runner_cpu_ceiling_pct <F utilisation_pct e.runner))
  unfolding runner_busy reaches
  runner_busy_lem cfg e = ground arith

  abbrev plus :
      {a b : Bool} (xs ys : List (Finding F))
      → excludes xs ≡ a
      → excludes ys ≡ b
      → excludes (xs ++ ys) ≡ (a || b)
  plus xs ys p q = any-append (reaches invalid) xs ys ∙ ap₂ (λ a b. a || b) p q

  -- The generator's gate excludes exactly the cells in which it measured itself.
  check_generator_lem :
      (config : Config F) (e : Evidence F)
      → excludes (check_generator config e) ≡ measured_itself (with_defaults config) e
  unfolding check_generator measured_itself
  check_generator_lem config e =
      let cfg = with_defaults config in
      plus (pool_growth cfg e) _ (pool_growth_lem cfg e) (
        plus (vu_ceiling e) _ (vu_ceiling_lem e) (
          plus (runner_busy cfg e) _ (runner_busy_lem cfg e)
            (plus (feedback_loop e) _ (feedback_loop_lem e) (peer_pools_lem cfg e e.peers))))

  -- Requests failed, or the runtime shed work that the client counted as done.
  pub lost_work : Config F → Evidence F → Bool
  lost_work cfg e =
      cfg.max_failed_rate <F e.load.failed_rate
      || (e.server.present && (zero_float <F shed e && e.load.failed_rate =F zero_float))

  -- The offered rate was not offered.
  pub fell_short : Config F → Evidence F → Bool
  fell_short cfg e =
      cfg.max_dropped_iterations <F e.load.dropped_iterations
      || (zero_float <F e.load.offered_rate && achieved_ratio e.load <F cfg.achieved_vs_offered_min)

  -- The port was held by another build, or its detection was wrong.
  pub wrong_subject : Evidence F → Bool
  wrong_subject e =
      (e.server.present && present_differs e.server.intended_version e.server.identity_version)
      || (e.caps.admin_port_detected && not e.caps.admin_port_answered)

  pub clock_moved : Config F → Evidence F → Bool
  clock_moved cfg e = e.clock.measured && cfg.max_clock_drift_ms <F fl.abs e.clock.drift_ms

  check_errors_lem :
      (config : Config F) (e : Evidence F)
      → excludes (check_errors config e) ≡ lost_work (with_defaults config) e
  unfolding check_errors lost_work reaches
  check_errors_lem config e = ground arith

  check_rate_gap_lem :
      (config : Config F) (e : Evidence F)
      → excludes (check_rate_gap config e) ≡ fell_short (with_defaults config) e
  unfolding check_rate_gap fell_short reaches
  check_rate_gap_lem config e = ground arith

  check_window_lem : (e : Evidence F) → excludes (check_window e) ≡ not e.window_ok
  unfolding check_window reaches
  check_window_lem e = ground arith

  check_identity_lem : (e : Evidence F) → excludes (check_identity e) ≡ wrong_subject e
  unfolding check_identity wrong_subject reaches
  check_identity_lem e = ground arith

  host_differs_lem :
      (e : Evidence F) (ps : List Peer)
      → excludes (host_differs e ps)
        ≡ any (λ p. present_differs e.fingerprint_hash p.fingerprint_hash) ps
  unfolding host_differs reaches
  host_differs_lem e [] = refl
  host_differs_lem e (p ∷ ps) = ground (arith, host_differs_lem e ps)

  readiness_differs_lem :
      (e : Evidence F) (ps : List Peer) → excludes (readiness_differs e ps) ≡ false
  unfolding readiness_differs reaches
  readiness_differs_lem e [] = refl
  readiness_differs_lem e (p ∷ ps) = ground (arith, readiness_differs_lem e ps)

  pub other_machine : Evidence F → Bool
  other_machine e = any (λ p. present_differs e.fingerprint_hash p.fingerprint_hash) e.peers

  check_fingerprint_lem : (e : Evidence F) → excludes (check_fingerprint e) ≡ other_machine e
  unfolding check_fingerprint other_machine
  check_fingerprint_lem e =
      plus (host_differs e e.peers) _ (host_differs_lem e e.peers) (readiness_differs_lem e e.peers)
      ∙ ground arith

  check_clock_lem :
      (config : Config F) (e : Evidence F)
      → excludes (check_clock config e) ≡ clock_moved (with_defaults config) e
  unfolding check_clock clock_moved reaches
  check_clock_lem config e = ground arith

  default_twice : (x d : F) → or_default (or_default x d) d ≡ or_default x d
  default_twice x d = ground arith

  -- Filling in the defaults twice changes nothing.
  with_defaults-with_defaults : (c : Config F) → with_defaults (with_defaults c) ≡ with_defaults c
  unfolding with_defaults
  with_defaults-with_defaults c = λ i. record c {
    runner_cpu_ceiling_pct = default_twice c.runner_cpu_ceiling_pct (of_nat 80) i;
    pool_growth_suspect = default_twice c.pool_growth_suspect (fl.decimal 10 1) i;
    pool_growth_invalid = default_twice c.pool_growth_invalid (fl.decimal 20 1) i;
    peer_pool_ratio_invalid = default_twice c.peer_pool_ratio_invalid (fl.decimal 20 1) i;
    achieved_vs_offered_min = default_twice c.achieved_vs_offered_min (fl.decimal 99 2) i;
    max_clock_drift_ms = default_twice c.max_clock_drift_ms (of_nat 50) i;
  }

  -- Without observe mode the default suite excludes exactly the cells in which the load generator measured
  -- itself, work was lost, the offered rate was not offered, no steady window was found, the subject was
  -- not the one meant, a sibling ran on another machine, or the clocks moved apart, each by the
  -- thresholds with their defaults filled in.
  pub excluded-default_lem :
      (config : Config F) (e : Evidence F)
      → let cfg = with_defaults config in
        excluded (evaluate (default_suite config) e false) ≡ (
          measured_itself cfg e
          || (lost_work cfg e
              || (fell_short cfg e
                  || (not e.window_ok
                      || (wrong_subject e || (other_machine e || clock_moved cfg e))))))
  unfolding default_suite raw_findings
  excluded-default_lem config e =
      let cfg = with_defaults config in
      let same = with_defaults-with_defaults config in
      excluded-evaluate_lem (default_suite config) e
      ∙ plus (check_generator cfg e) _
          (check_generator_lem cfg e ∙ ap (λ c. measured_itself c e) same)
          (plus (check_errors cfg e) _ (check_errors_lem cfg e ∙ ap (λ c. lost_work c e) same) (
            plus (check_rate_gap cfg e) _ (check_rate_gap_lem cfg e ∙ ap (λ c. fell_short c e) same)
              (plus (check_window e) _ (check_window_lem e) (
                plus (check_identity e) _ (check_identity_lem e) (
                  plus (check_fingerprint e) _ (check_fingerprint_lem e) (
                    plus (check_clock cfg e) []
                      (check_clock_lem cfg e ∙ ap (λ c. clock_moved c e) same) refl
                    ∙ or_false (clock_moved cfg e)))))))

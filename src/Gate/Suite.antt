-- ===== src/Gate/Suite.antt =====
-- gate/gates.go, the six other gates, and gate/gate.go's `Default`, the suite a campaign runs.
use octo_performance.Prelude.{String, Bool, not, ◌&&◌, List, [], ◌∷◌, ◌++◌, if◌then◌else◌}
use octo_performance.Prelude.Text.{Arg, float, str, sprintf, plain, str_eq}
use octo_performance.Prelude.Float.{Float, ◌+F◌, ◌*F◌, ◌<F◌, ◌=F◌, zero_float, of_nat}
use octo_performance.Gate.Cell.{Evidence, Peer, achieved_ratio}
use octo_performance.Gate.Settings.{Config, with_defaults, round_to, when}
use octo_performance.Gate.Generator.{generator_saturation}
use octo_performance.Gate.{suspect, invalid, Finding, Check}

abbrev pub present_differs : String → String → Bool
present_differs s t = not (str_eq s "") && not (str_eq t "") && not (str_eq s t)

module _ {F : Type 0} ⦃fl : Float F⦄ where
  abbrev pub no_evidence : List (String × Arg F)
  no_evidence = []

  -- `e.Server.MessagesFailed + e.Server.MessagesDropped`
  abbrev pub shed : Evidence F → F
  shed e = e.server.messages_failed +F e.server.messages_dropped

  unfoldable pub check_errors : Config F → Evidence F → List (Finding F)
  check_errors config e =
      let cfg = with_defaults config in
      when (cfg.max_failed_rate <F e.load.failed_rate) (record {
        gate = "loadgen.errors";
        level = invalid;
        summary =
            sprintf "%.2f%% of requests failed" (float (e.load.failed_rate *F of_nat 100) ∷ []);
        detail =
            "fast failures look like fast successes; a throughput figure over errors is not a result";
        evidence =
            ("failedRate", float e.load.failed_rate)
            ∷ ("maxAllowed", float cfg.max_failed_rate)
            ∷ [];
      })
      ++ (when (e.server.present && zero_float <F shed e) (record {
        gate = "loadgen.errors";
        level = if e.load.failed_rate =F zero_float then invalid else suspect;
        summary =
            sprintf "the runtime shed %.0f messages the client counted as successful"
              (float (shed e) ∷ []);
        detail = "";
        evidence =
            ("messagesFailed", float e.server.messages_failed)
            ∷ ("messagesDropped", float e.server.messages_dropped)
            ∷ ("clientFailedRate", float e.load.failed_rate)
            ∷ [];
      })
          ++ when (e.server.present && not e.server.ready_throughout) (record {
            gate = "loadgen.errors";
            level = suspect;
            summary = plain "the runtime reported itself not ready during the measured window";
            detail = "";
            evidence = no_evidence;
          }))

  unfoldable pub check_rate_gap : Config F → Evidence F → List (Finding F)
  unfolding achieved_ratio round_to
  check_rate_gap config e =
      let cfg = with_defaults config in
      let ratio = achieved_ratio e.load in
      when (cfg.max_dropped_iterations <F e.load.dropped_iterations) (record {
        gate = "loadgen.saturated";
        level = invalid;
        summary =
            sprintf "the generator could not start %.0f iterations"
              (float e.load.dropped_iterations ∷ []);
        detail =
            "dropped iterations mean the offered rate was never offered, so the latency percentiles include time requests spent queued at the generator";
        evidence =
            ("droppedIterations", float e.load.dropped_iterations)
            ∷ ("maxAllowed", float cfg.max_dropped_iterations)
            ∷ [];
      })
      ++ (when (zero_float <F e.load.offered_rate && ratio <F cfg.achieved_vs_offered_min) (record {
        gate = "loadgen.saturated";
        level = invalid;
        summary = sprintf "achieved %.0f req/s against %.0f offered (%.1f%%)" (
            float e.load.achieved_rps
            ∷ float e.load.offered_rate
            ∷ float (ratio *F of_nat 100)
            ∷ []);
        detail =
            "a gap between offered and achieved is saturation regardless of what the percentiles say";
        evidence =
            ("offeredRate", float e.load.offered_rate)
            ∷ ("achievedRps", float (round_to e.load.achieved_rps 1))
            ∷ ("ratio", float (round_to ratio 4))
            ∷ ("minRatio", float cfg.achieved_vs_offered_min)
            ∷ [];
      })
          ++ when
              (e.server.present
                && e.server.has_flow_mean
                && zero_float <F e.server.flow_mean_seconds
                && zero_float <F e.load.dropped_iterations)
              (record {
                gate = "loadgen.saturated";
                level = suspect;
                summary =
                    sprintf
                      "client-observed latency includes generator queueing (runtime mean was %.2f ms)"
                      (float (e.server.flow_mean_seconds *F of_nat 1000) ∷ []);
                detail =
                    "this run shed iterations, so client latency counts time spent waiting to be issued";
                evidence =
                    ("flowMeanMs", float (round_to (e.server.flow_mean_seconds *F of_nat 1000) 3))
                    ∷ ("droppedIterations", float e.load.dropped_iterations)
                    ∷ [];
              }))

  unfoldable pub check_window : Evidence F → List (Finding F)
  unfolding round_to
  check_window e =
      if e.window_ok
      then when (not e.window.corroborated) (record {
        gate = "window.steady-state";
        level = suspect;
        summary = plain "the measured window was accepted on throughput alone";
        detail =
            "no corroborating series was available, so a throughput plateau masking a still-warming subject would not have been caught";
        evidence = ("cv", float (round_to e.window.cv 4)) ∷ [];
      })
      else record {
        gate = "window.steady-state";
        level = invalid;
        summary = plain "no steady window was found in the load pass";
        detail =
            "the run never settled, so there is no interval whose numbers describe a stable system";
        evidence = no_evidence;
      }
        ∷ []

  unfoldable pub check_identity : Evidence F → List (Finding F)
  check_identity e =
      when (e.server.present && present_differs e.server.intended_version e.server.identity_version)
        (record {
          gate = "subject.identity";
          level = invalid;
          summary =
              sprintf "the running process reports %s but the harness started %s"
                (str e.server.identity_version ∷ str e.server.intended_version ∷ []);
          detail = "";
          evidence =
              ("reported", str e.server.identity_version)
              ∷ ("intended", str e.server.intended_version)
              ∷ [];
        })
      ++ when (e.caps.admin_port_detected && not e.caps.admin_port_answered) (record {
        gate = "subject.identity";
        level = invalid;
        summary = plain "an admin port was detected but never answered";
        detail =
            "capability detection greps the artifact's own help text; this cell proves it was wrong";
        evidence = no_evidence;
      })

  -- The two loops of `Fingerprint.Check`, each of which stops at its first finding.
  unfoldable pub host_differs : Evidence F → List Peer → List (Finding F)
  host_differs e [] = []
  host_differs e (p ∷ ps) =
      let others = host_differs e ps in
      if present_differs e.fingerprint_hash p.fingerprint_hash
      then record {
        gate = "env.fingerprint";
        level = invalid;
        summary = sprintf "host fingerprint differs from sibling %s" (str p.cell_id ∷ []);
        detail = "";
        evidence =
            ("fingerprint", str e.fingerprint_hash)
            ∷ ("peerCellId", str p.cell_id)
            ∷ ("peerFingerprint", str p.fingerprint_hash)
            ∷ [];
      }
        ∷ []
      else others

  unfoldable pub readiness_differs : Evidence F → List Peer → List (Finding F)
  readiness_differs e [] = []
  readiness_differs e (p ∷ ps) =
      let others = readiness_differs e ps in
      if present_differs e.ready.method p.ready_method
      then record {
        gate = "env.fingerprint";
        level = suspect;
        summary =
            sprintf "readiness measured by %q here and %q in sibling %s"
              (str e.ready.method ∷ str p.ready_method ∷ str p.cell_id ∷ []);
        detail =
            "a build with no admin port reaches ready at a later moment than one that answers /readyz, so the cold-start figures are not the same measurement";
        evidence = no_evidence;
      }
        ∷ []
      else others

  unfoldable pub check_fingerprint : Evidence F → List (Finding F)
  check_fingerprint e = host_differs e e.peers ++ readiness_differs e e.peers

  unfoldable pub check_clock : Config F → Evidence F → List (Finding F)
  unfolding round_to
  check_clock config e =
      let cfg = with_defaults config in
      if not e.clock.measured
      then record {
        gate = "env.clock";
        level = suspect;
        summary = plain "the clock offset between runner and subject was not measured";
        detail = "cross-machine correlation is unverifiable without it";
        evidence = no_evidence;
      }
        ∷ []
      else when (cfg.max_clock_drift_ms <F fl.abs e.clock.drift_ms) (record {
        gate = "env.clock";
        level = invalid;
        summary =
            sprintf "the clock offset moved %.0f ms during the cell" (float e.clock.drift_ms ∷ []);
        detail =
            "at 1 Hz sampling this is enough to move a sample by a whole bucket and invert the apparent order of events";
        evidence =
            ("driftMs", float (round_to e.clock.drift_ms 1))
            ∷ ("offsetMs", float (round_to e.clock.offset_ms 1))
            ∷ ("maxDrift", float cfg.max_clock_drift_ms)
            ∷ [];
      })

  -- `Default`.
  unfoldable pub default_suite : Config F → List (Check F)
  default_suite config =
      let cfg = with_defaults config in
      generator_saturation cfg
      ∷ record { id = "loadgen.errors"; check = check_errors cfg }
      ∷ record { id = "loadgen.saturated"; check = check_rate_gap cfg }
      ∷ record { id = "window.steady-state"; check = check_window }
      ∷ record { id = "subject.identity"; check = check_identity }
      ∷ record { id = "env.fingerprint"; check = check_fingerprint }
      ∷ record { id = "env.clock"; check = check_clock cfg }
      ∷ []

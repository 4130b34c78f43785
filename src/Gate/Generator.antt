-- ===== src/Gate/Generator.antt =====
-- gate/gates.go, `GeneratorSaturation`: five signals that the load generator measured itself.
use octo_performance.Prelude.{
  String, Bool, ◌&&◌, ◌||◌, Option, none, some, List, [], ◌∷◌, ◌++◌, ltb, if◌then◌else◌, length,
}
use octo_performance.Prelude.Int.{pos, nat_abs, ◌-ℤ◌, ltb_ℤ, leb_ℤ}
use octo_performance.Prelude.Text.{float, int, str, sprintf, plain, str_eq}
use octo_performance.Prelude.Float.{Float, ◌*F◌, ◌/F◌, ◌<F◌, ◌≤F◌, ◌=F◌, zero_float, of_nat}
use octo_performance.Series.{Point}
use octo_performance.Series.Moments.{squares_of}
use octo_performance.Gate.Cell.{Evidence, Peer, growth, utilisation_pct}
use octo_performance.Gate.Settings.{Config, with_defaults, round_to, when}
use octo_performance.Gate.{suspect, invalid, Finding, Check}

abbrev generator_id : String
generator_id = "loadgen.saturation"

module _ {F : Type 0} ⦃fl : Float F⦄ where
  unfoldable pub pool_growth : Config F → Evidence F → List (Finding F)
  unfolding round_to growth
  pool_growth cfg e =
      when (ltb_ℤ (pos 0) e.load.pre_allocated_vus && cfg.pool_growth_suspect <F growth e.load)
        (record {
          gate = generator_id;
          level = if cfg.pool_growth_invalid ≤F growth e.load then invalid else suspect;
          summary =
              sprintf "the generator grew its VU pool %.1fx past its allocation"
                (float (growth e.load) ∷ []);
          detail =
              "extra virtual users are extra goroutines competing for the same cores as the subject, which slows it, which grows the pool again";
          evidence =
              ("preAllocatedVUs", int e.load.pre_allocated_vus)
              ∷ ("observedMaxVUs", int e.load.observed_max_vus)
              ∷ ("growth", float (round_to (growth e.load) 3))
              ∷ ("suspectAt", float cfg.pool_growth_suspect)
              ∷ ("invalidAt", float cfg.pool_growth_invalid)
              ∷ [];
        })

  unfoldable pub vu_ceiling : Evidence F → List (Finding F)
  vu_ceiling e =
      when (ltb_ℤ (pos 0) e.load.vu_cap && leb_ℤ e.load.vu_cap e.load.observed_max_vus) (record {
        gate = generator_id;
        level = invalid;
        summary = plain "the generator reached its VU ceiling";
        detail =
            "the pool was still growing when it hit the cap, so the offered rate was never actually offered";
        evidence =
            ("observedMaxVUs", int e.load.observed_max_vus) ∷ ("vuCap", int e.load.vu_cap) ∷ [];
      })

  unfoldable pub runner_busy : Config F → Evidence F → List (Finding F)
  unfolding round_to utilisation_pct
  runner_busy cfg e =
      let util = utilisation_pct e.runner in
      when (e.runner.present && ltb_ℤ (pos 0) e.runner.cores && cfg.runner_cpu_ceiling_pct <F util)
        (record {
          gate = generator_id;
          level = invalid;
          summary = sprintf "the load generator's own machine was %.0f%% busy" (float util ∷ []);
          detail =
              "a saturated generator measures itself; the subject's numbers describe queueing on the runner";
          evidence =
              ("runnerCpuPctMean", float (round_to e.runner.cpu_pct_mean 1))
              ∷ ("runnerCpuPctPeak", float (round_to e.runner.cpu_pct_peak 1))
              ∷ ("runnerCores", int e.runner.cores)
              ∷ ("utilisationPct", float (round_to util 1))
              ∷ ("ceilingPct", float cfg.runner_cpu_ceiling_pct)
              ∷ [];
        })

  -- The inner loop of the pairing: move on while the next CPU sample is nearer in time.
  unfoldable pub seek : Point F → Point F → List (Point F) → Point F × List (Point F)
  seek p cur [] = (cur, [])
  seek p cur (next ∷ rest) =
      let moved = seek p next rest in
      if ltb (nat_abs (next.at -ℤ p.at)) (nat_abs (cur.at -ℤ p.at))
      then moved
      else (cur, next ∷ rest)

  -- Throughput beside the CPU sample nearest to it, where one lies within 1.5 s.
  unfoldable pub pair_nearest : Point F → List (Point F) → List (Point F) → List (F × F)
  unfolding seek
  pair_nearest cur later [] = []
  pair_nearest cur later (p ∷ ps) =
      let (near, rest) = seek p cur later in
      let others = pair_nearest near rest ps in
      if ltb 1_500_000_000 (nat_abs (near.at -ℤ p.at)) then others else (p.v, near.v) ∷ others

  unfoldable pub pearson : List (F × F) → Option F
  pearson xys =
      let q = squares_of xys in
      if q.sxx =F zero_float || q.syy =F zero_float
      then none
      else some (q.sxy /F fl.sqrt (q.sxx *F q.syy))

  -- `r > -0.7` declines.
  abbrev strongly_negative : Option F → Option F
  strongly_negative none = none
  strongly_negative (some r) = if fl.sub zero_float (fl.decimal 7 1) <F r then none else some r

  correlate : List (Point F) → List (Point F) → Option F
  unfolding pair_nearest pearson
  correlate rps [] = none
  correlate rps (c ∷ cpu) =
      let xys = pair_nearest c cpu rps in
      if ltb (length xys) 5 then none else strongly_negative (pearson xys)

  unfoldable pub negative_correlation : Evidence F → Option F
  unfolding correlate
  negative_correlation e =
      if ltb (length e.load.rps.points) 5 || ltb (length e.runner.cpu.points) 5
      then none
      else correlate e.load.rps.points e.runner.cpu.points

  -- `if r, ok := negativeCorrelation(e); ok { … }`
  unfoldable report_loop : Option F → List (Finding F)
  unfolding round_to
  report_loop none = []
  report_loop (some r) =
      record {
        gate = generator_id;
        level = invalid;
        summary = plain "throughput fell as the generator's CPU rose";
        detail = "that is the generator competing with the subject, not the subject slowing down";
        evidence = ("correlation", float (round_to r 3)) ∷ [];
      }
      ∷ []

  unfoldable pub feedback_loop : Evidence F → List (Finding F)
  unfolding report_loop
  feedback_loop e = report_loop (negative_correlation e)

  -- How far apart the two pools are, at least one.
  unfoldable pub pool_ratio : Evidence F → Peer → F
  pool_ratio e p =
      let ratio = fl.of_int e.load.observed_max_vus /F fl.of_int p.observed_max_vus in
      if ratio <F of_nat 1 then of_nat 1 /F ratio else ratio

  -- A sibling of the same scenario, both pools known, whose pool differs too much.
  unfoldable pub disagrees : Config F → Evidence F → Peer → Bool
  unfolding pool_ratio
  disagrees cfg e p =
      str_eq p.scenario e.scenario
      && ltb_ℤ (pos 0) p.observed_max_vus
      && ltb_ℤ (pos 0) e.load.observed_max_vus
      && cfg.peer_pool_ratio_invalid ≤F pool_ratio e p

  -- The loop over the peers, which stops at the first that disagrees.
  unfoldable pub peer_pools : Config F → Evidence F → List Peer → List (Finding F)
  unfolding disagrees round_to
  peer_pools cfg e [] = []
  peer_pools cfg e (p ∷ ps) =
      let others = peer_pools cfg e ps in
      if disagrees cfg e p
      then record {
        gate = generator_id;
        level = invalid;
        summary =
            sprintf "this cell's VU pool differs %.1fx from sibling %s"
              (float (pool_ratio e p) ∷ str p.cell_id ∷ []);
        detail =
            "cells in one campaign that needed wildly different generator capacity were not measuring the same system";
        evidence =
            ("observedMaxVUs", int e.load.observed_max_vus)
            ∷ ("peerCellId", str p.cell_id)
            ∷ ("peerObservedMaxVUs", int p.observed_max_vus)
            ∷ ("ratio", float (round_to (pool_ratio e p) 2))
            ∷ ("invalidAt", float cfg.peer_pool_ratio_invalid)
            ∷ [];
      }
        ∷ []
      else others

  unfoldable pub check_generator : Config F → Evidence F → List (Finding F)
  check_generator config e =
      let cfg = with_defaults config in
      pool_growth cfg e
      ++ (vu_ceiling e ++ (runner_busy cfg e ++ (feedback_loop e ++ peer_pools cfg e e.peers)))

  abbrev pub generator_saturation : Config F → Check F
  generator_saturation cfg = record { id = generator_id; check = check_generator cfg }

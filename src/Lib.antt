-- ===== src/Lib.antt =====
-- Verification library of octo-performance, a benchmark harness: a campaign compares builds (arms) on
-- scenarios, runs each cell (a scenario, an arm, a repetition) under load, and publishes a number only
-- if the cell's measurements are valid. The code is Go, under harness/internal.
--
-- The parts, in the order in which a campaign goes through them:
--   * Spec models spec/spec.go: what a campaign and a scenario declare, their defaults, `Load.Merge`
--     (`merge`) and the `Validate` methods (Spec.Validation), which here answer the list of the
--     errors that they join. YAML decoding and the file system are left out.
--   * Payload models payload/payload.go: `Build` and the three generators of request bodies.
--   * Plan models plan/plan.go: `Expand` (`expand`) lays out the cells of a validated campaign, in
--     the order that `armOrder` (`arm_order`) gives; `Remaining`, `Sequence` and `hashPlan` read them.
--   * Series models series/series.go: the time series that the collectors fill, cut, moved to another
--     clock, differenced, bucketed (Series) and summarised (Series.Moments), and frames of them.
--   * Stats models stats/*.go: the summary of repeated measurements (Stats.Describe), the comparison
--     of two arms (Stats.Compare), the steady window of a load pass (Stats.Steady), and the knee of
--     a capacity ramp (Stats.Knee) with the ramp's stages (Stats.Ramp).
--   * Gate models gate/*.go: the evidence of a cell (Gate.Cell), the thresholds (Gate.Settings), the
--     seven gates (Gate.Generator, Gate.Suite), and `Evaluate`, which folds their findings (Gate).
--   * Runner models campaign/*.go: the procedure `RunCell` as the order of its effects
--     (Runner.Procedure), and what it works out between them: the offset of two clocks (Runner.Clock),
--     the window of a cell (Runner.Windowing), its numbers (Runner.Numbers) and its evidence
--     (Runner.Gathered), the load and the environment that are asked for (Runner.Requests), and the
--     ramp by which `Calibrate` chooses a rate (Runner.Calibration).
--   * Loadgen models loadgen/*.go: the size of the pool (Loadgen.Pool), the stream of samples
--     (Loadgen.Stream), the summary (Loadgen.Summary), and what k6 is asked and is recorded
--     (Loadgen.K6).
--   * Promx models promx/*.go: the metrics of a scrape, their reader (Promx.Parse), and the difference
--     of two scrapes with its quantiles (Promx.Window). Collect models collect/collect.go: the scraper
--     and the choice of the two scrapes around a window. Agent models agent/sample.go: the sampler of
--     a process and the series of what it read.
--   * Rollup models result/*.go: the repetitions of an arm and its comparison with the baseline, the
--     names and their orders (Rollup.Names), the findings and the sentence that leads the report
--     (Rollup.Sentence), the ledger, the warnings and the calibration of the gates (Rollup.Notes), and
--     `Rollup` itself over all cells (Rollup.Campaign).
-- A scenario's load, merged with the campaign's, goes from Spec into the plan's cells; Runner takes a
-- cell through its procedure; what Loadgen, Agent and Collect recorded become series and exact
-- differences over a window that Stats finds; windows and series become a cell's evidence, on which the
-- gates decide; the cells that they do not exclude are what Rollup describes and compares.
--
-- State and errors. The modelled code is functional: an operation that changes a receiver returns the
-- new one. A result with a false `ok` is none; an error is a value, with its text. A message of
-- fmt.Sprintf keeps its format and its arguments apart, and so does the evidence of a finding.
-- Maps are lists of pairs or functions. Where Go would index out of range, the model takes a default.
--
-- Numbers. float64 is an abstract type with the operations that the code uses (Prelude.Float); what a
-- theorem needs of its order is a named hypothesis. The examples use thousandths as its instance.
-- Instants and durations are integers of nanoseconds and Go's `int` is an unbounded integer, except for
-- what is computed as an int64 and wraps (`wrap64`): the sum that decides the rotation of the arms, the
-- ceiling of the pool, the targets of a ramp and its duration.
--
-- Effects. The procedure of a cell is run in a `World` that says which of its effects succeed; the trace
-- lists the effects in their order with their outcomes. The goroutines of a sampler and of a scraper
-- are steps, each whole, as the mutexes make them.
--
-- Fuel. The loop of `jsonRecords` runs on the source's own cap of 200000 records, with the source's
-- error when it is used up, and the loop of `measureClock` for the source's seven turns. All other
-- loops go through a list, a text or a count.
--
-- Parameters. encoding/json, fmt, strconv and crypto/sha256 are the fields of `Payload.Codec` and
-- `Plan.Print`; strconv.ParseFloat, ParseInt and Itoa, the scanner's lines and Duration.String are
-- arguments where they are used; the random generator of the bootstrap is a function on a state, and
-- the order of a map's iteration is an argument `walk`; strings.ToUpper is an argument of `Spec.verb`.
-- sort.SliceStable is a stable insertion sort (Prelude.Sort).
--
-- Not modelled. YAML, files, pipes, processes and hosts (subject, the sources of agent, and exec but for
-- the environment of a local process), the report (report, render), the rendering of a configuration and
-- the set-up of a scenario's dependencies (the rest of campaign), the test double (fake), buildinfo and
-- the commands (cmd).
--
-- The modules named Examples hold runs at concrete inputs.
pub mod Prelude
pub mod Series
pub mod Stats
pub mod Agent
pub mod Collect
pub mod Gate
pub mod Payload
pub mod Spec
pub mod Loadgen
pub mod Plan
pub mod Promx
pub mod Rollup
pub mod Runner

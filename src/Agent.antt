-- ===== src/Agent.antt =====
-- harness/internal/agent/sample.go: what a sampler read of a process and its machine, and the series it
-- gives. Sampler models the sampler itself. The sources of the samples (/proc, ps, ssh) are arguments.
pub mod Sampler
mod Examples
use octo_performance.Prelude.{
  String, Bool, true, false, not, Option, none, some, List, [], ◌∷◌, map, if◌then◌else◌, is_empty,
}
use octo_performance.Prelude.Int.{ℤ, pos, leb_ℤ}
use octo_performance.Prelude.Float.{Float, ◌+F◌, ◌/F◌, zero_float, of_nat, seconds}
use octo_performance.Series.{Point, Series}

pub data Fidelity : Type 0 where
  full coarse : Fidelity

-- The type `Sample` of package agent.
pub record MachineSample (F : Type 0) : Type 0 where
  pub t : ℤ
  pub user_seconds : F
  pub sys_seconds : F
  pub rss_bytes : ℤ
  pub threads : ℤ
  pub open_fds : ℤ
  pub voluntary_ctx_switches : ℤ
  pub involuntary_ctx_switches : ℤ
  pub host_busy_seconds : F
  pub host_idle_seconds : F
  pub load1 : F

pub record Static : Type 0 where
  pub hostname : String
  pub cores : ℤ
  pub page_size : ℤ
  pub clock_tick : ℤ
  pub boot_time : ℤ
  pub cpu_model : String
  pub kernel : String

pub record Collected (F : Type 0) : Type 0 where
  pub source : String
  pub fidelity : Fidelity
  pub static : Static
  pub interval : String
  pub pid : ℤ
  pub samples : List (MachineSample F)
  pub errors : List String
  pub missed : ℤ

abbrev pub is_full_fidelity : Fidelity → Bool
is_full_fidelity full = true
is_full_fidelity coarse = false

module _ {F : Type 0} where
  unfoldable pub present : Collected F → Bool
  present c = not (is_empty c.samples)

  unfoldable pub series_of : Collected F → String → String → (MachineSample F → F) → Series F
  series_of c name unit f = record {
    name = name;
    unit = unit;
    points = map (λ s. record { at = s.t; v = f s }) c.samples;
  }

  unfoldable pub host_busy : Collected F → Series F
  unfolding series_of
  host_busy c = series_of c "host.cpu.seconds" "seconds" (λ s. s.host_busy_seconds)

module _ {F : Type 0} ⦃fl : Float F⦄ where
  unfoldable pub cpu_seconds : MachineSample F → F
  cpu_seconds s = s.user_seconds +F s.sys_seconds

  unfoldable pub cpu : Collected F → Series F
  unfolding series_of cpu_seconds
  cpu c = series_of c "subject.cpu.seconds" "seconds" cpu_seconds

  unfoldable pub rss : Collected F → Series F
  unfolding series_of
  rss c = series_of c "subject.rss.bytes" "bytes" (λ s. fl.of_int s.rss_bytes)

  unfoldable pub open_fds : Collected F → Series F
  unfolding series_of
  open_fds c = series_of c "subject.fds" "count" (λ s. fl.of_int s.open_fds)

  unfoldable pub threads : Collected F → Series F
  unfolding series_of
  threads c = series_of c "subject.threads" "count" (λ s. fl.of_int s.threads)

  -- `parse_duration` is time.ParseDuration.
  unfoldable pub cpu_rate_quantum : (String → Option ℤ) → Collected F → F
  cpu_rate_quantum parse_duration c =
      if leb_ℤ c.static.clock_tick (pos 0) then zero_float else elim (parse_duration c.interval) [
        | none ↦ zero_float
        | some d ↦
            if leb_ℤ d (pos 0)
            then zero_float
            else of_nat 1 /F fl.of_int c.static.clock_tick /F seconds d
      ]

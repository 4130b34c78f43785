-- ===== src/Gate/Cell.antt =====
-- gate/evidence.go: everything one cell produced, as plain values. Times are nanoseconds.
use octo_performance.Prelude.{String, Bool, List, if◌then◌else◌}
use octo_performance.Prelude.Int.{ℤ, pos, leb_ℤ}
use octo_performance.Prelude.Float.{Float, ◌/F◌, ◌≤F◌, zero_float}
use octo_performance.Series.{Series}
use octo_performance.Stats.Steady.{Window}

pub record Load (F : Type 0) : Type 0 where
  pub model : String
  pub offered_rate : F
  pub achieved_rps : F
  pub requests : ℤ
  pub dropped_iterations : F
  pub failed_rate : F
  pub exit_code : ℤ
  pub pre_allocated_vus : ℤ
  pub max_vus : ℤ
  pub observed_max_vus : ℤ
  pub vu_cap : ℤ
  pub rps : Series F

pub record Runner (F : Type 0) : Type 0 where
  pub present : Bool
  pub cores : ℤ
  pub cpu_pct_mean : F
  pub cpu_pct_peak : F
  pub cpu : Series F

pub record Subject (F : Type 0) : Type 0 where
  pub present : Bool
  pub cores : ℤ
  pub cpu_pct_mean : F
  pub cpu_pct_peak : F
  pub cpu : Series F
  pub rss_peak : F
  pub rss_drift : F

pub record Server (F : Type 0) : Type 0 where
  pub present : Bool
  pub messages_completed : F
  pub messages_failed : F
  pub messages_dropped : F
  pub flow_mean_seconds : F
  pub has_flow_mean : Bool
  pub identity_version : String
  pub intended_version : String
  pub ready_throughout : Bool

pub record Ready (F : Type 0) : Type 0 where
  pub method : String
  pub cold_start : F

pub record Caps : Type 0 where
  pub admin_port_detected : Bool
  pub admin_port_answered : Bool
  pub metrics_requested : Bool

pub record Clock (F : Type 0) : Type 0 where
  pub measured : Bool
  pub offset_ms : F
  pub uncertainty_ms : F
  pub drift_ms : F

pub record Peer : Type 0 where
  pub cell_id : String
  pub scenario : String
  pub arm : String
  pub observed_max_vus : ℤ
  pub pre_allocated_vus : ℤ
  pub fingerprint_hash : String
  pub ready_method : String

pub record Evidence (F : Type 0) : Type 0 where
  pub cell_id : String
  pub scenario : String
  pub arm : String
  pub rep : ℤ
  pub ordinal : ℤ
  pub load : Load F
  pub runner : Runner F
  pub subject : Subject F
  pub server : Server F
  pub ready : Ready F
  pub caps : Caps
  pub clock : Clock F
  pub window : Window F
  pub window_ok : Bool
  pub fingerprint_hash : String
  pub peers : List Peer

module _ {F : Type 0} ⦃fl : Float F⦄ where
  unfoldable pub growth : Load F → F
  growth l =
      if leb_ℤ l.pre_allocated_vus (pos 0)
      then zero_float
      else fl.of_int l.observed_max_vus /F fl.of_int l.pre_allocated_vus

  unfoldable pub achieved_ratio : Load F → F
  achieved_ratio l =
      if l.offered_rate ≤F zero_float then zero_float else l.achieved_rps /F l.offered_rate

  unfoldable pub utilisation_pct : Runner F → F
  utilisation_pct r =
      if leb_ℤ r.cores (pos 0) then zero_float else r.cpu_pct_mean /F fl.of_int r.cores

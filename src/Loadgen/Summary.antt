-- ===== src/Loadgen/Summary.antt =====
-- loadgen/summary.go: k6's report at the end of a pass, with what is present kept apart from what is
-- zero. The decoded JSON, or the decoder's error, is an argument.
use octo_performance.Prelude.{
  String, Bool, true, false, Option, none, some, List, [], ◌∷◌, ◌⊎◌, inl, inr, if◌then◌else◌,
}
use octo_performance.Prelude.Int.{ℤ}
use octo_performance.Prelude.Text.{Message, plain, sprintf, str}
use octo_performance.Prelude.Float.{Float, ◌*F◌, ◌<F◌, zero_float, of_nat}
use octo_performance.Prelude.Maps.{lookup, lookup_or}

pub record Metric (F : Type 0) : Type 0 where
  pub kind : String
  pub contains : String
  pub values : List (String × F)

pub record Counted (F : Type 0) : Type 0 where
  pub present : Bool
  pub count : F
  pub rate : F

pub record Rated (F : Type 0) : Type 0 where
  pub present : Bool
  pub rate : F
  pub passes : F
  pub fails : F

pub record Gauged (F : Type 0) : Type 0 where
  pub present : Bool
  pub value : F
  pub min : F
  pub max : F

pub record Trend (F : Type 0) : Type 0 where
  pub present : Bool
  pub avg : F
  pub min : F
  pub med : F
  pub p90 : F
  pub p95 : F
  pub p99 : F
  pub max : F

pub record Summary (F : Type 0) : Type 0 where
  pub test_run_duration : ℤ
  pub requests : Counted F
  pub iterations : Counted F
  pub dropped : Counted F
  pub failed : Rated F
  pub vus_max : Gauged F
  pub vus : Gauged F
  pub duration : Trend F
  pub waiting : Trend F
  pub blocked : Trend F
  pub metrics : List (String × Metric F)

-- `rawSummary`: the map is none where the JSON has no `metrics`.
pub record RawSummary (F : Type 0) : Type 0 where
  pub test_run_duration_ms : F
  pub metrics : Option (List (String × Metric F))

abbrev pub Metrics : Type 0 → Type 0
Metrics F = List (String × Metric F)

module _ {F : Type 0} ⦃fl : Float F⦄ where
  abbrev value_of : Metric F → String → F
  value_of m k = lookup_or zero_float k m.values

  unfoldable pub counted : Metrics F → String → Counted F
  counted m name = elim (lookup name m) [
    | none ↦ record { present = false; count = zero_float; rate = zero_float }
    | some v ↦ record { present = true; count = value_of v "count"; rate = value_of v "rate" }
  ]

  unfoldable pub rated : Metrics F → String → Rated F
  rated m name = elim (lookup name m) [
    | none ↦ record { present = false; rate = zero_float; passes = zero_float; fails = zero_float }
    | some v ↦ record {
      present = true;
      rate = value_of v "rate";
      passes = value_of v "passes";
      fails = value_of v "fails";
    }
  ]

  unfoldable pub gauged : Metrics F → String → Gauged F
  gauged m name = elim (lookup name m) [
    | none ↦ record { present = false; value = zero_float; min = zero_float; max = zero_float }
    | some v ↦ record {
      present = true;
      value = value_of v "value";
      min = value_of v "min";
      max = value_of v "max";
    }
  ]

  abbrev no_trend : Trend F
  no_trend = record {
    present = false;
    avg = zero_float;
    min = zero_float;
    med = zero_float;
    p90 = zero_float;
    p95 = zero_float;
    p99 = zero_float;
    max = zero_float;
  }

  unfoldable pub trend : Metrics F → String → Trend F
  trend m name = elim (lookup name m) [
    | none ↦ no_trend
    | some v ↦ record {
      present = true;
      avg = value_of v "avg";
      min = value_of v "min";
      med = value_of v "med";
      p90 = value_of v "p(90)";
      p95 = value_of v "p(95)";
      p99 = value_of v "p(99)";
      max = value_of v "max";
    }
  ]

  -- time.Duration of a float64, which truncates towards zero
  abbrev truncate : F → ℤ
  truncate x = if x <F zero_float then fl.ceil x else fl.floor x

  unfoldable pub summary_of : F → Metrics F → Summary F
  unfolding counted rated gauged trend
  summary_of duration_ms m = record {
    test_run_duration = truncate (duration_ms *F of_nat 1_000_000);
    requests = counted m "http_reqs";
    iterations = counted m "iterations";
    dropped = counted m "dropped_iterations";
    failed = rated m "http_req_failed";
    vus_max = gauged m "vus_max";
    vus = gauged m "vus";
    duration = trend m "http_req_duration";
    waiting = trend m "http_req_waiting";
    blocked = trend m "http_req_blocked";
    metrics = m;
  }

  unfoldable pub parse_summary : String ⊎ RawSummary F → Message F ⊎ Summary F
  unfolding summary_of
  parse_summary (inl e) = inl (sprintf "loadgen: parsing k6 summary: %w" (str e ∷ []))
  parse_summary (inr raw) = elim raw.metrics [
    | none ↦ inl (plain "loadgen: k6 summary carries no metrics")
    | some m ↦ inr (summary_of raw.test_run_duration_ms m)
  ]

module _ {F : Type 0} where
  unfoldable pub achieved_rps : Summary F → F
  achieved_rps s = s.requests.rate

  unfoldable pub failed_share : Summary F → F
  failed_share s = s.failed.rate

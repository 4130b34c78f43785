-- ===== src/Loadgen/Stream.antt =====
-- loadgen/stream.go: the rows of k6's CSV folded into one bucket for each second. The scanner's lines
-- and its error are arguments, and so are strconv.ParseInt and strconv.ParseFloat.
use octo_performance.Prelude.{
  ℕ, suc, String, Option, none, some, List, [], ◌∷◌, if◌then◌else◌, is_empty, ◌>>=◌,
}
use octo_performance.Prelude.Int.{ℤ, pos, ◌*ℤ◌, eqb_ℤ, ltb_ℤ}
use octo_performance.Prelude.Text.{str_eq, cut_at}
use octo_performance.Prelude.Sort.{sort_by}
use octo_performance.Prelude.Float.{Float, ◌+F◌, ◌/F◌, ◌<F◌, zero_float, of_nat}
use octo_performance.Series.{Point, Series}
use octo_performance.Series.Frames.{Frame, add}

pub record Bucket (F : Type 0) : Type 0 where
  pub requests : F
  pub failed : F
  pub dropped : F
  pub duration_sum : F
  pub duration_n : F
  pub duration_max : F
  pub waiting_sum : F
  pub waiting_n : F
  pub vus_max : F
  pub iterations : F

-- The fields of the aggregator. A second stands once among the buckets.
pub record Aggregator (F : Type 0) : Type 0 where
  pub buckets : List (ℤ × Bucket F)
  pub rows : ℕ
  pub unparsed : ℕ

-- A row of data: the metric, the second and the value.
pub record Row (F : Type 0) : Type 0 where
  pub name : String
  pub ts : ℤ
  pub value : F

-- `before, _, _ := strings.Cut(s, ",")`
abbrev cut_before : String → String
cut_before s = elim (cut_at b',' s) [ none ↦ s | some (before, after) ↦ before ]

module _ {F : Type 0} (parse_int : String → Option ℤ) (parse_float : String → Option F) where
  -- The columns of a line, up to `add`.
  unfoldable pub parse_row : String → Option (Row F)
  unfolding cut_at
  parse_row line = do
    (name, rest) ← cut_at b',' line
    (ts_text, rest') ← cut_at b',' rest
    ts ← parse_int ts_text
    value ← parse_float (cut_before rest')
    some (record { name = name; ts = ts; value = value })

module _ {F : Type 0} ⦃fl : Float F⦄ where
  abbrev pub empty_bucket : Bucket F
  empty_bucket = record {
    requests = zero_float;
    failed = zero_float;
    dropped = zero_float;
    duration_sum = zero_float;
    duration_n = zero_float;
    duration_max = zero_float;
    waiting_sum = zero_float;
    waiting_n = zero_float;
    vus_max = zero_float;
    iterations = zero_float;
  }

  -- `if v > m { m = v }`
  abbrev pub raised : F → F → F
  raised m v = if m <F v then v else m

  -- The switch of `add`.
  unfoldable pub count_in : String → F → Bucket F → Bucket F
  count_in name v b =
      if str_eq name "http_reqs"
      then record b { requests = b.requests +F v }
      else if str_eq name "http_req_failed"
      then record b { failed = b.failed +F v }
      else if str_eq name "dropped_iterations"
      then record b { dropped = b.dropped +F v }
      else if str_eq name "iterations"
      then record b { iterations = b.iterations +F v }
      else if str_eq name "http_req_duration"
      then record b {
        duration_sum = b.duration_sum +F v;
        duration_n = b.duration_n +F of_nat 1;
        duration_max = raised b.duration_max v;
      }
      else if str_eq name "http_req_waiting"
      then record b { waiting_sum = b.waiting_sum +F v; waiting_n = b.waiting_n +F of_nat 1 }
      else if str_eq name "vus"
      then record b { vus_max = raised b.vus_max v }
      else b

  -- `Aggregator.add` on the buckets.
  unfoldable pub add_row : Row F → List (ℤ × Bucket F) → List (ℤ × Bucket F)
  add_row r [] = (r.ts, count_in r.name r.value empty_bucket) ∷ []
  add_row r ((s, b) ∷ bs) =
      let rest = add_row r bs in
      if eqb_ℤ s r.ts then (s, count_in r.name r.value b) ∷ bs else (s, b) ∷ rest

  abbrev pub fresh : Aggregator F
  fresh = record { buckets = []; rows = 0; unparsed = 0 }

  -- A line that is not empty: a row, which is data or not.
  unfoldable pub consume_row : Aggregator F → Option (Row F) → Aggregator F
  unfolding add_row
  consume_row a none = record a { rows = suc a.rows; unparsed = suc a.unparsed }
  consume_row a (some r) = record a { rows = suc a.rows; buckets = add_row r a.buckets }

  module _ (parse_int : String → Option ℤ) (parse_float : String → Option F) where
    unfoldable pub consume_line : Aggregator F → String → Aggregator F
    unfolding consume_row parse_row
    consume_line a line =
        if str_eq line "" then a else consume_row a (parse_row parse_int parse_float line)

    -- The loop of `Consume`; the error is the scanner's.
    unfoldable pub consume :
        {E : Type 0} → Aggregator F → List String → Option E → Aggregator F × Option E
    unfolding consume_line
    consume a [] e = (a, e)
    consume a (l ∷ ls) e = consume (consume_line a l) ls e

  unfoldable pub observed_from : F → List (ℤ × Bucket F) → F
  observed_from most [] = most
  observed_from most ((s, b) ∷ bs) = observed_from (raised most b.vus_max) bs

  unfoldable pub observed_max_vus : Aggregator F → ℤ
  unfolding observed_from
  observed_max_vus a = fl.round (observed_from zero_float a.buckets)

  -- The points of one series: those of the buckets that have a value.
  unfoldable pub points_of : (Bucket F → Option F) → List (ℤ × Bucket F) → List (Point F)
  points_of pick [] = []
  points_of pick ((s, b) ∷ bs) =
      let rest = points_of pick bs in
      elim (pick b) [ none ↦ rest | some v ↦ record { at = s *ℤ pos 1_000_000_000; v = v } ∷ rest ]

  abbrev pub when_some : F → F → Option F
  when_some n v = if zero_float <F n then some v else none

  abbrev pub by_second : List (ℤ × Bucket F) → List (ℤ × Bucket F)
  by_second = sort_by (λ a b. ltb_ℤ a.0 b.0)

  -- The series of `Frame`, those without points included.
  unfoldable pub series_of : List (ℤ × Bucket F) → List (Series F)
  unfolding points_of
  series_of bs =
      record { name = "k6.rps"; unit = "requests/s"; points = points_of (λ b. some b.requests) bs }
      ∷ record {
        name = "k6.iterations";
        unit = "iterations/s";
        points = points_of (λ b. some b.iterations) bs;
      }
      ∷ record {
        name = "k6.latency.mean";
        unit = "milliseconds";
        points = points_of (λ b. when_some b.duration_n (b.duration_sum /F b.duration_n)) bs;
      }
      ∷ record {
        name = "k6.latency.max";
        unit = "milliseconds";
        points = points_of (λ b. when_some b.duration_n b.duration_max) bs;
      }
      ∷ record {
        name = "k6.waiting.mean";
        unit = "milliseconds";
        points = points_of (λ b. when_some b.waiting_n (b.waiting_sum /F b.waiting_n)) bs;
      }
      ∷ record {
        name = "k6.vus";
        unit = "count";
        points = points_of (λ b. when_some b.vus_max b.vus_max) bs;
      }
      ∷ record {
        name = "k6.dropped";
        unit = "iterations/s";
        points = points_of (λ b. some b.dropped) bs;
      }
      ∷ record {
        name = "k6.failed";
        unit = "requests/s";
        points = points_of (λ b. some b.failed) bs;
      }
      ∷ []

  -- `f.Add(s)` for each series that has points.
  unfoldable pub add_present : Frame F → List (Series F) → Frame F
  add_present f [] = f
  add_present f (s ∷ ss) = add_present (if is_empty s.points then f else add f s) ss

  unfoldable pub frame : Aggregator F → Frame F
  unfolding series_of add_present
  frame a = add_present (record { series = [] }) (series_of (by_second a.buckets))

-- ===== src/Loadgen/Examples.antt =====
-- A small pass: three rows of two seconds, a header and an empty line.
use octo_performance.Prelude.{
  ◌+◌, ◌≡◌, refl, arith, String, Option, none, some, List, [], ◌∷◌, length, if◌then◌else◌,
}
use octo_performance.Prelude.Text.{str_eq}
use octo_performance.Prelude.Int.{ℤ, pos, ◌≤ℤ◌, ◌<ℤ◌}
use octo_performance.Prelude.Float.{Milli, milli_float, milli, seconds}
use octo_performance.Loadgen.Pool.{needed, size_pool, size_pool-bounds}
use octo_performance.Loadgen.Stream.{fresh, parse_row}
use octo_performance.Loadgen.Seconds.{
  bucket_at, count_all, rows_at, data_of, lines_of, read, run, consume-bucket_at,
}

-- One thousand requests a second at half a second each need two thousand users.
size_pool-bounds_example :
    let p = size_pool Milli (pos 1000) (pos 500_000_000) (pos 1600) in
    (p.pre_allocated_vus ≤ℤ p.max_vus)
    × (pos 0 <ℤ pos 1600 → p.max_vus ≤ℤ pos 1600)
    × (pos 1600 ≤ℤ pos 0 → pos 20 ≤ℤ p.pre_allocated_vus)
    × (pos 1600 ≤ℤ pos 0
        → pos 0 <ℤ pos 1000
        → pos 0 <ℤ pos 500_000_000
        → needed Milli (pos 1000) (pos 500_000_000) ≤ℤ p.pre_allocated_vus)
    × (pos 0 <ℤ pos 1600 → pos 1600 ≤ℤ pos 20 → p.pre_allocated_vus ≡ pos 1600)
    × (p.observed_max_vus ≡ pos 0)
    × (p.cap ≡ pos 1600)
unfolding milli seconds
size_pool-bounds_example =
    size_pool-bounds Milli (pos 1000) (pos 500_000_000) (pos 1600) (omega arith)

abbrev read_int : String → Option ℤ
read_int s = if str_eq s "10" then some (pos 10) else if str_eq s "11" then some (pos 11) else none

abbrev read_float : String → Option Milli
read_float s = if str_eq s "1" then some (pos 1000) else none

abbrev lines : List String
lines =
    "metric_name,timestamp,metric_value" ∷ "http_reqs,11,1,x" ∷ "" ∷ "http_reqs,10,1,x"
    ∷ "http_reqs,11,1,y" ∷ []

consume-bucket_at_example :
    let a = run read_int read_float fresh lines in
    (bucket_at (pos 11) a.buckets
      ≡ count_all none (rows_at (pos 11) (data_of (read read_int read_float) lines)))
    × (a.rows ≡ length (lines_of lines))
    × (a.rows ≡ a.unparsed + length (data_of (read read_int read_float) lines))
consume-bucket_at_example = consume-bucket_at read_int read_float lines (pos 11)

data_run : length (data_of (read read_int read_float) lines) ≡ 3
unfolding parse_row
data_run = refl

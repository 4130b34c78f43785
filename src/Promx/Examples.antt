-- ===== src/Promx/Examples.antt =====
-- Runs of the parser and of the windows on small scrapes.
use octo_performance.Prelude.{
  String, Option, none, some, List, arith, [], ◌∷◌, ◌≡◌, refl, map, inr, if◌then◌else◌,
}
use mathlib.Core.List.{Perm}
use octo_performance.Prelude.Text.{str_eq, is_space}
use octo_performance.Prelude.Trim.{trim_space}
use octo_performance.Prelude.Sort.{sort_by, IsSorted}
use octo_performance.Prelude.Int.{pos}
use octo_performance.Prelude.Float.{◌*F◌, Milli, milli_float, milli, Milli-IsOrdered}
use octo_performance.Promx.Parse.{parse_labels, parse}
use octo_performance.Promx.Scrape.{Row, IsRow, print_row, group, parse-print_row}
use octo_performance.Promx.Window.{Histogram, Edge, interpolated, observations, quantile}
use octo_performance.Promx.Quantiles.{Answer, Reads, IsComparable, is_lower, quantile-Answer}

abbrev read_number : String → Option Milli
read_number s =
    if str_eq s "1.5"
    then some (pos 1500)
    else if str_eq s "0.001"
    then some (pos 1)
    else if str_eq s "0.01"
    then some (pos 10)
    else if str_eq s "0.1"
    then some (pos 100)
    else none

abbrev block_row : Row Milli
block_row = record {
  name = "octo_flow";
  labels = ("block", "a,b=\"c\"\\") ∷ ("le", "+Inf") ∷ [];
  raw = "1.5";
  value = pos 1500;
}

block_row-IsRow : IsRow read_number block_row
unfolding trim_space is_space
block_row-IsRow = record {
  name_ok = (
    (refl, refl),
    refl,
    (refl, (refl, (refl, (refl, (refl, (refl, (refl, (refl, (refl, tt))))))))),
  );
  labels_ok = (
    ((refl, refl, (refl, refl, (refl, refl, (refl, refl, (refl, refl, tt))))), refl, refl),
    (((refl, refl, (refl, refl, tt)), refl, refl), tt),
  );
  raw_ok = ((refl, refl), (refl, (refl, (refl, tt))));
  value_ok = refl;
  value_number = refl;
}

parse-print_row_example :
    parse read_number {E = String} (map print_row (block_row ∷ [])) none
    ≡ inr (group [] (block_row ∷ []))
parse-print_row_example = parse-print_row read_number (block_row ∷ []) (block_row-IsRow, tt)

parse_labels_run : parse_labels "a=\"1\", b=\"x,\\\"y\\n\"" ≡ ("a", "1") ∷ ("b", "x,\"y\n") ∷ []
unfolding parse_labels trim_space is_space
parse_labels_run = refl

-- Three buckets, and most observations between one hundredth and one tenth of a second.
abbrev histogram : Histogram Milli
histogram = record {
  buckets =
      ("0.1", pos 100000) ∷ ("0.01", pos 20000) ∷ ("0.001", pos 10000) ∷ ("+Inf", pos 100000) ∷ [];
  sum = some (pos 5000);
  count = some (pos 100000);
}

read_number-IsComparable : (le : String) (c : Milli) → IsComparable read_number (le, c)
read_number-IsComparable le c v e = ground arith

quantile-Answer_example :
    (edges : List (Edge Milli)) × (given : List (Edge Milli)) × Reads read_number histogram.buckets
      given
    × Perm edges given
    × IsSorted is_lower edges
    × Answer (pos 500 *F pos 100000) edges (quantile read_number histogram (pos 500))
unfolding milli observations
quantile-Answer_example =
    quantile-Answer read_number histogram (pos 500) {n = pos 100000} Milli-IsOrdered
      (
        read_number-IsComparable "0.1" (pos 100000),
        (
          read_number-IsComparable "0.01" (pos 20000),
          (
            read_number-IsComparable "0.001" (pos 10000),
            (read_number-IsComparable "+Inf" (pos 100000), tt),
          ),
        ),
      )
      refl

median_run :
    quantile read_number histogram (pos 500)
    ≡ record { seconds = some (pos 43); bound = interpolated; edge = some (pos 100) }
unfolding milli sort_by quantile
median_run = refl

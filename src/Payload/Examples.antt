-- ===== src/Payload/Examples.antt =====
-- A body of two records, with an encoder that writes ten bytes for each.
use octo_performance.Prelude.{ℕ, ◌≡◌, refl, String, [], ◌∷◌, ◌≤◌, inr, arith}
use octo_performance.Prelude.Int.{pos}
use octo_performance.Prelude.Float.{Milli, milli_float}
use octo_performance.Payload.{Codec, ok, json_records}
use octo_performance.Payload.Growth.{IsBarelyEnough, json_records_lem, json_records-total}

abbrev ten_bytes : Codec Milli
ten_bytes = record {
  marshal_order = λ o. inr "{}";
  marshal_record = λ r. inr "0123456789";
  print = λ m. m.format;
  format_float = λ x. "0";
  digest = λ s. "";
}

abbrev two_records : String
two_records = "{\"records\":[0123456789,0123456789]}"

json_run : json_records ten_bytes (pos 30) ≡ ok (two_records, 2)
unfolding json_records octo_performance.Prelude.Text.join
json_run = refl

json_records_lem_example : IsBarelyEnough ten_bytes (pos 30) two_records 2
json_records_lem_example = json_records_lem ten_bytes (pos 30) two_records 2 json_run

json_records-total_example :
    (body : String) × (count : ℕ) × (json_records ten_bytes (pos 30) ≡ ok (body, count))
json_records-total_example =
    json_records-total ten_bytes 30 10 (λ i. ("0123456789", refl, omega arith)) (omega arith)
      (omega arith)

-- ===== src/Payload.antt =====
-- payload/payload.go: the request bodies a scenario sends. A body is a text, whose `len` counts
-- bytes; encoding/json, fmt, strconv and crypto/sha256 are the fields of `Codec`.
pub mod Growth
mod Examples
use octo_performance.Prelude.{
  ℕ, zero, suc, ◌+◌, ◌*◌, ◌%◌, ◌-◌, String, Bool, true, false, List, [], ◌∷◌, ◌++◌, map, ltb, ◌==◌,
  if◌then◌else◌, length, is_empty, get_or, ◌⊎◌, inl, inr,
}
use Prim.Native.String.{len}
use octo_performance.Prelude.Int.{ℤ, pos, pos_part, leb_ℤ}
use octo_performance.Prelude.Text.{Message, int, str, sprintf, str_eq, append, join}
use octo_performance.Prelude.Float.{Float, ◌+F◌, ◌*F◌, of_nat}

-- `Kind`, a string.
abbrev pub order_lines_kind : String
order_lines_kind = "order-lines"

abbrev pub json_records_kind : String
json_records_kind = "json-records"

abbrev pub csv_records_kind : String
csv_records_kind = "csv-records"

-- The type `Spec`.
pub record Payload : Type 0 where
  pub kind : String
  pub lines : ℤ
  pub bytes : ℤ
  pub records : ℤ

unfoldable pub empty : Payload → Bool
empty s = str_eq s.kind ""

pub record Body : Type 0 where
  pub kind : String
  pub bytes : String
  pub size : ℕ
  pub sha256 : String
  pub records : ℕ

pub record OrderLine (F : Type 0) : Type 0 where
  pub sku : String
  pub qty : F
  pub price : F

pub record Order (F : Type 0) : Type 0 where
  pub customer : String
  pub channel : String
  pub lines : List (OrderLine F)

-- The type `record`.
pub record Account (F : Type 0) : Type 0 where
  pub id : String
  pub name : String
  pub region : String
  pub country : String
  pub amount : F
  pub currency : String
  pub status : String

-- The library calls: json.Marshal, which answers the text of its error on the left, Sprintf,
-- FormatFloat and the digest in hexadecimal.
pub record Codec (F : Type 0) : Type 0 where
  pub marshal_order : Order F → String ⊎ String
  pub marshal_record : Account F → String ⊎ String
  pub print : Message F → String
  pub format_float : F → String
  pub digest : String → String

-- A body with its number of records, or the error.
pub data Built (F : Type 0) (A : Type 0) : Type 0 where
  ok : A → Built F A
  failed : Message F → Built F A

abbrev json_records_cap : ℕ
json_records_cap = 200_000

abbrev pub json_prefix : String
json_prefix = "{\"records\":["

abbrev pub json_suffix : String
json_suffix = "]}"

-- `f` at the indices from `i` on, `n` of them: a `for` loop that fills a slice.
abbrev indexed : {A : Type 0} → (ℕ → A) → ℕ → ℕ → List A
indexed f i zero = []
indexed f i (suc n) = f i ∷ indexed f (suc i) n

unfoldable pub document : List String → String
document parts = append json_prefix (append (join "," parts) json_suffix)

module _ {F : Type 0} ⦃fl : Float F⦄ (codec : Codec F) where
  order_line : ℕ → OrderLine F
  order_line i = record {
    sku = codec.print (sprintf "SKU-%d" (int (pos (1000 + i)) ∷ []));
    qty = of_nat (i % 4) +F of_nat 1;
    price = fl.decimal 55 1 +F of_nat i *F fl.decimal 325 2;
  }

  unfoldable pub order_lines : ℤ → Built F (String × ℕ)
  unfolding order_line
  order_lines n =
      if leb_ℤ n (pos 0)
      then failed (sprintf "payload: %s needs a positive line count" (str order_lines_kind ∷ []))
      else elim (codec.marshal_order (record {
        customer = "acme-industrial";
        channel = "web";
        lines = indexed order_line 0 (pos_part n);
      })) [ inl e ↦ failed (sprintf "payload: %w" (str e ∷ [])) | inr b ↦ ok (b, pos_part n) ]

  unfoldable pub record_at : ℕ → Account F
  record_at i = record {
    id = codec.print (sprintf "acct-%08d" (int (pos i) ∷ []));
    name = codec.print (sprintf "Account Holder %d" (int (pos i) ∷ []));
    region = get_or ("us-east-1" ∷ "eu-west-1" ∷ "ap-south-1" ∷ "sa-east-1" ∷ []) (i % 4) "";
    country = get_or ("US" ∷ "IE" ∷ "IN" ∷ "BR" ∷ []) (i % 4) "";
    amount = of_nat (i % 100) *F fl.decimal 1375 1;
    currency = get_or ("USD" ∷ "EUR" ∷ "INR" ∷ "BRL" ∷ []) (i % 4) "";
    status = if (i % 7) == 0 then "CLOSED" else "ACTIVE";
  }

  -- The loop of `jsonRecords` at record `i`, with `left` rounds before the cap.
  grow : ℕ → ℕ → ℕ → ℕ → List String → Built F (List String)
  grow target zero i size parts = elim (ltb size target) [
    | false ↦ ok parts
    | true ↦ failed (
        sprintf "payload: %s reached %d records at %d bytes without meeting a %d-byte target"
          (str json_records_kind ∷ int (pos i) ∷ int (pos size) ∷ int (pos target) ∷ []))
  ]
  grow target (suc left) i size parts = elim (ltb size target) [
    | false ↦ ok parts
    | true ↦ elim (codec.marshal_record (record_at i)) [
      | inl e ↦ failed (sprintf "payload: %w" (str e ∷ []))
      | inr b ↦
          grow target left (suc i) ((if is_empty parts then size else suc size) + len b)
            (parts ++ (b ∷ []))
    ]
  ]

  unfoldable pub json_records : ℤ → Built F (String × ℕ)
  unfolding grow document record_at
  json_records target =
      if leb_ℤ target (pos 0)
      then failed (sprintf "payload: %s needs a positive byte target" (str json_records_kind ∷ []))
      else elim (grow (pos_part target) json_records_cap 0 (len json_prefix + len json_suffix) []) [
        | failed m ↦ failed m
        | ok parts ↦ ok (document parts, length parts)
      ]

  csv_line : Account F → String
  csv_line r = append "\n" (
      join "," (
        r.id
        ∷ r.name
        ∷ r.region
        ∷ r.country
        ∷ codec.format_float r.amount
        ∷ r.currency
        ∷ r.status
        ∷ []))

  csv_lines : ℕ → ℕ → String
  csv_lines i zero = ""
  csv_lines i (suc n) = append (csv_line (record_at i)) (csv_lines (suc i) n)

  unfoldable pub csv_records : ℤ → Built F (String × ℕ)
  unfolding csv_line csv_lines record_at
  csv_records n =
      if leb_ℤ n (pos 0)
      then failed (sprintf "payload: %s needs a positive record count" (str csv_records_kind ∷ []))
      else ok (
        append "id,name,region,country,amount,currency,status" (csv_lines 0 (pos_part n)),
        pos_part n,
      )

  abbrev sealed : String → Built F (String × ℕ) → Built F Body
  sealed kind (failed m) = failed m
  sealed kind (ok (b, n)) =
      ok (record { kind = kind; bytes = b; size = len b; sha256 = codec.digest b; records = n })

  unfoldable pub build : Payload → Built F Body
  unfolding order_lines json_records csv_records
  build s =
      if str_eq s.kind ""
      then ok (record { kind = ""; bytes = ""; size = 0; sha256 = ""; records = 0 })
      else if str_eq s.kind order_lines_kind
      then sealed s.kind (order_lines s.lines)
      else if str_eq s.kind json_records_kind
      then sealed s.kind (json_records s.bytes)
      else if str_eq s.kind csv_records_kind
      then sealed s.kind (csv_records s.records)
      else failed (sprintf "payload: unknown kind %q" (str s.kind ∷ []))

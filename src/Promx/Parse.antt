-- ===== src/Promx/Parse.antt =====
-- promx/parse.go: `parseLabels`, which reads a label set one rune at a time, and `Parse`, which reads a
-- scrape line by line. The scanner's lines and its error are arguments, and so is strconv.ParseFloat.
use octo_performance.Prelude.{
  String, Bool, true, false, not, ◌&&◌, Option, none, some, List, [], ◌∷◌, ◌++◌, ◌⊎◌, inl, inr,
  if◌then◌else◌,
}
use Prim.Native.Char.{Char}
use octo_performance.Prelude.Text.{str_eq, append, single, is_char}
use octo_performance.Prelude.Float.{Float, ◌=F◌}
use octo_performance.Prelude.Trim.{trim_space}
use octo_performance.Prelude.Maps.{insert, adjust}
use octo_performance.Promx.{Labels, Sample, Exposition}

-- The local variables of `parseLabels`.
pub record Reader : Type 0 where
  pub out : Labels
  pub key : String
  pub buf : String
  pub reading_key : Bool
  pub in_quotes : Bool
  pub escaped : Bool

abbrev pub push : Char → Reader → Reader
push ch r = record r { buf = append r.buf (single ch) }

unfoldable pub flush : Reader → Reader
flush r =
    let k = trim_space r.key in
    record r {
      out = if str_eq k "" then r.out else insert k r.buf r.out;
      key = "";
      buf = "";
      reading_key = true;
    }

abbrev read_key : Reader → Char → Reader
read_key r ch =
    if is_char b'=' ch
    then record r { key = append r.key r.buf; buf = ""; reading_key = false }
    else if is_char b',' ch
    then record r { buf = "" }
    else push ch r

abbrev read_escaped : Reader → Char → Reader
read_escaped r ch =
    let r' = if is_char b'n' ch then record r { buf = append r.buf "\n" } else push ch r in
    record r' { escaped = false }

abbrev read_value : Reader → Char → Reader
read_value r ch =
    if is_char b'\\' ch && r.in_quotes
    then record r { escaped = true }
    else if is_char b'"' ch
    then record r { in_quotes = not r.in_quotes }
    else if is_char b',' ch && not r.in_quotes
    then flush r
    else push ch r

-- The body of the loop.
unfoldable pub step : Reader → Char → Reader
unfolding flush
step r ch =
    if r.reading_key
    then read_key r ch
    else if r.escaped
    then read_escaped r ch
    else read_value r ch

unfoldable pub run : Reader → String → Reader
unfolding step
run r String.[] = r
run r (String.◌∷◌ c s) = run (step r c) s

abbrev pub fresh : Reader
fresh = record {
  out = [];
  key = "";
  buf = "";
  reading_key = true;
  in_quotes = false;
  escaped = false;
}

unfoldable pub finish : Reader → Labels
unfolding flush
finish r = (if r.reading_key then r else flush r).out

unfoldable pub parse_labels : String → Labels
unfolding run finish
parse_labels text = finish (run fresh text)

-- `line[:idx], line[idx+1:]` at the last space, as strings.LastIndexByte finds it.
unfoldable pub split_last : String → Option (String × String)
split_last String.[] = none
split_last (String.◌∷◌ c s) = elim (split_last s) [
  | some (h, v) ↦ some (String.◌∷◌ c h, v)
  | none ↦ if is_char b' ' c then some ("", s) else none
]

-- `head[:open], head[open+1:]` at the first brace.
unfoldable pub split_open : String → Option (String × String)
split_open String.[] = none
split_open (String.◌∷◌ c s) =
    let rest = split_open s in
    if is_char b'{' c
    then some ("", s)
    else elim rest [ none ↦ none | some (h, t) ↦ some (String.◌∷◌ c h, t) ]

abbrev close_cons : Char → Bool → Option String → Option String
close_cons c true rest = if is_char b'}' c then some "" else none
close_cons c false none = none
close_cons c false (some u) = some (String.◌∷◌ c u)

-- The text without its last character, where that is a closing brace.
unfoldable pub cut_close : String → Option String
cut_close String.[] = none
cut_close (String.◌∷◌ c s) = close_cons c (str_eq s "") (cut_close s)

-- The name and the labels of the part of a line before its value. `cut_close` looks behind the brace
-- that `split_open` finds, which is where `head` ends.
unfoldable pub parse_head : String → String × Labels
unfolding split_open cut_close parse_labels
parse_head head = elim (split_open head) [
  | none ↦ (head, [])
  | some (before, behind) ↦ elim (cut_close behind) [
    | none ↦ (head, [])
    | some inside ↦ (trim_space before, parse_labels inside)
  ]
]

-- `line == "" || strings.HasPrefix(line, "#")`
abbrev pub starts_comment : String → Bool
starts_comment String.[] = true
starts_comment (String.◌∷◌ c s) = is_char b'#' c

module _ {F : Type 0} where
  -- `out[name] = append(out[name], Sample{…})`
  unfoldable pub add_line : Exposition F → Option (String × Sample F) → Exposition F
  add_line out none = out
  add_line out (some (name, s)) = adjust [] (λ before. before ++ (s ∷ [])) name out

module _ {F : Type 0} ⦃fl : Float F⦄ (parse_float : String → Option F) where
  unfoldable pub parse_value : String → Option F
  parse_value raw = elim (parse_float (trim_space raw)) [
    | none ↦ none
    | some v ↦ if v =F v then some v else none
  ]

  unfoldable pub sample_of : String → F → Option (String × Sample F)
  unfolding parse_head
  sample_of head value =
      let (name, labels) = parse_head head in
      if str_eq name "" then none else some (name, record { labels = labels; value = value })

  -- One line that is trimmed already: the series it adds, if it is one.
  unfoldable pub parse_trimmed : String → Option (String × Sample F)
  unfolding split_last parse_value sample_of
  parse_trimmed line = if starts_comment line then none else elim (split_last line) [
    | none ↦ none
    | some (before, raw) ↦ elim (parse_value raw) [
      | none ↦ none
      | some value ↦ sample_of (trim_space before) value
    ]
  ]

  unfoldable pub parse_line : String → Option (String × Sample F)
  unfolding parse_trimmed
  parse_line text = parse_trimmed (trim_space text)

  -- The loop over the lines.
  unfoldable pub parse_lines : Exposition F → List String → Exposition F
  unfolding parse_line
  parse_lines out [] = out
  parse_lines out (l ∷ ls) = parse_lines (add_line out (parse_line l)) ls

  -- `Parse` on the lines of a reader and the error with which the reader stops, if it has one.
  unfoldable pub parse : {E : Type 0} → List String → Option E → E ⊎ Exposition F
  unfolding parse_lines
  parse lines none = inr (parse_lines [] lines)
  parse lines (some e) = inl e

-- ===== src/Promx/Scrape.antt =====
-- `Parse` on the lines that an exporter writes.
use text.Mathlib.TextEquality.{eq_iff}
use text.Mathlib.TextLemmas.{cons-append, nil-append, concat-ne-nil, cons-ne-nil}
use octo_performance.Prelude.{
  ℕ, String, true, false, Option, none, some, List, [], ◌∷◌, map, ◌≡◌, ◌≢◌, refl, sym, ap, ◌∙◌,
  arith, All, inr,
}
use octo_performance.Prelude.Text.{str_eq, append, is_char, is_space}
use octo_performance.Prelude.Trim.{
  trim_space, trim_right, IsTrimmed, trim_space-IsTrimmed, trim_right-append, trim_right-cons,
  trim_space-append, append-ne_nil,
}
use octo_performance.Prelude.Float.{Float, ◌=F◌}
use octo_performance.Promx.{Labels, Sample, Exposition}
use octo_performance.Promx.Parse.{
  split_last, split_open, cut_close, parse_head, parse_value, starts_comment, sample_of,
  parse_trimmed, parse_line, add_line, parse_lines, parse,
}
use octo_performance.Promx.Printed.{print_labels, IsLabel, assign, parse_labels-print_labels}

-- The character `n` stands nowhere in the text.
abbrev Lacks : ℕ → String → Type 0
Lacks n String.[] = Unit
Lacks n (String.◌∷◌ c s) = (is_char n c ≡ false) × Lacks n s

split_last-Lacks : (s : String) → Lacks b' ' s → split_last s ≡ none
unfolding split_last
split_last-Lacks String.[] _ = refl
split_last-Lacks (String.◌∷◌ c s) (h, hs) = rw (split_last-Lacks s hs) (rw h refl)

split_last-append :
    (s v : String) → Lacks b' ' v → split_last (append s (String.◌∷◌ " " v)) ≡ some (s, v)
unfolding split_last
split_last-append String.[] v h =
    ap split_last (nil-append (String.◌∷◌ " " v)) ∙ rw (split_last-Lacks v h) refl
split_last-append (String.◌∷◌ c s) v h =
    ap split_last (cons-append c s (String.◌∷◌ " " v))
    ∙ rw (split_last, split_last-append s v h) refl

split_open-append :
    (s v : String) → Lacks b'{' s → split_open (append s (String.◌∷◌ "{" v)) ≡ some (s, v)
unfolding split_open
split_open-append String.[] v _ = ap split_open (nil-append (String.◌∷◌ "{" v))
split_open-append (String.◌∷◌ c s) v (h, hs) =
    ap split_open (cons-append c s (String.◌∷◌ "{" v))
    ∙ rw (split_open, h, split_open-append s v hs) refl

str_eq-ne : (s t : String) → s ≢ t → str_eq s t ≡ false
str_eq-ne s t h = ground (arith, eq_iff s t, h)

cut_close-append : (s : String) → cut_close (append s "}") ≡ some s
unfolding cut_close
cut_close-append String.[] = ap cut_close (nil-append "}")
cut_close-append (String.◌∷◌ c s) =
    ap cut_close (cons-append c s "}")
    ∙ rw (str_eq-ne (append s "}") "" (concat-ne-nil "}" s), cut_close-append s) refl

-- A name that starts and ends with no space, is no comment and has no brace.
abbrev pub IsName : String → Type 0
IsName String.[] = ⊥
IsName (String.◌∷◌ c s) =
    IsTrimmed (String.◌∷◌ c s) × (is_char b'#' c ≡ false) × Lacks b'{' (String.◌∷◌ c s)

-- The text of a number: some characters, none of them a space.
abbrev pub IsNumeral : String → Type 0
IsNumeral String.[] = ⊥
IsNumeral (String.◌∷◌ c s) = IsTrimmed (String.◌∷◌ c s) × Lacks b' ' (String.◌∷◌ c s)

abbrev print_head : String → Labels → String
print_head name ls = append name (String.◌∷◌ "{" (append (print_labels ls) "}"))

-- `name{k="v",…} value`
abbrev pub print_line : String → Labels → String → String
print_line name ls raw = append (print_head name ls) (String.◌∷◌ " " raw)

parse_head-print_head :
    (name : String) (ls : Labels)
    → IsName name
    → All IsLabel ls
    → parse_head (print_head name ls) ≡ (name, assign [] ls)
unfolding parse_head
parse_head-print_head String.[] ls h _ = absurd h
parse_head-print_head (String.◌∷◌ c s) ls (trimmed, _, lacks) labels =
    rw (parse_head, split_open-append (String.◌∷◌ c s) (append (print_labels ls) "}") lacks)
      (rw (cut_close-append (print_labels ls)) (
        rw (trim_space-IsTrimmed (String.◌∷◌ c s) trimmed)
          (rw (parse_labels-print_labels ls labels) refl)))

trim_right-print_head :
    (name : String) (ls : Labels) → trim_right (print_head name ls) ≡ print_head name ls
unfolding trim_right is_space
trim_right-print_head name ls = trim_right-append name "{" (append (print_labels ls) "}") (
    trim_right-cons "{" (append (print_labels ls) "}") (append-ne_nil (print_labels ls) "}" "")
      (trim_right-append (print_labels ls) "}" "" refl))

trim_space-print_head :
    (name : String) (ls : Labels)
    → IsName name
    → trim_space (print_head name ls) ≡ print_head name ls
trim_space-print_head String.[] ls h = absurd h
trim_space-print_head (String.◌∷◌ c s) ls (trimmed, _, _) =
    trim_space-append c s _ trimmed.0 (trim_right-print_head (String.◌∷◌ c s) ls)

trim_space-print_line :
    (name : String) (ls : Labels) (raw : String)
    → IsName name
    → IsNumeral raw
    → trim_space (print_line name ls raw) ≡ print_line name ls raw
trim_space-print_line String.[] ls raw h _ = absurd h
trim_space-print_line name ls String.[] _ h = absurd h
trim_space-print_line (String.◌∷◌ c s) ls (String.◌∷◌ d u) (trimmed, _, _) ((_, end), _) =
    ap trim_space (ap (λ h. append h rest) (cons-append c s _))
    ∙ trim_space-append c _ rest trimmed.0 (
        trim_right-append (String.◌∷◌ c (append s _)) " " (String.◌∷◌ d u)
          (trim_right-cons " " (String.◌∷◌ d u) (cons-ne-nil d u) end))
    ∙ sym (ap (λ h. append h rest) (cons-append c s _))
  where
    rest : String
    rest = String.◌∷◌ " " (String.◌∷◌ d u)

starts_comment-print_line :
    (name : String) (ls : Labels) (raw : String)
    → IsName name
    → starts_comment (print_line name ls raw) ≡ false
starts_comment-print_line String.[] ls raw h = absurd h
starts_comment-print_line (String.◌∷◌ c s) ls raw (_, h, _) =
    ap (λ t. starts_comment (append t (String.◌∷◌ " " raw))) (cons-append c s _)
    ∙ ap starts_comment (cons-append c _ (String.◌∷◌ " " raw))
    ∙ h

IsName-not_empty : (name : String) → IsName name → str_eq name "" ≡ false
IsName-not_empty String.[] h = absurd h
IsName-not_empty (String.◌∷◌ c s) h = str_eq-ne (String.◌∷◌ c s) "" (cons-ne-nil c s)

IsNumeral-trim_space : (raw : String) → IsNumeral raw → trim_space raw ≡ raw
IsNumeral-trim_space String.[] h = absurd h
IsNumeral-trim_space (String.◌∷◌ c s) (h, _) = trim_space-IsTrimmed (String.◌∷◌ c s) h

IsNumeral-Lacks : (raw : String) → IsNumeral raw → Lacks b' ' raw
IsNumeral-Lacks String.[] h = absurd h
IsNumeral-Lacks (String.◌∷◌ c s) (_, h) = h

-- A series as it is exported: the name, the labels, the text of the value and the value.
pub record Row (F : Type 0) : Type 0 where
  pub name : String
  pub labels : Labels
  pub raw : String
  pub value : F

module _ {F : Type 0} where
  abbrev pub print_row : Row F → String
  print_row r = print_line r.name r.labels r.raw

  abbrev pub sample_of_row : Row F → String × Sample F
  sample_of_row r = (r.name, record { labels = assign [] r.labels; value = r.value })

  -- The series of some rows in the order of the rows, grouped by their names.
  abbrev pub group : Exposition F → List (Row F) → Exposition F
  group out [] = out
  group out (r ∷ rs) = group (add_line out (some (sample_of_row r))) rs

module _ {F : Type 0} ⦃fl : Float F⦄ (parse_float : String → Option F) where
  pub record IsRow (r : Row F) : Type 0 where
    pub name_ok : IsName r.name
    pub labels_ok : All IsLabel r.labels
    pub raw_ok : IsNumeral r.raw
    pub value_ok : parse_float r.raw ≡ some r.value
    pub value_number : r.value =F r.value ≡ true

  parse_value-IsRow : (r : Row F) → IsRow r → parse_value parse_float r.raw ≡ some r.value
  unfolding parse_value
  parse_value-IsRow r h =
      rw (parse_value, IsNumeral-trim_space r.raw h.raw_ok) (rw h.value_ok (rw h.value_number refl))

  sample_of-print_head :
      (r : Row F)
      → IsRow r
      → sample_of parse_float (print_head r.name r.labels) r.value ≡ some (sample_of_row r)
  unfolding sample_of
  sample_of-print_head r h =
      rw (sample_of, parse_head-print_head r.name r.labels h.name_ok h.labels_ok)
        (rw (IsName-not_empty r.name h.name_ok) refl)

  parse_line-print_row :
      (r : Row F) → IsRow r → parse_line parse_float (print_row r) ≡ some (sample_of_row r)
  unfolding parse_line
  parse_line-print_row r h =
      ap (parse_trimmed parse_float)
        (trim_space-print_line r.name r.labels r.raw h.name_ok h.raw_ok)
      ∙ rw (parse_trimmed, starts_comment-print_line r.name r.labels r.raw h.name_ok)
          (rw
            (split_last-append (print_head r.name r.labels) r.raw (IsNumeral-Lacks r.raw h.raw_ok))
            (rw (parse_value-IsRow r h)
              (rw (trim_space-print_head r.name r.labels h.name_ok) (sample_of-print_head r h))))

  parse_lines-print_row :
      (out : Exposition F) (rs : List (Row F))
      → All IsRow rs
      → parse_lines parse_float out (map print_row rs) ≡ group out rs
  unfolding parse_lines
  parse_lines-print_row out [] _ = refl
  parse_lines-print_row out (r ∷ rs) (h, hs) =
      ap (λ x. parse_lines parse_float (add_line out x) (map print_row rs))
        (parse_line-print_row r h)
      ∙ parse_lines-print_row (add_line out (some (sample_of_row r))) rs hs

  -- A scrape of series `name{k="v",…} value` is read back whole: every series stands under its name,
  -- in the order of the lines, with its value and the assignments of its labels, whatever characters
  -- the values of the labels have (commas, quotes, backslashes, newlines, braces and spaces included).
  -- Names and keys of labels are not empty and have no space at their ends, a name is no comment and
  -- has no opening brace, a key has no equal sign and no comma, the text of a value has no space, and
  -- its number is not NaN.
  pub parse-print_row :
      (rs : List (Row F))
      → All IsRow rs
      → parse parse_float {E = String} (map print_row rs) none ≡ inr (group [] rs)
  unfolding parse
  parse-print_row rs h = ap inr (parse_lines-print_row [] rs h)

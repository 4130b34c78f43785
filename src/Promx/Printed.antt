-- ===== src/Promx/Printed.antt =====
-- The text that an exporter writes for a series, and that `Parse` reads the series back from it.
use Prim.Native.Char.{Char}
use text.Mathlib.TextEquality.{Char-path}
use text.Mathlib.TextLemmas.{append_assoc, append-nil, cons-append, nil-append}
use octo_performance.Prelude.{
  String, Bool, true, false, [], ◌∷◌, ◌≡◌, refl, sym, ap, ◌∙◌, arith, if◌then◌else◌, All,
  Bool-cases, inl, inr,
}
use octo_performance.Prelude.Text.{str_eq, append, single, is_char}
use octo_performance.Prelude.Trim.{trim_space}
use octo_performance.Prelude.Maps.{insert}
use octo_performance.Promx.{Labels}
use octo_performance.Promx.Parse.{Reader, step, run, finish, flush, parse_labels}

-- A character of a label's value, escaped, in front of `rest`.
pub escape_char : Char → String → String
escape_char c rest =
    if is_char b'\\' c
    then String.◌∷◌ "\\" (String.◌∷◌ "\\" rest)
    else if is_char b'"' c
    then String.◌∷◌ "\\" (String.◌∷◌ "\"" rest)
    else if is_char b'\n' c
    then String.◌∷◌ "\\" (String.◌∷◌ "n" rest)
    else String.◌∷◌ c rest

abbrev escaped_value : String → String → String
escaped_value String.[] rest = rest
escaped_value (String.◌∷◌ c s) rest = escape_char c (escaped_value s rest)

-- `k="v"` in front of `rest`
abbrev print_label : String × String → String → String
print_label (k, v) rest =
    append k (String.◌∷◌ "=" (String.◌∷◌ "\"" (escaped_value v (String.◌∷◌ "\"" rest))))

-- The labels behind the first one, each after its comma.
abbrev print_more : Labels → String
print_more [] = ""
print_more (l ∷ ls) = String.◌∷◌ "," (print_label l (print_more ls))

abbrev pub print_labels : Labels → String
print_labels [] = ""
print_labels (l ∷ ls) = print_label l (print_more ls)

abbrev IsKeyText : String → Type 0
IsKeyText String.[] = Unit
IsKeyText (String.◌∷◌ c s) = (is_char b'=' c ≡ false) × (is_char b',' c ≡ false) × IsKeyText s

-- A key that is not empty, has no `=` and no comma, and has no space at its ends.
abbrev pub IsLabel : String × String → Type 0
IsLabel (k, v) = IsKeyText k × (trim_space k ≡ k) × (str_eq k "" ≡ false)

-- The assignments `m[k] = v` of a list of labels, in its order.
abbrev pub assign : Labels → Labels → Labels
assign out [] = out
assign out ((k, v) ∷ ls) = assign (insert k v out) ls

append-single :
    (b : String) (c : Char) (s : String)
    → append (append b (single c)) s ≡ append b (String.◌∷◌ c s)
append-single b c s =
    append_assoc b (single c) s
    ∙ ap (append b) (cons-append c "" s ∙ ap (String.◌∷◌ c) (nil-append s))

abbrev in_key : Labels → String → Reader
in_key out b = record {
  out = out;
  key = "";
  buf = b;
  reading_key = true;
  in_quotes = false;
  escaped = false;
}

abbrev in_value : Labels → String → String → Bool → Reader
in_value out k b quoted = record {
  out = out;
  key = k;
  buf = b;
  reading_key = false;
  in_quotes = quoted;
  escaped = false;
}

step-in_key :
    (out : Labels) (b : String) (c : Char)
    → is_char b'=' c ≡ false
    → is_char b',' c ≡ false
    → step (in_key out b) c ≡ in_key out (append b (single c))
unfolding step
step-in_key out b c e comma = ground (arith, e, comma)

run-IsKeyText :
    (out : Labels) (b k rest : String)
    → IsKeyText k
    → run (in_key out b) (append k rest) ≡ run (in_key out (append b k)) rest
unfolding run
run-IsKeyText out b String.[] rest h =
    ap (run (in_key out b)) (nil-append rest)
    ∙ ap (λ x. run (in_key out x) rest) (sym (append-nil b))
run-IsKeyText out b (String.◌∷◌ c k) rest (e, comma, h) =
    ap (run (in_key out b)) (cons-append c k rest)
    ∙ ap (λ r. run r (append k rest)) (step-in_key out b c e comma)
    ∙ run-IsKeyText out (append b (single c)) k rest h
    ∙ ap (λ x. run (in_key out x) rest) (append-single b c k)

run-escape_char :
    (out : Labels) (k b : String) (c : Char) (rest : String)
    → run (in_value out k b true) (escape_char c rest)
      ≡ run (in_value out k (append b (single c)) true) rest
unfolding run step escape_char
run-escape_char out k b c rest = elim (Bool-cases (is_char b'\\' c)) [
  | inl slash ↦ rw (Char-path c "\\" (ground (arith, slash))) refl
  | inr slash ↦ elim (Bool-cases (is_char b'"' c)) [
    | inl quote ↦ rw (Char-path c "\"" (ground (arith, quote))) refl
    | inr quote ↦ elim (Bool-cases (is_char b'\n' c)) [
      | inl line ↦ rw (Char-path c "\n" (ground (arith, line))) refl
      | inr line ↦ rw (slash, quote, line) (ground (arith, slash, quote))
    ]
  ]
]

run-escaped_value :
    (out : Labels) (k b v rest : String)
    → run (in_value out k b true) (escaped_value v rest)
      ≡ run (in_value out k (append b v) true) rest
run-escaped_value out k b String.[] rest =
    ap (λ x. run (in_value out k x true) rest) (sym (append-nil b))
run-escaped_value out k b (String.◌∷◌ c v) rest =
    run-escape_char out k b c (escaped_value v rest)
    ∙ run-escaped_value out k (append b (single c)) v rest
    ∙ ap (λ x. run (in_value out k x true) rest) (append-single b c v)

run-print_label :
    (out : Labels) (k v rest : String)
    → IsKeyText k
    → run (in_key out "") (print_label (k, v) rest) ≡ run (in_value out k v false) rest
unfolding run step
run-print_label out k v rest h =
    run-IsKeyText out "" k _ h
    ∙ ap (λ x. run (in_value out x "" true) (escaped_value v (String.◌∷◌ "\"" rest)))
        (nil-append (append "" k) ∙ nil-append k)
    ∙ run-escaped_value out k "" v (String.◌∷◌ "\"" rest)
    ∙ ap (λ x. run (in_value out k x false) rest) (nil-append v)

flush-IsLabel :
    (out : Labels) (k v : String)
    → IsLabel (k, v)
    → flush (in_value out k v false) ≡ in_key (insert k v out) ""
unfolding flush
flush-IsLabel out k v (_, trimmed, full) = rw trimmed (rw full refl)

run-print_more :
    (out : Labels) (k v : String) (ls : Labels)
    → IsLabel (k, v)
    → All IsLabel ls
    → finish (run (in_value out k v false) (print_more ls)) ≡ assign (insert k v out) ls
unfolding run finish
run-print_more out k v [] h _ = ap (λ r. r.out) (flush-IsLabel out k v h)
run-print_more out k v ((j, w) ∷ ls) h (g, gs) =
    ap (λ r. finish (run r (print_label (j, w) (print_more ls))))
      (unfold step in flush-IsLabel out k v h)
    ∙ ap finish (run-print_label (insert k v out) j w (print_more ls) g.0)
    ∙ run-print_more (insert k v out) j w ls g gs

-- A label set that an exporter prints, with backslashes, quotes and newlines of its values escaped, is
-- read back as the assignments of its labels in their order: every value comes back, whatever its
-- characters, also commas, equal signs, quotes and braces. The keys are not empty, have no equal sign
-- and no comma, and have no space at their ends.
pub parse_labels-print_labels :
    (ls : Labels) → All IsLabel ls → parse_labels (print_labels ls) ≡ assign [] ls
unfolding parse_labels run finish
parse_labels-print_labels [] _ = refl
parse_labels-print_labels ((k, v) ∷ ls) (h, hs) =
    ap finish (run-print_label [] k v (print_more ls) h.0) ∙ run-print_more [] k v ls h hs

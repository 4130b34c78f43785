-- ===== src/Prelude/Text.antt =====
-- Go strings. A message of fmt.Sprintf keeps its format and its arguments apart: the digits that
-- the verbs print are the library's business.
use Prim.Native.String.{String, compare, ◌++◌ as append_text}
use Prim.Native.Char.{Char, code}
use Prim.Native.Nat.{ℕ, Ordering}
use mathlib.Core.Bool.{Bool, true, false, ◌&&◌, ◌||◌}
use mathlib.Core.List.{List, [], ◌∷◌}
use text.Mathlib.Text.{◌==◌ as text_eq}
use mathlib.Core.Option.{Option, none, some}
use octo_performance.Prelude.Tests.{leb, ◌==◌, if◌then◌else◌}
use octo_performance.Prelude.Int.{ℤ}

abbrev pub str_eq : String → String → Bool
str_eq = text_eq

abbrev pub append : String → String → String
append = append_text

-- `<` on strings.
unfoldable pub str_lt : String → String → Bool
str_lt s t = elim (compare s t) [ Ordering.lt ↦ true | _ ↦ false ]

pub data Arg (F : Type 0) : Type 0 where
  float : F → Arg F
  int : ℤ → Arg F
  str : String → Arg F

pub record Message (F : Type 0) : Type 0 where
  pub format : String
  pub args : List (Arg F)

abbrev pub sprintf : {F : Type 0} → String → List (Arg F) → Message F
sprintf f a = record { format = f; args = a }

abbrev pub plain : {F : Type 0} → String → Message F
plain s = record { format = s; args = [] }

-- strings.Join
unfoldable pub join : String → List String → String
join sep [] = ""
join sep (s ∷ []) = s
join sep (s ∷ t ∷ ts) = append s (append sep (join sep (t ∷ ts)))

-- unicode.IsSpace
unfoldable pub is_space : Char → Bool
is_space c =
    let n = code c in
    leb 9 n && leb n 13
    || n == 32
    || n == 133
    || n == 160
    || n == 5760
    || leb 8192 n && leb n 8202
    || n == 8232
    || n == 8233
    || n == 8239
    || n == 8287
    || n == 12288

-- `strings.TrimSpace(s) == ""`
unfoldable pub blank : String → Bool
unfolding is_space
blank String.[] = true
blank (String.◌∷◌ c s) = is_space c && blank s

abbrev pub single : Char → String
single c = String.◌∷◌ c String.[]

-- The character `n`, tested by its code point.
abbrev pub is_char : ℕ → Char → Bool
is_char n c = code c == n

-- strings.Cut at the character `n`.
unfoldable pub cut_at : ℕ → String → Option (String × String)
cut_at n String.[] = none
cut_at n (String.◌∷◌ c s) =
    let rest = cut_at n s in
    if is_char n c
    then some ("", s)
    else elim rest [ none ↦ none | some (before, after) ↦ some (String.◌∷◌ c before, after) ]

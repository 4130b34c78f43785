-- ===== src/Prelude/Trim.antt =====
-- strings.TrimSpace, and texts that it leaves alone.
use Prim.Native.Char.{Char}
use Prim.Native.String.{String}
use text.Mathlib.TextLemmas.{cons-append, nil-append, cons-ne-nil}
use mathlib.Core.Path.{◌≡◌, refl, sym, ap, ◌∙◌}
use mathlib.Core.Logic.{◌≢◌}
use mathlib.Core.Bool.{false}
use octo_performance.Prelude.Tests.{if◌then◌else◌}
use octo_performance.Prelude.Text.{is_space, single, append}

unfoldable pub trim_left : String → String
trim_left String.[] = String.[]
trim_left (String.◌∷◌ c s) = if is_space c then trim_left s else String.◌∷◌ c s

-- `c` in front of a text whose end is trimmed.
trim_cons : Char → String → String
trim_cons c String.[] = if is_space c then String.[] else single c
trim_cons c (String.◌∷◌ d s) = String.◌∷◌ c (String.◌∷◌ d s)

unfoldable pub trim_right : String → String
unfolding trim_cons
trim_right String.[] = String.[]
trim_right (String.◌∷◌ c s) = trim_cons c (trim_right s)

-- strings.TrimSpace
unfoldable pub trim_space : String → String
unfolding trim_left trim_right
trim_space s = trim_right (trim_left s)

-- Neither the first character nor the end is a space.
abbrev pub IsTrimmed : String → Type 0
IsTrimmed String.[] = Unit
IsTrimmed (String.◌∷◌ c s) = (is_space c ≡ false) × (trim_right (String.◌∷◌ c s) ≡ String.◌∷◌ c s)

pub trim_space-IsTrimmed : (s : String) → IsTrimmed s → trim_space s ≡ s
unfolding trim_space trim_left trim_right
trim_space-IsTrimmed String.[] _ = refl
trim_space-IsTrimmed (String.◌∷◌ c s) (start, end) = rw start end

trim_cons-ne_nil : (c : Char) (s : String) → s ≢ "" → trim_cons c s ≡ String.◌∷◌ c s
unfolding trim_cons
trim_cons-ne_nil c String.[] h = absurd (h refl)
trim_cons-ne_nil c (String.◌∷◌ d s) h = refl

pub append-ne_nil : (s : String) (c : Char) (t : String) → append s (String.◌∷◌ c t) ≢ ""
append-ne_nil String.[] c t e = cons-ne-nil c t (sym (nil-append _) ∙ e)
append-ne_nil (String.◌∷◌ d s) c t e = cons-ne-nil d _ (sym (cons-append d s _) ∙ e)

-- A text ends where its last part ends.
pub trim_right-append :
    (s : String) (c : Char) (t : String)
    → trim_right (String.◌∷◌ c t) ≡ String.◌∷◌ c t
    → trim_right (append s (String.◌∷◌ c t)) ≡ append s (String.◌∷◌ c t)
unfolding trim_right
trim_right-append String.[] c t h =
    ap trim_right (nil-append (String.◌∷◌ c t)) ∙ h ∙ sym (nil-append (String.◌∷◌ c t))
trim_right-append (String.◌∷◌ d s) c t h =
    ap trim_right (cons-append d s _)
    ∙ ap (trim_cons d) (trim_right-append s c t h)
    ∙ trim_cons-ne_nil d _ (append-ne_nil s c t)
    ∙ sym (cons-append d s _)

-- A character and an end that is trimmed.
pub trim_right-cons :
    (c : Char) (s : String)
    → s ≢ ""
    → trim_right s ≡ s
    → trim_right (String.◌∷◌ c s) ≡ String.◌∷◌ c s
unfolding trim_right
trim_right-cons c s full h = ap (trim_cons c) h ∙ trim_cons-ne_nil c s full

-- A text that begins with no space and whose end is trimmed.
pub trim_space-append :
    (c : Char) (s t : String)
    → is_space c ≡ false
    → trim_right (append (String.◌∷◌ c s) t) ≡ append (String.◌∷◌ c s) t
    → trim_space (append (String.◌∷◌ c s) t) ≡ append (String.◌∷◌ c s) t
unfolding trim_space trim_left
trim_space-append c s t start end =
    ap trim_right (ap trim_left (cons-append c s t) ∙ rw start refl ∙ sym (cons-append c s t)) ∙ end

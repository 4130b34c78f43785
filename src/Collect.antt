-- ===== src/Collect.antt =====
-- harness/internal/collect/collect.go: scrapes taken at intervals beside a load pass, the pair of them
-- that encloses a window, and the scraper. Its children prove what the pair is (Enclosing) and model the
-- scraper as a machine whose ticks and stops come in any order (Scraper).
pub mod Indices
pub mod Enclosing
pub mod Scraper
mod Examples
use octo_performance.Prelude.{
  ℕ, suc, String, Bool, true, false, not, Option, none, some, List, [], ◌∷◌, ◌⊎◌, inl, inr,
  if◌then◌else◌, length, ltb, leb, get_elem?, is_empty, last_or,
}
use octo_performance.Prelude.Int.{ℤ, pos, ◌-ℤ◌, ltb_ℤ, leb_ℤ}
use octo_performance.Prelude.Text.{Message, int, sprintf, plain}
use octo_performance.Prelude.Float.{Float, ◌/F◌, zero_float, seconds}
use octo_performance.Promx.{Exposition}
use octo_performance.Promx.Parse.{parse}

pub record Scrape : Type 0 where
  pub at : ℤ
  pub body : String

pub record Scrapes : Type 0 where
  pub interval : ℤ
  pub samples : List Scrape
  pub errors : List String

pub record Bracket : Type 0 where
  pub start : Scrape
  pub end : Scrape
  pub start_at : ℤ
  pub end_at : ℤ
  pub window_from : ℤ
  pub window_to : ℤ

unfoldable pub present : Scrapes → Bool
present s = not (is_empty s.samples)

unfoldable pub span : Bracket → ℤ
span b = b.end_at -ℤ b.start_at

unfoldable pub window_length : Bracket → ℤ
window_length b = b.window_to -ℤ b.window_from

unfoldable pub overhang : Bracket → ℤ
unfolding span window_length
overhang b = span b -ℤ window_length b

unfoldable pub overhang_ratio : {F : Type 0} → ⦃fl : Float F⦄ → Bracket → F
unfolding overhang
overhang_ratio b =
    if leb_ℤ (window_length b) (pos 0)
    then zero_float
    else seconds (overhang b) /F seconds (window_length b)

-- `startIdx` and `endIdx`, where -1 is none; `i` is the index of the first scrape given.
unfoldable pub scan : ℤ → ℤ → ℕ → Option ℕ → Option ℕ → List Scrape → Option ℕ × Option ℕ
scan from to i start end [] = (start, end)
scan from to i start end (s ∷ ss) =
    scan from to (suc i) (if ltb_ℤ from s.at then start else some i)
      (elim end [ some e ↦ some e | none ↦ if ltb_ℤ s.at to then none else some i ]) ss

module _ {F : Type 0} where
  abbrev too_late : ℤ → List Scrape → Message F
  too_late from [] = plain ""
  too_late from (s ∷ ss) =
      sprintf "collect: no scrape at or before the window start (%s); the first was at %s"
        (int from ∷ int s.at ∷ [])

  abbrev too_early : ℤ → List Scrape → Message F
  too_early to [] = plain ""
  too_early to (s ∷ ss) =
      sprintf "collect: no scrape at or after the window end (%s); the last was at %s"
        (int to ∷ int (last_or s ss).at ∷ [])

  -- The two scrapes at the indices; an index that is out of range would be a panic.
  abbrev pub pair_at : List Scrape → ℤ → ℤ → ℕ → ℕ → Message F ⊎ Bracket
  pair_at samples from to i j = elim (get_elem? samples i) [
    | none ↦ inl (plain "index out of range")
    | some a ↦ elim (get_elem? samples j) [
      | none ↦ inl (plain "index out of range")
      | some b ↦ inr (record {
        start = a;
        end = b;
        start_at = a.at;
        end_at = b.at;
        window_from = from;
        window_to = to;
      })
    ]
  ]

  unfoldable pub pick : List Scrape → ℤ → ℤ → Option ℕ × Option ℕ → Message F ⊎ Bracket
  pick samples from to (none, end) = inl (too_late from samples)
  pick samples from to (some i, none) = inl (too_early to samples)
  pick samples from to (some i, some j) =
      if leb j i
      then inl
          (plain "collect: the window falls between two consecutive scrapes; nothing to difference")
      else pair_at samples from to i j

  unfoldable pub bracketing : List Scrape → ℤ → ℤ → Message F ⊎ Bracket
  unfolding scan pick
  bracketing samples from to =
      if ltb (length samples) 2
      then inl
          (sprintf "collect: %d scrapes cannot bracket a window" (int (pos (length samples)) ∷ []))
      else pick samples from to (scan from to 0 none none samples)

module _ {F : Type 0} ⦃fl : Float F⦄ (parse_float : String → Option F)
    (lines_of : String → List String × Option String) where
  -- `promx.ParseBytes`, on what the scanner reads of a body.
  abbrev exposition_of : String → String ⊎ Exposition F
  exposition_of body = let (lines, error) = lines_of body in parse parse_float lines error

  unfoldable pub parse_bracket : Bracket → Message F ⊎ (Exposition F × Exposition F × Bracket)
  parse_bracket b = elim (exposition_of b.start.body) [
    | inl e ↦ inl (plain "collect: parsing the opening scrape: %w")
    | inr start ↦ elim (exposition_of b.end.body) [
      | inl e ↦ inl (plain "collect: parsing the closing scrape: %w")
      | inr end ↦ inr (start, end, b)
    ]
  ]

  unfoldable pub window : List Scrape → ℤ → ℤ → Message F ⊎ (Exposition F × Exposition F × Bracket)
  unfolding bracketing parse_bracket
  window samples from to = elim (bracketing samples from to) [
    | inl e ↦ inl e
    | inr b ↦ parse_bracket b
  ]

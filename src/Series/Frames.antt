-- ===== src/Series/Frames.antt =====
-- `Frame` of series.go: series by name, as an association list in which a name stands once.
use octo_performance.Prelude.{
  String, Option, none, some, List, [], ◌∷◌, map, ◌≡◌, refl, arith, if◌then◌else◌,
}
use octo_performance.Prelude.Int.{ℤ}
use octo_performance.Prelude.Sort.{sort_by}
use octo_performance.Prelude.Text.{str_eq, str_lt}
use octo_performance.Series.{Series, window, shift}
use text.Mathlib.TextEquality.{eq_iff}

pub record Frame (F : Type 0) : Type 0 where
  pub series : List (Series F)

module _ {F : Type 0} where
  put : Series F → List (Series F) → List (Series F)
  put s [] = s ∷ []
  put s (t ∷ ts) = if str_eq t.name s.name then s ∷ ts else t ∷ put s ts

  find : String → List (Series F) → Option (Series F)
  find name [] = none
  find name (t ∷ ts) = if str_eq t.name name then some t else find name ts

  unfoldable pub add : Frame F → Series F → Frame F
  unfolding put
  add f s = record { series = put s f.series }

  put_all : List (Series F) → List (Series F) → List (Series F)
  put_all acc [] = acc
  put_all acc (s ∷ ss) = put_all (put s acc) ss

  unfoldable pub new_frame : List (Series F) → Frame F
  unfolding put put_all
  new_frame ss = record { series = put_all [] ss }

  unfoldable pub get : Frame F → String → Option (Series F)
  unfolding find
  get f name = find name f.series

  unfoldable pub names : Frame F → List String
  names f = sort_by str_lt (map (λ s. s.name) f.series)

  unfoldable pub window_frame : Frame F → ℤ → ℤ → Frame F
  window_frame f from to = record { series = map (λ s. window s from to) f.series }

  unfoldable pub shift_frame : Frame F → ℤ → Frame F
  shift_frame f offset = record { series = map (λ s. shift s offset) f.series }

  find-put :
      (name : String) (s : Series F) (ts : List (Series F))
      → find name (put s ts) ≡ (if str_eq s.name name then some s else find name ts)
  unfolding find put
  find-put name s [] = refl
  find-put name s (t ∷ ts) =
      ground
        (arith, eq_iff t.name s.name, eq_iff t.name name, eq_iff s.name name, find-put name s ts)

  -- After `Add` the name of the added series leads to it, and every other name to what it did.
  pub get-add :
      (f : Frame F) (s : Series F) (name : String)
      → get (add f s) name ≡ (if str_eq s.name name then some s else get f name)
  unfolding get add
  get-add f s name = find-put name s f.series

-- ===== src/Prelude/Maps.antt =====
-- Go maps as association lists: a key stands once, in the order of its first assignment. What is read
-- of a map never depends on that order, except where a function sorts it.
use mathlib.Core.Option.{Option, none, some}
use mathlib.Core.List.{List, [], ◌∷◌}
use Prim.Native.String.{String}
use octo_performance.Prelude.Tests.{if◌then◌else◌}
use octo_performance.Prelude.Text.{str_eq}

module _ {ℓ} {V : Type ℓ} where
  -- `v, ok := m[k]`
  abbrev pub lookup : String → List (String × V) → Option V
  lookup k [] = none
  lookup k ((j, v) ∷ m) = if str_eq j k then some v else lookup k m

  -- `m[k]`, with the zero value of the type
  abbrev pub lookup_or : V → String → List (String × V) → V
  lookup_or d k [] = d
  lookup_or d k ((j, v) ∷ m) = if str_eq j k then v else lookup_or d k m

  -- `m[k] = f(m[k])`, with the zero value for a key that is missing
  abbrev pub adjust : V → (V → V) → String → List (String × V) → List (String × V)
  adjust d f k [] = (k, f d) ∷ []
  adjust d f k ((j, v) ∷ m) =
      let rest = adjust d f k m in if str_eq j k then (j, f v) ∷ m else (j, v) ∷ rest

  -- `m[k] = v`
  abbrev pub insert : String → V → List (String × V) → List (String × V)
  insert k v = adjust v (λ w. v) k

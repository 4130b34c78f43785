-- ===== src/Gate.antt =====
-- harness/internal/gate: whether a measured cell may become a number. A gate is a pure function from a
-- cell's evidence to findings; `evaluate` folds the findings of a suite into a verdict.
pub mod Cell
pub mod Settings
pub mod Verdict
pub mod Suite
pub mod Generator
pub mod Checks
mod Examples
use octo_performance.Prelude.{
  ℕ, String, Bool, true, false, not, ◌&&◌, List, [], ◌∷◌, ◌++◌, map, ltb, ◌==◌, if◌then◌else◌,
  filter,
}
use octo_performance.Prelude.Sort.{sort_by}
use octo_performance.Prelude.Text.{Arg, Message, str_eq, str_lt, append}
use octo_performance.Gate.Cell.{Evidence}

pub data Level : Type 0 where
  valid suspect invalid : Level

abbrev pub rank : Level → ℕ
rank valid = 0
rank suspect = 1
rank invalid = 2

-- The summary keeps its format and arguments; `evidence` is the map of numbers behind it.
pub record Finding (F : Type 0) : Type 0 where
  pub gate : String
  pub level : Level
  pub summary : Message F
  pub detail : String
  pub evidence : List (String × Arg F)

-- The type `Verdict`.
pub record CellVerdict (F : Type 0) : Type 0 where
  pub level : Level
  pub findings : List (Finding F)

-- The interface `Gate`.
pub record Check (F : Type 0) : Type 0 where
  pub id : String
  pub check : Evidence F → List (Finding F)

unfoldable append_note : String → String → String
append_note detail note = if str_eq detail "" then note else append detail (append "; " note)

module _ {F : Type 0} where
  unfoldable pub excluded : CellVerdict F → Bool
  excluded v = rank v.level == rank invalid

  unfoldable pub reasons : CellVerdict F → List (Message F)
  reasons v =
      map (λ f. f.summary)
        (filter (λ f. rank f.level == rank v.level && not (rank f.level == rank valid)) v.findings)

  -- Observe mode caps a finding at suspect.
  unfoldable pub cap : Bool → Finding F → Finding F
  unfolding append_note
  cap observe_only f =
      if observe_only && ltb (rank suspect) (rank f.level)
      then record f {
        level = suspect;
        detail = append_note f.detail "capped at suspect: gates are in observe mode";
      }
      else f

  -- The findings of the two loops of `Evaluate`, in order.
  unfoldable pub collect : List (Check F) → Evidence F → Bool → List (Finding F)
  unfolding cap
  collect [] e observe_only = []
  collect (g ∷ gates) e observe_only =
      map (cap observe_only) (g.check e) ++ collect gates e observe_only

  -- `if f.Level > v.Level { v.Level = f.Level }`, along the loop.
  unfoldable pub worst_from : Level → List (Finding F) → Level
  worst_from level [] = level
  worst_from level (f ∷ fs) =
      worst_from (if ltb (rank level) (rank f.level) then f.level else level) fs

  -- Worst level first, then by gate.
  abbrev pub finding_less : Finding F → Finding F → Bool
  finding_less f g =
      if rank f.level == rank g.level
      then str_lt f.gate g.gate
      else ltb (rank g.level) (rank f.level)

  unfoldable pub evaluate : List (Check F) → Evidence F → Bool → CellVerdict F
  unfolding collect worst_from
  evaluate gates e observe_only =
      let found = collect gates e observe_only in
      record { level = worst_from valid found; findings = sort_by finding_less found }

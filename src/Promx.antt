-- ===== src/Promx.antt =====
-- promx/parse.go: series and their labels, and what is read of a scrape. Its children read the text of
-- a scrape (Parse), difference two scrapes and take quantiles (Window).
pub mod Parse
pub mod Printed
pub mod Scrape
pub mod Window
pub mod Quantiles
mod Examples
use octo_performance.Prelude.{
  String, Bool, true, false, ◌&&◌, Option, none, some, List, [], ◌∷◌, all, filter, map,
  if◌then◌else◌,
}
use octo_performance.Prelude.Text.{str_eq, str_lt, append, join}
use octo_performance.Prelude.Sort.{sort_by}
use octo_performance.Prelude.Float.{Float, ◌+F◌, zero_float}
use octo_performance.Prelude.Maps.{lookup_or, lookup, adjust}

abbrev pub Labels : Type 0
Labels = List (String × String)

pub record Sample (F : Type 0) : Type 0 where
  pub labels : Labels
  pub value : F

abbrev pub Exposition : Type 0 → Type 0
Exposition F = List (String × List (Sample F))

unfoldable pub matches : Labels → Labels → Bool
matches l want = all (λ kv. str_eq (lookup_or "" kv.0 l) kv.1) want

abbrev contains : List String → String → Bool
contains [] want = false
contains (x ∷ xs) want = if str_eq x want then true else contains xs want

unfoldable pub key_of : Labels → List String → String
key_of l ignore = join "," (
    sort_by str_lt (
      map (λ kv. append kv.0 (append "=" kv.1))
        (filter (λ kv. if contains ignore kv.0 then false else true) l)))

abbrev pub samples_of : (F : Type 0) → Exposition F → String → List (Sample F)
samples_of F e name = lookup_or [] name e

module _ {F : Type 0} where
  unfoldable pub first : Exposition F → String → Option F
  first e name = elim (samples_of F e name) [ [] ↦ none | s ∷ rest ↦ some s.value ]

  unfoldable pub labels_of : Exposition F → String → Labels
  labels_of e name = elim (samples_of F e name) [ [] ↦ [] | s ∷ rest ↦ s.labels ]

  unfoldable pub names : Exposition F → List String
  names e = sort_by str_lt (map (λ nv. nv.0) e)

module _ {F : Type 0} ⦃fl : Float F⦄ where
  -- The loop of `Total`, from the sum so far and whether a series matched.
  unfoldable pub total_from : F → Bool → List (Sample F) → Labels → F × Bool
  unfolding matches
  total_from sum matched [] want = (sum, matched)
  total_from sum matched (s ∷ rest) want =
      let hit = matches s.labels want in
      total_from (if hit then sum +F s.value else sum) (if hit then true else matched) rest want

  unfoldable pub total : Exposition F → String → Labels → Option F
  unfolding total_from
  total e name want = elim (lookup name e) [
    | none ↦ none
    | some samples ↦
        let (sum, matched) = total_from zero_float false samples want in
        if matched then some sum else none
  ]

  -- The loop of `ByLabel`: `out[s.Labels[label]] += s.Value`.
  unfoldable pub by_label_from : List (String × F) → List (Sample F) → String → List (String × F)
  by_label_from out [] label = out
  by_label_from out (s ∷ rest) label =
      by_label_from (adjust zero_float (λ v. v +F s.value) (lookup_or "" label s.labels) out) rest
        label

  unfoldable pub by_label : Exposition F → String → String → List (String × F)
  unfolding by_label_from
  by_label e name label = by_label_from [] (samples_of F e name) label

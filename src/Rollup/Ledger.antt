-- ===== src/Rollup/Ledger.antt =====
-- Every cell of a campaign is on the record.
use octo_performance.Prelude.{
  ℕ, ◌+◌, ◌≡◌, refl, Bool, String, List, [], ◌∷◌, map, arith, length, filter, Perm, ◌==◌,
  if◌then◌else◌,
}
use mathlib.Core.List.Perm
use octo_performance.Prelude.Int.{ℤ, ltb_ℤ}
use octo_performance.Prelude.Sort.{sort_by-perm, sort_by-IsSorted, IsSorted, IsWeakOrder}
use octo_performance.Prelude.Float.{Float}
use octo_performance.Gate.{Level, valid, suspect, invalid, rank, excluded}
use octo_performance.Rollup.{ResultCell}
use octo_performance.Rollup.Notes.{LedgerRow, ledger_row, ledger}
use octo_performance.Rollup.Campaign.{RollupInput, counts_of, rollup_some, rollup}

one_level :
    (l : Level)
    → (if rank l == rank valid then 1 else 0)
        + (if rank l == rank suspect then 1 else 0)
        + (if rank l == rank invalid then 1 else 0)
      ≡ 1
one_level valid = refl
one_level suspect = refl
one_level invalid = refl

module _ {F : Type 0} where
  abbrev pub by_ordinal : LedgerRow F → LedgerRow F → Bool
  by_ordinal a b = ltb_ℤ a.ordinal b.ordinal

  by_ordinal-IsWeakOrder : IsWeakOrder by_ordinal
  by_ordinal-IsWeakOrder = record {
    asymm = λ a b h. ground (arith, h);
    trans = λ a b c h g. ground (arith, h, g);
  }

  ledger_lem :
      (cells : List (ResultCell F))
      → Perm (ledger cells) (map ledger_row cells) × IsSorted by_ordinal (ledger cells)
  unfolding ledger
  ledger_lem cells = (
    sort_by-perm by_ordinal (map ledger_row cells),
    sort_by-IsSorted by_ordinal by_ordinal-IsWeakOrder (map ledger_row cells),
  )

  abbrev level_is : Level → ResultCell F → Bool
  level_is l c = rank c.verdict.level == rank l

  length-if :
      (b : Bool) (c : ResultCell F) (cs : List (ResultCell F))
      → length (if b then c ∷ cs else cs) ≡ (if b then 1 else 0) + length cs
  length-if b c cs = ground arith

  count_levels :
      (cells : List (ResultCell F))
      → length (filter (level_is valid) cells)
          + length (filter (level_is suspect) cells)
          + length (filter (level_is invalid) cells)
        ≡ length cells
  count_levels [] = refl
  count_levels (c ∷ cells) = omega (
    arith,
    count_levels cells,
    length-if (level_is valid c) c (filter (level_is valid) cells),
    length-if (level_is suspect c) c (filter (level_is suspect) cells),
    length-if (level_is invalid c) c (filter (level_is invalid) cells),
    one_level c.verdict.level,
  )

  -- The levels of the cells are all counted, and a cell is excluded exactly if it is invalid.
  counts_of_lem :
      (planned : ℤ) (cells : List (ResultCell F))
      → let n = counts_of planned cells in
        (n.valid_count + n.suspect_count + n.invalid_count ≡ n.ran)
        × (n.excluded_count ≡ n.invalid_count)
        × (n.ran ≡ length cells)
  unfolding counts_of excluded
  counts_of_lem planned cells = (count_levels cells, refl, refl)

module _ {F : Type 0} ⦃fl : Float F⦄ {G : Type 0} (int_n : ℕ → G → ℕ × G) (new_rand : ℕ → G)
    (walk : List String → List String) where
  -- Every cell that ran stands in the ledger of the campaign exactly once, whatever its verdict, and
  -- the rows are in the order in which the cells ran. The cells of the three levels are together the
  -- cells that ran, and the excluded ones are exactly the invalid ones.
  pub rollup-ledger :
      (in_ : RollupInput) (cells : List (ResultCell F))
      → let r = rollup int_n new_rand walk in_ cells in
        Perm r.ledger_rows (map ledger_row cells)
        × IsSorted by_ordinal r.ledger_rows
        × (r.counts.valid_count + r.counts.suspect_count + r.counts.invalid_count ≡ r.counts.ran)
        × (r.counts.excluded_count ≡ r.counts.invalid_count)
        × (r.counts.ran ≡ length cells)
  unfolding rollup rollup_some
  rollup-ledger in_ [] = (Perm.rfl, tt, refl, refl, refl)
  rollup-ledger in_ (c ∷ cells) =
      let (perm, sorted) = ledger_lem (c ∷ cells) in
      let (levels, excluded, ran) = counts_of_lem in_.planned (c ∷ cells) in
      (perm, sorted, levels, excluded, ran)

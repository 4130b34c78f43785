-- ===== src/Gate/Verdict.antt =====
-- What `Evaluate` makes of the findings of a suite.
use octo_performance.Prelude.{
  ◌≤◌, ◌≡◌, refl, sym, ap, ◌∙◌, Bool, true, false, ◌||◌, List, [], ◌∷◌, ◌++◌, map, Perm, ltb, leb,
  ◌==◌, if◌then◌else◌, arith, any,
}
use octo_performance.Prelude.Sort.{sort_by-perm, sort_by-IsDescending, IsDescending}
use mathlib.Core.Path.{subst, ap₂}
use mathlib.Core.List.{append_assoc}
use octo_performance.Gate.Cell.{Evidence}
use octo_performance.Gate.{
  Level, valid, suspect, invalid, rank, Finding, Check, excluded, cap, collect, worst_from,
  evaluate, finding_less,
}

rank-not_invalid :
    (l : Level) → leb (rank invalid) (rank l) ≡ false → (rank l == rank invalid) ≡ false
rank-not_invalid l h = ground (arith, h)

module _ {F : Type 0} where
  -- The findings before any cap, gate by gate.
  unfoldable pub raw_findings : List (Check F) → Evidence F → List (Finding F)
  raw_findings [] e = []
  raw_findings (g ∷ gates) e = g.check e ++ raw_findings gates e

  -- The finding is at least at the level.
  unfoldable pub reaches : Level → Finding F → Bool
  reaches l f = leb (rank l) (rank f.level)

  pub any-append :
      (p : Finding F → Bool) (xs ys : List (Finding F)) → any p (xs ++ ys) ≡ (any p xs || any p ys)
  any-append p [] ys = refl
  any-append p (x ∷ xs) ys = ground (arith, any-append p xs ys)

  map_append :
      (o : Bool) (xs ys : List (Finding F))
      → map (cap o) (xs ++ ys) ≡ map (cap o) xs ++ map (cap o) ys
  map_append o [] ys = refl
  map_append o (x ∷ xs) ys = ap (λ t. cap o x ∷ t) (map_append o xs ys)

  collect_lem :
      (gates : List (Check F)) (e : Evidence F) (o : Bool)
      → collect gates e o ≡ map (cap o) (raw_findings gates e)
  unfolding collect raw_findings
  collect_lem [] e o = refl
  collect_lem (g ∷ gates) e o =
      ap (λ t. map (cap o) (g.check e) ++ t) (collect_lem gates e o)
      ∙ sym (map_append o (g.check e) (raw_findings gates e))

  worst_from_lem :
      (k l : Level) (fs : List (Finding F))
      → leb (rank k) (rank (worst_from l fs)) ≡ (leb (rank k) (rank l) || any (reaches k) fs)
  unfolding worst_from reaches
  worst_from_lem k l [] = ground arith
  worst_from_lem k l (f ∷ fs) =
      ground (arith, worst_from_lem k (if ltb (rank l) (rank f.level) then f.level else l) fs)

  cap_off : (fs : List (Finding F)) → map (cap false) fs ≡ fs
  unfolding cap
  cap_off [] = refl
  cap_off (f ∷ fs) = ap (λ t. f ∷ t) (cap_off fs)

  cap_on : (fs : List (Finding F)) → any (reaches invalid) (map (cap true) fs) ≡ false
  unfolding cap reaches
  cap_on [] = refl
  cap_on (f ∷ fs) = ground (arith, cap_on fs)

  cap_suspect :
      (o : Bool) (fs : List (Finding F))
      → any (reaches suspect) (map (cap o) fs) ≡ any (reaches suspect) fs
  unfolding cap reaches
  cap_suspect o [] = refl
  cap_suspect o (f ∷ fs) = ground (arith, cap_suspect o fs)

  finding_less-rank : (f g : Finding F) → finding_less f g ≡ true → rank g.level ≤ rank f.level
  finding_less-rank f g h = ground (arith, h)

  not_finding_less-rank : (f g : Finding F) → finding_less f g ≡ false → rank f.level ≤ rank g.level
  not_finding_less-rank f g h = ground (arith, h)

  -- Without observe mode a cell is excluded exactly when some gate of the suite has a finding
  -- at the level invalid.
  pub excluded-evaluate_lem :
      (gates : List (Check F)) (e : Evidence F)
      → excluded (evaluate gates e false) ≡ any (reaches invalid) (raw_findings gates e)
  unfolding evaluate excluded
  excluded-evaluate_lem gates e = ground (
    arith,
    worst_from_lem invalid valid (collect gates e false),
    collect_lem gates e false ∙ cap_off (raw_findings gates e),
  )

  -- In observe mode no cell is excluded, and the cells that are at least suspect are those that
  -- would be without it.
  pub evaluate-observe_lem :
      (gates : List (Check F)) (e : Evidence F)
      → (excluded (evaluate gates e true) ≡ false)
        × (leb (rank suspect) (rank (evaluate gates e true).level)
            ≡ leb (rank suspect) (rank (evaluate gates e false).level))
  unfolding evaluate excluded
  evaluate-observe_lem gates e =
      let observed = collect_lem gates e true in
      let plainly = collect_lem gates e false in
      (
        rank-not_invalid (worst_from valid (collect gates e true)) (
            worst_from_lem invalid valid (collect gates e true)
            ∙ ap (any (reaches invalid)) observed
            ∙ cap_on (raw_findings gates e)),
        worst_from_lem suspect valid (collect gates e true)
            ∙ ap (any (reaches suspect)) observed
            ∙ cap_suspect true (raw_findings gates e)
            ∙ sym (cap_suspect false (raw_findings gates e))
            ∙ sym (ap (any (reaches suspect)) plainly)
            ∙ sym (worst_from_lem suspect valid (collect gates e false)),
      )

  Perm-eq : {xs ys zs : List (Finding F)} → Perm xs ys → ys ≡ zs → Perm xs zs
  Perm-eq {xs} p q = subst (λ t. Perm xs t) q p

  -- The verdict's findings are those of all gates, none lost and none added, each capped in
  -- observe mode, with the worst level first.
  pub evaluate-findings_lem :
      (gates : List (Check F)) (e : Evidence F) (o : Bool)
      → Perm (evaluate gates e o).findings (map (cap o) (raw_findings gates e))
        × IsDescending (λ f. rank f.level) (evaluate gates e o).findings
  unfolding evaluate
  evaluate-findings_lem gates e o =
      let c = collect_lem gates e o in
      (
        Perm-eq (sort_by-perm finding_less (collect gates e o)) c,
        sort_by-IsDescending finding_less (λ f. rank f.level) finding_less-rank
            not_finding_less-rank (collect gates e o),
      )

  raw_findings-append :
      (gates more : List (Check F)) (e : Evidence F)
      → raw_findings (gates ++ more) e ≡ raw_findings gates e ++ raw_findings more e
  unfolding raw_findings
  raw_findings-append [] more e = refl
  raw_findings-append (g ∷ gates) more e =
      ap (λ t. g.check e ++ t) (raw_findings-append gates more e)
      ∙ sym (append_assoc (g.check e) (raw_findings gates e) (raw_findings more e))

  -- A suite that is put together from two excludes the cells that either part excludes.
  excluded-append :
      (gates more : List (Check F)) (e : Evidence F)
      → excluded (evaluate (gates ++ more) e false)
        ≡ (excluded (evaluate gates e false) || excluded (evaluate more e false))
  excluded-append gates more e =
      excluded-evaluate_lem (gates ++ more) e
      ∙ ap (any (reaches invalid)) (raw_findings-append gates more e)
      ∙ any-append (reaches invalid) (raw_findings gates e) (raw_findings more e)
      ∙ ap₂ (λ a b. a || b) (sym (excluded-evaluate_lem gates e))
          (sym (excluded-evaluate_lem more e))

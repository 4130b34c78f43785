-- ===== src/Plan/Sequence.antt =====
-- The cells of a whole plan.
use octo_performance.Prelude.{
  ℕ, zero, suc, ◌+◌, ◌*◌, ◌≡◌, refl, sym, ap, ◌∙◌, String, Bool, not, ◌||◌, List, [], ◌∷◌, ◌++◌,
  map, length, length-map, length-append, filter, inl, inr, arith, Option, some, Bool-cases,
}
use mathlib.Core.Path.{ap₂}
use octo_performance.Prelude.Int.{ℤ, pos, pos_part}
use octo_performance.Prelude.Text.{str_eq}
use octo_performance.Prelude.Float.{Float}
use octo_performance.Spec.{Load, Campaign, Scenario, merge}
use octo_performance.Spec.Validation.{validate_campaign, validate_load}
use octo_performance.Plan.{
  CellId, Cell, Plan, Print, from, arm_order, place, repeat, planned, expand_scenarios, expand,
  remaining, hash_plan,
}
use octo_performance.Plan.Rotation.{from-append}

length-from : (i n : ℕ) → length (from i n) ≡ n
length-from i zero = refl
length-from i (suc n) = ap suc (length-from (suc i) n)

map_append {ℓ κ} :
    {A : Type ℓ} {B : Type κ} (f : A → B) (xs ys : List A) → map f (xs ++ ys) ≡ map f xs ++ map f ys
map_append f [] ys = refl
map_append f (x ∷ xs) ys = ap (λ l. f x ∷ l) (map_append f xs ys)

length-arm_order :
    (n : ℕ) (rep : ℤ) (order : String) (seed : ℤ) → length (arm_order n rep order seed) ≡ n
unfolding arm_order
length-arm_order n rep order seed = elim (Bool-cases (str_eq order "blocked")) [
  | inl e ↦ rw e (length-from 0 n)
  | inr e ↦ rw e (length-map _ (from 0 n) ∙ length-from 0 n)
]

module _ {F : Type 0} where
  abbrev ordinals : List (Cell F) → List ℕ
  ordinals = map (λ c. c.ordinal)

  -- The cells are numbered from `start` on, without a gap.
  abbrev pub AreNumbered : ℕ → List (Cell F) → Type 0
  AreNumbered start cells = ordinals cells ≡ from start (length cells)

  numbered-append :
      (i j : ℕ) (xs ys : List (Cell F))
      → AreNumbered i xs
      → i + length xs ≡ j
      → AreNumbered j ys
      → AreNumbered i (xs ++ ys)
  numbered-append i j xs ys p e q =
      map_append (λ c. c.ordinal) xs ys
      ∙ ap₂ (λ a b. a ++ b) p q
      ∙ sym (
          from-append i j (length xs) (length ys) (length (xs ++ ys)) e
            (sym (length-append {0} xs ys)))

  length-place :
      (c : Campaign F) (sc : Scenario F) (load : Load F) (id : String) (rep : ℤ) (p o : ℕ)
      (ks : List ℕ)
      → length (place c sc load id rep p o ks) ≡ length ks
  unfolding place
  length-place c sc load id rep p o [] = refl
  length-place c sc load id rep p o (k ∷ ks) =
      ap suc (length-place c sc load id rep (suc p) (suc o) ks)

  place_numbered :
      (c : Campaign F) (sc : Scenario F) (load : Load F) (id : String) (rep : ℤ) (p o : ℕ)
      (ks : List ℕ)
      → AreNumbered o (place c sc load id rep p o ks)
  unfolding place
  place_numbered c sc load id rep p o [] = refl
  place_numbered c sc load id rep p o (k ∷ ks) =
      ap (λ l. o ∷ l) (place_numbered c sc load id rep (suc p) (suc o) ks)

  filter_twice :
      (one two : CellId → Bool) (cells : List (Cell F))
      → filter (λ c. not (one c.id || two c.id)) cells
        ≡ filter (λ c. not (two c.id)) (filter (λ c. not (one c.id)) cells)
  filter_twice one two [] = refl
  filter_twice one two (c ∷ cells) = ground (arith, filter_twice one two cells)

  repeat_lem :
      (c : Campaign F) (sc : Scenario F) (load : Load F) (id : String) (rep left o : ℕ)
      → AreNumbered o (repeat c sc load id rep left o)
        × (length (repeat c sc load id rep left o) ≡ left * length c.arms)
  unfolding repeat
  repeat_lem c sc load id rep zero o = (refl, omega arith)
  repeat_lem c sc load id rep (suc left) o =
      let order = arm_order (length c.arms) (pos rep) c.order c.seed in
      let count = length-arm_order (length c.arms) (pos rep) c.order c.seed in
      let here = place c sc load id (pos rep) 0 o order in
      let placed = length-place c sc load id (pos rep) 0 o order in
      let (numbered, many) = repeat_lem c sc load id (suc rep) left (o + length order) in
      (
        numbered-append o (o + length order) here _
            (place_numbered c sc load id (pos rep) 0 o order) (ap (λ k. o + k) placed) numbered,
        length-append {0} here _ ∙ ground (arith, placed, count, many),
      )

module _ {F : Type 0} ⦃fl : Float F⦄ where
  -- Every scenario was loaded, and its load, with the campaign's over it, is valid.
  abbrev pub AreReady : Campaign F → (String → Option (Scenario F)) → List String → Type 0
  AreReady c scenarios [] = Unit
  AreReady c scenarios (id ∷ ids) =
      ((sc : Scenario F) × (scenarios id ≡ some sc) × (validate_load (merge sc.load c.load) ≡ []))
      × AreReady c scenarios ids

  -- The cells of the scenarios `ids`, numbered from `o` on.
  abbrev pub IsFullPlan : Campaign F → List String → ℕ → List (Cell F) → Type 0
  IsFullPlan c ids o cells =
      AreNumbered o cells × (length cells ≡ length ids * (pos_part c.reps * length c.arms))

  expand_scenarios_lem :
      (c : Campaign F) (scenarios : String → Option (Scenario F)) (ids : List String) (o : ℕ)
      → AreReady c scenarios ids
      → (cells : List (Cell F)) × (expand_scenarios c scenarios ids o ≡ planned cells)
        × IsFullPlan c ids o cells
  unfolding expand_scenarios
  expand_scenarios_lem c scenarios [] o _ = ([], refl, (refl, omega arith))
  expand_scenarios_lem c scenarios (id ∷ ids) o ((sc, found, valid), ready) =
      let load = merge sc.load c.load in
      let cells = repeat c sc load id 1 (pos_part c.reps) o in
      let (numbered, many) = repeat_lem c sc load id 1 (pos_part c.reps) o in
      let (rest, e, (next_numbered, next_many)) =
        expand_scenarios_lem c scenarios ids (o + length cells) ready in
      (
        cells ++ rest,
        rw (expand_scenarios, found, valid, e) refl,
        (
          numbered-append o (o + length cells) cells rest numbered refl next_numbered,
          length-append {0} cells rest ∙ ground (arith, many, next_many),
        ),
      )

  -- A valid campaign whose scenarios are all loaded and whose merged loads are all valid has a plan. It
  -- has its name and as many cells as scenarios times repetitions times arms, and the cells' ordinals are
  -- their positions, from zero on.
  pub expand-total :
      (print : Print F) (c : Campaign F) (scenarios : String → Option (Scenario F))
      → validate_campaign c ≡ []
      → AreReady c scenarios c.scenarios
      → (p : Plan F) × (expand print c scenarios ≡ planned p)
        × (p.campaign ≡ c.name)
        × IsFullPlan c c.scenarios 0 p.cells
  unfolding expand
  expand-total print c scenarios valid ready =
      let (cells, e, full) = expand_scenarios_lem c scenarios c.scenarios 0 ready in
      let p : Plan F = record {
        campaign = c.name;
        hash = hash_plan print c cells;
        order = c.order;
        cells = cells;
      } in
      (p, rw (expand, valid, e) refl, refl, full)

  -- What remains after two sets of finished cells is what remains after the second set of the plan that
  -- remains after the first.
  remaining-remaining :
      (one two : CellId → Bool) (p : Plan F)
      → remaining (λ id. one id || two id) p ≡ remaining two (record p { cells = remaining one p })
  unfolding remaining
  remaining-remaining one two p = filter_twice one two p.cells

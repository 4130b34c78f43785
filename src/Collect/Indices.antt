-- ===== src/Collect/Indices.antt =====
-- The indices that the loop over the scrapes finds.
use octo_performance.Prelude.{
  ℕ, zero, suc, ◌+◌, ◌<◌, ◌≡◌, refl, sym, ap, ◌∙◌, Bool, true, false, Option, none, some, List, [],
  ◌∷◌, ◌++◌, inl, inr, arith, if◌then◌else◌, length, get_elem?, All, Bool-cases, Option-cases, ltb,
}
use mathlib.Core.Path.{ap₂}
use octo_performance.Prelude.Int.{ℤ, ltb_ℤ}
use octo_performance.Collect.{Scrape, scan}

-- The last index at or before `from`, and the first at or after `to`, of scrapes from index `i` on.
abbrev pub last_index : ℤ → ℕ → List Scrape → Option ℕ
last_index from i [] = none
last_index from i (s ∷ ss) = elim (last_index from (suc i) ss) [
  | some k ↦ some k
  | none ↦ if ltb_ℤ from s.at then none else some i
]

abbrev pub first_index : ℤ → ℕ → List Scrape → Option ℕ
first_index to i [] = none
first_index to i (s ∷ ss) =
    let rest = first_index to (suc i) ss in if ltb_ℤ s.at to then rest else some i

abbrev or_else : Option ℕ → Option ℕ → Option ℕ
or_else (some k) d = some k
or_else none d = d

later_or :
    (b : Bool) (l start : Option ℕ) (i : ℕ)
    → or_else l (if b then start else some i)
      ≡ or_else (elim l [ some k ↦ some k | none ↦ if b then none else some i ]) start
later_or true none start i = refl
later_or false none start i = refl
later_or b (some k) start i = refl

first_or :
    (b : Bool) (end f : Option ℕ) (i : ℕ)
    → or_else (elim end [ some e ↦ some e | none ↦ if b then none else some i ]) f
      ≡ or_else end (if b then f else some i)
first_or true none f i = refl
first_or false none f i = refl
first_or b (some k) f i = refl

or_else-none : (o : Option ℕ) → or_else o none ≡ o
or_else-none none = refl
or_else-none (some k) = refl

-- The loop finds both at once.
scan_lem :
    (from to : ℤ) (i : ℕ) (start end : Option ℕ) (ss : List Scrape)
    → scan from to i start end ss
      ≡ (or_else (last_index from i ss) start, or_else end (first_index to i ss))
unfolding scan
scan_lem from to i start end [] = ap (λ e. (start, e)) (sym (or_else-none end))
scan_lem from to i start end (s ∷ ss) =
    scan_lem from to (suc i) _ _ ss
    ∙ ap₂ (λ a b. (a, b)) (later_or (ltb_ℤ from s.at) (last_index from (suc i) ss) start i)
        (first_or (ltb_ℤ s.at to) end (first_index to (suc i) ss) i)

-- Scrape `x` has the index `k` among scrapes of which the first has the index `i`, and no later one is
-- at or before `from`.
pub record IsLast (from : ℤ) (i : ℕ) (ss : List Scrape) (k : ℕ) (x : Scrape) : Type 0 where
  pub before : List Scrape
  pub after : List Scrape
  pub split : ss ≡ before ++ (x ∷ after)
  pub place : i + length before ≡ k
  pub reached : ltb_ℤ from x.at ≡ false
  pub later : All (λ s. ltb_ℤ from s.at ≡ true) after

pub record IsFirst (to : ℤ) (i : ℕ) (ss : List Scrape) (k : ℕ) (x : Scrape) : Type 0 where
  pub before : List Scrape
  pub after : List Scrape
  pub split : ss ≡ before ++ (x ∷ after)
  pub place : i + length before ≡ k
  pub reached : ltb_ℤ x.at to ≡ false
  pub earlier : All (λ s. ltb_ℤ s.at to ≡ true) before

last_index-none :
    (from : ℤ) (i : ℕ) (ss : List Scrape)
    → last_index from i ss ≡ none
    → All (λ s. ltb_ℤ from s.at ≡ true) ss
last_index-none from i [] h = tt
last_index-none from i (s ∷ ss) h = elim (Option-cases (last_index from (suc i) ss)) [
  | inr (k, e) ↦ absurd (ground (arith, e, h))
  | inl e ↦ elim (Bool-cases (ltb_ℤ from s.at)) [
    | inl b ↦ (b, last_index-none from (suc i) ss e)
    | inr b ↦ absurd (ground (arith, e, b, h))
  ]
]

pub last_index-IsLast :
    (from : ℤ) (i : ℕ) (ss : List Scrape) (k : ℕ)
    → last_index from i ss ≡ some k
    → (x : Scrape) × IsLast from i ss k x
last_index-IsLast from i [] k h = absurd (cc h)
last_index-IsLast from i (s ∷ ss) k h = elim (Option-cases (last_index from (suc i) ss)) [
  | inr (m, e) ↦
      let (x, l) = last_index-IsLast from (suc i) ss m e in
      (
        x,
        record {
          before = s ∷ l.before;
          after = l.after;
          split = ap (λ t. s ∷ t) l.split;
          place = ground (arith, l.place, e, h);
          reached = l.reached;
          later = l.later;
        },
      )
  | inl e ↦ elim (Bool-cases (ltb_ℤ from s.at)) [
    | inl b ↦ absurd (ground (arith, e, b, h))
    | inr b ↦ (
      s,
      record {
        before = [];
        after = ss;
        split = refl;
        place = ground (arith, e, b, h);
        reached = b;
        later = last_index-none from (suc i) ss e;
      },
    )
  ]
]

pub first_index-IsFirst :
    (to : ℤ) (i : ℕ) (ss : List Scrape) (k : ℕ)
    → first_index to i ss ≡ some k
    → (x : Scrape) × IsFirst to i ss k x
first_index-IsFirst to i [] k h = absurd (cc h)
first_index-IsFirst to i (s ∷ ss) k h = elim (Bool-cases (ltb_ℤ s.at to)) [
  | inl b ↦
      let (x, l) = first_index-IsFirst to (suc i) ss k (ground (arith, b, h)) in
      (
        x,
        record {
          before = s ∷ l.before;
          after = l.after;
          split = ap (λ t. s ∷ t) l.split;
          place = omega (arith, l.place);
          reached = l.reached;
          earlier = (b, l.earlier);
        },
      )
  | inr b ↦ (
    s,
    record {
      before = [];
      after = ss;
      split = refl;
      place = ground (arith, b, h);
      reached = b;
      earlier = tt;
    },
  )
]

get_elem?-split :
    (pre : List Scrape) (x : Scrape) (post : List Scrape)
    → get_elem? (pre ++ (x ∷ post)) (length pre) ≡ some x
get_elem?-split [] x post = refl
get_elem?-split (p ∷ pre) x post = get_elem?-split pre x post

none-last_index :
    (from : ℤ) (i : ℕ) (ss : List Scrape)
    → All (λ s. ltb_ℤ from s.at ≡ true) ss
    → last_index from i ss ≡ none
none-last_index from i [] _ = refl
none-last_index from i (s ∷ ss) (h, hs) =
    rw (last_index, none-last_index from (suc i) ss hs) (rw h refl)

split-last_index :
    (from : ℤ) (i : ℕ) (pre : List Scrape) (x : Scrape) (post : List Scrape)
    → ltb_ℤ from x.at ≡ false
    → All (λ s. ltb_ℤ from s.at ≡ true) post
    → last_index from i (pre ++ (x ∷ post)) ≡ some (i + length pre)
split-last_index from i [] x post h hs =
    rw (last_index, none-last_index from (suc i) post hs) (rw h (ap some (omega arith)))
split-last_index from i (p ∷ pre) x post h hs =
    rw (last_index, split-last_index from (suc i) pre x post h hs) (ap some (omega arith))

split-first_index :
    (to : ℤ) (i : ℕ) (pre : List Scrape) (x : Scrape) (post : List Scrape)
    → ltb_ℤ x.at to ≡ false
    → All (λ s. ltb_ℤ s.at to ≡ true) pre
    → first_index to i (pre ++ (x ∷ post)) ≡ some (i + length pre)
split-first_index to i [] x post h _ = rw h (ap some (omega arith))
split-first_index to i (p ∷ pre) x post h (g, gs) =
    rw g (split-first_index to (suc i) pre x post h gs ∙ ap some (omega arith))

place-length : (ss : List Scrape) (k : ℕ) → 0 + length ss ≡ k → length ss ≡ k
place-length ss k h = omega (arith, h)

pub scan-none :
    (from to : ℤ) (samples : List Scrape)
    → scan from to 0 none none samples ≡ (last_index from 0 samples, first_index to 0 samples)
scan-none from to samples =
    scan_lem from to 0 none none samples
    ∙ ap (λ l. (l, first_index to 0 samples)) (or_else-none (last_index from 0 samples))

pub place-IsLast :
    (from : ℤ) (ss : List Scrape) (k : ℕ) (x : Scrape)
    → IsLast from 0 ss k x
    → get_elem? ss k ≡ some x
place-IsLast from ss k x l =
    ap₂ get_elem? l.split (sym (place-length l.before k l.place))
    ∙ get_elem?-split l.before x l.after

pub place-IsFirst :
    (to : ℤ) (ss : List Scrape) (k : ℕ) (x : Scrape) → IsFirst to 0 ss k x → get_elem? ss k ≡ some x
place-IsFirst to ss k x l =
    ap₂ get_elem? l.split (sym (place-length l.before k l.place))
    ∙ get_elem?-split l.before x l.after

pub found-IsLast :
    (from : ℤ) (ss : List Scrape) (k : ℕ) (x : Scrape)
    → IsLast from 0 ss k x
    → last_index from 0 ss ≡ some k
found-IsLast from ss k x l =
    ap (last_index from 0) l.split
    ∙ split-last_index from 0 l.before x l.after l.reached l.later
    ∙ ap some l.place

pub found-IsFirst :
    (to : ℤ) (ss : List Scrape) (k : ℕ) (x : Scrape)
    → IsFirst to 0 ss k x
    → first_index to 0 ss ≡ some k
found-IsFirst to ss k x l =
    ap (first_index to 0) l.split
    ∙ split-first_index to 0 l.before x l.after l.reached l.earlier
    ∙ ap some l.place

pub enough :
    (samples : List Scrape) (k : ℕ) (x : Scrape)
    → 0 < k
    → get_elem? samples k ≡ some x
    → ltb (length samples) 2 ≡ false
enough [] k x p h = absurd (cc h)
enough (s ∷ []) zero x p h = absurd (omega (arith, p))
enough (s ∷ []) (suc k) x p h = absurd (cc h)
enough (s ∷ t ∷ ss) k x p h = ground arith

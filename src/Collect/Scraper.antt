-- ===== src/Collect/Scraper.antt =====
-- `PromScraper` of collect.go. The goroutine's ticks are steps; the mutex makes each one whole, and
-- `Stop` waits for the goroutine, so no tick follows it. A scrape is a time with a body or an error.
use octo_performance.Prelude.{
  ℕ, zero, suc, ◌+◌, ◌≡◌, refl, sym, ap, ◌∙◌, String, Bool, true, false, List, [], ◌∷◌, ◌++◌, ◌⊎◌,
  inl, inr, arith, if◌then◌else◌, length, length-append, ltb, Option, none, some,
}
use mathlib.Core.Path.{ap₂, subst}
use mathlib.Core.List.{append_assoc, append-nil}
use octo_performance.Prelude.Int.{ℤ, pos, leb_ℤ}
use octo_performance.Collect.{Scrape, Scrapes}

abbrev pub Outcome : Type 0
Outcome = ℤ × (String ⊎ String)

pub record PromScraper : Type 0 where
  pub interval : ℤ
  pub samples : List Scrape
  pub errs : List String
  pub running : Bool

unfoldable pub new_scraper : ℤ → PromScraper
new_scraper interval = record {
  interval = if leb_ℤ interval (pos 0) then pos 1_000_000_000 else interval;
  samples = [];
  errs = [];
  running = false;
}

unfoldable pub tick : PromScraper → Outcome → PromScraper
tick p (at, inl e) = if ltb (length p.errs) 16 then record p { errs = p.errs ++ (e ∷ []) } else p
tick p (at, inr body) = record p { samples = p.samples ++ (record { at = at; body = body } ∷ []) }

-- `Start`, with the scrape that it takes at once.
unfoldable pub start : PromScraper → Outcome → Option String × PromScraper
unfolding tick
start p o =
    if p.running
    then (some "collect: scraper already started", p)
    else (none, tick (record p { running = true }) o)

unfoldable pub stop : PromScraper → Scrapes × PromScraper
stop p =
    if p.running
    then (
      record { interval = p.interval; samples = p.samples; errors = p.errs },
      record p { running = false },
    )
    else (record { interval = p.interval; samples = []; errors = [] }, p)

-- Any number of ticks between a start and a stop.
unfoldable pub ticks : PromScraper → List Outcome → PromScraper
unfolding tick
ticks p [] = p
ticks p (o ∷ os) = ticks (tick p o) os

abbrev pub successes : List Outcome → List Scrape
successes [] = []
successes ((at, inl e) ∷ os) = successes os
successes ((at, inr body) ∷ os) = record { at = at; body = body } ∷ successes os

-- The first failures, as many as there is room for.
abbrev pub first_failures : ℕ → List Outcome → List String
first_failures k [] = []
first_failures zero (o ∷ os) = []
first_failures (suc k) ((at, inl e) ∷ os) = e ∷ first_failures k os
first_failures (suc k) ((at, inr body) ∷ os) = first_failures (suc k) os

first_failures_none : (os : List Outcome) → first_failures 0 os ≡ []
first_failures_none [] = refl
first_failures_none (o ∷ os) = refl

first_failures_ok :
    (k : ℕ) (at : ℤ) (body : String) (os : List Outcome)
    → first_failures k ((at, inr body) ∷ os) ≡ first_failures k os
first_failures_ok zero at body os = sym (first_failures_none os)
first_failures_ok (suc k) at body os = refl

abbrev with : PromScraper → List Scrape → List String → PromScraper
with p samples errs = record p { samples = samples; errs = errs }

is_full : (es : List String) → length es + 0 ≡ 16 → ltb (length es) 16 ≡ false
is_full es h = ground (arith, h)

has_room : (es : List String) (k : ℕ) → length es + suc k ≡ 16 → ltb (length es) 16 ≡ true
has_room es k h = ground (arith, h)

-- A scraper with room for `k` errors.
ticks_lem :
    (k : ℕ) (p : PromScraper) (os : List Outcome)
    → length p.errs + k ≡ 16
    → ticks p os ≡ with p (p.samples ++ successes os) (p.errs ++ first_failures k os)
unfolding ticks tick
ticks_lem k p [] h = ap₂ (with p) (sym (append-nil p.samples)) (sym (append-nil p.errs))
ticks_lem zero p ((at, inl e) ∷ os) h =
    ap (λ b. ticks (if b then record p { errs = p.errs ++ (e ∷ []) } else p) os) (is_full p.errs h)
    ∙ ticks_lem zero p os h
    ∙ ap (λ f. with p (p.samples ++ successes os) (p.errs ++ f)) (first_failures_none os)
ticks_lem (suc k) p ((at, inl e) ∷ os) h =
    ap (λ b. ticks (if b then record p { errs = p.errs ++ (e ∷ []) } else p) os)
      (has_room p.errs k h)
    ∙ ticks_lem k (record p { errs = p.errs ++ (e ∷ []) }) os
        (omega (arith, h, length-append p.errs (e ∷ [])))
    ∙ ap (with p (p.samples ++ successes os)) (append_assoc p.errs (e ∷ []) (first_failures k os))
ticks_lem k p ((at, inr body) ∷ os) h =
    ticks_lem k (record p { samples = p.samples ++ (record { at = at; body = body } ∷ []) }) os h
    ∙ ap₂ (with p) (append_assoc p.samples (record { at = at; body = body } ∷ []) (successes os))
        (ap (λ f. p.errs ++ f) (sym (first_failures_ok k at body os)))

-- A scraper that is started once, ticks any number of times and is stopped returns every scrape that
-- succeeded, the one it takes at once included, in the order in which they were taken, and the first
-- sixteen errors. A second start in between is refused and changes nothing, and a second stop returns
-- nothing.
pub start-stop :
    (interval : ℤ) (o : Outcome) (os : List Outcome)
    → let p = ticks (start (new_scraper interval) o).1 os in
      ((start (new_scraper interval) o).0 ≡ none)
      × ((stop p).0 ≡ record {
        interval = (new_scraper interval).interval;
        samples = successes (o ∷ os);
        errors = first_failures 16 (o ∷ os);
      })
      × ((again : Outcome) → start p again ≡ (some "collect: scraper already started", p))
      × ((stop (stop p).1).0
          ≡ record { interval = (new_scraper interval).interval; samples = []; errors = [] })
unfolding start stop new_scraper ticks
start-stop interval o os =
    let begun = record (new_scraper interval) { running = true } in
    let all : ticks begun (o ∷ os) ≡ with begun (successes (o ∷ os)) (first_failures 16 (o ∷ os)) =
      ticks_lem 16 begun (o ∷ os) refl in
    (
      refl,
      ap (λ p. (stop p).0) all,
      λ again.
          subst (λ p. start p again ≡ (some "collect: scraper already started", p)) (sym all) refl,
      ap (λ p. (stop (stop p).1).0) all,
    )

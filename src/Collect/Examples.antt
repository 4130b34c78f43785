-- ===== src/Collect/Examples.antt =====
-- Four scrapes a second apart, and a scraper that fails once.
use octo_performance.Prelude.{◌≡◌, ◌↔◌, refl, List, [], ◌∷◌, inl, inr, none, some}
use octo_performance.Prelude.Int.{ℤ, pos}
use octo_performance.Prelude.Float.{Milli}
use octo_performance.Collect.{Scrape, Bracket, bracketing}
use octo_performance.Collect.Enclosing.{IsEnclosed, bracket_of, bracketing_iff}
use octo_performance.Collect.Scraper.{
  Outcome, new_scraper, start, stop, ticks, successes, first_failures, start-stop,
}

abbrev scrape : ℤ → Scrape
scrape at = record { at = at; body = "" }

abbrev four : List Scrape
four = scrape (pos 0) ∷ scrape (pos 10) ∷ scrape (pos 20) ∷ scrape (pos 30) ∷ []

abbrev middle : Bracket
middle = bracket_of (scrape (pos 10)) (scrape (pos 30)) (pos 12) (pos 25)

bracketing_run : bracketing {F = Milli} four (pos 12) (pos 25) ≡ inr middle
unfolding bracketing
bracketing_run = refl

bracketing_iff_example : (bracketing {F = Milli} four (pos 12) (pos 25) ≡ inr middle) ↔ (
    (x : Scrape) × (y : Scrape) × IsEnclosed four (pos 12) (pos 25) x y
    × (middle ≡ bracket_of x y (pos 12) (pos 25)))
bracketing_iff_example = bracketing_iff four (pos 12) (pos 25) middle

abbrev outcomes : List Outcome
outcomes = (pos 10, inl "refused") ∷ (pos 20, inr "b") ∷ []

start-stop_example :
    let p = ticks (start (new_scraper (pos 0)) (pos 0, inr "a")).1 outcomes in
    ((start (new_scraper (pos 0)) (pos 0, inr "a")).0 ≡ none)
    × ((stop p).0 ≡ record {
      interval = (new_scraper (pos 0)).interval;
      samples = successes ((pos 0, inr "a") ∷ outcomes);
      errors = first_failures 16 ((pos 0, inr "a") ∷ outcomes);
    })
    × ((again : Outcome) → start p again ≡ (some "collect: scraper already started", p))
    × ((stop (stop p).1).0
        ≡ record { interval = (new_scraper (pos 0)).interval; samples = []; errors = [] })
start-stop_example = start-stop (pos 0) (pos 0, inr "a") outcomes

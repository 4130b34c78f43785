-- ===== src/Runner/Clock.antt =====
-- campaign/clock.go: the offset of the subject's clock from the runner's, from the round trip that was
-- the shortest. What each round trip gave is an argument, and so is strconv.ParseInt.
use Prim.Native.String.{len}
use octo_performance.Prelude.{
  ℕ, zero, suc, ◌^◌, ◌-◌, String, Bool, true, false, not, ◌||◌, Option, none, some, List, [], ◌∷◌,
  if◌then◌else◌, ◌==◌,
}
use octo_performance.Prelude.Int.{ℤ, pos, ◌+ℤ◌, ◌-ℤ◌, ◌*ℤ◌, quot, leb_ℤ, eqb_ℤ}
use octo_performance.Prelude.Text.{Message, float, sprintf, plain, cut_at}
use octo_performance.Prelude.Trim.{trim_space}
use octo_performance.Prelude.Float.{Float, ◌-F◌, ◌/F◌, zero_float, of_nat, max_float}
use octo_performance.Gate.Cell.{Clock}

-- One turn of the loop: the context has ended, or a command was sent and something came back.
pub data RoundTrip : Type 0 where
  cancelled : RoundTrip
  failed : RoundTrip
  answered : (sent received exit_code : ℤ) (stdout : String) → RoundTrip

-- The shortest round trip so far, with the offset that it gave, is none before the first.
abbrev pub best_of : Option (ℤ × ℤ) → ℤ
best_of none = pos (2 ^ 63 - 1)
best_of (some (best, offset)) = best

-- What a round trip that was answered adds.
unfoldable pub improve : Option (ℤ × ℤ) → ℤ → ℤ → ℤ → Option (ℤ × ℤ)
improve so_far sent received remote =
    let rtt = received -ℤ sent in
    if leb_ℤ (best_of so_far) rtt then so_far else some (rtt, remote -ℤ (sent +ℤ quot rtt (pos 2)))

module _ (parse_int : String → Option ℤ) where
  abbrev nanoseconds : ℤ → Option String → Option ℤ
  nanoseconds sec none = some (sec *ℤ pos 1_000_000_000)
  nanoseconds sec (some text) =
      if not (len text == 9) then some (sec *ℤ pos 1_000_000_000) else elim (parse_int text) [
        | none ↦ some (sec *ℤ pos 1_000_000_000)
        | some ns ↦ some (sec *ℤ pos 1_000_000_000 +ℤ ns)
      ]

  abbrev seconds_of : String → Option String → Option ℤ
  seconds_of text rest = elim (parse_int text) [ none ↦ none | some sec ↦ nanoseconds sec rest ]

  unfoldable pub parse_epoch : String → Option ℤ
  parse_epoch s = elim (cut_at b'.' s) [
    | none ↦ seconds_of s none
    | some (sec, ns) ↦ seconds_of sec (some ns)
  ]

  -- The loop, for so many turns still.
  unfoldable pub probe : ℕ → Option (ℤ × ℤ) → List RoundTrip → Option (ℤ × ℤ)
  unfolding improve parse_epoch
  probe zero so_far ts = so_far
  probe (suc n) so_far [] = so_far
  probe (suc n) so_far (cancelled ∷ ts) = so_far
  probe (suc n) so_far (failed ∷ ts) = probe n so_far ts
  probe (suc n) so_far (answered sent received exit_code stdout ∷ ts) =
      probe n
        (if not (eqb_ℤ exit_code (pos 0)) then so_far else elim (parse_epoch (trim_space stdout)) [
          | none ↦ so_far
          | some remote ↦ improve so_far sent received remote
        ])
        ts

module _ {F : Type 0} ⦃fl : Float F⦄ where
  abbrev milliseconds : ℤ → F
  milliseconds d = fl.of_int d /F of_nat 1_000_000

  abbrev unmeasured : Clock F
  unmeasured = record {
    measured = false;
    offset_ms = zero_float;
    uncertainty_ms = zero_float;
    drift_ms = zero_float;
  }

  unfoldable pub measure_clock : (String → Option ℤ) → List RoundTrip → Clock F
  unfolding probe
  measure_clock parse_int ts = elim (probe parse_int 7 none ts) [
    | none ↦ unmeasured
    | some (best, offset) ↦ record {
      measured = true;
      offset_ms = milliseconds offset;
      uncertainty_ms = milliseconds (quot best (pos 2));
      drift_ms = zero_float;
    }
  ]

  -- On one machine there is one clock.
  unfoldable pub clock_for : (String → Option ℤ) → Bool → List RoundTrip → Clock F
  unfolding measure_clock
  clock_for parse_int same_host ts =
      if same_host then record unmeasured { measured = true } else measure_clock parse_int ts

  unfoldable pub drift_between : Clock F → Clock F → Clock F
  drift_between start end =
      if not start.measured || not end.measured
      then record start { measured = false }
      else record start {
        drift_ms = end.offset_ms -F start.offset_ms;
        uncertainty_ms = max_float start.uncertainty_ms end.uncertainty_ms;
      }

  unfoldable pub clock_text : Clock F → Message F
  clock_text c =
      if not c.measured
      then plain "unmeasured"
      else sprintf "%+.1fms ±%.1fms, drift %+.1fms"
          (float c.offset_ms ∷ float c.uncertainty_ms ∷ float c.drift_ms ∷ [])

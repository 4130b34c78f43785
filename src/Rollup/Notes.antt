-- ===== src/Rollup/Notes.antt =====
-- result/campaign.go: the rows of the ledger, how often each gate fired, and the warnings that qualify
-- every number of a report.
use octo_performance.Prelude.{
  ℕ, suc, String, Bool, not, ◌&&◌, List, [], ◌∷◌, ◌++◌, map, if◌then◌else◌, length, filter, ltb,
  ◌==◌, is_empty,
}
use octo_performance.Prelude.Int.{ℤ, pos, ltb_ℤ}
use octo_performance.Prelude.Sort.{sort_by}
use octo_performance.Prelude.Text.{Message, int, str, sprintf, plain, str_eq, str_lt, append, join}
use octo_performance.Gate.{Level, valid, suspect, invalid, Finding, excluded, reasons}
use octo_performance.Rollup.{ResultCell}
use octo_performance.Rollup.Names.{CampaignArm, contains, sanitise}

pub record LedgerRow (F : Type 0) : Type 0 where
  pub cell : Message F
  pub scenario : String
  pub arm : String
  pub rep : ℤ
  pub ordinal : ℤ
  pub level : String
  pub excluded : Bool
  pub reasons : List (Message F)
  pub achieved_rps : F
  pub offered_rate : F
  pub client_p95_ms : F
  pub observed_vus : ℤ
  pub alloc_vus : ℤ
  pub dropped : F

pub record GateCalibration (F : Type 0) : Type 0 where
  pub gate : String
  pub fired : ℕ
  pub cells : ℕ
  pub levels : List String
  pub example : Message F

-- `Level.String`
unfoldable pub level_text : Level → String
level_text valid = "valid"
level_text suspect = "suspect"
level_text invalid = "invalid"

-- The cells of a campaign that a warning is about.
pub record WarnInput : Type 0 where
  pub colocated : Bool
  pub observe_only : Bool
  pub order : String
  pub order_reason : String
  pub dev : Bool
  pub arms : List CampaignArm

module _ {F : Type 0} where
  unfoldable pub slug : ResultCell F → Message F
  unfolding sanitise
  slug c = sprintf "%s__%s__rep%d" (str c.scenario ∷ str (sanitise c.arm) ∷ int c.rep ∷ [])

  unfoldable pub ledger_row : ResultCell F → LedgerRow F
  unfolding slug level_text
  ledger_row c = record {
    cell = slug c;
    scenario = c.scenario;
    arm = c.arm;
    rep = c.rep;
    ordinal = c.ordinal;
    level = level_text c.verdict.level;
    excluded = excluded c.verdict;
    reasons = reasons c.verdict;
    achieved_rps = c.headline.achieved_rps;
    offered_rate = c.headline.offered_rate;
    client_p95_ms = c.headline.client_p95_ms;
    observed_vus = c.headline.observed_max_vus;
    alloc_vus = c.headline.pre_allocated_vus;
    dropped = c.headline.dropped;
  }

  unfoldable pub ledger : List (ResultCell F) → List (LedgerRow F)
  unfolding ledger_row
  ledger cells = sort_by (λ a b. ltb_ℤ a.ordinal b.ordinal) (map ledger_row cells)

  -- What one finding adds to the entry of its gate; `first` says that its cell has not counted yet.
  abbrev fire : Bool → Finding F → GateCalibration F → GateCalibration F
  fire first f g = record g {
    fired = if first then suc g.fired else g.fired;
    levels =
        if contains g.levels (level_text f.level)
        then g.levels
        else g.levels ++ (level_text f.level ∷ []);
  }

  -- The entry is looked up by the gate, and added where there is none.
  unfoldable pub fire_at : Bool → Finding F → List (GateCalibration F) → List (GateCalibration F)
  unfolding contains level_text
  fire_at first f [] =
      fire first f
        (record { gate = f.gate; fired = 0; cells = 0; levels = []; example = f.summary })
      ∷ []
  fire_at first f (g ∷ gs) =
      let rest = fire_at first f gs in
      if str_eq g.gate f.gate then fire first f g ∷ gs else g ∷ rest

  -- The loop over the findings of a cell.
  unfoldable pub fire_all :
      List String → List (Finding F) → List (GateCalibration F) → List (GateCalibration F)
  unfolding fire_at contains
  fire_all seen [] by_gate = by_gate
  fire_all seen (f ∷ fs) by_gate =
      fire_all (if contains seen f.gate then seen else f.gate ∷ seen) fs
        (fire_at (not (contains seen f.gate)) f by_gate)

  unfoldable pub fire_cells :
      List (GateCalibration F) → List (ResultCell F) → List (GateCalibration F)
  unfolding fire_all
  fire_cells by_gate [] = by_gate
  fire_cells by_gate (c ∷ cs) = fire_cells (fire_all [] c.verdict.findings by_gate) cs

  unfoldable pub calibration : List (ResultCell F) → List (GateCalibration F)
  unfolding fire_cells
  calibration cells =
      sort_by (λ a b. if a.fired == b.fired then str_lt a.gate b.gate else ltb b.fired a.fired)
        (map {A = GateCalibration F} (λ g. record g { cells = length cells }) (fire_cells [] cells))

  abbrev warn_if : Bool → Message F → List (Message F)
  warn_if b m = if b then m ∷ [] else []

  unfoldable pub warnings_for : WarnInput → List (ResultCell F) → List (Message F)
  warnings_for c cells =
      let without = map (λ a. a.name) (filter (λ a. not a.metrics) c.arms) in
      let non_steady = length (filter (λ cell. not cell.window_ok) cells) in
      warn_if c.colocated (
        plain
          "The load generator shared a host with the subject. That is a feedback loop rather than a constant tax — more virtual users, less CPU for the subject, higher latency, more virtual users — and it is what made every result in the previous lab bimodal. Treat these numbers as a check on the harness, not on the runtime.")
      ++ (warn_if c.observe_only (
            plain
              "Gates ran in observe mode: every finding was recorded but none escalated past suspect, so nothing here was excluded on a threshold that has not yet been calibrated.")
          ++ (warn_if (str_eq c.order "blocked") (
                plain (
                  append
                    "Cells ran in blocked order, which confounds every delta with time in session and chassis temperature. Stated reason: "
                    c.order_reason))
              ++ (warn_if c.dev (
                    plain
                      "Produced by a development build of the harness. Usable for deciding whether a change worked; not publishable.")
                  ++ (warn_if (not (is_empty without) && ltb (length without) (length c.arms)) (
                        plain (
                          append "Arms " (
                            append (join ", " without)
                              " serve no metrics, so no server-side number exists for them and no server-side comparison was made against them.")))
                      ++ warn_if (ltb 0 non_steady) (
                          sprintf
                            "%d of %d cells had no interval flat enough to measure, so their numbers describe the whole load pass rather than a steady window."
                            (int (pos non_steady) ∷ int (pos (length cells)) ∷ []))))))

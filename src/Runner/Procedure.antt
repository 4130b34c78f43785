-- ===== src/Runner/Procedure.antt =====
-- campaign/campaign.go: `RunCell`, the order of its effects. What each effect answers is given by a
-- `World`; the numbers that are worked out between the effects are in Windowing, Numbers and Gathered.
use octo_performance.Prelude.{Bool, true, false, List, [], ◌∷◌, ◌++◌, if◌then◌else◌}

pub data Effect : Type 0 where
  make_dir build_payload render_config resolve_binary probe_artifact write_help : Effect
  check_ports open_log start_subject write_argv await_ready identify read_clock : Effect
  start_subject_sampler start_runner_sampler start_scraper warm_up measure : Effect
  stop_scraper stop_subject_sampler stop_runner_sampler stop_subject : Effect
  choose_window fill_numbers judge write_artifacts cool_down : Effect

-- Whether each effect succeeds. `samples_subject` says that the subject is sampled and that its sampler
-- starts, and so the two behind it; `warms` and `cools` are what the cell and the campaign ask for.
pub record World : Type 0 where
  pub dir_made : Bool
  pub payload_built : Bool
  pub config_rendered : Bool
  pub binary_resolved : Bool
  pub artifact_probed : Bool
  pub help_written : Bool
  pub ports_free : Bool
  pub log_opened : Bool
  pub subject_started : Bool
  pub argv_written : Bool
  pub subject_ready : Bool
  pub identified : Bool
  pub samples_subject : Bool
  pub samples_runner : Bool
  pub scrapes : Bool
  pub warms : Bool
  pub warmed : Bool
  pub measured : Bool
  pub subject_stopped : Bool
  pub artifacts_written : Bool
  pub cools : Bool
  pub cooled : Bool

-- An effect and whether it succeeded.
abbrev pub Trace : Type 0
Trace = List (Effect × Bool)

pub data Outcome : Type 0 where
  no_cell : Outcome
  cell : Outcome
  cell_and_error : Outcome

-- Straight-line code in which each failure returns: the effects up to the first one that fails.
unfoldable pub run_steps : Trace → Trace × Bool
run_steps [] = ([], true)
run_steps ((e, ok) ∷ ss) =
    let rest = run_steps ss in if ok then ((e, true) ∷ rest.0, rest.1) else ((e, false) ∷ [], false)

-- The effects whose failures are logged and passed over.
abbrev optional : Bool → Effect → Trace
optional wanted e = if wanted then (e, true) ∷ [] else []

-- Steps 1 to 5, up to the start of the subject.
unfoldable pub preparing : World → Trace
preparing w =
    (make_dir, w.dir_made)
    ∷ (build_payload, w.payload_built)
    ∷ (render_config, w.config_rendered)
    ∷ (resolve_binary, w.binary_resolved)
    ∷ (probe_artifact, w.artifact_probed)
    ∷ (write_help, w.help_written)
    ∷ (check_ports, w.ports_free)
    ∷ (open_log, w.log_opened)
    ∷ (start_subject, w.subject_started)
    ∷ []

-- The rest of step 5, for which a failure returns before the stop of the subject is deferred.
unfoldable pub recording : World → Trace
recording w = (write_argv, w.argv_written) ∷ []

-- Step 6.
unfoldable pub awaiting : World → Trace
awaiting w = (await_ready, w.subject_ready) ∷ []

-- Steps 7 and 8.
unfoldable pub observing : World → Trace
observing w =
    (identify, w.identified)
    ∷ (read_clock, true)
    ∷ (optional w.samples_subject start_subject_sampler
        ++ (optional w.samples_runner start_runner_sampler ++ optional w.scrapes start_scraper))

-- Steps 9 and 10.
unfoldable pub offering : World → Trace
offering w = (if w.warms then (warm_up, w.warmed) ∷ [] else []) ++ ((measure, w.measured) ∷ [])

-- Step 11.
unfoldable pub closing : World → Trace
closing w =
    optional w.scrapes stop_scraper
    ++ (optional w.samples_subject stop_subject_sampler
        ++ (optional w.samples_runner stop_runner_sampler
            ++ ((read_clock, true) ∷ (stop_subject, w.subject_stopped) ∷ [])))

-- Steps 12 to 14.
abbrev pub deciding : Trace
deciding = (choose_window, true) ∷ (fill_numbers, true) ∷ (judge, true) ∷ []

-- Step 16.
abbrev cooling : World → Trace × Outcome
cooling w =
    if w.cools
    then ((cool_down, w.cooled) ∷ [], if w.cooled then cell else cell_and_error)
    else ([], cell)

-- Steps 15 and 16.
unfoldable pub finishing : World → Trace × Outcome
finishing w =
    if w.artifacts_written
    then ((write_artifacts, true) ∷ (cooling w).0, (cooling w).1)
    else ((write_artifacts, false) ∷ [], no_cell)

-- The deferred stop of a subject that is not stopped yet.
abbrev pub deferred : World → Trace
deferred w = (stop_subject, w.subject_stopped) ∷ []

-- From the measured pass on, with the load that was offered.
unfoldable pub after_load : World → Trace × Bool → Trace × Outcome
unfolding closing finishing
after_load w (offered, ok) =
    if ok
    then (offered ++ (closing w ++ (deciding ++ (finishing w).0)), (finishing w).1)
    else (offered ++ deferred w, no_cell)

-- From the wait for the subject on, when its stop is deferred.
unfoldable pub after_record : World → Trace × Bool → Trace × Outcome
unfolding after_load observing offering run_steps
after_record w (awaited, ok) =
    let rest = after_load w (run_steps (offering w)) in
    if ok then (awaited ++ (observing w ++ rest.0), rest.1) else (awaited ++ deferred w, no_cell)

-- From the subject's start on.
unfoldable pub after_start : World → Trace × Bool → Trace × Outcome
unfolding after_record awaiting run_steps
after_start w (recorded, ok) =
    let rest = after_record w (run_steps (awaiting w)) in
    if ok then (recorded ++ rest.0, rest.1) else (recorded, no_cell)

abbrev pub from_preparing : World → Trace × Bool → Trace × Outcome
from_preparing w (prepared, ok) =
    let rest = after_start w (run_steps (recording w)) in
    if ok then (prepared ++ rest.0, rest.1) else (prepared, no_cell)

unfoldable pub run_cell : World → Trace × Outcome
unfolding preparing recording after_start
run_cell w = from_preparing w (run_steps (preparing w))

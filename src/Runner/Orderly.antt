-- ===== src/Runner/Orderly.antt =====
-- The order that every run of the procedure keeps.
use octo_performance.Prelude.{
  Bool, true, false, not, Option, none, some, [], ◌∷◌, ◌++◌, ◌≡◌, refl, sym, ap, ◌∙◌, arith,
  if◌then◌else◌, ◌>>=◌, Bool-cases, inl, inr,
}
use octo_performance.Runner.Procedure.{
  Effect, World, Trace, Outcome, make_dir, build_payload, render_config, resolve_binary,
  probe_artifact, write_help, check_ports, open_log, start_subject, write_argv, await_ready,
  identify, read_clock, start_subject_sampler, start_runner_sampler, start_scraper, warm_up,
  measure, stop_scraper, stop_subject_sampler, stop_runner_sampler, stop_subject, choose_window,
  fill_numbers, judge, write_artifacts, cool_down, run_steps, preparing, recording, awaiting,
  observing, offering, closing, deferred, deciding, from_preparing, no_cell, cell, cell_and_error,
  finishing, after_load, after_start, after_record, run_cell,
}

-- Where a cell stands: before the subject runs, while it runs, when it answers, when the load was
-- measured, when it was stopped (after a measured pass or without one), and when it was judged.
pub data Status : Type 0 where
  idle running answering loaded gone stopped judged written : Status

-- The rules. The subject is started once and its stop is asked for once; load is offered to a subject that answers;
-- the machines are sampled only while it answers; a window is chosen and the cell is judged only after
-- a measured pass, and with the subject stopped; only a judged cell is written.
abbrev pub rule : Status → Effect × Bool → Option Status
rule idle (start_subject, true) = some running
rule idle (start_subject, false) = some idle
rule idle (make_dir, ok) = some idle
rule idle (build_payload, ok) = some idle
rule idle (render_config, ok) = some idle
rule idle (resolve_binary, ok) = some idle
rule idle (probe_artifact, ok) = some idle
rule idle (write_help, ok) = some idle
rule idle (check_ports, ok) = some idle
rule idle (open_log, ok) = some idle
rule running (write_argv, ok) = some running
rule running (await_ready, true) = some answering
rule running (await_ready, false) = some running
rule running (stop_subject, ok) = some gone
rule answering (identify, ok) = some answering
rule answering (read_clock, ok) = some answering
rule answering (start_subject_sampler, ok) = some answering
rule answering (start_runner_sampler, ok) = some answering
rule answering (start_scraper, ok) = some answering
rule answering (warm_up, ok) = some answering
rule answering (measure, true) = some loaded
rule answering (measure, false) = some answering
rule answering (stop_subject, ok) = some gone
rule loaded (stop_scraper, ok) = some loaded
rule loaded (stop_subject_sampler, ok) = some loaded
rule loaded (stop_runner_sampler, ok) = some loaded
rule loaded (read_clock, ok) = some loaded
rule loaded (stop_subject, ok) = some stopped
rule stopped (choose_window, ok) = some stopped
rule stopped (fill_numbers, ok) = some stopped
rule stopped (judge, ok) = some judged
rule judged (write_artifacts, ok) = some (if ok then written else judged)
rule written (cool_down, ok) = some written
rule _ _ = none

abbrev pub follow : Status → Trace → Option Status
follow s [] = some s
follow s (e ∷ es) = rule s e >>= λ u. follow u es

bind_assoc :
    (o : Option Status) (f g : Status → Option Status) → ((o >>= f) >>= g) ≡ (o >>= λ u. f u >>= g)
bind_assoc none f g = refl
bind_assoc (some u) f g = refl

bind_ap :
    (o : Option Status) {f g : Status → Option Status}
    → ((u : Status) → f u ≡ g u)
    → (o >>= f) ≡ (o >>= g)
bind_ap none h = refl
bind_ap (some u) h = h u

follow-append :
    (s : Status) (xs ys : Trace) → follow s (xs ++ ys) ≡ (follow s xs >>= λ u. follow u ys)
follow-append s [] ys = refl
follow-append s (e ∷ xs) ys =
    bind_ap (rule s e) (λ u. follow-append u xs ys)
    ∙ sym (bind_assoc (rule s e) (λ u. follow u xs) (λ u. follow u ys))

then_follow :
    (s : Status) (xs ys : Trace) {t : Status} {u : Option Status}
    → follow s xs ≡ some t
    → follow t ys ≡ u
    → follow s (xs ++ ys) ≡ u
then_follow s xs ys first next =
    follow-append s xs ys ∙ ap (λ o. o >>= λ v. follow v ys) first ∙ next

preparing_lem :
    (w : World)
    → follow idle (run_steps (preparing w)).0
      ≡ some (if (run_steps (preparing w)).1 then running else idle)
unfolding run_steps preparing
preparing_lem w = ground arith

recording_lem : (w : World) → follow running (run_steps (recording w)).0 ≡ some running
unfolding run_steps recording
recording_lem w = ground arith

recording_done : (w : World) → (run_steps (recording w)).1 ≡ w.argv_written
unfolding run_steps recording
recording_done w = ground arith

awaiting_lem :
    (w : World)
    → follow running (run_steps (awaiting w)).0
      ≡ some (if (run_steps (awaiting w)).1 then answering else running)
unfolding run_steps awaiting
awaiting_lem w = ground arith

observing_lem : (w : World) → follow answering (observing w) ≡ some answering
unfolding observing
observing_lem w = ground arith

offering_lem :
    (w : World)
    → follow answering (run_steps (offering w)).0
      ≡ some (if (run_steps (offering w)).1 then loaded else answering)
unfolding run_steps offering
offering_lem w = ground arith

closing_lem : (w : World) → follow loaded (closing w) ≡ some stopped
unfolding closing
closing_lem w = ground arith

-- The last status that goes with what the procedure returns: without a cell, nothing was started, the
-- subject was stopped without a measured pass, or the cell was judged and could not be written; with a
-- cell, it was written. The subject is left running only if its arguments could not be recorded.
abbrev pub agrees : World → Status → Outcome → Bool
agrees w idle no_cell = true
agrees w running no_cell = not w.argv_written
agrees w gone no_cell = true
agrees w judged no_cell = true
agrees w written cell = true
agrees w written cell_and_error = true
agrees w _ _ = false

-- The effects keep to the rules from this status on, and end where the outcome says.
abbrev pub Ends : World → Status → Trace × Outcome → Type 0
Ends w s (t, o) = (e : Status) × (follow s t ≡ some e) × (agrees w e o ≡ true)

first_then :
    (w : World) (s : Status) (xs : Trace) {t : Status} (r : Trace × Outcome)
    → follow s xs ≡ some t
    → Ends w t r
    → Ends w s (xs ++ r.0, r.1)
first_then w s xs r first (e, next, fits) = (e, then_follow s xs r.0 first next, fits)

finishing-Ends : (w : World) → Ends w judged (finishing w)
unfolding finishing
finishing-Ends w = elim (Bool-cases w.artifacts_written) [
  | inl e ↦ elim (Bool-cases w.cools) [
    | inl c ↦ elim (Bool-cases w.cooled) [
      | inl d ↦ (written, rw (e, c) refl, rw (e, c, d) refl)
      | inr d ↦ (written, rw (e, c) refl, rw (e, c, d) refl)
    ]
    | inr c ↦ (written, rw (e, c) refl, rw (e, c) refl)
  ]
  | inr e ↦ (judged, rw e refl, rw e refl)
]

deferred_lem : (w : World) → follow running (deferred w) ≡ some gone
deferred_lem w = refl

closed-Ends :
    (w : World) → Ends w loaded (closing w ++ (deciding ++ (finishing w).0), (finishing w).1)
closed-Ends w =
    first_then w loaded (closing w) (deciding ++ (finishing w).0, (finishing w).1) (closing_lem w)
      (first_then w stopped deciding (finishing w) refl (finishing-Ends w))

after_load-Ends :
    (w : World) (r : Trace × Bool)
    → follow answering r.0 ≡ some (if r.1 then loaded else answering)
    → Ends w answering (after_load w r)
unfolding after_load
after_load-Ends w (offered, true) h = first_then w answering offered _ h (closed-Ends w)
after_load-Ends w (offered, false) h = (gone, then_follow answering offered _ h refl, refl)

after_record-Ends :
    (w : World) (r : Trace × Bool)
    → follow running r.0 ≡ some (if r.1 then answering else running)
    → Ends w running (after_record w r)
unfolding after_record
after_record-Ends w (awaited, true) h =
    let rest = after_load w (run_steps (offering w)) in
    first_then w running awaited (observing w ++ rest.0, rest.1) h
      (first_then w answering (observing w) _ (observing_lem w)
        (after_load-Ends w (run_steps (offering w)) (offering_lem w)))
after_record-Ends w (awaited, false) h = (gone, then_follow running awaited _ h refl, refl)

after_start-Ends :
    (w : World) (r : Trace × Bool)
    → follow running r.0 ≡ some running
    → r.1 ≡ w.argv_written
    → Ends w running (after_start w r)
unfolding after_start
after_start-Ends w (recorded, true) h k =
    first_then w running recorded _ h
      (after_record-Ends w (run_steps (awaiting w)) (awaiting_lem w))
after_start-Ends w (recorded, false) h k = (running, h, rw (← k) refl)

from_preparing-Ends :
    (w : World) (r : Trace × Bool)
    → follow idle r.0 ≡ some (if r.1 then running else idle)
    → Ends w idle (from_preparing w r)
from_preparing-Ends w (prepared, true) h =
    first_then w idle prepared _ h
      (after_start-Ends w (run_steps (recording w)) (recording_lem w) (recording_done w))
from_preparing-Ends w (prepared, false) h = (idle, h, refl)

-- For whatever succeeds and fails, the effects of a cell keep to the rules, and where they end fits what
-- is returned: the stop of a subject that was started is asked for exactly once, unless the arguments
-- that it ran with could not be recorded; load is offered only to a subject that answered; a cell is
-- judged only after a measured pass and with the subject stopped; and a cell is returned only when it
-- was written.
pub run_cell-Ends : (w : World) → Ends w idle (run_cell w)
unfolding run_cell
run_cell-Ends w = from_preparing-Ends w (run_steps (preparing w)) (preparing_lem w)

from_preparing-leaks :
    (w : World) (r : Trace × Bool)
    → follow idle r.0 ≡ some (if r.1 then running else idle)
    → r.1 ≡ true
    → w.argv_written ≡ false
    → (follow idle (from_preparing w r).0 ≡ some running) × ((from_preparing w r).1 ≡ no_cell)
unfolding after_start run_steps recording
from_preparing-leaks w (prepared, true) h p k =
    rw k (then_follow idle prepared ((write_argv, false) ∷ []) h refl, refl)
from_preparing-leaks w (prepared, false) h p k = absurd (cc p)

-- If the subject was started and the arguments that it ran with cannot be recorded, the procedure
-- returns no cell and leaves the subject running.
pub run_cell-leaks :
    (w : World)
    → (run_steps (preparing w)).1 ≡ true
    → w.argv_written ≡ false
    → (follow idle (run_cell w).0 ≡ some running) × ((run_cell w).1 ≡ no_cell)
unfolding run_cell
run_cell-leaks w = from_preparing-leaks w (run_steps (preparing w)) (preparing_lem w)

-- What is returned with a cell that was written.
abbrev pub returned : World → Outcome
returned w = if w.cools then if w.cooled then cell else cell_and_error else cell

after_load-returns :
    (w : World) (r : Trace × Bool)
    → r.1 ≡ true
    → w.artifacts_written ≡ true
    → (after_load w r).1 ≡ returned w
unfolding after_load finishing
after_load-returns w (offered, true) o a = ground (arith, a)
after_load-returns w (offered, false) o a = absurd (cc o)

after_record-returns :
    (w : World) (r : Trace × Bool)
    → r.1 ≡ true
    → (after_record w r).1 ≡ (after_load w (run_steps (offering w))).1
unfolding after_record
after_record-returns w (awaited, true) o = refl
after_record-returns w (awaited, false) o = absurd (cc o)

after_start-returns :
    (w : World) (r : Trace × Bool)
    → r.1 ≡ true
    → (after_start w r).1 ≡ (after_record w (run_steps (awaiting w))).1
unfolding after_start
after_start-returns w (recorded, true) o = refl
after_start-returns w (recorded, false) o = absurd (cc o)

from_preparing-returns :
    (w : World) (r : Trace × Bool)
    → r.1 ≡ true
    → (from_preparing w r).1 ≡ (after_start w (run_steps (recording w))).1
from_preparing-returns w (prepared, true) o = refl
from_preparing-returns w (prepared, false) o = absurd (cc o)

awaiting_done : (w : World) → (run_steps (awaiting w)).1 ≡ w.subject_ready
unfolding run_steps awaiting
awaiting_done w = ground arith

agrees-written :
    (w : World) (e : Status) (o : Outcome) → agrees w e o ≡ true → o ≡ returned w → e ≡ written
agrees-written w e o h n = ground (arith, h, n)

-- If every effect succeeds that the procedure cannot do without, the cell is written and returned, with
-- an error if the cool-down was cut short.
pub run_cell-written :
    (w : World)
    → (run_steps (preparing w)).1 ≡ true
    → w.argv_written ≡ true
    → w.subject_ready ≡ true
    → (run_steps (offering w)).1 ≡ true
    → w.artifacts_written ≡ true
    → (follow idle (run_cell w).0 ≡ some written) × ((run_cell w).1 ≡ returned w)
unfolding run_cell
run_cell-written w p k r o a =
    let out : (run_cell w).1 ≡ returned w =
      from_preparing-returns w (run_steps (preparing w)) p
      ∙ after_start-returns w (run_steps (recording w)) (recording_done w ∙ k)
      ∙ after_record-returns w (run_steps (awaiting w)) (awaiting_done w ∙ r)
      ∙ after_load-returns w (run_steps (offering w)) o a in
    let (e, ends, fits) = run_cell-Ends w in
    (ends ∙ ap some (agrees-written w e (run_cell w).1 fits out), out)

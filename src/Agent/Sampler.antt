-- ===== src/Agent/Sampler.antt =====
-- `Sampler` of sample.go. The goroutine's ticks are steps; the mutex makes each one whole, and `Stop`
-- waits for the goroutine. What the source reads at a step is an argument of the step.
use octo_performance.Prelude.{
  ◌≤◌, ◌<◌, ◌≡◌, refl, String, Bool, true, false, List, [], ◌∷◌, ◌++◌, ◌⊎◌, inl, inr, arith,
  if◌then◌else◌, length, length-append, ltb, Bool-cases, Option, none, some,
}
use mathlib.Core.Path.{subst}
use octo_performance.Prelude.Int.{ℤ, pos, leb_ℤ, ◌+ℤ◌, quot, ltb_ℤ}
use octo_performance.Prelude.Text.{append}
use octo_performance.Agent.{Fidelity, MachineSample, Static, Collected}

-- The source's name and fidelity stand for the source; `cancel` says whether `s.cancel` is set.
pub record Sampler (F : Type 0) : Type 0 where
  pub source : String
  pub fidelity : Fidelity
  pub pid : ℤ
  pub interval : ℤ
  pub samples : List (MachineSample F)
  pub errs : List String
  pub missed : ℤ
  pub static : Static
  pub cancel : Bool
  pub running : Bool

abbrev no_static : Static
no_static = record {
  hostname = "";
  cores = pos 0;
  page_size = pos 0;
  clock_tick = pos 0;
  boot_time = pos 0;
  cpu_model = "";
  kernel = "";
}

room : (es : List String) (x : String) → ltb (length es) 16 ≡ true → length (es ++ (x ∷ [])) ≤ 16
room es x b = omega (arith, length-append es (x ∷ []), below es b)
  where
    below : (ys : List String) → ltb (length ys) 16 ≡ true → length ys < 16
    below ys h = ground (arith, h)

module _ {F : Type 0} where
  unfoldable pub new_sampler : String → Fidelity → ℤ → ℤ → Sampler F
  new_sampler source fidelity pid interval = record {
    source = source;
    fidelity = fidelity;
    pid = pid;
    interval = if leb_ℤ interval (pos 0) then pos 1_000_000_000 else interval;
    samples = [];
    errs = [];
    missed = pos 0;
    static = no_static;
    cancel = false;
    running = false;
  }

  unfoldable pub tick : Sampler F → String ⊎ MachineSample F → Sampler F
  tick s (inl e) = if ltb (length s.errs) 16 then record s { errs = s.errs ++ (e ∷ []) } else s
  tick s (inr m) = record s { samples = s.samples ++ (m ∷ []) }

  -- One turn of the loop, so many nanoseconds after the ticker fired.
  unfoldable pub turn : Sampler F → ℤ → String ⊎ MachineSample F → Sampler F
  unfolding tick
  turn s late r =
      tick
        (if ltb_ℤ (quot s.interval (pos 2)) late
          then record s { missed = s.missed +ℤ pos 1 }
          else s)
        r

  -- What `Start` does once `running` is set.
  unfoldable pub begin :
      Sampler F → String ⊎ Static → String ⊎ MachineSample F → Option String × Sampler F
  unfolding tick
  begin s (inl e) r = (some (append "agent: reading machine facts: " e), s)
  begin s (inr st) r = (none, tick (record s { static = st; cancel = true }) r)

  -- `Start`, with the machine's facts and the first reading.
  unfoldable pub start :
      Sampler F → String ⊎ Static → String ⊎ MachineSample F → Option String × Sampler F
  unfolding begin
  start s facts r =
      if s.running
      then (some "agent: sampler already started", s)
      else begin (record s { running = true }) facts r

  abbrev nothing_collected : Sampler F → Collected F
  nothing_collected s = record {
    source = s.source;
    fidelity = s.fidelity;
    static = no_static;
    interval = "";
    pid = s.pid;
    samples = [];
    errors = [];
    missed = pos 0;
  }

  -- `Stop`; none is the panic of a call of a nil `s.cancel`. `duration_text` is Duration.String.
  unfoldable pub stop : (ℤ → String) → Sampler F → Option (Collected F × Sampler F)
  stop duration_text s =
      if s.running
      then if s.cancel
        then some (
          record {
            source = s.source;
            fidelity = s.fidelity;
            static = s.static;
            interval = duration_text s.interval;
            pid = s.pid;
            samples = s.samples;
            errors = s.errs;
            missed = s.missed;
          },
          record s { running = false },
        )
        else none
      else some (nothing_collected s, s)

  -- What can happen to a sampler. The loop turns only while it runs and its context lives.
  pub data Step (duration_text : ℤ → String) (s u : Sampler F) : Type 0 where
    started :
        (facts : String ⊎ Static) (r : String ⊎ MachineSample F)
        → u ≡ (start s facts r).1
        → Step duration_text s u
    turned :
        (late : ℤ) (r : String ⊎ MachineSample F)
        → s.cancel ≡ true
        → u ≡ turn s late r
        → Step duration_text s u
    halted : (c : Collected F) → stop duration_text s ≡ some (c, u) → Step duration_text s u

  pub data Reach (duration_text : ℤ → String) (s : Sampler F) : Sampler F → Type 0 where
    here : Reach duration_text s s
    next :
        {t u : Sampler F}
        → Reach duration_text s t
        → Step duration_text t u
        → Reach duration_text s u

  -- At most sixteen errors are kept, nothing is collected before the loop can be cancelled, and what
  -- is not running is not cancelled twice.
  pub record IsSound (s : Sampler F) : Type 0 where
    pub bounded : length s.errs ≤ 16
    pub begun : s.cancel ≡ false → (s.samples ≡ []) × (s.errs ≡ [])

  tick-IsSound :
      (s : Sampler F) (r : String ⊎ MachineSample F)
      → s.cancel ≡ true
      → IsSound s
      → IsSound (tick s r)
  unfolding tick
  tick-IsSound s (inr m) c h = record { bounded = h.bounded; begun = λ e. absurd (cc (c, e)) }
  tick-IsSound s (inl e) c h = elim (Bool-cases (ltb (length s.errs) 16)) [
    | inl b ↦ rw (tick, b) (record { bounded = room s.errs e b; begun = λ f. absurd (cc (c, f)) })
    | inr b ↦ rw (tick, b) h
  ]

  turn-IsSound :
      (s : Sampler F) (late : ℤ) (r : String ⊎ MachineSample F)
      → s.cancel ≡ true
      → IsSound s
      → IsSound (turn s late r)
  unfolding turn
  turn-IsSound s late r c h = elim (Bool-cases (ltb_ℤ (quot s.interval (pos 2)) late)) [
    | inl b ↦
        rw (turn, b)
          (tick-IsSound (record s { missed = s.missed +ℤ pos 1 }) r c
            (record { bounded = h.bounded; begun = h.begun }))
    | inr b ↦ rw (turn, b) (tick-IsSound s r c h)
  ]

  begin-IsSound :
      (s : Sampler F) (facts : String ⊎ Static) (r : String ⊎ MachineSample F)
      → IsSound s
      → IsSound (begin s facts r).1
  unfolding begin
  begin-IsSound s (inl e) r h = h
  begin-IsSound s (inr st) r h =
      tick-IsSound (record s { static = st; cancel = true }) r refl
        (record { bounded = h.bounded; begun = λ e. absurd (cc e) })

  start-IsSound :
      (s : Sampler F) (facts : String ⊎ Static) (r : String ⊎ MachineSample F)
      → IsSound s
      → IsSound (start s facts r).1
  unfolding start
  start-IsSound s facts r h = elim (Bool-cases s.running) [
    | inl b ↦ rw (start, b) (record { bounded = h.bounded; begun = h.begun })
    | inr b ↦
        rw (start, b)
          (begin-IsSound (record s { running = true }) facts r
            (record { bounded = h.bounded; begun = h.begun }))
  ]

  some_state :
      {x y : Collected F × Sampler F}
      → ◌≡◌ {A = Option (Collected F × Sampler F)} (some x) (some y)
      → x.1 ≡ y.1
  some_state e = ground (arith, e)

  stop-IsSound :
      (duration_text : ℤ → String) (s u : Sampler F) (c : Collected F)
      → stop duration_text s ≡ some (c, u)
      → IsSound s
      → IsSound u
  unfolding stop
  stop-IsSound duration_text s u c e h = elim (Bool-cases s.running) [
    | inr b ↦
        subst IsSound (some_state (rw (stop, b) at e))
          (record { bounded = h.bounded; begun = h.begun })
    | inl b ↦ elim (Bool-cases s.cancel) [
      | inr k ↦ absurd (cc (rw (stop, b, k) at e))
      | inl k ↦
          subst IsSound (some_state (rw (stop, b, k) at e))
            (record { bounded = h.bounded; begun = λ f. absurd (cc (k, f)) })
    ]
  ]

  Step-IsSound :
      {duration_text : ℤ → String} {s u : Sampler F}
      → Step duration_text s u
      → IsSound s
      → IsSound u
  Step-IsSound {s = s} (started facts r e) h = rw e (start-IsSound s facts r h)
  Step-IsSound {s = s} (turned late r c e) h = rw e (turn-IsSound s late r c h)
  Step-IsSound {duration_text} {s} {u} (halted c e) h = stop-IsSound duration_text s u c e h

  -- Whatever happens to a new sampler, in whatever order, at most sixteen errors are kept, and nothing
  -- is collected before a start has read the machine's facts.
  pub Reach-IsSound :
      {duration_text : ℤ → String} (source : String) (fidelity : Fidelity) (pid interval : ℤ)
      {u : Sampler F}
      → Reach duration_text (new_sampler source fidelity pid interval) u
      → IsSound u
  Reach-IsSound source fidelity pid interval here =
      unfold new_sampler in record { bounded = omega arith; begun = λ e. (refl, refl) }
  Reach-IsSound source fidelity pid interval (next r st) =
      Step-IsSound st (Reach-IsSound source fidelity pid interval r)

-- ===== src/Loadgen/K6.antt =====
-- loadgen/k6.go: what a pass is asked for, the environment that the script reads, and the run that is
-- recorded once k6 has exited. The files, the pipe and the process are left out; what was read from them
-- is an argument, and so are strconv.Itoa and json.Marshal of the stages.
use octo_performance.Prelude.{
  ℕ, String, Bool, List, [], ◌∷◌, map, ◌⊎◌, inl, inr, if◌then◌else◌, is_empty,
}
use octo_performance.Prelude.Int.{ℤ, pos, leb_ℤ, quot, ◌-ℤ◌}
use octo_performance.Prelude.Text.{Message, int, str, sprintf, plain, str_eq, append}
use octo_performance.Prelude.Float.{Float, ◌<F◌, zero_float}
use octo_performance.Prelude.Maps.{insert}
use octo_performance.Series.Frames.{Frame}
use octo_performance.Loadgen.Pool.{Pool}
use octo_performance.Loadgen.Stream.{Aggregator, frame, observed_max_vus}
use octo_performance.Loadgen.Summary.{Summary, RawSummary, parse_summary}

pub data Phase : Type 0 where
  smoke warmup measured capacity : Phase

pub data LoadModel : Type 0 where
  open_model closed_model : LoadModel

-- The type `Stage`.
pub record LoadStage : Type 0 where
  pub target : ℤ
  pub duration : ℤ

-- `Request`; of the built payload, whether it has any bytes.
pub record Request : Type 0 where
  pub phase : Phase
  pub url : String
  pub method : String
  pub body : String
  pub has_body_bytes : Bool
  pub content_type : String
  pub model : LoadModel
  pub rate : ℤ
  pub vus : ℤ
  pub duration : ℤ
  pub pool : Pool
  pub stages : List LoadStage
  pub start_rate : ℤ

-- `Run`, without its argv, versions and checksum.
pub record Run (F : Type 0) : Type 0 where
  pub phase : Phase
  pub model : LoadModel
  pub offered_rate : F
  pub pool : Pool
  pub started : ℤ
  pub ended : ℤ
  pub elapsed : ℤ
  pub exit_code : ℤ
  pub summary : Summary F
  pub series : Frame F
  pub raw_rows : ℕ
  pub unparsed_rows : ℕ

unfoldable pub model_text : LoadModel → String
model_text open_model = "open"
model_text closed_model = "closed"

module _ (itoa : ℤ → String) where
  unfoldable pub duration_text : ℤ → String
  duration_text d = if leb_ℤ d (pos 0) then "30s" else append (itoa (quot d (pos 1_000_000))) "ms"

  abbrev set : String → String → List (String × String) → List (String × String)
  set = insert

  abbrev set_if : String → String → List (String × String) → List (String × String)
  set_if k v env = if str_eq v "" then env else insert k v env

  unfoldable pub base_environment : Request → String → String → List (String × String)
  unfolding duration_text model_text
  base_environment req summary_path body_path =
      let env =
        ("PERF_URL", req.url)
        ∷ ("PERF_MODEL", model_text req.model)
        ∷ ("PERF_DURATION", duration_text req.duration)
        ∷ ("PERF_PRE_VUS", itoa req.pool.pre_allocated_vus)
        ∷ ("PERF_MAX_VUS", itoa req.pool.max_vus)
        ∷ ("PERF_SUMMARY", summary_path)
        ∷ [] in
      let with_method = set_if "PERF_METHOD" req.method env in
      let with_body =
        if str_eq body_path ""
        then set_if "PERF_BODY" req.body with_method
        else set "PERF_BODY_FILE" body_path with_method in
      set_if "PERF_CONTENT_TYPE" req.content_type with_body

  module _ (encode_stages : List (ℤ × String) → String ⊎ String) where
    abbrev open_environment :
        {F : Type 0} → Request → List (String × String) → Message F ⊎ List (String × String)
    open_environment req env =
        if is_empty req.stages
        then if leb_ℤ req.rate (pos 0)
          then inl (plain "loadgen: an open-model pass needs a rate")
          else inr (set "PERF_RATE" (itoa req.rate) env)
        else elim (encode_stages (map (λ s. (s.target, duration_text s.duration)) req.stages)) [
          | inl e ↦ inl (sprintf "loadgen: encoding stages: %w" (str e ∷ []))
          | inr b ↦ inr (set "PERF_START_RATE" (itoa req.start_rate) (set "PERF_STAGES" b env))
        ]

    abbrev closed_environment :
        {F : Type 0} → Request → List (String × String) → Message F ⊎ List (String × String)
    closed_environment req env =
        if leb_ℤ req.vus (pos 0)
        then inl (plain "loadgen: a closed-model pass needs vus")
        else inr (set "PERF_VUS" (itoa req.vus) env)

    unfoldable pub environment :
        {F : Type 0} → Request → String → String → Message F ⊎ List (String × String)
    unfolding base_environment
    environment req summary_path body_path =
        let env = base_environment req summary_path body_path in
        elim req.model [
          | closed_model ↦ closed_environment req env
          | open_model ↦ open_environment req env
        ]

module _ {F : Type 0} ⦃fl : Float F⦄ where
  -- int(x), which truncates towards zero
  abbrev truncated : F → ℤ
  truncated x = if x <F zero_float then fl.ceil x else fl.floor x

  -- `Run.ObservedMaxVUs`
  unfoldable pub run_observed_max_vus : Run F → ℤ
  run_observed_max_vus r =
      if r.summary.vus_max.present then truncated r.summary.vus_max.max else r.pool.observed_max_vus

  -- What `K6.Run` returns once k6 has exited and its rows are read: `read` is the summary file, or
  -- the error that there is none; `log` is the path of the log. The run that goes with an error is left out.
  unfoldable pub finish :
      Request
      → String
      → ℤ
      → ℤ
      → ℤ
      → Aggregator F
      → String ⊎ (String ⊎ RawSummary F)
      → Message F ⊎ Run F
  unfolding parse_summary frame observed_max_vus
  finish req log started ended exit_code agg (inl e) = inl (
      sprintf "loadgen: k6 exited %d and wrote no summary; see %s: %w"
        (int exit_code ∷ str log ∷ str e ∷ []))
  finish req log started ended exit_code agg (inr b) = elim (parse_summary b) [
    | inl e ↦ inl e
    | inr summary ↦ inr (record {
      phase = req.phase;
      model = req.model;
      offered_rate = fl.of_int req.rate;
      pool = record req.pool {
        observed_max_vus =
            if summary.vus_max.present then truncated summary.vus_max.max else observed_max_vus agg;
      };
      started = started;
      ended = ended;
      elapsed = ended -ℤ started;
      exit_code = exit_code;
      summary = summary;
      series = frame agg;
      raw_rows = agg.rows;
      unparsed_rows = agg.unparsed;
    })
  ]

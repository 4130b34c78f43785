-- ===== src/Runner/Requests.antt =====
-- campaign/campaign.go, campaign/deps.go and exec/local.go: what the load generator is asked for a pass,
-- where the subject answers, and the environment that a local subject is started with. strconv.Itoa and
-- strings.ReplaceAll are arguments.
use octo_performance.Prelude.{
  String, Bool, Option, none, some, List, [], ◌∷◌, ◌++◌, map, if◌then◌else◌, ◌&&◌,
}
use octo_performance.Prelude.Int.{ℤ, pos}
use octo_performance.Prelude.Float.{Float}
use octo_performance.Prelude.Text.{str_eq, append}
use octo_performance.Prelude.Maps.{insert}
use octo_performance.Spec
use octo_performance.Spec.{Scenario, verb}
use octo_performance.Loadgen.Pool.{size_pool}
use octo_performance.Loadgen.K6.{Request, Phase, LoadModel, open_model, closed_model}
use octo_performance.Rollup.{LoadSpec}

pub record Endpoints : Type 0 where
  pub host : String
  pub workload_port : ℤ
  pub admin_port : ℤ
  pub deps_host : String

unfoldable pub host_or : String → String
host_or h = if str_eq h "" then "127.0.0.1" else h

-- strings.TrimRight(s, "/")
unfoldable pub trim_slash : String → String
trim_slash String.[] = String.[]
trim_slash (String.◌∷◌ c s) =
    let rest = trim_slash s in
    if str_eq rest "" && str_eq (String.◌∷◌ c String.[]) "/" then "" else String.◌∷◌ c rest

module _ (itoa : ℤ → String) where
  unfoldable pub base : Endpoints → String
  unfolding host_or
  base e = append "http://" (append (host_or e.host) (append ":" (itoa e.workload_port)))

  unfoldable pub admin : Endpoints → String
  unfolding host_or
  admin e = append "http://" (append (host_or e.host) (append ":" (itoa e.admin_port)))

  unfoldable pub url : {F : Type 0} → Endpoints → Scenario F → String
  unfolding base trim_slash
  url e sc = append (trim_slash (base e)) sc.route

-- The models of the load, of which k6 takes any other text than "closed" for the open one.
abbrev pub model_of : String → LoadModel
model_of m = if str_eq m "closed" then closed_model else open_model

unfoldable pub load_spec : {F : Type 0} → Spec.Load F → LoadSpec
load_spec l = record {
  model = l.model;
  rate = l.rate;
  rate_source = if l.calibrate then "calibrated" else "scenario";
}

module _ {F : Type 0} ⦃fl : Float F⦄ (itoa : ℤ → String) (to_upper : String → String) where
  -- A pass of a cell with this load; `has_bytes` says whether the built payload has any.
  unfoldable pub load_request : Endpoints → Scenario F → Spec.Load F → Bool → Phase → ℤ → Request
  unfolding url
  load_request e sc l has_bytes phase duration = record {
    phase = phase;
    url = url itoa e sc;
    method = verb to_upper sc.request;
    body = sc.request.body;
    has_body_bytes = has_bytes;
    content_type = sc.request.content_type;
    model = model_of l.model;
    rate = l.rate;
    vus = l.vus;
    duration = duration;
    pool = size_pool F l.rate l.expected_latency l.vu_cap;
    stages = [];
    start_rate = pos 0;
  }

-- Assignments to a map, one after the other.
abbrev pub assign_all : List (String × String) → List (String × String) → List (String × String)
assign_all m [] = m
assign_all m ((k, v) ∷ kvs) = assign_all (insert k v m) kvs

unfoldable pub merge_env : List (String × String) → List (String × String) → List (String × String)
merge_env base over = assign_all (assign_all [] base) over

-- The values are mapped one by one; an empty map stays empty.
unfoldable pub resolve_deps_env :
    (String → String → String → String) → List (String × String) → String → List (String × String)
resolve_deps_env replace_all env host = map (λ (k, v). (k, replace_all v "${DEPS_HOST}" host)) env

-- What the dependencies of a scenario, if it has any, add to the subject's environment.
abbrev pub subject_env : Option (List (String × String)) → List (String × String)
subject_env none = []
subject_env (some env) = env

-- The entries that `Local.Start` hands to os/exec, on top of the harness's own environment. os/exec
-- documents that of entries for one variable the last one counts.
unfoldable pub process_env :
    List (String × String) → List (String × String) → List (String × String)
process_env environ env = environ ++ env

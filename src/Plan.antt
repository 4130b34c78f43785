-- ===== src/Plan.antt =====
-- plan/plan.go: a validated campaign as the ordered list of its cells. `int` is unbounded here, but the
-- sum that decides the rotation is an int64 and wraps. fmt's printing and crypto/sha256 are the fields
-- of `Print`; a Go map is a function that answers none for a missing key.
pub mod Rotation
pub mod Balance
pub mod Sequence
mod Examples
use octo_performance.Prelude.{
  ℕ, zero, suc, ◌+◌, ◌-◌, ◌%◌, ◌<◌, ◌^◌, String, Bool, true, false, not, ◌&&◌, ◌||◌, Option, none,
  some, List, [], ◌∷◌, ◌++◌, map, ltb, leb, ◌==◌, if◌then◌else◌, length, is_empty, filter, any,
  get_or,
}
use Prim.Native.String.{len, slice}
use Prim.Native.String
use Prim.Native.Char.{Char, code}
use octo_performance.Prelude.Int.{ℤ, pos, negsuc, pos_part, ◌+ℤ◌, ◌-ℤ◌, rem, ltb_ℤ, wrap64}
use octo_performance.Prelude.Sort.{sort_by}
use octo_performance.Prelude.Text.{
  Message, float, int, str, sprintf, plain, str_eq, str_lt, append, join,
}
use octo_performance.Prelude.Float.{Float}
use octo_performance.Spec.{Arm, Load, Campaign, Scenario, merge, binary_text}
use octo_performance.Spec.Validation.{validate_campaign, validate_load}

pub record CellId : Type 0 where
  pub campaign : String
  pub scenario : String
  pub arm : String
  pub rep : ℤ

pub record Cell (F : Type 0) : Type 0 where
  pub id : CellId
  pub ordinal : ℕ
  pub position_in_rep : ℕ
  pub scenario : Scenario F
  pub arm : Arm
  pub load : Load F

pub record Plan (F : Type 0) : Type 0 where
  pub campaign : String
  pub hash : String
  pub order : String
  pub cells : List (Cell F)

-- fmt.Sprintf, and the digest of what was written, in hexadecimal.
pub record Print (F : Type 0) : Type 0 where
  pub text : Message F → String
  pub duration : ℤ → String
  pub digest : String → String

is_safe : Char → Bool
is_safe c =
    let n = code c in
    leb 97 n && leb n 122
    || (leb 65 n && leb n 90)
    || (leb 48 n && leb n 57)
    || (n == 46 || (n == 45 || n == 95))

unfoldable pub sanitise : String → String
unfolding is_safe
sanitise String.[] = ""
sanitise (String.◌∷◌ c s) = append (if is_safe c then String.◌∷◌ c "" else "-") (sanitise s)

-- The numbers from `i` on, `n` of them.
abbrev pub from : ℕ → ℕ → List ℕ
from i zero = []
from i (suc n) = i ∷ from (suc i) n

-- How far the arms are rotated.
unfoldable pub shift_of : ℕ → ℤ → ℤ → ℕ
shift_of n rep seed =
    let shift = rem (wrap64 ((rep -ℤ pos 1) +ℤ seed)) (pos n) in
    pos_part (if ltb_ℤ shift (pos 0) then shift +ℤ pos n else shift)

unfoldable pub arm_order : ℕ → ℤ → String → ℤ → List ℕ
unfolding shift_of
arm_order n rep order seed =
    if str_eq order "blocked" then from 0 n else map (λ i. (i + shift_of n rep seed) % n) (from 0 n)

abbrev no_arm : Arm
no_arm = record {
  name = "";
  binary = record { version = ""; path = ""; local = "" };
  config = record { mode = ""; knobs = [] };
  env = [];
  flags = [];
}

abbrev bool_text : Bool → String
bool_text true = "true"
bool_text false = "false"

unfoldable pub knob_string : List (String × String) → String
knob_string m =
    if is_empty m
    then "-"
    else join "," (map (λ p. append p.0 (append "=" p.1)) (sort_by (λ p q. str_lt p.0 q.0) m))

-- What `Expand` answers: an error with the ones that it wraps, or a plan.
pub data Expanded (F : Type 0) (A : Type 0) : Type 0 where
  refused : Message F → List (Message F) → Expanded F A
  planned : A → Expanded F A

module _ {F : Type 0} where
  unfoldable pub slug : Print F → CellId → String
  slug print id =
      print.text
        (sprintf "%s__%s__rep%d" (str id.scenario ∷ str (sanitise id.arm) ∷ int id.rep ∷ []))

  -- The innermost loop of `Expand`, over the order of one repetition. An index is always that of an arm.
  unfoldable pub place :
      Campaign F → Scenario F → Load F → String → ℤ → ℕ → ℕ → List ℕ → List (Cell F)
  place c sc load id rep position ordinal [] = []
  place c sc load id rep position ordinal (k ∷ ks) =
      record {
        id = record {
          campaign = c.name;
          scenario = id;
          arm = (get_or c.arms k no_arm).name;
          rep = rep;
        };
        ordinal = ordinal;
        position_in_rep = position;
        scenario = sc;
        arm = get_or c.arms k no_arm;
        load = load;
      }
      ∷ place c sc load id rep (suc position) (suc ordinal) ks

  -- The repetitions from `rep` on, `left` of them.
  unfoldable pub repeat : Campaign F → Scenario F → Load F → String → ℕ → ℕ → ℕ → List (Cell F)
  unfolding place
  repeat c sc load id rep zero ordinal = []
  repeat c sc load id rep (suc left) ordinal =
      let order = arm_order (length c.arms) (pos rep) c.order c.seed in
      place c sc load id (pos rep) 0 ordinal order
      ++ repeat c sc load id (suc rep) left (ordinal + length order)

  -- `fmt.Fprintf(h, …)`, line by line.
  cell_lines : Print F → Cell F → String
  cell_lines print cell =
      append
        (print.text (
          sprintf "cell=%s|%s|%s|%d|%s|%s\n" (
            str cell.id.scenario
            ∷ str cell.id.arm
            ∷ str (binary_text cell.arm.binary)
            ∷ int cell.id.rep
            ∷ str cell.arm.config.mode
            ∷ str (knob_string cell.arm.config.knobs)
            ∷ [])))
        (print.text (
          sprintf "  load=%s|%s|rate=%d|calib=%v|vus=%d|dur=%s|warm=%s|cap=%d\n" (
            str cell.load.test
            ∷ str cell.load.model
            ∷ int cell.load.rate
            ∷ str (bool_text cell.load.calibrate)
            ∷ int cell.load.vus
            ∷ str (print.duration cell.load.duration)
            ∷ str (print.duration cell.load.warmup)
            ∷ int cell.load.vu_cap
            ∷ [])))

  unfoldable pub hash_plan : Print F → Campaign F → List (Cell F) → String
  unfolding cell_lines
  hash_plan print c cells = print.digest (
      append
        (print.text (
          sprintf "campaign=%s\norder=%s\nreps=%d\nseed=%d\n"
            (str c.name ∷ str c.order ∷ int c.reps ∷ int c.seed ∷ [])))
        (join "" (map (cell_lines print) cells)))

  unfoldable pub remaining : (CellId → Bool) → Plan F → List (Cell F)
  remaining done p = filter (λ c. not (done c.id)) p.cells

  unfoldable pub sequence : String → Plan F → String
  sequence scenario p = join " " (
      map (λ c. c.id.arm)
        (filter (λ c. str_eq scenario "" || str_eq c.id.scenario scenario) p.cells))

  unfoldable pub arm_ordinals : String → String → Plan F → List ℕ
  arm_ordinals scenario arm p =
      map (λ c. c.ordinal)
        (filter (λ c. str_eq c.id.scenario scenario && str_eq c.id.arm arm) p.cells)

  unfoldable pub short : Plan F → String
  short p = if ltb (len p.hash) 8 then p.hash else slice p.hash 0 8

module _ {F : Type 0} ⦃fl : Float F⦄ where
  -- `scenarios` answers the scenario of an identifier, none where it was not loaded.
  unfoldable pub expand_scenarios :
      Campaign F → (String → Option (Scenario F)) → List String → ℕ → Expanded F (List (Cell F))
  unfolding repeat
  expand_scenarios c scenarios [] ordinal = planned []
  expand_scenarios c scenarios (id ∷ ids) ordinal = elim (scenarios id) [
    | none ↦
        refused (sprintf "plan: campaign names scenario %q but it was not loaded" (str id ∷ [])) []
    | some sc ↦
        let load = merge sc.load c.load in
        elim (validate_load load) [
          | e ∷ es ↦ refused (sprintf "plan: scenario %s load: %w" (str id ∷ [])) (e ∷ es)
          | [] ↦
              let cells = repeat c sc load id 1 (pos_part c.reps) ordinal in
              elim (expand_scenarios c scenarios ids (ordinal + length cells)) [
                | refused m es ↦ refused m es
                | planned rest ↦ planned (cells ++ rest)
              ]
        ]
  ]

  unfoldable pub expand :
      Print F → Campaign F → (String → Option (Scenario F)) → Expanded F (Plan F)
  unfolding expand_scenarios hash_plan
  expand print c scenarios = elim (validate_campaign c) [
    | e ∷ es ↦ refused (plain "plan: %w") (e ∷ es)
    | [] ↦ elim (expand_scenarios c scenarios c.scenarios 0) [
      | refused m es ↦ refused m es
      | planned cells ↦ planned (record {
        campaign = c.name;
        hash = hash_plan print c cells;
        order = c.order;
        cells = cells;
      })
    ]
  ]

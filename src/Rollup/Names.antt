-- ===== src/Rollup/Names.antt =====
-- result/campaign.go: the order of scenarios and of arms, what is said of an arm, and the time that a
-- campaign took. A Go map is an association list; where its order shows, that order is an argument.
use Prim.Native.Char.{code}
use octo_performance.Prelude.{
  String, Bool, true, false, not, ◌&&◌, ◌||◌, List, [], ◌∷◌, ◌++◌, map, if◌then◌else◌, filter, leb,
  is_empty,
}
use octo_performance.Prelude.Int.{ℤ, pos, ltb_ℤ}
use octo_performance.Prelude.Text.{str_eq, str_lt, is_char}
use octo_performance.Prelude.Sort.{sort_by}
use octo_performance.Rollup.{ResultCell}

-- The struct `Arm`.
pub record CampaignArm : Type 0 where
  pub name : String
  pub version : String
  pub sha256 : String
  pub mode : String
  pub admin_port : Bool
  pub metrics : Bool

unfoldable pub contains : List String → String → Bool
contains [] want = false
contains (x ∷ xs) want = if str_eq x want then true else contains xs want

-- The keys of a set built by `seen[x] = true`.
unfoldable pub distinct_from : List String → List String → List String
unfolding contains
distinct_from seen [] = seen
distinct_from seen (x ∷ xs) = distinct_from (if contains seen x then seen else seen ++ (x ∷ [])) xs

abbrev pub delete : String → List String → List String
delete d seen = filter (λ x. not (str_eq x d)) seen

-- The loop over the declared arms, and what it leaves in `seen`.
unfoldable pub take_declared : List String → List String → List String × List String
unfolding contains
take_declared [] seen = ([], seen)
take_declared (d ∷ ds) seen =
    let (out, rest) = take_declared ds (if contains seen d then delete d seen else seen) in
    (if contains seen d then d ∷ out else out, rest)

-- `armOrder` on the arms that are there.
unfoldable pub order_names : List String → List String → List String
unfolding take_declared
order_names declared seen =
    let (out, rest) = take_declared declared seen in out ++ sort_by str_lt rest

abbrev new_arm : String → CampaignArm
new_arm name = record {
  name = name;
  version = "";
  sha256 = "";
  mode = "";
  admin_port = false;
  metrics = false;
}

-- `armOrderNames` on the names of `seen` in the order in which the map is walked.
unfoldable pub arm_order_names : List String → List String → List String
unfolding distinct_from contains
arm_order_names declared walked =
    let out = distinct_from (filter (contains walked) declared) walked in
    if is_empty declared then sort_by str_lt out else out

abbrev find_arm : List CampaignArm → String → List CampaignArm
find_arm seen name = filter (λ a. str_eq a.name name) seen

abbrev pick_arms : List CampaignArm → List String → List CampaignArm
pick_arms seen [] = []
pick_arms seen (n ∷ ns) = find_arm seen n ++ pick_arms seen ns

module _ {F : Type 0} where
  unfoldable pub arm_order : List String → List (ResultCell F) → List String
  unfolding order_names distinct_from
  arm_order declared cells = order_names declared (distinct_from [] (map (λ c. c.arm) cells))

  unfoldable pub scenario_order : List (ResultCell F) → List String
  unfolding distinct_from
  scenario_order cells = sort_by str_lt (distinct_from [] (map (λ c. c.scenario) cells))

  abbrev described : ResultCell F → CampaignArm → CampaignArm
  described c a =
      if str_eq a.version ""
      then record a {
        version = c.binary.version;
        sha256 = c.binary.sha256;
        admin_port = c.binary.observability;
        metrics = c.binary.metrics;
        mode = c.config_mode;
      }
      else a

  -- The body of the loop of `armsOf`.
  unfoldable pub see_arm : ResultCell F → List CampaignArm → List CampaignArm
  see_arm c [] = described c (new_arm c.arm) ∷ []
  see_arm c (a ∷ rest) =
      let later = see_arm c rest in if str_eq a.name c.arm then described c a ∷ rest else a ∷ later

  unfoldable pub see_arms : List CampaignArm → List (ResultCell F) → List CampaignArm
  unfolding see_arm
  see_arms seen [] = seen
  see_arms seen (c ∷ cs) = see_arms (see_arm c seen) cs

  abbrev span_from : ℤ × ℤ → List (ResultCell F) → ℤ × ℤ
  span_from (from, to) [] = (from, to)
  span_from (from, to) (c ∷ cs) =
      span_from
        (
          if ltb_ℤ c.started_at from then c.started_at else from,
          if ltb_ℤ to c.ended_at then c.ended_at else to,
        )
        cs

  -- `spanOf`; the zero time for no cells.
  unfoldable pub span_of : List (ResultCell F) → ℤ × ℤ
  span_of [] = (pos 0, pos 0)
  span_of (c ∷ cs) = span_from (c.started_at, c.ended_at) cs

  -- `walk` is the order in which the map of arms is walked.
  unfoldable pub arms_of :
      (List String → List String) → List String → List (ResultCell F) → List CampaignArm
  unfolding see_arms arm_order_names
  arms_of walk declared cells =
      let seen = see_arms [] cells in
      pick_arms seen (arm_order_names declared (walk (map (λ a. a.name) seen)))

-- `sanitise`: anything but a letter, a digit, a dot, a dash or an underscore becomes a dash.
unfoldable pub sanitise : String → String
sanitise String.[] = String.[]
sanitise (String.◌∷◌ c s) =
    let n = code c in
    let kept =
      leb b'a' n && leb n b'z'
      || leb b'A' n && leb n b'Z'
      || leb b'0' n && leb n b'9'
      || is_char b'.' c
      || is_char b'-' c
      || is_char b'_' c in
    String.◌∷◌ (if kept then c else "-") (sanitise s)

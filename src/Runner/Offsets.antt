-- ===== src/Runner/Offsets.antt =====
-- How good the estimate of the offset is.
use octo_performance.Prelude.{
  ℕ, zero, suc, ◌/◌, ◌^◌, ◌-◌, ◌≤◌, ◌≡◌, refl, sym, ap, ◌∙◌, String, true, false, not, Option, none,
  some, List, [], ◌∷◌, arith, if◌then◌else◌, All, Bool-cases, Option-cases, inl, inr,
}
use mathlib.Core.Path.{subst}
use octo_performance.Prelude.Int.{
  ℤ, pos, negsuc, pos_part, neg_part, ◌+ℤ◌, ◌-ℤ◌, quot, ◌≤ℤ◌, leb_ℤ, eqb_ℤ, +ℤ_parts, -ℤ_parts,
}
use octo_performance.Prelude.Trim.{trim_space}
use octo_performance.Runner.Clock.{
  RoundTrip, cancelled, failed, answered, parse_epoch, best_of, improve, probe,
}

-- A round trip that gave a stamp.
pub record Stamped : Type 0 where
  pub sent : ℤ
  pub received : ℤ
  pub remote : ℤ

-- The subject's clock is ahead by `skew`, and the stamp was taken during the round trip.
abbrev pub IsHonest : ℤ → Stamped → Type 0
IsHonest skew t = (t.sent +ℤ skew ≤ℤ t.remote) × (t.remote ≤ℤ t.received +ℤ skew)

abbrev pub round_trip : Stamped → ℤ
round_trip t = t.received -ℤ t.sent

-- The offset is at most half the shortest round trip and a nanosecond away from the skew.
abbrev pub IsWithin : ℤ → ℤ → ℤ → Type 0
IsWithin skew best offset =
    (offset ≤ℤ skew +ℤ (quot best (pos 2) +ℤ pos 1))
    × (skew ≤ℤ offset +ℤ (quot best (pos 2) +ℤ pos 1))

half_lem :
    (n : ℕ) (sent received remote skew : ℤ)
    → received -ℤ sent ≡ pos n
    → IsHonest skew (record { sent = sent; received = received; remote = remote })
    → IsWithin skew (pos n) (remote -ℤ (sent +ℤ pos (n / 2)))
unfolding quot
half_lem n sent received remote skew e (low, high) =
    let positive : pos_part (received -ℤ sent) ≡ n = ap pos_part e in
    let whole : neg_part (received -ℤ sent) ≡ 0 = ap neg_part e in
    let trip = -ℤ_parts received sent in
    let a = +ℤ_parts sent skew in
    let b = +ℤ_parts received skew in
    let middle = +ℤ_parts sent (pos (n / 2)) in
    let offset = -ℤ_parts remote (sent +ℤ pos (n / 2)) in
    let room = +ℤ_parts (pos (n / 2)) (pos 1) in
    let c = +ℤ_parts skew (pos (n / 2) +ℤ pos 1) in
    let d = +ℤ_parts (remote -ℤ (sent +ℤ pos (n / 2))) (pos (n / 2) +ℤ pos 1) in
    (
      omega (arith, positive, whole, trip, a, b, middle, offset, room, c, low, high),
      omega (arith, positive, whole, trip, a, b, middle, offset, room, d, low, high),
    )

-- The round trips of the loop that gave a stamp: at most so many turns, up to the end of the context.
module _ (parse_int : String → Option ℤ) where
  abbrev pub stamps : ℕ → List RoundTrip → List Stamped
  stamps zero ts = []
  stamps (suc n) [] = []
  stamps (suc n) (cancelled ∷ ts) = []
  stamps (suc n) (failed ∷ ts) = stamps n ts
  stamps (suc n) (answered sent received exit_code stdout ∷ ts) =
      let rest = stamps n ts in
      if not (eqb_ℤ exit_code (pos 0))
      then rest
      else elim (parse_epoch parse_int (trim_space stdout)) [
        | none ↦ rest
        | some remote ↦ record { sent = sent; received = received; remote = remote } ∷ rest
      ]

abbrev improve_all : Option (ℤ × ℤ) → List Stamped → Option (ℤ × ℤ)
improve_all so_far [] = so_far
improve_all so_far (t ∷ ts) = improve_all (improve so_far t.sent t.received t.remote) ts

probe-stamps :
    (parse_int : String → Option ℤ) (n : ℕ) (so_far : Option (ℤ × ℤ)) (ts : List RoundTrip)
    → probe parse_int n so_far ts ≡ improve_all so_far (stamps parse_int n ts)
unfolding probe
probe-stamps parse_int zero so_far ts = refl
probe-stamps parse_int (suc n) so_far [] = refl
probe-stamps parse_int (suc n) so_far (cancelled ∷ ts) = refl
probe-stamps parse_int (suc n) so_far (failed ∷ ts) = probe-stamps parse_int n so_far ts
probe-stamps parse_int (suc n) so_far (answered sent received exit_code stdout ∷ ts) =
    elim (Bool-cases (eqb_ℤ exit_code (pos 0))) [
      | inr b ↦ rw (probe, b) (probe-stamps parse_int n so_far ts)
      | inl b ↦ elim (Option-cases (parse_epoch parse_int (trim_space stdout))) [
        | inl e ↦ rw (probe, b) (rw (probe, e) (probe-stamps parse_int n so_far ts))
        | inr (remote, e) ↦
            rw (probe, b)
              (rw (probe, e) (probe-stamps parse_int n (improve so_far sent received remote) ts))
      ]
    ]

abbrev pub longest : ℤ
longest = pos (2 ^ 63 - 1)

abbrev IsFine : ℤ → Option (ℤ × ℤ) → Type 0
IsFine skew none = Unit
IsFine skew (some (best, offset)) = IsWithin skew best offset

to_pos : (z : ℤ) → neg_part z ≤ pos_part z → (n : ℕ) × (z ≡ pos n)
to_pos (pos n) h = (n, refl)
to_pos (negsuc n) h = absurd (omega (arith, h))

honest_positive : (skew : ℤ) (t : Stamped) → IsHonest skew t → (n : ℕ) × (round_trip t ≡ pos n)
honest_positive skew t (low, high) = to_pos (round_trip t) (
    omega (
      arith,
      low,
      high,
      -ℤ_parts t.received t.sent,
      +ℤ_parts t.sent skew,
      +ℤ_parts t.received skew,
    ))

improve-IsFine :
    (skew : ℤ) (so_far : Option (ℤ × ℤ)) (t : Stamped)
    → IsHonest skew t
    → IsFine skew so_far
    → IsFine skew (improve so_far t.sent t.received t.remote)
unfolding improve
improve-IsFine skew so_far t h fine = elim (Bool-cases (leb_ℤ (best_of so_far) (round_trip t))) [
  | inl b ↦ rw (improve, b) fine
  | inr b ↦
      rw (improve, b)
        (let (n, e) = honest_positive skew t h in
          subst (λ r. IsWithin skew r (t.remote -ℤ (t.sent +ℤ quot r (pos 2)))) (sym e)
            (unfold quot in half_lem n t.sent t.received t.remote skew e h))
]

leb_ℤ→le : (a b : ℤ) → leb_ℤ a b ≡ true → a ≤ℤ b
leb_ℤ→le a b h = ground (arith, h)

leb_ℤ→ge : (a b : ℤ) → leb_ℤ a b ≡ false → b ≤ℤ a
leb_ℤ→ge a b h = ground (arith, h)

≤ℤ_refl : (a : ℤ) → a ≤ℤ a
≤ℤ_refl a = omega arith

≤ℤ-trans : (a b c : ℤ) → a ≤ℤ b → b ≤ℤ c → a ≤ℤ c
≤ℤ-trans a b c p q = omega (arith, p, q)

-- The best so far never gets longer, and is no longer than any round trip that was seen.
improve-best :
    (so_far : Option (ℤ × ℤ)) (t : Stamped)
    → (best_of (improve so_far t.sent t.received t.remote) ≤ℤ best_of so_far)
      × (best_of (improve so_far t.sent t.received t.remote) ≤ℤ round_trip t)
unfolding improve
improve-best so_far t = elim (Bool-cases (leb_ℤ (best_of so_far) (round_trip t))) [
  | inl b ↦ rw (improve, b) (≤ℤ_refl (best_of so_far), leb_ℤ→le (best_of so_far) (round_trip t) b)
  | inr b ↦ rw (improve, b) (leb_ℤ→ge (best_of so_far) (round_trip t) b, ≤ℤ_refl (round_trip t))
]

improve_all-best :
    (so_far : Option (ℤ × ℤ)) (ts : List Stamped)
    → (best_of (improve_all so_far ts) ≤ℤ best_of so_far)
      × All (λ t. best_of (improve_all so_far ts) ≤ℤ round_trip t) ts
improve_all-best so_far [] = (≤ℤ_refl (best_of so_far), tt)
improve_all-best so_far (t ∷ ts) =
    let next = improve so_far t.sent t.received t.remote in
    let (down, seen) = improve-best so_far t in
    let (rest, all) = improve_all-best next ts in
    (
      ≤ℤ-trans (best_of (improve_all next ts)) (best_of next) (best_of so_far) rest down,
      (≤ℤ-trans (best_of (improve_all next ts)) (best_of next) (round_trip t) rest seen, all),
    )

improve_all-IsFine :
    (skew : ℤ) (so_far : Option (ℤ × ℤ)) (ts : List Stamped)
    → All (IsHonest skew) ts
    → IsFine skew so_far
    → IsFine skew (improve_all so_far ts)
improve_all-IsFine skew so_far [] _ fine = fine
improve_all-IsFine skew so_far (t ∷ ts) (h, hs) fine =
    improve_all-IsFine skew (improve so_far t.sent t.received t.remote) ts hs
      (improve-IsFine skew so_far t h fine)

-- Where every stamp was taken during its round trip by a clock that is ahead by `skew`: an estimate is
-- missing only if no stamp came back in less than the longest duration there is; and where there is one,
-- its round trip is no longer than that of any stamp, and its offset differs from the skew by at most
-- half of that round trip, rounded down as it is recorded, and a nanosecond.
pub probe-IsWithin :
    (parse_int : String → Option ℤ) (skew : ℤ) (ts : List RoundTrip)
    → All (IsHonest skew) (stamps parse_int 7 ts)
    → ((probe parse_int 7 none ts ≡ none)
        → All (λ t. longest ≤ℤ round_trip t) (stamps parse_int 7 ts))
      × ((best offset : ℤ)
          → probe parse_int 7 none ts ≡ some (best, offset)
          → IsWithin skew best offset × All (λ t. best ≤ℤ round_trip t) (stamps parse_int 7 ts))
probe-IsWithin parse_int skew ts h =
    let all = stamps parse_int 7 ts in
    let same = probe-stamps parse_int 7 none ts in
    let (_, least) = improve_all-best none all in
    (
      λ e. subst (λ o. All (λ t. best_of o ≤ℤ round_trip t) all) (sym same ∙ e) least,
      λ best offset e. (
        subst (IsFine skew) (sym same ∙ e) (improve_all-IsFine skew none all h tt),
        subst (λ o. All (λ t. best_of o ≤ℤ round_trip t) all) (sym same ∙ e) least,
      ),
    )

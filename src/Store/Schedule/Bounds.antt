-- ===== src/Store/Schedule/Bounds.antt =====
-- `ban_duration` in exact arithmetic, and its growth with the number of bans.
use bagel.Prelude.{
  ℕ, zero, suc, ◌+◌, ◌*◌, ◌^◌, ◌≤◌, min, ◌≡◌, ap, ◌∙◌, Option, none, some, List, [], ◌∷◌, arith,
  ◌==◌, if◌then◌else◌, length, count, get_or, u64_max, u32_max, saturating_mul,
}
use native.Mathlib.Nat.{
  mul-zero, mul_comm, min-eq_left, min-eq_right, pow-le-pow_right, mul-le-mul_left, le_refl,
  le_trans,
}
use native.Mathlib.Decide.{dec_le}
use bagel.Config.{BanSchedule}
use bagel.Store.Schedule.{step_of, ban_duration}

-- A saturated factor makes a product saturate like the exact product.
min-mul_left : (x p m : ℕ) → min (min x m * p) m ≡ min (x * p) m
min-mul_left x zero m = simp mul-zero
min-mul_left x (suc p) m = elim (dec_le x m) [
  | yes a ↦ rw (min-eq_left a)
  | no a ↦
      let big : m ≤ x = omega arith in
      rw (min-eq_right big) (omega (arith, le-mul_of_le p big, le-mul_of_le p (le_refl m)))
]
  where
    le-mul_of_le : {m x : ℕ} (q : ℕ) → m ≤ x → m ≤ x * suc q
    le-mul_of_le q h = omega arith

min-mul : (x p m : ℕ) → min (min x m * min p m) m ≡ min (x * p) m
min-mul x p m =
    min-mul_left x (min p m) m
    ∙ ap (λ (t : ℕ). min t m) (mul_comm x (min p m))
    ∙ min-mul_left p x m
    ∙ ap (λ (t : ℕ). min t m) (mul_comm p x)

-- What the multiplier would be on numbers of any size.
abbrev exact_step : List ℕ → ℕ → ℕ
exact_step [] count = 2 ^ min count u32_max
exact_step (m ∷ ms) count = get_or (m ∷ ms) (min count (length ms)) 0

abbrev exact_jitter : BanSchedule → (ℕ → ℕ) → ℕ
exact_jitter s draw = if s.jitter_secs == 0 then 0 else draw s.jitter_secs

step_of-exact :
    (ms : List ℕ) (count x : ℕ)
    → saturating_mul (min x u64_max) (step_of ms count) ≡ min (x * exact_step ms count) u64_max
unfolding step_of
step_of-exact [] count x = min-mul x (2 ^ min count u32_max) u64_max
step_of-exact (m ∷ ms) count x = min-mul_left x _ u64_max

-- The saturating operations never show: for a schedule with a base duration and a
-- `max_duration_secs` that fits 64 bits, a ban lasts the product of base, factor and multiplier
-- plus the jitter, as numbers of any size, cut at the maximum.
pub ban_duration-exact :
    (s : BanSchedule) (base count : ℕ) (draw : ℕ → ℕ)
    → s.duration_secs ≡ some base
    → s.max_duration_secs ≤ u64_max
    → ban_duration s count draw
      ≡ some (
          min
            (base * s.factor * exact_step s.multipliers count + exact_jitter s draw)
            s.max_duration_secs)
unfolding ban_duration
ban_duration-exact s base count draw h k =
    rw (h, ban_duration)
      (ap some (omega (arith, step_of-exact s.multipliers count (base * s.factor))))

-- No step of the ladder is below the one before it.
abbrev pub IsAscending : List ℕ → Type 0
IsAscending [] = Unit
IsAscending (m ∷ []) = Unit
IsAscending (m ∷ n ∷ ms) = (m ≤ n) × IsAscending (n ∷ ms)

get_or_mono :
    (m : ℕ) (ms : List ℕ) (i j : ℕ)
    → IsAscending (m ∷ ms)
    → i ≤ j
    → j ≤ length ms
    → get_or (m ∷ ms) i 0 ≤ get_or (m ∷ ms) j 0
get_or_mono m ms zero zero a h k = le_refl m
get_or_mono m (n ∷ ms) zero (suc j) a h k =
    le_trans a.0 (get_or_mono n ms zero j a.1 (omega arith) (omega arith))
get_or_mono m (n ∷ ms) (suc i) (suc j) a h k = get_or_mono n ms i j a.1 (omega arith) (omega arith)
get_or_mono m ms i j a h k = absurd (omega arith)

step_of_mono : (ms : List ℕ) (c d : ℕ) → IsAscending ms → c ≤ d → step_of ms c ≤ step_of ms d
unfolding step_of
step_of_mono [] c d a h = omega (
  arith,
  pow-le-pow_right {n = 2} (omega arith) {i = min c u32_max} {j = min d u32_max} (omega arith),
)
step_of_mono (m ∷ ms) c d a h =
    get_or_mono m ms (min c (length ms)) (min d (length ms)) a (omega arith) (omega arith)

-- The value of a ban, at most the maximum; a permanent ban has none.
abbrev pub duration_or : ℕ → Option ℕ → ℕ
duration_or d none = d
duration_or d (some a) = a

-- A further ban is never shorter: for a schedule with a base duration and ascending multipliers,
-- with the same draw, the duration grows with the number of bans in the history and never passes
-- the maximum.
pub ban_duration_mono :
    (s : BanSchedule) (base c d : ℕ) (draw : ℕ → ℕ)
    → s.duration_secs ≡ some base
    → IsAscending s.multipliers
    → c ≤ d
    → (duration_or 0 (ban_duration s c draw) ≤ duration_or 0 (ban_duration s d draw))
      × (duration_or 0 (ban_duration s d draw) ≤ s.max_duration_secs)
unfolding ban_duration
ban_duration_mono s base c d draw h a le =
    rw (h, ban_duration)
      (
        omega (
          arith,
          mul-le-mul_left (min (base * s.factor) u64_max) (step_of_mono s.multipliers c d a le),
        ),
        omega arith,
      )

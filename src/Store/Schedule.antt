-- ===== src/Store/Schedule.antt =====
-- `ban_duration`: how long the next ban of a network lasts.
pub mod Bounds
use bagel.Prelude.{
  ℕ, min, Option, none, some, List, [], ◌∷◌, ◌==◌, if◌then◌else◌, length, count, get_or, u32_max,
  saturating_add, saturating_mul, saturating_pow,
}
use bagel.Config.{BanSchedule}

-- What the base and the factor are multiplied by: doubling, or the configured ladder, whose last
-- step repeats.
unfoldable pub step_of : List ℕ → ℕ → ℕ
step_of [] count = saturating_pow 2 (min count u32_max)
step_of (m ∷ ms) count = get_or (m ∷ ms) (min count (length ms)) 0

-- `draw` answers `random_range(0..=jitter_secs)`.
unfoldable pub ban_duration : BanSchedule → ℕ → (ℕ → ℕ) → Option ℕ
ban_duration s count draw = elim s.duration_secs [
  | none ↦ none
  | some base ↦
      let duration = saturating_mul (saturating_mul base s.factor) (step_of s.multipliers count) in
      let jitter = if s.jitter_secs == 0 then 0 else draw s.jitter_secs in
      some (min (saturating_add duration jitter) s.max_duration_secs)
]

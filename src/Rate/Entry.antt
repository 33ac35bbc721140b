-- ===== src/Rate/Entry.antt =====
-- One key's counters: `Entry`, `RateSnapshot` and the parts of `record_at` and `peek_at` on an entry.
pub mod Counts
use bagel.Prelude.{ℕ, zero, suc, ◌+◌, ◌-◌, ◌%◌, min, ltb, ◌==◌, if◌then◌else◌, u32_max}

pub record RateSnapshot : Type 0 where
  pub last_1 : ℕ
  pub last_10 : ℕ
  pub last_60 : ℕ

abbrev pub window : ℕ
window = 60

pub record Entry : Type 0 where
  pub buckets : ℕ → ℕ
  pub last_tick : ℕ
  pub last_used : ℕ

abbrev pub assign : ℕ → ℕ → (ℕ → ℕ) → ℕ → ℕ
assign i v buckets j = if i == j then v else buckets j

-- The first `n` rounds of the loop that clears the buckets since the last tick.
pub clear : ℕ → ℕ → (ℕ → ℕ) → ℕ → ℕ
clear zero tick buckets = buckets
clear (suc n) tick buckets = assign ((tick - n) % window) 0 (clear n tick buckets)

-- The fold of `sum` over `n` offsets from `offset`.
pub sum : ℕ → ℕ → ℕ → ℕ → (ℕ → ℕ) → ℕ
sum zero offset tick acc buckets = acc
sum (suc n) offset tick acc buckets =
    sum n (suc offset) tick (min (acc + buckets ((tick + window - offset) % window)) u32_max)
      buckets

pub advance : ℕ → Entry → Entry
advance tick e =
    if ltb e.last_tick tick
    then record {
      buckets = clear (min (tick - e.last_tick) window) tick e.buckets;
      last_tick = tick;
      last_used = e.last_used;
    }
    else e

unfoldable pub increment : ℕ → Entry → Entry
increment tick e =
    let current = tick % window in
    record {
      buckets = assign current (min (e.buckets current + 1) u32_max) e.buckets;
      last_tick = e.last_tick;
      last_used = e.last_used;
    }

pub snapshot : ℕ → Entry → RateSnapshot
snapshot tick e = record {
  last_1 = e.buckets (tick % window);
  last_10 = sum (min 10 (tick + 1)) 0 tick 0 e.buckets;
  last_60 = sum (min 60 (tick + 1)) 0 tick 0 e.buckets;
}

-- `stale..span.min(tick + 1)`
pub sum_since : ℕ → ℕ → ℕ → (ℕ → ℕ) → ℕ
sum_since stale span tick buckets = sum (min span (tick + 1) - stale) stale tick 0 buckets

pub read : ℕ → Entry → RateSnapshot
read tick e =
    let stale = tick - e.last_tick in
    record {
      last_1 = if stale == 0 then e.buckets (tick % window) else 0;
      last_10 = sum_since stale 10 tick e.buckets;
      last_60 = sum_since stale 60 tick e.buckets;
    }

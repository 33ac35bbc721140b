-- ===== src/Rate/Entry/Counts.antt =====
-- The sixty buckets of an entry refine the number of events at each tick.
use bagel.Prelude.{
  ℕ, zero, suc, ◌+◌, ◌-◌, ◌%◌, ◌≤◌, ◌<◌, min, ◌≡◌, refl, ap, ◌∙◌, inl, inr, arith, ltb, ◌==◌,
  if◌then◌else◌, ltb→lt, Bool-cases, ltb-false→ge, ==-false→≢, ==→≡, ≡→==, ≢→==, u32_max,
}
use mathlib.Core.Path.{subst}
use bagel.Rate.Entry.{
  RateSnapshot, Entry, clear, sum, advance, increment, snapshot, sum_since, read,
}

-- The number of events at each tick, one more of them at `tick`.
pub bump : ℕ → (ℕ → ℕ) → ℕ → ℕ
bump tick events u = if tick == u then events u + 1 else events u

-- The events of the `n` ticks from `tick - offset` back.
unfoldable pub total : ℕ → ℕ → ℕ → (ℕ → ℕ) → ℕ
total zero offset tick events = 0
total (suc n) offset tick events = events (tick - offset) + total n (suc offset) tick events

-- What a snapshot promises: the events of the last 1, 10 and 60 ticks, as far as 32 bits count.
pub counts : ℕ → (ℕ → ℕ) → RateSnapshot
counts tick events = record {
  last_1 = min (events tick) u32_max;
  last_10 = min (total (min 10 (tick + 1)) 0 tick events) u32_max;
  last_60 = min (total (min 60 (tick + 1)) 0 tick events) u32_max;
}

-- The buckets hold the events of the sixty ticks up to the last one, and nothing is later.
pub record IsCounting (events : ℕ → ℕ) (e : Entry) : Type 0 where
  pub later : (u : ℕ) → e.last_tick < u → events u ≡ 0
  pub held :
      (u : ℕ) → u ≤ e.last_tick → e.last_tick < u + 60 → e.buckets (u % 60) ≡ min (events u) u32_max

sum_lem :
    (n offset tick start acc : ℕ) (b events : ℕ → ℕ)
    → start ≡ min acc u32_max
    → ((o : ℕ)
        → offset ≤ o
        → o < offset + n
        → b ((tick + 60 - o) % 60) ≡ min (events (tick - o)) u32_max)
    → sum n offset tick start b ≡ min (acc + total n offset tick events) u32_max
unfolding sum total
sum_lem zero offset tick start acc b events s h = omega arith
sum_lem (suc n) offset tick start acc b events s h =
    let here = h offset (omega arith) (omega arith) in
    let grown : min (start + b ((tick + 60 - offset) % 60)) u32_max
        ≡ min (acc + events (tick - offset)) u32_max =
      omega (arith, here, s) in
    let next =
      sum_lem n (suc offset) tick _ (acc + events (tick - offset)) b events grown
        (λ o l m. h o (omega arith) (omega arith)) in
    next ∙ omega arith

-- Within the loop's reach a bucket is zero, elsewhere it stays.
clear-zero :
    (n tick : ℕ) (b : ℕ → ℕ) (u : ℕ) → u ≤ tick → tick < u + n → clear n tick b (u % 60) ≡ 0
unfolding clear
clear-zero zero tick b u le lt = absurd (omega arith)
clear-zero (suc n) tick b u le lt = elim (Bool-cases (((tick - n) % 60) == (u % 60))) [
  | inl e ↦ rw e refl
  | inr e ↦ rw e (clear-zero n tick b u le (omega (arith, ==-false→≢ ((tick - n) % 60) (u % 60) e)))
]

clear-kept :
    (n tick : ℕ) (b : ℕ → ℕ) (u : ℕ)
    → n ≤ 60
    → u + n ≤ tick
    → tick < u + 60
    → clear n tick b (u % 60) ≡ b (u % 60)
unfolding clear
clear-kept zero tick b u n le lt = refl
clear-kept (suc n) tick b u le l lt = elim (Bool-cases (((tick - n) % 60) == (u % 60))) [
  | inl e ↦ absurd (omega (arith, ==→≡ ((tick - n) % 60) (u % 60) e))
  | inr e ↦ rw e (clear-kept n tick b u (omega arith) (omega arith) lt)
]

advance-IsCounting :
    (tick : ℕ) (e : Entry) (events : ℕ → ℕ)
    → e.last_tick ≤ tick
    → IsCounting events e
    → IsCounting events (advance tick e)
unfolding advance
advance-IsCounting tick e events le c = elim (Bool-cases (ltb e.last_tick tick)) [
  | inl lt ↦ rw lt record { later = λ u h. c.later u (omega arith); held = λ u l m. held u l m }
  | inr stays ↦ rw stays c
]
  where
    n : ℕ
    n = min (tick - e.last_tick) 60

    held :
        (u : ℕ)
        → u ≤ tick
        → tick < u + 60
        → clear n tick e.buckets (u % 60) ≡ min (events u) u32_max
    held u l m = elim (Bool-cases (ltb e.last_tick u)) [
      | inl late ↦
          let none_yet = c.later u (ltb→lt e.last_tick u late) in
          let cleared =
            clear-zero n tick e.buckets u l (omega (arith, ltb→lt e.last_tick u late)) in
          omega (arith, none_yet, cleared)
      | inr early ↦
          let old = ltb-false→ge e.last_tick u early in
          let kept = clear-kept n tick e.buckets u (omega arith) (omega (arith, old)) m in
          kept ∙ c.held u old (omega arith)
    ]

increment-IsCounting :
    (e : Entry) (events : ℕ → ℕ)
    → IsCounting events e
    → IsCounting (bump e.last_tick events) (increment e.last_tick e)
unfolding increment bump
increment-IsCounting e events c = record {
  later = λ u h. elim (Bool-cases (e.last_tick == u)) [
    | inl same ↦ absurd (omega (arith, ==→≡ e.last_tick u same))
    | inr other ↦ rw other (c.later u h)
  ];
  held = λ u l m. elim (Bool-cases (e.last_tick == u)) [
    | inl same ↦
        let now = ==→≡ e.last_tick u same in
        let index = ≡→== (e.last_tick % 60) (u % 60) (omega (arith, now)) in
        let old = c.held e.last_tick (omega arith) (omega arith) in
        let equal = ap events now in rw (same, index) (omega (arith, old, equal))
    | inr other ↦
        let past = ==-false→≢ e.last_tick u other in
        let index = ≢→== (e.last_tick % 60) (u % 60) (omega (arith, past)) in
        rw (other, index) (c.held u l m)
  ];
}

-- A snapshot of the last tick is what the events count.
snapshot-counts :
    (e : Entry) (events : ℕ → ℕ)
    → IsCounting events e
    → snapshot e.last_tick e ≡ counts e.last_tick events
unfolding snapshot counts
snapshot-counts e events c =
    let one = c.held e.last_tick (omega arith) (omega arith) in
    rw (one, spans 10 (omega arith), spans 60 (omega arith)) refl
  where
    spans :
        (n : ℕ)
        → n ≤ 60
        → sum (min n (e.last_tick + 1)) 0 e.last_tick 0 e.buckets
          ≡ min (total (min n (e.last_tick + 1)) 0 e.last_tick events) u32_max
    spans n le =
        sum_lem (min n (e.last_tick + 1)) 0 e.last_tick 0 0 e.buckets events (omega arith) (λ o l m.
          let index : (e.last_tick + 60 - o) % 60 ≡ (e.last_tick - o) % 60 = omega arith in
          rw index (c.held (e.last_tick - o) (omega arith) (omega arith)))
        ∙ omega arith

pub advance-last_tick :
    (tick : ℕ) (e : Entry) → e.last_tick ≤ tick → (advance tick e).last_tick ≡ tick
unfolding advance
advance-last_tick tick e le = elim (Bool-cases (ltb e.last_tick tick)) [
  | inl lt ↦ rw lt refl
  | inr stays ↦ rw stays (omega (arith, ltb-false→ge e.last_tick tick stays))
]

-- If an entry counts the events and the tick is not before its last, counting one more event
-- leaves an entry that counts it too, and its snapshot is the number of events of the last 1, 10
-- and 60 ticks, up to 2^32 - 1.
pub increment-advance :
    (tick : ℕ) (e : Entry) (events : ℕ → ℕ)
    → e.last_tick ≤ tick
    → IsCounting events e
    → IsCounting (bump tick events) (increment tick (advance tick e))
      × (snapshot tick (increment tick (advance tick e)) ≡ counts tick (bump tick events))
unfolding increment
increment-advance tick e events le c =
    let a = advance tick e in
    let last = advance-last_tick tick e le in
    let counted = increment-IsCounting a events (advance-IsCounting tick e events le c) in
    let after = increment a.last_tick a in
    subst
      (λ t.
        IsCounting (bump t events) (increment t a)
        × (snapshot t (increment t a) ≡ counts t (bump t events)))
      last (counted, snapshot-counts after (bump a.last_tick events) counted)

total_skip :
    (k n offset tick : ℕ) (events : ℕ → ℕ)
    → ((o : ℕ) → offset ≤ o → o < offset + k → events (tick - o) ≡ 0)
    → total n offset tick events ≡ total (n - k) (offset + k) tick events
unfolding total
total_skip zero n offset tick events h =
    let a : n - 0 ≡ n = omega arith in let b : offset + 0 ≡ offset = omega arith in rw (a, b) refl
total_skip (suc k) zero offset tick events h = let a : 0 - suc k ≡ 0 = omega arith in rw a refl
total_skip (suc k) (suc n) offset tick events h =
    let here = h offset (omega arith) (omega arith) in
    let rest = total_skip k n (suc offset) tick events (λ o l m. h o (omega arith) (omega arith)) in
    let a : suc n - suc k ≡ n - k = omega arith in
    let b : offset + suc k ≡ suc offset + k = omega arith in rw (a, b, here) (omega (arith, rest))

-- If an entry counts the events and the tick is not before its last, reading it gives the number
-- of events of the last 1, 10 and 60 ticks, up to 2^32 - 1.
pub read-counts :
    (tick : ℕ) (e : Entry) (events : ℕ → ℕ)
    → e.last_tick ≤ tick
    → IsCounting events e
    → read tick e ≡ counts tick events
unfolding read counts sum_since
read-counts tick e events le c = rw (one, spans 10 (omega arith), spans 60 (omega arith)) refl
  where
    stale : ℕ
    stale = tick - e.last_tick

    none_since : (o : ℕ) → o < stale → events (tick - o) ≡ 0
    none_since o lt = c.later (tick - o) (omega arith)

    one : (if stale == 0 then e.buckets (tick % 60) else 0) ≡ min (events tick) u32_max
    one = elim (Bool-cases (stale == 0)) [
      | inl now ↦ rw now (c.held tick (omega (arith, ==→≡ stale 0 now)) (omega arith))
      | inr past ↦
          let nothing = c.later tick (omega (arith, ==-false→≢ stale 0 past)) in
          rw past (omega (arith, nothing))
    ]

    spans :
        (n : ℕ)
        → n ≤ 60
        → sum (min n (tick + 1) - stale) stale tick 0 e.buckets
          ≡ min (total (min n (tick + 1)) 0 tick events) u32_max
    spans n m =
        let skip =
          total_skip stale (min n (tick + 1)) 0 tick events (λ o l h. none_since o (omega arith)) in
        let from : 0 + stale ≡ stale = omega arith in
        let all =
          sum_lem (min n (tick + 1) - stale) stale tick 0 0 e.buckets events (omega arith) (λ o l h.
            let index : (tick + 60 - o) % 60 ≡ (tick - o) % 60 = omega arith in
            rw index (c.held (tick - o) (omega arith) (omega arith))) in
        all ∙ omega (arith, rw from at skip)

-- ===== src/Rate/Shard/Keys.antt =====
-- The tracker counts each key on its own.
use bagel.Prelude.{
  ℕ, ◌+◌, ◌≤◌, ◌≡◌, refl, ◌∙◌, inl, inr, Bool, true, Option, none, some, List, [], ◌∷◌, arith, ltb,
  leb, ◌==◌, Bool-cases, Option-cases, ≡→==, length, keep,
}
use text.Mathlib.TextPositions.{eq_refl}
use bagel.Rate.Entry.{Entry, window, increment, advance, read}
use bagel.Rate.Entry.Counts.{
  IsCounting, bump, counts, advance-last_tick, increment-advance, read-counts,
}
use bagel.Rate.Shard.{
  RateKey, Shard, RateTracker, same_key, find, put, remove_used, remove_oldest, least_used, evict,
  make_room, fresh, record_in, peek_in, shard_index, record_at, peek_at,
}

-- What a shard knows of a key at a tick: no entry and no events, or an entry that counts them.
unfoldable pub IsKnown : Option Entry → (ℕ → ℕ) → ℕ → Type 0
IsKnown none events tick = (u : ℕ) → events u ≡ 0
IsKnown (some e) events tick = IsCounting events e × (e.last_tick ≤ tick)

module _ {ℓ} {Network : Type ℓ} (same_network : Network → Network → Bool) where
  find-put :
      (k : RateKey Network) (e : Entry) (es : List (RateKey Network × Entry))
      → same_key same_network k k ≡ true
      → find same_network k (put same_network k e es) ≡ some e
  unfolding find put
  find-put k e [] h = rw h refl
  find-put k e ((l, d) ∷ es) h = elim (Bool-cases (same_key same_network k l)) [
    | inl same ↦ rw (same, same) refl
    | inr other ↦ rw (other, other) (find-put k e es h)
  ]

  -- An entry that is not there is not there in a part of the list.
  find-keep :
      (p : RateKey Network × Entry → Bool) (k : RateKey Network)
      (es : List (RateKey Network × Entry))
      → find same_network k es ≡ none
      → find same_network k (keep p es) ≡ none
  unfolding find
  find-keep p k [] h = refl
  find-keep p k ((l, d) ∷ es) h = elim (Bool-cases (same_key same_network k l)) [
    | inl same ↦ absurd (cc (rw same at h))
    | inr other ↦ elim (Bool-cases (p (l, d))) [
      | inl kept ↦ rw (kept, other) (find-keep p k es (rw other at h))
      | inr gone ↦ rw gone (find-keep p k es (rw other at h))
    ]
  ]

  find-remove_used :
      (m : ℕ) (k : RateKey Network) (es : List (RateKey Network × Entry))
      → find same_network k es ≡ none
      → find same_network k (remove_used same_network m es) ≡ none
  unfolding find remove_used
  find-remove_used m k [] h = refl
  find-remove_used m k ((l, d) ∷ es) h = elim (Bool-cases (same_key same_network k l)) [
    | inl same ↦ absurd (cc (rw same at h))
    | inr other ↦ elim (Bool-cases (d.last_used == m)) [
      | inl this ↦ rw this (rw other at h)
      | inr that ↦ rw (that, other) (find-remove_used m k es (rw other at h))
    ]
  ]

  find-remove_oldest :
      (k : RateKey Network) (es : List (RateKey Network × Entry))
      → find same_network k es ≡ none
      → find same_network k (remove_oldest same_network es) ≡ none
  unfolding remove_oldest
  find-remove_oldest k [] h = h
  find-remove_oldest k ((l, d) ∷ es) h =
      find-remove_used (least_used same_network d.last_used es) k ((l, d) ∷ es) h

  -- Making room for a key does not touch its entry.
  find-make_room :
      (capacity tick : ℕ) (k : RateKey Network) (es : List (RateKey Network × Entry))
      → find same_network k (make_room same_network capacity tick k es) ≡ find same_network k es
  unfolding make_room evict
  find-make_room capacity tick k es = elim (Option-cases (find same_network k es)) [
    | inr (e, found) ↦ rw (found, found) refl
    | inl missing ↦ elim (Bool-cases (leb capacity (length es))) [
      | inl full ↦
          rw (missing, full)
            (find-remove_oldest k (keep (λ r. ltb tick (r.1.last_tick + window)) es)
              (find-keep (λ r. ltb tick (r.1.last_tick + window)) k es missing))
      | inr space ↦ rw (missing, space) missing
    ]
  ]

  fresh-IsCounting :
      (tick used : ℕ) (o : Option Entry) (events : ℕ → ℕ)
      → IsKnown o events tick
      → IsCounting events (fresh same_network tick used o)
        × ((fresh same_network tick used o).last_tick ≤ tick)
  unfolding IsKnown fresh
  fresh-IsCounting tick used none events h =
      (record { later = λ u _. h u; held = λ u _ _. omega (arith, h u) }, omega arith)
  fresh-IsCounting tick used (some e) events (c, le) =
      (record { later = c.later; held = c.held }, le)

  peek-found :
      (k : RateKey Network) (e : Entry) (tick : ℕ) (s : Shard Network)
      → find same_network k s.entries ≡ some e
      → peek_in same_network k tick s ≡ read tick e
  unfolding peek_in
  peek-found k e tick s h = rw (h, peek_in) refl

  record_in-counts :
      (capacity : ℕ) (k : RateKey Network) (tick : ℕ) (s : Shard Network) (events : ℕ → ℕ)
      → same_key same_network k k ≡ true
      → IsKnown (find same_network k s.entries) events tick
      → ((record_in same_network capacity k tick s).0 ≡ counts tick (bump tick events))
        × ((later : ℕ)
            → tick ≤ later
            → peek_in same_network k later (record_in same_network capacity k tick s).1
              ≡ counts later (bump tick events))
  unfolding record_in increment
  record_in-counts capacity k tick s events same known =
      let es = make_room same_network capacity tick k s.entries in
      let known_still : IsKnown (find same_network k es) events tick =
        rw (find-make_room capacity tick k s.entries) known in
      let e = fresh same_network tick (s.used + 1) (find same_network k es) in
      let (c, le) =
        fresh-IsCounting tick (s.used + 1) (find same_network k es) events known_still in
      let (counted, shot) = increment-advance tick e events le c in
      let entry = increment tick (advance tick e) in
      let last : entry.last_tick ≡ tick = advance-last_tick tick e le in
      (
        shot,
        λ later h.
            peek-found k entry later (record_in same_network capacity k tick s).1
              (find-put k entry es same)
            ∙ (read-counts later entry (bump tick events) (omega (arith, last, h)) counted),
      )

  module _ (hash : RateKey Network → ℕ) where
    -- If a key's entry counts the events of its sixty last ticks, the clock has not gone back
    -- and the network equality is reflexive, `record_at` answers the events of the last 1, 10
    -- and 60 ticks with the new one, up to 2^32 - 1, and `peek_at` at any later tick answers
    -- those of the ticks before it.
    pub record_at-counts :
        (k : RateKey Network) (tick later : ℕ) (t : RateTracker Network) (events : ℕ → ℕ)
        → ((n : Network) → same_network n n ≡ true)
        → IsKnown
            (find same_network k (t.shards (shard_index same_network hash k)).entries)
            events
            tick
        → tick ≤ later
        → ((record_at same_network hash k tick t).0 ≡ counts tick (bump tick events))
          × (peek_at same_network hash k later (record_at same_network hash k tick t).1
              ≡ counts later (bump tick events))
    unfolding record_at peek_at
    record_at-counts k tick later t events same known le =
        let i = shard_index same_network hash k in
        let self : same_key same_network k k ≡ true = rw (eq_refl k.host, same k.network) refl in
        let (shot, read_later) =
          record_in-counts t.shard_capacity k tick (t.shards i) events self known in
        (shot, rw (≡→== i i refl) (read_later later le))

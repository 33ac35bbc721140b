-- ===== src/Rate/Shard/Capacity.antt =====
-- A shard holds at most its share of the tracker's capacity.
use bagel.Prelude.{
  ℕ, suc, ◌+◌, ◌-◌, ◌≤◌, ◌<◌, min, ◌≡◌, refl, sym, ◌⊎◌, inl, inr, Bool, true, false, ◌||◌, List, [],
  ◌∷◌, arith, ltb, leb, ◌==◌, if◌then◌else◌, ltb→lt, Bool-cases, is_none, Option-cases,
  ltb-false→ge, leb-false→gt, ≡→==, length, keep, any,
}
use bagel.Rate.Entry.{Entry, window, increment, advance}
use bagel.Rate.Shard.{
  RateKey, Shard, same_key, find, put, least_used, remove_used, remove_oldest, evict, make_room,
  fresh, record_in,
}

module _ {ℓ} {Network : Type ℓ} (same_network : Network → Network → Bool) where
  step :
      (a b : ℕ) (t : Bool) → a ≡ (if t then b + 1 else b) → suc a ≡ (if t then suc b + 1 else suc b)
  step a b true h = omega (arith, h)
  step a b false h = omega (arith, h)

  put-length :
      (k : RateKey Network) (e : Entry) (es : List (RateKey Network × Entry))
      → length (put same_network k e es)
        ≡ (if is_none (find same_network k es) then length es + 1 else length es)
  unfolding put find
  put-length k e [] = omega arith
  put-length k e ((l, d) ∷ es) = elim (Bool-cases (same_key same_network k l)) [
    | inl same ↦ rw same refl
    | inr other ↦
        rw other (step _ (length es) (is_none (find same_network k es)) (put-length k e es))
  ]

  keep-length :
      (p : RateKey Network × Entry → Bool) (es : List (RateKey Network × Entry))
      → length (keep p es) ≤ length es
  keep-length p [] = omega arith
  keep-length p (r ∷ es) = elim (Bool-cases (p r)) [
    | inl e ↦ rw e (omega (arith, keep-length p es))
    | inr e ↦ rw e (omega (arith, keep-length p es))
  ]

  or-true : (a : Bool) {b : Bool} → b ≡ true → (a || b) ≡ true
  or-true true h = refl
  or-true false h = h

  abbrev is_used : ℕ → RateKey Network × Entry → Bool
  is_used m r = r.1.last_used == m

  -- The least `last_used` is that of an entry, or the one to start from.
  least_used_lem :
      (m : ℕ) (es : List (RateKey Network × Entry))
      → (least_used same_network m es ≡ m)
        ⊎ (any (is_used (least_used same_network m es)) es ≡ true)
  unfolding least_used
  least_used_lem m [] = inl refl
  least_used_lem m ((k, e) ∷ es) = elim (least_used_lem (min m e.last_used) es) [
    | inr later ↦
        inr (or-true (is_used (least_used same_network (min m e.last_used) es) (k, e)) later)
    | inl here ↦ elim (Bool-cases (ltb e.last_used m)) [
      | inl less ↦ inr (
          rw
            (≡→== e.last_used (least_used same_network (min m e.last_used) es)
              (omega (arith, here, ltb→lt e.last_used m less)))
            refl)
      | inr more ↦ inl (omega (arith, here, ltb-false→ge e.last_used m more))
    ]
  ]

  remove_used-length :
      (m : ℕ) (es : List (RateKey Network × Entry))
      → any (is_used m) es ≡ true
      → length (remove_used same_network m es) + 1 ≡ length es
  unfolding remove_used
  remove_used-length m [] h = absurd (cc h)
  remove_used-length m ((k, e) ∷ es) h = elim (Bool-cases (e.last_used == m)) [
    | inl this ↦ rw this (omega arith)
    | inr other ↦ rw other (omega (arith, remove_used-length m es (rw other at h)))
  ]

  remove_oldest-length :
      (es : List (RateKey Network × Entry)) → length (remove_oldest same_network es) ≡ length es - 1
  unfolding remove_oldest
  remove_oldest-length [] = omega arith
  remove_oldest-length ((k, e) ∷ es) = omega (
    arith,
    remove_used-length (least_used same_network e.last_used es) ((k, e) ∷ es)
        (found (least_used_lem e.last_used es)),
  )
    where
      found :
          (least_used same_network e.last_used es ≡ e.last_used)
            ⊎ (any (is_used (least_used same_network e.last_used es)) es ≡ true)
          → any (is_used (least_used same_network e.last_used es)) ((k, e) ∷ es) ≡ true
      found (inl same) =
          rw (≡→== e.last_used (least_used same_network e.last_used es) (sym same)) refl
      found (inr later) = or-true (is_used (least_used same_network e.last_used es) (k, e)) later

  -- There is room for a key that is not among the entries.
  make_room-length :
      (capacity tick : ℕ) (k : RateKey Network) (es : List (RateKey Network × Entry))
      → 0 < capacity
      → length es ≤ capacity
      → (length (make_room same_network capacity tick k es) ≤ capacity)
        × (is_none (find same_network k (make_room same_network capacity tick k es)) ≡ true
            → length (make_room same_network capacity tick k es) < capacity)
  unfolding make_room evict
  make_room-length capacity tick k es pos le = elim (Option-cases (find same_network k es)) [
    | inr (e, found) ↦ rw (found, found) (le, λ h. absurd (cc h))
    | inl missing ↦ elim (Bool-cases (leb capacity (length es))) [
      | inl full ↦
          let rest = keep (λ r. ltb tick (r.1.last_tick + window)) es in
          let less = remove_oldest-length rest in
          let kept = keep-length (λ r. ltb tick (r.1.last_tick + window)) es in
          rw (missing, full) (omega (arith, less, kept), λ _. omega (arith, less, kept))
      | inr space ↦
          let lt = leb-false→gt capacity (length es) space in rw (missing, space) (le, λ _. lt)
    ]
  ]

  -- Recording in a shard within a positive capacity leaves it within the capacity.
  pub record_in-length :
      (capacity : ℕ) (k : RateKey Network) (tick : ℕ) (s : Shard Network)
      → 0 < capacity
      → length s.entries ≤ capacity
      → length (record_in same_network capacity k tick s).1.entries ≤ capacity
  unfolding record_in
  record_in-length capacity k tick s pos le =
      let es = make_room same_network capacity tick k s.entries in
      let (most, room) = make_room-length capacity tick k s.entries pos le in
      let entry =
        increment tick
          (advance tick (fresh same_network tick (s.used + 1) (find same_network k es))) in
      elim (Bool-cases (is_none (find same_network k es))) [
        | inl new_key ↦ omega (arith, rw new_key at (put-length k entry es), room new_key)
        | inr old_key ↦ omega (arith, rw old_key at (put-length k entry es), most)
      ]

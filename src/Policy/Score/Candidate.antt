-- ===== src/Policy/Score/Candidate.antt =====
-- The threshold that a score reaches, and the score itself.
use bagel.Prelude.{
  ℕ, ◌+◌, ◌≤◌, ◌<◌, min, ◌≡◌, refl, ap, ◌∙◌, ◌⊎◌, inl, inr, Bool, true, false, ◌&&◌, ◌||◌, Option,
  none, some, List, [], ◌∷◌, arith, ltb, leb, if◌then◌else◌, leb→le, Bool-cases, Option-cases,
  ||-false, any, All, u32_max,
}
use bagel.Policy.Score.{
  ThresholdState, SignalState, Tally, ScorecardState, add_signal, tally, candidate_of, result_of,
}

-- Each value is below the next.
abbrev pub Above : {Pattern : Type 0} → ℕ → List (ThresholdState Pattern) → Type 0
Above n ts = All (λ t. n < t.value) ts

abbrev pub IsAscending : {Pattern : Type 0} → List (ThresholdState Pattern) → Type 0
IsAscending [] = Unit
IsAscending (t ∷ ts) = Above t.value ts × IsAscending ts

-- The threshold itself, with its action, is in the list.
abbrev pub Among :
    {Pattern : Type 0} → ThresholdState Pattern → List (ThresholdState Pattern) → Type 0
Among c [] = ⊥
Among c (t ∷ ts) = (c ≡ t) ⊎ Among c ts

-- A candidate is one of the thresholds, is reached, and no threshold above it is reached. Without a
-- candidate, none is reached.
abbrev pub IsCandidate :
    {Pattern : Type 0}
    → ℕ
    → List (ThresholdState Pattern)
    → Option (ThresholdState Pattern)
    → Type 0
IsCandidate score ts none = any (λ t. leb t.value score) ts ≡ false
IsCandidate score ts (some c) =
    Among c ts
    × ((c.value ≤ score) × (any (λ t. ltb c.value t.value && leb t.value score) ts ≡ false))

module _ {Ast : Type 0} (holds : Ast → Option Bool) where
  -- The weight of a signal that holds.
  abbrev pub weight_of : SignalState Ast → ℕ
  weight_of s = elim (holds s.condition) [ some true ↦ s.weight | _ ↦ 0 ]

  abbrev pub total : List (SignalState Ast) → ℕ
  total [] = 0
  total (s ∷ ss) = weight_of s + total ss

  add_signal-score :
      (s : SignalState Ast) (t : Tally)
      → t.score ≤ u32_max
      → (add_signal holds s t).score ≡ min (t.score + weight_of s) u32_max
  unfolding add_signal
  add_signal-score s t h = elim (Option-cases (holds s.condition)) [
    | inl e ↦ rw (e, add_signal, weight_of) (omega (arith, h))
    | inr (true, e) ↦ rw (e, add_signal, weight_of) refl
    | inr (false, e) ↦ rw (e, add_signal, weight_of) (omega (arith, h))
  ]

  tally-score :
      (ss : List (SignalState Ast)) (t : Tally)
      → t.score ≤ u32_max
      → (tally holds ss t).score ≡ min (t.score + total ss) u32_max
  unfolding tally
  tally-score [] t h = omega (arith, h)
  tally-score (s ∷ ss) t h =
      let one = add_signal-score s t h in
      tally-score ss (add_signal holds s t) (omega (arith, one)) ∙ omega (arith, one)

  Above-Among :
      {Pattern : Type 0} (n : ℕ) (c : ThresholdState Pattern) (ts : List (ThresholdState Pattern))
      → Above n ts
      → Among c ts
      → n < c.value
  Above-Among n c [] h k = absurd k
  Above-Among n c (t ∷ ts) h (inl e) = omega (arith, h.0, ap (λ u. u.value) e)
  Above-Among n c (t ∷ ts) h (inr k) = Above-Among n c ts h.1 k

  any-none :
      {A : Type 0} (p q : A → Bool) (xs : List A)
      → any q xs ≡ false
      → any (λ x. p x && q x) xs ≡ false
  any-none p q [] h = refl
  any-none p q (x ∷ xs) h =
      let (here, later) = ||-false (q x) (any q xs) h in
      rw (here, any-none p q xs later) (no_more (p x))
    where
      no_more : (a : Bool) → ((a && false) || false) ≡ false
      no_more a = ground arith

  candidate_of-IsCandidate :
      {Pattern : Type 0} (score : ℕ) (ts : List (ThresholdState Pattern))
      → IsAscending ts
      → IsCandidate score ts (candidate_of holds score ts)
  unfolding candidate_of
  candidate_of-IsCandidate score [] h = refl
  candidate_of-IsCandidate score (t ∷ ts) h =
      from_rest (candidate_of holds score ts) (candidate_of-IsCandidate score ts h.1)
    where
      from_rest :
          (later : Option (ThresholdState _))
          → IsCandidate score ts later
          → IsCandidate score
              (t ∷ ts)
              (elim later [ some u ↦ some u | none ↦ if leb t.value score then some t else none ])
      from_rest (some c) (one, (low, top)) =
          (inr one, (low, rw (passed (Above-Among t.value c ts h.0 one), top) refl))
        where
          passed : t.value < c.value → (ltb c.value t.value && leb t.value score) ≡ false
          passed lt = ground arith
      from_rest none k = elim (Bool-cases (leb t.value score)) [
        | inl e ↦ rw e (
          inl refl,
          (
            leb→le t.value score e,
            rw
                (
                  irreflexive t.value (leb t.value score),
                  any-none (λ u. ltb t.value u.value) (λ u. leb u.value score) ts k,
                )
                refl,
          ),
        )
        | inr e ↦ rw (e, e, k) refl
      ]
        where
          irreflexive : (n : ℕ) (b : Bool) → (ltb n n && b) ≡ false
          irreflexive n b = ground arith

  pub result_of-IsCandidate :
      {Pattern : Type 0} (card : ScorecardState Ast Pattern)
      → IsAscending card.thresholds
      → ((result_of holds card).score ≡ min (total card.signals) u32_max)
        × IsCandidate (result_of holds card).score card.thresholds (result_of holds card).candidate
  unfolding result_of
  result_of-IsCandidate card h = (
    tally-score card.signals (record { score = 0; matched = []; errors = [] }) (omega arith)
        ∙ omega arith,
    candidate_of-IsCandidate _ card.thresholds h,
  )

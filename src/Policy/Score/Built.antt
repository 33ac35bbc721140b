-- ===== src/Policy/Score/Built.antt =====
-- What the scorecards that are built promise, and what they give a request.
use bagel.Prelude.{
  ℕ, ◌<◌, min, String, ◌≡◌, sym, ap, ◌∙◌, ◌≢◌, inl, inr, Bool, false, not, ◌&&◌, Option, none, some,
  List, [], ◌∷◌, arith, leb, ◌==◌, leb→le, Bool-cases, is_none, Option-cases, leb-false→gt,
  ||-false, ≡→==, any, All, u32_max,
}
use mathlib.Core.Option.{some-injective}
use bagel.Policy.Rules.{Action}
use bagel.Policy.Score.{
  ok, ThresholdState, ScorecardState, ScoreResult, find_card, result_of, evaluate, is_none_or,
}
use bagel.Policy.Score.Build.{
  ThresholdConfig, ScorecardConfig, insert_threshold, sort_thresholds, elem, or_default,
  build_thresholds, build_card, build_cards, build,
}
use bagel.Policy.Ensures.{Ensures, Ensures-ok, Ensures-err, Ensures-bind, Ensures-if}
use bagel.Policy.Score.Sourced.{
  CandidateFrom, All-insert, All-sort, Among-All, FromCards, build_threshold-IsFrom,
  build_cards-From,
}
use bagel.Policy.Score.Candidate.{Above, IsAscending, IsCandidate, total, result_of-IsCandidate}

module _ {Pattern : Type 0} where
  -- No value stands twice.
  abbrev IsDistinct : List (ThresholdState Pattern) → Type 0
  IsDistinct [] = Unit
  IsDistinct (t ∷ ts) = All (λ u. u.value ≢ t.value) ts × IsDistinct ts

  Above-le : (m n : ℕ) (ts : List (ThresholdState Pattern)) → m < n → Above n ts → Above m ts
  Above-le m n [] lt h = tt
  Above-le m n (t ∷ ts) lt h = (omega (arith, lt, h.0), Above-le m n ts lt h.1)

  insert-IsAscending :
      (t : ThresholdState Pattern) (ts : List (ThresholdState Pattern))
      → All (λ u. u.value ≢ t.value) ts
      → IsAscending ts
      → IsAscending (insert_threshold t ts)
  unfolding insert_threshold
  insert-IsAscending t [] d h = (tt, tt)
  insert-IsAscending t (u ∷ us) d h = elim (Bool-cases (leb t.value u.value)) [
    | inl e ↦
        let lt : t.value < u.value = omega (arith, leb→le t.value u.value e, d.0) in
        rw e ((lt, Above-le t.value u.value us lt h.0), h)
    | inr e ↦ rw e (
      All-insert (λ w. u.value < w.value) t us (leb-false→gt t.value u.value e) h.0,
      insert-IsAscending t us d.1 h.1,
    )
  ]

  sort-IsAscending :
      (ts : List (ThresholdState Pattern)) → IsDistinct ts → IsAscending (sort_thresholds ts)
  unfolding sort_thresholds
  sort-IsAscending [] h = tt
  sort-IsAscending (t ∷ ts) h =
      insert-IsAscending t (sort_thresholds ts) (All-sort (λ u. u.value ≢ t.value) ts h.0)
        (sort-IsAscending ts h.1)

module _ {Ast Pattern : Type 0} (compile : String → Option Ast)
    (parse_action : ThresholdConfig → Option (Action Pattern)) (lowercase : String → String) where
  -- New to the values so far, and to each other.
  IsNew : List ℕ → List (ThresholdState Pattern) → Type 0
  IsNew values ts = All (λ u. any (λ v. v == u.value) values ≡ false) ts × IsDistinct ts

  IsNew-cons :
      (values : List ℕ) (t : ThresholdState Pattern) (ts : List (ThresholdState Pattern))
      → any (λ v. v == t.value) values ≡ false
      → IsNew (t.value ∷ values) ts
      → IsNew values (t ∷ ts)
  unfolding IsNew
  IsNew-cons values t ts fresh (old, distinct) = ((fresh, older ts old), (apart ts old, distinct))
    where
      older :
          (us : List (ThresholdState Pattern))
          → All (λ u. any (λ v. v == u.value) (t.value ∷ values) ≡ false) us
          → All (λ u. any (λ v. v == u.value) values ≡ false) us
      older [] h = tt
      older (u ∷ us) h = ((||-false (t.value == u.value) _ h.0).1, older us h.1)

      apart :
          (us : List (ThresholdState Pattern))
          → All (λ u. any (λ v. v == u.value) (t.value ∷ values) ≡ false) us
          → All (λ u. u.value ≢ t.value) us
      apart [] h = tt
      apart (u ∷ us) h = (
        λ same.
            absurd (cc ((||-false (t.value == u.value) _ h.0).0, ≡→== t.value u.value (sym same))),
        apart us h.1,
      )

  build_thresholds-IsNew :
      (card : String) (values : List ℕ) (cs : List ThresholdConfig)
      → Ensures (IsNew values) (build_thresholds compile parse_action lowercase card values cs)
  unfolding build_thresholds
  build_thresholds-IsNew card values [] = Ensures-ok _ (unfold IsNew in (tt, tt))
  build_thresholds-IsNew card values (c ∷ cs) =
      Ensures-if (any (λ v. v == c.value) values) (λ _. Ensures-err _)
        λ fresh. Ensures-bind λ t e. Ensures-bind λ ts k.
          let same = ((build_threshold-IsFrom compile parse_action lowercase card c).at t e).0 in
          Ensures-ok _ (
            IsNew-cons values t ts (ap (λ n. any (λ v. v == n) values) same ∙ fresh)
              (rw same ((build_thresholds-IsNew card (c.value ∷ values) cs).at ts k)))

  IsNew-IsDistinct :
      (values : List ℕ) (ts : List (ThresholdState Pattern)) → IsNew values ts → IsDistinct ts
  unfolding IsNew
  IsNew-IsDistinct values ts h = h.1

  build_card-IsAscending :
      (c : ScorecardConfig)
      → Ensures (λ card. IsAscending card.thresholds) (build_card compile parse_action lowercase c)
  unfolding build_card
  build_card-IsAscending c = Ensures-bind λ mode _. Ensures-bind λ condition _.
      Ensures-bind λ signals _. Ensures-bind λ ts e. Ensures-ok _ (
        sort-IsAscending ts
          (IsNew-IsDistinct [] ts ((build_thresholds-IsNew c.name [] c.thresholds).at ts e)))

  build_cards-IsAscending :
      (names : List String) (unconditional : Bool) (cs : List ScorecardConfig)
      → Ensures
          (All (λ card. IsAscending card.thresholds))
          (build_cards compile parse_action lowercase names unconditional cs)
  unfolding build_cards
  build_cards-IsAscending names unconditional [] = Ensures-ok _ tt
  build_cards-IsAscending names unconditional (c ∷ cs) =
      Ensures-if (elem c.name names) (λ _. Ensures-err _)
        λ _.
          Ensures-if unconditional (λ _. Ensures-err _)
            λ _. Ensures-bind λ card e. Ensures-bind λ later k. Ensures-ok (card ∷ later) (
              (build_card-IsAscending c).at card e,
              (build_cards-IsAscending (c.name ∷ names) (is_none c.condition) cs).at later k,
            )

  -- The thresholds are sorted, and configured for a scorecard of that name.
  abbrev IsGood : List ScorecardConfig → ScorecardState Ast Pattern → Type 0
  IsGood cs card =
      IsAscending card.thresholds
      × All (λ u. FromCards compile parse_action lowercase card.name u cs) card.thresholds

  build-IsGood :
      (capacity : Option ℕ) (cs : List ScorecardConfig)
      → Ensures (λ p. All (IsGood cs) p.1) (build compile parse_action lowercase capacity cs)
  unfolding build
  build-IsGood capacity cs =
      Ensures-if (not (leb 1024 (or_default capacity) && leb (or_default capacity) 1048576))
        (λ _. Ensures-err _)
        λ _. Ensures-bind λ cards e. Ensures-ok _ (
          both cards ((build_cards-IsAscending [] false cs).at cards e)
            ((build_cards-From compile parse_action lowercase [] false cs).at cards e))
    where
      both :
          (cards : List (ScorecardState Ast Pattern))
          → All (λ card. IsAscending card.thresholds) cards
          → All
              (λ card.
                All (λ u. FromCards compile parse_action lowercase card.name u cs) card.thresholds)
              cards
          → All (IsGood cs) cards
      both [] h k = tt
      both (c ∷ later) h k = ((h.0, k.0), both later h.1 k.1)

  candidate-From :
      (score : ℕ) (ts : List (ThresholdState Pattern)) (c : Option (ThresholdState Pattern))
      (name : String) (cs : List ScorecardConfig)
      → IsCandidate score ts c
      → All (λ u. FromCards compile parse_action lowercase name u cs) ts
      → CandidateFrom compile parse_action lowercase c name cs
  candidate-From score ts none name cs h k = tt
  candidate-From score ts (some u) name cs h k = Among-All _ u ts h.0 k

  module _ (holds : Ast → Option Bool) where
    found-All :
        (P : ScorecardState Ast Pattern → Type 0) (cards : List (ScorecardState Ast Pattern))
        (card : ScorecardState Ast Pattern)
        → All P cards
        → find_card holds cards ≡ some card
        → P card
    unfolding find_card
    found-All P [] card h e = absurd (cc e)
    found-All P (c ∷ cs) card h e = elim (Bool-cases (is_none_or holds c.condition)) [
      | inl k ↦ rw (← some-injective _ _ (rw k at e)) h.0
      | inr k ↦ found-All P cs card h.1 (rw k at e)
    ]

    -- Whatever scorecards `build` accepts: the score of the one that is selected is the sum of
    -- the weights of the signals that hold, up to 2^32 - 1, and its candidate is one of the
    -- thresholds of that scorecard, with its action, which the score reaches and above which it
    -- reaches none; without a candidate it reaches none at all. The candidate has the value, the
    -- action and the kind of a threshold that is configured for a scorecard of that name.
    pub evaluate-IsCandidate :
        (capacity : Option ℕ) (cs : List ScorecardConfig) (size : ℕ)
        (cards : List (ScorecardState Ast Pattern)) (r : ScoreResult Ast Pattern)
        → build compile parse_action lowercase capacity cs ≡ ok (size, cards)
        → evaluate holds cards ≡ some r
        → (r.score ≡ min (total holds r.scorecard.signals) u32_max)
          × IsCandidate r.score r.scorecard.thresholds r.candidate
          × CandidateFrom compile parse_action lowercase r.candidate r.scorecard.name cs
    unfolding evaluate
    evaluate-IsCandidate capacity cs size cards r h e =
        elim (Option-cases (find_card holds cards)) [
          | inl k ↦ absurd (cc (rw (k, evaluate) at e))
          | inr (card, k) ↦
              let (ascending, named) =
                found-All (IsGood cs) cards card ((build-IsGood capacity cs).at (size, cards) h)
                  k in
              let (score, candidate) = result_of-IsCandidate holds card ascending in
              rw (← some-injective _ _ (rw (k, evaluate) at e)) (
                unfold result_of in
                (score, candidate, candidate-From _ card.thresholds _ card.name cs candidate named))
        ]

-- ===== src/Policy/Score/Sourced.antt =====
-- The thresholds of the scorecards that are built, put down to those that are configured.
use bagel.Prelude.{
  ℕ, String, ◌≡◌, refl, ◌⊎◌, inl, inr, Bool, ◌&&◌, Option, none, some, List, [], ◌∷◌, leb, ◌==◌,
  if◌then◌else◌, Bool-cases, is_none, any, All, All-map,
}
use bagel.Policy.Rules.{Action}
use bagel.Policy.Score.{ok, err, ThresholdState, bad_threshold, no_challenges}
use bagel.Policy.Score.Build.{
  ThresholdConfig, ScorecardConfig, insert_threshold, sort_thresholds, forbidden, elem,
  is_challenge, no_names, action_kind, build_threshold, build_thresholds, build_card, build_cards,
}
use bagel.Policy.Ensures.{Ensures, Ensures-ok, Ensures-err, Ensures-bind, Ensures-if}
use bagel.Policy.Score.Candidate.{Among}

module _ {Pattern : Type 0} where
  pub All-insert {κ} :
      (P : ThresholdState Pattern → Type κ) (t : ThresholdState Pattern)
      (ts : List (ThresholdState Pattern))
      → P t
      → All P ts
      → All P (insert_threshold t ts)
  unfolding insert_threshold
  All-insert P t [] h k = (h, tt)
  All-insert P t (u ∷ us) h k = elim (Bool-cases (leb t.value u.value)) [
    | inl e ↦ rw e (h, k)
    | inr e ↦ rw e (k.0, All-insert P t us h k.1)
  ]

  pub All-sort {κ} :
      (P : ThresholdState Pattern → Type κ) (ts : List (ThresholdState Pattern))
      → All P ts
      → All P (sort_thresholds ts)
  unfolding sort_thresholds
  All-sort P [] h = tt
  All-sort P (t ∷ ts) h = All-insert P t (sort_thresholds ts) h.0 (All-sort P ts h.1)

  pub Among-All :
      (P : ThresholdState Pattern → Type 0) (c : ThresholdState Pattern)
      (ts : List (ThresholdState Pattern))
      → Among c ts
      → All P ts
      → P c
  Among-All P c [] h k = absurd h
  Among-All P c (t ∷ ts) (inl e) k = rw e k.0
  Among-All P c (t ∷ ts) (inr h) k = Among-All P c ts h k.1

module _ {Ast Pattern : Type 0} (compile : String → Option Ast)
    (parse_action : ThresholdConfig → Option (Action Pattern)) (lowercase : String → String) where
  -- The value, the action and the kind are those of the configured threshold.
  abbrev pub IsFrom : ThresholdState Pattern → ThresholdConfig → Type 0
  IsFrom u t =
      (u.value ≡ t.value)
      × (parse_action t ≡ some u.action)
      × (u.kind ≡ action_kind (lowercase t.action))

  abbrev pub FromThresholds : ThresholdState Pattern → List ThresholdConfig → Type 0
  FromThresholds u [] = ⊥
  FromThresholds u (t ∷ ts) = IsFrom u t ⊎ FromThresholds u ts

  -- One of the thresholds of a configured scorecard of that name.
  abbrev pub FromCards : String → ThresholdState Pattern → List ScorecardConfig → Type 0
  FromCards name u [] = ⊥
  FromCards name u (c ∷ cs) =
      ((name ≡ c.name) × FromThresholds u c.thresholds) ⊎ FromCards name u cs

  abbrev pub CandidateFrom :
      Option (ThresholdState Pattern) → String → List ScorecardConfig → Type 0
  CandidateFrom none name cs = Unit
  CandidateFrom (some u) name cs = FromCards name u cs

  pub build_threshold-IsFrom :
      (card : String) (t : ThresholdConfig)
      → Ensures (λ u. IsFrom u t) (build_threshold compile parse_action lowercase card t)
  unfolding build_threshold
  build_threshold-IsFrom card t =
      Ensures-if (elem (lowercase t.action) forbidden) (λ _. Ensures-err _)
        λ _. parsed (parse_action t) refl
    where
      parsed :
          (action : Option (Action Pattern))
          → parse_action t ≡ action
          → Ensures
              (λ (u : ThresholdState Pattern). IsFrom u t)
              (elim action [
                | none ↦ err (bad_threshold card t.value)
                | some action ↦
                    if is_challenge action && no_names t.challenges
                    then err (no_challenges card t.value)
                    else ok (record {
                      value = t.value;
                      action = action;
                      kind = action_kind (lowercase t.action);
                    })
              ])
      parsed none e = Ensures-err _
      parsed (some action) e =
          Ensures-if (is_challenge action && no_names t.challenges) (λ _. Ensures-err _)
            (λ _. Ensures-ok _ (refl, e, refl))

  build_thresholds-From :
      (card : String) (values : List ℕ) (cs : List ThresholdConfig)
      → Ensures
          (All (λ u. FromThresholds u cs))
          (build_thresholds compile parse_action lowercase card values cs)
  unfolding build_thresholds
  build_thresholds-From card values [] = Ensures-ok _ tt
  build_thresholds-From card values (c ∷ cs) =
      Ensures-if (any (λ v. v == c.value) values) (λ _. Ensures-err _)
        λ _. Ensures-bind λ t e. Ensures-bind λ ts k. Ensures-ok (t ∷ ts) (
          inl ((build_threshold-IsFrom card c).at t e),
          All-map ts (λ u h. inr h) ((build_thresholds-From card (c.value ∷ values) cs).at ts k),
        )

  build_card-From :
      (c : ScorecardConfig)
      → Ensures
          (λ card. All (λ u. (card.name ≡ c.name) × FromThresholds u c.thresholds) card.thresholds)
          (build_card compile parse_action lowercase c)
  unfolding build_card
  build_card-From c = Ensures-bind λ mode _. Ensures-bind λ condition _. Ensures-bind λ signals _.
      Ensures-bind λ ts e. Ensures-ok _ (
        All-sort (λ u. (c.name ≡ c.name) × FromThresholds u c.thresholds) ts
          (All-map ts (λ u h. (refl, h)) ((build_thresholds-From c.name [] c.thresholds).at ts e)))

  pub build_cards-From :
      (names : List String) (unconditional : Bool) (cs : List ScorecardConfig)
      → Ensures
          (All (λ card. All (λ u. FromCards card.name u cs) card.thresholds))
          (build_cards compile parse_action lowercase names unconditional cs)
  unfolding build_cards
  build_cards-From names unconditional [] = Ensures-ok _ tt
  build_cards-From names unconditional (c ∷ cs) =
      Ensures-if (elem c.name names) (λ _. Ensures-err _)
        λ _.
          Ensures-if unconditional (λ _. Ensures-err _)
            λ _. Ensures-bind λ card e. Ensures-bind λ later k. Ensures-ok (card ∷ later) (
              All-map card.thresholds (λ u h. inl h) ((build_card-From c).at card e),
              All-map later (λ d. All-map d.thresholds (λ u h. inr h))
                  ((build_cards-From (c.name ∷ names) (is_none c.condition) cs).at later k),
            )

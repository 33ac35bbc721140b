-- ===== src/Policy/Score.antt =====
-- crates/bagel-web/src/rule/scoring.rs: scorecards, how they are built and what they give a request.
pub mod Build
pub mod Candidate
pub mod Sourced
pub mod Built
use bagel.Prelude.{
  ℕ, ◌+◌, min, String, Bool, true, false, Option, none, some, List, [], ◌∷◌, ◌++◌, leb,
  if◌then◌else◌, u32_max,
}
use bagel.Policy.Rules.{Action, challenge}

pub data ScoreMode : Type 0 where
  observe enforce : ScoreMode

pub data Error : Type 0 where
  bad_capacity : ℕ → Error
  duplicate_scorecard unreachable_scorecard bad_condition : String → Error
  unknown_mode duplicate_signal bad_signal : String → String → Error
  duplicate_threshold bad_threshold no_challenges : String → ℕ → Error
  forbidden_action : String → ℕ → String → Error
  -- those of `Action::parse`
  kind_misplaced difficulty_misplaced maze_missing kind_missing bad_kind backend_missing : Error
  smear_settings bad_pattern match_without_rewrite : Error
  bad_header unknown_action unknown_sub_action : String → Error

pub data Result {ℓ} (Value : Type ℓ) : Type ℓ where
  ok : Value → Result Value
  err : Error → Result Value

module _ {ℓ κ} {Value : Type ℓ} {Next : Type κ} where
  infixl 5 ◌>>=◌
  unfoldable pub ◌>>=◌ : Result Value → (Value → Result Next) → Result Next
  err e >>= f = err e
  ok a >>= f = f a

pub record SignalState (Ast : Type 0) : Type 0 where
  pub name : String
  pub condition : Ast
  pub weight : ℕ

pub record ThresholdState (Pattern : Type 0) : Type 0 where
  pub value : ℕ
  pub action : Action Pattern
  pub kind : String

pub record ScorecardState (Ast Pattern : Type 0) : Type 0 where
  pub name : String
  pub condition : Option Ast
  pub mode : ScoreMode
  pub signals : List (SignalState Ast)
  pub thresholds : List (ThresholdState Pattern)

pub record ScoreResult (Ast Pattern : Type 0) : Type 0 where
  pub scorecard : ScorecardState Ast Pattern
  pub score : ℕ
  pub matched : List String
  pub errors : List String
  pub candidate : Option (ThresholdState Pattern)

-- What the loop over the signals has come to.
pub record Tally : Type 0 where
  pub score : ℕ
  pub matched : List String
  pub errors : List String

-- `holds` is rhai's evaluation, `none` where it fails.
module _ {Ast : Type 0} (holds : Ast → Option Bool) where
  abbrev pub is_none_or : Option Ast → Bool
  is_none_or none = true
  is_none_or (some ast) = elim (holds ast) [ some b ↦ b | none ↦ false ]

  unfoldable pub find_card :
      {Pattern : Type 0} → List (ScorecardState Ast Pattern) → Option (ScorecardState Ast Pattern)
  find_card [] = none
  find_card (c ∷ cs) = if is_none_or c.condition then some c else find_card cs

  -- `saturating_add` on a `u32`.
  unfoldable pub add_signal : SignalState Ast → Tally → Tally
  add_signal s t = elim (holds s.condition) [
    | some true ↦ record {
      score = min (t.score + s.weight) u32_max;
      matched = t.matched ++ (s.name ∷ []);
      errors = t.errors;
    }
    | some false ↦ t
    | none ↦ record { score = t.score; matched = t.matched; errors = t.errors ++ (s.name ∷ []) }
  ]

  unfoldable pub tally : List (SignalState Ast) → Tally → Tally
  tally [] t = t
  tally (s ∷ ss) t = tally ss (add_signal s t)

  -- `iter().rev().find(..)`: the last threshold that the score reaches.
  unfoldable pub candidate_of :
      {Pattern : Type 0} → ℕ → List (ThresholdState Pattern) → Option (ThresholdState Pattern)
  candidate_of score [] = none
  candidate_of score (t ∷ ts) = elim (candidate_of score ts) [
    | some later ↦ some later
    | none ↦ if leb t.value score then some t else none
  ]

  unfoldable pub result_of :
      {Pattern : Type 0} → ScorecardState Ast Pattern → ScoreResult Ast Pattern
  result_of card =
      let t = tally card.signals (record { score = 0; matched = []; errors = [] }) in
      record {
        scorecard = card;
        score = t.score;
        matched = t.matched;
        errors = t.errors;
        candidate = candidate_of t.score card.thresholds;
      }

  unfoldable pub evaluate :
      {Pattern : Type 0} → List (ScorecardState Ast Pattern) → Option (ScoreResult Ast Pattern)
  evaluate cards = elim (find_card cards) [ none ↦ none | some card ↦ some (result_of card) ]

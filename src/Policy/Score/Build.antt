-- ===== src/Policy/Score/Build.antt =====
-- `ScoringState::build`: scorecards from their configuration.
use bagel.Prelude.{
  ℕ, String, Bool, true, false, not, ◌&&◌, Option, none, some, List, [], ◌∷◌, str_eq, leb, ◌==◌,
  if◌then◌else◌, is_none, any,
}
use bagel.Policy.Rules.{Action, challenge}
use bagel.Policy.Score.{
  ok, err, observe, enforce, bad_capacity, duplicate_scorecard, unreachable_scorecard,
  bad_condition, unknown_mode, duplicate_signal, bad_signal, duplicate_threshold, bad_threshold,
  no_challenges, forbidden_action, Result, ScoreMode, ◌>>=◌, SignalState, ThresholdState,
  ScorecardState,
}

-- The configuration of a threshold, a signal and a scorecard.
pub record ThresholdConfig : Type 0 where
  pub value : ℕ
  pub action : String
  pub challenges : List String

pub record SignalConfig : Type 0 where
  pub name : String
  pub condition : String
  pub weight : Option ℕ

pub record ScorecardConfig : Type 0 where
  pub name : String
  pub mode : Option String
  pub condition : Option String
  pub signals : List SignalConfig
  pub thresholds : List ThresholdConfig

abbrev pub elem : String → List String → Bool
elem name names = any (λ n. str_eq n name) names

-- FORBIDDEN_THRESHOLD_ACTIONS
abbrev pub forbidden : List String
forbidden = "none" ∷ "context" ∷ "check" ∷ "pass" ∷ "lure" ∷ "beacon" ∷ []

abbrev pub kinds : List String
kinds = "challenge" ∷ "deny" ∷ "block" ∷ "code" ∷ "drop" ∷ "proxy" ∷ "tarpit" ∷ "smear" ∷ []

unfoldable pub action_kind : String → String
action_kind action = if elem action kinds then action else "unknown"

abbrev pub is_challenge : {Pattern : Type 0} → Action Pattern → Bool
is_challenge (challenge c) = true
is_challenge _ = false

abbrev pub no_names : List String → Bool
no_names [] = true
no_names (n ∷ ns) = false

-- `sort_by_key(|threshold| threshold.value)`
unfoldable pub insert_threshold :
    {Pattern : Type 0}
    → ThresholdState Pattern
    → List (ThresholdState Pattern)
    → List (ThresholdState Pattern)
insert_threshold t [] = t ∷ []
insert_threshold t (u ∷ us) =
    let later = insert_threshold t us in if leb t.value u.value then t ∷ u ∷ us else u ∷ later

unfoldable pub sort_thresholds :
    {Pattern : Type 0} → List (ThresholdState Pattern) → List (ThresholdState Pattern)
sort_thresholds [] = []
sort_thresholds (t ∷ ts) = insert_threshold t (sort_thresholds ts)

unfoldable pub mode_of : String → Option String → Result ScoreMode
mode_of card none = ok observe
mode_of card (some m) =
    if str_eq m "observe"
    then ok observe
    else if str_eq m "enforce"
    then ok enforce
    else err (unknown_mode card m)

abbrev pub or_default : Option ℕ → ℕ
or_default none = 65536
or_default (some capacity) = capacity

-- `compile` reads an expression with the prelude, `parse_action` is `Action::parse` with the settings
-- and the challenges of the threshold, and `lowercase` is `str::to_lowercase`.
module _ {Ast Pattern : Type 0} (compile : String → Option Ast)
    (parse_action : ThresholdConfig → Option (Action Pattern)) (lowercase : String → String) where
  unfoldable pub compile_optional : String → Option String → Result (Option Ast)
  compile_optional card none = ok none
  compile_optional card (some e) = elim (compile e) [
    | none ↦ err (bad_condition card)
    | some ast ↦ ok (some ast)
  ]

  unfoldable pub build_signals :
      String → List String → List SignalConfig → Result (List (SignalState Ast))
  build_signals card names [] = ok []
  build_signals card names (s ∷ ss) =
      let rest = build_signals card (s.name ∷ names) ss in
      if elem s.name names then err (duplicate_signal card s.name) else elim (compile s.condition) [
        | none ↦ err (bad_signal card s.name)
        | some ast ↦ do
          later ← rest
          ok (
              record {
                name = s.name;
                condition = ast;
                weight = elim s.weight [ none ↦ 0 | some w ↦ w ];
              }
              ∷ later)
      ]

  unfoldable pub build_threshold : String → ThresholdConfig → Result (ThresholdState Pattern)
  build_threshold card t =
      if elem (lowercase t.action) forbidden
      then err (forbidden_action card t.value (lowercase t.action))
      else elim (parse_action t) [
        | none ↦ err (bad_threshold card t.value)
        | some action ↦
            if is_challenge action && no_names t.challenges
            then err (no_challenges card t.value)
            else ok (record {
              value = t.value;
              action = action;
              kind = action_kind (lowercase t.action);
            })
      ]

  unfoldable pub build_thresholds :
      String → List ℕ → List ThresholdConfig → Result (List (ThresholdState Pattern))
  build_thresholds card values [] = ok []
  build_thresholds card values (t ∷ ts) =
      let rest = build_thresholds card (t.value ∷ values) ts in
      if any (λ v. v == t.value) values
      then err (duplicate_threshold card t.value)
      else do threshold ← build_threshold card t; later ← rest; ok (threshold ∷ later)

  unfoldable pub build_card : ScorecardConfig → Result (ScorecardState Ast Pattern)
  build_card c = do
    mode ← mode_of c.name c.mode
    condition ← compile_optional c.name c.condition
    signals ← build_signals c.name [] c.signals
    thresholds ← build_thresholds c.name [] c.thresholds
    ok (record {
      name = c.name;
      condition = condition;
      mode = mode;
      signals = signals;
      thresholds = sort_thresholds thresholds;
    })

  -- The loop over the scorecards: the names so far, and whether one has no condition.
  unfoldable pub build_cards :
      List String → Bool → List ScorecardConfig → Result (List (ScorecardState Ast Pattern))
  build_cards names unconditional [] = ok []
  build_cards names unconditional (c ∷ cs) =
      let rest = build_cards (c.name ∷ names) (is_none c.condition) cs in
      if elem c.name names
      then err (duplicate_scorecard c.name)
      else if unconditional
      then err (unreachable_scorecard c.name)
      else do card ← build_card c; later ← rest; ok (card ∷ later)

  -- DEFAULT_CAPACITY, MIN_CAPACITY and MAX_CAPACITY of net/rate.rs.
  unfoldable pub build :
      Option ℕ → List ScorecardConfig → Result (ℕ × List (ScorecardState Ast Pattern))
  build capacity cards =
      let rate_capacity = or_default capacity in
      if not (leb 1024 rate_capacity && leb rate_capacity 1048576)
      then err (bad_capacity rate_capacity)
      else do built ← build_cards [] false cards; ok (rate_capacity, built)

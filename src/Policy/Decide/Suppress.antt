-- ===== src/Policy/Decide/Suppress.antt =====
-- When the score has a say.
use bagel.Prelude.{◌≡◌, refl, not, Option, none, some, if◌then◌else◌}
use bagel.Policy.Rules.{RuleList, View, Calls}
use bagel.Policy.Rules.Walk.{Terminal, none_yet, finished, dropped_by, run_rules}
use bagel.Policy.Score.{ScoreMode, observe, enforce, ThresholdState, ScoreResult}
use bagel.Policy.Decide.{
  no_candidate, suppressed_by_rule, is_open, status_of_mode, candidate_status, candidate,
  apply_candidate, apply_candidate_action, conclude, decide,
}

-- The candidate that an enforcing scorecard has, if any.
abbrev pub enforced :
    {Ast Pattern : Type 0} → Option (ScoreResult Ast Pattern) → Option (ThresholdState Pattern)
enforced none = none
enforced (some result) = elim result.scorecard.mode [ observe ↦ none | enforce ↦ result.candidate ]

module _ {Ast Pattern Body State : Type 0} (calls : Calls Ast Pattern Body State) where
  -- The rules decide; where they leave the request open, the enforced candidate does.
  abbrev pub rules_then_score :
      Option (ThresholdState Pattern) → View → Terminal Body × State → Terminal Body × State
  rules_then_score (some t) view (none_yet, st) =
      conclude none_yet (apply_candidate_action calls t.action view st)
  rules_then_score _ view ruled = ruled

  by_candidate :
      (c : Option (ThresholdState Pattern)) (m : ScoreMode) (view : View)
      (ruled : Terminal Body × State)
      → apply_candidate calls
          (elim c [
            | none ↦ no_candidate
            | some t ↦ if not (is_open ruled.0) then suppressed_by_rule else status_of_mode m
          ])
          c
          view
          ruled
        ≡ rules_then_score (elim m [ observe ↦ none | enforce ↦ c ]) view ruled
  unfolding apply_candidate status_of_mode
  by_candidate none observe view ruled = refl
  by_candidate none enforce view ruled = refl
  by_candidate (some t) observe view (none_yet, st) = refl
  by_candidate (some t) observe view (finished r, st) = refl
  by_candidate (some t) observe view (dropped_by n, st) = refl
  by_candidate (some t) enforce view (none_yet, st) = refl
  by_candidate (some t) enforce view (finished r, st) = refl
  by_candidate (some t) enforce view (dropped_by n, st) = refl

  settled :
      (score : Option (ScoreResult Ast Pattern)) (view : View) (ruled : Terminal Body × State)
      → apply_candidate calls (candidate_status score ruled.0) (candidate score) view ruled
        ≡ rules_then_score (enforced score) view ruled
  unfolding candidate_status
  settled none view ruled = unfold apply_candidate in refl
  settled (some result) view ruled = by_candidate result.candidate result.scorecard.mode view ruled

  -- The outcome of a request, and the state after it, are those of the rules where a rule
  -- decides, and otherwise those of the candidate's action, if the scorecard is in force and has
  -- a candidate: scorecards that only observe change nothing.
  pub decide-rules_then_score :
      (rules : RuleList Ast Pattern) (score : Option (ScoreResult Ast Pattern)) (view : View)
      (st : State)
      → ((decide calls rules score view st).0, (decide calls rules score view st).2)
        ≡ rules_then_score (enforced score) view (run_rules calls rules view st)
  unfolding decide
  decide-rules_then_score rules score view st = settled score view (run_rules calls rules view st)

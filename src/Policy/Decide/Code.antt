-- ===== src/Policy/Decide/Code.antt =====
-- A scorecard's threshold with the action `code`.
use bagel.Prelude.{ℕ, ◌≡◌, refl, ap, ◌∙◌, Option, some}
use bagel.Policy.Rules.{code, RuleList, View, Calls, pass_response}
use bagel.Policy.Rules.Walk.{none_yet, finished, run_rules}
use bagel.Policy.Score.{ScoreResult, ThresholdState}
use bagel.Policy.Decide.{apply_candidate_action, dispatch_sub_action, conclude, decide}
use bagel.Policy.Decide.Suppress.{enforced, decide-rules_then_score}

module _ {Ast Pattern Body State : Type 0} (calls : Calls Ast Pattern Body State) where
  passed_on :
      (t : ThresholdState Pattern) (c : ℕ) (view : View) (st : State)
      → t.action ≡ code c
      → conclude none_yet (apply_candidate_action calls t.action view st)
        ≡ (finished (pass_response calls.empty_body), st)
  unfolding conclude apply_candidate_action dispatch_sub_action
  passed_on t c view st e = rw e refl

  -- Where the rules leave a request open and the candidate of a scorecard in force has the
  -- action `code`, the request passes to its backend, whatever the status of the action is.
  pub decide-code :
      (rules : RuleList Ast Pattern) (score : Option (ScoreResult Ast Pattern))
      (t : ThresholdState Pattern) (c : ℕ) (view : View) (st after : State)
      → run_rules calls rules view st ≡ (none_yet, after)
      → enforced score ≡ some t
      → t.action ≡ code c
      → ((decide calls rules score view st).0 ≡ finished (pass_response calls.empty_body))
        × ((decide calls rules score view st).2 ≡ after)
  decide-code rules score t c view st after open_still reached e =
      let settled =
        decide-rules_then_score calls rules score view st
        ∙ rw (open_still, reached) (passed_on t c view after e) in
      (ap (λ p. p.0) settled, ap (λ p. p.1) settled)

-- ===== src/Policy/Decide.antt =====
-- `handle_request` from the scores to the terminal, and `apply_candidate_action`.
pub mod Suppress
pub mod Code
use bagel.Prelude.{String, Bool, true, false, not, Option, none, some, if◌then◌else◌}
use bagel.Policy.Rules.{
  Marker, pass, proxy, Response, RuleOutcome, continue, dropped, handled, Action, nothing, passes,
  drops, smear, beacon, deny, block, code, tarpit, lure, report, proxies, context, challenge, check,
  ChallengeAction, SubAction, RuleState, RuleList, View, Calls, pass_response, proxy_outcome,
}
use bagel.Policy.Rules.Walk.{Terminal, none_yet, finished, dropped_by, run_rules}
use bagel.Policy.Score.{ScoreMode, observe, enforce, ThresholdState, ScoreResult}

pub data CandidateStatus : Type 0 where
  no_scorecard no_candidate suppressed_by_rule observed applied : CandidateStatus

abbrev pub is_open : {Body : Type 0} → Terminal Body → Bool
is_open none_yet = true
is_open _ = false

pub status_of_mode : ScoreMode → CandidateStatus
status_of_mode observe = observed
status_of_mode enforce = applied

pub candidate_status :
    {Ast Pattern Body : Type 0} → Option (ScoreResult Ast Pattern) → Terminal Body → CandidateStatus
candidate_status none terminal = no_scorecard
candidate_status (some result) terminal = elim result.candidate [
  | none ↦ no_candidate
  | some t ↦
      if not (is_open terminal) then suppressed_by_rule else status_of_mode result.scorecard.mode
]

abbrev pub candidate :
    {Ast Pattern : Type 0} → Option (ScoreResult Ast Pattern) → Option (ThresholdState Pattern)
candidate none = none
candidate (some result) = result.candidate

-- The terminal after the outcome of the candidate's action.
unfoldable pub conclude :
    {Body State : Type 0} → Terminal Body → RuleOutcome Body × State → Terminal Body × State
conclude terminal (continue, st) = (terminal, st)
conclude terminal (handled r, st) = (finished r, st)
conclude terminal (dropped, st) = (dropped_by none, st)

-- `terminal_action` of the decision.
unfoldable pub terminal_action : {Body : Type 0} → Terminal Body → Option String
terminal_action none_yet = none
terminal_action (finished r) = elim r.info [ none ↦ none | some (name, action) ↦ some action ]
terminal_action (dropped_by name) = some "drop"

abbrev pub or_unknown : Option String → String
or_unknown none = "unknown"
or_unknown (some s) = s

abbrev pub kind_of : {Pattern : Type 0} → Option (ThresholdState Pattern) → Option String
kind_of none = none
kind_of (some t) = some t.kind

-- The action of a response that is not proxied, with the candidate's status and the rules' terminal.
unfoldable pub handled_action :
    {Pattern : Type 0} → CandidateStatus → Option (ThresholdState Pattern) → Option String → String
handled_action applied t ruled = or_unknown (kind_of t)
handled_action _ t ruled = or_unknown ruled

unfoldable pub effective_action :
    {Pattern Body : Type 0}
    → CandidateStatus
    → Option (ThresholdState Pattern)
    → Option String
    → Terminal Body
    → String
effective_action status t ruled none_yet = "proxy"
effective_action status t ruled (dropped_by name) = "drop"
effective_action status t ruled (finished r) = elim r.marker [
  | some pass ↦ "pass"
  | some (proxy backend path) ↦ "proxy"
  | none ↦ handled_action status t ruled
]

module _ {Ast Pattern Body State : Type 0} (calls : Calls Ast Pattern Body State) where
  -- `dispatch_sub_action` of an action: those that it does not name pass.
  unfoldable pub dispatch_sub_action : Action Pattern → View → State → RuleOutcome Body × State
  dispatch_sub_action (tarpit maze) view st =
      let (r, after) = calls.tarpit_response maze view st in (handled r, after)
  dispatch_sub_action (deny c) view st = calls.deny_response c view st
  dispatch_sub_action (block c) view st = calls.block_response c view st
  dispatch_sub_action drops view st = (dropped, st)
  dispatch_sub_action smear view st = calls.smear_response view st
  dispatch_sub_action _ view st = (handled (pass_response calls.empty_body), st)

  unfoldable pub apply_candidate_action : Action Pattern → View → State → RuleOutcome Body × State
  apply_candidate_action (proxies pattern rewrite backend) view st =
      (proxy_outcome calls.expand calls.empty_body pattern rewrite backend, st)
  apply_candidate_action (challenge c) view st =
      calls.evaluate_challenge_action "scorecard" c false view st
  apply_candidate_action (tarpit maze) view st =
      let (r, after) = calls.tarpit_response maze view st in (handled r, after)
  apply_candidate_action (report kind) view st = (continue, st)
  apply_candidate_action (lure maze) view st = (continue, st)
  apply_candidate_action beacon view st = (continue, st)
  apply_candidate_action action view st = dispatch_sub_action action view st

  pub apply_candidate :
      CandidateStatus
      → Option (ThresholdState Pattern)
      → View
      → Terminal Body × State
      → Terminal Body × State
  apply_candidate applied (some t) view (terminal, st) =
      conclude terminal (apply_candidate_action t.action view st)
  apply_candidate _ _ view ruled = ruled

  -- The terminal and the effective action, with the state after them.
  pub decide :
      RuleList Ast Pattern
      → Option (ScoreResult Ast Pattern)
      → View
      → State
      → Terminal Body × String × State
  decide rules score view st =
      let ruled = run_rules calls rules view st in
      let status = candidate_status score ruled.0 in
      let (terminal, after) = apply_candidate status (candidate score) view ruled in
      (
        terminal,
        effective_action status (candidate score) (terminal_action ruled.0) terminal,
        after,
      )

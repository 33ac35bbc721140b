-- ===== src/Policy/Rules/Walk.antt =====
-- `evaluate_rule_recursive` and the loop over the top rules.
use bagel.Prelude.{String, true, false, Option, none, some}
use bagel.Policy.Rules.{
  continue, dropped, handled, nothing, passes, drops, smear, beacon, deny, block, code, tarpit,
  lure, report, proxies, context, challenge, check, rule, end, next, Response, RuleOutcome, Action,
  RuleState, RuleList, View, Calls, HeaderMap, tagged, pass_response, proxy_outcome,
  with_request_headers, attach_pending,
}

-- How the walk over the top rules ends. A drop names the top rule that led to it.
pub data Terminal (Body : Type 0) : Type 0 where
  none_yet : Terminal Body
  finished : Response Body → Terminal Body
  dropped_by : Option String → Terminal Body

unfoldable pub name_of : {Ast Pattern : Type 0} → RuleState Ast Pattern → String
name_of (rule name condition action children) = name

module _ {Ast Pattern Body State : Type 0} (calls : Calls Ast Pattern Body State) where
  -- The actions that do not look at the children.
  unfoldable pub act : String → Action Pattern → View → State → RuleOutcome Body × State
  act name passes view st = (tagged name "pass" (handled (pass_response calls.empty_body)), st)
  act name (deny c) view st =
      let (o, after) = calls.deny_response c view st in (tagged name "deny" o, after)
  act name (block c) view st =
      let (o, after) = calls.block_response c view st in (tagged name "block" o, after)
  act name (code c) view st = (tagged name "code" (handled (calls.status c)), st)
  act name drops view st = (dropped, st)
  act name (tarpit maze) view st =
      let (r, after) = calls.tarpit_response maze view st in
      (tagged name "tarpit" (handled r), after)
  act name smear view st =
      let (o, after) = calls.smear_response view st in (tagged name "smear" o, after)
  act name (lure maze) view st = (continue, calls.inject_lure maze view st)
  act name beacon view st = (continue, calls.inject_beacon view st)
  act name (report kind) view st = (continue, calls.emit_offense name kind view st)
  act name (proxies pattern rewrite backend) view st = (
    tagged name "proxy" (proxy_outcome calls.expand calls.empty_body pattern rewrite backend),
    st,
  )
  act name (challenge c) view st =
      let (o, after) = calls.evaluate_challenge_action name c false view st in
      (tagged name "challenge" o, after)
  act name (check c) view st =
      let (o, after) = calls.evaluate_challenge_action name c true view st in
      (tagged name "check" o, after)
  act name nothing view st = (continue, st)
  act name (context response request) view st = (continue, st)

  -- A rule whose condition is false or fails has no effect.
  unfoldable pub under :
      Option Ast → View → State → RuleOutcome Body × State → RuleOutcome Body × State
  under none view st result = result
  under (some ast) view st result = elim (calls.holds view ast) [
    | some true ↦ result
    | _ ↦ (continue, st)
  ]

  -- A child's outcome, and the rest of the children where it goes on.
  unfoldable pub settle :
      Option (HeaderMap × HeaderMap)
      → RuleOutcome Body × State
      → RuleOutcome Body × State
      → RuleOutcome Body × State
  settle pending (continue, st) rest = rest
  settle pending (dropped, st) rest = (dropped, st)
  settle pending (handled r, st) rest = (handled (attach_pending pending r), st)

  unfoldable mutual
    pub evaluate_rule : RuleState Ast Pattern → View → State → RuleOutcome Body × State
    evaluate_rule (rule name condition nothing children) view st =
        under condition view st (eval_children children none view st)
    evaluate_rule (rule name condition (context response request) children) view st =
        let inner = with_request_headers calls.text_of request view in
        under condition view st (eval_children children (some (inner.headers, response)) inner st)
    evaluate_rule (rule name condition action children) view st =
        under condition view st (act name action view st)

    pub eval_children :
        RuleList Ast Pattern
        → Option (HeaderMap × HeaderMap)
        → View
        → State
        → RuleOutcome Body × State
    eval_children end pending view st = (continue, st)
    eval_children (next r rs) pending view st =
        settle pending (evaluate_rule r view st)
          (eval_children rs pending view (evaluate_rule r view st).1)

  unfoldable pub stop :
      RuleState Ast Pattern
      → RuleOutcome Body × State
      → Terminal Body × State
      → Terminal Body × State
  stop r (continue, st) rest = rest
  stop r (handled response, st) rest = (finished response, st)
  stop r (dropped, st) rest = (dropped_by (some (name_of r)), st)

  -- The loop of `handle_request`.
  unfoldable pub run_rules : RuleList Ast Pattern → View → State → Terminal Body × State
  run_rules end view st = (none_yet, st)
  run_rules (next r rs) view st =
      stop r (evaluate_rule r view st) (run_rules rs view (evaluate_rule r view st).1)

-- ===== src/Policy/Rules/Order.antt =====
-- Which of the rules in a list decides.
use bagel.Prelude.{String, ◌≡◌, refl, ap, ◌∙◌, Option, none}
use bagel.Policy.Rules.{
  HeaderMap, RuleOutcome, continue, dropped, handled, nothing, rule, RuleList, end, next, View,
  Calls, attach_pending,
}
use bagel.Policy.Rules.Walk.{under, settle, evaluate_rule, eval_children}

abbrev pub append :
    {Ast Pattern : Type 0} → RuleList Ast Pattern → RuleList Ast Pattern → RuleList Ast Pattern
append end ss = ss
append (next r rs) ss = next r (append rs ss)

module _ {Ast Pattern Body State : Type 0} (calls : Calls Ast Pattern Body State) where
  -- The rules of the first list decide, and where none does, those of the second, on what the first
  -- left of the state.
  abbrev pub or_next :
      RuleOutcome Body × State → (State → RuleOutcome Body × State) → RuleOutcome Body × State
  or_next (continue, st) later = later st
  or_next (dropped, st) later = (dropped, st)
  or_next (handled r, st) later = (handled r, st)

  settle-or_next :
      (pending : Option (HeaderMap × HeaderMap)) (one : RuleOutcome Body × State)
      (both first second : State → RuleOutcome Body × State)
      → ((st : State) → both st ≡ or_next (first st) second)
      → settle calls pending one (both one.1)
        ≡ or_next (settle calls pending one (first one.1)) second
  unfolding settle
  settle-or_next pending (continue, st) both first second h = h st
  settle-or_next pending (dropped, st) both first second h = refl
  settle-or_next pending (handled r, st) both first second h = refl

  eval_children-append :
      (rs ss : RuleList Ast Pattern) (pending : Option (HeaderMap × HeaderMap)) (view : View)
      (st : State)
      → eval_children calls (append rs ss) pending view st
        ≡ or_next
            (eval_children calls rs pending view st)
            (λ after. eval_children calls ss pending view after)
  unfolding eval_children
  eval_children-append end ss pending view st = refl
  eval_children-append (next r rs) ss pending view st =
      settle-or_next pending (evaluate_rule calls r view st)
        (λ after. eval_children calls (append rs ss) pending view after)
        (λ after. eval_children calls rs pending view after)
        (λ after. eval_children calls ss pending view after)
        (λ after. eval_children-append rs ss pending view after)

  -- Headers that wait for the end of an inner list wait as well for each of its rules.
  settle-settle :
      (pending : Option (HeaderMap × HeaderMap)) (one : RuleOutcome Body × State)
      (first : State → RuleOutcome Body × State) (later : State → RuleOutcome Body × State)
      → settle calls pending
          (settle calls none one (first one.1))
          (later (settle calls none one (first one.1)).1)
        ≡ settle calls pending one (settle calls pending (first one.1) (later (first one.1).1))
  unfolding settle attach_pending
  settle-settle pending (continue, st) first later = refl
  settle-settle pending (dropped, st) first later = refl
  settle-settle pending (handled r, st) first later = refl

  group_lem :
      (kids rs : RuleList Ast Pattern) (pending : Option (HeaderMap × HeaderMap)) (view : View)
      (st : State)
      → settle calls pending
          (eval_children calls kids none view st)
          (eval_children calls rs pending view (eval_children calls kids none view st).1)
        ≡ eval_children calls (append kids rs) pending view st
  unfolding eval_children
  group_lem end rs pending view st = unfold settle in refl
  group_lem (next k ks) rs pending view st =
      settle-settle pending (evaluate_rule calls k view st)
        (λ after. eval_children calls ks none view after)
        (λ after. eval_children calls rs pending view after)
      ∙ ap (settle calls pending (evaluate_rule calls k view st))
          (group_lem ks rs pending view (evaluate_rule calls k view st).1)

  -- A rule without a condition and with the action `none` decides as its children do in its
  -- place: on the outcome and on the state, the headers of an enclosing rule included.
  pub eval_children-group :
      (name : String) (kids rs : RuleList Ast Pattern) (pending : Option (HeaderMap × HeaderMap))
      (view : View) (st : State)
      → eval_children calls (next (rule name none nothing kids) rs) pending view st
        ≡ or_next
            (eval_children calls kids pending view st)
            (λ after. eval_children calls rs pending view after)
  unfolding eval_children under
  eval_children-group name kids rs pending view st =
      group_lem kids rs pending view st ∙ eval_children-append kids rs pending view st

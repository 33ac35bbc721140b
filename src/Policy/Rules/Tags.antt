-- ===== src/Policy/Rules/Tags.antt =====
-- The rule that a decision is put down to.
use bagel.Prelude.{
  ℕ, String, ◌≡◌, refl, ◌∙◌, ◌⊎◌, inl, inr, Bool, true, false, Option, none, some, Option-cases,
}
use bagel.Policy.Rules.{
  HeaderMap, Response, RuleOutcome, continue, dropped, handled, Action, nothing, passes, drops,
  smear, beacon, deny, block, code, tarpit, lure, report, proxies, context, challenge, check, label,
  RuleState, rule, RuleList, end, next, View, with_request_headers, Calls, ChallengeAction,
  SubAction, tagged, pass_response, proxy_outcome, attach, attach_pending,
}
use bagel.Policy.Rules.Walk.{act, under, settle, evaluate_rule, eval_children}

-- The tag is the name and the action of a rule in the tree.
unfoldable mutual
  pub Names : {Ast Pattern : Type 0} → String × String → RuleState Ast Pattern → Type 0
  Names i (rule name condition action children) = (i ≡ (name, label action)) ⊎ NamesIn i children

  pub NamesIn : {Ast Pattern : Type 0} → String × String → RuleList Ast Pattern → Type 0
  NamesIn i end = ⊥
  NamesIn i (next r rs) = Names i r ⊎ NamesIn i rs

-- A response that is handled has a tag with the property.
abbrev pub Tagged : {Body : Type 0} → (String × String → Type 0) → RuleOutcome Body → Type 0
Tagged P (handled r) = (i : String × String) × ((r.info ≡ some i) × P i)
Tagged P _ = Unit

abbrev Untagged : {Body : Type 0} → RuleOutcome Body → Type 0
Untagged (handled r) = r.info ≡ none
Untagged _ = Unit

-- The responses that the server builds carry no tag.
pub record AreUntagged {Ast Pattern Body State : Type 0} (calls : Calls Ast Pattern Body State)
    : Type 0 where
  pub deny_response :
      (c : ℕ) (view : View) (st : State) → Untagged (calls.deny_response c view st).0
  pub block_response :
      (c : ℕ) (view : View) (st : State) → Untagged (calls.block_response c view st).0
  pub status : (c : ℕ) → (calls.status c).info ≡ none
  pub tarpit_response :
      (maze : String) (view : View) (st : State)
      → (calls.tarpit_response maze view st).0.info ≡ none
  pub smear_response : (view : View) (st : State) → Untagged (calls.smear_response view st).0
  pub evaluate_challenge_action :
      (name : String) (c : ChallengeAction SubAction) (background : Bool) (view : View) (st : State)
      → Untagged (calls.evaluate_challenge_action name c background view st).0

tagged-Tagged :
    {Body : Type 0} (name action : String) (o : RuleOutcome Body)
    → Untagged o
    → Tagged (λ i. i ≡ (name, action)) (tagged name action o)
unfolding tagged
tagged-Tagged name action (handled r) h = ((name, action), (rw h refl, refl))
tagged-Tagged name action continue h = tt
tagged-Tagged name action dropped h = tt

Tagged-map :
    {Body : Type 0} {P Q : String × String → Type 0} (o : RuleOutcome Body)
    → ((i : String × String) → P i → Q i)
    → Tagged P o
    → Tagged Q o
Tagged-map (handled r) f (i, (e, h)) = (i, (e, f i h))
Tagged-map continue f h = tt
Tagged-map dropped f h = tt

attach_pending-info :
    {Body : Type 0} (pending : Option (HeaderMap × HeaderMap)) (r : Response Body)
    → (attach_pending pending r).info ≡ r.info
unfolding attach_pending attach
attach_pending-info none r = refl
attach_pending-info (some (request, response)) r = elim (Option-cases r.marker) [
  | inl e ↦ simp (e, attach) refl
  | inr (m, e) ↦ simp (e, attach) refl
]

module _ {Ast Pattern Body State : Type 0} (calls : Calls Ast Pattern Body State)
    (plain : AreUntagged calls) where
  act-Tagged :
      (name : String) (action : Action Pattern) (view : View) (st : State)
      → Tagged (λ i. i ≡ (name, label action)) (act calls name action view st).0
  unfolding act label pass_response proxy_outcome
  act-Tagged name passes view st = tagged-Tagged name "pass" _ refl
  act-Tagged name (deny c) view st = tagged-Tagged name "deny" _ (plain.deny_response c view st)
  act-Tagged name (block c) view st = tagged-Tagged name "block" _ (plain.block_response c view st)
  act-Tagged name (code c) view st = tagged-Tagged name "code" _ (plain.status c)
  act-Tagged name drops view st = tt
  act-Tagged name (tarpit maze) view st =
      tagged-Tagged name "tarpit" _ (plain.tarpit_response maze view st)
  act-Tagged name smear view st = tagged-Tagged name "smear" _ (plain.smear_response view st)
  act-Tagged name (lure maze) view st = tt
  act-Tagged name beacon view st = tt
  act-Tagged name (report kind) view st = tt
  act-Tagged name (proxies pattern rewrite backend) view st = tagged-Tagged name "proxy" _ refl
  act-Tagged name (challenge c) view st =
      tagged-Tagged name "challenge" _ (plain.evaluate_challenge_action name c false view st)
  act-Tagged name (check c) view st =
      tagged-Tagged name "check" _ (plain.evaluate_challenge_action name c true view st)
  act-Tagged name nothing view st = tt
  act-Tagged name (context response request) view st = tt

  under-Tagged :
      (P : String × String → Type 0) (condition : Option Ast) (view : View) (st : State)
      (result : RuleOutcome Body × State)
      → Tagged P result.0
      → Tagged P (under calls condition view st result).0
  unfolding under
  under-Tagged P none view st result h = h
  under-Tagged P (some ast) view st result h = elim (Option-cases (calls.holds view ast)) [
    | inl e ↦ rw (e, under) tt
    | inr (true, e) ↦ rw (e, under) h
    | inr (false, e) ↦ rw (e, under) tt
  ]

  settle-Tagged :
      (P : String × String → Type 0) (pending : Option (HeaderMap × HeaderMap))
      (one rest : RuleOutcome Body × State)
      → Tagged P one.0
      → Tagged P rest.0
      → Tagged P (settle calls pending one rest).0
  unfolding settle
  settle-Tagged P pending (continue, st) rest h k = k
  settle-Tagged P pending (dropped, st) rest h k = tt
  settle-Tagged P pending (handled r, st) rest (i, (e, h)) k =
      (i, (attach_pending-info pending r ∙ e, h))

  leaf :
      (name : String) (condition : Option Ast) (action : Action Pattern)
      (children : RuleList Ast Pattern) (view : View) (st : State)
      → Tagged
          (λ i. (i ≡ (name, label action)) ⊎ NamesIn i children)
          (under calls condition view st (act calls name action view st)).0
  leaf name condition action children view st =
      under-Tagged _ condition view st _
        (Tagged-map _ (λ i h. inl h) (act-Tagged name action view st))

  mutual
    unfolding evaluate_rule Names

    evaluate_rule-Tagged :
        (r : RuleState Ast Pattern) (view : View) (st : State)
        → Tagged (λ i. Names i r) (evaluate_rule calls r view st).0
    evaluate_rule-Tagged (rule name condition nothing children) view st =
        under-Tagged _ condition view st _
          (Tagged-map _ (λ i h. inr h) (eval_children-Tagged children none view st))
    evaluate_rule-Tagged (rule name condition (context response request) children) view st =
        let inner = with_request_headers calls.text_of request view in
        under-Tagged _ condition view st _ (
          Tagged-map _ (λ i h. inr h)
            (eval_children-Tagged children (some (inner.headers, response)) inner st))
    evaluate_rule-Tagged (rule name condition action children) view st =
        leaf name condition action children view st

    pub eval_children-Tagged :
        (rs : RuleList Ast Pattern) (pending : Option (HeaderMap × HeaderMap)) (view : View)
        (st : State)
        → Tagged (λ i. NamesIn i rs) (eval_children calls rs pending view st).0
    eval_children-Tagged end pending view st = tt
    eval_children-Tagged (next r rs) pending view st =
        settle-Tagged _ pending _ _ (Tagged-map _ (λ i h. inl h) (evaluate_rule-Tagged r view st))
          (Tagged-map _ (λ i h. inr h) (eval_children-Tagged rs pending view _))

  -- Where the responses that the server builds carry no tag, a response that a rule tree gives
  -- is tagged with the name and the action of one of the rules in that tree.
  pub evaluate_rule-Names :
      (r : RuleState Ast Pattern) (view : View) (st : State) (response : Response Body)
      → (evaluate_rule calls r view st).0 ≡ handled response
      → (i : String × String) × ((response.info ≡ some i) × Names i r)
  evaluate_rule-Names r view st response h = rw h at (evaluate_rule-Tagged r view st)

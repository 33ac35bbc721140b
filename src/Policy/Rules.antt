-- ===== src/Policy/Rules.antt =====
-- `RuleState` and `evaluate_rule_recursive`. Metrics and logs are left out.
pub mod Walk
pub mod Order
pub mod Tags
pub mod Headers
use bagel.Prelude.{ℕ, String, Bool, Option, none, some, List, [], ◌∷◌, str_eq, if◌then◌else◌}

-- http's `HeaderMap`, as far as names have one value each.
abbrev pub HeaderMap : Type 0
HeaderMap = List (String × String)

-- `insert` replaces the value that the name has.
unfoldable pub insert : String → String → HeaderMap → HeaderMap
insert name value [] = (name, value) ∷ []
insert name value ((n, v) ∷ rest) =
    let later = insert name value rest in
    if str_eq n name then (name, value) ∷ rest else (n, v) ∷ later

-- The loop that inserts every header of the first map.
unfoldable pub insert_all : HeaderMap → HeaderMap → HeaderMap
insert_all [] into = into
insert_all ((n, v) ∷ headers) into = insert_all headers (insert n v into)

abbrev pub get : String → HeaderMap → Option String
get name [] = none
get name ((n, v) ∷ rest) = if str_eq n name then some v else get name rest

-- `PassMarker` and `ProxyMarker`.
pub data Marker : Type 0 where
  pass : Marker
  proxy : String → Option String → Marker

-- A response with the extensions that rules give it. `Body` is the rest of it.
pub record Response (Body : Type 0) : Type 0 where
  pub marker : Option Marker
  -- `TerminalRuleInfo`: a rule and its action
  pub info : Option (String × String)
  pub pending_request : Option HeaderMap
  pub pending_response : Option HeaderMap
  pub headers : HeaderMap
  pub body : Body

pub data RuleOutcome (Body : Type 0) : Type 0 where
  continue dropped : RuleOutcome Body
  handled : Response Body → RuleOutcome Body

-- rule/action.rs, `Action`. `Pattern` is a compiled regex.
pub record ChallengeAction (SubAction : Type 0) : Type 0 where
  pub challenges : List String
  pub http_code : ℕ
  pub difficulty : Option ℕ
  pub pass_action : SubAction
  pub fail_action : SubAction

-- What `sub_action` gives.
pub data SubAction : Type 0 where
  to_pass to_drop to_smear : SubAction
  to_deny to_block : ℕ → SubAction
  to_tarpit : String → SubAction

pub data Action (Pattern : Type 0) : Type 0 where
  nothing passes drops smear beacon : Action Pattern
  deny block code : ℕ → Action Pattern
  tarpit lure report : String → Action Pattern
  proxies : Option Pattern → String → String → Action Pattern
  context : HeaderMap → HeaderMap → Action Pattern
  challenge check : ChallengeAction SubAction → Action Pattern

unfoldable pub label : {Pattern : Type 0} → Action Pattern → String
label nothing = "none"
label passes = "pass"
label (deny c) = "deny"
label (block c) = "block"
label (code c) = "code"
label drops = "drop"
label (tarpit m) = "tarpit"
label smear = "smear"
label (lure m) = "lure"
label beacon = "beacon"
label (proxies r w b) = "proxy"
label (context a b) = "context"
label (challenge c) = "challenge"
label (check c) = "check"
label (report k) = "report"

-- A condition is an `Ast` of rhai.
mutual
  pub data RuleState (Ast Pattern : Type 0) : Type 0 where
    rule : String → Option Ast → Action Pattern → RuleList Ast Pattern → RuleState Ast Pattern

  pub data RuleList (Ast Pattern : Type 0) : Type 0 where
    end : RuleList Ast Pattern
    next : RuleState Ast Pattern → RuleList Ast Pattern → RuleList Ast Pattern

-- The part of `Eval` that a `context` rule changes: the context of the conditions, in the three
-- fields that `with_request_headers` sets, and the headers to send upstream.
pub record View : Type 0 where
  pub seen : HeaderMap
  pub user_agent : String
  pub host : String
  pub headers : HeaderMap

-- `to_str().unwrap_or("")` is `text_of`.
unfoldable pub see_all : (String → String) → HeaderMap → HeaderMap → HeaderMap
see_all text_of [] seen = seen
see_all text_of ((n, v) ∷ headers) seen = see_all text_of headers (insert n (text_of v) seen)

abbrev pub or_keep : Option String → String → String
or_keep none old = old
or_keep (some new) old = new

unfoldable pub with_request_headers : (String → String) → HeaderMap → View → View
with_request_headers text_of added view =
    let seen = see_all text_of added view.seen in
    record {
      seen = seen;
      user_agent = or_keep (get "user-agent" seen) view.user_agent;
      host = or_keep (get "host" seen) view.host;
      headers = insert_all added view.headers;
    }

-- What the evaluation calls: rhai, the capture expansion of regex, and the responses that the rest
-- of the server builds. `State` is the state of the request's challenges and what the server keeps.
-- An answer of `holds` is `none` where the condition fails to evaluate.
pub record Calls (Ast Pattern Body State : Type 0) : Type 0 where
  pub holds : View → Ast → Option Bool
  pub text_of : String → String
  pub expand : Pattern → String → Option String
  pub empty_body : Body
  pub deny_response : ℕ → View → State → RuleOutcome Body × State
  pub block_response : ℕ → View → State → RuleOutcome Body × State
  pub status : ℕ → Response Body
  pub tarpit_response : String → View → State → Response Body × State
  pub smear_response : View → State → RuleOutcome Body × State
  pub inject_lure : String → View → State → State
  pub inject_beacon : View → State → State
  pub emit_offense : String → String → View → State → State
  pub evaluate_challenge_action :
      String → ChallengeAction SubAction → Bool → View → State → RuleOutcome Body × State

-- A tag that an inner rule applied stays.
unfoldable pub tagged : {Body : Type 0} → String → String → RuleOutcome Body → RuleOutcome Body
tagged name action (handled r) =
    handled (record r { info = elim r.info [ none ↦ some (name, action) | some i ↦ some i ] })
tagged name action continue = continue
tagged name action dropped = dropped

abbrev pub blank : {Body : Type 0} → Body → Response Body
blank body = record {
  marker = none;
  info = none;
  pending_request = none;
  pending_response = none;
  headers = [];
  body = body;
}

unfoldable pub pass_response : {Body : Type 0} → Body → Response Body
pass_response body = record (blank body) { marker = some pass }

pub proxy_outcome :
    {Body Pattern : Type 0}
    → (Pattern → String → Option String)
    → Body
    → Option Pattern
    → String
    → String
    → RuleOutcome Body
proxy_outcome expand body pattern rewrite backend = handled (record (blank body) {
  marker = some (proxy backend (elim pattern [ none ↦ none | some p ↦ expand p rewrite ]));
})

-- What a `context` rule does to a response of its children: headers for a proxied one wait, others
-- are set at once.
pub attach : {Body : Type 0} → HeaderMap → HeaderMap → Response Body → Response Body
attach request response r = elim r.marker [
  | none ↦ record r { headers = insert_all response r.headers }
  | some m ↦ record r {
    pending_request = some (elim r.pending_request [ none ↦ request | some inner ↦ inner ]);
    pending_response =
        some (insert_all response (elim r.pending_response [ none ↦ [] | some inner ↦ inner ]));
  }
]

-- `pending` holds the two maps of the enclosing `context` rule.
unfoldable pub attach_pending :
    {Body : Type 0} → Option (HeaderMap × HeaderMap) → Response Body → Response Body
attach_pending none r = r
attach_pending (some (request, response)) r = attach request response r

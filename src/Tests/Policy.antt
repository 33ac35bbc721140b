-- ===== src/Tests/Policy.antt =====
-- The rules and scorecards at concrete inputs. A condition is the answer that it gets, and a
-- response's body is a status.
use bagel.Prelude.{
  ℕ, ◌+◌, min, String, ◌≡◌, refl, Bool, true, Option, none, some, List, [], ◌∷◌, str_eq, is_some,
  u32_max,
}
use bagel.Policy.Rules.{
  HeaderMap, pass, Response, continue, dropped, handled, Action, nothing, passes, deny, context,
  lure, rule, RuleList, end, next, View, Calls, blank, pass_response, tagged, with_request_headers,
  see_all, insert, insert_all, get, attach_pending, code,
}
use bagel.Policy.Rules.Walk.{
  act, under, settle, evaluate_rule, eval_children, run_rules, none_yet, finished, stop,
}
use bagel.Policy.Rules.Tags.{AreUntagged}
use bagel.Policy.Parse.{RuleSettings, parse, parse_name}
use bagel.Policy.Build.{
  config, ConfigList, done, also, full_name, build_rules, compile_rule_condition,
}
use bagel.Policy.Build.Configured.{Configured, eval_children-Configured}
use bagel.Policy.Rules.Order.{or_next, eval_children-group}
use bagel.Policy.Rules.Headers.{
  set_headers, sent_headers, or_else, evaluate_rule-context, evaluate_rule-sent,
}
use bagel.Policy.Score.{
  ok, Result, ◌>>=◌, ScorecardState, ScoreResult, observe, find_card, tally, add_signal,
  candidate_of, result_of, evaluate, ThresholdState, enforce,
}
use bagel.Policy.Score.Build.{
  ThresholdConfig, SignalConfig, ScorecardConfig, build, build_cards, build_card, build_signals,
  build_thresholds, build_threshold, mode_of, compile_optional, sort_thresholds, insert_threshold,
}
use bagel.Policy.Score.Candidate.{IsCandidate, total}
use bagel.Policy.Score.Sourced.{CandidateFrom}
use bagel.Policy.Score.Built.{evaluate-IsCandidate}
use bagel.Policy.Decide.{decide}
use bagel.Policy.Decide.Suppress.{enforced, rules_then_score, decide-rules_then_score}
use bagel.Policy.Decide.Code.{decide-code}

abbrev calls : Calls (Option Bool) ℕ ℕ ℕ
calls = record {
  holds = λ view ast. ast;
  text_of = λ s. s;
  expand = λ pattern rewrite. some rewrite;
  empty_body = 0;
  deny_response = λ c view st. (handled (blank c), st);
  block_response = λ c view st. (handled (blank c), st);
  status = λ c. blank c;
  tarpit_response = λ maze view st. (blank 200, st);
  smear_response = λ view st. (dropped, st);
  inject_lure = λ maze view st. st + 1;
  inject_beacon = λ view st. st + 1;
  emit_offense = λ name kind view st. st;
  evaluate_challenge_action = λ name c background view st. (continue, st);
}

calls-AreUntagged : AreUntagged calls
calls-AreUntagged = record {
  deny_response = λ c view st. refl;
  block_response = λ c view st. refl;
  status = λ c. refl;
  tarpit_response = λ maze view st. refl;
  smear_response = λ view st. tt;
  evaluate_challenge_action = λ name c background view st. tt;
}

abbrev view : View
view = record {
  seen = [];
  user_agent = "curl";
  host = "example.org";
  headers = ("x-outer", "1") ∷ [];
}

abbrev Rules : Type 0
Rules = RuleList (Option Bool) ℕ

-- A lure, a rule whose condition fails, and one that passes.
abbrev kids : Rules
kids = next (rule "lure" none (lure "maze") end) (
    next (rule "broken" (some none) (deny 403) end)
      (next (rule "let" (some (some true)) passes end) end))

abbrev passed : Response ℕ
passed = record (blank 0) { marker = some pass; info = some ("let", "pass") }

abbrev tail : Rules
tail = next (rule "deny" none (deny 403) end) end

eval_children-group_example :
    eval_children calls (next (rule "group" none nothing kids) tail) none view 0
    ≡ or_next calls
        (eval_children calls kids none view 0)
        (λ after. eval_children calls tail none view after)
eval_children-group_example = eval_children-group calls "group" kids tail none view 0

abbrev request : HeaderMap
request = ("x-inner", "2") ∷ []

abbrev response : HeaderMap
response = ("server", "bagel") ∷ []

kids-pass :
    eval_children calls kids none (with_request_headers (λ s. s) request view) 0
    ≡ (handled passed, 1)
unfolding evaluate_rule under settle act tagged pass_response attach_pending with_request_headers
    see_all insert insert_all
kids-pass = refl

evaluate_rule-context_example :
    (answer : Response ℕ) × (evaluate_rule calls
        (rule "ctx" none (context response request) kids)
        view
        0
      ≡ (handled answer, 1))
    × (get "server" (set_headers answer)
        ≡ or_else (get "server" response) (get "server" (set_headers passed)))
evaluate_rule-context_example =
    evaluate_rule-context calls "ctx" response request kids view 0 1 passed "server" (refl, tt)
      kids-pass

evaluate_rule-sent_example :
    (answer : Response ℕ) × (evaluate_rule calls
        (rule "ctx" none (context response request) kids)
        view
        0
      ≡ (handled answer, 1))
    × (get "x-outer" (sent_headers [] answer) ≡ elim passed.pending_request [
      | none ↦ or_else (get "x-outer" request) (get "x-outer" view.headers)
      | some h ↦ get "x-outer" h
    ])
evaluate_rule-sent_example =
    evaluate_rule-sent calls "ctx" response request kids view 0 1 passed pass "x-outer" (refl, tt)
      refl kids-pass

-- Two of the three signals hold, and the thresholds are out of order.
abbrev signal : String → String → ℕ → SignalConfig
signal name condition weight = record { name = name; condition = condition; weight = some weight }

abbrev threshold : ℕ → ThresholdConfig
threshold value = record { value = value; action = "deny"; challenges = [] }

abbrev card : ScorecardConfig
card = record {
  name = "bots";
  mode = some "enforce";
  condition = none;
  signals = signal "fast" "true" 30 ∷ signal "slow" "false" 50 ∷ signal "odd" "true" 25 ∷ [];
  thresholds = threshold 90 ∷ threshold 20 ∷ threshold 50 ∷ [];
}

abbrev compile : String → Option (Option Bool)
compile s = some (some (str_eq s "true"))

abbrev parse_action : ThresholdConfig → Option (Action ℕ)
parse_action t = some (deny (t.value))

abbrev lowercase : String → String
lowercase s = s

abbrev answers : Option Bool → Option Bool
answers b = b

abbrev cards_of :
    Result (ℕ × List (ScorecardState (Option Bool) ℕ)) → List (ScorecardState (Option Bool) ℕ)
cards_of (ok p) = p.1
cards_of _ = []

abbrev cards : List (ScorecardState (Option Bool) ℕ)
cards = cards_of (build compile parse_action lowercase none (card ∷ []))

cards-built : build compile parse_action lowercase none (card ∷ []) ≡ ok (65536, cards)
unfolding build build_cards build_card mode_of compile_optional build_signals build_thresholds
    build_threshold ◌>>=◌
cards-built = refl

abbrev scored : ScoreResult (Option Bool) ℕ
scored = elim cards [
  | (c ∷ cs) ↦ result_of answers c
  | [] ↦ record {
    scorecard = record {
      name = "";
      condition = none;
      mode = observe;
      signals = [];
      thresholds = [];
    };
    score = 0;
    matched = [];
    errors = [];
    candidate = none;
  }
]

cards-scored : evaluate answers cards ≡ some scored
unfolding evaluate find_card build build_cards build_card mode_of compile_optional build_signals
    build_thresholds build_threshold ◌>>=◌
cards-scored = refl

evaluate-IsCandidate_example :
    (scored.score ≡ min (total answers scored.scorecard.signals) u32_max)
    × IsCandidate scored.score scored.scorecard.thresholds scored.candidate
    × CandidateFrom compile parse_action lowercase scored.candidate scored.scorecard.name
        (card ∷ [])
evaluate-IsCandidate_example =
    evaluate-IsCandidate compile parse_action lowercase answers none (card ∷ []) 65536 cards scored
      cards-built cards-scored

-- The score is 55, which reaches a threshold.
scored-value : (scored.score ≡ 55) × (is_some scored.candidate ≡ true)
unfolding result_of tally add_signal candidate_of build build_cards build_card mode_of
    compile_optional build_signals build_thresholds build_threshold ◌>>=◌ sort_thresholds
    insert_threshold
scored-value = (refl, refl)

decide-rules_then_score_example :
    (
      (decide calls (next (rule "lure" none (lure "maze") end) end) (some scored) view 0).0,
      (decide calls (next (rule "lure" none (lure "maze") end) end) (some scored) view 0).2,
    )
    ≡ rules_then_score calls
        (enforced (some scored))
        view
        (run_rules calls (next (rule "lure" none (lure "maze") end) end) view 0)
decide-rules_then_score_example =
    decide-rules_then_score calls (next (rule "lure" none (lure "maze") end) end) (some scored) view
      0

abbrev settings : RuleSettings
settings = record {
  http_code = some 451;
  maze = none;
  kind = none;
  difficulty = none;
  backend = none;
  match_re = none;
  rewrite = none;
  response_headers = [];
  request_headers = [];
  pass_action = none;
  fail_action = none;
}

abbrev pattern_of : String → Option ℕ
pattern_of s = some 0

abbrev is_valid : String → Bool
is_valid s = true

abbrev same_text : String → String
same_text s = s

abbrev configs : ConfigList
configs =
    also
      (config "bots" none "none" settings []
        (also (config "stop" (some "true") "deny" settings [] done) done))
      done

abbrev rules : Rules
rules =
    next (rule "bots" none nothing (next (rule "bots/stop" (some (some true)) (deny 451) end) end))
      end

abbrev condition_of : String → Option (Option Bool)
condition_of s = some (some true)

configs-built :
    build_rules condition_of pattern_of is_valid is_valid same_text same_text 403 configs ""
    ≡ ok rules
unfolding build_rules compile_rule_condition full_name parse parse_name ◌>>=◌
configs-built = refl

abbrev denied : Response ℕ
denied = record (blank 451) { info = some ("bots/stop", "deny") }

rules-deny : (eval_children calls rules none view 0).0 ≡ handled denied
unfolding eval_children under settle act tagged attach_pending
rules-deny = refl

eval_children-Configured_example :
    (i : String × String) × ((denied.info ≡ some i) × Configured same_text i configs "")
eval_children-Configured_example =
    eval_children-Configured condition_of pattern_of is_valid is_valid same_text same_text 403 calls
      configs rules view 0 denied calls-AreUntagged (refl, ((refl, (tt, tt)), tt)) configs-built
      rules-deny

-- A threshold that is to answer with the status 451.
abbrev answering : ThresholdState ℕ
answering = record { value = 50; action = code 451; kind = "code" }

abbrev reached : ScoreResult (Option Bool) ℕ
reached = record {
  scorecard = record {
    name = "bots";
    condition = none;
    mode = enforce;
    signals = [];
    thresholds = answering ∷ [];
  };
  score = 55;
  matched = [];
  errors = [];
  candidate = some answering;
}

abbrev lured : Rules
lured = next (rule "lure" none (lure "maze") end) end

lured-open : run_rules calls lured view 0 ≡ (none_yet, 1)
unfolding run_rules stop evaluate_rule under act
lured-open = refl

decide-code_example :
    ((decide calls lured (some reached) view 0).0 ≡ finished (pass_response calls.empty_body))
    × ((decide calls lured (some reached) view 0).2 ≡ 1)
decide-code_example =
    decide-code calls lured (some reached) answering 451 view 0 1 lured-open refl refl

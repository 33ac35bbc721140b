-- ===== src/Policy/Parse.antt =====
-- crates/bagel-web/src/rule/action.rs: `Action::parse`.
pub mod Label
use bagel.Prelude.{
  ℕ, String, Bool, true, false, not, ◌&&◌, ◌||◌, Option, none, some, List, [], ◌∷◌, str_eq, leb,
  ◌==◌, if◌then◌else◌, is_some, is_none,
}
use Prim.Native.Char.{Char, code as code_of}
use Prim.Native.String.{[] as empty, ◌∷◌ as ◌▹◌}
use bagel.Policy.Rules.{
  HeaderMap, insert, Action, nothing, passes, drops, smear, beacon, deny, block, code, tarpit, lure,
  report, proxies, context, challenge, check, ChallengeAction, SubAction, to_pass, to_drop,
  to_smear, to_deny, to_block, to_tarpit, RuleState, rule, RuleList, end, next,
}
use bagel.Policy.Score.{Result, ok, err, ◌>>=◌, Error}

-- The settings of a rule that actions read.
pub record RuleSettings : Type 0 where
  pub http_code : Option ℕ
  pub maze : Option String
  pub kind : Option String
  pub difficulty : Option ℕ
  pub backend : Option String
  pub match_re : Option String
  pub rewrite : Option String
  pub response_headers : List (String × String)
  pub request_headers : List (String × String)
  pub pass_action : Option String
  pub fail_action : Option String

abbrev pub is_blank : String → Bool
is_blank empty = true
is_blank (c ▹ s) = false

-- `filter(|name| !name.is_empty()).ok_or(..)`
unfoldable pub named : Option String → Error → Result String
named none e = err e
named (some s) e = if is_blank s then err e else ok s

abbrev pub or_code : Option ℕ → ℕ → ℕ
or_code none default = default
or_code (some c) default = c

abbrev pub or_empty : Option String → String
or_empty none = ""
or_empty (some s) = s

-- Lower case letters, digits, `_` and `-`.
abbrev pub is_kind_char : ℕ → Bool
is_kind_char c = leb 97 c && leb c 122 || leb 48 c && leb c 57 || c == 95 || c == 45

unfoldable pub all_kind_chars : String → Bool
all_kind_chars empty = true
all_kind_chars (c ▹ s) = is_kind_char (code_of c) && all_kind_chars s

unfoldable pub sub_action : Option String → Option String → SubAction → Result SubAction
sub_action none maze default = ok default
sub_action (some s) maze default =
    if str_eq s "pass"
    then ok to_pass
    else if str_eq s "deny"
    then ok (to_deny 403)
    else if str_eq s "block"
    then ok (to_block 403)
    else if str_eq s "drop"
    then ok to_drop
    else if str_eq s "smear"
    then ok to_smear
    else if str_eq s "tarpit"
    then (named maze Error.maze_missing >>= λ m. ok (to_tarpit m))
    else err (Error.unknown_sub_action s)

abbrev pub is_named : Option String → Bool
is_named none = false
is_named (some s) = not (is_blank s)

pub parse_smear : {Pattern : Type 0} → RuleSettings → Result (Action Pattern)
parse_smear s =
    if is_named s.maze || is_named s.backend || is_some s.match_re || is_some s.rewrite
    then err Error.smear_settings
    else ok smear

pub parse_report : {Pattern : Type 0} → RuleSettings → Result (Action Pattern)
parse_report s = do
  kind ← named s.kind Error.kind_missing
  if all_kind_chars kind then ok (report kind) else err Error.bad_kind

-- A header name is kept in lower case. `valid_name` and `valid_value` are the checks of http's header types, `compile` the parser of
-- regexes, `lowercase` is `str::to_lowercase` and `ascii_lowercase` what `eq_ignore_ascii_case` goes by.
module _ {Pattern : Type 0} (compile : String → Option Pattern)
    (valid_name valid_value : String → Bool) (lowercase ascii_lowercase : String → String) where
  unfoldable pub parse_headers : List (String × String) → HeaderMap → Result HeaderMap
  parse_headers [] headers = ok headers
  parse_headers ((k, v) ∷ rest) headers =
      if not (valid_name k)
      then err (Error.bad_header k)
      else if not (valid_value v)
      then err (Error.bad_header k)
      else parse_headers rest (insert (ascii_lowercase k) v headers)

  unfoldable pub compile_match : Option String → Result (Option Pattern)
  compile_match none = ok none
  compile_match (some r) = elim (compile r) [ none ↦ err Error.bad_pattern | some p ↦ ok (some p) ]

  pub parse_proxy : RuleSettings → Result (Action Pattern)
  parse_proxy s = do
    backend ← named s.backend Error.backend_missing
    pattern ← compile_match s.match_re
    if is_some s.match_re && is_none s.rewrite || is_none s.match_re && is_some s.rewrite
        then err Error.match_without_rewrite
        else ok (proxies pattern (or_empty s.rewrite) backend)

  pub parse_context : RuleSettings → Result (Action Pattern)
  parse_context s = do
    response ← parse_headers s.response_headers []
    request ← parse_headers s.request_headers []
    ok (context response request)

  pub parse_challenge : Bool → RuleSettings → List String → ℕ → Result (Action Pattern)
  parse_challenge is_check s challenges default_http_code = do
    pass_action ← sub_action s.pass_action s.maze to_pass
    fail_action ← sub_action s.fail_action s.maze (to_deny 403)
    let ca : ChallengeAction SubAction = record {
      challenges = challenges;
      http_code = or_code s.http_code default_http_code;
      difficulty = s.difficulty;
      pass_action = pass_action;
      fail_action = fail_action;
    }
    ok (if is_check then check ca else challenge ca)

  -- The arms of the match, on the name in lower case.
  unfoldable pub parse_name :
      String → Bool → RuleSettings → List String → ℕ → Result (Action Pattern)
  parse_name name is_check s challenges default_http_code =
      if str_eq name "none"
      then ok nothing
      else if str_eq name "pass"
      then ok passes
      else if str_eq name "deny"
      then ok (deny (or_code s.http_code 403))
      else if str_eq name "block"
      then ok (block (or_code s.http_code 403))
      else if str_eq name "code"
      then ok (code (or_code s.http_code 403))
      else if str_eq name "drop"
      then ok drops
      else if str_eq name "tarpit"
      then (named s.maze Error.maze_missing >>= λ m. ok (tarpit m))
      else if str_eq name "lure"
      then (named s.maze Error.maze_missing >>= λ m. ok (lure m))
      else if str_eq name "beacon"
      then ok beacon
      else if str_eq name "smear"
      then parse_smear s
      else if str_eq name "report"
      then parse_report s
      else if str_eq name "proxy"
      then parse_proxy s
      else if str_eq name "context"
      then parse_context s
      else if str_eq name "challenge" || str_eq name "check"
      then parse_challenge is_check s challenges default_http_code
      else err (Error.unknown_action name)

  abbrev pub says : String → String → Bool
  says action name = str_eq (ascii_lowercase action) name

  unfoldable pub parse : String → RuleSettings → List String → ℕ → Result (Action Pattern)
  parse action s challenges default_http_code =
      if not (says action "report") && is_some s.kind
      then err Error.kind_misplaced
      else if not (says action "challenge" || says action "check") && is_some s.difficulty
      then err Error.difficulty_misplaced
      else parse_name (lowercase action) (says action "check") s challenges default_http_code

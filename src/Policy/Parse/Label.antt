-- ===== src/Policy/Parse/Label.antt =====
-- `Action::parse` accepts the spellings of `Action::label`.
use bagel.Prelude.{
  ℕ, String, ◌≡◌, refl, sym, ◌∙◌, inl, inr, Bool, true, false, not, ◌&&◌, ◌||◌, Option, List, arith,
  str_eq, eq_iff, if◌then◌else◌, Bool-cases, is_some, is_none,
}
use bagel.Policy.Rules.{Action, label}
use bagel.Policy.Score.{Result, ok, err, Error}
use bagel.Policy.Ensures.{Ensures, Ensures-ok, Ensures-err, Ensures-bind, Ensures-if}
use bagel.Policy.Parse.{
  RuleSettings, is_named, parse_smear, parse_report, all_kind_chars, parse_proxy, parse_context,
  parse_challenge, parse_name, says, parse,
}

-- What one arm gives has the label of the arm.
arm :
    {Pattern : Type 0} (name spelling : String) {x y : Result (Action Pattern)}
    → Ensures (λ a. label a ≡ spelling) x
    → Ensures (λ a. label a ≡ name) y
    → Ensures (λ a. label a ≡ name) (if str_eq name spelling then x else y)
arm name spelling here later =
    Ensures-if (str_eq name spelling)
      (λ e. record { at = λ a k. here.at a k ∙ sym ((eq_iff name spelling).0 e) }) (λ _. later)

module _ {Pattern : Type 0} (compile : String → Option Pattern)
    (valid_name valid_value : String → Bool) (lowercase ascii_lowercase : String → String) where
  parse_challenge-label :
      (is_check : Bool) (s : RuleSettings) (challenges : List String) (code : ℕ)
      → Ensures
          (λ a. label a ≡ (if is_check then "check" else "challenge"))
          (parse_challenge compile valid_name valid_value lowercase ascii_lowercase is_check s
            challenges code)
  unfolding parse_challenge label
  parse_challenge-label true s challenges code =
      Ensures-bind λ p _. Ensures-bind λ f _. Ensures-ok _ refl
  parse_challenge-label false s challenges code =
      Ensures-bind λ p _. Ensures-bind λ f _. Ensures-ok _ refl

  parse_smear-label :
      (s : RuleSettings) → Ensures (λ (a : Action Pattern). label a ≡ "smear") (parse_smear s)
  unfolding parse_smear label
  parse_smear-label s =
      Ensures-if (is_named s.maze || is_named s.backend || is_some s.match_re || is_some s.rewrite)
        (λ _. Ensures-err _) (λ _. Ensures-ok _ refl)

  parse_report-label :
      (s : RuleSettings) → Ensures (λ (a : Action Pattern). label a ≡ "report") (parse_report s)
  unfolding parse_report label
  parse_report-label s =
      Ensures-bind
        λ kind _. Ensures-if (all_kind_chars kind) (λ _. Ensures-ok _ refl) (λ _. Ensures-err _)

  parse_proxy-label :
      (s : RuleSettings)
      → Ensures
          (λ a. label a ≡ "proxy")
          (parse_proxy compile valid_name valid_value lowercase ascii_lowercase s)
  unfolding parse_proxy label
  parse_proxy-label s = Ensures-bind λ backend _. Ensures-bind λ pattern _.
      Ensures-if
        (is_some s.match_re && is_none s.rewrite || is_none s.match_re && is_some s.rewrite)
        (λ _. Ensures-err _) (λ _. Ensures-ok _ refl)

  parse_context-label :
      (s : RuleSettings)
      → Ensures
          (λ a. label a ≡ "context")
          (parse_context compile valid_name valid_value lowercase ascii_lowercase s)
  unfolding parse_context label
  parse_context-label s = Ensures-bind λ a _. Ensures-bind λ b _. Ensures-ok _ refl

  parse_name-label :
      (name : String) (s : RuleSettings) (challenges : List String) (default : ℕ)
      → Ensures
          (λ a. label a ≡ name)
          (parse_name compile valid_name valid_value lowercase ascii_lowercase name
            (str_eq name "check")
            s
            challenges
            default)
  unfolding parse_name label
  parse_name-label name s challenges default = arm name "none" (Ensures-ok _ refl) (
      arm name "pass" (Ensures-ok _ refl) (
        arm name "deny" (Ensures-ok _ refl) (
          arm name "block" (Ensures-ok _ refl) (
            arm name "code" (Ensures-ok _ refl) (
              arm name "drop" (Ensures-ok _ refl) (
                arm name "tarpit" (Ensures-bind λ m _. Ensures-ok _ refl) (
                  arm name "lure" (Ensures-bind λ m _. Ensures-ok _ refl) (
                    arm name "beacon" (Ensures-ok _ refl) (
                      arm name "smear" (parse_smear-label s) (
                        arm name "report" (parse_report-label s) (
                          arm name "proxy" (parse_proxy-label s) (
                            arm name "context" (parse_context-label s) challenges_or_not))))))))))))
    where
      challenges_or_not :
          Ensures
            (λ a. label a ≡ name)
            (if str_eq name "challenge" || str_eq name "check"
              then parse_challenge compile valid_name valid_value lowercase ascii_lowercase
                  (str_eq name "check")
                  s
                  challenges
                  default
              else err (Error.unknown_action name))
      challenges_or_not =
          Ensures-if (str_eq name "challenge" || str_eq name "check")
            (λ e. elim (Bool-cases (str_eq name "check")) [
              | inl k ↦ rw k record {
                at = λ a h.
                    (parse_challenge-label true s challenges default).at a h
                    ∙ sym ((eq_iff name "check").0 k);
              }
              | inr k ↦ rw k record {
                at = λ a h.
                    (parse_challenge-label false s challenges default).at a h
                    ∙ sym ((eq_iff name "challenge").0 (first e k));
              }
            ])
            (λ _. Ensures-err _)
        where
          first : {b c : Bool} → (b || c) ≡ true → c ≡ false → b ≡ true
          first e k = ground (arith, e, k)

  parse-Ensures :
      (action : String) (s : RuleSettings) (challenges : List String) (default : ℕ)
      → says compile valid_name valid_value lowercase ascii_lowercase action "check"
        ≡ str_eq (lowercase action) "check"
      → Ensures
          (λ a. label a ≡ lowercase action)
          (parse compile valid_name valid_value lowercase ascii_lowercase action s challenges
            default)
  unfolding parse
  parse-Ensures action s challenges default ascii =
      Ensures-if (not (str_eq (ascii_lowercase action) "report") && is_some s.kind)
        (λ _. Ensures-err _)
        λ _.
          Ensures-if
            (not (
                str_eq (ascii_lowercase action) "challenge"
                || str_eq (ascii_lowercase action) "check")
              && is_some s.difficulty)
            (λ _. Ensures-err _)
            (λ _. rw ascii (parse_name-label (lowercase action) s challenges default))

  -- Where the two ways to fold letters agree on `check`, an action that `Action::parse` accepts
  -- has its spelling, in lower case, as its label.
  pub parse-label :
      (action : String) (s : RuleSettings) (challenges : List String) (default : ℕ)
      (a : Action Pattern)
      → says compile valid_name valid_value lowercase ascii_lowercase action "check"
        ≡ str_eq (lowercase action) "check"
      → parse compile valid_name valid_value lowercase ascii_lowercase action s challenges default
        ≡ ok a
      → label a ≡ lowercase action
  parse-label action s challenges default a ascii h =
      (parse-Ensures action s challenges default ascii).at a h

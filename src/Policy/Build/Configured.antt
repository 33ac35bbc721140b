-- ===== src/Policy/Build/Configured.antt =====
-- The decisions of the rules that are built, put down to the rules that are configured.
use bagel.Prelude.{ℕ, String, ◌≡◌, ap, ◌∙◌, ◌⊎◌, inl, inr, Bool, Option, none, some, str_eq}
use bagel.Policy.Rules.{Response, handled, Action, label, rule, RuleList, next, View, Calls}
use bagel.Policy.Rules.Walk.{eval_children}
use bagel.Policy.Rules.Tags.{Names, NamesIn, AreUntagged, eval_children-Tagged}
use bagel.Policy.Score.{ok}
use bagel.Policy.Ensures.{Ensures, Ensures-ok, Ensures-bind}
use bagel.Policy.Parse.Label.{parse-label}
use bagel.Policy.Build.{config, ConfigList, done, also, full_name, build_rules}

-- The path of a configured rule, and the action that it is configured with in lower case.
pub Configured : (String → String) → String × String → ConfigList → String → Type 0
Configured lowercase i done parent = ⊥
Configured lowercase i (also (config name condition action settings challenges kids) rest) parent =
    (i ≡ (full_name parent name, lowercase action))
    ⊎ (Configured lowercase i kids (full_name parent name) ⊎ Configured lowercase i rest parent)

-- The two ways to fold the letters of a configured action agree on whether it is `check`.
abbrev pub FoldsAlike : (String → String) → (String → String) → ConfigList → Type 0
FoldsAlike lowercase ascii_lowercase done = Unit
FoldsAlike lowercase ascii_lowercase
      (also (config name condition action settings challenges kids) rest) =
    (str_eq (ascii_lowercase action) "check" ≡ str_eq (lowercase action) "check")
    × (FoldsAlike lowercase ascii_lowercase kids × FoldsAlike lowercase ascii_lowercase rest)

module _ {Ast Pattern : Type 0} (compile_condition : String → Option Ast)
    (compile : String → Option Pattern) (valid_name valid_value : String → Bool)
    (lowercase ascii_lowercase : String → String) (default_http_code : ℕ) where
  build_rules-Configured :
      (cs : ConfigList) (parent : String)
      → FoldsAlike lowercase ascii_lowercase cs
      → Ensures
          (λ rs. (i : String × String) → NamesIn i rs → Configured lowercase i cs parent)
          (build_rules compile_condition compile valid_name valid_value lowercase ascii_lowercase
            default_http_code cs parent)
  unfolding build_rules Configured Names
  build_rules-Configured done parent alike = Ensures-ok _ (λ i h. h)
  build_rules-Configured (also (config name condition action settings challenges kids) rest) parent
        alike =
      Ensures-bind λ ast _. Ensures-bind λ kept e. Ensures-bind λ children k.
        Ensures-bind λ later l.
          Ensures-ok (next (rule (full_name parent name) ast kept children) later) (λ i h.
            placed i kept children later
              (parse-label compile valid_name valid_value lowercase ascii_lowercase action settings
                challenges default_http_code kept alike.0 e)
              ((build_rules-Configured kids (full_name parent name) alike.1.0).at children k i)
              ((build_rules-Configured rest parent alike.1.1).at later l i) h)
    where
      placed :
          (i : String × String) (kept : Action Pattern) (children later : RuleList Ast Pattern)
          → label kept ≡ lowercase action
          → (NamesIn i children → Configured lowercase i kids (full_name parent name))
          → (NamesIn i later → Configured lowercase i rest parent)
          → ((i ≡ (full_name parent name, label kept)) ⊎ NamesIn i children) ⊎ NamesIn i later
          → (i ≡ (full_name parent name, lowercase action))
            ⊎ (Configured lowercase i kids (full_name parent name)
                ⊎ Configured lowercase i rest parent)
      placed i kept children later same inner outer (inl (inl e)) =
          inl (e ∙ ap (λ a. (full_name parent name, a)) same)
      placed i kept children later same inner outer (inl (inr h)) = inr (inl (inner h))
      placed i kept children later same inner outer (inr h) = inr (inr (outer h))

  -- Where the responses that the server builds carry no tag, and the two ways to fold letters
  -- agree on whether each configured action is `check`: a response that rules built from a
  -- configuration give is tagged with the path of a configured rule and the action that it is
  -- configured with, in lower case.
  pub eval_children-Configured :
      {Body State : Type 0} (calls : Calls Ast Pattern Body State) (cs : ConfigList)
      (rules : RuleList Ast Pattern) (view : View) (st : State) (response : Response Body)
      → AreUntagged calls
      → FoldsAlike lowercase ascii_lowercase cs
      → build_rules compile_condition compile valid_name valid_value lowercase ascii_lowercase
          default_http_code cs ""
        ≡ ok rules
      → (eval_children calls rules none view st).0 ≡ handled response
      → (i : String × String) × ((response.info ≡ some i) × Configured lowercase i cs "")
  eval_children-Configured calls cs rules view st response plain alike built h =
      let (i, (e, named)) = rw h at (eval_children-Tagged calls plain rules none view st) in
      (i, (e, (build_rules-Configured cs "" alike).at rules built i named))

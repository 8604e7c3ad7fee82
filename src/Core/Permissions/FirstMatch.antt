-- ===== src/Core/Permissions/FirstMatch.antt =====
-- The first rule that matches a request decides it.
use piqo_server.Prelude.{
  Bool, true, false, ◌≡◌, refl, none, some, List, [], ◌∷◌, ◌++◌, find, any, All, if◌then◌else◌,
  Bool-cases, inl, inr, arith,
}
use piqo_server.Core.Permissions.{
  PermissionDecisionSource, PermissionRule, PermissionPolicy, ToolRequest, matches, rule_name,
  add_rule, evaluate_explained,
}

module _ {V : Type 0} (request : ToolRequest V) where
  abbrev fits : PermissionRule → Bool
  fits rule = matches rule request

  find-append :
      (rules : List PermissionRule) (rule : PermissionRule)
      → find fits (rules ++ rule ∷ [])
        ≡ (if any fits rules then find fits rules else if fits rule then some rule else none)
  find-append [] rule = refl
  find-append (r ∷ rules) rule = ground (arith, find-append rules rule)

  find-past :
      (before after : List PermissionRule) (rule : PermissionRule)
      → All (λ r. fits r ≡ false) before
      → fits rule ≡ true
      → find fits (before ++ rule ∷ after) ≡ some rule
  find-past [] after rule h hit = rw hit
  find-past (r ∷ before) after rule h hit = rw h.0 (find-past before after rule h.1 hit)

  find-any :
      (rules : List PermissionRule)
      → any fits rules ≡ true
      → (rule : PermissionRule) × find fits rules ≡ some rule
  find-any [] h = ground arith
  find-any (r ∷ rules) h = elim (Bool-cases (fits r)) [
    | inl hit ↦ (r, rw hit)
    | inr miss ↦ let rest = find-any rules (ground arith) in (rest.0, rw miss rest.1)
  ]

  find-none :
      (rules : List PermissionRule) → All (λ r. fits r ≡ false) rules → find fits rules ≡ none
  find-none [] h = refl
  find-none (r ∷ rules) h = rw h.0 (find-none rules h.1)

  -- The first rule that matches a request decides it, whatever stands behind it, and is named as the
  -- reason.
  pub evaluate_explained-first :
      (policy : PermissionPolicy) (before after : List PermissionRule) (rule : PermissionRule)
      → policy.rules ≡ before ++ rule ∷ after
      → All (λ r. matches r request ≡ false) before
      → matches rule request ≡ true
      → evaluate_explained policy request ≡ record {
        decision = rule.decision;
        source = PermissionDecisionSource.configuration;
        matching_rule = some (rule_name rule);
      }
  unfolding evaluate_explained
  evaluate_explained-first policy before after rule e h hit =
      rw (e, find-past before after rule h hit)

  -- A request that no rule matches gets the default decision, and no rule is named.
  pub evaluate_explained-default :
      (policy : PermissionPolicy)
      → All (λ r. matches r request ≡ false) policy.rules
      → evaluate_explained policy request ≡ record {
        decision = policy.default_decision;
        source = PermissionDecisionSource.default;
        matching_rule = none;
      }
  unfolding evaluate_explained
  evaluate_explained-default policy h = rw (find-none policy.rules h)

  -- A rule that is added last leaves every request that an earlier rule matches as it was, decides
  -- those others that it matches, and leaves the rest to the default.
  pub evaluate_explained-add_rule :
      (policy : PermissionPolicy) (rule : PermissionRule)
      → evaluate_explained (add_rule policy rule) request ≡ (
          if any (λ r. matches r request) policy.rules
          then evaluate_explained policy request
          else if matches rule request
          then record {
            decision = rule.decision;
            source = PermissionDecisionSource.configuration;
            matching_rule = some (rule_name rule);
          }
          else record {
            decision = policy.default_decision;
            source = PermissionDecisionSource.default;
            matching_rule = none;
          })
  unfolding evaluate_explained add_rule
  evaluate_explained-add_rule policy rule =
      rw find-append (elim (Bool-cases (any fits policy.rules)) [
        | inl old ↦ let found = find-any policy.rules old in rw (old, found.1)
        | inr new ↦ elim (Bool-cases (fits rule)) [
          | inl hit ↦ rw (new, hit)
          | inr miss ↦ rw (new, miss)
        ]
      ])

-- ===== src/Policy/Verdict.antt =====
-- The verdict of Evaluate in pkg/policy/engine.go.
use dagens_public.Prelude.{
  ℕ, ◌≡◌, refl, subst, inl, inr, Bool, true, false, not, ◌&&◌, ◌||◌, List, [], ◌∷◌, ◌++◌, arith,
  Bool-cases, Option-cases,
}
use dagens_public.Prelude.Results.{Result, ok, Result-cases}
use dagens_public.Policy.{
  Action, Rule, EvaluationResult, PolicyConfig, EngineResult, Registry, EngineError, is_block,
  apply_action, stamped, Round, go_on, stop, failed, matched_round, evaluated, dispatch_rule,
  evaluate_rule, evaluate_rules, evaluate, proceed,
}

-- Whether a rule that blocks has matched.
abbrev pub any_block : List EvaluationResult → Bool
any_block [] = false
any_block (e ∷ es) = is_block e.action || any_block es

any_block-append :
    (es : List EvaluationResult) (e : EvaluationResult)
    → any_block (es ++ e ∷ []) ≡ (any_block es || is_block e.action)
any_block-append [] e = ground arith
any_block-append (x ∷ es) e = ground (arith, any_block-append es e)

-- The verdict is to block exactly when a rule that blocks has matched.
pub record IsVerdict (r : EngineResult) : Type 0 where
  pub allowed : r.allowed ≡ not (any_block r.results)
  pub action : is_block r.final_action ≡ any_block r.results

-- The verdict after a round: an engine that stops at a block goes on only without one.
abbrev Good : Bool → Round → Type 0
Good b (go_on r) = IsVerdict r × (b ≡ true → any_block r.results ≡ false)
Good b (stop r) = IsVerdict r × (r.final_output ≡ 0)
Good b (failed e) = Unit

applied :
    (a : Action) (e : EvaluationResult) (r : EngineResult)
    → e.action ≡ a
    → IsVerdict r
    → IsVerdict (apply_action a e (record r { results = r.results ++ e ∷ [] }))
unfolding apply_action
applied a e r same v = record {
  allowed = ground (arith, any_block-append r.results e, v.allowed, v.action);
  action = ground (arith, any_block-append r.results e, v.allowed, v.action);
}

matched_round-Good :
    (b : Bool) (rule : Rule) (e : EvaluationResult) (r : EngineResult)
    → e.action ≡ rule.action
    → IsVerdict r
    → (b ≡ true → any_block r.results ≡ false)
    → Good b (matched_round b rule e r)
unfolding matched_round apply_action
matched_round-Good b rule e r same v off = elim (Bool-cases e.matched) [
  | inr m ↦ simp m (v, off)
  | inl m ↦ elim (Bool-cases (b && is_block rule.action)) [
    | inl s ↦ simp (m, s) (applied rule.action e r same v, ground arith)
    | inr s ↦
        simp (m, s)
          (applied rule.action e r same v, λ h. ground (arith, any_block-append r.results e, off h))
  ]
]

evaluate_rule-Good :
    (registry : Registry) (config : PolicyConfig) (rule : Rule) (r : EngineResult)
    → IsVerdict r
    → (config.stop_on_first_match ≡ true → any_block r.results ≡ false)
    → Good config.stop_on_first_match (evaluate_rule registry config rule r)
unfolding evaluate_rule dispatch_rule evaluated stamped matched_round
evaluate_rule-Good registry config rule r v off = elim (Bool-cases rule.enabled) [
  | inr n ↦ rw n (v, off)
  | inl n ↦ elim (Option-cases (registry rule.rule_type)) [
    | inl m ↦ rw (n, m) (v, off)
    | inr (evaluator, m) ↦ elim (Result-cases (evaluator r.final_output rule.config)) [
      | inl (e, h) ↦
          rw (n, m, h) (matched_round-Good config.stop_on_first_match rule _ r refl v off)
      | inr (x, h) ↦ elim (Bool-cases config.fail_open) [
        | inl o ↦ rw (n, m, h, o) (v, off)
        | inr o ↦ rw (n, m, h, o) tt
      ]
    ]
  ]
]

-- A verdict, with no output if the engine stops at a block and one has matched.
abbrev Final : Bool → EngineResult → Type 0
Final b r = IsVerdict r × (b ≡ true → any_block r.results ≡ true → r.final_output ≡ 0)

ok_inj : (x : Result EngineError EngineResult) (r r' : EngineResult) → x ≡ ok r → x ≡ ok r' → r ≡ r'
ok_inj x r r' e h = ground arith

proceed-Final :
    (b : Bool) (again : EngineResult → Result EngineError EngineResult) (a : Round)
    (r' : EngineResult)
    → ((r : EngineResult)
        → IsVerdict r
        → (b ≡ true → any_block r.results ≡ false)
        → again r ≡ ok r'
        → Final b r')
    → Good b a
    → proceed again a ≡ ok r'
    → Final b r'
proceed-Final b again (go_on r) r' rest g h = rest r g.0 g.1 h
proceed-Final b again (stop r) r' rest g h =
    subst (Final b) (ok_inj (ok r) r r' refl h) (g.0, λ s m. g.1)
proceed-Final b again (failed e) r' rest g h = absurd (ground arith)

evaluate_rules-Final :
    (registry : Registry) (config : PolicyConfig) (rules : List Rule) (r r' : EngineResult)
    → IsVerdict r
    → (config.stop_on_first_match ≡ true → any_block r.results ≡ false)
    → evaluate_rules registry config rules r ≡ ok r'
    → Final config.stop_on_first_match r'
unfolding evaluate_rules
evaluate_rules-Final registry config [] r r' v off h =
    subst (Final config.stop_on_first_match) (ok_inj (ok r) r r' refl h)
      (v, λ s m. absurd (ground (arith, off s)))
evaluate_rules-Final registry config (rule ∷ rules) r r' v off h =
    proceed-Final config.stop_on_first_match (evaluate_rules registry config rules)
      (evaluate_rule registry config rule r) r'
      (λ q. evaluate_rules-Final registry config rules q r')
      (evaluate_rule-Good registry config rule r v off) h

-- A result of Evaluate disallows the output, with the final action to block, exactly when a rule that
-- blocks is among the matched ones; and if the engine stops at such a rule, the output is then empty.
pub evaluate-IsVerdict :
    (registry : Registry) (config : PolicyConfig) (content : ℕ) (r : EngineResult)
    → evaluate registry config content ≡ ok r
    → (r.allowed ≡ not (any_block r.results))
      × (is_block r.final_action ≡ any_block r.results)
      × (config.stop_on_first_match ≡ true → any_block r.results ≡ true → r.final_output ≡ 0)
unfolding evaluate
evaluate-IsVerdict registry config content r h =
    let (v, silent) =
      evaluate_rules-Final registry config config.rules _ r
        (record { allowed = refl; action = refl }) (λ s. refl) h in
    (v.allowed, v.action, silent)

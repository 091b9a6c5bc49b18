-- ===== src/Tests/Policies.antt =====
-- The policy engine of pkg/policy/engine.go at concrete rules.
use dagens_public.Prelude.{◌≡◌, refl, Bool, true, false, not, some, [], ◌∷◌}
use dagens_public.Prelude.Results.{ok}
use dagens_public.Policy.{
  block, redact, Rule, EvaluationResult, PolicyConfig, EngineResult, Registry, is_block, evaluate,
  evaluate_rules, evaluate_rule, dispatch_rule, evaluated, matched_round, stamped, apply_action,
}
use dagens_public.Policy.Verdict.{any_block, evaluate-IsVerdict}

abbrev finding : EvaluationResult
finding = record {
  rule_id = 0;
  rule_name = 0;
  matched = true;
  action = block;
  severity = 0;
  original = 4;
  redacted = 6;
  reason = 2;
}

abbrev always : Registry
always rule_type = some (λ content config. ok finding)

abbrev blocking : Rule
blocking = record {
  id = 1;
  name = 1;
  rule_type = 1;
  action = block;
  severity = 1;
  enabled = true;
  config = 0;
}

abbrev redacting : Rule
redacting = record blocking { id = 2; action = redact }

abbrev both : Bool → PolicyConfig
both stop_on_first_match = record {
  rules = blocking ∷ redacting ∷ [];
  fail_open = false;
  stop_on_first_match = stop_on_first_match;
}

blocked : (r : EngineResult) × (evaluate always (both true) 4 ≡ ok r)
unfolding evaluate evaluate_rules evaluate_rule dispatch_rule evaluated matched_round stamped
blocked = (_, refl)

evaluate-IsVerdict_example :
    (blocked.0.allowed ≡ not (any_block blocked.0.results))
    × (is_block blocked.0.final_action ≡ any_block blocked.0.results)
    × ((both true).stop_on_first_match ≡ true
        → any_block blocked.0.results ≡ true
        → blocked.0.final_output ≡ 0)
evaluate-IsVerdict_example = evaluate-IsVerdict always (both true) 4 blocked.0 blocked.1

-- Without the stop, a rule that redacts after a block gives the blocked result an output.
blocked_output :
    (r : EngineResult) × (evaluate always (both false) 4 ≡ ok r)
    × (r.allowed ≡ false)
    × (r.final_output ≡ 6)
unfolding evaluate evaluate_rules evaluate_rule dispatch_rule evaluated matched_round stamped
    apply_action
blocked_output = (_, refl, refl, refl)

-- ===== src/Policy.antt =====
-- The policy engine: pkg/policy/engine.go with the types of pkg/policy/types.go. The evaluators that
-- are registered for the rule types are an argument, and so are the texts, of which 0 is the empty
-- one. The matches of a rule and the audit log are left out.
pub mod Verdict
use dagens_public.Prelude.{
  ℕ, Bool, true, false, not, ◌&&◌, Option, none, some, List, [], ◌∷◌, ◌++◌, ◌==◌, if◌then◌else◌,
}
use dagens_public.Prelude.Results.{Result, ok, err}

pub data Action : Type 0 where
  pass block redact warn : Action
  other_action : ℕ → Action

pub record Rule : Type 0 where
  pub id : ℕ
  pub name : ℕ
  pub rule_type : ℕ
  pub action : Action
  pub severity : ℕ
  pub enabled : Bool
  pub config : ℕ

pub record EvaluationResult : Type 0 where
  pub rule_id : ℕ
  pub rule_name : ℕ
  pub matched : Bool
  pub action : Action
  pub severity : ℕ
  pub original : ℕ
  pub redacted : ℕ
  pub reason : ℕ

pub record PolicyConfig : Type 0 where
  pub rules : List Rule
  pub fail_open : Bool
  pub stop_on_first_match : Bool

pub record EngineResult : Type 0 where
  pub allowed : Bool
  pub final_action : Action
  pub final_output : ℕ
  pub block_reason : ℕ
  pub results : List EvaluationResult

-- The evaluator of a rule type, if one is registered: a content and a rule's configuration to a
-- result or an error.
abbrev pub Registry : Type 0
Registry = ℕ → Option (ℕ → ℕ → Result ℕ EvaluationResult)

pub data EngineError : Type 0 where
  rule_failed : ℕ → ℕ → EngineError

-- `==` on an action and "block".
abbrev pub is_block : Action → Bool
is_block block = true
is_block _ = false

-- The `switch` on the action of a rule that matched.
unfoldable pub apply_action : Action → EvaluationResult → EngineResult → EngineResult
apply_action block e r = record r {
  allowed = false;
  final_action = block;
  final_output = 0;
  block_reason = e.reason;
}
apply_action redact e r = record r {
  final_output = if not (e.redacted == 0) then e.redacted else r.final_output;
  final_action = if not (is_block r.final_action) then redact else r.final_action;
}
apply_action _ e r = r

unfoldable pub stamped : Rule → EvaluationResult → EvaluationResult
stamped rule e = record e {
  rule_id = rule.id;
  rule_name = rule.name;
  action = rule.action;
  severity = rule.severity;
}

-- What a round of the loop does next: it goes on, it breaks out, or the call returns an error.
pub data Round : Type 0 where
  go_on stop : EngineResult → Round
  failed : EngineError → Round

unfoldable pub matched_round : Bool → Rule → EvaluationResult → EngineResult → Round
matched_round stop_on_first_match rule e r =
    if not e.matched
    then go_on r
    else if stop_on_first_match && is_block rule.action
    then stop (apply_action rule.action e (record r { results = r.results ++ e ∷ [] }))
    else go_on (apply_action rule.action e (record r { results = r.results ++ e ∷ [] }))

unfoldable pub evaluated : PolicyConfig → Rule → Result ℕ EvaluationResult → EngineResult → Round
evaluated config rule (err e) r =
    if config.fail_open then go_on r else failed (rule_failed rule.id e)
evaluated config rule (ok e) r = matched_round config.stop_on_first_match rule (stamped rule e) r

unfoldable pub dispatch_rule :
    PolicyConfig → Rule → Option (ℕ → ℕ → Result ℕ EvaluationResult) → EngineResult → Round
dispatch_rule config rule none r = go_on r
dispatch_rule config rule (some evaluator) r =
    evaluated config rule (evaluator r.final_output rule.config) r

unfoldable pub evaluate_rule : Registry → PolicyConfig → Rule → EngineResult → Round
evaluate_rule registry config rule r =
    if not rule.enabled then go_on r else dispatch_rule config rule (registry rule.rule_type) r

-- What the loop does after a round, `again` being the rest of it.
abbrev pub proceed :
    (EngineResult → Result EngineError EngineResult) → Round → Result EngineError EngineResult
proceed again (go_on r) = again r
proceed again (stop r) = ok r
proceed again (failed e) = err e

unfoldable pub evaluate_rules :
    Registry → PolicyConfig → List Rule → EngineResult → Result EngineError EngineResult
evaluate_rules registry config [] r = ok r
evaluate_rules registry config (rule ∷ rules) r =
    proceed (evaluate_rules registry config rules) (evaluate_rule registry config rule r)

unfoldable pub evaluate : Registry → PolicyConfig → ℕ → Result EngineError EngineResult
evaluate registry config content = evaluate_rules registry config config.rules (record {
  allowed = true;
  final_action = pass;
  final_output = content;
  block_reason = 0;
  results = [];
})

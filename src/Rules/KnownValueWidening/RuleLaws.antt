-- ===== src/Rules/KnownValueWidening/RuleLaws.antt =====
-- What rules/no-known-value-widening.ts reports at a node.
use zslay.Prelude.{Bool, List, Memᴰ, Option, String, false, none, refl, some, ℕ, ◌↔◌, ◌≡◌}
use zslay.Ast.{
  Annotation, FunctionParts, IsScoped, Node, Report, SourceCode, accessor_property,
  arrow_function_expression, assignment_expression, call_expression, function, identifier,
  property_definition, return_statement, ts_as_expression, ts_type_assertion, variable_declarator,
}
use zslay.Shared.DictionaryTypes.{TypeEnvironment}
use zslay.Shared.DictionaryTypes.WideningTargets.{WideningTarget, classify_widening_target}
use zslay.Rules.ReportLists.{Reports, Reports-nothing}
use zslay.Rules.KnownValueWidening.{
  enclosing_function, function_name, has_parent_assertion, source_key_name,
}
use zslay.Rules.KnownValueWidening.CallArguments.{
  PredicateCall, has_informative_type, predicate_call,
}
use zslay.Rules.KnownValueWidening.KnownHereLaws.{KnownArgument}
use zslay.Rules.KnownValueWidening.Handlers.{
  argument_report, assigned_declarator, binding_subject, is_block_statement,
  no_known_value_widening, on_property, on_return_statement, on_variable_declarator,
  property_subject, return_subject, widening_at,
}
use zslay.Rules.KnownValueWidening.AnnotationLaws.{FlowsInto, annotation-Reports}
use zslay.Rules.KnownValueWidening.HandlerLaws.{
  declarator-Reports, assignment-Reports, return-Reports, arrow-Reports, assertion-Reports,
  call-Reports,
}

module _ (s : SourceCode) (fuel : ℕ) (environment : TypeEnvironment) where
  -- What a node of each kind asks of a report.
  abbrev pub ReportedAt : ℕ → Node → Report → Type 0
  ReportedAt n (variable_declarator i (some e)) r =
      (name : String) × (a : Annotation) × (s.node i ≡ identifier name (some a))
      × FlowsInto s fuel environment e a.type_annotation (binding_subject name) r
  ReportedAt n (property_definition key (some e) annotation) r =
      (a : Annotation) × (annotation ≡ some a)
      × FlowsInto s fuel environment e a.type_annotation (property_subject (source_key_name s key))
          r
  ReportedAt n (accessor_property key (some e) annotation) r =
      (a : Annotation) × (annotation ≡ some a)
      × FlowsInto s fuel environment e a.type_annotation (property_subject (source_key_name s key))
          r
  ReportedAt n (assignment_expression operator left e) r =
      (name : String) × (a : Annotation) × (operator ≡ "=")
      × (assigned_declarator s fuel left ≡ some (name, some a))
      × FlowsInto s fuel environment e a.type_annotation (binding_subject name) r
  ReportedAt n (call_expression callee arguments) r =
      (call : PredicateCall) × (predicate_call s callee arguments ≡ some call)
      × KnownArgument s environment fuel call.passed
      × Memᴰ r (argument_report s fuel call)
  ReportedAt n (return_statement (some e)) r =
      (owner : ℕ × FunctionParts) × (a : Annotation) × (enclosing_function s n ≡ some owner)
      × (owner.1.return_type ≡ some a)
      × FlowsInto s fuel environment e a.type_annotation
          (return_subject (function_name s (some owner))) r
  ReportedAt n (function arrow_function_expression f) r =
      (e : ℕ) × (a : Annotation) × (f.body ≡ some e)
      × (is_block_statement (s.node e) ≡ false)
      × (f.return_type ≡ some a)
      × FlowsInto s fuel environment e a.type_annotation
          (return_subject (function_name s (some (n, f)))) r
  ReportedAt n (ts_as_expression e t) r =
      (has_parent_assertion s n ≡ false) × FlowsInto s fuel environment e t "assertion" r
  ReportedAt n (ts_type_assertion e t) r =
      (has_parent_assertion s n ≡ false) × FlowsInto s fuel environment e t "assertion" r
  ReportedAt n _ r = ⊥

  module _ (scoped : IsScoped s)
      (targets : (t : ℕ)
        → (o : Option WideningTarget) × (classify_widening_target s environment fuel t ≡ some o))
      (answers : (t : ℕ) → (b : Bool) × (has_informative_type s environment fuel t ≡ some b)) where
    property-Reports :
        (key e : ℕ) (o : Option Annotation)
        → Reports (on_property s fuel (some environment) key (some e) o) (λ r.
          (a : Annotation) × (o ≡ some a)
          × FlowsInto s fuel environment e a.type_annotation
              (property_subject (source_key_name s key))
              r)
    unfolding on_property
    property-Reports key e o =
        annotation-Reports s fuel environment scoped targets answers e o
          (property_subject (source_key_name s key))

    widening-Reports :
        (n : ℕ) (v : Node) → Reports (widening_at s fuel (some environment) n v) (ReportedAt n v)
    unfolding on_variable_declarator on_property on_return_statement
    widening-Reports n (variable_declarator i none) = Reports-nothing _ (λ r x. x)
    widening-Reports n (variable_declarator i (some e)) =
        declarator-Reports s fuel environment scoped targets answers i e (s.node i) refl
    widening-Reports n (property_definition key none a) = Reports-nothing _ (λ r x. x)
    widening-Reports n (property_definition key (some e) o) = property-Reports key e o
    widening-Reports n (accessor_property key none a) = Reports-nothing _ (λ r x. x)
    widening-Reports n (accessor_property key (some e) o) = property-Reports key e o
    widening-Reports n (assignment_expression operator left e) =
        assignment-Reports s fuel environment scoped targets answers operator left e
    widening-Reports n (call_expression callee arguments) =
        call-Reports s fuel environment scoped targets answers callee arguments
    widening-Reports n (return_statement none) = Reports-nothing _ (λ r x. x)
    widening-Reports n (return_statement (some e)) =
        return-Reports s fuel environment scoped targets answers n e
    widening-Reports n (function arrow_function_expression f) =
        arrow-Reports s fuel environment scoped targets answers n f
    widening-Reports n (ts_as_expression e t) =
        assertion-Reports s fuel environment scoped targets answers n e t
    widening-Reports n (ts_type_assertion e t) =
        assertion-Reports s fuel environment scoped targets answers n e t
    widening-Reports n _ = Reports-nothing _ (λ r x. x)

    -- With the trees of a parser and a scope analysis, inside a program, and where every type is
    -- classified as a widening target and as an unsafe value, the rule answers, and it reports at a
    -- node exactly what the kind of the node asks for: known evidence that flows into a widening
    -- type at a declarator, a property, an assignment by `=`, a return, an arrow body that is no
    -- block or an outermost assertion, and a known argument at a call of a predicate.
    pub no_known_value_widening_iff :
        (n : ℕ)
        → (reports : List Report) × (no_known_value_widening s fuel (some environment) n
            ≡ some reports)
          × ((r : Report) → Memᴰ r reports ↔ ReportedAt n (s.node n) r)
    unfolding no_known_value_widening
    no_known_value_widening_iff n = widening-Reports n (s.node n)

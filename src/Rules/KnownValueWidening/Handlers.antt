-- ===== src/Rules/KnownValueWidening/Handlers.antt =====
-- rules/no-known-value-widening.ts: the handlers.
use Prim.Native.String.{◌++◌}
use zslay.Prelude.{
  Bool, List, Option, String, [], false, if◌then◌else◌, none, some, true, ℕ, ◌==◌, ◌>>=◌, ◌∷◌,
}
use zslay.Ast.{
  Annotation, FunctionParts, Node, Report, SourceCode, accessor_property, arrow_function_expression,
  as_identifier, assignment_expression, block_statement, call_expression, function,
  identifier_annotation, property_definition, report_with, return_statement, ts_as_expression,
  ts_type_assertion, variable_declarator,
}
use zslay.Shared.Scope.{resolve_variable}
use zslay.Shared.FunctionParameters.{function_parameter_binding_name}
use zslay.Shared.DictionaryTypes.{TypeEnvironment, create_type_environment}
use zslay.Shared.DictionaryTypes.WideningTargets.{WideningTarget, classify_widening_target}
use zslay.Rules.KnownValueWidening.{
  enclosing_function, function_name, has_parent_assertion, report_flow, source_key_name,
  variable_declarator_of,
}
use zslay.Rules.KnownValueWidening.CallArguments.{
  PredicateCall, has_known_call_argument_evidence, predicate_call,
}

abbrev pub is_block_statement : Node → Bool
is_block_statement (block_statement _) = true
is_block_statement _ = false

abbrev pub binding_subject : String → String
binding_subject name = "binding `" ++ name ++ "`"

abbrev pub property_subject : String → String
property_subject name = "property `" ++ name ++ "`"

abbrev pub return_subject : String → String
return_subject name = "return value of `" ++ name ++ "`"

abbrev pub argument_subject : String → String → String
argument_subject parameter owner =
    "argument for parameter `" ++ parameter ++ "` of `" ++ owner ++ "`"

-- What `Program` stores.
abbrev pub WideningEnvironment : Type 0
WideningEnvironment = Option TypeEnvironment

module _ (s : SourceCode) (fuel : ℕ) where
  unfoldable pub enter_widening_program : ℕ → WideningEnvironment
  enter_widening_program root = some (create_type_environment s root)

  -- `annotationTarget` and `targetFromAnnotation`
  unfoldable pub target_from_annotation :
      WideningEnvironment → Option Annotation → Option (Option WideningTarget)
  target_from_annotation (some environment) (some a) =
      classify_widening_target s environment fuel a.type_annotation
  target_from_annotation _ _ = some none

  -- `reportFlow` with the target of an annotation
  unfoldable pub flow_into :
      WideningEnvironment → ℕ → Option Annotation → String → Option (List Report)
  flow_into environment expression annotation subject = do
    destination ← target_from_annotation environment annotation
    report_flow s expression destination subject

  unfoldable pub on_variable_declarator : WideningEnvironment → ℕ → Option ℕ → Option (List Report)
  on_variable_declarator environment i none = some []
  on_variable_declarator environment i (some init) = elim (as_identifier (s.node i)) [
    | none ↦ some []
    | some name ↦
        flow_into environment init (identifier_annotation (s.node i)) (binding_subject name)
  ]

  -- `PropertyDefinition` and `AccessorProperty`
  unfoldable pub on_property :
      WideningEnvironment → ℕ → Option ℕ → Option Annotation → Option (List Report)
  on_property environment key none annotation = some []
  on_property environment key (some v) annotation =
      flow_into environment v annotation (property_subject (source_key_name s key))

  -- the declarator of the variable that an assignment writes, where it declares a plain name
  unfoldable pub assigned_declarator : ℕ → Option (String × Option Annotation)
  assigned_declarator left = do
    name ← as_identifier (s.node left)
    v ← resolve_variable s left name
    declarator ← variable_declarator_of s v
    declared ← as_identifier (s.node declarator.1.id)
    some (declared, identifier_annotation (s.node declarator.1.id))

  unfoldable pub on_assignment_expression :
      WideningEnvironment → String → ℕ → ℕ → Option (List Report)
  on_assignment_expression environment operator left right =
      if operator == "="
      then (elim (assigned_declarator left) [
        | none ↦ some []
        | some (name, annotation) ↦ flow_into environment right annotation (binding_subject name)
      ])
      else some []

  abbrev pub argument_report : PredicateCall → List Report
  argument_report call = report_with call.passed "widening" (
      (
        "subject",
        argument_subject (function_parameter_binding_name s call.parameter)
            (function_name s (some call.owner)),
      )
      ∷ ("target", "unknown")
      ∷ [])

  abbrev pub argument_flow : TypeEnvironment → Option PredicateCall → Option (List Report)
  argument_flow environment none = some []
  argument_flow environment (some call) = do
    evident ← has_known_call_argument_evidence s environment fuel call.passed
    some (if evident then argument_report call else [])

  unfoldable pub on_call_expression : WideningEnvironment → ℕ → List ℕ → Option (List Report)
  on_call_expression none callee arguments = some []
  on_call_expression (some environment) callee arguments =
      argument_flow environment (predicate_call s callee arguments)

  abbrev pub return_annotation : Option (ℕ × FunctionParts) → Option Annotation
  return_annotation none = none
  return_annotation (some (_, f)) = f.return_type

  unfoldable pub on_return_statement : WideningEnvironment → ℕ → Option ℕ → Option (List Report)
  on_return_statement environment n none = some []
  on_return_statement environment n (some e) =
      flow_into environment e (return_annotation (enclosing_function s n))
        (return_subject (function_name s (enclosing_function s n)))

  unfoldable pub on_arrow_function_expression :
      WideningEnvironment → ℕ → FunctionParts → Option (List Report)
  on_arrow_function_expression environment n f = elim f.body [
    | none ↦ some []
    | some body ↦
        if is_block_statement (s.node body)
        then some []
        else flow_into environment body f.return_type
            (return_subject (function_name s (some (n, f))))
  ]

  -- `TSAsExpression` and `TSTypeAssertion`
  unfoldable pub on_assertion : WideningEnvironment → ℕ → ℕ → ℕ → Option (List Report)
  on_assertion none n e t = some []
  on_assertion (some environment) n e t = if has_parent_assertion s n then some [] else (do
    destination ← classify_widening_target s environment fuel t
    report_flow s e destination "assertion")

  abbrev pub widening_at : WideningEnvironment → ℕ → Node → Option (List Report)
  widening_at environment n (variable_declarator i init) = on_variable_declarator environment i init
  widening_at environment n (property_definition key v a) = on_property environment key v a
  widening_at environment n (accessor_property key v a) = on_property environment key v a
  widening_at environment n (assignment_expression operator left right) =
      on_assignment_expression environment operator left right
  widening_at environment n (call_expression callee arguments) =
      on_call_expression environment callee arguments
  widening_at environment n (return_statement e) = on_return_statement environment n e
  widening_at environment n (function arrow_function_expression f) =
      on_arrow_function_expression environment n f
  widening_at environment n (ts_as_expression e t) = on_assertion environment n e t
  widening_at environment n (ts_type_assertion e t) = on_assertion environment n e t
  widening_at environment n _ = some []

  unfoldable pub no_known_value_widening : WideningEnvironment → ℕ → Option (List Report)
  no_known_value_widening environment n = widening_at environment n (s.node n)

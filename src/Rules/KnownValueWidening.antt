-- ===== src/Rules/KnownValueWidening.antt =====
-- rules/no-known-value-widening.ts. The classifications and the searches take fuel, and the rule answers `none`
-- where it runs out.
pub mod CallArguments
pub mod Handlers
pub mod ConstLaws
pub mod EvidenceLaws
pub mod FlowLaws
pub mod KnownHereLaws
pub mod ArgumentLaws
pub mod AnnotationLaws
pub mod HandlerLaws
pub mod RuleLaws
pub mod EndLaws
use zslay.Prelude.{
  Bool, List, Option, String, [], all, false, find, get_or, guard, if◌then◌else◌, is_empty, is_some,
  length, none, not, or_else, some, suc, true, ℕ, ◌&&◌, ◌==◌, ◌>>=◌, ◌>>◌, ◌||◌, ◌∷◌,
}
use zslay.Ast.{
  ts_declare_function, ts_empty_body_function_expression, parent, Annotation, Declarator,
  Definition, FunctionKind, FunctionParts, LiteralValue, Node, Reference, Report, SourceCode,
  arrow_function_expression, as_assertion, as_declarator, as_identifier, as_runtime_function,
  block_statement, declaration_kind, function, function_declaration, function_expression,
  identifier, identifier_annotation, is_program, literal, method_definition, object_expression,
  other_value, parenthesized_expression, private_identifier, report_with, spread_element,
  string_value, ts_declare_function, ts_non_null_expression, ts_satisfies_expression,
  ts_type_predicate, variable_declarator, walk,
}
use zslay.Shared.Scope.{resolve_variable}
use zslay.Shared.Bindings.{found, Binding, Lookup, chase, initializer_or, variable_or}
use zslay.Shared.FunctionParameters.{
  contains_unknown_type, function_parameter_binding_name, function_parameter_type_annotation,
}
use zslay.Shared.DictionaryTypes.{TypeEnvironment, create_type_environment}
use zslay.Shared.DictionaryTypes.EvidenceExpressions.{
  evidence_wrapped, is_known_evidence_expression,
}
use zslay.Shared.DictionaryTypes.UnsafeValues.{classify_unsafe_dictionary_value}
use zslay.Shared.DictionaryTypes.WideningTargets.{
  WideningTarget, anonymous_object, generic_container, object_target, open_dictionary,
  unknown_target,
}

-- The kinds of function of `isFunctionExpression`.
abbrev pub is_owner_kind : FunctionKind → Bool
is_owner_kind arrow_function_expression = true
is_owner_kind function_declaration = true
is_owner_kind function_expression = true
is_owner_kind ts_declare_function = true
is_owner_kind ts_empty_body_function_expression = true
is_owner_kind _ = false

-- `isFunctionExpression`, with the function's parts.
abbrev pub as_owner : Node → Option FunctionParts
as_owner (function kind f) = if is_owner_kind kind then some f else none
as_owner _ = none

-- The wrappers through which `hasKnownCallArgumentEvidence` recurs.
abbrev pub argument_wrapped : Node → Option ℕ
argument_wrapped (parenthesized_expression e) = some e
argument_wrapped (ts_non_null_expression e) = some e
argument_wrapped (ts_satisfies_expression e _) = some e
argument_wrapped _ = none

abbrev pub only_definition : List Definition → Option Definition
only_definition (d ∷ []) = some d
only_definition _ = none

-- `reference.init || !reference.isWrite()`
abbrev pub is_initial_or_read : Reference → Bool
is_initial_or_read r = r.init || not r.is_write

abbrev pub as_type_predicate : Node → Option ℕ
as_type_predicate (ts_type_predicate subject _) = some subject
as_type_predicate _ = none

abbrev pub find_index : (ℕ → Bool) → List ℕ → Option ℕ
find_index test [] = none
find_index test (n ∷ ns) =
    let rest = find_index test ns in if test n then some 0 else (rest >>= λ i. some (suc i))

abbrev pub is_empty_object : Node → Bool
is_empty_object (object_expression properties) = is_empty properties
is_empty_object _ = false

-- `destination.kind`
abbrev pub target_text : WideningTarget → String
target_text anonymous_object = "anonymous object"
target_text generic_container = "generic container"
target_text object_target = "object"
target_text open_dictionary = "open dictionary"
target_text unknown_target = "unknown"

abbrev pub is_dictionary_accumulator_target : WideningTarget → Bool
is_dictionary_accumulator_target open_dictionary = true
is_dictionary_accumulator_target generic_container = true
is_dictionary_accumulator_target _ = false

module _ (s : SourceCode) where
  -- Its loop is that of `isKnownEvidenceExpression`.
  unfoldable pub unwrap_expression : ℕ → ℕ
  unwrap_expression n = walk (λ k. evidence_wrapped (s.node k)) n

  -- `variableDeclarator`, with the declarator's parts
  unfoldable pub variable_declarator_of : ℕ → Option (ℕ × Declarator)
  variable_declarator_of v = do
    d ← only_definition (s.variable v).defs
    guard (d.type == "Variable")
    declarator ← as_declarator (s.node d.node)
    some (d.node, declarator)

  abbrev pub is_const_declaration : Option ℕ → Bool
  is_const_declaration none = false
  is_const_declaration (some p) = elim (declaration_kind (s.node p)) [
    | none ↦ false
    | some kind ↦ kind == "const"
  ]

  unfoldable pub is_stable_const_variable : ℕ → ℕ → Bool
  is_stable_const_variable v declarator =
      is_const_declaration (parent s declarator) && all is_initial_or_read (s.variable v).references

  -- the initializer with which the searches go on
  unfoldable pub stable_initializer : ℕ → Option ℕ
  stable_initializer v = do
    place ← variable_declarator_of v
    init ← place.1.init
    guard (is_stable_const_variable v place.0)
    some init

  -- the variable that an identifier names
  unfoldable pub named_variable : ℕ → Option ℕ
  named_variable n = as_identifier (s.node n) >>= resolve_variable s n

  -- `hasKnownEvidence`: what it asks of an expression, and of a variable
  abbrev pub evidence_lookup : ℕ → Lookup Bool
  evidence_lookup n =
      if is_known_evidence_expression s n
      then found true
      else variable_or false (named_variable (unwrap_expression n))

  abbrev pub evidence_binding : ℕ → Binding Bool
  evidence_binding v = initializer_or false (stable_initializer v)

  unfoldable pub has_known_evidence : ℕ → Option Bool
  has_known_evidence n =
      chase evidence_lookup evidence_binding false (suc (length s.variables)) [] n

  -- a node with its function's parts
  abbrev pub owner_at : ℕ → Option (ℕ × FunctionParts)
  owner_at n = as_owner (s.node n) >>= λ f. some (n, f)

  -- the function that a definition gives
  unfoldable pub defined_function : Definition → Option (ℕ × FunctionParts)
  defined_function d = or_else (guard (d.type == "FunctionName") >> owner_at d.node) (do
    guard (d.type == "Variable")
    declarator ← as_declarator (s.node d.node)
    init ← declarator.init
    owner_at (unwrap_expression init))

  unfoldable pub local_function_for_call : ℕ → Option (ℕ × FunctionParts)
  local_function_for_call callee = or_else (owner_at (unwrap_expression callee)) (do
    v ← named_variable (unwrap_expression callee)
    d ← only_definition (s.variable v).defs
    defined_function d)

  -- the annotation of a parameter by its name
  abbrev pub parameter_annotation : String → FunctionParts → Option Annotation
  parameter_annotation name f =
      find (λ p. function_parameter_binding_name s p == name) f.params
      >>= function_parameter_type_annotation s

  -- a variable declarator of a plain name, with its annotation
  abbrev pub declarator_annotation : Definition → Option (Option Annotation)
  declarator_annotation d = do
    guard (d.type == "Variable")
    declarator ← as_declarator (s.node d.node)
    name ← as_identifier (s.node declarator.id)
    some (identifier_annotation (s.node declarator.id))

  unfoldable pub variable_type_annotation : ℕ → Option Annotation
  variable_type_annotation v = do
    d ← only_definition (s.variable v).defs
    elim (declarator_annotation d) [
      | some annotation ↦ annotation
      | none ↦ do
        guard (d.type == "Parameter")
        owner ← as_owner (s.node d.node)
        parameter_annotation (s.variable v).name owner
    ]

  unfoldable pub type_predicate_subject_index : FunctionParts → Option ℕ
  type_predicate_subject_index owner = do
    annotation ← owner.return_type
    subject ← as_type_predicate (s.node annotation.type_annotation)
    name ← as_identifier (s.node subject)
    find_index (λ p. function_parameter_binding_name s p == name) owner.params

  -- the loop of `enclosingFunction`
  unfoldable pub function_above : List ℕ → Option (ℕ × FunctionParts)
  function_above [] = none
  function_above (p ∷ above) =
      let further = function_above above in
      if is_program (s.node p)
      then none
      else elim (as_runtime_function (s.node p)) [ none ↦ further | some f ↦ some (p, f) ]

  unfoldable pub enclosing_function : ℕ → Option (ℕ × FunctionParts)
  enclosing_function n = function_above (s.ancestors n)

  abbrev pub key_name : ℕ → Node → String
  key_name n (identifier name _) = name
  key_name n (private_identifier name) = name
  key_name n (literal (string_value x)) = x
  key_name n (literal (other_value x)) = x
  key_name n _ = s.get_text n

  unfoldable pub source_key_name : ℕ → String
  source_key_name n = key_name n (s.node n)

  abbrev pub name_by_parent : Option Node → String
  name_by_parent (some (variable_declarator i _)) =
      get_or (as_identifier (s.node i)) "anonymous function"
  name_by_parent (some (method_definition key _)) = source_key_name key
  name_by_parent _ = "anonymous function"

  abbrev pub parent_node : ℕ → Option Node
  parent_node n = parent s n >>= λ p. some (s.node p)

  -- `owner.id` is an identifier, whose name is its text
  unfoldable pub function_name : Option (ℕ × FunctionParts) → String
  function_name none = "anonymous function"
  function_name (some (n, f)) = elim f.id [
    | none ↦ name_by_parent (parent_node n)
    | some i ↦ get_or (as_identifier (s.node i)) "anonymous function"
  ]

  unfoldable pub is_empty_object_literal : ℕ → Bool
  is_empty_object_literal n = is_empty_object (s.node (unwrap_expression n))

  unfoldable pub has_parent_assertion : ℕ → Bool
  has_parent_assertion n = is_some (parent_node n >>= as_assertion)

  -- one call of `reportFlow`, by its destination
  unfoldable pub report_flow : ℕ → Option WideningTarget → String → Option (List Report)
  report_flow expression none subject = some []
  report_flow expression (some destination) subject =
      if is_dictionary_accumulator_target destination && is_empty_object_literal expression
      then some []
      else (do
        evident ← has_known_evidence expression
        some (
            if evident
            then report_with expression "widening"
                (("subject", subject) ∷ ("target", target_text destination) ∷ [])
            else []))

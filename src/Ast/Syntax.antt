-- ===== src/Ast/Syntax.antt =====
-- The ESTree node types that the sources name, with the fields that they read.
use zslay.Prelude.{ℕ, String, List, [], ◌∷◌, Option, none, some, Bool}

pub data TypeKeyword : Type 0 where
  ts_any_keyword ts_unknown_keyword ts_object_keyword ts_never_keyword ts_string_keyword
        ts_number_keyword ts_symbol_keyword other_keyword :
      TypeKeyword

-- The value of a `Literal`: a string, or another value with what `String(value)` gives.
pub data LiteralValue : Type 0 where
  string_value : String → LiteralValue
  other_value : String → LiteralValue

-- The node types with `params` and a `returnType`.
pub data FunctionKind : Type 0 where
  arrow_function_expression function_declaration function_expression ts_declare_function
        ts_empty_body_function_expression ts_call_signature_declaration
        ts_construct_signature_declaration ts_constructor_type ts_function_type
        ts_method_signature :
      FunctionKind

-- A `TSTypeAnnotation`: its own start offset, and the type behind the colon.
pub record Annotation : Type 0 where
  pub start : ℕ
  pub type_annotation : ℕ

pub record FunctionParts : Type 0 where
  pub id : Option ℕ
  pub type_parameters : List ℕ
  pub params : List ℕ
  pub return_type : Option Annotation
  pub body : Option ℕ

-- `typeParameters?.params ?? []` and `typeArguments?.params ?? []` are lists; the nodes that hold them
-- are of kind `other_node`, as is every node whose type no rule tests.
pub data Node : Type 0 where
  identifier : String → Option Annotation → Node
  private_identifier jsx_identifier : String → Node
  literal : LiteralValue → Node
  template_literal : List ℕ → Node
  parenthesized_expression chain_expression ts_non_null_expression : ℕ → Node
  ts_as_expression ts_type_assertion ts_satisfies_expression : ℕ → ℕ → Node
  member_expression : ℕ → ℕ → Bool → Node
  call_expression new_expression : ℕ → List ℕ → Node
  binary_expression assignment_expression : String → ℕ → ℕ → Node
  unary_expression : String → ℕ → Node
  conditional_expression : ℕ → ℕ → ℕ → Node
  array_expression object_expression : List ℕ → Node
  property : ℕ → ℕ → Bool → Node
  spread_element : ℕ → Node
  function : FunctionKind → FunctionParts → Node
  class_declaration class_expression : Option ℕ → List ℕ → List ℕ → Node
  rest_element : ℕ → Option Annotation → Node
  assignment_pattern : ℕ → ℕ → Option Annotation → Node
  object_pattern array_pattern : List ℕ → Option Annotation → Node
  ts_parameter_property : ℕ → Node
  program block_statement ts_module_block static_block : List ℕ → Node
  switch_statement : ℕ → List ℕ → Node
  return_statement : Option ℕ → Node
  expression_statement throw_statement : ℕ → Node
  variable_declaration : String → List ℕ → Node
  variable_declarator : ℕ → Option ℕ → Node
  import_declaration : String → List ℕ → Node
  import_specifier : ℕ → ℕ → Node
  import_default_specifier import_namespace_specifier : ℕ → Node
  export_named_declaration export_default_declaration : Option ℕ → Node
  property_definition accessor_property : ℕ → Option ℕ → Option Annotation → Node
  method_definition : ℕ → ℕ → Node
  ts_type_alias_declaration : ℕ → List ℕ → ℕ → Node
  ts_interface_declaration : ℕ → List ℕ → List ℕ → List ℕ → Node
  ts_enum_declaration : ℕ → Node
  ts_keyword : TypeKeyword → Node
  ts_parenthesized_type ts_array_type : ℕ → Node
  ts_union_type ts_intersection_type ts_tuple_type : List ℕ → Node
  ts_type_operator : String → ℕ → Node
  ts_type_reference : ℕ → List ℕ → Node
  ts_type_literal : List ℕ → Node
  ts_mapped_type : ℕ → ℕ → Option ℕ → Option ℕ → Node
  ts_conditional_type : ℕ → ℕ → ℕ → ℕ → Node
  ts_infer_type : ℕ → Node
  ts_type_predicate : ℕ → Option Annotation → Node
  ts_index_signature : List ℕ → Option Annotation → Node
  ts_property_signature : ℕ → Bool → Option Annotation → Node
  ts_type_parameter : ℕ → Option ℕ → Option ℕ → Node
  other_node : List ℕ → Node

-- One `Definition` of a variable: its `type`, its `node` and the node's declaring `parent`.
pub record Definition : Type 0 where
  pub type : String
  pub node : ℕ
  pub parent : Option ℕ

pub record Reference : Type 0 where
  pub identifier : ℕ
  pub is_write : Bool
  pub init : Bool
  pub resolved : Option ℕ

pub record Variable : Type 0 where
  pub name : String
  pub identifiers : List ℕ
  pub defs : List Definition
  pub references : List Reference

-- `scope.set`, as the variables' identities by name
abbrev pub Scope : Type 0
Scope = String → Option ℕ

pub record Comment : Type 0 where
  pub value : String
  pub end : ℕ

pub record SourceCode : Type 0 where
  pub node : ℕ → Node
  -- the chain `node.parent`, `node.parent.parent`, … up to the `Program`
  pub ancestors : ℕ → List ℕ
  -- the child nodes that `visitorKeys[node.type]` names, in order
  pub children : ℕ → List ℕ
  pub start : ℕ → ℕ
  pub end : ℕ → ℕ
  pub get_text : ℕ → String
  -- `getScope(node)` and the chain of its `upper` scopes, innermost first
  pub get_scope : ℕ → List Scope
  pub is_global_reference : ℕ → Bool
  pub variable : ℕ → Variable
  -- the variables of `scopeManager`, and a number above those of the tree's nodes
  pub variables : List ℕ
  pub size : ℕ
  pub get_comments_before : ℕ → List Comment
  pub get_declared_variables : ℕ → List ℕ
  -- the `references` of each of `scopeManager.scopes`
  pub scope_references : List (List Reference)

-- A call of `context.report`: the node, the `messageId`, and the values of `data`.
pub record Report : Type 0 where
  pub node : ℕ
  pub message_id : String
  pub placeholders : List (String × String)

abbrev pub report_with : ℕ → String → List (String × String) → List Report
report_with n id values = record { node = n; message_id = id; placeholders = values } ∷ []

abbrev pub report : ℕ → String → List Report
report n id = report_with n id []

-- `node.parent`, `none` for the `Program`
abbrev pub parent : SourceCode → ℕ → Option ℕ
parent s n = elim (s.ancestors n) [ [] ↦ none | p ∷ _ ↦ some p ]

-- ===== src/Ast/Views.antt =====
-- Tests on a node's `type`, with the fields that a test gives access to.
use zslay.Prelude.{Bool, List, Option, String, false, none, some, true, ℕ}
use zslay.Ast.Syntax.{
  Annotation, FunctionKind, FunctionParts, Node, array_expression, arrow_function_expression,
  binary_expression, call_expression, conditional_expression, function, function_declaration,
  function_expression, identifier, import_declaration, import_specifier, literal, member_expression,
  object_expression, program, string_value, ts_as_expression, ts_type_assertion, ts_type_reference,
  variable_declaration, variable_declarator,
}

pub record Member : Type 0 where
  pub object : ℕ
  pub property : ℕ
  pub computed : Bool

pub record Call : Type 0 where
  pub callee : ℕ
  pub arguments : List ℕ

pub record Binary : Type 0 where
  pub operator : String
  pub left : ℕ
  pub right : ℕ

pub record Conditional : Type 0 where
  pub test : ℕ
  pub consequent : ℕ
  pub alternate : ℕ

-- A `TSAsExpression` or a `TSTypeAssertion`.
pub record Assertion : Type 0 where
  pub expression : ℕ
  pub type_annotation : ℕ

pub record TypeReference : Type 0 where
  pub type_name : ℕ
  pub arguments : List ℕ

abbrev pub as_identifier : Node → Option String
as_identifier (identifier name _) = some name
as_identifier _ = none

-- `typeof node.value === "string"`, with the value
abbrev pub as_string_literal : Node → Option String
as_string_literal (literal (string_value value)) = some value
as_string_literal _ = none

abbrev pub as_member : Node → Option Member
as_member (member_expression o p c) = some (record { object = o; property = p; computed = c })
as_member _ = none

abbrev pub as_call : Node → Option Call
as_call (call_expression c es) = some (record { callee = c; arguments = es })
as_call _ = none

abbrev pub as_binary : Node → Option Binary
as_binary (binary_expression o l r) = some (record { operator = o; left = l; right = r })
as_binary _ = none

abbrev pub as_conditional : Node → Option Conditional
as_conditional (conditional_expression t c a) =
    some (record { test = t; consequent = c; alternate = a })
as_conditional _ = none

abbrev pub as_assertion : Node → Option Assertion
as_assertion (ts_as_expression e t) = some (record { expression = e; type_annotation = t })
as_assertion (ts_type_assertion e t) = some (record { expression = e; type_annotation = t })
as_assertion _ = none

abbrev pub as_object : Node → Option (List ℕ)
as_object (object_expression ps) = some ps
as_object _ = none

abbrev pub is_array_expression : Node → Bool
is_array_expression (array_expression _) = true
is_array_expression _ = false

abbrev pub as_type_reference : Node → Option TypeReference
as_type_reference (ts_type_reference n ts) = some (record { type_name = n; arguments = ts })
as_type_reference _ = none

abbrev pub is_program : Node → Bool
is_program (program _) = true
is_program _ = false

abbrev pub as_function : Node → Option FunctionParts
as_function (function _ f) = some f
as_function _ = none

-- A function that runs: an arrow function, a declaration or a function expression.
abbrev pub is_runtime_kind : FunctionKind → Bool
is_runtime_kind arrow_function_expression = true
is_runtime_kind function_expression = true
is_runtime_kind function_declaration = true
is_runtime_kind _ = false

abbrev pub as_runtime_function : Node → Option FunctionParts
as_runtime_function (function arrow_function_expression f) = some f
as_runtime_function (function function_expression f) = some f
as_runtime_function (function function_declaration f) = some f
as_runtime_function _ = none

-- An arrow function or a function expression.
abbrev pub is_function_expression : Node → Bool
is_function_expression (function arrow_function_expression _) = true
is_function_expression (function function_expression _) = true
is_function_expression _ = false

abbrev pub as_import_specifier : Node → Option ℕ
as_import_specifier (import_specifier imported _) = some imported
as_import_specifier _ = none

pub record Declarator : Type 0 where
  pub id : ℕ
  pub init : Option ℕ

abbrev pub as_declarator : Node → Option Declarator
as_declarator (variable_declarator i e) = some (record { id = i; init = e })
as_declarator _ = none

abbrev pub declaration_kind : Node → Option String
declaration_kind (variable_declaration kind _) = some kind
declaration_kind _ = none

abbrev pub identifier_annotation : Node → Option Annotation
identifier_annotation (identifier _ t) = t
identifier_annotation _ = none

-- The text of an import's `source`.
abbrev pub as_import_source : Node → Option String
as_import_source (import_declaration source _) = some source
as_import_source _ = none

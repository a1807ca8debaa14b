-- ===== src/Rules/UnknownTypes.antt =====
-- rules/: no-unknown-type-aliases, no-unknown-returns, no-object-parameters and no-unknown-parameters.
pub mod ResolveLaws
pub mod ParameterLaws
pub mod ObjectLaws
use zslay.Prelude.{
  Bool, List, Option, String, [], any, false, gather, get_or, if◌then◌else◌, none, some, true, ℕ,
  ◌==◌, ◌||◌, ◌∷◌,
}
use zslay.Ast.{
  FunctionParts, Node, Report, SourceCode, as_identifier, function, report_with, ts_keyword,
  ts_object_keyword, ts_parenthesized_type, ts_type_alias_declaration, ts_type_predicate,
  ts_type_reference, ts_union_type, ts_unknown_keyword,
}
use zslay.Shared.FunctionParameters.{
  contains_unknown_type, function_parameter_binding_name, function_parameter_type_annotation,
}
use zslay.Shared.TypeAlias.{TypeBinding, create_type_alias_environment}
use zslay.Shared.TypeAlias.Resolve.{Matcher, resolved_type_matches}

-- `environment`, null before the handler of the `Program`
abbrev pub Environment : Type 0
Environment = Option (List TypeBinding)

-- the matcher of no-unknown-type-aliases
abbrev pub unknown_matcher : Matcher
unknown_matcher rec (ts_keyword ts_unknown_keyword) = true
unknown_matcher rec (ts_parenthesized_type t) = rec t
unknown_matcher rec (ts_union_type ts) = any rec ts
unknown_matcher rec _ = false

-- the matcher of no-object-parameters
abbrev pub object_matcher : Matcher
object_matcher rec (ts_keyword ts_object_keyword) = true
object_matcher rec (ts_parenthesized_type t) = rec t
object_matcher rec (ts_union_type ts) = any rec ts
object_matcher rec _ = false

module _ (s : SourceCode) where
  -- the handler of `Program`, which the four rules but no-unknown-parameters share
  unfoldable pub enter_program : ℕ → Environment
  enter_program root = some (create_type_alias_environment s root)

  unfoldable pub resolves_to : Matcher → Environment → ℕ → Bool
  resolves_to matcher none t = false
  resolves_to matcher (some environment) t = resolved_type_matches s environment matcher t

  -- `name` of a node that is an identifier by its position
  abbrev pub identifier_name : ℕ → String
  identifier_name n = get_or (as_identifier (s.node n)) ""

  abbrev pub is_promise_name : ℕ → Bool
  is_promise_name n = elim (as_identifier (s.node n)) [
    | none ↦ false
    | some name ↦ name == "Promise" || name == "PromiseLike"
  ]

  abbrev pub first_matches : (ℕ → Bool) → List ℕ → Bool
  first_matches rec [] = false
  first_matches rec (value ∷ _) = rec value

  -- the matcher of no-unknown-returns
  abbrev pub return_matcher : Matcher
  return_matcher rec (ts_keyword ts_unknown_keyword) = true
  return_matcher rec (ts_parenthesized_type t) = rec t
  return_matcher rec (ts_union_type ts) = any rec ts
  return_matcher rec (ts_type_reference name arguments) =
      if is_promise_name name then first_matches rec arguments else false
  return_matcher rec _ = false

  -- `TSTypeAliasDeclaration` of no-unknown-type-aliases
  aliases_in : Environment → Node → List Report
  aliases_in environment (ts_type_alias_declaration i _ t) =
      if resolves_to unknown_matcher environment t
      then report_with i "unknownAlias" (("alias", identifier_name i) ∷ [])
      else []
  aliases_in environment _ = []

  unfoldable pub no_unknown_type_aliases : Environment → ℕ → List Report
  unfolding aliases_in
  no_unknown_type_aliases environment n = aliases_in environment (s.node n)

  -- `checkReturnType`, the handler of every node with parameters and a return type
  returns_in : Environment → Node → List Report
  returns_in environment (function _ f) = elim f.return_type [
    | none ↦ []
    | some annotation ↦
        if resolves_to return_matcher environment annotation.type_annotation
        then report_with annotation.type_annotation "unknownReturn" []
        else []
  ]
  returns_in environment _ = []

  unfoldable pub no_unknown_returns : Environment → ℕ → List Report
  unfolding returns_in
  no_unknown_returns environment n = returns_in environment (s.node n)

  -- One round of the loop over the parameters in no-object-parameters.
  unfoldable pub check_object_parameter : Environment → ℕ → List Report
  check_object_parameter environment p = elim (function_parameter_type_annotation s p) [
    | none ↦ []
    | some annotation ↦
        if resolves_to object_matcher environment annotation.type_annotation
        then report_with annotation.type_annotation "objectParameter"
            (("parameter", function_parameter_binding_name s p) ∷ [])
        else []
  ]

  object_parameters_in : Environment → Node → List Report
  object_parameters_in environment (function _ f) =
      gather (check_object_parameter environment) f.params
  object_parameters_in environment _ = []

  unfoldable pub no_object_parameters : Environment → ℕ → List Report
  unfolding object_parameters_in
  no_object_parameters environment n = object_parameters_in environment (s.node n)

  -- The text of the subject of a type predicate.
  abbrev pub predicate_subject : Node → Option String
  predicate_subject (ts_type_predicate subject _) = as_identifier (s.node subject)
  predicate_subject _ = none

  unfoldable pub is_type_predicate_subject : FunctionParts → String → Bool
  is_type_predicate_subject owner name = elim owner.return_type [
    | none ↦ false
    | some annotation ↦ elim (predicate_subject (s.node annotation.type_annotation)) [
      | none ↦ false
      | some subject ↦ subject == name
    ]
  ]

  -- One round of the loop in no-unknown-parameters.
  unfoldable pub check_unknown_parameter : FunctionParts → ℕ → List Report
  check_unknown_parameter owner p = elim (function_parameter_type_annotation s p) [
    | none ↦ []
    | some annotation ↦ elim (contains_unknown_type s annotation.type_annotation) [
      | false ↦ []
      | true ↦
          let name = function_parameter_binding_name s p in
          if name == "cause" || is_type_predicate_subject owner name
          then []
          else report_with annotation.type_annotation "unknownParameter" (("parameter", name) ∷ [])
    ]
  ]

  unknown_parameters_in : Node → List Report
  unknown_parameters_in (function _ f) = gather (check_unknown_parameter f) f.params
  unknown_parameters_in _ = []

  unfoldable pub no_unknown_parameters : ℕ → List Report
  unfolding unknown_parameters_in
  no_unknown_parameters n = unknown_parameters_in (s.node n)

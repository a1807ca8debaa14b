-- ===== src/Tests/SharedTests.antt =====
-- The shared analyses on small programs.
use zslay.Prelude.{
  All, Bool, List, [], arith, false, if◌then◌else◌, none, refl, some, suc, true, zero, ℕ, ◌<◌, ◌==◌,
  ◌↔◌, ◌∷◌, ◌≡◌,
}
use zslay.Ast.{
  walk, IsScoped, IsTree, Scope, SourceCode, Variable, array_expression, call_expression,
  expression_statement, identifier, member_expression, parenthesized_expression, program,
  ts_keyword, ts_parenthesized_type, ts_string_keyword, ts_union_type, ts_unknown_keyword,
  variable_declaration, variable_declarator,
}
use zslay.Tests.Sample.{Entry, no_scope, source_of, source_of-IsTree, variable_at}
use zslay.Shared.ArrayMethod.{
  array_method_target, const_initializer, evidence, first_annotation, first_const_initializer,
  is_known_array_expression, is_known_array_within, resolve_array_binding, unwrap_array_expression,
}
use zslay.Shared.ArrayMethod.DecideLaws.{is_known_array_expression_iff}
use zslay.Shared.ArrayMethod.KnownLaws.{KnownArray}
use zslay.Shared.FunctionParameters.{contains_unknown_type}
use zslay.Shared.FunctionParameters.UnknownLaws.{ContainsUnknown, contains_unknown_type_iff}
use zslay.Shared.Scope.{find_binding}

-- const xs = []; (xs.map(g))
abbrev arrays : List Entry
arrays =
    (identifier "xs" none, 2 ∷ 3 ∷ 11 ∷ [])
    ∷ (array_expression [], 2 ∷ 3 ∷ 11 ∷ [])
    ∷ (variable_declarator 0 (some 1), 3 ∷ 11 ∷ [])
    ∷ (variable_declaration "const" (2 ∷ []), 11 ∷ [])
    ∷ (identifier "xs" none, 6 ∷ 8 ∷ 9 ∷ 10 ∷ 11 ∷ [])
    ∷ (identifier "map" none, 6 ∷ 8 ∷ 9 ∷ 10 ∷ 11 ∷ [])
    ∷ (member_expression 4 5 false, 8 ∷ 9 ∷ 10 ∷ 11 ∷ [])
    ∷ (identifier "g" none, 8 ∷ 9 ∷ 10 ∷ 11 ∷ [])
    ∷ (call_expression 6 (7 ∷ []), 9 ∷ 10 ∷ 11 ∷ [])
    ∷ (parenthesized_expression 8, 10 ∷ 11 ∷ [])
    ∷ (expression_statement 9, 11 ∷ [])
    ∷ (program (3 ∷ 10 ∷ []), [])
    ∷ []

abbrev xs_scope : Scope
xs_scope name = if name == "xs" then some 0 else none

abbrev xs_variables : List Variable
xs_variables =
    record {
      name = "xs";
      identifiers = 0 ∷ [];
      defs = record { type = "Variable"; node = 2; parent = some 3 } ∷ [];
      references = [];
    }
    ∷ []

abbrev array_source : SourceCode
array_source = source_of arrays xs_variables xs_scope

array_source-IsTree : IsTree array_source
array_source-IsTree = source_of-IsTree arrays xs_variables xs_scope (omega arith) (ground arith)

xs_defined : (v : ℕ) → All (λ d. d.node < 100) (variable_at xs_variables v).defs
xs_defined zero = (omega arith, tt)
xs_defined (suc v) = tt

array_source-IsScoped : IsScoped array_source
array_source-IsScoped = record {
  tree = array_source-IsTree;
  bound = λ n. ((λ name v h. ground arith), tt);
  defined = xs_defined;
}

arrays_run :
    (unwrap_array_expression array_source 9 ≡ 8)
    × (is_known_array_expression array_source 9 ≡ some true)
    × (is_known_array_expression array_source 7 ≡ some false)
unfolding unwrap_array_expression is_known_array_expression is_known_array_within evidence
    resolve_array_binding array_method_target find_binding first_annotation first_const_initializer
    const_initializer walk
arrays_run = (refl, refl, refl)

is_known_array_expression_example :
    ((b : Bool) × (is_known_array_expression array_source 9 ≡ some b))
    × ((is_known_array_expression array_source 9 ≡ some true) ↔ KnownArray array_source 9)
is_known_array_expression_example =
    is_known_array_expression_iff array_source array_source-IsScoped 9

-- (string | unknown)
abbrev unions : List Entry
unions =
    (ts_keyword ts_string_keyword, 2 ∷ 3 ∷ [])
    ∷ (ts_keyword ts_unknown_keyword, 2 ∷ 3 ∷ [])
    ∷ (ts_union_type (0 ∷ 1 ∷ []), 3 ∷ [])
    ∷ (ts_parenthesized_type 2, [])
    ∷ []

abbrev union_source : SourceCode
union_source = source_of unions [] no_scope

union_source-IsTree : IsTree union_source
union_source-IsTree = source_of-IsTree unions [] no_scope (omega arith) (ground arith)

contains_unknown_type_example :
    (contains_unknown_type union_source 3 ≡ true) ↔ ContainsUnknown union_source 3
contains_unknown_type_example = contains_unknown_type_iff union_source union_source-IsTree 3

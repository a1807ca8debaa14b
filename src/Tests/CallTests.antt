-- ===== src/Tests/CallTests.antt =====
-- The rules on calls and on expressions on a small program.
use zslay.Prelude.{
  List, Memᴰ, String, [], arith, false, none, refl, some, strip_prefix, suc, true, ℕ, ◌↔◌, ◌∷◌, ◌≡◌,
  ◌≢◌,
}
use zslay.Ast.{
  IsScoped, IsTree, Report, SourceCode, array_expression, call_expression, conditional_expression,
  identifier, member_expression, object_expression, parenthesized_expression, program, report,
  report_with, spread_element, ts_as_expression, ts_keyword, ts_string_keyword, ts_unknown_keyword,
  unary_expression, walk,
}
use zslay.Tests.Sample.{Entry, no_scope, source_of, source_of-IsTree}
use zslay.Rules.Assertions.{
  chain_from, is_const_assertion, is_forbidden_assertion_chain, is_outermost_assertion_in_chain,
  no_chained_type_assertions, outermost_from, unwrap_parenthesized_expression,
}
use zslay.Rules.Assertions.ChainLaws.{AssertionChain, Outermost, no_chained_type_assertions_iff}
use zslay.Rules.Calls.{
  adjacent_passes, called_target, is_test_framework_object, module_mock_call, no_array_filter_map,
  no_module_mocking,
}
use zslay.Shared.ArrayMethod.{
  array_method_target, evidence, is_known_array_expression, is_known_array_within,
  unwrap_array_expression,
}
use zslay.Shared.Scope.{find_binding}
use zslay.Rules.Calls.FilterMapLaws.{ArrayPasses, no_array_filter_map_iff}
use zslay.Rules.Calls.MockLaws.{Mocks, no_module_mocking_iff}
use zslay.Rules.Expressions.{
  contains_forbidden_symbol_name, includes, is_borrowed_member_name,
  is_conditional_empty_object_spread, is_existence_probe, is_inside_type_guard,
  no_conditional_empty_object_spread, no_runtime_typeof, no_shape_in_symbol_names, symbol_name,
  to_lower_case, type_guard_from,
}
use zslay.Rules.Expressions.TypeofLaws.{RuntimeTypeof, no_runtime_typeof_iff}
use zslay.Rules.Expressions.SpreadLaws.{ConditionalSpread, no_conditional_empty_object_spread_iff}
use zslay.Rules.Expressions.SymbolLaws.{Borrowed, Forbidden, no_shape_in_symbol_names_iff}

-- vi.mock(); [].filter().map(); typeof x; { ...(a ? {} : b) }; Shapes; (y as string) as unknown
abbrev calls : List Entry
calls =
    (identifier "vi" none, 2 ∷ 3 ∷ 27 ∷ [])
    ∷ (identifier "mock" none, 2 ∷ 3 ∷ 27 ∷ [])
    ∷ (member_expression 0 1 false, 3 ∷ 27 ∷ [])
    ∷ (call_expression 2 [], 27 ∷ [])
    ∷ (array_expression [], 6 ∷ 7 ∷ 9 ∷ 10 ∷ 27 ∷ [])
    ∷ (identifier "filter" none, 6 ∷ 7 ∷ 9 ∷ 10 ∷ 27 ∷ [])
    ∷ (member_expression 4 5 false, 7 ∷ 9 ∷ 10 ∷ 27 ∷ [])
    ∷ (call_expression 6 [], 9 ∷ 10 ∷ 27 ∷ [])
    ∷ (identifier "map" none, 9 ∷ 10 ∷ 27 ∷ [])
    ∷ (member_expression 7 8 false, 10 ∷ 27 ∷ [])
    ∷ (call_expression 9 [], 27 ∷ [])
    ∷ (identifier "x" none, 12 ∷ 27 ∷ [])
    ∷ (unary_expression "typeof" 11, 27 ∷ [])
    ∷ (identifier "a" none, 16 ∷ 17 ∷ 18 ∷ 19 ∷ 27 ∷ [])
    ∷ (object_expression [], 16 ∷ 17 ∷ 18 ∷ 19 ∷ 27 ∷ [])
    ∷ (identifier "b" none, 16 ∷ 17 ∷ 18 ∷ 19 ∷ 27 ∷ [])
    ∷ (conditional_expression 13 14 15, 17 ∷ 18 ∷ 19 ∷ 27 ∷ [])
    ∷ (parenthesized_expression 16, 18 ∷ 19 ∷ 27 ∷ [])
    ∷ (spread_element 17, 19 ∷ 27 ∷ [])
    ∷ (object_expression (18 ∷ []), 27 ∷ [])
    ∷ (identifier "Shapes" none, 27 ∷ [])
    ∷ (identifier "y" none, 23 ∷ 24 ∷ 26 ∷ 27 ∷ [])
    ∷ (ts_keyword ts_string_keyword, 23 ∷ 24 ∷ 26 ∷ 27 ∷ [])
    ∷ (ts_as_expression 21 22, 24 ∷ 26 ∷ 27 ∷ [])
    ∷ (parenthesized_expression 23, 26 ∷ 27 ∷ [])
    ∷ (ts_keyword ts_unknown_keyword, 26 ∷ 27 ∷ [])
    ∷ (ts_as_expression 24 25, 27 ∷ [])
    ∷ (program (3 ∷ 10 ∷ 12 ∷ 19 ∷ 20 ∷ 26 ∷ []), [])
    ∷ []

abbrev call_source : SourceCode
call_source = source_of calls [] no_scope

call_source-IsTree : IsTree call_source
call_source-IsTree = source_of-IsTree calls [] no_scope (omega arith) (ground arith)

call_source-IsScoped : IsScoped call_source
call_source-IsScoped = record {
  tree = call_source-IsTree;
  bound = λ n. ((λ name v h. ground arith), tt);
  defined = λ v. tt;
}

call_rules_run :
    (no_module_mocking call_source 3 ≡ report 3 "moduleMock")
    × (no_array_filter_map call_source 10
        ≡ some (report_with 10 "arrayFilterMap" (("first", "filter") ∷ ("second", "map") ∷ [])))
    × (no_runtime_typeof call_source false 12 ≡ report 12 "runtimeTypeof")
    × (no_conditional_empty_object_spread call_source 18 ≡ report 18 "avoid")
    × (no_shape_in_symbol_names call_source 20
        ≡ report_with 20 "forbiddenSymbolName" (("name", "Shapes") ∷ []))
    × (no_chained_type_assertions call_source 26 ≡ report 26 "chained")
    × (no_chained_type_assertions call_source 23 ≡ [])
unfolding no_module_mocking module_mock_call is_test_framework_object no_array_filter_map
    adjacent_passes called_target array_method_target unwrap_array_expression
    is_known_array_expression is_known_array_within evidence no_runtime_typeof is_existence_probe
    is_inside_type_guard type_guard_from no_conditional_empty_object_spread
    is_conditional_empty_object_spread unwrap_parenthesized_expression no_shape_in_symbol_names
    contains_forbidden_symbol_name includes to_lower_case is_borrowed_member_name
    no_chained_type_assertions is_outermost_assertion_in_chain outermost_from
    is_forbidden_assertion_chain chain_from is_const_assertion find_binding strip_prefix walk
call_rules_run = (refl, refl, refl, refl, refl, refl, refl)

no_module_mocking_example : (no_module_mocking call_source 3 ≢ []) ↔ Mocks call_source 3
no_module_mocking_example = no_module_mocking_iff call_source 3

no_array_filter_map_example :
    (reports : List Report) × (no_array_filter_map call_source 10 ≡ some reports)
    × ((r : Report) → Memᴰ r reports ↔ ArrayPasses call_source 10 r)
no_array_filter_map_example = no_array_filter_map_iff call_source call_source-IsScoped 10

no_runtime_typeof_example :
    (no_runtime_typeof call_source true 12 ≢ []) ↔ RuntimeTypeof call_source true 12
no_runtime_typeof_example = no_runtime_typeof_iff call_source true 12

no_conditional_empty_object_spread_example :
    (no_conditional_empty_object_spread call_source 18 ≢ []) ↔ ConditionalSpread call_source 18
no_conditional_empty_object_spread_example =
    no_conditional_empty_object_spread_iff call_source call_source-IsTree 18

no_shape_in_symbol_names_example : (no_shape_in_symbol_names call_source 20 ≢ []) ↔ (
    (name : String) × (symbol_name (call_source.node 20) ≡ some name)
    × Forbidden name
    × (Borrowed call_source 20 → ⊥))
no_shape_in_symbol_names_example = no_shape_in_symbol_names_iff call_source 20

no_chained_type_assertions_example : (no_chained_type_assertions call_source 26 ≢ []) ↔ (
    Outermost call_source 26 (call_source.ancestors 26)
    × ((k : ℕ) × AssertionChain call_source 26 (suc (suc k)) true))
no_chained_type_assertions_example =
    no_chained_type_assertions_iff call_source call_source-IsTree 26

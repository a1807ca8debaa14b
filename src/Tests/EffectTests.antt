-- ===== src/Tests/EffectTests.antt =====
-- The rules for Effect on small programs.
use zslay.Prelude.{
  codes, strip_prefix, List, String, [], arith, false, none, refl, some, suc, true, ℕ, ◌++◌, ◌↔◌,
  ◌∷◌, ◌≡◌, ◌≢◌,
}
use zslay.Ast.{
  SourceCode, IsTree, arrow_function_expression, binary_expression, call_expression,
  conditional_expression, expression_statement, function, identifier, literal, member_expression,
  program, report, string_value,
}
use zslay.Tests.Sample.{Entry, no_scope, source_of, source_of-IsTree}
use zslay.Effect.Rules.{
  compared_value, count_checks, is_nested_conditional, no_manual_effect_error_tag,
  no_manual_tag_comparison, prefer_effect_match,
}
use zslay.Effect.Rules.MatchLaws.{LiteralChain, prefer_effect_match_iff}
use zslay.Effect.Rules.TagLaws.{TagTest, tag_rules_iff}
use zslay.Effect.ServiceImports.{is_test_file, matches_here}
use zslay.Effect.ServiceImports.PatternLaws.{TestFile, is_test_file_iff}
use zslay.Effect.TaggedValues.{
  is_broad_effect_catch_call, is_inside_broad_effect_handler, is_reason_tag_member, is_tag_member,
  tag_member_from_comparison,
}
use zslay.Effect.TaggedValues.HandlerLaws.{InHandler, inside_broad_handler_iff}

-- x === "a" ? y : x === "b" ? y : z
abbrev ternaries : List Entry
ternaries =
    (identifier "x" none, 2 ∷ 10 ∷ 11 ∷ 12 ∷ [])
    ∷ (literal (string_value "a"), 2 ∷ 10 ∷ 11 ∷ 12 ∷ [])
    ∷ (binary_expression "===" 0 1, 10 ∷ 11 ∷ 12 ∷ [])
    ∷ (identifier "y" none, 10 ∷ 11 ∷ 12 ∷ [])
    ∷ (identifier "x" none, 6 ∷ 9 ∷ 10 ∷ 11 ∷ 12 ∷ [])
    ∷ (literal (string_value "b"), 6 ∷ 9 ∷ 10 ∷ 11 ∷ 12 ∷ [])
    ∷ (binary_expression "===" 4 5, 9 ∷ 10 ∷ 11 ∷ 12 ∷ [])
    ∷ (identifier "y" none, 9 ∷ 10 ∷ 11 ∷ 12 ∷ [])
    ∷ (identifier "z" none, 9 ∷ 10 ∷ 11 ∷ 12 ∷ [])
    ∷ (conditional_expression 6 7 8, 10 ∷ 11 ∷ 12 ∷ [])
    ∷ (conditional_expression 2 3 9, 11 ∷ 12 ∷ [])
    ∷ (expression_statement 10, 12 ∷ [])
    ∷ (program (11 ∷ []), [])
    ∷ []

abbrev ternary_source : SourceCode
ternary_source = source_of ternaries [] no_scope

ternary_source-IsTree : IsTree ternary_source
ternary_source-IsTree = source_of-IsTree ternaries [] no_scope (omega arith) (ground arith)

ternaries_run :
    (prefer_effect_match ternary_source 10 ≡ report 10 "preferMatch")
    × (prefer_effect_match ternary_source 9 ≡ [])
unfolding prefer_effect_match compared_value count_checks
ternaries_run = (refl, refl)

prefer_effect_match_example : (prefer_effect_match ternary_source 10 ≢ []) ↔ (
    (is_nested_conditional ternary_source 10 ≡ false)
    × ((value : String) × (k : ℕ) × LiteralChain ternary_source value 10 (suc (suc k))))
prefer_effect_match_example = prefer_effect_match_iff ternary_source ternary_source-IsTree 10

-- Effect.catch((e) => e._tag === "a")
abbrev handler : List Entry
handler =
    (identifier "Effect" none, 2 ∷ 9 ∷ 10 ∷ 11 ∷ [])
    ∷ (identifier "catch" none, 2 ∷ 9 ∷ 10 ∷ 11 ∷ [])
    ∷ (member_expression 0 1 false, 9 ∷ 10 ∷ 11 ∷ [])
    ∷ (identifier "e" none, 5 ∷ 7 ∷ 8 ∷ 9 ∷ 10 ∷ 11 ∷ [])
    ∷ (identifier "_tag" none, 5 ∷ 7 ∷ 8 ∷ 9 ∷ 10 ∷ 11 ∷ [])
    ∷ (member_expression 3 4 false, 7 ∷ 8 ∷ 9 ∷ 10 ∷ 11 ∷ [])
    ∷ (literal (string_value "a"), 7 ∷ 8 ∷ 9 ∷ 10 ∷ 11 ∷ [])
    ∷ (binary_expression "===" 5 6, 8 ∷ 9 ∷ 10 ∷ 11 ∷ [])
    ∷ (
      function arrow_function_expression (record {
        id = none;
        type_parameters = [];
        params = [];
        return_type = none;
        body = some 7;
      }),
      9 ∷ 10 ∷ 11 ∷ [],
    )
    ∷ (call_expression 2 (8 ∷ []), 10 ∷ 11 ∷ [])
    ∷ (expression_statement 9, 11 ∷ [])
    ∷ (program (10 ∷ []), [])
    ∷ []

abbrev handler_source : SourceCode
handler_source = source_of handler [] no_scope

handler_run :
    (no_manual_effect_error_tag handler_source 7 ≡ report 7 "tag")
    × (no_manual_tag_comparison handler_source 7 ≡ [])
unfolding no_manual_effect_error_tag no_manual_tag_comparison tag_member_from_comparison
    is_tag_member is_inside_broad_effect_handler is_broad_effect_catch_call is_reason_tag_member
handler_run = (refl, refl)

inside_broad_handler_example :
    (is_inside_broad_effect_handler handler_source 7 ≡ true)
    ↔ InHandler handler_source (8 ∷ 9 ∷ 10 ∷ 11 ∷ [])
inside_broad_handler_example = inside_broad_handler_iff handler_source 7

tag_rules_example :
    (no_manual_effect_error_tag handler_source 7 ++ no_manual_tag_comparison handler_source 7 ≢ [])
    ↔ TagTest handler_source 7
tag_rules_example = tag_rules_iff handler_source 7

is_test_file_run :
    (is_test_file (codes "src/clock.test.ts") ≡ true) × (is_test_file (codes "src/test.ts") ≡ false)
unfolding is_test_file matches_here strip_prefix
is_test_file_run = (refl, refl)

is_test_file_example : (is_test_file (codes "a.spec.mjs") ≡ true) ↔ TestFile (codes "a.spec.mjs")
is_test_file_example = is_test_file_iff (codes "a.spec.mjs")

-- ===== src/Tests/AssertTests.antt =====
-- The rule on bindings that are widened and asserted later.
use zslay.Prelude.{List, Memᴰ, Option, [], arith, false, none, refl, some, ◌↔◌, ◌∷◌, ◌≡◌}
use zslay.Ast.{
  IsTree, Reference, Report, SourceCode, Variable, expression_statement, identifier, literal,
  program, string_value, ts_as_expression, ts_keyword, ts_string_keyword, ts_unknown_keyword,
  variable_declaration, variable_declarator, walk,
}
use zslay.Tests.Sample.{Entry, no_scope, source_of, source_of-IsTree}
use zslay.Shared.Bindings.{chase}
use zslay.Rules.WidenThenAssert.{
  assertion_is_narrower, broad_record_within, broad_type_kind, is_broad_record_type, top_kind,
  unwrap_expression_parentheses, unwrap_type_parentheses,
}
use zslay.Rules.WidenThenAssert.Flows.{
  KnownValueEvidence, annotated_identifier, asserted_variable, assertion_from_expression,
  boundary_above, check_assertion, const_declarator, first_declarator, function_boundary,
  known_value_evidence, no_widen_then_assert, resolved_variable_for_identifier, widened_binding,
  widening_declarator,
}
use zslay.Rules.WidenThenAssert.KnownLaws.{AreResolved, KnownValue}
use zslay.Rules.WidenThenAssert.EvidenceLaws.{known_value_evidence_iff}
use zslay.Rules.WidenThenAssert.FlowLaws.{WidensThenAsserts, no_widen_then_assert_iff}
use zslay.Rules.WidenThenAssert.KindLaws.{Broad, broad_type_kind_iff}

-- const a = "x"; const b: unknown = a; b as string;
abbrev widened : List Entry
widened =
    (identifier "a" none, 2 ∷ 3 ∷ 13 ∷ [])
    ∷ (literal (string_value "x"), 2 ∷ 3 ∷ 13 ∷ [])
    ∷ (variable_declarator 0 (some 1), 3 ∷ 13 ∷ [])
    ∷ (variable_declaration "const" (2 ∷ []), 13 ∷ [])
    ∷ (ts_keyword ts_unknown_keyword, 5 ∷ 7 ∷ 8 ∷ 13 ∷ [])
    ∷ (identifier "b" (some (record { start = 4; type_annotation = 4 })), 7 ∷ 8 ∷ 13 ∷ [])
    ∷ (identifier "a" none, 7 ∷ 8 ∷ 13 ∷ [])
    ∷ (variable_declarator 5 (some 6), 8 ∷ 13 ∷ [])
    ∷ (variable_declaration "const" (7 ∷ []), 13 ∷ [])
    ∷ (identifier "b" none, 11 ∷ 12 ∷ 13 ∷ [])
    ∷ (ts_keyword ts_string_keyword, 11 ∷ 12 ∷ 13 ∷ [])
    ∷ (ts_as_expression 9 10, 12 ∷ 13 ∷ [])
    ∷ (expression_statement 11, 13 ∷ [])
    ∷ (program (3 ∷ 8 ∷ 12 ∷ []), [])
    ∷ []

abbrev widened_variables : List Variable
widened_variables =
    record {
      name = "a";
      identifiers = 0 ∷ [];
      defs = record { type = "Variable"; node = 2; parent = some 3 } ∷ [];
      references = [];
    }
    ∷ record {
      name = "b";
      identifiers = 5 ∷ [];
      defs = record { type = "Variable"; node = 7; parent = some 8 } ∷ [];
      references = [];
    }
    ∷ []

abbrev widened_source : SourceCode
widened_source = source_of widened widened_variables no_scope

abbrev widened_scopes : List (List Reference)
widened_scopes =
    (record { identifier = 6; is_write = false; init = false; resolved = some 0 }
      ∷ record { identifier = 9; is_write = false; init = false; resolved = some 1 }
      ∷ [])
    ∷ []

widened_source-IsTree : IsTree widened_source
widened_source-IsTree =
    source_of-IsTree widened widened_variables no_scope (omega arith) (ground arith)

widened_scopes-AreResolved : AreResolved widened_source widened_scopes
widened_scopes-AreResolved = ((λ v h. ground arith, (λ v h. ground arith, tt)), tt)

abbrev assert_report : Report
assert_report = record {
  node = 11;
  message_id = "widenThenAssert";
  placeholders = ("name", "b") ∷ [];
}

widened_run :
    (broad_type_kind widened_source 4 ≡ some top_kind)
    × (broad_type_kind widened_source 10 ≡ none)
    × (known_value_evidence widened_source widened_scopes none 1 6
        ≡ some (some (record { type = none })))
    × (no_widen_then_assert widened_source widened_scopes 11 ≡ some (assert_report ∷ []))
    × (no_widen_then_assert widened_source widened_scopes 9 ≡ some [])
unfolding broad_type_kind unwrap_type_parentheses unwrap_expression_parentheses walk
    is_broad_record_type broad_record_within known_value_evidence chase
    resolved_variable_for_identifier annotated_identifier const_declarator first_declarator
    function_boundary boundary_above no_widen_then_assert check_assertion asserted_variable
    widened_binding widening_declarator assertion_from_expression assertion_is_narrower
widened_run = (refl, refl, refl, refl, refl)

known_value_evidence_example :
    ((o : Option KnownValueEvidence) × (known_value_evidence widened_source widened_scopes none 1 6
        ≡ some o))
    × ((e : KnownValueEvidence)
        → (known_value_evidence widened_source widened_scopes none 1 6 ≡ some (some e))
          ↔ KnownValue widened_source widened_scopes none 1 6 e)
known_value_evidence_example =
    known_value_evidence_iff widened_source widened_scopes none 1 widened_source-IsTree
      widened_scopes-AreResolved 6

no_widen_then_assert_example :
    (reports : List Report) × (no_widen_then_assert widened_source widened_scopes 11 ≡ some reports)
    × ((r : Report) → Memᴰ r reports ↔ WidensThenAsserts widened_source widened_scopes 11 r)
no_widen_then_assert_example =
    no_widen_then_assert_iff widened_source widened_scopes widened_source-IsTree
      widened_scopes-AreResolved 11

broad_type_kind_example :
    (broad_type_kind widened_source 4 ≡ some top_kind) ↔ Broad widened_source 4 top_kind
broad_type_kind_example = broad_type_kind_iff widened_source widened_source-IsTree 4 top_kind

-- ===== src/Shared/DictionaryTypes/EvidenceExpressions.antt =====
-- shared/dictionary-types.ts: the expressions whose value is evidence of a type by itself.
use zslay.Prelude.{Bool, Option, false, is_empty, none, not, some, true, ℕ}
use zslay.Ast.{
  Node, SourceCode, array_expression, arrow_function_expression, class_expression, function,
  function_expression, literal, new_expression, object_expression, parenthesized_expression,
  template_literal, ts_as_expression, ts_non_null_expression, ts_satisfies_expression,
  ts_type_assertion, unary_expression, walk,
}

-- The wrappers of `isPopulatedObjectExpression`, with what they wrap.
abbrev pub populated_wrapped : Node → Option ℕ
populated_wrapped (parenthesized_expression e) = some e
populated_wrapped (ts_as_expression e _) = some e
populated_wrapped (ts_type_assertion e _) = some e
populated_wrapped (ts_non_null_expression e) = some e
populated_wrapped _ = none

-- The wrappers of `isKnownEvidenceExpression`, with what they wrap.
abbrev pub evidence_wrapped : Node → Option ℕ
evidence_wrapped (parenthesized_expression e) = some e
evidence_wrapped (ts_as_expression e _) = some e
evidence_wrapped (ts_type_assertion e _) = some e
evidence_wrapped (ts_non_null_expression e) = some e
evidence_wrapped (ts_satisfies_expression e _) = some e
evidence_wrapped _ = none

abbrev pub is_populated_object : Node → Bool
is_populated_object (object_expression properties) = not (is_empty properties)
is_populated_object _ = false

-- the kinds of expression that `isKnownEvidenceExpression` accepts
abbrev pub is_evidence : Node → Bool
is_evidence (object_expression _) = true
is_evidence (array_expression _) = true
is_evidence (function arrow_function_expression _) = true
is_evidence (class_expression _ _ _) = true
is_evidence (function function_expression _) = true
is_evidence (new_expression _ _) = true
is_evidence (literal _) = true
is_evidence (template_literal _) = true
is_evidence (unary_expression _ _) = true
is_evidence _ = false

module _ (s : SourceCode) where
  unfoldable pub is_populated_object_expression : ℕ → Bool
  is_populated_object_expression n =
      is_populated_object (s.node (walk (λ k. populated_wrapped (s.node k)) n))

  unfoldable pub is_known_evidence_expression : ℕ → Bool
  is_known_evidence_expression n = is_evidence (s.node (walk (λ k. evidence_wrapped (s.node k)) n))

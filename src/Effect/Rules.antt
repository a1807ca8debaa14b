-- ===== src/Effect/Rules.antt =====
-- effect/rules/: no-manual-effect-error-tag, no-manual-tag-comparison, no-manual-tagged-construction and
-- prefer-effect-match.
pub mod TagLaws
pub mod MatchLaws
use zslay.Prelude.{
  Bool, List, Option, String, [], false, find, has_name, if◌then◌else◌, is_empty, is_some, ltb,
  none, not, some, suc, true, zero, ℕ, ◌&&◌, ◌+◌, ◌||◌, ◌∷◌,
}
use zslay.Ast.{
  Node, Report, SourceCode, as_binary, as_conditional, binary_expression, conditional_expression,
  literal, object_expression, parent, property, report, switch_statement, template_literal,
}
use zslay.Effect.TaggedValues.{
  equality_operators, is_inside_broad_effect_handler, is_match_pattern_object, is_named,
  is_reason_tag_member, is_string_literal, is_tag_member, property_name, tag_member_from_comparison,
}

module _ (s : SourceCode) where
  abbrev pub tag_message : ℕ → String
  tag_message member = if is_reason_tag_member s member then "reason" else "tag"

  -- The handlers `BinaryExpression` and `SwitchStatement` of no-manual-effect-error-tag.
  error_tag_in : ℕ → Node → List Report
  error_tag_in n (binary_expression o l r) =
      elim (tag_member_from_comparison s (record { operator = o; left = l; right = r })) [
        | none ↦ []
        | some member ↦
            if is_inside_broad_effect_handler s n then report n (tag_message member) else []
      ]
  error_tag_in n (switch_statement d _) =
      if not (is_tag_member s d) || not (is_inside_broad_effect_handler s n)
      then []
      else report n (tag_message d)
  error_tag_in n _ = []

  unfoldable pub no_manual_effect_error_tag : ℕ → List Report
  unfolding error_tag_in
  no_manual_effect_error_tag n = error_tag_in n (s.node n)

  -- Those of no-manual-tag-comparison.
  tag_comparison_in : ℕ → Node → List Report
  tag_comparison_in n (binary_expression o l r) =
      elim (tag_member_from_comparison s (record { operator = o; left = l; right = r })) [
        | none ↦ []
        | some member ↦
            if is_inside_broad_effect_handler s n then [] else report n "manualComparison"
      ]
  tag_comparison_in n (switch_statement d _) =
      if not (is_tag_member s d) || is_inside_broad_effect_handler s n
      then []
      else report n "manualSwitch"
  tag_comparison_in n _ = []

  unfoldable pub no_manual_tag_comparison : ℕ → List Report
  unfolding tag_comparison_in
  no_manual_tag_comparison n = tag_comparison_in n (s.node n)

  -- The test of `node.properties.find` in no-manual-tagged-construction.
  abbrev tag_property : Node → Bool
  tag_property (property key value computed) =
      is_named (property_name s key computed) "_tag" && is_string_literal s value
  tag_property _ = false

  unfoldable pub is_tag_property : ℕ → Bool
  is_tag_property p = tag_property (s.node p)

  construction_in : ℕ → Node → List Report
  construction_in n (object_expression properties) =
      if is_match_pattern_object s n then [] else elim (find is_tag_property properties) [
        | none ↦ []
        | some tag ↦ report tag "manualConstruction"
      ]
  construction_in n _ = []

  unfoldable pub no_manual_tagged_construction : ℕ → List Report
  unfolding construction_in
  no_manual_tagged_construction n = construction_in n (s.node n)

  -- prefer-effect-match
  abbrev literal_node : Node → Bool
  literal_node (literal _) = true
  literal_node (template_literal expressions) = is_empty expressions
  literal_node _ = false

  abbrev pub is_literal : ℕ → Bool
  is_literal n = literal_node (s.node n)

  unfoldable pub compared_value : ℕ → Option String
  compared_value n = elim (as_binary (s.node n)) [
    | none ↦ none
    | some b ↦
        if not (has_name equality_operators b.operator)
        then none
        else if is_literal b.left
        then some (s.get_text b.right)
        else if is_literal b.right
        then some (s.get_text b.left)
        else none
  ]

  -- The loop over `alternate`: `none` is the early return, and `some` the final `literalChecks`.
  unfoldable pub count_checks : ℕ → String → ℕ → ℕ → Option ℕ
  count_checks zero value alternate checks = none
  count_checks (suc fuel) value alternate checks = elim (as_conditional (s.node alternate)) [
    | none ↦ some checks
    | some c ↦ elim (is_named (compared_value c.test) value) [
      | false ↦ none
      | true ↦ count_checks fuel value c.alternate (checks + 1)
    ]
  ]

  -- The early return for a conditional that stands directly in another.
  abbrev pub is_nested_conditional : ℕ → Bool
  is_nested_conditional n = elim (parent s n) [
    | none ↦ false
    | some p ↦ is_some (as_conditional (s.node p))
  ]

  prefer_in : ℕ → Node → List Report
  prefer_in n (conditional_expression t _ a) =
      if is_nested_conditional n then [] else elim (compared_value t) [
        | none ↦ []
        | some value ↦ elim (count_checks (suc a) value a 1) [
          | none ↦ []
          | some checks ↦ if ltb 1 checks then report n "preferMatch" else []
        ]
      ]
  prefer_in n _ = []

  unfoldable pub prefer_effect_match : ℕ → List Report
  unfolding prefer_in
  prefer_effect_match n = prefer_in n (s.node n)

-- ===== src/Effect/TaggedValues.antt =====
-- effect/shared/tagged-values.ts: recognising `_tag` members, the handlers of broad Effect catches, and
-- the patterns of `Match`.
pub mod HandlerLaws
use zslay.Prelude.{
  Bool, List, Option, String, [], contains, false, has_name, if◌then◌else◌, is_some, none, not,
  some, ℕ, ◌&&◌, ◌==◌, ◌||◌, ◌∷◌,
}
use zslay.Ast.{
  Binary, Member, SourceCode, as_call, as_identifier, as_member, as_string_literal,
  is_function_expression, parent,
}

abbrev pub equality_operators : List String
equality_operators = "==" ∷ "===" ∷ "!=" ∷ "!==" ∷ []

abbrev broad_effect_catch_methods : List String
broad_effect_catch_methods = "catch" ∷ "catchAll" ∷ "catchIf" ∷ []

-- `name === value`, false where there is no name
abbrev pub is_named : Option String → String → Bool
is_named none value = false
is_named (some name) value = name == value

module _ (s : SourceCode) where
  abbrev pub is_string_literal : ℕ → Bool
  is_string_literal n = is_some (as_string_literal (s.node n))

  -- the test of a member's property that `isTagMember` and `isReasonTagMember` share
  abbrev property_is : String → Member → Bool
  property_is name m =
      (not m.computed && is_named (as_identifier (s.node m.property)) name)
      || (m.computed && is_named (as_string_literal (s.node m.property)) name)

  abbrev pub member_is : String → ℕ → Bool
  member_is name n = elim (as_member (s.node n)) [ none ↦ false | some m ↦ property_is name m ]

  unfoldable pub is_tag_member : ℕ → Bool
  is_tag_member n = member_is "_tag" n

  unfoldable pub tag_member_from_comparison : Binary → Option ℕ
  tag_member_from_comparison b =
      if not (has_name equality_operators b.operator)
      then none
      else if is_tag_member b.left && is_string_literal b.right
      then some b.left
      else if is_tag_member b.right && is_string_literal b.left
      then some b.right
      else none

  -- a call `owner.method(…)` by a plain name, as `isBroadEffectCatchCall` and `isMatchPatternObject` test
  abbrev calls_method : String → List String → ℕ → Bool
  calls_method owner methods callee = elim (as_member (s.node callee)) [
    | none ↦ false
    | some m ↦
        is_named (as_identifier (s.node m.object)) owner
        && not m.computed
        && elim (as_identifier (s.node m.property)) [
          | none ↦ false
          | some name ↦ has_name methods name
        ]
  ]

  unfoldable pub is_broad_effect_catch_call : ℕ → Bool
  is_broad_effect_catch_call n = elim (as_call (s.node n)) [
    | none ↦ false
    | some call ↦ calls_method "Effect" broad_effect_catch_methods call.callee
  ]

  -- `current.parent.arguments.includes(current)`
  abbrev pub is_argument_of : ℕ → ℕ → Bool
  is_argument_of current n = elim (as_call (s.node n)) [
    | none ↦ false
    | some call ↦ contains call.arguments current
  ]

  -- the function at which the loop stops, and what stands above it
  abbrev handles : ℕ → List ℕ → Bool
  handles current [] = false
  handles current (p ∷ _) = is_broad_effect_catch_call p && is_argument_of current p

  -- the loop of `isInsideBroadEffectHandler` over the ancestors
  inside_handler : List ℕ → Bool
  inside_handler [] = false
  inside_handler (current ∷ above) =
      if is_function_expression (s.node current)
      then handles current above
      else inside_handler above

  unfoldable pub is_inside_broad_effect_handler : ℕ → Bool
  unfolding inside_handler
  is_inside_broad_effect_handler n = inside_handler (s.ancestors n)

  unfoldable pub is_reason_tag_member : ℕ → Bool
  is_reason_tag_member n = elim (as_member (s.node n)) [
    | none ↦ false
    | some m ↦ member_is "reason" m.object
  ]

  -- the key and `computed` of a property
  unfoldable pub property_name : ℕ → Bool → Option String
  property_name key computed = elim (as_identifier (s.node key)) [
    | some name ↦ if computed then none else some name
    | none ↦ as_string_literal (s.node key)
  ]

  unfoldable pub is_match_pattern_object : ℕ → Bool
  is_match_pattern_object n = elim (parent s n) [
    | none ↦ false
    | some p ↦ elim (as_call (s.node p)) [
      | none ↦ false
      | some call ↦
          contains call.arguments n && calls_method "Match" ("when" ∷ "not" ∷ []) call.callee
    ]
  ]

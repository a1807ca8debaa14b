-- ===== src/Rules/Assertions.antt =====
-- rules/no-chained-type-assertions.ts and rules/require-safety-comment-for-type-assertion.ts. The Unicode classes
-- `\p{L}` and `\p{N}` are a parameter: the regular expression engine decides them.
pub mod ChainLaws
pub mod MarkerLaws
pub mod SafetyLaws
use zslay.Prelude.{
  Bool, List, Option, String, [], any, codes, contains, false, gather, get_or, if◌then◌else◌,
  is_empty, is_space, leb, ltb, none, not, some, strip_prefix, suc, trim, trim_start, true, zero, ℕ,
  ◌&&◌, ◌+◌, ◌=#◌, ◌==◌, ◌||◌, ◌∷◌,
}
use zslay.Ast.{
  Assertion, Comment, Node, Report, SourceCode, as_assertion, as_identifier, as_type_reference,
  export_named_declaration, expression_statement, is_program, parenthesized_expression,
  property_definition, report, report_with, return_statement, throw_statement, variable_declaration,
  walk,
}

abbrev pub parenthesized : Node → Option ℕ
parenthesized (parenthesized_expression e) = some e
parenthesized _ = none

module _ (s : SourceCode) where
  -- `isConstAssertion`, on the asserted type
  unfoldable pub is_const_assertion : Assertion → Bool
  is_const_assertion a = elim (as_type_reference (s.node a.type_annotation)) [
    | none ↦ false
    | some r ↦ elim (as_identifier (s.node r.type_name)) [
      | none ↦ false
      | some name ↦ name == "const"
    ]
  ]

  unfoldable pub unwrap_parenthesized_expression : ℕ → ℕ
  unwrap_parenthesized_expression n = walk (λ k. parenthesized (s.node k)) n

  -- `!isTypeAssertionExpression(parent) || parent.expression !== current`
  abbrev pub asserts_other : ℕ → ℕ → Bool
  asserts_other p current = elim (as_assertion (s.node p)) [
    | none ↦ true
    | some a ↦ not (a.expression =# current)
  ]

  -- The loop of `isOutermostAssertionInChain`, from a node and its ancestors.
  unfoldable pub outermost_from : ℕ → List ℕ → Bool
  outermost_from current [] = true
  outermost_from current (p ∷ above) = elim (parenthesized (s.node p)) [
    | none ↦ asserts_other p current
    | some e ↦ elim (e =# current) [
      | true ↦ outermost_from p above
      | false ↦ asserts_other p current
    ]
  ]

  unfoldable pub is_outermost_assertion_in_chain : ℕ → Bool
  is_outermost_assertion_in_chain n = outermost_from n (s.ancestors n)

  -- The loop of `isForbiddenAssertionChain`, with its two variables.
  unfoldable pub chain_from : ℕ → ℕ → ℕ → Bool → Bool
  chain_from zero current count has_non_const = false
  chain_from (suc fuel) current count has_non_const = elim (as_assertion (s.node current)) [
    | none ↦ ltb 1 count && has_non_const
    | some a ↦
        chain_from fuel (unwrap_parenthesized_expression a.expression) (count + 1)
          (has_non_const || not (is_const_assertion a))
  ]

  -- The expression of an assertion has a smaller number, so this fuel is enough.
  unfoldable pub is_forbidden_assertion_chain : ℕ → Bool
  is_forbidden_assertion_chain n = chain_from (suc n) n 0 false

  chained_in : ℕ → Option Assertion → List Report
  chained_in n none = []
  chained_in n (some a) =
      if not (is_outermost_assertion_in_chain n) || not (is_forbidden_assertion_chain n)
      then []
      else report n "chained"

  unfoldable pub no_chained_type_assertions : ℕ → List Report
  unfolding chained_in
  no_chained_type_assertions n = chained_in n (as_assertion (s.node n))

-- An entry of the option `markers`: a string, or another value.
pub data Marker : Type 0 where
  marker_text : String → Marker
  other_marker : Marker

-- `context.options[0]`: no object with `markers`, `markers` that is no array, or an array.
pub data MarkerOption : Type 0 where
  no_markers not_an_array : MarkerOption
  marker_array : List Marker → MarkerOption

abbrev pub default_safety_markers : List String
default_safety_markers = "SAFETY" ∷ []

abbrev pub configured : Marker → List String
configured (marker_text text) = if trim text == "" then [] else trim text ∷ []
configured other_marker = []

abbrev pub or_default : List String → List String
or_default [] = default_safety_markers
or_default (m ∷ ms) = m ∷ ms

unfoldable pub configured_safety_markers : MarkerOption → List String
configured_safety_markers (marker_array ms) = or_default (gather configured ms)
configured_safety_markers _ = default_safety_markers

-- `markers[0] ?? DEFAULT_SAFETY_MARKERS[0]`
abbrev pub first_marker : List String → String
first_marker [] = "SAFETY"
first_marker (m ∷ _) = m

-- `\s*:\s*\S` behind a marker
unfoldable pub justifies : List ℕ → Bool
justifies text = elim (trim_start text) [
  | [] ↦ false
  | c ∷ rest ↦ c =# b':' && not (is_empty (trim_start rest))
]

abbrev pub behind : Option (List ℕ) → Bool
behind none = false
behind (some rest) = justifies rest

abbrev pub comment_owner : Node → Bool
comment_owner (expression_statement _) = true
comment_owner (property_definition _ _ _) = true
comment_owner (return_statement _) = true
comment_owner (throw_statement _) = true
comment_owner (variable_declaration _ _) = true
comment_owner _ = false

abbrev pub exports : Node → ℕ → Bool
exports (export_named_declaration (some d)) current = d =# current
exports _ current = false

module _ (is_letter_or_number : ℕ → Bool) where
  -- `[^\p{L}\p{N}_]`
  abbrev pub is_boundary : ℕ → Bool
  is_boundary c = not (is_letter_or_number c || c =# b'_')

  -- a marker at the front of a text, with its justification
  unfoldable pub marked_here : List String → List ℕ → Bool
  marked_here markers text = any (λ m. behind (strip_prefix (codes m) text)) markers

  -- A match behind a boundary; `pattern.test` also tries the start of the text.
  unfoldable pub marked_behind : List String → List ℕ → Bool
  marked_behind markers [] = false
  marked_behind markers (c ∷ text) =
      (is_boundary c && marked_here markers text) || marked_behind markers text

  -- `markerPattern(markers).test(text)`
  unfoldable pub pattern_test : List String → List ℕ → Bool
  pattern_test markers text = marked_here markers text || marked_behind markers text

  module _ (s : SourceCode) where
    unfoldable pub has_safety_justification_before : List String → ℕ → ℕ → Bool
    has_safety_justification_before markers assertion owner =
        any (λ c. leb c.end (s.start assertion) && pattern_test markers (codes c.value))
          (s.get_comments_before owner)

    -- the last test, at an owner of comments: its export
    abbrev pub exported_justification : List String → ℕ → ℕ → List ℕ → Bool
    exported_justification markers assertion current [] = false
    exported_justification markers assertion current (p ∷ _) =
        exports (s.node p) current && has_safety_justification_before markers assertion p

    -- The loop of `hasSafetyComment`, from a node and its ancestors.
    unfoldable pub safety_from : List String → ℕ → ℕ → List ℕ → Bool
    safety_from markers assertion current [] =
        has_safety_justification_before markers assertion current
    safety_from markers assertion current (p ∷ above) =
        let further = safety_from markers assertion p above in
        if has_safety_justification_before markers assertion current
        then true
        else if comment_owner (s.node current)
        then exported_justification markers assertion current (p ∷ above)
        else if is_program (s.node p)
        then false
        else further

    unfoldable pub has_safety_comment : List String → ℕ → Bool
    has_safety_comment markers n = safety_from markers n n (s.ancestors n)

    safety_in : MarkerOption → ℕ → Option Assertion → List Report
    safety_in option n none = []
    safety_in option n (some a) =
        if is_const_assertion s a || has_safety_comment (configured_safety_markers option) n
        then []
        else report_with n "missingSafetyComment"
            (("marker", first_marker (configured_safety_markers option)) ∷ [])

    unfoldable pub require_safety_comment : MarkerOption → ℕ → List Report
    unfolding safety_in
    require_safety_comment option n = safety_in option n (as_assertion (s.node n))

-- ===== src/Rules/Expressions.antt =====
-- rules/no-runtime-typeof.ts, rules/no-conditional-empty-object-spread.ts and rules/no-shape-in-symbol-names.ts.
pub mod TypeofLaws
pub mod SpreadLaws
pub mod SymbolLaws
use zslay.Prelude.{
  Bool, List, Option, String, [], codes, false, has_name, if◌then◌else◌, is_empty, is_some, leb,
  none, not, some, strip_prefix, true, ℕ, ◌&&◌, ◌+◌, ◌=#◌, ◌==◌, ◌||◌, ◌∷◌,
}
use zslay.Ast.{
  Binary, FunctionParts, Node, Report, SourceCode, as_binary, as_conditional, as_member, as_object,
  as_runtime_function, identifier, is_program, jsx_identifier, literal, parent, private_identifier,
  property, report, report_with, spread_element, string_value, ts_type_predicate, unary_expression,
}
use zslay.Rules.Assertions.{parenthesized, unwrap_parenthesized_expression}

abbrev pub equality_tests : List String
equality_tests = "===" ∷ "!==" ∷ "==" ∷ "!=" ∷ []

abbrev pub is_undefined_text : Node → Bool
is_undefined_text (literal (string_value value)) = value == "undefined"
is_undefined_text _ = false

abbrev pub as_unary : Node → Option (String × ℕ)
as_unary (unary_expression operator argument) = some (operator, argument)
as_unary _ = none

abbrev pub as_spread : Node → Option ℕ
as_spread (spread_element e) = some e
as_spread _ = none

abbrev pub is_type_predicate : Node → Bool
is_type_predicate (ts_type_predicate _ _) = true
is_type_predicate _ = false

-- `"shape"`, as code units
abbrev pub forbidden_symbol_name : List ℕ
forbidden_symbol_name = b's' ∷ b'h' ∷ b'a' ∷ b'p' ∷ b'e' ∷ []

-- `toLowerCase` on the letters `A` to `Z`. On another code it gives no letter of the forbidden term that the
-- code was not before.
abbrev pub to_lower : ℕ → ℕ
to_lower c = if leb b'A' c && leb c b'Z' then c + 32 else c

unfoldable pub to_lower_case : List ℕ → List ℕ
to_lower_case [] = []
to_lower_case (c ∷ text) = to_lower c ∷ to_lower_case text

-- `text.includes(part)`
unfoldable pub includes : List ℕ → List ℕ → Bool
includes [] part = is_some (strip_prefix part [])
includes (c ∷ text) part = is_some (strip_prefix part (c ∷ text)) || includes text part

unfoldable pub contains_forbidden_symbol_name : String → Bool
contains_forbidden_symbol_name name = includes (to_lower_case (codes name)) forbidden_symbol_name

-- the nodes with a `name`: `Identifier`, `PrivateIdentifier` and `JSXIdentifier`
abbrev pub symbol_name : Node → Option String
symbol_name (identifier name _) = some name
symbol_name (private_identifier name) = some name
symbol_name (jsx_identifier name) = some name
symbol_name _ = none

module _ (s : SourceCode) where
  abbrev pub returns_predicate : FunctionParts → Bool
  returns_predicate f = elim f.return_type [
    | none ↦ false
    | some a ↦ is_type_predicate (s.node a.type_annotation)
  ]

  -- The loop of `isInsideTypeGuard`, over the ancestors.
  unfoldable pub type_guard_from : List ℕ → Bool
  type_guard_from [] = false
  type_guard_from (n ∷ above) =
      let further = type_guard_from above in
      if is_program (s.node n)
      then false
      else elim (as_runtime_function (s.node n)) [ none ↦ further | some f ↦ returns_predicate f ]

  unfoldable pub is_inside_type_guard : ℕ → Bool
  is_inside_type_guard n = type_guard_from (s.ancestors n)

  -- `parent.left === node ? parent.right : parent.left`
  abbrev pub other_side : Binary → ℕ → ℕ
  other_side b n = if b.left =# n then b.right else b.left

  abbrev pub probes : ℕ → Option ℕ → Bool
  probes n none = false
  probes n (some p) = elim (as_binary (s.node p)) [
    | none ↦ false
    | some b ↦ has_name equality_tests b.operator && is_undefined_text (s.node (other_side b n))
  ]

  unfoldable pub is_existence_probe : ℕ → Bool
  is_existence_probe n = probes n (parent s n)

  -- The argument is the option `allowInTypeGuards`, `false` where it is missing.
  unfoldable pub no_runtime_typeof : Bool → ℕ → List Report
  no_runtime_typeof allow_in_type_guards n = elim (as_unary (s.node n)) [
    | none ↦ []
    | some u ↦
        if u.0 == "typeof"
          && (not (is_existence_probe n)
              && (not allow_in_type_guards || not (is_inside_type_guard n)))
        then report n "runtimeTypeof"
        else []
  ]

  abbrev pub is_empty_object_expression : ℕ → Bool
  is_empty_object_expression n = elim (as_object (s.node n)) [
    | none ↦ false
    | some ps ↦ is_empty ps
  ]

  -- `unwrapParentheses` is the loop of `unwrapParenthesizedExpression`.
  unfoldable pub is_conditional_empty_object_spread : ℕ → Bool
  is_conditional_empty_object_spread n =
      elim (as_conditional (s.node (unwrap_parenthesized_expression s n))) [
        | none ↦ false
        | some c ↦ is_empty_object_expression c.consequent || is_empty_object_expression c.alternate
      ]

  abbrev pub parent_is_object : Option ℕ → Bool
  parent_is_object none = false
  parent_is_object (some p) = is_some (as_object (s.node p))

  unfoldable pub no_conditional_empty_object_spread : ℕ → List Report
  no_conditional_empty_object_spread n = elim (as_spread (s.node n)) [
    | none ↦ []
    | some e ↦
        if parent_is_object (parent s n) && is_conditional_empty_object_spread e
        then report n "avoid"
        else []
  ]

  abbrev pub borrowed_from : ℕ → Option ℕ → Bool
  borrowed_from n none = false
  borrowed_from n (some p) = elim (as_member (s.node p)) [
    | none ↦ false
    | some m ↦ m.property =# n && not m.computed
  ]

  unfoldable pub is_borrowed_member_name : ℕ → Bool
  is_borrowed_member_name n = borrowed_from n (parent s n)

  unfoldable pub no_shape_in_symbol_names : ℕ → List Report
  no_shape_in_symbol_names n = elim (symbol_name (s.node n)) [
    | none ↦ []
    | some name ↦
        if not (contains_forbidden_symbol_name name) || is_borrowed_member_name n
        then []
        else report_with n "forbiddenSymbolName" (("name", name) ∷ [])
  ]

-- ===== src/Rules/WidenThenAssert/Flows.antt =====
-- rules/no-widen-then-assert.ts: the evidence of a value, and the flow that a report is about.
use zslay.Prelude.{
  Bool, List, Option, String, [], any, false, find, guard, if◌then◌else◌, length, ltb, none, not,
  or_else, some, suc, true, ℕ, ◌&&◌, ◌=#◌, ◌==◌, ◌>>=◌, ◌>>◌, ◌∷◌,
}
use zslay.Ast.{
  Annotation, Assertion, Declarator, Definition, Node, Reference, Report, SourceCode,
  array_expression, arrow_function_expression, as_assertion, as_declarator, as_identifier,
  class_expression, declaration_kind, function, function_expression, identifier,
  identifier_annotation, is_program, literal, new_expression, object_expression, parent,
  report_with, template_literal, ts_as_expression, ts_type_assertion,
}
use zslay.Shared.ArrayMethod.{is_reassignment}
use zslay.Shared.Bindings.{Binding, Lookup, chase, found, initializer_or, value, variable_or}
use zslay.Rules.WidenThenAssert.{
  BroadTypeKind, assertion_is_narrower, broad_type_kind, is_function_boundary,
  unwrap_expression_parentheses,
}

-- The type of an evidence, which may have none.
pub record KnownValueEvidence : Type 0 where
  pub type : Option ℕ

-- What `widenedBinding` returns.
pub record WidenedBinding : Type 0 where
  pub broad_kind : BroadTypeKind
  pub lost_evidence : KnownValueEvidence
  pub declared_at : ℕ
  pub boundary : Option ℕ

-- `===` on nodes that may be `null`
abbrev pub same_node : Option ℕ → Option ℕ → Bool
same_node none none = true
same_node (some n) (some m) = n =# m
same_node _ _ = false

-- The expressions that are evidence without a type.
abbrev pub is_known_value : Node → Bool
is_known_value (literal _) = true
is_known_value (template_literal _) = true
is_known_value (array_expression _) = true
is_known_value (function arrow_function_expression _) = true
is_known_value (class_expression _ _ _) = true
is_known_value (function function_expression _) = true
is_known_value (new_expression _ _) = true
is_known_value (object_expression _) = true
is_known_value _ = false

module _ (s : SourceCode) where
  -- the loop of `functionBoundary`
  unfoldable pub boundary_above : List ℕ → Option ℕ
  boundary_above [] = none
  boundary_above (p ∷ above) =
      let further = boundary_above above in
      if is_program (s.node p)
      then none
      else if is_function_boundary (s.node p)
      then some p
      else further

  unfoldable pub function_boundary : ℕ → Option ℕ
  function_boundary n = boundary_above (s.ancestors n)

  abbrev pub refers_at : ℕ → Reference → Bool
  refers_at n r = s.start r.identifier =# s.start n && s.end r.identifier =# s.end n

  -- the loop over the scopes, which returns at the first that has the reference
  unfoldable pub resolved_variable_for_identifier : List (List Reference) → ℕ → Option ℕ
  resolved_variable_for_identifier [] n = none
  resolved_variable_for_identifier (references ∷ scopes) n = elim (find (refers_at n) references) [
    | none ↦ resolved_variable_for_identifier scopes n
    | some r ↦ r.resolved
  ]

  abbrev pub declarator_of : Definition → Option (ℕ × Declarator)
  declarator_of d = do
    guard (d.type == "Variable")
    declarator ← as_declarator (s.node d.node)
    some (d.node, declarator)

  -- the loop of `variableDeclarator`
  unfoldable pub first_declarator : List Definition → Option (ℕ × Declarator)
  first_declarator [] = none
  first_declarator (d ∷ ds) = elim (declarator_of d) [
    | none ↦ first_declarator ds
    | some x ↦ some x
  ]

  abbrev pub declares_const : Option ℕ → Bool
  declares_const none = false
  declares_const (some p) = elim (declaration_kind (s.node p)) [
    | none ↦ false
    | some kind ↦ kind == "const"
  ]

  -- the declarator of a constant that is not written again, with its initializer
  unfoldable pub const_declarator : ℕ → Option (ℕ × ℕ × ℕ)
  const_declarator v = do
    place ← first_declarator (s.variable v).defs
    guard (declares_const (parent s place.0))
    init ← place.1.init
    guard (not (any is_reassignment (s.variable v).references))
    some (place.0, place.1.id, init)

  -- `identifiers.find(…)`, with the annotation found
  unfoldable pub annotated_identifier : List ℕ → Option (ℕ × Annotation)
  annotated_identifier [] = none
  annotated_identifier (i ∷ rest) = elim (identifier_annotation (s.node i)) [
    | none ↦ annotated_identifier rest
    | some a ↦ some (i, a)
  ]

  -- the evidence of a type, unless it is broad
  abbrev pub typed_evidence : ℕ → Option KnownValueEvidence
  typed_evidence t = elim (broad_type_kind s t) [
    | some _ ↦ none
    | none ↦ some (record { type = some t })
  ]

  abbrev pub known_value : Node → Option KnownValueEvidence
  known_value v = if is_known_value v then some (record { type = none }) else none

  module _ (scopes : List (List Reference)) (boundary : Option ℕ) where
    -- `knownValueEvidence`: what it asks of an expression without parentheses, and of a variable
    abbrev pub value_found : ℕ → Node → Lookup (Option KnownValueEvidence)
    value_found n (ts_as_expression _ t) = found (typed_evidence t)
    value_found n (ts_type_assertion _ t) = found (typed_evidence t)
    value_found n (identifier _ _) = variable_or none (resolved_variable_for_identifier scopes n)
    value_found n v = found (known_value v)

    abbrev pub value_lookup : ℕ → Lookup (Option KnownValueEvidence)
    value_lookup n = let m = unwrap_expression_parentheses s n in value_found m (s.node m)

    -- where the variable has no annotation
    abbrev pub local_initializer : ℕ → Option ℕ
    local_initializer v = do
      place ← const_declarator v
      guard (same_node (function_boundary place.0) boundary)
      some place.2

    abbrev pub value_binding : ℕ → Binding (Option KnownValueEvidence)
    value_binding v = elim (annotated_identifier (s.variable v).identifiers) [
      | some (i, a) ↦ value (
          if same_node (function_boundary i) boundary
          then typed_evidence a.type_annotation
          else none)
      | none ↦ initializer_or none (local_initializer v)
    ]

    -- the search from a variable that is visited already
    unfoldable pub known_value_evidence : ℕ → ℕ → Option (Option KnownValueEvidence)
    known_value_evidence v n =
        chase value_lookup value_binding none (suc (length s.variables)) (v ∷ []) n

  -- the type of the assertion that an expression is, and the expression that it asserts
  unfoldable pub assertion_from_expression : ℕ → Option Assertion
  assertion_from_expression n = as_assertion (s.node (unwrap_expression_parentheses s n))

  -- the declared type's kind comes first; the evidence is sought in the initializer's assertion if that is broad
  abbrev pub declared_kind : Option Annotation → Option BroadTypeKind
  declared_kind none = none
  declared_kind (some a) = broad_type_kind s a.type_annotation

  abbrev pub initializer_kind : ℕ → Option (BroadTypeKind × ℕ)
  initializer_kind init = do
    assertion ← assertion_from_expression init
    kind ← broad_type_kind s assertion.type_annotation
    some (kind, unwrap_expression_parentheses s assertion.expression)

  abbrev pub original_expression : ℕ → Option (BroadTypeKind × ℕ) → ℕ
  original_expression init none = init
  original_expression init (some (_, e)) = e

  abbrev pub kind_only : Option (BroadTypeKind × ℕ) → Option BroadTypeKind
  kind_only none = none
  kind_only (some (kind, _)) = some kind

  -- the declarator, its broad kind and the expression to ask for evidence
  unfoldable pub widening_declarator : ℕ → Option (ℕ × BroadTypeKind × ℕ)
  widening_declarator v = do
    place ← const_declarator v
    name ← as_identifier (s.node place.1)
    kind ←
        or_else (declared_kind (identifier_annotation (s.node place.1)))
          (kind_only (initializer_kind place.2))
    some (place.0, kind, original_expression place.2 (initializer_kind place.2))

  abbrev pub binding_with : ℕ → BroadTypeKind → Option KnownValueEvidence → Option WidenedBinding
  binding_with declarator kind none = none
  binding_with declarator kind (some evidence) = some (record {
    broad_kind = kind;
    lost_evidence = evidence;
    declared_at = s.end declarator;
    boundary = function_boundary declarator;
  })

  abbrev pub widened_from :
      List (List Reference) → ℕ → Option (ℕ × BroadTypeKind × ℕ) → Option (Option WidenedBinding)
  widened_from scopes v none = some none
  widened_from scopes v (some (declarator, kind, expression)) =
      known_value_evidence scopes (function_boundary declarator) v expression >>= λ evidence.
      some (binding_with declarator kind evidence)

  unfoldable pub widened_binding : List (List Reference) → ℕ → Option (Option WidenedBinding)
  widened_binding scopes v = widened_from scopes v (widening_declarator v)

  abbrev pub recreates : ℕ → ℕ → Option WidenedBinding → Bool
  recreates n t none = false
  recreates n t (some widened) =
      ltb widened.declared_at (s.start n)
      && (same_node (function_boundary n) widened.boundary
          && assertion_is_narrower s widened.broad_kind widened.lost_evidence.type t)

  -- the identifier that an assertion asserts, with its variable
  unfoldable pub asserted_variable : List (List Reference) → ℕ → Option (String × ℕ)
  asserted_variable scopes e = do
    name ← as_identifier (s.node (unwrap_expression_parentheses s e))
    v ← resolved_variable_for_identifier scopes (unwrap_expression_parentheses s e)
    some (name, v)

  abbrev pub check_variable :
      List (List Reference) → ℕ → ℕ → Option (String × ℕ) → Option (List Report)
  check_variable scopes n t none = some []
  check_variable scopes n t (some (name, v)) = widened_binding scopes v >>= λ widened.
      some (
        if recreates n t widened then report_with n "widenThenAssert" (("name", name) ∷ []) else [])

  unfoldable pub check_assertion : List (List Reference) → ℕ → ℕ → ℕ → Option (List Report)
  check_assertion scopes n e t = check_variable scopes n t (asserted_variable scopes e)

  -- What `Program` stores, and the handlers behind it.
  unfoldable pub enter_assertion_program : List (List Reference)
  enter_assertion_program = s.scope_references

  abbrev pub widen_then_assert_at : List (List Reference) → ℕ → Node → Option (List Report)
  widen_then_assert_at scopes n (ts_as_expression e t) = check_assertion scopes n e t
  widen_then_assert_at scopes n (ts_type_assertion e t) = check_assertion scopes n e t
  widen_then_assert_at scopes n _ = some []

  unfoldable pub no_widen_then_assert : List (List Reference) → ℕ → Option (List Report)
  no_widen_then_assert scopes n = widen_then_assert_at scopes n (s.node n)

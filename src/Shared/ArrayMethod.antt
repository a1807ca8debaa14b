-- ===== src/Shared/ArrayMethod.antt =====
-- shared/array-method.ts
pub mod UnwrapLaws
pub mod KnownLaws
pub mod FuelLaws
pub mod DecideLaws
use zslay.Prelude.{
  Bool, List, Option, String, [], any, contains, false, guard, has_name, if◌then◌else◌, length,
  none, not, some, suc, true, zero, ℕ, ◌&&◌, ◌*◌, ◌+◌, ◌==◌, ◌>>=◌, ◌>>◌, ◌∷◌,
}
use zslay.Ast.{
  Annotation, Definition, Member, Node, Reference, SourceCode, Variable, array_expression,
  as_declarator, as_identifier, as_member, as_string_literal, call_expression, chain_expression,
  declaration_kind, identifier, identifier_annotation, parent, parenthesized_expression,
  ts_array_type, ts_as_expression, ts_non_null_expression, ts_parenthesized_type,
  ts_satisfies_expression, ts_tuple_type, ts_type_assertion, ts_type_operator, ts_type_reference,
  walk,
}
use zslay.Shared.Scope.{find_binding}

-- The wrappers of `unwrapArrayExpression`, with what they wrap.
abbrev pub array_wrapped : Node → Option ℕ
array_wrapped (parenthesized_expression e) = some e
array_wrapped (chain_expression e) = some e
array_wrapped (ts_as_expression e _) = some e
array_wrapped (ts_type_assertion e _) = some e
array_wrapped (ts_non_null_expression e) = some e
array_wrapped (ts_satisfies_expression e _) = some e
array_wrapped _ = none

-- The types through which `isArrayAnnotation` recurs.
abbrev pub annotation_wrapped : Node → Option ℕ
annotation_wrapped (ts_parenthesized_type t) = some t
annotation_wrapped (ts_type_operator operator t) = if operator == "readonly" then some t else none
annotation_wrapped _ = none

abbrev pub array_type_names : List String
array_type_names = "Array" ∷ "ReadonlyArray" ∷ []

abbrev pub array_preserving_methods : List String
array_preserving_methods =
    "map" ∷ "filter" ∷ "flatMap" ∷ "slice" ∷ "concat" ∷ "toSorted" ∷ "toReversed" ∷ "toSpliced" ∷ []

-- What `arrayMethodTarget` returns.
pub record Target : Type 0 where
  pub name : String
  pub object : ℕ

-- `!reference.init` on a write
abbrev pub is_reassignment : Reference → Bool
is_reassignment r = r.is_write && not r.init

-- What one call of `isKnownArrayExpression` finds: an answer, or the call that it makes in turn, with
-- the variable that it has visited.
pub data Evidence : Type 0 where
  answer : Bool → Evidence
  receiver : ℕ → Evidence
  initializer : ℕ → ℕ → Evidence

module _ (s : SourceCode) where
  unfoldable pub unwrap_array_expression : ℕ → ℕ
  unwrap_array_expression n = walk (λ k. array_wrapped (s.node k)) n

  unfoldable pub resolve_array_binding : ℕ → Option ℕ
  resolve_array_binding n = elim (as_identifier (s.node (unwrap_array_expression n))) [
    | none ↦ none
    | some name ↦ find_binding name (s.get_scope (unwrap_array_expression n))
  ]

  -- the name by which a member is accessed: `.name`, or `["name"]`
  abbrev pub static_name : Member → Option String
  static_name m =
      if m.computed
      then as_string_literal (s.node m.property)
      else as_identifier (s.node m.property)

  unfoldable pub array_method_target : ℕ → Option Target
  array_method_target n = do
    m ← as_member (s.node (unwrap_array_expression n))
    name ← static_name m
    some (record { name = name; object = m.object })

  abbrev pub names_array_type : Node → Bool
  names_array_type (ts_array_type _) = true
  names_array_type (ts_tuple_type _) = true
  names_array_type (ts_type_reference name _) = elim (as_identifier (s.node name)) [
    | none ↦ false
    | some x ↦ has_name array_type_names x
  ]
  names_array_type _ = false

  unfoldable pub is_array_annotation : ℕ → Bool
  is_array_annotation t = names_array_type (s.node (walk (λ k. annotation_wrapped (s.node k)) t))

  -- `identifier.typeAnnotation` of the first of a variable's identifiers that has one
  unfoldable pub first_annotation : List ℕ → Option Annotation
  first_annotation [] = none
  first_annotation (i ∷ rest) = elim (identifier_annotation (s.node i)) [
    | none ↦ first_annotation rest
    | some a ↦ some a
  ]

  -- the initializer of a definition that is a `const` declarator of a plain name
  unfoldable pub const_initializer : Definition → Option ℕ
  const_initializer d = do
    guard (d.type == "Variable")
    declarator ← as_declarator (s.node d.node)
    name ← as_identifier (s.node declarator.id)
    init ← declarator.init
    p ← parent s d.node
    kind ← declaration_kind (s.node p)
    guard (kind == "const")
    some init

  -- the loop over a variable's definitions, which returns at the first that fits
  unfoldable pub first_const_initializer : List Definition → Option ℕ
  first_const_initializer [] = none
  first_const_initializer (d ∷ rest) = elim (const_initializer d) [
    | none ↦ first_const_initializer rest
    | some init ↦ some init
  ]

  abbrev pub binding_evidence : ℕ → Variable → Evidence
  binding_evidence v variable =
      if any is_reassignment variable.references
      then answer false
      else elim (first_annotation variable.identifiers) [
        | some a ↦ answer (is_array_annotation a.type_annotation)
        | none ↦ elim (first_const_initializer variable.defs) [
          | none ↦ answer false
          | some init ↦ initializer v init
        ]
      ]

  abbrev pub call_evidence : Option Target → Evidence
  call_evidence none = answer false
  call_evidence (some m) =
      if has_name array_preserving_methods m.name then receiver m.object else answer false

  abbrev pub identifier_evidence : List ℕ → Option ℕ → Evidence
  identifier_evidence visited none = answer false
  identifier_evidence visited (some v) =
      if contains visited v then answer false else binding_evidence v (s.variable v)

  abbrev pub node_evidence : List ℕ → ℕ → Node → Evidence
  node_evidence visited n (array_expression _) = answer true
  node_evidence visited n (call_expression callee _) = call_evidence (array_method_target callee)
  node_evidence visited n (identifier _ _) = identifier_evidence visited (resolve_array_binding n)
  node_evidence visited n _ = answer false

  unfoldable pub evidence : List ℕ → ℕ → Evidence
  evidence visited n = let u = unwrap_array_expression n in node_evidence visited u (s.node u)

  -- `isKnownArrayExpression`; `none` says that the fuel ran out.
  unfoldable pub is_known_array_within : ℕ → List ℕ → ℕ → Option Bool
  is_known_array_within zero visited n = none
  is_known_array_within (suc fuel) visited n = elim (evidence visited n) [
    | answer b ↦ some b
    | receiver object ↦ is_known_array_within fuel visited object
    | initializer v init ↦ is_known_array_within fuel (v ∷ visited) init
  ]

  -- Enough for every variable to be visited once, with a way down the tree before each.
  abbrev pub known_array_fuel : ℕ → ℕ
  known_array_fuel n = suc (length s.variables * suc s.size + n)

  unfoldable pub is_known_array_expression : ℕ → Option Bool
  is_known_array_expression n = is_known_array_within (known_array_fuel n) [] n

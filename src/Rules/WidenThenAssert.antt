-- ===== src/Rules/WidenThenAssert.antt =====
-- rules/no-widen-then-assert.ts: what its types are. The recursions down the tree take a fuel above the number of
-- the type, which is enough, since fields have smaller numbers.
pub mod KeyLaws
pub mod KindLaws
pub mod Flows
pub mod KnownLaws
pub mod LookupLaws
pub mod EvidenceLaws
pub mod FlowLaws
use zslay.Prelude.{
  ◌>>=◌, Bool, List, Option, String, [], all, any, false, if◌then◌else◌, is_empty, none, not, some,
  suc, true, without_spaces, zero, ℕ, ◌&&◌, ◌==◌, ◌||◌, ◌∷◌,
}
use zslay.Ast.{
  ts_declare_function, ts_empty_body_function_expression, ts_string_keyword, ts_number_keyword,
  ts_symbol_keyword, ts_any_keyword, ts_unknown_keyword, ts_object_keyword, ts_constructor_type,
  ts_function_type, Node, SourceCode, arrow_function_expression, as_identifier, function,
  function_declaration, function_expression, identifier_annotation, parenthesized_expression,
  ts_any_keyword, ts_array_type, ts_declare_function, ts_index_signature, ts_intersection_type,
  ts_keyword, ts_mapped_type, ts_number_keyword, ts_object_keyword, ts_parenthesized_type,
  ts_string_keyword, ts_symbol_keyword, ts_tuple_type, ts_type_literal, ts_type_operator,
  ts_type_reference, ts_union_type, ts_unknown_keyword, walk,
}

pub data BroadTypeKind : Type 0 where
  top_kind object_kind record_kind : BroadTypeKind

abbrev pub parenthesized_content : Node → Option ℕ
parenthesized_content (parenthesized_expression e) = some e
parenthesized_content _ = none

abbrev pub parenthesized_type : Node → Option ℕ
parenthesized_type (ts_parenthesized_type t) = some t
parenthesized_type _ = none

abbrev pub is_top : Node → Bool
is_top (ts_keyword ts_unknown_keyword) = true
is_top (ts_keyword ts_any_keyword) = true
is_top _ = false

abbrev pub is_signature_member : Node → Bool
is_signature_member (ts_index_signature _ _) = true
is_signature_member _ = false

-- `functionBoundaryTypes`
abbrev pub is_function_boundary : Node → Bool
is_function_boundary (function arrow_function_expression _) = true
is_function_boundary (function function_declaration _) = true
is_function_boundary (function function_expression _) = true
is_function_boundary (function ts_declare_function _) = true
is_function_boundary (function ts_empty_body_function_expression _) = true
is_function_boundary _ = false

module _ (s : SourceCode) where
  unfoldable pub unwrap_expression_parentheses : ℕ → ℕ
  unwrap_expression_parentheses n = walk (λ k. parenthesized_content (s.node k)) n

  unfoldable pub unwrap_type_parentheses : ℕ → ℕ
  unwrap_type_parentheses t = walk (λ k. parenthesized_type (s.node k)) t

  -- `typeReferenceName(…) === name`
  abbrev pub reference_is_named : ℕ → String → Bool
  reference_is_named n name = elim (as_identifier (s.node n)) [ none ↦ false | some x ↦ x == name ]

  unfoldable pub is_unknown_or_any_type : ℕ → Bool
  is_unknown_or_any_type t = is_top (s.node (unwrap_type_parentheses t))

  -- One call of `isBroadRecordKeyType`; `rec` is the call on the members of a union.
  abbrev pub key_in : (ℕ → Bool) → Node → Bool
  key_in rec (ts_keyword ts_string_keyword) = true
  key_in rec (ts_keyword ts_number_keyword) = true
  key_in rec (ts_keyword ts_symbol_keyword) = true
  key_in rec (ts_union_type ts) = all rec ts
  key_in rec (ts_type_reference n _) = reference_is_named n "PropertyKey"
  key_in rec _ = false

  unfoldable pub record_key_within : ℕ → ℕ → Bool
  record_key_within zero t = false
  record_key_within (suc fuel) t =
      key_in (λ k. record_key_within fuel k) (s.node (unwrap_type_parentheses t))

  unfoldable pub is_broad_record_key_type : ℕ → Bool
  is_broad_record_key_type t = record_key_within (suc t) t

  -- `isBroadRecordKeyType` and `isUnknownOrAnyType` of a record's two type arguments
  abbrev pub broad_arguments : List ℕ → Bool
  broad_arguments (k ∷ v ∷ []) = is_broad_record_key_type k && is_unknown_or_any_type v
  broad_arguments _ = false

  -- the key of an index signature with one parameter, and the type of its values
  abbrev pub index_signature_types : Node → Option (ℕ × ℕ)
  index_signature_types (ts_index_signature (p ∷ []) (some a)) =
      identifier_annotation (s.node p) >>= λ b. some (b.type_annotation, a.type_annotation)
  index_signature_types _ = none

  abbrev pub broad_signature : Option (ℕ × ℕ) → Bool
  broad_signature none = false
  broad_signature (some (k, v)) = is_broad_record_key_type k && is_unknown_or_any_type v

  -- One call of `isBroadRecordType`; `rec` is the call on the argument of `Readonly`.
  abbrev pub record_in : (ℕ → Bool) → Node → Bool
  record_in rec (ts_type_reference n []) = false
  record_in rec (ts_type_reference n (t ∷ ts)) =
      if reference_is_named n "Readonly"
      then rec t
      else reference_is_named n "Record" && broad_arguments (t ∷ ts)
  record_in rec (ts_type_literal (m ∷ [])) = broad_signature (index_signature_types (s.node m))
  record_in rec _ = false

  unfoldable pub broad_record_within : ℕ → ℕ → Bool
  broad_record_within zero t = false
  broad_record_within (suc fuel) t =
      record_in (λ k. broad_record_within fuel k) (s.node (unwrap_type_parentheses t))

  unfoldable pub is_broad_record_type : ℕ → Bool
  is_broad_record_type t = broad_record_within (suc t) t

  abbrev pub kind_of_node : ℕ → Node → Option BroadTypeKind
  kind_of_node u (ts_keyword ts_unknown_keyword) = some top_kind
  kind_of_node u (ts_keyword ts_any_keyword) = some top_kind
  kind_of_node u (ts_keyword ts_object_keyword) = some object_kind
  kind_of_node u _ = if is_broad_record_type u then some record_kind else none

  unfoldable pub broad_type_kind : ℕ → Option BroadTypeKind
  broad_type_kind t = let u = unwrap_type_parentheses t in kind_of_node u (s.node u)

  -- The text of a type is `sourceText.slice(type.start, type.end)`.
  unfoldable pub normalized_type_text : ℕ → String
  normalized_type_text t = without_spaces (s.get_text t)

  unfoldable pub types_have_same_syntax : Option ℕ → ℕ → Bool
  types_have_same_syntax none right = false
  types_have_same_syntax (some left) right =
      normalized_type_text (unwrap_type_parentheses left)
      == normalized_type_text (unwrap_type_parentheses right)

  -- One call of `isDefinitelyObjectType`.
  abbrev pub object_in : (ℕ → Bool) → Node → Bool
  object_in rec (ts_array_type _) = true
  object_in rec (function ts_constructor_type _) = true
  object_in rec (function ts_function_type _) = true
  object_in rec (ts_mapped_type _ _ _ _) = true
  object_in rec (ts_keyword ts_object_keyword) = true
  object_in rec (ts_tuple_type _) = true
  object_in rec (ts_type_literal members) = not (is_empty members)
  object_in rec (ts_intersection_type ts) = all rec ts
  object_in rec (ts_type_operator operator t) = operator == "readonly" && rec t
  object_in rec _ = false

  unfoldable pub object_type_within : ℕ → ℕ → Bool
  object_type_within zero t = false
  object_type_within (suc fuel) t =
      object_in (λ k. object_type_within fuel k) (s.node (unwrap_type_parentheses t))

  unfoldable pub is_definitely_object_type : ℕ → Bool
  is_definitely_object_type t = object_type_within (suc t) t

  -- `parameters.length === 2` and a second argument that is not top
  abbrev pub narrower_arguments : List ℕ → Bool
  narrower_arguments (_ ∷ v ∷ []) = not (is_unknown_or_any_type v)
  narrower_arguments _ = false

  -- One call of `isDefinitelyNarrowerRecordType`.
  abbrev pub narrower_in : (ℕ → Bool) → Node → Bool
  narrower_in rec (ts_type_literal members) =
      any (λ m. not (is_signature_member (s.node m))) members
  narrower_in rec (ts_type_reference n []) = false
  narrower_in rec (ts_type_reference n (t ∷ ts)) =
      if reference_is_named n "Readonly"
      then rec t
      else reference_is_named n "Record" && narrower_arguments (t ∷ ts)
  narrower_in rec _ = false

  unfoldable pub narrower_record_within : ℕ → ℕ → Bool
  narrower_record_within zero t = false
  narrower_record_within (suc fuel) t =
      narrower_in (λ k. narrower_record_within fuel k) (s.node (unwrap_type_parentheses t))

  unfoldable pub is_definitely_narrower_record_type : ℕ → Bool
  is_definitely_narrower_record_type t = narrower_record_within (suc t) t

  -- its tests by the broad kind, in order
  abbrev pub narrower_than : BroadTypeKind → Option ℕ → ℕ → Bool
  narrower_than top_kind evidence t = true
  narrower_than object_kind evidence t =
      types_have_same_syntax evidence t || is_definitely_object_type t
  narrower_than record_kind evidence t =
      types_have_same_syntax evidence t || is_definitely_narrower_record_type t

  -- `assertionIsNarrower`; the evidence counts by its type.
  unfoldable pub assertion_is_narrower : BroadTypeKind → Option ℕ → ℕ → Bool
  assertion_is_narrower kind evidence asserted = elim (broad_type_kind asserted) [
    | some _ ↦ false
    | none ↦ narrower_than kind evidence asserted
  ]

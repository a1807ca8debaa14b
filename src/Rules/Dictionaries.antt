-- ===== src/Rules/Dictionaries.antt =====
-- rules/no-unsafe-dictionary-type.ts. The classifications take fuel, and the rule answers `none` when it runs out.
pub mod NestLaws
use zslay.Prelude.{
  Bool, List, Option, String, [], any, false, if◌then◌else◌, is_empty, is_some, none, not, some,
  true, ℕ, ◌&&◌, ◌=#◌, ◌>>=◌, ◌||◌, ◌∷◌,
}
use zslay.Ast.{
  Annotation, Node, Report, SourceCode, as_type_reference, function, is_program, parent,
  report_with, ts_array_type, ts_conditional_type, ts_constructor_type, ts_function_type,
  ts_index_signature, ts_infer_type, ts_intersection_type, ts_keyword, ts_mapped_type,
  ts_parenthesized_type, ts_tuple_type, ts_type_alias_declaration, ts_type_literal,
  ts_type_operator, ts_type_parameter, ts_type_predicate, ts_type_reference, ts_union_type,
}
use zslay.Shared.TypeAlias.{visible_type_alias}
use zslay.Shared.DictionaryTypes.{TypeEnvironment, create_type_environment, reference_name}
use zslay.Shared.DictionaryTypes.UnsafeValues.{
  UnsafeValue, any_value, classify_unsafe_dictionary, classify_unsafe_dictionary_value,
  empty_object, object_value, union_value, unknown_value,
}

-- `typeNodeKinds`, of the types that have a constructor here. On the others, which are an `other_node`, the
-- classification finds nothing, so whether they count makes no difference.
abbrev pub is_type_node : Node → Bool
is_type_node (ts_keyword _) = true
is_type_node (ts_array_type _) = true
is_type_node (ts_conditional_type _ _ _ _) = true
is_type_node (function ts_constructor_type _) = true
is_type_node (function ts_function_type _) = true
is_type_node (ts_infer_type _) = true
is_type_node (ts_intersection_type _) = true
is_type_node (ts_mapped_type _ _ _ _) = true
is_type_node (ts_parenthesized_type _) = true
is_type_node (ts_tuple_type _) = true
is_type_node (ts_type_literal _) = true
is_type_node (ts_type_operator _ _) = true
is_type_node (ts_type_predicate _ _) = true
is_type_node (ts_type_reference _ _) = true
is_type_node (ts_union_type _) = true
is_type_node _ = false

-- the types that the handlers of the rule look at
abbrev pub is_dictionary_node : Node → Bool
is_dictionary_node (ts_type_reference _ _) = true
is_dictionary_node (ts_type_literal _) = true
is_dictionary_node (ts_mapped_type _ _ _ _) = true
is_dictionary_node _ = false

abbrev pub is_alias_declaration : Node → Bool
is_alias_declaration (ts_type_alias_declaration _ _ _) = true
is_alias_declaration _ = false

abbrev pub is_type_literal : Node → Bool
is_type_literal (ts_type_literal _) = true
is_type_literal _ = false

-- `parent.type === "TSTypeParameter" && parent.constraint === child`
abbrev pub constrains : Node → ℕ → Bool
constrains (ts_type_parameter _ (some c) _) child = c =# child
constrains _ child = false

-- `unsafe.unsafeValue`
abbrev pub unsafe_text : UnsafeValue → String
unsafe_text any_value = "any"
unsafe_text empty_object = "empty-object"
unsafe_text object_value = "object"
unsafe_text union_value = "union"
unsafe_text unknown_value = "unknown"

abbrev pub unsafe_report : ℕ → Option UnsafeValue → List Report
unsafe_report n none = []
unsafe_report n (some v) = report_with n "unsafeDictionary" (("value", unsafe_text v) ∷ [])

-- What `Program` stores.
abbrev pub DictionaryEnvironment : Type 0
DictionaryEnvironment = Option TypeEnvironment

module _ (s : SourceCode) where
  unfoldable pub alias_declaration_around : List ℕ → Bool
  alias_declaration_around [] = false
  alias_declaration_around (p ∷ above) =
      let further = alias_declaration_around above in
      if is_program (s.node p)
      then false
      else if is_alias_declaration (s.node p)
      then true
      else further

  unfoldable pub is_inside_type_alias_declaration : ℕ → Bool
  is_inside_type_alias_declaration n = alias_declaration_around (s.ancestors n)

  unfoldable pub is_plain_alias_consumer_use : TypeEnvironment → ℕ → Bool
  is_plain_alias_consumer_use environment n = elim (as_type_reference (s.node n)) [
    | none ↦ false
    | some r ↦ elim (reference_name s r) [
      | none ↦ false
      | some name ↦
          is_empty r.arguments
          && (is_some (visible_type_alias s environment.type_aliases name n)
              && not (is_inside_type_alias_declaration n))
    ]
  ]

  -- The loop of `isInsideTypeParameterConstraint`, from a node and its ancestors.
  unfoldable pub constraint_around : ℕ → List ℕ → Bool
  constraint_around child [] = false
  constraint_around child (p ∷ above) =
      let further = constraint_around p above in
      if is_program (s.node p) then false else if constrains (s.node p) child then true else further

  unfoldable pub is_inside_type_parameter_constraint : ℕ → Bool
  is_inside_type_parameter_constraint n = constraint_around n (s.ancestors n)

module _ (s : SourceCode) (fuel : ℕ) where
  -- One round of the last loop: does it return `false` at this node?
  unfoldable pub is_unsafe_type : TypeEnvironment → ℕ → Option Bool
  is_unsafe_type environment p = elim (is_type_node (s.node p)) [
    | false ↦ some false
    | true ↦ do unsafe ← classify_unsafe_dictionary s environment fuel p; some (is_some unsafe)
  ]

  -- The last loop of `shouldReportType`, over the ancestors.
  unfoldable pub outermost_unsafe : TypeEnvironment → List ℕ → Option Bool
  outermost_unsafe environment [] = some true
  outermost_unsafe environment (p ∷ above) =
      let further = outermost_unsafe environment above in
      if is_program (s.node p) then some true else elim (is_unsafe_type environment p) [
        | none ↦ none
        | some true ↦ some false
        | some false ↦ further
      ]

  abbrev pub outermost_if : TypeEnvironment → ℕ → Option UnsafeValue → Option Bool
  outermost_if environment n none = some false
  outermost_if environment n (some _) = outermost_unsafe environment (s.ancestors n)

  unfoldable pub should_report_type : TypeEnvironment → ℕ → Option Bool
  should_report_type environment n =
      if is_inside_type_parameter_constraint s n || is_plain_alias_consumer_use s environment n
      then some false
      else (do
        unsafe ← classify_unsafe_dictionary s environment fuel n
        outermost_if environment n unsafe)

  unfoldable pub report_if_unsafe : TypeEnvironment → ℕ → Option (List Report)
  report_if_unsafe environment n = do
    wanted ← should_report_type environment n
    if wanted
        then (do
          unsafe ← classify_unsafe_dictionary s environment fuel n
          some (unsafe_report n unsafe))
        else some []

  -- `TSIndexSignature`
  unfoldable pub report_index_signature :
      TypeEnvironment → ℕ → Option Annotation → Option (List Report)
  report_index_signature environment n none = some []
  report_index_signature environment n (some a) =
      if parent_is_literal (parent s n) then some [] else (do
        unsafe ← classify_unsafe_dictionary_value s environment fuel a.type_annotation
        some (unsafe_report n unsafe))
    where
      parent_is_literal : Option ℕ → Bool
      parent_is_literal none = false
      parent_is_literal (some p) = is_type_literal (s.node p)

  -- The handlers after `Program`.
  abbrev pub report_dictionary : TypeEnvironment → ℕ → Node → Option (List Report)
  report_dictionary environment n (ts_index_signature _ a) = report_index_signature environment n a
  report_dictionary environment n v =
      if is_dictionary_node v then report_if_unsafe environment n else some []

  unfoldable pub no_unsafe_dictionary_type : DictionaryEnvironment → ℕ → Option (List Report)
  no_unsafe_dictionary_type none n = some []
  no_unsafe_dictionary_type (some environment) n = report_dictionary environment n (s.node n)

-- ===== src/Shared/DictionaryTypes.antt =====
-- shared/dictionary-types.ts: the environment of a program's types, what counts as empty, and the substitution
-- of an alias's type parameters. The recursive classifications are in the child modules.
pub mod ArgumentLaws
pub mod AliasLaws
pub mod UnsafeValues
pub mod WideningTargets
pub mod EvidenceExpressions
use zslay.Prelude.{
  Bool, List, Option, String, [], all, false, filter, gather, has_name, if◌then◌else◌, is_empty,
  length, map, none, not, or_else, some, suc, true, zero, ℕ, ◌&&◌, ◌==◌, ◌∷◌,
}
use zslay.Ast.{
  Annotation, Node, SourceCode, TypeReference, as_identifier, as_type_reference,
  export_default_declaration, export_named_declaration, program, ts_interface_declaration,
  ts_keyword, ts_never_keyword, ts_property_signature, walk,
}
use zslay.Shared.ArrayMethod.{annotation_wrapped}
use zslay.Shared.TypeAlias.{
  Alias, TypeBinding, create_type_alias_environment, has_visible_type_binding,
}
use zslay.Shared.TypeAlias.Resolve.{as_parameter, head_of, tail_of}

abbrev pub built_ins : List String
built_ins =
    "Record" ∷ "Readonly" ∷ "Partial" ∷ "Required" ∷ "Pick" ∷ "Omit" ∷ "PropertyKey" ∷ "NonNullable"
    ∷ []

abbrev pub transparent_wrappers : List String
transparent_wrappers = "Readonly" ∷ "Partial" ∷ "Required" ∷ "NonNullable" ∷ []

-- `interfaces` holds the name and the node of each interface, in order; `get` is `interfaces_named`.
pub record TypeEnvironment : Type 0 where
  pub interfaces : List (String × ℕ)
  pub type_aliases : List TypeBinding

-- An interface's `extends` and the members of its body.
pub record Interface : Type 0 where
  pub id : ℕ
  pub extended : List ℕ
  pub members : List ℕ

abbrev pub as_interface : Node → Option Interface
as_interface (ts_interface_declaration i _ es ms) =
    some (record { id = i; extended = es; members = ms })
as_interface _ = none

-- `Map<string, TSType>`; `set` adds in front, so the last argument of a name counts.
abbrev pub Arguments : Type 0
Arguments = List (String × ℕ)

unfoldable pub argument : String → Arguments → Option ℕ
argument name [] = none
argument name ((x, t) ∷ rest) = if x == name then some t else argument name rest

module _ (s : SourceCode) where
  abbrev statement_declaration : ℕ → Node → Option ℕ
  statement_declaration n (export_named_declaration d) = d
  statement_declaration n (export_default_declaration d) = d
  statement_declaration n _ = some n

  unfoldable pub declared_statement : ℕ → Option ℕ
  declared_statement n = statement_declaration n (s.node n)

  -- what one statement adds to `interfaces`
  abbrev interface_entry : ℕ → List (String × ℕ)
  interface_entry n = elim (declared_statement n) [
    | none ↦ []
    | some d ↦ elim (as_interface (s.node d)) [
      | none ↦ []
      | some i ↦ elim (as_identifier (s.node i.id)) [ none ↦ [] | some name ↦ (name, d) ∷ [] ]
    ]
  ]

  abbrev body : Node → List ℕ
  body (program statements) = statements
  body _ = []

  unfoldable pub create_type_environment : ℕ → TypeEnvironment
  unfolding declared_statement
  create_type_environment root = record {
    interfaces = gather interface_entry (body (s.node root));
    type_aliases = create_type_alias_environment s root;
  }

  abbrev pub interfaces_named : TypeEnvironment → String → List ℕ
  interfaces_named environment name =
      map (λ e. e.1) (filter (λ e. e.0 == name) environment.interfaces)

  -- `typeReferenceName`
  abbrev pub reference_name : TypeReference → Option String
  reference_name r = as_identifier (s.node r.type_name)

  unfoldable pub unwrap_transparent_type : ℕ → ℕ
  unwrap_transparent_type t = walk (λ k. annotation_wrapped (s.node k)) t

  unfoldable pub is_built_in : TypeEnvironment → String → ℕ → Bool
  is_built_in environment name use_node =
      has_name built_ins name
      && not (has_visible_type_binding s environment.type_aliases name use_node)

  unfoldable pub is_unapplied_reference_to : ℕ → String → Bool
  is_unapplied_reference_to t name = elim (as_type_reference (s.node (unwrap_transparent_type t))) [
    | none ↦ false
    | some r ↦ elim (reference_name r) [ none ↦ false | some x ↦ x == name && is_empty r.arguments ]
  ]

  abbrev pub is_never : Node → Bool
  is_never (ts_keyword ts_never_keyword) = true
  is_never _ = false

  abbrev pub is_never_type : ℕ → Bool
  is_never_type t = is_never (s.node (unwrap_transparent_type t))

  abbrev pub never_annotated : Option Annotation → Bool
  never_annotated none = false
  never_annotated (some a) = is_never_type a.type_annotation

  abbrev pub empty_member : Node → Bool
  empty_member (ts_property_signature _ optional annotation) =
      optional && never_annotated annotation
  empty_member _ = false

  unfoldable pub is_effectively_empty_member : ℕ → Bool
  is_effectively_empty_member m = empty_member (s.node m)

  -- `members.length === 0 || members.every(…)`
  abbrev pub are_effectively_empty : List ℕ → Bool
  are_effectively_empty members = all is_effectively_empty_member members

  unfoldable pub is_effectively_empty_interface : List ℕ → Bool
  is_effectively_empty_interface [] = false
  is_effectively_empty_interface (d ∷ []) = elim (as_interface (s.node d)) [
    | none ↦ false
    | some i ↦ is_empty i.extended && are_effectively_empty i.members
  ]
  is_effectively_empty_interface (d ∷ e ∷ ds) = false

  -- The name to which a type refers with no other type around it.
  abbrev pub referred_name : ℕ → Option String
  referred_name t = elim (as_type_reference (s.node (unwrap_transparent_type t))) [
    | none ↦ none
    | some r ↦ reference_name r
  ]

  -- `resolvedSubstitutionArgument` on fuel.
  unfoldable pub resolved_within : ℕ → Arguments → List String → ℕ → ℕ
  resolved_within zero base resolving t = t
  resolved_within (suc fuel) base resolving t = elim (referred_name t) [
    | none ↦ t
    | some name ↦ elim (has_name resolving name) [
      | true ↦ t
      | false ↦ elim (argument name base) [
        | none ↦ t
        | some u ↦ resolved_within fuel base (name ∷ resolving) u
      ]
    ]
  ]

  -- Each round resolves a new name of the map.
  unfoldable pub resolved_substitution_argument : Arguments → ℕ → ℕ
  resolved_substitution_argument base t = resolved_within (suc (length base)) base [] t

  -- the loop over `parameters.entries()`, with the arguments that are left
  unfoldable pub set_arguments : Arguments → List ℕ → List ℕ → Option Arguments
  set_arguments next [] arguments = some next
  set_arguments next (p ∷ ps) arguments = elim (as_parameter (s.node p)) [
    | none ↦ none
    | some q ↦ elim (as_identifier (s.node q.name)) [
      | none ↦ none
      | some name ↦ elim (or_else (head_of arguments) q.default) [
        | none ↦ none
        | some t ↦
            set_arguments ((name, resolved_substitution_argument next t) ∷ next) ps
              (tail_of arguments)
      ]
    ]
  ]

  unfoldable pub alias_substitution : Alias → List ℕ → Arguments → Option Arguments
  alias_substitution alias arguments base = set_arguments base alias.parameters arguments

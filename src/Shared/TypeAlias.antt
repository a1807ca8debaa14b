-- ===== src/Shared/TypeAlias.antt =====
-- shared/type-alias-resolution.ts: which alias a type name means at a use, and matching a type behind
-- aliases.
pub mod NearestLaws
pub mod CollectLaws
pub mod Resolve
use zslay.Prelude.{
  Bool, List, Option, String, [], false, filter, gather, has_name, if◌then◌else◌, is_empty, ltb,
  none, not, some, suc, true, zero, ℕ, ◌++◌, ◌+◌, ◌=#◌, ◌==◌, ◌||◌, ◌∷◌,
}
use zslay.Ast.{
  Node, SourceCode, as_identifier, block_statement, class_declaration, class_expression,
  import_default_specifier, import_namespace_specifier, import_specifier, program, static_block,
  switch_statement, ts_enum_declaration, ts_interface_declaration, ts_module_block,
  ts_type_alias_declaration,
}
use zslay.Shared.LexicalTypeParameters.{lexical_type_parameter_names}

pub record TypeBinding : Type 0 where
  pub alias : Option ℕ
  pub name : String
  pub scope : ℕ

-- A type alias declaration: its `id`, its type parameters and its type.
pub record Alias : Type 0 where
  pub id : ℕ
  pub parameters : List ℕ
  pub type_annotation : ℕ

abbrev pub as_alias : Node → Option Alias
as_alias (ts_type_alias_declaration i ps t) =
    some (record { id = i; parameters = ps; type_annotation = t })
as_alias _ = none

abbrev is_type_scope : Node → Bool
is_type_scope (program _) = true
is_type_scope (block_statement _) = true
is_type_scope (ts_module_block _) = true
is_type_scope (static_block _) = true
is_type_scope (switch_statement _ _) = true
is_type_scope _ = false

-- Whether a declaration is an alias, and the node that holds its name.
abbrev declares : Node → Option (Bool × ℕ)
declares (ts_type_alias_declaration i _ _) = some (true, i)
declares (ts_interface_declaration i _ _ _) = some (false, i)
declares (ts_enum_declaration i) = some (false, i)
declares (class_declaration (some i) _ _) = some (false, i)
declares (class_expression (some i) _ _) = some (false, i)
declares (import_specifier _ l) = some (false, l)
declares (import_default_specifier l) = some (false, l)
declares (import_namespace_specifier l) = some (false, l)
declares _ = none

-- The numbers of the two distances are compared as in the loop of `nearestTypeBindings`; `none` is
-- infinity.
module _ {ℓ} {A : Type ℓ} (distance : A → Option ℕ) where
  unfoldable pub nearest_from : Option ℕ → List A → List A → List A
  nearest_from best found [] = found
  nearest_from none found (c ∷ cs) = elim (distance c) [
    | none ↦ nearest_from none found cs
    | some d ↦ nearest_from (some d) (c ∷ []) cs
  ]
  nearest_from (some b) found (c ∷ cs) = elim (distance c) [
    | none ↦ nearest_from (some b) found cs
    | some d ↦ elim (ltb b d) [
      | true ↦ nearest_from (some b) found cs
      | false ↦ elim (d =# b) [
        | true ↦ nearest_from (some b) (found ++ c ∷ []) cs
        | false ↦ nearest_from (some d) (c ∷ []) cs
      ]
    ]
  ]

module _ (s : SourceCode) where
  scope_among : ℕ → List ℕ → ℕ
  scope_among n [] = n
  scope_among n (current ∷ above) =
      if is_type_scope (s.node current) then current else scope_among n above

  unfoldable pub enclosing_type_scope : ℕ → ℕ
  unfolding scope_among
  enclosing_type_scope n = scope_among n (s.ancestors n)

  -- `declaredTypeBinding`, with the scope that `collectTypeBindings` adds
  unfoldable pub declared_type_binding : ℕ → Option TypeBinding
  declared_type_binding n = elim (declares (s.node n)) [
    | none ↦ none
    | some (is_alias, i) ↦ elim (as_identifier (s.node i)) [
      | none ↦ none
      | some name ↦ some (record {
        alias = if is_alias then some n else none;
        name = name;
        scope = enclosing_type_scope n;
      })
    ]
  ]

  abbrev own_bindings : ℕ → List TypeBinding
  own_bindings n = elim (declared_type_binding n) [ none ↦ [] | some b ↦ b ∷ [] ]

  collect_within : ℕ → ℕ → List TypeBinding
  collect_within zero n = []
  collect_within (suc fuel) n = own_bindings n ++ gather (λ c. collect_within fuel c) (s.children n)

  -- The bindings of a program, in the order in which the traversal meets them; the map by name is read by
  -- `filter`, and the cache by program is left out, since it changes no result.
  unfoldable pub create_type_alias_environment : ℕ → List TypeBinding
  unfolding collect_within
  create_type_alias_environment root = collect_within (suc root) root

  distance_along : ℕ → List ℕ → ℕ → Option ℕ
  distance_along ancestor [] distance = none
  distance_along ancestor (current ∷ above) distance =
      if current =# ancestor then some distance else distance_along ancestor above (distance + 1)

  unfoldable pub ancestor_distance : ℕ → ℕ → Option ℕ
  unfolding distance_along
  ancestor_distance ancestor n = distance_along ancestor (n ∷ s.ancestors n) 0

  module _ (environment : List TypeBinding) where
    abbrev pub candidates : String → List TypeBinding
    candidates name = filter (λ b. b.name == name) environment

    abbrev pub scope_distance : ℕ → TypeBinding → Option ℕ
    scope_distance use_node b = ancestor_distance b.scope use_node

    unfoldable pub nearest_type_bindings : String → ℕ → List TypeBinding
    nearest_type_bindings name use_node =
        nearest_from (scope_distance use_node) none [] (candidates name)

    abbrev pub only_alias : List TypeBinding → Option ℕ
    only_alias (b ∷ []) = b.alias
    only_alias _ = none

    unfoldable pub visible_type_alias : String → ℕ → Option ℕ
    visible_type_alias name use_node =
        if has_name (lexical_type_parameter_names s use_node) name
        then none
        else only_alias (nearest_type_bindings name use_node)

    unfoldable pub has_visible_type_binding : String → ℕ → Bool
    has_visible_type_binding name use_node =
        has_name (lexical_type_parameter_names s use_node) name
        || not (is_empty (nearest_type_bindings name use_node))

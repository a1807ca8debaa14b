-- ===== src/Shared/LexicalTypeParameters.antt =====
-- shared/lexical-type-parameters.ts. A `Set` of names is the list of the names added; it is read by `has`.
use zslay.Prelude.{
  Bool, List, Option, String, [], false, gather, if◌then◌else◌, none, some, suc, zero, ℕ, ◌++◌,
  ◌=#◌, ◌||◌, ◌∷◌,
}
use zslay.Ast.{
  Node, SourceCode, as_identifier, class_declaration, class_expression, function, is_program,
  ts_conditional_type, ts_infer_type, ts_interface_declaration, ts_mapped_type,
  ts_type_alias_declaration, ts_type_parameter,
}

abbrev type_parameter_name : Node → Option ℕ
type_parameter_name (ts_type_parameter name _ _) = some name
type_parameter_name _ = none

-- `typeParameters?.params ?? []`
abbrev declared_type_parameters : Node → List ℕ
declared_type_parameters (function _ f) = f.type_parameters
declared_type_parameters (class_declaration _ ps _) = ps
declared_type_parameters (class_expression _ ps _) = ps
declared_type_parameters (ts_type_alias_declaration _ ps _) = ps
declared_type_parameters (ts_interface_declaration _ ps _ _) = ps
declared_type_parameters _ = []

abbrev is_node : Option ℕ → ℕ → Bool
is_node none n = false
is_node (some m) n = m =# n

module _ (s : SourceCode) where
  -- the `name` of a node that is an identifier by its position
  abbrev name_of : ℕ → List String
  name_of n = elim (as_identifier (s.node n)) [ none ↦ [] | some name ↦ name ∷ [] ]

  -- `parameter.name.name`
  abbrev pub parameter_name : ℕ → List String
  parameter_name p = elim (type_parameter_name (s.node p)) [ none ↦ [] | some name ↦ name_of name ]

  abbrev infer_name : Node → List String
  infer_name (ts_infer_type p) = parameter_name p
  infer_name _ = []

  collect_infer_within : ℕ → ℕ → List String
  collect_infer_within zero n = []
  collect_infer_within (suc fuel) n =
      infer_name (s.node n) ++ gather (λ c. collect_infer_within fuel c) (s.children n)

  -- Child nodes have smaller numbers, so this fuel is enough.
  unfoldable pub collect_infer_type_parameter_names : ℕ → List String
  unfolding collect_infer_within
  collect_infer_type_parameter_names n = collect_infer_within (suc n) n

  -- what a node binds for its `descendant`, besides its type parameters
  abbrev special_names : ℕ → Node → List String
  special_names descendant (ts_mapped_type key _ name_type annotation) =
      if is_node name_type descendant || is_node annotation descendant then name_of key else []
  special_names descendant (ts_conditional_type _ extends_type true_type _) =
      if true_type =# descendant then collect_infer_type_parameter_names extends_type else []
  special_names descendant _ = []

  abbrev pub names_bound_at : ℕ → ℕ → List String
  names_bound_at descendant current =
      gather parameter_name (declared_type_parameters (s.node current))
      ++ special_names descendant (s.node current)

  -- the loop from a node up to the `Program`
  unfoldable pub lexical_names : ℕ → List ℕ → List String
  lexical_names descendant [] = []
  lexical_names descendant (current ∷ above) =
      let rest = lexical_names current above in
      if is_program (s.node current) then [] else names_bound_at descendant current ++ rest

  unfoldable pub lexical_type_parameter_names : ℕ → List String
  lexical_type_parameter_names n = lexical_names n (n ∷ s.ancestors n)

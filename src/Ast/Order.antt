-- ===== src/Ast/Order.antt =====
-- What the parser guarantees of a tree: it is finite and its `parent` links are those of the fields.
use zslay.Prelude.{
  All, List, Option, String, [], contains, none, some, true, ℕ, ◌++◌, ◌<◌, ◌∷◌, ◌≡◌,
}
use zslay.Ast.Syntax.{
  Annotation, Node, SourceCode, accessor_property, array_expression, array_pattern,
  assignment_expression, assignment_pattern, binary_expression, block_statement, call_expression,
  chain_expression, class_declaration, class_expression, conditional_expression,
  export_default_declaration, export_named_declaration, expression_statement, function, identifier,
  import_declaration, import_default_specifier, import_namespace_specifier, import_specifier,
  jsx_identifier, literal, member_expression, method_definition, new_expression, object_expression,
  object_pattern, other_node, parenthesized_expression, private_identifier, program, property,
  property_definition, rest_element, return_statement, spread_element, static_block,
  switch_statement, template_literal, throw_statement, ts_array_type, ts_as_expression,
  ts_conditional_type, ts_enum_declaration, ts_index_signature, ts_infer_type,
  ts_interface_declaration, ts_intersection_type, ts_keyword, ts_mapped_type, ts_module_block,
  ts_non_null_expression, ts_parameter_property, ts_parenthesized_type, ts_property_signature,
  ts_satisfies_expression, ts_tuple_type, ts_type_alias_declaration, ts_type_assertion,
  ts_type_literal, ts_type_operator, ts_type_parameter, ts_type_predicate, ts_type_reference,
  ts_union_type, unary_expression, variable_declaration, variable_declarator,
}

abbrev pub optional : Option ℕ → List ℕ
optional none = []
optional (some n) = n ∷ []

abbrev pub annotated : Option Annotation → List ℕ
annotated none = []
annotated (some a) = a.type_annotation ∷ []

-- The nodes that the fields of a node hold.
abbrev pub fields : Node → List ℕ
fields (identifier _ t) = annotated t
fields (private_identifier _) = []
fields (jsx_identifier _) = []
fields (literal _) = []
fields (template_literal es) = es
fields (parenthesized_expression e) = e ∷ []
fields (chain_expression e) = e ∷ []
fields (ts_non_null_expression e) = e ∷ []
fields (ts_as_expression e t) = e ∷ t ∷ []
fields (ts_type_assertion e t) = e ∷ t ∷ []
fields (ts_satisfies_expression e t) = e ∷ t ∷ []
fields (member_expression o p _) = o ∷ p ∷ []
fields (call_expression c es) = c ∷ es
fields (new_expression c es) = c ∷ es
fields (binary_expression _ l r) = l ∷ r ∷ []
fields (assignment_expression _ l r) = l ∷ r ∷ []
fields (unary_expression _ e) = e ∷ []
fields (conditional_expression t c a) = t ∷ c ∷ a ∷ []
fields (array_expression es) = es
fields (object_expression ps) = ps
fields (property k v _) = k ∷ v ∷ []
fields (spread_element e) = e ∷ []
fields (function _ f) =
    optional f.id
    ++ (f.type_parameters ++ (f.params ++ (annotated f.return_type ++ optional f.body)))
fields (class_declaration i ts ns) = optional i ++ (ts ++ ns)
fields (class_expression i ts ns) = optional i ++ (ts ++ ns)
fields (rest_element e t) = e ∷ annotated t
fields (assignment_pattern l r t) = l ∷ r ∷ annotated t
fields (object_pattern ps t) = annotated t ++ ps
fields (array_pattern ps t) = annotated t ++ ps
fields (ts_parameter_property p) = p ∷ []
fields (program ss) = ss
fields (block_statement ss) = ss
fields (ts_module_block ss) = ss
fields (static_block ss) = ss
fields (switch_statement d cs) = d ∷ cs
fields (return_statement e) = optional e
fields (expression_statement e) = e ∷ []
fields (throw_statement e) = e ∷ []
fields (variable_declaration _ ds) = ds
fields (variable_declarator i e) = i ∷ optional e
fields (import_declaration _ ns) = ns
fields (import_specifier i l) = i ∷ l ∷ []
fields (import_default_specifier l) = l ∷ []
fields (import_namespace_specifier l) = l ∷ []
fields (export_named_declaration d) = optional d
fields (export_default_declaration d) = optional d
fields (property_definition k v t) = k ∷ (optional v ++ annotated t)
fields (accessor_property k v t) = k ∷ (optional v ++ annotated t)
fields (method_definition k v) = k ∷ v ∷ []
fields (ts_type_alias_declaration i ps t) = i ∷ t ∷ ps
fields (ts_interface_declaration i ps es ms) = i ∷ (ps ++ (es ++ ms))
fields (ts_enum_declaration i) = i ∷ []
fields (ts_keyword _) = []
fields (ts_parenthesized_type t) = t ∷ []
fields (ts_array_type t) = t ∷ []
fields (ts_union_type ts) = ts
fields (ts_intersection_type ts) = ts
fields (ts_tuple_type ts) = ts
fields (ts_type_operator _ t) = t ∷ []
fields (ts_type_reference n ts) = n ∷ ts
fields (ts_type_literal ms) = ms
fields (ts_mapped_type k c n t) = k ∷ c ∷ (optional n ++ optional t)
fields (ts_conditional_type c e t f) = c ∷ e ∷ t ∷ f ∷ []
fields (ts_infer_type p) = p ∷ []
fields (ts_type_predicate p t) = p ∷ annotated t
fields (ts_index_signature ps t) = annotated t ++ ps
fields (ts_property_signature k _ t) = k ∷ annotated t
fields (ts_type_parameter n c d) = n ∷ (optional c ++ optional d)
fields (other_node ns) = ns

-- A number larger than those of its fields for every node: the tree is finite, and a loop that goes
-- down ends. Such a numbering is the order in which the parser finishes the nodes.
abbrev pub IsBelow : ℕ → Node → Type 0
IsBelow n v = All (λ c. c < n) (fields v)

pub record IsTree (s : SourceCode) : Type 0 where
  pub below : (n : ℕ) → IsBelow n (s.node n)
  pub visited : (n : ℕ) → All (λ c. c < n) (s.children n)
  pub chain : (n p : ℕ) (rest : List ℕ) → s.ancestors n ≡ p ∷ rest → s.ancestors p ≡ rest

-- What the scope analysis guarantees: scopes bind the variables of the program, whose definitions are nodes
-- of the tree.
pub record IsScoped (s : SourceCode) : Type 0 where
  pub tree : IsTree s
  pub bound :
      (n : ℕ)
      → All
          (λ scope. (name : String) (v : ℕ) → scope name ≡ some v → contains s.variables v ≡ true)
          (s.get_scope n)
  pub defined : (v : ℕ) → All (λ d. d.node < s.size) (s.variable v).defs

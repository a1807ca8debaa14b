-- ===== src/Shared/ArrayMethod/FuelLaws.antt =====
-- `isKnownArrayExpression` ends: every call goes down the tree or visits a new variable.
use zslay.Prelude.{
  >>=-eq-some, All, Bool, Bool-cases, List, Option-cases, String, [], any, arith, contains, false,
  guard, has_name, inl, inr, jump_cost, length, none, refl, some, suc, true, unvisited,
  unvisited-cons_lt, unvisited_le, zero, ℕ, ◌*◌, ◌+◌, ◌<◌, ◌==◌, ◌∷◌, ◌≡◌, ◌≤◌,
}
use zslay.Ast.{
  Declarator, Definition, IsBelow, IsScoped, Member, Node, Scope, SourceCode, array_expression,
  as_declarator, as_identifier, as_member, call_expression, declaration_kind, identifier,
  member_expression, parent, variable_declarator, walk_le,
}
use zslay.Shared.Scope.{find_binding}
use zslay.Shared.ArrayMethod.UnwrapLaws.{array_wrapped_below}
use zslay.Shared.ArrayMethod.{
  Evidence, Target, answer, array_method_target, array_preserving_methods, binding_evidence,
  const_initializer, evidence, first_annotation, first_const_initializer, initializer,
  is_known_array_expression, is_known_array_within, is_reassignment, known_array_fuel,
  node_evidence, receiver, resolve_array_binding, static_name, unwrap_array_expression,
}

pub find_binding_bound :
    (vs : List ℕ) (name : String) (scopes : List Scope) (v : ℕ)
    → All (λ scope. (x : String) (w : ℕ) → scope x ≡ some w → contains vs w ≡ true) scopes
    → find_binding name scopes ≡ some v
    → contains vs v ≡ true
unfolding find_binding
find_binding_bound vs name [] v b h = absurd (ground arith)
find_binding_bound vs name (scope ∷ upper) v b h = elim (Option-cases (scope name)) [
  | inl e ↦ find_binding_bound vs name upper v b.1 (rw (e, find_binding) at h)
  | inr (w, e) ↦ b.0 name v (ground arith)
]

declarator_below :
    (v : Node) (n i : ℕ) (d : Declarator)
    → IsBelow n v
    → as_declarator v ≡ some d
    → d.init ≡ some i
    → i < n
declarator_below (variable_declarator k none) n i d b e q = absurd (ground arith)
declarator_below (variable_declarator k (some j)) n i d b e q = ground arith
declarator_below _ n i d b e q = absurd (ground arith)

member_object_below :
    (v : Node) (n : ℕ) (m : Member) → IsBelow n v → as_member v ≡ some m → m.object < n
member_object_below (member_expression o p c) n m b e = ground arith
member_object_below _ n m b e = absurd (ground arith)

module _ (s : SourceCode) (scoped : IsScoped s) where
  const_initializer_below : (d : Definition) (i : ℕ) → const_initializer s d ≡ some i → i < d.node
  unfolding const_initializer
  const_initializer_below d i h =
      let (_, _, h1) = >>=-eq-some (guard (d.type == "Variable")) _ h in
      let (declarator, is_declarator, h2) = >>=-eq-some (as_declarator (s.node d.node)) _ h1 in
      let (name, _, h3) = >>=-eq-some (as_identifier (s.node declarator.id)) _ h2 in
      let (init, has_init, h4) = >>=-eq-some declarator.init _ h3 in
      let (p, _, h5) = >>=-eq-some (parent s d.node) _ h4 in
      let (kind, _, h6) = >>=-eq-some (declaration_kind (s.node p)) _ h5 in
      let (_, _, h7) = >>=-eq-some (guard (kind == "const")) _ h6 in
      let same : init ≡ i = ground arith in
      rw same at (
        declarator_below (s.node d.node) d.node init declarator (scoped.tree.below d.node)
          is_declarator has_init)

  pub first_const_initializer_below :
      (ds : List Definition) (i : ℕ)
      → All (λ d. d.node < s.size) ds
      → first_const_initializer s ds ≡ some i
      → i < s.size
  unfolding first_const_initializer
  first_const_initializer_below [] i b h = absurd (ground arith)
  first_const_initializer_below (d ∷ ds) i b h = elim (Option-cases (const_initializer s d)) [
    | inl e ↦ first_const_initializer_below ds i b.1 (rw (e, first_const_initializer) at h)
    | inr (j, e) ↦
        let same : j ≡ i = (let q = rw (e, first_const_initializer) at h in ground arith) in
        omega (arith, b.0, const_initializer_below d i (rw same at e))
  ]

  unwrap_le : (n : ℕ) → unwrap_array_expression s n ≤ n
  unfolding unwrap_array_expression
  unwrap_le n = walk_le _ (λ k m h. array_wrapped_below (s.node k) k m (scoped.tree.below k) h) n

  method_object_below :
      (callee : ℕ) (m : Target) → array_method_target s callee ≡ some m → m.object < callee
  unfolding array_method_target
  method_object_below callee m h =
      let (member, e, h1) =
        >>=-eq-some (as_member (s.node (unwrap_array_expression s callee))) _ h in
      let (name, _, h2) = >>=-eq-some (static_name s member) _ h1 in
      let same : member.object ≡ m.object = ground arith in
      let below =
        member_object_below (s.node (unwrap_array_expression s callee))
          (unwrap_array_expression s callee) member
          (scoped.tree.below (unwrap_array_expression s callee)) e in
      omega (arith, unwrap_le callee, below, same)

  -- What a call goes on with is smaller.
  abbrev Smaller : List ℕ → ℕ → Evidence → Type 0
  Smaller visited n (answer b) = Unit
  Smaller visited n (receiver o) = o < n
  Smaller visited n (initializer v i) =
      (contains visited v ≡ false) × (contains s.variables v ≡ true) × (i < s.size)

  binding-Smaller :
      (visited : List ℕ) (n v : ℕ)
      → contains visited v ≡ false
      → contains s.variables v ≡ true
      → Smaller visited n (binding_evidence s v (s.variable v))
  binding-Smaller visited n v c b =
      elim (Bool-cases (any is_reassignment (s.variable v).references)) [
        | inl w ↦ rw w tt
        | inr w ↦ elim (Option-cases (first_annotation s (s.variable v).identifiers)) [
          | inr (a, f) ↦ rw (w, f) tt
          | inl f ↦ elim (Option-cases (first_const_initializer s (s.variable v).defs)) [
            | inl g ↦ rw (w, f, g) tt
            | inr (i, g) ↦
                rw (w, f, g)
                  (c, b, first_const_initializer_below (s.variable v).defs i (scoped.defined v) g)
          ]
        ]
      ]

  pub resolved_bound :
      (u v : ℕ) → resolve_array_binding s u ≡ some v → contains s.variables v ≡ true
  unfolding resolve_array_binding
  resolved_bound u v h =
      elim (Option-cases (as_identifier (s.node (unwrap_array_expression s u)))) [
        | inl e ↦ absurd (let q = rw (e, resolve_array_binding) at h in ground arith)
        | inr (name, e) ↦
            find_binding_bound s.variables name (s.get_scope (unwrap_array_expression s u)) v
              (scoped.bound (unwrap_array_expression s u)) (rw (e, resolve_array_binding) at h)
      ]

  evidence-Smaller : (visited : List ℕ) (n : ℕ) → Smaller visited n (evidence s visited n)
  unfolding evidence
  evidence-Smaller visited n = go (s.node u) (scoped.tree.below u)
    where
      u : ℕ
      u = unwrap_array_expression s n

      go : (v : Node) → IsBelow u v → Smaller visited n (node_evidence s visited u v)
      go (array_expression es) b = tt
      go (call_expression callee args) b = elim (Option-cases (array_method_target s callee)) [
        | inl q ↦ rw q tt
        | inr (m, q) ↦ elim (Bool-cases (has_name array_preserving_methods m.name)) [
          | inl k ↦ rw (q, k) (omega (arith, unwrap_le n, b.0, method_object_below callee m q))
          | inr k ↦ rw (q, k) tt
        ]
      ]
      go (identifier name t) b = elim (Option-cases (resolve_array_binding s u)) [
        | inl q ↦ rw q tt
        | inr (v, q) ↦ elim (Bool-cases (contains visited v)) [
          | inl c ↦ rw (q, c) tt
          | inr c ↦ rw (q, c) (binding-Smaller visited n v c (resolved_bound u v q))
        ]
      ]
      go _ b = tt

  ends_step :
      (fuel : ℕ) (visited : List ℕ) (n : ℕ) (x : Evidence)
      → ((seen : List ℕ) (m : ℕ)
          → unvisited seen s.variables * suc s.size + m < fuel
          → (b : Bool) × (is_known_array_within s fuel seen m ≡ some b))
      → evidence s visited n ≡ x
      → Smaller visited n x
      → unvisited visited s.variables * suc s.size + n < suc fuel
      → (b : Bool) × (is_known_array_within s (suc fuel) visited n ≡ some b)
  unfolding is_known_array_within
  ends_step fuel visited n (answer b) ih e k h = (b, rw (e, is_known_array_within))
  ends_step fuel visited n (receiver o) ih e k h =
      let (b, q) = ih visited o (omega arith) in (b, rw (e, is_known_array_within) q)
  ends_step fuel visited n (initializer v i) ih e k h =
      let fewer = unvisited-cons_lt v visited s.variables k.0 k.1 in
      let (b, q) = ih (v ∷ visited) i (
        jump_cost (unvisited (v ∷ visited) s.variables) (unvisited visited s.variables) s.size i n
          fuel fewer k.2 h) in
      (b, rw (e, is_known_array_within) q)

  pub known_array_within_ends :
      (fuel : ℕ) (visited : List ℕ) (n : ℕ)
      → unvisited visited s.variables * suc s.size + n < fuel
      → (b : Bool) × (is_known_array_within s fuel visited n ≡ some b)
  known_array_within_ends zero visited n h = absurd (omega arith)
  known_array_within_ends (suc fuel) visited n h =
      ends_step fuel visited n (evidence s visited n) (known_array_within_ends fuel) refl
        (evidence-Smaller visited n) h

  pub is_known_array_expression_ends :
      (n : ℕ) → (b : Bool) × (is_known_array_expression s n ≡ some b)
  unfolding is_known_array_expression
  is_known_array_expression_ends n = known_array_within_ends (known_array_fuel s n) [] n (
      let p : unvisited [] s.variables * suc s.size ≤ length s.variables * suc s.size =
        (let q = unvisited_le [] s.variables in grind arith) in
      omega (arith, p))

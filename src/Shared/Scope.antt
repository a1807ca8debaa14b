-- ===== src/Shared/Scope.antt =====
-- shared/scope.ts
use zslay.Prelude.{
  List, Option, Option-cases, String, [], arith, inl, inr, none, some, ℕ, ◌↔◌, ◌∷◌, ◌≡◌,
}
use zslay.Ast.{Scope, SourceCode}

-- The loop over `scope.upper`: the binding of the innermost scope that has one.
unfoldable pub find_binding : String → List Scope → Option ℕ
find_binding name [] = none
find_binding name (scope ∷ upper) = elim (scope name) [
  | some variable ↦ some variable
  | none ↦ find_binding name upper
]

-- `resolveVariable` on a node that is an identifier of this name
abbrev pub resolve_variable : SourceCode → ℕ → String → Option ℕ
resolve_variable s n name = find_binding name (s.get_scope n)

-- A scope binds the name and none inside it does.
pub data Visible (name : String) (v : ℕ) : List Scope → Type 0 where
  innermost :
      {scope : Scope} {upper : List Scope} → scope name ≡ some v → Visible name v (scope ∷ upper)
  outer :
      {scope : Scope} {upper : List Scope}
      → scope name ≡ none
      → Visible name v upper
      → Visible name v (scope ∷ upper)

find_binding_sound :
    (name : String) (scopes : List Scope) (v : ℕ)
    → find_binding name scopes ≡ some v
    → Visible name v scopes
unfolding find_binding
find_binding_sound name [] v h = absurd (ground arith)
find_binding_sound name (scope ∷ upper) v h = elim (Option-cases (scope name)) [
  | inl e ↦ outer e (find_binding_sound name upper v (ground arith))
  | inr (x, e) ↦ innermost (ground arith)
]

find_binding_complete :
    {name : String} {v : ℕ} {scopes : List Scope}
    → Visible name v scopes
    → find_binding name scopes ≡ some v
unfolding find_binding
find_binding_complete (innermost e) = rw (e, find_binding)
find_binding_complete (outer e r) = rw (e, find_binding) (find_binding_complete r)

-- A name resolves to a variable exactly when some scope around it binds the name to that variable and no
-- scope nearer to the use binds the name.
pub resolve_variable_iff :
    (s : SourceCode) (n : ℕ) (name : String) (v : ℕ)
    → (resolve_variable s n name ≡ some v) ↔ Visible name v (s.get_scope n)
resolve_variable_iff s n name v = (find_binding_sound name (s.get_scope n) v, find_binding_complete)

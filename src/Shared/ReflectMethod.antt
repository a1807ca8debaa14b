-- ===== src/Shared/ReflectMethod.antt =====
-- shared/reflect-method.ts, and the rules no-reflect-apply and no-reflect-get that it serves.
use zslay.Prelude.{
  Bool, Option, String, false, if◌then◌else◌, is_empty, none, some, true, ℕ, ◌&&◌, ◌==◌, ◌||◌,
}
use zslay.Ast.{SourceCode, as_identifier, as_member, as_string_literal}
use zslay.Shared.Scope.{find_binding}

module _ (s : SourceCode) where
  -- `variable === null || variable.defs.length === 0`
  abbrev pub is_undefined_binding : Option ℕ → Bool
  is_undefined_binding none = true
  is_undefined_binding (some v) = is_empty (s.variable v).defs

  unfoldable pub is_global_reflect : ℕ → Bool
  is_global_reflect n = elim (as_identifier (s.node n)) [
    | none ↦ false
    | some name ↦
        name == "Reflect"
        && (s.is_global_reference n || is_undefined_binding (find_binding name (s.get_scope n)))
  ]

  -- `"property" in callee && "object" in callee && "computed" in callee` holds of a member expression
  unfoldable pub is_global_reflect_method_call : ℕ → String → Bool
  is_global_reflect_method_call callee method_name = elim (as_member (s.node callee)) [
    | none ↦ false
    | some m ↦
        is_global_reflect m.object
        && (if m.computed
            then elim (as_string_literal (s.node m.property)) [
              | none ↦ false
              | some x ↦ x == method_name
            ]
            else elim (as_identifier (s.node m.property)) [
              | none ↦ false
              | some x ↦ x == method_name
            ])
  ]

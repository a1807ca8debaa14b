-- ===== src/Rules/Calls/MockLaws.antt =====
-- no-module-mocking against the syntax of a mock and the bindings of the test framework.
use zslay.Prelude.{
  &&_iff, Bool, Bool-cases, List, List-cases, Memᴰ, Option, Option-cases, String, [], any,
  any-of-mem, arith, eq_iff, false, has_name, inl, inr, mem-of-any, refl, some, true, ||_iff, ℕ,
  ◌&&◌, ◌==◌, ◌||◌, ◌↔◌, ◌∷◌, ◌≡◌, ◌≢◌, ◌⊎◌,
}
use mathlib.Core.List.Memᴰ
use zslay.Ast.{
  Annotation, Definition, Node, SourceCode, as_call, as_call-eq-some, as_identifier,
  as_identifier-eq-some, as_import_source, as_import_specifier, as_member, as_member-eq-some,
  call_expression, identifier, import_declaration, import_specifier, member_expression,
}
use zslay.Shared.Scope.{Visible, resolve_variable, resolve_variable_iff}
use zslay.Shared.ArrayMethod.{static_name}
use zslay.Effect.ServiceImports.{imported_name}
use zslay.Rules.Calls.{
  framework_binding, framework_import, framework_names, is_framework_definition,
  is_test_framework_object, mock_method, module_mock_call, module_mock_methods, no_module_mocking,
  specifier_name,
}

framework_pair :
    (source name : String)
    → framework_import source (some name) ≡ true
    → ((source ≡ "vitest") × (name ≡ "vi")) ⊎ ((source ≡ "@jest/globals") × (name ≡ "jest"))
framework_pair source name h = elim (Bool-cases (source == "vitest" && name == "vi")) [
  | inl q ↦
      let (a, b) = (&&_iff (source == "vitest") (name == "vi")).0 q in
      inl ((eq_iff source "vitest").0 a, (eq_iff name "vi").0 b)
  | inr q ↦
      let (a, b) = (&&_iff (source == "@jest/globals") (name == "jest")).0 (rw q at h) in
      inr ((eq_iff source "@jest/globals").0 a, (eq_iff name "jest").0 b)
]

pair-framework :
    (source name : String)
    → ((source ≡ "vitest") × (name ≡ "vi")) ⊎ ((source ≡ "@jest/globals") × (name ≡ "jest"))
    → framework_import source (some name) ≡ true
pair-framework source name (inl (a, b)) = rw (a, b) refl
pair-framework source name (inr (a, b)) = rw (a, b) refl

as_import_source-eq-some :
    (v : Node) (source : String)
    → as_import_source v ≡ some source
    → (specifiers : List ℕ) × (v ≡ import_declaration source specifiers)
as_import_source-eq-some (import_declaration x specifiers) source e = (specifiers, ground arith)
as_import_source-eq-some _ source e = absurd (ground arith)

as_import_specifier-eq-some :
    (v : Node) (imported : ℕ)
    → as_import_specifier v ≡ some imported
    → (local : ℕ) × (v ≡ import_specifier imported local)
as_import_specifier-eq-some (import_specifier x local) imported e = (local, ground arith)
as_import_specifier-eq-some _ imported e = absurd (ground arith)

module _ (s : SourceCode) where
  -- A definition by `import { vi } from "vitest"` or `import { jest } from "@jest/globals"`, under any local name.
  pub data FrameworkImport (d : Definition) : Type 0 where
    imports :
        {p imported local : ℕ} {source : String} {specifiers : List ℕ}
        → d.type ≡ "ImportBinding"
        → d.parent ≡ some p
        → s.node p ≡ import_declaration source specifiers
        → s.node d.node ≡ import_specifier imported local
        → ((source ≡ "vitest") × (imported_name s imported ≡ "vi"))
          ⊎ ((source ≡ "@jest/globals") × (imported_name s imported ≡ "jest"))
        → FrameworkImport d

  FrameworkImport-sound : (d : Definition) → is_framework_definition s d ≡ true → FrameworkImport d
  unfolding is_framework_definition
  FrameworkImport-sound d h = elim (Option-cases d.parent) [
    | inl e ↦ absurd (ground arith)
    | inr (p, e) ↦ elim (Option-cases (as_import_source (s.node p))) [
      | inl e' ↦ absurd (ground arith)
      | inr (source, e') ↦
          let (specifiers, q) = as_import_source-eq-some (s.node p) source e' in
          let (a, b) =
            (&&_iff (d.type == "ImportBinding")
                (framework_import source (specifier_name s d.node))).0
              (rw (e', is_framework_definition) at (rw (e, is_framework_definition) at h)) in
          elim (Option-cases (as_import_specifier (s.node d.node))) [
            | inl e'' ↦
                let c : false ≡ true = rw (e'', framework_import) at b in absurd (ground arith)
            | inr (imported, e'') ↦
                let (local, q') = as_import_specifier-eq-some (s.node d.node) imported e'' in
                imports ((eq_iff d.type "ImportBinding").0 a) e q q'
                  (framework_pair source (imported_name s imported) (rw (e'', specifier_name) at b))
          ]
    ]
  ]

  FrameworkImport-complete :
      (d : Definition) → FrameworkImport d → is_framework_definition s d ≡ true
  unfolding is_framework_definition
  FrameworkImport-complete d (imports {imported} {source} t e q q' h) =
      rw (e, is_framework_definition)
        (rw (q, is_framework_definition)
          (rw (t, q', specifier_name) (pair-framework source (imported_name s imported) h)))

  -- `vi` or `jest` of the test framework: the global, a name that no scope binds or that has no definition,
  -- or a name that one of the definitions of its binding imports from the framework.
  pub data FrameworkObject (n : ℕ) (name : String) : Type 0 where
    global :
        has_name framework_names name ≡ true
        → s.is_global_reference n ≡ true
        → FrameworkObject n name
    unbound :
        has_name framework_names name ≡ true
        → ((v : ℕ) → Visible name v (s.get_scope n) → ⊥)
        → FrameworkObject n name
    undefined :
        {v : ℕ}
        → has_name framework_names name ≡ true
        → Visible name v (s.get_scope n)
        → (s.variable v).defs ≡ []
        → FrameworkObject n name
    imported :
        {v : ℕ} {d : Definition}
        → Visible name v (s.get_scope n)
        → Memᴰ d (s.variable v).defs
        → FrameworkImport d
        → FrameworkObject n name

  binding_sound :
      (n : ℕ) (name : String)
      → framework_binding s name (resolve_variable s n name) ≡ true
      → FrameworkObject n name
  binding_sound n name h = elim (Option-cases (resolve_variable s n name)) [
    | inl e ↦
        unbound (rw e at h) (λ v r. let q = (resolve_variable_iff s n name v).1 r in ground arith)
    | inr (v, e) ↦ elim (List-cases (s.variable v).defs) [
      | inl q ↦ undefined (rw q at (rw e at h)) ((resolve_variable_iff s n name v).0 e) q
      | inr (d, ds, q) ↦
          let found : any (is_framework_definition s) (d ∷ ds) ≡ true = rw q at (rw e at h) in
          let (x, m, i) = mem-of-any (is_framework_definition s) (d ∷ ds) found in
          imported ((resolve_variable_iff s n name v).0 e) (rw q m) (FrameworkImport-sound x i)
    ]
  ]

  binding_complete :
      (n : ℕ) (name : String)
      → FrameworkObject n name
      → (has_name framework_names name && s.is_global_reference n
          || framework_binding s name (resolve_variable s n name))
        ≡ true
  binding_complete n name (global a b) = rw (a, b) refl
  binding_complete n name (unbound a h) = elim (Option-cases (resolve_variable s n name)) [
    | inl e ↦ rw e (rw a (ground arith))
    | inr (v, e) ↦ absurd (h v ((resolve_variable_iff s n name v).0 e))
  ]
  binding_complete n name (undefined {v} a r e) =
      rw ((resolve_variable_iff s n name v).1 r) (rw e (rw a (ground arith)))
  binding_complete n name (imported {v} {d} r m i) = elim (List-cases (s.variable v).defs) [
    | inl q ↦ absurd (Memᴰ.not-nil (rw q at m))
    | inr (x, xs, q) ↦
        let found =
          any-of-mem (is_framework_definition s) (rw q at m) (FrameworkImport-complete d i) in
        rw ((resolve_variable_iff s n name v).1 r) (rw q (ground (arith, found)))
  ]

  object_sound :
      (n : ℕ)
      → is_test_framework_object s n ≡ true
      → (name : String) × (t : Option Annotation) × (s.node n ≡ identifier name t)
        × FrameworkObject n name
  unfolding is_test_framework_object
  object_sound n h = elim (Option-cases (as_identifier (s.node n))) [
    | inl e ↦ absurd (ground arith)
    | inr (name, e) ↦
        let (t, q) = as_identifier-eq-some (s.node n) name e in
        (
          name,
          t,
          q,
          elim ((||_iff _ _).0 (rw (e, is_test_framework_object) at h)) [
            | inl a ↦ let (b, c) = (&&_iff _ _).0 a in global b c
            | inr a ↦ binding_sound n name a
          ],
        )
  ]

  -- `object.method(…)` or `object["method"](…)`, with a method that mocks a module, of the test framework
  pub data Mocks (n : ℕ) : Type 0 where
    mocks :
        {c o p : ℕ} {args : List ℕ} {b : Bool} {name method : String} {t : Option Annotation}
        → s.node n ≡ call_expression c args
        → s.node c ≡ member_expression o p b
        → s.node o ≡ identifier name t
        → static_name s (record { object = o; property = p; computed = b }) ≡ some method
        → has_name module_mock_methods method ≡ true
        → FrameworkObject o name
        → Mocks n

  Mocks-sound : (n : ℕ) → no_module_mocking s n ≢ [] → Mocks n
  unfolding no_module_mocking module_mock_call is_test_framework_object
  Mocks-sound n h = elim (Option-cases (as_call (s.node n))) [
    | inl e ↦ absurd (h (rw (e, no_module_mocking) refl))
    | inr (call, e) ↦ elim (Bool-cases (module_mock_call s call.callee)) [
      | inr q ↦ absurd (h (rw (e, no_module_mocking) (rw q refl)))
      | inl q ↦ elim (Option-cases (as_member (s.node call.callee))) [
        | inl e' ↦ absurd (ground arith)
        | inr (m, e') ↦
            let (a, b) =
              (&&_iff (is_test_framework_object s m.object) (mock_method s m)).0
                (rw (e', module_mock_call) at q) in
            let (name, t, i, f) = object_sound m.object a in
            elim (Option-cases (static_name s m)) [
              | inl r ↦ let c : false ≡ true = rw (r, mock_method) at b in absurd (ground arith)
              | inr (method, r) ↦
                  mocks (as_call-eq-some (s.node n) call e)
                    (as_member-eq-some (s.node call.callee) m e') i r (rw (r, mock_method) at b) f
            ]
      ]
    ]
  ]

  Mocks-complete : (n : ℕ) → Mocks n → no_module_mocking s n ≢ []
  unfolding no_module_mocking module_mock_call is_test_framework_object
  Mocks-complete n (mocks {o} {name} e e' e'' g k f) =
      let object : is_test_framework_object s o ≡ true =
        rw (e'', is_test_framework_object) (binding_complete o name f) in
      rw (e, no_module_mocking)
        (rw (e', module_mock_call)
          (rw (object) (rw (g, mock_method, k) (λ x. absurd (ground arith)))))

  -- no-module-mocking reports a node exactly when it calls `mock`, `doMock` or `unstable_mockModule`, by name or by
  -- string, on an identifier that is the test framework's: a global or undeclared `vi` or `jest`, or a name whose
  -- binding imports `vi` from vitest or `jest` from @jest/globals, under any local name.
  pub no_module_mocking_iff : (n : ℕ) → (no_module_mocking s n ≢ []) ↔ Mocks n
  no_module_mocking_iff n = (Mocks-sound n, Mocks-complete n)

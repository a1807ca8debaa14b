-- ===== src/Rules/Calls.antt =====
-- rules/no-array-filter-map.ts, rules/no-module-mocking.ts, rules/no-reflect-apply.ts and
-- rules/no-reflect-get.ts. A callee of type `Super` or `V8IntrinsicExpression` is an `other_node`, which no
-- test of a callee accepts.
pub mod FilterMapLaws
pub mod MockLaws
use zslay.Prelude.{
  Bool, List, Option, String, [], any, false, guard, has_name, if◌then◌else◌, none, some, true, ℕ,
  ◌&&◌, ◌==◌, ◌>>=◌, ◌>>◌, ◌||◌, ◌∷◌,
}
use zslay.Ast.{
  Definition, Member, Report, SourceCode, as_call, as_identifier, as_import_source,
  as_import_specifier, as_member, report, report_with,
}
use zslay.Shared.ArrayMethod.{
  Target, array_method_target, is_known_array_expression, static_name, unwrap_array_expression,
}
use zslay.Shared.ReflectMethod.{is_global_reflect_method_call}
use zslay.Shared.Scope.{resolve_variable}
use zslay.Effect.ServiceImports.{imported_name}

-- `outer.name !== "map" && outer.name !== "filter"`, and the method that the inner call has then
abbrev pub other_pass : String → Option String
other_pass name =
    if name == "map" then some "filter" else if name == "filter" then some "map" else none

abbrev pub module_mock_methods : List String
module_mock_methods = "doMock" ∷ "mock" ∷ "unstable_mockModule" ∷ []

abbrev pub framework_names : List String
framework_names = "vi" ∷ "jest" ∷ []

abbrev pub framework_import : String → Option String → Bool
framework_import source none = false
framework_import source (some name) =
    (source == "vitest" && name == "vi") || (source == "@jest/globals" && name == "jest")

module _ (s : SourceCode) where
  -- What `arrayMethodTarget` finds for the callee of a call.
  unfoldable pub called_target : ℕ → Option Target
  called_target n = do call ← as_call (s.node n); array_method_target s call.callee

  -- The two passes, if the methods and the form of the calls fit: the inner target and the outer.
  unfoldable pub adjacent_passes : ℕ → Option (Target × Target)
  adjacent_passes n = do
    second ← called_target n
    wanted ← other_pass second.name
    first ← called_target (unwrap_array_expression s second.object)
    guard (first.name == wanted)
    some (first, second)

  abbrev pub passes_report : ℕ → Target × Target → Bool → List Report
  passes_report n (first, second) true =
      report_with n "arrayFilterMap" (("first", first.name) ∷ ("second", second.name) ∷ [])
  passes_report n (first, second) false = []

  filter_map_in : ℕ → Option (Target × Target) → Option (List Report)
  filter_map_in n none = some []
  filter_map_in n (some passes) = do
    known ← is_known_array_expression s passes.0.object
    some (passes_report n passes known)

  -- `none` where the test for an array does not end.
  unfoldable pub no_array_filter_map : ℕ → Option (List Report)
  unfolding filter_map_in
  no_array_filter_map n = filter_map_in n (adjacent_passes n)

  -- `importedName`
  abbrev pub specifier_name : ℕ → Option String
  specifier_name n = elim (as_import_specifier (s.node n)) [
    | none ↦ none
    | some imported ↦ some (imported_name s imported)
  ]

  abbrev pub import_source : Option ℕ → Option String
  import_source none = none
  import_source (some p) = as_import_source (s.node p)

  unfoldable pub is_framework_definition : Definition → Bool
  is_framework_definition d = elim (import_source d.parent) [
    | none ↦ false
    | some source ↦ d.type == "ImportBinding" && framework_import source (specifier_name d.node)
  ]

  -- the end of `isTestFrameworkObject`, from the variable's definitions
  abbrev pub framework_definitions : String → List Definition → Bool
  framework_definitions name [] = has_name framework_names name
  framework_definitions name (d ∷ ds) = any is_framework_definition (d ∷ ds)

  abbrev pub framework_binding : String → Option ℕ → Bool
  framework_binding name none = has_name framework_names name
  framework_binding name (some v) = framework_definitions name (s.variable v).defs

  unfoldable pub is_test_framework_object : ℕ → Bool
  is_test_framework_object n = elim (as_identifier (s.node n)) [
    | none ↦ false
    | some name ↦
        (has_name framework_names name && s.is_global_reference n)
        || framework_binding name (resolve_variable s n name)
  ]

  abbrev pub mock_method : Member → Bool
  mock_method m = elim (static_name s m) [
    | none ↦ false
    | some name ↦ has_name module_mock_methods name
  ]

  unfoldable pub module_mock_call : ℕ → Bool
  module_mock_call callee = elim (as_member (s.node callee)) [
    | none ↦ false
    | some m ↦ is_test_framework_object m.object && mock_method m
  ]

  unfoldable pub no_module_mocking : ℕ → List Report
  no_module_mocking n = elim (as_call (s.node n)) [
    | none ↦ []
    | some call ↦ if module_mock_call call.callee then report n "moduleMock" else []
  ]

  -- The two rules on calls of `Reflect`: the method that a rule looks for, and its message.
  unfoldable pub reflect_rule : String → String → ℕ → List Report
  reflect_rule method message n = elim (as_call (s.node n)) [
    | none ↦ []
    | some call ↦
        if is_global_reflect_method_call s call.callee method then report n message else []
  ]

  unfoldable pub no_reflect_apply : ℕ → List Report
  unfolding reflect_rule
  no_reflect_apply n = reflect_rule "apply" "reflectApply" n

  unfoldable pub no_reflect_get : ℕ → List Report
  unfolding reflect_rule
  no_reflect_get n = reflect_rule "get" "reflectGet" n

-- ===== src/Tests/WideningTests.antt =====
-- The classification of widening targets, and the rule on known values.
use zslay.Prelude.{
  All, Bool, List, Memᴰ, [], arith, false, if◌then◌else◌, none, refl, some, suc, true, zero, ℕ, ◌<◌,
  ◌==◌, ◌↔◌, ◌∷◌, ◌≡◌,
}
use zslay.Ast.{
  IsScoped, IsTree, Report, Scope, SourceCode, Variable, identifier, literal, program, string_value,
  ts_keyword, ts_number_keyword, ts_string_keyword, ts_type_alias_declaration, ts_type_parameter,
  ts_type_reference, ts_unknown_keyword, variable_declaration, variable_declarator, walk,
}
use zslay.Tests.Sample.{Entry, no_scope, source_of, source_of-IsTree, variable_at}
use zslay.Shared.Scope.{find_binding}
use zslay.Shared.Bindings.{chase}
use zslay.Shared.LexicalTypeParameters.{lexical_names, lexical_type_parameter_names}
use zslay.Shared.TypeAlias.{
  ancestor_distance, has_visible_type_binding, nearest_from, nearest_type_bindings,
  visible_type_alias,
}
use zslay.Shared.DictionaryTypes.{
  TypeEnvironment, alias_substitution, argument, is_built_in, is_unapplied_reference_to,
  resolved_substitution_argument, resolved_within, set_arguments, unwrap_transparent_type,
}
use zslay.Shared.DictionaryTypes.EvidenceExpressions.{is_known_evidence_expression}
use zslay.Shared.DictionaryTypes.UnsafeValues.{
  classify_unsafe_dictionary_value, unsafe_value_within, value_plan,
}
use zslay.Shared.DictionaryTypes.WideningTargets.{
  broad_key_within, broad_plan, broad_target_within, classify_widening_target, generic_container,
  key_plan, unknown_target, widening_plan,
}
use zslay.Rules.KnownValueWidening.{
  has_known_evidence, is_empty_object_literal, is_stable_const_variable, named_variable,
  report_flow, stable_initializer, unwrap_expression, variable_declarator_of,
  variable_type_annotation,
}
use zslay.Rules.KnownValueWidening.CallArguments.{
  has_informative_type, has_known_call_argument_evidence,
}
use zslay.Rules.KnownValueWidening.EvidenceLaws.{KnownEvidence, has_known_evidence_iff}
use zslay.Rules.KnownValueWidening.FlowLaws.{Widened, report_flow_iff}
use zslay.Rules.KnownValueWidening.KnownHereLaws.{KnownArgument}
use zslay.Rules.KnownValueWidening.ArgumentLaws.{has_known_call_argument_evidence_iff}
use zslay.Rules.KnownValueWidening.Handlers.{
  flow_into, no_known_value_widening, on_variable_declarator, target_from_annotation,
}

-- type Box<V> = Record<string, V>; const y: Box<number>;
abbrev generic : List Entry
generic =
    (identifier "Box" none, 8 ∷ 15 ∷ [])
    ∷ (identifier "V" none, 2 ∷ 8 ∷ 15 ∷ [])
    ∷ (ts_type_parameter 1 none none, 8 ∷ 15 ∷ [])
    ∷ (identifier "Record" none, 7 ∷ 8 ∷ 15 ∷ [])
    ∷ (ts_keyword ts_string_keyword, 7 ∷ 8 ∷ 15 ∷ [])
    ∷ (identifier "V" none, 6 ∷ 7 ∷ 8 ∷ 15 ∷ [])
    ∷ (ts_type_reference 5 [], 7 ∷ 8 ∷ 15 ∷ [])
    ∷ (ts_type_reference 3 (4 ∷ 6 ∷ []), 8 ∷ 15 ∷ [])
    ∷ (ts_type_alias_declaration 0 (2 ∷ []) 7, 15 ∷ [])
    ∷ (identifier "Box" none, 11 ∷ 12 ∷ 13 ∷ 14 ∷ 15 ∷ [])
    ∷ (ts_keyword ts_number_keyword, 11 ∷ 12 ∷ 13 ∷ 14 ∷ 15 ∷ [])
    ∷ (ts_type_reference 9 (10 ∷ []), 12 ∷ 13 ∷ 14 ∷ 15 ∷ [])
    ∷ (identifier "y" (some (record { start = 9; type_annotation = 11 })), 13 ∷ 14 ∷ 15 ∷ [])
    ∷ (variable_declarator 12 none, 14 ∷ 15 ∷ [])
    ∷ (variable_declaration "const" (13 ∷ []), 15 ∷ [])
    ∷ (program (8 ∷ 14 ∷ []), [])
    ∷ []

abbrev generic_source : SourceCode
generic_source = source_of generic [] no_scope

abbrev generic_environment : TypeEnvironment
generic_environment = record {
  interfaces = [];
  type_aliases = record { alias = some 8; name = "Box"; scope = 15 } ∷ [];
}

generic_run :
    classify_widening_target generic_source generic_environment 40 11
    ≡ some (some generic_container)
unfolding classify_widening_target widening_plan broad_target_within broad_plan broad_key_within
    key_plan visible_type_alias nearest_type_bindings nearest_from ancestor_distance
    has_visible_type_binding argument unwrap_transparent_type is_built_in is_unapplied_reference_to
    walk lexical_type_parameter_names lexical_names alias_substitution set_arguments
    resolved_substitution_argument resolved_within
generic_run = refl

-- const x = "a"; const y: unknown = x;
abbrev pub known : List Entry
known =
    (identifier "x" none, 2 ∷ 3 ∷ 9 ∷ [])
    ∷ (literal (string_value "a"), 2 ∷ 3 ∷ 9 ∷ [])
    ∷ (variable_declarator 0 (some 1), 3 ∷ 9 ∷ [])
    ∷ (variable_declaration "const" (2 ∷ []), 9 ∷ [])
    ∷ (ts_keyword ts_unknown_keyword, 5 ∷ 7 ∷ 8 ∷ 9 ∷ [])
    ∷ (identifier "y" (some (record { start = 4; type_annotation = 4 })), 7 ∷ 8 ∷ 9 ∷ [])
    ∷ (identifier "x" none, 7 ∷ 8 ∷ 9 ∷ [])
    ∷ (variable_declarator 5 (some 6), 8 ∷ 9 ∷ [])
    ∷ (variable_declaration "const" (7 ∷ []), 9 ∷ [])
    ∷ (program (3 ∷ 8 ∷ []), [])
    ∷ []

abbrev x_scope : Scope
x_scope name = if name == "x" then some 0 else none

abbrev x_variables : List Variable
x_variables =
    record {
      name = "x";
      identifiers = 0 ∷ [];
      defs = record { type = "Variable"; node = 2; parent = some 3 } ∷ [];
      references = record { identifier = 0; is_write = true; init = true; resolved = some 0 } ∷ [];
    }
    ∷ []

abbrev pub known_source : SourceCode
known_source = source_of known x_variables x_scope

known_source-IsTree : IsTree known_source
known_source-IsTree = source_of-IsTree known x_variables x_scope (omega arith) (ground arith)

x_defined : (v : ℕ) → All (λ d. d.node < 100) (variable_at x_variables v).defs
x_defined zero = (omega arith, tt)
x_defined (suc v) = tt

pub known_source-IsScoped : IsScoped known_source
known_source-IsScoped = record {
  tree = known_source-IsTree;
  bound = λ n. ((λ name v h. ground arith), tt);
  defined = x_defined;
}

abbrev pub plain_environment : TypeEnvironment
plain_environment = record { interfaces = []; type_aliases = [] }

abbrev y_report : Report
y_report = record {
  node = 6;
  message_id = "widening";
  placeholders = ("subject", "binding `y`") ∷ ("target", "unknown") ∷ [];
}

known_run :
    (has_known_evidence known_source 6 ≡ some true)
    × (has_known_evidence known_source 5 ≡ some false)
    × (has_known_call_argument_evidence known_source plain_environment 3 6 ≡ some true)
    × (no_known_value_widening known_source 3 (some plain_environment) 7 ≡ some (y_report ∷ []))
    × (no_known_value_widening known_source 3 (some plain_environment) 2 ≡ some [])
unfolding has_known_evidence chase is_known_evidence_expression walk unwrap_expression
    named_variable find_binding stable_initializer variable_declarator_of is_stable_const_variable
    has_known_call_argument_evidence variable_type_annotation no_known_value_widening
    on_variable_declarator flow_into target_from_annotation classify_widening_target widening_plan
    unwrap_transparent_type report_flow is_empty_object_literal
known_run = (refl, refl, refl, refl, refl)

-- Every type of the program is classified.
pub known-answers :
    (t : ℕ) → (b : Bool) × (has_informative_type known_source plain_environment 3 t ≡ some b)
unfolding has_informative_type classify_unsafe_dictionary_value unsafe_value_within value_plan
    unwrap_transparent_type walk
known-answers zero = (true, refl)
known-answers (suc zero) = (true, refl)
known-answers (suc (suc zero)) = (true, refl)
known-answers (suc (suc (suc zero))) = (true, refl)
known-answers (suc (suc (suc (suc zero)))) = (false, refl)
known-answers (suc (suc (suc (suc (suc zero))))) = (true, refl)
known-answers (suc (suc (suc (suc (suc (suc zero)))))) = (true, refl)
known-answers (suc (suc (suc (suc (suc (suc (suc zero))))))) = (true, refl)
known-answers (suc (suc (suc (suc (suc (suc (suc (suc zero)))))))) = (true, refl)
known-answers (suc (suc (suc (suc (suc (suc (suc (suc (suc zero))))))))) = (true, refl)
known-answers (suc (suc (suc (suc (suc (suc (suc (suc (suc (suc t)))))))))) = (true, refl)

has_known_evidence_example :
    ((b : Bool) × (has_known_evidence known_source 6 ≡ some b))
    × ((has_known_evidence known_source 6 ≡ some true) ↔ KnownEvidence known_source 6)
has_known_evidence_example = has_known_evidence_iff known_source known_source-IsScoped 6

report_flow_example :
    (reports : List Report) × (report_flow known_source 6 (some unknown_target) "binding `y`"
      ≡ some reports)
    × ((r : Report) → Memᴰ r reports ↔ Widened known_source 6 (some unknown_target) "binding `y`" r)
report_flow_example =
    report_flow_iff known_source known_source-IsScoped 6 (some unknown_target) "binding `y`"

has_known_call_argument_evidence_example :
    ((b : Bool) × (has_known_call_argument_evidence known_source plain_environment 3 6 ≡ some b))
    × ((has_known_call_argument_evidence known_source plain_environment 3 6 ≡ some true)
        ↔ KnownArgument known_source plain_environment 3 6)
has_known_call_argument_evidence_example =
    has_known_call_argument_evidence_iff known_source plain_environment 3 known-answers
      known_source-IsScoped 6

-- ===== src/Tests/DictionaryTests.antt =====
-- The rule on unsafe dictionaries, where one stands in another.
use zslay.Prelude.{List, [], none, refl, some, ◌∷◌, ◌≡◌, ◌≢◌}
use zslay.Ast.{
  Report, SourceCode, identifier, program, ts_any_keyword, ts_keyword, ts_string_keyword,
  ts_type_alias_declaration, ts_type_reference, ts_union_type, ts_unknown_keyword, walk,
}
use zslay.Tests.Sample.{Entry, no_scope, source_of}
use zslay.Shared.LexicalTypeParameters.{lexical_names, lexical_type_parameter_names}
use zslay.Shared.TypeAlias.{
  ancestor_distance, has_visible_type_binding, nearest_from, nearest_type_bindings,
  visible_type_alias,
}
use zslay.Shared.DictionaryTypes.{
  TypeEnvironment, argument, is_built_in, is_effectively_empty_interface, is_unapplied_reference_to,
  unwrap_transparent_type,
}
use zslay.Shared.DictionaryTypes.UnsafeValues.{
  classify_unsafe_dictionary, dictionary_plan, dictionary_values_within, union_value,
  unsafe_value_within, value_plan,
}
use zslay.Rules.Dictionaries.{
  alias_declaration_around, constraint_around, is_inside_type_alias_declaration,
  is_inside_type_parameter_constraint, is_plain_alias_consumer_use, is_unsafe_type,
  no_unsafe_dictionary_type, outermost_unsafe, report_if_unsafe, should_report_type,
}
use zslay.Rules.Dictionaries.NestLaws.{further, here, no_report_within}

-- type D = Record<string, unknown | Record<string, any>>;
abbrev nested : List Entry
nested =
    (identifier "D" none, 10 ∷ 11 ∷ [])
    ∷ (identifier "Record" none, 9 ∷ 10 ∷ 11 ∷ [])
    ∷ (ts_keyword ts_string_keyword, 9 ∷ 10 ∷ 11 ∷ [])
    ∷ (ts_keyword ts_unknown_keyword, 8 ∷ 9 ∷ 10 ∷ 11 ∷ [])
    ∷ (identifier "Record" none, 7 ∷ 8 ∷ 9 ∷ 10 ∷ 11 ∷ [])
    ∷ (ts_keyword ts_string_keyword, 7 ∷ 8 ∷ 9 ∷ 10 ∷ 11 ∷ [])
    ∷ (ts_keyword ts_any_keyword, 7 ∷ 8 ∷ 9 ∷ 10 ∷ 11 ∷ [])
    ∷ (ts_type_reference 4 (5 ∷ 6 ∷ []), 8 ∷ 9 ∷ 10 ∷ 11 ∷ [])
    ∷ (ts_union_type (3 ∷ 7 ∷ []), 9 ∷ 10 ∷ 11 ∷ [])
    ∷ (ts_type_reference 1 (2 ∷ 8 ∷ []), 10 ∷ 11 ∷ [])
    ∷ (ts_type_alias_declaration 0 [] 9, 11 ∷ [])
    ∷ (program (10 ∷ []), [])
    ∷ []

abbrev nested_source : SourceCode
nested_source = source_of nested [] no_scope

abbrev nested_environment : TypeEnvironment
nested_environment = record {
  interfaces = [];
  type_aliases = record { alias = some 10; name = "D"; scope = 11 } ∷ [];
}

abbrev union_report : Report
union_report = record {
  node = 9;
  message_id = "unsafeDictionary";
  placeholders = ("value", "union") ∷ [];
}

nested_run :
    (classify_unsafe_dictionary nested_source nested_environment 40 9 ≡ some (some union_value))
    × (no_unsafe_dictionary_type nested_source 40 (some nested_environment) 9
        ≡ some (union_report ∷ []))
    × (no_unsafe_dictionary_type nested_source 40 (some nested_environment) 7 ≡ some [])
unfolding no_unsafe_dictionary_type report_if_unsafe should_report_type outermost_unsafe
    is_unsafe_type is_inside_type_parameter_constraint constraint_around is_plain_alias_consumer_use
    is_inside_type_alias_declaration alias_declaration_around classify_unsafe_dictionary
    dictionary_values_within dictionary_plan unsafe_value_within value_plan visible_type_alias
    nearest_type_bindings nearest_from ancestor_distance has_visible_type_binding argument
    unwrap_transparent_type is_built_in is_unapplied_reference_to is_effectively_empty_interface
    walk lexical_type_parameter_names lexical_names
nested_run = (refl, refl, refl)

no_report_within_example :
    report_if_unsafe nested_source 40 nested_environment 7 ≢ some (union_report ∷ [])
no_report_within_example =
    no_report_within nested_source 40 nested_environment 9 7 union_value union_report [] refl
      nested_run.0 (further refl (here refl))

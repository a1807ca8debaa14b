-- ===== src/Tests/TypeTests.antt =====
-- The classification of dictionary types on small programs.
use zslay.Prelude.{List, Memᴰ, Option, [], arith, none, refl, some, ℕ, ◌↔◌, ◌∷◌, ◌≡◌}
use mathlib.Core.List.Memᴰ
use zslay.Ast.{
  IsTree, SourceCode, identifier, program, ts_keyword, ts_number_keyword, ts_string_keyword,
  ts_type_alias_declaration, ts_type_parameter, ts_type_reference, ts_union_type,
  ts_unknown_keyword, walk,
}
use zslay.Tests.Sample.{Entry, no_scope, source_of, source_of-IsTree}
use zslay.Shared.LexicalTypeParameters.{lexical_names, lexical_type_parameter_names}
use zslay.Shared.TypeAlias.{
  ancestor_distance, as_alias, create_type_alias_environment, declared_type_binding,
  enclosing_type_scope, has_visible_type_binding, nearest_from, nearest_type_bindings,
  visible_type_alias,
}
use zslay.Shared.TypeAlias.CollectLaws.{Descendant, create_type_alias_environment_iff}
use zslay.Shared.DictionaryTypes.{
  TypeEnvironment, alias_substitution, argument, create_type_environment, is_built_in,
  is_effectively_empty_interface, is_unapplied_reference_to, resolved_substitution_argument,
  resolved_within, set_arguments, unwrap_transparent_type,
}
use zslay.Shared.DictionaryTypes.ArgumentLaws.{Resolves, resolved_substitution_argument_iff}
use zslay.Shared.DictionaryTypes.AliasLaws.{IsMonomorphic}
use zslay.Shared.DictionaryTypes.UnsafeValues.{
  classify_unsafe_dictionary, classify_unsafe_dictionary_value, dictionary_plan,
  dictionary_values_within, unsafe_value_within, value_plan,
}
use zslay.Shared.DictionaryTypes.UnsafeValues.EndLaws.{Answers}
use zslay.Shared.DictionaryTypes.UnsafeValues.DictionaryEndLaws.{classify_unsafe_dictionary_ends}
use zslay.Shared.DictionaryTypes.WideningTargets.{WideningTarget, classify_widening_target}
use zslay.Shared.DictionaryTypes.WideningTargets.ExactLaws.{classify_widening_target_exact}
use zslay.Shared.DictionaryTypes.WideningTargets.Targets.{WidensTo}
use zslay.Shared.DictionaryTypes.UnsafeValues.LoopLaws.{unsafe_value_never_ends}

-- type A<T> = T; type B<T> = Record<string, A<T | string>>; type C = B<number>;
abbrev looping : List Entry
looping =
    (identifier "A" none, 5 ∷ 24 ∷ [])
    ∷ (identifier "T" none, 2 ∷ 5 ∷ 24 ∷ [])
    ∷ (ts_type_parameter 1 none none, 5 ∷ 24 ∷ [])
    ∷ (identifier "T" none, 4 ∷ 5 ∷ 24 ∷ [])
    ∷ (ts_type_reference 3 [], 5 ∷ 24 ∷ [])
    ∷ (ts_type_alias_declaration 0 (2 ∷ []) 4, 24 ∷ [])
    ∷ (identifier "B" none, 18 ∷ 24 ∷ [])
    ∷ (identifier "T" none, 8 ∷ 18 ∷ 24 ∷ [])
    ∷ (ts_type_parameter 7 none none, 18 ∷ 24 ∷ [])
    ∷ (identifier "Record" none, 17 ∷ 18 ∷ 24 ∷ [])
    ∷ (ts_keyword ts_string_keyword, 17 ∷ 18 ∷ 24 ∷ [])
    ∷ (identifier "A" none, 16 ∷ 17 ∷ 18 ∷ 24 ∷ [])
    ∷ (identifier "T" none, 13 ∷ 15 ∷ 16 ∷ 17 ∷ 18 ∷ 24 ∷ [])
    ∷ (ts_type_reference 12 [], 15 ∷ 16 ∷ 17 ∷ 18 ∷ 24 ∷ [])
    ∷ (ts_keyword ts_string_keyword, 15 ∷ 16 ∷ 17 ∷ 18 ∷ 24 ∷ [])
    ∷ (ts_union_type (13 ∷ 14 ∷ []), 16 ∷ 17 ∷ 18 ∷ 24 ∷ [])
    ∷ (ts_type_reference 11 (15 ∷ []), 17 ∷ 18 ∷ 24 ∷ [])
    ∷ (ts_type_reference 9 (10 ∷ 16 ∷ []), 18 ∷ 24 ∷ [])
    ∷ (ts_type_alias_declaration 6 (8 ∷ []) 17, 24 ∷ [])
    ∷ (identifier "C" none, 23 ∷ 24 ∷ [])
    ∷ (identifier "B" none, 22 ∷ 23 ∷ 24 ∷ [])
    ∷ (ts_keyword ts_number_keyword, 22 ∷ 23 ∷ 24 ∷ [])
    ∷ (ts_type_reference 20 (21 ∷ []), 23 ∷ 24 ∷ [])
    ∷ (ts_type_alias_declaration 19 [] 22, 24 ∷ [])
    ∷ (program (5 ∷ 18 ∷ 23 ∷ []), [])
    ∷ []

abbrev looping_source : SourceCode
looping_source = source_of looping [] no_scope

looping_source-IsTree : IsTree looping_source
looping_source-IsTree = source_of-IsTree looping [] no_scope (omega arith) (ground arith)

abbrev looping_environment : TypeEnvironment
looping_environment = record {
  interfaces = [];
  type_aliases =
      record { alias = some 5; name = "A"; scope = 24 }
      ∷ record { alias = some 18; name = "B"; scope = 24 }
      ∷ record { alias = some 23; name = "C"; scope = 24 }
      ∷ [];
}

environment_run : create_type_environment looping_source 24 ≡ looping_environment
unfolding create_type_environment create_type_alias_environment declared_type_binding
    enclosing_type_scope
environment_run = refl

-- No amount of fuel that was tried is enough for the alias `C`.
looping_run : classify_unsafe_dictionary looping_source looping_environment 30 22 ≡ none
unfolding classify_unsafe_dictionary dictionary_values_within dictionary_plan unsafe_value_within
    value_plan visible_type_alias nearest_type_bindings nearest_from ancestor_distance
    has_visible_type_binding argument unwrap_transparent_type is_built_in is_unapplied_reference_to
    resolved_within resolved_substitution_argument set_arguments alias_substitution
    is_effectively_empty_interface walk lexical_type_parameter_names lexical_names
looping_run = refl

unsafe_value_never_ends_example :
    unsafe_value_within looping_source looping_environment 1000 (("T", 15) ∷ []) ("A" ∷ []) 15
    ≡ none
unfolding unwrap_transparent_type walk argument is_built_in
unsafe_value_never_ends_example =
    unsafe_value_never_ends looping_source looping_environment (("T", 15) ∷ []) ("A" ∷ []) "T" 15 13
      12 (14 ∷ []) [] refl refl refl refl refl 1000

create_type_alias_environment_example :
    Memᴰ
      (record { alias = some 18; name = "B"; scope = 24 })
      (create_type_alias_environment looping_source 24)
    ↔ ((d : ℕ) × Descendant looping_source 24 d
        × (declared_type_binding looping_source d
            ≡ some (record { alias = some 18; name = "B"; scope = 24 })))
create_type_alias_environment_example =
    create_type_alias_environment_iff looping_source looping_source-IsTree 24
      (record { alias = some 18; name = "B"; scope = 24 })

resolved_substitution_argument_example :
    (resolved_substitution_argument looping_source (("T", 21) ∷ []) 13 ≡ 21)
    ↔ Resolves looping_source (("T", 21) ∷ []) [] 13 21
resolved_substitution_argument_example =
    resolved_substitution_argument_iff looping_source (("T", 21) ∷ []) 13 21

-- type D = Record<string, unknown>;
abbrev plain : List Entry
plain =
    (identifier "D" none, 5 ∷ 6 ∷ [])
    ∷ (identifier "Record" none, 4 ∷ 5 ∷ 6 ∷ [])
    ∷ (ts_keyword ts_string_keyword, 4 ∷ 5 ∷ 6 ∷ [])
    ∷ (ts_keyword ts_unknown_keyword, 4 ∷ 5 ∷ 6 ∷ [])
    ∷ (ts_type_reference 1 (2 ∷ 3 ∷ []), 5 ∷ 6 ∷ [])
    ∷ (ts_type_alias_declaration 0 [] 4, 6 ∷ [])
    ∷ (program (5 ∷ []), [])
    ∷ []

abbrev plain_source : SourceCode
plain_source = source_of plain [] no_scope

plain_source-IsTree : IsTree plain_source
plain_source-IsTree = source_of-IsTree plain [] no_scope (omega arith) (ground arith)

abbrev plain_environment : TypeEnvironment
plain_environment = record {
  interfaces = [];
  type_aliases = record { alias = some 5; name = "D"; scope = 6 } ∷ [];
}

plain_aliases : plain_environment.type_aliases ≡ create_type_alias_environment plain_source 6
unfolding create_type_alias_environment declared_type_binding enclosing_type_scope
plain_aliases = refl

plain_source-IsMonomorphic : IsMonomorphic plain_source plain_environment.type_aliases
plain_source-IsMonomorphic b a alias m e q =
    let same = Memᴰ.eq_of_singleton m in go a (rw same at e) q
  where
    go :
        (a : ℕ)
        → some 5 ≡ some a
        → as_alias (plain_source.node a) ≡ some alias
        → alias.parameters ≡ []
    go a e q =
        let five : 5 ≡ a = ground arith in
        let r : some (record { id = 0; parameters = []; type_annotation = 4 }) ≡ some alias =
          rw (← five) at q in
        ground arith

classify_unsafe_dictionary_ends_example :
    Answers (classify_unsafe_dictionary plain_source plain_environment 1000 4)
    × Answers (classify_unsafe_dictionary_value plain_source plain_environment 1000 4)
classify_unsafe_dictionary_ends_example =
    classify_unsafe_dictionary_ends plain_source plain_source-IsTree plain_environment 6
      plain_aliases plain_source-IsMonomorphic 4 1000 (omega arith)

classify_widening_target_exact_example :
    (o : Option WideningTarget) × (classify_widening_target plain_source plain_environment 1000 4
      ≡ some o)
    × ((x : WideningTarget) → (o ≡ some x) ↔ WidensTo plain_source plain_environment 4 x)
classify_widening_target_exact_example =
    classify_widening_target_exact plain_source plain_source-IsTree plain_environment 6
      plain_aliases plain_source-IsMonomorphic 4 1000 (omega arith)

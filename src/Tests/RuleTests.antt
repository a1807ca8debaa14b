-- ===== src/Tests/RuleTests.antt =====
-- The generic rules on small programs.
use zslay.Prelude.{
  ◌<◌, List, Memᴰ, [], arith, filter, none, refl, some, true, ℕ, ◌↔◌, ◌∷◌, ◌≡◌, ◌≢◌, ◌⊎◌,
}
use zslay.Ast.{
  walk, Annotation, FunctionKind, FunctionParts, IsTree, SourceCode, block_statement, function,
  function_declaration, identifier, program, report_with, report, ts_keyword, ts_string_keyword,
  ts_type_alias_declaration, ts_type_parameter, ts_type_reference, ts_union_type,
  ts_unknown_keyword,
}
use zslay.Tests.Sample.{Entry, no_scope, source_of, source_of-IsTree}
use zslay.Shared.TypeAlias.{
  TypeBinding, ancestor_distance, candidates, create_type_alias_environment, declared_type_binding,
  enclosing_type_scope, nearest_from, nearest_type_bindings, scope_distance, visible_type_alias,
}
use zslay.Shared.TypeAlias.NearestLaws.{IsFar, IsLeast, at_distance, nearest_type_bindings_lem}
use zslay.Shared.TypeAlias.Resolve.{
  alias_substitutions, bind_parameters, depth, lookup, no_substitution, plan, resolved_type_matches,
}
use zslay.Shared.TypeAlias.Resolve.MatchLaws.{Matches, matcher_of, resolved_type_matches_iff}
use zslay.Shared.LexicalTypeParameters.{lexical_names, lexical_type_parameter_names}
use zslay.Shared.FunctionParameters.{
  contains_unknown_type, contains_unknown_within, function_parameter_binding_name,
  function_parameter_type_annotation,
}
use zslay.Rules.UnknownTypes.{
  check_object_parameter, no_object_parameters, check_unknown_parameter, enter_program,
  is_type_predicate_subject, no_unknown_parameters, no_unknown_returns, no_unknown_type_aliases,
  resolves_to,
}
use zslay.Rules.UnknownTypes.ObjectLaws.{ObjectParameter, no_object_parameters_iff}
use zslay.Rules.UnknownTypes.ParameterLaws.{UnknownParameter, no_unknown_parameters_iff}
use zslay.Rules.UnknownTypes.ResolveLaws.{
  Spells, alternatives, alternatives_below, awaited, is_unknown, no_unknown_returns_iff,
  no_unknown_type_aliases_iff,
}

-- type Hidden<T> = T | string;
-- function load(input: unknown): Promise<Hidden<unknown>> { }
abbrev hidden : List Entry
hidden =
    (identifier "Hidden" none, 7 ∷ 18 ∷ [])
    ∷ (identifier "T" none, 2 ∷ 7 ∷ 18 ∷ [])
    ∷ (ts_type_parameter 1 none none, 7 ∷ 18 ∷ [])
    ∷ (identifier "T" none, 4 ∷ 6 ∷ 7 ∷ 18 ∷ [])
    ∷ (ts_type_reference 3 [], 6 ∷ 7 ∷ 18 ∷ [])
    ∷ (ts_keyword ts_string_keyword, 6 ∷ 7 ∷ 18 ∷ [])
    ∷ (ts_union_type (4 ∷ 5 ∷ []), 7 ∷ 18 ∷ [])
    ∷ (ts_type_alias_declaration 0 (2 ∷ []) 6, 18 ∷ [])
    ∷ (identifier "load" none, 17 ∷ 18 ∷ [])
    ∷ (identifier "Promise" none, 13 ∷ 17 ∷ 18 ∷ [])
    ∷ (identifier "Hidden" none, 12 ∷ 13 ∷ 17 ∷ 18 ∷ [])
    ∷ (ts_keyword ts_unknown_keyword, 12 ∷ 13 ∷ 17 ∷ 18 ∷ [])
    ∷ (ts_type_reference 10 (11 ∷ []), 13 ∷ 17 ∷ 18 ∷ [])
    ∷ (ts_type_reference 9 (12 ∷ []), 17 ∷ 18 ∷ [])
    ∷ (ts_keyword ts_unknown_keyword, 15 ∷ 17 ∷ 18 ∷ [])
    ∷ (identifier "input" (some (record { start = 5; type_annotation = 14 })), 17 ∷ 18 ∷ [])
    ∷ (block_statement [], 17 ∷ 18 ∷ [])
    ∷ (
      function function_declaration (record {
        id = some 8;
        type_parameters = [];
        params = 15 ∷ [];
        return_type = some (record { start = 9; type_annotation = 13 });
        body = some 16;
      }),
      18 ∷ [],
    )
    ∷ (program (7 ∷ 17 ∷ []), [])
    ∷ []

abbrev hidden_source : SourceCode
hidden_source = source_of hidden [] no_scope

hidden_source-IsTree : IsTree hidden_source
hidden_source-IsTree = source_of-IsTree hidden [] no_scope (omega arith) (ground arith)

abbrev hidden_environment : List TypeBinding
hidden_environment = record { alias = some 7; name = "Hidden"; scope = 18 } ∷ []

enter_program_run : enter_program hidden_source 18 ≡ some hidden_environment
unfolding enter_program create_type_alias_environment declared_type_binding enclosing_type_scope
enter_program_run = refl

no_unknown_returns_run :
    no_unknown_returns hidden_source (some hidden_environment) 17 ≡ report 13 "unknownReturn"
unfolding no_unknown_returns resolves_to resolved_type_matches plan visible_type_alias
    lexical_type_parameter_names lexical_names nearest_type_bindings nearest_from ancestor_distance
    alias_substitutions bind_parameters lookup depth
no_unknown_returns_run = refl

no_unknown_parameters_run :
    no_unknown_parameters hidden_source 17
    ≡ report_with 14 "unknownParameter" (("parameter", "input") ∷ [])
unfolding no_unknown_parameters check_unknown_parameter contains_unknown_type
    contains_unknown_within function_parameter_type_annotation function_parameter_binding_name
    is_type_predicate_subject walk
no_unknown_parameters_run = refl

nearest_type_bindings_example :
    (IsFar
        (scope_distance hidden_source hidden_environment 12)
        (candidates hidden_source hidden_environment "Hidden")
      × (nearest_type_bindings hidden_source hidden_environment "Hidden" 12 ≡ []))
    ⊎ ((d : ℕ) × IsLeast
          (scope_distance hidden_source hidden_environment 12)
          d
          (candidates hidden_source hidden_environment "Hidden")
        × (nearest_type_bindings hidden_source hidden_environment "Hidden" 12
            ≡ filter
                (at_distance (scope_distance hidden_source hidden_environment 12) d)
                (candidates hidden_source hidden_environment "Hidden")))
nearest_type_bindings_example =
    nearest_type_bindings_lem hidden_source hidden_environment "Hidden" 12

hidden_below : (t c : ℕ) → Memᴰ c (alternatives (hidden_source.node t)) → c < t
hidden_below t c m = alternatives_below t (hidden_source.node t) c (hidden_source-IsTree.below t) m

resolved_type_matches_example :
    (resolved_type_matches hidden_source hidden_environment
        (matcher_of hidden_source hidden_environment is_unknown alternatives)
        12
      ≡ true)
    ↔ Matches hidden_source hidden_environment is_unknown alternatives no_substitution [] 12
resolved_type_matches_example =
    resolved_type_matches_iff hidden_source hidden_environment is_unknown alternatives hidden_below
      12

no_unknown_returns_example :
    (no_unknown_returns hidden_source (some hidden_environment) 17 ≢ []) ↔ (
      (k : FunctionKind) × (f : FunctionParts) × (a : Annotation) × (hidden_source.node 17
        ≡ function k f)
      × (f.return_type ≡ some a)
      × Spells hidden_source hidden_environment is_unknown
          (awaited hidden_source)
          a.type_annotation)
no_unknown_returns_example =
    no_unknown_returns_iff hidden_source hidden_environment hidden_source-IsTree 17

no_unknown_type_aliases_example :
    (no_unknown_type_aliases hidden_source (some hidden_environment) 7 ≢ []) ↔ (
      (i t : ℕ) × (ps : List ℕ) × (hidden_source.node 7 ≡ ts_type_alias_declaration i ps t)
      × Spells hidden_source hidden_environment is_unknown alternatives t)
no_unknown_type_aliases_example =
    no_unknown_type_aliases_iff hidden_source hidden_environment hidden_source-IsTree 7

no_unknown_parameters_example :
    Memᴰ
      (record {
        node = 14;
        message_id = "unknownParameter";
        placeholders = ("parameter", "input") ∷ [];
      })
      (no_unknown_parameters hidden_source 17)
    ↔ UnknownParameter hidden_source 17 (record {
      node = 14;
      message_id = "unknownParameter";
      placeholders = ("parameter", "input") ∷ [];
    })
no_unknown_parameters_example =
    no_unknown_parameters_iff hidden_source hidden_source-IsTree 17 (record {
      node = 14;
      message_id = "unknownParameter";
      placeholders = ("parameter", "input") ∷ [];
    })

no_object_parameters_run : no_object_parameters hidden_source (some hidden_environment) 17 ≡ []
unfolding no_object_parameters check_object_parameter resolves_to resolved_type_matches plan
    function_parameter_type_annotation walk depth
no_object_parameters_run = refl

no_object_parameters_example :
    Memᴰ
      (record {
        node = 14;
        message_id = "objectParameter";
        placeholders = ("parameter", "input") ∷ [];
      })
      (no_object_parameters hidden_source (some hidden_environment) 17)
    ↔ ObjectParameter hidden_source hidden_environment 17 (record {
      node = 14;
      message_id = "objectParameter";
      placeholders = ("parameter", "input") ∷ [];
    })
no_object_parameters_example =
    no_object_parameters_iff hidden_source hidden_environment hidden_source-IsTree 17 (record {
      node = 14;
      message_id = "objectParameter";
      placeholders = ("parameter", "input") ∷ [];
    })

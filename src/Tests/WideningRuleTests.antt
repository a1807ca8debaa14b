-- ===== src/Tests/WideningRuleTests.antt =====
-- The rule on known values on a whole program.
use zslay.Prelude.{List, Memᴰ, Option, [], arith, none, refl, some, suc, zero, ℕ, ◌↔◌, ◌≡◌, ◌≤◌}
use mathlib.Core.List.Memᴰ
use zslay.Ast.{Report, other_node, variable_declarator, walk}
use zslay.Tests.Sample.{entry_at-outside}
use zslay.Tests.WideningTests.{
  known, known-answers, known_source, known_source-IsScoped, plain_environment,
}
use zslay.Shared.TypeAlias.{
  create_type_alias_environment, declared_type_binding, enclosing_type_scope,
}
use zslay.Shared.DictionaryTypes.{unwrap_transparent_type}
use zslay.Shared.DictionaryTypes.AliasLaws.{IsMonomorphic}
use zslay.Shared.DictionaryTypes.WideningTargets.{
  WideningTarget, classify_widening_target, unknown_target, widening_plan,
}
use zslay.Rules.KnownValueWidening.Handlers.{no_known_value_widening}
use zslay.Rules.KnownValueWidening.RuleLaws.{ReportedAt, no_known_value_widening_iff}
use zslay.Rules.KnownValueWidening.EndLaws.{no_known_value_widening_ends}

-- Every type of the program is classified as a target.
known-targets :
    (t : ℕ)
    → (o : Option WideningTarget) × (classify_widening_target known_source plain_environment 3 t
        ≡ some o)
unfolding classify_widening_target widening_plan unwrap_transparent_type walk
known-targets zero = (none, refl)
known-targets (suc zero) = (none, refl)
known-targets (suc (suc zero)) = (none, refl)
known-targets (suc (suc (suc zero))) = (none, refl)
known-targets (suc (suc (suc (suc zero)))) = (some unknown_target, refl)
known-targets (suc (suc (suc (suc (suc zero))))) = (none, refl)
known-targets (suc (suc (suc (suc (suc (suc zero)))))) = (none, refl)
known-targets (suc (suc (suc (suc (suc (suc (suc zero))))))) = (none, refl)
known-targets (suc (suc (suc (suc (suc (suc (suc (suc zero)))))))) = (none, refl)
known-targets (suc (suc (suc (suc (suc (suc (suc (suc (suc zero))))))))) = (none, refl)
known-targets (suc (suc (suc (suc (suc (suc (suc (suc (suc (suc t)))))))))) = (none, refl)

no_known_value_widening_example :
    (reports : List Report) × (no_known_value_widening known_source 3 (some plain_environment) 7
      ≡ some reports)
    × ((r : Report)
        → Memᴰ r reports
          ↔ ReportedAt known_source 3 plain_environment 7 (variable_declarator 5 (some 6)) r)
no_known_value_widening_example =
    no_known_value_widening_iff known_source 3 plain_environment known_source-IsScoped known-targets
      known-answers 7

known_aliases : plain_environment.type_aliases ≡ create_type_alias_environment known_source 9
unfolding create_type_alias_environment declared_type_binding enclosing_type_scope
known_aliases = refl

known_source-IsMonomorphic : IsMonomorphic known_source plain_environment.type_aliases
known_source-IsMonomorphic b a alias m e q = absurd (Memᴰ.not-nil m)

known_source-outside : (t : ℕ) → known_source.size ≤ t → known_source.node t ≡ other_node []
known_source-outside t h = entry_at-outside known t (omega arith)

no_known_value_widening_ends_example :
    (reports : List Report) × (no_known_value_widening known_source 1000 (some plain_environment) 7
      ≡ some reports)
    × ((r : Report)
        → Memᴰ r reports
          ↔ ReportedAt known_source 1000 plain_environment 7 (variable_declarator 5 (some 6)) r)
no_known_value_widening_ends_example =
    no_known_value_widening_ends known_source known_source-IsScoped plain_environment 9
      known_aliases known_source-IsMonomorphic known_source-outside 1000 (omega arith) 7

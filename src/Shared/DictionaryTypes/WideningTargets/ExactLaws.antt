-- ===== src/Shared/DictionaryTypes/WideningTargets/ExactLaws.antt =====
-- `classifyWideningTarget` decides the targets in a program without generic aliases.
use zslay.Prelude.{Option, some, ℕ, ◌+◌, ◌↔◌, ◌≡◌, ◌≤◌}
use zslay.Ast.{IsTree, SourceCode}
use zslay.Shared.TypeAlias.{create_type_alias_environment}
use zslay.Shared.DictionaryTypes.{TypeEnvironment}
use zslay.Shared.DictionaryTypes.AliasLaws.{IsMonomorphic}
use zslay.Shared.DictionaryTypes.UnsafeValues.EndLaws.{enough}
use zslay.Shared.DictionaryTypes.WideningTargets.{WideningTarget, classify_widening_target}
use zslay.Shared.DictionaryTypes.WideningTargets.EndLaws.{classify_widening_target_ends}
use zslay.Shared.DictionaryTypes.WideningTargets.TargetLaws.{classify_widening_target_iff}
use zslay.Shared.DictionaryTypes.WideningTargets.Targets.{WidensTo}

-- In a tree whose program declares no generic alias, and with fuel for two ways down the tree for each type binding
-- of the program, and two more, the classification of a type always answers, and the target that it finds is exactly
-- the one that the type has: `unknown` and `object` by their keywords, an anonymous object by a type literal with
-- members but without index signature, and an open dictionary by an index signature, any mapped type or a `Record` with
-- an open key; the same inside transparent wrappers. An alias has the target to which its body leads, which is never
-- an anonymous object, and a mapped type in it needs an open key.
pub classify_widening_target_exact :
    (s : SourceCode) (tree : IsTree s) (environment : TypeEnvironment) (root : ℕ)
    → environment.type_aliases ≡ create_type_alias_environment s root
    → IsMonomorphic s environment.type_aliases
    → (t fuel : ℕ) → enough environment root (t + root) + enough environment root (t + root) ≤ fuel
    → (o : Option WideningTarget) × (classify_widening_target s environment fuel t ≡ some o)
      × ((x : WideningTarget) → (o ≡ some x) ↔ WidensTo s environment t x)
classify_widening_target_exact s tree environment root of_root mono t fuel h =
    let (o, e) = classify_widening_target_ends s tree environment root of_root mono t fuel h in
    (o, e, classify_widening_target_iff s environment fuel t o e)

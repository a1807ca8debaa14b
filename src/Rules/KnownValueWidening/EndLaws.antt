-- ===== src/Rules/KnownValueWidening/EndLaws.antt =====
-- rules/no-known-value-widening.ts answers in a program without generic aliases.
use zslay.Prelude.{
  [], is_some, not, ◌⊎◌, List, Memᴰ, arith, inl, inr, none, refl, some, suc, zero, ℕ, ◌+◌, ◌<◌, ◌↔◌,
  ◌≡◌, ◌≤◌,
}
use zslay.Ast.{IsScoped, Report, SourceCode, other_node, walk_stop}
use zslay.Shared.TypeAlias.{create_type_alias_environment}
use zslay.Shared.DictionaryTypes.{TypeEnvironment, unwrap_transparent_type}
use zslay.Shared.DictionaryTypes.AliasLaws.{IsMonomorphic}
use zslay.Shared.DictionaryTypes.UnsafeValues.{
  classify_unsafe_dictionary_value, result, unsafe_value_within, value_plan,
}
use zslay.Shared.DictionaryTypes.UnsafeValues.EndLaws.{Answers, enough}
use zslay.Shared.DictionaryTypes.UnsafeValues.DictionaryEndLaws.{classify_unsafe_dictionary_ends}
use zslay.Shared.DictionaryTypes.WideningTargets.{classify_widening_target, widening, widening_plan}
use zslay.Shared.DictionaryTypes.WideningTargets.EndLaws.{classify_widening_target_ends}
use zslay.Rules.KnownValueWidening.CallArguments.{has_informative_type}
use zslay.Rules.KnownValueWidening.Handlers.{no_known_value_widening}
use zslay.Rules.KnownValueWidening.RuleLaws.{ReportedAt, no_known_value_widening_iff}

unwrap_transparent_type-other :
    (s : SourceCode) (t : ℕ) → s.node t ≡ other_node [] → unwrap_transparent_type s t ≡ t
unfolding unwrap_transparent_type
unwrap_transparent_type-other s t q = walk_stop _ t (rw q refl)

widening_plan-other :
    (s : SourceCode) (environment : TypeEnvironment) (t : ℕ)
    → s.node t ≡ other_node []
    → widening_plan s environment t ≡ widening none
unfolding widening_plan
widening_plan-other s environment t q =
    rw (unwrap_transparent_type-other s t q, widening_plan) (rw (q, widening_plan) refl)

value_plan-other :
    (s : SourceCode) (environment : TypeEnvironment) (t : ℕ)
    → s.node t ≡ other_node []
    → value_plan s environment [] [] t ≡ result none
unfolding value_plan
value_plan-other s environment t q =
    rw (unwrap_transparent_type-other s t q, value_plan) (rw (q, value_plan) refl)

-- A number above those of the nodes of the tree stands for no type, and one step classifies it.
outside-Answers :
    (s : SourceCode) (environment : TypeEnvironment) (t fuel : ℕ)
    → s.node t ≡ other_node []
    → Answers (classify_widening_target s environment (suc fuel) t)
      × Answers (classify_unsafe_dictionary_value s environment (suc fuel) t)
unfolding classify_widening_target classify_unsafe_dictionary_value unsafe_value_within
outside-Answers s environment t fuel q = (
  (none, rw (widening_plan-other s environment t q, classify_widening_target) refl),
  (none, rw (value_plan-other s environment t q, unsafe_value_within) refl),
)

informative-Answers :
    (s : SourceCode) (environment : TypeEnvironment) (fuel t : ℕ)
    → Answers (classify_unsafe_dictionary_value s environment fuel t)
    → Answers (has_informative_type s environment fuel t)
unfolding has_informative_type
informative-Answers s environment fuel t (v, q) =
    (not (is_some v), rw (q, has_informative_type) refl)

below_or_above : (t k : ℕ) → (t < k) ⊎ (k ≤ t)
below_or_above t zero = inr (omega arith)
below_or_above zero (suc k) = inl (omega arith)
below_or_above (suc t) (suc k) = elim (below_or_above t k) [
  | inl l ↦ inl (omega (arith, l))
  | inr g ↦ inr (omega (arith, g))
]

module _ (s : SourceCode) (scoped : IsScoped s) (environment : TypeEnvironment) (root : ℕ)
    (of_root : environment.type_aliases ≡ create_type_alias_environment s root)
    (mono : IsMonomorphic s environment.type_aliases)
    (outside : (t : ℕ) → s.size ≤ t → s.node t ≡ other_node []) where
  types-Answers :
      (t fuel : ℕ)
      → enough environment root (s.size + root) + enough environment root (s.size + root) ≤ fuel
      → Answers (classify_widening_target s environment fuel t)
        × Answers (classify_unsafe_dictionary_value s environment fuel t)
  types-Answers t zero h = absurd (omega arith)
  types-Answers t (suc fuel) h = elim (below_or_above t s.size) [
    | inl l ↦ (
      classify_widening_target_ends s scoped.tree environment root of_root mono t (suc fuel)
          (omega arith),
      (classify_unsafe_dictionary_ends s scoped.tree environment root of_root mono t (suc fuel)
          (omega arith)).1,
    )
    | inr g ↦ outside-Answers s environment t fuel (outside t g)
  ]

  -- With the trees of a parser and a scope analysis, in a program that declares no generic alias and whose
  -- nodes all have numbers below its size, the rule answers at every node, with fuel for two ways down
  -- the tree for each type binding of the program, and two more, and it reports exactly what the
  -- kind of the node asks for.
  pub no_known_value_widening_ends :
      (fuel : ℕ)
      → enough environment root (s.size + root) + enough environment root (s.size + root) ≤ fuel
      → (n : ℕ)
      → (reports : List Report) × (no_known_value_widening s fuel (some environment) n
          ≡ some reports)
        × ((r : Report) → Memᴰ r reports ↔ ReportedAt s fuel environment n (s.node n) r)
  no_known_value_widening_ends fuel h n =
      no_known_value_widening_iff s fuel environment scoped (λ t. (types-Answers t fuel h).0)
        (λ t. informative-Answers s environment fuel t (types-Answers t fuel h).1) n

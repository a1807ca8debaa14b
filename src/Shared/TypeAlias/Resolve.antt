-- ===== src/Shared/TypeAlias/Resolve.antt =====
-- shared/type-alias-resolution.ts: `aliasSubstitutions` and `resolvedTypeMatches`.
-- A map from type parameters to an argument with the substitutions that it was written under; `bind` is
-- `set`, so the last binding of a name counts.
pub mod SmallerLaws
pub mod MatchLaws
use zslay.Prelude.{
  Bool, List, Option, String, [], contains, false, if◌then◌else◌, is_empty, length, none, some, suc,
  zero, ℕ, ◌+◌, ◌==◌, ◌∷◌,
}
use zslay.Ast.{Node, SourceCode, as_identifier, as_type_reference, ts_type_parameter}
use zslay.Shared.TypeAlias.{Alias, TypeBinding, as_alias, visible_type_alias}

pub data Substitutions : Type 0 where
  no_substitution : Substitutions
  bind : String → ℕ → Substitutions → Substitutions → Substitutions

unfoldable pub lookup : String → Substitutions → Option (ℕ × Substitutions)
lookup name no_substitution = none
lookup name (bind x t captured rest) = if x == name then some (t, captured) else lookup name rest

-- How often one argument can lead into another.
unfoldable pub depth : Substitutions → ℕ
depth no_substitution = 0
depth (bind _ _ captured rest) = suc (depth captured + depth rest)

-- A parameter of an alias: its name and its default.
pub record Parameter : Type 0 where
  pub name : ℕ
  pub default : Option ℕ

abbrev pub as_parameter : Node → Option Parameter
as_parameter (ts_type_parameter name _ default) = some (record { name = name; default = default })
as_parameter _ = none

-- `arguments_[index]` and the arguments behind it
abbrev pub head_of : List ℕ → Option ℕ
head_of [] = none
head_of (x ∷ _) = some x

abbrev pub tail_of : List ℕ → List ℕ
tail_of [] = []
tail_of (_ ∷ xs) = xs

-- What `evaluate` does with a type before it asks the matcher.
pub data Plan : Type 0 where
  match_here : Plan
  substitute : ℕ → Substitutions → Plan
  expand : Substitutions → List ℕ → ℕ → Plan

-- A matcher is given the recursive call on the parts of a type.
abbrev pub Matcher : Type 0
Matcher = (ℕ → Bool) → Node → Bool

module _ (s : SourceCode) where
  -- An explicit argument keeps the substitutions of the reference, a default those bound so far.
  abbrev pub bind_argument :
      Substitutions → Substitutions → String → Option ℕ → Option ℕ → Option Substitutions
  bind_argument base next name (some explicit) default = some (bind name explicit base next)
  bind_argument base next name none (some t) = some (bind name t next next)
  bind_argument base next name none none = none

  -- the loop over `parameters.entries()`, with the arguments that are left
  unfoldable pub bind_parameters :
      Substitutions → Substitutions → List ℕ → List ℕ → Option Substitutions
  bind_parameters base next [] arguments = some next
  bind_parameters base next (p ∷ ps) arguments = elim (as_parameter (s.node p)) [
    | none ↦ none
    | some q ↦ elim (as_identifier (s.node q.name)) [
      | none ↦ none
      | some name ↦ elim (bind_argument base next name (head_of arguments) q.default) [
        | none ↦ none
        | some bound ↦ bind_parameters base bound ps (tail_of arguments)
      ]
    ]
  ]

  unfoldable pub alias_substitutions : Alias → List ℕ → Substitutions → Option Substitutions
  alias_substitutions alias arguments base = bind_parameters base base alias.parameters arguments

  module _ (environment : List TypeBinding) where
    abbrev pub expand_alias : Substitutions → List ℕ → List ℕ → Option ℕ → Plan
    expand_alias substitutions resolving arguments none = match_here
    expand_alias substitutions resolving arguments (some a) =
        if contains resolving a then match_here else elim (as_alias (s.node a)) [
          | none ↦ match_here
          | some alias ↦ elim (alias_substitutions alias arguments substitutions) [
            | none ↦ match_here
            | some next ↦ expand next (a ∷ resolving) alias.type_annotation
          ]
        ]

    abbrev pub plan_name : Substitutions → List ℕ → ℕ → List ℕ → String → Plan
    plan_name substitutions resolving t arguments name =
        let by_alias =
          expand_alias substitutions resolving arguments
            (visible_type_alias s environment name t) in
        elim (lookup name substitutions) [
          | some (u, captured) ↦ if is_empty arguments then substitute u captured else by_alias
          | none ↦ by_alias
        ]

    unfoldable pub plan : Substitutions → List ℕ → ℕ → Plan
    plan substitutions resolving t = elim (as_type_reference (s.node t)) [
      | none ↦ match_here
      | some r ↦ elim (as_identifier (s.node r.type_name)) [
        | none ↦ match_here
        | some name ↦ plan_name substitutions resolving t r.arguments name
      ]
    ]

    module _ (matcher : Matcher) where
      -- The recursion of `evaluate` in three layers: down a type, into a captured argument, into an alias.
      evaluate_node :
          (Substitutions → ℕ → Bool)
          → (Substitutions → List ℕ → ℕ → Bool)
          → ℕ
          → Substitutions
          → List ℕ
          → ℕ
          → Bool
      evaluate_node in_argument in_alias zero substitutions resolving t = false
      evaluate_node in_argument in_alias (suc fuel) substitutions resolving t =
          elim (plan substitutions resolving t) [
            | match_here ↦
                matcher (λ c. evaluate_node in_argument in_alias fuel substitutions resolving c)
                  (s.node t)
            | substitute u captured ↦ in_argument captured u
            | expand next resolving' body ↦ in_alias next resolving' body
          ]

      evaluate_argument :
          (Substitutions → List ℕ → ℕ → Bool) → ℕ → Substitutions → List ℕ → ℕ → Bool
      evaluate_argument in_alias zero substitutions resolving t =
          evaluate_node (λ _ _. false) in_alias (suc t) substitutions resolving t
      evaluate_argument in_alias (suc depth) substitutions resolving t =
          evaluate_node (λ captured u. evaluate_argument in_alias depth captured resolving u)
            in_alias (suc t) substitutions resolving t

      evaluate : ℕ → Substitutions → List ℕ → ℕ → Bool
      evaluate zero substitutions resolving t =
          evaluate_argument (λ _ _ _. false) (depth substitutions) substitutions resolving t
      evaluate (suc aliases) substitutions resolving t =
          evaluate_argument (λ next resolving' body. evaluate aliases next resolving' body)
            (depth substitutions) substitutions resolving t

      -- Each alias is expanded once on the way to a type, so their number is enough.
      unfoldable pub resolved_type_matches : ℕ → Bool
      unfolding evaluate evaluate_argument evaluate_node
      resolved_type_matches t = evaluate (length environment) no_substitution [] t

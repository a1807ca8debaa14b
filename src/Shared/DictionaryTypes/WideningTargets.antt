-- ===== src/Shared/DictionaryTypes/WideningTargets.antt =====
-- shared/dictionary-types.ts: `classifyWideningTarget` and what it calls. The recursions are on fuel; `none` says
-- that it ran out.
pub mod KeyLaws
pub mod BroadLaws
pub mod EndLaws
pub mod OpenKeys
pub mod BroadEnds
pub mod BroadEndsLaws
pub mod Targets
pub mod TargetLaws
pub mod ExactLaws
use zslay.Prelude.{
  ◌>>=◌, Bool, List, Option, String, [], any, any_answer, false, has_name, if◌then◌else◌, is_empty,
  none, not, some, suc, true, zero, ℕ, ◌&&◌, ◌==◌, ◌∷◌,
}
use zslay.Ast.{
  Node, SourceCode, TypeReference, ts_index_signature, ts_keyword, ts_mapped_type,
  ts_number_keyword, ts_object_keyword, ts_string_keyword, ts_symbol_keyword, ts_type_literal,
  ts_type_reference, ts_union_type, ts_unknown_keyword,
}
use zslay.Shared.TypeAlias.{Alias, as_alias, visible_type_alias}
use zslay.Shared.TypeAlias.Resolve.{head_of}
use zslay.Shared.DictionaryTypes.{
  Arguments, TypeEnvironment, alias_substitution, argument, is_built_in, is_unapplied_reference_to,
  reference_name, unwrap_transparent_type,
}
use zslay.Shared.DictionaryTypes.UnsafeValues.{is_wrapper}

pub data WideningTarget : Type 0 where
  anonymous_object generic_container object_target open_dictionary unknown_target : WideningTarget

-- What a call of `isBroadMappedKey` finds: an answer, the members to ask, or the call that it makes in turn.
pub data KeyPlan : Type 0 where
  known : Bool → KeyPlan
  some_key : List ℕ → KeyPlan
  key_inside : ℕ → KeyPlan
  key_aliased : List String → ℕ → KeyPlan

-- The same for `classifyAliasBroadTarget`, which may ask for the key of a dictionary.
pub data BroadPlan : Type 0 where
  target : Option WideningTarget → BroadPlan
  open_if_key : ℕ → BroadPlan
  broad_inside : ℕ → BroadPlan
  broad_aliased : Arguments → List String → ℕ → BroadPlan

-- The same for `classifyWideningTarget`; `into_alias` says whether the alias has type parameters.
pub data WideningPlan : Type 0 where
  widening : Option WideningTarget → WideningPlan
  widening_if_key : ℕ → WideningPlan
  widening_inside : ℕ → WideningPlan
  into_alias : Bool → Arguments → String → ℕ → WideningPlan

abbrev pub is_index_signature : Node → Bool
is_index_signature (ts_index_signature _ _) = true
is_index_signature _ = false

abbrev pub open_if : Bool → Option WideningTarget
open_if true = some open_dictionary
open_if false = none

-- what `classifyWideningTarget` makes of the target of an alias
abbrev pub through_alias : Bool → Option WideningTarget → Option WideningTarget
through_alias true (some open_dictionary) = some generic_container
through_alias true _ = none
through_alias false found = found

module _ (s : SourceCode) (environment : TypeEnvironment) where
  abbrev pub has_index_signature : List ℕ → Bool
  has_index_signature members = any (λ m. is_index_signature (s.node m)) members

  abbrev pub key_of_alias : List String → String → Alias → KeyPlan
  key_of_alias visited name alias =
      if is_empty alias.parameters && not (has_name visited name)
      then key_aliased (name ∷ visited) alias.type_annotation
      else known false

  abbrev pub key_of_name : List String → ℕ → String → KeyPlan
  key_of_name visited u name =
      if name == "PropertyKey" && is_built_in s environment name u
      then known true
      else elim (visible_type_alias s environment.type_aliases name u) [
        | none ↦ known false
        | some a ↦ elim (as_alias (s.node a)) [
          | none ↦ known false
          | some alias ↦ key_of_alias visited name alias
        ]
      ]

  abbrev pub key_of_reference : Arguments → List String → ℕ → TypeReference → KeyPlan
  key_of_reference substitutions visited u r = elim (reference_name s r) [
    | none ↦ known false
    | some name ↦ elim (argument name substitutions) [
      | none ↦ key_of_name visited u name
      | some t ↦
          if is_unapplied_reference_to s t name then key_of_name visited u name else key_inside t
    ]
  ]

  abbrev pub key_of_node : Arguments → List String → ℕ → Node → KeyPlan
  key_of_node substitutions visited u (ts_keyword ts_string_keyword) = known true
  key_of_node substitutions visited u (ts_keyword ts_number_keyword) = known true
  key_of_node substitutions visited u (ts_keyword ts_symbol_keyword) = known true
  key_of_node substitutions visited u (ts_union_type ts) = some_key ts
  key_of_node substitutions visited u (ts_type_reference n ts) =
      key_of_reference substitutions visited u (record { type_name = n; arguments = ts })
  key_of_node substitutions visited u _ = known false

  unfoldable pub key_plan : Arguments → List String → ℕ → KeyPlan
  key_plan substitutions visited t =
      let u = unwrap_transparent_type s t in key_of_node substitutions visited u (s.node u)

  -- `isBroadMappedKey`
  unfoldable pub broad_key_within : ℕ → Arguments → List String → ℕ → Option Bool
  broad_key_within zero substitutions visited t = none
  broad_key_within (suc fuel) substitutions visited t = elim (key_plan substitutions visited t) [
    | known b ↦ some b
    | some_key ts ↦ any_answer (λ k. broad_key_within fuel substitutions visited k) ts
    | key_inside k ↦ broad_key_within fuel substitutions visited k
    | key_aliased visited' body ↦ broad_key_within fuel substitutions visited' body
  ]

  -- `hasBroadRecordKey` answers `true` where there is no key
  abbrev pub broad_of_key : Option ℕ → BroadPlan
  broad_of_key none = target (some open_dictionary)
  broad_of_key (some key) = open_if_key key

  abbrev pub broad_of_wrapped : Option ℕ → BroadPlan
  broad_of_wrapped none = target none
  broad_of_wrapped (some t) = broad_inside t

  abbrev pub broad_of_alias : Arguments → List String → ℕ → String → List ℕ → BroadPlan
  broad_of_alias substitutions resolving u name arguments =
      elim (visible_type_alias s environment.type_aliases name u) [
        | none ↦ target none
        | some a ↦ elim (has_name resolving name) [
          | true ↦ target none
          | false ↦ elim (as_alias (s.node a)) [
            | none ↦ target none
            | some alias ↦ elim (alias_substitution s alias arguments substitutions) [
              | none ↦ target none
              | some next ↦ broad_aliased next (name ∷ resolving) alias.type_annotation
            ]
          ]
        ]
      ]

  abbrev pub broad_of_name : Arguments → List String → ℕ → String → List ℕ → BroadPlan
  broad_of_name substitutions resolving u name arguments = elim (argument name substitutions) [
    | some t ↦ if is_unapplied_reference_to s t name then target none else broad_inside t
    | none ↦
        if is_wrapper s environment name u
        then broad_of_wrapped (head_of arguments)
        else if name == "Record" && is_built_in s environment name u
        then broad_of_key (head_of arguments)
        else broad_of_alias substitutions resolving u name arguments
  ]

  abbrev pub broad_of_node : Arguments → List String → ℕ → Node → BroadPlan
  broad_of_node substitutions resolving u (ts_keyword ts_unknown_keyword) =
      target (some unknown_target)
  broad_of_node substitutions resolving u (ts_keyword ts_object_keyword) =
      target (some object_target)
  broad_of_node substitutions resolving u (ts_type_literal members) =
      target (open_if (has_index_signature members))
  broad_of_node substitutions resolving u (ts_mapped_type _ constraint _ _) = open_if_key constraint
  broad_of_node substitutions resolving u (ts_type_reference n ts) =
      elim (reference_name s (record { type_name = n; arguments = ts })) [
        | none ↦ target none
        | some name ↦ broad_of_name substitutions resolving u name ts
      ]
  broad_of_node substitutions resolving u _ = target none

  unfoldable pub broad_plan : Arguments → List String → ℕ → BroadPlan
  broad_plan substitutions resolving t =
      let u = unwrap_transparent_type s t in broad_of_node substitutions resolving u (s.node u)

  -- `classifyAliasBroadTarget`
  unfoldable pub broad_target_within :
      ℕ → Arguments → List String → ℕ → Option (Option WideningTarget)
  broad_target_within zero substitutions resolving t = none
  broad_target_within (suc fuel) substitutions resolving t =
      elim (broad_plan substitutions resolving t) [
        | target found ↦ some found
        | open_if_key key ↦
            broad_key_within fuel substitutions [] key >>= λ broad. some (open_if broad)
        | broad_inside k ↦ broad_target_within fuel substitutions resolving k
        | broad_aliased next resolving' body ↦ broad_target_within fuel next resolving' body
      ]

  abbrev pub widening_of_key : Option ℕ → WideningPlan
  widening_of_key none = widening (some open_dictionary)
  widening_of_key (some key) = widening_if_key key

  abbrev pub widening_of_wrapped : Option ℕ → WideningPlan
  widening_of_wrapped none = widening none
  widening_of_wrapped (some t) = widening_inside t

  abbrev pub widening_of_alias : ℕ → String → List ℕ → WideningPlan
  widening_of_alias u name arguments = elim (visible_type_alias s environment.type_aliases name u) [
    | none ↦ widening none
    | some a ↦ elim (as_alias (s.node a)) [
      | none ↦ widening none
      | some alias ↦ elim (alias_substitution s alias arguments []) [
        | none ↦ widening none
        | some next ↦ into_alias (not (is_empty alias.parameters)) next name alias.type_annotation
      ]
    ]
  ]

  abbrev pub widening_of_name : ℕ → String → List ℕ → WideningPlan
  widening_of_name u name arguments =
      if is_wrapper s environment name u
      then widening_of_wrapped (head_of arguments)
      else if name == "Record" && is_built_in s environment name u
      then widening_of_key (head_of arguments)
      else widening_of_alias u name arguments

  -- the verdict on a type literal
  abbrev pub widening_of_members : List ℕ → WideningPlan
  widening_of_members members =
      if has_index_signature members
      then widening (some open_dictionary)
      else if is_empty members
      then widening none
      else widening (some anonymous_object)

  abbrev pub widening_of_node : ℕ → Node → WideningPlan
  widening_of_node u (ts_keyword ts_unknown_keyword) = widening (some unknown_target)
  widening_of_node u (ts_keyword ts_object_keyword) = widening (some object_target)
  widening_of_node u (ts_type_literal members) = widening_of_members members
  widening_of_node u (ts_mapped_type _ _ _ _) = widening (some open_dictionary)
  widening_of_node u (ts_type_reference n ts) =
      elim (reference_name s (record { type_name = n; arguments = ts })) [
        | none ↦ widening none
        | some name ↦ widening_of_name u name ts
      ]
  widening_of_node u _ = widening none

  unfoldable pub widening_plan : ℕ → WideningPlan
  widening_plan t = let u = unwrap_transparent_type s t in widening_of_node u (s.node u)

  -- `classifyWideningTarget`
  unfoldable pub classify_widening_target : ℕ → ℕ → Option (Option WideningTarget)
  classify_widening_target zero t = none
  classify_widening_target (suc fuel) t = elim (widening_plan t) [
    | widening found ↦ some found
    | widening_if_key key ↦ broad_key_within fuel [] [] key >>= λ broad. some (open_if broad)
    | widening_inside k ↦ classify_widening_target fuel k
    | into_alias generic next name body ↦
        broad_target_within fuel next (name ∷ []) body >>= λ found.
        some (through_alias generic found)
  ]

-- ===== src/Shared/DictionaryTypes/UnsafeValues.antt =====
-- shared/dictionary-types.ts: `unsafeDirectValue` and `dictionaryValueTypes`, and the two classifications made of
-- them. The recursions are on fuel; `none` says that it ran out.
pub mod EndLaws
pub mod DictionaryEndLaws
pub mod LoopLaws
use zslay.Prelude.{
  Bool, List, Option, String, [], all, any, false, gather, get_elem?, has_name, if◌then◌else◌,
  is_empty, is_some, length, none, not, some, suc, true, zero, ℕ, ◌&&◌, ◌*◌, ◌+◌, ◌==◌, ◌>>=◌, ◌||◌,
  ◌∷◌,
}
use zslay.Ast.{
  Node, SourceCode, TypeReference, as_type_reference, ts_any_keyword, ts_index_signature,
  ts_intersection_type, ts_keyword, ts_mapped_type, ts_object_keyword, ts_type_literal,
  ts_type_reference, ts_union_type, ts_unknown_keyword,
}
use zslay.Shared.TypeAlias.{as_alias, visible_type_alias}
use zslay.Shared.TypeAlias.Resolve.{head_of}
use zslay.Shared.DictionaryTypes.{
  Arguments, TypeEnvironment, alias_substitution, are_effectively_empty, argument, interfaces_named,
  is_built_in, is_effectively_empty_interface, is_unapplied_reference_to, reference_name,
  transparent_wrappers, unwrap_transparent_type,
}

pub data UnsafeValue : Type 0 where
  any_value empty_object object_value union_value unknown_value : UnsafeValue

abbrev pub is_any : Option UnsafeValue → Bool
is_any (some any_value) = true
is_any _ = false

-- What a call of `unsafeDirectValue` finds: a result, the members to ask, or the call that it makes in turn.
pub data ValuePlan : Type 0 where
  result : Option UnsafeValue → ValuePlan
  some_member every_member : List ℕ → ValuePlan
  inside : ℕ → ValuePlan
  aliased : Arguments → List String → ℕ → ValuePlan

-- The type of a dictionary's values, with the arguments under which it is read.
pub record ResolvedType : Type 0 where
  pub type : ℕ
  pub substitutions : Arguments

pub data DictionaryPlan : Type 0 where
  values : List ResolvedType → DictionaryPlan
  source : ℕ → DictionaryPlan
  aliased : Arguments → List String → ℕ → DictionaryPlan

-- `members.some(…)` on a test that may run out of fuel; it stops at the first member that passes.
abbrev pub some_unsafe : (ℕ → Option (Option UnsafeValue)) → List ℕ → Option Bool
some_unsafe value [] = some false
some_unsafe value (t ∷ ts) = elim (value t) [
  | none ↦ none
  | some (some _) ↦ some true
  | some none ↦ some_unsafe value ts
]

-- `members.map(…)`
abbrev pub all_values :
    (ℕ → Option (Option UnsafeValue)) → List ℕ → Option (List (Option UnsafeValue))
all_values value [] = some []
all_values value (t ∷ ts) = value t >>= λ v. all_values value ts >>= λ vs. some (v ∷ vs)

abbrev pub union_verdict : Bool → Option UnsafeValue
union_verdict true = some union_value
union_verdict false = none

abbrev pub first_value : List (Option UnsafeValue) → Option UnsafeValue
first_value [] = none
first_value (v ∷ _) = v

abbrev pub intersection_verdict : List (Option UnsafeValue) → Option UnsafeValue
intersection_verdict vs =
    if any is_any vs
    then some any_value
    else if not (is_empty vs) && all is_some vs
    then first_value vs
    else none

-- the type of an index signature's values
abbrev pub index_value : Arguments → Node → List ResolvedType
index_value substitutions (ts_index_signature _ (some a)) =
    record { type = a.type_annotation; substitutions = substitutions } ∷ []
index_value substitutions _ = []

abbrev pub mapped_value : Arguments → Option ℕ → List ResolvedType
mapped_value substitutions none = []
mapped_value substitutions (some t) = record { type = t; substitutions = substitutions } ∷ []

abbrev pub source_type : Option ℕ → DictionaryPlan
source_type none = values []
source_type (some t) = source t

module _ (s : SourceCode) (environment : TypeEnvironment) where
  -- `TRANSPARENT_WRAPPERS.has(name) && isBuiltIn(name, …)`
  abbrev pub is_wrapper : String → ℕ → Bool
  is_wrapper name u = has_name transparent_wrappers name && is_built_in s environment name u

  -- the last steps, into a visible alias
  abbrev pub value_of_alias : Arguments → List String → ℕ → String → List ℕ → ValuePlan
  value_of_alias substitutions resolving u name arguments =
      elim (visible_type_alias s environment.type_aliases name u) [
        | none ↦ result none
        | some a ↦ elim (has_name resolving name) [
          | true ↦ result none
          | false ↦ elim (as_alias (s.node a)) [
            | none ↦ result none
            | some alias ↦ elim (alias_substitution s alias arguments substitutions) [
              | none ↦ result none
              | some next ↦ aliased next (name ∷ resolving) alias.type_annotation
            ]
          ]
        ]
      ]

  abbrev pub value_of_interface : List ℕ → ValuePlan → ValuePlan
  value_of_interface [] otherwise = otherwise
  value_of_interface (d ∷ ds) otherwise =
      result (if is_effectively_empty_interface s (d ∷ ds) then some empty_object else none)

  abbrev pub value_of_name : Arguments → List String → ℕ → String → List ℕ → ValuePlan
  value_of_name substitutions resolving u name arguments = elim (is_wrapper name u) [
    | true ↦ elim (head_of arguments) [ none ↦ result none | some wrapped ↦ inside wrapped ]
    | false ↦ elim (argument name substitutions) [
      | some t ↦ if is_unapplied_reference_to s t name then result none else inside t
      | none ↦
          value_of_interface (interfaces_named s environment name)
            (value_of_alias substitutions resolving u name arguments)
    ]
  ]

  abbrev pub value_of_reference : Arguments → List String → ℕ → TypeReference → ValuePlan
  value_of_reference substitutions resolving u r = elim (reference_name s r) [
    | none ↦ result none
    | some name ↦ value_of_name substitutions resolving u name r.arguments
  ]

  abbrev pub value_of_node : Arguments → List String → ℕ → Node → ValuePlan
  value_of_node substitutions resolving u (ts_keyword ts_unknown_keyword) =
      result (some unknown_value)
  value_of_node substitutions resolving u (ts_keyword ts_any_keyword) = result (some any_value)
  value_of_node substitutions resolving u (ts_keyword ts_object_keyword) =
      result (some object_value)
  value_of_node substitutions resolving u (ts_type_literal members) =
      result (if are_effectively_empty s members then some empty_object else none)
  value_of_node substitutions resolving u (ts_union_type ts) = some_member ts
  value_of_node substitutions resolving u (ts_intersection_type ts) = every_member ts
  value_of_node substitutions resolving u (ts_type_reference n ts) =
      value_of_reference substitutions resolving u (record { type_name = n; arguments = ts })
  value_of_node substitutions resolving u _ = result none

  unfoldable pub value_plan : Arguments → List String → ℕ → ValuePlan
  value_plan substitutions resolving t =
      let u = unwrap_transparent_type s t in value_of_node substitutions resolving u (s.node u)

  -- `unsafeDirectValue`
  unfoldable pub unsafe_value_within : ℕ → Arguments → List String → ℕ → Option (Option UnsafeValue)
  unsafe_value_within zero substitutions resolving t = none
  unsafe_value_within (suc fuel) substitutions resolving t =
      elim (value_plan substitutions resolving t) [
        | result v ↦ some v
        | some_member ts ↦
            some_unsafe (λ k. unsafe_value_within fuel substitutions resolving k) ts >>= λ found.
            some (union_verdict found)
        | every_member ts ↦
            all_values (λ k. unsafe_value_within fuel substitutions resolving k) ts >>= λ vs.
            some (intersection_verdict vs)
        | inside k ↦ unsafe_value_within fuel substitutions resolving k
        | aliased next resolving' body ↦ unsafe_value_within fuel next resolving' body
      ]

  abbrev pub values_of_alias : Arguments → List String → ℕ → String → List ℕ → DictionaryPlan
  values_of_alias substitutions resolving u name arguments =
      elim (visible_type_alias s environment.type_aliases name u) [
        | none ↦ values []
        | some a ↦ elim (has_name resolving name) [
          | true ↦ values []
          | false ↦ elim (as_alias (s.node a)) [
            | none ↦ values []
            | some alias ↦ elim (alias_substitution s alias arguments substitutions) [
              | none ↦ values []
              | some next ↦ DictionaryPlan.aliased next (name ∷ resolving) alias.type_annotation
            ]
          ]
        ]
      ]

  abbrev pub values_of_name : Arguments → List String → ℕ → String → List ℕ → DictionaryPlan
  values_of_name substitutions resolving u name arguments = elim (argument name substitutions) [
    | some t ↦ if is_unapplied_reference_to s t name then values [] else source t
    | none ↦
        if is_wrapper name u
        then source_type (head_of arguments)
        else if name == "Record" && is_built_in s environment name u
        then values (mapped_value substitutions (get_elem? arguments 1))
        else if (name == "Pick" || name == "Omit") && is_built_in s environment name u
        then source_type (head_of arguments)
        else values_of_alias substitutions resolving u name arguments
  ]

  abbrev pub values_of_node : Arguments → List String → ℕ → Node → DictionaryPlan
  values_of_node substitutions resolving u (ts_type_literal members) =
      values (gather (λ m. index_value substitutions (s.node m)) members)
  values_of_node substitutions resolving u (ts_mapped_type _ _ _ annotation) =
      values (mapped_value substitutions annotation)
  values_of_node substitutions resolving u (ts_type_reference n ts) =
      elim (reference_name s (record { type_name = n; arguments = ts })) [
        | none ↦ values []
        | some name ↦ values_of_name substitutions resolving u name ts
      ]
  values_of_node substitutions resolving u _ = values []

  unfoldable pub dictionary_plan : Arguments → List String → ℕ → DictionaryPlan
  dictionary_plan substitutions resolving t =
      let u = unwrap_transparent_type s t in values_of_node substitutions resolving u (s.node u)

  -- `dictionaryValueTypes`
  unfoldable pub dictionary_values_within :
      ℕ → Arguments → List String → ℕ → Option (List ResolvedType)
  dictionary_values_within zero substitutions resolving t = none
  dictionary_values_within (suc fuel) substitutions resolving t =
      elim (dictionary_plan substitutions resolving t) [
        | values ts ↦ some ts
        | source k ↦ dictionary_values_within fuel substitutions resolving k
        | DictionaryPlan.aliased next resolving' body ↦
            dictionary_values_within fuel next resolving' body
      ]

  -- `classifyUnsafeDictionaryValue`
  unfoldable pub classify_unsafe_dictionary_value : ℕ → ℕ → Option (Option UnsafeValue)
  classify_unsafe_dictionary_value fuel t = unsafe_value_within fuel [] [] t

  -- the loop of `classifyUnsafeDictionary`
  abbrev pub first_unsafe : ℕ → List ResolvedType → Option (Option UnsafeValue)
  first_unsafe fuel [] = some none
  first_unsafe fuel (t ∷ ts) = elim (unsafe_value_within fuel t.substitutions [] t.type) [
    | none ↦ none
    | some (some v) ↦ some (some v)
    | some none ↦ first_unsafe fuel ts
  ]

  unfoldable pub classify_unsafe_dictionary : ℕ → ℕ → Option (Option UnsafeValue)
  classify_unsafe_dictionary fuel t = dictionary_values_within fuel [] [] t >>= first_unsafe fuel

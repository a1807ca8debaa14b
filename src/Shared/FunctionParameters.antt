-- ===== src/Shared/FunctionParameters.antt =====
-- shared/function-parameters.ts
pub mod UnknownLaws
use zslay.Prelude.{
  Bool, List, Option, String, [], any, contains, false, if◌then◌else◌, none, some, suc, trim_end,
  true, white_space, zero, ℕ, ◌-◌, ◌∷◌,
}
use zslay.Ast.{
  Annotation, Node, SourceCode, array_pattern, assignment_pattern, identifier, object_pattern,
  rest_element, ts_keyword, ts_parameter_property, ts_parenthesized_type, ts_union_type,
  ts_unknown_keyword, walk,
}
use Prim.Native.Char.{Char, code}

-- `text.slice(0, n)`
unfoldable pub slice_to : ℕ → String → String
slice_to zero t = ""
slice_to (suc n) String.[] = ""
slice_to (suc n) (String.◌∷◌ c t) = String.◌∷◌ c (slice_to n t)

module _ (s : SourceCode) where
  -- The calls of `containsUnknownType` on the members of a union are made in order; `rec` is the call.
  abbrev pub unknown_in : (ℕ → Bool) → Node → Bool
  unknown_in rec (ts_keyword ts_unknown_keyword) = true
  unknown_in rec (ts_parenthesized_type t) = rec t
  unknown_in rec (ts_union_type ts) = any rec ts
  unknown_in rec _ = false

  unfoldable pub contains_unknown_within : ℕ → ℕ → Bool
  contains_unknown_within zero t = false
  contains_unknown_within (suc fuel) t = unknown_in (λ k. contains_unknown_within fuel k) (s.node t)

  -- The fields of a type have smaller numbers than the type, so this fuel is enough.
  unfoldable pub contains_unknown_type : ℕ → Bool
  contains_unknown_type t = contains_unknown_within (suc t) t

  -- The parameter that a wrapper goes on with, and the annotation of its own that comes first.
  abbrev pub wrapped_parameter : Node → Option ℕ
  wrapped_parameter (ts_parameter_property p) = some p
  wrapped_parameter (rest_element p none) = some p
  wrapped_parameter (assignment_pattern p _ none) = some p
  wrapped_parameter _ = none

  abbrev pub own_annotation : Node → Option Annotation
  own_annotation (rest_element _ t) = t
  own_annotation (assignment_pattern _ _ t) = t
  own_annotation (identifier _ t) = t
  own_annotation (object_pattern _ t) = t
  own_annotation (array_pattern _ t) = t
  own_annotation _ = none

  unfoldable pub function_parameter_type_annotation : ℕ → Option Annotation
  function_parameter_type_annotation p =
      own_annotation (s.node (walk (λ k. wrapped_parameter (s.node k)) p))

  -- The wrappers of `functionParameterBindingName`.
  abbrev pub wrapped_binding : Node → Option ℕ
  wrapped_binding (ts_parameter_property p) = some p
  wrapped_binding (rest_element p _) = some p
  wrapped_binding (assignment_pattern p _ _) = some p
  wrapped_binding _ = none

  -- the text of a pattern without its annotation
  abbrev pub binding_text : ℕ → Node → String
  binding_text p (identifier name _) = name
  binding_text p v = elim (own_annotation v) [
    | none ↦ s.get_text p
    | some a ↦ trim_end (slice_to (a.start - s.start p) (s.get_text p))
  ]

  unfoldable pub function_parameter_binding_name : ℕ → String
  function_parameter_binding_name p =
      let b = walk (λ k. wrapped_binding (s.node k)) p in binding_text b (s.node b)
